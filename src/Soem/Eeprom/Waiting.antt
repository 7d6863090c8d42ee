-- ===== src/Soem/Eeprom/Waiting.antt =====
-- Waiting for the EEPROM of a slave that does not answer.
use bharatiya_beagle_bone.Common.{
  ℕ, ◌≡◌, refl, ap, true, ltb, not, if◌then◌else◌, [], ◌∷◌, do_while-invariant,
}
use bharatiya_beagle_bone.Common.Int.{pos}
use bharatiya_beagle_bone.Soem.Frame.{word_at}
use bharatiya_beagle_bone.Soem.Nic.{Wire, Net, ec_timeoutret}
use bharatiya_beagle_bone.Soem.Registers.{reg_eepstat, estat_busy, ec_localdelay}
use bharatiya_beagle_bone.Soem.Eeprom.{
  has_bits, Access, Waited, sleep, poll_status, still_busy, waitnotbusy,
}

-- A slave that never answers a read of its status, so that the buffer of the call stays as it was,
-- is taken for one whose EEPROM is ready, with the status 0, however long the wait.
pub waitnotbusy_silent :
    {W : Type 0} (wire : Wire W) (access : Access W) (adr timeout : ℕ) (n : Net W)
    → ((m : Net W) → (access.reads adr reg_eepstat 2 (0 ∷ 0 ∷ []) ec_timeoutret m).0.1 ≡ 0 ∷ 0 ∷ [])
    → (waitnotbusy wire access adr timeout n).0 ≡ (true, 0)
unfolding waitnotbusy poll_status
waitnotbusy_silent wire access adr timeout n silent =
    let start : Waited = record { count = 0; wkc = pos 0; estat = 0 } in
    let found =
      do_while-invariant (still_busy wire access adr) (poll_status wire access adr)
        (λ (r : Waited × Net _). r.0.estat ≡ 0)
        (λ w m _.
          ap (λ bytes. word_at bytes 0)
            (silent (if ltb 0 w.count then sleep wire ec_localdelay m else m)))
        (wire.polls timeout n.world) start n refl in
    ap (λ estat. (not (has_bits estat_busy estat), estat)) found
