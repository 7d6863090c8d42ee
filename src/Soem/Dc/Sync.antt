-- ===== src/Soem/Dc/Sync.antt =====
-- soem/ethercatdc.c: the sync pulses of a slave. Times are integers without a bound, in nanoseconds.
use bharatiya_beagle_bone.Common.{
  ℕ, zero, suc, ◌+◌, ◌-◌, ◌*◌, ◌/◌, ◌%◌, ◌^◌, Bool, Option, none, some, ltb, ◌==◌, if◌then◌else◌,
  List, [], ◌∷◌, replicate, u32, low_bytes, number_of, Run,
}
use bharatiya_beagle_bone.Common.Int.{ℤ, pos, negsuc, ◌+ℤ◌, div_ℤ, scale_ℤ}
use bharatiya_beagle_bone.Soem.Nic.{Wire, ec_timeoutret}
use bharatiya_beagle_bone.Soem.Base.{ecx_fprd, ecx_fpwr, reg_dcsystime}
use bharatiya_beagle_bone.Soem.Slaves.{Context, slave_of, with_slave, on_net}

abbrev pub reg_dccuc : ℕ
reg_dccuc = 0x0980

abbrev pub reg_dcsyncact : ℕ
reg_dcsyncact = 0x0981

abbrev pub reg_dcstart0 : ℕ
reg_dcstart0 = 0x0990

abbrev pub reg_dccycle0 : ℕ
reg_dccycle0 = 0x09a0

abbrev pub reg_dccycle1 : ℕ
reg_dccycle1 = 0x09a4

-- The delay of the first pulse: 100 ms
abbrev pub syncdelay : ℕ
syncdelay = 100000000

-- The bit pattern of an int64, and its value.
unfoldable pub pattern64 : ℤ → ℕ
pattern64 (pos n) = n % 2 ^ 64
pattern64 (negsuc n) = 2 ^ 64 - 1 - n % 2 ^ 64

unfoldable pub signed64 : ℕ → ℤ
signed64 w = if ltb w (2 ^ 63) then pos w else negsuc (2 ^ 64 - 1 - w)

-- The time of the first pulse, from the slave's time t1.
unfoldable pub first_trigger : ℤ → ℕ → ℤ → ℤ
first_trigger t1 cycltime cyclshift =
    let soon = t1 +ℤ pos syncdelay in
    if ltb 0 cycltime
    then scale_ℤ (div_ℤ soon cycltime) cycltime +ℤ pos cycltime +ℤ cyclshift
    else soon +ℤ cyclshift

-- The cycle after which both pulses fall together again, as a uint32; there is none where the
-- source divides by zero.
unfoldable pub true_cycltime : ℕ → ℕ → Option ℕ
true_cycltime cycltime0 cycltime1 =
    if cycltime0 == 0 then none else some (u32 (u32 (cycltime1 / cycltime0 + 1) * cycltime0))

module _ {W : Type 0} (wire : Wire W) where
  abbrev write_register : ℕ → ℕ → ℕ → List ℕ → Context W → Context W
  write_register configadr reg n bytes c =
      (on_net wire (ecx_fpwr wire configadr reg n bytes ec_timeoutret) c).1

  -- The cyclic operation stopped, the clock handed to the master, and the slave's time.
  unfoldable pub stop_sync : ℕ → Run (Context W) ℤ
  unfolding ecx_fpwr ecx_fprd signed64 number_of
  stop_sync configadr c =
      let c1 = write_register configadr reg_dcsyncact 1 (0 ∷ []) c in
      let c2 = write_register configadr reg_dccuc 1 (0 ∷ []) c1 in
      let (answer, c3) =
        on_net wire (ecx_fprd wire configadr reg_dcsystime 8 (replicate 8 0) ec_timeoutret) c2 in
      (signed64 (number_of answer.1), c3)

  -- What is kept of the settings.
  abbrev settings : ℕ → Bool → ℕ → ℤ → Context W → Context W
  settings slave act cycltime cyclshift =
      with_slave wire slave
        (λ s. record s { dcactive = act; dcshift = cyclshift; dccycle = cycltime })

  -- `ecx_dcsync0`
  unfoldable pub dcsync0 : ℕ → Bool → ℕ → ℤ → Context W → Context W
  unfolding stop_sync first_trigger ecx_fpwr low_bytes pattern64
  dcsync0 slave act cycltime cyclshift c =
      let slaveh = (slave_of wire c slave).configadr in
      let ra = if act then 1 + 2 else 0 in
      let (t1, c1) = stop_sync slaveh c in
      let t = first_trigger t1 cycltime cyclshift in
      let c2 = write_register slaveh reg_dcstart0 8 (low_bytes 8 (pattern64 t)) c1 in
      let c3 = write_register slaveh reg_dccycle0 4 (low_bytes 4 cycltime) c2 in
      let c4 = write_register slaveh reg_dcsyncact 1 (ra ∷ []) c3 in
      settings slave act cycltime cyclshift c4

  -- `ecx_dcsync01`, with none for a division by zero. The cycle can only be 0 behind the first
  -- division by overflow, so the branch of the source for a cycle of 0 is not reached.
  unfoldable pub dcsync01 : ℕ → Bool → ℕ → ℕ → ℤ → Context W → Option (Context W)
  unfolding stop_sync first_trigger true_cycltime ecx_fpwr low_bytes pattern64
  dcsync01 slave act cycltime0 cycltime1 cyclshift c = elim (true_cycltime cycltime0 cycltime1) [
    | none ↦ none
    | some zero ↦ none
    | some (suc n) ↦ some (run (suc n))
  ]
    where
      run : ℕ → Context W
      run truecycltime =
          let slaveh = (slave_of wire c slave).configadr in
          let ra = if act then 1 + 2 + 4 else 0 in
          let (t1, c1) = stop_sync slaveh c in
          let t = first_trigger t1 truecycltime cyclshift in
          let c2 = write_register slaveh reg_dcstart0 8 (low_bytes 8 (pattern64 t)) c1 in
          let c3 = write_register slaveh reg_dccycle0 4 (low_bytes 4 cycltime0) c2 in
          let c4 = write_register slaveh reg_dccycle1 4 (low_bytes 4 cycltime1) c3 in
          let c5 = write_register slaveh reg_dcsyncact 1 (ra ∷ []) c4 in
          settings slave act cycltime0 cyclshift c5
