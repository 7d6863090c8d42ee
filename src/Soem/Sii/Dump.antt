-- ===== src/Soem/Sii/Dump.antt =====
-- soem/ethercatmain.c: `ecx_esidump`, the whole EEPROM of a slave into a buffer of the caller.
use bharatiya_beagle_bone.Common.{
  ℕ, zero, suc, ◌+◌, ◌*◌, ◌/◌, ◌≡◌, ◌≤◌, ◌<◌, refl, arith, Bool, true, false, ltb, ◌==◌, ◌&&◌, not,
  if◌then◌else◌, List, u16, memcpy, bytes_at, Run,
}
use bharatiya_beagle_bone.Soem.Frame.{word_at}
use bharatiya_beagle_bone.Soem.Nic.{Wire}
use bharatiya_beagle_bone.Soem.Registers.{ec_timeouteep}
use bharatiya_beagle_bone.Soem.Slaves.{Context, slave_of, eeprom2master, readeeprom_fp, give_back}
use bharatiya_beagle_bone.Soem.Sii.{ec_maxeepbuf, sii_start}

-- Words per access.
unfoldable dump_step : Bool → ℕ
dump_step eep_8byte = if eep_8byte then 4 else 2

-- The test at the end of the loop: `address` is the next one, and the low four bytes of the last
-- answer are not all ones.
unfoldable goes_on : ℕ → List ℕ → Bool
goes_on address edat =
    ltb address (ec_maxeepbuf / 2 + 1)
    && not ((word_at edat 0 == 0xffff) && (word_at edat 2 == 0xffff))

module _ {W : Type 0} (wire : Wire W) (passes configadr : ℕ) where
  -- The loop of `ecx_esidump`; `at` is the place of p16 in the buffer, in bytes.
  unfoldable dump_from : ℕ → Bool → ℕ → ℕ → List ℕ → Run (Context W) (List ℕ)
  unfolding readeeprom_fp dump_step goes_on
  dump_from zero long address at buf c = (buf, c)
  dump_from (suc rounds) long address at buf c =
      let (edat, c1) = readeeprom_fp wire passes configadr address ec_timeouteep c in
      let next = u16 (address + dump_step long) in
      let stored = memcpy buf at (bytes_at edat 0 8) in
      let rest = dump_from rounds long next (at + 2 * dump_step long) stored c1 in
      if goes_on next edat then rest else (stored, c1)

-- As many rounds as the loop can have: two words at least in each, from ECT_SII_START to the end.
abbrev dump_rounds : ℕ
dump_rounds = 993

-- `ecx_esidump`: what it leaves in the buffer.
unfoldable esidump : {W : Type 0} → Wire W → ℕ → ℕ → List ℕ → Run (Context W) (List ℕ)
unfolding eeprom2master give_back
esidump wire passes slave buf c =
    let before = slave_of wire c slave in
    let (_, c1) = eeprom2master wire slave c in
    let held = slave_of wire c1 slave in
    let (dumped, c2) =
      dump_from wire passes held.configadr dump_rounds held.eep_8byte sii_start 0 buf c1 in
    (dumped, give_back wire before.eep_pdi slave c2)

then_same {ℓ} :
    {A : Type ℓ} (b : Bool) (x y z : A)
    → (b ≡ true → x ≡ y)
    → (if b then x else z) ≡ (if b then y else z)
then_same true x y z same = same refl
then_same false x y z same = refl

goes_on-low : (next : ℕ) (edat : List ℕ) → goes_on next edat ≡ true → next ≤ 2048
unfolding goes_on
goes_on-low next edat on = ground arith

step_past :
    (rounds address : ℕ) (long : Bool)
    → address ≤ 2048
    → 2048 < address + 2 * suc rounds
    → 2048 < u16 (address + dump_step long) + 2 * rounds
unfolding dump_step
step_past rounds address true low past = omega arith
step_past rounds address false low past = omega arith

module _ {W : Type 0} (wire : Wire W) (passes configadr : ℕ) where
  -- The loop's result does not depend on the bound, once two words a round lead past the end.
  dump_from-enough :
      (rounds n : ℕ) (long : Bool) (address at : ℕ) (buf : List ℕ) (c : Context W)
      → address ≤ 2048
      → 2048 < address + 2 * rounds
      → rounds ≤ n
      → dump_from wire passes configadr n long address at buf c
        ≡ dump_from wire passes configadr rounds long address at buf c
  unfolding dump_from dump_step goes_on
  dump_from-enough zero n long address at buf c low past le = absurd (omega arith)
  dump_from-enough (suc rounds) zero long address at buf c low past le = absurd (omega arith)
  dump_from-enough (suc rounds) (suc n) long address at buf c low past le =
      let edat = (readeeprom_fp wire passes configadr address ec_timeouteep c).0 in
      let c1 = (readeeprom_fp wire passes configadr address ec_timeouteep c).1 in
      let next = u16 (address + dump_step long) in
      let stored = memcpy buf at (bytes_at edat 0 8) in
      then_same (goes_on next edat) _ _ (stored, c1)
        (λ on.
          dump_from-enough rounds n long next (at + 2 * dump_step long) stored c1
            (goes_on-low next edat on) (step_past rounds address long low past) (omega arith))
