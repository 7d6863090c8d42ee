-- ===== src/EcatCheck/Turn.antt =====
-- What one turn does to the list of slaves and to the flags of the thread.
use bharatiya_beagle_bone.Common.{
  ℕ, suc, ◌≡◌, ◌⊎◌, refl, ap, arith, Bool, true, false, ◌||◌, List, [], ◌∷◌, length,
}
use bharatiya_beagle_bone.Common.Int.{◌≤ℤ◌, ◌<ℤ◌}
use bharatiya_beagle_bone.EcatCheck.{
  Slave, Bus, Watch, needs_check, check_slave, check_slaves, check_turn,
}
use bharatiya_beagle_bone.EcatCheck.Repair.{check_slave_sound, check_slave-flag}

module _ (bus : Bus) where
  open bus use {World, read_state}

  -- Whether some slave of the group is not operational.
  abbrev pub any_bad : ℕ → List Slave → Bool
  any_bad g [] = false
  any_bad g (s ∷ rest) = needs_check bus g s || any_bad g rest

  -- Every slave is sound: not lost, and operational if it is of the group.
  abbrev pub AllSound : ℕ → List Slave → Type 0
  AllSound g [] = Unit {0}
  AllSound g (s ∷ rest) = (needs_check bus g s ≡ false) × (s.islost ≡ false) × AllSound g rest

  check_slaves-flag :
      (g : ℕ) (slaves : List Slave) (w : World) → (check_slaves bus g slaves w).0 ≡ any_bad g slaves
  unfolding check_slaves
  check_slaves-flag g [] w = refl
  check_slaves-flag g (s ∷ rest) w =
      let (bad, s', w1) = check_slave bus g s w in
      ground (arith, check_slave-flag bus g s w, check_slaves-flag g rest w1)

  check_slaves-length :
      (g : ℕ) (slaves : List Slave) (w : World)
      → length (check_slaves bus g slaves w).1 ≡ length slaves
  unfolding check_slaves
  check_slaves-length g [] w = refl
  check_slaves-length g (s ∷ rest) w =
      let (bad, s', w1) = check_slave bus g s w in ap suc (check_slaves-length g rest w1)

  check_slaves_sound :
      (g : ℕ) (slaves : List Slave) (w : World)
      → AllSound g slaves
      → check_slaves bus g slaves w ≡ (false, slaves, w)
  unfolding check_slaves
  check_slaves_sound g [] w h = refl
  check_slaves_sound g (s ∷ rest) w (ok, here, others) =
      ground (arith, check_slave_sound bus g s w ok here, check_slaves_sound g rest w others)

  -- While the program is not in operation, or the work counter is as expected and no check is
  -- pending, a turn changes nothing.
  pub check_turn-idle :
      (g : ℕ) (t : Watch) (w : World)
      → (t.in_op ≡ true → (t.expected_wkc ≤ℤ t.wkc) × (t.docheckstate ≡ false))
      → check_turn bus g t w ≡ (t, w)
  unfolding check_turn
  check_turn-idle g t w h = ground arith

  -- In operation, with the work counter low or a check pending: after a turn a check is pending
  -- exactly when some slave of the group was read as not operational; the number of slaves is the
  -- number read; and when all that were read are sound, their entries are what was read and the bus
  -- was only read.
  pub check_turn-active :
      (g : ℕ) (t : Watch) (w : World)
      → t.in_op ≡ true
      → (t.wkc <ℤ t.expected_wkc) ⊎ (t.docheckstate ≡ true)
      → let (slaves, w1) = read_state t.slaves w in
        let (t', w') = check_turn bus g t w in
        (t'.docheckstate ≡ any_bad g slaves)
        × (length t'.slaves ≡ length slaves)
        × (t'.needlf ≡ false)
        × (AllSound g slaves → (t'.slaves ≡ slaves) × (w' ≡ w1))
  unfolding check_turn
  check_turn-active g t w op due =
      let (slaves, w1) = read_state t.slaves w in
      ground (
        arith,
        check_slaves-flag g slaves w1,
        check_slaves-length g slaves w1,
        check_slaves_sound g slaves w1,
      )
