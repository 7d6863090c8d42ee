-- ===== src/EcatCheck/Repair.antt =====
-- What one turn does to one slave.
use bharatiya_beagle_bone.Common.{ℕ, ◌≡◌, arith, true, false, if◌then◌else◌}
use bharatiya_beagle_bone.EcatCheck.{Slave, Bus, repair, look_for, check_slave, needs_check}

module _ (bus : Bus) where
  open bus use {World, recover_slave}

  -- A slave of another group, or an operational one, that is not lost is left alone.
  pub check_slave_sound :
      (g : ℕ) (s : Slave) (w : World)
      → needs_check bus g s ≡ false
      → s.islost ≡ false
      → check_slave bus g s w ≡ (false, s, w)
  unfolding check_slave
  check_slave_sound g s w ok here = ground arith

  pub check_slave-flag :
      (g : ℕ) (s : Slave) (w : World) → (check_slave bus g s w).0 ≡ needs_check bus g s
  unfolding check_slave
  check_slave-flag g s w = ground arith

  look_for-lost :
      ((s : Slave) (w : World) → (recover_slave s w).0 ≡ false → (recover_slave s w).1 ≡ s)
      → (s : Slave) (w : World) → (look_for bus s w).0.islost ≡ true
      → (look_for bus s w).0.state ≡ 0
  unfolding look_for
  look_for-lost refused s w h = ground (arith, refused s w)

  -- On a bus where a recovery that fails leaves the slave's entry as it was, for every slave and
  -- group: a slave that is marked lost after its turn has no state. So a slave that shows any state
  -- is never left marked lost.
  pub check_slave-lost :
      ((s : Slave) (w : World) → (recover_slave s w).0 ≡ false → (recover_slave s w).1 ≡ s)
      → (g : ℕ) (s : Slave) (w : World) → (check_slave bus g s w).1.islost ≡ true
      → (check_slave bus g s w).1.state ≡ 0
  unfolding check_slave
  check_slave-lost refused g s w =
      let p = if needs_check bus g s then repair bus s w else (s, w) in
      look_for-lost refused p.0 p.1
