-- ===== src/EcatCheck/Tests.antt =====
-- Runs of `ecatcheck` on a bus that keeps no state: a reconfiguration brings a slave to operation, a
-- recovery fails, and the other calls change nothing.
use bharatiya_beagle_bone.Common.{◌≡◌, refl, true, false}
use bharatiya_beagle_bone.EcatCheck.{Slave, Bus, state_none, state_operational, check_slave}
use bharatiya_beagle_bone.EcatCheck.Repair.{check_slave-lost}

abbrev quiet_bus : Bus
quiet_bus = record {
  World = Unit {0};
  read_state = λ slaves w. (slaves, w);
  write_state = λ s w. (s, w);
  state_check = λ s w. (s, w);
  reconfig_slave = λ s w. (true, record s { state = state_operational }, w);
  recover_slave = λ s w. (false, s, w);
}

-- A slave that has gone.
abbrev gone : Slave
gone = record { group = 0; state = state_none; islost = false }

check_slave-lost_example : (check_slave quiet_bus 0 gone tt).1.state ≡ 0
unfolding check_slave
check_slave-lost_example = check_slave-lost quiet_bus (λ s w h. refl) 0 gone tt refl
