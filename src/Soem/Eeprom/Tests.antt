-- ===== src/Soem/Eeprom/Tests.antt =====
-- A slave whose registers never answer.
use bharatiya_beagle_bone.Common.{ℕ, ◌≡◌, refl, true}
use bharatiya_beagle_bone.Common.Int.{pos}
use bharatiya_beagle_bone.Soem.Eeprom.{Access, waitnotbusy}
use bharatiya_beagle_bone.Soem.Eeprom.Waiting.{waitnotbusy_silent}
use bharatiya_beagle_bone.Soem.Samples.{silent, quiet_net}

abbrev deaf : Access ℕ
deaf = record { reads = λ _ _ _ bytes _ n. ((pos 0, bytes), n); writes = λ _ _ _ _ _ n. (pos 0, n) }

waitnotbusy_silent_example : (waitnotbusy silent deaf 0x1001 20000 quiet_net).0 ≡ (true, 0)
waitnotbusy_silent_example = waitnotbusy_silent silent deaf 0x1001 20000 quiet_net (λ m. refl)
