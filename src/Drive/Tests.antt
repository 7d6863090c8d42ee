-- ===== src/Drive/Tests.antt =====
-- Runs of the drive functions, one for each of their theorems with a hypothesis or a binder.
use bharatiya_beagle_bone.Common.{◌≡◌, ◌≢◌, ◌/◌, ◌%◌}
use bharatiya_beagle_bone.Drive.{
  DriveStatus, unknown, fault_reaction_active, fault_reset, quick_stop, initial,
}
use bharatiya_beagle_bone.Drive.Status.{update_status}
use bharatiya_beagle_bone.Drive.Status.Decode.{Shows, Missed, update_status_decodes}
use bharatiya_beagle_bone.Drive.Control.{control_word}
use bharatiya_beagle_bone.Drive.Control.Words.{Commands, b7, control_word-Commands}

-- 0x1627: operation enabled, the target reached and the set point acknowledged.
update_status_decodes_example :
    let after = (update_status 0x1627 initial).drive_status in
    ((d : DriveStatus) → Shows 0x1627 d → ¬ Missed 0x1627 d → after ≡ d)
    × (Shows 0x1627 fault_reaction_active → 0x1627 / 32 % 2 ≡ 1 → after ≡ unknown)
    × (after ≢ unknown → Shows 0x1627 after)
    × (((d : DriveStatus) → ¬ Shows 0x1627 d) → after ≡ unknown)
update_status_decodes_example = update_status_decodes 0x1627 initial

control_word-Commands_example :
    let after = control_word quick_stop 0x8f in
    (¬ ((quick_stop ≡ quick_stop) × (b7 0x8f ≡ 1)) → Commands after quick_stop)
    × (quick_stop ≡ quick_stop
        → b7 0x8f ≡ 1
        → ¬ Commands after quick_stop × Commands after fault_reset)
control_word-Commands_example = control_word-Commands quick_stop 0x8f
