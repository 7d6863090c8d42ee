-- ===== src/Drive/Enable.antt =====
-- `DriveEnable`, which leads the servo to operation one command at a time, and `printStatus`.
use bharatiya_beagle_bone.Common.{ℕ, ◌+◌, ◌==◌, if◌then◌else◌}
use bharatiya_beagle_bone.Drive.{
  DriveStatus, not_rdy_to_switch_on, switch_on_disabled, rdy_to_switch_on, switched_on,
  operation_enabled, fault, quick_stop_active, switch_on_disabled_with_ve, Command, no_command,
  shut_down, switch_on, disable_vtg, enable_opn, fault_reset, Drive,
}
use bharatiya_beagle_bone.Drive.Control.{modify_control_word}

-- The `switch` on `uiDriveStatus`; the last clause is its `default`.
unfoldable pub enable_command : DriveStatus → Command
enable_command switch_on_disabled = shut_down
enable_command rdy_to_switch_on = switch_on
enable_command switched_on = enable_opn
enable_command operation_enabled = no_command
enable_command quick_stop_active = no_command
enable_command not_rdy_to_switch_on = no_command
enable_command fault = fault_reset
enable_command switch_on_disabled_with_ve = disable_vtg
enable_command _ = switch_on

-- The flag is cleared in one case of the `switch` only.
abbrev pub reason_after : DriveStatus → ℕ → ℕ
reason_after switch_on_disabled n = if n == 1 then 0 else n
reason_after _ n = n

unfoldable pub drive_enable : Drive → Drive
unfolding enable_command
drive_enable g = modify_control_word (enable_command g.drive_status) (record g {
  get_reason_for_loss_of_operational_mode =
      reason_after g.drive_status g.get_reason_for_loss_of_operational_mode;
})

-- Of `printStatus` what is left is the fault reset and the two counters: all its prints are
-- dropped, and with them its argument, which only selects a case of prints that are commented out.
unfoldable pub print_status : Drive → Drive
print_status g =
    let g' = if g.error_flag == 1 then modify_control_word fault_reset g else g in
    record g' {
      scan_cntr = g'.scan_cntr + 1;
      update_print_cntr =
          if g'.update_print_cntr + 1 == 100000 then 0 else g'.update_print_cntr + 1;
    }
