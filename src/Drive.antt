-- ===== src/Drive.antt =====
-- The globals that the drive functions of simple_test.c share, and its status and command codes.
pub mod Status
pub mod Control
pub mod Enable
mod Tests
use bharatiya_beagle_bone.Common.{ℕ, List, replicate}

-- STATE_MACHINE_STAT_*
pub data DriveStatus : Type 0 where
  unknown not_rdy_to_switch_on switch_on_disabled rdy_to_switch_on switched_on : DriveStatus
  operation_enabled fault fault_reaction_active quick_stop_active : DriveStatus
  switch_on_disabled_with_ve switch_on_disabled_with_internal_limit_active : DriveStatus

pub DriveStatus-discrete : Discrete DriveStatus
DriveStatus-discrete = hlevel

-- CTL_WD_*; `no_command` is the 0 that `DriveEnable` starts from.
pub data Command : Type 0 where
  no_command shut_down switch_on disable_vtg quick_stop disable_opn enable_opn : Command
  enable_ip fault_reset stop reset_ve new_set_point pp_mode : Command

-- The `uint16` and `uint32` globals are plain numbers; `op_pdo` is `opPDO`.
pub record Drive : Type 0 where
  pub drive_status : DriveStatus
  pub del_me_status : ℕ
  pub error_flag : ℕ
  pub set_pt_ack : ℕ
  pub interpolation_enable_flag : ℕ
  pub interpolation_active : ℕ
  pub target_reached_flag : ℕ
  pub ctl_wd : ℕ
  pub opn_enabled : ℕ
  pub op_pdo : List ℕ
  pub get_reason_for_loss_of_operational_mode : ℕ
  pub scan_cntr : ℕ
  pub update_print_cntr : ℕ

-- The globals as the program starts.
abbrev pub initial : Drive
initial = record {
  drive_status = unknown;
  del_me_status = 0;
  error_flag = 0;
  set_pt_ack = 0;
  interpolation_enable_flag = 0;
  interpolation_active = 0;
  target_reached_flag = 0;
  ctl_wd = 0;
  opn_enabled = 0;
  op_pdo = replicate 19 0;
  get_reason_for_loss_of_operational_mode = 0;
  scan_cntr = 0;
  update_print_cntr = 0;
}
