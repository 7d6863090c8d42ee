-- ===== src/Drive/Status.antt =====
-- `updateStatus`: the status word of the servo becomes the drive state and the flags.
pub mod Decode
use bharatiya_beagle_bone.Common.{ℕ, Bool, ◌==◌, if◌then◌else◌, bit_and}
use bharatiya_beagle_bone.Drive.{
  DriveStatus, unknown, not_rdy_to_switch_on, switch_on_disabled, rdy_to_switch_on, switched_on,
  operation_enabled, fault, fault_reaction_active, quick_stop_active, Drive,
}

-- One `if` of the chain: the state so far, and whether one was found (`statUpdated`).
abbrev pub when_masked : ℕ → ℕ → ℕ → DriveStatus → DriveStatus × ℕ → DriveStatus × ℕ
when_masked status mask value found old = if bit_and status mask == value then (found, 1) else old

-- The chain of `if`s, in order; a later one overwrites an earlier one.
unfoldable pub status_chain : ℕ → DriveStatus → DriveStatus × ℕ
status_chain s old = when_masked s 0x4f 0x08 fault (
    when_masked s 0x6f 0x0f fault_reaction_active (
      when_masked s 0x6f 0x07 quick_stop_active (
        when_masked s 0x6f 0x27 operation_enabled (
          when_masked s 0x6f 0x23 switched_on (
            when_masked s 0x6f 0x21 rdy_to_switch_on (
              when_masked s 0x4f 0x40 switch_on_disabled
                (when_masked s 0x4f 0 not_rdy_to_switch_on (old, 0))))))))

unfoldable pub status_of : ℕ → DriveStatus → DriveStatus
unfolding status_chain
status_of s old =
    let (found, updated) = status_chain s old in if updated == 0 then unknown else found

-- A flag that follows one bit of the status word.
abbrev pub flag : ℕ → ℕ → ℕ
flag s bit = if bit_and s bit == bit then 1 else 0

unfoldable pub update_status : ℕ → Drive → Drive
update_status s g = record g {
  drive_status = status_of s g.drive_status;
  del_me_status = if bit_and s 0x6f == 0x27 then s else g.del_me_status;
  error_flag = flag s 0x80;
  set_pt_ack = flag s 0x1000;
  interpolation_active =
      if g.interpolation_enable_flag == 1 then flag s 0x1000 else g.interpolation_active;
  target_reached_flag = flag s 0x400;
}
