-- ===== src/Motion.antt =====
-- The motion control of the earlier version `simple_test -Working Version With motor operation
-- checked.c` in SOEM/test/linux/simple_test: the part of its `RTthread` that runs while operation is
-- enabled, with the functions that it calls to validate and convert a request.
pub mod Requests
pub mod Ending
mod Tests
use bharatiya_beagle_bone.Common.{
  ℕ, ◌+◌, ◌-◌, ◌*◌, ◌%◌, ◌^◌, Bool, true, false, not, ◌&&◌, ◌||◌, ◌==◌, ltb, leb, if◌then◌else◌,
  List, [], ◌∷◌, ◌++◌, u16, u32, sub32,
}

-- The floating-point operations of C that the code uses: `counts_per_degree` is
-- `(float)29127.11111111`, and `truncate` is the conversion to `uint32`.
pub record Floats : Type 1 where
  pub F : Type 0
  pub of_uint : ℕ → F
  pub mul : F → F → F
  pub div : F → F → F
  pub ltf : F → F → Bool
  pub truncate : F → ℕ
  pub counts_per_degree : F

-- CMD_STAT_*
pub data CommandStatus : Type 0 where
  unknown loaded accepted completed_posn completed_tq err rejected : CommandStatus

abbrev pub cw : ℕ
cw = 1

abbrev pub motion_timeout_val : ℕ
motion_timeout_val = 60000

abbrev pub block_rotor_declare_cnt : ℕ
block_rotor_declare_cnt = 100

module _ (floats : Floats) where
  open floats use {F, of_uint, mul, div, ltf, truncate, counts_per_degree}

  -- The globals of a request and of its motion. `int32` positions are bit patterns.
  pub record Motion : Type 0 where
    pub desired_degree_of_rtn : ℕ
    pub desired_tq : F
    pub desired_direction_of_rtn : ℕ
    pub desired_rpm : ℕ
    pub desired_status : CommandStatus
    pub modify_cmd_status_flag : ℕ
    pub set_motion_flag : ℕ
    pub rotation_offset : ℕ
    pub steps_executed : ℕ
    pub steps_programed : ℕ
    pub blocked_rotor_cntr : ℕ
    pub motion_time_out_cntr : ℕ
    pub desired_position_val : ℕ
    pub pos_actual_value : ℕ

  -- What the code does to the drive: `modifyInterpolatedPositionCommandValue` and `StopDrive`.
  pub data Call : Type 0 where
    position : ℕ → F → Call
    stop_drive : Call

  -- The tests of `ValidateInteger` and `ValidateFloat`; the fill value is not used in this version.
  unfoldable pub validate_integer : ℕ → ℕ → ℕ → Bool
  validate_integer n min max = not (ltb n min || ltb max n)

  unfoldable pub validate_float : F → F → F → Bool
  validate_float x min max = not (ltf x min || ltf max x)

  -- The offset of a step, and the number of steps.
  unfoldable pub convert_degree_of_rotation_to_count : ℕ → ℕ → ℕ → Motion → Motion
  convert_degree_of_rotation_to_count rpm interval degrees m =
      let per_scan =
        div (mul (mul (div (of_uint rpm) (of_uint 60)) (of_uint 360)) (of_uint interval))
          (of_uint 1000) in
      let offset = truncate (mul per_scan counts_per_degree) in
      record m {
        rotation_offset = offset;
        steps_executed = 0;
        steps_programed = truncate (div (mul (of_uint degrees) counts_per_degree) (of_uint offset));
      }

  abbrev pub is_acceptable : Motion → Bool
  is_acceptable m =
      validate_integer m.desired_degree_of_rtn 1 14400
      && (validate_float m.desired_tq (of_uint 1) (of_uint 50)
          && (validate_integer m.desired_direction_of_rtn 0 1
              && validate_integer m.desired_rpm 10 30))

  unfoldable pub reject : Motion → Motion
  reject m = record m { desired_status = rejected; modify_cmd_status_flag = 1 }

  unfoldable pub accept : Motion → Motion
  unfolding convert_degree_of_rotation_to_count
  accept m =
      let m' =
        convert_degree_of_rotation_to_count m.desired_rpm 2 m.desired_degree_of_rtn
          (record m { desired_status = accepted; modify_cmd_status_flag = 1 }) in
      record m' { set_motion_flag = 1; blocked_rotor_cntr = 0; motion_time_out_cntr = 0 }

  -- The `switch` on the status of the command.
  unfoldable pub take_command : CommandStatus → Motion → Motion
  unfolding accept reject validate_integer validate_float
  take_command loaded m = if is_acceptable m then accept m else reject m
  take_command accepted m = record m { desired_status = unknown; modify_cmd_status_flag = 1 }
  take_command _ m = m

  -- `i32PosnDiff < 1000` after the sign is dropped. The most negative `int32` has no opposite and
  -- stays negative; the difference is taken to wrap around.
  abbrev pub is_small : ℕ → Bool
  is_small d =
      if ltb d 2147483648 then ltb d 1000 else (d == 2147483648 || ltb (4294967296 - d) 1000)

  -- The desired position, and the counter of cycles in which it hardly changed.
  unfoldable pub advance : Motion → Motion
  advance m =
      let step = u32 (m.rotation_offset * 21) in
      let desired =
        if m.desired_direction_of_rtn == cw
        then sub32 m.pos_actual_value step
        else u32 (m.pos_actual_value + m.rotation_offset * 21) in
      let small = is_small (sub32 m.desired_position_val desired) in
      record m {
        motion_time_out_cntr = u16 (m.motion_time_out_cntr + 1);
        desired_position_val = desired;
        blocked_rotor_cntr = if small then u32 (m.blocked_rotor_cntr + 1) else 0;
      }

  -- A blocked rotor ends the motion by the count of steps.
  unfoldable pub count_step : Motion → Motion
  count_step m =
      let executed =
        if ltb block_rotor_declare_cnt m.blocked_rotor_cntr
        then u32 (m.steps_programed + 100)
        else m.steps_executed in
      record m { steps_executed = u32 (executed + 1) }

  unfoldable pub complete : Motion → Motion
  complete m =
      if leb m.steps_programed m.steps_executed
      then record m {
        desired_status = completed_posn;
        modify_cmd_status_flag = 1;
        set_motion_flag = 0;
        steps_programed = 0;
        steps_executed = 0;
      }
      else m

  unfoldable pub time_out : Motion → Motion × List Call
  time_out m =
      if ltb motion_timeout_val m.motion_time_out_cntr
      then (
        record m {
          desired_position_val = m.pos_actual_value;
          set_motion_flag = 0;
          motion_time_out_cntr = 0;
        },
        position m.pos_actual_value (of_uint 0) ∷ stop_drive ∷ [],
      )
      else (m, [])

  -- The body of `if (uiSetMotionFlag == 1)`.
  unfoldable pub move : Motion → Motion × List Call
  unfolding advance count_step complete time_out
  move m =
      let m' = count_step (advance m) in
      let (m'', calls) = time_out (complete m') in
      (m'', position m'.desired_position_val m.desired_tq ∷ calls)

  -- One cycle while operation is enabled, at an actual position and with `uiInterpolationActive`.
  unfoldable pub motion_cycle : ℕ → ℕ → Motion → Motion × List Call
  unfolding take_command move
  motion_cycle posn active m0 =
      let m1 = record m0 { pos_actual_value = posn } in
      let m2 =
        if m1.set_motion_flag == 0 && active == 1 then take_command m1.desired_status m1 else m1 in
      if m2.set_motion_flag == 1 then move m2 else (m2, [])
