-- ===== src/Motion/Tests.antt =====
-- Runs of a motion, with whole numbers in the place of floating-point numbers.
use bharatiya_beagle_bone.Common.{ℕ, suc, ◌*◌, ◌/◌, ◌≡◌, arith, ltb, List, replicate}
use bharatiya_beagle_bone.Motion.{Floats, Motion, loaded, accepted, completed_posn}
use bharatiya_beagle_bone.Motion.Ending.{IsMoving, motion_cycles, motion_ends, motion_completes}

abbrev whole : Floats
whole = record {
  F = ℕ;
  of_uint = λ n. n;
  mul = λ a b. a * b;
  div = λ a b. a / suc b;
  ltf = ltb;
  truncate = λ n. n;
  counts_per_degree = 29127;
}

abbrev request : Motion whole
request = record {
  desired_degree_of_rtn = 720;
  desired_tq = 5;
  desired_direction_of_rtn = 1;
  desired_rpm = 15;
  desired_status = loaded;
  modify_cmd_status_flag = 0;
  set_motion_flag = 0;
  rotation_offset = 0;
  steps_executed = 0;
  steps_programed = 0;
  blocked_rotor_cntr = 0;
  motion_time_out_cntr = 0;
  desired_position_val = 0;
  pos_actual_value = 0;
}

-- One step is left, and one cycle of the time-out.
abbrev nearly_over : Motion whole
nearly_over = record request {
  desired_status = accepted;
  set_motion_flag = 1;
  rotation_offset = 5000;
  steps_executed = 2;
  steps_programed = 4;
  motion_time_out_cntr = 59998;
}

nearly_over-IsMoving : IsMoving whole nearly_over
nearly_over-IsMoving = ground arith

abbrev inputs : List (ℕ × ℕ)
inputs = replicate 3 (1000, 1)

motion_ends_example : (motion_cycles whole inputs nearly_over).set_motion_flag ≡ 0
motion_ends_example = motion_ends whole inputs nearly_over nearly_over-IsMoving (omega arith)

motion_completes_example :
    ((motion_cycles whole inputs nearly_over).set_motion_flag ≡ 0)
    × ((motion_cycles whole inputs nearly_over).desired_status ≡ completed_posn)
motion_completes_example =
    motion_completes whole inputs nearly_over nearly_over-IsMoving (omega arith) (omega arith)
      (omega arith) (omega arith)
