-- ===== src/Request/Tests.antt =====
-- Runs of the request functions.
use bharatiya_beagle_bone.Motion.{completed_posn}
use bharatiya_beagle_bone.Request.{Request}

abbrev finished : Request
finished = record {
  desired_degree_of_rtn = 720;
  desired_status = completed_posn;
  modify_cmd_status_flag = 1;
  desired_direction_of_rtn = 1;
  desired_rpm = 15;
  status_reset_cntr = 0;
  actual_posn = 1234;
  actual_tq = 56;
}
