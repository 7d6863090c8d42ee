-- ===== src/Motion/Requests.antt =====
-- Which requests are accepted.
use bharatiya_beagle_bone.Common.{◌≡◌, ◌≤◌, arith, false}
use bharatiya_beagle_bone.Motion.{
  Floats, Motion, loaded, accepted, rejected, validate_integer, validate_float, accept, reject,
  take_command,
}

module _ (floats : Floats) where
  open floats use {of_uint, ltf}

  -- The ranges of a request. A torque that is not a number is neither below nor above its limits.
  pub record InRange (m : Motion floats) : Type 0 where
    pub degrees_least : 1 ≤ m.desired_degree_of_rtn
    pub degrees_most : m.desired_degree_of_rtn ≤ 14400
    pub tq_least : ltf m.desired_tq (of_uint 1) ≡ false
    pub tq_most : ltf (of_uint 50) m.desired_tq ≡ false
    pub direction : m.desired_direction_of_rtn ≤ 1
    pub rpm_least : 10 ≤ m.desired_rpm
    pub rpm_most : m.desired_rpm ≤ 30

  -- A loaded request whose values are all in range is accepted, and its motion is started with no step
  -- executed and the time-out counter 0; any other is rejected, and its motion is as before.
  pub take_command_loaded :
      (m : Motion floats)
      → let m' = take_command floats loaded m in
        (InRange m
          → (m'.desired_status ≡ accepted)
            × (m'.set_motion_flag ≡ 1)
            × (m'.steps_executed ≡ 0)
            × (m'.motion_time_out_cntr ≡ 0))
        × (¬ InRange m
            → (m'.desired_status ≡ rejected)
              × (m'.set_motion_flag ≡ m.set_motion_flag)
              × (m'.rotation_offset ≡ m.rotation_offset)
              × (m'.steps_programed ≡ m.steps_programed))
        × (m'.modify_cmd_status_flag ≡ 1)
  unfolding take_command accept reject validate_integer validate_float
  take_command_loaded m = (λ h. ground arith, λ h. ground arith, ground arith)
