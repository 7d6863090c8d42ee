-- ===== src/Setup/Layout.antt =====
-- The offsets in the process data by which the program reads and writes.
use bharatiya_beagle_bone.Common.{ℕ}

abbrev pub output_offset_ctlwd : ℕ
output_offset_ctlwd = 0

abbrev pub output_offset_mode_of_opn : ℕ
output_offset_mode_of_opn = 2

abbrev pub output_offset_target_tq : ℕ
output_offset_target_tq = 3

abbrev pub output_offset_max_tq : ℕ
output_offset_max_tq = 5

abbrev pub output_offset_target_posn : ℕ
output_offset_target_posn = 7

abbrev pub output_offset_max_motor_speed : ℕ
output_offset_max_motor_speed = 11

abbrev pub input_offset_errcode : ℕ
input_offset_errcode = 0

abbrev pub input_offset_statusword : ℕ
input_offset_statusword = 2

abbrev pub input_offset_mode_of_opn_disp : ℕ
input_offset_mode_of_opn_disp = 4

abbrev pub input_offset_posn_actual_value : ℕ
input_offset_posn_actual_value = 5

abbrev pub input_offset_vel_actual_value : ℕ
input_offset_vel_actual_value = 9

abbrev pub input_offset_tq_actual_value : ℕ
input_offset_tq_actual_value = 11
