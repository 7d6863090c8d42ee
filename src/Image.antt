-- ===== src/Image.antt =====
-- The process image: `IOmap`, `opPDO` and the pointer `ec_slave[0].outputs` into one of them, with
-- the functions that write outputs through it.
pub mod Writes
use bharatiya_beagle_bone.Common.{
  ℕ, ◌+◌, ◌==◌, if◌then◌else◌, List, set, get_or, byte0, byte1, byte2, byte3,
}

-- Where `ec_slave[0].outputs` points: into `IOmap` at an offset, where the library puts it, or to
-- the start of `opPDO`.
pub data Place : Type 0 where
  at_io_map : ℕ → Place
  at_op_pdo : Place

-- The two arrays, the output pointer, and the offset of `ec_slave[0].inputs` in `IOmap`. A write
-- outside its array is lost here.
pub record Image : Type 0 where
  pub io_map : List ℕ
  pub op_pdo : List ℕ
  pub outputs : Place
  pub inputs : ℕ

write_at : Place → ℕ → ℕ → Image → Image
write_at (at_io_map base) i v m = record m { io_map = set m.io_map (base + i) v }
write_at at_op_pdo i v m = record m { op_pdo = set m.op_pdo i v }

-- `*(ec_slave[0].outputs + i) = v`
unfoldable pub write_output : ℕ → ℕ → Image → Image
unfolding write_at
write_output i v m = write_at m.outputs i v m

read_at : Place → ℕ → Image → ℕ
read_at (at_io_map base) i m = get_or m.io_map (base + i) 0
read_at at_op_pdo i m = get_or m.op_pdo i 0

-- `*(ec_slave[0].outputs + i)`
unfoldable pub read_output : ℕ → Image → ℕ
unfolding read_at
read_output i m = read_at m.outputs i m

-- `*(ec_slave[0].inputs + i)`
abbrev pub read_input : ℕ → Image → ℕ
read_input i m = get_or m.io_map (m.inputs + i) 0

-- The words go out with the high byte first.
unfoldable pub fill_motion_params : ℕ → ℕ → ℕ → Image → Image
fill_motion_params posn tq max m = write_output 6 (byte0 max) (
    write_output 5 (byte1 max) (
      write_output 4 (byte0 tq) (
        write_output 3 (byte1 tq) (
          write_output 10 (byte0 posn) (
            write_output 9 (byte1 posn)
              (write_output 8 (byte2 posn) (write_output 7 (byte3 posn) m)))))))

unfoldable pub modify_latch_control_word_value : ℕ → Image → Image
modify_latch_control_word_value w m = write_output 1 (byte1 w) (write_output 0 (byte0 w) m)

unfoldable pub modify_torque_feed_forward_value : ℕ → Image → Image
modify_torque_feed_forward_value tq m = write_output 4 (byte1 tq) (write_output 3 (byte0 tq) m)

-- Here too the high byte first.
unfoldable pub modify_max_torque_value : ℕ → Image → Image
modify_max_torque_value tq m = write_output 6 (byte0 tq) (write_output 5 (byte1 tq) m)

-- OPN_MODE_*, and any other number.
pub data OpnMode : Type 0 where
  profile_velocity interpolated_posn homing_mode profile_posn profile_torque : OpnMode
  cyclic_synch_posn velocity cyclic_synch_velocity cyclic_synch_torque no_mode : OpnMode

-- `iModeOfOpnParam`: the value of the object 0x6060 for a mode, 0 if there is none.
unfoldable pub mode_of_opn_param : OpnMode → ℕ
mode_of_opn_param profile_velocity = 3
mode_of_opn_param interpolated_posn = 7
mode_of_opn_param homing_mode = 6
mode_of_opn_param profile_posn = 1
mode_of_opn_param profile_torque = 4
mode_of_opn_param cyclic_synch_posn = 8
mode_of_opn_param velocity = 2
mode_of_opn_param cyclic_synch_velocity = 9
mode_of_opn_param cyclic_synch_torque = 10
mode_of_opn_param no_mode = 0

-- `uiInterpolationEnableFlag` after the `switch`.
unfoldable pub interpolation_flag : OpnMode → ℕ → ℕ
interpolation_flag interpolated_posn n = 1
interpolation_flag _ n = n

-- `drv_SetOperationMode` on the image and the flag; a mode that is not supported writes nothing.
unfoldable pub drv_set_operation_mode : OpnMode → ℕ × Image → ℕ × Image
unfolding mode_of_opn_param interpolation_flag
drv_set_operation_mode mode (flag, m) =
    let param = mode_of_opn_param mode in
    (interpolation_flag mode flag, if param == 0 then m else write_output 2 param m)
