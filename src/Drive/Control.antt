-- ===== src/Drive/Control.antt =====
-- `modifyControlWord`, `StopDrive` and `ShutDownDrive`.
pub mod Words
pub mod Effect
use bharatiya_beagle_bone.Common.{
  ℕ, List, ◌==◌, if◌then◌else◌, bit_and, bit_or, set, u8, byte0, byte1, join16,
}
use bharatiya_beagle_bone.Drive.{
  Command, no_command, shut_down, switch_on, disable_vtg, quick_stop, disable_opn, enable_opn,
  enable_ip, fault_reset, stop, reset_ve, new_set_point, pp_mode, Drive,
}

-- `uiCtlWd` after the `switch`, from its value before. With `split.h` cleared the word is its low
-- byte; `&= ~BIT2` keeps the other seven bits; `|= BIT8` is cut back to the `uint8` it is stored in.
unfoldable pub control_word : Command → ℕ → ℕ
control_word shut_down w = 6
control_word switch_on w = 0x07
control_word disable_vtg w = 0
control_word quick_stop w = join16 (bit_and (bit_or (byte0 w) 2) 0xfb) 0
control_word disable_opn w = w
control_word enable_opn w = 0x0f
control_word pp_mode w = 0x1f
control_word enable_ip w = join16 (bit_or (byte0 w) 0x1f) 0
control_word fault_reset w = join16 (bit_or (byte0 w) 0x80) 0
control_word stop w = join16 (u8 (bit_or (byte0 w) 0x100)) 0
control_word new_set_point w = bit_or w 0x10
control_word _ w = w

-- `uiOpnEnabled` after the `switch`.
abbrev pub opn_enabled_after : Command → ℕ → ℕ
opn_enabled_after shut_down n = 0
opn_enabled_after switch_on n = 0
opn_enabled_after disable_vtg n = 0
opn_enabled_after quick_stop n = 0
opn_enabled_after disable_opn n = 0
opn_enabled_after enable_opn n = if n == 0 then 1 else n
opn_enabled_after enable_ip n = 0
opn_enabled_after fault_reset n = 0
opn_enabled_after stop n = 0
opn_enabled_after _ n = n

-- The writes to `opPDO`: the control word at 0, the target torque at 3 and the maximal torque at 5.
unfoldable pub command_image : ℕ → List ℕ → List ℕ
command_image w image =
    set (set (set (set (set (set image 0 (byte0 w)) 1 (byte1 w)) 3 0) 4 0xff) 5 0) 6 0xff

unfoldable pub modify_control_word : Command → Drive → Drive
modify_control_word c g =
    let w = control_word c g.ctl_wd in
    let n = opn_enabled_after c g.opn_enabled in
    record g {
      ctl_wd = w;
      op_pdo = command_image w g.op_pdo;
      opn_enabled = if n == 1 then 2 else n;
    }

unfoldable pub stop_drive : Drive → Drive
unfolding modify_control_word
stop_drive g = modify_control_word stop g

unfoldable pub shut_down_drive : Drive → Drive
unfolding modify_control_word
shut_down_drive g = modify_control_word shut_down g
