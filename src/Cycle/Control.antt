-- ===== src/Cycle/Control.antt =====
-- What one cycle makes of the process data, and what any number of cycles keeps.
use bharatiya_beagle_bone.Common.{
  ℕ, zero, suc, ◌+◌, ◌≡◌, ◌<◌, refl, ap, ◌∙◌, arith, true, if◌then◌else◌, ltb, get_or, length-set,
  join16,
}
use bharatiya_beagle_bone.Drive.{
  DriveStatus, Drive, not_rdy_to_switch_on, switch_on_disabled, rdy_to_switch_on, switched_on,
  operation_enabled, fault, fault_reaction_active, quick_stop_active, shut_down, switch_on,
  enable_opn, fault_reset,
}
use bharatiya_beagle_bone.Drive.Status.{update_status}
use bharatiya_beagle_bone.Drive.Status.Decode.{Shows, Missed, update_status_decodes}
use bharatiya_beagle_bone.Drive.Control.{control_word, modify_control_word}
use bharatiya_beagle_bone.Drive.Control.Words.{Commands, control_word-Commands}
use bharatiya_beagle_bone.Drive.Control.Effect.{IsValid, modify_control_word-IsValid}
use bharatiya_beagle_bone.Drive.Enable.{drive_enable, enable_command}
use bharatiya_beagle_bone.Cycle.{
  Fieldbus, Master, prepare, read_inputs, exchange, control, rt_cycle, rt_cycles,
}

update_status-IsValid : (s : ℕ) (g : Drive) → IsValid g → IsValid (update_status s g)
unfolding update_status
update_status-IsValid s g v = record { word = v.word; image = v.image; stage = v.stage }

drive_enable-IsValid : (g : Drive) → IsValid g → IsValid (drive_enable g)
unfolding drive_enable
drive_enable-IsValid g v =
    modify_control_word-IsValid (enable_command g.drive_status)
      (record { word = v.word; image = v.image; stage = v.stage })

control-IsValid : (m : Master) → IsValid m.drive → IsValid (control m).drive
unfolding control
control-IsValid m v = ground (arith, drive_enable-IsValid m.drive v)

pub control-io_map : (m : Master) → ((control m).io_map ≡ m.io_map) × ((control m).dorun ≡ m.dorun)
unfolding control
control-io_map m = ground arith

-- The way to operation by the drive profile: from a state, with the control word before and the one
-- after. Fault reaction active has no step of its own, and gets the word that switches on.
abbrev pub StepsOn : DriveStatus → ℕ → ℕ → Type 0
StepsOn switch_on_disabled v w = Commands w shut_down
StepsOn rdy_to_switch_on v w = Commands w switch_on
StepsOn switched_on v w = Commands w enable_opn
StepsOn operation_enabled v w = w ≡ v
StepsOn fault v w = Commands w fault_reset
StepsOn not_rdy_to_switch_on v w = w ≡ v
StepsOn quick_stop_active v w = w ≡ v
StepsOn fault_reaction_active v w = Commands w switch_on
StepsOn _ v w = Unit {0}

enable_command-StepsOn : (d : DriveStatus) (w : ℕ) → StepsOn d w (control_word (enable_command d) w)
unfolding enable_command control_word
enable_command-StepsOn switch_on_disabled w = (control_word-Commands shut_down w).0 (λ p. cc)
enable_command-StepsOn rdy_to_switch_on w = (control_word-Commands switch_on w).0 (λ p. cc)
enable_command-StepsOn switched_on w = (control_word-Commands enable_opn w).0 (λ p. cc)
enable_command-StepsOn operation_enabled w = refl
enable_command-StepsOn fault w = (control_word-Commands fault_reset w).0 (λ p. cc)
enable_command-StepsOn not_rdy_to_switch_on w = refl
enable_command-StepsOn quick_stop_active w = refl
enable_command-StepsOn fault_reaction_active w = (control_word-Commands switch_on w).0 (λ p. cc)
enable_command-StepsOn _ w = tt

module _ (bus : Fieldbus) (cycletime : ℕ) where
  open bus use {World, receive_processdata}

  exchange-IsValid :
      (m : Master) (w : World) → IsValid m.drive → IsValid (exchange bus cycletime m w).0.drive
  unfolding exchange prepare read_inputs
  exchange-IsValid m w v =
      update_status-IsValid _ _
        (record { word = v.word; image = length-set m.drive.op_pdo 2 1 ∙ v.image; stage = v.stage })

  rt_cycle-IsValid :
      (m : Master) (w : World) → IsValid m.drive → IsValid (rt_cycle bus cycletime m w).0.drive
  unfolding rt_cycle
  rt_cycle-IsValid m w v =
      let p = if ltb 0 m.dorun then exchange bus cycletime m w else (m, w) in
      control-IsValid p.0 (ground (arith, exchange-IsValid m w v))

  -- From valid globals, any number of cycles leaves valid globals, whatever the bus answers.
  pub rt_cycles-IsValid :
      (n : ℕ) (m : Master) (w : World)
      → IsValid m.drive
      → IsValid (rt_cycles bus cycletime n (m, w)).0.drive
  unfolding rt_cycles
  rt_cycles-IsValid zero m w v = v
  rt_cycles-IsValid (suc n) m w v =
      let (m1, w1) = rt_cycle bus cycletime m w in
      rt_cycles-IsValid n m1 w1 (rt_cycle-IsValid m w v)

  -- The status word in what a cycle receives, low byte first.
  abbrev pub received_status : Master → World → ℕ
  received_status m w =
      let io = (receive_processdata (prepare m).io_map w).1 in
      join16 (get_or io (m.inputs + 2) 0) (get_or io (m.inputs + 3) 0)

  abbrev before_exchange : Master → Drive
  before_exchange m = (prepare m).drive

  rt_cycle_running :
      (m : Master) (w : World)
      → 0 < m.dorun
      → m.in_op ≡ true
      → let m' = (rt_cycle bus cycletime m w).0 in
        (m'.status_wd ≡ received_status m w)
        × (m'.drive ≡ drive_enable (update_status (received_status m w) (before_exchange m)))
        × (m'.rtcnt ≡ m.rtcnt + 1)
  unfolding rt_cycle exchange prepare read_inputs control
  rt_cycle_running m w run op = ground (arith, run, op)

  -- In a cycle that exchanges process data while the program is in operation: the status word is
  -- what was received for it, low byte first, and if it shows the state `d`, but not fault reaction
  -- active with bit 5 set, the drive is in `d` afterwards, and the control word is the one of the
  -- command of `DriveEnable` for `d`. On the way to operation and in a fault it has the bits by which
  -- the drive profile knows the next step, in fault reaction active those of switching on, and in
  -- the other states it is kept.
  pub rt_cycle_controls :
      (m : Master) (w : World) (d : DriveStatus)
      → 0 < m.dorun
      → m.in_op ≡ true
      → Shows (received_status m w) d
      → ¬ Missed (received_status m w) d
      → let m' = (rt_cycle bus cycletime m w).0 in
        (m'.status_wd ≡ received_status m w)
        × (m'.drive.drive_status ≡ d)
        × (m'.drive.ctl_wd ≡ control_word (enable_command d) m.drive.ctl_wd)
        × StepsOn d m.drive.ctl_wd m'.drive.ctl_wd
        × (m'.rtcnt ≡ m.rtcnt + 1)
  unfolding prepare drive_enable update_status modify_control_word
  rt_cycle_controls m w d run op shown known =
      let (status, drive, count) = rt_cycle_running m w run op in
      let decoded =
        (update_status_decodes (received_status m w) (before_exchange m)).0 d shown known in
      let word : (rt_cycle bus cycletime m w).0.drive.ctl_wd
          ≡ control_word (enable_command d) m.drive.ctl_wd =
        ap (λ (g : Drive). g.ctl_wd) drive
        ∙ ap (λ e. control_word (enable_command e) m.drive.ctl_wd) decoded in
      (
        status,
        ap (λ (g : Drive). g.drive_status) drive ∙ decoded,
        word,
        rw word (enable_command-StepsOn d m.drive.ctl_wd),
        count,
      )
