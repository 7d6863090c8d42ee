-- ===== src/Cycle/Tests.antt =====
-- Runs of the cycle on a bus that returns what it is sent.
use bharatiya_beagle_bone.Common.{
  ℕ, ◌+◌, ◌≡◌, refl, inl, arith, true, List, replicate, get_or, set, get_or-set,
}
use bharatiya_beagle_bone.Common.Int.{pos}
use bharatiya_beagle_bone.Clock.{Timespec}
use bharatiya_beagle_bone.Drive.{initial, switch_on_disabled}
use bharatiya_beagle_bone.Drive.Control.{control_word}
use bharatiya_beagle_bone.Drive.Enable.{enable_command}
use bharatiya_beagle_bone.Image.{at_io_map}
use bharatiya_beagle_bone.Cycle.{Fieldbus, Master, prepare, rt_cycle, rt_cycles}
use bharatiya_beagle_bone.Cycle.Control.{received_status, StepsOn, rt_cycle_controls}
use bharatiya_beagle_bone.Cycle.Sending.{Forwards, rt_cycles_send}

-- Its world is the last frame that was sent; the servo shows switch-on-disabled.
abbrev loop_bus : Fieldbus
loop_bus = record {
  World = List ℕ;
  send_processdata = λ io w. io;
  receive_processdata = λ io w. (pos 3, set io 21 0x40, w);
  dc_time = λ w. pos 3060000;
}

abbrev loop_bus-Forwards : Forwards loop_bus 19
loop_bus-Forwards = record {
  sent = λ w i. get_or w i 0;
  sends = λ io w i lt. refl;
  remembers = λ io w i. refl;
  returns = λ io w i lt. inl (ground (arith, get_or-set io 21 i 0x40 0));
}

abbrev io : List ℕ
io = replicate 36 0

abbrev master : Master
master = record {
  drive = initial;
  io_map = io;
  outputs = at_io_map 0;
  inputs = 19;
  has_dc = true;
  in_op = true;
  dorun = 1;
  wkc = pos 0;
  rtcnt = 0;
  sync = record { integral = pos 0; gl_delta = pos 0; toff = pos 0 };
  err_code = 0;
  status_wd = 0;
  pos_actual_value = 0;
  modes_of_opn_display = 0;
  tq_actual = 0;
  rt_thread_speed_cntr = 0;
  loop_cntr = 0;
}

rt_cycle_controls_example :
    let m' = (rt_cycle loop_bus 2000000 master io).0 in
    (m'.status_wd ≡ received_status loop_bus 2000000 master io)
    × (m'.drive.drive_status ≡ switch_on_disabled)
    × (m'.drive.ctl_wd ≡ control_word (enable_command switch_on_disabled) master.drive.ctl_wd)
    × StepsOn switch_on_disabled master.drive.ctl_wd m'.drive.ctl_wd
    × (m'.rtcnt ≡ master.rtcnt + 1)
unfolding prepare
rt_cycle_controls_example =
    rt_cycle_controls loop_bus 2000000 master io switch_on_disabled (omega arith) refl
      (record { low = refl; bit6 = refl }) (λ p. cc)

rt_cycles_send_example :
    let (m', w') = rt_cycles loop_bus 2000000 9 (master, io) in
    (get_or m'.io_map 1 0 ≡ get_or io 1 0) × (get_or w' 1 0 ≡ get_or io 1 0)
rt_cycles_send_example =
    rt_cycles_send loop_bus 19 loop_bus-Forwards 9 2000000 1 master io (omega arith) (omega arith)
      refl

abbrev now : Timespec
now = record { tv_sec = pos 7; tv_nsec = pos 999400000 }
