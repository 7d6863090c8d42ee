-- ===== src/Cycle.antt =====
-- `RTthread`: the cyclic exchange of the process data, and the control of the drive on it.
pub mod Control
pub mod Sending
pub mod Start
mod Tests
use bharatiya_beagle_bone.Common.{
  ℕ, zero, suc, ◌+◌, ◌*◌, Bool, ltb, if◌then◌else◌, List, set, get_or, u8, u32, join16, join32,
}
use bharatiya_beagle_bone.Common.Int.{ℤ, pos, ◌+ℤ◌, ◌-ℤ◌, leb_ℤ, div_ℤ, scale_ℤ}
use bharatiya_beagle_bone.Clock.{nsec_per_sec, Timespec, Sync, ec_sync}
use bharatiya_beagle_bone.Drive.{Drive}
use bharatiya_beagle_bone.Drive.Status.{update_status}
use bharatiya_beagle_bone.Drive.Enable.{drive_enable}
use bharatiya_beagle_bone.Image.{Place, at_op_pdo}
use bharatiya_beagle_bone.Setup.Layout.{
  output_offset_mode_of_opn, input_offset_errcode, input_offset_statusword,
  input_offset_mode_of_opn_disp, input_offset_posn_actual_value, input_offset_tq_actual_value,
}

-- The calls of the EtherCAT library. It sends from `IOmap` and receives into it: it has its own
-- pointers into the array, and does not read `ec_slave[0].outputs`. `dc_time` is `ec_DCtime`.
pub record Fieldbus : Type 1 where
  pub World : Type 0
  pub send_processdata : List ℕ → World → World
  pub receive_processdata : List ℕ → World → ℤ × List ℕ × World
  pub dc_time : World → ℤ

-- The globals of the thread. `dorun` and `rtcnt` are `int` counters, here without a bound: at one
-- cycle a millisecond they would take 24 days to overflow. `inputs` is where `ec_slave[0].inputs`
-- points in `IOmap`, and `has_dc` is `ec_slave[0].hasdc`.
pub record Master : Type 0 where
  pub drive : Drive
  pub io_map : List ℕ
  pub outputs : Place
  pub inputs : ℕ
  pub has_dc : Bool
  pub in_op : Bool
  pub dorun : ℕ
  pub wkc : ℤ
  pub rtcnt : ℕ
  pub sync : Sync
  pub err_code : ℕ
  pub status_wd : ℕ
  pub pos_actual_value : ℕ
  pub modes_of_opn_display : ℕ
  pub tq_actual : ℕ
  pub rt_thread_speed_cntr : ℕ
  pub loop_cntr : ℕ

-- The start time of the thread, moved to the next millisecond.
pub first_cycle : Timespec → Timespec
first_cycle ts =
    let ht = div_ℤ ts.tv_nsec 1000000 +ℤ pos 1 in
    let nsec = scale_ℤ ht 1000000 in
    if leb_ℤ (pos nsec_per_sec) nsec
    then record { tv_sec = ts.tv_sec +ℤ pos 1; tv_nsec = nsec -ℤ pos nsec_per_sec }
    else record { tv_sec = ts.tv_sec; tv_nsec = nsec }

-- A byte that the servo has sent: `*(ec_slave[0].inputs + j)`.
abbrev pub input : Master → ℕ → ℕ
input m j = get_or m.io_map (m.inputs + j) 0

-- The inputs are read, and the status word goes to `updateStatus`.
unfoldable pub read_inputs : Master → Master
read_inputs m =
    let status = join16 (input m input_offset_statusword) (input m (input_offset_statusword + 1)) in
    record m {
      err_code = join16 (input m input_offset_errcode) (input m (input_offset_errcode + 1));
      status_wd = status;
      drive = update_status status m.drive;
      pos_actual_value =
          join32 (input m input_offset_posn_actual_value)
            (input m (input_offset_posn_actual_value + 1))
            (input m (input_offset_posn_actual_value + 2))
            (input m (input_offset_posn_actual_value + 3));
      modes_of_opn_display = input m input_offset_mode_of_opn_disp;
      tq_actual =
          join16 (input m input_offset_tq_actual_value)
            (input m (input_offset_tq_actual_value + 1));
      rt_thread_speed_cntr = u32 (m.rt_thread_speed_cntr + 1);
    }

-- `IOmap[0]++` and what follows it before the exchange.
unfoldable pub prepare : Master → Master
prepare m = record m {
  io_map = set m.io_map 0 (u8 (get_or m.io_map 0 0 + 1));
  dorun = m.dorun + 1;
  outputs = at_op_pdo;
  drive = record m.drive { op_pdo = set m.drive.op_pdo output_offset_mode_of_opn 1 };
}

-- `DriveEnable` is called only in operation.
unfoldable pub control : Master → Master
control m = if m.in_op then record m { drive = drive_enable m.drive } else m

module _ (bus : Fieldbus) (cycletime : ℕ) where
  open bus use {World, send_processdata, receive_processdata, dc_time}

  -- The body of `if (dorun > 0)`.
  unfoldable pub exchange : Master → World → Master × World
  unfolding prepare read_inputs
  exchange m0 w0 =
      let m1 = prepare m0 in
      let (wkc, io, w1) = receive_processdata m1.io_map w0 in
      let m2 = record m1 {
        wkc = wkc;
        io_map = io;
        sync = if m1.has_dc then ec_sync (dc_time w1) cycletime m1.sync else m1.sync;
        rtcnt = m1.rtcnt + 1;
      } in
      (read_inputs m2, send_processdata io w1)

  -- One turn of `while (1)`, without the sleep.
  unfoldable pub rt_cycle : Master → World → Master × World
  unfolding exchange control
  rt_cycle m0 w0 =
      let (m1, w1) = if ltb 0 m0.dorun then exchange m0 w0 else (m0, w0) in
      let m2 = control m1 in (record m2 { loop_cntr = u32 (m2.loop_cntr + 1) }, w1)

  unfoldable pub rt_cycles : ℕ → Master × World → Master × World
  unfolding rt_cycle
  rt_cycles zero p = p
  rt_cycles (suc n) (m, w) = rt_cycles n (rt_cycle m w)

  -- What the thread does before its loop.
  unfoldable pub rt_start : Master → World → Master × World
  rt_start m w =
      (record m { sync = record m.sync { toff = pos 0 }; dorun = 0 }, send_processdata m.io_map w)
