-- ===== src/Startup.antt =====
-- `simpletest`: bringing the bus up, and the loop that watches it in operation. The loop does not end:
-- its body takes the counter back that its head counts up.
pub mod Retry
pub mod Outcomes
pub mod Turns
mod Tests
use bharatiya_beagle_bone.Common.{
  ℕ, zero, suc, ◌+◌, ◌*◌, Bool, true, false, not, ◌&&◌, ◌==◌, ltb, if◌then◌else◌, List, map, Option,
  none, some,
}
use bharatiya_beagle_bone.Common.Int.{ℤ, ltb_ℤ}
use bharatiya_beagle_bone.Drive.{Drive}
use bharatiya_beagle_bone.Drive.Enable.{print_status}
use bharatiya_beagle_bone.EcatCheck.{state_safe_op, state_operational}

abbrev pub state_init : ℕ
state_init = 0x01

abbrev pub manufacturer_id : ℕ
manufacturer_id = 0x0000066f

abbrev pub product_id : ℕ
product_id = 0x60380008

-- `eep_man` and `eep_id` of a slave.
pub record Identity : Type 0 where
  pub eep_man : ℕ
  pub eep_id : ℕ

-- The calls of the EtherCAT library, over the state of the bus. `config_init` gives the slaves, none if
-- the call finds no slave; `config_map` runs the set-up of the slaves that are marked; `state_check`
-- gives the state that it leaves in `ec_slave[0]`; `expected` is the work counter that the group says.
pub record Library : Type 1 where
  pub World : Type 0
  pub init : World → Bool × World
  pub config_init : World → Option (List Identity) × World
  pub config_map : List Bool → World → World
  pub config_dc : World → World
  pub state_check : ℕ → World → ℕ × World
  pub exchange : World → World
  pub create_thread : World → World
  pub write_state : ℕ → World → World
  pub read_state : World → World
  pub close : World → World

-- Whether the set-up is hung into a slave.
unfoldable pub is_servo : Identity → Bool
is_servo x = x.eep_man == manufacturer_id && x.eep_id == product_id

-- How `simpletest` ends, or that it has entered its loop.
pub data Outcome : Type 0 where
  no_socket no_slaves not_operational in_operation : Outcome

-- `(ec_group[0].outputsWKC * 2) + ec_group[0].inputsWKC`
abbrev pub expected_wkc : ℕ → ℕ → ℕ
expected_wkc outputs inputs = outputs * 2 + inputs

module _ (lib : Library) where
  open lib use {
    World, init, config_init, config_map, config_dc, state_check, exchange, create_thread,
    write_state, read_state, close,
  }

  -- The loop in operation is never left, so the bus is closed in the other case only.
  abbrev pub leave : Outcome → World → World
  leave in_operation w = w
  leave _ w = close w

  -- `do … while (chk-- && …)`: the state of the last check.
  unfoldable pub await_operational : ℕ → World → ℕ × World
  await_operational zero w = state_check state_operational w
  await_operational (suc chk) w =
      let (state, w') = state_check state_operational w in
      elim (state == state_operational) [ true ↦ (state, w') | false ↦ await_operational chk w' ]

  -- From the request for the operational state on: the thread is created, and the state is awaited.
  unfoldable pub request_operational : World → Outcome × World
  unfolding await_operational
  request_operational w =
      let w1 = write_state state_operational (create_thread (exchange w)) in
      let (state, w2) = await_operational 40 w1 in
      if state == state_operational
      then (in_operation, w2)
      else (not_operational, write_state state_init (read_state w2))

  -- What follows `ec_config_init`, with the slaves that it found.
  unfoldable pub bring_up : Option (List Identity) → World → Outcome × World
  unfolding request_operational is_servo
  bring_up none w = (no_slaves, close w)
  bring_up (some slaves) w =
      let w1 = config_dc (config_map (map is_servo slaves) w) in
      let (outcome, w2) = request_operational (state_check state_safe_op w1).1 in
      (outcome, leave outcome w2)

  -- `simpletest` up to its loop. What the library finds in `ec_slave[0]` and prints is left out.
  unfoldable pub start_up : World → Outcome × World
  unfolding bring_up
  start_up w =
      let (opened, w1) = init w in
      if opened then (let (slaves, w2) = config_init w1 in bring_up slaves w2) else (no_socket, w1)

-- The globals that the loop writes.
pub record Panel : Type 0 where
  pub socket_elapsed_cntr : ℕ
  pub needlf : Bool
  pub actual_posn : ℕ
  pub actual_tq : ℕ
  pub drive : Drive

abbrev pub socket_scan_cycles : ℕ
socket_scan_cycles = 20

-- One turn of the loop in operation, on what the other threads have left: the work counters, the
-- position, the torque and whether a motion is on.
unfoldable pub operation_turn : ℤ → ℤ → ℕ → ℕ → ℕ → Panel → Panel
operation_turn wkc expected posn tq set_motion p =
    let elapsed = p.socket_elapsed_cntr + 1 in
    let counted = if ltb socket_scan_cycles elapsed && set_motion == 0 then 0 else elapsed in
    let p1 = record p { socket_elapsed_cntr = counted } in
    let p2 =
      if not (ltb_ℤ wkc expected)
      then record p1 {
        needlf = true;
        actual_posn = posn;
        actual_tq = tq;
        drive = print_status p1.drive;
      }
      else p1 in
    record p2 { drive = print_status p2.drive }
