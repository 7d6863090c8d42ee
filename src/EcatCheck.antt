-- ===== src/EcatCheck.antt =====
-- `ecatcheck`: the thread that brings slaves back to the operational state.
pub mod Repair
pub mod Turn
mod Tests
use bharatiya_beagle_bone.Common.{
  ℕ, Bool, true, false, not, ◌&&◌, ◌||◌, ◌==◌, ltb, if◌then◌else◌, List, [], ◌∷◌,
}
use bharatiya_beagle_bone.Common.Int.{ℤ, ltb_ℤ}

-- EC_STATE_*: `ack` and `error` are one bit.
abbrev pub state_none : ℕ
state_none = 0

abbrev pub state_safe_op : ℕ
state_safe_op = 0x04

abbrev pub state_operational : ℕ
state_operational = 0x08

abbrev pub state_ack : ℕ
state_ack = 0x10

abbrev pub state_error : ℕ
state_error = 0x10

-- What `ecatcheck` reads and writes of an `ec_slave[]` entry.
pub record Slave : Type 0 where
  pub group : ℕ
  pub state : ℕ
  pub islost : Bool

-- The calls of the EtherCAT library, over the state of the bus. A call for one slave changes that
-- slave's entry only, and may change it as it likes; `read_state` reads every entry anew.
pub record Bus : Type 1 where
  pub World : Type 0
  pub read_state : List Slave → World → List Slave × World
  pub write_state : Slave → World → Slave × World
  pub state_check : Slave → World → Slave × World
  pub reconfig_slave : Slave → World → Bool × Slave × World
  pub recover_slave : Slave → World → Bool × Slave × World

-- The globals of the thread; `currentgroup` is 0 and is never written.
pub record Watch : Type 0 where
  pub in_op : Bool
  pub needlf : Bool
  pub docheckstate : Bool
  pub wkc : ℤ
  pub expected_wkc : ℤ
  pub slaves : List Slave

abbrev pub found : Bool → Slave → Slave
found ok s = if ok then record s { islost = false } else s

module _ (bus : Bus) where
  open bus use {World, read_state, write_state, state_check, reconfig_slave, recover_slave}

  -- A slave that answered: `islost` follows whether it still has no state.
  abbrev pub mark_lost : Slave × World → Slave × World
  mark_lost (s, w) = (if s.state == state_none then record s { islost = true } else s, w)

  -- The first `if` of the loop body, for a slave of the group that is not operational.
  unfoldable pub repair : Slave → World → Slave × World
  repair s w =
      if s.state == 0x14
      then write_state (record s { state = 0x14 }) w
      else (if s.state == state_safe_op
          then write_state (record s { state = state_operational }) w
          else (if ltb state_none s.state
              then (let (ok, s', w') = reconfig_slave s w in (found ok s', w'))
              else (if not s.islost then mark_lost (state_check s w) else (s, w))))

  -- The second `if`: a lost slave is recovered, or has come back by itself.
  unfoldable pub look_for : Slave → World → Slave × World
  look_for s w =
      if s.islost
      then (if s.state == state_none
          then (let (ok, s', w') = recover_slave s w in (found ok s', w'))
          else (record s { islost = false }, w))
      else (s, w)

  abbrev pub needs_check : ℕ → Slave → Bool
  needs_check currentgroup s = s.group == currentgroup && not (s.state == state_operational)

  -- The loop body for one slave; the Boolean is whether it sets `docheckstate`.
  unfoldable pub check_slave : ℕ → Slave → World → Bool × Slave × World
  unfolding repair look_for
  check_slave currentgroup s w =
      let bad = needs_check currentgroup s in
      let (s1, w1) = if bad then repair s w else (s, w) in
      let (s2, w2) = look_for s1 w1 in (bad, s2, w2)

  unfoldable pub check_slaves : ℕ → List Slave → World → Bool × List Slave × World
  check_slaves currentgroup [] w = (false, [], w)
  check_slaves currentgroup (s ∷ rest) w =
      let (bad, s', w1) = check_slave currentgroup s w in
      let (others, rest', w2) = check_slaves currentgroup rest w1 in (bad || others, s' ∷ rest', w2)

  -- One turn of `while (1)`, without the sleep. The slaves are those of `ec_slave[1 .. slavecount]`.
  unfoldable pub check_turn : ℕ → Watch → World → Watch × World
  check_turn currentgroup g w =
      if g.in_op && (ltb_ℤ g.wkc g.expected_wkc || g.docheckstate)
      then (let (slaves, w1) = read_state g.slaves w in
          let (bad, slaves', w2) = check_slaves currentgroup slaves w1 in
          (record g { needlf = false; docheckstate = bad; slaves = slaves' }, w2))
      else (g, w)
