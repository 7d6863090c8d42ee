-- ===== src/Soem/State.antt =====
-- soem/ethercatmain.c: reading, writing and awaiting the states of the slaves.
use bharatiya_beagle_bone.Common.{
  ℕ, zero, suc, ◌+◌, ◌-◌, Bool, ltb, leb, ◌==◌, ◌&&◌, ◌||◌, not, if◌then◌else◌, List, [], ◌∷◌,
  get_or, map, replicate, bit_and, bit_or, bytes_at, Run, do_while, length,
}
use bharatiya_beagle_bone.Common.Int.{ℤ, pos, leb_ℤ}
use bharatiya_beagle_bone.Soem.Frame.{Frame, fprd, ec_headersize, word_at, word_bytes, add_datagram}
use bharatiya_beagle_bone.Soem.Nic.{Wire, Net, frame_of, on_port, ec_timeoutret}
use bharatiya_beagle_bone.Soem.Base.{
  prepare, confirm, put_frame, ecx_brd, ecx_bwr, ecx_fprd, ecx_fpwrw,
}
use bharatiya_beagle_bone.Soem.Registers.{
  reg_alctl, reg_alstat, state_init, state_pre_op, state_safe_op, state_operational, state_error,
  ec_timeoutret3,
}
use bharatiya_beagle_bone.Soem.Eeprom.{has_bits}
use bharatiya_beagle_bone.Soem.Slaves.{Context, slave_of, with_slave, on_net}

abbrev pub max_fprd_multi : ℕ
max_fprd_multi = 64

-- `sizeof(ec_alstatus)`: the status, an unused word and the status code.
abbrev pub alstatus_size : ℕ
alstatus_size = 6

abbrev pub no_status : List ℕ
no_status = replicate alstatus_size 0

-- The datagrams behind the first one, and the places of their data; the last has no follower.
unfoldable pub add_statuses : ℕ → List ℕ → Frame → Frame × List ℕ
unfolding add_datagram
add_statuses idx [] f = (f, [])
add_statuses idx (configadr ∷ rest) f =
    let (f1, at) =
      add_datagram fprd idx (ltb 0 (length rest)) configadr reg_alstat alstatus_size no_status f in
    let (f2, places) = add_statuses idx rest f1 in (f2, at ∷ places)

-- The variables of the loop over groups of slaves in `ecx_readstate`.
pub record Walk : Type 0 where
  pub fslave : ℕ
  pub lslave : ℕ
  pub lowest : ℕ

module _ {W : Type 0} (wire : Wire W) where
  -- `ecx_FPRD_multi`, for the status register: the statuses, if an answer came.
  unfoldable pub fprd_multi : List ℕ → ℕ → Run (Net W) (ℤ × List (List ℕ))
  unfolding prepare confirm put_frame add_statuses
  fprd_multi configlst timeout n =
      let first = get_or configlst 0 0 in
      let (idx, n1) = prepare wire fprd first reg_alstat alstatus_size no_status n in
      let (framed, places) = add_statuses idx (behind configlst) (frame_of n1.port idx) in
      let (answer, n2) = confirm wire idx timeout (on_port wire (put_frame idx framed) n1) in
      let all = if ltb 0 (length configlst) then ec_headersize ∷ places else [] in
      (
        (
          answer.0,
          if leb_ℤ (pos 0) answer.0
              then map (λ at. bytes_at answer.1 at alstatus_size) all
              else map (λ _. no_status) configlst,
        ),
        n2,
      )
    where
      behind : List ℕ → List ℕ
      behind [] = []
      behind (x ∷ xs) = xs

  -- n slaves from one on.
  unfoldable pub for_slaves : ℕ → ℕ → (ℕ → Context W → Context W) → Context W → Context W
  for_slaves slave zero f c = c
  for_slaves slave (suc n) f c = for_slaves (slave + 1) n f (f slave c)

  unfoldable pub addresses : ℕ → ℕ → Context W → List ℕ
  addresses slave zero c = []
  addresses slave (suc n) c = (slave_of wire c slave).configadr ∷ addresses (slave + 1) n c

  -- What the answers of a group change: each slave's state and code, the codes of all together in
  -- slave 0, and the lowest state.
  unfoldable pub take_statuses : ℕ → List (List ℕ) → ℕ → Run (Context W) ℕ
  take_statuses slave [] lowest c = (lowest, c)
  take_statuses slave (sl ∷ rest) lowest c =
      let rval = word_at sl 0 in
      let alcode = word_at sl 4 in
      let low = bit_and rval 0xf in
      let c1 = with_slave wire slave (λ s. record s { state = rval; alstatuscode = alcode }) c in
      let c2 =
        with_slave wire 0 (λ s. record s { alstatuscode = bit_or s.alstatuscode alcode }) c1 in
      take_statuses (slave + 1) rest (if ltb low lowest then low else lowest) c2

  -- One pass of the loop over groups of at most MAX_FPRD_MULTI slaves.
  unfoldable pub read_group : Walk → Run (Context W) Walk
  unfolding fprd_multi addresses take_statuses
  read_group w c =
      let lslave =
        if leb (w.fslave + max_fprd_multi) c.slavecount
        then w.fslave + max_fprd_multi - 1
        else c.slavecount in
      let slca = addresses w.fslave (lslave + 1 - w.fslave) c in
      let (answer, c1) = on_net wire (fprd_multi slca ec_timeoutret3) c in
      let (lowest, c2) = take_statuses w.fslave answer.1 w.lowest c1 in
      (record { fslave = lslave + 1; lslave = lslave; lowest = lowest }, c2)

  -- The second branch of `ecx_readstate`: each slave is asked. A pass takes at least one slave.
  unfoldable pub read_each : Run (Context W) ℕ
  unfolding read_group
  read_each c =
      let c1 = with_slave wire 0 (λ s. record s { alstatuscode = 0 }) c in
      let start : Walk = record { fslave = 1; lslave = 0; lowest = 0xff } in
      let (w, c2) =
        do_while (λ (w : Walk). ltb w.lslave c.slavecount) read_group c.slavecount start c1 in
      (w.lowest, with_slave wire 0 (λ s. record s { state = w.lowest }) c2)

  -- The first branch: all slaves have answered with one state and no error.
  unfoldable pub set_all : ℕ → Context W → Context W
  unfolding for_slaves
  set_all st c =
      for_slaves 1 c.slavecount
        (λ slave. with_slave wire slave (λ s. record s { alstatuscode = 0; state = st })) c

  -- The states that all slaves may share.
  abbrev pub known_state : ℕ → Bool
  known_state st =
      (st == state_init)
      || (st == state_pre_op)
      || (st == state_safe_op)
      || (st == state_operational)

  -- `ecx_readstate`
  unfoldable pub readstate : Run (Context W) ℕ
  unfolding ecx_brd set_all read_each
  readstate c =
      let (answer, c1) = on_net wire (ecx_brd wire 0 reg_alstat 2 (0 ∷ 0 ∷ []) ec_timeoutret) c in
      let rval = word_at answer.1 0 in
      let bitwisestate = bit_and rval 0x0f in
      let noerror = not (has_bits state_error rval) in
      let c2 = if noerror then with_slave wire 0 (λ s. record s { alstatuscode = 0 }) c1 else c1 in
      let c3 =
        if known_state bitwisestate
        then with_slave wire 0 (λ s. record s { state = bitwisestate }) c2
        else c2 in
      if noerror && known_state bitwisestate && leb_ℤ (pos c.slavecount) answer.0
      then (bitwisestate, set_all bitwisestate c3)
      else read_each c3

  -- `ecx_writestate`
  unfoldable pub writestate : ℕ → Run (Context W) ℤ
  unfolding ecx_bwr ecx_fpwrw
  writestate slave c =
      let s = slave_of wire c slave in
      if slave == 0
      then on_net wire (ecx_bwr wire 0 reg_alctl 2 (word_bytes s.state) ec_timeoutret3) c
      else on_net wire (ecx_fpwrw wire s.configadr reg_alctl s.state ec_timeoutret3) c

  -- The state and the code that a poll of `ecx_statecheck` finds; the code is a slave's alone.
  unfoldable pub poll_state : ℕ → ℕ → Run (Context W) ℕ
  unfolding ecx_brd ecx_fprd
  poll_state slave configadr c =
      let (all, ca) = on_net wire (ecx_brd wire 0 reg_alstat 2 (0 ∷ 0 ∷ []) ec_timeoutret) c in
      let (one, co) =
        on_net wire (ecx_fprd wire configadr reg_alstat alstatus_size no_status ec_timeoutret) c in
      if ltb slave 1 then (word_at all.1 0, ca) else (
        word_at one.1 0,
        with_slave wire slave (λ s. record s { alstatuscode = word_at one.1 4 }) co,
      )

  -- One pass of the loop, with the wait that follows another state.
  unfoldable pub await_state : ℕ → ℕ → ℕ → ℕ → Run (Context W) ℕ
  unfolding poll_state
  await_state slave configadr reqstate _ c =
      let (rval, c1) = poll_state slave configadr c in
      (
        rval,
        if bit_and rval 0x0f == reqstate
            then c1
            else record c1 { net = record (c1.net) { world = wire.usleep 1000 c1.net.world } },
      )

  -- `ecx_statecheck`
  unfoldable pub statecheck : ℕ → ℕ → ℕ → Run (Context W) ℕ
  unfolding await_state
  statecheck slave reqstate timeout c =
      let configadr = (slave_of wire c slave).configadr in
      let (rval, c1) =
        do_while (λ rval. not (bit_and rval 0x0f == reqstate))
          (await_state slave configadr reqstate) (wire.polls timeout c.net.world) 0 c in
      if ltb c.slavecount slave
      then (0, c)
      else (bit_and rval 0x0f, with_slave wire slave (λ s. record s { state = rval }) c1)
