-- ===== src/Soem/Dc/Config.antt =====
-- soem/ethercatdc.c: `ecx_configdc`. The difference of two latched times is that of int32, with
-- its wrap-around; the sums of such differences are without a bound, and stored as an int32.
use bharatiya_beagle_bone.Common.{
  ℕ, zero, suc, ◌+◌, ◌-◌, ◌*◌, ◌/◌, ◌%◌, ◌^◌, Bool, true, false, ltb, ◌==◌, ◌&&◌, ◌||◌, not,
  if◌then◌else◌, List, [], ◌∷◌, ◌++◌, set, replicate, bit_and, sub32, low_bytes, number_of, Run,
}
use bharatiya_beagle_bone.Common.Int.{ℤ, pos, negsuc, ◌+ℤ◌, ◌-ℤ◌, ltb_ℤ, div_ℤ, signed32}
use bharatiya_beagle_bone.Soem.Nic.{Wire, ec_timeoutret}
use bharatiya_beagle_bone.Soem.Base.{ecx_bwr, ecx_fprd, ecx_fpwr}
use bharatiya_beagle_bone.Soem.Eeprom.{has_bits}
use bharatiya_beagle_bone.Soem.Slaves.{Slave, Context, slave_of, with_slave, on_net}
use bharatiya_beagle_bone.Soem.ProcessData.{group_of}
use bharatiya_beagle_bone.Soem.Dc.{portm0, portm1, portm2, portm3, porttime, prevport, parentport}

abbrev pub reg_dctime0 : ℕ
reg_dctime0 = 0x0900

abbrev pub reg_dcsof : ℕ
reg_dcsof = 0x0918

abbrev pub reg_dcsysoffset : ℕ
reg_dcsysoffset = 0x0920

abbrev pub reg_dcsysdelay : ℕ
reg_dcsysdelay = 0x0928

-- The master's time in nanoseconds since 2000, from one in microseconds since 1970.
unfoldable pub mastertime64 : ℕ → ℕ
mastertime64 now =
    let sec = (now / 1000000 + 2 ^ 32 - 946684800) % 2 ^ 32 in
    (sec * 1000000 + now % 1000000) * 1000 % 2 ^ 64

-- The active ports with their times, in the order 0, 3, 1, 2.
unfoldable pub active_list : Slave → List (ℕ × ℕ)
active_list s =
    (if has_bits portm0 s.activeports then (0, s.dcrt_a) ∷ [] else [])
    ++ (if has_bits portm3 s.activeports then (3, s.dcrt_d) ∷ [] else [])
    ++ (if has_bits portm1 s.activeports then (1, s.dcrt_b) ∷ [] else [])
    ++ (if has_bits portm2 s.activeports then (2, s.dcrt_c) ∷ [] else [])

-- The first port with the lowest time, as int32; the port of a slave without an active one is not
-- set in the source.
unfoldable pub earliest : ℕ × ℕ → List (ℕ × ℕ) → ℕ
earliest best [] = best.0
earliest best (x ∷ xs) = earliest (if ltb_ℤ (signed32 x.1) (signed32 best.1) then x else best) xs

unfoldable pub entry_port : Slave → ℕ
unfolding active_list earliest
entry_port s = elim (active_list s) [ [] ↦ 0 | x ∷ xs ↦ earliest x xs ]

-- The difference of two times of int32.
abbrev pub difference : ℕ → ℕ → ℤ
difference a b = signed32 (sub32 a b)

abbrev pub negate : ℤ → ℤ
negate a = pos 0 -ℤ a

abbrev pub pattern32 : ℤ → ℕ
pattern32 (pos n) = n % 2 ^ 32
pattern32 (negsuc n) = 2 ^ 32 - 1 - n % 2 ^ 32

-- The delay of a slave, from the slave and its DC parent and whether it is not the first child.
unfoldable pub propagation_delay : Slave → Slave → Bool → ℕ
unfolding porttime prevport ◌+ℤ◌ ◌-ℤ◌ div_ℤ
propagation_delay s parent later_child =
    let before = porttime parent (prevport parent.activeports s.parentport) in
    let dt3 = difference (porttime parent s.parentport) before in
    let own =
      difference (porttime s (prevport s.activeports s.entryport)) (porttime s s.entryport) in
    let dt1 = if ltb 1 s.topology then own else pos 0 in
    let dt1' = if ltb_ℤ dt3 dt1 then negate dt1 else dt1 in
    let dt2 = if later_child then difference before (porttime parent parent.entryport) else pos 0 in
    let dt2' = if ltb_ℤ dt2 (pos 0) then negate dt2 else dt2 in
    pattern32 (div_ℤ (dt3 -ℤ dt1') 2 +ℤ dt2' +ℤ signed32 parent.pdelay)

-- What the loop over the slaves carries: ht and hrt as they stand in memory, and the two slaves.
pub record Walk : Type 0 where
  pub ht : List ℕ
  pub hrt : List ℕ
  pub parenthold : ℕ
  pub prevdcslave : ℕ

module _ {W : Type 0} (wire : Wire W) where
  -- The search for the next slave above with a clock, or the master: the child on the way, and it.
  -- A parent stands before its children, so rounds as many as the slave's number are enough.
  unfoldable pub dc_parent : ℕ → ℕ → Context W → ℕ × ℕ
  dc_parent zero parent c = (parent, (slave_of wire c parent).parent)
  dc_parent (suc rounds) parent c =
      let above = (slave_of wire c parent).parent in
      let rest = dc_parent rounds above c in
      if (above == 0) || (slave_of wire c above).hasdc then (parent, above) else rest

  -- Taking a port of a parent.
  unfoldable pub consume : ℕ → Run (Context W) ℕ
  unfolding parentport
  consume parent c =
      let taken = parentport (slave_of wire c parent).consumedports in
      (taken.0, with_slave wire parent (λ s. record s { consumedports = taken.1 }) c)

  -- Slave i in the chain of the slaves with clocks.
  unfoldable pub link : ℕ → Walk → Context W → Context W
  link i w c =
      let g = (slave_of wire c i).group in
      let c1 = with_slave wire 0 (λ s. record s { hasdc = true; dcnext = i }) c in
      let c2 = with_slave wire i (λ s. record s { dcprevious = 0 }) c1 in
      let first = record (group_of wire c2 g) { hasdc = true; dcnext = i } in
      let d1 = with_slave wire w.prevdcslave (λ s. record s { dcnext = i }) c in
      if not (slave_of wire c 0).hasdc
      then record c2 { grouplist = set c2.grouplist g first }
      else with_slave wire i (λ s. record s { dcprevious = w.prevdcslave }) d1

  -- A latched time of slave i; what is not answered is the value that was read before.
  abbrev latched : ℕ → ℕ → List ℕ → Run (Context W) (List ℕ)
  latched configadr reg ht c =
      let (answer, c1) = on_net wire (ecx_fprd wire configadr reg 4 ht ec_timeoutret) c in
      (answer.1, c1)

  -- The latched times of the ports, and the offset of the slave's clock.
  unfoldable pub read_times : ℕ → ℕ → Walk → Run (Context W) Walk
  unfolding ecx_fprd ecx_fpwr number_of low_bytes
  read_times master i w c =
      let adr = (slave_of wire c i).configadr in
      let (a, c1) = latched adr reg_dctime0 w.ht c in
      let c2 = with_slave wire i (λ s. record s { dcrt_a = number_of a }) c1 in
      let (sof, c3) = on_net wire (ecx_fprd wire adr reg_dcsof 8 w.hrt ec_timeoutret) c2 in
      let hrt = low_bytes 8 ((master + 2 ^ 64 - number_of sof.1) % 2 ^ 64) in
      let c4 = (on_net wire (ecx_fpwr wire adr reg_dcsysoffset 8 hrt ec_timeoutret) c3).1 in
      let (b, c5) = latched adr (reg_dctime0 + 4) a c4 in
      let c6 = with_slave wire i (λ s. record s { dcrt_b = number_of b }) c5 in
      let (p2, c7) = latched adr (reg_dctime0 + 8) b c6 in
      let c8 = with_slave wire i (λ s. record s { dcrt_c = number_of p2 }) c7 in
      let (d, c9) = latched adr (reg_dctime0 + 12) p2 c8 in
      (
        record w { ht = d; hrt = hrt },
        with_slave wire i (λ s. record s { dcrt_d = number_of d }) c9,
      )

  -- The entry port, which is consumed.
  unfoldable pub enter : ℕ → Context W → Context W
  unfolding entry_port
  enter i c =
      let entry = entry_port (slave_of wire c i) in
      with_slave wire i
        (λ s. record s {
          entryport = entry;
          consumedports = bit_and s.consumedports (0xff - 2 ^ entry);
        })
        c

  -- The delay, measured against the parent with a clock and written to the slave.
  unfoldable pub measure : ℕ → Walk → Run (Context W) Walk
  unfolding dc_parent consume propagation_delay ecx_fpwr low_bytes
  measure i w c =
      let (child, parent) = dc_parent i i c in
      let (port, c1) = consume parent c in
      let at =
        if (slave_of wire c1 parent).topology == 1
        then (slave_of wire c1 parent).entryport
        else port in
      let c2 = with_slave wire i (λ s. record s { parentport = at }) c1 in
      let delay =
        propagation_delay (slave_of wire c2 i) (slave_of wire c2 parent) (ltb (parent + 1) child) in
      let c3 = with_slave wire i (λ s. record s { pdelay = delay }) c2 in
      let ht = low_bytes 4 delay in
      let adr = (slave_of wire c3 i).configadr in
      let c4 = (on_net wire (ecx_fpwr wire adr reg_dcsysdelay 4 ht ec_timeoutret) c3).1 in
      if ltb 0 parent then (record w { ht = ht }, c4) else (w, c)

  -- A slave without a clock: a branch without any takes a port of its root.
  unfoldable pub pass_over : ℕ → Walk → Run (Context W) Walk
  unfolding consume
  pass_over i w c =
      let c1 =
        with_slave wire i (λ s. record s { dcrt_a = 0; dcrt_b = 0; dcrt_c = 0; dcrt_d = 0 }) c in
      let parent = (slave_of wire c1 i).parent in
      let hold =
        if ltb 0 parent && ltb 2 (slave_of wire c1 parent).topology then parent else w.parenthold in
      if not (hold == 0) && (slave_of wire c1 i).topology == 1
      then (record w { parenthold = 0 }, (consume hold c1).1)
      else (record w { parenthold = hold }, c1)

  -- One slave of the loop.
  unfoldable pub configure_slave : ℕ → ℕ → Walk → Run (Context W) Walk
  unfolding link read_times enter measure pass_over
  configure_slave master i w c =
      let c1 = with_slave wire i (λ s. record s { consumedports = s.activeports }) c in
      let w1 = record w { parenthold = 0; prevdcslave = i } in
      let (w2, c2) = read_times master i w1 (link i w c1) in
      if (slave_of wire c1 i).hasdc then measure i w2 (enter i c2) else pass_over i w c1

  unfoldable pub configure_from : ℕ → ℕ → ℕ → Walk → Run (Context W) Walk
  unfolding configure_slave
  configure_from zero master i w c = (w, c)
  configure_from (suc left) master i w c =
      let (w1, c1) = configure_slave master i w c in configure_from left master (i + 1) w1 c1

  -- `ecx_configdc`; `stale` is what hrt holds before its first use.
  unfoldable pub configdc : List ℕ → Run (Context W) Bool
  unfolding ecx_bwr mastertime64 configure_from
  configdc stale c =
      let c1 = with_slave wire 0 (λ s. record s { hasdc = false }) c in
      let c2 = record c1 {
        grouplist = set c1.grouplist 0 (record (group_of wire c1 0) { hasdc = false });
      } in
      let (_, c3) = on_net wire (ecx_bwr wire 0 reg_dctime0 4 (replicate 4 0) ec_timeoutret) c2 in
      let (now, w) = wire.current_time c3.net.world in
      let c4 = record c3 { net = record (c3.net) { world = w } } in
      let start : Walk = record {
        ht = replicate 4 0;
        hrt = stale;
        parenthold = 0;
        prevdcslave = 0;
      } in
      let (_, c5) = configure_from c4.slavecount (mastertime64 now) 1 start c4 in
      ((slave_of wire c5 0).hasdc, c5)
