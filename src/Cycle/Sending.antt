-- ===== src/Cycle/Sending.antt =====
-- What the thread sends, against what it has written to `opPDO`.
use bharatiya_beagle_bone.Common.{
  ℕ, zero, suc, ◌+◌, ◌%◌, ◌≡◌, refl, ◌⊎◌, ◌<◌, arith, List, get_or, get_or-set, if◌then◌else◌, ltb,
}
use bharatiya_beagle_bone.Cycle.{
  Fieldbus, Master, prepare, read_inputs, exchange, rt_cycle, rt_cycles,
}
use bharatiya_beagle_bone.Cycle.Control.{control-io_map}

-- What the library says of the first bytes of `IOmap`, those of the outputs: it sends what they hold;
-- a frame that comes back holds what was sent, and is copied over them or is not.
pub record Forwards (bus : Fieldbus) (obytes : ℕ) : Type 0 where
  pub sent : bus.World → ℕ → ℕ
  pub sends :
      (io : List ℕ) (w : bus.World) (i : ℕ)
      → i < obytes
      → sent (bus.send_processdata io w) i ≡ get_or io i 0
  pub remembers :
      (io : List ℕ) (w : bus.World) (i : ℕ) → sent (bus.receive_processdata io w).2 i ≡ sent w i
  pub returns :
      (io : List ℕ) (w : bus.World) (i : ℕ)
      → i < obytes
      → let io' = (bus.receive_processdata io w).1 in
        (get_or io' i 0 ≡ get_or io i 0) ⊎ (get_or io' i 0 ≡ sent w i)

module _ (bus : Fieldbus) (obytes : ℕ) (forwards : Forwards bus obytes) where
  open bus use {World}
  open forwards use {sent, sends, remembers, returns}

  -- Byte i of the outputs, in `IOmap` and in the last frame, is b.
  record Holds (i b : ℕ) (m : Master) (w : World) : Type 0 where
    here : get_or m.io_map i 0 ≡ b
    gone : sent w i ≡ b

  exchange-Holds :
      (cycletime i b : ℕ) (m : Master) (w : World)
      → 0 < i
      → i < obytes
      → Holds i b m w
      → let (m', w') = exchange bus cycletime m w in Holds i b m' w'
  unfolding exchange prepare read_inputs
  exchange-Holds cycletime i b m w pos_i lt h =
      let io = (prepare m).io_map in
      let io' = (bus.receive_processdata io w).1 in
      let w1 = (bus.receive_processdata io w).2 in
      ground (
        arith,
        get_or-set m.io_map 0 i ((get_or m.io_map 0 0 + 1) % 256) 0,
        returns io w i lt,
        remembers io w i,
        sends io' w1 i lt,
      )

  rt_cycle-Holds :
      (cycletime i b : ℕ) (m : Master) (w : World)
      → 0 < i
      → i < obytes
      → Holds i b m w
      → let (m', w') = rt_cycle bus cycletime m w in Holds i b m' w'
  unfolding rt_cycle
  rt_cycle-Holds cycletime i b m w pos_i lt h =
      let p = if ltb 0 m.dorun then exchange bus cycletime m w else (m, w) in
      ground (arith, exchange-Holds cycletime i b m w pos_i lt h, control-io_map p.0)

  rt_cycles-Holds :
      (n cycletime i b : ℕ) (m : Master) (w : World)
      → 0 < i
      → i < obytes
      → Holds i b m w
      → let (m', w') = rt_cycles bus cycletime n (m, w) in Holds i b m' w'
  unfolding rt_cycles
  rt_cycles-Holds zero cycletime i b m w pos_i lt h = h
  rt_cycles-Holds (suc n) cycletime i b m w pos_i lt h =
      let (m1, w1) = rt_cycle bus cycletime m w in
      rt_cycles-Holds n cycletime i b m1 w1 pos_i lt (rt_cycle-Holds cycletime i b m w pos_i lt h)

  -- On a bus that sends the outputs from `IOmap`, every output byte but the first stays what it was in
  -- `IOmap` and in the last frame, for any number of cycles, whatever the servo answers and whatever
  -- `DriveEnable` writes to `opPDO`.
  pub rt_cycles_send :
      (n cycletime i : ℕ) (m : Master) (w : World)
      → 0 < i
      → i < obytes
      → sent w i ≡ get_or m.io_map i 0
      → let (m', w') = rt_cycles bus cycletime n (m, w) in
        (get_or m'.io_map i 0 ≡ get_or m.io_map i 0) × (sent w' i ≡ get_or m.io_map i 0)
  rt_cycles_send n cycletime i m w pos_i lt e =
      let held =
        rt_cycles-Holds n cycletime i (get_or m.io_map i 0) m w pos_i lt
          (record { here = refl; gone = e }) in
      (held.here, held.gone)
