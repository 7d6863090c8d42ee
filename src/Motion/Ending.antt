-- ===== src/Motion/Ending.antt =====
-- The end of a motion.
use bharatiya_beagle_bone.Common.{
  ℕ, ◌+◌, ltb, leb, Bool, true, false, Bool-cases, ltb→lt, if◌then◌else◌, u32, ◌≡◌, ◌≢◌, ◌⊎◌, inl,
  inr, ◌≤◌, ◌<◌, refl, sym, ◌∙◌, arith, List, [], ◌∷◌, length,
}
use bharatiya_beagle_bone.Motion.{
  Floats, Motion, loaded, completed_posn, motion_timeout_val, block_rotor_declare_cnt, advance,
  count_step, complete, time_out, take_command, move, motion_cycle,
}

module _ (floats : Floats) where
  -- One cycle after the other; each input is the actual position and `uiInterpolationActive`.
  abbrev pub motion_cycles : List (ℕ × ℕ) → Motion floats → Motion floats
  motion_cycles [] m = m
  motion_cycles (x ∷ xs) m = motion_cycles xs (motion_cycle floats x.0 x.1 m).0

  -- A motion is on, and no request is waiting.
  pub record IsMoving (m : Motion floats) : Type 0 where
    pub moving : m.set_motion_flag ≡ 1
    pub taken : m.desired_status ≢ loaded
    pub in_time : m.motion_time_out_cntr ≤ motion_timeout_val

  record IsStill (m : Motion floats) : Type 0 where
    still : m.set_motion_flag ≡ 0
    taken : m.desired_status ≢ loaded

  motion_cycle-IsStill :
      (posn active : ℕ) (m : Motion floats)
      → IsStill m
      → IsStill (motion_cycle floats posn active m).0
  unfolding motion_cycle take_command
  motion_cycle-IsStill posn active m h = ground arith

  motion_cycles-IsStill :
      (inputs : List (ℕ × ℕ)) (m : Motion floats) → IsStill m → IsStill (motion_cycles inputs m)
  motion_cycles-IsStill [] m h = h
  motion_cycles-IsStill (x ∷ xs) m h =
      motion_cycles-IsStill xs (motion_cycle floats x.0 x.1 m).0 (motion_cycle-IsStill x.0 x.1 m h)

  motion_cycle_done :
      (posn active : ℕ) (m : Motion floats)
      → m.set_motion_flag ≡ 0
      → m.desired_status ≡ completed_posn
      → let m' = (motion_cycle floats posn active m).0 in
        (m'.set_motion_flag ≡ 0) × (m'.desired_status ≡ completed_posn)
  unfolding motion_cycle take_command
  motion_cycle_done posn active m still done = ground arith

  motion_cycles_done :
      (inputs : List (ℕ × ℕ)) (m : Motion floats)
      → m.set_motion_flag ≡ 0
      → m.desired_status ≡ completed_posn
      → ((motion_cycles inputs m).set_motion_flag ≡ 0)
        × ((motion_cycles inputs m).desired_status ≡ completed_posn)
  motion_cycles_done [] m still done = (still, done)
  motion_cycles_done (x ∷ xs) m still done =
      let (still', done') = motion_cycle_done x.0 x.1 m still done in
      motion_cycles_done xs (motion_cycle floats x.0 x.1 m).0 still' done'

  -- What `advance` and the count of the step do to a motion that is on.
  record Stepped (m m' : Motion floats) : Type 0 where
    on : m'.set_motion_flag ≡ m.set_motion_flag
    same : m'.desired_status ≡ m.desired_status
    later : m'.motion_time_out_cntr ≡ m.motion_time_out_cntr + 1
    goal : m'.steps_programed ≡ m.steps_programed
    counted :
        (m'.steps_executed ≡ u32 (m.steps_executed + 1))
        ⊎ (m'.steps_executed ≡ u32 (u32 (m.steps_programed + 100) + 1))

  step_once :
      (posn : ℕ) (m : Motion floats)
      → m.motion_time_out_cntr ≤ motion_timeout_val
      → Stepped m (count_step floats (advance floats (record m { pos_actual_value = posn })))
  unfolding advance count_step
  step_once posn m h = record {
    on = refl;
    same = refl;
    later = omega (arith, h);
    goal = refl;
    counted = count (
        ltb block_rotor_declare_cnt
          (advance floats (record m { pos_actual_value = posn })).blocked_rotor_cntr);
  }
    where
      count :
          (b : Bool)
          → let executed = if b then u32 (m.steps_programed + 100) else m.steps_executed in
            (u32 (executed + 1) ≡ u32 (m.steps_executed + 1))
            ⊎ (u32 (executed + 1) ≡ u32 (u32 (m.steps_programed + 100) + 1))
      count true = inr refl
      count false = inl refl

  -- After the tests for completion and for the time-out.
  data Outcome (m m' : Motion floats) : Type 0 where
    completed : m'.set_motion_flag ≡ 0 → m'.desired_status ≡ completed_posn → Outcome m m'
    timed_out :
        m'.set_motion_flag ≡ 0
        → m'.desired_status ≡ m.desired_status
        → motion_timeout_val < m.motion_time_out_cntr
        → Outcome m m'
    continued :
        m' ≡ m
        → m.steps_executed < m.steps_programed
        → m.motion_time_out_cntr ≤ motion_timeout_val
        → Outcome m m'

  outcome : (m : Motion floats) → Outcome m (time_out floats (complete floats m)).0
  unfolding complete time_out
  outcome m = elim (Bool-cases (leb m.steps_programed m.steps_executed)) [
    | inl done ↦ elim (Bool-cases (ltb motion_timeout_val m.motion_time_out_cntr)) [
      | inl late ↦ completed (rw (done, late) refl) (rw (done, late) refl)
      | inr early ↦ completed (rw (done, early) refl) (rw (done, early) refl)
    ]
    | inr more ↦ elim (Bool-cases (ltb motion_timeout_val m.motion_time_out_cntr)) [
      | inl late ↦
          timed_out (rw (more, late) refl) (rw (more, late) refl) (omega (arith, ltb→lt _ _ late))
      | inr early ↦ continued (rw (more, early) refl) (ground (arith, more)) (ground (arith, early))
    ]
  ]

  motion_cycle_on :
      (posn active : ℕ) (m : Motion floats)
      → m.set_motion_flag ≡ 1
      → (motion_cycle floats posn active m).0
        ≡ (time_out floats (
            complete floats
              (count_step floats (advance floats (record m { pos_actual_value = posn }))))).0
  unfolding motion_cycle move
  motion_cycle_on posn active m on = rw on refl

  -- One cycle of a motion: it is over, or it goes on with one more step.
  data Next (m m' : Motion floats) : Type 0 where
    over :
        IsStill m'
        → (m'.desired_status ≡ completed_posn) ⊎ (motion_timeout_val ≤ m.motion_time_out_cntr)
        → Next m m'
    onward : IsMoving m' → Stepped m m' → m'.steps_executed < m.steps_programed → Next m m'

  next :
      (posn active : ℕ) (m : Motion floats)
      → IsMoving m
      → Next m (motion_cycle floats posn active m).0
  next posn active m h =
      let m0 : Motion floats = record m { pos_actual_value = posn } in
      let stepped = step_once posn m h.in_time in
      let m1 = count_step floats (advance floats m0) in
      rw (motion_cycle_on posn active m h.moving) (elim (outcome m1) [
        | completed off done ↦
            over (record { still = off; taken = ground (arith, done) }) (inl done)
        | timed_out off same late ↦
            over (record { still = off; taken = ground (arith, same, stepped, h) })
              (inr (omega (arith, late, stepped.later)))
        | continued e more early ↦
            onward
              (rw e (record {
                moving = stepped.on ∙ h.moving;
                taken = λ waits. h.taken (sym stepped.same ∙ waits);
                in_time = early;
              }))
              (rw e stepped) (rw e (omega (arith, more, stepped.goal)))
      ])

  -- However the rotor moves: a motion that is on, with no request waiting and the time-out counter
  -- within its limit, is over after as many cycles as bring the counter past the limit.
  pub motion_ends :
      (inputs : List (ℕ × ℕ)) (m : Motion floats)
      → IsMoving m
      → motion_timeout_val < length inputs + m.motion_time_out_cntr
      → (motion_cycles inputs m).set_motion_flag ≡ 0
  motion_ends [] m h long = absurd (omega (arith, h.in_time))
  motion_ends (x ∷ xs) m h long =
      let m' = (motion_cycle floats x.0 x.1 m).0 in
      elim (next x.0 x.1 m h) [
        | over still why ↦ (motion_cycles-IsStill xs m' still).still
        | onward moving stepped more ↦ motion_ends xs m' moving (omega (arith, stepped.later, long))
      ]

  -- However the rotor moves: a motion that is on, with fewer steps executed than programed, ends as
  -- completed after as many cycles as steps are left, if the time-out counter is not brought past its
  -- limit by then and the number of programed steps is at least 102 below 2 ^ 32.
  pub motion_completes :
      (inputs : List (ℕ × ℕ)) (m : Motion floats)
      → IsMoving m
      → m.steps_executed < m.steps_programed
      → m.steps_programed + 101 < 4294967296
      → m.steps_programed ≤ length inputs + m.steps_executed
      → m.steps_programed + m.motion_time_out_cntr ≤ motion_timeout_val + m.steps_executed
      → ((motion_cycles inputs m).set_motion_flag ≡ 0)
        × ((motion_cycles inputs m).desired_status ≡ completed_posn)
  motion_completes [] m h left fits long early = absurd (omega (arith, left, long))
  motion_completes (x ∷ xs) m h left fits long early =
      let m' = (motion_cycle floats x.0 x.1 m).0 in
      elim (next x.0 x.1 m h) [
        | over still (inl done) ↦ motion_cycles_done xs m' still.still done
        | over still (inr late) ↦ absurd (omega (arith, late, left, early))
        | onward moving stepped more ↦
            motion_completes xs m' moving (omega (arith, more, stepped.goal))
              (omega (arith, fits, stepped.goal))
              (ground (arith, stepped.counted, stepped.goal, more, left, long, fits))
              (ground
                (arith, stepped.counted, stepped.goal, stepped.later, more, left, early, fits))
      ]
