-- ===== src/Startup/Retry.antt =====
-- The loop that waits for the operational state.
use bharatiya_beagle_bone.Common.{
  ℕ, zero, suc, ◌≡◌, ◌≢◌, ◌⊎◌, inl, inr, ◌≤◌, ◌<◌, refl, arith, ==_iff, Bool-cases, ◌==◌,
}
use bharatiya_beagle_bone.EcatCheck.{state_operational}
use bharatiya_beagle_bone.Startup.{Library, await_operational}

module _ (lib : Library) where
  open lib use {World, state_check}

  -- The state of check k, when the checks follow each other.
  abbrev pub check : ℕ → World → ℕ × World
  check zero w = state_check state_operational w
  check (suc k) w = check k (state_check state_operational w).1

  -- The last of the checks 0 to chk is k: no check before it was operational, and it is operational or
  -- the checks are used up.
  pub record LastCheck (chk : ℕ) (w : World) (k : ℕ) : Type 0 where
    pub allowed : k ≤ chk
    pub before : (j : ℕ) → j < k → (check j w).0 ≢ state_operational
    pub here : ((check k w).0 ≡ state_operational) ⊎ (k ≡ chk)

  later :
      (chk : ℕ) (w : World) (k : ℕ)
      → (state_check state_operational w).0 ≢ state_operational
      → LastCheck chk (state_check state_operational w).1 k
      → LastCheck (suc chk) w (suc k)
  later chk w k ne last = record {
    allowed = omega (arith, last.allowed);
    before = earlier;
    here = elim last.here [ inl found ↦ inl found | inr all ↦ inr (omega (arith, all)) ];
  }
    where
      earlier : (j : ℕ) → j < suc k → (check j w).0 ≢ state_operational
      earlier zero lt = ne
      earlier (suc j) lt = last.before j (omega (arith, lt))

  -- With `chk` retries, the loop makes at most `chk` + 1 checks, one after the other, stops at the first
  -- that is operational, and gives what the last one gave.
  pub await_operational_lem :
      (chk : ℕ) (w : World)
      → (k : ℕ) × LastCheck chk w k × (await_operational lib chk w ≡ check k w)
  unfolding await_operational
  await_operational_lem zero w = (
    0,
    record { allowed = omega arith; before = λ j lt. absurd (omega (arith, lt)); here = inr refl },
    refl,
  )
  await_operational_lem (suc chk) w =
      let w' = (state_check state_operational w).1 in
      elim (Bool-cases ((state_check state_operational w).0 == state_operational)) [
        | inl yes_op ↦ (
          0,
          record {
            allowed = omega arith;
            before = λ j lt. absurd (omega (arith, lt));
            here = inl ((==_iff _ _).0 yes_op);
          },
          rw (await_operational, yes_op) refl,
        )
        | inr not_op ↦
            let (k, last, e) = await_operational_lem chk w' in
            (suc k, later chk w k (ground (arith, not_op)) last, rw (await_operational, not_op) e)
      ]
