-- ===== src/Soem/Dc/Trigger.antt =====
-- When the first sync pulse comes.
use bharatiya_beagle_bone.Common.{
  ℕ, ◌+◌, ◌*◌, ◌/◌, ◌≡◌, ◌≤◌, ◌<◌, refl, ap, ◌∙◌, arith, Bool, none, some, ltb, if_cases, ◌==◌, u32,
}
use bharatiya_beagle_bone.Common.Int.{ℤ, pos, ◌+ℤ◌, div_ℤ, scale_ℤ}
use bharatiya_beagle_bone.Soem.Nic.{Wire}
use bharatiya_beagle_bone.Soem.Slaves.{Context}
use bharatiya_beagle_bone.Soem.Dc.Sync.{syncdelay, first_trigger, true_cycltime, dcsync01}

pos-add : (a b : ℕ) → pos a +ℤ pos b ≡ pos (a + b)
unfolding ◌+ℤ◌
pos-add a b = ground arith

next_multiple :
    (n cycle : ℕ)
    → 0 < cycle
    → (n < (n / cycle + 1) * cycle) × ((n / cycle + 1) * cycle ≤ n + cycle)
next_multiple n cycle lt = (grind arith, grind arith)

-- One more cycle.
one_more : (q cycle : ℕ) → q * cycle + cycle ≡ (q + 1) * cycle
one_more q cycle = grind arith

whole :
    (t1 cycle : ℕ) (shift : ℤ)
    → 0 < cycle
    → first_trigger (pos t1) cycle shift ≡ pos (((t1 + syncdelay) / cycle + 1) * cycle) +ℤ shift
unfolding first_trigger div_ℤ scale_ℤ
whole t1 cycle shift lt =
    let soon = pos t1 +ℤ pos syncdelay in
    let q = (t1 + syncdelay) / cycle in
    let start = pos (((t1 + syncdelay) / cycle + 1) * cycle) +ℤ shift in
    if_cases (λ t. t ≡ start) (ltb 0 cycle) (scale_ℤ (div_ℤ soon cycle) cycle +ℤ pos cycle +ℤ shift)
      (soon +ℤ shift)
      (λ _.
        ap (λ k. scale_ℤ (div_ℤ k cycle) cycle +ℤ pos cycle +ℤ shift) (pos-add t1 syncdelay)
        ∙ ap (λ k. k +ℤ shift) (pos-add (q * cycle) cycle ∙ ap pos (one_more q cycle)))
      (λ no. absurd (ground arith))

fitting :
    (c0 c1 : ℕ)
    → 0 < c0
    → c0 + c1 < 4294967296
    → (c1 / c0 + 1) * c0 ≤ c1 + c0
    → true_cycltime c0 c1 ≡ some ((c1 / c0 + 1) * c0)
unfolding true_cycltime
fitting c0 c1 lt fits le =
    let k = c1 / c0 + 1 in
    let small : k ≤ k * c0 = at_least k c0 lt in
    let whole_k : u32 k ≡ k = omega (arith, small, le, fits) in
    if_cases (λ t. t ≡ some (k * c0)) (c0 == 0) none (some (u32 (u32 k * c0)))
      (λ no. absurd (ground arith))
      (λ _. ap some (ap (λ j. u32 (j * c0)) whole_k ∙ within_32 (k * c0) (omega (arith, le, fits))))
  where
    at_least : (k c : ℕ) → 0 < c → k ≤ k * c
    at_least k c lt = grind arith

    within_32 : (n : ℕ) → n < 4294967296 → u32 n ≡ n
    within_32 n lt = omega arith

-- For a cycle that is not 0, the first pulse comes at a whole multiple of the cycle, moved by the
-- shift: the first multiple that lies more than the delay behind the slave's time.
pub first_trigger_lem :
    (t1 cycle : ℕ) (shift : ℤ)
    → 0 < cycle
    → (k : ℕ) × (first_trigger (pos t1) cycle shift ≡ pos (k * cycle) +ℤ shift)
      × (t1 + syncdelay < k * cycle)
      × (k * cycle ≤ t1 + syncdelay + cycle)
unfolding first_trigger div_ℤ scale_ℤ
first_trigger_lem t1 cycle shift lt =
    let n = t1 + syncdelay in
    let next = next_multiple n cycle lt in (n / cycle + 1, whole t1 cycle shift lt, next.0, next.1)

-- The cycle after which both pulses come together is a whole multiple of the first cycle, longer than
-- the second and by no more than the first, unless it leaves the 32 bits.
pub true_cycltime_lem :
    (c0 c1 : ℕ)
    → 0 < c0
    → c0 + c1 < 4294967296
    → (k : ℕ) × (true_cycltime c0 c1 ≡ some (k * c0)) × (c1 < k * c0) × (k * c0 ≤ c1 + c0)
unfolding true_cycltime
true_cycltime_lem c0 c1 lt fits =
    let next = next_multiple c1 c0 lt in (c1 / c0 + 1, fitting c0 c1 lt fits next.1, next.0, next.1)

-- With a first cycle of 0, `ecx_dcsync01` divides by zero on every slave and in every state, though
-- it has a branch for that cycle.
pub dcsync01_zero :
    {W : Type 0} (wire : Wire W) (slave : ℕ) (act : Bool) (c1 : ℕ) (shift : ℤ) (c : Context W)
    → dcsync01 wire slave act 0 c1 shift c ≡ none
unfolding dcsync01 true_cycltime
dcsync01_zero wire slave act c1 shift c = refl
