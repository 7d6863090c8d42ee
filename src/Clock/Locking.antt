-- ===== src/Clock/Locking.antt =====
-- `ec_sync` as a controller: where the distance lies, and how the offset follows it.
use bharatiya_beagle_bone.Common.{
  ℕ, suc, ◌+◌, ◌*◌, ◌/◌, ◌≡◌, ◌<◌, ◌≤◌, ◌⊎◌, inl, inr, arith, Bool-cases,
}
use bharatiya_beagle_bone.Common.Int.{
  ℤ, pos, negsuc, pos_part, neg_part, ◌+ℤ◌, ◌-ℤ◌, ◌≤ℤ◌, ◌<ℤ◌, ltb_ℤ, div_ℤ, mod_ℤ, -ℤ_parts,
}
use native.Mathlib.Nat.{div-add-mod}
use bharatiya_beagle_bone.Clock.{Sync, sync_delta, ec_sync}

-- The remainder lies strictly between minus the cycle and the cycle.
record Within (c : ℕ) (a r : ℤ) : Type 0 where
  below : pos_part r < c
  above : neg_part r < c
  kept : pos_part a ≡ 0 → pos_part r ≡ 0
  kept_neg : neg_part a ≡ 0 → neg_part r ≡ 0

mod-Within : (c : ℕ) (a : ℤ) → 0 < c → Within c a (mod_ℤ a c)
unfolding mod_ℤ
mod-Within c (pos n) h = ground arith
mod-Within c (negsuc n) h = ground arith

sub-pos : (r : ℤ) (c : ℕ) → (pos_part (r -ℤ pos c) ≡ 0) ⊎ (neg_part (r -ℤ pos c) ≡ 0)
unfolding ◌-ℤ◌
sub-pos r c = ground arith

-- The offset that belongs to a distance and an integral.
toff_range :
    (d i : ℤ)
    → let toff = pos 0 -ℤ div_ℤ d 100 -ℤ div_ℤ i 20 in
      (pos 0 ≤ℤ d → pos 0 ≤ℤ i → toff ≤ℤ pos 0)
      × (d ≤ℤ pos 0 → i ≤ℤ pos 0 → pos 0 ≤ℤ toff)
      × (pos_part toff ≤ neg_part d / 100 + neg_part i / 20)
      × (neg_part toff ≤ pos_part d / 100 + pos_part i / 20)
unfolding div_ℤ ◌-ℤ◌
toff_range (pos n) (pos m) = ground arith
toff_range (pos n) (negsuc m) = ground arith
toff_range (negsuc n) (pos m) = ground arith
toff_range (negsuc n) (negsuc m) = ground arith

-- `a` and `r` differ by a multiple of `c`.
abbrev pub Congruent : ℕ → ℤ → ℤ → Type 0
Congruent c a r = (k m : ℕ) × (pos_part a + neg_part r + k * c ≡ neg_part a + pos_part r + m * c)

mod-Congruent : (c : ℕ) (a : ℤ) → Congruent c a (mod_ℤ a c)
unfolding mod_ℤ
mod-Congruent c (pos n) = (0, n / c, ground (arith, div-add-mod n c))
mod-Congruent c (negsuc n) = (suc n / c, 0, ground (arith, div-add-mod (suc n) c))

sub-Congruent : (c : ℕ) (a r : ℤ) → Congruent c a r → Congruent c a (r -ℤ pos c)
sub-Congruent c a r (k, m, e) = (k, m + 1, omega (arith, -ℤ_parts r (pos c)))

-- With a positive cycle time: the distance is the reference time less 50 us, up to whole cycles; it
-- is at most half a cycle upwards and less than a cycle downwards; and where the reference time has
-- reached the first 50 us, it is at most half a cycle downwards too.
pub sync_delta_range :
    (t : ℤ) (c : ℕ)
    → 0 < c
    → let d = sync_delta t c in
      Congruent c (t -ℤ pos 50000) d
      × (2 * pos_part d ≤ c)
      × (neg_part d < c)
      × (pos 50000 ≤ℤ t → 2 * neg_part d ≤ c)
unfolding sync_delta
sync_delta_range t c h =
    let a = t -ℤ pos 50000 in
    let r = mod_ℤ a c in
    let congruent = mod-Congruent c a in
    elim (Bool-cases (ltb_ℤ (pos (c / 2)) r)) [
      | inl far ↦ rw far (
        sub-Congruent c a r congruent,
        ground (arith, mod-Within c a h, -ℤ_parts r (pos c), sub-pos r c),
        ground (arith, mod-Within c a h, -ℤ_parts r (pos c), sub-pos r c),
        λ late.
            ground
              (arith, mod-Within c a h, -ℤ_parts r (pos c), -ℤ_parts t (pos 50000), sub-pos r c),
      )
      | inr near ↦ rw near (
        congruent,
        ground (arith, mod-Within c a h),
        ground (arith, mod-Within c a h),
        λ late. ground (arith, mod-Within c a h, -ℤ_parts t (pos 50000), sub-pos t 50000),
      )
    ]

-- A quotient, rounded towards 0, by its parts.
div_parts :
    (k : ℕ) (a : ℤ) → pos_part (div_ℤ a k) + neg_part a / k ≡ neg_part (div_ℤ a k) + pos_part a / k
unfolding div_ℤ
div_parts k (pos n) = ground arith
div_parts k (negsuc n) = ground arith

-- The offset by the parts of the distance and of the integral.
toff_parts :
    (d i : ℤ)
    → let toff = pos 0 -ℤ div_ℤ d 100 -ℤ div_ℤ i 20 in
      pos_part toff + pos_part d / 100 + pos_part i / 20
      ≡ neg_part toff + neg_part d / 100 + neg_part i / 20
toff_parts d i =
    let a = div_ℤ d 100 in
    let b = div_ℤ i 20 in
    omega (arith, -ℤ_parts (pos 0) a, -ℤ_parts (pos 0 -ℤ a) b, div_parts 100 d, div_parts 20 i)

-- One call of `ec_sync` with a positive cycle time, from any state: the distance that it stores is the
-- reference time less 50 us, up to whole cycles; it is at most half a cycle upwards and less than
-- a cycle downwards, and where the reference time has reached the first 50 us, at most half a cycle
-- downwards too. The integral moves by one towards the sign of the distance, and not at all when it
-- is 0. The offset is what takes away a hundredth of the distance and a twentieth of the new
-- integral, each rounded towards 0: it is not positive when both are not negative, and not negative
-- when both are not positive.
pub ec_sync_steers :
    (t : ℤ) (c : ℕ) (s : Sync)
    → 0 < c
    → let s' = ec_sync t c s in
      let d = s'.gl_delta in
      Congruent c (t -ℤ pos 50000) d
      × (2 * pos_part d ≤ c)
      × (neg_part d < c)
      × (pos 50000 ≤ℤ t → 2 * neg_part d ≤ c)
      × (pos 0 <ℤ d → s'.integral ≡ s.integral +ℤ pos 1)
      × (d <ℤ pos 0 → s'.integral ≡ s.integral -ℤ pos 1)
      × (d ≡ pos 0 → s'.integral ≡ s.integral)
      × (pos_part s'.toff + pos_part d / 100 + pos_part s'.integral / 20
          ≡ neg_part s'.toff + neg_part d / 100 + neg_part s'.integral / 20)
      × (pos 0 ≤ℤ d → pos 0 ≤ℤ s'.integral → s'.toff ≤ℤ pos 0)
      × (d ≤ℤ pos 0 → s'.integral ≤ℤ pos 0 → pos 0 ≤ℤ s'.toff)
unfolding ec_sync
ec_sync_steers t c s h =
    let d = sync_delta t c in
    let i = (ec_sync t c s).integral in
    let range = sync_delta_range t c h in
    let q = toff_range d i in
    (
      range.0,
      range.1,
      range.2,
      range.3,
      ground arith,
      ground arith,
      ground arith,
      toff_parts d i,
      q.0,
      q.1,
    )
