-- ===== src/Clock/Adding.antt =====
-- The time that `add_timespec` leaves.
use bharatiya_beagle_bone.Common.{ℕ, ◌+◌, ◌*◌, ◌≡◌, ◌<◌, arith}
use bharatiya_beagle_bone.Common.Int.{
  ℤ, pos, negsuc, pos_part, neg_part, ◌+ℤ◌, ◌-ℤ◌, div_ℤ, mod_ℤ, +ℤ_parts,
}
use bharatiya_beagle_bone.Clock.{nsec_per_sec, Timespec, carry, add_timespec}

-- `/` and `%` by a second: they recompose, the remainder is below the divisor and has the sign of
-- the dividend.
record DivMod (a q r : ℤ) : Type 0 where
  whole :
      pos_part a + 1000000000 * neg_part q + neg_part r
      ≡ neg_part a + 1000000000 * pos_part q + pos_part r
  below : pos_part r < 1000000000
  above : neg_part r < 1000000000
  kept : pos_part a ≡ 0 → pos_part r ≡ 0
  kept_neg : neg_part a ≡ 0 → neg_part r ≡ 0

div-mod-sec : (a : ℤ) → DivMod a (div_ℤ a nsec_per_sec) (mod_ℤ a nsec_per_sec)
unfolding div_ℤ mod_ℤ
div-mod-sec (pos n) = ground arith
div-mod-sec (negsuc n) = ground arith

-- A multiple of a second is divided exactly.
div-sec-sub-mod : (a : ℤ) → div_ℤ (a -ℤ mod_ℤ a nsec_per_sec) nsec_per_sec ≡ div_ℤ a nsec_per_sec
unfolding div_ℤ mod_ℤ ◌-ℤ◌
div-sec-sub-mod (pos n) = ground arith
div-sec-sub-mod (negsuc n) = ground arith

-- The time of a timespec in nanoseconds, in two parts: what is added and what is taken off.
abbrev pub plus : Timespec → ℕ
plus ts = 1000000000 * pos_part ts.tv_sec + pos_part ts.tv_nsec

abbrev pub minus : Timespec → ℕ
minus ts = 1000000000 * neg_part ts.tv_sec + neg_part ts.tv_nsec

-- `t` is `ts` and `d` nanoseconds.
abbrev pub IsLater : Timespec → ℤ → Timespec → Type 0
IsLater ts d t = plus t + minus ts + neg_part d ≡ minus t + plus ts + pos_part d

-- The nanoseconds are from 0 to 999999999.
pub record IsNormal (ts : Timespec) : Type 0 where
  pub nonneg : neg_part ts.tv_nsec ≡ 0
  pub below : pos_part ts.tv_nsec < 1000000000

normal_sum : (a b : ℤ) → neg_part a ≡ 0 → neg_part b ≡ 0 → neg_part (a +ℤ b) ≡ 0
unfolding ◌+ℤ◌
normal_sum a b h k = ground arith

carry-IsLater : (ts : Timespec) → IsLater ts (pos 0) (carry ts)
unfolding carry
carry-IsLater ts = ground (
  arith,
  div-mod-sec ts.tv_nsec,
  div-sec-sub-mod ts.tv_nsec,
  +ℤ_parts ts.tv_sec (div_ℤ (ts.tv_nsec -ℤ mod_ℤ ts.tv_nsec nsec_per_sec) nsec_per_sec),
)

carry-IsNormal : (ts : Timespec) → neg_part ts.tv_nsec ≡ 0 → IsNormal (carry ts)
unfolding carry
carry-IsNormal ts h = ground (arith, div-mod-sec ts.tv_nsec)

carry_neg : (ts : Timespec) → 0 < neg_part ts.tv_nsec → carry ts ≡ ts
unfolding carry
carry_neg ts h = ground arith

-- For every time and every number of nanoseconds: the time after is the time before and the
-- nanoseconds; it is normal when the time before is and the number is not negative.
pub add_timespec_lem :
    (ts : Timespec) (d : ℤ)
    → IsLater ts d (add_timespec ts d)
      × (IsNormal ts → neg_part d ≡ 0 → IsNormal (add_timespec ts d))
unfolding add_timespec
add_timespec_lem ts d =
    let r = mod_ℤ d nsec_per_sec in
    let q = div_ℤ (d -ℤ r) nsec_per_sec in
    let mid : Timespec = record { tv_sec = ts.tv_sec +ℤ q; tv_nsec = ts.tv_nsec +ℤ r } in
    let sums = +ℤ_parts ts.tv_sec q in
    let nsums = +ℤ_parts ts.tv_nsec r in
    (
      ground (arith, carry-IsLater mid, div-mod-sec d, div-sec-sub-mod d, sums, nsums),
      λ normal positive.
          carry-IsNormal mid
            (normal_sum ts.tv_nsec r normal.nonneg ((div-mod-sec d).kept_neg positive)),
    )
