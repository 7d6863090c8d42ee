-- ===== src/Common/Bits.antt =====
-- `&` and `|` of C at variables: one equation for the lowest bit, and from it what the masks of
-- the program keep, as sums of binary digits.
use Prim.Native.Nat.{
  ℕ, zero, suc, ◌+◌, ◌-◌, ◌*◌, ◌/◌, ◌%◌, ◌≤◌, ◌<◌, min, max, bit_and, bit_or, digits,
  bit_and-bitwise, bit_or-bitwise,
}
use mathlib.Core.Path.{◌≡◌, refl, ◌∙◌, ap}
use mathlib.Core.Bool.{Bool, true, false}
use mathlib.Core.Logic.{◌⊎◌, inl, inr}
use bharatiya_beagle_bone.Common.Tests.{if◌then◌else◌}
use native.Mathlib.Omega.{arith}

-- Fuel beyond the number itself changes nothing.
module _ (z : ℕ → ℕ) (f : ℕ → ℕ → ℕ) where
  digits_more : (n a b : ℕ) → a ≤ n → digits z f (suc n) a b ≡ digits z f n a b
  digits_more zero zero b h = refl
  digits_more zero (suc a) b h = absurd (omega arith)
  digits_more (suc n) zero b h = refl
  digits_more (suc n) (suc a) b h =
      ap (λ (t : ℕ). t * 2 + f (suc a % 2) (b % 2))
        (digits_more n (suc a / 2) (b / 2) (omega arith))

  digits_enough : (k a b : ℕ) → digits z f (k + a) a b ≡ digits z f a a b
  digits_enough zero a b = let e : zero + a ≡ a = omega arith in ap (λ n. digits z f n a b) e
  digits_enough (suc k) a b =
      let e : suc k + a ≡ suc (k + a) = omega arith in
      ap (λ n. digits z f n a b) e ∙ (digits_more (k + a) a b (omega arith) ∙ digits_enough k a b)

  -- The lowest digit apart.
  digits_lowest :
      (a b : ℕ)
      → digits z f (suc a) (suc a) b
        ≡ digits z f (suc a / 2) (suc a / 2) (b / 2) * 2 + f (suc a % 2) (b % 2)
  digits_lowest a b =
      ap (λ (t : ℕ). t * 2 + f (suc a % 2) (b % 2))
        (let e : a ≡ a - suc a / 2 + suc a / 2 = omega arith in
          ap (λ n. digits z f n (suc a / 2) (b / 2)) e
          ∙ digits_enough (a - suc a / 2) (suc a / 2) (b / 2))

pub and_lowest : (a b : ℕ) → bit_and a b ≡ bit_and (a / 2) (b / 2) * 2 + min (a % 2) (b % 2)
and_lowest zero b = simp bit_and-bitwise (omega arith)
and_lowest (suc a) b = simp bit_and-bitwise (digits_lowest (λ y. 0) min a b)

pub or_lowest : (a b : ℕ) → bit_or a b ≡ bit_or (a / 2) (b / 2) * 2 + max (a % 2) (b % 2)
or_lowest zero b = simp bit_or-bitwise (omega arith)
or_lowest (suc a) b = simp bit_or-bitwise (digits_lowest (λ y. y) max a b)

halves : (a bound : ℕ) → a ≤ suc bound → (a ≡ 0) ⊎ (a / 2 ≤ bound)
halves a bound small = ground arith

-- The mask 0, on both sides at once: halving the word lowers the bound.
zero_mask : (a bound : ℕ) → a ≤ bound → (bit_and a 0 ≡ 0) × (bit_or a 0 ≡ a)
zero_mask a zero small = ground (arith, and_lowest a 0, or_lowest a 0)
zero_mask a (suc bound) small = elim (halves a bound small) [
  | inl none_left ↦ ground (arith, none_left)
  | inr fits ↦ (
    omega (arith, and_lowest a 0, (zero_mask (a / 2) bound fits).0),
    omega (arith, or_lowest a 0, (zero_mask (a / 2) bound fits).1),
  )
]

pub and-zero : (a : ℕ) → bit_and a 0 ≡ 0
and-zero a = (zero_mask a a (omega arith)).0

pub or-zero : (a : ℕ) → bit_or a 0 ≡ a
or-zero a = (zero_mask a a (omega arith)).1

-- bit k of a word, as a digit
abbrev pub bit7 : ℕ → ℕ
bit7 s = s / 128 % 2

abbrev pub bit10 : ℕ → ℕ
bit10 s = s / 1024 % 2

abbrev pub bit12 : ℕ → ℕ
bit12 s = s / 4096 % 2

pub and_0x1 : (s : ℕ) → bit_and s 1 ≡ s % 2
and_0x1 s = omega (arith, and_lowest s 1, and-zero (s / 2))

pub and_0x4 : (s : ℕ) → bit_and s 4 ≡ 4 * (s / 4 % 2)
and_0x4 s = omega (arith, and_lowest s 4, and_lowest (s / 2) 2, and_0x1 (s / 2 / 2))

pub and_0x6 : (s : ℕ) → bit_and s 6 ≡ 2 * (s / 2 % 2) + 4 * (s / 4 % 2)
and_0x6 s = omega (arith, and_lowest s 6, and_lowest (s / 2) 3, and_0x1 (s / 2 / 2))

-- BIT6 + BIT3 + BIT2 + BIT1 + BIT0
pub and_0x4f : (s : ℕ) → bit_and s 0x4f ≡ s % 16 + 64 * (s / 64 % 2)
and_0x4f s = omega (
  arith,
  and_lowest s 0x4f,
  and_lowest (s / 2) 0x27,
  and_lowest (s / 2 / 2) 0x13,
  and_lowest (s / 2 / 2 / 2) 9,
  and_0x4 (s / 2 / 2 / 2 / 2),
)

-- the same with BIT5
pub and_0x6f : (s : ℕ) → bit_and s 0x6f ≡ s % 16 + 32 * (s / 32 % 2) + 64 * (s / 64 % 2)
and_0x6f s = omega (
  arith,
  and_lowest s 0x6f,
  and_lowest (s / 2) 0x37,
  and_lowest (s / 2 / 2) 0x1b,
  and_lowest (s / 2 / 2 / 2) 0x0d,
  and_0x6 (s / 2 / 2 / 2 / 2),
)

and_0x10 : (s : ℕ) → bit_and s 0x10 ≡ 16 * (s / 16 % 2)
and_0x10 s = omega (arith, and_lowest s 0x10, and_lowest (s / 2) 8, and_0x4 (s / 2 / 2))

and_0x40 : (s : ℕ) → bit_and s 0x40 ≡ 64 * (s / 64 % 2)
and_0x40 s = omega (arith, and_lowest s 0x40, and_lowest (s / 2) 0x20, and_0x10 (s / 2 / 2))

pub and_0x80 : (s : ℕ) → bit_and s 0x80 ≡ 128 * bit7 s
and_0x80 s = omega (arith, and_lowest s 0x80, and_0x40 (s / 2))

and_0x100 : (s : ℕ) → bit_and s 0x100 ≡ 256 * (s / 256 % 2)
and_0x100 s = omega (arith, and_lowest s 0x100, and_0x80 (s / 2))

pub and_0x400 : (s : ℕ) → bit_and s 0x400 ≡ 1024 * bit10 s
and_0x400 s = omega (arith, and_lowest s 0x400, and_lowest (s / 2) 0x200, and_0x100 (s / 2 / 2))

pub and_0x1000 : (s : ℕ) → bit_and s 0x1000 ≡ 4096 * bit12 s
and_0x1000 s = omega (arith, and_lowest s 0x1000, and_lowest (s / 2) 0x800, and_0x400 (s / 2 / 2))

-- A test of the values from 0 up to a bound, and what it shows of each.
unfoldable pub passes : (ℕ → Bool) → ℕ → Bool
passes test zero = true
passes test (suc top) = if test top then passes test top else false

pub passes_at : (test : ℕ → Bool) (top x : ℕ) → x < top → passes test top ≡ true → test x ≡ true
unfolding passes
passes_at test zero x below all = absurd (omega arith)
passes_at test (suc top) x below all = ground (arith, passes_at test top x)

-- The bit above all those of a number: `|` adds it.
abbrev IsAbove : ℕ → Type 0
IsAbove p = (m : ℕ) → m < p → bit_or m p ≡ m + p

IsAbove-one : IsAbove 1
IsAbove-one m lt = omega (arith, or_lowest m 1, or-zero (m / 2), or_lowest (m / 2) 0)

IsAbove-double : (p : ℕ) → IsAbove p → IsAbove (p * 2)
IsAbove-double p h m lt =
    omega (arith, or_lowest m (p * 2), h (m / 2) (omega arith), ap (λ q. bit_or (m / 2) q) (half p))
  where
    half : (p : ℕ) → p * 2 / 2 ≡ p
    half p = omega arith

IsAbove-16 : IsAbove 16
IsAbove-16 = IsAbove-double 8 (IsAbove-double 4 (IsAbove-double 2 (IsAbove-double 1 IsAbove-one)))

IsAbove-256 : IsAbove 256
IsAbove-256 =
    IsAbove-double 128 (IsAbove-double 64 (IsAbove-double 32 (IsAbove-double 16 IsAbove-16)))

IsAbove-4096 : IsAbove 4096
IsAbove-4096 =
    IsAbove-double 2048 (IsAbove-double 1024 (IsAbove-double 512 (IsAbove-double 256 IsAbove-256)))

pub or_0x8000 : (m : ℕ) → m < 0x8000 → bit_or m 0x8000 ≡ m + 0x8000
or_0x8000 = IsAbove-double 0x4000 (IsAbove-double 0x2000 (IsAbove-double 4096 IsAbove-4096))
