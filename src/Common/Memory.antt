-- ===== src/Common/Memory.antt =====
-- Blocks of bytes inside a buffer: `memcpy` and `memset` at an offset, and reading a block back.
use Prim.Native.Nat.{ℕ, zero, suc, ◌+◌, ◌*◌, ◌/◌, ◌%◌, ◌≤◌, ◌<◌}
use mathlib.Core.Path.{◌≡◌, refl, ap, ◌∙◌}
use mathlib.Core.Logic.{◌⊎◌, inl, inr}
use mathlib.Core.List.{List, [], ◌∷◌}
use native.Mathlib.Omega.{arith}
use bharatiya_beagle_bone.Common.Lists.{length, get_or, set, replicate, length-set, get_or-set}

-- The bytes of `src` go to `dst` from an offset on; what lies behind the buffer is lost.
unfoldable pub memcpy : List ℕ → ℕ → List ℕ → List ℕ
memcpy dst at [] = dst
memcpy dst at (b ∷ src) = memcpy (set dst at b) (at + 1) src

-- n bytes from an offset on; behind the buffer they read as 0.
unfoldable pub bytes_at : List ℕ → ℕ → ℕ → List ℕ
bytes_at src at zero = []
bytes_at src at (suc n) = get_or src at 0 ∷ bytes_at src (at + 1) n

-- The n low bytes of a number, and the number of such bytes.
unfoldable pub low_bytes : ℕ → ℕ → List ℕ
low_bytes zero v = []
low_bytes (suc n) v = v % 256 ∷ low_bytes n (v / 256)

unfoldable pub number_of : List ℕ → ℕ
number_of [] = 0
number_of (b ∷ bs) = b + 256 * number_of bs

pub length-memcpy : (dst : List ℕ) (at : ℕ) (src : List ℕ) → length (memcpy dst at src) ≡ length dst
unfolding memcpy
length-memcpy dst at [] = refl
length-memcpy dst at (b ∷ src) = length-memcpy (set dst at b) (at + 1) src ∙ length-set dst at b

pub length-bytes_at : (src : List ℕ) (at n : ℕ) → length (bytes_at src at n) ≡ n
unfolding bytes_at
length-bytes_at src at zero = refl
length-bytes_at src at (suc n) = ap suc (length-bytes_at src (at + 1) n)

pub length-replicate {ℓ} : {A : Type ℓ} (n : ℕ) (b : A) → length (replicate n b) ≡ n
length-replicate zero b = refl
length-replicate (suc n) b = ap suc (length-replicate n b)

-- Outside the block, the bytes are kept.
pub memcpy_before :
    (dst : List ℕ) (at : ℕ) (src : List ℕ) (j : ℕ)
    → j < at
    → get_or (memcpy dst at src) j 0 ≡ get_or dst j 0
unfolding memcpy
memcpy_before dst at [] j lt = refl
memcpy_before dst at (b ∷ src) j lt =
    memcpy_before (set dst at b) (at + 1) src j (omega arith)
    ∙ ground (arith, get_or-set dst at j b 0)

pub memcpy_after :
    (dst : List ℕ) (at : ℕ) (src : List ℕ) (j : ℕ)
    → at + length src ≤ j
    → get_or (memcpy dst at src) j 0 ≡ get_or dst j 0
unfolding memcpy
memcpy_after dst at [] j le = refl
memcpy_after dst at (b ∷ src) j le =
    memcpy_after (set dst at b) (at + 1) src j (omega arith)
    ∙ ground (arith, get_or-set dst at j b 0)

-- Inside the block, they are those of the source.
pub memcpy_inside :
    (dst : List ℕ) (at : ℕ) (src : List ℕ) (i j : ℕ)
    → j ≡ at + i
    → i < length src
    → at + length src ≤ length dst
    → get_or (memcpy dst at src) j 0 ≡ get_or src i 0
unfolding memcpy
memcpy_inside dst at [] i j e lt fits = absurd (omega arith)
memcpy_inside dst at (b ∷ src) zero j e lt fits =
    memcpy_before (set dst at b) (at + 1) src j (omega arith)
    ∙ ground (arith, get_or-set dst at j b 0)
memcpy_inside dst at (b ∷ src) (suc i) j e lt fits =
    memcpy_inside (set dst at b) (at + 1) src i j (omega arith) (omega arith)
      (omega (arith, length-set dst at b))

-- A block read back.
pub bytes_at_same :
    (xs ys : List ℕ) (at at' n : ℕ)
    → ((i : ℕ) → i < n → get_or xs (at + i) 0 ≡ get_or ys (at' + i) 0)
    → bytes_at xs at n ≡ bytes_at ys at' n
unfolding bytes_at
bytes_at_same xs ys at at' zero same = refl
bytes_at_same xs ys at at' (suc n) same =
    let here : get_or xs at 0 ≡ get_or ys at' 0 =
      moved xs at (at + 0) (omega arith)
      ∙ same 0 (omega arith)
      ∙ moved ys (at' + 0) at' (omega arith) in
    let rest = bytes_at_same xs ys (at + 1) (at' + 1) n (λ i lt.
      moved xs (at + 1 + i) (at + (i + 1)) (omega arith)
      ∙ same (i + 1) (omega arith)
      ∙ moved ys (at' + (i + 1)) (at' + 1 + i) (omega arith)) in
    cc (here, rest)
  where
    moved : (zs : List ℕ) (j k : ℕ) → j ≡ k → get_or zs j 0 ≡ get_or zs k 0
    moved zs j k e = ap (λ i. get_or zs i 0) e

pub bytes_at-memcpy :
    (dst : List ℕ) (at : ℕ) (src : List ℕ)
    → at + length src ≤ length dst
    → bytes_at (memcpy dst at src) at (length src) ≡ bytes_at src 0 (length src)
bytes_at-memcpy dst at src fits = bytes_at_same (memcpy dst at src) src at 0 (length src) (λ i lt.
    memcpy_inside dst at src i (at + i) refl lt fits ∙ ap (λ k. get_or src k 0) (omega arith))

-- A block that lies before or behind what is written.
pub bytes_at-memcpy_apart :
    (dst : List ℕ) (at : ℕ) (src : List ℕ) (from n : ℕ)
    → (from + n ≤ at) ⊎ (at + length src ≤ from)
    → bytes_at (memcpy dst at src) from n ≡ bytes_at dst from n
bytes_at-memcpy_apart dst at src from n (inl before) =
    bytes_at_same (memcpy dst at src) dst from from n
      (λ i lt. memcpy_before dst at src (from + i) (omega arith))
bytes_at-memcpy_apart dst at src from n (inr behind) =
    bytes_at_same (memcpy dst at src) dst from from n
      (λ i lt. memcpy_after dst at src (from + i) (omega arith))

-- The whole of a list.
pub bytes_at_all : (xs : List ℕ) → bytes_at xs 0 (length xs) ≡ xs
unfolding bytes_at
bytes_at_all [] = refl
bytes_at_all (x ∷ xs) =
    let tail = bytes_at_same (x ∷ xs) xs 1 0 (length xs) (λ i lt. behind x xs i) in
    cc (tail, bytes_at_all xs)
  where
    behind : (x : ℕ) (xs : List ℕ) (i : ℕ) → get_or (x ∷ xs) (1 + i) 0 ≡ get_or xs (0 + i) 0
    behind x xs i = cc (one_more i, no_more i)
      where
        one_more : (i : ℕ) → 1 + i ≡ suc i
        one_more i = omega arith

        no_more : (i : ℕ) → 0 + i ≡ i
        no_more i = omega arith

-- Nothing to copy.
pub memcpy_empty : (dst : List ℕ) (at : ℕ) (src : List ℕ) → length src ≡ 0 → memcpy dst at src ≡ dst
unfolding memcpy
memcpy_empty dst at [] e = refl
memcpy_empty dst at (b ∷ src) e = absurd (omega arith)

pub get_or-bytes_at :
    (src : List ℕ) (at n i : ℕ) → i < n → get_or (bytes_at src at n) i 0 ≡ get_or src (at + i) 0
unfolding bytes_at
get_or-bytes_at src at zero i lt = absurd (omega arith)
get_or-bytes_at src at (suc n) zero lt = ap (λ k. get_or src k 0) (omega arith)
get_or-bytes_at src at (suc n) (suc i) lt =
    get_or-bytes_at src (at + 1) n i (omega arith) ∙ ap (λ k. get_or src k 0) (omega arith)
