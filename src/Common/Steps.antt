-- ===== src/Common/Steps.antt =====
-- Code with a state: a step from the state to its result and the state behind it.
use Prim.Native.Nat.{ℕ, zero, suc, ◌≤◌}
use native.Mathlib.Omega.{arith}
use mathlib.Core.Path.{◌≡◌, refl}
use mathlib.Core.Bool.{Bool, true, false}
use bharatiya_beagle_bone.Common.Tests.{if◌then◌else◌}

abbrev pub Run {ℓ} : Type ℓ → Type ℓ → Type ℓ
Run S A = S → A × S

infixl 10 ◌>>=◌ ◌>>◌
unfoldable pub ◌>>=◌ {ℓ} : {S A B : Type ℓ} → (S → A × S) → (A → S → B × S) → S → B × S
m >>= f = λ s. f (m s).0 (m s).1

unfoldable pub ◌>>◌ {ℓ} : {S A B : Type ℓ} → (S → A × S) → (S → B × S) → S → B × S
m >> n = λ s. n (m s).1

unfoldable pub pure {ℓ} : {S A : Type ℓ} → A → S → A × S
pure a = λ s. (a, s)

-- A step of a part of the state, inside the whole.
unfoldable pub within {ℓ} : {S T A : Type ℓ} → (S → T) → (T → S → S) → (T → A × T) → S → A × S
within part put m = λ s. ((m (part s)).0, put (m (part s)).1 s)

-- What holds in both branches.
pub if_both {ℓ κ} :
    {A : Type ℓ} (P : A → Type κ) (b : Bool) (x y : A) → P x → P y → P (if b then x else y)
if_both P true x y px py = px
if_both P false x y px py = py

-- `do … while (again && !expired)`, for a timer that is found not expired so many times.
module _ {ℓ} {S A : Type ℓ} (again : A → Bool) (body : A → S → A × S) where
  unfoldable pub do_while : ℕ → A → S → A × S
  do_while zero a s = body a s
  do_while (suc left) a s =
      let rest = do_while left (body a s).0 (body a s).1 in
      if again (body a s).0 then rest else body a s

  -- What every pass keeps holds at the end.
  pub do_while-invariant :
      (P : A × S → Type ℓ)
      → ((a : A) (s : S) → P (a, s) → P (body a s))
      → (left : ℕ) (a : A) (s : S) → P (a, s)
      → P (do_while left a s)
  unfolding do_while
  do_while-invariant P keeps zero a s p = keeps a s p
  do_while-invariant P keeps (suc left) a s p =
      if_both P (again (body a s).0) (do_while left (body a s).0 (body a s).1) (body a s)
        (do_while-invariant P keeps left (body a s).0 (body a s).1 (keeps a s p)) (keeps a s p)

  -- The same with a timer that other loops go on using: what is left of it.
  unfoldable pub do_while_timed : ℕ → A → S → (A × ℕ) × S
  do_while_timed zero a s = (((body a s).0, 0), (body a s).1)
  do_while_timed (suc left) a s =
      let rest = do_while_timed left (body a s).0 (body a s).1 in
      if again (body a s).0 then rest else (((body a s).0, suc left), (body a s).1)

-- What holds in each branch where its test does.
pub if_cases {ℓ κ} :
    {A : Type ℓ} (P : A → Type κ) (b : Bool) (x y : A)
    → (b ≡ true → P x)
    → (b ≡ false → P y)
    → P (if b then x else y)
if_cases P true x y px py = px refl
if_cases P false x y px py = py refl

module _ {ℓ} {S A : Type ℓ} (again : A → Bool) (body : A → S → A × S) where
  -- A timer is never wound back.
  pub do_while_timed-left :
      (left : ℕ) (a : A) (s : S) → (do_while_timed again body left a s).0.1 ≤ left
  unfolding do_while_timed
  do_while_timed-left zero a s = omega arith
  do_while_timed-left (suc left) a s =
      let rest = do_while_timed again body left (body a s).0 (body a s).1 in
      if_both (λ (r : (A × ℕ) × S). r.0.1 ≤ suc left) (again (body a s).0) rest
        (((body a s).0, suc left), (body a s).1)
        (omega (arith, do_while_timed-left left (body a s).0 (body a s).1)) (omega arith)
