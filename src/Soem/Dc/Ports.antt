-- ===== src/Soem/Dc/Ports.antt =====
-- The choice of a port.
use mathlib.Core.Path.{subst}
use bharatiya_beagle_bone.Common.{
  ℕ, ◌+◌, ◌*◌, ◌%◌, ◌≡◌, ◌≢◌, ◌<◌, refl, arith, Bool, true, ==_iff, ◌==◌, ◌&&◌, if◌then◌else◌, List,
  [], ◌∷◌, all_below, all_below-holds, ◌^◌, ◌/◌,
}
use bharatiya_beagle_bone.Soem.Dc.{prevport, parentport}

-- Port p is one of the ports b.
abbrev pub is_among : ℕ → ℕ → Bool
is_among p b = b / 2 ^ p % 2 == 1

-- The first of a list of ports that is among the ports b, or else a port that is given.
abbrev pub first_of : List ℕ → ℕ → ℕ → ℕ
first_of [] b other = other
first_of (p ∷ ps) b other = let rest = first_of ps b other in if is_among p b then p else rest

takes_one : ℕ → Bool
unfolding parentport
takes_one b =
    let port = first_of (3 ∷ 1 ∷ 2 ∷ 0 ∷ []) b 0 in
    (parentport b).0 == port
    && (if b % 16 == 0 then (parentport b).1 == b else (parentport b).1 + 2 ^ port == b)

takes_one-table : all_below 256 takes_one ≡ true
unfolding all_below takes_one
takes_one-table = refl

-- `ecx_parentport` gives the first port of 3, 1, 2 and 0, in this order, that is left. While one of the
-- four is left, exactly that port is taken from them; when none is, the ports are kept.
pub parentport_lem :
    (b : ℕ)
    → b < 256
    → ((parentport b).0 ≡ first_of (3 ∷ 1 ∷ 2 ∷ 0 ∷ []) b 0)
      × (b % 16 ≢ 0 → (parentport b).1 + 2 ^ (first_of (3 ∷ 1 ∷ 2 ∷ 0 ∷ []) b 0) ≡ b)
      × (b % 16 ≡ 0 → (parentport b).1 ≡ b)
unfolding takes_one
parentport_lem b lt =
    taken (parentport b).0 (parentport b).1 (first_of (3 ∷ 1 ∷ 2 ∷ 0 ∷ []) b 0)
      (2 ^ first_of (3 ∷ 1 ∷ 2 ∷ 0 ∷ []) b 0) (all_below-holds 256 takes_one b takes_one-table lt)
  where
    taken :
        (got left port bit : ℕ)
        → (got == port && (if b % 16 == 0 then left == b else left + bit == b)) ≡ true
        → (got ≡ port) × (b % 16 ≢ 0 → left + bit ≡ b) × (b % 16 ≡ 0 → left ≡ b)
    taken got left port bit h = (ground arith, ground arith, ground arith)

-- The port before a port, in the order 0, 3, 1, 2 in which a frame passes them.
abbrev pub port_before : ℕ → ℕ
port_before port = if port == 0 then 2 else if port == 2 then 1 else if port == 1 then 3 else 0

-- The first active port on the way back from a port, or the port itself.
abbrev pub active_before : ℕ → ℕ → ℕ
active_before aport port =
    let one = port_before port in
    let two = port_before one in first_of (one ∷ two ∷ port_before two ∷ []) aport port

goes_back-table :
    all_below 1024 (λ k. prevport (k / 4) (k % 4) == active_before (k / 4) (k % 4)) ≡ true
unfolding all_below prevport
goes_back-table = refl

-- `ecx_prevport` gives the port before the given one, in the order 0, 3, 1, 2 and round again, that is
-- active: the nearest one that way. The port itself is the result if no other is active.
pub prevport_lem :
    (aport port : ℕ) → aport < 256 → port < 4 → prevport aport port ≡ active_before aport port
prevport_lem aport port small four =
    let k = 4 * aport + port in
    let h =
      all_below-holds 1024 (λ k. prevport (k / 4) (k % 4) == active_before (k / 4) (k % 4)) k
        goes_back-table (omega arith) in
    (==_iff _ _).0 (
      subst (λ a. (prevport a port == active_before a port) ≡ true) (quotient aport port four)
        (subst (λ p. (prevport (k / 4) p == active_before (k / 4) p) ≡ true)
          (remainder aport port four) h))
  where
    quotient : (a p : ℕ) → p < 4 → (4 * a + p) / 4 ≡ a
    quotient a p lt = omega arith

    remainder : (a p : ℕ) → p < 4 → (4 * a + p) % 4 ≡ p
    remainder a p lt = omega arith
