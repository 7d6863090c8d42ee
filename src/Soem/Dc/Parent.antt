-- ===== src/Soem/Dc/Parent.antt =====
-- The search for the slave above that has a clock.
use bharatiya_beagle_bone.Common.{
  ℕ, zero, suc, ◌≡◌, ◌≢◌, ◌≤◌, ◌<◌, ◌⊎◌, inl, inr, refl, arith, Bool, true, false, ◌==◌, ◌||◌,
  if_cases,
}
use bharatiya_beagle_bone.Soem.Nic.{Wire}
use bharatiya_beagle_bone.Soem.Slaves.{Context, slave_of}
use bharatiya_beagle_bone.Soem.Dc.Config.{dc_parent}

module _ {W : Type 0} (wire : Wire W) where
  -- The slaves on the way up from slave i: it, and every parent above one of them that is neither the
  -- master nor a slave with a clock.
  pub data OnTheWay (c : Context W) (i : ℕ) : ℕ → Type 0 where
    start : OnTheWay c i i
    up :
        (k : ℕ)
        → OnTheWay c i k
        → (slave_of wire c k).parent ≢ 0
        → (slave_of wire c (slave_of wire c k).parent).hasdc ≡ false
        → OnTheWay c i (slave_of wire c k).parent

  -- What the search ends with: the master or a slave with a clock, as the parent of a slave on the
  -- way to it. It is the nearest one, since no parent on the way is one.
  pub record IsFound (c : Context W) (i : ℕ) (r : ℕ × ℕ) : Type 0 where
    pub on_the_way : OnTheWay c i r.0
    pub above : r.1 ≡ (slave_of wire c r.0).parent
    pub stops : (r.1 ≡ 0) ⊎ ((slave_of wire c r.1).hasdc ≡ true)

  search_from-IsFound :
      (rounds i k : ℕ) (c : Context W)
      → ((s : ℕ) → 0 < s → (slave_of wire c s).parent < s)
      → 0 < k
      → k ≤ rounds
      → OnTheWay c i k
      → IsFound c i (dc_parent wire rounds k c)
  unfolding dc_parent
  search_from-IsFound zero i k c before lt le way = absurd (omega arith)
  search_from-IsFound (suc rounds) i k c before lt le way =
      let above = (slave_of wire c k).parent in
      let below = before k lt in
      if_cases (IsFound c i) ((above == 0) || (slave_of wire c above).hasdc) (k, above)
        (dc_parent wire rounds above c)
        (λ yes_it. record {
          on_the_way = way;
          above = refl;
          stops = ends above (slave_of wire c above).hasdc yes_it;
        })
        (λ not_it.
          let (inner, without) = goes_on above (slave_of wire c above).hasdc not_it in
          search_from-IsFound rounds i above c before (omega (arith, inner)) (omega arith)
            (up k way inner without))
    where
      ends : (a : ℕ) (b : Bool) → ((a == 0) || b) ≡ true → (a ≡ 0) ⊎ (b ≡ true)
      ends zero b e = inl refl
      ends (suc a) b e = inr (ground arith)

      goes_on : (a : ℕ) (b : Bool) → ((a == 0) || b) ≡ false → (a ≢ 0) × (b ≡ false)
      goes_on a b e = (ground arith, ground arith)

  -- Where every slave's parent stands before it, the search from slave i ends within i rounds with
  -- the nearest slave above that has a clock, or with the master when there is none on the way, and
  -- with the slave below it on the way from i.
  pub dc_parent-IsFound :
      (rounds i : ℕ) (c : Context W)
      → ((s : ℕ) → 0 < s → (slave_of wire c s).parent < s)
      → 0 < i
      → i ≤ rounds
      → IsFound c i (dc_parent wire rounds i c)
  dc_parent-IsFound rounds i c before lt le = search_from-IsFound rounds i i c before lt le start
