-- ===== src/Request/Checks.antt =====
-- Validation, and the final position of a motion.
use bharatiya_beagle_bone.Common.{ℕ, ◌≡◌, ◌≢◌, ◌≤◌, ◌<◌, arith, true, false}
use bharatiya_beagle_bone.Request.{validate_filling, cw, calculate_final_desired_posn}

-- For a fill value within the limits: `ValidateInteger` always leaves a value within the limits, it
-- returns 1 exactly if the value was within them before, and then it leaves the value alone.
pub validate_filling_lem :
    (n min max fill : ℕ)
    → min ≤ fill
    → fill ≤ max
    → let (n', ok) = validate_filling n min max fill in
      (min ≤ n')
      × (n' ≤ max)
      × (ok ≡ true → (n' ≡ n) × (min ≤ n) × (n ≤ max))
      × (ok ≡ false → n' ≡ fill)
      × (min ≤ n → n ≤ max → ok ≡ true)
unfolding validate_filling
validate_filling_lem n min max fill low high =
    (ground arith, ground arith, λ h. ground arith, λ h. ground arith, λ h k. ground arith)

-- A motion clockwise and one of the same steps the other way, from the position that the first one
-- ends at, lead back to the start; either end is a 32-bit pattern.
pub calculate_final_desired_posn_back :
    (posn steps offset direction : ℕ)
    → posn < 4294967296
    → direction ≢ cw
    → let there = calculate_final_desired_posn posn steps offset cw in
      (there < 4294967296)
      × (calculate_final_desired_posn there steps offset direction ≡ posn)
      × (calculate_final_desired_posn posn steps offset direction < 4294967296)
unfolding calculate_final_desired_posn
calculate_final_desired_posn_back posn steps offset direction lt other = ground arith
