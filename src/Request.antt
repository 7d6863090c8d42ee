-- ===== src/Request.antt =====
-- The functions of simple_test.c that prepare and report a motion request. In this version they are
-- called only by `simpletest` (`resetDesiredTqAndDegOfRtn`) and by code that is commented out.
pub mod Checks
pub mod Reports
mod Tests
use bharatiya_beagle_bone.Common.{
  ℕ, zero, suc, ◌+◌, ◌*◌, ◌%◌, Bool, true, false, ◌||◌, ◌==◌, ltb, if◌then◌else◌, List, [], ◌∷◌,
  u16, u32, sub32,
}
use bharatiya_beagle_bone.Motion.{CommandStatus, unknown, completed_posn}

-- `ValidateInteger`: the value that it leaves, and whether it returns 1.
unfoldable pub validate_filling : ℕ → ℕ → ℕ → ℕ → ℕ × Bool
validate_filling n min max fill = if ltb n min || ltb max n then (fill, false) else (n, true)

-- `ValidateFloat`, over any type with the order of `float`.
unfoldable pub validate_float_filling {ℓ} : {F : Type ℓ} → (F → F → Bool) → F → F → F → F → F × Bool
validate_float_filling ltf x min max fill =
    if ltf x min || ltf max x then (fill, false) else (x, true)

abbrev pub cw : ℕ
cw = 1

-- `calculateFinalDesiredPosn` from the position, the steps and the offset of a step. Positions are the
-- bit patterns of `int32` values.
unfoldable pub calculate_final_desired_posn : ℕ → ℕ → ℕ → ℕ → ℕ
calculate_final_desired_posn posn steps offset direction =
    let total = u32 (steps * offset) in
    if direction == cw then sub32 posn total else u32 (posn + total)

-- The globals of a request.
pub record Request : Type 0 where
  pub desired_degree_of_rtn : ℕ
  pub desired_status : CommandStatus
  pub modify_cmd_status_flag : ℕ
  pub desired_direction_of_rtn : ℕ
  pub desired_rpm : ℕ
  pub status_reset_cntr : ℕ
  pub actual_posn : ℕ
  pub actual_tq : ℕ

-- `resetDesiredTqAndDegOfRtn`; the torque, a `float` that it sets to 0, is left out.
unfoldable pub reset_desired : Request → Request
reset_desired r = record r {
  desired_degree_of_rtn = 0;
  desired_status = unknown;
  modify_cmd_status_flag = 1;
  desired_direction_of_rtn = 0;
  desired_rpm = 0;
}

-- The three numbers of the message "STP,%d,%d,%d".
pub record Report : Type 0 where
  pub posn : ℕ
  pub tq : ℕ
  pub status : CommandStatus

-- A completed motion is counted in every report; at the fourth the status is reset.
unfoldable pub age_status : CommandStatus → Request → Request
age_status completed_posn r =
    let n = u16 (r.status_reset_cntr + 1) in
    if ltb 3 n
    then record r { status_reset_cntr = 0; desired_status = unknown }
    else record r { status_reset_cntr = n }
age_status _ r = r

-- `SetActualTqAndPosn`: the globals after it, and the message that it prints.
unfoldable pub set_actual_tq_and_posn : Request → Request × Report
unfolding age_status
set_actual_tq_and_posn r =
    let r' = age_status r.desired_status r in
    (r', record { posn = r'.actual_posn; tq = r'.actual_tq; status = r'.desired_status })

-- The reports of n calls, the first one first.
unfoldable pub reports : ℕ → Request → List Report
unfolding set_actual_tq_and_posn
reports zero r = []
reports (suc n) r = let (r', report) = set_actual_tq_and_posn r in report ∷ reports n r'
