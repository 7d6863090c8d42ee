-- ===== src/Request/Reports.antt =====
-- The reports that follow the end of a motion.
use bharatiya_beagle_bone.Common.{ℕ, zero, suc, ◌≡◌, refl, ap, arith, ◌∷◌, ◌++◌, replicate}
use bharatiya_beagle_bone.Motion.{CommandStatus, unknown, completed_posn}
use bharatiya_beagle_bone.Request.{Request, Report, age_status, set_actual_tq_and_posn, reports}

abbrev pub report_of : Request → CommandStatus → Report
report_of r s = record { posn = r.actual_posn; tq = r.actual_tq; status = s }

reports_other :
    (n : ℕ) (r : Request)
    → r.desired_status ≡ unknown
    → reports n r ≡ replicate n (report_of r unknown)
unfolding reports set_actual_tq_and_posn age_status
reports_other zero r h = refl
reports_other (suc n) r h = ground (arith, h, reports_other n r h)

-- With the counter at 0, a completed motion is reported as completed three times, and from the fourth
-- report on the status is 0; each report holds the position and the torque of the request.
pub reports_completed :
    (n : ℕ) (r : Request)
    → r.desired_status ≡ completed_posn
    → r.status_reset_cntr ≡ 0
    → reports (suc (suc (suc (suc n)))) r
      ≡ replicate 3 (report_of r completed_posn) ++ replicate (suc n) (report_of r unknown)
unfolding reports set_actual_tq_and_posn age_status
reports_completed n r h zero_cntr =
    let done = report_of r completed_posn in
    let after =
      reports_other n (record r { desired_status = unknown; status_reset_cntr = 0 }) refl in
    rw (h, zero_cntr) (ap (λ rest. done ∷ done ∷ done ∷ report_of r unknown ∷ rest) after)
