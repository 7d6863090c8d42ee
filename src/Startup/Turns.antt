-- ===== src/Startup/Turns.antt =====
-- The loop in operation.
use bharatiya_beagle_bone.Common.{ℕ, ◌≡◌, ◌≤◌, arith, true}
use bharatiya_beagle_bone.Common.Int.{ℤ, ◌≤ℤ◌}
use bharatiya_beagle_bone.Drive.{Drive, fault_reset}
use bharatiya_beagle_bone.Drive.Control.Effect.{IsValid, modify_control_word-IsValid}
use bharatiya_beagle_bone.Drive.Enable.{print_status}
use bharatiya_beagle_bone.Startup.{Panel, socket_scan_cycles, operation_turn}

print_status-IsValid : (g : Drive) → IsValid g → IsValid (print_status g)
unfolding print_status
print_status-IsValid g v = ground (arith, v, modify_control_word-IsValid fault_reset v)

-- A turn keeps the globals of the drive valid; it keeps the socket counter within its limit while no
-- motion is on; and it takes over position and torque exactly if the work counter is as expected.
pub operation_turn_lem :
    (wkc expected : ℤ) (posn tq set_motion : ℕ) (p : Panel)
    → IsValid p.drive
    → p.socket_elapsed_cntr ≤ socket_scan_cycles
    → let p' = operation_turn wkc expected posn tq set_motion p in
      IsValid p'.drive
      × (set_motion ≡ 0 → p'.socket_elapsed_cntr ≤ socket_scan_cycles)
      × (expected ≤ℤ wkc → (p'.actual_posn ≡ posn) × (p'.actual_tq ≡ tq) × (p'.needlf ≡ true))
      × (¬ (expected ≤ℤ wkc) → (p'.actual_posn ≡ p.actual_posn) × (p'.actual_tq ≡ p.actual_tq))
unfolding operation_turn
operation_turn_lem wkc expected posn tq set_motion p v within =
    let once = print_status-IsValid p.drive v in
    let twice = print_status-IsValid (print_status p.drive) once in
    (
      ground (arith, once, twice),
      λ off. ground (arith, off, within),
      λ good. ground (arith, good),
      λ bad. ground (arith, bad),
    )
