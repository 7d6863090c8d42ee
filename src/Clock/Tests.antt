-- ===== src/Clock/Tests.antt =====
-- Runs of the clock functions.
use bharatiya_beagle_bone.Common.{◌≡◌, ◌≤◌, ◌<◌, ◌+◌, ◌*◌, ◌/◌, arith}
use bharatiya_beagle_bone.Common.Int.{pos, negsuc, pos_part, neg_part, ◌+ℤ◌, ◌-ℤ◌, ◌≤ℤ◌, ◌<ℤ◌}
use bharatiya_beagle_bone.Clock.{Timespec, add_timespec, Sync, ec_sync}
use bharatiya_beagle_bone.Clock.Adding.{IsLater, IsNormal, add_timespec_lem}
use bharatiya_beagle_bone.Clock.Locking.{Congruent, ec_sync_steers}

-- One cycle of 2 ms before the end of a second, and one after it.
abbrev last_cycle : Timespec
last_cycle = record { tv_sec = pos 7; tv_nsec = pos 999000000 }

add_timespec_lem_example :
    IsLater last_cycle (pos 2000000) (add_timespec last_cycle (pos 2000000))
    × (IsNormal last_cycle
        → neg_part (pos 2000000) ≡ 0
        → IsNormal (add_timespec last_cycle (pos 2000000)))
add_timespec_lem_example = add_timespec_lem last_cycle (pos 2000000)

abbrev start : Sync
start = record { integral = negsuc 39; gl_delta = pos 0; toff = pos 0 }

ec_sync_steers_example :
    let s' = ec_sync (pos 3060000) 2000000 start in
    let d = s'.gl_delta in
    Congruent 2000000 (pos 3060000 -ℤ pos 50000) d
    × (2 * pos_part d ≤ 2000000)
    × (neg_part d < 2000000)
    × (pos 50000 ≤ℤ pos 3060000 → 2 * neg_part d ≤ 2000000)
    × (pos 0 <ℤ d → s'.integral ≡ start.integral +ℤ pos 1)
    × (d <ℤ pos 0 → s'.integral ≡ start.integral -ℤ pos 1)
    × (d ≡ pos 0 → s'.integral ≡ start.integral)
    × (pos_part s'.toff + pos_part d / 100 + pos_part s'.integral / 20
        ≡ neg_part s'.toff + neg_part d / 100 + neg_part s'.integral / 20)
    × (pos 0 ≤ℤ d → pos 0 ≤ℤ s'.integral → s'.toff ≤ℤ pos 0)
    × (d ≤ℤ pos 0 → s'.integral ≤ℤ pos 0 → pos 0 ≤ℤ s'.toff)
ec_sync_steers_example = ec_sync_steers (pos 3060000) 2000000 start (omega arith)
