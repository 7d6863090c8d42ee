-- ===== src/Cycle/Start.antt =====
-- The start time of the thread.
use bharatiya_beagle_bone.Common.{◌+◌, ◌%◌, ◌≡◌, ◌≤◌, ◌<◌, arith}
use bharatiya_beagle_bone.Common.Int.{pos_part, ◌+ℤ◌, ◌-ℤ◌, div_ℤ, scale_ℤ}
use bharatiya_beagle_bone.Clock.{Timespec}
use bharatiya_beagle_bone.Clock.Adding.{IsNormal, plus, minus}
use bharatiya_beagle_bone.Cycle.{first_cycle}

-- From a normal time, the first cycle starts at a normal time on a whole millisecond that is later,
-- by at most a millisecond.
pub first_cycle_lem :
    (ts : Timespec)
    → IsNormal ts
    → let t = first_cycle ts in
      IsNormal t
      × (pos_part t.tv_nsec % 1000000 ≡ 0)
      × (plus ts + minus t < plus t + minus ts)
      × (plus t + minus ts ≤ plus ts + minus t + 1000000)
unfolding first_cycle div_ℤ scale_ℤ ◌+ℤ◌ ◌-ℤ◌
first_cycle_lem ts h = ground arith
