-- ===== src/Clock.antt =====
-- `add_timespec` and `ec_sync`, which keep the cycle in step with the distributed clock. `int64` and
-- `long` values are integers without a bound: nanosecond times are far below 2 ^ 63.
pub mod Adding
pub mod Locking
mod Tests
use bharatiya_beagle_bone.Common.{ℕ, ◌+◌, ◌/◌, Bool, if◌then◌else◌}
use bharatiya_beagle_bone.Common.Int.{ℤ, pos, negsuc, ◌+ℤ◌, ◌-ℤ◌, ltb_ℤ, leb_ℤ, div_ℤ, mod_ℤ}

abbrev pub nsec_per_sec : ℕ
nsec_per_sec = 1000000000

-- `struct timespec`
pub record Timespec : Type 0 where
  pub tv_sec : ℤ
  pub tv_nsec : ℤ

-- The second half of `add_timespec`: nanoseconds of a second or more are carried.
pub carry : Timespec → Timespec
carry ts =
    if leb_ℤ (pos nsec_per_sec) ts.tv_nsec
    then (let nsec = mod_ℤ ts.tv_nsec nsec_per_sec in
        record ts { tv_sec = ts.tv_sec +ℤ div_ℤ (ts.tv_nsec -ℤ nsec) nsec_per_sec; tv_nsec = nsec })
    else ts

pub add_timespec : Timespec → ℤ → Timespec
unfolding carry
add_timespec ts addtime =
    let nsec = mod_ℤ addtime nsec_per_sec in
    let sec = div_ℤ (addtime -ℤ nsec) nsec_per_sec in
    carry (record ts { tv_sec = ts.tv_sec +ℤ sec; tv_nsec = ts.tv_nsec +ℤ nsec })

-- What `ec_sync` keeps: its static `integral`, the global `gl_delta`, and `*offsettime`.
pub record Sync : Type 0 where
  pub integral : ℤ
  pub gl_delta : ℤ
  pub toff : ℤ

-- The distance to the sync point, which lies 50 us after the DC sync.
pub sync_delta : ℤ → ℕ → ℤ
sync_delta reftime cycletime =
    let delta = mod_ℤ (reftime -ℤ pos 50000) cycletime in
    if ltb_ℤ (pos (cycletime / 2)) delta then delta -ℤ pos cycletime else delta

pub ec_sync : ℤ → ℕ → Sync → Sync
ec_sync reftime cycletime s =
    let delta = sync_delta reftime cycletime in
    let up = if ltb_ℤ (pos 0) delta then s.integral +ℤ pos 1 else s.integral in
    let integral = if ltb_ℤ delta (pos 0) then up -ℤ pos 1 else up in
    record {
      integral = integral;
      gl_delta = delta;
      toff = pos 0 -ℤ div_ℤ delta 100 -ℤ div_ℤ integral 20;
    }
