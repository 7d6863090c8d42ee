-- ===== src/Drive/Status/Decode.antt =====
-- What `updateStatus` makes of every status word, against the bit patterns of the drive profile.
use bharatiya_beagle_bone.Common.{
  ℕ, ◌/◌, ◌%◌, ◌≡◌, ◌≢◌, refl, arith, if◌then◌else◌, ◌==◌, bit7, bit10, bit12, and_0x4f, and_0x6f,
  and_0x80, and_0x400, and_0x1000,
}
use bharatiya_beagle_bone.Drive.{
  DriveStatus, unknown, not_rdy_to_switch_on, switch_on_disabled, rdy_to_switch_on, switched_on,
  operation_enabled, fault, fault_reaction_active, quick_stop_active, DriveStatus-discrete, Drive,
}
use bharatiya_beagle_bone.Drive.Status.{status_of, update_status}

-- The four lowest bits, bit 5 and bit 6 of a status word.
pub record Pattern (s nibble b5 b6 : ℕ) : Type 0 where
  pub low : s % 16 ≡ nibble
  pub bit5 : s / 32 % 2 ≡ b5
  pub bit6 : s / 64 % 2 ≡ b6

-- The patterns in which bit 5 is free.
pub record PatternAny5 (s nibble b6 : ℕ) : Type 0 where
  pub low : s % 16 ≡ nibble
  pub bit6 : s / 64 % 2 ≡ b6

-- The states of the profile by their patterns.
abbrev pub Shows : ℕ → DriveStatus → Type 0
Shows s not_rdy_to_switch_on = PatternAny5 s 0 0
Shows s switch_on_disabled = PatternAny5 s 0 1
Shows s rdy_to_switch_on = Pattern s 1 1 0
Shows s switched_on = Pattern s 3 1 0
Shows s operation_enabled = Pattern s 7 1 0
Shows s quick_stop_active = Pattern s 7 0 0
Shows s fault_reaction_active = PatternAny5 s 15 0
Shows s fault = PatternAny5 s 8 0
Shows s _ = ⊥

-- The words that `updateStatus` does not know: fault reaction active with bit 5 set.
abbrev pub Missed : ℕ → DriveStatus → Type 0
Missed s d = (d ≡ fault_reaction_active) × (s / 32 % 2 ≡ 1)

status_of-Shows : (s : ℕ) (old d : DriveStatus) → Shows s d → ¬ Missed s d → status_of s old ≡ d
unfolding status_of
status_of-Shows s old not_rdy_to_switch_on h known = ground (arith, and_0x4f s, and_0x6f s)
status_of-Shows s old switch_on_disabled h known = ground (arith, and_0x4f s, and_0x6f s)
status_of-Shows s old rdy_to_switch_on h known = ground (arith, and_0x4f s, and_0x6f s)
status_of-Shows s old switched_on h known = ground (arith, and_0x4f s, and_0x6f s)
status_of-Shows s old operation_enabled h known = ground (arith, and_0x4f s, and_0x6f s)
status_of-Shows s old quick_stop_active h known = ground (arith, and_0x4f s, and_0x6f s)
status_of-Shows s old fault_reaction_active h known =
    let clear : s / 32 % 2 ≢ 1 = λ e. known (refl, e) in
    ground (arith, clear, and_0x4f s, and_0x6f s)
status_of-Shows s old fault h known = ground (arith, and_0x4f s, and_0x6f s)
status_of-Shows s old _ h known = absurd h

-- What the chain finds is what the word shows, unless it found nothing.
Shows-status_of :
    (s : ℕ) (old : DriveStatus) → (status_of s old ≢ unknown) → Shows s (status_of s old)
unfolding status_of
Shows-status_of s old h = ground (arith, and_0x4f s, and_0x6f s)

-- Fault reaction active with bit 5 set is not known.
status_of-Missed :
    (s : ℕ) (old : DriveStatus)
    → Shows s fault_reaction_active
    → s / 32 % 2 ≡ 1
    → status_of s old ≡ unknown
unfolding status_of
status_of-Missed s old h e = ground (arith, and_0x4f s, and_0x6f s)

-- For every status word `s` and state `g` before: `updateStatus` ends in the state whose pattern the
-- word shows, whatever the state was, with one exception: for fault reaction active with bit 5
-- set, which the pattern leaves free, it ends in `unknown`. Where it does not end in `unknown`, the
-- word shows the pattern of the state it ends in, and where the word shows no pattern it ends in
-- `unknown`.
pub update_status_decodes :
    (s : ℕ) (g : Drive)
    → let after = (update_status s g).drive_status in
      ((d : DriveStatus) → Shows s d → ¬ Missed s d → after ≡ d)
      × (Shows s fault_reaction_active → s / 32 % 2 ≡ 1 → after ≡ unknown)
      × (after ≢ unknown → Shows s after)
      × (((d : DriveStatus) → ¬ Shows s d) → after ≡ unknown)
unfolding update_status
update_status_decodes s g = (
  status_of-Shows s g.drive_status,
  status_of-Missed s g.drive_status,
  Shows-status_of s g.drive_status,
  λ none_shown. elim (DriveStatus-discrete (status_of s g.drive_status) unknown) [
    | yes e ↦ e
    | no e ↦ absurd (none_shown _ (Shows-status_of s g.drive_status e))
  ],
)

-- For every status word and state before: the error flag is bit 7, the set-point acknowledge bit 12
-- and the target-reached flag bit 10; the interpolation flag is bit 12 if interpolation is enabled
-- and is kept if not; the control word, the image and the enable stage are kept.
pub update_status_flags :
    (s : ℕ) (g : Drive)
    → let after = update_status s g in
      (after.error_flag ≡ bit7 s)
      × (after.set_pt_ack ≡ bit12 s)
      × (after.target_reached_flag ≡ bit10 s)
      × (after.interpolation_active
          ≡ (if g.interpolation_enable_flag == 1 then bit12 s else g.interpolation_active))
      × (after.ctl_wd ≡ g.ctl_wd)
      × (after.op_pdo ≡ g.op_pdo)
      × (after.opn_enabled ≡ g.opn_enabled)
unfolding update_status
update_status_flags s g = ground (arith, and_0x80 s, and_0x400 s, and_0x1000 s)
