-- ===== src/Soem/Dc/Tests.antt =====
-- Ports, pulses and parents on sample values.
use bharatiya_beagle_bone.Common.{
  ℕ, zero, suc, ◌+◌, ◌*◌, ◌^◌, ◌≡◌, ◌≢◌, ◌%◌, ◌≤◌, ◌<◌, arith, true, [], ◌∷◌,
}
use bharatiya_beagle_bone.Common.Int.{pos, negsuc, ◌+ℤ◌}
use bharatiya_beagle_bone.Soem.Slaves.{Context, no_slave, slave_of}
use bharatiya_beagle_bone.Soem.Samples.{silent, two_slaves}
use bharatiya_beagle_bone.Soem.Dc.{parentport, prevport}
use bharatiya_beagle_bone.Soem.Dc.Ports.{first_of, parentport_lem, active_before, prevport_lem}
use bharatiya_beagle_bone.Soem.Dc.Sync.{syncdelay, first_trigger}
use bharatiya_beagle_bone.Soem.Dc.Trigger.{first_trigger_lem}
use bharatiya_beagle_bone.Soem.Dc.Config.{dc_parent}
use bharatiya_beagle_bone.Soem.Dc.Parent.{IsFound, dc_parent-IsFound}

parentport_lem_example :
    ((parentport 6).0 ≡ first_of (3 ∷ 1 ∷ 2 ∷ 0 ∷ []) 6 0)
    × (6 % 16 ≢ 0 → (parentport 6).1 + 2 ^ (first_of (3 ∷ 1 ∷ 2 ∷ 0 ∷ []) 6 0) ≡ 6)
    × (6 % 16 ≡ 0 → (parentport 6).1 ≡ 6)
parentport_lem_example = parentport_lem 6 (omega arith)

prevport_lem_example : prevport 9 0 ≡ active_before 9 0
prevport_lem_example = prevport_lem 9 0 (omega arith) (omega arith)

first_trigger_lem_example :
    (k : ℕ) × (first_trigger (pos 123456789) 2000000 (negsuc 499999)
      ≡ pos (k * 2000000) +ℤ negsuc 499999)
    × (123456789 + syncdelay < k * 2000000)
    × (k * 2000000 ≤ 123456789 + syncdelay + 2000000)
first_trigger_lem_example = first_trigger_lem 123456789 2000000 (negsuc 499999) (omega arith)

-- Slave 2 stands behind slave 1, which has no clock.
abbrev three_slaves : Context ℕ
three_slaves = record two_slaves {
  slavelist = no_slave ∷ no_slave ∷ record no_slave { hasdc = true; parent = 1 } ∷ [];
}

parents_before : (s : ℕ) → 0 < s → (slave_of silent three_slaves s).parent < s
parents_before zero lt = absurd (omega arith)
parents_before (suc zero) lt = omega arith
parents_before (suc (suc zero)) lt = omega arith
parents_before (suc (suc (suc s))) lt = omega arith

dc_parent-IsFound_example : IsFound silent three_slaves 2 (dc_parent silent 2 2 three_slaves)
dc_parent-IsFound_example =
    dc_parent-IsFound silent 2 2 three_slaves parents_before (omega arith) (omega arith)
