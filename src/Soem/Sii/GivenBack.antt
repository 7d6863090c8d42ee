-- ===== src/Soem/Sii/GivenBack.antt =====
-- The EEPROM, which the search of the slave information takes, is given back.
use bharatiya_beagle_bone.Common.{ℕ, ◌≡◌, ◌⊎◌, false}
use bharatiya_beagle_bone.Soem.Nic.{Wire}
use bharatiya_beagle_bone.Soem.Slaves.{Context}
use bharatiya_beagle_bone.Soem.Slaves.Owner.{owned_by}

module _ {W : Type 0} (wire : Wire W) (passes slave : ℕ) where
  -- The slaves' records are as they were, or the master has the EEPROM of the slave.
  abbrev IsHeld : Context W → Context W → Type 0
  IsHeld c d = (d.slavelist ≡ c.slavelist) ⊎ (d.slavelist ≡ owned_by wire false slave c)
