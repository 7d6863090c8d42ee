-- ===== src/Setup.antt =====
-- The set-up of the servo over the mailbox: each function is the list of its `ec_SDOwrite` calls, in
-- order. All calls write one object (`CA` is FALSE) with the time-out EC_TIMEOUTRXM, and the sum of
-- their results is a local that nothing reads, so a call that fails changes nothing here.
pub mod Layout
use bharatiya_beagle_bone.Common.{ℕ, List, [], ◌∷◌, ◌++◌}

pub record SdoWrite : Type 0 where
  pub slave : ℕ
  pub index : ℕ
  pub subindex : ℕ
  pub size : ℕ
  pub value : ℕ

abbrev pub write8 : ℕ → ℕ → ℕ → ℕ → SdoWrite
write8 s i sub v = record { slave = s; index = i; subindex = sub; size = 1; value = v }

abbrev pub write16 : ℕ → ℕ → ℕ → ℕ → SdoWrite
write16 s i sub v = record { slave = s; index = i; subindex = sub; size = 2; value = v }

abbrev pub write32 : ℕ → ℕ → ℕ → ℕ → SdoWrite
write32 s i sub v = record { slave = s; index = i; subindex = sub; size = 4; value = v }

-- The two limits are `int32` values as their bit patterns.
unfoldable pub set_software_position_limit : ℕ → ℕ → ℕ → List SdoWrite
set_software_position_limit s limit1 limit2 =
    write32 s 0x607d 0x01 limit1 ∷ write32 s 0x607d 0x02 limit2 ∷ write8 s 0x607d 0x00 2 ∷ []

unfoldable pub modify_max_torque_value_register : ℕ → ℕ → List SdoWrite
modify_max_torque_value_register s max_torque = write16 s 0x6073 0x00 max_torque ∷ []

unfoldable pub set_output_pdo : ℕ → ℕ → List SdoWrite
set_output_pdo s pdo =
    write8 s 0x1c12 0x00 0 ∷ write16 s 0x1c12 0x01 pdo ∷ write8 s 0x1c12 0x00 1 ∷ []

unfoldable pub set_input_pdo : ℕ → ℕ → List SdoWrite
set_input_pdo s pdo =
    write8 s 0x1c13 0x00 0 ∷ write16 s 0x1c13 0x01 pdo ∷ write8 s 0x1c13 0x00 1 ∷ []

unfoldable pub set_dc_mode_setup : ℕ → List SdoWrite
set_dc_mode_setup s =
    write16 s 0x1c32 0x01 2
    ∷ write32 s 0x1c32 0x02 2000000
    ∷ write16 s 0x1c33 0x01 2
    ∷ write32 s 0x1c33 0x03 0
    ∷ write8 s 0x6060 0x00 1
    ∷ []

-- The first writes of `setFlexibleOutputPDO`: the assignment and the four mappings are cleared.
unfoldable pub clear_output_pdos : ℕ → List SdoWrite
clear_output_pdos s =
    write8 s 0x1c12 0x00 0
    ∷ write8 s 0x1600 0 0
    ∷ write8 s 0x1601 0 0
    ∷ write8 s 0x1602 0 0
    ∷ write8 s 0x1603 0 0
    ∷ []

unfoldable pub map_output_pdo : ℕ → List SdoWrite
map_output_pdo s =
    write32 s 0x1600 1 0x60400010
    ∷ write32 s 0x1600 2 0x60600008
    ∷ write32 s 0x1600 3 0x60710010
    ∷ write32 s 0x1600 4 0x60720010
    ∷ write32 s 0x1600 5 0x607a0020
    ∷ write32 s 0x1600 6 0x60800020
    ∷ write32 s 0x1600 7 0x60ff0020
    ∷ write8 s 0x1600 0 7
    ∷ []

unfoldable pub set_flexible_output_pdo : ℕ → List SdoWrite
unfolding clear_output_pdos map_output_pdo
set_flexible_output_pdo s =
    clear_output_pdos s
    ++ (map_output_pdo s ++ (write8 s 0x1c12 0x00 1 ∷ write16 s 0x1c12 0x01 0x1600 ∷ []))

unfoldable pub clear_input_pdos : ℕ → List SdoWrite
clear_input_pdos s =
    write8 s 0x1c13 0x00 0
    ∷ write8 s 0x1a00 0x00 0
    ∷ write8 s 0x1a01 0x00 0
    ∷ write8 s 0x1a02 0x00 0
    ∷ write8 s 0x1a03 0x00 0
    ∷ []

unfoldable pub map_input_pdo : ℕ → List SdoWrite
map_input_pdo s =
    write32 s 0x1a00 1 0x603f0010
    ∷ write32 s 0x1a00 2 0x60410010
    ∷ write32 s 0x1a00 3 0x60610008
    ∷ write32 s 0x1a00 4 0x60640020
    ∷ write32 s 0x1a00 5 0x606c0020
    ∷ write32 s 0x1a00 6 0x606c0020
    ∷ write8 s 0x1a00 0x00 6
    ∷ []

unfoldable pub set_flexible_input_pdo : ℕ → List SdoWrite
unfolding clear_input_pdos map_input_pdo
set_flexible_input_pdo s =
    clear_input_pdos s
    ++ (map_input_pdo s ++ (write8 s 0x1c13 0x00 1 ∷ write16 s 0x1c13 0x01 0x1a00 ∷ []))

-- The hook that runs for the servo between PRE_OP and SAFE_OP. What it prints is left out, and so is
-- the loop that prints the errors of the library until there are none.
unfoldable pub panasonic_setup : ℕ → List SdoWrite
unfolding set_dc_mode_setup set_software_position_limit set_flexible_output_pdo
    set_flexible_input_pdo
panasonic_setup s =
    set_dc_mode_setup s
    ++ (set_software_position_limit s 0 0
        ++ (set_flexible_output_pdo s ++ set_flexible_input_pdo s))
