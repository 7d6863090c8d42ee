-- ===== src/Soem/Registers.antt =====
-- soem/ethercattype.h: registers, commands, states and waiting times that the functions name.
use bharatiya_beagle_bone.Common.{ℕ}

abbrev pub reg_alctl : ℕ
reg_alctl = 0x0120

abbrev pub reg_alstat : ℕ
reg_alstat = 0x0130

abbrev pub reg_eepcfg : ℕ
reg_eepcfg = 0x0500

abbrev pub reg_eepctl : ℕ
reg_eepctl = 0x0502

abbrev pub reg_eepstat : ℕ
reg_eepstat = 0x0502

abbrev pub reg_eepdat : ℕ
reg_eepdat = 0x0508

abbrev pub reg_sm0stat : ℕ
reg_sm0stat = 0x0805

abbrev pub reg_sm1stat : ℕ
reg_sm1stat = 0x080d

abbrev pub reg_sm1contr : ℕ
reg_sm1contr = 0x080f

-- ec_ecmdtype
abbrev pub ecmd_nop : ℕ
ecmd_nop = 0x0000

abbrev pub ecmd_read : ℕ
ecmd_read = 0x0100

abbrev pub ecmd_write : ℕ
ecmd_write = 0x0201

-- Bits of the EEPROM status
abbrev pub estat_r64 : ℕ
estat_r64 = 0x0040

abbrev pub estat_busy : ℕ
estat_busy = 0x8000

abbrev pub estat_emask : ℕ
estat_emask = 0x7800

abbrev pub estat_nack : ℕ
estat_nack = 0x2000

-- ec_state
abbrev pub state_init : ℕ
state_init = 0x01

abbrev pub state_pre_op : ℕ
state_pre_op = 0x02

abbrev pub state_safe_op : ℕ
state_safe_op = 0x04

abbrev pub state_operational : ℕ
state_operational = 0x08

abbrev pub state_error : ℕ
state_error = 0x10

-- Waiting times in microseconds, and the number of retries
abbrev pub ec_timeoutret3 : ℕ
ec_timeoutret3 = 6000

abbrev pub ec_timeouteep : ℕ
ec_timeouteep = 20000

abbrev pub ec_localdelay : ℕ
ec_localdelay = 200

abbrev pub ec_defaultretries : ℕ
ec_defaultretries = 3
