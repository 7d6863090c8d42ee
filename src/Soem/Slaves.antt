-- ===== src/Soem/Slaves.antt =====
-- soem/ethercatmain.h and ethercatmain.c: the context with its list of slaves, and handing the
-- EEPROM of a slave to the master and back.
pub mod Owner
use bharatiya_beagle_bone.Common.{
  ℕ, ◌+◌, Bool, true, false, not, if◌then◌else◌, List, [], ◌∷◌, get_or, set, replicate, Run,
  do_while, within, bytes_at,
}
use bharatiya_beagle_bone.Common.Int.{ℤ, pos}
use bharatiya_beagle_bone.Soem.Nic.{Wire, Net, ec_timeoutret}
use bharatiya_beagle_bone.Soem.Base.{positive, ecx_fpwr}
use bharatiya_beagle_bone.Soem.Errors.{ErrorList}
use bharatiya_beagle_bone.Soem.Registers.{reg_eepcfg, ec_defaultretries}
use bharatiya_beagle_bone.Soem.Eeprom.{
  by_address, readeeprom_with, writeeeprom_fp, readeeprom1_at, readeeprom2_at,
}

-- The fields of ec_slavet that the functions modelled here use. The latched times dcrt_a to dcrt_d and
-- the delay are the bit patterns of their int32,
-- and the arrays SMtype, SM[].SMflags and SM[].SMlength are lists.
pub record Slave : Type 0 where
  pub state : ℕ
  pub alstatuscode : ℕ
  pub configadr : ℕ
  pub mbx_l : ℕ
  pub mbx_wo : ℕ
  pub mbx_rl : ℕ
  pub mbx_ro : ℕ
  pub mbx_cnt : ℕ
  pub sm_type : List ℕ
  pub sm_flags : List ℕ
  pub sm_length : List ℕ
  pub hasdc : Bool
  pub topology : ℕ
  pub activeports : ℕ
  pub consumedports : ℕ
  pub parent : ℕ
  pub parentport : ℕ
  pub entryport : ℕ
  pub dcrt_a : ℕ
  pub dcrt_b : ℕ
  pub dcrt_c : ℕ
  pub dcrt_d : ℕ
  pub pdelay : ℕ
  pub dcnext : ℕ
  pub dcprevious : ℕ
  pub dccycle : ℕ
  pub dcshift : ℤ
  pub dcactive : Bool
  pub group : ℕ
  pub eep_8byte : Bool
  pub eep_pdi : Bool

-- A slave that has not been configured.
abbrev pub no_slave : Slave
no_slave = record {
  state = 0;
  alstatuscode = 0;
  configadr = 0;
  mbx_l = 0;
  mbx_wo = 0;
  mbx_rl = 0;
  mbx_ro = 0;
  mbx_cnt = 0;
  sm_type = replicate 8 0;
  sm_flags = replicate 8 0;
  sm_length = replicate 8 0;
  hasdc = false;
  topology = 0;
  activeports = 0;
  consumedports = 0;
  parent = 0;
  parentport = 0;
  entryport = 0;
  dcrt_a = 0;
  dcrt_b = 0;
  dcrt_c = 0;
  dcrt_d = 0;
  pdelay = 0;
  dcnext = 0;
  dcprevious = 0;
  dccycle = 0;
  dcshift = pos 0;
  dcactive = false;
  group = 0;
  eep_8byte = false;
  eep_pdi = false;
}

-- The part of ec_groupt that the functions modelled here use; a pointer into the image of the
-- process data is its offset there.
pub record Group : Type 0 where
  pub obytes : ℕ
  pub outputs : ℕ
  pub ibytes : ℕ
  pub inputs : ℕ
  pub logstartaddr : ℕ
  pub hasdc : Bool
  pub dcnext : ℕ
  pub blocklrw : ℕ
  pub nsegments : ℕ
  pub isegment : ℕ
  pub ioffset : ℕ
  pub iosegment : List ℕ

-- ec_idxstackT
pub record IdxStack : Type 0 where
  pub pushed : ℕ
  pub pulled : ℕ
  pub idx : List ℕ
  pub places : List ℕ
  pub lengths : List ℕ
  pub dcoffset : List ℕ

-- The part of ecx_contextt that the functions modelled here use. `esimap` has a flag for each bit
-- of the source's words: bit b of word w is the flag 32 * w + b. `dctime` is kept as its eight bytes, and `iomap` is
-- the image of the process data.
pub record Context (W : Type 0) : Type 0 where
  pub net : Net W
  pub slavelist : List Slave
  pub slavecount : ℕ
  pub esibuf : List ℕ
  pub esimap : List Bool
  pub esislave : ℕ
  pub elist : ErrorList
  pub grouplist : List Group
  pub idxstack : IdxStack
  pub dctime : List ℕ
  pub iomap : List ℕ

module _ {W : Type 0} (wire : Wire W) where
  abbrev pub slave_of : Context W → ℕ → Slave
  slave_of c slave = get_or c.slavelist slave no_slave

  abbrev pub with_slave : ℕ → (Slave → Slave) → Context W → Context W
  with_slave slave f c = record c { slavelist = set c.slavelist slave (f (slave_of c slave)) }

  -- A step of the port and the world, in a context.
  abbrev pub on_net : {A : Type 0} → (Net W → A × Net W) → Run (Context W) A
  on_net m c = ((m c.net).0, record c { net = (m c.net).1 })

  -- Writing the EEPROM's configuration register, and up to three more times until it is answered.
  unfoldable pub write_eepcfg : ℕ → ℕ → Run (Context W) ℤ
  unfolding ecx_fpwr
  write_eepcfg configadr eepctl =
      do_while (λ wkc. not (positive wkc))
        (λ _. on_net (ecx_fpwr wire configadr reg_eepcfg 1 (eepctl ∷ []) ec_timeoutret))
        ec_defaultretries (pos 1)

  -- `ecx_eeprom2master`: force the EEPROM from the slave's processor, then take it.
  unfoldable pub eeprom2master : ℕ → Run (Context W) ℤ
  unfolding write_eepcfg
  eeprom2master slave c =
      let configadr = (slave_of c slave).configadr in
      let (_, c1) = write_eepcfg configadr 2 c in
      let (wkc, c2) = write_eepcfg configadr 0 c1 in
      if (slave_of c slave).eep_pdi
      then (wkc, with_slave slave (λ s. record s { eep_pdi = false }) c2)
      else (pos 1, c)

  -- `ecx_eeprom2pdi`
  unfoldable pub eeprom2pdi : ℕ → Run (Context W) ℤ
  unfolding write_eepcfg
  eeprom2pdi slave c =
      let (wkc, c1) = write_eepcfg (slave_of c slave).configadr 1 c in
      if (slave_of c slave).eep_pdi
      then (pos 1, c)
      else (wkc, with_slave slave (λ s. record s { eep_pdi = true }) c1)

  -- `ecx_readeepromFP`, with its bound on the passes.
  unfoldable pub readeeprom_fp : ℕ → ℕ → ℕ → ℕ → Run (Context W) (List ℕ)
  unfolding readeeprom_with
  readeeprom_fp passes configadr eeproma timeout =
      on_net (readeeprom_with wire (by_address wire) configadr passes eeproma timeout)

  -- `ecx_readeeprom`: the low four bytes.
  unfoldable pub readeeprom : ℕ → ℕ → ℕ → ℕ → Run (Context W) (List ℕ)
  unfolding eeprom2master readeeprom_fp
  readeeprom passes slave eeproma timeout c =
      let (_, c1) = eeprom2master slave c in
      let (edat, c2) = readeeprom_fp passes (slave_of c1 slave).configadr eeproma timeout c1 in
      (bytes_at edat 0 4, c2)

  -- `ecx_writeeeprom`
  unfoldable pub writeeeprom : ℕ → ℕ → ℕ → ℕ → ℕ → Run (Context W) ℕ
  unfolding eeprom2master writeeeprom_fp
  writeeeprom passes slave eeproma word timeout c =
      let (_, c1) = eeprom2master slave c in
      on_net (writeeeprom_fp wire passes (slave_of c1 slave).configadr eeproma word timeout) c1

  -- `ecx_readeeprom1`
  unfoldable pub readeeprom1 : ℕ → ℕ → Context W → Context W
  unfolding eeprom2master readeeprom1_at
  readeeprom1 slave eeproma c =
      let (_, c1) = eeprom2master slave c in
      record c1 { net = readeeprom1_at wire (slave_of c1 slave).configadr eeproma c1.net }

  -- `ecx_readeeprom2`
  unfoldable pub readeeprom2 : ℕ → ℕ → Run (Context W) (List ℕ)
  unfolding readeeprom2_at
  readeeprom2 slave timeout c = on_net (readeeprom2_at wire (slave_of c slave).configadr timeout) c

  -- Back to the slave's processor where it had the EEPROM before: the end of the EEPROM functions.
  unfoldable pub give_back : Bool → ℕ → Context W → Context W
  unfolding eeprom2pdi
  give_back eectl slave c = if eectl then (eeprom2pdi slave c).1 else c
