-- ===== src/Soem/Slaves/Owner.antt =====
-- Who may use the EEPROM of a slave.
use bharatiya_beagle_bone.Common.{
  ℕ, ◌≡◌, refl, ap, sym, ◌∙◌, Bool, true, false, not, List, [], ◌∷◌, get_or, set, set-get_or,
  if_cases, do_while-invariant,
}
use bharatiya_beagle_bone.Common.Int.{ℤ, pos}
use bharatiya_beagle_bone.Soem.Nic.{Wire, ec_timeoutret}
use bharatiya_beagle_bone.Soem.Base.{positive, ecx_fpwr}
use bharatiya_beagle_bone.Soem.Registers.{reg_eepcfg, ec_defaultretries}
use bharatiya_beagle_bone.Soem.Slaves.{
  Slave, no_slave, Context, slave_of, with_slave, on_net, write_eepcfg, eeprom2master, eeprom2pdi,
  readeeprom_fp,
}

-- What the functions of the EEPROM's owner leave as it is.
pub record SameMemory {W : Type 0} (c d : Context W) : Type 0 where
  pub same_count : d.slavecount ≡ c.slavecount
  pub same_buf : d.esibuf ≡ c.esibuf
  pub same_map : d.esimap ≡ c.esimap
  pub same_owner : d.esislave ≡ c.esislave

module _ {W : Type 0} (wire : Wire W) where
  write_eepcfg-same :
      (configadr eepctl : ℕ) (c : Context W)
      → SameMemory c (write_eepcfg wire configadr eepctl c).1
        × ((write_eepcfg wire configadr eepctl c).1.slavelist ≡ c.slavelist)
  unfolding write_eepcfg
  write_eepcfg-same configadr eepctl c =
      do_while-invariant (λ wkc. not (positive wkc))
        (λ _. on_net wire (ecx_fpwr wire configadr reg_eepcfg 1 (eepctl ∷ []) ec_timeoutret))
        (λ (r : ℤ × Context W). SameMemory c r.1 × (r.1.slavelist ≡ c.slavelist))
        (λ _ _ p. (
          record {
            same_count = p.0.same_count;
            same_buf = p.0.same_buf;
            same_map = p.0.same_map;
            same_owner = p.0.same_owner;
          },
          p.1,
        ))
        ec_defaultretries (pos 1) c
        (record { same_count = refl; same_buf = refl; same_map = refl; same_owner = refl }, refl)

  -- What a step keeps of a context, and what it makes of the slaves.
  abbrev pub Becomes : {A : Type 0} → Context W → List Slave → A × Context W → Type 0
  Becomes c slaves r = SameMemory c r.1 × (r.1.slavelist ≡ slaves)

  -- The slave with another owner of its EEPROM.
  abbrev pub owned_by : Bool → ℕ → Context W → List Slave
  owned_by pdi slave c = set c.slavelist slave (record (slave_of wire c slave) { eep_pdi = pdi })

  -- Nothing changes where the owner is the same.
  pub owned_same :
      (pdi : Bool) (slave : ℕ) (c : Context W)
      → (slave_of wire c slave).eep_pdi ≡ pdi
      → c.slavelist ≡ owned_by pdi slave c
  owned_same pdi slave c e =
      sym (set-get_or c.slavelist slave no_slave)
      ∙ ap (λ b. set c.slavelist slave (record (slave_of wire c slave) { eep_pdi = b })) e

  same_memory : (c : Context W) → SameMemory c c
  same_memory c = record { same_count = refl; same_buf = refl; same_map = refl; same_owner = refl }

  pub then_memory : (c d e : Context W) → SameMemory c d → SameMemory d e → SameMemory c e
  then_memory c d e p q = record {
    same_count = q.same_count ∙ p.same_count;
    same_buf = q.same_buf ∙ p.same_buf;
    same_map = q.same_map ∙ p.same_map;
    same_owner = q.same_owner ∙ p.same_owner;
  }

  -- A slave's record changed behind such a step.
  changed :
      (pdi : Bool) (slave : ℕ) (c d : Context W)
      → SameMemory c d
      → d.slavelist ≡ c.slavelist
      → SameMemory c (with_slave wire slave (λ s. record s { eep_pdi = pdi }) d)
        × ((with_slave wire slave (λ s. record s { eep_pdi = pdi }) d).slavelist
            ≡ owned_by pdi slave c)
  changed pdi slave c d p e = (
    record {
      same_count = p.same_count;
      same_buf = p.same_buf;
      same_map = p.same_map;
      same_owner = p.same_owner;
    },
    ap (λ xs. set xs slave (record (get_or xs slave no_slave) { eep_pdi = pdi })) e,
  )

  pub eeprom2master-owned :
      (slave : ℕ) (c : Context W) → Becomes c (owned_by false slave c) (eeprom2master wire slave c)
  unfolding eeprom2master
  eeprom2master-owned slave c =
      let s = slave_of wire c slave in
      let first = write_eepcfg wire s.configadr 2 c in
      let second = write_eepcfg wire s.configadr 0 first.1 in
      let kept1 = write_eepcfg-same s.configadr 2 c in
      let kept2 = write_eepcfg-same s.configadr 0 first.1 in
      if_cases (Becomes c (owned_by false slave c)) s.eep_pdi
        (second.0, with_slave wire slave (λ s. record s { eep_pdi = false }) second.1) (pos 1, c)
        (λ _.
          changed false slave c second.1 (then_memory c first.1 second.1 kept1.0 kept2.0)
            (kept2.1 ∙ kept1.1))
        (λ e. (same_memory c, owned_same false slave c e))

  pub eeprom2pdi-owned :
      (slave : ℕ) (c : Context W) → Becomes c (owned_by true slave c) (eeprom2pdi wire slave c)
  unfolding eeprom2pdi
  eeprom2pdi-owned slave c =
      let s = slave_of wire c slave in
      let written = write_eepcfg wire s.configadr 1 c in
      let kept = write_eepcfg-same s.configadr 1 c in
      if_cases (Becomes c (owned_by true slave c)) s.eep_pdi (pos 1, c)
        (written.0, with_slave wire slave (λ s. record s { eep_pdi = true }) written.1)
        (λ e. (same_memory c, owned_same true slave c e))
        (λ _. changed true slave c written.1 kept.0 kept.1)

  -- A read of the EEPROM leaves the rest of the context alone.
  pub readeeprom_fp-same :
      (passes configadr eeproma timeout : ℕ) (c : Context W)
      → SameMemory c (readeeprom_fp wire passes configadr eeproma timeout c).1
        × ((readeeprom_fp wire passes configadr eeproma timeout c).1.slavelist ≡ c.slavelist)
  unfolding readeeprom_fp
  readeeprom_fp-same passes configadr eeproma timeout c =
      (record { same_count = refl; same_buf = refl; same_map = refl; same_owner = refl }, refl)
