-- ===== src/Soem/Sii/Cache.antt =====
-- The cache of the slave information against the EEPROM itself.
use bharatiya_beagle_bone.Common.{
  ℕ, zero, suc, ◌+◌, ◌-◌, ◌*◌, ◌/◌, ◌≡◌, ◌≢◌, ◌⊎◌, inl, inr, ◌≤◌, ◌<◌, refl, ap, sym, ◌∙◌, arith,
  true, false, ltb, ◌==◌, if◌then◌else◌, List, [], ◌∷◌, length, get_or, set, replicate, bytes_at,
  length-memcpy, get_or-replicate, if_cases,
}
use bharatiya_beagle_bone.Soem.Nic.{Wire}
use bharatiya_beagle_bone.Soem.Registers.{ec_timeouteep}
use bharatiya_beagle_bone.Soem.Slaves.{
  Slave, no_slave, Context, slave_of, eeprom2master, readeeprom_fp,
}
use bharatiya_beagle_bone.Soem.Slaves.Owner.{
  SameMemory, then_memory, eeprom2master-owned, readeeprom_fp-same,
}
use bharatiya_beagle_bone.Soem.Sii.Blocks.{new_byte, stored}
use bharatiya_beagle_bone.Soem.Sii.{
  ec_maxeepbuf, flag, own_cache, store_bytes, fetch_bytes, siigetbyte,
}

-- Every byte that is flagged is the one of the EEPROM, and the buffer has its size.
pub record Coherent {W : Type 0} (rom : ℕ → ℕ) (c : Context W) : Type 0 where
  pub flagged_bytes : (j : ℕ) → get_or c.esimap j false ≡ true → get_or c.esibuf j 0 ≡ rom j
  pub buf_size : length c.esibuf ≡ ec_maxeepbuf

module _ {W : Type 0} (wire : Wire W) (passes slave : ℕ) (rom : ℕ → ℕ) where
  -- How many bytes an access gives.
  abbrev pub width : Context W → ℕ
  width c = if (slave_of wire c slave).eep_8byte then 8 else 4

  own_cache-Coherent :
      (c : Context W)
      → (slave ≢ c.esislave) ⊎ Coherent rom c
      → length c.esibuf ≡ ec_maxeepbuf
      → Coherent rom (own_cache wire passes slave c)
        × ((own_cache wire passes slave c).esislave ≡ slave)
        × ((own_cache wire passes slave c).slavelist ≡ c.slavelist)
  unfolding own_cache
  own_cache-Coherent c known size =
      if_cases
        (λ (d : Context W). Coherent rom d × (d.esislave ≡ slave) × (d.slavelist ≡ c.slavelist))
        (slave == c.esislave) c
        (record c { esimap = replicate ec_maxeepbuf false; esislave = slave })
        (λ e. (same known (ground arith), ground arith, refl))
        (λ _. (
          record { flagged_bytes = λ j flagged. absurd (no_flag j flagged); buf_size = size },
          refl,
          refl,
        ))
    where
      same : (slave ≢ c.esislave) ⊎ Coherent rom c → slave ≡ c.esislave → Coherent rom c
      same (inl differ) e = absurd (differ e)
      same (inr known) e = known

      no_flag : (j : ℕ) → get_or (replicate ec_maxeepbuf false) j false ≡ true → ⊥
      no_flag j flagged = ground (arith, get_or-replicate ec_maxeepbuf j false)

  store_bytes-Coherent :
      (eadr : ℕ) (edat : List ℕ) (c : Context W)
      → Coherent rom c
      → ((i : ℕ) → i < width c → get_or edat i 0 ≡ rom (eadr * 2 + i))
      → eadr * 2 + 8 ≤ ec_maxeepbuf
      → Coherent rom (store_bytes wire passes slave eadr edat c)
        × (get_or (store_bytes wire passes slave eadr edat c).esibuf (eadr * 2) 0 ≡ rom (eadr * 2))
        × (get_or (store_bytes wire passes slave eadr edat c).esibuf (eadr * 2 + 1) 0
            ≡ rom (eadr * 2 + 1))
  unfolding store_bytes
  store_bytes-Coherent eadr edat c known reads fits =
      let small : width c ≤ 8 = ground arith in
      let some_bytes : 2 ≤ width c = ground arith in
      let room : eadr * 2 + width c ≤ length c.esibuf = omega (arith, known.buf_size) in
      (
        record {
          flagged_bytes = λ j flagged.
              stored rom (width c) eadr edat c.esibuf c.esimap j reads known.flagged_bytes room
                flagged;
          buf_size = length-memcpy c.esibuf (eadr * 2) (bytes_at edat 0 (width c)) ∙ known.buf_size;
        },
        new_byte rom (width c) (eadr * 2) edat c.esibuf 0 (eadr * 2) reads room (omega arith)
            (omega arith),
        new_byte rom (width c) (eadr * 2) edat c.esibuf 1 (eadr * 2 + 1) reads room refl
            (omega arith),
      )

  -- The slave whose EEPROM is read keeps its width.
  same_width :
      (c d : Context W)
      → d.slavelist ≡ (set c.slavelist slave (record (slave_of wire c slave) { eep_pdi = false }))
      → width d ≡ width c
  same_width c d e =
      ap (λ xs. if (get_or xs slave no_slave).eep_8byte then 8 else 4) e
      ∙ ap (λ b. if b then 8 else 4) (kept c.slavelist slave)
    where
      kept :
          (xs : List Slave) (i : ℕ)
          → (get_or
              (set xs i (record (get_or xs i no_slave) { eep_pdi = false }))
              i
              no_slave).eep_8byte
            ≡ (get_or xs i no_slave).eep_8byte
      kept [] i = refl
      kept (x ∷ xs) zero = refl
      kept (x ∷ xs) (suc i) = kept xs i

  -- What the EEPROM gives for an address, where the cache has nothing.
  abbrev pub answer_for : ℕ → Context W → List ℕ
  answer_for address c =
      (readeeprom_fp wire passes (slave_of wire c slave).configadr (address / 2) ec_timeouteep
        (eeprom2master wire slave c).1).0

  fetch_bytes-Coherent :
      (address : ℕ) (c : Context W)
      → Coherent rom c
      → ((i : ℕ) → i < width c → get_or (answer_for address c) i 0 ≡ rom (address / 2 * 2 + i))
      → address < 4090
      → Coherent rom (fetch_bytes wire passes slave address c)
        × (get_or (fetch_bytes wire passes slave address c).esibuf address 0 ≡ rom address)
        × ((fetch_bytes wire passes slave address c).esislave ≡ c.esislave)
  unfolding fetch_bytes
  fetch_bytes-Coherent address c known reads inside =
      let configadr = (slave_of wire c slave).configadr in
      let c1 : Context W = (eeprom2master wire slave c).1 in
      let mastered = eeprom2master-owned wire slave c in
      let read = readeeprom_fp-same wire passes configadr (address / 2) ec_timeouteep c1 in
      let c2 : Context W = (readeeprom_fp wire passes configadr (address / 2) ec_timeouteep c1).1 in
      let same = then_memory wire c c1 c2 mastered.0 read.0 in
      let wide = same_width c c2 (read.1 ∙ mastered.1) in
      let done =
        store_bytes-Coherent (address / 2) (answer_for address c) c2 (coherent_same c c2 same known)
          (λ i lt. reads i (omega arith)) (omega arith) in
      (done.0, one_of_two address _ done.1 done.2, same.same_owner)
    where
      coherent_same : (c d : Context W) → SameMemory c d → Coherent rom c → Coherent rom d
      coherent_same c d same known = record {
        flagged_bytes = λ j flagged.
            ap (λ buf. get_or buf j 0) same.same_buf
            ∙ known.flagged_bytes j (ap (λ map. get_or map j false) (sym same.same_map) ∙ flagged);
        buf_size = ap length same.same_buf ∙ known.buf_size;
      }

      one_of_two :
          (address : ℕ) (buf : List ℕ)
          → get_or buf (address / 2 * 2) 0 ≡ rom (address / 2 * 2)
          → get_or buf (address / 2 * 2 + 1) 0 ≡ rom (address / 2 * 2 + 1)
          → get_or buf address 0 ≡ rom address
      one_of_two address buf even odd = elim (parity address) [
        | inl e ↦ ap (λ k. get_or buf k 0) e ∙ even ∙ ap rom (sym e)
        | inr e ↦ ap (λ k. get_or buf k 0) e ∙ odd ∙ ap rom (sym e)
      ]
        where
          parity : (n : ℕ) → (n ≡ n / 2 * 2) ⊎ (n ≡ n / 2 * 2 + 1)
          parity n = ground arith

  -- Reading a byte through the cache is reading it in the EEPROM: when the cache holds bytes of the
  -- slave's EEPROM or of another slave, and the EEPROM gives its bytes where the cache has none,
  -- the result is the EEPROM's byte, and the cache holds bytes of the slave's EEPROM again. The
  -- address is one whose eight bytes lie in the buffer.
  pub siigetbyte-Coherent :
      (address : ℕ) (c : Context W)
      → (slave ≢ c.esislave) ⊎ Coherent rom c
      → length c.esibuf ≡ ec_maxeepbuf
      → ((i : ℕ)
          → i < width c
          → get_or (answer_for address (own_cache wire passes slave c)) i 0
            ≡ rom (address / 2 * 2 + i))
      → address < 4090
      → ((siigetbyte wire passes slave address c).0 ≡ rom address)
        × Coherent rom (siigetbyte wire passes slave address c).1
        × ((siigetbyte wire passes slave address c).1.esislave ≡ slave)
  unfolding siigetbyte
  siigetbyte-Coherent address c known size reads inside =
      let c0 : Context W = own_cache wire passes slave c in
      let own = own_cache-Coherent c known size in
      let same : width c0 ≡ width c =
        ap (λ xs. if (get_or xs slave no_slave).eep_8byte then 8 else 4) own.2 in
      let cached = get_or c0.esimap (flag (address / 32) (address - 32 * (address / 32))) false in
      let c1 : Context W = if cached then c0 else fetch_bytes wire passes slave address c0 in
      let got =
        if_cases
          (λ (d : Context W).
            Coherent rom d × (get_or d.esibuf address 0 ≡ rom address) × (d.esislave ≡ c0.esislave))
          cached c0 (fetch_bytes wire passes slave address c0)
          (λ e. (
            own.0,
            own.0.flagged_bytes address (ap (λ k. get_or c0.esimap k false) (omega arith) ∙ e),
            refl,
          ))
          (λ _. fetch_bytes-Coherent address c0 own.0 (λ i lt. reads i (omega arith)) inside) in
      if_cases
        (λ (r : ℕ × Context W). (r.0 ≡ rom address) × Coherent rom r.1 × (r.1.esislave ≡ slave))
        (ltb address ec_maxeepbuf) (get_or c1.esibuf address 0, c1) (0xff, c0)
        (λ _. (got.1, got.0, got.2 ∙ own.1)) (λ e. absurd (beyond e))
    where
      beyond : ltb address ec_maxeepbuf ≡ false → ⊥
      beyond e = ground arith
