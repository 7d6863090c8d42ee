-- ===== src/Soem/Sii.antt =====
-- soem/ethercatmain.c: the slave information in the EEPROM, read byte by byte through a cache of
-- one slave, and the search for a section of it.
mod Blocks
pub mod Cache
pub mod GivenBack
pub mod Sections
pub mod Managers
mod Dump
mod Tests
use bharatiya_beagle_bone.Common.{
  ℕ, zero, suc, ◌+◌, ◌-◌, ◌*◌, ◌/◌, Bool, true, false, ltb, ◌==◌, ◌||◌, not, if◌then◌else◌, List,
  get_or, set, replicate, u16, memcpy, bytes_at, Run, ◌>>=◌, ◌>>◌, pure,
}
use bharatiya_beagle_bone.Soem.Nic.{Wire}
use bharatiya_beagle_bone.Soem.Registers.{ec_timeouteep}
use bharatiya_beagle_bone.Soem.Slaves.{
  Slave, Context, slave_of, eeprom2master, readeeprom_fp, give_back,
}

abbrev pub ec_maxeepbuf : ℕ
ec_maxeepbuf = 4096

-- ECT_SII_START, in words
abbrev pub sii_start : ℕ
sii_start = 0x40

abbrev pub sii_string : ℕ
sii_string = 10

abbrev pub sii_fmmu : ℕ
sii_fmmu = 40

abbrev pub sii_sm : ℕ
sii_sm = 41

abbrev pub sii_pdo : ℕ
sii_pdo = 50

-- The flag of bit `mapb` of word `mapw`.
abbrev pub flag : ℕ → ℕ → ℕ
flag mapw mapb = 32 * mapw + mapb

-- The loop of `ecx_siigetbyte` that marks `cnt` bytes as present.
unfoldable pub mark : ℕ → ℕ → ℕ → List Bool → List Bool
mark zero mapw mapb map = map
mark (suc cnt) mapw mapb map =
    let full = ltb 31 (mapb + 1) in
    mark cnt (if full then mapw + 1 else mapw) (if full then 0 else mapb + 1)
      (set map (flag mapw mapb) true)

module _ {W : Type 0} (wire : Wire W) (passes : ℕ) (slave : ℕ) where
  -- The cache belongs to one slave.
  unfoldable pub own_cache : Context W → Context W
  own_cache c =
      if slave == c.esislave
      then c
      else record c { esimap = replicate ec_maxeepbuf false; esislave = slave }

  -- The bytes of one access to the EEPROM, into the cache: eight or four.
  unfoldable pub store_bytes : ℕ → List ℕ → Context W → Context W
  unfolding mark
  store_bytes eadr edat c =
      let cnt = if (slave_of wire c slave).eep_8byte then 8 else 4 in
      let mapw = eadr / 16 in
      record c {
        esibuf = memcpy c.esibuf (eadr * 2) (bytes_at edat 0 cnt);
        esimap = mark cnt mapw (eadr * 2 - 32 * mapw) c.esimap;
      }

  -- The branch of `ecx_siigetbyte` for a byte that is not in the cache.
  unfoldable pub fetch_bytes : ℕ → Context W → Context W
  unfolding store_bytes eeprom2master readeeprom_fp
  fetch_bytes address c =
      let configadr = (slave_of wire c slave).configadr in
      let (_, c1) = eeprom2master wire slave c in
      let (edat, c2) = readeeprom_fp wire passes configadr (address / 2) ec_timeouteep c1 in
      store_bytes (address / 2) edat c2

  -- `ecx_siigetbyte`
  unfoldable pub siigetbyte : ℕ → Run (Context W) ℕ
  unfolding own_cache fetch_bytes
  siigetbyte address c =
      let c0 = own_cache c in
      let mapw = address / 32 in
      let c1 =
        if get_or c0.esimap (flag mapw (address - 32 * mapw)) false
        then c0
        else fetch_bytes address c0 in
      if ltb address ec_maxeepbuf then (get_or c1.esibuf address 0, c1) else (0xff, c0)

  -- A word at an address that counts on by two, as `p = getbyte(a++); p += getbyte(a++) << 8`.
  unfoldable pub siigetword : ℕ → Run (Context W) ℕ
  unfolding siigetbyte
  siigetword a = do l ← siigetbyte (u16 a); h ← siigetbyte (u16 (a + 1)); pure (u16 (l + 256 * h))

  -- The loop of `ecx_siifind`: the category at `a - 2` is p. `sections` bounds its rounds.
  unfoldable pub find_section : ℕ → ℕ → ℕ → ℕ → Run (Context W) (ℕ × ℕ)
  unfolding siigetword
  find_section zero cat a p c = ((a, p), c)
  find_section (suc sections) cat a p c =
      let (len, c1) = siigetword a c in
      let a1 = u16 (a + 2 + 2 * len) in
      let (p1, c2) = siigetword a1 c1 in
      let rest = find_section sections cat (u16 (a1 + 2)) p1 c2 in
      if (p == cat) || (p == 0xffff) then ((a, p), c) else rest

  -- `ecx_siifind`: the address of the section's length, or 0. `int16` is kept as its 16 bits.
  unfoldable pub siifind : ℕ → ℕ → Run (Context W) ℕ
  unfolding siigetword find_section give_back
  siifind sections cat c =
      let eectl = (slave_of wire c slave).eep_pdi in
      let (p, c1) = siigetword (sii_start * 2) c in
      let (found, c2) = find_section sections cat (sii_start * 2 + 2) p c1 in
      (if found.1 == cat then found.0 else 0, give_back wire eectl slave c2)
