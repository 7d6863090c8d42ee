-- ===== src/Soem/Sii/Managers.antt =====
-- soem/ethercatmain.c: the sync manager and PDO sections of the slave information.
use bharatiya_beagle_bone.Common.{
  ℕ, zero, suc, ◌+◌, ◌-◌, ◌*◌, ◌/◌, Bool, true, false, ltb, leb, if◌then◌else◌, List, get_or, set,
  replicate, u8, u16, Run, ◌>>=◌, pure, do_while,
}
use bharatiya_beagle_bone.Soem.Nic.{Wire}
use bharatiya_beagle_bone.Soem.Slaves.{Context, slave_of, give_back}
use bharatiya_beagle_bone.Soem.Sii.{sii_sm, sii_pdo, siigetbyte, siigetword, siifind}

abbrev pub ec_maxsm : ℕ
ec_maxsm = 8

abbrev pub ec_maxeepdo : ℕ
ec_maxeepdo = 0x200

-- ec_eepromSMt
pub record EepromSm : Type 0 where
  pub startpos : ℕ
  pub nsm : ℕ
  pub phstart : ℕ
  pub plength : ℕ
  pub creg : ℕ
  pub sreg : ℕ
  pub activate : ℕ
  pub pdictrl : ℕ

-- ec_eepromPDOt
pub record EepromPdo : Type 0 where
  pub startpos : ℕ
  pub pdo_length : ℕ
  pub npdo : ℕ
  pub index : List ℕ
  pub syncm : List ℕ
  pub bitsize : List ℕ
  pub smbitsize : List ℕ

-- The variables of the loop of `ecx_siiPDO`.
pub record PdoWalk : Type 0 where
  pub pdo : EepromPdo
  pub a : ℕ
  pub c : ℕ
  pub size : ℕ

abbrev pub with_startpos : ℕ → EepromSm → EepromSm
with_startpos a sm = record sm { startpos = a }

-- The sum of a field of 16 bits and what is added to it.
abbrev add_at : List ℕ → ℕ → ℕ → List ℕ
add_at xs i n = set xs i (u16 (get_or xs i 0 + n))

module _ {W : Type 0} (wire : Wire W) (passes : ℕ) (slave : ℕ) where
  abbrev byte_at : ℕ → Run (Context W) ℕ
  byte_at a = siigetbyte wire passes slave (u16 a)

  abbrev word_from : ℕ → Run (Context W) ℕ
  word_from a = siigetword wire passes slave (u16 a)

  -- The eight bytes of a sync manager.
  unfoldable pub read_sm : ℕ → EepromSm → Run (Context W) EepromSm
  unfolding siigetbyte siigetword
  read_sm a sm = do
    start ← word_from a
    len ← word_from (a + 2)
    c ← byte_at (a + 4)
    s ← byte_at (a + 5)
    act ← byte_at (a + 6)
    ctrl ← byte_at (a + 7)
    pure (record sm {
      phstart = start;
      plength = len;
      creg = c;
      sreg = s;
      activate = act;
      pdictrl = ctrl;
    })

  -- `ecx_siiSM`: the section's first sync manager; the result of the function is `nsm`.
  unfoldable pub siism : ℕ → EepromSm → Run (Context W) EepromSm
  unfolding siifind siigetword read_sm give_back
  siism sections sm c =
      let eectl = (slave_of wire c slave).eep_pdi in
      let (a, c1) = siifind wire passes slave sections sii_sm c in
      let (w, c2) = word_from a c1 in
      let (read, c3) = read_sm (a + 2) (record sm { startpos = a; nsm = u8 (w / 4) }) c2 in
      if ltb 0 a
      then (read, give_back wire eectl slave c3)
      else (record sm { startpos = a; nsm = 0 }, give_back wire eectl slave c1)

  -- `ecx_siiSMnext`: the n-th one, and whether there is one.
  unfoldable pub siismnext : EepromSm → ℕ → Run (Context W) (Bool × EepromSm)
  unfolding read_sm give_back
  siismnext sm n c =
      let eectl = (slave_of wire c slave).eep_pdi in
      let (read, c1) = read_sm (u16 (sm.startpos + 2 + n * 8)) sm c in
      if ltb n sm.nsm
      then ((true, read), give_back wire eectl slave c1)
      else ((false, sm), give_back wire eectl slave c)

  -- The sizes of e entries, the sum over them in 16 bits; each entry has eight bytes.
  unfoldable pub entry_bits : ℕ → ℕ → ℕ → Run (Context W) ℕ
  unfolding siigetbyte
  entry_bits zero a sum = pure sum
  entry_bits (suc e) a sum = do bits ← byte_at (a + 5); entry_bits e (a + 8) (u16 (sum + bits))

  -- What a PDO adds to the description: its index, its sync manager and, where that exists, its
  -- size in bits.
  unfoldable pub add_pdo : ℕ → ℕ → ℕ → EepromPdo → EepromPdo
  add_pdo idx sync bits pdo =
      let n = pdo.npdo + 1 in
      record pdo {
        npdo = n;
        index = set pdo.index n idx;
        syncm = set pdo.syncm n sync;
        bitsize = set pdo.bitsize n bits;
        smbitsize = if ltb sync ec_maxsm then add_at pdo.smbitsize sync bits else pdo.smbitsize;
      }

  -- One pass of the loop of `ecx_siiPDO`.
  unfoldable pub pdo_pass : PdoWalk → Run (Context W) PdoWalk
  unfolding siigetbyte siigetword entry_bits add_pdo
  pdo_pass w c =
      let (idx, c1) = word_from w.a c in
      let (e, c2) = byte_at (w.a + 2) c1 in
      let (sync, c3) = byte_at (w.a + 3) c2 in
      let (bits, c4) = entry_bits e (w.a + 8) 0 c3 in
      let known = ltb sync ec_maxsm in
      let taken = if known then bits else 0 in
      let pdo = add_pdo idx sync taken w.pdo in
      (
        record {
          pdo = pdo;
          a = u16 (w.a + 8 + 8 * e);
          c = if leb (ec_maxeepdo - 1) pdo.npdo then pdo.pdo_length else u16 (w.c + 4 + 4 * e);
          size = u16 (w.size + taken);
        },
        if known then c4 else c3,
      )

  abbrev pub more_pdos : PdoWalk → Bool
  more_pdos w = ltb w.c w.pdo.pdo_length

  -- `ecx_siiPDO`: the description, and the size of all PDOs. The loop ends after the last place of
  -- the arrays at the latest.
  unfoldable pub siipdo : ℕ → ℕ → EepromPdo → Run (Context W) (EepromPdo × ℕ)
  unfolding siifind siigetword pdo_pass give_back
  siipdo sections t pdo c =
      let eectl = (slave_of wire c slave).eep_pdi in
      let cleared : EepromPdo = record pdo {
        npdo = 0;
        pdo_length = 0;
        index = set pdo.index 1 0;
        smbitsize = replicate ec_maxsm 0;
      } in
      let (a, c1) = siifind wire passes slave sections (sii_pdo + (if ltb 1 t then 1 else t)) c in
      let (w, c2) = word_from a c1 in
      let start : PdoWalk = record {
        pdo = record cleared { startpos = a; pdo_length = w };
        a = u16 (a + 2);
        c = 1;
        size = 0;
      } in
      let (walked, c3) = do_while more_pdos pdo_pass (ec_maxeepdo - 2) start c2 in
      if ltb 0 a
      then ((walked.pdo, walked.size), give_back wire eectl slave c3)
      else ((record cleared { startpos = a }, 0), give_back wire eectl slave c1)
