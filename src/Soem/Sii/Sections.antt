-- ===== src/Soem/Sii/Sections.antt =====
-- soem/ethercatmain.c: the string and FMMU sections of the slave information.
use bharatiya_beagle_bone.Common.{
  ℕ, zero, suc, ◌+◌, ◌*◌, Option, none, some, ltb, leb, if◌then◌else◌, List, [], ◌∷◌, u8, u16, Run,
  ◌>>=◌, pure,
}
use bharatiya_beagle_bone.Soem.Nic.{Wire}
use bharatiya_beagle_bone.Soem.Slaves.{Context, slave_of, give_back}
use bharatiya_beagle_bone.Soem.Sii.{sii_string, sii_fmmu, siigetbyte, siigetword, siifind}

abbrev pub ec_maxname : ℕ
ec_maxname = 40

-- ec_eepromFMMUt
pub record EepromFmmu : Type 0 where
  pub startpos : ℕ
  pub nfmmu : ℕ
  pub fmmu0 : ℕ
  pub fmmu1 : ℕ
  pub fmmu2 : ℕ
  pub fmmu3 : ℕ

module _ {W : Type 0} (wire : Wire W) (passes : ℕ) (slave : ℕ) where
  abbrev byte_at : ℕ → Run (Context W) ℕ
  byte_at a = siigetbyte wire passes slave (u16 a)

  abbrev word_from : ℕ → Run (Context W) ℕ
  word_from a = siigetword wire passes slave (u16 a)

  -- At most EC_MAXNAME bytes of a string of l bytes.
  unfoldable pub read_chars : ℕ → ℕ → Run (Context W) (List ℕ)
  unfolding siigetbyte
  read_chars zero ba = pure []
  read_chars (suc n) ba = do ch ← byte_at ba; rest ← read_chars n (ba + 1); pure (ch ∷ rest)

  -- The strings before the wanted one are passed over by their lengths.
  unfoldable pub read_string : ℕ → ℕ → Run (Context W) (List ℕ)
  unfolding read_chars
  read_string zero ba = pure []
  read_string (suc zero) ba = do
    l ← byte_at ba
    read_chars (if leb l ec_maxname then l else ec_maxname) (ba + 1)
  read_string (suc (suc n)) ba = do l ← byte_at ba; read_string (suc n) (ba + 1 + l)

  -- `ecx_siistring`: the bytes before the closing 0, or none where the buffer is not written.
  unfoldable pub siistring : ℕ → ℕ → Run (Context W) (Option (List ℕ))
  unfolding siifind read_string give_back
  siistring sections sn c =
      let eectl = (slave_of wire c slave).eep_pdi in
      let (a, c1) = siifind wire passes slave sections sii_string c in
      let (n, c2) = byte_at (a + 2) c1 in
      let (str, c3) = read_string sn (a + 3) c2 in
      if ltb 0 a
      then if leb sn n
        then (some str, give_back wire eectl slave c3)
        else (some [], give_back wire eectl slave c2)
      else (none, give_back wire eectl slave c1)

  -- The bytes of the FMMU section, from its length on.
  unfoldable pub read_fmmu : ℕ → Run (Context W) EepromFmmu
  unfolding siigetbyte siigetword
  read_fmmu start = do
    w ← word_from start
    f0 ← byte_at (start + 2)
    f1 ← byte_at (start + 3)
    read_rest (u8 (u8 w * 2)) f0 f1
    where
      four : ℕ → ℕ → ℕ → ℕ → ℕ → EepromFmmu
      four n f0 f1 f2 f3 = record {
        startpos = start;
        nfmmu = n;
        fmmu0 = f0;
        fmmu1 = f1;
        fmmu2 = f2;
        fmmu3 = f3;
      }

      read_rest : ℕ → ℕ → ℕ → Run (Context W) EepromFmmu
      read_rest n f0 f1 c =
          let (f2, c1) = byte_at (start + 4) c in
          let (f3, c2) = byte_at (start + 5) c1 in
          if ltb 2 n then (four n f0 f1 f2 f3, c2) else (four n f0 f1 0 0, c)

  -- `ecx_siiFMMU`: its result is the count.
  unfoldable pub siifmmu : ℕ → Run (Context W) EepromFmmu
  unfolding siifind read_fmmu give_back
  siifmmu sections c =
      let eectl = (slave_of wire c slave).eep_pdi in
      let (a, c1) = siifind wire passes slave sections sii_fmmu c in
      let (fmmu, c2) = read_fmmu a c1 in
      if ltb 0 a then (fmmu, give_back wire eectl slave c2) else (
        record { startpos = a; nfmmu = 0; fmmu0 = 0; fmmu1 = 0; fmmu2 = 0; fmmu3 = 0 },
        give_back wire eectl slave c1,
      )
