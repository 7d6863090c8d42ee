-- ===== src/Soem/Coe/Mapping.antt =====
-- soem/ethercatcoe.c: `ecx_readPDOassign` and `ecx_readPDOmap`, the size of the process data by the
-- slave's object dictionary. `rounds` is the bound that `ecx_SDOread` is given for its segments.
pub mod Total
mod Tests
use bharatiya_beagle_bone.Common.{
  ℕ, zero, suc, ◌+◌, ◌-◌, ◌/◌, Bool, true, false, ltb, ◌==◌, ◌&&◌, ◌||◌, if◌then◌else◌, List,
  get_or, replicate, byte0, u8, u16, u32, bit_and, Run,
}
use bharatiya_beagle_bone.Common.Int.{ℤ}
use bharatiya_beagle_bone.Soem.Frame.{word_at}
use bharatiya_beagle_bone.Soem.Base.{positive}
use bharatiya_beagle_bone.Soem.Coe.{
  Mail, Returned, done, unfinished, then_with, ec_timeoutrxm, long_at,
}
use bharatiya_beagle_bone.Soem.Coe.Upload.{Upload, sdoread}

-- The fields SMtype, SMflags and SMlength of a slave's sync managers.
pub record SyncManagers (S : Type 0) : Type 0 where
  pub set_type : ℕ → ℕ → ℕ → S → S
  pub get_flags : ℕ → ℕ → S → ℕ
  pub set_flags : ℕ → ℕ → ℕ → S → S
  pub set_length : ℕ → ℕ → ℕ → S → S

abbrev pub sdo_smcommtype : ℕ
sdo_smcommtype = 0x1c00

abbrev pub sdo_pdoassign : ℕ
sdo_pdoassign = 0x1c10

abbrev pub ec_maxsm : ℕ
ec_maxsm = 8

abbrev pub ec_smenablemask : ℕ
ec_smenablemask = 0xfffeffff

-- The sizes in bits that `ecx_readPDOmap` gives, and its result.
pub record Mapped : Type 0 where
  pub osize : ℕ
  pub isize : ℕ
  pub found : Bool

module _ {S : Type 0} (mail : Mail S) (rounds slave : ℕ) where
  -- A read of an object into a variable of n bytes that holds 0.
  unfoldable pub read_object : ℕ → ℕ → ℕ → S → Returned Upload × S
  unfolding sdoread
  read_object n index subindex =
      sdoread mail rounds slave index subindex false n (replicate n 0) ec_timeoutrxm

  -- The loop over the entries of a PDO.
  unfoldable pub add_entries : ℕ → ℕ → ℕ → ℕ → S → Returned ℕ × S
  unfolding read_object
  add_entries zero idx subidxloop bsize s = (done bsize, s)
  add_entries (suc left) idx subidxloop bsize s =
      then_with (read_object 4 idx (u8 subidxloop) s) λ u s1.
        let low = byte0 (long_at u.bytes 0) in
        add_entries left idx (subidxloop + 1)
          (if ltb low 0xff then u32 (bsize + low) else u32 (bsize + 0xff)) s1

  -- The loop over the PDOs that are assigned.
  unfoldable pub add_pdos : ℕ → ℕ → ℕ → ℕ → S → Returned ℕ × S
  unfolding read_object add_entries
  add_pdos zero pdoassign idxloop bsize s = (done bsize, s)
  add_pdos (suc left) pdoassign idxloop bsize s =
      then_with (read_object 2 pdoassign (u8 idxloop) s) λ u s1.
        let idx = word_at u.bytes 0 in
        let entries =
          then_with (read_object 1 idx 0 s1)
            λ v s2. add_entries (get_or v.bytes 0 0) idx 1 bsize s2 in
        then_with (if ltb 0 idx then entries else (done bsize, s1))
          λ b s3. add_pdos left pdoassign (idxloop + 1) b s3

  -- `ecx_readPDOassign`: the size in bits. The counter of its loop has 16 bits and does not pass a
  -- number of 0xffff.
  unfoldable pub readpdoassign : ℕ → S → Returned ℕ × S
  unfolding read_object add_pdos
  readpdoassign pdoassign s = then_with (read_object 2 pdoassign 0 s) λ u s1.
      let rdat = word_at u.bytes 0 in
      let all = add_pdos rdat pdoassign 1 0 s1 in
      if positive u.wkc && ltb 0 rdat
      then (if rdat == 0xffff then (unfinished, s1) else all)
      else (done 0, s1)

  -- The type of a sync manager as it is used: slaves that count their types from 0, and the types
  -- 0 of the sync managers 2 and 3, are set right.
  unfoldable pub corrected_type : ℕ → ℕ → ℕ → ℕ × ℕ
  corrected_type ism bug_add tsm =
      let add = if ism == 2 && tsm == 2 then 1 else bug_add in
      let tsm1 = if tsm == 0 then 0 else u8 (tsm + add) in
      let tsm2 = if ism == 2 && tsm1 == 0 then 3 else tsm1 in
      (if ism == 3 && tsm2 == 0 then 4 else tsm2, add)

  -- A sync manager's type is stored, and one that is not used is switched off.
  unfoldable pub typed_manager : SyncManagers S → ℕ → ℕ → S → S
  typed_manager sm ism tsm s =
      let s1 = sm.set_type slave ism tsm s in
      let off = sm.set_flags slave ism (bit_and (sm.get_flags slave ism s1) ec_smenablemask) s1 in
      if tsm == 0 then off else s1

  -- A size in bits that was found is the sync manager's length, and its share of the sizes.
  unfoldable pub sized_manager : SyncManagers S → ℕ → ℕ → Mapped → ℕ → Run S Mapped
  sized_manager sm ism tsm m tsize s =
      let s1 = sm.set_length slave ism (u16 (u32 (tsize + 7) / 8)) s in
      let more =
        if tsm == 3
        then record m { osize = u32 (m.osize + tsize) }
        else record m { isize = u32 (m.isize + tsize) } in
      if tsize == 0 then (m, s) else (more, s1)

  -- A sync manager whose type is known: its fields, and its share of the sizes.
  unfoldable pub map_manager : SyncManagers S → ℕ → ℕ → Mapped → S → Returned Mapped × S
  unfolding readpdoassign typed_manager sized_manager
  map_manager sm ism tsm m s =
      let s1 = typed_manager sm ism tsm s in
      let sized : Returned Mapped × S =
        then_with (readpdoassign (sdo_pdoassign + ism) s1)
          λ tsize s2. let (m1, s3) = sized_manager sm ism tsm m tsize s2 in (done m1, s3) in
      if (tsm == 3) || (tsm == 4) then sized else (done m, s1)

  -- The loop over the sync managers from 2 on.
  unfoldable pub map_managers : SyncManagers S → ℕ → ℕ → ℕ → Mapped → S → Returned Mapped × S
  unfolding read_object corrected_type map_manager
  map_managers sm zero ism bug_add m s = (done m, s)
  map_managers sm (suc left) ism bug_add m s =
      then_with (read_object 1 sdo_smcommtype (ism + 1) s) λ u s1.
        let (tsm, add) = corrected_type ism bug_add (get_or u.bytes 0 0) in
        let here = map_manager sm ism tsm m s1 in
        let next = if positive u.wkc then add else bug_add in
        then_with (if positive u.wkc then here else (done m, s1))
          λ m1 s2. map_managers sm left (ism + 1) next m1 s2

  -- `ecx_readPDOmap`
  unfoldable pub readpdomap : SyncManagers S → S → Returned Mapped × S
  unfolding read_object map_managers
  readpdomap sm s =
      let none_yet : Mapped = record { osize = 0; isize = 0; found = false } in
      then_with (read_object 1 sdo_smcommtype 0 s) λ u s1.
        let nsm = get_or u.bytes 0 0 in
        let count = if ltb ec_maxsm nsm then ec_maxsm else nsm in
        let all = map_managers sm (count - 2) 2 0 none_yet s1 in
        then_with (if positive u.wkc && ltb 2 nsm then all else (done none_yet, s1))
          λ m s2. (done (record m { found = ltb 0 m.isize || ltb 0 m.osize }), s2)
