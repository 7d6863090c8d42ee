-- ===== src/Soem/Coe/Complete.antt =====
-- soem/ethercatcoe.c: `ecx_readPDOassignCA` and `ecx_readPDOmapCA`, the size of the process data by
-- complete access. The structures of the calling thread are their bytes.
mod Tests
use bharatiya_beagle_bone.Common.{
  ℕ, zero, suc, ◌+◌, ◌-◌, true, false, ltb, ◌==◌, ◌&&◌, ◌||◌, if◌then◌else◌, List, get_or, set, u8,
  u32,
}
use bharatiya_beagle_bone.Soem.Frame.{word_at}
use bharatiya_beagle_bone.Soem.Base.{positive}
use bharatiya_beagle_bone.Soem.Coe.{Mail, Returned, done, then_with, ec_timeoutrxm}
use bharatiya_beagle_bone.Soem.Coe.Upload.{Upload, sdoread}
use bharatiya_beagle_bone.Soem.Coe.Mapping.{
  SyncManagers, Mapped, sdo_smcommtype, sdo_pdoassign, ec_maxsm, typed_manager, sized_manager,
}

-- The structures of one thread, with what earlier reads have left in them: ec_SMcommtypet,
-- ec_PDOassignt and ec_PDOdesct, each a number n, an unused byte, and its elements.
pub record Buffers : Type 0 where
  pub smcommtype : List ℕ
  pub pdoassign : List ℕ
  pub pdodesc : List ℕ

-- Their sizes.
abbrev pub smcommtype_size : ℕ
smcommtype_size = 10

abbrev pub pdoassign_size : ℕ
pdoassign_size = 514

abbrev pub pdodesc_size : ℕ
pdodesc_size = 1026

-- The lengths of so many entries of a description, from an offset on.
unfoldable pub add_lengths : ℕ → List ℕ → ℕ → ℕ → ℕ
add_lengths zero desc at bsize = bsize
add_lengths (suc left) desc at bsize =
    add_lengths left desc (at + 4) (u32 (bsize + get_or desc at 0))

-- The type of a sync manager as it is used: a slave that counts its types from 0 is set right.
unfoldable pub corrected_type_ca : ℕ → ℕ → ℕ → ℕ × ℕ
corrected_type_ca ism bug_add tsm =
    let add = if ism == 2 && tsm == 2 then 1 else bug_add in
    (if tsm == 0 then 0 else u8 (tsm + add), add)

module _ {S : Type 0} (mail : Mail S) (rounds slave : ℕ) where
  -- A read of all subindices into a structure of n bytes, whose number is cleared before.
  unfoldable pub read_structure : ℕ → ℕ → List ℕ → S → Returned Upload × S
  unfolding sdoread
  read_structure n index buf = sdoread mail rounds slave index 0 true n (set buf 0 0) ec_timeoutrxm

  -- The loop over the PDOs that are assigned, from an offset on.
  unfoldable pub add_pdos_ca : ℕ → ℕ → ℕ → Buffers → S → Returned (ℕ × Buffers) × S
  unfolding read_structure add_lengths
  add_pdos_ca zero at bsize b s = (done (bsize, b), s)
  add_pdos_ca (suc left) at bsize b s =
      let idx = word_at b.pdoassign at in
      let entries : Returned (ℕ × Buffers) × S =
        then_with (read_structure pdodesc_size idx b.pdodesc s) λ u s1.
          let total = add_lengths (get_or u.bytes 0 0) u.bytes 2 bsize in
          (done (total, record b { pdodesc = u.bytes }), s1) in
      then_with (if ltb 0 idx then entries else (done (bsize, b), s))
        λ r s2. add_pdos_ca left (at + 2) r.0 r.1 s2

  -- `ecx_readPDOassignCA`: the size in bits.
  unfoldable pub readpdoassign_ca : ℕ → Buffers → S → Returned (ℕ × Buffers) × S
  unfolding read_structure add_pdos_ca
  readpdoassign_ca assign b s =
      then_with (read_structure pdoassign_size assign b.pdoassign s) λ u s1.
        let b1 = record b { pdoassign = u.bytes } in
        let nidx = get_or u.bytes 0 0 in
        let all = add_pdos_ca nidx 2 0 b1 s1 in
        if positive u.wkc && ltb 0 nidx then all else (done (0, b1), s1)

  -- A sync manager whose type is known.
  unfoldable pub map_manager_ca :
      SyncManagers S → ℕ → ℕ → Mapped → Buffers → S → Returned (Mapped × Buffers) × S
  unfolding readpdoassign_ca typed_manager sized_manager
  map_manager_ca sm ism tsm m b s =
      let s1 = typed_manager mail rounds slave sm ism tsm s in
      let sized : Returned (Mapped × Buffers) × S =
        then_with (readpdoassign_ca (sdo_pdoassign + ism) b s1) λ r s2.
          let (m1, s3) = sized_manager mail rounds slave sm ism tsm m r.0 s2 in
          (done (m1, r.1), s3) in
      if (tsm == 3) || (tsm == 4) then sized else (done (m, b), s1)

  -- The loop over the sync managers from 2 on.
  unfoldable pub map_managers_ca :
      SyncManagers S → ℕ → ℕ → ℕ → Mapped → Buffers → S → Returned (Mapped × Buffers) × S
  unfolding corrected_type_ca map_manager_ca
  map_managers_ca sm zero ism bug_add m b s = (done (m, b), s)
  map_managers_ca sm (suc left) ism bug_add m b s =
      let (tsm, add) = corrected_type_ca ism bug_add (get_or b.smcommtype (2 + ism) 0) in
      then_with (map_manager_ca sm ism tsm m b s)
        λ r s1. map_managers_ca sm left (ism + 1) add r.0 r.1 s1

  -- `ecx_readPDOmapCA`
  unfoldable pub readpdomap_ca : SyncManagers S → Buffers → S → Returned (Mapped × Buffers) × S
  unfolding read_structure map_managers_ca
  readpdomap_ca sm b s =
      let none_yet : Mapped = record { osize = 0; isize = 0; found = false } in
      then_with (read_structure smcommtype_size sdo_smcommtype b.smcommtype s) λ u s1.
        let b1 = record b { smcommtype = u.bytes } in
        let nsm = get_or u.bytes 0 0 in
        let s2 = if ltb ec_maxsm nsm then mail.packet_error slave 0 0 10 s1 else s1 in
        let count = if ltb ec_maxsm nsm then ec_maxsm else nsm in
        let all = map_managers_ca sm (count - 2) 2 0 none_yet b1 s2 in
        then_with (if positive u.wkc && ltb 2 nsm then all else (done (none_yet, b1), s1)) λ r s3.
          let m = r.0 in (done (record m { found = ltb 0 m.isize || ltb 0 m.osize }, r.1), s3)
