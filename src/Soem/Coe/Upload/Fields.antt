-- ===== src/Soem/Coe/Upload/Fields.antt =====
-- The fields of a segment's answer, as the code reads them and by the protocol.
use bharatiya_beagle_bone.Common.{
  ℕ, ◌+◌, ◌-◌, ◌*◌, ◌/◌, ◌%◌, ◌≡◌, ◌≤◌, ◌<◌, refl, arith, Bool, true, false, ◌==◌, ◌&&◌, not,
  if◌then◌else◌, List, length, bit_and, u16, all_below, all_below-holds,
}
use bharatiya_beagle_bone.Soem.Frame.{word_at}
use bharatiya_beagle_bone.Soem.Coe.{command}
use bharatiya_beagle_bone.Soem.Coe.Upload.{is_segment, is_last, segment_size}
use bharatiya_beagle_bone.Soem.Coe.Upload.Server.{HoldsSegment}

-- The code's masks on a command are the protocol's fields, for each of its values.
abbrev fields_agree : ℕ → Bool
fields_agree c =
    (bit_and c 0xe0 == c / 32 * 32)
    && (bit_and c 0x01 == c % 2)
    && (bit_and c 0x0e == c / 2 % 8 * 2)
    && (bit_and c 0x02 == c / 2 % 2 * 2)
    && (bit_and (c / 4) 0x03 == c / 4 % 4)

fields_table : all_below 256 fields_agree ≡ true
unfolding all_below
fields_table = refl

pub command_fields :
    (c : ℕ)
    → c < 256
    → (bit_and c 0xe0 ≡ c / 32 * 32)
      × (bit_and c 0x01 ≡ c % 2)
      × (bit_and c 0x0e ≡ c / 2 % 8 * 2)
      × (bit_and c 0x02 ≡ c / 2 % 2 * 2)
      × (bit_and (c / 4) 0x03 ≡ c / 4 % 4)
command_fields c lt =
    let h = all_below-holds 256 fields_agree c fields_table lt in
    (ground arith, ground arith, ground arith, ground arith, ground arith)

size_fields :
    (last : Bool) (w mask unused len : ℕ)
    → mask ≡ unused * 2
    → 3 ≤ w
    → w < 65536
    → (if last && w == 10 then 7 - unused else w - 3) ≡ len
    → (if last && u16 (w + 65536 - 3) == 7
        then u16 (w + 65536 - 3) - mask / 2
        else u16 (w + 65536 - 3))
      ≡ len
size_fields true w mask unused len e low high h = ground arith
size_fields false w mask unused len e low high h = omega arith

last_field :
    (bit field : ℕ) (last : Bool)
    → bit ≡ field
    → field < 2
    → (field == 1) ≡ last
    → not (bit == 0) ≡ last
last_field bit field true e lt h = ground arith
last_field bit field false e lt h = ground arith

-- What the code reads in an answer that holds a segment.
module _ (a c : List ℕ) (last : Bool) (holds : HoldsSegment a c last) where
  pub HoldsSegment-is_segment : is_segment a ≡ true
  HoldsSegment-is_segment = cc (holds.response, no_kind (command_fields (command a) holds.byte).0)
    where
      no_kind :
          bit_and (command a) 0xe0 ≡ command a / 32 * 32 → (bit_and (command a) 0xe0 == 0) ≡ true
      no_kind e = ground (arith, holds.kind)

  pub HoldsSegment-is_last : is_last a ≡ last
  HoldsSegment-is_last =
      last_field (bit_and (command a) 0x01) (command a % 2) last
        (command_fields (command a) holds.byte).1 (omega arith) holds.ends

  pub HoldsSegment-size : segment_size a ≡ length c
  unfolding segment_size
  HoldsSegment-size =
      let fields = command_fields (command a) holds.byte in
      rw HoldsSegment-is_last (
        size_fields last (word_at a 0) (bit_and (command a) 0x0e) (command a / 2 % 8) (length c)
          fields.2 holds.long_enough holds.word holds.size)
