-- ===== src/Soem/Coe/Mapping/Tests.antt =====
-- A servo with three objects: one PDO is assigned, with the control word of 16 bits and the target
-- position of 32 bits. A read of any other object is aborted.
use bharatiya_beagle_bone.Common.{
  ℕ, zero, suc, ◌*◌, ◌+◌, ◌-◌, ◌≡◌, ◌≤◌, refl, arith, ◌==◌, if◌then◌else◌, List, [], ◌∷◌, get_or,
  u8, u16, u32, low_bytes, memcpy, bytes_at,
}
use bharatiya_beagle_bone.Common.Int.{pos}
use bharatiya_beagle_bone.Soem.Coe.{Mail, done}
use bharatiya_beagle_bone.Soem.Coe.Mapping.{read_object, readpdoassign}
use bharatiya_beagle_bone.Soem.Coe.Mapping.Total.{
  Answers, Knows, pdo_at, bits_of_pdos, readpdoassign-total,
}

-- An object by its index and subindex in one number, and its size; a size of 0 is none.
abbrev object_at : ℕ → ℕ × ℕ
object_at k =
    if k == 0x1c1200
    then (1, 1)
    else if k == 0x1c1201
    then (0x1600, 2)
    else if k == 0x160000
    then (2, 1)
    else if k == 0x160001
    then (0x60400010, 4)
    else if k == 0x160002
    then (0x607a0020, 4)
    else (0, 0)

abbrev dict : ℕ → ℕ → ℕ
dict index subindex = (object_at (index * 256 + subindex)).0

-- The state is the last request.
abbrev key : List ℕ → ℕ
key m = get_or m 10 0 * 65536 + get_or m 9 0 * 256 + get_or m 11 0

abbrev response : ℕ → ℕ
response size = if size == 0 then 0x80 else 0x43 + (4 - size) * 4

abbrev answer : List ℕ → List ℕ
answer m =
    let (value, size) = object_at (key m) in
    10
    ∷ 0
    ∷ 0
    ∷ 0
    ∷ 0
    ∷ 3
    ∷ 0
    ∷ 0x30
    ∷ response size
    ∷ get_or m 9 0
    ∷ get_or m 10 0
    ∷ get_or m 11 0
    ∷ low_bytes 4 value

abbrev servo_mail : Mail (List ℕ)
servo_mail = record {
  send = λ _ m _ _. (pos 1, m);
  receive = λ _ _ _ m. ((pos 1, answer m), m);
  next_cnt = λ _ m. (1, m);
  mbx_l = λ _ _. 32;
  sdo_error = λ _ _ _ _ m. m;
  packet_error = λ _ _ _ _ m. m;
}

number_read : Answers servo_mail 0 1 dict 2 0x1c12 0
unfolding read_object memcpy bytes_at low_bytes
number_read s = (1, (refl, refl, refl))

pdo_read : (j : ℕ) → 1 ≤ j → j ≤ 1 → Answers servo_mail 0 1 dict 2 0x1c12 (u8 j)
unfolding read_object memcpy bytes_at low_bytes
pdo_read zero low high s = absurd (omega arith)
pdo_read (suc zero) low high s = (2, (refl, refl, refl))
pdo_read (suc (suc j)) low high s = absurd (omega arith)

count_read : (j : ℕ) → 1 ≤ j → j ≤ 1 → Answers servo_mail 0 1 dict 1 (pdo_at dict 0x1c12 j) 0
unfolding read_object memcpy bytes_at low_bytes
count_read zero low high s = absurd (omega arith)
count_read (suc zero) low high s = (1, (refl, refl, refl))
count_read (suc (suc j)) low high s = absurd (omega arith)

entry_read : (k : ℕ) → 1 ≤ k → k ≤ 2 → Answers servo_mail 0 1 dict 4 0x1600 (u8 k)
unfolding read_object memcpy bytes_at low_bytes
entry_read zero low high s = absurd (omega arith)
entry_read (suc zero) low high s = (4, (refl, refl, refl))
entry_read (suc (suc zero)) low high s = (4, (refl, refl, refl))
entry_read (suc (suc (suc k))) low high s = absurd (omega arith)

entries_read :
    (j k : ℕ)
    → 1 ≤ j
    → j ≤ 1
    → 1 ≤ k
    → k ≤ u8 (dict (pdo_at dict 0x1c12 j) 0)
    → Answers servo_mail 0 1 dict 4 (pdo_at dict 0x1c12 j) (u8 k)
entries_read zero k low high from_one inside = absurd (omega arith)
entries_read (suc zero) k low high from_one inside = entry_read k from_one inside
entries_read (suc (suc j)) k low high from_one inside = absurd (omega arith)

servo_mail-Knows : Knows servo_mail 0 1 dict 0x1c12
servo_mail-Knows = record {
  number = number_read;
  assigned = pdo_read;
  counted = λ j low high _. count_read j low high;
  entries = λ j k low high _. entries_read j k low high;
}

readpdoassign-total_example :
    (readpdoassign servo_mail 0 1 0x1c12 []).0
    ≡ done (u32 (bits_of_pdos dict 0x1c12 1 (u16 (dict 0x1c12 0))))
readpdoassign-total_example =
    readpdoassign-total servo_mail 0 1 dict 0x1c12 [] servo_mail-Knows (omega arith)

forty_eight_bits : u32 (bits_of_pdos dict 0x1c12 1 (u16 (dict 0x1c12 0))) ≡ 48
unfolding bits_of_pdos
forty_eight_bits = refl
