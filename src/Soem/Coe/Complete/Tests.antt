-- ===== src/Soem/Coe/Complete/Tests.antt =====
-- A slave that assigns one PDO with one entry of 16 bits, read by complete access.
use bharatiya_beagle_bone.Common.{
  ℕ, ◌≡◌, refl, ◌==◌, if◌then◌else◌, List, [], ◌∷◌, get_or, replicate, ◌++◌, memcpy, bytes_at,
}
use bharatiya_beagle_bone.Common.Int.{pos}
use bharatiya_beagle_bone.Soem.Frame.{word_at}
use bharatiya_beagle_bone.Soem.Coe.{Mail, Returned, done, unfinished, crashed}
use bharatiya_beagle_bone.Soem.Coe.Complete.{
  Buffers, pdoassign_size, pdodesc_size, smcommtype_size, readpdoassign_ca,
}

-- The state is the last request.
abbrev structure : ℕ → List ℕ
structure index =
    if index == 0x1c12 then 1 ∷ 0 ∷ 0x00 ∷ 0x16 ∷ 0 ∷ 0 ∷ [] else 1 ∷ 0 ∷ 16 ∷ 0 ∷ 0x40 ∷ 0x60 ∷ []

abbrev answer : List ℕ → List ℕ
answer m =
    (16 ∷ 0 ∷ 0 ∷ 0 ∷ 0 ∷ 3 ∷ 0 ∷ 0x30 ∷ 0x41 ∷ get_or m 9 0 ∷ get_or m 10 0 ∷ 0 ∷ [])
    ++ (6 ∷ 0 ∷ 0 ∷ 0 ∷ [])
    ++ structure (word_at m 9)

abbrev server : Mail (List ℕ)
server = record {
  send = λ _ m _ _. (pos 1, m);
  receive = λ _ _ _ m. ((pos 1, answer m), m);
  next_cnt = λ _ m. (1, m);
  mbx_l = λ _ _. 32;
  sdo_error = λ _ _ _ _ m. m;
  packet_error = λ _ _ _ _ m. m;
}

abbrev buffers : Buffers
buffers = record {
  smcommtype = replicate smcommtype_size 0;
  pdoassign = replicate pdoassign_size 0;
  pdodesc = replicate pdodesc_size 0;
}

abbrev size_of : {B : Type 0} → Returned (ℕ × B) → ℕ
size_of (done r) = r.0
size_of unfinished = 0
size_of crashed = 0

sixteen_bits : size_of (readpdoassign_ca server 1 1 0x1c12 buffers []).0 ≡ 16
unfolding readpdoassign_ca memcpy bytes_at
sixteen_bits = refl
