-- ===== src/Soem/Frame/Setup.antt =====
-- The first datagram of a frame.
use bharatiya_beagle_bone.Common.{
  ℕ, zero, suc, ◌+◌, ◌≡◌, ◌≤◌, ◌<◌, refl, ap, ◌∙◌, arith, List, [], ◌∷◌, length, get_or, byte0,
  byte1, memcpy, bytes_at, length-memcpy, length-bytes_at, length-replicate, memcpy_empty,
  bytes_at_all, sym, memcpy_before, memcpy_inside, bytes_at-memcpy, bytes_at-memcpy_apart, inl,
}
use bharatiya_beagle_bone.Soem.Frame.{
  Cmd, code, nop, aprd, fprd, brd, lrd, word_at, payload, write_datagram_data, write_header,
}

pub length-payload : (cmd : Cmd) (n : ℕ) (bytes : List ℕ) → length (payload cmd n bytes) ≡ n
unfolding payload
length-payload nop n bytes = length-replicate n 0
length-payload aprd n bytes = length-replicate n 0
length-payload fprd n bytes = length-replicate n 0
length-payload brd n bytes = length-replicate n 0
length-payload lrd n bytes = length-replicate n 0
length-payload _ n bytes = length-bytes_at bytes 0 n

-- A datagram in a buffer: its command, index, two addresses, length field, data and working counter.
pub record Datagram (xs : List ℕ) (at : ℕ) (cmd : Cmd) (idx adp ado dlength : ℕ) (body : List ℕ)
    : Type 0 where
  pub command : get_or xs at 0 ≡ code cmd
  pub index : get_or xs (at + 1) 0 ≡ idx
  pub address : word_at xs (at + 2) ≡ adp
  pub offset : word_at xs (at + 4) ≡ ado
  pub size_field : word_at xs (at + 6) ≡ dlength
  pub contents : bytes_at xs (at + 10) (length body) ≡ body
  pub wkc : word_at xs (at + 10 + length body) ≡ 0

-- The four writes of a datagram, as both functions make them.
abbrev pub write_datagram : ℕ → Cmd → ℕ → ℕ → ℕ → ℕ → ℕ → List ℕ → List ℕ → List ℕ
write_datagram at cmd idx adp ado dlength n bytes xs =
    memcpy (write_datagram_data (at + 10) cmd n bytes (write_header at cmd idx adp ado dlength xs))
      (at + 10 + n) (0 ∷ 0 ∷ [])

abbrev pub header_bytes : Cmd → ℕ → ℕ → ℕ → ℕ → List ℕ
header_bytes cmd idx adp ado dlength =
    code cmd
    ∷ idx
    ∷ byte0 adp
    ∷ byte1 adp
    ∷ byte0 ado
    ∷ byte1 ado
    ∷ byte0 dlength
    ∷ byte1 dlength
    ∷ []

-- Data of no bytes is not copied, which is the same.
data_written :
    (at : ℕ) (cmd : Cmd) (n : ℕ) (bytes xs : List ℕ)
    → write_datagram_data at cmd n bytes xs ≡ memcpy xs at (payload cmd n bytes)
unfolding write_datagram_data
data_written at cmd zero bytes xs =
    sym (memcpy_empty xs at (payload cmd 0 bytes) (length-payload cmd 0 bytes))
data_written at cmd (suc n) bytes xs = ground arith

module _ (at : ℕ) (cmd : Cmd) (idx adp ado dlength n : ℕ) (bytes xs : List ℕ) where
  abbrev headed : List ℕ
  headed = memcpy xs at (header_bytes cmd idx adp ado dlength)

  abbrev filled : List ℕ
  filled = memcpy headed (at + 10) (payload cmd n bytes)

  abbrev written : List ℕ
  written = memcpy filled (at + 10 + n) (0 ∷ 0 ∷ [])

  write_datagram-written : write_datagram at cmd idx adp ado dlength n bytes xs ≡ written
  unfolding write_header
  write_datagram-written =
      ap (λ f. memcpy f (at + 10 + n) (0 ∷ 0 ∷ [])) (data_written (at + 10) cmd n bytes headed)

  pub length-write_datagram :
      length (write_datagram at cmd idx adp ado dlength n bytes xs) ≡ length xs
  length-write_datagram =
      ap length write_datagram-written
      ∙ length-memcpy filled (at + 10 + n) (0 ∷ 0 ∷ [])
      ∙ length-memcpy headed (at + 10) (payload cmd n bytes)
      ∙ length-memcpy xs at (header_bytes cmd idx adp ado dlength)

  -- Bytes before the datagram are kept.
  pub write_datagram_before :
      (j : ℕ)
      → j < at
      → get_or (write_datagram at cmd idx adp ado dlength n bytes xs) j 0 ≡ get_or xs j 0
  write_datagram_before j lt =
      ap (λ ys. get_or ys j 0) write_datagram-written
      ∙ memcpy_before filled (at + 10 + n) (0 ∷ 0 ∷ []) j (omega arith)
      ∙ memcpy_before headed (at + 10) (payload cmd n bytes) j (omega arith)
      ∙ memcpy_before xs at (header_bytes cmd idx adp ado dlength) j lt

  -- The header's bytes.
  header_at :
      at + 12 + n ≤ length xs
      → (i j : ℕ) → j ≡ at + i
      → i < 8
      → get_or (write_datagram at cmd idx adp ado dlength n bytes xs) j 0
        ≡ get_or (header_bytes cmd idx adp ado dlength) i 0
  header_at fits i j e lt =
      ap (λ ys. get_or ys j 0) write_datagram-written
      ∙ memcpy_before filled (at + 10 + n) (0 ∷ 0 ∷ []) j (omega arith)
      ∙ memcpy_before headed (at + 10) (payload cmd n bytes) j (omega arith)
      ∙ memcpy_inside xs at (header_bytes cmd idx adp ado dlength) i j e lt (omega arith)

  contents_at :
      at + 12 + n ≤ length xs
      → bytes_at
          (write_datagram at cmd idx adp ado dlength n bytes xs)
          (at + 10)
          (length (payload cmd n bytes))
        ≡ payload cmd n bytes
  contents_at fits =
      let size = length-payload cmd n bytes in
      let room = length-memcpy xs at (header_bytes cmd idx adp ado dlength) in
      ap (λ ys. bytes_at ys (at + 10) (length (payload cmd n bytes))) write_datagram-written
      ∙ bytes_at-memcpy_apart filled (at + 10 + n) (0 ∷ 0 ∷ []) (at + 10)
          (length (payload cmd n bytes)) (inl (omega arith))
      ∙ bytes_at-memcpy headed (at + 10) (payload cmd n bytes) (omega arith)
      ∙ bytes_at_all (payload cmd n bytes)

  wkc_at :
      at + 12 + n ≤ length xs
      → (i j : ℕ) → j ≡ at + 10 + length (payload cmd n bytes) + i
      → i < 2
      → get_or (write_datagram at cmd idx adp ado dlength n bytes xs) j 0 ≡ get_or (0 ∷ 0 ∷ []) i 0
  wkc_at fits i j e lt =
      let size = length-payload cmd n bytes in
      let room = length-memcpy xs at (header_bytes cmd idx adp ado dlength) in
      let room' = length-memcpy headed (at + 10) (payload cmd n bytes) in
      ap (λ ys. get_or ys j 0) write_datagram-written
      ∙ memcpy_inside filled (at + 10 + n) (0 ∷ 0 ∷ []) i j (omega arith) lt (omega arith)

  pub write_datagram-Datagram :
      at + 12 + n ≤ length xs
      → adp < 65536
      → ado < 65536
      → dlength < 65536
      → Datagram
          (write_datagram at cmd idx adp ado dlength n bytes xs)
          at
          cmd
          idx
          adp
          ado
          dlength
          (payload cmd n bytes)
  write_datagram-Datagram fits la lo ld =
      let h = header_at fits in
      let z = wkc_at fits in
      let end : ℕ = at + 10 + length (payload cmd n bytes) in
      record {
        command = h 0 at (omega arith) (omega arith);
        index = h 1 (at + 1) refl (omega arith);
        address =
            omega (
              arith,
              h 2 (at + 2) refl (omega arith),
              h 3 (at + 2 + 1) (omega arith) (omega arith),
            );
        offset =
            omega (
              arith,
              h 4 (at + 4) refl (omega arith),
              h 5 (at + 4 + 1) (omega arith) (omega arith),
            );
        size_field =
            omega (
              arith,
              h 6 (at + 6) refl (omega arith),
              h 7 (at + 6 + 1) (omega arith) (omega arith),
            );
        contents = contents_at fits;
        wkc = omega (arith, z 0 end (omega arith) (omega arith), z 1 (end + 1) refl (omega arith));
      }
