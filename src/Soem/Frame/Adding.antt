-- ===== src/Soem/Frame/Adding.antt =====
-- Frames that the two functions build.
use bharatiya_beagle_bone.Common.{
  ℕ, ◌+◌, ◌-◌, ◌≡◌, ◌⊎◌, inl, inr, ◌%◌, ◌≤◌, ◌<◌, refl, ap, ◌∙◌, arith, Bool, if◌then◌else◌, List,
  length, get_or, bit_or, u16, memcpy, bytes_at, bytes_at_same, length-memcpy, memcpy_before,
  memcpy_after, memcpy_inside, or_0x8000,
}
use bharatiya_beagle_bone.Soem.Frame.{
  Cmd, ec_datagramfollows, Frame, word_at, word_bytes, payload, setup_datagram, add_datagram,
}
use bharatiya_beagle_bone.Soem.Frame.Setup.{
  Datagram, write_datagram, length-write_datagram, write_datagram_before, write_datagram-Datagram,
}

-- A word written into a buffer, and the bytes beside it.
word_at-memcpy :
    (xs : List ℕ) (at w : ℕ)
    → at + 2 ≤ length xs
    → word_at (memcpy xs at (word_bytes w)) at ≡ w % 65536
word_at-memcpy xs at w fits = omega (
  arith,
  memcpy_inside xs at (word_bytes w) 0 at (omega arith) (omega arith) fits,
  memcpy_inside xs at (word_bytes w) 1 (at + 1) refl (omega arith) fits,
)

-- The frame that `setup_datagram` leaves in a buffer with room: the EtherCAT length with its type,
-- one datagram with the arguments of the call, its working counter 0, the size to send, and the
-- bytes of the Ethernet header as they were.
pub setup_datagram_lem :
    (cmd : Cmd) (idx adp ado n : ℕ) (bytes : List ℕ) (f : Frame)
    → 28 + n ≤ length f.bytes
    → adp < 65536
    → ado < 65536
    → n < 2048
    → let g : Frame = setup_datagram cmd idx adp ado n bytes f in
      Datagram g.bytes 16 cmd idx adp ado n (payload cmd n bytes)
      × (word_at g.bytes 14 ≡ 0x1000 + 12 + n)
      × (g.txbuflength ≡ 28 + n)
      × (length g.bytes ≡ length f.bytes)
      × (bytes_at g.bytes 0 14 ≡ bytes_at f.bytes 0 14)
unfolding setup_datagram
setup_datagram_lem cmd idx adp ado n bytes f fits la lo ln =
    let f1 : List ℕ = memcpy f.bytes 14 (word_bytes (0x1000 + 12 + n)) in
    let same = length-memcpy f.bytes 14 (word_bytes (0x1000 + 12 + n)) in
    let before = write_datagram_before 16 cmd idx adp ado n n bytes f1 in
    let word = word_at-memcpy f.bytes 14 (0x1000 + 12 + n) (omega arith) in
    (
      write_datagram-Datagram 16 cmd idx adp ado n n bytes f1 (omega arith) la lo (omega arith),
      omega (arith, before 14 (omega arith), before 15 (omega arith), word),
      refl,
      length-write_datagram 16 cmd idx adp ado n n bytes f1 ∙ same,
      bytes_at_same (setup_datagram cmd idx adp ado n bytes f).bytes f.bytes 0 0 14 (λ j lt.
          before (0 + j) (omega arith)
          ∙ memcpy_before f.bytes 14 (word_bytes (0x1000 + 12 + n)) (0 + j) (omega arith)),
    )

-- The length field of an added datagram, by whether another one will follow.
abbrev pub size_with : Bool → ℕ → ℕ
size_with more n = if more then n + 0x8000 else n

module _ (cmd : Cmd) (idx : ℕ) (more : Bool) (adp ado n : ℕ) (bytes : List ℕ) (f : Frame)
    (started : 28 ≤ f.txbuflength) (fits : f.txbuflength + 12 + n ≤ length f.bytes)
    (small : f.txbuflength + 12 + n ≤ 1518)
    (counted : word_at f.bytes 14 + 16 ≡ 0x1000 + f.txbuflength) where
  -- The buffer before the header of the new datagram is written.
  abbrev sized : List ℕ
  sized = memcpy f.bytes 14 (word_bytes (u16 (word_at f.bytes 14 + 12 + n)))

  abbrev flagged : List ℕ
  flagged = memcpy sized 22 (word_bytes (bit_or (word_at sized 22) ec_datagramfollows))

  added-written :
      (add_datagram cmd idx more adp ado n bytes f).0.bytes
      ≡ write_datagram f.txbuflength cmd idx adp ado (size_with more n) n bytes flagged
  unfolding add_datagram
  added-written =
      let prev : u16 f.txbuflength ≡ f.txbuflength = omega arith in
      let at : u16 f.txbuflength + 12 - 2 ≡ f.txbuflength + 10 = omega arith in
      let flag : (if more then bit_or n ec_datagramfollows else n) ≡ size_with more n =
        ground (arith, or_0x8000 n) in
      cc (prev, at, flag)

  length-flagged : length flagged ≡ length f.bytes
  length-flagged =
      length-memcpy sized 22 (word_bytes (bit_or (word_at sized 22) ec_datagramfollows))
      ∙ length-memcpy f.bytes 14 (word_bytes (u16 (word_at f.bytes 14 + 12 + n)))

  -- A byte that is neither in a length field nor in the new datagram.
  pub added_kept :
      (j : ℕ)
      → (j < 14) ⊎ ((16 ≤ j) × (j < 22)) ⊎ ((24 ≤ j) × (j < f.txbuflength))
      → get_or (add_datagram cmd idx more adp ado n bytes f).0.bytes j 0 ≡ get_or f.bytes j 0
  added_kept j where_ =
      ap (λ ys. get_or ys j 0) added-written
      ∙ write_datagram_before f.txbuflength cmd idx adp ado (size_with more n) n bytes flagged j
          (ground arith)
      ∙ outside_flag
      ∙ outside_size
    where
      outside_flag : get_or flagged j 0 ≡ get_or sized j 0
      outside_flag = ground (
        arith,
        memcpy_before sized 22 (word_bytes (bit_or (word_at sized 22) ec_datagramfollows)) j,
        memcpy_after sized 22 (word_bytes (bit_or (word_at sized 22) ec_datagramfollows)) j,
      )

      outside_size : get_or sized j 0 ≡ get_or f.bytes j 0
      outside_size = ground (
        arith,
        memcpy_before f.bytes 14 (word_bytes (u16 (word_at f.bytes 14 + 12 + n))) j,
        memcpy_after f.bytes 14 (word_bytes (u16 (word_at f.bytes 14 + 12 + n))) j,
      )

  -- The word before the new datagram, at 14 or 22.
  added_word :
      (at : ℕ)
      → at + 2 ≤ f.txbuflength
      → word_at (add_datagram cmd idx more adp ado n bytes f).0.bytes at ≡ word_at flagged at
  added_word at lt =
      ap (λ ys. word_at ys at) added-written
      ∙ omega (
        arith,
        write_datagram_before f.txbuflength cmd idx adp ado (size_with more n) n bytes flagged at
            (omega arith),
        write_datagram_before f.txbuflength cmd idx adp ado (size_with more n) n bytes flagged
            (at + 1) (omega arith),
      )

  pub added-size :
      (add_datagram cmd idx more adp ado n bytes f).0.txbuflength ≡ f.txbuflength + 12 + n
  unfolding add_datagram
  added-size = omega arith

  added-place : (add_datagram cmd idx more adp ado n bytes f).1 + 14 ≡ f.txbuflength + 10
  unfolding add_datagram
  added-place = omega arith

  -- The two length fields before the new datagram.
  added-elength :
      word_at (add_datagram cmd idx more adp ado n bytes f).0.bytes 14 ≡ word_at f.bytes 14 + 12 + n
  added-elength =
      added_word 14 (omega arith)
      ∙ omega (
        arith,
        memcpy_before sized 22 (word_bytes (bit_or (word_at sized 22) ec_datagramfollows)) 14
            (omega arith),
        memcpy_before sized 22 (word_bytes (bit_or (word_at sized 22) ec_datagramfollows)) 15
            (omega arith),
        word_at-memcpy f.bytes 14 (u16 (word_at f.bytes 14 + 12 + n)) (omega arith),
      )

  added-flag :
      word_at (add_datagram cmd idx more adp ado n bytes f).0.bytes 22
      ≡ bit_or (word_at f.bytes 22) 0x8000 % 65536
  added-flag =
      let room = length-memcpy f.bytes 14 (word_bytes (u16 (word_at f.bytes 14 + 12 + n))) in
      let same : word_at sized 22 ≡ word_at f.bytes 22 = omega (
        arith,
        memcpy_after f.bytes 14 (word_bytes (u16 (word_at f.bytes 14 + 12 + n))) 22 (omega arith),
        memcpy_after f.bytes 14 (word_bytes (u16 (word_at f.bytes 14 + 12 + n))) 23 (omega arith),
      ) in
      added_word 22 (omega arith)
      ∙ word_at-memcpy sized 22 (bit_or (word_at sized 22) ec_datagramfollows) (omega arith)
      ∙ ap (λ w. bit_or w 0x8000 % 65536) same

  -- A datagram that is added to a frame in a buffer with room: it stands behind the others, with
  -- the flag of a follower if there will be one. The EtherCAT length counts on to the new end, the
  -- first datagram is flagged as followed, and the result is the place of the data in an answer,
  -- which begins behind the Ethernet header. The other bytes before it are kept.
  pub add_datagram_lem :
      adp < 65536
      → ado < 65536
      → let r = add_datagram cmd idx more adp ado n bytes f in
        let g : Frame = r.0 in
        Datagram g.bytes f.txbuflength cmd idx adp ado (size_with more n) (payload cmd n bytes)
        × (g.txbuflength ≡ f.txbuflength + 12 + n)
        × (word_at g.bytes 14 + 16 ≡ 0x1000 + g.txbuflength)
        × (word_at g.bytes 22 ≡ bit_or (word_at f.bytes 22) 0x8000 % 65536)
        × (r.1 + 14 ≡ f.txbuflength + 10)
        × (bytes_at g.bytes 0 14 ≡ bytes_at f.bytes 0 14)
        × (bytes_at g.bytes 16 6 ≡ bytes_at f.bytes 16 6)
        × (bytes_at g.bytes 24 (f.txbuflength - 24) ≡ bytes_at f.bytes 24 (f.txbuflength - 24))
  add_datagram_lem la lo = (
    rw added-written (
        write_datagram-Datagram f.txbuflength cmd idx adp ado (size_with more n) n bytes flagged
          (omega (arith, length-flagged)) la lo (ground arith)),
    added-size,
    omega (arith, added-elength, added-size),
    added-flag,
    added-place,
    kept_block 0 14 (λ j lt. inl (omega arith)),
    kept_block 16 6 (λ j lt. inr (inl (omega arith, omega arith))),
    kept_block 24 (f.txbuflength - 24) (λ j lt. inr (inr (omega arith, omega arith))),
  )
    where
      kept_block :
          (from count : ℕ)
          → ((j : ℕ)
              → j < count
              → (from + j < 14)
                ⊎ ((16 ≤ from + j) × (from + j < 22))
                ⊎ ((24 ≤ from + j) × (from + j < f.txbuflength)))
          → bytes_at (add_datagram cmd idx more adp ado n bytes f).0.bytes from count
            ≡ bytes_at f.bytes from count
      kept_block from count inside =
          bytes_at_same (add_datagram cmd idx more adp ado n bytes f).0.bytes f.bytes from from
            count (λ j lt. added_kept (from + j) (inside j lt))
