-- ===== src/Soem/Frame/Tests.antt =====
-- A frame with one datagram, and a second one added to it.
use bharatiya_beagle_bone.Common.{
  ◌≡◌, refl, arith, ◌+◌, ◌-◌, ◌%◌, false, [], ◌∷◌, ◌++◌, length, bit_or, bytes_at, replicate,
}
use bharatiya_beagle_bone.Soem.Frame.{
  Frame, brd, frmw, word_at, payload, setup_datagram, add_datagram,
}
use bharatiya_beagle_bone.Soem.Frame.Setup.{Datagram}
use bharatiya_beagle_bone.Soem.Frame.Adding.{size_with, setup_datagram_lem, add_datagram_lem}

abbrev blank : Frame
blank = record { bytes = replicate 64 0; txbuflength = 0 }

abbrev begun : Frame
begun = record { bytes = replicate 14 0 ++ 14 ∷ 16 ∷ replicate 60 0; txbuflength = 30 }

setup_datagram_lem_example :
    let g : Frame = setup_datagram brd 3 0 0x130 2 (0 ∷ 0 ∷ []) blank in
    Datagram g.bytes 16 brd 3 0 0x130 2 (payload brd 2 (0 ∷ 0 ∷ []))
    × (word_at g.bytes 14 ≡ 0x1000 + 12 + 2)
    × (g.txbuflength ≡ 28 + 2)
    × (length g.bytes ≡ length blank.bytes)
    × (bytes_at g.bytes 0 14 ≡ bytes_at blank.bytes 0 14)
setup_datagram_lem_example =
    setup_datagram_lem brd 3 0 0x130 2 (0 ∷ 0 ∷ []) blank (omega arith) (omega arith) (omega arith)
      (omega arith)

add_datagram_lem_example :
    let r = add_datagram frmw 3 false 0x1001 0x910 8 (replicate 8 1) begun in
    let g : Frame = r.0 in
    Datagram g.bytes 30 frmw 3 0x1001 0x910 (size_with false 8) (payload frmw 8 (replicate 8 1))
    × (g.txbuflength ≡ 30 + 12 + 8)
    × (word_at g.bytes 14 + 16 ≡ 0x1000 + g.txbuflength)
    × (word_at g.bytes 22 ≡ bit_or (word_at begun.bytes 22) 0x8000 % 65536)
    × (r.1 + 14 ≡ 30 + 10)
    × (bytes_at g.bytes 0 14 ≡ bytes_at begun.bytes 0 14)
    × (bytes_at g.bytes 16 6 ≡ bytes_at begun.bytes 16 6)
    × (bytes_at g.bytes 24 (30 - 24) ≡ bytes_at begun.bytes 24 (30 - 24))
add_datagram_lem_example =
    add_datagram_lem frmw 3 false 0x1001 0x910 8 (replicate 8 1) begun (omega arith) (omega arith)
      (omega arith) refl (omega arith) (omega arith)
