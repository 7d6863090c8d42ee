-- ===== src/Soem/Base.antt =====
-- soem/ethercatbase.c: the blocking primitives, each a frame of one datagram that goes out and is
-- awaited. One that reads gives its working counter and the data buffer behind the call.
pub mod Exchange
mod Tests
use bharatiya_beagle_bone.Common.{
  ℕ, ◌+◌, ◌*◌, ◌/◌, ◌%◌, Bool, true, false, ltb, ◌==◌, ◌&&◌, not, if◌then◌else◌, List, [], ◌∷◌,
  ◌++◌, get_or, set, u16, memcpy, bytes_at, Run,
}
use bharatiya_beagle_bone.Common.Int.{ℤ, pos, pos_part, ltb_ℤ}
use bharatiya_beagle_bone.Soem.Frame.{
  Cmd, code, aprd, apwr, fprd, fpwr, brd, bwr, lrd, lwr, lrw, armw, frmw, Frame, ec_headersize,
  word_at, word_bytes, setup_datagram, add_datagram,
}
use bharatiya_beagle_bone.Soem.Nic.{
  Wire, Port, Net, buf_empty, frame_of, rx_of, on_port, getindex, setbufstat,
}
use bharatiya_beagle_bone.Soem.Nic.Receive.{srconfirm}

-- ECT_REG_DCSYSTIME
abbrev pub reg_dcsystime : ℕ
reg_dcsystime = 0x0910

abbrev pub lo_word : ℕ → ℕ
lo_word l = l % 65536

abbrev pub hi_word : ℕ → ℕ
hi_word l = l / 65536 % 65536

-- `wkc > 0`
abbrev pub positive : ℤ → Bool
positive wkc = ltb_ℤ (pos 0) wkc

-- The command of the answer in a receive buffer, at EC_CMDOFFSET.
abbrev pub answer_cmd : List ℕ → ℕ
answer_cmd rx = get_or rx 2 0

-- `memcpy(data, &(rxbuf[idx][EC_HEADERSIZE]), length)` into the caller's buffer.
abbrev pub copy_answer : ℕ → List ℕ → List ℕ → List ℕ
copy_answer n rx bytes = memcpy bytes 0 (bytes_at rx ec_headersize n)

unfoldable pub put_frame : ℕ → Frame → Port → Port
put_frame idx f p = record p { txframes = set p.txframes idx f }

module _ {W : Type 0} (wire : Wire W) where
  -- The first two statements of a primitive: a buffer, and in it the frame with one datagram.
  unfoldable pub prepare : Cmd → ℕ → ℕ → ℕ → List ℕ → Run (Net W) ℕ
  unfolding getindex setup_datagram put_frame
  prepare cmd adp ado n bytes net =
      let (idx, p) = getindex net.port in
      (
        idx,
        record net {
          port = put_frame idx (setup_datagram cmd idx adp ado n bytes (frame_of p idx)) p;
        },
      )

  -- The next two: the answer, its receive buffer, and the buffer released. Nothing between the two
  -- calls changes the port.
  unfoldable pub confirm : ℕ → ℕ → Run (Net W) (ℤ × List ℕ)
  unfolding srconfirm setbufstat
  confirm idx timeout net =
      let (wkc, net1) = srconfirm wire idx timeout net in
      ((wkc, rx_of net1.port idx), on_port wire (setbufstat idx buf_empty) net1)

  -- A whole exchange of one datagram.
  unfoldable pub exchange : Cmd → ℕ → ℕ → ℕ → List ℕ → ℕ → Run (Net W) (ℤ × List ℕ)
  unfolding prepare confirm
  exchange cmd adp ado n bytes timeout net =
      let (idx, net1) = prepare cmd adp ado n bytes net in confirm idx timeout net1

  unfoldable pub write_with : Cmd → ℕ → ℕ → ℕ → List ℕ → ℕ → Run (Net W) ℤ
  unfolding exchange
  write_with cmd adp ado n bytes timeout net =
      let (answer, net1) = exchange cmd adp ado n bytes timeout net in (answer.0, net1)

  -- The data is copied where the working counter is positive and the answer is acceptable.
  unfoldable pub read_with :
      (List ℕ → Bool) → Cmd → ℕ → ℕ → ℕ → List ℕ → ℕ → Run (Net W) (ℤ × List ℕ)
  unfolding exchange
  read_with accepts cmd adp ado n bytes timeout net =
      let (answer, net1) = exchange cmd adp ado n bytes timeout net in
      let taken =
        if positive answer.0 && accepts answer.1 then copy_answer n answer.1 bytes else bytes in
      ((answer.0, taken), net1)

  abbrev any_answer : List ℕ → Bool
  any_answer rx = true

  -- The logical reads want their own command back: the network may answer with another frame.
  abbrev has_cmd : Cmd → List ℕ → Bool
  has_cmd cmd rx = answer_cmd rx == code cmd

  unfoldable pub ecx_bwr : ℕ → ℕ → ℕ → List ℕ → ℕ → Run (Net W) ℤ
  unfolding write_with
  ecx_bwr adp ado n bytes timeout = write_with bwr adp ado n bytes timeout

  unfoldable pub ecx_brd : ℕ → ℕ → ℕ → List ℕ → ℕ → Run (Net W) (ℤ × List ℕ)
  unfolding read_with
  ecx_brd adp ado n bytes timeout = read_with any_answer brd adp ado n bytes timeout

  unfoldable pub ecx_aprd : ℕ → ℕ → ℕ → List ℕ → ℕ → Run (Net W) (ℤ × List ℕ)
  unfolding read_with
  ecx_aprd adp ado n bytes timeout = read_with any_answer aprd adp ado n bytes timeout

  unfoldable pub ecx_armw : ℕ → ℕ → ℕ → List ℕ → ℕ → Run (Net W) (ℤ × List ℕ)
  unfolding read_with
  ecx_armw adp ado n bytes timeout = read_with any_answer armw adp ado n bytes timeout

  unfoldable pub ecx_frmw : ℕ → ℕ → ℕ → List ℕ → ℕ → Run (Net W) (ℤ × List ℕ)
  unfolding read_with
  ecx_frmw adp ado n bytes timeout = read_with any_answer frmw adp ado n bytes timeout

  unfoldable pub ecx_fprd : ℕ → ℕ → ℕ → List ℕ → ℕ → Run (Net W) (ℤ × List ℕ)
  unfolding read_with
  ecx_fprd adp ado n bytes timeout = read_with any_answer fprd adp ado n bytes timeout

  unfoldable pub ecx_aprdw : ℕ → ℕ → ℕ → Run (Net W) ℕ
  unfolding ecx_aprd
  ecx_aprdw adp ado timeout net =
      let (answer, net1) = ecx_aprd adp ado 2 (0 ∷ 0 ∷ []) timeout net in (word_at answer.1 0, net1)

  unfoldable pub ecx_fprdw : ℕ → ℕ → ℕ → Run (Net W) ℕ
  unfolding ecx_fprd
  ecx_fprdw adp ado timeout net =
      let (answer, net1) = ecx_fprd adp ado 2 (0 ∷ 0 ∷ []) timeout net in (word_at answer.1 0, net1)

  unfoldable pub ecx_apwr : ℕ → ℕ → ℕ → List ℕ → ℕ → Run (Net W) ℤ
  unfolding write_with
  ecx_apwr adp ado n bytes timeout = write_with apwr adp ado n bytes timeout

  unfoldable pub ecx_apwrw : ℕ → ℕ → ℕ → ℕ → Run (Net W) ℤ
  unfolding ecx_apwr
  ecx_apwrw adp ado word timeout = ecx_apwr adp ado 2 (word_bytes word) timeout

  unfoldable pub ecx_fpwr : ℕ → ℕ → ℕ → List ℕ → ℕ → Run (Net W) ℤ
  unfolding write_with
  ecx_fpwr adp ado n bytes timeout = write_with fpwr adp ado n bytes timeout

  unfoldable pub ecx_fpwrw : ℕ → ℕ → ℕ → ℕ → Run (Net W) ℤ
  unfolding ecx_fpwr
  ecx_fpwrw adp ado word timeout = ecx_fpwr adp ado 2 (word_bytes word) timeout

  unfoldable pub ecx_lrw : ℕ → ℕ → List ℕ → ℕ → Run (Net W) (ℤ × List ℕ)
  unfolding read_with
  ecx_lrw logadr n bytes timeout =
      read_with (has_cmd lrw) lrw (lo_word logadr) (hi_word logadr) n bytes timeout

  unfoldable pub ecx_lrd : ℕ → ℕ → List ℕ → ℕ → Run (Net W) (ℤ × List ℕ)
  unfolding read_with
  ecx_lrd logadr n bytes timeout =
      read_with (has_cmd lrd) lrd (lo_word logadr) (hi_word logadr) n bytes timeout

  unfoldable pub ecx_lwr : ℕ → ℕ → List ℕ → ℕ → Run (Net W) ℤ
  unfolding write_with
  ecx_lwr logadr n bytes timeout = write_with lwr (lo_word logadr) (hi_word logadr) n bytes timeout

  -- What LRWDC takes from an answer: the working counter of the process data, which replaces the
  -- low half of `wkc`, the data, and the eight bytes of the clock at the offset of its datagram.
  unfoldable pub take_lrwdc : ℕ → ℕ → ℕ → List ℕ → List ℕ → List ℕ → ℕ × List ℕ × List ℕ
  take_lrwdc wkc n clock_at rx bytes clock = (
    word_at rx (ec_headersize + n) + 65536 * (wkc / 65536),
    copy_answer n rx bytes,
    bytes_at rx clock_at 8,
  )

  -- The clock stands in memory as its eight bytes, low byte first.
  -- `pointer_size` is `sizeof(DCtime)`, the size of a pointer, where eight bytes are read back.
  unfoldable pub ecx_lrwdc : ℕ → ℕ → ℕ → List ℕ → ℕ → List ℕ → ℕ → Run (Net W) (ℤ × List ℕ × List ℕ)
  unfolding prepare confirm add_datagram put_frame take_lrwdc
  ecx_lrwdc pointer_size logadr n bytes dcrs dctime timeout net =
      let (idx, net1) = prepare lrw (lo_word logadr) (hi_word logadr) n bytes net in
      let (framed, clock_at) =
        add_datagram frmw idx false dcrs reg_dcsystime pointer_size dctime
          (frame_of net1.port idx) in
      let (answer, net2) = confirm idx timeout (on_port wire (put_frame idx framed) net1) in
      (accept answer.0 answer.1 clock_at, net2)
    where
      taken : ℕ → List ℕ → ℕ → ℕ × List ℕ × List ℕ
      taken wkc rx clock_at = take_lrwdc wkc n clock_at rx bytes dctime

      accept : ℤ → List ℕ → ℕ → ℤ × List ℕ × List ℕ
      accept wkc rx clock_at =
          if positive wkc && has_cmd lrw rx
          then (
            pos (taken (pos_part wkc) rx clock_at).0,
            (taken (pos_part wkc) rx clock_at).1,
            (taken (pos_part wkc) rx clock_at).2,
          )
          else (wkc, bytes, dctime)
