-- ===== src/Soem/Coe/Upload.antt =====
-- soem/ethercatcoe.c: `ecx_SDOread`. An offset into the parameter buffer stands for the pointer hp.
pub mod Server
pub mod Fields
pub mod Asking
pub mod Segments
pub mod Opening
pub mod Fetched
pub mod Unanswered
mod Tests
use bharatiya_beagle_bone.Common.{
  ℕ, zero, suc, ◌+◌, ◌-◌, ◌*◌, ◌/◌, Bool, true, false, ltb, leb, ◌==◌, ◌&&◌, ◌||◌, not,
  if◌then◌else◌, List, [], ◌∷◌, u16, byte0, byte1, bit_and, memcpy, bytes_at,
}
use bharatiya_beagle_bone.Common.Int.{ℤ, pos}
use bharatiya_beagle_bone.Soem.Frame.{word_at}
use bharatiya_beagle_bone.Soem.Base.{positive}
use bharatiya_beagle_bone.Soem.Eeprom.{has_bits}
use bharatiya_beagle_bone.Soem.Mailbox.{clearmbx}
use bharatiya_beagle_bone.Soem.Coe.{
  Mail, Returned, done, unfinished, crashed, sdoreq, sdo_up_req, sdo_up_req_ca, sdo_seg_up_req,
  long_at, empty_mbx, coe_message, command, is_response, ask, refuse,
}

-- What `ecx_SDOread` gives: the working counter, the size, and the parameter buffer.
pub record Upload : Type 0 where
  pub wkc : ℤ
  pub psize : ℕ
  pub bytes : List ℕ

-- An upload request.
unfoldable pub upload_request : ℕ → ℕ → ℕ → ℕ → List ℕ → List ℕ
unfolding coe_message
upload_request cnt cmd index subindex out = memcpy out 0 (
    coe_message 0x0a cnt 0 sdoreq (cmd ∷ byte0 index ∷ byte1 index ∷ subindex ∷ 0 ∷ 0 ∷ 0 ∷ 0 ∷ []))

-- The answer to a request for a segment.
abbrev pub is_segment : List ℕ → Bool
is_segment mbx = is_response mbx && bit_and (command mbx) 0xe0 == 0

abbrev pub is_last : List ℕ → Bool
is_last mbx = has_bits 0x01 (command mbx)

-- How many bytes a segment brings.
unfoldable pub segment_size : List ℕ → ℕ
segment_size mbx =
    let size = u16 (word_at mbx 0 + 65536 - 3) in
    if is_last mbx && size == 7 then size - bit_and (command mbx) 0x0e / 2 else size

module _ {S : Type 0} (mail : Mail S) (slave index subindex timeout : ℕ) where
  -- What an answer to a request for a segment does: whether it ends the transfer, and what is read.
  unfoldable pub take_segment : ℕ → List ℕ → ℕ → ℤ → List ℕ → S → Bool × Upload × S
  unfolding refuse segment_size
  take_segment at p psize wkc answer s =
      let size = segment_size answer in
      if positive wkc
      then if is_segment answer
        then (
          is_last answer,
          record { wkc = wkc; psize = psize + size; bytes = memcpy p at (bytes_at answer 9 size) },
          s,
        )
        else (
          true,
          record { wkc = pos 0; psize = psize; bytes = p },
          refuse mail slave index subindex answer s,
        )
      else (false, record { wkc = wkc; psize = psize; bytes = p }, s)

  -- The loop over the segments, for at most so many requests; `toggle` is 0 or 0x10. A request
  -- that is not answered is followed by the next.
  unfoldable pub upload_segments :
      ℕ → ℕ → ℕ → List ℕ → ℕ → List ℕ → List ℕ → S → Returned Upload × S
  unfolding upload_request ask take_segment
  upload_segments zero toggle at p psize out mbxin s = (unfinished, s)
  upload_segments (suc rounds) toggle at p psize out mbxin s =
      let (cnt, s1) = mail.next_cnt slave s in
      let request = upload_request cnt (sdo_seg_up_req + toggle) index subindex out in
      let ((wkc, answer), s2) = ask mail slave request mbxin timeout s1 in
      let (end, u, s3) = take_segment at p psize wkc answer s2 in
      let rest =
        upload_segments rounds (0x10 - toggle) (at + (u.psize - psize)) u.bytes u.psize request
          answer s3 in
      if end then (done u, s3) else rest

  -- A frame with the value in it.
  unfoldable pub expedited : List ℕ → ℤ → ℕ → List ℕ → S → Returned Upload × S
  expedited answer wkc psize p s =
      let bytesize = 4 - bit_and (command answer / 4) 0x03 in
      if leb bytesize psize
      then (
        done (record {
          wkc = wkc;
          psize = bytesize;
          bytes = memcpy p 0 (bytes_at answer 12 bytesize);
        }),
        s,
      )
      else (
        done (record { wkc = pos 0; psize = psize; bytes = p }),
        mail.packet_error slave index subindex 3 s,
      )

  -- A frame with the size of the value and the value or its start. A size of 2^31 and more is
  -- negative: it passes the tests, and goes to `memcpy`.
  unfoldable pub normal : ℕ → List ℕ → List ℕ → ℤ → ℕ → List ℕ → S → Returned Upload × S
  unfolding upload_segments
  normal rounds out answer wkc psize p s =
      let sdolen = long_at answer 12 in
      let framedatasize = u16 (word_at answer 0 + 65536 - 10) in
      let in_segments =
        upload_segments rounds 0 framedatasize (memcpy p 0 (bytes_at answer 16 framedatasize))
          framedatasize out answer s in
      if leb 0x80000000 sdolen
      then (crashed, s)
      else if leb sdolen psize
      then if ltb framedatasize sdolen then in_segments else (
        done (record { wkc = wkc; psize = sdolen; bytes = memcpy p 0 (bytes_at answer 16 sdolen) }),
        s,
      )
      else (
        done (record { wkc = pos 0; psize = psize; bytes = p }),
        mail.packet_error slave index subindex 3 s,
      )

  -- What follows the answer to the first request.
  unfoldable pub upload_answer : ℕ → List ℕ → List ℕ → ℤ → ℕ → List ℕ → S → Returned Upload × S
  unfolding expedited normal refuse
  upload_answer rounds out answer wkc psize p s =
      if positive wkc
      then if is_response answer && word_at answer 9 == index
        then if has_bits 0x02 (command answer)
          then expedited answer wkc psize p s
          else normal rounds out answer wkc psize p s
        else (
          done (record { wkc = pos 0; psize = psize; bytes = p }),
          refuse mail slave index subindex answer s,
        )
      else (done (record { wkc = wkc; psize = psize; bytes = p }), s)

-- `ecx_SDOread`; in a complete access the subindex is 0 or 1.
unfoldable pub sdoread :
    {S : Type 0} → Mail S → ℕ → ℕ → ℕ → ℕ → Bool → ℕ → List ℕ → ℕ → S → Returned Upload × S
unfolding upload_request ask upload_answer clearmbx
sdoread mail rounds slave index subindex ca psize p timeout s =
    let ((_, mbxin), s1) = mail.receive slave empty_mbx 0 s in
    let (cnt, s2) = mail.next_cnt slave s1 in
    let sub = if ca && ltb 1 subindex then 1 else subindex in
    let cmd = if ca then sdo_up_req_ca else sdo_up_req in
    let request = upload_request cnt cmd index sub empty_mbx in
    let ((wkc, answer), s3) = ask mail slave request mbxin timeout s2 in
    upload_answer mail slave index sub timeout rounds request answer wkc psize p s3
