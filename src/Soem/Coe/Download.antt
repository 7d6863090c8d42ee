-- ===== src/Soem/Coe/Download.antt =====
-- soem/ethercatcoe.c: `ecx_SDOwrite`. An offset into the parameter stands for the pointer hp.
pub mod Receiver
pub mod Segments
pub mod Asking
pub mod Loop
pub mod Initiating
pub mod Delivered
use bharatiya_beagle_bone.Common.{
  ℕ, zero, suc, ◌+◌, ◌-◌, ◌*◌, Bool, true, false, ltb, leb, ◌==◌, ◌&&◌, ◌||◌, not, if◌then◌else◌,
  List, ◌∷◌, get_or, u16, byte0, byte1, bit_and, bit_or, memcpy, bytes_at,
}
use bharatiya_beagle_bone.Common.Int.{ℤ, pos}
use bharatiya_beagle_bone.Soem.Frame.{word_at}
use bharatiya_beagle_bone.Soem.Base.{positive}
use bharatiya_beagle_bone.Soem.Coe.{
  Mail, Returned, done, unfinished, crashed, sdoreq, sdo_down_init, sdo_down_exp, sdo_down_init_ca,
  long_bytes, empty_mbx, coe_message, command, is_response, ask, refuse,
}

-- The length and the command of a segment, before the toggle bit.
unfoldable pub segment_length : Bool → ℕ → ℕ
segment_length last framedatasize =
    if last && ltb framedatasize 7 then 0x0a else u16 (framedatasize + 3)

unfoldable pub segment_command : Bool → ℕ → ℕ
segment_command last framedatasize =
    if last then (if ltb framedatasize 7 then 0x01 + (7 - framedatasize) * 2 else 0x01) else 0x00

-- The answer to a segment.
abbrev pub acknowledges : List ℕ → Bool
acknowledges mbx = is_response mbx && bit_and (command mbx) 0xe0 == 0x20

-- The answer to the request itself.
abbrev pub confirms : ℕ → ℕ → List ℕ → Bool
confirms index subindex mbx =
    is_response mbx && word_at mbx 9 == index && get_or mbx 11 0 == subindex

module _ {S : Type 0} (mail : Mail S) (slave index subindex timeout : ℕ) where
  -- An answer that is none of the expected is reported, and the result is 0.
  unfoldable pub check_answer : (List ℕ → Bool) → ℤ → List ℕ → S → ℤ × Bool × S
  unfolding refuse
  check_answer expected wkc answer s =
      if positive wkc && not (expected answer)
      then (pos 0, true, refuse mail slave index subindex answer s)
      else (wkc, false, s)

  -- The loop over the segments, for at most so many: `at` is where the rest of the parameter
  -- begins, and psize how long it is; `toggle` is 0 or 0x10.
  unfoldable pub download_segments :
      ℕ → ℕ → List ℕ → ℕ → ℕ → ℕ → List ℕ → List ℕ → S → Returned ℤ × S
  unfolding segment_length segment_command coe_message ask check_answer
  download_segments zero maxdata p at psize toggle out mbxin s = (unfinished, s)
  download_segments (suc rounds) maxdata p at psize toggle out mbxin s =
      let last = leb psize maxdata in
      let framedatasize = if last then psize else maxdata in
      let (cnt, s1) = mail.next_cnt slave s in
      let request = memcpy out 0 (
        coe_message (segment_length last framedatasize) cnt 0 sdoreq
          ((segment_command last framedatasize + toggle) ∷ bytes_at p at framedatasize)) in
      let ((got, answer), s2) = ask mail slave request mbxin timeout s1 in
      let (wkc, refused, s3) = check_answer acknowledges got answer s2 in
      let rest =
        download_segments rounds maxdata p (at + framedatasize) (psize - framedatasize)
          (0x10 - toggle) request answer s3 in
      if last || refused then (done wkc, s3) else rest

  -- Four bytes at most: the message has the value in it. A size of 0 is sent as 4.
  unfoldable pub download_expedited : ℕ → List ℕ → List ℕ → S → Returned ℤ × S
  unfolding coe_message ask check_answer
  download_expedited psize p mbxin s =
      let (cnt, s1) = mail.next_cnt slave s in
      let cmd = bit_or sdo_down_exp (bit_and ((4 - psize) * 4) 0x0c) in
      let request = memcpy empty_mbx 0 (
        coe_message 0x0a cnt 0 sdoreq
          (cmd ∷ byte0 index ∷ byte1 index ∷ subindex ∷ bytes_at p 0 psize)) in
      let ((got, answer), s2) = ask mail slave request mbxin timeout s1 in
      let (wkc, _, s3) = check_answer (confirms index subindex) got answer s2 in (done wkc, s3)

  -- Any other: the request has the size and as much of the value as the mailbox takes.
  unfoldable pub download_normal : ℕ → ℕ → Bool → ℕ → List ℕ → List ℕ → S → Returned ℤ × S
  unfolding coe_message ask check_answer download_segments
  download_normal rounds maxdata ca psize p mbxin s =
      let last = leb psize maxdata in
      let framedatasize = if last then psize else maxdata in
      let (cnt, s1) = mail.next_cnt slave s in
      let cmd = if ca then sdo_down_init_ca else sdo_down_init in
      let sub = if ca && ltb 1 subindex then 1 else subindex in
      let request = memcpy empty_mbx 0 (
        coe_message (u16 (0x0a + framedatasize)) cnt 0 sdoreq (
          cmd ∷ byte0 index ∷ byte1 index ∷ sub ∷ long_bytes psize (bytes_at p 0 framedatasize))) in
      let ((got, answer), s2) = ask mail slave request mbxin timeout s1 in
      let (wkc, refused, s3) = check_answer (confirms index sub) got answer s2 in
      let rest =
        download_segments rounds (maxdata + 7) p framedatasize (psize - framedatasize) 0 request
          answer s3 in
      if positive got && not refused && not last then rest else (done wkc, s3)

-- `ecx_SDOwrite`. A mailbox with less than 16 bytes leaves no room for the request's data: the size
-- that is copied is negative.
unfoldable pub sdowrite :
    {S : Type 0} → Mail S → ℕ → ℕ → ℕ → ℕ → Bool → ℕ → List ℕ → ℕ → S → Returned ℤ × S
unfolding download_expedited download_normal
sdowrite mail rounds slave index subindex ca psize p timeout s =
    let ((_, mbxin), s1) = mail.receive slave empty_mbx 0 s in
    let size = mail.mbx_l slave s1 in
    if leb psize 4 && not ca
    then download_expedited mail slave index subindex timeout psize p mbxin s1
    else if ltb size 0x10
    then (crashed, s1)
    else download_normal mail slave index subindex timeout rounds (size - 0x10) ca psize p mbxin s1
