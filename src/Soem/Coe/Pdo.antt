-- ===== src/Soem/Coe/Pdo.antt =====
-- soem/ethercatcoe.c: process data over the mailbox, `ecx_RxPDO` and `ecx_TxPDO`.
use bharatiya_beagle_bone.Common.{
  ℕ, ◌+◌, ◌-◌, ◌/◌, ltb, leb, ◌==◌, ◌&&◌, if◌then◌else◌, List, [], bit_and, u16, memcpy, bytes_at,
}
use bharatiya_beagle_bone.Common.Int.{ℤ, pos}
use bharatiya_beagle_bone.Soem.Frame.{word_at}
use bharatiya_beagle_bone.Soem.Base.{positive}
use bharatiya_beagle_bone.Soem.Mailbox.Receive.{mbxtype, mbxt_coe}
use bharatiya_beagle_bone.Soem.Coe.{
  Mail, Returned, done, crashed, ec_timeouttxm, empty_mbx, coe_message, ask, refuse,
}
use bharatiya_beagle_bone.Soem.Coe.Upload.{Upload}

-- ECT_COES_TXPDO, ECT_COES_RXPDO and ECT_COES_TXPDO_RR
abbrev pub coes_txpdo : ℕ
coes_txpdo = 4

abbrev pub coes_rxpdo : ℕ
coes_rxpdo = 5

abbrev pub coes_txpdo_rr : ℕ
coes_txpdo_rr = 6

module _ {S : Type 0} (mail : Mail S) (slave number : ℕ) where
  -- `ecx_RxPDO`: what does not fit into the mailbox is cut off. A mailbox with less than 8 bytes
  -- makes the size that is copied negative.
  unfoldable pub rxpdo : ℕ → List ℕ → S → Returned ℤ × S
  unfolding coe_message
  rxpdo psize p s =
      let (_, s1) = mail.receive slave empty_mbx 0 s in
      let size = mail.mbx_l slave s1 in
      let framedatasize = if leb psize (size - 8) then psize else size - 8 in
      let (cnt, s2) = mail.next_cnt slave s1 in
      let request = memcpy empty_mbx 0 (
        coe_message (u16 (2 + framedatasize)) cnt (bit_and number 0x01ff) coes_rxpdo
          (bytes_at p 0 framedatasize)) in
      let (wkc, s3) = mail.send slave request ec_timeouttxm s2 in
      if ltb size 8 then (crashed, s2) else (done wkc, s3)

  -- What follows the answer to a request for process data.
  unfoldable pub txpdo_answer : ℕ → List ℕ → ℤ → List ℕ → S → Upload × S
  unfolding refuse
  txpdo_answer psize p wkc answer s =
      let framedatasize = u16 (word_at answer 0 + 65536 - 2) in
      if positive wkc
      then if mbxtype answer == mbxt_coe && word_at answer 6 / 4096 == coes_txpdo
        then if leb framedatasize psize
          then (
            record {
              wkc = wkc;
              psize = framedatasize;
              bytes = memcpy p 0 (bytes_at answer 8 framedatasize);
            },
            s,
          )
          else (record { wkc = pos 0; psize = psize; bytes = p }, mail.packet_error slave 0 0 3 s)
        else (record { wkc = pos 0; psize = psize; bytes = p }, refuse mail slave 0 0 answer s)
      else (record { wkc = wkc; psize = psize; bytes = p }, s)

  -- `ecx_TxPDO`
  unfoldable pub txpdo : ℕ → List ℕ → ℕ → S → Upload × S
  unfolding coe_message ask txpdo_answer
  txpdo psize p timeout s =
      let ((_, mbxin), s1) = mail.receive slave empty_mbx 0 s in
      let (cnt, s2) = mail.next_cnt slave s1 in
      let request =
        memcpy empty_mbx 0 (coe_message 0x02 cnt (bit_and number 0x01ff) coes_txpdo_rr []) in
      let ((wkc, answer), s3) = ask mail slave request mbxin timeout s2 in
      txpdo_answer psize p wkc answer s3
