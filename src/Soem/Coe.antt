-- ===== src/Soem/Coe.antt =====
-- soem/ethercatcoe.c: the messages of CANopen over EtherCAT, over a record of what the functions use
-- of the mailbox and of the list of errors.
pub mod Port
pub mod Upload
pub mod Download
pub mod Pdo
pub mod Mapping
pub mod Complete
mod Tests
use bharatiya_beagle_bone.Common.{
  ℕ, ◌+◌, ◌*◌, ◌/◌, Bool, ◌==◌, ◌&&◌, if◌then◌else◌, List, ◌∷◌, get_or, replicate, byte0, byte1, u8,
  memcpy, Run,
}
use bharatiya_beagle_bone.Common.Int.{ℤ}
use bharatiya_beagle_bone.Soem.Frame.{word_at}
use bharatiya_beagle_bone.Soem.Base.{positive}
use bharatiya_beagle_bone.Soem.Mailbox.{ec_maxmbx, clearmbx}
use bharatiya_beagle_bone.Soem.Mailbox.Receive.{mbxtype, mbxt_coe}

-- What the functions of this file use of the library, with a state S: `ecx_mbxsend`,
-- `ecx_mbxreceive`, the next value of a slave's counter, which is stored, the size of a slave's
-- mailbox, `ecx_SDOerror` and `ecx_packeterror`.
pub record Mail (S : Type 0) : Type 0 where
  pub send : ℕ → List ℕ → ℕ → Run S ℤ
  pub receive : ℕ → List ℕ → ℕ → Run S (ℤ × List ℕ)
  pub next_cnt : ℕ → Run S ℕ
  pub mbx_l : ℕ → S → ℕ
  pub sdo_error : ℕ → ℕ → ℕ → ℕ → S → S
  pub packet_error : ℕ → ℕ → ℕ → ℕ → S → S

-- How a function ends: with a result, behind the rounds that it was given, or in a `memcpy` of a
-- negative size.
pub data Returned (A : Type 0) : Type 0 where
  done : A → Returned A
  unfinished : Returned A
  crashed : Returned A

-- What follows a result; a function that does not return one is not left.
abbrev pub then_with : {A B S : Type 0} → Returned A × S → (A → S → Returned B × S) → Returned B × S
then_with (done a, s) k = k a s
then_with (unfinished, s) k = (unfinished, s)
then_with (crashed, s) k = (crashed, s)

abbrev pub ec_timeouttxm : ℕ
ec_timeouttxm = 20000

abbrev pub ec_timeoutrxm : ℕ
ec_timeoutrxm = 700000

-- Services: ECT_COES_SDOREQ and ECT_COES_SDORES
abbrev pub sdoreq : ℕ
sdoreq = 2

abbrev pub sdores : ℕ
sdores = 3

-- Commands of a service
abbrev pub sdo_down_init : ℕ
sdo_down_init = 0x21

abbrev pub sdo_down_exp : ℕ
sdo_down_exp = 0x23

abbrev pub sdo_down_init_ca : ℕ
sdo_down_init_ca = 0x31

abbrev pub sdo_up_req : ℕ
sdo_up_req = 0x40

abbrev pub sdo_up_req_ca : ℕ
sdo_up_req_ca = 0x50

abbrev pub sdo_seg_up_req : ℕ
sdo_seg_up_req = 0x60

abbrev pub sdo_abort : ℕ
sdo_abort = 0x80

-- Four bytes at an offset, low byte first.
abbrev pub long_at : List ℕ → ℕ → ℕ
long_at xs at = word_at xs at + 65536 * word_at xs (at + 2)

abbrev pub long_bytes : ℕ → List ℕ → List ℕ
long_bytes v rest = byte0 v ∷ byte1 v ∷ byte0 (v / 65536) ∷ byte1 (v / 65536) ∷ rest

-- A buffer behind `ec_clearmbx`. Its last byte, which is not cleared, is never sent.
abbrev pub empty_mbx : List ℕ
empty_mbx = replicate (ec_maxmbx + 1) 0

-- The start of a message: the mailbox header, the CANopen word, and what follows.
unfoldable pub coe_message : ℕ → ℕ → ℕ → ℕ → List ℕ → List ℕ
coe_message len cnt number service rest =
    let canopen = number + service * 4096 in
    byte0 len
    ∷ byte1 len
    ∷ 0
    ∷ 0
    ∷ 0
    ∷ u8 (mbxt_coe + u8 (cnt * 16))
    ∷ byte0 canopen
    ∷ byte1 canopen
    ∷ rest

-- The command byte of an SDO message.
abbrev pub command : List ℕ → ℕ
command mbx = get_or mbx 8 0

-- A CoE message with an answer to an SDO request.
abbrev pub is_response : List ℕ → Bool
is_response mbx = mbxtype mbx == mbxt_coe && word_at mbx 6 / 4096 == sdores

module _ {S : Type 0} (mail : Mail S) where
  -- Sending a message and, when it is placed, reading the answer into a cleared buffer.
  unfoldable pub ask : ℕ → List ℕ → List ℕ → ℕ → Run S (ℤ × List ℕ)
  unfolding clearmbx
  ask slave out mbxin timeout s =
      let (sent, s1) = mail.send slave out ec_timeouttxm s in
      let answer = mail.receive slave (clearmbx mbxin) timeout s1 in
      if positive sent then answer else ((sent, mbxin), s1)

  -- The report of an unexpected answer: an abort with its code, or any other.
  unfoldable pub refuse : ℕ → ℕ → ℕ → List ℕ → S → S
  refuse slave index subindex mbxin s =
      if command mbxin == sdo_abort
      then mail.sdo_error slave index subindex (long_at mbxin 12) s
      else mail.packet_error slave index subindex 1 s
