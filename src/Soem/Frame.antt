-- ===== src/Soem/Frame.antt =====
-- ethercatbase.c: the datagrams of a frame in its buffer.
pub mod Setup
pub mod Adding
mod Tests
use bharatiya_beagle_bone.Common.{
  ℕ, ◌+◌, ◌-◌, Bool, true, false, ltb, if◌then◌else◌, List, [], ◌∷◌, get_or, replicate, bit_or,
  byte0, byte1, join16, u16, memcpy, bytes_at,
}

-- ec_cmdtype
pub data Cmd : Type 0 where
  nop aprd apwr aprw fprd fpwr fprw brd bwr brw lrd lwr lrw armw frmw : Cmd

abbrev pub code : Cmd → ℕ
code nop = 0
code aprd = 1
code apwr = 2
code aprw = 3
code fprd = 4
code fpwr = 5
code fprw = 6
code brd = 7
code bwr = 8
code brw = 9
code lrd = 10
code lwr = 11
code lrw = 12
code armw = 13
code frmw = 14

abbrev pub eth_headersize : ℕ
eth_headersize = 14

abbrev pub ec_headersize : ℕ
ec_headersize = 12

abbrev pub ec_elengthsize : ℕ
ec_elengthsize = 2

abbrev pub ec_wkcsize : ℕ
ec_wkcsize = 2

abbrev pub ec_ecattype : ℕ
ec_ecattype = 0x1000

abbrev pub ec_datagramfollows : ℕ
ec_datagramfollows = 0x8000

-- One buffer of `txbuf` and its entry of `txbuflength`.
pub record Frame : Type 0 where
  pub bytes : List ℕ
  pub txbuflength : ℕ

-- A word at an offset, low byte first: `etohs` and `htoes` of a little-endian field.
abbrev pub word_at : List ℕ → ℕ → ℕ
word_at xs at = join16 (get_or xs at 0) (get_or xs (at + 1) 0)

abbrev pub word_bytes : ℕ → List ℕ
word_bytes w = byte0 w ∷ byte1 w ∷ []

-- What the payload of a command is: zeros for one that only reads, the data for the others.
unfoldable pub payload : Cmd → ℕ → List ℕ → List ℕ
payload nop n bytes = replicate n 0
payload aprd n bytes = replicate n 0
payload fprd n bytes = replicate n 0
payload brd n bytes = replicate n 0
payload lrd n bytes = replicate n 0
payload _ n bytes = bytes_at bytes 0 n

-- `ecx_writedatagramdata` at an offset of the frame.
unfoldable pub write_datagram_data : ℕ → Cmd → ℕ → List ℕ → List ℕ → List ℕ
unfolding payload
write_datagram_data at cmd n bytes frame =
    if ltb 0 n then memcpy frame at (payload cmd n bytes) else frame

-- The fields of the header from `command` to `dlength`; `irpt` behind them is not written.
unfoldable pub write_header : ℕ → Cmd → ℕ → ℕ → ℕ → ℕ → List ℕ → List ℕ
write_header at cmd idx adp ado dlength frame = memcpy frame at (
    code cmd
    ∷ idx
    ∷ byte0 adp
    ∷ byte1 adp
    ∷ byte0 ado
    ∷ byte1 ado
    ∷ byte0 dlength
    ∷ byte1 dlength
    ∷ [])

-- `ecx_setupdatagram`
unfoldable pub setup_datagram : Cmd → ℕ → ℕ → ℕ → ℕ → List ℕ → Frame → Frame
unfolding write_datagram_data write_header
setup_datagram cmd idx adp ado n bytes f =
    let f1 = memcpy f.bytes eth_headersize (word_bytes (ec_ecattype + ec_headersize + n)) in
    let f2 = write_header (eth_headersize + ec_elengthsize) cmd idx adp ado n f1 in
    let f3 = write_datagram_data (eth_headersize + ec_headersize) cmd n bytes f2 in
    record {
      bytes = memcpy f3 (eth_headersize + ec_headersize + n) (0 ∷ 0 ∷ []);
      txbuflength = eth_headersize + ec_headersize + ec_wkcsize + n;
    }

-- `ecx_adddatagram`: the frame, and the offset of the data in the frame that comes back.
unfoldable pub add_datagram : Cmd → ℕ → Bool → ℕ → ℕ → ℕ → List ℕ → Frame → Frame × ℕ
unfolding write_datagram_data write_header
add_datagram cmd idx more adp ado n bytes f =
    let prev = u16 f.txbuflength in
    let elength = u16 (word_at f.bytes eth_headersize + ec_headersize + n) in
    let f1 = memcpy f.bytes eth_headersize (word_bytes elength) in
    let first = bit_or (word_at f1 (eth_headersize + 8)) ec_datagramfollows in
    let f2 = memcpy f1 (eth_headersize + 8) (word_bytes first) in
    let dlength = if more then bit_or n ec_datagramfollows else n in
    let f3 = write_header prev cmd idx adp ado dlength f2 in
    let at = prev + ec_headersize - ec_elengthsize in
    let f4 = write_datagram_data at cmd n bytes f3 in
    (
      record { bytes = memcpy f4 (at + n) (0 ∷ 0 ∷ []); txbuflength = at + ec_wkcsize + n },
      at - eth_headersize,
    )
