-- ===== src/Soem/Nic.antt =====
-- oshw/linux/nicdrv.c: the frame buffers of a port, and sending and receiving over its sockets.
-- The sockets, the clock and the timers are a parameter, `Wire`. A timer is the number of times
-- that it will be found not expired.
pub mod Index
pub mod Receive
pub mod Free
pub mod Owned
pub mod Filing
mod Tests
use bharatiya_beagle_bone.Common.{
  ℕ, zero, suc, ◌+◌, ◌-◌, ◌*◌, ◌/◌, ◌%◌, Bool, true, false, ltb, leb, ◌==◌, ◌&&◌, ◌||◌, not,
  if◌then◌else◌, List, [], ◌∷◌, get_or, set, bit_and, memcpy, bytes_at, Run, ◌>>=◌, ◌>>◌, pure,
}
use bharatiya_beagle_bone.Common.Int.{ℤ, pos, negsuc, leb_ℤ, ltb_ℤ}
use bharatiya_beagle_bone.Soem.Frame.{Frame, word_at}

abbrev pub ec_maxbuf : ℕ
ec_maxbuf = 16

-- EC_BUF_EMPTY and what follows it
abbrev pub buf_empty : ℕ
buf_empty = 0

abbrev pub buf_alloc : ℕ
buf_alloc = 1

abbrev pub buf_tx : ℕ
buf_tx = 2

abbrev pub buf_rcvd : ℕ
buf_rcvd = 3

abbrev pub buf_complete : ℕ
buf_complete = 4

abbrev pub ec_noframe : ℤ
ec_noframe = negsuc 0

abbrev pub ec_otherframe : ℤ
ec_otherframe = negsuc 1

abbrev pub ec_timeoutret : ℕ
ec_timeoutret = 2000

-- The second word of each source address tells the two sockets apart.
abbrev pub rx_prim : ℕ
rx_prim = 0x0101

abbrev pub rx_sec : ℕ
rx_sec = 0x0404

-- `rval == -1`
abbrev pub send_failed : ℤ → Bool
send_failed (pos n) = false
send_failed (negsuc n) = n == 0

pub record Wire (W : Type 0) : Type 0 where
  -- `send` and `recv` of a socket, the secondary one with `true`; nothing received is [].
  pub send : Bool → List ℕ → W → ℤ × W
  pub recv : Bool → W → List ℕ × W
  -- How often a timer of so many microseconds, started now, is found not expired.
  pub polls : ℕ → W → ℕ
  pub usleep : ℕ → W → W
  pub current_time : W → ℕ × W

-- What a socket's stack reaches besides the frames to send, which both share.
pub record Stack : Type 0 where
  pub rxbuf : List (List ℕ)
  pub rxbufstat : List ℕ
  pub rxsa : List ℕ
  pub tempbuf : List ℕ

-- ecx_portt with its redport
pub record Port : Type 0 where
  pub primary : Stack
  pub secondary : Stack
  pub redundant : Bool
  pub txframes : List Frame
  pub txframe2 : Frame
  pub lastidx : ℕ

-- A port and the world behind it.
pub record Net (W : Type 0) : Type 0 where
  pub port : Port
  pub world : W

abbrev pub stack_of : Bool → Port → Stack
stack_of second p = if second then p.secondary else p.primary

abbrev pub with_stack : Bool → (Stack → Stack) → Port → Port
with_stack second f p =
    if second then record p { secondary = f p.secondary } else record p { primary = f p.primary }

abbrev pub set_stat : ℕ → ℕ → Stack → Stack
set_stat idx bufstat s = record s { rxbufstat = set s.rxbufstat idx bufstat }

abbrev pub empty_frame : Frame
empty_frame = record { bytes = []; txbuflength = 0 }

abbrev pub frame_of : Port → ℕ → Frame
frame_of p idx = get_or p.txframes idx empty_frame

abbrev pub rx_of : Port → ℕ → List ℕ
rx_of p idx = get_or p.primary.rxbuf idx []

-- A word in network order: `ntohs`.
abbrev pub net_word_at : List ℕ → ℕ → ℕ
net_word_at xs at = get_or xs at 0 * 256 + get_or xs (at + 1) 0

unfoldable pub next_index : ℕ → ℕ
next_index idx = if leb ec_maxbuf (idx + 1) then 0 else idx + 1

-- The search of `ecx_getindex`, with the number of steps that it may still take.
unfoldable pub find_empty : List ℕ → ℕ → ℕ → ℕ
unfolding next_index
find_empty stat idx zero = idx
find_empty stat idx (suc left) =
    let rest = find_empty stat (next_index idx) left in
    if get_or stat idx 0 == buf_empty then idx else rest

-- `ecx_setbufstat`
unfoldable pub setbufstat : ℕ → ℕ → Port → Port
setbufstat idx bufstat p =
    let p1 = with_stack false (set_stat idx bufstat) p in
    if p.redundant then with_stack true (set_stat idx bufstat) p1 else p1

-- `ecx_getindex`
unfoldable pub getindex : Port → ℕ × Port
unfolding find_empty setbufstat
getindex p =
    let idx = find_empty p.primary.rxbufstat (next_index p.lastidx) ec_maxbuf in
    (idx, record (setbufstat idx buf_alloc p) { lastidx = idx })

module _ {W : Type 0} (wire : Wire W) where
  -- A step of the port alone, and one of the world alone.
  abbrev pub on_port : (Port → Port) → Net W → Net W
  on_port f n = record n { port = f n.port }

  abbrev put_world : Net W → W → Net W
  put_world n w = record n { world = w }

  -- `ecx_outframe`
  unfoldable pub outframe : ℕ → Bool → Run (Net W) ℤ
  outframe idx second n =
      let f = frame_of n.port idx in
      let p1 = with_stack second (set_stat idx buf_tx) n.port in
      let (rval, w) = wire.send second (bytes_at f.bytes 0 f.txbuflength) n.world in
      let p2 = if send_failed rval then with_stack second (set_stat idx buf_empty) p1 else p1 in
      (rval, record { port = p2; world = w })

  -- The source address and the index that `ecx_outframe_red` writes into the frames.
  unfoldable pub set_source : ℕ → Frame → Frame
  set_source word f = record f { bytes = memcpy f.bytes 8 (word / 256 ∷ word % 256 ∷ []) }

  unfoldable pub set_frame_index : ℕ → Frame → Frame
  set_frame_index idx f = record f { bytes = set f.bytes 17 idx }

  -- The second frame of `ecx_outframe_red`, which goes out on the secondary socket.
  unfoldable pub out_secondary : ℕ → Net W → Net W
  unfolding set_source set_frame_index
  out_secondary idx n =
      let dummy = set_source rx_sec (set_frame_index idx n.port.txframe2) in
      let p1 = with_stack true (set_stat idx buf_tx) (record (n.port) { txframe2 = dummy }) in
      let (sent, w) = wire.send true (bytes_at dummy.bytes 0 dummy.txbuflength) n.world in
      record {
        port = if send_failed sent then with_stack true (set_stat idx buf_empty) p1 else p1;
        world = w;
      }

  -- `ecx_outframe_red`
  unfoldable pub outframe_red : ℕ → Run (Net W) ℤ
  unfolding outframe set_source out_secondary
  outframe_red idx n =
      let sourced = set n.port.txframes idx (set_source rx_prim (frame_of n.port idx)) in
      let (rval, n1) = outframe idx false (on_port (λ p. record p { txframes = sourced }) n) in
      (rval, if n.port.redundant then out_secondary idx n1 else n1)
