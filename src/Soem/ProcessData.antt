-- ===== src/Soem/ProcessData.antt =====
-- soem/ethercatmain.c: the cyclic exchange of the process data of a group, from `ecx_pushindex` on.
mod Carried
pub mod Segments
pub mod Receiving
mod Tests
use bharatiya_beagle_bone.Common.{
  ℕ, zero, suc, ◌+◌, ◌-◌, ◌*◌, Bool, true, false, Option, none, some, ltb, ◌==◌, ◌&&◌, ◌||◌, not,
  if◌then◌else◌, List, [], ◌∷◌, get_or, set, u16, u32, memcpy, bytes_at, Run, do_while,
}
use bharatiya_beagle_bone.Common.Int.{ℤ, pos, negsuc, pos_part, ◌-ℤ◌, ltb_ℤ}
use bharatiya_beagle_bone.Soem.Frame.{
  Cmd, code, frmw, lrd, lwr, lrw, ec_headersize, word_at, Frame, add_datagram,
}
use bharatiya_beagle_bone.Soem.Nic.{
  Wire, Net, ec_maxbuf, buf_empty, ec_noframe, frame_of, rx_of, on_port, outframe_red, setbufstat,
}
use bharatiya_beagle_bone.Soem.Nic.Receive.{waiting, waitinframe}
use bharatiya_beagle_bone.Soem.Base.{
  reg_dcsystime, lo_word, hi_word, answer_cmd, put_frame, prepare,
}
use bharatiya_beagle_bone.Soem.Slaves.{Slave, Group, IdxStack, Context, slave_of, on_net}

-- `ecx_pushindex`
unfoldable pub pushindex : ℕ → ℕ → ℕ → ℕ → IdxStack → IdxStack
pushindex idx place len dco s =
    if ltb s.pushed ec_maxbuf
    then record {
      pushed = s.pushed + 1;
      pulled = s.pulled;
      idx = set s.idx s.pushed idx;
      places = set s.places s.pushed place;
      lengths = set s.lengths s.pushed len;
      dcoffset = set s.dcoffset s.pushed dco;
    }
    else s

-- `ecx_pullindex`: -1 is `none`.
unfoldable pub pullindex : IdxStack → Option ℕ × IdxStack
pullindex s =
    if ltb s.pulled s.pushed then (some s.pulled, record s { pulled = s.pulled + 1 }) else (none, s)

-- `pos >= 0`
abbrev pub is_some : Option ℕ → Bool
is_some none = false
is_some (some p) = true

-- `ecx_clearindex`
unfoldable pub clearindex : IdxStack → IdxStack
clearindex s = record s { pushed = 0; pulled = 0 }

abbrev no_group : Group
no_group = record {
  obytes = 0;
  outputs = 0;
  ibytes = 0;
  inputs = 0;
  logstartaddr = 0;
  hasdc = false;
  dcnext = 0;
  blocklrw = 0;
  nsegments = 0;
  isegment = 0;
  ioffset = 0;
  iosegment = [];
}

-- The variables of the loops of `ecx_main_send_processdata`.
pub record Sending : Type 0 where
  pub left : ℤ
  pub logadr : ℕ
  pub place : ℕ
  pub segment : ℕ
  pub first : Bool

module _ {W : Type 0} (wire : Wire W) where
  abbrev pub group_of : Context W → ℕ → Group
  group_of c group = get_or c.grouplist group no_group

  -- `length && (currentsegment < nsegments)`
  abbrev pub more_segments : Group → Sending → Bool
  more_segments g s = ltb s.segment g.nsegments && not_zero s.left
    where
      not_zero : ℤ → Bool
      not_zero (pos n) = not (n == 0)
      not_zero (negsuc n) = true

  -- The clock's datagram behind the first frame's process data: the frame, and the place of the
  -- clock in the answer, or 0.
  unfoldable pub add_clock : Group → Bool → ℕ → Context W → Frame → Frame × ℕ
  unfolding add_datagram
  add_clock g first idx c f =
      if first
      then add_datagram frmw idx false (slave_of wire c g.dcnext).configadr reg_dcsystime 8 c.dctime
          f
      else (f, 0)

  -- The part that the three loops share: a frame for so many bytes of the image goes out, and the
  -- stack notes where its answer belongs.
  unfoldable pub send_segment : Cmd → Group → ℕ → ℕ → Sending → Context W → Sending × Context W
  unfolding prepare add_clock put_frame outframe_red pushindex
  send_segment cmd g inputoffset len s c =
      let bytes = bytes_at c.iomap s.place len in
      let (idx, n1) = prepare wire cmd (lo_word s.logadr) (hi_word s.logadr) len bytes c.net in
      let (framed, dco) = add_clock g s.first idx c (frame_of n1.port idx) in
      let (_, n2) = outframe_red wire idx (on_port wire (put_frame idx framed) n1) in
      (
        record {
          left = s.left -ℤ pos len;
          logadr = u32 (s.logadr + len);
          place = s.place + len;
          segment = s.segment + 1;
          first = false;
        },
        record c { net = n2; idxstack = pushindex idx (s.place + inputoffset) len dco c.idxstack },
      )

  -- The size of a segment; the first one with inputs starts at an offset.
  unfoldable pub input_length : Group → ℕ → ℕ
  input_length g segment =
      let size = get_or g.iosegment segment 0 in
      if segment == g.isegment then u16 (size + 4294967296 - g.ioffset) else u16 size

  -- The size of a segment with outputs, of which the last may hold more.
  unfoldable pub output_length : Group → Sending → ℕ
  output_length g s =
      let size = u16 (get_or g.iosegment s.segment 0) in
      if ltb_ℤ (s.left -ℤ pos size) (pos 0) then u16 (pos_part s.left) else size

  unfoldable pub send_input : Group → Sending → Context W → Sending × Context W
  unfolding send_segment input_length
  send_input g s = send_segment lrd g 0 (input_length g s.segment) s

  unfoldable pub send_output : Group → Sending → Context W → Sending × Context W
  unfolding send_segment output_length
  send_output g s = send_segment lwr g 0 (output_length g s) s

  unfoldable pub send_both : Group → ℕ → Sending → Context W → Sending × Context W
  unfolding send_segment
  send_both g inputoffset s =
      send_segment lrw g inputoffset (u16 (get_or g.iosegment s.segment 0)) s

  -- Inputs and then outputs, for slaves that do not know LRW. A loop takes a segment at each pass,
  -- so there are no more passes than segments.
  unfoldable pub send_apart : Group → Context W → Context W
  unfolding send_input send_output
  send_apart g c =
      let from_inputs : Sending = record {
        left = pos g.ibytes;
        logadr = u32 (g.logstartaddr + g.obytes);
        place = g.inputs;
        segment = g.isegment;
        first = g.hasdc;
      } in
      let (_, ci) = do_while (more_segments g) (send_input g) g.nsegments from_inputs c in
      let c1 = if g.ibytes == 0 then c else ci in
      let from_outputs : Sending = record {
        left = pos g.obytes;
        logadr = g.logstartaddr;
        place = g.outputs;
        segment = 0;
        first = g.hasdc && (g.ibytes == 0);
      } in
      let (_, co) = do_while (more_segments g) (send_output g) g.nsegments from_outputs c1 in
      if g.obytes == 0 then c1 else co

  -- `ecx_main_send_processdata`
  unfoldable pub send_processdata : ℕ → Bool → Context W → ℕ × Context W
  unfolding send_apart send_both
  send_processdata group overlap c =
      let g = group_of c group in
      let both = g.obytes + g.ibytes in
      let most = if ltb g.ibytes g.obytes then g.obytes else g.ibytes in
      let len = if overlap then most else both in
      let inputoffset = if overlap && not (g.obytes == 0) then g.obytes else 0 in
      let start : Sending = record {
        left = pos len;
        logadr = g.logstartaddr;
        place = if g.obytes == 0 then g.inputs else g.outputs;
        segment = 0;
        first = g.hasdc;
      } in
      let (_, together) =
        do_while (more_segments g) (send_both g inputoffset) g.nsegments start c in
      if len == 0 then (0, c) else (1, if g.blocklrw == 0 then together else send_apart g c)
