-- ===== src/Soem/Nic/Receive.antt =====
-- oshw/linux/nicdrv.c: filing what the sockets receive, and waiting for an answer.
use bharatiya_beagle_bone.Common.{
  ℕ, ◌+◌, ◌-◌, ◌*◌, Bool, true, false, ltb, ◌==◌, ◌&&◌, ◌||◌, if◌then◌else◌, List, [], ◌∷◌, get_or,
  set, bit_and, memcpy, bytes_at, Run, do_while, ◌||◌,
}
use bharatiya_beagle_bone.Common.Int.{ℤ, pos, leb_ℤ}
use bharatiya_beagle_bone.Soem.Frame.{word_at, eth_headersize}
use bharatiya_beagle_bone.Soem.Nic.{
  ec_maxbuf, buf_tx, buf_rcvd, buf_complete, ec_noframe, ec_otherframe, ec_timeoutret, rx_prim,
  rx_sec, Wire, Stack, Port, Net, stack_of, with_stack, set_stat, frame_of, rx_of, net_word_at,
  on_port, outframe, outframe_red,
}

-- The working counter of an answer in a receive buffer, behind the datagrams.
abbrev pub wkc_of : List ℕ → ℕ → ℤ
wkc_of rx l = pos (word_at rx l)

-- The answer in `tempbuf` goes to the buffer of its index.
unfoldable pub file_answer : ℕ → ℕ → ℕ → Stack → Stack
file_answer idx bufstat len s =
    let rx = memcpy (get_or s.rxbuf idx []) 0 (bytes_at s.tempbuf eth_headersize len) in
    record s {
      rxbuf = set s.rxbuf idx rx;
      rxbufstat = set s.rxbufstat idx bufstat;
      rxsa = set s.rxsa idx (net_word_at s.tempbuf 8);
    }

-- What `ecx_inframe` does with a frame in `tempbuf`: its result and the stack.
unfoldable pub sort_frame : (ℕ → ℕ) → ℕ → Stack → ℤ × Stack
unfolding file_answer
sort_frame len idx s =
    let l = bit_and (word_at s.tempbuf eth_headersize) 0x0fff in
    let idxf = get_or s.tempbuf (eth_headersize + 3) 0 in
    let mine = file_answer idx buf_complete (len idx) s in
    if net_word_at s.tempbuf 12 == 0x88a4
    then if idxf == idx
      then (wkc_of (get_or mine.rxbuf idx []) l, mine)
      else if ltb idxf ec_maxbuf && (get_or s.rxbufstat idxf 0 == buf_tx)
      then (ec_otherframe, file_answer idxf buf_rcvd (len idxf) s)
      else (ec_otherframe, s)
    else (ec_otherframe, s)

-- The branch of `ecx_inframe` for an answer that another call has filed.
unfoldable pub take_filed : ℕ → Stack → ℤ × Stack
take_filed idx s =
    let rx = get_or s.rxbuf idx [] in
    let l = get_or rx 0 0 + 256 * bit_and (get_or rx 1 0) 0x0f in
    (wkc_of rx l, set_stat idx buf_complete s)

abbrev pub any : List ℕ → Bool
any [] = false
any (x ∷ xs) = true

module _ {W : Type 0} (wire : Wire W) where
  -- `ecx_recvpkt`
  unfoldable pub recvpkt : Bool → Run (Net W) Bool
  recvpkt second n =
      let (got, w) = wire.recv second n.world in
      (
        any got,
        record {
          port = with_stack second (λ s. record s { tempbuf = memcpy s.tempbuf 0 got }) n.port;
          world = w;
        },
      )

  -- `ecx_inframe`
  unfoldable pub inframe : ℕ → Bool → Run (Net W) ℤ
  unfolding recvpkt sort_frame take_filed
  inframe idx second n =
      let s = stack_of second n.port in
      let (filed_wkc, filed) = take_filed idx s in
      let (got, n1) = recvpkt second n in
      let len = λ (i : ℕ). (frame_of n1.port i).txbuflength - eth_headersize in
      let (wkc, sorted) = sort_frame len idx (stack_of second n1.port) in
      if ltb idx ec_maxbuf && (get_or s.rxbufstat idx 0 == buf_rcvd)
      then (filed_wkc, on_port wire (with_stack second (λ _. filed)) n)
      else if got
      then (wkc, on_port wire (with_stack second (λ _. sorted)) n1)
      else (ec_noframe, n1)

  -- No answer yet: `wkc <= EC_NOFRAME`.
  abbrev pub waiting : ℤ → Bool
  waiting wkc = leb_ℤ wkc ec_noframe

  -- One receipt on a socket, where its answer is still awaited.
  unfoldable pub poll_socket : ℕ → Bool → ℤ → Run (Net W) ℤ
  unfolding inframe
  poll_socket idx second wkc n = if waiting wkc then inframe idx second n else (wkc, n)

  -- One pass of the first loop of `ecx_waitinframe_red`, over both counters.
  unfoldable pub poll_both : ℕ → ℤ × ℤ → Run (Net W) (ℤ × ℤ)
  unfolding poll_socket
  poll_both idx wkcs n =
      let (got, n1) = poll_socket idx false wkcs.0 n in
      let (got2, n2) = if n.port.redundant then poll_socket idx true wkcs.1 n1 else (wkcs.1, n1) in
      ((got, got2), n2)

  -- The source that a frame came in with, or 0 if it did not come.
  abbrev pub source_of : ℤ → Stack → ℕ → ℕ
  source_of wkc s idx = if waiting wkc then 0 else get_or s.rxsa idx 0

  -- The receive buffer of the secondary socket, over that of the primary one.
  unfoldable pub take_secondary : ℕ → Port → Port
  take_secondary idx p =
      let bytes = get_or p.secondary.rxbuf idx [] in
      let len = (frame_of p idx).txbuflength - eth_headersize in
      let rx = memcpy (rx_of p idx) 0 (bytes_at bytes 0 len) in
      record p { primary = record (p.primary) { rxbuf = set p.primary.rxbuf idx rx } }

  -- What came in on the primary socket is what goes out on the secondary one.
  unfoldable pub put_back : ℕ → Port → Port
  put_back idx p =
      let f = frame_of p idx in
      let bytes =
        memcpy f.bytes eth_headersize (bytes_at (rx_of p idx) 0 (f.txbuflength - eth_headersize)) in
      record p { txframes = set p.txframes idx (record f { bytes = bytes }) }

  -- The frame went one way only, or the ring is open: it goes out once more on the secondary socket.
  unfoldable pub resend : ℕ → ℤ → Run (Net W) ℤ
  unfolding inframe take_secondary outframe
  resend idx wkc n =
      let polls = wire.polls ec_timeoutret n.world in
      let (_, n1) = outframe wire idx true n in
      let (wkc2, n2) = do_while waiting (λ _. inframe idx true) polls ec_noframe n1 in
      if waiting wkc2 then (wkc, n2) else (wkc2, on_port wire (take_secondary idx) n2)

  -- The part of `ecx_waitinframe_red` behind its first loop, with redundancy.
  unfoldable pub settle : ℕ → ℤ → ℤ → Run (Net W) ℤ
  unfolding take_secondary put_back resend
  settle idx wkc wkc2 n =
      let primrx = source_of wkc n.port.primary idx in
      let secrx = source_of wkc2 n.port.secondary idx in
      let back = if primrx == rx_prim then on_port wire (put_back idx) n else n in
      if (primrx == rx_sec) && (secrx == rx_prim)
      then (wkc2, on_port wire (take_secondary idx) n)
      else if ((primrx == 0) && (secrx == rx_sec)) || ((primrx == rx_prim) && (secrx == rx_sec))
      then resend idx wkc back
      else (wkc, n)

  -- `ecx_waitinframe_red`
  unfoldable pub waitinframe_red : ℕ → ℕ → Run (Net W) ℤ
  unfolding poll_both settle
  waitinframe_red polls idx n =
      let none2 = if n.port.redundant then ec_noframe else pos 0 in
      let (wkcs, n1) =
        do_while (λ (w : ℤ × ℤ). waiting w.0 || waiting w.1) (poll_both idx) polls
          (ec_noframe, none2) n in
      if n.port.redundant then settle idx wkcs.0 wkcs.1 n1 else (wkcs.0, n1)

  -- `ecx_waitinframe`
  unfoldable pub waitinframe : ℕ → ℕ → Run (Net W) ℤ
  unfolding waitinframe_red
  waitinframe idx timeout n = waitinframe_red (wire.polls timeout n.world) idx n

  -- One pass of the loop of `ecx_srconfirm`.
  unfoldable pub send_and_wait : ℕ → ℕ → ℤ → Run (Net W) ℤ
  unfolding waitinframe outframe_red
  send_and_wait idx timeout _ n =
      let (_, n1) = outframe_red wire idx n in
      waitinframe idx (if ltb timeout ec_timeoutret then timeout else ec_timeoutret) n1

  -- `ecx_srconfirm`
  unfoldable pub srconfirm : ℕ → ℕ → Run (Net W) ℤ
  unfolding send_and_wait
  srconfirm idx timeout n =
      do_while waiting (send_and_wait idx timeout) (wire.polls timeout n.world) ec_noframe n
