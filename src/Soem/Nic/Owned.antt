-- ===== src/Soem/Nic/Owned.antt =====
-- The buffers beside the one of a call: while the call sends and waits, they stay free.
use bharatiya_beagle_bone.Common.{
  ℕ, ◌-◌, Bool, true, false, ltb, ◌==◌, if◌then◌else◌, get_or, set, memcpy, bytes_at, ◌&&◌, ◌||◌,
  do_while, do_while-invariant, if_both,
}
use bharatiya_beagle_bone.Common.Int.{ℤ, pos}
use bharatiya_beagle_bone.Soem.Nic.{
  Wire, ec_maxbuf, buf_empty, buf_tx, buf_rcvd, buf_complete, Net, rx_prim, rx_sec, send_failed,
  ec_noframe, ec_timeoutret, set_frame_index, frame_of, set_source, with_stack, stack_of, set_stat,
  outframe, out_secondary, outframe_red, on_port,
}
use bharatiya_beagle_bone.Soem.Nic.Receive.{
  waiting, source_of, sort_frame, take_filed, recvpkt, inframe, poll_socket, poll_both,
  take_secondary, put_back, resend, settle, waitinframe_red, waitinframe, send_and_wait, srconfirm,
}
use bharatiya_beagle_bone.Soem.Nic.Free.{
  OthersFree, set_stat-StackFree, sort_frame-StackFree, with_stack-OthersFree,
}

module _ {W : Type 0} (wire : Wire W) (idx : ℕ) where
  -- A step that leaves the other buffers free.
  abbrev pub Keeps : {A : Type 0} → (Net W → A × Net W) → Type 0
  Keeps m = (n : Net W) → OthersFree idx n.port → OthersFree idx (m n).1.port

  outframe-OthersFree : (second : Bool) → Keeps (outframe wire idx second)
  unfolding outframe
  outframe-OthersFree second n free =
      let sent =
        with_stack-OthersFree idx second (set_stat idx buf_tx) n.port
          (set_stat-StackFree idx buf_tx (stack_of second n.port)) free in
      if_both (OthersFree idx) _ _ _
        (with_stack-OthersFree idx second (set_stat idx buf_empty)
          (with_stack second (set_stat idx buf_tx) n.port)
          (set_stat-StackFree idx buf_empty
            (stack_of second (with_stack second (set_stat idx buf_tx) n.port)))
          sent)
        sent

  out_secondary-OthersFree :
      (n : Net W) → OthersFree idx n.port → OthersFree idx (out_secondary wire idx n).port
  unfolding out_secondary
  out_secondary-OthersFree n free =
      let dummy = set_source wire rx_sec (set_frame_index wire idx n.port.txframe2) in
      let p1 = with_stack true (set_stat idx buf_tx) (record (n.port) { txframe2 = dummy }) in
      let free1 =
        with_stack-OthersFree idx true (set_stat idx buf_tx) (record (n.port) { txframe2 = dummy })
          (set_stat-StackFree idx buf_tx n.port.secondary)
          (record { on_primary = free.on_primary; on_secondary = free.on_secondary }) in
      if_both (OthersFree idx)
        (send_failed (wire.send true (bytes_at dummy.bytes 0 dummy.txbuflength) n.world).0)
        (with_stack true (set_stat idx buf_empty) p1) p1
        (with_stack-OthersFree idx true (set_stat idx buf_empty) p1
          (set_stat-StackFree idx buf_empty p1.secondary) free1)
        free1

  outframe_red-OthersFree : Keeps (outframe_red wire idx)
  unfolding outframe_red
  outframe_red-OthersFree n free =
      let sourced : Net W = record n {
        port = record (n.port) {
          txframes = set n.port.txframes idx (set_source wire rx_prim (frame_of n.port idx));
        };
      } in
      let first =
        outframe-OthersFree false sourced
          (record { on_primary = free.on_primary; on_secondary = free.on_secondary }) in
      if_both (λ (m : Net W). OthersFree idx m.port) n.port.redundant _ _
        (out_secondary-OthersFree (outframe wire idx false sourced).1 first) first

  recvpkt-OthersFree : (second : Bool) → Keeps (recvpkt wire second)
  unfolding recvpkt
  recvpkt-OthersFree second n free =
      with_stack-OthersFree idx second
        (λ s. record s { tempbuf = memcpy s.tempbuf 0 (wire.recv second n.world).0 }) n.port
        (λ f j d. f j d) free

  inframe-OthersFree : (second : Bool) → Keeps (inframe wire idx second)
  unfolding inframe recvpkt take_filed
  inframe-OthersFree second n free =
      let s = stack_of second n.port in
      let filed : Net W = on_port wire (with_stack second (λ _. (take_filed idx s).1)) n in
      let got : Bool × Net W = recvpkt wire second n in
      let received = recvpkt-OthersFree second n free in
      let len = λ (i : ℕ). (frame_of got.1.port i).txbuflength - 14 in
      let sorted = sort_frame len idx (stack_of second got.1.port) in
      let kept : Net W = on_port wire (with_stack second (λ _. sorted.1)) got.1 in
      let kept_free =
        with_stack-OthersFree idx second (λ _. sorted.1) got.1.port
          (sort_frame-StackFree len idx (stack_of second got.1.port)) received in
      let filed_free =
        with_stack-OthersFree idx second (λ _. (take_filed idx s).1) n.port
          (set_stat-StackFree idx buf_complete s) free in
      if_both (λ (r : ℤ × Net W). OthersFree idx r.1.port)
        (ltb idx ec_maxbuf && (get_or s.rxbufstat idx 0 == buf_rcvd)) ((take_filed idx s).0, filed)
        (if got.0 then (sorted.0, kept) else (ec_noframe, got.1)) filed_free
        (if_both (λ (r : ℤ × Net W). OthersFree idx r.1.port) got.0 (sorted.0, kept)
          (ec_noframe, got.1) kept_free received)

  same_stats : (n : Net W) → OthersFree idx n.port → OthersFree idx (take_secondary wire idx n.port)
  unfolding take_secondary
  same_stats n free = record { on_primary = free.on_primary; on_secondary = free.on_secondary }

  same_frames : (n : Net W) → OthersFree idx n.port → OthersFree idx (put_back wire idx n.port)
  unfolding put_back
  same_frames n free = record { on_primary = free.on_primary; on_secondary = free.on_secondary }

  -- The results of a step, whichever branch they come from.
  either :
      {A : Type 0} (b : Bool) (x y : A × Net W)
      → OthersFree idx x.1.port
      → OthersFree idx y.1.port
      → OthersFree idx (if b then x else y).1.port
  either {A = A} b x y fx fy = if_both (λ (r : A × Net W). OthersFree idx r.1.port) b x y fx fy

  poll_socket-OthersFree : (second : Bool) (wkc : ℤ) → Keeps (poll_socket wire idx second wkc)
  unfolding poll_socket
  poll_socket-OthersFree second wkc n free =
      either (waiting wire wkc) (inframe wire idx second n) (wkc, n)
        (inframe-OthersFree second n free) free

  poll_both-OthersFree : (wkcs : ℤ × ℤ) → Keeps (poll_both wire idx wkcs)
  unfolding poll_both
  poll_both-OthersFree wkcs n free =
      let n1 : Net W = (poll_socket wire idx false wkcs.0 n).1 in
      let first = poll_socket-OthersFree false wkcs.0 n free in
      either n.port.redundant (poll_socket wire idx true wkcs.1 n1) (wkcs.1, n1)
        (poll_socket-OthersFree true wkcs.1 n1 first) first

  resend-OthersFree : (wkc : ℤ) → Keeps (resend wire idx wkc)
  unfolding resend
  resend-OthersFree wkc n free =
      let polls = wire.polls ec_timeoutret n.world in
      let n1 : Net W = (outframe wire idx true n).1 in
      let polled = do_while (waiting wire) (λ _. inframe wire idx true) polls ec_noframe n1 in
      let again =
        do_while-invariant (waiting wire) (λ _. inframe wire idx true)
          (λ (r : ℤ × Net W). OthersFree idx r.1.port) (λ _ m f. inframe-OthersFree true m f) polls
          ec_noframe n1 (outframe-OthersFree true n free) in
      either (waiting wire polled.0) (wkc, polled.1)
        (polled.0, on_port wire (take_secondary wire idx) polled.1) again
        (same_stats polled.1 again)

  settle-OthersFree : (wkc wkc2 : ℤ) → Keeps (settle wire idx wkc wkc2)
  unfolding settle
  settle-OthersFree wkc wkc2 n free =
      let primrx = source_of wire wkc n.port.primary idx in
      let secrx = source_of wire wkc2 n.port.secondary idx in
      let back : Net W = if primrx == rx_prim then on_port wire (put_back wire idx) n else n in
      let back_free =
        if_both (λ (m : Net W). OthersFree idx m.port) (primrx == rx_prim)
          (on_port wire (put_back wire idx) n) n (same_frames n free) free in
      let cut =
        ((primrx == 0) && (secrx == rx_sec)) || ((primrx == rx_prim) && (secrx == rx_sec)) in
      either ((primrx == rx_sec) && (secrx == rx_prim))
        (wkc2, on_port wire (take_secondary wire idx) n)
        (if cut then resend wire idx wkc back else (wkc, n)) (same_stats n free)
        (either cut (resend wire idx wkc back) (wkc, n) (resend-OthersFree wkc back back_free) free)

  pub waitinframe_red-OthersFree : (polls : ℕ) → Keeps (waitinframe_red wire polls idx)
  unfolding waitinframe_red
  waitinframe_red-OthersFree polls n free =
      let none2 = if n.port.redundant then ec_noframe else pos 0 in
      let awaited = λ (w : ℤ × ℤ). waiting wire w.0 || waiting wire w.1 in
      let polled = do_while awaited (poll_both wire idx) polls (ec_noframe, none2) n in
      let again =
        do_while-invariant awaited (poll_both wire idx)
          (λ (r : (ℤ × ℤ) × Net W). OthersFree idx r.1.port) (λ w m f. poll_both-OthersFree w m f)
          polls (ec_noframe, none2) n free in
      either n.port.redundant (settle wire idx polled.0.0 polled.0.1 polled.1)
        (polled.0.0, polled.1) (settle-OthersFree polled.0.0 polled.0.1 polled.1 again) again

  send_and_wait-OthersFree : (timeout : ℕ) (wkc : ℤ) → Keeps (send_and_wait wire idx timeout wkc)
  unfolding send_and_wait waitinframe
  send_and_wait-OthersFree timeout wkc n free =
      let n1 : Net W = (outframe_red wire idx n).1 in
      waitinframe_red-OthersFree
        (wire.polls (if ltb timeout ec_timeoutret then timeout else ec_timeoutret) n1.world) n1
        (outframe_red-OthersFree n free)

  -- Sending a frame and waiting for its answer leaves every other buffer free, whatever the network
  -- answers and however often the frame is repeated.
  pub srconfirm-OthersFree : (timeout : ℕ) → Keeps (srconfirm wire idx timeout)
  unfolding srconfirm
  srconfirm-OthersFree timeout n free =
      do_while-invariant (waiting wire) (send_and_wait wire idx timeout)
        (λ (r : ℤ × Net W). OthersFree idx r.1.port)
        (λ wkc m f. send_and_wait-OthersFree timeout wkc m f) (wire.polls timeout n.world)
        ec_noframe n free
