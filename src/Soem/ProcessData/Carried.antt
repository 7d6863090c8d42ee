-- ===== src/Soem/ProcessData/Carried.antt =====
-- The bytes of the image in the frame that a segment goes out in.
use bharatiya_beagle_bone.Common.{
  ℕ, ◌+◌, ◌≡◌, ◌≤◌, ◌<◌, inr, refl, ap, sym, ◌∙◌, arith, ◌&&◌, ltb, Bool, true, false, ◌==◌, List,
  length, get_or, set, bytes_at, bytes_at_same, bytes_at_all, length-bytes_at,
  bytes_at-memcpy_apart, get_or-set, length-set, if_both,
}
use bharatiya_beagle_bone.Soem.Frame.{Frame, lwr, frmw, payload, setup_datagram, add_datagram}
use bharatiya_beagle_bone.Soem.Frame.Setup.{length-payload}
use bharatiya_beagle_bone.Soem.Frame.Adding.{setup_datagram_lem, added_kept}
use bharatiya_beagle_bone.Soem.Nic.{
  Wire, empty_frame, Port, Net, rx_prim, frame_of, set_source, outframe, out_secondary,
  outframe_red, on_port, getindex, setbufstat,
}
use bharatiya_beagle_bone.Soem.Base.{reg_dcsystime, put_frame}
use bharatiya_beagle_bone.Soem.Slaves.{Group, Context, slave_of}
use bharatiya_beagle_bone.Soem.ProcessData.{add_clock}

-- A place that has been written.
pub written_there {ℓ} :
    {A : Type ℓ} (xs : List A) (i : ℕ) (v d : A) → i < length xs → get_or (set xs i v) i d ≡ v
written_there xs i v d inside = get_or-set xs i i v d ∙ rw (both i (length xs) inside) refl
  where
    both : (j n : ℕ) → j < n → (j == j && ltb j n) ≡ true
    both j n lt = ground arith

-- The data of a command that writes.
whole : (xs : List ℕ) (n : ℕ) → length xs ≡ n → payload lwr n xs ≡ xs
unfolding payload
whole xs n e = ap (λ k. bytes_at xs 0 k) (sym e) ∙ bytes_at_all xs

module _ {W : Type 0} (wire : Wire W) where
  outframe-txframes :
      (idx : ℕ) (n : Net W) → (outframe wire idx false n).1.port.txframes ≡ n.port.txframes
  unfolding outframe
  outframe-txframes idx n = ground arith

  out_secondary-txframes :
      (idx : ℕ) (n : Net W) → (out_secondary wire idx n).port.txframes ≡ n.port.txframes
  unfolding out_secondary
  out_secondary-txframes idx n = ground arith

  -- Sending changes of the frames the source address of the one that is sent.
  outframe_red-txframes :
      (idx : ℕ) (n : Net W)
      → (outframe_red wire idx n).1.port.txframes
        ≡ set n.port.txframes idx (set_source wire rx_prim (frame_of n.port idx))
  unfolding outframe_red
  outframe_red-txframes idx n =
      let sourced : List Frame =
        set n.port.txframes idx (set_source wire rx_prim (frame_of n.port idx)) in
      let n1 : Net W = on_port wire (λ p. record p { txframes = sourced }) n in
      let first = outframe-txframes idx n1 in
      if_both (λ (m : Net W). m.port.txframes ≡ sourced) n.port.redundant
        (out_secondary wire idx (outframe wire idx false n1).1) (outframe wire idx false n1).1
        (out_secondary-txframes idx (outframe wire idx false n1).1 ∙ first) first

  pub getindex-txframes : (p : Port) → (getindex p).1.txframes ≡ p.txframes
  unfolding getindex setbufstat
  getindex-txframes p = ground arith

  pub getindex-redundant : (p : Port) → (getindex p).1.redundant ≡ p.redundant
  unfolding getindex setbufstat
  getindex-redundant p = ground arith

  set_source-bytes :
      (word at n : ℕ) (f : Frame)
      → 10 ≤ at
      → bytes_at (set_source wire word f).bytes at n ≡ bytes_at f.bytes at n
  unfolding set_source
  set_source-bytes word at n f behind = bytes_at-memcpy_apart f.bytes 8 _ at n (inr behind)

  -- A frame that is put into a buffer and sent has another source address.
  sent_source :
      (idx : ℕ) (f : Frame) (net : Net W)
      → idx < length net.port.txframes
      → frame_of (outframe_red wire idx (on_port wire (put_frame idx f) net)).1.port idx
        ≡ set_source wire rx_prim f
  unfolding put_frame
  sent_source idx f net inside =
      let put : Net W = on_port wire (put_frame idx f) net in
      let room = length-set net.port.txframes idx f in
      ap (λ fs. get_or fs idx empty_frame) (outframe_red-txframes idx put)
      ∙ written_there put.port.txframes idx _ _ (omega (arith, room, inside))
      ∙ ap (λ h. set_source wire rx_prim h) (written_there net.port.txframes idx f _ inside)

  -- Its data and its size are kept.
  pub sent_frame :
      (idx at n : ℕ) (f : Frame) (net : Net W)
      → idx < length net.port.txframes
      → 10 ≤ at
      → let g : Frame =
          frame_of (outframe_red wire idx (on_port wire (put_frame idx f) net)).1.port idx in
        (bytes_at g.bytes at n ≡ bytes_at f.bytes at n) × (g.txbuflength ≡ f.txbuflength)
  unfolding set_source
  sent_frame idx at n f net inside behind =
      let gone = sent_source idx f net inside in
      (
        ap (λ (g : Frame). bytes_at g.bytes at n) gone ∙ set_source-bytes rx_prim at n f behind,
        ap (λ (g : Frame). g.txbuflength) gone,
      )

  -- The frame of a segment of outputs has them behind its header, with the clock's datagram or without.
  pub framed_outputs :
      (g : Group) (first : Bool) (idx i adp ado n at : ℕ) (image : List ℕ) (c : Context W)
      (f : Frame)
      → 28 + n ≤ length f.bytes
      → adp < 65536
      → ado < 65536
      → (slave_of wire c g.dcnext).configadr < 65536
      → n ≤ 1466
      → length f.bytes ≡ 1518
      → let f0 = setup_datagram lwr i adp ado n (bytes_at image at n) f in
        bytes_at (add_clock wire g first idx c f0).0.bytes 26 n ≡ bytes_at image at n
  unfolding add_clock
  framed_outputs g first idx i adp ado n at image c f fits la lo lc small size =
      let block = bytes_at image at n in
      let f0 : Frame = setup_datagram lwr i adp ado n block f in
      let (datagram, word, end, room, _) =
        setup_datagram_lem lwr i adp ado n block f fits la lo (omega (arith, small)) in
      let plain : bytes_at f0.bytes 26 n ≡ block =
        ap (λ k. bytes_at f0.bytes 26 k) (sym (length-payload lwr n block))
        ∙ datagram.contents
        ∙ whole block n (length-bytes_at image at n) in
      if_both (λ (r : Frame × ℕ). bytes_at r.0.bytes 26 n ≡ block) first _ (f0, 0)
        (bytes_at_same _ f0.bytes 26 26 n (λ j lt.
            added_kept frmw idx false (slave_of wire c g.dcnext).configadr reg_dcsystime 8 c.dctime
              f0 (omega (arith, end)) (omega (arith, end, room, size, small))
              (omega (arith, end, small)) (omega (arith, end, word)) (26 + j)
              (inr (inr (omega arith, omega (arith, end, lt)))))
          ∙ plain)
        plain

  pub framed_size :
      (g : Group) (first : Bool) (idx : ℕ) (c : Context W) (f : Frame)
      → f.txbuflength ≤ 1518
      → f.txbuflength ≤ (add_clock wire g first idx c f).0.txbuflength
  unfolding add_clock add_datagram
  framed_size g first idx c f small = ground arith

  outframe_red-world :
      (idx : ℕ) (n : Net W)
      → n.port.redundant ≡ false
      → let f : Frame =
          get_or
            (set n.port.txframes idx (set_source wire rx_prim (frame_of n.port idx)))
            idx
            empty_frame in
        (outframe_red wire idx n).1.world
        ≡ (wire.send false (bytes_at f.bytes 0 f.txbuflength) n.world).1
  unfolding outframe_red outframe
  outframe_red-world idx n alone = rw alone refl

  -- On one socket, what is sent is the frame as it stands in the buffer behind the call.
  pub sent_bytes :
      (idx : ℕ) (n : Net W)
      → n.port.redundant ≡ false
      → let n1 : Net W = (outframe_red wire idx n).1 in
        let g : Frame = frame_of n1.port idx in
        n1.world ≡ (wire.send false (bytes_at g.bytes 0 g.txbuflength) n.world).1
  sent_bytes idx n alone =
      outframe_red-world idx n alone
      ∙ sym (
          ap
            (λ fs.
              let g : Frame = get_or fs idx empty_frame in
              (wire.send false (bytes_at g.bytes 0 g.txbuflength) n.world).1)
            (outframe_red-txframes idx n))
