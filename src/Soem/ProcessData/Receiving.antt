-- ===== src/Soem/ProcessData/Receiving.antt =====
-- soem/ethercatmain.c: the answers to the frames of a group, `ecx_receive_processdata_group`.
use bharatiya_beagle_bone.Common.{
  ℕ, zero, suc, ◌+◌, ◌*◌, Bool, true, false, Option, none, some, ◌==◌, ◌||◌, if◌then◌else◌, List,
  get_or, memcpy, bytes_at,
}
use bharatiya_beagle_bone.Common.Int.{ℤ, pos, pos_part}
use bharatiya_beagle_bone.Soem.Frame.{code, lrd, lwr, lrw, ec_headersize, word_at}
use bharatiya_beagle_bone.Soem.Nic.{
  Wire, ec_maxbuf, buf_empty, ec_noframe, rx_of, on_port, setbufstat,
}
use bharatiya_beagle_bone.Soem.Nic.Receive.{waiting, waitinframe}
use bharatiya_beagle_bone.Soem.Base.{answer_cmd}
use bharatiya_beagle_bone.Soem.Slaves.{Context, on_net}
use bharatiya_beagle_bone.Soem.ProcessData.{pullindex, clearindex, is_some}

-- The variables of the loop of `ecx_receive_processdata_group`.
pub record Gathered : Type 0 where
  pub wkc : ℕ
  pub valid : Bool

module _ {W : Type 0} (wire : Wire W) where
  -- What an answer adds to the working counter, and what it changes in the image and the clock.
  unfoldable pub take_answer : ℕ → ℕ → List ℕ → Gathered → Context W → Gathered × Context W
  take_answer p wkc2 rx r c =
      let len = get_or c.idxstack.lengths p 0 in
      let dco = get_or c.idxstack.dcoffset p 0 in
      let own = word_at rx (ec_headersize + len) in
      let image = memcpy c.iomap (get_or c.idxstack.places p 0) (bytes_at rx ec_headersize len) in
      let clock = if dco == 0 then c.dctime else bytes_at rx dco 8 in
      if (answer_cmd rx == code lrd) || (answer_cmd rx == code lrw)
      then (
        record { wkc = if dco == 0 then r.wkc + wkc2 else own; valid = true },
        record c { iomap = image; dctime = clock },
      )
      else if answer_cmd rx == code lwr
      then (
        record { wkc = if dco == 0 then r.wkc + wkc2 * 2 else own * 2; valid = true },
        record c { dctime = clock },
      )
      else (r, c)

  -- One pass of the loop: the answer to the frame at a place of the stack, and its buffer back.
  unfoldable pub receive_one : ℕ → ℕ → Gathered → Context W → Gathered × Context W
  unfolding waitinframe take_answer setbufstat
  receive_one timeout p r c =
      let idx = get_or c.idxstack.idx p 0 in
      let (wkc2, c1) = on_net wire (waitinframe wire idx timeout) c in
      let (r2, c2) = take_answer p (pos_part wkc2) (rx_of c1.net.port idx) r c1 in
      let released =
        λ (d : Context W). record d { net = on_port wire (setbufstat idx buf_empty) d.net } in
      if waiting wire wkc2 then (r, released c1) else (r2, released c2)

  unfoldable pub receive_pulled : ℕ → Option ℕ → Gathered → Context W → Gathered × Context W
  unfolding receive_one
  receive_pulled timeout none r c = (r, c)
  receive_pulled timeout (some p) r c = receive_one timeout p r c

  -- The loop, while there is a place to pull; a pass pulls one entry, of which there are at most
  -- EC_MAXBUF.
  unfoldable pub receive_all : ℕ → ℕ → Gathered → Context W → Gathered × Context W
  unfolding receive_pulled pullindex
  receive_all zero timeout r c = (r, c)
  receive_all (suc left) timeout r c =
      let c1 = record c { idxstack = (pullindex c.idxstack).1 } in
      let one = receive_pulled timeout (pullindex c.idxstack).0 r c1 in
      let rest = receive_all left timeout one.0 one.1 in
      if is_some (pullindex c.idxstack).0 then rest else (r, c1)

  -- `ecx_receive_processdata_group`
  unfoldable pub receive_processdata : ℕ → Context W → ℤ × Context W
  unfolding receive_all clearindex
  receive_processdata timeout c =
      let (r, c1) = receive_all ec_maxbuf timeout (record { wkc = 0; valid = false }) c in
      (if r.valid then pos r.wkc else ec_noframe, record c1 { idxstack = clearindex c1.idxstack })
