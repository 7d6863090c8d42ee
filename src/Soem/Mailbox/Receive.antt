-- ===== src/Soem/Mailbox/Receive.antt =====
-- soem/ethercatmain.c: `ecx_mbxreceive`. Its loops share one timer, which is handed from one to the
-- next as the number of times that it will still be found not expired.
use bharatiya_beagle_bone.Common.{
  ℕ, zero, suc, ◌+◌, ◌-◌, ◌/◌, Bool, Option, none, some, ◌==◌, ◌&&◌, ◌||◌, not, if◌then◌else◌, List,
  [], ◌∷◌, get_or, bit_and, Run, do_while_timed,
}
use bharatiya_beagle_bone.Common.Int.{ℤ, pos, negsuc}
use bharatiya_beagle_bone.Soem.Frame.{word_at, word_bytes}
use bharatiya_beagle_bone.Soem.Nic.{Wire, ec_timeoutret}
use bharatiya_beagle_bone.Soem.Base.{positive, ecx_fprd, ecx_fpwr}
use bharatiya_beagle_bone.Soem.Errors.{mbxerror, mbxemergencyerror}
use bharatiya_beagle_bone.Soem.Registers.{reg_sm1stat, reg_sm1contr}
use bharatiya_beagle_bone.Soem.Eeprom.{has_bits}
use bharatiya_beagle_bone.Soem.Slaves.{Context, slave_of, on_net}
use bharatiya_beagle_bone.Soem.Mailbox.{mailbox_full, has_mailbox, pause}

abbrev pub ec_timeout : ℤ
ec_timeout = negsuc 4

-- The types of a message
abbrev pub mbxt_err : ℕ
mbxt_err = 0

abbrev pub mbxt_eoe : ℕ
mbxt_eoe = 2

abbrev pub mbxt_coe : ℕ
mbxt_coe = 3

-- The type in a message's header.
abbrev pub mbxtype : List ℕ → ℕ
mbxtype mbx = bit_and (get_or mbx 5 0) 0x0f

-- `SMstat ^= 0x0200`
abbrev pub toggle_repeat : ℕ → ℕ
toggle_repeat w = if has_bits 0x0200 w then w - 0x0200 else w + 0x0200

-- What a pass has: the working counter, the message and the status of the sync manager.
pub record Received : Type 0 where
  pub wkc : ℤ
  pub mbx : List ℕ
  pub smstat : ℕ

module _ {W : Type 0} (wire : Wire W) where
  abbrev pub EoeHook : Type 0
  EoeHook = Option (ℕ → List ℕ → Context W → ℤ × Context W)

  -- A poll of the mailbox that the slave writes, into the variable with its status.
  unfoldable pub poll_full : ℕ → ℕ → List ℕ → Run (Context W) (ℤ × ℕ)
  unfolding ecx_fprd
  poll_full configadr timeout smstat c =
      let (answer, c1) =
        on_net wire (ecx_fprd wire configadr reg_sm1stat 2 smstat ec_timeoutret) c in
      let status = word_at answer.1 0 in
      ((answer.0, status), if has_bits mailbox_full status then c1 else pause wire timeout c1)

  abbrev pub not_full : ℤ × ℕ → Bool
  not_full r = not (positive r.0) || not (has_bits mailbox_full r.1)

  -- The time of the clock, for an entry in the list of errors.
  unfoldable pub report_mbxerror : ℕ → List ℕ → Context W → Context W
  unfolding mbxerror
  report_mbxerror slave mbx c =
      let (now, w) = wire.current_time c.net.world in
      record c {
        net = record (c.net) { world = w };
        elist = mbxerror now slave (word_at mbx 8) c.elist;
      }

  unfoldable pub report_emergency : ℕ → List ℕ → Context W → Context W
  unfolding mbxemergencyerror
  report_emergency slave mbx c =
      let (now, w) = wire.current_time c.net.world in
      record c {
        net = record (c.net) { world = w };
        elist =
            mbxemergencyerror now slave (word_at mbx 8) (get_or mbx 10 0) (get_or mbx 11 0)
              (word_at mbx 12) (word_at mbx 14) c.elist;
      }

  -- The hook takes fragments of Ethernet frames; a message that it has handled is not passed on.
  unfoldable pub offer_eoe : EoeHook → ℕ → Received → Run (Context W) Received
  offer_eoe none slave r c = (r, c)
  offer_eoe (some hook) slave r c =
      let (handled, c1) = hook slave r.mbx c in
      if bit_and (word_at r.mbx 6) 0x0f == 0
      then (if positive handled then record r { wkc = pos 0 } else r, c1)
      else (r, c)

  -- A poll of the slave's acknowledgement, and the test that it is not there yet.
  unfoldable pub poll_contr : ℕ → ℤ × List ℕ → Run (Context W) (ℤ × List ℕ)
  unfolding ecx_fprd
  poll_contr configadr a = on_net wire (ecx_fprd wire configadr reg_sm1contr 1 a.1 ec_timeoutret)

  abbrev pub unacknowledged : ℕ → ℤ × List ℕ → Bool
  unacknowledged toggled a =
      not (positive a.0) || not (bit_and (get_or a.1 0 0) 0x02 == bit_and (toggled / 256) 0x02)

  -- The mail is lost: the repeat bit is toggled, its acknowledgement awaited, and then the mail.
  unfoldable pub ask_again : ℕ → ℕ → ℕ → Received → Context W → (Received × ℕ) × Context W
  unfolding poll_full poll_contr ecx_fpwr
  ask_again configadr timeout left r c =
      let toggled = toggle_repeat r.smstat in
      let (_, c1) =
        on_net wire (ecx_fpwr wire configadr reg_sm1stat 2 (word_bytes toggled) ec_timeoutret) c in
      let (acked, c2) =
        do_while_timed (unacknowledged toggled) (poll_contr configadr) left (pos 0, 0 ∷ []) c1 in
      let (full, c3) =
        do_while_timed not_full (λ (a : ℤ × ℕ). poll_full configadr timeout (word_bytes a.1))
          acked.1 (pos 0, toggled) c2 in
      ((record r { smstat = full.0.1 }, full.1), c3)

  -- What follows a read of the mailbox, by the type of the message.
  unfoldable pub sort_message :
      EoeHook → ℕ → ℕ → ℕ → ℕ → Received → Context W → (Received × ℕ) × Context W
  unfolding report_mbxerror report_emergency offer_eoe ask_again
  sort_message hook slave configadr timeout left r c =
      let (offered, c1) = offer_eoe hook slave r c in
      if positive r.wkc
      then if mbxtype r.mbx == mbxt_err
        then ((record r { wkc = pos 0 }, left), report_mbxerror slave r.mbx c)
        else if mbxtype r.mbx == mbxt_coe
        then if word_at r.mbx 6 / 4096 == 1
          then ((record r { wkc = pos 0 }, left), report_emergency slave r.mbx c)
          else ((r, left), c)
        else if mbxtype r.mbx == mbxt_eoe
        then ((offered, left), c1)
        else ((r, left), c)
      else ask_again configadr timeout left r c

  -- One pass of the loop that reads the mailbox.
  unfoldable pub read_mailbox :
      EoeHook → ℕ → ℕ → ℕ → Received → Context W → (Received × ℕ) × Context W
  unfolding sort_message ecx_fprd
  read_mailbox hook slave timeout left r c =
      let s = slave_of wire c slave in
      let (answer, c1) =
        on_net wire (ecx_fprd wire s.configadr s.mbx_ro s.mbx_rl r.mbx ec_timeoutret) c in
      sort_message hook slave s.configadr timeout left (record r { wkc = answer.0; mbx = answer.1 })
        c1

  -- The loop: another pass takes one from what is left of the timer, so rounds as many as that
  -- are enough.
  unfoldable pub read_until : EoeHook → ℕ → ℕ → ℕ → ℕ → Received → Run (Context W) Received
  unfolding read_mailbox
  read_until hook slave timeout zero left r c =
      let (got, c1) = read_mailbox hook slave timeout left r c in (got.0, c1)
  read_until hook slave timeout (suc rounds) left r c =
      let (got, c1) = read_mailbox hook slave timeout left r c in
      let rest = read_until hook slave timeout rounds (got.1 - 1) got.0 c1 in
      if positive got.0.wkc || (got.1 == 0) then (got.0, c1) else rest

  -- `ecx_mbxreceive`: the working counter and the message.
  unfoldable pub mbxreceive : EoeHook → ℕ → List ℕ → ℕ → Run (Context W) (ℤ × List ℕ)
  unfolding poll_full read_until
  mbxreceive hook slave mbx timeout c =
      let s = slave_of wire c slave in
      let (first, c1) =
        do_while_timed not_full (λ _. poll_full s.configadr timeout (0 ∷ 0 ∷ []))
          (wire.polls timeout c.net.world) (pos 0, 0) c in
      let start : Received = record { wkc = first.0.0; mbx = mbx; smstat = first.0.1 } in
      let (got, c2) = read_until hook slave timeout first.1 first.1 start c1 in
      if has_mailbox s.mbx_rl
      then if positive first.0.0 && has_bits mailbox_full first.0.1
        then ((got.wkc, got.mbx), c2)
        else ((if positive first.0.0 then ec_timeout else first.0.0, mbx), c1)
      else ((pos 0, mbx), c)
