-- ===== src/Soem/Mailbox/Timed.antt =====
-- The loop of `ecx_mbxreceive` ends by its timer.
use bharatiya_beagle_bone.Common.{
  ℕ, zero, suc, ◌-◌, ◌/◌, ◌≡◌, ◌≤◌, refl, ap, sym, arith, ◌==◌, ◌||◌, if◌then◌else◌, [], ◌∷◌,
  do_while_timed, do_while_timed-left, if_both,
}
use bharatiya_beagle_bone.Common.Int.{ℤ, pos}
use bharatiya_beagle_bone.Soem.Frame.{word_at, word_bytes}
use bharatiya_beagle_bone.Soem.Nic.{Wire, ec_timeoutret}
use bharatiya_beagle_bone.Soem.Base.{positive, ecx_fprd, ecx_fpwr}
use bharatiya_beagle_bone.Soem.Slaves.{Context, slave_of, on_net}
use bharatiya_beagle_bone.Soem.Registers.{reg_sm1stat}
use bharatiya_beagle_bone.Soem.Mailbox.Receive.{
  toggle_repeat, unacknowledged, poll_contr, poll_full, not_full, offer_eoe, mbxtype, mbxt_err,
  mbxt_coe, mbxt_eoe, report_emergency, report_mbxerror, Received, EoeHook, ask_again, sort_message,
  read_mailbox, read_until,
}

module _ {W : Type 0} (wire : Wire W) where
  ask_again-left :
      (configadr timeout left : ℕ) (r : Received) (c : Context W)
      → (ask_again wire configadr timeout left r c).0.1 ≤ left
  unfolding ask_again
  ask_again-left configadr timeout left r c =
      let toggled = toggle_repeat r.smstat in
      let c1 : Context W =
        (on_net wire (ecx_fpwr wire configadr reg_sm1stat 2 (word_bytes toggled) ec_timeoutret)
          c).1 in
      let acked =
        do_while_timed (unacknowledged wire toggled) (poll_contr wire configadr) left
          (pos 0, 0 ∷ []) c1 in
      let full = λ (a : ℤ × ℕ). poll_full wire configadr timeout (word_bytes a.1) in
      let first =
        do_while_timed-left (unacknowledged wire toggled) (poll_contr wire configadr) left
          (pos 0, 0 ∷ []) c1 in
      let second = do_while_timed-left (not_full wire) full acked.0.1 (pos 0, toggled) acked.1 in
      ℕ_trans second first
    where
      ℕ_trans : {a b c : ℕ} → a ≤ b → b ≤ c → a ≤ c
      ℕ_trans p q = omega arith

  sort_message-left :
      (hook : EoeHook wire) (slave configadr timeout left : ℕ) (r : Received) (c : Context W)
      → (sort_message wire hook slave configadr timeout left r c).0.1 ≤ left
  unfolding sort_message
  sort_message-left hook slave configadr timeout left r c =
      let P : (Received × ℕ) × Context W → Type 0 = λ o. o.0.1 ≤ left in
      let offered = offer_eoe wire hook slave r c in
      let none_left : Received × ℕ = (record r { wkc = pos 0 }, left) in
      let as_it_is : (Received × ℕ) × Context W = ((r, left), c) in
      let of_eoe = if mbxtype r.mbx == mbxt_eoe then ((offered.0, left), offered.1) else as_it_is in
      let of_coe =
        if word_at r.mbx 6 / 4096 == 1
        then (none_left, report_emergency wire slave r.mbx c)
        else as_it_is in
      let same : left ≤ left = omega arith in
      if_both P (positive r.wkc)
        (if mbxtype r.mbx == mbxt_err
          then (none_left, report_mbxerror wire slave r.mbx c)
          else if mbxtype r.mbx == mbxt_coe
          then of_coe
          else of_eoe)
        (ask_again wire configadr timeout left r c)
        (if_both P (mbxtype r.mbx == mbxt_err) (none_left, report_mbxerror wire slave r.mbx c)
          (if mbxtype r.mbx == mbxt_coe then of_coe else of_eoe) same
          (if_both P (mbxtype r.mbx == mbxt_coe) of_coe of_eoe
            (if_both P (word_at r.mbx 6 / 4096 == 1)
              (none_left, report_emergency wire slave r.mbx c) as_it_is same same)
            (if_both P (mbxtype r.mbx == mbxt_eoe) ((offered.0, left), offered.1) as_it_is same
              same)))
        (ask_again-left configadr timeout left r c)

  read_mailbox-left :
      (hook : EoeHook wire) (slave timeout left : ℕ) (r : Received) (c : Context W)
      → (read_mailbox wire hook slave timeout left r c).0.1 ≤ left
  unfolding read_mailbox
  read_mailbox-left hook slave timeout left r c =
      let s = slave_of wire c slave in
      let answer =
        on_net wire (ecx_fprd wire s.configadr s.mbx_ro s.mbx_rl r.mbx ec_timeoutret) c in
      sort_message-left hook slave s.configadr timeout left
        (record r { wkc = answer.0.0; mbx = answer.0.1 }) answer.1

  -- A pass that has used up the timer is the last one.
  last_pass :
      (hook : EoeHook wire) (slave timeout left : ℕ) (r : Received) (c : Context W)
      (rest : Received × Context W)
      → left ≡ 0
      → let got = read_mailbox wire hook slave timeout left r c in
        (if positive got.0.0.wkc || (got.0.1 == 0) then (got.0.0, got.1) else rest)
        ≡ (got.0.0, got.1)
  last_pass hook slave timeout left r c rest e =
      let bound = read_mailbox-left hook slave timeout left r c in ground (arith, bound)

  -- The loop that reads the mailbox ends by its timer: each further pass takes from what is left of
  -- it, so as many rounds as are left at the start are enough, and more change nothing.
  pub read_until-enough :
      (hook : EoeHook wire) (slave timeout rounds rounds' left : ℕ) (r : Received) (c : Context W)
      → left ≤ rounds
      → left ≤ rounds'
      → read_until wire hook slave timeout rounds left r c
        ≡ read_until wire hook slave timeout rounds' left r c
  unfolding read_until
  read_until-enough hook slave timeout zero zero left r c le le' = refl
  read_until-enough hook slave timeout zero (suc k') left r c le le' =
      let got = read_mailbox wire hook slave timeout left r c in
      sym (
        last_pass hook slave timeout left r c
          (read_until wire hook slave timeout k' (got.0.1 - 1) got.0.0 got.1) (omega arith))
  read_until-enough hook slave timeout (suc k) zero left r c le le' =
      let got = read_mailbox wire hook slave timeout left r c in
      last_pass hook slave timeout left r c
        (read_until wire hook slave timeout k (got.0.1 - 1) got.0.0 got.1) (omega arith)
  read_until-enough hook slave timeout (suc k) (suc k') left r c le le' =
      let got = read_mailbox wire hook slave timeout left r c in
      let bound = read_mailbox-left hook slave timeout left r c in
      ap
        (λ (rest : Received × Context W).
          if positive got.0.0.wkc || (got.0.1 == 0) then (got.0.0, got.1) else rest)
        (read_until-enough hook slave timeout k k' (got.0.1 - 1) got.0.0 got.1 (omega arith)
          (omega arith))
