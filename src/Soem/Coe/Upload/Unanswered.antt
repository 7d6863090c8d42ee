-- ===== src/Soem/Coe/Upload/Unanswered.antt =====
-- `ecx_SDOread` when the slave falls silent between two segments.
use mathlib.Core.Path.{subst}
use bharatiya_beagle_bone.Common.{
  ℕ, zero, suc, ◌+◌, ◌-◌, ◌≡◌, refl, sym, arith, Bool, false, if◌then◌else◌, List,
}
use bharatiya_beagle_bone.Common.Int.{ℤ}
use bharatiya_beagle_bone.Soem.Base.{positive}
use bharatiya_beagle_bone.Soem.Mailbox.{clearmbx}
use bharatiya_beagle_bone.Soem.Coe.{
  Mail, Returned, done, unfinished, sdo_seg_up_req, ec_timeouttxm, ask,
}
use bharatiya_beagle_bone.Soem.Coe.Upload.{Upload, upload_request, take_segment, upload_segments}

module _ {S : Type 0} (mail : Mail S) (slave index subindex timeout : ℕ)
    (silent : (buf : List ℕ) (t : ℕ) (s : S)
      → positive (mail.receive slave buf t s).0.0 ≡ false) where
  -- No request is answered.
  ask_silent : (m mbxin : List ℕ) (s : S) → positive (ask mail slave m mbxin timeout s).0.0 ≡ false
  unfolding ask
  ask_silent m mbxin s =
      let s1 = (mail.send slave m ec_timeouttxm s).1 in
      let sent = (mail.send slave m ec_timeouttxm s).0 in
      ground (arith, silent (clearmbx mbxin) timeout s1)

  nothing_taken :
      (at : ℕ) (p : List ℕ) (psize : ℕ) (wkc : ℤ) (answer : List ℕ) (s : S)
      → positive wkc ≡ false
      → take_segment mail slave index subindex timeout at p psize wkc answer s
        ≡ (false, record { wkc = wkc; psize = psize; bytes = p }, s)
  unfolding take_segment
  nothing_taken at p psize wkc answer s e = ground arith

  -- When the slave does not answer any more, the loop over the segments does not end: however many
  -- rounds it is given, it uses them all, whether the requests are placed or not. The timeout
  -- bounds each round, and nothing bounds their number.
  pub upload_segments-unanswered :
      (rounds toggle at : ℕ) (p : List ℕ) (psize : ℕ) (out mbxin : List ℕ) (s : S)
      → (upload_segments mail slave index subindex timeout rounds toggle at p psize out mbxin s).0
        ≡ unfinished
  unfolding upload_segments
  upload_segments-unanswered zero toggle at p psize out mbxin s = refl
  upload_segments-unanswered (suc rounds) toggle at p psize out mbxin s =
      let s1 = (mail.next_cnt slave s).1 in
      let m =
        upload_request (mail.next_cnt slave s).0 (sdo_seg_up_req + toggle) index subindex out in
      let r = ask mail slave m mbxin timeout s1 in
      let rest : Upload → S → Returned Upload × S = λ u s3.
        upload_segments mail slave index subindex timeout rounds (0x10 - toggle)
          (at + (u.psize - psize)) u.bytes u.psize m r.0.1 s3 in
      subst
        (λ (t : Bool × Upload × S). (if t.0 then (done t.1, t.2) else rest t.1 t.2).0 ≡ unfinished)
        (sym (nothing_taken at p psize r.0.0 r.0.1 r.1 (ask_silent m mbxin s1)))
        (upload_segments-unanswered rounds (0x10 - toggle) (at + (psize - psize)) p psize m r.0.1
          r.1)
