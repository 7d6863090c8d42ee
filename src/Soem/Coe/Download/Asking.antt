-- ===== src/Soem/Coe/Download/Asking.antt =====
-- A request of `ecx_SDOwrite` and its answer, where the slave takes every message.
use mathlib.Core.Path.{subst}
use bharatiya_beagle_bone.Common.{
  ℕ, ◌≡◌, ◌<◌, ap, ◌∙◌, arith, Bool, true, false, if◌then◌else◌, List, get_or,
}
use bharatiya_beagle_bone.Common.Int.{ℤ}
use bharatiya_beagle_bone.Soem.Frame.{word_at}
use bharatiya_beagle_bone.Soem.Base.{positive}
use bharatiya_beagle_bone.Soem.Mailbox.{clearmbx}
use bharatiya_beagle_bone.Soem.Coe.{Mail, ec_timeouttxm, ask}
use bharatiya_beagle_bone.Soem.Coe.Download.{acknowledges, confirms, check_answer}
use bharatiya_beagle_bone.Soem.Coe.Download.Receiver.{
  Object, Accepts, initiate, is_initiate, append_segment, take_message, answers,
}

take_message-last : (m : List ℕ) (o : Object) → (take_message m o).last ≡ m
unfolding take_message initiate append_segment
take_message-last m o = ground arith

answers-segment :
    (m a : List ℕ) → is_initiate m ≡ false → answers m a ≡ true → acknowledges a ≡ true
unfolding answers
answers-segment m a kind h =
    subst (λ b. (if b then confirms (word_at m 9) (get_or m 11 0) a else acknowledges a) ≡ true)
      kind h

answers-initiate :
    (m a : List ℕ) (index sub : ℕ)
    → is_initiate m ≡ true
    → word_at m 9 ≡ index
    → get_or m 11 0 ≡ sub
    → answers m a ≡ true
    → confirms index sub a ≡ true
unfolding answers
answers-initiate m a index sub kind w b h =
    let h1 =
      subst (λ b. (if b then confirms (word_at m 9) (get_or m 11 0) a else acknowledges a) ≡ true)
        kind h in
    subst (λ k. confirms index k a ≡ true) b (subst (λ k. confirms k (get_or m 11 0) a ≡ true) w h1)

check_answer-expected :
    {S : Type 0} (mail : Mail S) (slave index subindex timeout : ℕ) (expected : List ℕ → Bool)
    (wkc : ℤ) (answer : List ℕ) (s : S)
    → expected answer ≡ true
    → check_answer mail slave index subindex timeout expected wkc answer s ≡ (wkc, false, s)
unfolding check_answer
check_answer-expected mail slave index subindex timeout expected wkc answer s e = ground arith

module _ {S : Type 0} (mail : Mail S) (slave : ℕ) (object : S → Object) (size : ℕ)
    (accepts : Accepts mail slave object size) where
  -- The message reaches the object, and its answer comes back.
  pub ask-Accepts :
      (m mbxin : List ℕ) (t : ℕ) (s : S)
      → 0 < t
      → let r = ask mail slave m mbxin t s in
        (positive r.0.0 ≡ true)
        × (answers m r.0.1 ≡ true)
        × (object r.1 ≡ take_message m (object s))
  unfolding ask
  ask-Accepts m mbxin t s lt =
      let s1 = (mail.send slave m ec_timeouttxm s).1 in
      let taken = accepts.taken m ec_timeouttxm s in
      let last : (object s1).last ≡ m =
        ap (λ (o : Object). o.last) taken ∙ take_message-last m (object s) in
      rw (accepts.sent m ec_timeouttxm s) (
        accepts.got (clearmbx mbxin) t s1 lt,
        subst (λ k. answers k (mail.receive slave (clearmbx mbxin) t s1).0.1 ≡ true) last
            (accepts.answered (clearmbx mbxin) t s1 lt),
        accepts.left (clearmbx mbxin) t s1 ∙ taken,
      )

  -- So the check of the answer finds nothing.
  pub check-segment :
      (index subindex t : ℕ) (m mbxin : List ℕ) (s : S)
      → 0 < t
      → is_initiate m ≡ false
      → let r = ask mail slave m mbxin t s in
        check_answer mail slave index subindex t acknowledges r.0.0 r.0.1 r.1 ≡ (r.0.0, false, r.1)
  check-segment index subindex t m mbxin s lt kind =
      let r = ask mail slave m mbxin t s in
      let a = (ask-Accepts m mbxin t s lt).1 in
      check_answer-expected mail slave index subindex t acknowledges r.0.0 r.0.1 r.1
        (answers-segment m r.0.1 kind a)

  pub check-initiate :
      (index subindex sub t : ℕ) (m mbxin : List ℕ) (s : S)
      → 0 < t
      → is_initiate m ≡ true
      → word_at m 9 ≡ index
      → get_or m 11 0 ≡ sub
      → let r = ask mail slave m mbxin t s in
        check_answer mail slave index subindex t (confirms index sub) r.0.0 r.0.1 r.1
        ≡ (r.0.0, false, r.1)
  check-initiate index subindex sub t m mbxin s lt kind w b =
      let r = ask mail slave m mbxin t s in
      let a = (ask-Accepts m mbxin t s lt).1 in
      check_answer-expected mail slave index subindex t (confirms index sub) r.0.0 r.0.1 r.1
        (answers-initiate m r.0.1 index sub kind w b a)
