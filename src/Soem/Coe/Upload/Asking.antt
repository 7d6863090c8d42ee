-- ===== src/Soem/Coe/Upload/Asking.antt =====
-- The requests of `ecx_SDOread` and their answers, where the slave serves the object.
use mathlib.Core.Path.{subst}
use bharatiya_beagle_bone.Common.{
  ℕ, ◌+◌, ◌-◌, ◌*◌, ◌/◌, ◌%◌, ◌≡◌, ◌≤◌, ◌<◌, refl, ap, ◌∙◌, arith, true, false, List, [], ◌∷◌,
  length, memcpy, length-memcpy, byte0, byte1,
}
use bharatiya_beagle_bone.Soem.Base.{positive}
use bharatiya_beagle_bone.Soem.Mailbox.{clearmbx}
use bharatiya_beagle_bone.Soem.Coe.{
  Mail, Returned, done, unfinished, crashed, sdoreq, sdo_seg_up_req, ec_timeouttxm, coe_message,
  command, ask,
}
use bharatiya_beagle_bone.Soem.Coe.Upload.{Upload, upload_request}
use bharatiya_beagle_bone.Soem.Coe.Upload.Server.{
  segment, Source, is_nil, next_segment, take_request, Tells, Serves,
}
use bharatiya_beagle_bone.Soem.Coe.Download.Segments.{message_byte}

module _ {S : Type 0} (mail : Mail S) (slave : ℕ) (source : S → Source)
    (serves : Serves mail slave source) where
  -- The request reaches the slave, and its answer comes back.
  pub ask-Serves :
      (m mbxin : List ℕ) (t : ℕ) (s : S)
      → 0 < t
      → let r = ask mail slave m mbxin t s in
        let o = take_request m (source s) in
        (positive r.0.0 ≡ true) × Tells o.reply o r.0.1 × (source r.1 ≡ o)
  unfolding ask
  ask-Serves m mbxin t s lt =
      let s1 = (mail.send slave m ec_timeouttxm s).1 in
      let taken = serves.taken m ec_timeouttxm s in
      rw (serves.sent m ec_timeouttxm s) (
        serves.got (clearmbx mbxin) t s1 lt,
        subst (λ (o : Source). Tells o.reply o (mail.receive slave (clearmbx mbxin) t s1).0.1) taken
            (serves.told (clearmbx mbxin) t s1 lt),
        serves.left (clearmbx mbxin) t s1 ∙ taken,
      )

pub is_nil-true : (q : List (List ℕ)) → is_nil q ≡ true → q ≡ []
is_nil-true [] e = refl
is_nil-true (c ∷ q) e = cc

pub is_nil-false :
    (q : List (List ℕ)) → is_nil q ≡ false → (d : List ℕ) × (more : List (List ℕ)) × (q ≡ d ∷ more)
is_nil-false [] e = cc
is_nil-false (c ∷ q) e = (c, q, refl)

-- The code has returned a positive working counter, this size and this buffer.
abbrev pub Gives : ℕ → List ℕ → Returned Upload → Type 0
Gives size bytes (done u) = (positive u.wkc ≡ true) × (u.psize ≡ size) × (u.bytes ≡ bytes)
Gives size bytes unfinished = ⊥
Gives size bytes crashed = ⊥

pub length-upload_request :
    (cnt cmd index subindex : ℕ) (out : List ℕ)
    → length (upload_request cnt cmd index subindex out) ≡ length out
unfolding upload_request
length-upload_request cnt cmd index subindex out = length-memcpy out 0 _

-- A request for a segment, at the slave.
request_taken :
    (m c : List ℕ) (q : List (List ℕ)) (o : Source)
    → command m / 32 ≡ 3
    → command m / 16 % 2 ≡ o.toggle
    → o.queue ≡ c ∷ q
    → take_request m o ≡ record o { queue = q; toggle = 1 - o.toggle; reply = segment c (is_nil q) }
unfolding take_request
request_taken m c q o kind turn e =
    let served = ap (λ k. next_segment k o) e in ground (arith, served)

pub segment_asked :
    (cnt toggle index subindex : ℕ) (out c : List ℕ) (q : List (List ℕ)) (o : Source)
    → 16 ≤ length out
    → toggle ≡ 16 * o.toggle
    → o.toggle ≤ 1
    → o.queue ≡ c ∷ q
    → take_request (upload_request cnt (sdo_seg_up_req + toggle) index subindex out) o
      ≡ record o { queue = q; toggle = 1 - o.toggle; reply = segment c (is_nil q) }
unfolding take_request upload_request coe_message
segment_asked cnt toggle index subindex out c q o fits tg le e =
    let cmd = sdo_seg_up_req + toggle in
    let src =
      coe_message 0x0a cnt 0 sdoreq
        (cmd ∷ byte0 index ∷ byte1 index ∷ subindex ∷ 0 ∷ 0 ∷ 0 ∷ 0 ∷ []) in
    let here : command (memcpy out 0 src) ≡ cmd = message_byte out src 8 (omega arith) fits in
    request_taken (memcpy out 0 src) c q o (omega (arith, here, tg)) (omega (arith, here, tg)) e
