-- ===== src/Soem/Coe/Upload/Fetched.antt =====
-- `ecx_SDOread` gets the whole object from the slave.
use mathlib.Core.Path.{subst}
use bharatiya_beagle_bone.Common.{
  ℕ, ◌*◌, ◌/◌, ◌%◌, ◌≡◌, ◌≤◌, ◌<◌, ap, sym, ◌∙◌, arith, Bool, true, false, ◌==◌, ◌&&◌, not, ltb,
  if◌then◌else◌, List, bit_and, memcpy, if_cases, length,
}
use bharatiya_beagle_bone.Common.Int.{ℤ, pos}
use bharatiya_beagle_bone.Soem.Frame.{word_at}
use bharatiya_beagle_bone.Soem.Base.{positive}
use bharatiya_beagle_bone.Soem.Eeprom.{has_bits}
use bharatiya_beagle_bone.Soem.Coe.{
  Mail, Returned, done, sdo_up_req, sdo_up_req_ca, empty_mbx, command, is_response, ask, refuse,
}
use bharatiya_beagle_bone.Soem.Coe.Download.Initiating.{length-empty_mbx}
use bharatiya_beagle_bone.Soem.Coe.Upload.{
  Upload, upload_request, expedited, normal, upload_answer, sdoread,
}
use bharatiya_beagle_bone.Soem.Coe.Upload.Server.{
  Source, opened, take_request, Opens, Tells, Serves, IsCut,
}
use bharatiya_beagle_bone.Soem.Coe.Upload.Fields.{command_fields}
use bharatiya_beagle_bone.Soem.Coe.Upload.Asking.{ask-Serves, Gives, length-upload_request}
use bharatiya_beagle_bone.Soem.Coe.Upload.Opening.{opening_asked, expedited-Gives, normal-Gives}

expedited_bit :
    (bit field : ℕ) (b : Bool) → bit ≡ field * 2 → (field == 1) ≡ b → field < 2 → not (bit == 0) ≡ b
expedited_bit bit field true e h lt = ground arith
expedited_bit bit field false e h lt = ground arith

module _ {S : Type 0} (mail : Mail S) (slave index subindex timeout : ℕ) (source : S → Source)
    (serves : Serves mail slave source) (waits : 0 < timeout) where
  upload_answer-Gives :
      (rounds : ℕ) (out answer : List ℕ) (wkc : ℤ) (psize : ℕ) (p : List ℕ) (s : S)
      → positive wkc ≡ true
      → Opens (source s) answer
      → IsCut (source s)
      → (source s).asked ≡ index
      → (source s).toggle ≡ 0
      → length (source s).object ≤ psize
      → length (source s).object < 2147483648
      → length (source s).queue ≤ rounds
      → 16 ≤ length out
      → Gives
          (length (source s).object)
          (memcpy p 0 (source s).object)
          (upload_answer mail slave index subindex timeout rounds out answer wkc psize p s).0
  unfolding upload_answer
  upload_answer-Gives rounds out answer wkc psize p s came says cut asked turn fits long enough
        room =
      let o = source s in
      let P : Returned Upload × S → Type 0 =
        λ x. Gives (length o.object) (memcpy p 0 o.object) x.0 in
      let unexpected : Returned Upload × S = (
        done (record { wkc = pos 0; psize = psize; bytes = p }),
        refuse mail slave index subindex answer s,
      ) in
      let unanswered : Returned Upload × S =
        (done (record { wkc = wkc; psize = psize; bytes = p }), s) in
      let at_once = expedited mail slave index subindex timeout answer wkc psize p s in
      let by_size = normal mail slave index subindex timeout rounds out answer wkc psize p s in
      let pass : Bool → Bool → Bool → Returned Upload × S = λ b e x.
        if b then (if e then (if x then at_once else by_size) else unexpected) else unanswered in
      let expected : (is_response answer && word_at answer 9 == index) ≡ true =
        both (is_response answer) (word_at answer 9) index says.response (says.index ∙ asked) in
      let way : has_bits 0x02 (command answer) ≡ o.expedited =
        expedited_bit (bit_and (command answer) 0x02) (command answer / 2 % 2) o.expedited
          (command_fields (command answer) says.byte).3 says.kind (omega arith) in
      let good : P (pass true true o.expedited) =
        if_cases P o.expedited at_once by_size
          (λ yes_it.
            expedited-Gives mail slave index subindex timeout answer o.object wkc psize p s came
              says.byte (says.short yes_it) (says.value yes_it) fits)
          (λ not_it.
            normal-Gives mail slave index subindex timeout source serves waits rounds out answer wkc
              psize p s came says cut not_it turn fits long enough room) in
      subst
        (λ b. P (
          pass b (is_response answer && word_at answer 9 == index)
            (has_bits 0x02 (command answer))))
        (sym came)
        (subst (λ e. P (pass true e (has_bits 0x02 (command answer)))) (sym expected)
          (subst (λ x. P (pass true true x)) (sym way) good))
    where
      both : (b : Bool) (w i : ℕ) → b ≡ true → w ≡ i → (b && w == i) ≡ true
      both b w i p q = ground arith

-- `ecx_SDOread` from a slave that serves uploads by the protocol, whichever way it cuts the object: in
-- one answer, expedited or not, or in segments. It ends within as many rounds as there are segments,
-- the result is positive, and the size and the buffer are those of the object, when the caller's
-- size has room for it.
pub sdoread-Gives :
    {S : Type 0} (mail : Mail S) (slave : ℕ) (source : S → Source)
    (serves : Serves mail slave source) (rounds index subindex : ℕ) (ca : Bool) (psize : ℕ)
    (p : List ℕ) (timeout : ℕ) (s : S)
    → IsCut (source s)
    → 0 < timeout
    → index < 65536
    → length (source s).object ≤ psize
    → length (source s).object < 2147483648
    → length (source s).queue ≤ rounds
    → Gives
        (length (source s).object)
        (memcpy p 0 (source s).object)
        (sdoread mail rounds slave index subindex ca psize p timeout s).0
unfolding sdoread
sdoread-Gives mail slave source serves rounds index subindex ca psize p timeout s cut waits small
      fits long enough =
    let o = source s in
    let mbxin = (mail.receive slave empty_mbx 0 s).0.1 in
    let s1 = (mail.receive slave empty_mbx 0 s).1 in
    let cnt = (mail.next_cnt slave s1).0 in
    let s2 = (mail.next_cnt slave s1).1 in
    let sub = if ca && ltb 1 subindex then 1 else subindex in
    let m = upload_request cnt (if ca then sdo_up_req_ca else sdo_up_req) index sub empty_mbx in
    let r = ask mail slave m mbxin timeout s2 in
    let a = r.0.1 in
    let asked = ask-Serves mail slave source serves m mbxin timeout s2 waits in
    let same : source s2 ≡ o = serves.counted s1 ∙ serves.left empty_mbx 0 s in
    let now : take_request m (source s2) ≡ record o { toggle = 0; asked = index; reply = opened } =
      ap (take_request m) same ∙ opening_asked cnt index sub ca o small in
    let after : source r.1 ≡ record o { toggle = 0; asked = index; reply = opened } =
      asked.2 ∙ now in
    let says : Opens (record o { toggle = 0; asked = index; reply = opened }) a =
      subst (λ (k : Source). Tells k.reply k a) now asked.1 in
    let room : 16 ≤ length m = omega (
      arith,
      length-upload_request cnt (if ca then sdo_up_req_ca else sdo_up_req) index sub empty_mbx,
      length-empty_mbx,
    ) in
    subst
      (λ (k : Source).
        Gives (length k.object) (memcpy p 0 k.object)
          (upload_answer mail slave index sub timeout rounds m a r.0.0 psize p r.1).0)
      after
      (upload_answer-Gives mail slave index sub timeout source serves waits rounds m a r.0.0 psize p
        r.1 asked.0 (subst (λ (k : Source). Opens k a) (sym after) says)
        (subst IsCut (sym after) (record { whole = cut.whole; fits = cut.fits }))
        (ap (λ (k : Source). k.asked) after) (ap (λ (k : Source). k.toggle) after)
        (subst (λ (k : Source). length k.object ≤ psize) (sym after) fits)
        (subst (λ (k : Source). length k.object < 2147483648) (sym after) long)
        (subst (λ (k : Source). length k.queue ≤ rounds) (sym after) enough) room)
