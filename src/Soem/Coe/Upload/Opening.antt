-- ===== src/Soem/Coe/Upload/Opening.antt =====
-- The first answer of `ecx_SDOread`: the whole object, or its size and its start.
use mathlib.Core.Path.{subst}
use mathlib.Core.List.{append-nil}
use bharatiya_beagle_bone.Common.{
  ℕ, ◌+◌, ◌-◌, ◌/◌, ◌%◌, ◌≡◌, ◌≤◌, ◌<◌, refl, ap, sym, ◌∙◌, arith, Bool, true, false, leb, ltb,
  if◌then◌else◌, List, [], ◌∷◌, ◌++◌, byte0, byte1, bit_and, u16, memcpy, bytes_at, if_cases,
  length, length-append,
}
use bharatiya_beagle_bone.Common.Int.{ℤ, pos}
use bharatiya_beagle_bone.Soem.Frame.{word_at}
use bharatiya_beagle_bone.Soem.Base.{positive}
use bharatiya_beagle_bone.Soem.Coe.{
  Mail, Returned, done, crashed, sdoreq, sdo_up_req, sdo_up_req_ca, empty_mbx, coe_message, command,
}
use bharatiya_beagle_bone.Soem.Coe.Download.Segments.{message_byte}
use bharatiya_beagle_bone.Soem.Coe.Download.Initiating.{length-empty_mbx}
use bharatiya_beagle_bone.Soem.Coe.Upload.{
  Upload, upload_request, upload_segments, expedited, normal,
}
use bharatiya_beagle_bone.Soem.Coe.Upload.Server.{
  Source, opened, take_request, Opens, Serves, joined, is_nil, IsCut,
}
use bharatiya_beagle_bone.Soem.Coe.Upload.Fields.{command_fields}
use bharatiya_beagle_bone.Soem.Coe.Upload.Asking.{is_nil-false, Gives}
use bharatiya_beagle_bone.Soem.Coe.Upload.Segments.{memcpy-append, upload_segments-Gives}

-- The first request, at the slave.
pub opening_asked :
    (cnt index subindex : ℕ) (ca : Bool) (o : Source)
    → index < 65536
    → take_request
        (upload_request cnt (if ca then sdo_up_req_ca else sdo_up_req) index subindex empty_mbx)
        o
      ≡ record o { toggle = 0; asked = index; reply = opened }
unfolding take_request upload_request coe_message
opening_asked cnt index subindex ca o small =
    let cmd = if ca then sdo_up_req_ca else sdo_up_req in
    let src =
      coe_message 0x0a cnt 0 sdoreq
        (cmd ∷ byte0 index ∷ byte1 index ∷ subindex ∷ 0 ∷ 0 ∷ 0 ∷ 0 ∷ []) in
    let m = memcpy empty_mbx 0 src in
    let fits : 16 ≤ length empty_mbx = omega (arith, length-empty_mbx) in
    let here : command m ≡ cmd = message_byte empty_mbx src 8 (omega arith) fits in
    let low = message_byte empty_mbx src 9 (omega arith) fits in
    let high = message_byte empty_mbx src 10 (omega arith) fits in
    let at : word_at m 9 ≡ index = omega (arith, low, high) in
    opens m o index (here_kind ca (command m) here) at
  where
    here_kind : (ca : Bool) (c : ℕ) → c ≡ (if ca then sdo_up_req_ca else sdo_up_req) → c / 32 ≡ 2
    here_kind true c e = omega arith
    here_kind false c e = omega arith

    opens :
        (m : List ℕ) (o : Source) (index : ℕ)
        → command m / 32 ≡ 2
        → word_at m 9 ≡ index
        → take_request m o ≡ record o { toggle = 0; asked = index; reply = opened }
    opens m o index kind at = ground (arith, at)

module _ {S : Type 0} (mail : Mail S) (slave index subindex timeout : ℕ) where
  pub expedited-Gives :
      (answer object : List ℕ) (wkc : ℤ) (psize : ℕ) (p : List ℕ) (s : S)
      → positive wkc ≡ true
      → command answer < 256
      → 4 - command answer / 4 % 4 ≡ length object
      → bytes_at answer 12 (length object) ≡ object
      → length object ≤ psize
      → Gives
          (length object)
          (memcpy p 0 object)
          (expedited mail slave index subindex timeout answer wkc psize p s).0
  unfolding expedited
  expedited-Gives answer object wkc psize p s came byte short value fits =
      let n : 4 - bit_and (command answer / 4) 0x03 ≡ length object =
        ap (λ k. 4 - k) (command_fields (command answer) byte).4 ∙ short in
      let size = length object in
      let P : Returned Upload × S → Type 0 = λ x. Gives size (memcpy p 0 object) x.0 in
      let too_small : Returned Upload × S = (
        done (record { wkc = pos 0; psize = psize; bytes = p }),
        mail.packet_error slave index subindex 3 s,
      ) in
      let taken : ℕ → Returned Upload × S = λ k.
        (done (record { wkc = wkc; psize = k; bytes = memcpy p 0 (bytes_at answer 12 k) }), s) in
      subst (λ k. P (if leb k psize then taken k else too_small)) (sym n)
        (if_cases P (leb size psize) (taken size) too_small
          (λ _. (came, refl, ap (memcpy p 0) value)) (λ no. absurd (ground arith)))

  -- The start is in the buffer, and the segments bring the rest.
  in_segments-Gives :
      (source : S → Source) (serves : Serves mail slave source) (waits : 0 < timeout) (rounds : ℕ)
      (out answer p : List ℕ) (s : S)
      → (source s).expedited ≡ false
      → (source s).toggle ≡ 0
      → (source s).first ++ joined (source s).queue ≡ (source s).object
      → bytes_at answer 16 (length (source s).first) ≡ (source s).first
      → length (source s).first < length (source s).object
      → length (source s).queue ≤ rounds
      → 16 ≤ length out
      → let f = length (source s).first in
        Gives
          (length (source s).object)
          (memcpy p 0 (source s).object)
          (upload_segments mail slave index subindex timeout rounds 0 f
            (memcpy p 0 (bytes_at answer 16 f))
            f
            out
            answer
            s).0
  in_segments-Gives source serves waits rounds out answer p s kind turn whole start more enough
        room =
      let o = source s in
      let first = o.first in
      let f = length first in
      let begun = memcpy p 0 (bytes_at answer 16 f) in
      let x = upload_segments mail slave index subindex timeout rounds 0 f begun f out answer s in
      let some_left : is_nil o.queue ≡ false = left_over first o.object o.queue whole more in
      let (c, q, split) = is_nil-false o.queue some_left in
      let ih =
        upload_segments-Gives mail slave index subindex timeout source serves waits rounds 0 f f
          begun out answer c q s split (omega (arith, ap length split)) (omega (arith, turn))
          (omega (arith, turn)) room in
      let tail : first ++ joined (c ∷ q) ≡ o.object =
        ap (λ k. first ++ joined k) (sym split) ∙ whole in
      let size : f + length (joined (c ∷ q)) ≡ length o.object =
        omega (arith, length-append first (joined (c ∷ q)), ap length tail) in
      let bytes : memcpy begun f (joined (c ∷ q)) ≡ memcpy p 0 o.object =
        ap (λ k. memcpy (memcpy p 0 k) f (joined (c ∷ q))) start
        ∙ ap (λ k. memcpy (memcpy p 0 first) k (joined (c ∷ q))) (from_zero f)
        ∙ memcpy-append p 0 first (joined (c ∷ q))
        ∙ ap (memcpy p 0) tail in
      subst (λ k. Gives k (memcpy p 0 o.object) x.0) size
        (subst (λ b. Gives (f + length (joined (c ∷ q))) b x.0) bytes ih)
    where
      from_zero : (n : ℕ) → n ≡ 0 + n
      from_zero n = omega arith

      left_over :
          (first object : List ℕ) (q : List (List ℕ))
          → first ++ joined q ≡ object
          → length first < length object
          → is_nil q ≡ false
      left_over first object [] whole lt =
          absurd (omega (arith, ap length (sym (append-nil first) ∙ whole)))
      left_over first object (c ∷ q) whole lt = refl

  pub normal-Gives :
      (source : S → Source) (serves : Serves mail slave source) (waits : 0 < timeout) (rounds : ℕ)
      (out answer : List ℕ) (wkc : ℤ) (psize : ℕ) (p : List ℕ) (s : S)
      → positive wkc ≡ true
      → Opens (source s) answer
      → IsCut (source s)
      → (source s).expedited ≡ false
      → (source s).toggle ≡ 0
      → length (source s).object ≤ psize
      → length (source s).object < 2147483648
      → length (source s).queue ≤ rounds
      → 16 ≤ length out
      → Gives
          (length (source s).object)
          (memcpy p 0 (source s).object)
          (normal mail slave index subindex timeout rounds out answer wkc psize p s).0
  unfolding normal
  normal-Gives source serves waits rounds out answer wkc psize p s came says cut kind turn fits long
        enough room =
      let o = source s in
      let object = o.object in
      let first = o.first in
      let n = length object in
      let f = length first in
      let whole : first ++ joined o.queue ≡ object = cut.whole kind in
      let sizes : f + length (joined o.queue) ≡ n =
        omega (arith, length-append first (joined o.queue), ap length whole) in
      let framesize : u16 (word_at answer 0 + 65536 - 10) ≡ f =
        omega (arith, says.size kind, cut.fits) in
      let P : Returned Upload × S → Type 0 = λ x. Gives n (memcpy p 0 object) x.0 in
      let too_small : Returned Upload × S = (
        done (record { wkc = pos 0; psize = psize; bytes = p }),
        mail.packet_error slave index subindex 3 s,
      ) in
      let taken : ℕ → Returned Upload × S = λ k.
        (done (record { wkc = wkc; psize = k; bytes = memcpy p 0 (bytes_at answer 16 k) }), s) in
      let in_segments : ℕ → Returned Upload × S = λ k.
        upload_segments mail slave index subindex timeout rounds 0 k
          (memcpy p 0 (bytes_at answer 16 k)) k out answer s in
      let all : ℕ → ℕ → Returned Upload × S = λ sdolen framedatasize.
        if leb 0x80000000 sdolen
        then (crashed, s)
        else if leb sdolen psize
        then (if ltb framedatasize sdolen then in_segments framedatasize else taken sdolen)
        else too_small in
      let inner = if ltb f n then in_segments f else taken n in
      let good : P (all n f) =
        if_cases P (leb 0x80000000 n) (crashed, s) (if leb n psize then inner else too_small)
          (λ no. absurd (ground arith))
          (λ _.
            if_cases P (leb n psize) inner too_small
              (λ _.
                if_cases P (ltb f n) (in_segments f) (taken n)
                  (λ more.
                    in_segments-Gives source serves waits rounds out answer p s kind turn whole
                      (says.start kind) (ground arith) enough room)
                  (λ end.
                    let nothing : joined o.queue ≡ [] =
                      empty (joined o.queue) (ground (arith, sizes)) in
                    let same : first ≡ object =
                      sym (append-nil first) ∙ ap (λ k. first ++ k) (sym nothing) ∙ whole in
                    (
                      came,
                      refl,
                      ap (memcpy p 0)
                          (ap (bytes_at answer 16) (ap length (sym same)) ∙ says.start kind ∙ same),
                    )))
              (λ no. absurd (ground arith))) in
      subst (λ k. P (all k (u16 (word_at answer 0 + 65536 - 10)))) (sym (says.announced kind))
        (subst (λ k. P (all n k)) (sym framesize) good)
    where
      empty : (xs : List ℕ) → length xs ≡ 0 → xs ≡ []
      empty [] e = refl
      empty (x ∷ xs) e = absurd (omega arith)
