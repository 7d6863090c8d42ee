-- ===== src/Soem/Coe/Upload/Segments.antt =====
-- The loop over the segments of `ecx_SDOread` against the slave that serves them.
use mathlib.Core.Path.{subst}
use mathlib.Core.List.{append-nil}
use bharatiya_beagle_bone.Common.{
  ℕ, zero, suc, ◌+◌, ◌-◌, ◌*◌, ◌≡◌, ◌≤◌, ◌<◌, ap, sym, ◌∙◌, arith, Bool, true, if◌then◌else◌, List,
  [], ◌∷◌, ◌++◌, length, length-append, set, memcpy, bytes_at, if_cases,
}
use bharatiya_beagle_bone.Common.Int.{ℤ}
use bharatiya_beagle_bone.Soem.Base.{positive}
use bharatiya_beagle_bone.Soem.Coe.{Mail, Returned, done, sdo_seg_up_req, ask}
use bharatiya_beagle_bone.Soem.Coe.Upload.{Upload, upload_request, take_segment, upload_segments}
use bharatiya_beagle_bone.Soem.Coe.Upload.Server.{
  Source, is_nil, take_request, HoldsSegment, Tells, Serves, joined,
}
use bharatiya_beagle_bone.Soem.Coe.Upload.Fields.{
  HoldsSegment-is_segment, HoldsSegment-is_last, HoldsSegment-size,
}
use bharatiya_beagle_bone.Soem.Coe.Upload.Asking.{
  ask-Serves, is_nil-true, is_nil-false, Gives, length-upload_request, segment_asked,
}

-- Two blocks written in a row.
pub memcpy-append :
    (dst : List ℕ) (at : ℕ) (xs ys : List ℕ)
    → memcpy (memcpy dst at xs) (at + length xs) ys ≡ memcpy dst at (xs ++ ys)
unfolding memcpy
memcpy-append dst at [] ys = ap (λ k. memcpy dst k ys) (omega arith)
memcpy-append dst at (x ∷ xs) ys =
    ap (λ k. memcpy (memcpy (set dst at x) (at + 1) xs) k ys) (omega arith)
    ∙ memcpy-append (set dst at x) (at + 1) xs ys

-- What the later segments add, behind a block that is in the buffer.
rest_joined :
    (p : List ℕ) (at psize : ℕ) (c : List ℕ) (q : List (List ℕ)) (d : List ℕ) (more : List (List ℕ))
    → q ≡ d ∷ more
    → (x : Returned Upload)
    → Gives
        (psize + length c + length (joined (d ∷ more)))
        (memcpy (memcpy p at c) (at + length c) (joined (d ∷ more)))
        x
    → Gives (psize + length (c ++ joined q)) (memcpy p at (c ++ joined q)) x
rest_joined p at psize c q d more split x ih =
    let tail : joined (d ∷ more) ≡ joined q = ap joined (sym split) in
    let size : psize + length c + length (joined (d ∷ more)) ≡ psize + length (c ++ joined q) =
      omega (arith, ap length tail, length-append c (joined q)) in
    let bytes : memcpy (memcpy p at c) (at + length c) (joined (d ∷ more))
        ≡ memcpy p at (c ++ joined q) =
      ap (memcpy (memcpy p at c) (at + length c)) tail ∙ memcpy-append p at c (joined q) in
    subst (λ k. Gives k (memcpy p at (c ++ joined q)) x) size
      (subst (λ b. Gives (psize + length c + length (joined (d ∷ more))) b x) bytes ih)

module _ {S : Type 0} (mail : Mail S) (slave index subindex timeout : ℕ) (source : S → Source)
    (serves : Serves mail slave source) (waits : 0 < timeout) where
  -- An answer that holds a segment is taken into the buffer.
  take_segment-held :
      (at : ℕ) (p : List ℕ) (psize : ℕ) (wkc : ℤ) (a c : List ℕ) (last : Bool) (s : S)
      → positive wkc ≡ true
      → HoldsSegment a c last
      → take_segment mail slave index subindex timeout at p psize wkc a s
        ≡ (last, record { wkc = wkc; psize = psize + length c; bytes = memcpy p at c }, s)
  unfolding take_segment
  take_segment-held at p psize wkc a c last s came holds =
      let size = HoldsSegment-size a c last holds in
      let block = ap (bytes_at a 9) size ∙ holds.bytes in
      ground (
        arith,
        HoldsSegment-is_segment a c last holds,
        HoldsSegment-is_last a c last holds,
        size,
        block,
      )

  pub upload_segments-Gives :
      (rounds toggle at psize : ℕ) (p out mbxin c : List ℕ) (q : List (List ℕ)) (s : S)
      → (source s).queue ≡ c ∷ q
      → length (c ∷ q) ≤ rounds
      → toggle ≡ 16 * (source s).toggle
      → (source s).toggle ≤ 1
      → 16 ≤ length out
      → Gives
          (psize + length (joined (c ∷ q)))
          (memcpy p at (joined (c ∷ q)))
          (upload_segments mail slave index subindex timeout rounds toggle at p psize out mbxin s).0
  unfolding upload_segments
  upload_segments-Gives zero toggle at psize p out mbxin c q s e enough tg le fits =
      absurd (omega arith)
  upload_segments-Gives (suc rounds) toggle at psize p out mbxin c q s e enough tg le fits =
      let s1 = (mail.next_cnt slave s).1 in
      let m =
        upload_request (mail.next_cnt slave s).0 (sdo_seg_up_req + toggle) index subindex out in
      let r = ask mail slave m mbxin timeout s1 in
      let a = r.0.1 in
      let asked = ask-Serves mail slave source serves m mbxin timeout s1 waits in
      let now =
        ap (take_request m) (serves.counted s)
        ∙ segment_asked (mail.next_cnt slave s).0 toggle index subindex out c q (source s) fits tg
            le e in
      let holds : HoldsSegment a c (is_nil q) =
        subst (λ (o : Source). Tells o.reply o a) now asked.1 in
      let n = length c in
      let p1 = memcpy p at c in
      let P : Returned Upload × S → Type 0 =
        λ x. Gives (psize + length (c ++ joined q)) (memcpy p at (c ++ joined q)) x.0 in
      let rest : Upload → S → Returned Upload × S = λ u s3.
        upload_segments mail slave index subindex timeout rounds (0x10 - toggle)
          (at + (u.psize - psize)) u.bytes u.psize m a s3 in
      let u : Upload = record { wkc = r.0.0; psize = psize + n; bytes = p1 } in
      let after = asked.2 ∙ now in
      let turn : (source r.1).toggle ≡ 1 - (source s).toggle =
        ap (λ (o : Source). o.toggle) after in
      subst (λ (t : Bool × Upload × S). P (if t.0 then (done t.1, t.2) else rest t.1 t.2))
        (sym (take_segment-held at p psize r.0.0 a c (is_nil q) r.1 asked.0 holds))
        (if_cases P (is_nil q) (done u, r.1) (rest u r.1)
          (λ end.
            let all : c ++ joined q ≡ c =
              ap (λ k. c ++ joined k) (is_nil-true q end) ∙ append-nil c in
            (asked.0, ap (λ k. psize + length k) (sym all), ap (memcpy p at) (sym all)))
          (λ go_on.
            let (d, more, split) = is_nil-false q go_on in
            let step : at + (psize + n - psize) ≡ at + n = omega arith in
            rest_joined p at psize c q d more split (rest u r.1).0 (
              subst
                (λ k.
                  Gives (psize + n + length (joined (d ∷ more))) (memcpy p1 k (joined (d ∷ more)))
                    (rest u r.1).0)
                step
                (upload_segments-Gives rounds (0x10 - toggle) (at + (psize + n - psize)) (psize + n)
                  p1 m a d more r.1 (ap (λ (o : Source). o.queue) after ∙ split)
                  (omega (arith, ap length split)) (omega (arith, turn, tg, le))
                  (omega (arith, turn, le))
                  (omega (
                    arith,
                    length-upload_request (mail.next_cnt slave s).0 (sdo_seg_up_req + toggle) index
                        subindex out,
                  ))))))
