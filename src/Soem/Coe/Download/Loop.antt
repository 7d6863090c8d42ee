-- ===== src/Soem/Coe/Download/Loop.antt =====
-- The loop over the segments of `ecx_SDOwrite` against the slave that takes them.
use mathlib.Core.Path.{subst}
use mathlib.Core.List.{append_assoc}
use bharatiya_beagle_bone.Common.{
  ℕ, zero, suc, ◌+◌, ◌-◌, ◌*◌, ◌≡◌, ◌≤◌, ◌<◌, refl, ap, sym, ◌∙◌, arith, Bool, true, false, ◌||◌,
  if◌then◌else◌, List, ◌∷◌, ◌++◌, get_or, length, memcpy, bytes_at, leb, length-memcpy,
}
use bharatiya_beagle_bone.Common.Int.{ℤ}
use bharatiya_beagle_bone.Soem.Base.{positive}
use bharatiya_beagle_bone.Soem.Coe.{
  Mail, Returned, done, unfinished, crashed, sdoreq, coe_message, ask,
}
use bharatiya_beagle_bone.Soem.Coe.Download.{segment_length, segment_command, download_segments}
use bharatiya_beagle_bone.Soem.Coe.Download.Receiver.{Object, Accepts, take_message}
use bharatiya_beagle_bone.Soem.Coe.Download.Segments.{segment_taken}
use bharatiya_beagle_bone.Soem.Coe.Download.Asking.{ask-Accepts, check-segment}

-- The function has returned a positive working counter.
abbrev pub Succeeds : Returned ℤ → Type 0
Succeeds (done wkc) = positive wkc ≡ true
Succeeds unfinished = ⊥
Succeeds crashed = ⊥

-- It has, and the slave has these bytes and all of them.
pub record Delivers {S : Type 0} (object : S → Object) (bytes : List ℕ) (r : Returned ℤ × S)
    : Type 0 where
  pub succeeds : Succeeds r.0
  pub written : (object r.1).bytes ≡ bytes
  pub all : (object r.1).complete ≡ true

-- Two blocks in a row.
pub bytes_at-append :
    (xs : List ℕ) (at m n : ℕ) → bytes_at xs at m ++ bytes_at xs (at + m) n ≡ bytes_at xs at (m + n)
unfolding bytes_at
bytes_at-append xs at zero n =
    ap (λ k. bytes_at xs k n) (plus_zero at) ∙ ap (bytes_at xs at) (zero_plus n)
  where
    plus_zero : (a : ℕ) → a + 0 ≡ a
    plus_zero a = omega arith

    zero_plus : (a : ℕ) → a ≡ 0 + a
    zero_plus a = omega arith
bytes_at-append xs at (suc m) n =
    ap (λ ys. get_or xs at 0 ∷ ys)
      (ap (λ k. bytes_at xs (at + 1) m ++ bytes_at xs k n) (past at m)
        ∙ bytes_at-append xs (at + 1) m n)
    ∙ ap (bytes_at xs at) (suc_plus m n)
  where
    past : (a b : ℕ) → a + suc b ≡ a + 1 + b
    past a b = omega arith

    suc_plus : (a b : ℕ) → suc (a + b) ≡ suc a + b
    suc_plus a b = omega arith

-- How much of what is left a segment takes.
pub segment_share :
    (psize maxdata : ℕ)
    → let frame = if leb psize maxdata then psize else maxdata in
      (frame ≤ maxdata)
      × (leb psize maxdata ≡ true → frame ≡ psize)
      × (leb psize maxdata ≡ false → (frame ≡ maxdata) × (maxdata < psize))
segment_share psize maxdata = (ground arith, λ e. ground arith, λ e. (ground arith, ground arith))

-- The end of a pass, when nothing was refused.
ends_or_goes_on {ℓ κ} :
    {A : Type ℓ} (P : A → Type κ) (last : Bool) (end rest : A)
    → (last ≡ true → P end)
    → (last ≡ false → P rest)
    → P (if last || false then end else rest)
ends_or_goes_on P true end rest p q = p refl
ends_or_goes_on P false end rest p q = q refl

module _ {S : Type 0} (mail : Mail S) (slave index subindex timeout : ℕ) (object : S → Object)
    (size : ℕ) (accepts : Accepts mail slave object size) (waits : 0 < timeout) where
  pub download_segments-Delivers :
      (rounds maxdata : ℕ) (p : List ℕ) (at psize toggle : ℕ) (out mbxin : List ℕ) (s : S)
      → psize < rounds
      → 7 ≤ maxdata
      → maxdata < 1478
      → 9 + maxdata ≤ length out
      → toggle ≡ 16 * (object s).toggle
      → (object s).toggle ≤ 1
      → (object s).complete ≡ false
      → Delivers object ((object s).bytes ++ bytes_at p at psize) (
          download_segments mail slave index subindex timeout rounds maxdata p at psize toggle out
            mbxin s)
  unfolding download_segments
  download_segments-Delivers zero maxdata p at psize toggle out mbxin s lt seven small fits tg le
        o =
      absurd (omega arith)
  download_segments-Delivers (suc rounds) maxdata p at psize toggle out mbxin s lt seven small fits
        tg le o =
      let last = leb psize maxdata in
      let frame = if last then psize else maxdata in
      let cnt = (mail.next_cnt slave s).0 in
      let s1 = (mail.next_cnt slave s).1 in
      let m = memcpy out 0 (
        coe_message (segment_length last frame) cnt 0 sdoreq
          ((segment_command last frame + toggle) ∷ bytes_at p at frame)) in
      let r = ask mail slave m mbxin timeout s1 in
      let rest : ℤ × Bool × S → Returned ℤ × S = λ chk.
        download_segments mail slave index subindex timeout rounds maxdata p (at + frame)
          (psize - frame) (0x10 - toggle) m r.0.1 chk.2 in
      let share = segment_share psize maxdata in
      let P : Returned ℤ × S → Type 0 = Delivers object ((object s).bytes ++ bytes_at p at psize) in
      let taken =
        segment_taken out p at frame cnt toggle last (object s) (omega arith) (omega arith)
          (λ no. omega (arith, (share.2 no).0)) tg le o in
      let e =
        check-segment mail slave object size accepts index subindex timeout m mbxin s1 waits
          taken.0 in
      let asked = ask-Accepts mail slave object size accepts m mbxin timeout s1 waits in
      let now : object r.1 ≡ record {
        bytes = (object s).bytes ++ bytes_at p at frame;
        announced = (object s).announced;
        toggle = 1 - (object s).toggle;
        complete = last;
        last = m;
      } =
        asked.2 ∙ ap (take_message m) (accepts.counted s) ∙ taken.1 in
      subst (λ (chk : ℤ × Bool × S). P (if last || chk.1 then (done chk.0, chk.2) else rest chk))
        (sym e)
        (ends_or_goes_on P last (done r.0.0, r.1) (rest (r.0.0, false, r.1))
          (λ yes_last. record {
            succeeds = asked.0;
            written =
                ap (λ (k : Object). k.bytes) now
                ∙ ap (λ k. (object s).bytes ++ bytes_at p at k) (share.1 yes_last);
            all = ap (λ (k : Object). k.complete) now ∙ yes_last;
          })
          (λ no_last.
            let full = share.2 no_last in
            let turn : (object r.1).toggle ≡ 1 - (object s).toggle =
              ap (λ (k : Object). k.toggle) now in
            let whole =
              ap (λ (k : Object). k.bytes ++ bytes_at p (at + frame) (psize - frame)) now
              ∙ append_assoc (object s).bytes (bytes_at p at frame)
                  (bytes_at p (at + frame) (psize - frame))
              ∙ ap (λ k. (object s).bytes ++ k)
                  (bytes_at-append p at frame (psize - frame)
                    ∙ ap (bytes_at p at) (omega (arith, full.0, full.1))) in
            subst (λ bytes. Delivers object bytes (rest (r.0.0, false, r.1))) whole
              (download_segments-Delivers rounds maxdata p (at + frame) (psize - frame)
                (0x10 - toggle) m r.0.1 r.1 (omega (arith, full.0, full.1)) seven small
                (omega (
                  arith,
                  length-memcpy out 0 (
                      coe_message (segment_length last frame) cnt 0 sdoreq
                        ((segment_command last frame + toggle) ∷ bytes_at p at frame)),
                ))
                (omega (arith, turn, tg, le)) (omega (arith, turn, le))
                (ap (λ (k : Object). k.complete) now ∙ no_last))))
