-- ===== src/Soem/Coe/Download/Delivered.antt =====
-- `ecx_SDOwrite` gives the slave the whole parameter.
use mathlib.Core.Path.{subst}
use bharatiya_beagle_bone.Common.{
  ℕ, ◌+◌, ◌-◌, ◌*◌, ◌/◌, ◌%◌, ◌≡◌, ◌≤◌, ◌<◌, refl, ap, sym, ◌∙◌, arith, Bool, true, false, ◌&&◌,
  not, leb, ltb, if◌then◌else◌, List, ◌∷◌, ◌++◌, byte0, byte1, bit_and, bit_or, u16, memcpy,
  bytes_at, if_cases, length-memcpy,
}
use bharatiya_beagle_bone.Common.Int.{ℤ}
use bharatiya_beagle_bone.Soem.Base.{positive}
use bharatiya_beagle_bone.Soem.Coe.{
  Mail, Returned, done, crashed, sdoreq, sdo_down_init, sdo_down_init_ca, sdo_down_exp, long_bytes,
  empty_mbx, coe_message, ask,
}
use bharatiya_beagle_bone.Soem.Coe.Download.{
  download_segments, download_expedited, download_normal, sdowrite,
}
use bharatiya_beagle_bone.Soem.Coe.Download.Receiver.{Object, Accepts}
use bharatiya_beagle_bone.Soem.Coe.Download.Asking.{ask-Accepts, check-initiate}
use bharatiya_beagle_bone.Soem.Coe.Download.Initiating.{
  expedited-Begins, normal-Begins, length-empty_mbx,
}
use bharatiya_beagle_bone.Soem.Coe.Download.Loop.{
  Delivers, bytes_at-append, segment_share, download_segments-Delivers,
}

-- The end of `download_normal`, when nothing was refused.
goes_on_or_ends {ℓ κ} :
    {A : Type ℓ} (P : A → Type κ) (got last : Bool) (rest end : A)
    → got ≡ true
    → (last ≡ true → P end)
    → (last ≡ false → P rest)
    → P (if got && not false && not last then rest else end)
goes_on_or_ends P true true rest end e p q = p refl
goes_on_or_ends P true false rest end e p q = q refl
goes_on_or_ends P false last rest end e p q = cc

module _ {S : Type 0} (mail : Mail S) (slave index subindex timeout : ℕ) (object : S → Object)
    (size : ℕ) (accepts : Accepts mail slave object size) (waits : 0 < timeout)
    (small : index < 65536) where
  expedited-Delivers :
      (psize : ℕ) (p mbxin : List ℕ) (s : S)
      → 1 ≤ psize
      → psize ≤ 4
      → Delivers object
          (bytes_at p 0 psize)
          (download_expedited mail slave index subindex timeout psize p mbxin s)
  unfolding download_expedited
  expedited-Delivers psize p mbxin s one le =
      let cnt = (mail.next_cnt slave s).0 in
      let s1 = (mail.next_cnt slave s).1 in
      let m = memcpy empty_mbx 0 (
        coe_message 0x0a cnt 0 sdoreq (
          bit_or sdo_down_exp (bit_and ((4 - psize) * 4) 0x0c)
          ∷ byte0 index
          ∷ byte1 index
          ∷ subindex
          ∷ bytes_at p 0 psize)) in
      let r = ask mail slave m mbxin timeout s1 in
      let begins = expedited-Begins cnt index subindex psize p (object s1) small one le in
      let asked = ask-Accepts mail slave object size accepts m mbxin timeout s1 waits in
      let e =
        check-initiate mail slave object size accepts index subindex subindex timeout m mbxin s1
          waits begins.kind begins.of_index begins.of_sub in
      subst (λ (chk : ℤ × Bool × S). Delivers object (bytes_at p 0 psize) (done chk.0, chk.2))
        (sym e)
        (record {
          succeeds = asked.0;
          written = ap (λ (o : Object). o.bytes) asked.2 ∙ begins.written;
          all = ap (λ (o : Object). o.complete) asked.2 ∙ begins.all;
        })

  normal-Delivers :
      (rounds maxdata psize : ℕ) (ca : Bool) (p mbxin : List ℕ) (s : S)
      → maxdata ≤ 1470
      → psize < rounds
      → psize < 4294967296
      → Delivers object
          (bytes_at p 0 psize)
          (download_normal mail slave index subindex timeout rounds maxdata ca psize p mbxin s)
  unfolding download_normal
  normal-Delivers rounds maxdata psize ca p mbxin s room enough long =
      let last = leb psize maxdata in
      let frame = if last then psize else maxdata in
      let share = segment_share psize maxdata in
      let cnt = (mail.next_cnt slave s).0 in
      let s1 = (mail.next_cnt slave s).1 in
      let cmd = if ca then sdo_down_init_ca else sdo_down_init in
      let sub = if ca && ltb 1 subindex then 1 else subindex in
      let src =
        coe_message (u16 (0x0a + frame)) cnt 0 sdoreq
          (cmd ∷ byte0 index ∷ byte1 index ∷ sub ∷ long_bytes psize (bytes_at p 0 frame)) in
      let m = memcpy empty_mbx 0 src in
      let r = ask mail slave m mbxin timeout s1 in
      let begins =
        normal-Begins cnt cmd index sub psize frame p (object s1) (init_command ca) small long
          (omega (arith, share.0)) in
      let asked = ask-Accepts mail slave object size accepts m mbxin timeout s1 waits in
      let e =
        check-initiate mail slave object size accepts index subindex sub timeout m mbxin s1 waits
          begins.kind begins.of_index begins.of_sub in
      let rest : ℤ × Bool × S → Returned ℤ × S = λ chk.
        download_segments mail slave index subindex timeout rounds (maxdata + 7) p frame
          (psize - frame) 0 m r.0.1 chk.2 in
      let P : Returned ℤ × S → Type 0 = Delivers object (bytes_at p 0 psize) in
      let written = ap (λ (o : Object). o.bytes) asked.2 ∙ begins.written in
      let complete = ap (λ (o : Object). o.complete) asked.2 ∙ begins.all in
      subst
        (λ (chk : ℤ × Bool × S).
          P (if positive r.0.0 && not chk.1 && not last then rest chk else (done chk.0, chk.2)))
        (sym e)
        (goes_on_or_ends P (positive r.0.0) last (rest (r.0.0, false, r.1)) (done r.0.0, r.1)
          asked.0
          (λ whole. record {
            succeeds = asked.0;
            written = written ∙ ap (bytes_at p 0) (share.1 whole);
            all = complete ∙ ground (arith, share.1 whole);
          })
          (λ part.
            let full = share.2 part in
            let turn = ap (λ (o : Object). o.toggle) asked.2 ∙ begins.turn in
            let joined =
              ap (λ ys. ys ++ bytes_at p frame (psize - frame)) written
              ∙ ap (λ k. bytes_at p 0 frame ++ bytes_at p k (psize - frame)) (omega arith)
              ∙ bytes_at-append p 0 frame (psize - frame)
              ∙ ap (bytes_at p 0) (omega (arith, full.0, full.1)) in
            subst (λ bytes. Delivers object bytes (rest (r.0.0, false, r.1))) joined
              (download_segments-Delivers mail slave index subindex timeout object size accepts
                waits rounds (maxdata + 7) p frame (psize - frame) 0 m r.0.1 r.1 (omega arith)
                (omega arith) (omega arith)
                (omega (arith, length-memcpy empty_mbx 0 src, length-empty_mbx))
                (omega (arith, turn)) (omega (arith, turn))
                (complete ∙ ground (arith, full.0, full.1)))))
    where
      init_command :
          (ca : Bool)
          → let cmd = if ca then sdo_down_init_ca else sdo_down_init in
            (cmd / 32 ≡ 1) × (cmd / 2 % 2 ≡ 0)
      init_command true = (refl, refl)
      init_command false = (refl, refl)

  -- `ecx_SDOwrite` on a slave that takes the messages of a download by the protocol: it ends within
  -- as many rounds as the parameter has bytes and one more, the result is positive, and the slave
  -- holds the whole parameter and has seen the last of it. The mailbox has 16 to EC_MAXMBX bytes,
  -- and the parameter is not empty, unless by complete access.
  pub sdowrite-Delivers :
      (rounds psize : ℕ) (ca : Bool) (p : List ℕ) (s : S)
      → 16 ≤ size
      → size ≤ 1486
      → psize < rounds
      → psize < 2147483648
      → (ca ≡ false → 1 ≤ psize)
      → Delivers object
          (bytes_at p 0 psize)
          (sdowrite mail rounds slave index subindex ca psize p timeout s)
  unfolding sdowrite
  sdowrite-Delivers rounds psize ca p s low high enough long some_bytes =
      let mbxin = (mail.receive slave empty_mbx 0 s).0.1 in
      let s1 = (mail.receive slave empty_mbx 0 s).1 in
      let room = mail.mbx_l slave s1 in
      let fits : room ≡ size = accepts.sized s1 in
      let P : Returned ℤ × S → Type 0 = Delivers object (bytes_at p 0 psize) in
      let short = download_expedited mail slave index subindex timeout psize p mbxin s1 in
      let normal =
        download_normal mail slave index subindex timeout rounds (room - 0x10) ca psize p mbxin
          s1 in
      if_cases P (leb psize 4 && not ca) short (if ltb room 0x10 then (crashed, s1) else normal)
        (λ e. expedited-Delivers psize p mbxin s1 (ground (arith, some_bytes)) (ground arith))
        (λ e.
          if_cases P (ltb room 0x10) (crashed, s1) normal
            (λ small_room. absurd (ground (arith, fits)))
            (λ _.
              normal-Delivers rounds (room - 0x10) psize ca p mbxin s1 (omega (arith, fits)) enough
                (omega arith)))
