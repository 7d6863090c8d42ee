-- ===== src/Soem/Coe/Mapping/Total.antt =====
-- `ecx_readPDOassign` against the object dictionary itself.
use bharatiya_beagle_bone.Common.{
  ℕ, zero, suc, ◌+◌, ◌%◌, ◌≡◌, ◌≢◌, ◌≤◌, ◌<◌, refl, ap, ◌∙◌, arith, Bool, true, false, ltb, ◌==◌,
  ◌&&◌, if◌then◌else◌, List, get_or, u8, u16, u32, byte0, low_bytes, if_cases,
}
use bharatiya_beagle_bone.Soem.Frame.{word_at}
use bharatiya_beagle_bone.Soem.Base.{positive}
use bharatiya_beagle_bone.Soem.Coe.{Mail, Returned, done, unfinished, crashed, then_with, long_at}
use bharatiya_beagle_bone.Soem.Coe.Upload.{Upload}
use bharatiya_beagle_bone.Soem.Coe.Upload.Asking.{Gives}
use bharatiya_beagle_bone.Soem.Coe.Mapping.{read_object, add_entries, add_pdos, readpdoassign}

-- The lengths in bits of the entries of a PDO, of n entries from j on, and of the PDOs that an
-- object assigns. The length of an entry is the low byte of its value.
unfoldable pub bits_of_entries : (ℕ → ℕ → ℕ) → ℕ → ℕ → ℕ → ℕ
bits_of_entries dict idx j zero = 0
bits_of_entries dict idx j (suc n) = dict idx (u8 j) % 256 + bits_of_entries dict idx (j + 1) n

unfoldable pub bits_of_pdos : (ℕ → ℕ → ℕ) → ℕ → ℕ → ℕ → ℕ
unfolding bits_of_entries
bits_of_pdos dict assign j zero = 0
bits_of_pdos dict assign j (suc n) =
    let idx = u16 (dict assign (u8 j)) in
    (if idx == 0 then 0 else bits_of_entries dict idx 1 (u8 (dict idx 0)))
    + bits_of_pdos dict assign (j + 1) n

-- A read of an object into a variable of n bytes gives the value that the dictionary has there.
abbrev pub Answers : {S : Type 0} → Mail S → ℕ → ℕ → (ℕ → ℕ → ℕ) → ℕ → ℕ → ℕ → Type 0
Answers {S} mail rounds slave dict n index subindex =
    (s : S)
    → (size : ℕ) × Gives size (low_bytes n (dict index subindex))
        (read_object mail rounds slave n index subindex s).0

-- The PDO that an object assigns at j, or 0.
abbrev pub pdo_at : (ℕ → ℕ → ℕ) → ℕ → ℕ → ℕ
pdo_at dict assign j = u16 (dict assign (u8 j))

-- The slave answers the reads of the object's number and of the PDOs that it assigns, each of two
-- bytes at most, of the number of entries of each of these, of one byte, and of their entries, of
-- four bytes at most.
pub record Knows {S : Type 0} (mail : Mail S) (rounds slave : ℕ) (dict : ℕ → ℕ → ℕ) (assign : ℕ)
    : Type 0 where
  pub number : Answers mail rounds slave dict 2 assign 0
  pub assigned :
      (j : ℕ) → 1 ≤ j → j ≤ u16 (dict assign 0) → Answers mail rounds slave dict 2 assign (u8 j)
  pub counted :
      (j : ℕ)
      → 1 ≤ j
      → j ≤ u16 (dict assign 0)
      → pdo_at dict assign j ≢ 0
      → Answers mail rounds slave dict 1 (pdo_at dict assign j) 0
  pub entries :
      (j k : ℕ)
      → 1 ≤ j
      → j ≤ u16 (dict assign 0)
      → pdo_at dict assign j ≢ 0
      → 1 ≤ k
      → k ≤ u8 (dict (pdo_at dict assign j) 0)
      → Answers mail rounds slave dict 4 (pdo_at dict assign j) (u8 k)

-- What follows a read that gives these bytes.
then_with-Gives :
    {B S : Type 0} (size : ℕ) (bytes : List ℕ) (r : Returned Upload × S)
    (k : Upload → S → Returned B × S)
    → Gives size bytes r.0
    → (u : Upload) × (positive u.wkc ≡ true) × (u.bytes ≡ bytes) × (then_with r k ≡ k u r.1)
then_with-Gives size bytes (done u, s) k g = (u, g.0, g.2, refl)
then_with-Gives size bytes (unfinished, s) k g = absurd g
then_with-Gives size bytes (crashed, s) k g = absurd g

then_with-done :
    {A B S : Type 0} (r : Returned A × S) (k : A → S → Returned B × S) (a : A)
    → r.0 ≡ done a
    → then_with r k ≡ k a r.1
then_with-done r k a e = ap (λ (x : Returned _). then_with (x, r.1) k) e

one_entry :
    (b v low : ℕ)
    → low ≡ v % 256
    → (if ltb low 0xff then u32 (u32 b + low) else u32 (u32 b + 0xff)) ≡ u32 (b + v % 256)
one_entry b v low e = ground arith

module _ {S : Type 0} (mail : Mail S) (rounds slave : ℕ) (dict : ℕ → ℕ → ℕ) where
  add_entries-total :
      (n idx j bsize : ℕ) (s : S)
      → ((k : ℕ) → j ≤ k → k < j + n → Answers mail rounds slave dict 4 idx (u8 k))
      → (add_entries mail rounds slave n idx j (u32 bsize) s).0
        ≡ done (u32 (bsize + bits_of_entries dict idx j n))
  unfolding add_entries bits_of_entries low_bytes
  add_entries-total zero idx j bsize s reads = ap (λ k. done (u32 k)) (omega arith)
  add_entries-total (suc n) idx j bsize s reads =
      let r = read_object mail rounds slave 4 idx (u8 j) s in
      let v = dict idx (u8 j) in
      let low = byte0 (long_at (low_bytes 4 v) 0) in
      let step : List ℕ → S → Returned ℕ × S = λ bytes s1.
        add_entries mail rounds slave n idx (j + 1)
          (if ltb (byte0 (long_at bytes 0)) 0xff
            then u32 (u32 bsize + byte0 (long_at bytes 0))
            else u32 (u32 bsize + 0xff))
          s1 in
      let (u, _, held, e) =
        let (size, gives) = reads j (omega arith) (omega arith) s in
        then_with-Gives size (low_bytes 4 v) r (λ u. step u.bytes) gives in
      ap (λ (x : Returned ℕ × S). x.0) (e ∙ ap (λ bytes. step bytes r.1) held)
      ∙ ap (λ k. (add_entries mail rounds slave n idx (j + 1) k r.1).0)
          (one_entry bsize v low (omega arith))
      ∙ add_entries-total n idx (j + 1) (bsize + v % 256) r.1
          (λ k low high. reads k (omega (arith, low)) (omega (arith, high)))
      ∙ ap (λ k. done (u32 k)) (omega arith)

  add_pdos-total :
      (n assign j bsize : ℕ) (s : S)
      → Knows mail rounds slave dict assign
      → 1 ≤ j
      → j + n ≤ u16 (dict assign 0) + 1
      → (add_pdos mail rounds slave n assign j (u32 bsize) s).0
        ≡ done (u32 (bsize + bits_of_pdos dict assign j n))
  unfolding add_pdos bits_of_pdos low_bytes
  add_pdos-total zero assign j bsize s knows from_one inside = ap (λ k. done (u32 k)) (omega arith)
  add_pdos-total (suc n) assign j bsize s knows from_one inside =
      let r = read_object mail rounds slave 2 assign (u8 j) s in
      let v = dict assign (u8 j) in
      let idx = u16 v in
      let go_on : ℕ → S → Returned ℕ × S =
        λ b s3. add_pdos mail rounds slave n assign (j + 1) b s3 in
      let after : ℕ → S → Returned ℕ × S = λ w s1.
        then_with
          (if ltb 0 w
            then then_with (read_object mail rounds slave 1 w 0 s1)
                (λ v s2. add_entries mail rounds slave (get_or v.bytes 0 0) w 1 (u32 bsize) s2)
            else (done (u32 bsize), s1))
          go_on in
      let share = if idx == 0 then 0 else bits_of_entries dict idx 1 (u8 (dict idx 0)) in
      let r2 = read_object mail rounds slave 1 idx 0 r.1 in
      let entries =
        then_with r2
          (λ v s2. add_entries mail rounds slave (get_or v.bytes 0 0) idx 1 (u32 bsize) s2) in
      let nothing : Returned ℕ × S = (done (u32 bsize), r.1) in
      let here = if ltb 0 idx then entries else nothing in
      let shared : here.0 ≡ done (u32 (bsize + share)) =
        if_cases (λ (x : Returned ℕ × S). x.0 ≡ done (u32 (bsize + share))) (ltb 0 idx) entries
          nothing
          (λ some_idx.
            let count : List ℕ → S → Returned ℕ × S =
              λ bytes s2. add_entries mail rounds slave (get_or bytes 0 0) idx 1 (u32 bsize) s2 in
            let there : idx ≢ 0 = positive_there idx some_idx in
            let (size2, gives2) = knows.counted j from_one (omega (arith, inside)) there r.1 in
            let (_, _, held, e) =
              then_with-Gives size2 (low_bytes 1 (dict idx 0)) r2 (λ u. count u.bytes) gives2 in
            ap (λ (x : Returned ℕ × S). x.0) (e ∙ ap (λ bytes. count bytes r2.1) held)
            ∙ add_entries-total (u8 (dict idx 0)) idx 1 bsize r2.1 (λ k low high.
              knows.entries j k from_one (omega (arith, inside)) there low (omega (arith, high)))
            ∙ ap (λ k. done (u32 (bsize + k)))
                (some_share idx (bits_of_entries dict idx 1 (u8 (dict idx 0))) some_idx))
          (λ none_idx.
            ap (λ k. done (u32 k))
              (no_share bsize idx (bits_of_entries dict idx 1 (u8 (dict idx 0))) none_idx)) in
      let (size, gives) = knows.assigned j from_one (omega (arith, inside)) s in
      let (_, _, held, e) =
        then_with-Gives size (low_bytes 2 v) r (λ u. after (word_at u.bytes 0)) gives in
      ap (λ (x : Returned ℕ × S). x.0)
        (e
          ∙ ap (λ bytes. after (word_at bytes 0) r.1) held
          ∙ ap (λ w. after w r.1) (word_of v)
          ∙ then_with-done here go_on (u32 (bsize + share)) shared)
      ∙ add_pdos-total n assign (j + 1) (bsize + share) here.1 knows (omega arith)
          (omega (arith, inside))
      ∙ ap (λ k. done (u32 k)) (omega arith)
    where
      word_of : (v : ℕ) → word_at (low_bytes 2 v) 0 ≡ u16 v
      word_of v = omega arith

      positive_there : (i : ℕ) → ltb 0 i ≡ true → i ≢ 0
      positive_there i e = ground arith

      some_share : (i bits : ℕ) → ltb 0 i ≡ true → bits ≡ (if i == 0 then 0 else bits)
      some_share i bits e = ground arith

      no_share : (b i bits : ℕ) → ltb 0 i ≡ false → b ≡ b + (if i == 0 then 0 else bits)
      no_share b i bits e = ground arith

  -- On a slave that answers the reads of the object's number, of the PDOs that the object assigns,
  -- each of two bytes at most, of their numbers of entries, of one byte, and of their entries, of
  -- four bytes at most: `ecx_readPDOassign` gives the sum of the lengths of all entries of all these
  -- PDOs, modulo 2^32, where the object assigns fewer than 65535. Of other objects nothing is asked.
  pub readpdoassign-total :
      (assign : ℕ) (s : S)
      → Knows mail rounds slave dict assign
      → u16 (dict assign 0) < 65535
      → (readpdoassign mail rounds slave assign s).0
        ≡ done (u32 (bits_of_pdos dict assign 1 (u16 (dict assign 0))))
  unfolding readpdoassign bits_of_pdos low_bytes
  readpdoassign-total assign s knows few =
      let r = read_object mail rounds slave 2 assign 0 s in
      let v = dict assign 0 in
      let n = u16 v in
      let after : Bool → ℕ → S → Returned ℕ × S = λ came rdat s1.
        if came && ltb 0 rdat
        then (if rdat == 0xffff
            then (unfinished, s1)
            else add_pdos mail rounds slave rdat assign 1 0 s1)
        else (done 0, s1) in
      let all = add_pdos mail rounds slave n assign 1 0 r.1 in
      let capped = if n == 0xffff then (unfinished, r.1) else all in
      let P : Returned ℕ × S → Type 0 = λ x. x.0 ≡ done (u32 (bits_of_pdos dict assign 1 n)) in
      let (size, gives) = knows.number s in
      let (u, came, held, e) =
        then_with-Gives size (low_bytes 2 v) r (λ u. after (positive u.wkc) (word_at u.bytes 0))
          gives in
      ap (λ (x : Returned ℕ × S). x.0)
        (e
          ∙ ap (λ b. after b (word_at u.bytes 0) r.1) came
          ∙ ap (λ bytes. after true (word_at bytes 0) r.1) held
          ∙ ap (λ w. after true w r.1) (word_of v))
      ∙ if_cases P (ltb 0 n) capped (done 0, r.1)
          (λ _.
            if_cases P (n == 0xffff) (unfinished, r.1) all (λ no. absurd (ground arith))
              (λ _.
                add_pdos-total n assign 1 0 r.1 knows (omega arith) (omega arith)
                ∙ ap (λ k. done (u32 k)) (omega arith)))
          (λ none. ap (λ k. done (u32 (bits_of_pdos dict assign 1 k))) (nothing_left n none))
    where
      word_of : (v : ℕ) → word_at (low_bytes 2 v) 0 ≡ u16 v
      word_of v = omega arith

      nothing_left : (n : ℕ) → ltb 0 n ≡ false → 0 ≡ n
      nothing_left n e = ground arith
