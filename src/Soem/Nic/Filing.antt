-- ===== src/Soem/Nic/Filing.antt =====
-- Which buffer an answer reaches.
use bharatiya_beagle_bone.Common.{
  ℕ, ◌≡◌, ◌≢◌, arith, ltb, ◌==◌, ◌&&◌, if◌then◌else◌, [], get_or, get_or-set, bit_and, memcpy,
  bytes_at, refl, if_cases,
}
use bharatiya_beagle_bone.Common.Int.{ℤ}
use bharatiya_beagle_bone.Soem.Frame.{word_at, eth_headersize}
use bharatiya_beagle_bone.Soem.Nic.{
  ec_maxbuf, buf_tx, buf_rcvd, buf_complete, ec_otherframe, Stack, net_word_at,
}
use bharatiya_beagle_bone.Soem.Nic.Receive.{wkc_of, file_answer, sort_frame}

abbrev Kept : ℕ → Stack → Stack → Type 0
Kept j s t =
    (get_or t.rxbuf j [] ≡ get_or s.rxbuf j []) × (get_or t.rxbufstat j 0 ≡ get_or s.rxbufstat j 0)

file_answer-Kept :
    (k bufstat len j : ℕ) (s : Stack) → j ≢ k → Kept j s (file_answer k bufstat len s)
unfolding file_answer
file_answer-Kept k bufstat len j s differ = (
  ground (
    arith,
    get_or-set s.rxbuf k j (memcpy (get_or s.rxbuf k []) 0 (bytes_at s.tempbuf eth_headersize len))
        [],
  ),
  ground (arith, get_or-set s.rxbufstat k j bufstat 0),
)

-- A frame that comes in reaches no buffer but the one of the call or one whose own frame is on its
-- way: at every other index the data and the status stay as they were.
pub sort_frame-kept :
    (len : ℕ → ℕ) (idx j : ℕ) (s : Stack)
    → j ≢ idx
    → get_or s.rxbufstat j 0 ≢ buf_tx
    → (get_or (sort_frame len idx s).1.rxbuf j [] ≡ get_or s.rxbuf j [])
      × (get_or (sort_frame len idx s).1.rxbufstat j 0 ≡ get_or s.rxbufstat j 0)
unfolding sort_frame
sort_frame-kept len idx j s differ idle =
    let idxf : ℕ = get_or s.tempbuf 17 0 in
    let mine : Stack = file_answer idx buf_complete (len idx) s in
    let theirs : Stack = file_answer idxf buf_rcvd (len idxf) s in
    let own : ℤ = wkc_of (get_or mine.rxbuf idx []) (bit_and (word_at s.tempbuf 14) 0x0fff) in
    let awaited = ltb idxf ec_maxbuf && (get_or s.rxbufstat idxf 0 == buf_tx) in
    let P : ℤ × Stack → Type 0 = λ r. Kept j s r.1 in
    let nothing : Kept j s s = (refl, refl) in
    if_cases P (net_word_at s.tempbuf 12 == 0x88a4)
      (if idxf == idx
        then (own, mine)
        else if awaited
        then (ec_otherframe, theirs)
        else (ec_otherframe, s))
      (ec_otherframe, s)
      (λ _.
        if_cases P (idxf == idx) (own, mine)
          (if awaited then (ec_otherframe, theirs) else (ec_otherframe, s))
          (λ _. file_answer-Kept idx buf_complete (len idx) j s differ)
          (λ _.
            if_cases P awaited (ec_otherframe, theirs) (ec_otherframe, s)
              (λ e. file_answer-Kept idxf buf_rcvd (len idxf) j s (ground arith)) (λ _. nothing)))
      (λ _. nothing)
