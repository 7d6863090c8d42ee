-- ===== src/Soem/Errors/Queue.antt =====
-- The ring of errors as a queue of at most 64, the oldest first.
use native.Mathlib.Decide.{ℕ_discrete}
use bharatiya_beagle_bone.Common.{
  ℕ, zero, suc, ◌+◌, ◌-◌, ◌≡◌, ◌≢◌, ◌≤◌, ◌<◌, refl, ap, sym, ◌∙◌, arith, true, false, ltb, leb,
  ◌==◌, if◌then◌else◌, List, [], ◌∷◌, ◌++◌, length, get_or, set, length-set, get_or-set,
}
use bharatiya_beagle_bone.Soem.Errors.{
  ErrorEntry, no_error, ErrorList, ring_next, signalled, pusherror, iserror, poperror,
}

pub record IsValid (l : ErrorList) : Type 0 where
  pub head_inside : l.head < 65
  pub tail_inside : l.tail < 65
  pub full_length : length l.cells ≡ 65

-- n cells from a place on, around the ring.
unfoldable pub cells_from : List ErrorEntry → ℕ → ℕ → List ErrorEntry
unfolding ring_next
cells_from cells i zero = []
cells_from cells i (suc n) = get_or cells i no_error ∷ cells_from cells (ring_next i) n

-- How far it is from a place to another, forwards.
abbrev pub distance : ℕ → ℕ → ℕ
distance i j = if leb i j then j - i else j + 65 - i

-- The errors that have not been taken out.
unfoldable pub queued : ErrorList → List ErrorEntry
unfolding cells_from
queued l = cells_from l.cells l.tail (distance l.tail l.head)

abbrev drop_first : List ErrorEntry → List ErrorEntry
drop_first [] = []
drop_first (e ∷ q) = q

-- Adding to the queue: when it is full, the oldest error gives way.
abbrev pub enqueue : ErrorEntry → List ErrorEntry → List ErrorEntry
enqueue e q = if length q == 64 then drop_first (q ++ e ∷ []) else q ++ e ∷ []

length-cells_from : (cells : List ErrorEntry) (i n : ℕ) → length (cells_from cells i n) ≡ n
unfolding cells_from
length-cells_from cells i zero = refl
length-cells_from cells i (suc n) = ap suc (length-cells_from cells (ring_next i) n)

-- A write to the cell where the walk ends is not seen on it.
cells_from-set :
    (cells : List ErrorEntry) (e : ErrorEntry) (i j n : ℕ)
    → i < 65
    → j < 65
    → n ≤ distance i j
    → cells_from (set cells j e) i n ≡ cells_from cells i n
unfolding cells_from ring_next
cells_from-set cells e i j zero li lj le = refl
cells_from-set cells e i j (suc n) li lj le =
    let here : get_or (set cells j e) i no_error ≡ get_or cells i no_error =
      ground (arith, get_or-set cells j i e no_error) in
    let rest = cells_from-set cells e (ring_next i) j n (ground arith) lj (ground arith) in
    cc (here, rest)

-- The cell behind n cells.
abbrev place : ℕ → ℕ → ℕ
place i n = if ltb (i + n) 65 then i + n else i + n - 65

cells_from-last :
    (cells : List ErrorEntry) (i n : ℕ)
    → i < 65
    → n < 65
    → cells_from cells i (suc n) ≡ cells_from cells i n ++ get_or cells (place i n) no_error ∷ []
unfolding cells_from ring_next
cells_from-last cells i zero li ln = ap (λ k. get_or cells k no_error ∷ []) (ground arith)
cells_from-last cells i (suc n) li ln =
    let rest = cells_from-last cells (ring_next i) n (ground arith) (omega arith) in
    let same : place (ring_next i) n ≡ place i (suc n) = ground arith in cc (rest, same)

-- The walk over one more cell, with the new error in it.
cells_from-push :
    (cells : List ErrorEntry) (e : ErrorEntry) (head tail : ℕ)
    → head < 65
    → tail < 65
    → length cells ≡ 65
    → cells_from (set cells head e) tail (suc (distance tail head))
      ≡ cells_from cells tail (distance tail head) ++ e ∷ []
cells_from-push cells e head tail lh lt full =
    let last = cells_from-last (set cells head e) tail (distance tail head) lt (ground arith) in
    let before = cells_from-set cells e tail head (distance tail head) lt lh (omega arith) in
    let there : place tail (distance tail head) ≡ head = ground arith in
    let new : get_or (set cells head e) head no_error ≡ e =
      ground (arith, get_or-set cells head head e no_error) in
    cc (last, before, there, new)

pusherror-IsValid : (l : ErrorList) (e : ErrorEntry) → IsValid l → IsValid (pusherror e l)
unfolding pusherror ring_next
pusherror-IsValid l e v = ground (arith, length-set l.cells l.head (signalled true e))

walk_same :
    (cells : List ErrorEntry) (i i' n n' : ℕ)
    → i ≡ i'
    → n ≡ n'
    → cells_from cells i n ≡ cells_from cells i' n'
walk_same cells i i' n n' p q = cc (p, q)

-- The two cases of a push, by whether the head reaches the tail.
queued_room :
    (l : ErrorList) (e : ErrorEntry)
    → IsValid l
    → ring_next l.head ≢ l.tail
    → queued (pusherror e l)
      ≡ cells_from (set l.cells l.head (signalled true e)) l.tail (suc (distance l.tail l.head))
unfolding pusherror queued ring_next
queued_room l e v room =
    walk_same (set l.cells l.head (signalled true e)) (pusherror e l).tail l.tail
      (distance (pusherror e l).tail (pusherror e l).head) (suc (distance l.tail l.head))
      (ground arith) (ground arith)

queued_full :
    (l : ErrorList) (e : ErrorEntry)
    → IsValid l
    → ring_next l.head ≡ l.tail
    → queued (pusherror e l)
      ≡ drop_first
          (cells_from (set l.cells l.head (signalled true e)) l.tail (suc (distance l.tail l.head)))
unfolding pusherror queued ring_next cells_from
queued_full l e v full =
    walk_same (set l.cells l.head (signalled true e)) (pusherror e l).tail (ring_next l.tail)
      (distance (pusherror e l).tail (pusherror e l).head) (distance l.tail l.head) (ground arith)
      (ground arith)

full_distance :
    (l : ErrorList) → IsValid l → ring_next l.head ≡ l.tail → distance l.tail l.head ≡ 64
unfolding ring_next
full_distance l v full = ground arith

room_distance :
    (l : ErrorList) → IsValid l → ring_next l.head ≢ l.tail → distance l.tail l.head < 64
unfolding ring_next
room_distance l v room = ground arith

pushed :
    (l : ErrorList) (e : ErrorEntry)
    → IsValid l
    → queued (pusherror e l) ≡ enqueue (signalled true e) (queued l)
unfolding queued ring_next
pushed l e v =
    let walk =
      cells_from-push l.cells (signalled true e) l.head l.tail v.head_inside v.tail_inside
        v.full_length in
    let size = length-cells_from l.cells l.tail (distance l.tail l.head) in
    elim (ℕ_discrete (ring_next l.head) l.tail) [
      | yes full ↦ ground (arith, queued_full l e v full, walk, size, full_distance l v full)
      | no room ↦ ground (arith, queued_room l e v room, walk, size, room_distance l v room)
    ]

-- The ring stays valid, `ecaterror` is set, and the errors that wait are those of a queue of at
-- most 64 to which the error is added: when it is full, the oldest one is lost.
pub pusherror-queued :
    (l : ErrorList) (e : ErrorEntry)
    → IsValid l
    → IsValid (pusherror e l)
      × (queued (pusherror e l) ≡ enqueue (signalled true e) (queued l))
      × ((pusherror e l).ecaterror ≡ true)
unfolding pusherror
pusherror-queued l e v = (pusherror-IsValid l e v, pushed l e v, refl)

differ_by_one :
    (l : ErrorList)
    → IsValid l
    → l.head ≢ l.tail
    → distance l.tail l.head ≡ suc (distance (ring_next l.tail) l.head)
unfolding ring_next
differ_by_one l v differ = ground arith

-- While the head differs from the tail, the oldest error is the one in the cell of the tail.
queued-first :
    (l : ErrorList)
    → IsValid l
    → l.head ≢ l.tail
    → queued l
      ≡ get_or l.cells l.tail no_error
        ∷ cells_from l.cells (ring_next l.tail) (distance (ring_next l.tail) l.head)
unfolding queued cells_from
queued-first l v differ =
    walk_same l.cells l.tail l.tail (distance l.tail l.head)
      (suc (distance (ring_next l.tail) l.head)) refl (differ_by_one l v differ)

popped :
    (l : ErrorList)
    → IsValid l
    → queued l ≡ (if (poperror l).0 then (poperror l).1 ∷ queued (poperror l).2 else [])
unfolding poperror queued iserror ring_next
popped l v = elim (ℕ_discrete l.head l.tail) [
  | yes empty ↦
      let shut : iserror l ≡ false = ground arith in
      rw shut (walk_same l.cells l.tail l.tail (distance l.tail l.head) 0 refl (ground arith))
  | no differ ↦
      let open_ring : iserror l ≡ true = ground arith in
      let kept =
        cells_from-set l.cells (signalled false (get_or l.cells l.tail no_error)) (ring_next l.tail)
          l.tail (distance (ring_next l.tail) l.head) (ground arith) v.tail_inside (ground arith) in
      rw open_ring
        (queued-first l v differ ∙ ap (λ q. get_or l.cells l.tail no_error ∷ q) (sym kept))
]

-- While an error waits, the oldest one is given out and leaves the queue; otherwise the result
-- is false and `ecaterror` is cleared. The ring stays valid.
pub poperror-queued :
    (l : ErrorList)
    → IsValid l
    → IsValid (poperror l).2
      × (queued l ≡ (if (poperror l).0 then (poperror l).1 ∷ queued (poperror l).2 else []))
      × ((poperror l).2.ecaterror ≡ (if (poperror l).0 then l.ecaterror else false))
unfolding poperror queued iserror ring_next
poperror-queued l v = (
  ground (arith, length-set l.cells l.tail (signalled false (get_or l.cells l.tail no_error))),
  popped l v,
  ground arith,
)
