-- ===== src/Soem/Coe/Upload/Server.antt =====
-- A slave that serves SDO uploads, by the protocol: what it makes of each request, and what its
-- answers say. It shares nothing with the code that reads them but the places of the fields.
use bharatiya_beagle_bone.Common.{
  ℕ, ◌+◌, ◌-◌, ◌/◌, ◌%◌, ◌≡◌, ◌≤◌, ◌<◌, Bool, true, false, ◌==◌, ◌&&◌, if◌then◌else◌, List, [], ◌∷◌,
  ◌++◌, length, bytes_at,
}
use bharatiya_beagle_bone.Soem.Frame.{word_at}
use bharatiya_beagle_bone.Soem.Base.{positive}
use bharatiya_beagle_bone.Soem.Coe.{Mail, command, long_at, is_response}

-- What the slave answers next: the start of the object, a segment and whether it is the last one, or
-- an abort.
pub data Reply : Type 0 where
  opened : Reply
  segment : List ℕ → Bool → Reply
  aborted : Reply

-- The object, cut as the slave will send it: whether its first answer is an expedited one, what that
-- answer holds, and the segments behind it; the toggle bit that is due, the index that was asked
-- for, and the answer that waits.
pub record Source : Type 0 where
  pub object : List ℕ
  pub expedited : Bool
  pub first : List ℕ
  pub queue : List (List ℕ)
  pub toggle : ℕ
  pub asked : ℕ
  pub reply : Reply

abbrev pub is_nil : List (List ℕ) → Bool
is_nil [] = true
is_nil (c ∷ q) = false

abbrev pub next_segment : List (List ℕ) → Source → Source
next_segment [] o = record o { reply = aborted }
next_segment (c ∷ q) o = record o { queue = q; toggle = 1 - o.toggle; reply = segment c (is_nil q) }

-- A request for the object, or for its next segment in turn.
unfoldable pub take_request : List ℕ → Source → Source
take_request m o =
    if command m / 32 == 2
    then record o { toggle = 0; asked = word_at m 9; reply = opened }
    else if command m / 32 == 3 && command m / 16 % 2 == o.toggle
    then next_segment o.queue o
    else record o { reply = aborted }

-- The answer holds a segment.
pub record HoldsSegment (a : List ℕ) (c : List ℕ) (last : Bool) : Type 0 where
  pub response : is_response a ≡ true
  pub byte : command a < 256
  pub kind : command a / 32 ≡ 0
  pub ends : (command a % 2 == 1) ≡ last
  pub word : word_at a 0 < 65536
  pub size :
      (if last && word_at a 0 == 10 then 7 - command a / 2 % 8 else word_at a 0 - 3) ≡ length c
  pub long_enough : 3 ≤ word_at a 0
  pub bytes : bytes_at a 9 (length c) ≡ c

-- The answer opens the upload: with the whole object, or with its size and its start.
pub record Opens (o : Source) (a : List ℕ) : Type 0 where
  pub response : is_response a ≡ true
  pub byte : command a < 256
  pub index : word_at a 9 ≡ o.asked
  pub kind : (command a / 2 % 2 == 1) ≡ o.expedited
  pub short : o.expedited ≡ true → 4 - command a / 4 % 4 ≡ length o.object
  pub value : o.expedited ≡ true → bytes_at a 12 (length o.object) ≡ o.object
  pub announced : o.expedited ≡ false → long_at a 12 ≡ length o.object
  pub size : o.expedited ≡ false → word_at a 0 ≡ 10 + length o.first
  pub start : o.expedited ≡ false → bytes_at a 16 (length o.first) ≡ o.first

abbrev pub Tells : Reply → Source → List ℕ → Type 0
Tells opened o a = Opens o a
Tells (segment c last) o a = HoldsSegment a c last
Tells aborted o a = Unit

-- Such a slave behind a mailbox that loses nothing.
pub record Serves {S : Type 0} (mail : Mail S) (slave : ℕ) (source : S → Source) : Type 0 where
  pub sent : (m : List ℕ) (t : ℕ) (s : S) → positive (mail.send slave m t s).0 ≡ true
  pub taken :
      (m : List ℕ) (t : ℕ) (s : S) → source (mail.send slave m t s).1 ≡ take_request m (source s)
  pub got :
      (buf : List ℕ) (t : ℕ) (s : S) → 0 < t → positive (mail.receive slave buf t s).0.0 ≡ true
  pub told :
      (buf : List ℕ) (t : ℕ) (s : S)
      → 0 < t
      → Tells (source s).reply (source s) (mail.receive slave buf t s).0.1
  pub left : (buf : List ℕ) (t : ℕ) (s : S) → source (mail.receive slave buf t s).1 ≡ source s
  pub counted : (s : S) → source (mail.next_cnt slave s).1 ≡ source s

-- The segments in a row.
abbrev pub joined : List (List ℕ) → List ℕ
joined [] = []
joined (c ∷ q) = c ++ joined q

-- The pieces make up the object.
pub record IsCut (o : Source) : Type 0 where
  pub whole : o.expedited ≡ false → o.first ++ joined o.queue ≡ o.object
  pub fits : length o.first ≤ 1471
