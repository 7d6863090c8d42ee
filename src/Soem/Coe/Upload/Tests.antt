-- ===== src/Soem/Coe/Upload/Tests.antt =====
-- A slave with an object of five bytes that it sends in an answer with three and a segment with two.
use bharatiya_beagle_bone.Common.{
  ℕ, ◌-◌, ◌/◌, ◌%◌, ◌≡◌, refl, arith, Bool, true, false, ◌==◌, ◌&&◌, if◌then◌else◌, List, [], ◌∷◌,
  memcpy, bytes_at,
}
use bharatiya_beagle_bone.Common.Int.{pos}
use bharatiya_beagle_bone.Soem.Frame.{word_at}
use bharatiya_beagle_bone.Soem.Coe.{Mail, command, unfinished}
use bharatiya_beagle_bone.Soem.Coe.Upload.{sdoread, upload_segments}
use bharatiya_beagle_bone.Soem.Coe.Upload.Server.{
  Reply, opened, segment, aborted, Source, take_request, Tells, Serves,
}
use bharatiya_beagle_bone.Soem.Coe.Upload.Asking.{Gives}
use bharatiya_beagle_bone.Soem.Coe.Upload.Fetched.{sdoread-Gives}
use bharatiya_beagle_bone.Soem.Coe.Upload.Unanswered.{upload_segments-unanswered}

data Now : Type 0 where
  opening giving aborting : Now

-- Whether the segment is still to be sent, the toggle bit, the index, and the answer that waits.
data Stage : Type 0 where
  stage : Bool → ℕ → ℕ → Now → Stage

abbrev reply_of : Now → Reply
reply_of opening = opened
reply_of giving = segment (4 ∷ 5 ∷ []) true
reply_of aborting = aborted

abbrev source_of : Stage → Source
source_of (stage left toggle asked now) = record {
  object = 1 ∷ 2 ∷ 3 ∷ 4 ∷ 5 ∷ [];
  expedited = false;
  first = 1 ∷ 2 ∷ 3 ∷ [];
  queue = if left then (4 ∷ 5 ∷ []) ∷ [] else [];
  toggle = toggle;
  asked = asked;
  reply = reply_of now;
}

abbrev serve : List ℕ → Stage → Stage
serve m (stage left toggle asked now) =
    if command m / 32 == 2
    then stage left 0 (word_at m 9) opening
    else if command m / 32 == 3 && command m / 16 % 2 == toggle
    then (if left then stage false (1 - toggle) asked giving else stage left toggle asked aborting)
    else stage left toggle asked aborting

abbrev answer_of : Stage → List ℕ
answer_of (stage left toggle asked opening) =
    13 ∷ 0 ∷ 0 ∷ 0 ∷ 0 ∷ 3 ∷ 0 ∷ 0x30 ∷ 0x41 ∷ asked ∷ 0 ∷ 0 ∷ 5 ∷ 0 ∷ 0 ∷ 0 ∷ 1 ∷ 2 ∷ 3 ∷ []
answer_of (stage left toggle asked giving) =
    10 ∷ 0 ∷ 0 ∷ 0 ∷ 0 ∷ 3 ∷ 0 ∷ 0x30 ∷ 0x0b ∷ 4 ∷ 5 ∷ 0 ∷ 0 ∷ 0 ∷ 0 ∷ 0 ∷ []
answer_of (stage left toggle asked aborting) =
    10 ∷ 0 ∷ 0 ∷ 0 ∷ 0 ∷ 3 ∷ 0 ∷ 0x30 ∷ 0x80 ∷ 0 ∷ 0 ∷ 0 ∷ 0 ∷ 0 ∷ 0 ∷ 0 ∷ []

abbrev slave_with_five : Mail Stage
slave_with_five = record {
  send = λ _ m _ s. (pos 1, serve m s);
  receive = λ _ _ _ s. ((pos 1, answer_of s), s);
  next_cnt = λ _ s. (1, s);
  mbx_l = λ _ _. 32;
  sdo_error = λ _ _ _ _ s. s;
  packet_error = λ _ _ _ _ s. s;
}

serve_taken : (m : List ℕ) (s : Stage) → source_of (serve m s) ≡ take_request m (source_of s)
unfolding take_request
serve_taken m (stage true toggle asked now) = ground arith
serve_taken m (stage false toggle asked now) = ground arith

start_there :
    (asked toggle : ℕ) (left : Bool)
    → bytes_at (answer_of (stage left toggle asked opening)) 16 3 ≡ 1 ∷ 2 ∷ 3 ∷ []
unfolding bytes_at
start_there asked toggle left = refl

segment_there :
    (asked toggle : ℕ) (left : Bool)
    → bytes_at (answer_of (stage left toggle asked giving)) 9 2 ≡ 4 ∷ 5 ∷ []
unfolding bytes_at
segment_there asked toggle left = refl

answer_told : (s : Stage) → Tells (source_of s).reply (source_of s) (answer_of s)
answer_told (stage left toggle asked opening) = record {
  response = refl;
  byte = omega arith;
  index = omega arith;
  kind = refl;
  short = λ e. cc;
  value = λ e. cc;
  announced = λ _. refl;
  size = λ _. refl;
  start = λ _. start_there asked toggle left;
}
answer_told (stage left toggle asked giving) = record {
  response = refl;
  byte = omega arith;
  kind = omega arith;
  ends = refl;
  word = omega arith;
  size = refl;
  long_enough = omega arith;
  bytes = segment_there asked toggle left;
}
answer_told (stage left toggle asked aborting) = tt

five_served : Serves slave_with_five 1 source_of
five_served = record {
  sent = λ _ _ _. refl;
  taken = λ m _ s. serve_taken m s;
  got = λ _ _ _ _. refl;
  told = λ _ _ s _. answer_told s;
  left = λ _ _ _. refl;
  counted = λ _. refl;
}

sdoread-Gives_example :
    Gives 5
      (memcpy (0 ∷ 0 ∷ 0 ∷ 0 ∷ 0 ∷ 0 ∷ []) 0 (1 ∷ 2 ∷ 3 ∷ 4 ∷ 5 ∷ []))
      (sdoread slave_with_five 1 1 0x2000 0 false 6
        (0 ∷ 0 ∷ 0 ∷ 0 ∷ 0 ∷ 0 ∷ [])
        700000
        (stage true 0 0 aborting)).0
sdoread-Gives_example =
    sdoread-Gives slave_with_five 1 source_of five_served 1 0x2000 0 false 6
      (0 ∷ 0 ∷ 0 ∷ 0 ∷ 0 ∷ 0 ∷ []) 700000 (stage true 0 0 aborting)
      (record { whole = λ _. refl; fits = omega arith }) (omega arith) (omega arith) (omega arith)
      (omega arith) (omega arith)

-- The same slave, fallen silent.
abbrev silent_slave : Mail Stage
silent_slave = record slave_with_five { receive = λ _ buf _ s. ((pos 0, buf), s) }

upload_segments-unanswered_example :
    (upload_segments silent_slave 1 0x2000 0 700000 9 0 3
      (1 ∷ 2 ∷ 3 ∷ 0 ∷ 0 ∷ [])
      3
      []
      []
      (stage true 0 0x2000 opening)).0
    ≡ unfinished
upload_segments-unanswered_example =
    upload_segments-unanswered silent_slave 1 0x2000 0 700000 (λ _ _ _. refl) 9 0 3
      (1 ∷ 2 ∷ 3 ∷ 0 ∷ 0 ∷ []) 3 [] [] (stage true 0 0x2000 opening)
