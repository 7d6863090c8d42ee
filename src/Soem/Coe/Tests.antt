-- ===== src/Soem/Coe/Tests.antt =====
-- A slave with one object behind a mailbox of 32 bytes, written in one message and in segments.
use bharatiya_beagle_bone.Common.{
  ℕ, ◌≡◌, refl, arith, Bool, true, false, ◌==◌, ◌&&◌, if◌then◌else◌, List, [], ◌∷◌, get_or, bit_and,
  bytes_at,
}
use bharatiya_beagle_bone.Common.Int.{pos}
use bharatiya_beagle_bone.Soem.Frame.{word_at}
use bharatiya_beagle_bone.Soem.Coe.{Mail}
use bharatiya_beagle_bone.Soem.Coe.Download.{sdowrite}
use bharatiya_beagle_bone.Soem.Coe.Download.Receiver.{
  Object, Accepts, is_initiate, take_message, answers,
}
use bharatiya_beagle_bone.Soem.Coe.Download.Loop.{Delivers}
use bharatiya_beagle_bone.Soem.Coe.Download.Delivered.{sdowrite-Delivers}

abbrev no_object : Object
no_object = record { bytes = []; announced = 0; toggle = 0; complete = false; last = [] }

abbrev reply : List ℕ → List ℕ
reply m =
    0
    ∷ 0
    ∷ 0
    ∷ 0
    ∷ 0
    ∷ 3
    ∷ 0
    ∷ 0x30
    ∷ (if is_initiate m then 0x60 else 0x20)
    ∷ get_or m 9 0
    ∷ get_or m 10 0
    ∷ get_or m 11 0
    ∷ []

abbrev server : Mail Object
server = record {
  send = λ _ m _ o. (pos 1, take_message m o);
  receive = λ _ _ _ o. ((pos 1, reply o.last), o);
  next_cnt = λ _ o. (1, o);
  mbx_l = λ _ _. 32;
  sdo_error = λ _ _ _ _ o. o;
  packet_error = λ _ _ _ _ o. o;
}

kinds :
    (b : Bool) (x y : ℕ)
    → (if b then (x == x && y == y) else bit_and (if b then 0x60 else 0x20) 0xe0 == 0x20) ≡ true
kinds true x y = ground arith
kinds false x y = refl

reply_answers : (m : List ℕ) → answers m (reply m) ≡ true
unfolding answers
reply_answers m = kinds (is_initiate m) (word_at m 9) (get_or m 11 0)

server-Accepts : Accepts server 1 (λ o. o) 32
server-Accepts = record {
  sent = λ _ _ _. refl;
  taken = λ _ _ _. refl;
  got = λ _ _ _ _. refl;
  answered = λ _ _ o _. reply_answers o.last;
  left = λ _ _ _. refl;
  counted = λ _. refl;
  sized = λ _. refl;
}

abbrev forty_bytes : List ℕ
forty_bytes =
    1 ∷ 2 ∷ 3 ∷ 4 ∷ 5 ∷ 6 ∷ 7 ∷ 8 ∷ 9 ∷ 10 ∷ 11 ∷ 12 ∷ 13 ∷ 14 ∷ 15 ∷ 16 ∷ 17 ∷ 18 ∷ 19 ∷ 20 ∷ 21
    ∷ 22 ∷ 23 ∷ 24 ∷ 25 ∷ 26 ∷ 27 ∷ 28 ∷ 29 ∷ 30 ∷ 31 ∷ 32 ∷ 33 ∷ 34 ∷ 35 ∷ 36 ∷ 37 ∷ 38 ∷ 39 ∷ 40
    ∷ []

sdowrite-Delivers_example :
    Delivers {S = Object}
      (λ o. o)
      (bytes_at forty_bytes 0 40)
      (sdowrite server 41 1 0x2000 0 false 40 forty_bytes 700000 no_object)
sdowrite-Delivers_example =
    sdowrite-Delivers server 1 0x2000 0 700000 (λ o. o) 32 server-Accepts (omega arith)
      (omega arith) 41 40 false forty_bytes no_object (omega arith) (omega arith) (omega arith)
      (omega arith) (λ _. omega arith)
