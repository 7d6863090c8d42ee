-- ===== src/Soem/Coe/Download/Receiver.antt =====
-- A slave that takes SDO downloads, by the protocol: what it makes of each message. It shares nothing
-- with the code that builds them but the places of the fields.
use bharatiya_beagle_bone.Common.{
  ℕ, ◌-◌, ◌/◌, ◌%◌, ◌≡◌, ◌<◌, Bool, true, ◌==◌, ◌&&◌, not, if◌then◌else◌, List, ◌++◌, get_or,
  bytes_at,
}
use bharatiya_beagle_bone.Soem.Frame.{word_at}
use bharatiya_beagle_bone.Soem.Base.{positive}
use bharatiya_beagle_bone.Soem.Coe.{Mail, command, long_at}
use bharatiya_beagle_bone.Soem.Coe.Download.{acknowledges, confirms}

-- The object that is written, the size that was announced, the toggle bit that is due, whether the
-- transfer is complete, and the last message.
pub record Object : Type 0 where
  pub bytes : List ℕ
  pub announced : ℕ
  pub toggle : ℕ
  pub complete : Bool
  pub last : List ℕ

-- The two kinds of message of a download, by the three highest bits of the command.
abbrev pub is_initiate : List ℕ → Bool
is_initiate m = command m / 32 == 1

-- How many bytes a segment holds: a message of the shortest length tells how many of 7 are unused.
abbrev pub bytes_in_segment : List ℕ → ℕ
bytes_in_segment m = if word_at m 0 == 10 then 7 - command m / 2 % 8 else word_at m 0 - 3

-- An expedited message has the value; any other announces its size and has its start.
unfoldable pub initiate : List ℕ → Object → Object
initiate m o =
    if command m / 2 % 2 == 1
    then record {
      bytes = bytes_at m 12 (4 - command m / 4 % 4);
      announced = 4 - command m / 4 % 4;
      toggle = 0;
      complete = true;
      last = m;
    }
    else record {
      bytes = bytes_at m 16 (word_at m 0 - 10);
      announced = long_at m 12;
      toggle = 0;
      complete = word_at m 0 - 10 == long_at m 12;
      last = m;
    }

-- A segment is taken in its turn, and none behind the last.
unfoldable pub append_segment : List ℕ → Object → Object
append_segment m o =
    if command m / 16 % 2 == o.toggle && not o.complete
    then record {
      bytes = o.bytes ++ bytes_at m 9 (bytes_in_segment m);
      announced = o.announced;
      toggle = 1 - o.toggle;
      complete = command m % 2 == 1;
      last = m;
    }
    else record o { last = m }

unfoldable pub take_message : List ℕ → Object → Object
unfolding initiate append_segment
take_message m o = if is_initiate m then initiate m o else append_segment m o

-- The answer that a message gets.
unfoldable pub answers : List ℕ → List ℕ → Bool
answers m a = if is_initiate m then confirms (word_at m 9) (get_or m 11 0) a else acknowledges a

-- Such a slave behind a mailbox that loses nothing: what is sent reaches its object, and what is
-- received answers the last message. Nothing else touches the object, nor the size of the mailbox.
pub record Accepts {S : Type 0} (mail : Mail S) (slave : ℕ) (object : S → Object) (size : ℕ)
    : Type 0 where
  pub sent : (m : List ℕ) (t : ℕ) (s : S) → positive (mail.send slave m t s).0 ≡ true
  pub taken :
      (m : List ℕ) (t : ℕ) (s : S) → object (mail.send slave m t s).1 ≡ take_message m (object s)
  pub got :
      (buf : List ℕ) (t : ℕ) (s : S) → 0 < t → positive (mail.receive slave buf t s).0.0 ≡ true
  pub answered :
      (buf : List ℕ) (t : ℕ) (s : S)
      → 0 < t
      → answers (object s).last (mail.receive slave buf t s).0.1 ≡ true
  pub left : (buf : List ℕ) (t : ℕ) (s : S) → object (mail.receive slave buf t s).1 ≡ object s
  pub counted : (s : S) → object (mail.next_cnt slave s).1 ≡ object s
  pub sized : (s : S) → mail.mbx_l slave s ≡ size
