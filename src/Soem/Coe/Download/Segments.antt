-- ===== src/Soem/Coe/Download/Segments.antt =====
-- The segments of `ecx_SDOwrite`, as the slave takes them.
use bharatiya_beagle_bone.Common.{
  ℕ, suc, ◌+◌, ◌-◌, ◌*◌, ◌/◌, ◌%◌, ◌≡◌, ◌≤◌, ◌<◌, refl, ap, sym, ◌∙◌, arith, Bool, true, false,
  ◌==◌, if◌then◌else◌, List, ◌∷◌, ◌++◌, get_or, length, memcpy, bytes_at, memcpy_inside,
  bytes_at_same, bytes_at_all, length-bytes_at,
}
use bharatiya_beagle_bone.Soem.Frame.{word_at}
use bharatiya_beagle_bone.Soem.Coe.{sdoreq, coe_message, command}
use bharatiya_beagle_bone.Soem.Coe.Download.{segment_length, segment_command}
use bharatiya_beagle_bone.Soem.Coe.Download.Receiver.{
  Object, is_initiate, append_segment, bytes_in_segment, take_message,
}

-- A byte of a message, and the bytes behind its eight first and k more.
pub message_byte :
    (out src : List ℕ) (i : ℕ)
    → i < length src
    → length src ≤ length out
    → get_or (memcpy out 0 src) i 0 ≡ get_or src i 0
message_byte out src i lt fits = memcpy_inside out 0 src i i (omega arith) lt (omega arith)

pub message_rest :
    (out src bytes : List ℕ) (k : ℕ)
    → length src ≡ k + length bytes
    → ((i : ℕ) → get_or src (k + i) 0 ≡ get_or bytes i 0)
    → length src ≤ length out
    → bytes_at (memcpy out 0 src) k (length bytes) ≡ bytes
message_rest out src bytes k e tail fits =
    bytes_at_same (memcpy out 0 src) bytes k 0 (length bytes) (λ i lt.
      message_byte out src (k + i) (omega arith) fits
      ∙ tail i
      ∙ ap (λ j. get_or bytes j 0) (omega arith))
    ∙ bytes_at_all bytes

-- What a segment's command and length tell.
command_parts :
    (last : Bool) (frame toggle : ℕ)
    → toggle ≤ 1
    → ((segment_command last frame + 16 * toggle) / 32 ≡ 0)
      × ((segment_command last frame + 16 * toggle) / 16 % 2 ≡ toggle)
      × (((segment_command last frame + 16 * toggle) % 2 == 1) ≡ last)
unfolding segment_command
command_parts true frame toggle le = (ground arith, ground arith, ground arith)
command_parts false frame toggle le = (omega arith, omega arith, ground arith)

segment_bytes :
    (last : Bool) (frame toggle : ℕ)
    → toggle ≤ 1
    → frame < 1478
    → (last ≡ false → 7 ≤ frame)
    → (if segment_length last frame == 10
        then 7 - (segment_command last frame + 16 * toggle) / 2 % 8
        else segment_length last frame - 3)
      ≡ frame
unfolding segment_command segment_length
segment_bytes true frame toggle le small full = ground arith
segment_bytes false frame toggle le small full = let f = full refl in ground arith

-- A segment in its turn is taken.
append_segment_lem :
    (m block : List ℕ) (last : Bool) (o : Object)
    → command m / 32 ≡ 0
    → command m / 16 % 2 ≡ o.toggle
    → (command m % 2 == 1) ≡ last
    → o.complete ≡ false
    → bytes_at m 9 (bytes_in_segment m) ≡ block
    → (is_initiate m ≡ false)
      × (take_message m o ≡ record {
        bytes = o.bytes ++ block;
        announced = o.announced;
        toggle = 1 - o.toggle;
        complete = last;
        last = m;
      })
unfolding take_message append_segment
append_segment_lem m block last o kind turn end open_yet held = (ground arith, ground arith)

segment_length-lt : (last : Bool) (frame : ℕ) → segment_length last frame < 65536
unfolding segment_length
segment_length-lt last frame = ground arith

-- A segment that the loop builds, at the slave.
pub segment_taken :
    (out p : List ℕ) (at frame cnt toggle : ℕ) (last : Bool) (o : Object)
    → 9 + frame ≤ length out
    → frame < 1478
    → (last ≡ false → 7 ≤ frame)
    → toggle ≡ 16 * o.toggle
    → o.toggle ≤ 1
    → o.complete ≡ false
    → let m = memcpy out 0 (
        coe_message
          (segment_length last frame)
          cnt
          0
          sdoreq
          ((segment_command last frame + toggle) ∷ bytes_at p at frame)) in
      (is_initiate m ≡ false)
      × (take_message m o ≡ record {
        bytes = o.bytes ++ bytes_at p at frame;
        announced = o.announced;
        toggle = 1 - o.toggle;
        complete = last;
        last = m;
      })
unfolding coe_message take_message append_segment
segment_taken out p at frame cnt toggle last o fits small full tg le open_yet =
    let block = bytes_at p at frame in
    let cmd = segment_command last frame + 16 * o.toggle in
    let src =
      coe_message (segment_length last frame) cnt 0 sdoreq
        ((segment_command last frame + toggle) ∷ block) in
    let m = memcpy out 0 src in
    let size : length src ≡ 9 + length block = omega arith in
    let n : length block ≡ frame = length-bytes_at p at frame in
    let parts = command_parts last frame o.toggle le in
    let held = segment_bytes last frame o.toggle le small full in
    let c : get_or m 8 0 ≡ cmd =
      message_byte out src 8 (omega arith) (omega arith)
      ∙ ap (λ k. segment_command last frame + k) tg in
    let low = message_byte out src 0 (omega arith) (omega arith) in
    let high = message_byte out src 1 (omega arith) (omega arith) in
    let len : word_at m 0 ≡ segment_length last frame =
      omega (arith, low, high, segment_length-lt last frame) in
    let here : bytes_in_segment m ≡ frame =
      counted m (segment_length last frame) cmd frame len c held in
    append_segment_lem m block last o (omega (arith, c, parts.0)) (omega (arith, c, parts.1))
      (ap (λ k. k % 2 == 1) c ∙ parts.2) open_yet
      (ap (bytes_at m 9) (here ∙ sym n)
        ∙ message_rest out src block 9 size (λ i. ap (λ j. get_or src j 0) (nine i)) (omega arith))
  where
    counted :
        (m : List ℕ) (len cmd frame : ℕ)
        → word_at m 0 ≡ len
        → command m ≡ cmd
        → (if len == 10 then 7 - cmd / 2 % 8 else len - 3) ≡ frame
        → bytes_in_segment m ≡ frame
    counted m len cmd frame a b held = rw (a, b) held

    nine : (i : ℕ) → 9 + i ≡ suc (suc (suc (suc (suc (suc (suc (suc (suc i))))))))
    nine i = omega arith
