-- ===== src/Soem/Coe/Download/Initiating.antt =====
-- The first message of `ecx_SDOwrite`, as the slave takes it.
use bharatiya_beagle_bone.Common.{
  ℕ, zero, suc, ◌+◌, ◌-◌, ◌*◌, ◌/◌, ◌%◌, ◌≡◌, ◌≤◌, ◌<◌, refl, ap, sym, ◌∙◌, arith, Bool, true, ◌==◌,
  List, ◌∷◌, get_or, length, memcpy, bytes_at, length-bytes_at, byte0, byte1, bit_and, bit_or, u16,
  length-replicate,
}
use bharatiya_beagle_bone.Soem.Frame.{word_at}
use bharatiya_beagle_bone.Soem.Coe.{
  sdoreq, sdo_down_exp, coe_message, command, long_at, long_bytes, empty_mbx,
}
use bharatiya_beagle_bone.Soem.Coe.Download.Receiver.{Object, initiate, is_initiate, take_message}
use bharatiya_beagle_bone.Soem.Coe.Download.Segments.{message_byte, message_rest}

pub length-empty_mbx : length empty_mbx ≡ 1487
length-empty_mbx = length-replicate {A = ℕ} 1487 0

-- An expedited command tells how many of the four bytes are used.
expedited_command :
    (psize : ℕ)
    → 1 ≤ psize
    → psize ≤ 4
    → let cmd = bit_or sdo_down_exp (bit_and ((4 - psize) * 4) 0x0c) in
      (cmd / 32 ≡ 1) × (cmd / 2 % 2 ≡ 1) × (4 - cmd / 4 % 4 ≡ psize)
expedited_command zero one le = absurd (omega arith)
expedited_command (suc zero) one le = (refl, refl, refl)
expedited_command (suc (suc zero)) one le = (refl, refl, refl)
expedited_command (suc (suc (suc zero))) one le = (refl, refl, refl)
expedited_command (suc (suc (suc (suc zero)))) one le = (refl, refl, refl)
expedited_command (suc (suc (suc (suc (suc n))))) one le = absurd (omega arith)

-- What a message that begins a download says: the object and what the slave makes of it.
pub record Begins (m : List ℕ) (o : Object) (index sub : ℕ) (bytes : List ℕ) (last : Bool)
    : Type 0 where
  pub kind : is_initiate m ≡ true
  pub of_index : word_at m 9 ≡ index
  pub of_sub : get_or m 11 0 ≡ sub
  pub written : (take_message m o).bytes ≡ bytes
  pub all : (take_message m o).complete ≡ last
  pub turn : (take_message m o).toggle ≡ 0

initiate_expedited :
    (m block : List ℕ) (o : Object)
    → command m / 32 ≡ 1
    → command m / 2 % 2 ≡ 1
    → bytes_at m 12 (4 - command m / 4 % 4) ≡ block
    → ((take_message m o).bytes ≡ block)
      × ((take_message m o).complete ≡ true)
      × ((take_message m o).toggle ≡ 0)
unfolding take_message initiate
initiate_expedited m block o kind short held = (ground arith, ground arith, ground arith)

initiate_normal :
    (m block : List ℕ) (o : Object)
    → command m / 32 ≡ 1
    → command m / 2 % 2 ≡ 0
    → bytes_at m 16 (word_at m 0 - 10) ≡ block
    → ((take_message m o).bytes ≡ block)
      × ((take_message m o).complete ≡ (word_at m 0 - 10 == long_at m 12))
      × ((take_message m o).toggle ≡ 0)
unfolding take_message initiate
initiate_normal m block o kind short held = (ground arith, ground arith, ground arith)

pub expedited-Begins :
    (cnt index sub psize : ℕ) (p : List ℕ) (o : Object)
    → index < 65536
    → 1 ≤ psize
    → psize ≤ 4
    → Begins
        (memcpy empty_mbx 0 (
          coe_message 0x0a cnt 0 sdoreq (
            bit_or sdo_down_exp (bit_and ((4 - psize) * 4) 0x0c)
            ∷ byte0 index
            ∷ byte1 index
            ∷ sub
            ∷ bytes_at p 0 psize)))
        o
        index
        sub
        (bytes_at p 0 psize)
        true
unfolding coe_message
expedited-Begins cnt index sub psize p o small one le =
    let cmd = bit_or sdo_down_exp (bit_and ((4 - psize) * 4) 0x0c) in
    let block = bytes_at p 0 psize in
    let src = coe_message 0x0a cnt 0 sdoreq (cmd ∷ byte0 index ∷ byte1 index ∷ sub ∷ block) in
    let m = memcpy empty_mbx 0 src in
    let room = length-empty_mbx in
    let n : length block ≡ psize = length-bytes_at p 0 psize in
    let size : length src ≡ 12 + length block = omega arith in
    let fits : length src ≤ length empty_mbx = omega (arith, size, n, room) in
    let parts = expedited_command psize one le in
    let c : command m ≡ cmd = message_byte empty_mbx src 8 (omega (arith, size)) fits in
    let low = message_byte empty_mbx src 9 (omega (arith, size)) fits in
    let high = message_byte empty_mbx src 10 (omega (arith, size)) fits in
    let held : bytes_at m 12 (4 - command m / 4 % 4) ≡ block =
      ap (bytes_at m 12) (ap (λ k. 4 - k / 4 % 4) c ∙ parts.2 ∙ sym n)
      ∙ message_rest empty_mbx src block 12 size (λ i. ap (λ j. get_or src j 0) (twelve i)) fits in
    let done =
      initiate_expedited m block o (omega (arith, c, parts.0)) (omega (arith, c, parts.1)) held in
    record {
      kind = ground (arith, c, parts.0);
      of_index = omega (arith, low, high);
      of_sub = message_byte empty_mbx src 11 (omega (arith, size)) fits;
      written = done.0;
      all = done.1;
      turn = done.2;
    }
  where
    twelve :
        (i : ℕ) → 12 + i ≡ suc (suc (suc (suc (suc (suc (suc (suc (suc (suc (suc (suc i)))))))))))
    twelve i = omega arith

pub normal-Begins :
    (cnt cmd index sub psize frame : ℕ) (p : List ℕ) (o : Object)
    → (cmd / 32 ≡ 1) × (cmd / 2 % 2 ≡ 0)
    → index < 65536
    → psize < 4294967296
    → frame ≤ 1470
    → Begins
        (memcpy empty_mbx 0 (
          coe_message
            (u16 (0x0a + frame))
            cnt
            0
            sdoreq
            (cmd ∷ byte0 index ∷ byte1 index ∷ sub ∷ long_bytes psize (bytes_at p 0 frame))))
        o
        index
        sub
        (bytes_at p 0 frame)
        (frame == psize)
unfolding coe_message
normal-Begins cnt cmd index sub psize frame p o normal small fits_long le =
    let block = bytes_at p 0 frame in
    let src =
      coe_message (u16 (0x0a + frame)) cnt 0 sdoreq
        (cmd ∷ byte0 index ∷ byte1 index ∷ sub ∷ long_bytes psize block) in
    let m = memcpy empty_mbx 0 src in
    let room = length-empty_mbx in
    let n : length block ≡ frame = length-bytes_at p 0 frame in
    let size : length src ≡ 16 + length block = omega arith in
    let fits : length src ≤ length empty_mbx = omega (arith, size, n, room) in
    let at : (i : ℕ) → i < 16 → get_or m i 0 ≡ get_or src i 0 =
      λ i lt. message_byte empty_mbx src i (omega (arith, size)) fits in
    let c : command m ≡ cmd = at 8 (omega arith) in
    let len : word_at m 0 - 10 ≡ frame = omega (arith, at 0 (omega arith), at 1 (omega arith)) in
    let long : long_at m 12 ≡ psize =
      omega (
        arith,
        at 12 (omega arith),
        at 13 (omega arith),
        at 14 (omega arith),
        at 15 (omega arith),
      ) in
    let held : bytes_at m 16 (word_at m 0 - 10) ≡ block =
      ap (bytes_at m 16) (len ∙ sym n)
      ∙ message_rest empty_mbx src block 16 size (λ i. ap (λ j. get_or src j 0) (sixteen i)) fits in
    let begun = initiate_normal m block o (omega (arith, c)) (omega (arith, c)) held in
    record {
      kind = ground (arith, c);
      of_index = omega (arith, at 9 (omega arith), at 10 (omega arith));
      of_sub = at 11 (omega arith);
      written = begun.0;
      all = begun.1 ∙ cc (len, long);
      turn = begun.2;
    }
  where
    sixteen :
        (i : ℕ)
        → 16 + i
          ≡ suc (
              suc (
                suc
                  (suc (suc (suc (suc (suc (suc (suc (suc (suc (suc (suc (suc (suc i)))))))))))))))
    sixteen i = omega arith
