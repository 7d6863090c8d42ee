-- ===== src/Image/Writes.antt =====
-- What the output functions leave at each byte behind `ec_slave[0].outputs`, wherever it points.
use bharatiya_beagle_bone.Common.{
  ℕ, ◌+◌, ◌≡◌, ◌≢◌, ◌≤◌, ◌<◌, refl, arith, ◌==◌, if◌then◌else◌, length, length-set, get_or-set,
  byte0, byte1, byte2, byte3, join16, join32,
}
use bharatiya_beagle_bone.Image.{
  Image, Place, at_io_map, at_op_pdo, write_at, read_at, write_output, read_output,
  fill_motion_params, modify_latch_control_word_value, modify_torque_feed_forward_value,
  modify_max_torque_value, OpnMode, no_mode, drv_set_operation_mode, mode_of_opn_param,
}

-- The bytes behind the pointer that its array still has.
abbrev pub RoomAt : Place → Image → ℕ → Type 0
RoomAt (at_io_map base) m n = base + n ≤ length m.io_map
RoomAt at_op_pdo m n = n ≤ length m.op_pdo

-- At least 19 bytes lie behind the output pointer.
abbrev pub HasRoom : Image → Type 0
HasRoom m = RoomAt m.outputs m 19

outputs-write_at : (p : Place) (i v : ℕ) (m : Image) → (write_at p i v m).outputs ≡ m.outputs
unfolding write_at
outputs-write_at (at_io_map base) i v m = refl
outputs-write_at at_op_pdo i v m = refl

RoomAt-write_at : (p : Place) (i v n : ℕ) (m : Image) → RoomAt p m n → RoomAt p (write_at p i v m) n
unfolding write_at
RoomAt-write_at (at_io_map base) i v n m h = omega (arith, length-set m.io_map (base + i) v)
RoomAt-write_at at_op_pdo i v n m h = omega (arith, length-set m.op_pdo i v)

read_at-write_at :
    (p : Place) (i j v n : ℕ) (m : Image)
    → RoomAt p m n
    → i < n
    → read_at p j (write_at p i v m) ≡ (if i == j then v else read_at p j m)
unfolding write_at read_at
read_at-write_at (at_io_map base) i j v n m h lt =
    ground (arith, get_or-set m.io_map (base + i) (base + j) v 0)
read_at-write_at at_op_pdo i j v n m h lt = ground (arith, get_or-set m.op_pdo i j v 0)

-- A write keeps the room and the pointer, so writes can be read one after the other.
pub write_output-HasRoom : (i v : ℕ) (m : Image) → HasRoom m → HasRoom (write_output i v m)
unfolding write_output
write_output-HasRoom i v m h =
    rw (outputs-write_at m.outputs i v m) (RoomAt-write_at m.outputs i v 19 m h)

pub read_output-write_output :
    (i j v : ℕ) (m : Image)
    → HasRoom m
    → i < 19
    → read_output j (write_output i v m) ≡ (if i == j then v else read_output j m)
unfolding read_output write_output
read_output-write_output i j v m h lt =
    rw (outputs-write_at m.outputs i v m) (read_at-write_at m.outputs i j v 19 m h lt)

read_output-write_two :
    (i k j a b : ℕ) (m : Image)
    → HasRoom m
    → i < 19
    → k < 19
    → read_output j (write_output k b (write_output i a m))
      ≡ (if k == j then b else (if i == j then a else read_output j m))
read_output-write_two i k j a b m h lt lt' = ground (
  arith,
  read_output-write_output k j b (write_output i a m) (write_output-HasRoom i a m h) lt',
  read_output-write_output i j a m h lt,
)

write_two-HasRoom :
    (i k a b : ℕ) (m : Image) → HasRoom m → HasRoom (write_output k b (write_output i a m))
write_two-HasRoom i k a b m h =
    write_output-HasRoom k b (write_output i a m) (write_output-HasRoom i a m h)

-- Behind an output pointer with room: `modifyLatchControlWordValue` leaves the control word at the
-- bytes 0 and 1 and `modifyTorqueFeedForwardValue` the target torque at 3 and 4, low byte first;
-- `modifyMaxTorqueValue` leaves the maximal torque at 5 and 6 with the high byte first; each keeps
-- every other byte.
pub word_writes :
    (w : ℕ) (m : Image)
    → w < 65536
    → HasRoom m
    → let latch = modify_latch_control_word_value w m in
      let tq = modify_torque_feed_forward_value w m in
      let max = modify_max_torque_value w m in
      (join16 (read_output 0 latch) (read_output 1 latch) ≡ w)
      × (join16 (read_output 3 tq) (read_output 4 tq) ≡ w)
      × (join16 (read_output 6 max) (read_output 5 max) ≡ w)
      × ((j : ℕ) → 2 ≤ j → read_output j latch ≡ read_output j m)
      × ((j : ℕ) → j ≢ 3 → j ≢ 4 → read_output j tq ≡ read_output j m)
      × ((j : ℕ) → j ≢ 5 → j ≢ 6 → read_output j max ≡ read_output j m)
unfolding modify_latch_control_word_value modify_torque_feed_forward_value modify_max_torque_value
word_writes w m lt h = (
  ground (arith, latch 0, latch 1),
  ground (arith, tq 3, tq 4),
  ground (arith, max 6, max 5),
  λ j far. ground (arith, latch j),
  λ j ne ne'. ground (arith, tq j),
  λ j ne ne'. ground (arith, max j),
)
  where
    latch :
        (j : ℕ)
        → read_output j (modify_latch_control_word_value w m)
          ≡ (if 1 == j then byte1 w else (if 0 == j then byte0 w else read_output j m))
    latch j = read_output-write_two 0 1 j (byte0 w) (byte1 w) m h (omega arith) (omega arith)

    tq :
        (j : ℕ)
        → read_output j (modify_torque_feed_forward_value w m)
          ≡ (if 4 == j then byte1 w else (if 3 == j then byte0 w else read_output j m))
    tq j = read_output-write_two 3 4 j (byte0 w) (byte1 w) m h (omega arith) (omega arith)

    max :
        (j : ℕ)
        → read_output j (modify_max_torque_value w m)
          ≡ (if 6 == j then byte0 w else (if 5 == j then byte1 w else read_output j m))
    max j = read_output-write_two 5 6 j (byte1 w) (byte0 w) m h (omega arith) (omega arith)

-- Behind an output pointer with room, `fillMotionParams` leaves the position at the bytes 7 to 10,
-- the feed-forward torque at 3 and 4 and the maximal torque at 5 and 6, each with the high byte first.
pub fill_motion_params_lem :
    (posn tq max : ℕ) (m : Image)
    → posn < 4294967296
    → tq < 65536
    → max < 65536
    → HasRoom m
    → let r = λ (j : ℕ). read_output j (fill_motion_params posn tq max m) in
      (join32 (r 10) (r 9) (r 8) (r 7) ≡ posn)
      × (join16 (r 4) (r 3) ≡ tq)
      × (join16 (r 6) (r 5) ≡ max)
unfolding fill_motion_params
fill_motion_params_lem posn tq max m hp ht hm h =
    let m1 = write_output 8 (byte2 posn) (write_output 7 (byte3 posn) m) in
    let m2 = write_output 10 (byte0 posn) (write_output 9 (byte1 posn) m1) in
    let m3 = write_output 4 (byte0 tq) (write_output 3 (byte1 tq) m2) in
    let h1 : HasRoom m1 = write_two-HasRoom 7 8 (byte3 posn) (byte2 posn) m h in
    let h2 : HasRoom m2 = write_two-HasRoom 9 10 (byte1 posn) (byte0 posn) m1 h1 in
    let h3 : HasRoom m3 = write_two-HasRoom 3 4 (byte1 tq) (byte0 tq) m2 h2 in
    let s1 = λ (j : ℕ).
      read_output-write_two 7 8 j (byte3 posn) (byte2 posn) m h (omega arith) (omega arith) in
    let s2 = λ (j : ℕ).
      read_output-write_two 9 10 j (byte1 posn) (byte0 posn) m1 h1 (omega arith) (omega arith) in
    let s3 = λ (j : ℕ).
      read_output-write_two 3 4 j (byte1 tq) (byte0 tq) m2 h2 (omega arith) (omega arith) in
    let s4 = λ (j : ℕ).
      read_output-write_two 5 6 j (byte1 max) (byte0 max) m3 h3 (omega arith) (omega arith) in
    (
      ground (
        arith,
        s4 10,
        s3 10,
        s2 10,
        s4 9,
        s3 9,
        s2 9,
        s4 8,
        s3 8,
        s2 8,
        s1 8,
        s4 7,
        s3 7,
        s2 7,
        s1 7,
      ),
      ground (arith, s4 4, s3 4, s4 3, s3 3),
      ground (arith, s4 6, s4 5),
    )

-- A mode of operation is written at the byte 2, and no other byte is changed; of a number that is
-- no mode nothing is written.
pub drv_set_operation_mode_lem :
    (mode : OpnMode) (flag : ℕ) (m : Image)
    → HasRoom m
    → let m' = (drv_set_operation_mode mode (flag, m)).1 in
      (mode ≢ no_mode → (read_output 2 m' ≡ mode_of_opn_param mode) × (0 < read_output 2 m'))
      × (mode ≡ no_mode → m' ≡ m)
      × ((j : ℕ) → j ≢ 2 → read_output j m' ≡ read_output j m)
unfolding drv_set_operation_mode mode_of_opn_param
drv_set_operation_mode_lem no_mode flag m h =
    (λ supported. absurd (supported refl), λ e. refl, λ j ne. refl)
drv_set_operation_mode_lem mode flag m h =
    let w = λ (j : ℕ). read_output-write_output 2 j (mode_of_opn_param mode) m h (omega arith) in
    (λ supported. ground (arith, w 2), λ e. ground (arith, e), λ j ne. ground (arith, w j))
