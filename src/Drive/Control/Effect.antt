-- ===== src/Drive/Control/Effect.antt =====
-- What `modifyControlWord` does to the globals and to the image `opPDO`.
use bharatiya_beagle_bone.Common.{
  ℕ, ◌≤◌, ◌<◌, ◌≡◌, ◌≢◌, refl, ◌∙◌, ◌⊎◌, arith, List, length, get_or, length-set, get_or-set, byte0,
  byte1, join16,
}
use bharatiya_beagle_bone.Drive.{Command, Drive, initial}
use bharatiya_beagle_bone.Drive.Control.{control_word, command_image, modify_control_word}
use bharatiya_beagle_bone.Drive.Control.Words.{control_word-lt}

-- The control word is a `uint16`, `opPDO` has its 19 bytes, and the enable stage never rests at 1.
pub record IsValid (g : Drive) : Type 0 where
  pub word : g.ctl_wd < 65536
  pub image : length g.op_pdo ≡ 19
  pub stage : g.opn_enabled ≢ 1

pub initial-IsValid : IsValid initial
initial-IsValid = ground arith

length-command_image : (w : ℕ) (xs : List ℕ) → length (command_image w xs) ≡ length xs
unfolding command_image
length-command_image w xs = simp length-set

-- The bytes that a command writes.
record Written (w : ℕ) (xs : List ℕ) : Type 0 where
  low : get_or xs 0 0 ≡ byte0 w
  high : get_or xs 1 0 ≡ byte1 w
  tq_low : get_or xs 3 0 ≡ 0
  tq_high : get_or xs 4 0 ≡ 255
  max_low : get_or xs 5 0 ≡ 0
  max_high : get_or xs 6 0 ≡ 255

command_image-Written : (w : ℕ) (xs : List ℕ) → length xs ≡ 19 → Written w (command_image w xs)
unfolding command_image
command_image-Written w xs h = record {
  low = simp (get_or-set, h);
  high = simp (get_or-set, length-set, h);
  tq_low = simp (get_or-set, length-set, h);
  tq_high = simp (get_or-set, length-set, h);
  max_low = simp (get_or-set, length-set, h);
  max_high = simp (get_or-set, length-set, h);
}

command_image_kept :
    (w : ℕ) (xs : List ℕ) (j : ℕ)
    → (j ≡ 2) ⊎ (7 ≤ j)
    → get_or (command_image w xs) j 0 ≡ get_or xs j 0
unfolding command_image
command_image_kept w xs j h = simp (get_or-set, length-set) (ground arith)

-- Every command keeps the globals valid.
pub modify_control_word-IsValid :
    (c : Command) {g : Drive} → IsValid g → IsValid (modify_control_word c g)
unfolding modify_control_word
modify_control_word-IsValid c {g} v = record {
  word = control_word-lt c g.ctl_wd v.word;
  image = length-command_image (control_word c g.ctl_wd) g.op_pdo ∙ v.image;
  stage = ground arith;
}

-- For every command and valid globals: the first two bytes of the image make up the new control
-- word, the target torque and the maximal torque are written as 0xff00, the bytes 2 and 7 to 18 are
-- kept, and so are the drive state and the flags of the status word.
pub modify_control_word_image :
    (c : Command) (g : Drive)
    → IsValid g
    → let g' = modify_control_word c g in
      (join16 (get_or g'.op_pdo 0 0) (get_or g'.op_pdo 1 0) ≡ g'.ctl_wd)
      × (join16 (get_or g'.op_pdo 3 0) (get_or g'.op_pdo 4 0) ≡ 0xff00)
      × (join16 (get_or g'.op_pdo 5 0) (get_or g'.op_pdo 6 0) ≡ 0xff00)
      × ((j : ℕ) → (j ≡ 2) ⊎ (7 ≤ j) → get_or g'.op_pdo j 0 ≡ get_or g.op_pdo j 0)
      × (g'.drive_status ≡ g.drive_status)
      × (g'.error_flag ≡ g.error_flag)
unfolding modify_control_word
modify_control_word_image c g v =
    let w = control_word c g.ctl_wd in
    let b = command_image-Written w g.op_pdo v.image in
    let lt = control_word-lt c g.ctl_wd v.word in
    (
      omega (arith, b, lt),
      omega (arith, b),
      omega (arith, b),
      command_image_kept w g.op_pdo,
      refl,
      refl,
    )
