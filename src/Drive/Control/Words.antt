-- ===== src/Drive/Control/Words.antt =====
-- The control word that each command leaves, by its bits.
use bharatiya_beagle_bone.Common.{
  ℕ, ◌+◌, ◌*◌, ◌/◌, ◌%◌, ◌<◌, ◌≡◌, ◌≢◌, refl, arith, true, ◌==◌, ==_iff, bit_and, bit_or, byte0, u8,
  or_lowest, or-zero, passes, passes_at,
}
use bharatiya_beagle_bone.Drive.{
  Command, shut_down, switch_on, disable_vtg, quick_stop, enable_opn, enable_ip, fault_reset, stop,
  new_set_point, pp_mode,
}
use bharatiya_beagle_bone.Drive.Control.{control_word}

-- Bits 0, 1, 2, 3 and 7 of a control word, by which the drive profile tells commands apart.
abbrev pub b0 : ℕ → ℕ
b0 w = w % 2

abbrev pub b1 : ℕ → ℕ
b1 w = w / 2 % 2

abbrev pub b2 : ℕ → ℕ
b2 w = w / 4 % 2

abbrev pub b3 : ℕ → ℕ
b3 w = w / 8 % 2

abbrev pub b7 : ℕ → ℕ
b7 w = w / 128 % 2

-- The pattern by which the drive profile knows a command; the other commands have none here.
abbrev pub Commands : ℕ → Command → Type 0
Commands w shut_down = (b0 w ≡ 0) × (b1 w ≡ 1) × (b2 w ≡ 1) × (b7 w ≡ 0)
Commands w switch_on = (b0 w ≡ 1) × (b1 w ≡ 1) × (b2 w ≡ 1) × (b3 w ≡ 0) × (b7 w ≡ 0)
Commands w disable_vtg = (b1 w ≡ 0) × (b7 w ≡ 0)
Commands w quick_stop = (b1 w ≡ 1) × (b2 w ≡ 0) × (b7 w ≡ 0)
Commands w enable_opn = (b0 w ≡ 1) × (b1 w ≡ 1) × (b2 w ≡ 1) × (b3 w ≡ 1) × (b7 w ≡ 0)
Commands w fault_reset = b7 w ≡ 1
Commands w _ = Unit {0}

quick_stop_table : passes (λ x. bit_and (bit_or x 2) 0xfb == x / 8 * 8 + 2 + x % 2) 256 ≡ true
unfolding passes
quick_stop_table = refl

enable_ip_table : passes (λ x. bit_or x 0x1f == x / 32 * 32 + 31) 256 ≡ true
unfolding passes
enable_ip_table = refl

fault_reset_table : passes (λ x. bit_or x 0x80 == x % 128 + 128) 256 ≡ true
unfolding passes
fault_reset_table = refl

stop_table : passes (λ x. u8 (bit_or x 0x100) == x) 256 ≡ true
unfolding passes
stop_table = refl

pub quick_stop_byte : (x : ℕ) → x < 256 → bit_and (bit_or x 2) 0xfb ≡ x / 8 * 8 + 2 + x % 2
quick_stop_byte x h = (==_iff _ _).0 (passes_at _ 256 x h quick_stop_table)

pub enable_ip_byte : (x : ℕ) → x < 256 → bit_or x 0x1f ≡ x / 32 * 32 + 31
enable_ip_byte x h = (==_iff _ _).0 (passes_at _ 256 x h enable_ip_table)

pub fault_reset_byte : (x : ℕ) → x < 256 → bit_or x 0x80 ≡ x % 128 + 128
fault_reset_byte x h = (==_iff _ _).0 (passes_at _ 256 x h fault_reset_table)

pub stop_byte : (x : ℕ) → x < 256 → u8 (bit_or x 0x100) ≡ x
stop_byte x h = (==_iff _ _).0 (passes_at _ 256 x h stop_table)

pub or_0x10 : (w : ℕ) → bit_or w 0x10 ≡ w / 32 * 32 + 16 + w % 16
or_0x10 w = omega (
  arith,
  or_lowest w 0x10,
  or_lowest (w / 2) 8,
  or_lowest (w / 2 / 2) 4,
  or_lowest (w / 2 / 2 / 2) 2,
  or_lowest (w / 2 / 2 / 2 / 2) 1,
  or-zero (w / 2 / 2 / 2 / 2 / 2),
)

-- For every command and word before, the word after as arithmetic on the word before.
pub control_word_digits : Command → ℕ → ℕ
control_word_digits shut_down w = 6
control_word_digits switch_on w = 7
control_word_digits disable_vtg w = 0
control_word_digits quick_stop w = w % 256 / 8 * 8 + 2 + w % 2
control_word_digits enable_opn w = 15
control_word_digits pp_mode w = 31
control_word_digits enable_ip w = w % 256 / 32 * 32 + 31
control_word_digits fault_reset w = w % 128 + 128
control_word_digits stop w = w % 256
control_word_digits new_set_point w = w / 32 * 32 + 16 + w % 16
control_word_digits _ w = w

pub control_word-eq-digits : (c : Command) (w : ℕ) → control_word c w ≡ control_word_digits c w
unfolding control_word control_word_digits
control_word-eq-digits quick_stop w = omega (arith, quick_stop_byte (byte0 w) (omega arith))
control_word-eq-digits enable_ip w = omega (arith, enable_ip_byte (byte0 w) (omega arith))
control_word-eq-digits fault_reset w = omega (arith, fault_reset_byte (byte0 w) (omega arith))
control_word-eq-digits stop w = omega (arith, stop_byte (byte0 w) (omega arith))
control_word-eq-digits new_set_point w = or_0x10 w
control_word-eq-digits _ w = refl

-- For shutting down, switching on, disabling the voltage, enabling operation and the fault reset,
-- and whatever the word before: the word after has the bits by which the drive profile knows the
-- command. For the quick stop it has them if bit 7 of the word before, which it keeps, is 0; and if
-- that bit is 1 it has not, but has the one of the fault reset.
pub control_word-Commands :
    (c : Command) (w : ℕ)
    → let after = control_word c w in
      (¬ ((c ≡ quick_stop) × (b7 w ≡ 1)) → Commands after c)
      × (c ≡ quick_stop → b7 w ≡ 1 → ¬ Commands after c × Commands after fault_reset)
unfolding control_word_digits
control_word-Commands shut_down w =
    (λ _. ground (arith, control_word-eq-digits shut_down w), λ e. cc)
control_word-Commands switch_on w =
    (λ _. ground (arith, control_word-eq-digits switch_on w), λ e. cc)
control_word-Commands disable_vtg w =
    (λ _. ground (arith, control_word-eq-digits disable_vtg w), λ e. cc)
control_word-Commands quick_stop w =
    let e = control_word-eq-digits quick_stop w in
    (
      λ other. let clear : b7 w ≢ 1 = λ set_bit. other (refl, set_bit) in ground (arith, e, clear),
      λ _ set_bit. (λ has. omega (arith, e, has.2), omega (arith, e)),
    )
control_word-Commands enable_opn w =
    (λ _. ground (arith, control_word-eq-digits enable_opn w), λ e. cc)
control_word-Commands fault_reset w =
    (λ _. ground (arith, control_word-eq-digits fault_reset w), λ e. cc)
control_word-Commands _ w = (λ _. tt, λ e. cc)

pub control_word-lt : (c : Command) (w : ℕ) → w < 65536 → control_word c w < 65536
unfolding control_word_digits
control_word-lt quick_stop w h = omega (arith, control_word-eq-digits quick_stop w)
control_word-lt c w h = omega (arith, control_word-eq-digits c w)

-- STOP sets no bit: it keeps the low byte of the word and clears the high byte, so the halt bit
-- (bit 8) is 0 after it, and a word below 256 is not changed at all.
pub control_word-stop :
    (w : ℕ) → (control_word stop w ≡ w % 256) × (w < 256 → control_word stop w ≡ w)
unfolding control_word_digits
control_word-stop w =
    let e : control_word stop w ≡ w % 256 = control_word-eq-digits stop w in (e, omega arith)
