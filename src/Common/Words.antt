-- ===== src/Common/Words.antt =====
-- Machine words of C as native numbers, with the wrap-around written out, and the `split` unions
-- of the program: the bytes of a little-endian word, low byte first.
use Prim.Native.Nat.{ℕ, ◌+◌, ◌-◌, ◌*◌, ◌/◌, ◌%◌, ◌<◌}
use mathlib.Core.Path.{◌≡◌}
use native.Mathlib.Omega.{arith}

abbrev pub u8 : ℕ → ℕ
u8 n = n % 256

abbrev pub u16 : ℕ → ℕ
u16 n = n % 65536

abbrev pub u32 : ℕ → ℕ
u32 n = n % 4294967296

-- a - b on 32 bits
abbrev pub sub32 : ℕ → ℕ → ℕ
sub32 a b = (a + 4294967296 - b % 4294967296) % 4294967296

-- byte i of a word
abbrev pub byte0 : ℕ → ℕ
byte0 n = n % 256

abbrev pub byte1 : ℕ → ℕ
byte1 n = n / 256 % 256

abbrev pub byte2 : ℕ → ℕ
byte2 n = n / 65536 % 256

abbrev pub byte3 : ℕ → ℕ
byte3 n = n / 16777216 % 256

-- the union read back: the word of two, or four, bytes
abbrev pub join16 : ℕ → ℕ → ℕ
join16 l h = l + 256 * h

abbrev pub join32 : ℕ → ℕ → ℕ → ℕ → ℕ
join32 ll lh hl hh = ll + 256 * lh + 65536 * hl + 16777216 * hh

pub join16-bytes : (n : ℕ) → n < 65536 → join16 (byte0 n) (byte1 n) ≡ n
join16-bytes n h = omega arith

pub join32-bytes : (n : ℕ) → n < 4294967296 → join32 (byte0 n) (byte1 n) (byte2 n) (byte3 n) ≡ n
join32-bytes n h = omega arith
