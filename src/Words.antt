-- ===== src/Words.antt =====
-- The fixed-width integers of C. A `uint16_t` or `uint32_t` is a native number; a conversion to it
-- reduces modulo its width. An `int`, a `time_t` and a `suseconds_t` are integers.
use kaf_katch.Prelude.{ℕ, ◌+◌, ◌-◌, ◌*◌, ◌/◌, ◌%◌, ◌^◌, ◌<◌, ◌≡◌, arith}
use kaf_katch.Prelude.Int.{ℤ, pos, negsuc}

abbrev pub u16 : ℕ → ℕ
u16 n = n % 2 ^ 16

abbrev pub u32 : ℕ → ℕ
u32 n = n % 2 ^ 32

-- `(uint16_t)z` and `(uint32_t)z` of an `int`.
abbrev pub int_to_u16 : ℤ → ℕ
int_to_u16 (pos n) = n % 2 ^ 16
int_to_u16 (negsuc n) = 2 ^ 16 - 1 - n % 2 ^ 16

abbrev pub int_to_u32 : ℤ → ℕ
int_to_u32 (pos n) = n % 2 ^ 32
int_to_u32 (negsuc n) = 2 ^ 32 - 1 - n % 2 ^ 32

-- `ntohs` on a little-endian host swaps the two bytes.
unfoldable pub ntohs : ℕ → ℕ
ntohs x = x % 256 * 256 + x / 256

-- Swapping twice gives the number back, and a port stays a port.
pub ntohs_involutive : (x : ℕ) → x < 2 ^ 16 → ntohs (ntohs x) ≡ x
unfolding ntohs
ntohs_involutive x h = omega arith

pub ntohs-lt : (x : ℕ) → x < 2 ^ 16 → ntohs x < 2 ^ 16
unfolding ntohs
ntohs-lt x h = omega arith
