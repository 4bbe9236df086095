-- ===== src/Word.antt =====
-- Go's fixed-size integers as bit patterns: an int32 is a number below 2 ^ 32, an int64 or an int
-- (64 bits wide) one below 2 ^ 64, in two's complement.
pub mod Bits
pub mod Shifts
use mongonet.Base.{
  ℕ, ◌+◌, ◌-◌, ◌*◌, ◌/◌, ◌%◌, ◌^◌, ◌≤◌, ◌<◌, ◌≡◌, Bool, arith, ltb, leb, if◌then◌else◌,
}

-- The sign bit.
abbrev pub is_neg32 : ℕ → Bool
is_neg32 w = leb (2 ^ 31) w

abbrev pub is_neg64 : ℕ → Bool
is_neg64 w = leb (2 ^ 63) w

-- `int(w)` and `int64(w)` of an int32: the sign is extended.
unfoldable pub int_of : ℕ → ℕ
int_of w = if is_neg32 w then w + (2 ^ 64 - 2 ^ 32) else w

-- `int32(x)` of an int.
abbrev pub int32_of : ℕ → ℕ
int32_of x = x % 2 ^ 32

-- `a + b` of ints, and of int32s; `a - b` of int32s.
abbrev pub add_int : ℕ → ℕ → ℕ
add_int a b = (a + b) % 2 ^ 64

abbrev pub add32 : ℕ → ℕ → ℕ
add32 a b = (a + b) % 2 ^ 32

abbrev pub sub32 : ℕ → ℕ → ℕ
sub32 a b = (a + 2 ^ 32 - b) % 2 ^ 32

-- `a < b` of signed values: both are shifted up by half the range.
unfoldable pub slt64 : ℕ → ℕ → Bool
slt64 a b = ltb ((a + 2 ^ 63) % 2 ^ 64) ((b + 2 ^ 63) % 2 ^ 64)

unfoldable pub slt32 : ℕ → ℕ → Bool
slt32 a b = ltb ((a + 2 ^ 31) % 2 ^ 32) ((b + 2 ^ 31) % 2 ^ 32)

-- `w >> k` of an int32 and of an int64: the sign bit moves in.
unfoldable pub sar32 : ℕ → ℕ → ℕ
sar32 w k = (if is_neg32 w then w + (2 ^ 64 - 2 ^ 32) else w) / 2 ^ k % 2 ^ 32

unfoldable pub sar64 : ℕ → ℕ → ℕ
sar64 w k = (if is_neg64 w then w + (2 ^ 128 - 2 ^ 64) else w) / 2 ^ k % 2 ^ 64

-- `byte(w)`.
abbrev pub byte_of : ℕ → ℕ
byte_of w = w % 256
