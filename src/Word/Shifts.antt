-- ===== src/Word/Shifts.antt =====
-- What the conversions and shifts of Word.antt come to in plain arithmetic.
use mongonet.Base.{ℕ, ◌/◌, ◌%◌, ◌^◌, ◌<◌, ◌≡◌, arith, ltb}
use mongonet.Word.{int_of, sar32, sar64, slt64, byte_of}

-- The byte that a shift by `k` leaves lowest is the one that stands at bit `k`.
module _ (w : ℕ) (h : w < 2 ^ 32) where
  pub byte-sar32_8 : byte_of (sar32 w 8) ≡ w / 2 ^ 8 % 256
  unfolding sar32
  byte-sar32_8 = ground arith

  pub byte-sar32_16 : byte_of (sar32 w 16) ≡ w / 2 ^ 16 % 256
  unfolding sar32
  byte-sar32_16 = ground arith

  pub byte-sar32_24 : byte_of (sar32 w 24) ≡ w / 2 ^ 24 % 256
  unfolding sar32
  byte-sar32_24 = ground arith

module _ (w : ℕ) (h : w < 2 ^ 64) where
  pub byte-sar64_8 : byte_of (sar64 w 8) ≡ w / 2 ^ 8 % 256
  unfolding sar64
  byte-sar64_8 = ground arith

  pub byte-sar64_16 : byte_of (sar64 w 16) ≡ w / 2 ^ 16 % 256
  unfolding sar64
  byte-sar64_16 = ground arith

  pub byte-sar64_24 : byte_of (sar64 w 24) ≡ w / 2 ^ 24 % 256
  unfolding sar64
  byte-sar64_24 = ground arith

  pub byte-sar64_32 : byte_of (sar64 w 32) ≡ w / 2 ^ 32 % 256
  unfolding sar64
  byte-sar64_32 = ground arith

  pub byte-sar64_40 : byte_of (sar64 w 40) ≡ w / 2 ^ 40 % 256
  unfolding sar64
  byte-sar64_40 = ground arith

  pub byte-sar64_48 : byte_of (sar64 w 48) ≡ w / 2 ^ 48 % 256
  unfolding sar64
  byte-sar64_48 = ground arith

  pub byte-sar64_56 : byte_of (sar64 w 56) ≡ w / 2 ^ 56 % 256
  unfolding sar64
  byte-sar64_56 = ground arith

-- A count below half the range is its own pattern.
pub int_of_small : (w : ℕ) → w < 2 ^ 31 → int_of w ≡ w
unfolding int_of
int_of_small w h = ground arith

pub slt64_small : (a b : ℕ) → a < 2 ^ 63 → b < 2 ^ 63 → slt64 a b ≡ ltb a b
unfolding slt64
slt64_small a b ha hb = ground arith
