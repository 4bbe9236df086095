-- ===== src/Word/Bits.antt =====
-- `bit_or` of bits that do not overlap is a sum.
use Prim.Native.Nat.{bit_or, digits, bit_or-bitwise, max}
use mongonet.Base.{ℕ, zero, suc, ◌+◌, ◌*◌, ◌/◌, ◌%◌, ◌^◌, ◌≤◌, ◌<◌, ◌≡◌, refl, ◌∙◌, arith}
use native.Mathlib.Nat.{pow-suc}

abbrev or_digits : ℕ → ℕ → ℕ → ℕ
or_digits n a b = digits (λ b. b) max n a b

or_digits_fuel : (n m a b : ℕ) → a ≤ n → a ≤ m → or_digits n a b ≡ or_digits m a b
or_digits_fuel zero zero a b p q = refl
or_digits_fuel zero (suc m) zero b p q = refl
or_digits_fuel zero (suc m) (suc a) b p q = absurd (omega arith)
or_digits_fuel (suc n) zero zero b p q = refl
or_digits_fuel (suc n) zero (suc a) b p q = absurd (omega arith)
or_digits_fuel (suc n) (suc m) zero b p q = refl
or_digits_fuel (suc n) (suc m) (suc a) b p q =
    omega (arith, or_digits_fuel n m (suc a / 2) (b / 2) (omega arith) (omega arith))

zero-bit_or : (b : ℕ) → bit_or 0 b ≡ b
zero-bit_or b = bit_or-bitwise 0 b

bit_or_step : (a b : ℕ) → bit_or a b ≡ bit_or (a / 2) (b / 2) * 2 + max (a % 2) (b % 2)
bit_or_step zero b = omega (arith, zero-bit_or b, zero-bit_or (b / 2))
bit_or_step (suc a) b = omega (
  arith,
  bit_or-bitwise (suc a) b,
  bit_or-bitwise (suc a / 2) (b / 2),
  or_digits_fuel a (suc a / 2) (suc a / 2) (b / 2) (omega arith) (omega arith),
)

step_shifted : (x q : ℕ) → bit_or (x / 2) q ≡ x / 2 + q → bit_or x (q * 2) ≡ x + q * 2
step_shifted x q ih =
    let e : q * 2 / 2 ≡ q = omega arith in bit_or_step x (q * 2) ∙ rw e (omega (arith, ih))

two_pow_suc : (k y : ℕ) → y * 2 ^ suc k ≡ y * 2 ^ k * 2
two_pow_suc k y = rw pow-suc (grind arith)

-- Bits below `k` and bits from `k` on.
pub bit_or_disjoint : (k x y : ℕ) → x < 2 ^ k → bit_or x (y * 2 ^ k) ≡ x + y * 2 ^ k
bit_or_disjoint zero zero y h = omega (arith, zero-bit_or (y * 1))
bit_or_disjoint zero (suc x) y h = absurd (omega arith)
bit_or_disjoint (suc k) x y h =
    rw (two_pow_suc k y)
      (step_shifted x (y * 2 ^ k) (bit_or_disjoint k (x / 2) y (omega (arith, two_pow_suc k 1))))
