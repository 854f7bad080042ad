-- ===== src/Base/Bits.antt =====
-- `bit_or` of numbers whose bits do not meet is their sum.
use Prim.Native.Nat.{
  ℕ, zero, suc, ◌+◌, ◌*◌, ◌/◌, ◌%◌, ◌^◌, ◌≤◌, ◌<◌, max, bit_or, digits, bit_or-bitwise,
}
use mathlib.Core.Path.{◌≡◌, refl, ap}
use native.Mathlib.Omega.{arith}

abbrev or_digits : ℕ → ℕ → ℕ → ℕ
or_digits n a b = digits (λ c. c) max n a b

zero-or_digits : (n b : ℕ) → or_digits n 0 b ≡ b
zero-or_digits zero b = refl
zero-or_digits (suc n) b = refl

-- More rounds than the first number needs change nothing.
or_digits_fuel : (a b n m : ℕ) → a ≤ n → a ≤ m → or_digits n a b ≡ or_digits m a b
or_digits_fuel zero b n m p q = omega (arith, zero-or_digits n b, zero-or_digits m b)
or_digits_fuel (suc a) b zero m p q = absurd (omega arith)
or_digits_fuel (suc a) b (suc n) zero p q = absurd (omega arith)
or_digits_fuel (suc a) b (suc n) (suc m) p q =
    let higher = or_digits_fuel (suc a / 2) (b / 2) n m (omega arith) (omega arith) in
    omega (arith, higher)

pub zero-bit_or : (b : ℕ) → bit_or 0 b ≡ b
zero-bit_or b = bit_or-bitwise 0 b

-- The lowest digit, and the digits above it.
pub bit_or_step : (a b : ℕ) → bit_or a b ≡ bit_or (a / 2) (b / 2) * 2 + max (a % 2) (b % 2)
bit_or_step zero b = omega (arith, zero-bit_or b, zero-bit_or (b / 2))
bit_or_step (suc a) b = omega (
  arith,
  bit_or-bitwise (suc a) b,
  bit_or-bitwise (suc a / 2) (b / 2),
  or_digits_fuel (suc a / 2) (b / 2) a (suc a / 2) (omega arith) (omega arith),
)

bit_or_double : (a b : ℕ) → bit_or a (b * 2) ≡ bit_or (a / 2) b * 2 + a % 2
bit_or_double a b =
    let half : b * 2 / 2 ≡ b = omega arith in
    omega (arith, bit_or_step a (b * 2), ap (bit_or (a / 2)) half)

pub pow_double : (s : ℕ) → 2 ^ suc s ≡ 2 ^ s * 2
pow_double s = omega arith

shifted_double : (s g : ℕ) → g * 2 ^ suc s ≡ g * 2 ^ s * 2
shifted_double s g = omega (arith, ap (λ (t : ℕ). g * t) (pow_double s))

-- `a | g << s` for `a` below `1 << s`.
pub bit_or_shifted : (s a g : ℕ) → a < 2 ^ s → bit_or a (g * 2 ^ s) ≡ a + g * 2 ^ s
bit_or_shifted zero a g h = let e : a ≡ 0 = omega arith in rw e (omega (arith, zero-bit_or (g * 1)))
bit_or_shifted (suc s) a g h = rw (shifted_double s g) (
    omega (
      arith,
      bit_or_double a (g * 2 ^ s),
      bit_or_shifted s (a / 2) g (omega (arith, pow_double s)),
    ))

bit_or-zero_fuel : (n a : ℕ) → a ≤ n → bit_or a 0 ≡ a
bit_or-zero_fuel n zero h = zero-bit_or 0
bit_or-zero_fuel zero (suc a) h = absurd (omega arith)
bit_or-zero_fuel (suc n) (suc a) h =
    omega (arith, bit_or_step (suc a) 0, bit_or-zero_fuel n (suc a / 2) (omega arith))

pub bit_or-zero : (a : ℕ) → bit_or a 0 ≡ a
bit_or-zero a = bit_or-zero_fuel a a (omega arith)

double-bit_or : (a b : ℕ) → bit_or (a * 2) b ≡ bit_or a (b / 2) * 2 + b % 2
double-bit_or a b =
    let half : a * 2 / 2 ≡ a = omega arith in
    omega (arith, bit_or_step (a * 2) b, ap (λ (x : ℕ). bit_or x (b / 2)) half)

-- `g << s | a` for `a` below `1 << s`.
pub shifted-bit_or : (s g a : ℕ) → a < 2 ^ s → bit_or (g * 2 ^ s) a ≡ g * 2 ^ s + a
shifted-bit_or zero g a h = let e : a ≡ 0 = omega arith in rw e (omega (arith, bit_or-zero (g * 1)))
shifted-bit_or (suc s) g a h = rw (shifted_double s g) (
    omega (
      arith,
      double-bit_or (g * 2 ^ s) a,
      shifted-bit_or s g (a / 2) (omega (arith, pow_double s)),
    ))
