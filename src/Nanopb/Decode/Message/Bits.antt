-- ===== src/Nanopb/Decode/Message/Bits.antt =====
-- The bits of the words of `fields_seen` in nanopb's pb_decode.c.
use firebase_login.Base.{
  ℕ, zero, suc, ◌-◌, ◌*◌, ◌/◌, ◌%◌, ◌^◌, ◌<◌, ◌≡◌, refl, sym, ap, ◌∙◌, arith, Bool, true, false,
  ◌==◌, ◌&&◌, ◌||◌, bit_or,
}
use firebase_login.Base.Bits.{bit_or_step}
use native.Mathlib.Decide.{dec_lt}

-- The bit at an index.
abbrev pub bit_at : ℕ → ℕ → Bool
bit_at zero n = n % 2 == 1
bit_at (suc i) n = bit_at i (n / 2)

half_or : (a b : ℕ) → bit_or a b / 2 ≡ bit_or (a / 2) (b / 2)
half_or a b = omega (arith, bit_or_step a b)

pub bit_at-or : (i a b : ℕ) → bit_at i (bit_or a b) ≡ (bit_at i a || bit_at i b)
bit_at-or zero a b = ground (arith, bit_or_step a b)
bit_at-or (suc i) a b = ap (bit_at i) (half_or a b) ∙ bit_at-or i (a / 2) (b / 2)

pub bit_at-zero : (i : ℕ) → bit_at i 0 ≡ false
bit_at-zero zero = refl
bit_at-zero (suc i) = bit_at-zero i

double : (j : ℕ) → 2 ^ suc j ≡ 2 * 2 ^ j
double j = omega arith

pub bit_at-power : (i j : ℕ) → bit_at i (2 ^ j) ≡ (i == j)
bit_at-power zero zero = refl
bit_at-power zero (suc j) = rw (double j) (ground arith)
bit_at-power (suc i) zero = bit_at-zero i ∙ ground arith
bit_at-power (suc i) (suc j) =
    let half : 2 ^ suc j / 2 ≡ 2 ^ j = omega (arith, double j) in
    ap (bit_at i) half ∙ bit_at-power i j ∙ ground arith

pub or-lt : (k a b : ℕ) → a < 2 ^ k → b < 2 ^ k → bit_or a b < 2 ^ k
or-lt zero a b ha hb =
    let ea : a ≡ 0 = omega arith in let eb : b ≡ 0 = omega arith in rw (ea, eb) (omega arith)
or-lt (suc k) a b ha hb =
    let d = double k in
    let higher = or-lt k (a / 2) (b / 2) (omega (arith, d, ha)) (omega (arith, d, hb)) in
    omega (arith, half_or a b, higher, d)

-- The bits below `k`, from the lowest.
abbrev pub all_set : ℕ → ℕ → Bool
all_set zero n = true
all_set (suc k) n = all_set k n && bit_at k n

low_first : (k n : ℕ) → all_set (suc k) n ≡ (bit_at 0 n && all_set k (n / 2))
low_first zero n = ground arith
low_first (suc k) n = ap (λ b. b && bit_at (suc k) n) (low_first k n) ∙ ground arith

pub positive : (k : ℕ) → 0 < 2 ^ k
positive zero = omega arith
positive (suc k) = omega (arith, double k, positive k)

last_digit : (n p q : ℕ) → 0 < p → q ≡ 2 * p → (n % 2 == 1 && n / 2 == p - 1) ≡ (n == q - 1)
last_digit n p q h e = ground arith

-- A number of `k` bits has all of them set exactly if it is the largest.
pub largest : (k n : ℕ) → n < 2 ^ k → (n == 2 ^ k - 1) ≡ all_set k n
largest zero n h = ground arith
largest (suc k) n h =
    let d = double k in
    let rest = largest k (n / 2) (omega (arith, d, h)) in
    sym (
      low_first k n
      ∙ ap (λ b. bit_at 0 n && b) (sym rest)
      ∙ last_digit n (2 ^ k) (2 ^ suc k) (positive k) d)

pub power-lt : (j k : ℕ) → j < k → 2 ^ j < 2 ^ k
power-lt j zero h = absurd (omega arith)
power-lt j (suc k) h = elim (dec_lt j k) [
  | yes below ↦ omega (arith, power-lt j k below, double k)
  | no last ↦ let e : j ≡ k = omega arith in rw e (omega (arith, double k, positive k))
]
