-- ===== src/Base64/Quad.antt =====
-- Each character of the alphabet is found again, and each byte is put together again.
use firebase_login.Base.{
  ℕ, zero, suc, ◌+◌, ◌*◌, ◌/◌, ◌%◌, ◌^◌, ◌<◌, ◌≡◌, refl, arith, ◌∷◌, Option, none, some, ◌==◌,
  if◌then◌else◌, Bool, true, false, ◌&&◌, not, bit_or, Bool-cases, inl, inr, lt→leb_false,
}
use firebase_login.Base.Text.{Text}
use firebase_login.Base.Bits.{shifted-bit_or}
use firebase_login.Base64.{
  base64, pad64, char_at, index_of, is_space, sextet, Decoder, Phase, running, put, take_char,
  pton_loop, Target, set_char, or_char,
}
use mathlib.Core.Path.{fun_ext}

-- Whether the index of a character is a number.
abbrev finds : ℕ → Option ℕ → Bool
finds v none = false
finds v (some i) = i == v

unfoldable is_good : ℕ → Bool
is_good v =
    finds v (index_of (sextet v) base64) && (not (is_space (sextet v)) && not (sextet v == pad64))

module _ (f : ℕ → Bool) where
  abbrev all_below : ℕ → Bool
  all_below zero = true
  all_below (suc n) = let rest = all_below n in if f n then rest else false

  all_below_lem : (n v : ℕ) → all_below n ≡ true → v < n → f v ≡ true
  all_below_lem zero v h lt = absurd (omega arith)
  all_below_lem (suc n) v h lt = elim (Bool-cases (f n)) [
    | inl k ↦ ground (arith, all_below_lem n v)
    | inr k ↦ absurd (ground arith)
  ]

all_good : all_below is_good 64 ≡ true
unfolding index_of char_at is_good sextet
all_good = refl

found_lem : (v : ℕ) (o : Option ℕ) → finds v o ≡ true → o ≡ some v
found_lem v none h = cc
found_lem v (some i) h = ground arith

and_left : (a b : Bool) → (a && b) ≡ true → (a ≡ true) × (b ≡ true)
and_left true b h = (refl, h)
and_left false b h = absurd (cc)

negation_lem : (b : Bool) → not b ≡ true → b ≡ false
negation_lem true h = absurd (cc)
negation_lem false h = refl

-- A character of the alphabet is no space, no padding, and found at its place.
pub sextet-index_of :
    (v : ℕ)
    → v < 64
    → (index_of (sextet v) base64 ≡ some v)
      × (is_space (sextet v) ≡ false)
      × ((sextet v == pad64) ≡ false)
unfolding is_good
sextet-index_of v h =
    let good = all_below_lem is_good 64 v all_good h in
    let (found, rest) =
      and_left (finds v (index_of (sextet v) base64))
        (not (is_space (sextet v)) && not (sextet v == pad64)) good in
    let (no_space, no_pad) = and_left (not (is_space (sextet v))) (not (sextet v == pad64)) rest in
    (
      found_lem v (index_of (sextet v) base64) found,
      negation_lem (is_space (sextet v)) no_space,
      negation_lem (sextet v == pad64) no_pad,
    )

-- A round of the decoder on a character of the alphabet.
pub pton_loop-sextet :
    (m v : ℕ) (src : Text) (d : Decoder)
    → v < 64
    → pton_loop m (sextet v ∷ src) d ≡ pton_loop m src (put m v d)
unfolding pton_loop take_char
pton_loop-sextet m v src d h =
    let (found, no_space, no_pad) = sextet-index_of v h in rw (no_pad, no_space, found) refl

-- A byte that was stored and then completed by its lower bits.
or_char-set_char :
    (i x y b : ℕ) (target : Target)
    → bit_or x y ≡ b
    → or_char i y (set_char i x target) ≡ set_char i b target
unfolding set_char
or_char-set_char i x y b target h = fun_ext λ a. ground arith

-- The switch, where there is room.
pub put_zeroth :
    (m a i : ℕ) (target : Target)
    → i < m
    → put m (a / 4) (running Phase.zeroth i target)
      ≡ running Phase.one i (set_char i (a / 4 * 4) target)
unfolding put
put_zeroth m a i target h = rw (lt→leb_false m i h) refl

pub put_one :
    (m a b i : ℕ) (target : Target)
    → i + 1 < m
    → i + 1 < 2 ^ 32
    → b < 256
    → put m (a % 4 * 16 + b / 16) (running Phase.one i (set_char i (a / 4 * 4) target))
      ≡ running Phase.two (i + 1) (set_char (i + 1) (b / 16 * 16) (set_char i a target))
unfolding put
put_one m a b i target h word hb =
    let up : (i + 1) % 2 ^ 32 ≡ i + 1 = omega arith in
    let upper : (a % 4 * 16 + b / 16) / 16 ≡ a % 4 = omega arith in
    let lower : (a % 4 * 16 + b / 16) % 16 ≡ b / 16 = omega arith in
    let byte : bit_or (a / 4 * 4) (a % 4) ≡ a =
      omega (arith, shifted-bit_or 2 (a / 4) (a % 4) (omega arith)) in
    rw
      (
        up,
        lt→leb_false m (i + 1) h,
        upper,
        lower,
        or_char-set_char i (a / 4 * 4) (a % 4) a target byte,
      )
      refl

pub put_two :
    (m b c i : ℕ) (target : Target)
    → i + 1 < m
    → i + 1 < 2 ^ 32
    → c < 256
    → put m (b % 16 * 4 + c / 64) (running Phase.two i (set_char i (b / 16 * 16) target))
      ≡ running Phase.three (i + 1) (set_char (i + 1) (c / 64 * 64) (set_char i b target))
unfolding put
put_two m b c i target h word hc =
    let up : (i + 1) % 2 ^ 32 ≡ i + 1 = omega arith in
    let upper : (b % 16 * 4 + c / 64) / 4 ≡ b % 16 = omega arith in
    let lower : (b % 16 * 4 + c / 64) % 4 ≡ c / 64 = omega arith in
    let byte : bit_or (b / 16 * 16) (b % 16) ≡ b =
      omega (arith, shifted-bit_or 4 (b / 16) (b % 16) (omega arith)) in
    rw
      (
        up,
        lt→leb_false m (i + 1) h,
        upper,
        lower,
        or_char-set_char i (b / 16 * 16) (b % 16) b target byte,
      )
      refl

pub put_three :
    (m c i : ℕ) (target : Target)
    → i < m
    → i + 1 < 2 ^ 32
    → put m (c % 64) (running Phase.three i (set_char i (c / 64 * 64) target))
      ≡ running Phase.zeroth (i + 1) (set_char i c target)
unfolding put
put_three m c i target h word =
    let up : (i + 1) % 2 ^ 32 ≡ i + 1 = omega arith in
    let byte : bit_or (c / 64 * 64) (c % 64) ≡ c =
      omega (arith, shifted-bit_or 6 (c / 64) (c % 64) (omega arith)) in
    rw (up, lt→leb_false m i h, or_char-set_char i (c / 64 * 64) (c % 64) c target byte) refl
