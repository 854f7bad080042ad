-- ===== src/Nanopb/Varint/RoundTrip.antt =====
-- What was written by the encoders is read back by the decoders.
use firebase_login.Base.{
  ℕ, zero, suc, ◌+◌, ◌-◌, ◌*◌, ◌/◌, ◌%◌, ◌^◌, ◌≤◌, ◌<◌, ◌≡◌, sym, ap, arith, List, ◌∷◌, ◌++◌,
  length, ◌∙◌, Option, ◌⊎◌,
}
use firebase_login.Base.Bits.{bit_or_shifted}
use firebase_login.Nanopb.Istream.{done, ErrMsg}
use firebase_login.Nanopb.Istream.Reads.{stream, pb_readbyte-cons}
use firebase_login.Nanopb.Varint.{varint_loop, pb_decode_varint, zigzag, unzigzag, or_group}
use firebase_login.Nanopb.Varint.Encoding.{encoding, encoding_small, encoding_large}
use native.Mathlib.Decide.{dec_lt}
use native.Mathlib.Nat.{mod-eq_of_lt}
use native.Mathlib.Numerals.{towards_suc}

pub shift_seven : (s : ℕ) → 2 ^ (s + 7) ≡ 2 ^ s * 128
shift_seven s = simp towards_suc (omega arith)

-- A number whose upper part is `q` and whose lowest group is `r`, shifted as two parts.
distribute : (q r t : ℕ) → (128 * q + r) * t ≡ r * t + q * (t * 128)
distribute q r t = grind arith

pub group_and_rest : (w s : ℕ) → w * 2 ^ s ≡ w % 128 * 2 ^ s + w / 128 * 2 ^ (s + 7)
group_and_rest w s =
    let parts : w ≡ 128 * (w / 128) + w % 128 = omega arith in
    ap (λ (x : ℕ). x * 2 ^ s) parts
    ∙ distribute (w / 128) (w % 128) (2 ^ s)
    ∙ ap (λ (t : ℕ). w % 128 * 2 ^ s + w / 128 * t) (sym (shift_seven s))

-- The bits of a group that fits do not meet those below.
shifted_fits : (x y acc m : ℕ) → x ≡ y → acc + y < m → x % m ≡ y
shifted_fits x y acc m e h = rw e (mod-eq_of_lt (omega arith))

pub or_group_lem :
    (width acc byte g s : ℕ)
    → byte % 128 ≡ g
    → acc < 2 ^ s
    → acc + g * 2 ^ s < 2 ^ width
    → or_group width acc byte s ≡ acc + g * 2 ^ s
or_group_lem width acc byte g s low h fits =
    let shifted : byte % 128 * 2 ^ s ≡ g * 2 ^ s = ap (λ (x : ℕ). x * 2 ^ s) low in
    let fit : byte % 128 * 2 ^ s % 2 ^ width ≡ g * 2 ^ s =
      shifted_fits (byte % 128 * 2 ^ s) (g * 2 ^ s) acc (2 ^ width) shifted fits in
    rw fit (bit_or_shifted s acc g h)

pub below_next : (t acc g : ℕ) → acc < t → g < 128 → acc + g * t < t * 128
below_next t acc g h hg = grind arith

pub one_zero : (n : ℕ) → 1 + n ≡ suc n
one_zero n = omega arith

pub one_more : (m n : ℕ) → suc m + n ≡ suc (m + n)
one_more m n = omega arith

-- The round of the last byte, and that of a byte with the top bit set over the group `g`.
last_round :
    (rounds w acc s n : ℕ) (rest : List ℕ) (e : Option ErrMsg)
    → s ≤ 63
    → w < 128
    → or_group 64 acc w s ≡ acc + w * 2 ^ s
    → varint_loop (suc rounds) s acc (stream (w ∷ rest) (suc n) e)
      ≡ done (acc + w * 2 ^ s) (stream rest n e)
unfolding varint_loop
last_round rounds w acc s n rest e hs hw or = ground (arith, pb_readbyte-cons w rest n e)

inner_round :
    (rounds g acc s n : ℕ) (rest : List ℕ) (e : Option ErrMsg)
    → s ≤ 63
    → g < 128
    → or_group 64 acc (g + 128) s ≡ acc + g * 2 ^ s
    → varint_loop (suc rounds) s acc (stream ((g + 128) ∷ rest) (suc n) e)
      ≡ varint_loop rounds (s + 7) (acc + g * 2 ^ s) (stream rest n e)
unfolding varint_loop
inner_round rounds g acc s n rest e hs hw or = ground (arith, pb_readbyte-cons (g + 128) rest n e)

-- `w` is what is still to be read, and it counts from bit `s` on.
varint_loop-encoding :
    (k rounds w acc s n : ℕ) (rest : List ℕ) (e : Option ErrMsg)
    → k < rounds
    → s + 7 * k ≤ 63
    → w < 128 ^ suc k
    → acc < 2 ^ s
    → acc + w * 2 ^ s < 2 ^ 64
    → varint_loop rounds s acc (stream (encoding k w ++ rest) (length (encoding k w) + n) e)
      ≡ done (acc + w * 2 ^ s) (stream rest n e)
varint_loop-encoding k zero w acc s n rest e hk hs hw ha fits = absurd (omega arith)
varint_loop-encoding zero (suc rounds) w acc s n rest e hk hs hw ha fits =
    rw (encoding_small zero w hw, one_zero n)
      (last_round rounds w acc s n rest e (omega arith) hw
        (or_group_lem 64 acc w w s (omega arith) ha fits))
varint_loop-encoding (suc k) (suc rounds) w acc s n rest e hk hs hw ha fits = elim (dec_lt w 128) [
  | yes small ↦
      rw (encoding_small (suc k) w small, one_zero n)
        (last_round rounds w acc s n rest e (omega arith) small
          (or_group_lem 64 acc w w s (omega arith) ha fits))
  | no large ↦
      let count : ℕ = length (encoding k (w / 128)) in
      let split = group_and_rest w s in
      let low : acc + w % 128 * 2 ^ s < 2 ^ 64 = omega arith in
      let below : acc + w % 128 * 2 ^ s < 2 ^ (s + 7) =
        rw (shift_seven s) (below_next (2 ^ s) acc (w % 128) ha (omega arith)) in
      rw (encoding_large k w (omega arith), one_more count n)
        (inner_round rounds (w % 128) acc s (count + n) (encoding k (w / 128) ++ rest) e
            (omega arith) (omega arith)
            (or_group_lem 64 acc (w % 128 + 128) (w % 128) s (omega arith) ha low)
          ∙ varint_loop-encoding k rounds (w / 128) (acc + w % 128 * 2 ^ s) (s + 7) n rest e
              (omega arith) (omega arith) (omega arith) below (omega arith)
          ∙ ap (λ x. done x (stream rest n e)) (omega (arith, split)))
]

-- `pb_decode_varint` reads the encoding of every 64-bit number back, and leaves the stream behind it.
pub pb_decode_varint-encoding :
    (v n : ℕ) (rest : List ℕ) (e : Option ErrMsg)
    → v < 2 ^ 64
    → pb_decode_varint (stream (encoding 9 v ++ rest) (length (encoding 9 v) + n) e)
      ≡ done v (stream rest n e)
unfolding pb_decode_varint
pb_decode_varint-encoding v n rest e h =
    varint_loop-encoding 9 11 v 0 0 n rest e (omega arith) (omega arith) (omega arith) (omega arith)
      (omega arith)
    ∙ ap (λ x. done x (stream rest n e)) (omega arith)

-- The zigzag form of every 64-bit number is undone.
pub unzigzag-zigzag : (v : ℕ) → v < 2 ^ 64 → unzigzag (zigzag v) ≡ v
unfolding zigzag unzigzag
unzigzag-zigzag v h = ground arith

pub zigzag-lt : (v : ℕ) → v < 2 ^ 64 → zigzag v < 2 ^ 64
unfolding zigzag
zigzag-lt v h = ground arith

-- The number's distance from 0, on either side, is at least half of its zigzag form.
pub zigzag_small :
    (v m : ℕ) → m ≤ 2 ^ 63 → (v < m) ⊎ ((2 ^ 64 - m ≤ v) × (v < 2 ^ 64)) → zigzag v < 2 * m
unfolding zigzag
zigzag_small v m h range = ground arith
