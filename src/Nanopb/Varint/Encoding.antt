-- ===== src/Nanopb/Varint/Encoding.antt =====
-- The bytes that `pb_encode_varint` writes, as a plain recursion on the number's groups of seven
-- bits.
use firebase_login.Base.{
  ℕ, zero, suc, ◌+◌, ◌/◌, ◌%◌, ◌^◌, ◌≤◌, ◌<◌, ◌≡◌, refl, ap, arith, List, [], ◌∷◌, some, length,
  ltb, if◌then◌else◌, bit_or, ◌∙◌, sym, le→leb, lt→ltb, le→ltb_false, lt→leb_false,
}
use native.Mathlib.Decide.{dec_lt}
use firebase_login.Base.Bits.{bit_or_shifted}
use firebase_login.Nanopb.Ostream.{pb_write}
use firebase_login.Nanopb.Varint.{fill_buffer, clear_last, pb_encode_varint}

-- The groups of `value`, lowest first, each but the last with the top bit set; `k + 1` bytes do.
unfoldable pub encoding : ℕ → ℕ → List ℕ
encoding zero value = value ∷ []
encoding (suc k) value =
    let higher = (value % 128 + 128) ∷ encoding k (value / 128) in
    if ltb value 128 then value ∷ [] else higher

pub encoding_small : (k v : ℕ) → v < 128 → encoding k v ≡ v ∷ []
unfolding encoding
encoding_small zero v h = refl
encoding_small (suc k) v h = rw (lt→ltb v 128 h)

pub encoding_large :
    (k v : ℕ) → 128 ≤ v → encoding (suc k) v ≡ (v % 128 + 128) ∷ encoding k (v / 128)
unfolding encoding
encoding_large k v h = rw (le→ltb_false v 128 h)

encoding_at_end : (v : ℕ) → encoding 0 v ≡ v ∷ []
unfolding encoding
encoding_at_end v = refl

set_top : (g : ℕ) → g < 128 → bit_or g 0x80 ≡ g + 128
set_top g h = bit_or_shifted 7 g 1 h

-- What the buffer holds in the end: a first byte and the others.
abbrev Fills : ℕ → ℕ → List ℕ → Type 0
Fills room v bytes =
    (b : ℕ) × (r : List ℕ) × (fill_buffer room v ≡ some (b ∷ r)) × (clear_last (b ∷ r) ≡ bytes)

fill_one : (room v : ℕ) → suc v < 128 → Fills (suc room) (suc v) (suc v ∷ [])
unfolding fill_buffer
fill_one room v h =
    let q : suc v / 128 ≡ 0 = omega arith in
    (
      bit_or (suc v % 128) 0x80,
      [],
      rw (q, fill_buffer),
      ap (λ b. b ∷ []) (omega (arith, set_top (suc v % 128) (omega arith))),
    )

fill_more :
    (room v : ℕ) (bytes : List ℕ)
    → Fills room (suc v / 128) bytes
    → Fills (suc room) (suc v) ((suc v % 128 + 128) ∷ bytes)
unfolding fill_buffer
fill_more room v bytes (b, r, filled, cleared) = (
  bit_or (suc v % 128) 0x80,
  b ∷ r,
  rw (filled, fill_buffer),
  ap (λ x. bit_or (suc v % 128) 0x80 ∷ x) cleared
      ∙ ap (λ x. x ∷ bytes) (set_top (suc v % 128) (omega arith)),
)

fill_buffer-encoding : (k v : ℕ) → 0 < v → v < 128 ^ suc k → Fills (suc k) v (encoding k v)
unfolding encoding
fill_buffer-encoding k zero h lim = absurd (omega arith)
fill_buffer-encoding zero (suc v) h lim = fill_one zero v lim
fill_buffer-encoding (suc k) (suc v) h lim = elim (dec_lt (suc v) 128) [
  | yes small ↦ rw (lt→ltb (suc v) 128 small) (fill_one (suc k) v small)
  | no large ↦ rw (le→ltb_false (suc v) 128 (omega arith)) (
      fill_more (suc k) v (encoding k (suc v / 128))
        (fill_buffer-encoding k (suc v / 128) (omega arith) (omega arith)))
]

encode_large :
    (v : ℕ) → 128 ≤ v → Fills 10 v (encoding 9 v) → pb_encode_varint v ≡ pb_write (encoding 9 v)
unfolding pb_encode_varint
encode_large v h (b, r, filled, cleared) =
    rw (lt→leb_false v 0x7F (omega arith)) (rw filled (ap pb_write cleared))

-- On every 64-bit number `pb_encode_varint` stays inside its buffer of ten bytes, and writes the
-- number's encoding.
pub pb_encode_varint_lem : (v : ℕ) → v < 2 ^ 64 → pb_encode_varint v ≡ pb_write (encoding 9 v)
pb_encode_varint_lem v h = elim (dec_lt v 128) [
  | yes small ↦
      unfold pb_encode_varint encoding in rw (le→leb v 0x7F (omega arith), lt→ltb v 128 small) refl
  | no large ↦ encode_large v (omega arith) (fill_buffer-encoding 9 v (omega arith) (omega arith))
]

pub encoding_nonempty : (k v : ℕ) → 0 < length (encoding k v)
encoding_nonempty zero v = rw (encoding_at_end v) (omega arith)
encoding_nonempty (suc k) v = elim (dec_lt v 128) [
  | yes small ↦ rw (encoding_small (suc k) v small) (omega arith)
  | no large ↦ rw (encoding_large k v (omega arith)) (omega arith)
]

-- No number takes more bytes than its groups may be.
pub encoding_short : (k v : ℕ) → length (encoding k v) ≤ suc k
encoding_short zero v = rw (encoding_at_end v) (omega arith)
encoding_short (suc k) v = elim (dec_lt v 128) [
  | yes small ↦ rw (encoding_small (suc k) v small) (omega arith)
  | no large ↦ rw (encoding_large k v (omega arith)) (omega (arith, encoding_short k (v / 128)))
]

-- More room than the number needs changes nothing.
pub encoding_enough : (j k v : ℕ) → j ≤ k → v < 128 ^ suc j → encoding k v ≡ encoding j v
encoding_enough zero k v h lim = encoding_small k v lim ∙ sym (encoding_small zero v lim)
encoding_enough (suc j) zero v h lim = absurd (omega arith)
encoding_enough (suc j) (suc k) v h lim = elim (dec_lt v 128) [
  | yes small ↦ encoding_small (suc k) v small ∙ sym (encoding_small (suc j) v small)
  | no large ↦
      encoding_large k v (omega arith)
      ∙ ap (λ r. (v % 128 + 128) ∷ r) (encoding_enough j k (v / 128) (omega arith) (omega arith))
      ∙ sym (encoding_large j v (omega arith))
]
