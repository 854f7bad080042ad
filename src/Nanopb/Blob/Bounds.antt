-- ===== src/Nanopb/Blob/Bounds.antt =====
-- The sizes: what is allocated is what was asked for.
use firebase_login.Base.{
  ℕ, ◌+◌, ◌*◌, ◌/◌, ◌%◌, ◌^◌, ◌≤◌, ◌<◌, ◌≡◌, arith, Bool, false, ltb, ◌==◌, ◌||◌, not,
  if◌then◌else◌, lt→ltb, le→ltb_false,
}
use firebase_login.Nanopb.Istream.{IStream, done, return_error}
use firebase_login.Nanopb.Istream.{size_too_large, invalid_size, realloc_failed}
use firebase_login.Nanopb.Istream.Reads.{Safe, Reads-refl, set_error-Reads}
use firebase_login.Nanopb.Varint.Safety.{if-Safe}
use firebase_login.Nanopb.Blob.{too_large, allocate_field, max_word}
use native.Mathlib.Nat.{div-add-mod', mod-lt}
use native.Mathlib.Decide.{dec_lt}

pos_test : (n : ℕ) → 0 < n → (n == 0) ≡ false
pos_test n h = ground arith

small_product : (d a : ℕ) → d < 2 ^ 32 → a < 2 ^ 32 → a * d < 2 ^ 64
small_product d a h k = grind arith

product_le : (d q a r m : ℕ) → d ≤ q → q * a + r ≡ m → a * d ≤ m
product_le d q a r m h e = grind arith

product_gt : (d q a r m : ℕ) → q < d → r < a → q * a + r ≡ m → m < a * d
product_gt d q a r m h k e = grind arith

-- The test lets a product through exactly when it is no more than 64 bits can hold.
pub too_large_lem : (d a : ℕ) → 0 < a → too_large d a ≡ not (ltb (a * d) (2 ^ 64))
unfolding too_large
too_large_lem d a pos = ground (
  arith,
  small_product d a,
  product_le d (max_word / a) a (max_word % a) max_word,
  product_gt d (max_word / a) a (max_word % a) max_word,
  div-add-mod' max_word a,
  mod-lt max_word pos,
)

-- For two factors that are not 0, `allocate_field` asks for exactly their product, or refuses where
-- that does not fit 64 bits.
pub allocate_field_lem :
    (realloc : ℕ → Bool) (d a : ℕ) (s : IStream)
    → 0 < d
    → 0 < a
    → allocate_field realloc d a s ≡ (
        if ltb (a * d) (2 ^ 64)
        then (if realloc (a * d) then done (a * d) s else return_error realloc_failed s)
        else return_error size_too_large s)
unfolding allocate_field
allocate_field_lem realloc d a s pd pa = elim (dec_lt (a * d) (2 ^ 64)) [
  | yes fits ↦
      let word : a * d % 2 ^ 64 ≡ a * d = omega arith in
      rw (word, pos_test d pd, pos_test a pa, too_large_lem d a pa, lt→ltb (a * d) (2 ^ 64) fits)
  | no over ↦ rw (
    pos_test d pd,
    pos_test a pa,
    too_large_lem d a pa,
    le→ltb_false (a * d) (2 ^ 64) (omega arith),
  )
]

pub allocate_field-Safe :
    (realloc : ℕ → Bool) (d a : ℕ) (s : IStream) → Safe s (allocate_field realloc d a s)
unfolding allocate_field
allocate_field-Safe realloc d a s =
    if-Safe s (d == 0 || a == 0) _ _ (set_error-Reads invalid_size s) (
      if-Safe s (too_large d a) _ _ (set_error-Reads size_too_large s) (
        if-Safe s (realloc (a * d % 2 ^ 64)) _ _ (Reads-refl s) (set_error-Reads realloc_failed s)))
