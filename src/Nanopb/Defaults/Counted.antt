-- ===== src/Nanopb/Defaults/Counted.antt =====
-- The default value of an array of fixed size, which has no counter.
use firebase_login.Base.{
  ℕ, zero, suc, ◌+◌, ◌*◌, ◌<◌, ◌≡◌, ◌≢◌, refl, ap, sym, ◌∙◌, arith, some, inl,
}
use firebase_login.Nanopb.Field.{
  FieldIter, current, pb_ltype, pb_htype, pb_atype, ltype_extension, htype_repeated, atype_static,
}
use firebase_login.Nanopb.Memory.{Memory, set_byte, store}
use firebase_login.Nanopb.Action.{Host}
use firebase_login.Nanopb.Action.Same.{store-Same}
use firebase_login.Nanopb.Defaults.{field_to_default, pb_field_set_to_default}

set_byte_zero : (a : ℕ) (m : Memory) → set_byte a 0 m a ≡ 0
unfolding set_byte
set_byte_zero a m = ground arith

-- Each of the bytes that a number 0 takes is 0.
store_zero : (width i a : ℕ) (m : Memory) → i < width → store width a 0 m (a + i) ≡ 0
unfolding store
store_zero zero i a m h = absurd (omega arith)
store_zero (suc width) zero a m h =
    let m' = set_byte a 0 m in
    let there : a + 0 ≡ a = omega arith in
    let kept = store-Same (λ b. b ≡ a) width (a + 1) 0 m' (λ b e. inl (omega (arith, e))) a refl in
    ap (store width (a + 1) 0 m') there ∙ kept ∙ set_byte_zero a m
store_zero (suc width) (suc i) a m h =
    let m' = set_byte a 0 m in
    let there : a + suc i ≡ a + 1 + i = omega arith in
    ap (store width (a + 1) 0 m') there ∙ store_zero width i (a + 1) m' (omega arith)

-- Where an array of fixed size in the struct has no counter and takes fewer than four bytes,
-- pb_field_set_to_default writes a zero behind its end: it clears a counter of four bytes that
-- the field has not.
pub pb_field_set_to_default_overruns :
    (host : Host) (depth : ℕ) (it : FieldIter) (m m' : Memory)
    → pb_ltype (current it).type ≢ ltype_extension
    → pb_atype (current it).type ≡ atype_static
    → pb_htype (current it).type ≡ htype_repeated
    → it.p_size ≡ it.p_data
    → (current it).data_size * (current it).array_size < 4
    → pb_field_set_to_default host (suc depth) it m ≡ some m'
    → m' (it.p_data + (current it).data_size * (current it).array_size) ≡ 0
unfolding pb_field_set_to_default field_to_default
pb_field_set_to_default_overruns host depth it m m' plain static repeated counter short e =
    let stored : store 4 it.p_size 0 m ≡ m' = ground (arith, plain, static, repeated, counter, e) in
    let size = (current it).data_size * (current it).array_size in
    ap (λ r. r (it.p_data + size)) (sym stored)
    ∙ ap (λ p. store 4 p 0 m (it.p_data + size)) counter
    ∙ store_zero 4 size it.p_data m short
