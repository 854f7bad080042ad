-- ===== src/Nanopb/Release/Cleared.antt =====
-- A released pointer is NULL.
use firebase_login.Base.{
  ℕ, zero, suc, ◌+◌, ◌≡◌, refl, sym, ap, ◌∙◌, arith, Option, none, some, Bool, true, false, ◌==◌,
  ◌&&◌, ◌||◌, ◌≢◌, not, inl, if◌then◌else◌,
}
use firebase_login.Nanopb.Field.{
  FieldIter, current, pb_ltype, pb_htype, pb_atype, htype_oneof, htype_repeated, atype_pointer,
  add_pointer,
}
use firebase_login.Nanopb.Memory.{Memory, load, load_pointer, load_size, set_byte, store}
use firebase_login.Nanopb.Action.{Host, Change}
use firebase_login.Nanopb.Action.Same.{store-Same}
use firebase_login.Nanopb.Defaults.{◌then_change◌, unchanged}
use firebase_login.Nanopb.Release.{
  free_entry, release_nested, each_item, no_size, free_entries, release_entries, release_pointer,
  release_field, pb_release_single_field,
}

set_byte_here : (a b : ℕ) (m : Memory) → set_byte a b m a ≡ b
unfolding set_byte
set_byte_here a b m = ground arith

-- A pointer that was set to NULL is NULL.
load-store_zero : (width a : ℕ) (m : Memory) → load width a (store width a 0 m) ≡ 0
unfolding load store
load-store_zero zero a m = refl
load-store_zero (suc width) a m =
    let m' = set_byte a 0 m in
    let rest = load-store_zero width (a + 1) m' in
    let kept = store-Same (λ b. b ≡ a) width (a + 1) 0 m' (λ b e. inl (omega (arith, e))) a refl in
    let here = set_byte_here a 0 m in rw (kept, here, rest) refl

last_change :
    (first last : Change) (m m' : Memory)
    → (first then_change last) m ≡ some m'
    → (m1 : Memory) × (last m1 ≡ some m')
last_change first last m m' h = after (first m) h
  where
    after :
        (o : Option Memory)
        → elim o [ none ↦ none | some m1 ↦ last m1 ] ≡ some m'
        → (m1 : Memory) × (last m1 ≡ some m')
    after none e = absurd (cc)
    after (some m1) e = (m1, e)

abbrev EndsAt : Change → Memory → Type 0
EndsAt change m = (m' : Memory) × (change m ≡ some m')

then_ends :
    (first last : Change) (m : Memory)
    → EndsAt first m
    → ((m1 : Memory) → EndsAt last m1)
    → EndsAt (first then_change last) m
then_ends first last m (m1, e) ends =
    let (m', e') = ends m1 in (m', ap (λ o. elim o [ none ↦ none | some m2 ↦ last m2 ]) e ∙ e')

module _ (host : Host) where
  freed : (p : ℕ) (m m' : Memory) → free_entry host p m ≡ some m' → load_pointer p m' ≡ 0
  freed p m m' h =
      let e : store 8 p 0 (host.free (load_pointer p m) m) ≡ m' = cc in
      ap (load_pointer p) (sym e) ∙ load-store_zero 8 p (host.free (load_pointer p m) m)

  pointer_cleared :
      (it : FieldIter) (m m' : Memory)
      → release_pointer host it m ≡ some m'
      → load_pointer it.p_data m' ≡ 0
  unfolding release_pointer
  pointer_cleared it m m' h =
      let (m1, e) = last_change (release_entries host it m) (free_entry host it.p_data) m m' h in
      freed it.p_data m1 m' e

  chosen :
      (one : FieldIter → Change) (it : FieldIter) (m : Memory)
      → pb_atype (current it).type ≡ atype_pointer
      → (pb_htype (current it).type == htype_oneof
          && not (load_size it.p_size m == (current it).tag))
        ≡ false
      → (release_nested host one it then_change release_pointer host it) m
        ≡ release_field host one it m
  unfolding release_field
  chosen one it m pointer this = rw (pointer, this) refl

  released_null :
      (depth : ℕ) (it : FieldIter) (m m' : Memory)
      → pb_atype (current it).type ≡ atype_pointer
      → (pb_htype (current it).type == htype_oneof
          && not (load_size it.p_size m == (current it).tag))
        ≡ false
      → pb_release_single_field host (suc depth) it m ≡ some m'
      → load_pointer it.p_data m' ≡ 0
  unfolding pb_release_single_field
  released_null depth it m m' pointer this h =
      let one = pb_release_single_field host depth in
      let (m1, e) =
        last_change (release_nested host one it) (release_pointer host it) m m'
          (chosen one it m pointer this ∙ h) in
      pointer_cleared it m1 m' e

  -- The release of entries comes to its end.
  entries_end :
      (count p : ℕ) (m : Memory)
      → (m' : Memory) × (each_item (free_entry host) 8 count p m ≡ some m')
  unfolding each_item
  entries_end zero p m = (m, refl)
  entries_end (suc count) p m =
      entries_end count (add_pointer p 8) (store 8 p 0 (host.free (load_pointer p m) m))

  array_ends :
      (b : Bool) (it : FieldIter) (m : Memory)
      → EndsAt
          (if b
            then each_item (free_entry host) 8 (load_size it.p_size m) (load_pointer it.p_data m)
            else unchanged)
          m
  array_ends true it m = entries_end (load_size it.p_size m) (load_pointer it.p_data m) m
  array_ends false it m = (m, refl)

  pointer_ends : (it : FieldIter) (m : Memory) → EndsAt (release_pointer host it) m
  unfolding release_pointer
  pointer_ends it m =
      let l = pb_ltype (current it).type in
      let repeated = pb_htype (current it).type == htype_repeated in
      then_ends (release_entries host it m) (free_entry host it.p_data) m
        (then_ends (free_entries host it m) (no_size host repeated it.p_size) m
          (array_ends (repeated && (l == 7 || l == 6)) it m) (λ m1. (_, refl)))
        (λ m1. (_, refl))

  nested_stays :
      (one : FieldIter → Change) (it : FieldIter) (m : Memory)
      → pb_ltype (current it).type ≢ 8
      → pb_ltype (current it).type ≢ 9
      → release_nested host one it m ≡ some m
  unfolding release_nested
  nested_stays one it m no_submessage no_extension =
      let e8 : (pb_ltype (current it).type == 8) ≡ false = ground arith in
      let e9 : (pb_ltype (current it).type == 9) ≡ false = ground arith in rw (e8, e9) refl

  -- For a pointer field that is no submessage and no list of extensions, and in a union is the
  -- current one, pb_release_single_field comes to its end, and then the pointer is NULL.
  pub pb_release_single_field_clears :
      (depth : ℕ) (it : FieldIter) (m : Memory)
      → pb_atype (current it).type ≡ atype_pointer
      → (pb_htype (current it).type == htype_oneof
          && not (load_size it.p_size m == (current it).tag))
        ≡ false
      → pb_ltype (current it).type ≢ 8
      → pb_ltype (current it).type ≢ 9
      → (m' : Memory) × (pb_release_single_field host (suc depth) it m ≡ some m')
        × (load_pointer it.p_data m' ≡ 0)
  unfolding pb_release_single_field
  pb_release_single_field_clears depth it m pointer this no_submessage no_extension =
      let one = pb_release_single_field host depth in
      let (m', e) =
        then_ends (release_nested host one it) (release_pointer host it) m
          (m, nested_stays one it m no_submessage no_extension) (pointer_ends it) in
      let ends = sym (chosen one it m pointer this) ∙ e in
      (m', ends, released_null depth it m m' pointer this ends)
