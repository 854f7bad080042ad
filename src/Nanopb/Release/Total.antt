-- ===== src/Nanopb/Release/Total.antt =====
-- What a message points to is released: the rounds and the depth are enough.
use firebase_login.Base.{
  ℕ, zero, suc, ◌<◌, ◌≡◌, ◌≢◌, refl, subst, arith, length, Option, none, some, not, ◌==◌, ◌&&◌,
  ◌||◌, if◌then◌else◌,
}
use firebase_login.Nanopb.Field.{
  Field, FieldIter, field_at, current, begin_at, pb_ltype, pb_htype, pb_atype, ltype_submessage,
  ltype_extension, htype_repeated, htype_oneof, atype_pointer, pb_field_iter_begin, add_pointer,
}
use firebase_login.Nanopb.Field.Table.{OnTable, Each, at_current, Deeper, Decodable, Decodable-tags}
use firebase_login.Nanopb.Message.{atype_callback}
use firebase_login.Nanopb.Message.Uniform.{nonempty}
use firebase_login.Nanopb.Memory.{Memory, load_pointer, load_size}
use firebase_login.Nanopb.Action.{Host, Change}
use firebase_login.Nanopb.Action.Ends.{IsMade, Total, if-Total, if-IsMade}
use firebase_login.Nanopb.Defaults.{unchanged}
use firebase_login.Nanopb.Defaults.Total.{then-Total, each_field-Total}
use firebase_login.Nanopb.Release.{
  each_item, release_message, item_count, release_nested, free_entry, no_size, free_entries,
  release_entries, release_pointer, release_field, pb_release_single_field, pb_release,
}

each_item-Total :
    (one : ℕ → Change) (step count p : ℕ)
    → ((q : ℕ) → Total (one q))
    → Total (each_item one step count p)
unfolding each_item
each_item-Total one step zero p each = λ m. tt
each_item-Total one step (suc count) p each =
    then-Total (one p) (each_item one step count (add_pointer p step)) (each p)
      (each_item-Total one step count (add_pointer p step) each)

module _ (host : Host) where
  message-Total :
      (one : FieldIter → Change) (fields : ℕ)
      → Each (λ f. f.tag ≢ 0) (host.tables fields)
      → ((it : FieldIter) → OnTable (host.tables fields) it → Total (one it))
      → (dest : ℕ) → Total (release_message host one fields dest)
  unfolding release_message pb_field_iter_begin
  message-Total one fields tags each dest m =
      let fs = host.tables fields in
      if-IsMade (dest == 0) _ _ (λ _. tt)
        (λ _.
          if-IsMade (not ((field_at fs 0).tag == 0)) _ _
            (λ h.
              let on : 0 < length fs = nonempty fs h in
              each_field-Total fs tags one each (length fs) (begin_at fs dest) (refl, on)
                (omega arith) m)
            (λ _. tt))

  -- What is nested in a field is released.
  abbrev Nested : (FieldIter → Change) → Field → Type 0
  Nested one = Deeper (λ p. (dest : ℕ) → Total (release_message host one p dest))

  items-IsMade :
      (one : FieldIter → Change) (step count item : ℕ) (m : Memory) (ptr : Option ℕ)
      → (p : ℕ) × (ptr ≡ some p) × ((dest : ℕ) → Total (release_message host one p dest))
      → IsMade (elim ptr as (λ _. Option Memory) [
        | none ↦ none
        | some fields ↦ each_item (release_message host one fields) step count item m
      ])
  items-IsMade one step count item m none (p, e, total) = absurd (cc)
  items-IsMade one step count item m (some q) (p, e, total) =
      each_item-Total (release_message host one q) step count item
        (subst (λ r. (dest : ℕ) → Total (release_message host one r dest)) (cc) total) m

  release_nested-Total :
      (one : FieldIter → Change) (it : FieldIter)
      → pb_ltype (current it).type ≢ 9
      → Nested one (current it)
      → Total (release_nested host one it)
  unfolding release_nested
  release_nested-Total one it plain nested m =
      let field = current it in
      let a = pb_atype field.type in
      let item = if a == atype_pointer then load_pointer it.p_data m else it.p_data in
      if-IsMade (pb_ltype field.type == ltype_extension) _ _ (λ e. absurd (ground (arith, plain)))
        (λ _.
          if-IsMade (pb_ltype field.type == ltype_submessage && not (a == atype_callback)) _ _
            (λ l.
              if-IsMade (item == 0) _ _ (λ _. tt)
                (λ _.
                  items-IsMade one field.data_size (item_count host it m) item m field.ptr
                    (nested (ground arith))))
            (λ _. tt))

  release_pointer-Total : (it : FieldIter) → Total (release_pointer host it)
  unfolding release_pointer
  release_pointer-Total it m =
      let l = pb_ltype (current it).type in
      let repeated = pb_htype (current it).type == htype_repeated in
      let entries =
        if-Total (repeated && (l == 7 || l == 6))
          (each_item (free_entry host) 8 (load_size it.p_size m) (load_pointer it.p_data m))
          unchanged
          (λ _.
            each_item-Total (free_entry host) 8 (load_size it.p_size m) (load_pointer it.p_data m)
              (λ q m'. tt))
          (λ _ m'. tt) in
      let all =
        then-Total (free_entries host it m) (no_size host repeated it.p_size) entries (λ m'. tt) in
      then-Total (release_entries host it m) (free_entry host it.p_data) all (λ m'. tt) m

  release_field-Total :
      (one : FieldIter → Change) (it : FieldIter)
      → pb_ltype (current it).type ≢ 9
      → Nested one (current it)
      → Total (release_field host one it)
  unfolding release_field
  release_field-Total one it plain nested m =
      let field = current it in
      let last =
        if pb_atype field.type == atype_pointer then release_pointer host it else unchanged in
      if-IsMade (pb_htype field.type == htype_oneof && not (load_size it.p_size m == field.tag)) _ _
        (λ _. tt)
        (λ _.
          then-Total (release_nested host one it) last (release_nested-Total one it plain nested)
            (if-Total (pb_atype field.type == atype_pointer) (release_pointer host it) unchanged
              (λ _. release_pointer-Total it) (λ _ m'. tt))
            m)

  -- A field of a table that nests less deep than the depth is released.
  pub pb_release_single_field-Total :
      (depth fields : ℕ)
      → Decodable host.tables depth fields
      → (it : FieldIter) → OnTable (host.tables fields) it
      → Total (pb_release_single_field host depth it)
  unfolding pb_release_single_field
  pb_release_single_field-Total zero fields d it on = elim d [ ]
  pb_release_single_field-Total (suc depth) fields d it on =
      let fs = host.tables fields in
      release_field-Total (pb_release_single_field host depth) it
        (at_current (λ f. pb_ltype f.type ≢ 9) fs it (λ i h. (d.1 i h).0.no_extension) on)
        (at_current (Nested (pb_release_single_field host depth)) fs it
          (λ i h l.
            let (p, e, deeper) = (d.1 i h).1 l in
            (
              p,
              e,
              message-Total (pb_release_single_field host depth) p
                  (Decodable-tags host.tables depth p deeper)
                  (pb_release_single_field-Total depth p deeper),
            ))
          on)

  pub pb_release-Total :
      (depth fields : ℕ)
      → Decodable host.tables depth fields
      → (dest_struct : ℕ) → Total (pb_release host depth fields dest_struct)
  unfolding pb_release
  pb_release-Total depth fields d dest_struct =
      message-Total (pb_release_single_field host depth) fields
        (Decodable-tags host.tables depth fields d) (pb_release_single_field-Total depth fields d)
        dest_struct
