-- ===== src/Nanopb/Release/Within.antt =====
-- The release of a message whose fields all lie in its struct changes nothing.
use firebase_login.Base.{
  ℕ, zero, suc, ◌<◌, ◌≡◌, ◌≢◌, refl, subst, arith, List, length, Option, none, some, Bool, true,
  false, ◌==◌, not, ◌&&◌, if◌then◌else◌,
}
use firebase_login.Nanopb.Field.{
  Field, FieldIter, field_at, current, begin_at, pb_ltype, pb_htype, pb_atype, ltype_submessage,
  ltype_extension, htype_oneof, atype_pointer, pb_field_iter_begin, add_pointer,
}
use firebase_login.Nanopb.Field.Table.{OnTable, Each, at_current, Deeper, AllStatic, next-OnTable}
use firebase_login.Nanopb.Message.{atype_callback}
use firebase_login.Nanopb.Message.Uniform.{nonempty}
use firebase_login.Nanopb.Memory.{Memory, load_pointer, load_size}
use firebase_login.Nanopb.Action.{Host, Change}
use firebase_login.Nanopb.Action.Same.{Kept, if-Kept, bind-Kept}
use firebase_login.Nanopb.Defaults.{unchanged}
use firebase_login.Nanopb.Defaults.Within.{each_field-Kept}
use firebase_login.Nanopb.Release.{
  each_item, release_message, item_count, release_nested, release_pointer, release_field,
  pb_release_single_field, pb_release,
}

module _ (P : ℕ → Type 0) where
  -- The change keeps `P`, whatever the memory is.
  abbrev pub Keeping : Change → Type 0
  Keeping c = (m : Memory) → Kept P m (c m)

  if-Keeping :
      (b : Bool) (x y : Change) → (b ≡ true → Keeping x) → Keeping y → Keeping (if b then x else y)
  if-Keeping true x y hx hy = hx refl
  if-Keeping false x y hx hy = hy

  each_item-Keeping :
      (one : ℕ → Change) (step count p : ℕ)
      → ((q : ℕ) → Keeping (one q))
      → Keeping (each_item one step count p)
  unfolding each_item
  each_item-Keeping one step zero p each = λ m a q. refl
  each_item-Keeping one step (suc count) p each = λ m.
      bind-Kept P m (one p m) (each_item one step count (add_pointer p step)) (each p m)
        (each_item-Keeping one step count (add_pointer p step) each)

  module _ (host : Host) (one : FieldIter → Change) where
    message-Keeping :
        (fields : ℕ)
        → Each (λ f. f.tag ≢ 0) (host.tables fields)
        → ((it : FieldIter) → OnTable (host.tables fields) it → Keeping (one it))
        → (dest : ℕ) → Keeping (release_message host one fields dest)
    unfolding release_message pb_field_iter_begin
    message-Keeping fields tags each dest m =
        let fs = host.tables fields in
        if-Kept P m (dest == 0) _ _ (λ _ a p. refl)
          (λ _.
            if-Kept P m (not ((field_at fs 0).tag == 0)) _ _
              (λ h.
                let on : 0 < length fs = nonempty fs h in
                each_field-Kept P (OnTable fs) one (λ it. next-OnTable fs tags it) each (length fs)
                  (begin_at fs dest) (refl, on) m)
              (λ _ a p. refl))

    items-Kept :
        (step count item : ℕ) (m : Memory) (ptr : Option ℕ)
        → (p : ℕ) × (ptr ≡ some p) × ((dest : ℕ) → Keeping (release_message host one p dest))
        → Kept P m (elim ptr as (λ _. Option Memory) [
          | none ↦ none
          | some fields ↦ each_item (release_message host one fields) step count item m
        ])
    items-Kept step count item m none (p, e, keeping) = tt
    items-Kept step count item m (some q) (p, e, keeping) =
        each_item-Keeping (release_message host one q) step count item
          (subst (λ r. (dest : ℕ) → Keeping (release_message host one r dest)) (cc) keeping) m

    field-Keeping :
        (it : FieldIter)
        → pb_ltype (current it).type ≢ 9
        → pb_atype (current it).type ≡ 0
        → Deeper (λ p. (dest : ℕ) → Keeping (release_message host one p dest)) (current it)
        → Keeping (release_field host one it)
    unfolding release_field release_nested
    field-Keeping it plain static nested m =
        let field = current it in
        let a = pb_atype field.type in
        let item = if a == atype_pointer then load_pointer it.p_data m else it.p_data in
        if-Kept P m (pb_htype field.type == htype_oneof && not (load_size it.p_size m == field.tag))
          _ _ (λ _ b p. refl)
          (λ _.
            bind-Kept P m (release_nested host one it m)
              (if a == atype_pointer then release_pointer host it else unchanged)
              (if-Kept P m (pb_ltype field.type == ltype_extension) _ _
                (λ e. absurd (ground (arith, plain)))
                (λ _.
                  if-Kept P m (pb_ltype field.type == ltype_submessage && not (a == atype_callback))
                    _ _
                    (λ l.
                      if-Kept P m (item == 0) _ _ (λ _ b p. refl)
                        (λ _.
                          items-Kept field.data_size (item_count host it m) item m field.ptr
                            (nested (ground arith))))
                    (λ _ b p. refl)))
              (if-Keeping (a == atype_pointer) (release_pointer host it) unchanged
                (λ e. absurd (ground (arith, static))) (λ m' b p. refl)))

  static-tags :
      (tables : ℕ → List Field) (depth fields : ℕ)
      → AllStatic tables depth fields
      → Each (λ f. f.tag ≢ 0) (tables fields)
  static-tags tables zero fields d = elim d [ ]
  static-tags tables (suc depth) fields d = λ i h. (d i h).0

  module _ (host : Host) where
    pub pb_release_single_field-Keeping :
        (depth fields : ℕ)
        → AllStatic host.tables depth fields
        → (it : FieldIter) → OnTable (host.tables fields) it
        → Keeping (pb_release_single_field host depth it)
    unfolding pb_release_single_field
    pb_release_single_field-Keeping zero fields d it on = elim d [ ]
    pb_release_single_field-Keeping (suc depth) fields d it on =
        let fs = host.tables fields in
        let one = pb_release_single_field host depth in
        field-Keeping host one it
          (at_current (λ f. pb_ltype f.type ≢ 9) fs it (λ i h. (d i h).1) on)
          (at_current (λ f. pb_atype f.type ≡ 0) fs it (λ i h. (d i h).2) on)
          (at_current (Deeper (λ p. (dest : ℕ) → Keeping (release_message host one p dest))) fs it
            (λ i h l.
              let (p, e, deeper) = (d i h).3 l in
              (
                p,
                e,
                message-Keeping host one p (static-tags host.tables depth p deeper)
                    (pb_release_single_field-Keeping depth p deeper),
              ))
            on)

    -- The release of a message whose fields all lie in its struct keeps the memory.
    pub pb_release-Keeping :
        (depth fields : ℕ)
        → AllStatic host.tables depth fields
        → (dest_struct : ℕ) → Keeping (pb_release host depth fields dest_struct)
    unfolding pb_release
    pb_release-Keeping depth fields d dest_struct =
        message-Keeping host (pb_release_single_field host depth) fields
          (static-tags host.tables depth fields d) (pb_release_single_field-Keeping depth fields d)
          dest_struct
