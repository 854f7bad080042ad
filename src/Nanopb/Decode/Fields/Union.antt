-- ===== src/Nanopb/Decode/Fields/Union.antt =====
-- The release of a union's old field ends.
use firebase_login.Base.{
  ℕ, ◌<◌, ◌≡◌, ◌∙◌, subst, List, length, Option, some, none, Bool, true, false, ◌==◌,
}
use firebase_login.Nanopb.Istream.{IStream, ErrMsg, invalid_union_tag, iterator_error}
use firebase_login.Nanopb.Istream.Reads.{Reads-refl}
use firebase_login.Nanopb.Field.{
  Field, FieldIter, current, pb_atype, atype_pointer, pb_field_iter_find,
}
use firebase_login.Nanopb.Field.Find.{Answer, pb_field_iter_find-Answer}
use firebase_login.Nanopb.Memory.{Memory, load_size}
use firebase_login.Nanopb.Action.{Change, Action, and_then, changing, fails}
use firebase_login.Nanopb.Action.Ends.{Ends, if-Ends, changing-Ends, set_error-Keeps}
use firebase_login.Nanopb.Release.{found_or, back_at_field, pb_release_union_field}
use firebase_login.Nanopb.Field.Table.{OnTable, OnTable-OnField}
use firebase_login.Nanopb.Decode.Fields.Table.{Ready}

abbrev pub Stays : List Field → FieldIter → IStream → Type 0
Stays fs it t = OnTable fs it

-- Whether the search finds the field or not, it ends.
found_or-Ends :
    (fs table : List Field) (tag start : ℕ) (e : ErrMsg) (k : FieldIter → Action FieldIter)
    (o : Option (Bool × FieldIter)) (m : Memory) (s : IStream)
    → table ≡ fs
    → Answer table tag start o
    → ((it : FieldIter) → OnTable fs it → Ends (Stays fs) s (k it m s).1)
    → Ends (Stays fs) s (found_or (fails e) k o m s).1
found_or-Ends fs table tag start e k none m s same h next = elim h [ ]
found_or-Ends fs table tag start e k (some (false, it)) m s same h next = set_error-Keeps e s
found_or-Ends fs table tag start e k (some (true, it)) m s same h next =
    next it (h.0 ∙ same, subst (λ f. it.pos < length f) same h.1)

module _ (func : Field → ℕ → Action (Unit {0})) (defaults : ℕ → ℕ → Change)
    (release : FieldIter → Change) (fs : List Field) (ready : Ready func defaults release fs) where
  find-Ends :
      (it : FieldIter) (tag : ℕ) (e : ErrMsg) (k : FieldIter → Action FieldIter) (m : Memory)
      (s : IStream)
      → OnTable fs it
      → ((it' : FieldIter) → OnTable fs it' → Ends (Stays fs) s (k it' m s).1)
      → Ends (Stays fs) s (found_or (fails e) k (pb_field_iter_find it tag) m s).1
  find-Ends it tag e k m s on next =
      found_or-Ends fs it.fields tag it.pos e k (pb_field_iter_find it tag) m s on.0
        (pb_field_iter_find-Answer tag it (OnTable-OnField fs it ready.tags on)) next

  back_at_field-Ends :
      (it : FieldIter) (m : Memory) (s : IStream)
      → OnTable fs it
      → Ends (Stays fs) s (back_at_field it m s).1
  back_at_field-Ends it m s on =
      if-Ends (Stays fs) s (pb_atype (current it).type == atype_pointer) _ _
        (λ _. (Reads-refl s, on)) (λ _. (Reads-refl s, on))

  -- The release of a union's field ends with the iterator on a field of the table, or fails.
  pub pb_release_union_field-Ends :
      (it : FieldIter) (m : Memory) (s : IStream)
      → OnTable fs it
      → Ends (Stays fs) s (pb_release_union_field release it m s).1
  unfolding pb_release_union_field
  pb_release_union_field-Ends it m s on =
      let old_tag = load_size it.p_size m in
      let new_tag = (current it).tag in
      if-Ends (Stays fs) s (old_tag == 0) _ _ (λ _. (Reads-refl s, on))
        (λ _.
          if-Ends (Stays fs) s (old_tag == new_tag) _ _ (λ _. (Reads-refl s, on))
            (λ _.
              find-Ends it old_tag invalid_union_tag
                (λ old m' s'.
                  and_then
                    (λ _.
                      found_or (fails iterator_error) back_at_field
                        (pb_field_iter_find old new_tag))
                    (changing (release old) m' s'))
                m s on
                (λ old on_old.
                  changing-Ends (Stays fs) (release old)
                    (λ _.
                      found_or (fails iterator_error) back_at_field
                        (pb_field_iter_find old new_tag))
                    m s (ready.released old on_old)
                    (λ m'.
                      find-Ends old new_tag iterator_error back_at_field m' s on_old
                        (λ it' on'. back_at_field-Ends it' m' s on')))))
