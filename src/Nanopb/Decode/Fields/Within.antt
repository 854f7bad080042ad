-- ===== src/Nanopb/Decode/Fields/Within.antt =====
-- The decoding of a field of a message whose fields all lie in its struct writes nothing outside of
-- where they lie.
use firebase_login.Base.{
  ℕ, List, ◌<◌, ◌≡◌, refl, sym, subst, arith, Option, none, some, Bool, true, false, ◌==◌,
  if◌then◌else◌,
}
use firebase_login.Nanopb.Istream.{
  ErrMsg, IStream, Outcome, done, fail, fault, stuck, invalid_union_tag, iterator_error,
}
use firebase_login.Nanopb.Wire.{pb_skip_field}
use firebase_login.Nanopb.Field.{
  Field, FieldIter, current, pb_ltype, pb_htype, pb_atype, htype_oneof, atype_static, atype_pointer,
  pb_field_iter_find,
}
use firebase_login.Nanopb.Memory.{Memory, load_size}
use firebase_login.Nanopb.Action.{Host, Change, Action, and_then, changing, fails, succeed}
use firebase_login.Nanopb.Istream.Reads.{Reads-refl}
use firebase_login.Nanopb.Action.Ends.{IsInput, Ends, Shorter, Reads-IsInput, if-Ends}
use firebase_login.Nanopb.Field.Table.{OnTable, at_current}
use firebase_login.Nanopb.Decode.Substream.{substream-IsInput}
use firebase_login.Nanopb.Decode.Fields.Table.{Ready, Eating}
use firebase_login.Nanopb.Decode.Fields.Union.{Stays, pb_release_union_field-Ends}
use firebase_login.Nanopb.Action.Same.{
  Leaves-later, Same, Kept, reading-Same, Leaves, Same-Leaves, and_then-Leaves, if-Leaves,
  changing-Leaves,
}
use firebase_login.Nanopb.Release.{found_or, back_at_field, pb_release_union_field}
use firebase_login.Nanopb.Decode.{item_at, fresh_submessage}
use firebase_login.Nanopb.Decode.Layout.{Walked, Stands, Finds, pb_field_iter_find-Finds}
use firebase_login.Nanopb.Decode.Static.Within.{AvoidsSize, static_rule}
use firebase_login.Nanopb.Decode.Fields.{skip, by_atype, decode_field}

-- What is done for each field that a walk from `start` comes to keeps `P`.
pub record Contained (P : ℕ → Type 0) (func : Field → ℕ → Action (Unit {0}))
    (defaults : ℕ → ℕ → Change) (release : FieldIter → Change) (start : FieldIter) : Type 0 where
  pub static : (it : FieldIter) → Walked start it → pb_atype (current it).type ≡ atype_static
  pub sizes : (it : FieldIter) → Walked start it → AvoidsSize P it
  pub single :
      (it : FieldIter)
      → Walked start it
      → (m : Memory) (s : IStream) → IsInput s
      → Same P m (func (current it) it.p_data m s).0
  pub entry :
      (it : FieldIter)
      → Walked start it
      → (index : ℕ) (m : Memory) (s : IStream) → index < (current it).array_size
      → IsInput s
      → Same P m (func (current it) (item_at (current it) it.p_data index) m s).0
  pub fresh :
      (it : FieldIter)
      → Walked start it
      → pb_ltype (current it).type ≡ 8
      → (m : Memory) → Kept P m (fresh_submessage defaults (current it) it.p_data m)
  pub released : (it : FieldIter) → Stands P start it → (m : Memory) → Kept P m (release it m)

pub skip-Same :
    (P : ℕ → Type 0) (wire_type : ℕ) (m : Memory) (s : IStream) → Same P m (skip wire_type m s).0
unfolding skip
skip-Same P wire_type m s =
    reading-Same P (λ _. succeed) m (pb_skip_field wire_type s) (λ x t e a p. refl)

-- What follows a call whose end and whose writes are both known.
pub both-Leaves :
    {A B : Type 0} (P : ℕ → Type 0) (Q : A → IStream → Type 0) (R : A → Type 0) (S : B → Type 0)
    (f : A → Action B) (m : Memory) (s : IStream) (r : Memory × Outcome A)
    → IsInput s
    → Ends Q s r.1
    → Leaves P R m r
    → ((a : A) (m' : Memory) (t : IStream) → R a → IsInput t → Leaves P S m' (f a m' t))
    → Leaves P S m (and_then f r)
both-Leaves P Q R S f m s (m', done a t) i e h k =
    Leaves-later P S m m' (f a m' t) h.0 (k a m' t h.1 (Reads-IsInput e.0 i))
both-Leaves P Q R S f m s (m', fail t) i e h k = h
both-Leaves P Q R S f m s (m', fault) i e h k = h
both-Leaves P Q R S f m s (m', stuck) i e h k = h

module _ (P : ℕ → Type 0) (host : Host) (func : Field → ℕ → Action (Unit {0}))
    (defaults : ℕ → ℕ → Change) (release : FieldIter → Change) (fs : List Field)
    (ready : Ready func defaults release fs) (start : FieldIter)
    (on_table : (it : FieldIter) → Walked start it → OnTable fs it)
    (contained : Contained P func defaults release start) where
  abbrev On : FieldIter → Type 0
  On = Stands P start

  pub table_of : (it : FieldIter) → Stands P start it → OnTable fs it
  table_of it on = subst (OnTable fs) (sym on.same) (on_table on.base on.walked)

  -- What the decoder of a field leaves of a stream of bytes is one.
  eaten-IsInput :
      (it : FieldIter)
      → Walked start it
      → (dest : ℕ) (m m' : Memory) (s t : IStream) → IsInput s
      → func (current it) dest m s ≡ (m', done tt t)
      → IsInput t
  eaten-IsInput it w dest m m' s t i e =
      let ends = at_current (Eating func) fs it ready.eats (on_table it w) dest m s i in
      let whole : Ends (Shorter s) s (done tt t) = subst (λ r. Ends (Shorter s) s r.1) e ends in
      Reads-IsInput whole.0 i

  by_atype_at :
      (wire_type : ℕ) (base : FieldIter) (q : ℕ) (m : Memory) (s : IStream)
      → Walked start base
      → AvoidsSize P (record base { p_size = q })
      → IsInput s
      → Same P m (by_atype host func defaults release wire_type (record base { p_size = q }) m s).0
  by_atype_at wire_type base q m s w size i =
      let a : (pb_atype (current base).type == atype_static) ≡ true =
        ground (arith, contained.static base w) in
      rw a (
        static_rule P IsInput func defaults (record base { p_size = q }) (eaten-IsInput base w)
          substream-IsInput (contained.single base w) (contained.entry base w) wire_type m s i size
          (contained.fresh base w))

  by_atype-Same :
      (wire_type : ℕ) (it : FieldIter) (m : Memory) (s : IStream)
      → On it
      → IsInput s
      → Same P m (by_atype host func defaults release wire_type it m s).0
  by_atype-Same wire_type it m s on i =
      subst (λ j. Same P m (by_atype host func defaults release wire_type j m s).0) (sym on.same)
        (by_atype_at wire_type on.base it.p_size m s on.walked
          (subst (AvoidsSize P) on.same on.size) i)

  found_or-Leaves :
      (e : ErrMsg) (k : FieldIter → Action FieldIter) (o : Option (Bool × FieldIter)) (m : Memory)
      (s : IStream)
      → Finds P start contained.sizes o
      → ((it : FieldIter) → On it → Leaves P On m (k it m s))
      → Leaves P On m (found_or (fails e) k o m s)
  found_or-Leaves e k none m s h next = λ a p. refl
  found_or-Leaves e k (some (false, it)) m s h next = λ a p. refl
  found_or-Leaves e k (some (true, it)) m s h next = next it h

  back_at_field-Leaves :
      (it : FieldIter) (m : Memory) (s : IStream) → On it → Leaves P On m (back_at_field it m s)
  back_at_field-Leaves it m s on =
      let static : pb_atype (current it).type ≡ atype_static =
        subst (λ i. pb_atype (current i).type ≡ atype_static) (sym on.same)
          (contained.static on.base on.walked) in
      if-Leaves P On m (pb_atype (current it).type == atype_pointer) _ _
        (λ e. absurd (ground (arith, static))) (λ _. ((λ a p. refl), on))

  pb_release_union_field-Leaves :
      (it : FieldIter) (m : Memory) (s : IStream)
      → On it
      → Leaves P On m (pb_release_union_field release it m s)
  unfolding pb_release_union_field
  pb_release_union_field-Leaves it m s on =
      let old_tag = load_size it.p_size m in
      let new_tag = (current it).tag in
      if-Leaves P On m (old_tag == 0) _ _ (λ _. ((λ a p. refl), on))
        (λ _.
          if-Leaves P On m (old_tag == new_tag) _ _ (λ _. ((λ a p. refl), on))
            (λ _.
              found_or-Leaves invalid_union_tag
                (λ old m' s'.
                  and_then
                    (λ _.
                      found_or (fails iterator_error) back_at_field
                        (pb_field_iter_find old new_tag))
                    (changing (release old) m' s'))
                (pb_field_iter_find it old_tag) m s
                (pb_field_iter_find-Finds P start contained.sizes it old_tag on)
                (λ old on_old.
                  changing-Leaves P On
                    (λ _.
                      found_or (fails iterator_error) back_at_field
                        (pb_field_iter_find old new_tag))
                    (release old) m s (contained.released old on_old m)
                    (λ m'.
                      found_or-Leaves iterator_error back_at_field (pb_field_iter_find old new_tag)
                        m' s (pb_field_iter_find-Finds P start contained.sizes old new_tag on_old)
                        (λ it' on'. back_at_field-Leaves it' m' s on')))))

  -- The decoding of a field writes nothing where `P` is satisfied, and leaves the iterator on a
  -- field of the walk.
  pub decode_field-Leaves :
      (wire_type : ℕ) (it : FieldIter) (m : Memory) (s : IStream)
      → On it
      → IsInput s
      → Leaves P On m (decode_field host func defaults release wire_type it m s)
  unfolding decode_field
  decode_field-Leaves wire_type it m s on i =
      let union = pb_htype (current it).type == htype_oneof in
      both-Leaves P (Stays fs) On On
        (λ it' m' s'.
          and_then (λ _ m'' s''. (m'', done it' s''))
            (by_atype host func defaults release wire_type it' m' s'))
        m s (if union then pb_release_union_field release it m s else (m, done it s)) i
        (if-Ends (Stays fs) s union _ _
          (λ _. pb_release_union_field-Ends func defaults release fs ready it m s (table_of it on))
          (λ _. (Reads-refl s, table_of it on)))
        (if-Leaves P On m union _ _ (λ _. pb_release_union_field-Leaves it m s on)
          (λ _. ((λ a p. refl), on)))
        (λ it' m' t on' it_.
          and_then-Leaves P (λ _. Unit {0}) On (λ _ m'' s''. (m'', done it' s'')) m'
            (by_atype host func defaults release wire_type it' m' t)
            (Same-Leaves P m' (by_atype host func defaults release wire_type it' m' t)
              (by_atype-Same wire_type it' m' t on' it_))
            (λ _ m'' u _. ((λ a p. refl), on')))
