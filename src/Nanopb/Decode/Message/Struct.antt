-- ===== src/Nanopb/Decode/Message/Struct.antt =====
-- The loop over the fields of a message whose fields all lie in its struct writes nothing outside
-- of where they lie.
use firebase_login.Base.{
  ℕ, zero, suc, ◌+◌, ◌<◌, ◌≡◌, ◌^◌, refl, subst, List, length, Option, some, none, Bool, true,
  false, not, ◌==◌, if◌then◌else◌,
}
use firebase_login.Nanopb.Istream.{
  IStream, Outcome, done, fail, fault, stuck, missing_required_field,
}
use firebase_login.Nanopb.Wire.{pb_decode_tag}
use firebase_login.Nanopb.Wire.Eats.{Tag, pb_decode_tag-Ends}
use firebase_login.Nanopb.Field.{Field, FieldIter, begin_at, pb_field_iter_find}
use firebase_login.Nanopb.Field.Find.{pb_field_iter_find-Answer}
use firebase_login.Nanopb.Field.Table.{OnTable, OnTable-OnField}
use firebase_login.Nanopb.Memory.{Memory, store}
use firebase_login.Nanopb.Action.{Host, Change, Action, and_then, fails, succeed, no_rounds}
use firebase_login.Nanopb.Action.Ends.{IsInput, Ends, Reads-IsInput}
use firebase_login.Nanopb.Action.Same.{
  Avoids, Same, Same-trans, store-Same, if-Same, Leaves, and_then-Same,
}
use firebase_login.Nanopb.Decode.Layout.{
  Walked, Stands, Finds, Walked-Stands, pb_field_iter_find-Finds,
}
use firebase_login.Nanopb.Decode.Fields.Table.{Ready}
use firebase_login.Nanopb.Decode.Fields.Ends.{CallbacksEnd}
use firebase_login.Nanopb.Decode.Fields.Within.{Contained, table_of}
use firebase_login.Nanopb.Decode.Message.{
  Locals, Seen, has_all_entries, at_field, with_tag, fields_loop, last_checks, first_locals,
  decode_message, required_count, is_complete,
}
use firebase_login.Nanopb.Decode.Message.Ends.{LocalsOn}
use firebase_login.Nanopb.Decode.Message.Loop.{at_field-Ends}
use firebase_login.Nanopb.Decode.Message.Within.{known_field-Leaves, unknown_field-Leaves}

-- What follows a call whose end and whose writes are both known.
both-Same :
    {A B : Type 0} (P : ℕ → Type 0) (Q : A → IStream → Type 0) (R : A → Type 0) (f : A → Action B)
    (m : Memory) (s : IStream) (r : Memory × Outcome A)
    → IsInput s
    → Ends Q s r.1
    → Leaves P R m r
    → ((a : A) (m' : Memory) (t : IStream) → R a → IsInput t → Same P m' (f a m' t).0)
    → Same P m (and_then f r).0
both-Same P Q R f m s (m', done a t) i e h k =
    Same-trans P m m' (f a m' t).0 h.0 (k a m' t h.1 (Reads-IsInput e.0 i))
both-Same P Q R f m s (m', fail t) i e h k = h
both-Same P Q R f m s (m', fault) i e h k = h
both-Same P Q R f m s (m', stuck) i e h k = h

module _ (P : ℕ → Type 0) (host : Host) (callbacks : CallbacksEnd host) (counter : ℕ)
    (free : Avoids P counter (counter + 4)) (func : Field → ℕ → Action (Unit {0}))
    (defaults : ℕ → ℕ → Change) (release : FieldIter → Change) (fs : List Field)
    (ready : Ready func defaults release fs) (start : FieldIter)
    (on_table : (it : FieldIter) → Walked start it → OnTable fs it)
    (contained : Contained P func defaults release start) where
  abbrev On : Locals → Type 0
  On l = Stands P start l.iter

  at_field-Leaves :
      (tag wire_type : ℕ) (l : Locals) (o : Option (Bool × FieldIter)) (m : Memory) (s : IStream)
      → tag < 2 ^ 29
      → Finds P start contained.sizes o
      → IsInput s
      → Leaves P On m (at_field host counter func defaults release tag wire_type l o m s)
  at_field-Leaves tag wire_type l none m s small on i = λ a p. refl
  at_field-Leaves tag wire_type l (some (true, it)) m s small on i =
      known_field-Leaves P host callbacks counter free func defaults release fs ready start on_table
        contained wire_type (record l { iter = it }) m s on i
  at_field-Leaves tag wire_type l (some (false, it)) m s small on i =
      unknown_field-Leaves P host callbacks counter free func defaults release fs ready start
        on_table contained tag wire_type (record l { iter = it }) m s small on

  with_tag-Same :
      (k : ℕ → ℕ → Action Locals) (l : Locals) (m : Memory) (s : IStream)
      (r : Bool × Outcome (ℕ × ℕ))
      → IsInput s
      → Ends (Tag s) s r.1
      → ((wire_type tag : ℕ) (t : IStream)
          → tag < 2 ^ 29
          → IsInput t
          → Same P m (k wire_type tag m t).0)
      → Same P m (with_tag host counter func defaults release k l m r).0
  with_tag-Same k l m s (eof, done (wire_type, tag) t) i h next =
      next wire_type tag t h.1.0 (Reads-IsInput h.0 i)
  with_tag-Same k l m s (true, fail t) i h next = λ a p. refl
  with_tag-Same k l m s (false, fail t) i h next = λ a p. refl
  with_tag-Same k l m s (eof, fault) i h next = elim h [ ]
  with_tag-Same k l m s (eof, stuck) i h next = elim h [ ]

  fields_loop-Same :
      (rounds : ℕ) (l : Locals) (m : Memory) (s : IStream)
      → On l
      → IsInput s
      → Same P m (fields_loop host counter func defaults release rounds l m s).0
  unfolding fields_loop
  fields_loop-Same zero l m s on i = λ a p. refl
  fields_loop-Same (suc rounds) l m s on i =
      let next = λ (l' : Locals) (m' : Memory) (s' : IStream).
        fields_loop host counter func defaults release rounds l' m' s' in
      let handle = λ (tag wire_type : ℕ) (m' : Memory) (s' : IStream).
        at_field host counter func defaults release tag wire_type l (pb_field_iter_find l.iter tag)
          m' s' in
      let here =
        table_of P host func defaults release fs ready start on_table contained l.iter on in
      if-Same P m (s.bytes_left == 0) _ _ (λ _ a p. refl)
        (λ _.
          with_tag-Same (λ wire_type tag m' s'. and_then next (handle tag wire_type m' s')) l m s
            (pb_decode_tag s) i (pb_decode_tag-Ends s i)
            (λ wire_type tag t small it.
              both-Same P (LocalsOn fs) On next m t (handle tag wire_type m t) it
                (at_field-Ends host callbacks counter func defaults release fs ready tag wire_type
                  l.iter.pos l l.iter.fields (pb_field_iter_find l.iter tag) m t small here.0 here.1
                  (pb_field_iter_find-Answer tag l.iter (OnTable-OnField fs l.iter ready.tags here))
                  it)
                (at_field-Leaves tag wire_type l (pb_field_iter_find l.iter tag) m t small
                  (pb_field_iter_find-Finds P start contained.sizes l.iter tag on) it)
                (λ l' m' u on' iu. fields_loop-Same rounds l' m' u on' iu)))

  counted-Same :
      (seen : Seen) (o : Option ℕ) (m : Memory) (s : IStream)
      → Same P m
          (elim o as (λ _. Memory × Outcome (Unit {0})) [
            | none ↦ no_rounds m s
            | some count ↦
                if not (is_complete seen count)
                then fails missing_required_field m s
                else succeed m s
          ]).0
  counted-Same seen none m s = λ a p. refl
  counted-Same seen (some count) m s =
      if-Same P m (not (is_complete seen count)) _ _ (λ _ a p. refl) (λ _ a p. refl)

  last_checks-Same :
      (l : Locals) (m : Memory) (s : IStream)
      → Same P m (last_checks host counter func defaults release l m s).0
  unfolding last_checks
  last_checks-Same l m s =
      if-Same P m (not (has_all_entries host counter func defaults release l m)) _ _ (λ _ a p. refl)
        (λ _. counted-Same l.fields_seen (required_count (suc (length l.iter.fields)) l.iter) m s)

  -- The decoding of a message writes only where its fields and its counter lie.
  pub decode_message-Same :
      (fields dest_struct : ℕ) (m : Memory) (s : IStream)
      → start ≡ begin_at (host.tables fields) dest_struct
      → IsInput s
      → Same P m (decode_message host counter func defaults release fields dest_struct m s).0
  unfolding decode_message
  decode_message-Same fields dest_struct m s e i =
      let l = first_locals host counter func defaults release fields dest_struct in
      let m' = store 4 counter 0 m in
      let on : On l =
        subst (Stands P start) e (Walked-Stands P start contained.sizes start Walked.begin) in
      let r = fields_loop host counter func defaults release (suc s.bytes_left) l m' s in
      Same-trans P m m' _ (store-Same P 4 counter 0 m free) (
        and_then-Same P (last_checks host counter func defaults release) m' r
          (fields_loop-Same (suc s.bytes_left) l m' s on i)
          (λ l' m'' t _. last_checks-Same l' m'' t))
