-- ===== src/Nanopb/Decode/Message/Loop.antt =====
-- The loop over the fields of a message ends, and the last checks end.
use firebase_login.Base.{
  ℕ, zero, suc, ◌<◌, ◌≡◌, ◌^◌, ◌∙◌, ap, subst, arith, List, length, Option, some, none, Bool, true,
  false, not, ◌==◌, if◌then◌else◌,
}
use firebase_login.Nanopb.Istream.{
  IStream, Outcome, done, fail, fault, stuck, missing_required_field,
  wrong_size_for_fixed_count_field,
}
use firebase_login.Nanopb.Istream.Reads.{Reads, Safe, Reads-refl}
use firebase_login.Nanopb.Wire.{pb_decode_tag}
use firebase_login.Nanopb.Wire.Safety.{pb_decode_tag-Safe}
use firebase_login.Nanopb.Wire.Eats.{Tag, pb_decode_tag-Ends}
use firebase_login.Nanopb.Field.{Field, FieldIter, pb_field_iter_find}
use firebase_login.Nanopb.Field.Find.{Answer, pb_field_iter_find-Answer}
use firebase_login.Nanopb.Memory.{Memory, store}
use firebase_login.Nanopb.Action.{Host, Change, Action, and_then, no_rounds, fails, succeed}
use firebase_login.Nanopb.Action.Ends.{
  IsInput, Ends, Any, Reads-IsInput, Reads-bytes_left, Ends-later, if-Ends, and_then-Ends,
  set_error-Keeps,
}
use firebase_login.Nanopb.Field.Table.{OnTable, OnTable-OnField}
use firebase_login.Nanopb.Decode.Fields.Table.{Ready}
use firebase_login.Nanopb.Decode.Fields.Ends.{CallbacksEnd}
use firebase_login.Nanopb.Decode.Message.{
  Locals, has_all_entries, at_field, with_tag, fields_loop, last_checks, first_locals,
  decode_message, required_count, is_complete, Seen,
}
use firebase_login.Nanopb.Decode.Message.Rounds.{IsCounted, required_count-IsCounted}
use firebase_login.Nanopb.Decode.Message.Ends.{LocalsOn, unknown_field-Ends, known_field-Ends}

module _ (host : Host) (callbacks : CallbacksEnd host) (counter : ℕ)
    (func : Field → ℕ → Action (Unit {0})) (defaults : ℕ → ℕ → Change)
    (release : FieldIter → Change) (fs : List Field) (ready : Ready func defaults release fs) where
  pub at_field-Ends :
      (tag wire_type start : ℕ) (l : Locals) (table : List Field) (o : Option (Bool × FieldIter))
      (m : Memory) (s : IStream)
      → tag < 2 ^ 29
      → table ≡ fs
      → start < length fs
      → Answer table tag start o
      → IsInput s
      → Ends (LocalsOn fs) s (at_field host counter func defaults release tag wire_type l o m s).1
  at_field-Ends tag wire_type start l table none m s small e h a i = elim a [ ]
  at_field-Ends tag wire_type start l table (some (true, it)) m s small e h a i =
      known_field-Ends host callbacks counter func defaults release fs ready wire_type
        (record l { iter = it }) m s (a.0 ∙ e, subst (λ f. it.pos < length f) e a.1) i
  at_field-Ends tag wire_type start l table (some (false, it)) m s small e h a i =
      unknown_field-Ends host callbacks counter func defaults release fs ready tag wire_type
        (record l { iter = it }) m s small (a.0 ∙ e, omega (arith, a.1, h)) i

  -- A number 0 and the end of the stream end the loop; anything else is a tag.
  with_tag-Ends :
      (k : ℕ → ℕ → Action Locals) (l : Locals) (m : Memory) (s : IStream)
      (r : Bool × Outcome (ℕ × ℕ))
      → Safe s r.1
      → Ends (Tag s) s r.1
      → OnTable fs l.iter
      → ((wire_type tag : ℕ) (t : IStream)
          → tag < 2 ^ 29
          → t.bytes_left < s.bytes_left
          → Reads s t
          → Ends (LocalsOn fs) t (k wire_type tag m t).1)
      → Ends (LocalsOn fs) s (with_tag host counter func defaults release k l m r).1
  with_tag-Ends k l m s (eof, done (wire_type, tag) t) safe h on next =
      Ends-later (LocalsOn fs) (LocalsOn fs) s t (k wire_type tag m t).1 h.0
        (next wire_type tag t h.1.0 h.1.1 h.0) (λ a u r q. q)
  with_tag-Ends k l m s (true, fail t) safe h on next = (safe, on)
  with_tag-Ends k l m s (false, fail t) safe h on next = h
  with_tag-Ends k l m s (eof, fault) safe h on next = h
  with_tag-Ends k l m s (eof, stuck) safe h on next = h

  fields_loop-Ends :
      (rounds : ℕ) (l : Locals) (m : Memory) (s : IStream)
      → OnTable fs l.iter
      → IsInput s
      → s.bytes_left < rounds
      → Ends (LocalsOn fs) s (fields_loop host counter func defaults release rounds l m s).1
  unfolding fields_loop
  fields_loop-Ends zero l m s on i h = absurd (omega arith)
  fields_loop-Ends (suc rounds) l m s on i h =
      let next = λ (l' : Locals) (m' : Memory) (s' : IStream).
        fields_loop host counter func defaults release rounds l' m' s' in
      let handle = λ (tag wire_type : ℕ) (m' : Memory) (s' : IStream).
        at_field host counter func defaults release tag wire_type l (pb_field_iter_find l.iter tag)
          m' s' in
      if-Ends (LocalsOn fs) s (s.bytes_left == 0) _ _ (λ _. (Reads-refl s, on))
        (λ _.
          with_tag-Ends (λ wire_type tag m' s'. and_then next (handle tag wire_type m' s')) l m s
            (pb_decode_tag s) (pb_decode_tag-Safe s i.0) (pb_decode_tag-Ends s i) on
            (λ wire_type tag t small short r.
              and_then-Ends (LocalsOn fs) (LocalsOn fs) next t (handle tag wire_type m t)
                (Reads-IsInput r i)
                (at_field-Ends tag wire_type l.iter.pos l l.iter.fields
                  (pb_field_iter_find l.iter tag) m t small on.0 on.1
                  (pb_field_iter_find-Answer tag l.iter (OnTable-OnField fs l.iter ready.tags on))
                  (Reads-IsInput r i))
                (λ l' m' u on' ru iu.
                  let less = Reads-bytes_left ru in
                  fields_loop-Ends rounds l' m' u on' iu (omega (arith, short, less, h)))))

  counted-Ends :
      (seen : Seen) (o : Option ℕ) (m : Memory) (s : IStream)
      → IsCounted fs ready.tags o
      → Ends Any s
          (elim o as (λ _. Memory × Outcome (Unit {0})) [
            | none ↦ no_rounds m s
            | some count ↦
                if not (is_complete seen count)
                then fails missing_required_field m s
                else succeed m s
          ]).1
  counted-Ends seen none m s h = elim h [ ]
  counted-Ends seen (some count) m s h =
      if-Ends Any s (not (is_complete seen count)) _ _
        (λ _. set_error-Keeps missing_required_field s) (λ _. (Reads-refl s, tt))

  last_checks-Ends :
      (l : Locals) (m : Memory) (s : IStream)
      → OnTable fs l.iter
      → Ends Any s (last_checks host counter func defaults release l m s).1
  unfolding last_checks
  last_checks-Ends l m s on =
      if-Ends Any s (not (has_all_entries host counter func defaults release l m)) _ _
        (λ _. set_error-Keeps wrong_size_for_fixed_count_field s)
        (λ _. counted-Ends l.fields_seen (required_count (suc (length l.iter.fields)) l.iter) m s (
          required_count-IsCounted fs ready.tags (suc (length l.iter.fields)) l.iter on
            (omega (arith, ap length on.0))))

  -- The decoding of a message over its table ends, if the decoding of what its fields hold ends.
  pub decode_message-Ends :
      (fields dest_struct : ℕ) (m : Memory) (s : IStream)
      → host.tables fields ≡ fs
      → 0 < length fs
      → IsInput s
      → Ends Any s (decode_message host counter func defaults release fields dest_struct m s).1
  unfolding decode_message
  decode_message-Ends fields dest_struct m s e h i =
      let l = first_locals host counter func defaults release fields dest_struct in
      and_then-Ends (LocalsOn fs) Any (last_checks host counter func defaults release) s
        (fields_loop host counter func defaults release (suc s.bytes_left) l (store 4 counter 0 m)
          s)
        i (fields_loop-Ends (suc s.bytes_left) l (store 4 counter 0 m) s (e, h) i (omega arith))
        (λ l' m' t on r it. last_checks-Ends l' m' t on)
