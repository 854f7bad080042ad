-- ===== src/Nanopb/Decode/Message/Ends.antt =====
-- The handling of one field of a message ends.
use firebase_login.Base.{
  ℕ, ◌<◌, ◌^◌, arith, List, Option, some, none, Bool, true, false, not, leb, ◌==◌, ◌&&◌,
}
use firebase_login.Nanopb.Istream.{IStream, done, wrong_size_for_fixed_count_field}
use firebase_login.Nanopb.Istream.Reads.{Reads-refl}
use firebase_login.Nanopb.Field.{Field, FieldIter, current, pb_htype, htype_repeated}
use firebase_login.Nanopb.Memory.{Memory}
use firebase_login.Nanopb.Action.{Host, Change, Action, and_then}
use firebase_login.Nanopb.Action.Ends.{IsInput, Ends, Any, if-Ends, and_then-Ends, set_error-Keeps}
use firebase_login.Nanopb.Decode.Fields.{skip, decode_field}
use firebase_login.Nanopb.Field.Table.{OnTable}
use firebase_login.Nanopb.Decode.Fields.Table.{Ready}
use firebase_login.Nanopb.Decode.Fields.Union.{Stays}
use firebase_login.Nanopb.Decode.Fields.Ends.{CallbacksEnd, skip-Ends, decode_field-Ends}
use firebase_login.Nanopb.Decode.Message.{
  Locals, all_bits, unless_handled, at_extension, unknown_field, is_counted_here, has_all_entries,
  use_counter, seen_now, known_field, find_extension_field,
}
use firebase_login.Nanopb.Decode.Message.Rounds.{NotFound, find_extension_field_lem}

-- The iterator stands on a field of the table.
abbrev pub LocalsOn : List Field → Locals → IStream → Type 0
LocalsOn fs l t = OnTable fs l.iter

module _ (host : Host) (callbacks : CallbacksEnd host) (counter : ℕ)
    (func : Field → ℕ → Action (Unit {0})) (defaults : ℕ → ℕ → Change)
    (release : FieldIter → Change) (fs : List Field) (ready : Ready func defaults release fs) where
  unless_handled-Ends :
      (pos wire_type : ℕ) (l : Locals) (m : Memory) (s : IStream)
      → OnTable fs l.iter
      → IsInput s
      → Ends
          (LocalsOn fs)
          s
          (unless_handled host counter func defaults release pos wire_type l m s).1
  unless_handled-Ends pos wire_type l m s on i =
      if-Ends (LocalsOn fs) s (not (pos == s.bytes_left)) _ _ (λ _. (Reads-refl s, on))
        (λ _.
          and_then-Ends Any (LocalsOn fs) (λ _ m' s'. (m', done l s')) s (skip wire_type m s) i
            (skip-Ends wire_type m s i) (λ a m' t q r it. (Reads-refl t, on)))

  -- The tag of a field is below the start of the extensions that no field stands for.
  at_extension-Ends :
      (tag wire_type pos : ℕ) (l : Locals) (o : Option (Bool × FieldIter)) (m : Memory)
      (s : IStream)
      → tag < 2 ^ 29
      → NotFound fs ready.tags ready.no_extension pos o
      → IsInput s
      → Ends
          (LocalsOn fs)
          s
          (at_extension host counter func defaults release tag wire_type l o m s).1
  at_extension-Ends tag wire_type pos l none m s small h i = elim h [ ]
  at_extension-Ends tag wire_type pos l (some (true, it)) m s small h i = elim h [ ]
  at_extension-Ends tag wire_type pos l (some (false, it)) m s small h i =
      if-Ends (LocalsOn fs) s (leb all_bits tag) _ _ (λ e. absurd (ground (arith, small)))
        (λ _.
          unless_handled-Ends s.bytes_left wire_type
            (record l { iter = it; extension_range_start = all_bits }) m s h i)

  pub unknown_field-Ends :
      (tag wire_type : ℕ) (l : Locals) (m : Memory) (s : IStream)
      → tag < 2 ^ 29
      → OnTable fs l.iter
      → IsInput s
      → Ends
          (LocalsOn fs)
          s
          (unknown_field host counter func defaults release tag wire_type l m s).1
  unfolding unknown_field
  unknown_field-Ends tag wire_type l m s small on i =
      if-Ends (LocalsOn fs) s (leb l.extension_range_start tag) _ _
        (λ _.
          at_extension-Ends tag wire_type l.iter.pos l (find_extension_field l.iter) m s small
            (find_extension_field_lem fs ready.tags ready.no_extension l.iter on) i)
        (λ _. unless_handled-Ends s.bytes_left wire_type l m s on i)

  pub use_counter-Ends :
      (l : Locals) (m : Memory) (s : IStream)
      → OnTable fs l.iter
      → Ends (LocalsOn fs) s (use_counter host counter func defaults release l m s).1
  unfolding use_counter
  use_counter-Ends l m s on =
      let it = l.iter in
      if-Ends (LocalsOn fs) s
        (not (pb_htype (current it).type == htype_repeated && it.p_size == it.p_data)) _ _
        (λ _. (Reads-refl s, on))
        (λ _.
          if-Ends (LocalsOn fs) s (is_counted_here host counter func defaults release l) _ _
            (λ _. (Reads-refl s, on))
            (λ _.
              if-Ends (LocalsOn fs) s (not (has_all_entries host counter func defaults release l m))
                _ _ (λ _. set_error-Keeps wrong_size_for_fixed_count_field s)
                (λ _. (Reads-refl s, on))))

  pub known_field-Ends :
      (wire_type : ℕ) (l : Locals) (m : Memory) (s : IStream)
      → OnTable fs l.iter
      → IsInput s
      → Ends (LocalsOn fs) s (known_field host counter func defaults release wire_type l m s).1
  unfolding known_field
  known_field-Ends wire_type l m s on i =
      and_then-Ends (LocalsOn fs) (LocalsOn fs)
        (λ l' m' s'.
          and_then
            (λ it m'' s''. (
              m'',
              done (record (seen_now host counter func defaults release l') { iter = it }) s'',
            ))
            (decode_field host func defaults release wire_type l'.iter m' s'))
        s (use_counter host counter func defaults release l m s) i (use_counter-Ends l m s on)
        (λ l' m' t on' r it.
          and_then-Ends (Stays fs) (LocalsOn fs)
            (λ it m'' s''. (
              m'',
              done (record (seen_now host counter func defaults release l') { iter = it }) s'',
            ))
            t (decode_field host func defaults release wire_type l'.iter m' t) it
            (decode_field-Ends host callbacks func defaults release fs ready wire_type l'.iter m' t
              on' it)
            (λ it' m'' u on'' ru iu. (Reads-refl u, on'')))
