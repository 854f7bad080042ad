-- ===== src/Nanopb/Decode/Message/Within.antt =====
-- The decoding of a message whose fields all lie in its struct writes nothing outside of where they
-- lie.
use firebase_login.Base.{
  ℕ, ◌+◌, ◌<◌, ◌≡◌, ◌^◌, refl, ap, arith, List, Option, some, none, Bool, true, false, not, leb,
  ◌==◌, ◌&&◌,
}
use firebase_login.Nanopb.Istream.{IStream, done}
use firebase_login.Nanopb.Field.{Field, FieldIter, current, pb_htype, htype_repeated}
use firebase_login.Nanopb.Field.Table.{OnTable}
use firebase_login.Nanopb.Memory.{Memory}
use firebase_login.Nanopb.Action.{Host, Change, Action, and_then}
use firebase_login.Nanopb.Action.Ends.{IsInput, Ends}
use firebase_login.Nanopb.Action.Same.{
  Avoids, store-Same, Leaves, Same-Leaves, and_then-Leaves, if-Leaves,
}
use firebase_login.Nanopb.Decode.Layout.{Walked, Stands, Finds, find_extension_field-Finds}
use firebase_login.Nanopb.Decode.Fields.{skip, decode_field}
use firebase_login.Nanopb.Decode.Fields.Table.{Ready}
use firebase_login.Nanopb.Decode.Fields.Ends.{CallbacksEnd}
use firebase_login.Nanopb.Decode.Fields.Within.{
  Contained, skip-Same, both-Leaves, table_of, decode_field-Leaves,
}
use firebase_login.Nanopb.Decode.Message.{
  Locals, all_bits, unless_handled, at_extension, unknown_field, is_counted_here, has_all_entries,
  use_counter, seen_now, known_field, find_extension_field,
}
use firebase_login.Nanopb.Decode.Message.Rounds.{NotFound, find_extension_field_lem}
use firebase_login.Nanopb.Decode.Message.Ends.{LocalsOn, use_counter-Ends}

module _ (P : ℕ → Type 0) (host : Host) (callbacks : CallbacksEnd host) (counter : ℕ)
    (free : Avoids P counter (counter + 4)) (func : Field → ℕ → Action (Unit {0}))
    (defaults : ℕ → ℕ → Change) (release : FieldIter → Change) (fs : List Field)
    (ready : Ready func defaults release fs) (start : FieldIter)
    (on_table : (it : FieldIter) → Walked start it → OnTable fs it)
    (contained : Contained P func defaults release start) where
  abbrev pub IterOn : Locals → Type 0
  IterOn l = Stands P start l.iter

  here_of : (it : FieldIter) → Stands P start it → OnTable fs it
  here_of = table_of P host func defaults release fs ready start on_table contained

  unless_handled-Leaves :
      (pos wire_type : ℕ) (l : Locals) (m : Memory) (s : IStream)
      → IterOn l
      → Leaves P IterOn m (unless_handled host counter func defaults release pos wire_type l m s)
  unless_handled-Leaves pos wire_type l m s on =
      if-Leaves P IterOn m (not (pos == s.bytes_left)) _ _ (λ _. ((λ a p. refl), on))
        (λ _.
          and_then-Leaves P (λ _. Unit {0}) IterOn (λ _ m' s'. (m', done l s')) m
            (skip wire_type m s) (Same-Leaves P m (skip wire_type m s) (skip-Same P wire_type m s))
            (λ _ m' t _. ((λ a p. refl), on)))

  at_extension-Leaves :
      (tag wire_type pos : ℕ) (l : Locals) (o : Option (Bool × FieldIter)) (m : Memory)
      (s : IStream)
      → tag < 2 ^ 29
      → NotFound fs ready.tags ready.no_extension pos o
      → Finds P start contained.sizes o
      → Leaves P IterOn m (at_extension host counter func defaults release tag wire_type l o m s)
  at_extension-Leaves tag wire_type pos l none m s small h on = λ a p. refl
  at_extension-Leaves tag wire_type pos l (some (true, it)) m s small h on = elim h [ ]
  at_extension-Leaves tag wire_type pos l (some (false, it)) m s small h on =
      if-Leaves P IterOn m (leb all_bits tag) _ _ (λ e. absurd (ground (arith, small)))
        (λ _.
          unless_handled-Leaves s.bytes_left wire_type
            (record l { iter = it; extension_range_start = all_bits }) m s on)

  pub unknown_field-Leaves :
      (tag wire_type : ℕ) (l : Locals) (m : Memory) (s : IStream)
      → tag < 2 ^ 29
      → IterOn l
      → Leaves P IterOn m (unknown_field host counter func defaults release tag wire_type l m s)
  unfolding unknown_field
  unknown_field-Leaves tag wire_type l m s small on =
      if-Leaves P IterOn m (leb l.extension_range_start tag) _ _
        (λ _.
          at_extension-Leaves tag wire_type l.iter.pos l (find_extension_field l.iter) m s small
            (find_extension_field_lem fs ready.tags ready.no_extension l.iter (here_of l.iter on))
            (find_extension_field-Finds P start contained.sizes l.iter on))
        (λ _. unless_handled-Leaves s.bytes_left wire_type l m s on)

  -- An array of fixed size is counted by the local variable.
  counted-Stands :
      (it : FieldIter)
      → Stands P start it
      → pb_htype (current it).type ≡ htype_repeated
      → Stands P start (record it { p_size = counter })
  counted-Stands it on h =
      let moved : FieldIter → FieldIter = λ i. record i { p_size = counter } in
      record {
        base = on.base;
        walked = on.walked;
        same = ap moved on.same;
        size = record {
          optional = λ o _. absurd (omega (arith, h, o));
          repeated = λ _. free;
          oneof = λ o. absurd (omega (arith, h, o));
        };
      }

  use_counter-Leaves :
      (l : Locals) (m : Memory) (s : IStream)
      → IterOn l
      → Leaves P IterOn m (use_counter host counter func defaults release l m s)
  unfolding use_counter
  use_counter-Leaves l m s on =
      let it = l.iter in
      let h = pb_htype (current it).type in
      if-Leaves P IterOn m (not (h == htype_repeated && it.p_size == it.p_data)) _ _
        (λ _. ((λ a p. refl), on))
        (λ fixed.
          let counted = counted-Stands it on (ground arith) in
          if-Leaves P IterOn m (is_counted_here host counter func defaults release l) _ _
            (λ _. ((λ a p. refl), counted))
            (λ _.
              if-Leaves P IterOn m (not (has_all_entries host counter func defaults release l m)) _
                _ (λ _ a p. refl) (λ _. (store-Same P 4 counter 0 m free, counted))))

  use_counter_input :
      (l : Locals) (m : Memory) (s : IStream)
      → IterOn l
      → Ends (LocalsOn fs) s (use_counter host counter func defaults release l m s).1
  use_counter_input l m s on =
      use_counter-Ends host callbacks counter func defaults release fs ready l m s
        (here_of l.iter on)

  pub known_field-Leaves :
      (wire_type : ℕ) (l : Locals) (m : Memory) (s : IStream)
      → IterOn l
      → IsInput s
      → Leaves P IterOn m (known_field host counter func defaults release wire_type l m s)
  unfolding known_field
  known_field-Leaves wire_type l m s on i =
      let keep : Locals → FieldIter → Action Locals = λ l' it m'' s''.
        (m'', done (record (seen_now host counter func defaults release l') { iter = it }) s'') in
      both-Leaves P (LocalsOn fs) IterOn IterOn
        (λ l' m' s'.
          and_then (keep l') (decode_field host func defaults release wire_type l'.iter m' s'))
        m s (use_counter host counter func defaults release l m s) i (use_counter_input l m s on)
        (use_counter-Leaves l m s on)
        (λ l' m' t on' it.
          and_then-Leaves P (Stands P start) IterOn (keep l') m'
            (decode_field host func defaults release wire_type l'.iter m' t)
            (decode_field-Leaves P host func defaults release fs ready start on_table contained
              wire_type l'.iter m' t on' it)
            (λ it' m'' u on''. ((λ a p. refl), on'')))
