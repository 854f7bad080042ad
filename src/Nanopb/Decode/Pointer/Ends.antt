-- ===== src/Nanopb/Decode/Pointer/Ends.antt =====
-- The decoding of a field that the struct points to ends.
use firebase_login.Base.{
  ℕ, zero, suc, ◌<◌, ◌≡◌, ◌+◌, refl, arith, some, ltb, leb, ◌==◌, not, ◌&&◌, ◌||◌, if◌then◌else◌,
}
use firebase_login.Nanopb.Istream.{
  IStream, Outcome, done, fail, fault, stuck, too_many_array_entries, invalid_field_type,
}
use firebase_login.Nanopb.Istream.Reads.{Reads, Reads-refl, Reads-trans}
use firebase_login.Nanopb.Wire.{wt_string}
use firebase_login.Nanopb.Field.{
  Field, FieldIter, current, pb_ltype, pb_htype, ltype_submessage, htype_required, htype_repeated,
  htype_oneof, size_max,
}
use firebase_login.Nanopb.Presence.{htype_optional}
use firebase_login.Nanopb.Encode.{last_packable}
use firebase_login.Nanopb.Memory.{Memory, load_pointer, load_size, store}
use firebase_login.Nanopb.Action.{Host, Change, Action, and_then, allocate_at}
use firebase_login.Nanopb.Action.Eats.{allocate_at-Ends}
use firebase_login.Nanopb.Action.Ends.{
  IsInput, Ends, Any, Shorter, Total, Reads-Keeps, Reads-IsInput, Reads-bytes_left, if-Total,
  if-IsMade, if-Ends, and_then-Ends, changing-Ends, weaken-Ends, set_error-Keeps,
}
use firebase_login.Nanopb.Defaults.{unchanged}
use firebase_login.Nanopb.Decode.{add_one, item_at, closing}
use firebase_login.Nanopb.Decode.Pointer.{
  go_on, initialize_pointer_field, more_entries, make_place, new_entry, next_entry, pointer_loop,
  decode_entry, decode_single, decode_pointer_field,
}
use firebase_login.Nanopb.Decode.Static.Ends.{NestedTotal, fresh-Total}
use firebase_login.Nanopb.Decode.Substream.{Carved, substream-Ends, close_after-Ends}

module _ (s t s' : IStream) (i : IsInput t) (c : Carved s t s') where
  -- The close, whether or not there is a message about too many entries.
  pub close-Ends :
      (s'' : IStream) (o : Outcome (Unit {0}))
      → s''.bytes_left ≡ s'.bytes_left
      → Ends Any t o
      → (m : Memory) → Ends Any s (closing s'' (m, o)).1
  close-Ends s'' o left h m =
      weaken-Ends (Shorter s) Any s _ (close_after-Ends s t s' s'' i c left Any o h) (λ a u r q. tt)

  go_on-Ends :
      (k : ℕ → Action (Unit {0})) (u : IStream) (r : Memory × Outcome ℕ)
      → Reads t u
      → IsInput u
      → Ends (Shorter u) u r.1
      → ((place : ℕ) (m : Memory) (v : IStream)
          → Reads t v
          → IsInput v
          → v.bytes_left < u.bytes_left
          → Ends Any s (k place m v).1)
      → Ends Any s (go_on k s' r).1
  go_on-Ends k u (m, done place v) r iu h next =
      next place m v (Reads-trans r h.0) (Reads-IsInput h.0 iu) h.1
  go_on-Ends k u (m, fail v) r iu h next =
      let before = Reads-Keeps r in close-Ends s' (fail v) refl (omega (arith, before, h)) m
  go_on-Ends k u (m, fault) r iu h next = h
  go_on-Ends k u (m, stuck) r iu h next = h

module _ (host : Host) (func : Field → ℕ → Action (Unit {0})) (defaults : ℕ → ℕ → Change)
    (release : FieldIter → Change) (it : FieldIter)
    (eats : (dest : ℕ) (m : Memory) (s : IStream)
      → IsInput s
      → Ends (Shorter s) s (func (current it) dest m s).1)
    (nested : NestedTotal defaults (current it)) (nonempty : 0 < (current it).data_size) where
  initialize-Total :
      (p : ℕ) → Total (initialize_pointer_field host func defaults release (current it) p)
  unfolding initialize_pointer_field
  initialize-Total p m =
      let l = pb_ltype (current it).type in
      if-IsMade (l == 7 || l == 6) _ _ (λ _. tt)
        (λ _.
          if-IsMade (l == 8) _ _ (λ e. fresh-Total defaults (current it) p nested (ground arith) m)
            (λ _. tt))

  make_place-Ends :
      (places : ℕ) (m : Memory) (t : IStream)
      → IsInput t
      → Ends Any t (make_place host func defaults release it places m t).1
  unfolding make_place
  make_place-Ends places m t i =
      let size = (current it).data_size in
      let wanted = more_entries host func defaults release size t.bytes_left places in
      if-Ends Any t (not (ltb places (load_size it.p_size m + 1))) _ _ (λ _. (Reads-refl t, tt))
        (λ _.
          if-Ends Any t (size == 0) _ _ (λ z. absurd (ground (arith, nonempty)))
            (λ _.
              and_then-Ends Any Any (λ _ m' t'. (m', done wanted t')) t
                (allocate_at host it.p_data size wanted m t) i
                (allocate_at-Ends host it.p_data size wanted m t)
                (λ a m' u q r iu. (Reads-refl u, tt))))

  new_entry-Ends :
      (p : ℕ) (m : Memory) (t : IStream)
      → IsInput t
      → Ends (Shorter t) t (new_entry host func defaults release it p m t).1
  unfolding new_entry
  new_entry-Ends p m t i =
      changing-Ends (Shorter t) (initialize_pointer_field host func defaults release (current it) p)
        (λ _ m' t'. func (current it) p m' t') m t (initialize-Total p) (λ m'. eats p m' t i)

  next_entry-Ends :
      (index place : ℕ) (m : Memory) (t : IStream)
      → IsInput t
      → Ends (Shorter t) t (next_entry host func defaults release it index place m t).1
  next_entry-Ends index place m t i =
      let p = item_at (current it) (load_pointer it.p_data m) index in
      and_then-Ends (Shorter t) (Shorter t) (λ _ m' t'. (m', done place t')) t
        (new_entry host func defaults release it p m t) i (new_entry-Ends p m t i)
        (λ a m' u q r iu. (Reads-refl u, q))

  pointer_loop-Ends :
      (s t0 s' : IStream) (rounds places : ℕ) (m : Memory) (t : IStream)
      → IsInput t0
      → Carved s t0 s'
      → Reads t0 t
      → IsInput t
      → t.bytes_left < rounds
      → Ends Any s (pointer_loop host func defaults release rounds it s' places m t).1
  unfolding pointer_loop
  pointer_loop-Ends s t0 s' zero places m t i0 c r i h = absurd (omega arith)
  pointer_loop-Ends s t0 s' (suc rounds) places m t i0 c r i h =
      let index = load_size it.p_size m in
      if-Ends Any s (t.bytes_left == 0) _ _
        (λ _. close-Ends s t0 s' i0 c s' (done tt t) refl (r, tt) m)
        (λ _.
          if-Ends Any s (index == size_max) _ _
            (λ _.
              close-Ends s t0 s' i0 c (record s' { errmsg = some too_many_array_entries }) (fail t)
                refl (Reads-Keeps r) m)
            (λ _.
              go_on-Ends s t0 s' i0 c
                (λ place m' t'.
                  pointer_loop host func defaults release rounds it s' place (add_one it.p_size m')
                    t')
                t
                (and_then
                  (λ place m' t'. next_entry host func defaults release it index place m' t')
                  (make_place host func defaults release it places m t))
                r i
                (and_then-Ends Any (Shorter t)
                  (λ place m' t'. next_entry host func defaults release it index place m' t') t
                  (make_place host func defaults release it places m t) i
                  (make_place-Ends places m t i)
                  (λ place m' u q ru iu.
                    let less = Reads-bytes_left ru in
                    weaken-Ends (Shorter u) (Shorter t) u _ (next_entry-Ends index place m' u iu)
                      (λ a v rv short. omega (arith, less, short))))
                (λ place m' v rv iv short.
                  pointer_loop-Ends s t0 s' rounds place (add_one it.p_size m') v i0 c rv iv
                    (omega (arith, short)))))

  entry-Ends :
      (p : ℕ) (m : Memory) (t : IStream)
      → IsInput t
      → Ends Any t (new_entry host func defaults release it p m t).1
  entry-Ends p m t i =
      weaken-Ends (Shorter t) Any t (new_entry host func defaults release it p m t).1
        (new_entry-Ends p m t i) (λ a u r q. tt)

  decode_entry-Ends :
      (m : Memory) (s : IStream)
      → IsInput s
      → Ends Any s (decode_entry host func defaults release it m s).1
  unfolding decode_entry
  decode_entry-Ends m s i =
      let field = current it in
      let index = load_size it.p_size m in
      if-Ends Any s (index == size_max) _ _ (λ _. set_error-Keeps too_many_array_entries s)
        (λ _.
          and_then-Ends Any Any
            (λ _ m' s'.
              new_entry host func defaults release it
                (item_at field (load_pointer it.p_data m') index) (add_one it.p_size m') s')
            s (allocate_at host it.p_data field.data_size (index + 1) m s) i
            (allocate_at-Ends host it.p_data field.data_size (index + 1) m s)
            (λ a m' u q r iu.
              entry-Ends (item_at field (load_pointer it.p_data m') index) (add_one it.p_size m') u
                iu))

  decode_single-Ends :
      (m : Memory) (s : IStream)
      → IsInput s
      → Ends Any s (decode_single host func defaults release it m s).1
  unfolding decode_single
  decode_single-Ends m s i =
      let field = current it in
      let l = pb_ltype field.type in
      if-Ends Any s (l == 7 || l == 6) _ _
        (λ _.
          weaken-Ends (Shorter s) Any s (func field it.p_data m s).1 (eats it.p_data m s i)
            (λ a u r q. tt))
        (λ _.
          and_then-Ends Any Any
            (λ _ m' s'. new_entry host func defaults release it (load_pointer it.p_data m') m' s') s
            (allocate_at host it.p_data field.data_size 1 m s) i
            (allocate_at-Ends host it.p_data field.data_size 1 m s)
            (λ a m' u q r iu. entry-Ends (load_pointer it.p_data m') m' u iu))

  -- The decoding of a field that the struct points to ends, if that of its data ends and takes
  -- something.
  pub decode_pointer_field-Ends :
      Total (release it)
      → (wire_type : ℕ) (m : Memory) (s : IStream) → IsInput s
      → Ends Any s (decode_pointer_field host func defaults release wire_type it m s).1
  unfolding decode_pointer_field
  decode_pointer_field-Ends released wire_type m s i =
      let field = current it in
      let l = pb_ltype field.type in
      let h = pb_htype field.type in
      let is_duplicate = l == ltype_submessage && not (load_pointer it.p_data m == 0) in
      if-Ends Any s (h == htype_required || h == htype_optional || h == htype_oneof) _ _
        (λ _.
          changing-Ends Any (if is_duplicate then release it else unchanged)
            (λ _ m' s'.
              decode_single host func defaults release it
                (if h == htype_oneof then store 4 it.p_size field.tag m' else m') s')
            m s (if-Total is_duplicate (release it) unchanged (λ _. released) (λ _ m'. tt))
            (λ m'.
              decode_single-Ends (if h == htype_oneof then store 4 it.p_size field.tag m' else m') s
                i))
        (λ _.
          if-Ends Any s (h == htype_repeated) _ _
            (λ _.
              if-Ends Any s (wire_type == wt_string && leb l last_packable) _ _
                (λ _.
                  substream-Ends Any
                    (λ t m' s'.
                      pointer_loop host func defaults release (suc t.bytes_left) it s'
                        (load_size it.p_size m') m' t)
                    m s i
                    (λ t s' c it'.
                      pointer_loop-Ends s t s' (suc t.bytes_left) (load_size it.p_size m) m t it' c
                        (Reads-refl t) it' (omega arith)))
                (λ _. decode_entry-Ends m s i))
            (λ _. set_error-Keeps invalid_field_type s))
