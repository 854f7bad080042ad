-- ===== src/Nanopb/Decode/Fields/Ends.antt =====
-- The decoding of any field ends.
use firebase_login.Base.{
  ℕ, zero, suc, ◌<◌, ◌+◌, refl, arith, List, length, ◌==◌, ◌||◌, if◌then◌else◌,
}
use firebase_login.Nanopb.Istream.{
  IStream, Outcome, done, fail, fault, stuck, callback_failed, invalid_field_type,
  pb_istream_from_buffer,
}
use firebase_login.Nanopb.Istream.Reads.{Reads, Reads-refl, Reads-trans}
use firebase_login.Nanopb.Wire.{wt_string, pb_skip_field, read_raw_value}
use firebase_login.Nanopb.Wire.Safety.{pb_skip_field-Safe}
use firebase_login.Nanopb.Wire.Eats.{Octets, read_raw_value-Octets}
use firebase_login.Nanopb.Field.{
  Field, FieldIter, current, pb_htype, pb_atype, htype_oneof, atype_static, atype_pointer,
}
use firebase_login.Nanopb.Message.{atype_callback}
use firebase_login.Nanopb.Memory.{Memory, load_pointer}
use firebase_login.Nanopb.Action.{Host, Change, Action, and_then, succeed}
use firebase_login.Nanopb.Action.Ends.{
  IsInput, Ends, Any, Safe-Ends, if-Ends, and_then-Ends, set_error-Keeps, Reads-Keeps,
  Reads-IsInput,
}
use firebase_login.Nanopb.Decode.{closing}
use firebase_login.Nanopb.Decode.Fields.{
  or_callback_failed, status_only, callback_loop, skip, decode_callback_field, by_atype,
  decode_field,
}
use firebase_login.Nanopb.Field.Table.{OnTable, at_current}
use firebase_login.Nanopb.Decode.Fields.Table.{Ready, Eating}
use firebase_login.Nanopb.Decode.Fields.Union.{Stays, pb_release_union_field-Ends}
use firebase_login.Nanopb.Decode.Static.Ends.{NestedTotal, decode_static_field-Ends}
use firebase_login.Nanopb.Decode.Pointer.Ends.{close-Ends, decode_pointer_field-Ends}
use firebase_login.Nanopb.Decode.Substream.{Carved, Carved-Keeps, substream-Ends}

-- The call has read something, or there is nothing left to read.
abbrev pub Progress : IStream → Unit {0} → IStream → Type 0
Progress s a t = 0 < t.bytes_left → t.bytes_left < s.bytes_left

-- The field callbacks of the application end, and each call that returns true reads something as
-- long as there is something left.
abbrev pub CallbacksEnd : Host → Type 0
CallbacksEnd host =
    (callback : ℕ) (field : Field) (arg : ℕ) (m : Memory) (s : IStream)
    → IsInput s
    → Ends (Progress s) s (host.decode_callback callback field arg m s).1

module _ (s t s' : IStream) (i : IsInput t) (c : Carved s t s') where
  or_callback_failed-Ends :
      (k : IStream → Memory → Memory × Outcome (Unit {0})) (Q : Unit {0} → IStream → Type 0)
      (u : IStream) (r : Memory × Outcome (Unit {0}))
      → Ends Q u r.1
      → ((v : IStream) (m : Memory) → Reads u v → Q tt v → Ends Any s (k v m).1)
      → Ends Any s (or_callback_failed s' k r).1
  or_callback_failed-Ends k Q u (m, done a v) h next = next v m h.0 h.1
  or_callback_failed-Ends k Q u (m, fail v) h next =
      let kept = Carved-Keeps s t s' c in
      let e = set_error-Keeps callback_failed s' in omega (arith, kept, e)
  or_callback_failed-Ends k Q u (m, fault) h next = h
  or_callback_failed-Ends k Q u (m, stuck) h next = h

  callback_loop-Ends :
      (callback : Action (Unit {0})) (rounds : ℕ) (m : Memory) (u : IStream)
      → ((m' : Memory) (v : IStream) → IsInput v → Ends (Progress v) v (callback m' v).1)
      → Reads t u
      → IsInput u
      → u.bytes_left < rounds
      → Ends Any s (callback_loop rounds callback s' m u).1
  unfolding callback_loop
  callback_loop-Ends callback zero m u good r iu h = absurd (omega arith)
  callback_loop-Ends callback (suc rounds) m u good r iu h =
      or_callback_failed-Ends
        (λ t' m'.
          if t'.bytes_left == 0
          then closing s' (m', done tt t')
          else callback_loop rounds callback s' m' t')
        (Progress u) u (callback m u) (good m u iu)
        (λ v m' rv progress.
          let all = Reads-trans r rv in
          if-Ends Any s (v.bytes_left == 0) _ _
            (λ _. close-Ends s t s' i c s' (done tt v) refl (all, tt) m')
            (λ more.
              callback_loop-Ends callback rounds m' v good all (Reads-IsInput rv iu)
                (let less = progress (ground arith) in omega (arith, less))))

status_only-Ends :
    (s u : IStream) (Q : Unit {0} → IStream → Type 0) (r : Memory × Outcome (Unit {0}))
    → Ends Q u r.1
    → Ends Any s (status_only s r).1
status_only-Ends s u Q (m, done a v) h = (Reads-refl s, tt)
status_only-Ends s u Q (m, fail v) h = Reads-Keeps (Reads-refl s)
status_only-Ends s u Q (m, fault) h = h
status_only-Ends s u Q (m, stuck) h = h

pub skip-Ends :
    (wire_type : ℕ) (m : Memory) (s : IStream) → IsInput s → Ends Any s (skip wire_type m s).1
unfolding skip
skip-Ends wire_type m s i =
    and_then-Ends Any Any (λ _. succeed) s (m, pb_skip_field wire_type s) i
      (Safe-Ends Any s (pb_skip_field wire_type s) (pb_skip_field-Safe wire_type s i.0)
        (λ a t e r. tt))
      (λ a m' t q r it. (Reads-refl t, tt))

module _ (host : Host) (callbacks : CallbacksEnd host) (func : Field → ℕ → Action (Unit {0}))
    (defaults : ℕ → ℕ → Change) (release : FieldIter → Change) where
  decode_callback_field-Ends :
      (wire_type : ℕ) (it : FieldIter) (m : Memory) (s : IStream)
      → IsInput s
      → Ends Any s (decode_callback_field host func defaults release wire_type it m s).1
  unfolding decode_callback_field pb_istream_from_buffer
  decode_callback_field-Ends wire_type it m s i =
      let callback = load_pointer it.p_data m in
      let decode = host.decode_callback callback (current it) (it.p_data + 8) in
      let good = callbacks callback (current it) (it.p_data + 8) in
      if-Ends Any s (it.p_data == 0 || callback == 0) _ _ (λ _. skip-Ends wire_type m s i)
        (λ _.
          if-Ends Any s (wire_type == wt_string) _ _
            (λ _.
              substream-Ends Any (λ t m' s'. callback_loop (suc t.bytes_left) decode s' m' t) m s i
                (λ t s' c it'.
                  callback_loop-Ends s t s' it' c decode (suc t.bytes_left) m t good (Reads-refl t)
                    it' (omega arith)))
            (λ _.
              and_then-Ends Octets Any
                (λ bytes m' s'.
                  status_only s' (decode m' (pb_istream_from_buffer bytes (length bytes))))
                s (m, read_raw_value wire_type 10 s) i (read_raw_value-Octets wire_type 10 s i)
                (λ bytes m' t q r it'.
                  let own = pb_istream_from_buffer bytes (length bytes) in
                  status_only-Ends t own (Progress own) (decode m' own)
                    (good m' own (omega arith, q)))))

  module _ (fs : List Field) (ready : Ready func defaults release fs) where
    by_atype-Ends :
        (wire_type : ℕ) (it : FieldIter) (m : Memory) (s : IStream)
        → OnTable fs it
        → IsInput s
        → Ends Any s (by_atype host func defaults release wire_type it m s).1
    by_atype-Ends wire_type it m s on i =
        let a = pb_atype (current it).type in
        let eats = at_current (Eating func) fs it ready.eats on in
        let nested = at_current (NestedTotal defaults) fs it ready.nested on in
        if-Ends Any s (a == atype_static) _ _
          (λ _. decode_static_field-Ends func defaults it eats nested wire_type m s i)
          (λ _.
            if-Ends Any s (a == atype_pointer) _ _
              (λ _.
                decode_pointer_field-Ends host func defaults release it eats nested
                  (at_current (λ f. 0 < f.data_size) fs it ready.sized on) (ready.released it on)
                  wire_type m s i)
              (λ _.
                if-Ends Any s (a == atype_callback) _ _
                  (λ _. decode_callback_field-Ends wire_type it m s i)
                  (λ _. set_error-Keeps invalid_field_type s)))

    -- The decoding of a field of the table ends, with the iterator on a field of the table.
    pub decode_field-Ends :
        (wire_type : ℕ) (it : FieldIter) (m : Memory) (s : IStream)
        → OnTable fs it
        → IsInput s
        → Ends (Stays fs) s (decode_field host func defaults release wire_type it m s).1
    unfolding decode_field
    decode_field-Ends wire_type it m s on i =
        and_then-Ends (Stays fs) (Stays fs)
          (λ it' m' s'.
            and_then (λ _ m'' s''. (m'', done it' s''))
              (by_atype host func defaults release wire_type it' m' s'))
          s _ i
          (if-Ends (Stays fs) s (pb_htype (current it).type == htype_oneof) _ _
            (λ _. pb_release_union_field-Ends func defaults release fs ready it m s on)
            (λ _. (Reads-refl s, on)))
          (λ it' m' t on' r it_.
            and_then-Ends Any (Stays fs) (λ _ m'' s''. (m'', done it' s'')) t
              (by_atype host func defaults release wire_type it' m' t) it_
              (by_atype-Ends wire_type it' m' t on' it_) (λ a m'' u q ru iu. (Reads-refl u, on')))
