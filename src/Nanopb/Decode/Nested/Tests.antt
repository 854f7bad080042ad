-- ===== src/Nanopb/Decode/Nested/Tests.antt =====
-- Runs of the decoder of nested messages, with witnesses.
use firebase_login.Base.{
  ℕ, ◌*◌, ◌^◌, ◌+◌, ◌≤◌, ◌⊎◌, inl, sym, subst, zero, suc, ap, drop, ◌-◌, List, ◌<◌, ◌≡◌, ◌≢◌, refl,
  [], ◌∷◌, none, some, arith, inr,
}
use firebase_login.Nanopb.Istream.{IStream, pb_read}
use firebase_login.Nanopb.Istream.Reads.{
  stream, Reads-refl, pb_read-zero, pb_read_enough, pb_read-Safe,
}
use firebase_login.Nanopb.Field.{Field, FieldIter, field_at, pb_ltype, pb_htype, pb_atype}
use firebase_login.Nanopb.Field.Table.{IsDecodable, Deeper, Decodable}
use firebase_login.Nanopb.Action.{Host, succeed, and_then, reading}
use firebase_login.Nanopb.Action.Ends.{IsInput, Ends, Any, Shorter, and_then-Ends, Safe-Ends}
use firebase_login.Nanopb.Decode.Fields.Ends.{CallbacksEnd, Progress}
use firebase_login.Nanopb.Decode.Nested.{pb_decode, pb_decode_noinit, pb_decode_delimited}
use firebase_login.Nanopb.Decode.Nested.Ends.{pb_decode-Ends}
use firebase_login.Nanopb.Action.Within.{IsInline}
use firebase_login.Nanopb.Decode.Tests.{numbers, host, empty, numbers-plain, numbers-IsInline}
use firebase_login.Nanopb.Decode.Layout.{Walked, Placed, Layout}
use firebase_login.Nanopb.Decode.Nested.Struct.{CountersAvoid, pb_decode-Same}
use firebase_login.Nanopb.Field.{pb_field_iter_next, begin_at, current}
use firebase_login.Nanopb.Field.Table.{AllStatic}
use firebase_login.Nanopb.Action.Same.{Avoids, Same}
use firebase_login.Nanopb.Decode.Static.Within.{moved_field}

-- `optional Child child = 2` in the struct, where a `Child` has the numbers.
abbrev child : Field
child = record {
  tag = 2;
  type = 0x18;
  data_offset = 0;
  size_offset = 0;
  data_size = 16;
  array_size = 0;
  ptr = some 1;
}

abbrev tables : ℕ → List Field
tables zero = numbers ∷ child ∷ []
tables (suc p) = numbers ∷ []

-- The application's callbacks read all that there is.
abbrev app : Host
app = record host {
  tables = tables;
  decode_callback =
      λ callback field arg m s. and_then (λ _. succeed) (reading (pb_read s.bytes_left) m s);
}

read_to_end :
    (n : ℕ) (s : IStream)
    → s.bytes_left ≡ n
    → IsInput s
    → Ends (λ _ t. t.bytes_left ≡ 0) s (pb_read n s)
read_to_end zero s e i = rw (pb_read-zero s) (Reads-refl s, e)
read_to_end (suc k) s e i =
    Safe-Ends (λ _ t. t.bytes_left ≡ 0) s (pb_read (suc k) s) (pb_read-Safe (suc k) s i.0)
      (λ bytes t h r.
        let all = pb_read_enough (suc k) s (omega arith) (omega arith) (omega (arith, i.0)) in
        let same : stream (drop (suc k) s.state) (s.bytes_left - suc k) s.errmsg ≡ t = cc in
        omega (arith, ap (λ u. u.bytes_left) same, e))

app-CallbacksEnd : CallbacksEnd app
app-CallbacksEnd callback field arg m s i =
    and_then-Ends (λ _ t. t.bytes_left ≡ 0) (Progress s) (λ _. succeed) s
      (m, pb_read s.bytes_left s) i (read_to_end s.bytes_left s refl i)
      (λ bytes m' t q r it. (Reads-refl t, λ left. absurd (omega (arith, q, left))))

numbers-IsDecodable : IsDecodable numbers
unfolding pb_ltype
numbers-IsDecodable = record {
  tag_nonzero = λ e. omega (arith, e);
  known = omega arith;
  no_extension = λ e. omega (arith, e);
  sized = omega arith;
}

child-IsDecodable : IsDecodable child
unfolding pb_ltype
child-IsDecodable = record {
  tag_nonzero = λ e. omega (arith, e);
  known = omega arith;
  no_extension = λ e. omega (arith, e);
  sized = omega arith;
}

numbers-Deeper : (P : ℕ → Type 0) → Deeper P numbers
numbers-Deeper P l = absurd (numbers-plain l)

inner-Decodable : Decodable tables 1 1
inner-Decodable = (omega arith, each)
  where
    each :
        (i : ℕ)
        → i < 1
        → IsDecodable (field_at (tables 1) i) × Deeper (Decodable tables 0) (field_at (tables 1) i)
    each zero h = (numbers-IsDecodable, numbers-Deeper (Decodable tables 0))
    each (suc i) h = absurd (omega arith)

outer-Decodable : Decodable tables 2 0
outer-Decodable = (omega arith, each)
  where
    each :
        (i : ℕ)
        → i < 2
        → IsDecodable (field_at (tables 0) i) × Deeper (Decodable tables 1) (field_at (tables 0) i)
    each zero h = (numbers-IsDecodable, numbers-Deeper (Decodable tables 1))
    each (suc zero) h = (child-IsDecodable, λ l. (1, refl, inner-Decodable))
    each (suc (suc i)) h = absurd (omega arith)

-- A submessage with a packed array of two numbers, and a byte behind the end.
abbrev nested_input : IStream
nested_input = stream (18 ∷ 4 ∷ 10 ∷ 2 ∷ 7 ∷ 8 ∷ 255 ∷ []) 6 none

nested_input-IsInput : IsInput nested_input
nested_input-IsInput = (
  omega arith,
  (
    omega arith,
    (omega arith, (omega arith, (omega arith, (omega arith, (omega arith, (omega arith, tt)))))),
  ),
)

pb_decode-Ends_example :
    Ends Any nested_input (pb_decode app 2 0 4096 empty nested_input).1
    × Ends Any nested_input (pb_decode_noinit app 2 0 4096 empty nested_input).1
    × Ends
        (Shorter nested_input)
        nested_input
        (pb_decode_delimited app 2 0 4096 empty nested_input).1
pb_decode-Ends_example =
    pb_decode-Ends app app-CallbacksEnd 2 0 4096 empty nested_input outer-Decodable
      nested_input-IsInput

inner-AllStatic : AllStatic tables 1 1
unfolding pb_atype pb_ltype
inner-AllStatic zero h =
    ((λ e. omega (arith, e)), (λ e. omega (arith, e)), refl, λ l. absurd (omega (arith, l)))
inner-AllStatic (suc i) h = absurd (omega arith)

outer-AllStatic : AllStatic tables 2 0
unfolding pb_atype pb_ltype
outer-AllStatic zero h =
    ((λ e. omega (arith, e)), (λ e. omega (arith, e)), refl, λ l. absurd (omega (arith, l)))
outer-AllStatic (suc zero) h =
    ((λ e. omega (arith, e)), (λ e. omega (arith, e)), refl, λ l. (1, refl, inner-AllStatic))
outer-AllStatic (suc (suc i)) h = absurd (omega arith)

-- What lies behind the struct at 4096, which has 32 bytes.
abbrev Behind : ℕ → Type 0
Behind a = 4128 ≤ a

-- The iterator on the numbers of a message.
abbrev at_first : ℕ → ℕ → FieldIter
at_first table dest = begin_at (tables table) dest

abbrev at_child : FieldIter
at_child = record {
  fields = numbers ∷ child ∷ [];
  pos = 1;
  required_field_index = 0;
  dest_struct = 4096;
  p_data = 4112;
  p_size = 4112;
}

inner_walk : (it : FieldIter) → Walked (at_first 1 4112) it → it ≡ at_first 1 4112
unfolding pb_field_iter_next
inner_walk it Walked.begin = refl
inner_walk it (Walked.step w) = ap (λ i. (pb_field_iter_next i).1) (inner_walk _ w)

outer_walk :
    (it : FieldIter) → Walked (at_first 0 4096) it → (it ≡ at_first 0 4096) ⊎ (it ≡ at_child)
unfolding pb_field_iter_next pb_htype pb_atype
outer_walk it Walked.begin = inl refl
outer_walk it (Walked.step w) = elim (outer_walk _ w) [
  | inl first ↦ inr (ap (λ i. (pb_field_iter_next i).1) first)
  | inr last ↦ inl (ap (λ i. (pb_field_iter_next i).1) last)
]

low-Avoids : (low high : ℕ) → high ≤ 4128 → Avoids Behind low high
low-Avoids low high h a p = inr (omega arith)

numbers-types :
    (pb_atype 0x22 ≡ 0) × (pb_ltype 0x22 ≢ 9) × (pb_htype 0x22 ≢ 0x10) × (pb_htype 0x22 ≢ 0x30)
unfolding pb_atype pb_ltype pb_htype
numbers-types = (refl, (λ e. omega (arith, e)), (λ e. omega (arith, e)), λ e. omega (arith, e))

numbers-Placed :
    (Inner : ℕ → ℕ → Type 0) (it : FieldIter)
    → (current it ≡ numbers)
    → it.p_data + 12 ≤ 4128
    → it.p_size + 4 ≤ 4128
    → Placed Behind Inner it
numbers-Placed Inner it e h k = record {
  static = subst (λ f. pb_atype f.type ≡ 0) (sym e) numbers-types.0;
  no_extension = subst (λ f. pb_ltype f.type ≢ 9) (sym e) numbers-types.1;
  inline =
      subst (λ f. IsInline f it.p_data) (sym e)
        (moved_field numbers 100 it.p_data numbers-IsInline (omega (arith, h)));
  slots = 3;
  some_slot = omega arith;
  enough = subst (λ f. f.array_size ≤ 3) (sym e) (omega arith);
  product = subst (λ f. f.data_size * 3 < 2 ^ 32) (sym e) (omega arith);
  no_wrap = subst (λ f. it.p_data + f.data_size * 3 < 2 ^ 64) (sym e) (omega (arith, h));
  region =
      subst (λ f. Avoids Behind it.p_data (it.p_data + f.data_size * 3)) (sym e)
        (low-Avoids it.p_data (it.p_data + 12) h);
  size = record {
    optional = λ o _. absurd (subst (λ f. pb_htype f.type ≢ 0x10) (sym e) numbers-types.2 o);
    repeated = λ _. low-Avoids it.p_size (it.p_size + 4) k;
    oneof = λ o. absurd (subst (λ f. pb_htype f.type ≢ 0x30) (sym e) numbers-types.3 o);
  };
  nested = λ l. absurd (subst (λ f. pb_ltype f.type ≢ 8) (sym e) numbers-plain l);
}

inner-Layout : Layout Behind tables 1 1 4112
inner-Layout it w =
    subst (Placed Behind (Layout Behind tables 0)) (sym (inner_walk it w))
      (numbers-Placed (Layout Behind tables 0) (at_first 1 4112) refl (omega arith) (omega arith))

child-Placed : Placed Behind (Layout Behind tables 1) at_child
unfolding pb_atype pb_ltype pb_htype
child-Placed = record {
  static = refl;
  no_extension = λ e. omega (arith, e);
  inline = record {
    in_struct = refl;
    nonempty = omega arith;
    four = λ e. absurd (omega (arith, e));
    eight = λ e. absurd (omega (arith, e));
    no_wrap = omega arith;
  };
  slots = 1;
  some_slot = omega arith;
  enough = omega arith;
  product = omega arith;
  no_wrap = omega arith;
  region = low-Avoids 4112 4128 (omega arith);
  size = record {
    optional = λ _ apart. absurd (apart refl);
    repeated = λ e. absurd (omega (arith, e));
    oneof = λ e. absurd (omega (arith, e));
  };
  nested = λ l. (1, refl, inner-Layout, λ index h. absurd (omega (arith, h)));
}

outer-Layout : Layout Behind tables 2 0 4096
outer-Layout it w = elim (outer_walk it w) [
  | inl first ↦
      subst (Placed Behind (Layout Behind tables 1)) (sym first)
        (numbers-Placed (Layout Behind tables 1) (at_first 0 4096) refl (omega arith) (omega arith))
  | inr last ↦ subst (Placed Behind (Layout Behind tables 1)) (sym last) child-Placed
]

app-CountersAvoid : CountersAvoid Behind app 2
app-CountersAvoid d h = low-Avoids 0 4 (omega arith)

pb_decode-Same_example :
    Same Behind empty (pb_decode app 2 0 4096 empty nested_input).0
    × Same Behind empty (pb_decode_noinit app 2 0 4096 empty nested_input).0
    × Same Behind empty (pb_decode_delimited app 2 0 4096 empty nested_input).0
pb_decode-Same_example =
    pb_decode-Same Behind app app-CallbacksEnd 2 0 4096 empty nested_input outer-Decodable
      outer-AllStatic outer-Layout app-CountersAvoid nested_input-IsInput
