-- ===== src/Nanopb/Decode/Static/Ends.antt =====
-- The decoding of a field in the struct ends.
use firebase_login.Base.{
  ℕ, zero, suc, ◌<◌, ◌≡◌, sym, subst, refl, arith, some, ltb, leb, ◌==◌, not, ◌&&◌, if◌then◌else◌,
}
use firebase_login.Nanopb.Istream.{
  IStream, Outcome, done, fail, fault, stuck, array_overflow, invalid_field_type,
}
use firebase_login.Nanopb.Istream.Reads.{Reads-refl}
use firebase_login.Nanopb.Wire.{wt_string}
use firebase_login.Nanopb.Field.{
  Field, FieldIter, current, pb_ltype, pb_htype, ltype_submessage, htype_required, htype_repeated,
  htype_oneof,
}
use firebase_login.Nanopb.Presence.{htype_optional}
use firebase_login.Nanopb.Encode.{last_packable}
use firebase_login.Nanopb.Memory.{Memory, load_size, store}
use firebase_login.Nanopb.Action.{Change, Action}
use firebase_login.Nanopb.Action.Ends.{
  IsInput, Ends, Any, Shorter, Total, IsMade, if-Total, if-Ends, and_then-Ends, changing-Ends,
  weaken-Ends, set_error-Keeps,
}
use firebase_login.Nanopb.Defaults.{unchanged, memset_zero}
use firebase_login.Nanopb.Decode.{add_one, item_at, fresh_submessage, defaults_at}
use firebase_login.Nanopb.Decode.Static.{
  whole_array, close_array, packed_loop, decode_packed, decode_static_field,
}
use firebase_login.Nanopb.Decode.Substream.{Carved, Carved-Keeps, substream-Ends, close_after-Ends}

module _ (s t s' : IStream) (i : IsInput t) (c : Carved s t s') where
  whole_array-Ends :
      (u : IStream) (m : Memory) (o : Outcome (Unit {0}))
      → Ends Any t o
      → Ends Any s (whole_array s' u (m, o)).1
  whole_array-Ends u m o h =
      if-Ends Any s (not (u.bytes_left == 0)) _ _
        (λ _.
          let k = Carved-Keeps s t s' c in
          let e = set_error-Keeps array_overflow s' in omega (arith, k, e))
        (λ _.
          weaken-Ends (Shorter s) Any s _ (close_after-Ends s t s' s' i c refl Any o h)
            (λ a u r q. tt))

  close_array-Ends :
      (r : Memory × Outcome (Unit {0})) → Ends Any t r.1 → Ends Any s (close_array s' r).1
  unfolding close_array
  close_array-Ends (m, done a u) h = whole_array-Ends u m (done a u) h
  close_array-Ends (m, fail u) h = whole_array-Ends u m (fail u) h
  close_array-Ends (m, fault) h = h
  close_array-Ends (m, stuck) h = h

-- What a field nests gets its default values.
abbrev pub NestedTotal : (ℕ → ℕ → Change) → Field → Type 0
NestedTotal defaults field =
    pb_ltype field.type ≡ 8
    → (p : ℕ) × (field.ptr ≡ some p) × ((dest : ℕ) → Total (defaults p dest))

pub fresh-Total :
    (defaults : ℕ → ℕ → Change) (field : Field) (dest : ℕ)
    → NestedTotal defaults field
    → pb_ltype field.type ≡ 8
    → Total (fresh_submessage defaults field dest)
fresh-Total defaults field dest nested l m =
    let (p, e, total) = nested l in
    let zeroed = memset_zero dest field.data_size m in
    subst (λ ptr. IsMade (defaults_at defaults ptr dest zeroed)) (sym e) (total dest zeroed)

module _ (func : Field → ℕ → Action (Unit {0})) (defaults : ℕ → ℕ → Change) (it : FieldIter)
    (eats : (dest : ℕ) (m : Memory) (s : IStream)
      → IsInput s
      → Ends (Shorter s) s (func (current it) dest m s).1)
    (nested : NestedTotal defaults (current it)) where
  packed_loop-Ends :
      (rounds : ℕ) (m : Memory) (t : IStream)
      → IsInput t
      → t.bytes_left < rounds
      → Ends Any t (packed_loop func defaults rounds it m t).1
  unfolding packed_loop
  packed_loop-Ends zero m t i h = absurd (omega arith)
  packed_loop-Ends (suc rounds) m t i h =
      let index = load_size it.p_size m in
      let field = current it in
      if-Ends Any t (ltb 0 t.bytes_left && ltb index field.array_size) _ _
        (λ _.
          and_then-Ends (Shorter t) Any
            (λ _ m' t'. packed_loop func defaults rounds it (add_one it.p_size m') t') t
            (func field (item_at field it.p_data index) m t) i
            (eats (item_at field it.p_data index) m t i)
            (λ a m' u q r iu.
              packed_loop-Ends rounds (add_one it.p_size m') u iu (omega (arith, q))))
        (λ _. (Reads-refl t, tt))

  decode_packed-Ends :
      (m : Memory) (s : IStream) → IsInput s → Ends Any s (decode_packed func defaults it m s).1
  unfolding decode_packed
  decode_packed-Ends m s i =
      substream-Ends Any
        (λ t m' s'. close_array s' (packed_loop func defaults (suc t.bytes_left) it m' t)) m s i
        (λ t s' c it'.
          close_array-Ends s t s' it' c (packed_loop func defaults (suc t.bytes_left) it m t)
            (packed_loop-Ends (suc t.bytes_left) m t it' (omega arith)))

  value-Ends :
      (dest : ℕ) (m : Memory) (s : IStream) → IsInput s → Ends Any s (func (current it) dest m s).1
  value-Ends dest m s i =
      weaken-Ends (Shorter s) Any s (func (current it) dest m s).1 (eats dest m s i) (λ a u r q. tt)

  -- The decoding of a field in the struct ends, if that of its data ends and takes something.
  pub decode_static_field-Ends :
      (wire_type : ℕ) (m : Memory) (s : IStream)
      → IsInput s
      → Ends Any s (decode_static_field func defaults wire_type it m s).1
  unfolding decode_static_field
  decode_static_field-Ends wire_type m s i =
      let field = current it in
      let l = pb_ltype field.type in
      let h = pb_htype field.type in
      let index = load_size it.p_size m in
      let one_more = add_one it.p_size m in
      if-Ends Any s (h == htype_required) _ _ (λ _. value-Ends it.p_data m s i)
        (λ _.
          if-Ends Any s (h == htype_optional) _ _
            (λ _.
              value-Ends it.p_data
                (if not (it.p_size == it.p_data) then store 1 it.p_size 1 m else m) s i)
            (λ _.
              if-Ends Any s (h == htype_repeated) _ _
                (λ _.
                  if-Ends Any s (wire_type == wt_string && leb l last_packable) _ _
                    (λ _. decode_packed-Ends m s i)
                    (λ _.
                      if-Ends Any s (leb field.array_size index) _ _
                        (λ _. set_error-Keeps array_overflow s)
                        (λ _. value-Ends (item_at field it.p_data index) one_more s i)))
                (λ _.
                  if-Ends Any s (h == htype_oneof) _ _
                    (λ _.
                      changing-Ends Any
                        (if l == ltype_submessage && not (index == field.tag)
                          then fresh_submessage defaults field it.p_data
                          else unchanged)
                        (λ _ m' s'. func field it.p_data (store 4 it.p_size field.tag m') s') m s
                        (if-Total (l == ltype_submessage && not (index == field.tag)) _ _
                          (λ e. fresh-Total defaults field it.p_data nested (ground arith))
                          (λ _ m'. tt))
                        (λ m'. value-Ends it.p_data (store 4 it.p_size field.tag m') s i))
                    (λ _. set_error-Keeps invalid_field_type s))))
