-- ===== src/Nanopb/Decode/Static/Within.antt =====
-- The decoding of a field in the struct writes nothing outside of the field and its counter.
use firebase_login.Base.{
  ℕ, zero, suc, ◌+◌, ◌*◌, ◌%◌, ◌^◌, ◌≤◌, ◌<◌, ◌≡◌, ◌≢◌, ◌⊎◌, refl, arith, Bool, true, false, ltb,
  leb, ◌==◌, not, ◌&&◌, if◌then◌else◌,
}
use firebase_login.Nanopb.Istream.{IStream, Outcome, done, fail, fault, stuck}
use firebase_login.Nanopb.Wire.{wt_string, pb_make_string_substream}
use firebase_login.Nanopb.Field.{
  Field, FieldIter, current, pb_ltype, pb_htype, ltype_submessage, htype_required, htype_repeated,
  htype_oneof, add_pointer,
}
use firebase_login.Nanopb.Presence.{htype_optional}
use firebase_login.Nanopb.Encode.{last_packable}
use firebase_login.Nanopb.Memory.{Memory, load_size, store}
use firebase_login.Nanopb.Action.{Host, Change, Action, decoder}
use firebase_login.Nanopb.Action.Same.{
  Avoids, Same, Same-trans, Avoids-part, store-Same, if-Same, Kept, changing-Same, and_then-Same,
  reading-Same,
}
use firebase_login.Nanopb.Action.Within.{IsInline, decoder-Same}
use firebase_login.Nanopb.Defaults.{unchanged}
use firebase_login.Nanopb.Decode.{add_one, item_at, fresh_submessage}
use firebase_login.Nanopb.Decode.Static.{
  whole_array, close_array, packed_loop, decode_packed, decode_static_field,
}

-- The entry at an index lies inside of the array.
pub slot_of :
    (size slots index p : ℕ)
    → index < slots
    → size * slots < 2 ^ 32
    → p + size * slots < 2 ^ 64
    → (add_pointer p (size * index % 2 ^ 32) ≡ p + size * index)
      × (p + size * index + size ≤ p + size * slots)
slot_of size slots index p h product no_wrap =
    let step : size * index + size ≤ size * slots = grind (arith, h) in
    (omega (arith, step, product, no_wrap), omega (arith, step))

pub moved_field :
    (field : Field) (p q : ℕ) → IsInline field p → q + field.data_size < 2 ^ 64 → IsInline field q
moved_field field p q is h = record {
  in_struct = is.in_struct;
  nonempty = is.nonempty;
  four = is.four;
  eight = is.eight;
  no_wrap = h;
}

module _ (P : ℕ → Type 0) where
  whole_array-Same :
      (s t : IStream) (m m' : Memory) (o : Outcome (Unit {0}))
      → Same P m m'
      → Same P m (whole_array s t (m', o)).0
  whole_array-Same s t m m' o h = if-Same P m (not (t.bytes_left == 0)) _ _ (λ _. h) (λ _. h)

  close_array-Same :
      (s : IStream) (m : Memory) (r : Memory × Outcome (Unit {0}))
      → Same P m r.0
      → Same P m (close_array s r).0
  unfolding close_array
  close_array-Same s m (m', done a t) h = whole_array-Same s t m m' (done a t) h
  close_array-Same s m (m', fail t) h = whole_array-Same s t m m' (fail t) h
  close_array-Same s m (m', fault) h = h
  close_array-Same s m (m', stuck) h = h

  cleared-Kept :
      (b : Bool) (c : Change) (m : Memory)
      → (b ≡ true → Kept P m (c m))
      → Kept P m ((if b then c else unchanged) m)
  cleared-Kept true c m h = h refl
  cleared-Kept false c m h = λ a p. refl

  -- What is written at `p_size`: the one byte of an optional field's flag, or the four bytes of a
  -- counter or tag. An array of fixed size has no counter; its `p_size` is its `p_data`, and its
  -- default writes four bytes there.
  pub record AvoidsSize (it : FieldIter) : Type 0 where
    pub optional :
        pb_htype (current it).type ≡ htype_optional
        → it.p_size ≢ it.p_data
        → Avoids P it.p_size (it.p_size + 1)
    pub repeated : pb_htype (current it).type ≡ htype_repeated → Avoids P it.p_size (it.p_size + 4)
    pub oneof : pb_htype (current it).type ≡ htype_oneof → Avoids P it.p_size (it.p_size + 4)

  -- Where the decoder of the field's data keeps `P`, for the field itself and for each entry that
  -- the array has room for, on the streams that are good.
  module _ (Good : IStream → Type 0) (func : Field → ℕ → Action (Unit {0}))
      (defaults : ℕ → ℕ → Change) (it : FieldIter)
      (func_good : (dest : ℕ) (m m' : Memory) (s t : IStream)
        → Good s
        → func (current it) dest m s ≡ (m', done tt t)
        → Good t)
      (substream_good : (s t s' : IStream)
        → Good s
        → pb_make_string_substream s ≡ done t s'
        → Good t)
      (single : (m : Memory) (s : IStream) → Good s → Same P m (func (current it) it.p_data m s).0)
      (entry : (index : ℕ) (m : Memory) (s : IStream)
        → index < (current it).array_size
        → Good s
        → Same P m (func (current it) (item_at (current it) it.p_data index) m s).0) where
    add_one-Same :
        (m : Memory) → Avoids P it.p_size (it.p_size + 4) → Same P m (add_one it.p_size m)
    add_one-Same m counter =
        store-Same P 4 it.p_size ((load_size it.p_size m + 1) % 2 ^ 32) m counter

    packed_loop-Same :
        (rounds : ℕ) (m : Memory) (t : IStream)
        → Avoids P it.p_size (it.p_size + 4)
        → Good t
        → Same P m (packed_loop func defaults rounds it m t).0
    unfolding packed_loop
    packed_loop-Same zero m t counter good = λ a p. refl
    packed_loop-Same (suc rounds) m t counter good =
        let field = current it in
        let index = load_size it.p_size m in
        if-Same P m (ltb 0 t.bytes_left && ltb index field.array_size) _ _
          (λ h.
            and_then-Same P
              (λ _ m' t'. packed_loop func defaults rounds it (add_one it.p_size m') t') m
              (func field (item_at field it.p_data index) m t) (entry index m t (ground arith) good)
              (λ _ m' t' e.
                Same-trans P m' (add_one it.p_size m')
                  (packed_loop func defaults rounds it (add_one it.p_size m') t').0
                  (add_one-Same m' counter)
                  (packed_loop-Same rounds (add_one it.p_size m') t' counter
                    (func_good (item_at field it.p_data index) m m' t t' good e))))
          (λ _ a p. refl)

    decode_packed-Same :
        (m : Memory) (s : IStream)
        → Avoids P it.p_size (it.p_size + 4)
        → Good s
        → Same P m (decode_packed func defaults it m s).0
    unfolding decode_packed
    decode_packed-Same m s counter good =
        reading-Same P
          (λ t m' s'. close_array s' (packed_loop func defaults (suc t.bytes_left) it m' t)) m
          (pb_make_string_substream s)
          (λ t s' e.
            close_array-Same s' m (packed_loop func defaults (suc t.bytes_left) it m t)
              (packed_loop-Same (suc t.bytes_left) m t counter (substream_good s t s' good e)))

    then_func :
        (m m' : Memory) (s : IStream)
        → Good s
        → Same P m m'
        → Same P m (func (current it) it.p_data m' s).0
    then_func m m' s good h =
        Same-trans P m m' (func (current it) it.p_data m' s).0 h (single m' s good)

    marked-Same :
        (b : Bool) (m : Memory)
        → (b ≡ true → Avoids P it.p_size (it.p_size + 1))
        → Same P m (if b then store 1 it.p_size 1 m else m)
    marked-Same true m flag = store-Same P 1 it.p_size 1 m (flag refl)
    marked-Same false m flag = λ a p. refl

    pub static_rule :
        (wire_type : ℕ) (m : Memory) (s : IStream)
        → Good s
        → AvoidsSize it
        → (pb_ltype (current it).type ≡ 8
            → (m' : Memory) → Kept P m' (fresh_submessage defaults (current it) it.p_data m'))
        → Same P m (decode_static_field func defaults wire_type it m s).0
    unfolding decode_static_field
    static_rule wire_type m s good size fresh =
        let field = current it in
        let l = pb_ltype field.type in
        let h = pb_htype field.type in
        let index = load_size it.p_size m in
        let one_more = add_one it.p_size m in
        if-Same P m (h == htype_required) _ _ (λ _. single m s good)
          (λ _.
            if-Same P m (h == htype_optional) _ _
              (λ o. then_func m _ s good (
                marked-Same (not (it.p_size == it.p_data)) m
                  (λ e. size.optional (ground arith) (ground arith))))
              (λ _.
                if-Same P m (h == htype_repeated) _ _
                  (λ r.
                    let counter = size.repeated (ground arith) in
                    if-Same P m (wire_type == wt_string && leb l last_packable) _ _
                      (λ _. decode_packed-Same m s counter good)
                      (λ _.
                        if-Same P m (leb field.array_size index) _ _ (λ _. add_one-Same m counter)
                          (λ room.
                            Same-trans P m one_more
                              (func field (item_at field it.p_data index) one_more s).0
                              (add_one-Same m counter)
                              (entry index one_more s (ground arith) good))))
                  (λ _.
                    if-Same P m (h == htype_oneof) _ _
                      (λ u.
                        changing-Same P
                          (λ _ m' s'. func field it.p_data (store 4 it.p_size field.tag m') s')
                          (if l == ltype_submessage && not (index == field.tag)
                            then fresh_submessage defaults field it.p_data
                            else unchanged)
                          m s
                          (cleared-Kept (l == ltype_submessage && not (index == field.tag))
                            (fresh_submessage defaults field it.p_data) m
                            (λ e. fresh (ground arith) m))
                          (λ m'.
                            then_func m' (store 4 it.p_size field.tag m') s good
                              (store-Same P 4 it.p_size field.tag m' (size.oneof (ground arith)))))
                      (λ _ a p. refl))))

  decode_static_field-Same :
      (host : Host) (submessage : Field → ℕ → Action (Unit {0})) (defaults : ℕ → ℕ → Change)
      (it : FieldIter) (wire_type slots : ℕ) (m : Memory) (s : IStream)
      → pb_ltype (current it).type ≢ 8
      → IsInline (current it) it.p_data
      → 0 < slots
      → (current it).array_size ≤ slots
      → (current it).data_size * slots < 2 ^ 32
      → it.p_data + (current it).data_size * slots < 2 ^ 64
      → Avoids P it.p_data (it.p_data + (current it).data_size * slots)
      → AvoidsSize it
      → Same P m (decode_static_field (decoder host submessage) defaults wire_type it m s).0
  decode_static_field-Same host submessage defaults it wire_type slots m s plain is some_slot enough
        product no_wrap region size =
      let field = current it in
      let (start, whole) = slot_of field.data_size slots 0 0 some_slot product (omega arith) in
      let first : field.data_size ≤ field.data_size * slots = omega (arith, whole) in
      static_rule (λ _. Unit) (decoder host submessage) defaults it (λ dest m' m'' t u good e. tt)
        (λ t u s' good e. tt)
        (λ m' t good.
          decoder-Same P host field it.p_data is
            (Avoids-part P it.p_data (it.p_data + field.data_size * slots) it.p_data
              (it.p_data + field.data_size) region (omega arith) (omega (arith, first)))
            submessage m' t (λ l. absurd (plain l)))
        (λ index m' t h good.
          let (place, inside) =
            slot_of field.data_size slots index it.p_data (omega arith) product no_wrap in
          let p = item_at field it.p_data index in
          decoder-Same P host field p
            (moved_field field it.p_data p is (omega (arith, place, inside, no_wrap)))
            (Avoids-part P it.p_data (it.p_data + field.data_size * slots) p (p + field.data_size)
              region (omega (arith, place)) (omega (arith, place, inside)))
            submessage m' t (λ l. absurd (plain l)))
        wire_type m s tt size (λ l. absurd (plain l))

around : (a low high : ℕ) → (a < low) ⊎ (high ≤ a) → Avoids (λ b. b ≡ a) low high
around a low high h b e = rw e h

-- Let a field of the struct that is no submessage lie with its `slots` entries at `p_data`, in
-- front of the end of memory. Then decode_static_field, on any input and however it ends, leaves
-- every byte outside of this range as it is, but for the one byte of an optional field's flag, if
-- it has one, and the four bytes of a repeated field's counter or of a union's tag.
pub decode_static_field_keeps :
    (host : Host) (submessage : Field → ℕ → Action (Unit {0})) (defaults : ℕ → ℕ → Change)
    (it : FieldIter) (wire_type slots : ℕ) (m : Memory) (s : IStream) (a : ℕ)
    → pb_ltype (current it).type ≢ 8
    → IsInline (current it) it.p_data
    → 0 < slots
    → (current it).array_size ≤ slots
    → (current it).data_size * slots < 2 ^ 32
    → it.p_data + (current it).data_size * slots < 2 ^ 64
    → (a < it.p_data) ⊎ (it.p_data + (current it).data_size * slots ≤ a)
    → (pb_htype (current it).type ≡ htype_optional
        → it.p_size ≢ it.p_data
        → (a < it.p_size) ⊎ (it.p_size + 1 ≤ a))
    → (pb_htype (current it).type ≡ htype_repeated → (a < it.p_size) ⊎ (it.p_size + 4 ≤ a))
    → (pb_htype (current it).type ≡ htype_oneof → (a < it.p_size) ⊎ (it.p_size + 4 ≤ a))
    → (decode_static_field (decoder host submessage) defaults wire_type it m s).0 a ≡ m a
decode_static_field_keeps host submessage defaults it wire_type slots m s a plain is some_slot
      enough product no_wrap region flag counter tag =
    decode_static_field-Same (λ b. b ≡ a) host submessage defaults it wire_type slots m s plain is
      some_slot enough product no_wrap
      (around a it.p_data (it.p_data + (current it).data_size * slots) region)
      (record {
        optional = λ h own. around a it.p_size (it.p_size + 1) (flag h own);
        repeated = λ h. around a it.p_size (it.p_size + 4) (counter h);
        oneof = λ h. around a it.p_size (it.p_size + 4) (tag h);
      })
      a refl
