-- ===== src/Nanopb/Decode/Pointer.antt =====
-- FirebaseLogin/Pods/nanopb/pb_decode.c: the decoding of a field that the struct points to.
pub mod Ends
use firebase_login.Base.{
  ℕ, zero, suc, ◌+◌, ◌-◌, ◌/◌, ◌%◌, ◌^◌, some, ltb, leb, ◌==◌, if◌then◌else◌, not, ◌&&◌, ◌||◌,
}
use firebase_login.Nanopb.Istream.{
  IStream, Outcome, done, fail, fault, stuck, too_many_array_entries, invalid_field_type,
}
use firebase_login.Nanopb.Wire.{wt_string, pb_make_string_substream}
use firebase_login.Nanopb.Field.{
  Field, FieldIter, current, pb_ltype, pb_htype, ltype_submessage, htype_required, htype_repeated,
  htype_oneof, size_max,
}
use firebase_login.Nanopb.Presence.{htype_optional}
use firebase_login.Nanopb.Encode.{last_packable}
use firebase_login.Nanopb.Memory.{Memory, load_pointer, load_size, store}
use firebase_login.Nanopb.Action.{
  Host, Change, Action, and_then, reading, changing, fails, undefined, allocate_at,
}
use firebase_login.Nanopb.Defaults.{unchanged}
use firebase_login.Nanopb.Decode.{add_one, item_at, closing, fresh_submessage}

-- What follows an entry: the next round, or the close.
abbrev pub go_on :
    (ℕ → Action (Unit {0})) → IStream → Memory × Outcome ℕ → Memory × Outcome (Unit {0})
go_on k s (m, done place t) = k place m t
go_on k s (m, fail t) = closing s (m, fail t)
go_on k s (m, fault) = (m, fault)
go_on k s (m, stuck) = (m, stuck)

-- `func` is the decoder of the field's data, `defaults` is `pb_message_set_to_defaults` for what
-- is nested in the field, and `release` is
-- `pb_release_single_field`.
module _ (host : Host) (func : Field → ℕ → Action (Unit {0})) (defaults : ℕ → ℕ → Change)
    (release : FieldIter → Change) where
  unfoldable pub initialize_pointer_field : Field → ℕ → Change
  initialize_pointer_field field p m =
      let ltype = pb_ltype field.type in
      if ltype == 0x07 || ltype == 0x06
      then some (store 8 p 0 m)
      else if ltype == ltype_submessage
      then fresh_submessage defaults field p m
      else some m

  -- How many entries to take memory for, where `allocated` are not enough.
  abbrev pub more_entries : ℕ → ℕ → ℕ → ℕ
  more_entries data_size bytes_left allocated =
      let remain = (bytes_left - 1) / data_size + 1 in
      if ltb remain ((size_max + 2 ^ 64 - allocated) % 2 ^ 64)
      then (allocated + remain) % 2 ^ 64
      else (allocated + 1) % 2 ^ 64

  -- The memory for a packed array's next entry: the result is the number of entries there is
  -- memory for.
  unfoldable pub make_place : FieldIter → ℕ → Action ℕ
  make_place it allocated m t =
      let data_size = (current it).data_size in
      let wanted = more_entries data_size t.bytes_left allocated in
      if not (ltb allocated (load_size it.p_size m + 1))
      then (m, done allocated t)
      else if data_size == 0
      then undefined m t
      else and_then (λ _ m' t'. (m', done wanted t'))
          (allocate_at host it.p_data data_size wanted m t)

  -- An entry that is initialized and then decoded.
  unfoldable pub new_entry : FieldIter → ℕ → Action (Unit {0})
  unfolding initialize_pointer_field
  new_entry it p m t =
      and_then (λ _ m' t'. func (current it) p m' t')
        (changing (initialize_pointer_field (current it) p) m t)

  -- The entry, keeping the number of places.
  abbrev pub next_entry : FieldIter → ℕ → ℕ → Action ℕ
  next_entry it index place m t =
      and_then (λ _ m' t'. (m', done place t'))
        (new_entry it (item_at (current it) (load_pointer it.p_data m) index) m t)

  -- The loop over a packed array behind a pointer, and the close; each entry takes at least one
  -- byte. The message about too many entries is put into the stream and not into the substream.
  unfoldable pub pointer_loop : ℕ → FieldIter → IStream → ℕ → Action (Unit {0})
  unfolding make_place new_entry
  pointer_loop zero it s allocated m t = (m, stuck)
  pointer_loop (suc rounds) it s allocated m t =
      let index = load_size it.p_size m in
      if t.bytes_left == 0
      then closing s (m, done tt t)
      else if index == size_max
      then closing (record s { errmsg = some too_many_array_entries }) (m, fail t)
      else go_on (λ place m' t'. pointer_loop rounds it s place (add_one it.p_size m') t') s
          (and_then (λ place m' t'. next_entry it index place m' t') (make_place it allocated m t))

  -- One entry at a time.
  unfoldable pub decode_entry : FieldIter → Action (Unit {0})
  unfolding new_entry
  decode_entry it m s =
      let field = current it in
      let index = load_size it.p_size m in
      if index == size_max
      then fails too_many_array_entries m s
      else and_then
          (λ _ m' s'.
            new_entry it (item_at field (load_pointer it.p_data m') index) (add_one it.p_size m')
              s')
          (allocate_at host it.p_data field.data_size (index + 1) m s)

  -- A single value: strings and bytes take their memory themselves.
  unfoldable pub decode_single : FieldIter → Action (Unit {0})
  unfolding new_entry
  decode_single it m s =
      let field = current it in
      let ltype = pb_ltype field.type in
      if ltype == 0x07 || ltype == 0x06
      then func field it.p_data m s
      else and_then (λ _ m' s'. new_entry it (load_pointer it.p_data m') m' s')
          (allocate_at host it.p_data field.data_size 1 m s)

  unfoldable pub decode_pointer_field : ℕ → FieldIter → Action (Unit {0})
  unfolding pointer_loop decode_entry decode_single
  decode_pointer_field wire_type it m s =
      let field = current it in
      let ltype = pb_ltype field.type in
      let htype = pb_htype field.type in
      let is_duplicate = ltype == ltype_submessage && not (load_pointer it.p_data m == 0) in
      if htype == htype_required || htype == htype_optional || htype == htype_oneof
      then and_then
          (λ _ m' s'.
            decode_single it (if htype == htype_oneof then store 4 it.p_size field.tag m' else m')
              s')
          (changing (if is_duplicate then release it else unchanged) m s)
      else if htype == htype_repeated
      then (if wire_type == wt_string && leb ltype last_packable
          then and_then
              (λ t m' s'. pointer_loop (suc t.bytes_left) it s' (load_size it.p_size m') m' t)
              (reading pb_make_string_substream m s)
          else decode_entry it m s)
      else fails invalid_field_type m s
