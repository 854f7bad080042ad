-- ===== src/Nanopb/Decode/Static.antt =====
-- FirebaseLogin/Pods/nanopb/pb_decode.c: the decoding of a field that lies in the struct.
pub mod Within
pub mod Ends
use firebase_login.Base.{ℕ, zero, suc, ltb, leb, ◌==◌, if◌then◌else◌, not, ◌&&◌}
use firebase_login.Nanopb.Istream.{
  IStream, Outcome, done, fail, fault, stuck, array_overflow, invalid_field_type,
}
use firebase_login.Nanopb.Wire.{wt_string, pb_make_string_substream}
use firebase_login.Nanopb.Field.{
  Field, FieldIter, current, pb_ltype, pb_htype, ltype_submessage, htype_required, htype_repeated,
  htype_oneof,
}
use firebase_login.Nanopb.Presence.{htype_optional}
use firebase_login.Nanopb.Encode.{last_packable}
use firebase_login.Nanopb.Memory.{Memory, load_size, store}
use firebase_login.Nanopb.Action.{Change, Action, and_then, reading, changing, fails}
use firebase_login.Nanopb.Defaults.{unchanged}
use firebase_login.Nanopb.Decode.{add_one, item_at, closing, fresh_submessage}

-- A packed array in the struct has to be read to its end.
abbrev pub whole_array :
    IStream → IStream → Memory × Outcome (Unit {0}) → Memory × Outcome (Unit {0})
whole_array s t (m, status) =
    if not (t.bytes_left == 0) then fails array_overflow m s else closing s (m, status)

unfoldable pub close_array : IStream → Memory × Outcome (Unit {0}) → Memory × Outcome (Unit {0})
close_array s (m, done a t) = whole_array s t (m, done a t)
close_array s (m, fail t) = whole_array s t (m, fail t)
close_array s (m, fault) = (m, fault)
close_array s (m, stuck) = (m, stuck)

-- `func` is the decoder of the field's data, `defaults` is `pb_message_set_to_defaults` for what
-- is nested in the field.
module _ (func : Field → ℕ → Action (Unit {0})) (defaults : ℕ → ℕ → Change) where
  -- The loop over a packed array in the struct. Each entry takes at least one byte.
  unfoldable pub packed_loop : ℕ → FieldIter → Action (Unit {0})
  packed_loop zero it m t = (m, stuck)
  packed_loop (suc rounds) it m t =
      let field = current it in
      let index = load_size it.p_size m in
      if ltb 0 t.bytes_left && ltb index field.array_size
      then and_then (λ _ m' t'. packed_loop rounds it (add_one it.p_size m') t')
          (func field (item_at field it.p_data index) m t)
      else (m, done tt t)

  unfoldable pub decode_packed : FieldIter → Action (Unit {0})
  unfolding packed_loop close_array
  decode_packed it m s =
      and_then (λ t m' s'. close_array s' (packed_loop (suc t.bytes_left) it m' t))
        (reading pb_make_string_substream m s)

  unfoldable pub decode_static_field : ℕ → FieldIter → Action (Unit {0})
  unfolding decode_packed
  decode_static_field wire_type it m s =
      let field = current it in
      let ltype = pb_ltype field.type in
      let htype = pb_htype field.type in
      let index = load_size it.p_size m in
      let one_more = add_one it.p_size m in
      if htype == htype_required
      then func field it.p_data m s
      else if htype == htype_optional
      then func field it.p_data (if not (it.p_size == it.p_data) then store 1 it.p_size 1 m else m)
          s
      else if htype == htype_repeated
      then (if wire_type == wt_string && leb ltype last_packable
          then decode_packed it m s
          else if leb field.array_size index
          then fails array_overflow one_more s
          else func field (item_at field it.p_data index) one_more s)
      else if htype == htype_oneof
      then and_then (λ _ m' s'. func field it.p_data (store 4 it.p_size field.tag m') s')
          (changing
            (if ltype == ltype_submessage && not (index == field.tag)
              then fresh_submessage defaults field it.p_data
              else unchanged)
            m s)
      else fails invalid_field_type m s
