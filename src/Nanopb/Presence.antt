-- ===== src/Nanopb/Presence.antt =====
-- FirebaseLogin/Pods/nanopb/pb_encode.c: whether a field of a proto3 message has its default value.
use firebase_login.Base.{
  ℕ, zero, suc, Option, none, some, ltb, ◌==◌, if◌then◌else◌, Bool, true, false, not, ◌&&◌, length,
  List, [], ◌∷◌,
}
use firebase_login.Nanopb.Field.{
  Field, FieldIter, current, pb_ltype, pb_htype, htype_required, htype_repeated, htype_oneof,
  pb_field_iter_begin, pb_field_iter_next, add_pointer, pb_atype, atype_static,
}
use firebase_login.Nanopb.Scalar.{safe_read_bool}
use firebase_login.Nanopb.Blob.{is_pointer}
use firebase_login.Nanopb.Memory.{Memory, load, load_pointer, load_size, read_bytes}
use firebase_login.Nanopb.Encode.{Code, last_packable}

abbrev pub htype_optional : ℕ
htype_optional = 0x10

abbrev pub is_static : Field → Bool
is_static field = pb_atype field.type == atype_static

abbrev all_zero : List ℕ → Bool
all_zero [] = true
all_zero (b ∷ bytes) = b == 0 && all_zero bytes

-- `none` is the end of the model's rounds or depth.
abbrev pub and_then : Option Bool → Option Bool → Option Bool
and_then none rest = none
and_then (some false) rest = some false
and_then (some true) rest = rest

module _ (code : Code) (m : Memory) where
  -- `sub` is the loop over the fields of a submessage.
  module _ (sub : ℕ → ℕ → Option Bool) where
    -- The rest is for proto3 fields that are no arrays.
    abbrev pub singular_default : Field → ℕ → Option Bool
    singular_default field p_data =
        let ltype = pb_ltype field.type in
        let bytewise = all_zero (read_bytes field.data_size p_data m) in
        let is_string = ltype == 0x07 in
        if is_static field && ltype == 0x06
        then some (load_size p_data m == 0)
        else if is_static field && is_string
        then some (load 1 p_data m == 0)
        else if is_static field && ltype == 0x0A
        then some (field.data_size == 0)
        else if is_static field && ltype == 0x08
        then elim field.ptr [ none ↦ none | some fields ↦ sub fields p_data ]
        else if is_pointer field && ltb last_packable ltype
        then some (load_pointer p_data m == 0)
        else some bytewise

    unfoldable pub pb_check_proto3_default_value : Field → ℕ → Option Bool
    pb_check_proto3_default_value field p_data =
        let htype = pb_htype field.type in
        let p_size = add_pointer p_data field.size_offset in
        let has_size = not (field.size_offset == 0) in
        if htype == htype_required
        then some false
        else if htype == htype_repeated && has_size
        then some (load_size p_size m == 0)
        else if htype == htype_repeated && is_static field
        then some false
        else if htype == htype_oneof
        then some (load_size p_size m == 0)
        else if htype == htype_optional && has_size
        then some (not (safe_read_bool (load 1 p_size m)))
        else singular_default field p_data

    -- The loop over a submessage's fields.
    unfoldable pub default_loop : ℕ → FieldIter → Option Bool
    unfolding pb_check_proto3_default_value
    default_loop zero it = none
    default_loop (suc rounds) it =
        let (more, it') = pb_field_iter_next it in
        let rest = default_loop rounds it' in
        and_then (pb_check_proto3_default_value (current it) it.p_data)
          (if more then rest else some true)

  -- Whether all fields of a message have their defaults, for messages that nest less deep than
  -- `depth`.
  unfoldable pub has_defaults : ℕ → ℕ → ℕ → Option Bool
  unfolding default_loop
  has_defaults zero fields p_data = none
  has_defaults (suc depth) fields p_data =
      let (nonempty, it) = pb_field_iter_begin (code.tables fields) p_data in
      if nonempty
      then default_loop (has_defaults depth) (length (code.tables fields)) it
      else some true
