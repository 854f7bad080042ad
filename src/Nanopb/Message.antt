-- ===== src/Nanopb/Message.antt =====
-- FirebaseLogin/Pods/nanopb/pb_encode.c: the encoding of a message's fields.
pub mod Fields
pub mod Uniform
pub mod Sized
mod Tests
use firebase_login.Base.{
  ℕ, zero, suc, ◌+◌, List, [], ◌∷◌, Option, none, some, ◌==◌, if◌then◌else◌, Bool, true, false, not,
  length,
}
use firebase_login.Nanopb.Istream.{callback_error, missing_required_field, invalid_field_type}
use firebase_login.Nanopb.Ostream.{
  OStream, Written, succeed, undefined, done, fail, overrun, stuck, Emit, ◌>>◌, return_error,
  pb_write, sizing_stream,
}
use firebase_login.Nanopb.Field.{
  Field, FieldIter, field_at, current, pb_ltype, pb_htype, pb_atype, ltype_extension,
  htype_required, htype_repeated, htype_oneof, atype_static, atype_pointer, pb_field_iter_begin,
  pb_field_iter_next, add_pointer,
}
use firebase_login.Nanopb.Scalar.{safe_read_bool}
use firebase_login.Nanopb.Blob.{is_pointer}
use firebase_login.Nanopb.Memory.{Memory, load, load_pointer, load_size}
use firebase_login.Nanopb.Encode.{
  Code, encoder, encode_array, pb_encode_tag_for_field, pb_encode_submessage,
}
use firebase_login.Nanopb.Presence.{htype_optional, pb_check_proto3_default_value, has_defaults}

-- PB_ATYPE_CALLBACK
abbrev pub atype_callback : ℕ
atype_callback = 0x40

-- What follows a callback: its failure is reported.
abbrev pub or_callback_error : Written → Written
or_callback_error (done s) = done s
or_callback_error (fail s) = return_error callback_error s
or_callback_error overrun = overrun
or_callback_error stuck = stuck

unfoldable pub reported : Emit → Emit
reported callback s = or_callback_error (callback s)

abbrev pub negated : Option Bool → Option Bool
negated none = none
negated (some b) = some (not b)

module _ (code : Code) (m : Memory) (sub : ℕ → ℕ → Emit) (sub_default : ℕ → ℕ → Option Bool) where
  -- The tag and the data of one value.
  abbrev pub tagged : Field → ℕ → Emit
  tagged field p_data = pb_encode_tag_for_field field >> encoder m sub field p_data

  -- `implicit_has`, before the pointer is followed. It is not read where the struct has a size.
  abbrev pub implicit_has : Field → ℕ → Option Bool
  implicit_has field p_data =
      if not (field.size_offset == 0)
      then some true
      else if pb_htype field.type == htype_optional
      then negated (pb_check_proto3_default_value code m sub_default field p_data)
      else some true

  -- The switch of `encode_basic_field`: `has` is `implicit_has`, `p_size` and `p_data` are the
  -- pointers. Of the local variable, which is no `pb_size_t`, no oneof field may read a tag.
  unfoldable pub by_htype : Field → Bool → ℕ → ℕ → Emit
  by_htype field has p_size p_data =
      let htype = pb_htype field.type in
      let in_struct = not (field.size_offset == 0) in
      if htype == htype_required
      then (if p_data == 0 then return_error missing_required_field else tagged field p_data)
      else if htype == htype_optional
      then (if (if in_struct then safe_read_bool (load 1 p_size m) else has)
          then tagged field p_data
          else succeed)
      else if htype == htype_repeated
      then encode_array m sub field p_data
          (if in_struct then load_size p_size m else field.array_size)
      else if htype == htype_oneof
      then (if not in_struct
          then undefined
          else if load_size p_size m == field.tag
          then tagged field p_data
          else succeed)
      else return_error invalid_field_type

  -- A pointer is followed, and NULL counts as a field that is not there.
  unfoldable pub with_presence : Field → ℕ → Option Bool → Emit
  unfolding by_htype
  with_presence field p_data none = λ s. stuck
  with_presence field p_data (some has) =
      let p_size = add_pointer p_data field.size_offset in
      let target = load_pointer p_data m in
      if is_pointer field
      then by_htype field (not (target == 0)) p_size target
      else by_htype field has p_size p_data

  unfoldable pub encode_basic_field : Field → ℕ → Emit
  unfolding with_presence
  encode_basic_field field p_data = with_presence field p_data (implicit_has field p_data)

  -- A `pb_callback_t` is a function and its argument.
  unfoldable pub encode_callback_field : Field → ℕ → Emit
  unfolding reported
  encode_callback_field field p_data =
      let callback = load_pointer p_data m in
      if callback == 0
      then succeed
      else reported (code.encode_callback callback field (p_data + 8) m)

  unfoldable pub encode_field : Field → ℕ → Emit
  unfolding encode_basic_field encode_callback_field
  encode_field field p_data =
      let atype = pb_atype field.type in
      if atype == atype_static
      then encode_basic_field field p_data
      else if atype == atype_pointer
      then encode_basic_field field p_data
      else if atype == atype_callback
      then encode_callback_field field p_data
      else return_error invalid_field_type

  -- A `pb_extension_t` has its type at 0, its data's address at 8 and the next one at 16; its type
  -- has the decoder at 0, the encoder at 8 and the field's address at 16.
  unfoldable pub default_extension_encoder : ℕ → Emit
  unfolding encode_field
  default_extension_encoder extension =
      let field = field_at (code.tables (load_pointer (load_pointer extension m + 16) m)) 0 in
      if is_pointer field
      then encode_field field (extension + 8)
      else encode_field field (load_pointer (extension + 8) m)

  unfoldable pub extension_loop : ℕ → ℕ → Emit
  unfolding default_extension_encoder
  extension_loop zero extension = λ s. stuck
  extension_loop (suc rounds) extension =
      let encode = load_pointer (load_pointer extension m + 8) m in
      let rest = extension_loop rounds (load_pointer (extension + 16) m) in
      if extension == 0
      then succeed
      else (if encode == 0
          then default_extension_encoder extension
          else code.encode_extension encode extension m)
        >> rest

  unfoldable pub encode_extension_field : ℕ → Emit
  unfolding extension_loop
  encode_extension_field p_data = extension_loop (suc code.links) (load_pointer p_data m)

  -- One field, and the loop of `pb_encode` over the fields.
  unfoldable pub encode_current : FieldIter → Emit
  unfolding encode_extension_field encode_field
  encode_current it =
      if pb_ltype (current it).type == ltype_extension
      then encode_extension_field it.p_data
      else encode_field (current it) it.p_data

  unfoldable pub encode_loop : ℕ → FieldIter → Emit
  unfolding encode_current
  encode_loop zero it = λ s. stuck
  encode_loop (suc rounds) it =
      let (more, it') = pb_field_iter_next it in
      let rest = encode_loop rounds it' in encode_current it >> (if more then rest else succeed)

  unfoldable pub encode_message : ℕ → ℕ → Emit
  unfolding encode_loop
  encode_message fields src_struct =
      let (nonempty, it) = pb_field_iter_begin (code.tables fields) src_struct in
      if nonempty then encode_loop (length (code.tables fields)) it else succeed

-- The size, where the encoding succeeds.
abbrev pub size_of : Written → Option ℕ
size_of (done s) = some s.bytes_written
size_of _ = none

module _ (code : Code) (m : Memory) where
  -- `pb_encode`, for messages that nest less deep than `depth`.
  unfoldable pub pb_encode : ℕ → ℕ → ℕ → Emit
  unfolding encode_message
  pb_encode zero fields src_struct = λ s. stuck
  pb_encode (suc depth) fields src_struct =
      encode_message code m (pb_encode depth) (has_defaults code m depth) fields src_struct

  unfoldable pub pb_encode_delimited : ℕ → ℕ → ℕ → Emit
  unfolding pb_encode
  pb_encode_delimited depth fields src_struct =
      pb_encode_submessage (pb_encode depth fields src_struct)

  unfoldable pub pb_encode_nullterminated : ℕ → ℕ → ℕ → Emit
  unfolding pb_encode
  pb_encode_nullterminated depth fields src_struct =
      pb_encode depth fields src_struct >> pb_write (0 ∷ [])

  unfoldable pub pb_get_encoded_size : ℕ → ℕ → ℕ → Option ℕ
  unfolding pb_encode
  pb_get_encoded_size depth fields src_struct =
      size_of (pb_encode depth fields src_struct sizing_stream)
