-- ===== src/Nanopb/Encode.antt =====
-- FirebaseLogin/Pods/nanopb/pb_encode.c: a field's tag, the length in front of a submessage, the
-- encoders of a field's data in memory, and arrays.
pub mod Uniform
pub mod Compose
pub mod Values
pub mod Arrays
use firebase_login.Base.{
  ℕ, List, zero, suc, ◌+◌, ◌*◌, ◌%◌, ◌^◌, Option, none, some, leb, ltb, ◌==◌, if◌then◌else◌, Bool,
  true, false, not, ◌||◌, ◌&&◌,
}
use firebase_login.Nanopb.Istream.{
  stream_full, invalid_field_type, invalid_field_descriptor, submsg_size_changed,
  array_max_size_exceeded,
}
use firebase_login.Nanopb.Ostream.{
  OStream, Written, succeed, undefined, done, fail, overrun, stuck, Emit, ◌>>◌, return_error,
  is_null, add_size, pb_write_null, sizing_stream,
}
use firebase_login.Nanopb.Varint.{pb_encode_varint}
use firebase_login.Nanopb.Wire.{wt_varint, wt_64bit, wt_string, wt_32bit, pb_encode_tag}
use firebase_login.Nanopb.Field.{Field, pb_ltype, add_pointer, field_at}
use firebase_login.Nanopb.Scalar.{
  pb_enc_bool, pb_enc_varint, pb_enc_uvarint, pb_enc_svarint, pb_enc_fixed32, pb_enc_fixed64,
}
use firebase_login.Nanopb.Blob.{
  is_pointer, max_word, pb_enc_bytes, pb_enc_string, pb_enc_fixed_length_bytes,
}
use firebase_login.Nanopb.Memory.{Memory, load, load_pointer, load_size, read_bytes, read_text}

-- The data of known size: a stream that only counts needs no more than the size.
unfoldable pub unless_counting : ℕ → Emit → Emit
unless_counting size items s = if is_null s.callback then pb_write_null size s else items s

-- PB_LTYPE_LAST_PACKABLE
abbrev pub last_packable : ℕ
last_packable = 0x05

unfoldable pub pb_encode_tag_for_field : Field → Emit
pb_encode_tag_for_field field =
    let ltype = pb_ltype field.type in
    if leb ltype 0x03
    then pb_encode_tag wt_varint field.tag
    else if ltype == 0x04
    then pb_encode_tag wt_32bit field.tag
    else if ltype == 0x05
    then pb_encode_tag wt_64bit field.tag
    else if ltype == 0x06 || ltype == 0x07 || ltype == 0x08 || ltype == 0x0A
    then pb_encode_tag wt_string field.tag
    else return_error invalid_field_type

-- The stream takes over where the substream has come to.
abbrev pub rejoin : OStream → OStream → OStream
rejoin s t = record s {
  state = t.state;
  bytes_written = add_size s.bytes_written t.bytes_written;
  errmsg = t.errmsg;
}

-- The end of `pb_encode_submessage`, by how the second encoding ended.
unfoldable pub close_sized : ℕ → OStream → Written → Written
close_sized size s (done t) =
    if not (t.bytes_written == size)
    then return_error submsg_size_changed (rejoin s t)
    else done (rejoin s t)
close_sized size s (fail t) =
    if not (t.bytes_written == size)
    then return_error submsg_size_changed (rejoin s t)
    else fail (rejoin s t)
close_sized size s overrun = overrun
close_sized size s stuck = stuck

-- The substream that `pb_encode_submessage` sets up.
abbrev pub sized : ℕ → OStream → OStream
sized size s = record s { max_size = size; bytes_written = 0; errmsg = none }

-- What follows the length.
unfoldable pub write_sized : Emit → ℕ → Emit
unfolding close_sized
write_sized message size s =
    if is_null s.callback
    then pb_write_null size s
    else if ltb s.max_size (add_size s.bytes_written size)
    then return_error stream_full s
    else close_sized size s (message (sized size s))

-- What follows the pass that only counts.
unfoldable pub after_sizing : Emit → Written → Emit
unfolding write_sized
after_sizing message (done t) =
    pb_encode_varint t.bytes_written >> write_sized message t.bytes_written
after_sizing message (fail t) = λ s. fail (record s { errmsg = t.errmsg })
after_sizing message overrun = λ s. overrun
after_sizing message stuck = λ s. stuck

-- `pb_encode_submessage`, over `pb_encode` of the submessage's fields and struct.
unfoldable pub pb_encode_submessage : Emit → Emit
unfolding after_sizing
pb_encode_submessage message = after_sizing message (message sizing_stream)

-- The tables of fields by their addresses, and the functions that the memory points to: a
-- callback takes the field and the address of its argument, an extension's encoder takes the
-- extension's address. No list of extensions has more than `links` entries.
pub record Code : Type 0 where
  pub tables : ℕ → List Field
  pub encode_callback : ℕ → Field → ℕ → Memory → Emit
  pub encode_extension : ℕ → ℕ → Memory → Emit
  pub links : ℕ

-- A `pb_bytes_array_t`, and a text: as much of the memory as the encoder looks at.
abbrev pub bytes_at : ℕ → Memory → Option (List ℕ)
bytes_at src m = if src == 0 then none else some (read_bytes (load_size src m) (src + 4) m)

abbrev pub text_at : Field → ℕ → Memory → Option (List ℕ)
text_at field src m =
    let limit = if is_pointer field then max_word else field.data_size in
    if src == 0
    then none
    else if is_pointer field
    then some (read_text limit src m)
    else some (read_bytes limit src m)

-- `pb_enc_submessage`; `sub` is `pb_encode` for a table of fields and a struct.
unfoldable pub pb_enc_submessage : (ℕ → ℕ → Emit) → Field → ℕ → Emit
unfolding pb_encode_submessage
pb_enc_submessage sub field src = elim field.ptr [
  | none ↦ return_error invalid_field_descriptor
  | some fields ↦ pb_encode_submessage (sub fields src)
]

module _ (m : Memory) (sub : ℕ → ℕ → Emit) where
  -- PB_ENCODERS, indexed by the field's type. Its entry for extensions is NULL.
  unfoldable pub encoder : Field → ℕ → Emit
  unfolding pb_enc_submessage
  encoder field src =
      let ltype = pb_ltype field.type in
      if ltype == 0x00
      then pb_enc_bool field (load 1 src m)
      else if ltype == 0x01
      then pb_enc_varint field (load field.data_size src m)
      else if ltype == 0x02
      then pb_enc_uvarint field (load field.data_size src m)
      else if ltype == 0x03
      then pb_enc_svarint field (load field.data_size src m)
      else if ltype == 0x04
      then pb_enc_fixed32 field (load 4 src m)
      else if ltype == 0x05
      then pb_enc_fixed64 field (load 8 src m)
      else if ltype == 0x06
      then pb_enc_bytes field (bytes_at src m)
      else if ltype == 0x07
      then pb_enc_string field (text_at field src m)
      else if ltype == 0x08
      then pb_enc_submessage sub field src
      else if ltype == 0x0A
      then pb_enc_fixed_length_bytes field (read_bytes field.data_size src m)
      else undefined

  -- The loop over the entries of a packed array.
  unfoldable pub packed_items : Field → ℕ → ℕ → Emit
  unfolding encoder
  packed_items field zero p = succeed
  packed_items field (suc count) p =
      encoder field p >> packed_items field count (add_pointer p field.data_size)

  -- The data of an entry: the entries of a pointer's strings and byte arrays are pointers.
  abbrev pub entry_data : Field → ℕ → ℕ
  entry_data field p =
      if is_pointer field && (pb_ltype field.type == 0x07 || pb_ltype field.type == 0x06)
      then load_pointer p m
      else p

  unfoldable pub unpacked_items : Field → ℕ → ℕ → Emit
  unfolding encoder
  unpacked_items field zero p = succeed
  unpacked_items field (suc count) p =
      pb_encode_tag_for_field field
      >> encoder field (entry_data field p)
      >> unpacked_items field count (add_pointer p field.data_size)

  -- The array's length and its entries, where the length is known.
  abbrev pub packed_data : Field → ℕ → ℕ → ℕ → Emit
  packed_data field p count size =
      pb_encode_varint size >> unless_counting size (packed_items field count p)

  -- The same after the pass that only counts; its message is not passed on.
  abbrev pub packed_counted : Field → ℕ → ℕ → Written → Emit
  packed_counted field p count (done t) = packed_data field p count t.bytes_written
  packed_counted field p count (fail t) = λ s. fail s
  packed_counted field p count overrun = λ s. overrun
  packed_counted field p count stuck = λ s. stuck

  unfoldable pub encode_array : Field → ℕ → ℕ → Emit
  unfolding packed_items unpacked_items unless_counting
  encode_array field p count =
      let ltype = pb_ltype field.type in
      if count == 0
      then succeed
      else if not (is_pointer field) && ltb field.array_size count
      then return_error array_max_size_exceeded
      else if leb ltype last_packable
      then (pb_encode_tag wt_string field.tag
          >> (if ltype == 0x04
              then packed_data field p count (4 * count % 2 ^ 64)
              else if ltype == 0x05
              then packed_data field p count (8 * count % 2 ^ 64)
              else packed_counted field p count (packed_items field count p sizing_stream)))
      else unpacked_items field count p
