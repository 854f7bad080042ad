-- ===== src/Nanopb/Scalar.antt =====
-- FirebaseLogin/Pods/nanopb/pb_decode.c and pb_encode.c: the decoders and encoders of numbers.
-- A number in a field of the message struct is its bits; read as 64 bits it is sign-extended.
pub mod RoundTrip
use firebase_login.Base.{
  ℕ, ◌+◌, ◌-◌, ◌*◌, ◌%◌, ◌^◌, Option, none, some, ltb, ◌==◌, if◌then◌else◌, Bool, not,
}
use firebase_login.Nanopb.Istream.{
  IStream, Outcome, done, continue, return_error, invalid_data_size, integer_too_large,
}
use firebase_login.Nanopb.Ostream
use firebase_login.Nanopb.Ostream.{Emit}
use firebase_login.Nanopb.Varint.{
  pb_decode_varint, pb_decode_varint32, pb_decode_svarint, pb_encode_varint, pb_encode_svarint,
}
use firebase_login.Nanopb.Wire.{
  pb_decode_fixed32, pb_decode_fixed64, pb_encode_fixed32, pb_encode_fixed64,
}
use firebase_login.Nanopb.Field.{Field}

-- The 64 bits of the signed number whose `width` bits are `x`.
abbrev pub sign_extend : ℕ → ℕ → ℕ
sign_extend width x = if ltb x (2 ^ (width - 1)) then x else x + 2 ^ 64 - 2 ^ width

-- The cast to the signed type of the field's size, as 64 bits again; the sizes are tested in the
-- code's order.
unfoldable pub cast_signed : ℕ → ℕ → Option ℕ
cast_signed data_size svalue =
    if data_size == 8
    then some svalue
    else if data_size == 4
    then some (sign_extend 32 (svalue % 2 ^ 32))
    else if data_size == 2
    then some (sign_extend 16 (svalue % 2 ^ 16))
    else if data_size == 1
    then some (sign_extend 8 (svalue % 2 ^ 8))
    else none

unfoldable pub cast_unsigned : ℕ → ℕ → Option ℕ
cast_unsigned data_size value =
    if data_size == 8
    then some value
    else if data_size == 4
    then some (value % 2 ^ 32)
    else if data_size == 2
    then some (value % 2 ^ 16)
    else if data_size == 1
    then some (value % 2 ^ 8)
    else none

-- The end of the three decoders: `clamped` is what is stored.
unfoldable pub store_checked : Option ℕ → ℕ → IStream → Outcome ℕ
store_checked none value s = return_error invalid_data_size s
store_checked (some clamped) value s =
    if not (clamped == value) then return_error integer_too_large s else done clamped s

-- The number as the field's size wants it before the cast: at most 32 bits go through `int32_t`.
abbrev pub as_signed : ℕ → ℕ → ℕ
as_signed data_size value = if data_size == 8 then value else sign_extend 32 (value % 2 ^ 32)

unfoldable pub pb_dec_varint : Field → IStream → Outcome ℕ
unfolding cast_signed store_checked
pb_dec_varint field s =
    continue
      (λ value.
        let svalue = as_signed field.data_size value in
        store_checked (cast_signed field.data_size svalue) svalue)
      (pb_decode_varint s)

unfoldable pub pb_dec_uvarint : Field → IStream → Outcome ℕ
unfolding cast_unsigned store_checked
pb_dec_uvarint field s =
    continue (λ value. store_checked (cast_unsigned field.data_size value) value)
      (pb_decode_varint s)

unfoldable pub pb_dec_svarint : Field → IStream → Outcome ℕ
unfolding cast_signed store_checked
pb_dec_svarint field s =
    continue (λ value. store_checked (cast_signed field.data_size value) value)
      (pb_decode_svarint s)

unfoldable pub pb_dec_bool : Field → IStream → Outcome Bool
pb_dec_bool field s = continue (λ value. done (not (value == 0))) (pb_decode_varint32 s)

unfoldable pub pb_dec_fixed32 : Field → IStream → Outcome ℕ
pb_dec_fixed32 field s = pb_decode_fixed32 s

unfoldable pub pb_dec_fixed64 : Field → IStream → Outcome ℕ
pb_dec_fixed64 field s = pb_decode_fixed64 s

-- What the encoders read from a struct's cell, as 64 bits.
unfoldable pub load_signed : ℕ → ℕ → Option ℕ
load_signed data_size cell =
    if data_size == 1
    then some (sign_extend 8 cell)
    else if data_size == 2
    then some (sign_extend 16 cell)
    else if data_size == 4
    then some (sign_extend 32 cell)
    else if data_size == 8
    then some cell
    else none

unfoldable pub load_unsigned : ℕ → ℕ → Option ℕ
load_unsigned data_size cell =
    if data_size == 1
    then some cell
    else if data_size == 2
    then some cell
    else if data_size == 4
    then some cell
    else if data_size == 8
    then some cell
    else none

abbrev pub emit_loaded : (ℕ → Emit) → Option ℕ → Emit
emit_loaded encode none = Ostream.return_error invalid_data_size
emit_loaded encode (some value) = encode value

unfoldable pub pb_enc_varint : Field → ℕ → Emit
unfolding load_signed
pb_enc_varint field cell = emit_loaded pb_encode_varint (load_signed field.data_size cell)

unfoldable pub pb_enc_uvarint : Field → ℕ → Emit
unfolding load_unsigned
pb_enc_uvarint field cell = emit_loaded pb_encode_varint (load_unsigned field.data_size cell)

unfoldable pub pb_enc_svarint : Field → ℕ → Emit
unfolding load_signed
pb_enc_svarint field cell = emit_loaded pb_encode_svarint (load_signed field.data_size cell)

-- `safe_read_bool`: any byte but 0 counts as true. A `bool` is one byte.
unfoldable pub safe_read_bool : ℕ → Bool
safe_read_bool cell = not (cell == 0)

unfoldable pub pb_enc_bool : Field → ℕ → Emit
unfolding safe_read_bool
pb_enc_bool field cell = pb_encode_varint (if safe_read_bool cell then 1 else 0)

unfoldable pub pb_enc_fixed32 : Field → ℕ → Emit
pb_enc_fixed32 field cell = pb_encode_fixed32 cell

unfoldable pub pb_enc_fixed64 : Field → ℕ → Emit
pb_enc_fixed64 field cell = pb_encode_fixed64 cell
