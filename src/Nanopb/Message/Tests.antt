-- ===== src/Nanopb/Message/Tests.antt =====
-- A message with one number, encoded into a buffer, with witnesses.
use firebase_login.Base.{
  ℕ, zero, suc, ◌+◌, ◌^◌, ◌≤◌, ◌<◌, ◌≡◌, refl, ap, ◌++◌, [], ◌∷◌, length, none, some, arith, ◌==◌,
  if◌then◌else◌,
}
use firebase_login.Nanopb.Ostream.{OStream, done, buffer, sizing_stream, pb_write}
use firebase_login.Nanopb.Ostream.Room.{extend}
use firebase_login.Nanopb.Wire.{pb_encode_tag}
use firebase_login.Nanopb.Varint.{pb_encode_varint}
use firebase_login.Nanopb.Field.{
  Field, pb_ltype, pb_htype, pb_atype, pb_field_iter_begin, pb_field_iter_next,
}
use firebase_login.Nanopb.Memory.{Memory, load}
use firebase_login.Nanopb.Encode.{Code, encoder, pb_encode_tag_for_field}
use firebase_login.Nanopb.Encode.Uniform.{always_writes, Ready, IsFail}
use firebase_login.Nanopb.Encode.Compose.{
  pb_write-Uniform, seq-Uniform, seq_first, if-Uniform, pb_encode_varint-Uniform, succeed-Uniform,
}
use firebase_login.Nanopb.Encode.Values.{
  emit_loaded-Uniform, tag-Uniform, tag_for_field-Uniform, encoder-Uniform,
}
use firebase_login.Nanopb.Varint.Encoding.{encoding}
use firebase_login.Nanopb.Scalar.{load_unsigned, pb_enc_uvarint}
use firebase_login.Nanopb.Message.Fields.{
  IsField, Nests, CallbacksUniform, by_htype-Uniform, tagged-Uniform, with_presence-Uniform,
  encode_field-Uniform,
}
use firebase_login.Nanopb.Message.Uniform.{
  encode_current-Uniform, encode_loop-Uniform, pb_encode-Uniform,
}
use firebase_login.Nanopb.Message.{pb_encode, pb_encode_delimited, pb_get_encoded_size}
use firebase_login.Nanopb.Message.Sized.{
  message_bytes, pb_encode-sized, pb_encode-full, pb_encode_delimited-sized,
}

abbrev number_field : Field
number_field = record {
  tag = 1;
  type = 2;
  data_offset = 0;
  size_offset = 0;
  data_size = 4;
  array_size = 0;
  ptr = none;
}

abbrev code : Code
code = record {
  tables = λ p. number_field ∷ [];
  encode_callback = λ callback field arg m. pb_write (arg ∷ []);
  encode_extension = λ encode extension m. pb_write [];
  links = 0;
}

abbrev memory : Memory
memory a = if a == 100 then 0x2C else if a == 101 then 1 else 0

callbacks : CallbacksUniform code memory
callbacks callback field arg = pb_write-Uniform (arg ∷ [])

number-IsField : IsField number_field
unfolding pb_ltype pb_htype
number-IsField = record {
  tag_word = omega arith;
  tag_nonzero = λ h. omega (arith, h);
  known = omega arith;
  no_extension = λ h. omega (arith, h);
  which = λ h. absurd (omega (arith, h));
}

nests : Nests code.tables 1 1
unfolding pb_ltype
nests zero h = (number-IsField, λ l. absurd (omega (arith, l)))
nests (suc i) h = absurd (omega (arith, h))

bytes_are : message_bytes code memory callbacks 1 1 nests 100 ≡ 0x08 ∷ 0xAC ∷ 0x02 ∷ []
unfolding pb_encode-Uniform encode_loop-Uniform encode_current-Uniform encode_field-Uniform
    by_htype-Uniform tagged-Uniform with_presence-Uniform tag_for_field-Uniform tag-Uniform
    encoder-Uniform emit_loaded-Uniform pb_write-Uniform seq-Uniform seq_first if-Uniform
    pb_encode_varint-Uniform always_writes succeed-Uniform encoding load load_unsigned pb_ltype
    pb_htype pb_atype pb_field_iter_next
bytes_are = refl

is_short : length (message_bytes code memory callbacks 1 1 nests 100) < 2 ^ 62
is_short = omega (arith, ap length bytes_are)

abbrev stream_of : ℕ → OStream
stream_of room = record {
  callback = buffer;
  state = [];
  max_size = room;
  bytes_written = 0;
  errmsg = none;
}

large-Ready : Ready (stream_of 10)
large-Ready = record { sink = refl; fits = omega arith; small = omega arith; clean = refl }

small-Ready : Ready (stream_of 2)
small-Ready = record { sink = refl; fits = omega arith; small = omega arith; clean = refl }

size_is : pb_get_encoded_size code memory 1 1 100 ≡ some 3
unfolding pb_get_encoded_size pb_encode pb_encode_tag_for_field encoder pb_encode_tag
    pb_encode_varint pb_enc_uvarint load_unsigned load sizing_stream pb_write pb_ltype pb_htype
    pb_atype pb_field_iter_begin pb_field_iter_next
size_is = refl

pb_encode-sized_example :
    (pb_encode code memory 1 1 100 (stream_of 10)
      ≡ done (extend (stream_of 10) (message_bytes code memory callbacks 1 1 nests 100)))
    × (length (message_bytes code memory callbacks 1 1 nests 100) ≡ 3)
pb_encode-sized_example =
    pb_encode-sized code memory callbacks 1 1 nests 100 (stream_of 10) 3 is_short large-Ready
      size_is (omega arith)

pb_encode-full_example : IsFail (pb_encode code memory 1 1 100 (stream_of 2))
pb_encode-full_example =
    pb_encode-full code memory callbacks 1 1 nests 100 (stream_of 2) 3 is_short small-Ready size_is
      (omega arith)

delimited_room : 0 + length (encoding 9 3 ++ message_bytes code memory callbacks 1 1 nests 100) ≤ 10
unfolding encoding
delimited_room = omega (arith, ap length bytes_are)

pb_encode_delimited-sized_example :
    pb_encode_delimited code memory 1 1 100 (stream_of 10)
    ≡ done
        (extend (stream_of 10) (encoding 9 3 ++ message_bytes code memory callbacks 1 1 nests 100))
pb_encode_delimited-sized_example =
    pb_encode_delimited-sized code memory callbacks 1 1 nests 100 (stream_of 10) 3 is_short
      large-Ready size_is delimited_room
