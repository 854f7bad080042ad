-- ===== src/Nanopb/Tests.antt =====
-- Runs of nanopb's functions at concrete inputs.
use firebase_login.Base.{
  ℕ, ◌+◌, ◌*◌, ◌%◌, ◌^◌, ◌<◌, ◌≡◌, ◌≢◌, refl, List, [], ◌∷◌, ◌++◌, none, some, ltb, if◌then◌else◌,
  Bool, false, arith, length, replicate, zero, suc,
}
use firebase_login.Nanopb.Istream.{
  IStream, done, fail, return_error, end_of_stream, integer_too_large, size_too_large,
  realloc_failed, pb_readbyte, set_error,
}
use firebase_login.Nanopb.Istream.Reads.{IsValid, Safe, stream}
use firebase_login.Nanopb.Ostream.{pb_write, pb_ostream_from_buffer, buffer, ◌>>◌}
use firebase_login.Nanopb.Ostream.Room.{IsWithin, Keeps, pb_write-IsWithin}
use firebase_login.Nanopb.Varint.{pb_decode_varint, pb_decode_varint32, pb_encode_varint, zigzag}
use firebase_login.Nanopb.Varint.Encoding.{encoding, pb_encode_varint_lem}
use firebase_login.Nanopb.Varint.RoundTrip.{pb_decode_varint-encoding}
use firebase_login.Nanopb.Varint.Narrow.{pb_decode_varint32-encoding, pb_decode_varint32_wraps}
use firebase_login.Nanopb.Wire.{pb_decode_tag, pb_skip_field, delimited}
use firebase_login.Nanopb.Wire.Safety.{pb_skip_field-Safe}
use firebase_login.Nanopb.Wire.Frame.{delimited_done, delimited_fail}
use firebase_login.Nanopb.Wire.RoundTrip.{pb_decode_tag-encode}
use firebase_login.Nanopb.Field.{Field, field_at, begin_at, pb_field_iter_find, pb_atype}
use firebase_login.Nanopb.Field.Find.{OnField, Answer, pb_field_iter_find-Answer}
use firebase_login.Nanopb.Scalar.{
  pb_enc_varint, pb_dec_varint, pb_enc_svarint, pb_dec_svarint, pb_dec_uvarint,
}
use firebase_login.Nanopb.Scalar.RoundTrip.{
  IntSize, written, pb_dec_varint-enc, pb_dec_svarint-enc, pb_dec_uvarint-encoding,
}
use firebase_login.Nanopb.Blob.{allocate_field, is_pointer, pb_enc_string}
use firebase_login.Nanopb.Blob.Bounds.{allocate_field_lem}
use firebase_login.Nanopb.Blob.RoundTrip.{pb_enc_string_lem}

-- 300 is written as 0xAC 0x02.
abbrev input : IStream
input = stream (0xAC ∷ 0x02 ∷ 7 ∷ []) 3 none

run-pb_decode_varint : pb_decode_varint input ≡ done 300 (stream (7 ∷ []) 1 none)
unfolding pb_decode_varint pb_readbyte
run-pb_decode_varint = refl

input-IsValid : IsValid input
input-IsValid = omega arith

abbrev field_of : ℕ → Field
field_of size = record {
  tag = 1;
  type = 0;
  data_offset = 0;
  size_offset = 0;
  data_size = size;
  array_size = 0;
  ptr = none;
}

field_of-static : is_pointer (field_of 16) ≡ false
unfolding pb_atype
field_of-static = refl

field_of-atype : pb_atype (field_of 16).type ≡ 0
unfolding pb_atype
field_of-atype = refl

pb_dec_varint-enc_example :
    (v : ℕ) × (pb_enc_varint (field_of 1) 200 ≡ pb_write (encoding 9 v))
    × (pb_dec_varint (field_of 1) (written v (7 ∷ []) 1 none) ≡ done v (stream (7 ∷ []) 1 none))
    × (v % 2 ^ 8 ≡ 200)
pb_dec_varint-enc_example =
    pb_dec_varint-enc (field_of 1) IntSize.one (7 ∷ []) 1 none 200 (omega arith)

pb_dec_svarint-enc_example :
    (v : ℕ) × (pb_enc_svarint (field_of 4) 200 ≡ pb_write (encoding 9 (zigzag v)))
    × (pb_dec_svarint (field_of 4) (written (zigzag v) (7 ∷ []) 1 none)
        ≡ done v (stream (7 ∷ []) 1 none))
    × (v % 2 ^ 32 ≡ 200)
pb_dec_svarint-enc_example =
    pb_dec_svarint-enc (field_of 4) IntSize.four (7 ∷ []) 1 none 200 (omega arith)

pb_dec_uvarint-encoding_example : pb_dec_uvarint (field_of 1) (written 300 [] 0 none) ≡ (
    if ltb 300 (2 ^ 8)
    then done 300 (stream [] 0 none)
    else return_error integer_too_large (stream [] 0 none))
pb_dec_uvarint-encoding_example =
    pb_dec_uvarint-encoding (field_of 1) IntSize.one [] 0 none 300 (omega arith)

pb_decode_varint-encoding_example :
    pb_decode_varint (stream (encoding 9 300 ++ (7 ∷ [])) (length (encoding 9 300) + 1) none)
    ≡ done 300 (stream (7 ∷ []) 1 none)
pb_decode_varint-encoding_example = pb_decode_varint-encoding 300 1 (7 ∷ []) none (omega arith)

pb_encode_varint_lem_example : pb_encode_varint 300 ≡ pb_write (encoding 9 300)
pb_encode_varint_lem_example = pb_encode_varint_lem 300 (omega arith)

pb_decode_varint32-encoding_example :
    pb_decode_varint32 (stream (encoding 9 300 ++ (7 ∷ [])) (length (encoding 9 300) + 1) none)
    ≡ done 300 (stream (7 ∷ []) 1 none)
pb_decode_varint32-encoding_example = pb_decode_varint32-encoding 300 1 (7 ∷ []) none (omega arith)

pb_decode_varint32_wraps_example :
    pb_decode_varint32 (stream (replicate 37 0x80 ++ (5 ∷ 7 ∷ [])) (38 + 1) none)
    ≡ done (8 * 5) (stream (7 ∷ []) 1 none)
pb_decode_varint32_wraps_example = pb_decode_varint32_wraps 5 1 (7 ∷ []) none (omega arith)

pb_skip_field-Safe_example : Safe input (pb_skip_field 2 input)
pb_skip_field-Safe_example = pb_skip_field-Safe 2 input input-IsValid

-- A number that does not end in a target of ten bytes.
abbrev endless : IStream
endless = stream (replicate 12 0x80) 12 none

pb_decode_tag-encode_example :
    pb_decode_tag
      (stream (encoding 9 (5 * 8 + 2) ++ (7 ∷ [])) (length (encoding 9 (5 * 8 + 2)) + 1) none)
    ≡ (false, done (2, 5) (stream (7 ∷ []) 1 none))
pb_decode_tag-encode_example =
    pb_decode_tag-encode 2 5 1 (7 ∷ []) none (omega arith) (omega arith) (omega arith)

-- A message that is the number 300, and one that is cut off in a number.
delimited_done_example :
    delimited pb_decode_varint (stream (2 ∷ 0xAC ∷ 0x02 ∷ 7 ∷ []) 4 none)
    ≡ done 300 (stream (7 ∷ []) 1 none)
unfolding pb_decode_varint pb_readbyte encoding
delimited_done_example =
    delimited_done pb_decode_varint (0xAC ∷ 0x02 ∷ []) (7 ∷ []) 1 none (omega arith) 300
      (stream (7 ∷ []) 0 none) refl
      (record { taken = 0xAC ∷ 0x02 ∷ []; front = refl; count = refl })

delimited_fail_example :
    delimited pb_decode_varint (stream (1 ∷ 0xAC ∷ 7 ∷ []) 3 none)
    ≡ fail (stream (7 ∷ []) 1 (some end_of_stream))
unfolding pb_decode_varint pb_readbyte set_error encoding
delimited_fail_example =
    delimited_fail pb_decode_varint (0xAC ∷ []) (7 ∷ []) 1 none (omega arith)
      (stream (7 ∷ []) 0 (some end_of_stream)) refl
      (record { taken = 0xAC ∷ []; front = refl; count = refl })

abbrev table : List Field
table = field_of 4 ∷ record (field_of 8) { tag = 2 } ∷ []

table_tags : (i : ℕ) → i < length table → (field_at table i).tag ≢ 0
table_tags zero h e = cc
table_tags (suc zero) h e = cc
table_tags (suc (suc i)) h e = absurd (omega arith)

table-OnField : OnField (begin_at table 4096)
table-OnField = record { tags = table_tags; inside = omega arith }

pb_field_iter_find-Answer_example : Answer table 2 0 (pb_field_iter_find (begin_at table 4096) 2)
pb_field_iter_find-Answer_example = pb_field_iter_find-Answer 2 (begin_at table 4096) table-OnField

-- Memory for anything below 1000 bytes.
abbrev realloc : ℕ → Bool
realloc n = ltb n 1000

allocate_field_lem_example : allocate_field realloc 16 20 input ≡ (
    if ltb (20 * 16) (2 ^ 64)
    then (if realloc (20 * 16) then done (20 * 16) input else return_error realloc_failed input)
    else return_error size_too_large input)
allocate_field_lem_example = allocate_field_lem realloc 16 20 input (omega arith) (omega arith)

-- The text "ab".
pb_enc_string_lem_example :
    pb_enc_string (field_of 16) (some ((97 ∷ 98 ∷ []) ++ (0 ∷ 5 ∷ [])))
    ≡ (pb_write (encoding 9 2) >> pb_write (97 ∷ 98 ∷ []))
pb_enc_string_lem_example =
    pb_enc_string_lem (field_of 16) field_of-static (97 ∷ 98 ∷ []) (omega arith) (omega arith)
      (5 ∷ []) (λ e. cc, (λ e. cc, tt))

-- Two bytes into a buffer of three.
from_buffer-IsWithin : IsWithin (pb_ostream_from_buffer 3)
unfolding pb_ostream_from_buffer
from_buffer-IsWithin = record { counted = refl; fits = omega arith; word = omega arith }

from_buffer_callback : (pb_ostream_from_buffer 3).callback ≡ buffer
unfolding pb_ostream_from_buffer
from_buffer_callback = refl

pb_write-IsWithin_example : Keeps (pb_write (97 ∷ 98 ∷ []) (pb_ostream_from_buffer 3))
pb_write-IsWithin_example =
    pb_write-IsWithin (97 ∷ 98 ∷ []) (pb_ostream_from_buffer 3) from_buffer_callback (omega arith)
      from_buffer-IsWithin
