-- ===== src/Nanopb/Wire.antt =====
-- FirebaseLogin/Pods/nanopb/pb_decode.c and pb_encode.c: tags, skipped fields, strings with their
-- length in front, and numbers of fixed size.
pub mod Safety
pub mod Eats
pub mod Frame
pub mod RoundTrip
use firebase_login.Base.{
  ℕ, zero, suc, ◌+◌, ◌-◌, ◌*◌, ◌/◌, ◌%◌, ◌^◌, List, [], ◌∷◌, ◌++◌, ltb, ◌==◌, if◌then◌else◌, Bool,
  true, false, bit_or, length,
}
use firebase_login.Nanopb.Istream.{
  IStream, Outcome, done, fail, fault, stuck, continue, return_error, set_error, pb_read,
  invalid_wire_type, parent_stream_too_short,
}
use firebase_login.Nanopb.Ostream.{Emit, ◌>>◌, pb_write}
use firebase_login.Nanopb.Varint.{
  any_more, pb_decode_varint32, pb_decode_varint32_eof, pb_skip_varint, pb_encode_varint,
}

-- `pb_wire_type_t`. A decoder casts any three bits to it, so it is their number.
abbrev pub wt_varint : ℕ
wt_varint = 0

abbrev pub wt_64bit : ℕ
wt_64bit = 1

abbrev pub wt_string : ℕ
wt_string = 2

abbrev pub wt_32bit : ℕ
wt_32bit = 5

unfoldable pub pb_encode_tag : ℕ → ℕ → Emit
pb_encode_tag wiretype field_number =
    pb_encode_varint (bit_or (field_number * 2 ^ 3 % 2 ^ 64) wiretype)

-- What `pb_decode_tag` makes of the number that it read: `*eof`, and the wire type and the tag.
-- A number 0 ends the message.
unfoldable pub split_tag : Bool × Outcome ℕ → Bool × Outcome (ℕ × ℕ)
split_tag (eof, done temp s) =
    if temp == 0 then (true, fail s) else (eof, done (temp % 8, temp / 2 ^ 3) s)
split_tag (eof, fail s) = (eof, fail s)
split_tag (eof, fault) = (eof, fault)
split_tag (eof, stuck) = (eof, stuck)

unfoldable pub pb_decode_tag : IStream → Bool × Outcome (ℕ × ℕ)
unfolding split_tag
pb_decode_tag s = split_tag (pb_decode_varint32_eof false s)

unfoldable pub pb_skip_string : IStream → Outcome (List ℕ)
pb_skip_string s = continue pb_read (pb_decode_varint32 s)

unfoldable pub pb_skip_field : ℕ → IStream → Outcome (List ℕ)
unfolding pb_skip_string
pb_skip_field wire_type s =
    if wire_type == wt_varint
    then pb_skip_varint s
    else if wire_type == wt_64bit
    then pb_read 8 s
    else if wire_type == wt_string
    then pb_skip_string s
    else if wire_type == wt_32bit
    then pb_read 4 s
    else return_error invalid_wire_type s

-- The loop of `read_raw_value` for a varint, where the buffer has room for `room` more bytes.
raw_varint : ℕ → IStream → Outcome (List ℕ)
raw_varint zero s = fail s
raw_varint (suc room) s =
    continue
      (λ bytes s'.
        let more = continue (λ rest. done (bytes ++ rest)) (raw_varint room s') in
        if any_more bytes then more else done bytes s')
      (pb_read 1 s)

-- `read_raw_value`: the bytes in `buf`, whose number is `*size`.
unfoldable pub read_raw_value : ℕ → ℕ → IStream → Outcome (List ℕ)
unfolding raw_varint
read_raw_value wire_type max_size s =
    if wire_type == wt_varint
    then raw_varint max_size s
    else if wire_type == wt_64bit
    then pb_read 8 s
    else if wire_type == wt_32bit
    then pb_read 4 s
    else return_error invalid_wire_type s

-- `pb_make_string_substream`: the substream is the result. The stream gives up the bytes but
-- keeps its position until the substream is closed.
abbrev pub carve : ℕ → IStream → Outcome IStream
carve size s =
    if ltb s.bytes_left size
    then return_error parent_stream_too_short s
    else done (record s { bytes_left = size }) (record s { bytes_left = s.bytes_left - size })

unfoldable pub pb_make_string_substream : IStream → Outcome IStream
pb_make_string_substream s = continue carve (pb_decode_varint32 s)

-- `stream->state = substream->state`, and the message.
abbrev pub adopt : IStream → IStream → IStream
adopt substream s = record s { state = substream.state; errmsg = substream.errmsg }

-- The substream after its last bytes were skipped. If that fails, the stream is left alone.
abbrev pub after_skip : IStream → Outcome (List ℕ) → Outcome (List ℕ)
after_skip s (done bytes t) = done [] (adopt t s)
after_skip s (fail t) = fail s
after_skip s fault = fault
after_skip s stuck = stuck

unfoldable pub pb_close_string_substream : IStream → IStream → Outcome (List ℕ)
pb_close_string_substream substream s =
    if substream.bytes_left == 0
    then done [] (adopt substream s)
    else after_skip s (pb_read substream.bytes_left substream)

-- `status = body(&substream)`, the close, and `return status`.
unfoldable pub close_after {ℓ} : {A : Type ℓ} → IStream → Outcome A → Outcome A
unfolding pb_close_string_substream
close_after s (done a t) = continue (λ _. done a) (pb_close_string_substream t s)
close_after s (fail t) = continue (λ _. fail) (pb_close_string_substream t s)
close_after s fault = fault
close_after s stuck = stuck

-- `pb_decode_delimited` and `pb_decode_delimited_noinit`, over the decoder of the message.
unfoldable pub delimited {ℓ} : {A : Type ℓ} → (IStream → Outcome A) → IStream → Outcome A
unfolding close_after
delimited body s =
    continue (λ substream s'. close_after s' (body substream)) (pb_make_string_substream s)

unfoldable pub pb_encode_string : List ℕ → Emit
pb_encode_string buffer = pb_encode_varint (length buffer) >> pb_write buffer

-- `(uint32_t)bytes[0] << 0 | …`; a byte that is missing cannot occur.
abbrev pub little_endian : ℕ → List ℕ → ℕ → ℕ
little_endian shift [] acc = acc
little_endian shift (b ∷ bytes) acc = little_endian (shift + 8) bytes (bit_or acc (b * 2 ^ shift))

unfoldable pub pb_decode_fixed32 : IStream → Outcome ℕ
pb_decode_fixed32 s = continue (λ bytes. done (little_endian 0 bytes 0)) (pb_read 4 s)

unfoldable pub pb_decode_fixed64 : IStream → Outcome ℕ
pb_decode_fixed64 s = continue (λ bytes. done (little_endian 0 bytes 0)) (pb_read 8 s)

-- The bytes `(val >> 0) & 0xFF`, `(val >> 8) & 0xFF` and on.
abbrev pub bytes_of : ℕ → ℕ → List ℕ
bytes_of zero val = []
bytes_of (suc count) val = (val % 256) ∷ bytes_of count (val / 256)

unfoldable pub pb_encode_fixed32 : ℕ → Emit
pb_encode_fixed32 val = pb_write (bytes_of 4 val)

unfoldable pub pb_encode_fixed64 : ℕ → Emit
pb_encode_fixed64 val = pb_write (bytes_of 8 val)
