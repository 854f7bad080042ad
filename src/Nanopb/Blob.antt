-- ===== src/Nanopb/Blob.antt =====
-- FirebaseLogin/Pods/nanopb/pb_decode.c and pb_encode.c: byte arrays, strings, and the memory that
-- is taken for them. `realloc` stands for the C library's: whether a request of that many bytes
-- is met.
pub mod Bounds
pub mod RoundTrip
use firebase_login.Base.{
  ℕ, zero, suc, ◌+◌, ◌-◌, ◌*◌, ◌/◌, ◌%◌, ◌^◌, List, [], ◌∷◌, ◌++◌, Option, none, some, ltb, leb,
  ◌==◌, if◌then◌else◌, Bool, true, false, ◌||◌, ◌&&◌, not, length, take, replicate,
}
use firebase_login.Nanopb.Istream.{
  IStream, Outcome, done, fail, fault, stuck, continue, return_error, pb_read, bytes_overflow,
  string_overflow, size_too_large, incorrect_fixed_length, end_of_stream, invalid_size,
  realloc_failed, bytes_size_exceeded,
}
use firebase_login.Nanopb.Ostream
use firebase_login.Nanopb.Ostream.{Emit}
use firebase_login.Nanopb.Varint.{pb_decode_varint32}
use firebase_login.Nanopb.Wire.{pb_encode_string}
use firebase_login.Nanopb.Field.{Field, pb_atype, atype_pointer, atype_static, size_max}

-- Half of the bits of `size_t`, and SIZE_MAX.
abbrev pub check_limit : ℕ
check_limit = 2 ^ 32

abbrev pub max_word : ℕ
max_word = 2 ^ 64 - 1

-- The test of the product's overflow, which divides only where a factor is large.
unfoldable pub too_large : ℕ → ℕ → Bool
too_large data_size array_size =
    (leb check_limit data_size || leb check_limit array_size)
    && ltb (max_word / array_size) data_size

-- `allocate_field`: the result is the number of bytes that were asked for.
unfoldable pub allocate_field : (ℕ → Bool) → ℕ → ℕ → IStream → Outcome ℕ
unfolding too_large
allocate_field realloc data_size array_size s =
    if data_size == 0 || array_size == 0
    then return_error invalid_size s
    else if too_large data_size array_size
    then return_error size_too_large s
    else if realloc (array_size * data_size % 2 ^ 64)
    then done (array_size * data_size % 2 ^ 64) s
    else return_error realloc_failed s

abbrev pub is_pointer : Field → Bool
is_pointer field = pb_atype field.type == atype_pointer

-- PB_BYTES_ARRAY_T_ALLOCSIZE: the array stands behind its 32-bit size.
abbrev pub bytes_alloc_size : ℕ → ℕ
bytes_alloc_size n = (n + 4) % 2 ^ 64

-- `pb_enc_bytes`: the source is NULL, or an array with the size in front of it.
unfoldable pub pb_enc_bytes : Field → Option (List ℕ) → Emit
pb_enc_bytes field none = pb_encode_string []
pb_enc_bytes field (some bytes) =
    let alloc_size = bytes_alloc_size (length bytes) in
    if ltb alloc_size (length bytes)
      || (pb_atype field.type == atype_static && ltb field.data_size alloc_size)
    then Ostream.return_error bytes_size_exceeded
    else pb_encode_string bytes

-- The loop of `pb_enc_string` over the memory behind the source, for `max_size` bytes at most.
abbrev pub text_of : ℕ → List ℕ → List ℕ
text_of zero memory = []
text_of (suc max_size) [] = []
text_of (suc max_size) (c ∷ memory) =
    let rest = text_of max_size memory in if c == 0 then [] else c ∷ rest

unfoldable pub pb_enc_string : Field → Option (List ℕ) → Emit
pb_enc_string field none = pb_encode_string []
pb_enc_string field (some memory) =
    pb_encode_string (text_of (if is_pointer field then length memory else field.data_size) memory)

unfoldable pub pb_enc_fixed_length_bytes : Field → List ℕ → Emit
pb_enc_fixed_length_bytes field bytes = pb_encode_string (take field.data_size bytes)
