-- ===== src/Nanopb/Istream.antt =====
-- FirebaseLogin/Pods/nanopb/pb_decode.c, pb_decode.h and pb.h: input streams over a buffer.
-- The stream's callback is `buf_read`, the one that `pb_istream_from_buffer` installs.
pub mod Reads
use firebase_login.Base.{
  ℕ, ◌-◌, List, [], ◌∷◌, Option, none, some, leb, ltb, ◌==◌, if◌then◌else◌, length, take, drop,
}

-- The texts that the PB_RETURN_ERROR calls put into `errmsg`.
pub data ErrMsg : Type 0 where
  end_of_stream : ErrMsg
  varint_overflow : ErrMsg
  invalid_wire_type : ErrMsg
  parent_stream_too_short : ErrMsg
  invalid_data_size : ErrMsg
  integer_too_large : ErrMsg
  bytes_overflow : ErrMsg
  string_overflow : ErrMsg
  size_too_large : ErrMsg
  incorrect_fixed_length : ErrMsg
  invalid_field_type : ErrMsg
  invalid_size : ErrMsg
  realloc_failed : ErrMsg
  stream_full : ErrMsg
  bytes_size_exceeded : ErrMsg
  array_max_size_exceeded : ErrMsg
  missing_required_field : ErrMsg
  invalid_field_descriptor : ErrMsg
  submsg_size_changed : ErrMsg
  callback_error : ErrMsg
  callback_failed : ErrMsg
  array_overflow : ErrMsg
  too_many_array_entries : ErrMsg
  wrong_size_for_fixed_count_field : ErrMsg
  invalid_union_tag : ErrMsg
  iterator_error : ErrMsg

-- `state` points into memory: it is the list of the bytes from that address to the end of the
-- buffer, which may reach past the `bytes_left` that may still be read.
pub record IStream : Type 0 where
  pub state : List ℕ
  pub bytes_left : ℕ
  pub errmsg : Option ErrMsg

-- How a call ends: it returns true with its result and the stream, it returns false with the
-- stream, it reads outside of the buffer (`fault`), or the model's loop has no rounds left.
pub data Outcome {ℓ} (A : Type ℓ) : Type ℓ where
  done : A → IStream → Outcome A
  fail : IStream → Outcome A
  fault : Outcome A
  stuck : Outcome A

-- A call on a stream; what follows is skipped when it returns false.
abbrev pub Call {ℓ} : Type ℓ → Type ℓ
Call A = IStream → Outcome A

-- What follows a call, by how the call ended.
abbrev pub continue {ℓ κ} : {A : Type ℓ} {B : Type κ} → (A → Call B) → Outcome A → Outcome B
continue f (done a s) = f a s
continue f (fail s) = fail s
continue f fault = fault
continue f stuck = stuck

infixl 5 ◌>>=◌ ◌>>◌
abbrev pub ◌>>=◌ {ℓ κ} : {A : Type ℓ} {B : Type κ} → Call A → (A → Call B) → Call B
◌>>=◌ m f s = continue f (m s)

abbrev pub ◌>>◌ {ℓ κ} : {A : Type ℓ} {B : Type κ} → Call A → Call B → Call B
m >> k = m >>= λ _. k

abbrev pub return {ℓ} : {A : Type ℓ} → A → Call A
return a s = done a s

-- PB_SET_ERROR keeps the first message.
abbrev pub first_error : Option ErrMsg → ErrMsg → Option ErrMsg
first_error none e = some e
first_error (some first) e = some first

unfoldable pub set_error : ErrMsg → IStream → IStream
set_error e s = record s { errmsg = first_error s.errmsg e }

-- PB_RETURN_ERROR
abbrev pub return_error {ℓ} : {A : Type ℓ} → ErrMsg → IStream → Outcome A
return_error e s = fail (set_error e s)

-- `buf_read`: copies `count` bytes and moves the pointer behind them.
unfoldable pub buf_read : ℕ → IStream → Outcome (List ℕ)
buf_read count s =
    if leb count (length s.state)
    then done (take count s.state) (record s { state = drop count s.state })
    else fault

-- `stream->bytes_left -= count`
abbrev pub consume : ℕ → IStream → IStream
consume count s = record s { bytes_left = s.bytes_left - count }

-- With `buf` NULL the caller drops the bytes.
unfoldable pub pb_read : ℕ → IStream → Outcome (List ℕ)
unfolding buf_read set_error
pb_read count s =
    if count == 0
    then done [] s
    else if ltb s.bytes_left count
    then return_error end_of_stream s
    else continue (λ bytes s'. done bytes (consume count s')) (buf_read count s)

abbrev pub next_byte : List ℕ → IStream → Outcome ℕ
next_byte [] s = fault
next_byte (b ∷ rest) s = done b (record s { state = rest })

unfoldable pub pb_readbyte : IStream → Outcome ℕ
unfolding set_error
pb_readbyte s =
    if s.bytes_left == 0
    then return_error end_of_stream s
    else continue (λ b s'. done b (consume 1 s')) (next_byte s.state s)

unfoldable pub pb_istream_from_buffer : List ℕ → ℕ → IStream
pb_istream_from_buffer buf bufsize = record { state = buf; bytes_left = bufsize; errmsg = none }
