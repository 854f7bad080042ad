-- ===== src/Nanopb/Ostream.antt =====
-- FirebaseLogin/Pods/nanopb/pb_encode.c, pb_encode.h and pb.h: output streams, into a buffer or
-- only counting.
pub mod Room
use firebase_login.Base.{
  ℕ, ◌+◌, ◌%◌, ◌^◌, ◌≡◌, List, [], ◌++◌, Option, none, some, ltb, ◌==◌, if◌then◌else◌, Bool, ◌&&◌,
  ◌||◌, not, true, false, length,
}
use firebase_login.Nanopb.Istream.{ErrMsg, stream_full, first_error}

-- The callback: `buf_write`, or NULL for a stream that only counts (PB_OSTREAM_SIZING).
pub data Sink : Type 0 where
  buffer : Sink
  sizing : Sink

-- `state` is what lies in the buffer before the write pointer.
pub record OStream : Type 0 where
  pub callback : Sink
  pub state : List ℕ
  pub max_size : ℕ
  pub bytes_written : ℕ
  pub errmsg : Option ErrMsg

-- A call returns true or false; `overrun` is a write past the end of a local array or a call of NULL,
-- and with `stuck` the model has no rounds left.
pub data Written : Type 0 where
  done : OStream → Written
  fail : OStream → Written
  overrun : Written
  stuck : Written

abbrev pub Emit : Type 0
Emit = OStream → Written

-- What follows a call, by how the call ended.
abbrev pub follow : Written → Emit → Written
follow (done s) k = k s
follow (fail s) k = fail s
follow overrun k = overrun
follow stuck k = stuck

infixl 5 ◌>>◌
abbrev pub ◌>>◌ : Emit → Emit → Emit
◌>>◌ m k s = follow (m s) k

-- Behaviour that C leaves undefined.
abbrev pub undefined : Emit
undefined s = overrun

-- `return true`
abbrev pub succeed : Emit
succeed s = done s

-- PB_RETURN_ERROR
abbrev pub return_error : ErrMsg → Emit
return_error e s = fail (record s { errmsg = first_error s.errmsg e })

abbrev pub is_null : Sink → Bool
is_null sizing = true
is_null buffer = false

-- `size_t` arithmetic, on a 64-bit platform.
abbrev pub add_size : ℕ → ℕ → ℕ
add_size a b = (a + b) % 2 ^ 64

-- `buf_write`: the bytes go behind those that were written.
unfoldable pub buf_write : List ℕ → OStream → OStream
buf_write bytes s = record s { state = s.state ++ bytes }

-- `stream->bytes_written += count`
abbrev pub count_bytes : ℕ → OStream → OStream
count_bytes count s = record s { bytes_written = add_size s.bytes_written count }

-- The test in front of the write.
abbrev pub is_full : OStream → ℕ → Bool
is_full s count =
    ltb (add_size s.bytes_written count) s.bytes_written
    || ltb s.max_size (add_size s.bytes_written count)

-- `pb_write` of the bytes of a buffer. (A counting stream never looks at them.)
unfoldable pub pb_write : List ℕ → Emit
unfolding buf_write
pb_write bytes s =
    let count = length bytes in
    if not (count == 0) && not (is_null s.callback)
    then (if is_full s count
        then return_error stream_full s
        else done (count_bytes count (buf_write bytes s)))
    else done (count_bytes count s)

-- `pb_write` with `buf` NULL, which the code calls on counting streams alone.
unfoldable pub pb_write_null : ℕ → Emit
pb_write_null count s = done (count_bytes count s)

unfoldable pub pb_ostream_from_buffer : ℕ → OStream
pb_ostream_from_buffer bufsize = record {
  callback = buffer;
  state = [];
  max_size = bufsize;
  bytes_written = 0;
  errmsg = none;
}

-- PB_OSTREAM_SIZING
unfoldable pub sizing_stream : OStream
sizing_stream = record {
  callback = sizing;
  state = [];
  max_size = 0;
  bytes_written = 0;
  errmsg = none;
}
