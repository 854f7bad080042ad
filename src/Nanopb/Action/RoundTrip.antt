-- ===== src/Nanopb/Action/RoundTrip.antt =====
-- Texts and byte arrays are read back into the field.
use firebase_login.Base.{
  ℕ, ◌+◌, ◌%◌, ◌^◌, ◌≤◌, ◌<◌, ◌≡◌, arith, List, ◌++◌, length, Option, false, le→ltb_false,
}
use firebase_login.Nanopb.Istream.{ErrMsg, done}
use firebase_login.Nanopb.Istream.Reads.{stream}
use firebase_login.Nanopb.Varint.Narrow.{pb_decode_varint32-encoding}
use firebase_login.Nanopb.Field.{Field, size_max, add_pointer}
use firebase_login.Nanopb.Blob.{is_pointer}
use firebase_login.Nanopb.Blob.RoundTrip.{framed, read_text}
use firebase_login.Nanopb.Memory.{Memory, store, write_bytes}
use firebase_login.Nanopb.Action.{Host, read_into, pb_dec_bytes, pb_dec_string}

read_into-text :
    (dest : ℕ) (text rest : List ℕ) (n : ℕ) (e : Option ErrMsg) (m : Memory)
    → read_into dest (length text) m (stream (text ++ rest) (length text + n) e)
      ≡ (write_bytes dest text m, done tt (stream rest n e))
unfolding read_into
read_into-text dest text rest n e m = rw (read_text text rest n e)

module _ (host : Host) (f : Field) (static : is_pointer f ≡ false) (text : List ℕ) where
  -- A text with its length in front is read into a field in the struct that has room for it and its
  -- terminator: the memory has the text and then the terminator at the field and is otherwise as it
  -- was, and the stream is left behind the text.
  pub pb_dec_string-framed :
      (dest : ℕ) (m : Memory) (rest : List ℕ) (n : ℕ) (e : Option ErrMsg)
      → length text < f.data_size
      → f.data_size < 2 ^ 32
      → pb_dec_string host f dest m (framed text rest n e) ≡ (
        store 1 (add_pointer dest (length text)) 0 (write_bytes dest text m),
        done tt (stream rest n e),
      )
  pb_dec_string-framed dest m rest n e fits word =
      let room : (length text + 1) % 2 ^ 32 ≡ length text + 1 = omega arith in
      rw (
        pb_decode_varint32-encoding (length text) (length text + n) (text ++ rest) e (omega arith),
        room,
        le→ltb_false (length text + 1) (length text) (omega arith),
        static,
        le→ltb_false f.data_size (length text + 1) (omega arith),
        read_into-text dest text rest n e m,
      )

  -- A byte array with its length in front is read into a field in the struct that has room for its
  -- size and its bytes: the memory has the size in four bytes and then the bytes at the field and is
  -- otherwise as it was, and the stream is left behind the array.
  pub pb_dec_bytes-framed :
      (dest : ℕ) (m : Memory) (rest : List ℕ) (n : ℕ) (e : Option ErrMsg)
      → length text + 4 ≤ f.data_size
      → f.data_size < 2 ^ 32
      → pb_dec_bytes host f dest m (framed text rest n e) ≡ (
        write_bytes (add_pointer dest 4) text (store 4 dest (length text) m),
        done tt (stream rest n e),
      )
  pb_dec_bytes-framed dest m rest n e fits word =
      let room : (length text + 4) % 2 ^ 64 ≡ length text + 4 = omega arith in
      rw (
        pb_decode_varint32-encoding (length text) (length text + n) (text ++ rest) e (omega arith),
        room,
        le→ltb_false size_max (length text) (omega arith),
        le→ltb_false (length text + 4) (length text) (omega arith),
        static,
        le→ltb_false f.data_size (length text + 4) fits,
        read_into-text (add_pointer dest 4) text rest n e (store 4 dest (length text) m),
      )
