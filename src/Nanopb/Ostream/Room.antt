-- ===== src/Nanopb/Ostream/Room.antt =====
-- `pb_write` and the room in the buffer.
use firebase_login.Base.{
  ℕ, ◌+◌, ◌^◌, ◌≤◌, ◌<◌, ◌≡◌, arith, List, [], ◌∷◌, ◌++◌, length, length-append,
}
use native.Mathlib.Decide.{dec_le}
use firebase_login.Nanopb.Istream.{stream_full}
use firebase_login.Nanopb.Ostream.{
  buffer, sizing, OStream, Written, done, fail, overrun, stuck, return_error, pb_write, add_size,
}

-- The count is that of the bytes in the buffer, and they are not more than it holds.
pub record IsWithin (o : OStream) : Type 0 where
  pub counted : length o.state ≡ o.bytes_written
  pub fits : o.bytes_written ≤ o.max_size
  pub word : o.max_size < 2 ^ 64

-- `o` with some bytes more.
abbrev pub extend : OStream → List ℕ → OStream
extend o bytes = record o {
  state = o.state ++ bytes;
  bytes_written = o.bytes_written + length bytes;
}

-- Into a buffer with room for them, the bytes are written.
pub pb_write_room :
    (bytes : List ℕ) (o : OStream)
    → o.callback ≡ buffer
    → 0 < length bytes
    → o.bytes_written + length bytes ≤ o.max_size
    → o.max_size < 2 ^ 64
    → pb_write bytes o ≡ done (extend o bytes)
unfolding pb_write
pb_write_room bytes o b p fits word = ground arith

-- Into a buffer with too little room, nothing is written.
pub pb_write_full :
    (bytes : List ℕ) (o : OStream)
    → o.callback ≡ buffer
    → o.max_size < o.bytes_written + length bytes
    → o.bytes_written ≤ o.max_size
    → o.max_size < 2 ^ 64
    → length bytes < 2 ^ 64
    → pb_write bytes o ≡ return_error stream_full o
unfolding pb_write
pb_write_full bytes o b over fits word short = ground arith

-- A counting stream counts.
pub pb_write_sizing :
    (bytes : List ℕ) (o : OStream)
    → o.callback ≡ sizing
    → pb_write bytes o ≡ done (record o { bytes_written = add_size o.bytes_written (length bytes) })
unfolding pb_write
pb_write_sizing bytes o b = ground arith

-- A call that ends keeps the buffer's bounds, whether it returns true or false.
abbrev pub Keeps : Written → Type 0
Keeps (done o) = IsWithin o
Keeps (fail o) = IsWithin o
Keeps overrun = ⊥
Keeps stuck = ⊥

-- `pb_write` into a buffer keeps the count of its bytes right and within its size, whether the call
-- returns true or false.
pub pb_write-IsWithin :
    (bytes : List ℕ) (o : OStream)
    → o.callback ≡ buffer
    → length bytes < 2 ^ 64
    → IsWithin o
    → Keeps (pb_write bytes o)
pb_write-IsWithin [] o b short w =
    unfold pb_write in record { counted = omega arith; fits = omega arith; word = w.word }
pb_write-IsWithin (x ∷ bytes) o b short w =
    elim (dec_le (o.bytes_written + length (x ∷ bytes)) o.max_size) [
      | yes room ↦ rw (pb_write_room (x ∷ bytes) o b (omega arith) room w.word) (record {
        counted = omega (arith, w, length-append o.state (x ∷ bytes));
        fits = room;
        word = w.word;
      })
      | no full ↦
          rw (pb_write_full (x ∷ bytes) o b (omega arith) w.fits w.word short)
            (record { counted = w.counted; fits = w.fits; word = w.word })
    ]
