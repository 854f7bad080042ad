-- ===== src/Nanopb/Wire/Safety.antt =====
-- Skipping and delimited reading end, and read nothing outside of the buffer.
use firebase_login.Base.{
  ℕ, zero, suc, ◌+◌, ◌≤◌, ◌≡◌, arith, List, length, Bool, false, ◌==◌, Bool-cases, inl, inr,
  length-take,
}
use firebase_login.Nanopb.Istream.{
  IStream, Outcome, done, fail, fault, stuck, invalid_wire_type, pb_read,
}
use firebase_login.Nanopb.Istream.Reads.{
  IsValid, Safe, Reads-refl, pb_read-zero, pb_read_enough, pb_read_short, pb_read_outside,
  continue-Safe, pb_read-Safe, set_error-Reads,
}
use firebase_login.Nanopb.Varint.{any_more, pb_decode_varint32_eof, pb_decode_varint32}
use native.Mathlib.Decide.{dec_le}
use firebase_login.Nanopb.Varint.Safety.{
  if-Safe, pb_decode_varint32-Safe, pb_decode_varint32_eof-Safe, pb_skip_varint-Safe,
}
use firebase_login.Nanopb.Wire.{
  pb_skip_string, pb_skip_field, raw_varint, read_raw_value, split_tag, pb_decode_tag,
  pb_decode_fixed32, pb_decode_fixed64, wt_varint, wt_64bit, wt_string, wt_32bit,
}

pub pb_skip_string-Safe : (s : IStream) → IsValid s → Safe s (pb_skip_string s)
unfolding pb_skip_string
pb_skip_string-Safe s v =
    continue-Safe pb_read (pb_decode_varint32 s) v (pb_decode_varint32-Safe s v)
      λ size t _ r vt. pb_read-Safe size t vt

-- `pb_skip_field` ends on every valid stream and every wire type, reads only inside the buffer and
-- only forward.
pub pb_skip_field-Safe :
    (wire_type : ℕ) (s : IStream) → IsValid s → Safe s (pb_skip_field wire_type s)
unfolding pb_skip_field
pb_skip_field-Safe w s v = if-Safe s (w == wt_varint) _ _ (pb_skip_varint-Safe s v) (
    if-Safe s (w == wt_64bit) _ _ (pb_read-Safe 8 s v) (
      if-Safe s (w == wt_string) _ _ (pb_skip_string-Safe s v)
        (if-Safe s (w == wt_32bit) _ _ (pb_read-Safe 4 s v) (set_error-Reads invalid_wire_type s))))

raw_varint-Safe : (room : ℕ) (s : IStream) → IsValid s → Safe s (raw_varint room s)
unfolding raw_varint
raw_varint-Safe zero s v = Reads-refl s
raw_varint-Safe (suc room) s v =
    continue-Safe _ (pb_read 1 s) v (pb_read-Safe 1 s v) λ bytes t _ r vt.
      if-Safe t (any_more bytes) _ _
        (continue-Safe _ (raw_varint room t) vt (raw_varint-Safe room t vt)
          λ rest u _ ru vu. Reads-refl u)
        (Reads-refl t)

-- `read_raw_value` likewise.
pub read_raw_value-Safe :
    (wire_type max_size : ℕ) (s : IStream)
    → IsValid s
    → Safe s (read_raw_value wire_type max_size s)
unfolding read_raw_value
read_raw_value-Safe w max s v = if-Safe s (w == wt_varint) _ _ (raw_varint-Safe max s v) (
    if-Safe s (w == wt_64bit) _ _ (pb_read-Safe 8 s v)
      (if-Safe s (w == wt_32bit) _ _ (pb_read-Safe 4 s v) (set_error-Reads invalid_wire_type s)))

-- What a call has put into a buffer of `room` bytes fits.
abbrev pub Fits : ℕ → Outcome (List ℕ) → Type 0
Fits room (done bytes t) = length bytes ≤ room
Fits room (fail t) = Unit
Fits room fault = Unit
Fits room stuck = Unit

pub pb_read-Fits : (count : ℕ) (s : IStream) → Fits count (pb_read count s)
pb_read-Fits zero s = rw (pb_read-zero s) (omega arith)
pb_read-Fits (suc k) s = elim (dec_le (suc k) s.bytes_left) [
  | no h ↦ rw (pb_read_short (suc k) s (omega arith)) tt
  | yes h ↦ elim (dec_le (suc k) (length s.state)) [
    | yes v ↦
        rw (pb_read_enough (suc k) s (omega arith) h v)
          (omega (arith, length-take (suc k) s.state (omega arith)))
    | no v ↦ rw (pb_read_outside (suc k) s (omega arith) h (omega arith)) tt
  ]
]

-- Of the stream, a call has taken exactly the bytes that it has put into a buffer of `room` bytes,
-- or, if it fails, no more than the buffer has room for.
abbrev pub Taken : ℕ → IStream → Outcome (List ℕ) → Type 0
Taken room s (done bytes t) = (length bytes ≤ room) × (s.bytes_left ≡ length bytes + t.bytes_left)
Taken room s (fail t) = s.bytes_left ≤ t.bytes_left + room
Taken room s fault = ⊥
Taken room s stuck = ⊥

split_tag-Safe :
    (s : IStream) (eof : Bool) (o : Outcome ℕ) → Safe s o → Safe s (split_tag (eof, o)).1
unfolding split_tag
split_tag-Safe s eof (done temp t) h = elim (Bool-cases (temp == 0)) [
  | inl end ↦ rw end h
  | inr tag ↦ rw tag h
]
split_tag-Safe s eof (fail t) h = h
split_tag-Safe s eof fault h = h
split_tag-Safe s eof stuck h = h

-- `pb_decode_tag` ends on every stream.
pub pb_decode_tag-Safe : (s : IStream) → IsValid s → Safe s (pb_decode_tag s).1
unfolding pb_decode_tag
pb_decode_tag-Safe s v =
    split_tag-Safe s (pb_decode_varint32_eof false s).0 (pb_decode_varint32_eof false s).1
      (pb_decode_varint32_eof-Safe false s v)

pub pb_decode_fixed32-Safe : (s : IStream) → IsValid s → Safe s (pb_decode_fixed32 s)
unfolding pb_decode_fixed32
pb_decode_fixed32-Safe s v =
    continue-Safe _ (pb_read 4 s) v (pb_read-Safe 4 s v) λ bytes t _ r vt. Reads-refl t

pub pb_decode_fixed64-Safe : (s : IStream) → IsValid s → Safe s (pb_decode_fixed64 s)
unfolding pb_decode_fixed64
pb_decode_fixed64-Safe s v =
    continue-Safe _ (pb_read 8 s) v (pb_read-Safe 8 s v) λ bytes t _ r vt. Reads-refl t
