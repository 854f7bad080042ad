-- ===== src/Nanopb/Varint/Safety.antt =====
-- The decoding loops end, on every input, and read nothing outside of the buffer.
use firebase_login.Base.{
  ℕ, zero, suc, ◌+◌, ◌*◌, ◌%◌, ◌≤◌, ◌<◌, arith, Bool-cases, inl, inr, leb, ◌==◌, ◌&&◌, not, ◌/◌,
  if◌then◌else◌, true, false, Bool,
}
use firebase_login.Nanopb.Istream.{
  IStream, Outcome, done, fail, fault, stuck, varint_overflow, pb_readbyte, pb_read,
}
use firebase_login.Nanopb.Istream.Reads.{
  IsValid, Safe, Safe-later, Reads-IsValid, pb_readbyte_shorter, pb_read_shorter, Reads-refl,
  continue-Safe, pb_readbyte-Safe, pb_read-Safe, set_error-Reads,
}
use firebase_login.Nanopb.Varint.{
  varint_loop, pb_decode_varint, is_overflow, or_group, has_more, any_more, varint32_loop,
  varint32_rest, after_first_byte, pb_decode_varint32_eof, pb_decode_varint32, skip_loop,
  pb_skip_varint, pb_decode_svarint,
}

-- A choice between two safe ends is safe.
pub if-Safe {ℓ} :
    {A : Type ℓ} (s : IStream) (b : Bool) (o p : Outcome A)
    → Safe s o
    → Safe s p
    → Safe s (if b then o else p)
if-Safe s true o p h k = h
if-Safe s false o p h k = k

pub varint_loop-Safe :
    (rounds bitpos result : ℕ) (s : IStream)
    → IsValid s
    → bitpos ≤ 70
    → 77 ≤ bitpos + 7 * rounds
    → Safe s (varint_loop rounds bitpos result s)
unfolding varint_loop
varint_loop-Safe zero bitpos result s v h k = absurd (omega arith)
varint_loop-Safe (suc rounds) bitpos result s v h k = elim (Bool-cases (leb 64 bitpos)) [
  | inl over ↦ rw over (set_error-Reads varint_overflow s)
  | inr room ↦ rw room (
      continue-Safe _ (pb_readbyte s) v (pb_readbyte-Safe s v) λ byte t _ r vt.
        if-Safe t (has_more byte) _ _
          (varint_loop-Safe rounds (bitpos + 7) (or_group 64 result byte bitpos) t vt (ground arith)
            (omega arith))
          (Reads-refl t))
]

-- `pb_decode_varint` ends on every valid stream, reads only inside the buffer and only forward.
pub pb_decode_varint-Safe : (s : IStream) → IsValid s → Safe s (pb_decode_varint s)
unfolding pb_decode_varint
pb_decode_varint-Safe s v = varint_loop-Safe 11 0 0 s v (omega arith) (omega arith)

varint32_loop-Safe :
    (rounds bitpos result : ℕ) (s : IStream)
    → IsValid s
    → s.bytes_left < rounds
    → Safe s (varint32_loop rounds bitpos result s)
unfolding varint32_loop
varint32_loop-Safe zero bitpos result s v h = absurd (omega arith)
varint32_loop-Safe (suc rounds) bitpos result s v h =
    continue-Safe _ (pb_readbyte s) v (pb_readbyte-Safe s v) λ byte t e r vt.
      let result' : ℕ = if leb 32 bitpos then result else or_group 32 result byte bitpos in
      let bitpos' : ℕ = (bitpos + 7) % 256 in
      if-Safe t (leb 32 bitpos && is_overflow result byte bitpos) _ _
        (set_error-Reads varint_overflow t)
        (if-Safe t (has_more byte) _ _
          (varint32_loop-Safe rounds bitpos' result' t vt
            (omega (arith, pb_readbyte_shorter s byte t e)))
          (if-Safe t (bitpos' == 35 && not (byte / 16 % 8 == 0)) _ _
            (set_error-Reads varint_overflow t) (Reads-refl t)))

varint32_rest-Safe : (byte : ℕ) (s : IStream) → IsValid s → Safe s (varint32_rest byte s)
unfolding varint32_rest
varint32_rest-Safe byte s v =
    if-Safe s (has_more byte) _ _
      (varint32_loop-Safe (suc s.bytes_left) 7 (byte % 128) s v (omega arith)) (Reads-refl s)

eof-Safe :
    (eof : Bool) (s : IStream) (o : Outcome ℕ)
    → IsValid s
    → Safe s o
    → Safe s (after_first_byte eof o).1
unfolding after_first_byte
eof-Safe eof s (done byte t) v r = Safe-later _ r (varint32_rest-Safe byte t (Reads-IsValid r v))
eof-Safe eof s (fail t) v r = r
eof-Safe eof s fault v r = r
eof-Safe eof s stuck v r = r

-- `pb_decode_varint32_eof` ends on every valid stream, reads only inside the buffer and only forward.
pub pb_decode_varint32_eof-Safe :
    (eof : Bool) (s : IStream) → IsValid s → Safe s (pb_decode_varint32_eof eof s).1
unfolding pb_decode_varint32_eof
pb_decode_varint32_eof-Safe eof s v = eof-Safe eof s (pb_readbyte s) v (pb_readbyte-Safe s v)

pub pb_decode_varint32-Safe : (s : IStream) → IsValid s → Safe s (pb_decode_varint32 s)
unfolding pb_decode_varint32
pb_decode_varint32-Safe s v = pb_decode_varint32_eof-Safe false s v

skip_loop-Safe :
    (rounds : ℕ) (s : IStream) → IsValid s → s.bytes_left < rounds → Safe s (skip_loop rounds s)
unfolding skip_loop
skip_loop-Safe zero s v h = absurd (omega arith)
skip_loop-Safe (suc rounds) s v h =
    continue-Safe _ (pb_read 1 s) v (pb_read-Safe 1 s v) λ bytes t e r vt.
      if-Safe t (any_more bytes) _ _
        (skip_loop-Safe rounds t vt (omega (arith, pb_read_shorter 1 s bytes t (omega arith) e)))
        (Reads-refl t)

-- `pb_skip_varint` ends on every stream.
pub pb_skip_varint-Safe : (s : IStream) → IsValid s → Safe s (pb_skip_varint s)
unfolding pb_skip_varint
pb_skip_varint-Safe s v = skip_loop-Safe (suc s.bytes_left) s v (omega arith)

-- `pb_decode_svarint` ends on every stream.
pub pb_decode_svarint-Safe : (s : IStream) → IsValid s → Safe s (pb_decode_svarint s)
unfolding pb_decode_svarint
pb_decode_svarint-Safe s v =
    continue-Safe _ (pb_decode_varint s) v (pb_decode_varint-Safe s v)
      λ value t _ r vt. Reads-refl t
