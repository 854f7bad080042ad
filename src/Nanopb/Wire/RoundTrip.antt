-- ===== src/Nanopb/Wire/RoundTrip.antt =====
-- Tags, strings and numbers of fixed size are read back.
use firebase_login.Base.{
  ℕ, zero, suc, ◌+◌, ◌*◌, ◌/◌, ◌%◌, ◌^◌, ◌<◌, ◌≡◌, refl, ap, arith, List, ◌++◌, length, false, ◌∙◌,
  Option, bit_or, ◌==◌, drop-length_append, length-append, take-length_append,
}
use firebase_login.Base.Bits.{shifted-bit_or, bit_or_shifted}
use native.Mathlib.Nat.{div-add-mod}
use native.Mathlib.Numerals.{towards_suc}
use firebase_login.Nanopb.Istream.{
  IStream, Outcome, done, fail, fault, stuck, ErrMsg, pb_read, continue, pb_readbyte,
}
use firebase_login.Nanopb.Istream.Reads.{stream, pb_read_enough}
use firebase_login.Nanopb.Ostream.{pb_write}
use firebase_login.Nanopb.Varint.{
  pb_encode_varint, pb_decode_varint32, pb_decode_varint32_eof, after_first_byte,
}
use firebase_login.Nanopb.Varint.Encoding.{encoding, pb_encode_varint_lem}
use firebase_login.Nanopb.Varint.Narrow.{pb_decode_varint32-encoding}
use firebase_login.Nanopb.Wire.{
  pb_encode_tag, split_tag, pb_decode_tag, little_endian, bytes_of, pb_decode_fixed32,
  pb_decode_fixed64,
}

-- For a wire type below 8 and a 32-bit field number, `pb_encode_tag` writes the encoding of
-- `8 * field_number + wiretype`.
pub pb_encode_tag_lem :
    (w f : ℕ) → w < 8 → f < 2 ^ 32 → pb_encode_tag w f ≡ pb_write (encoding 9 (f * 8 + w))
unfolding pb_encode_tag
pb_encode_tag_lem w f hw hf =
    let fits : f * 2 ^ 3 % 2 ^ 64 ≡ f * 2 ^ 3 = omega arith in
    ap pb_encode_varint (ap (λ x. bit_or x w) fits ∙ shifted-bit_or 3 f w hw)
    ∙ pb_encode_varint_lem (f * 8 + w) (omega arith)

-- A read that succeeds leaves `*eof` alone.
eof_kept :
    (o : Outcome ℕ) (v : ℕ) (t : IStream)
    → (after_first_byte false o).1 ≡ done v t
    → after_first_byte false o ≡ (false, done v t)
unfolding after_first_byte
eof_kept (done byte s) v t h = ap (λ x. (false, x)) h
eof_kept (fail s) v t h = cc
eof_kept fault v t h = cc
eof_kept stuck v t h = cc

eof-encoding :
    (v n : ℕ) (rest : List ℕ) (e : Option ErrMsg)
    → v < 2 ^ 32
    → pb_decode_varint32_eof false (stream (encoding 9 v ++ rest) (length (encoding 9 v) + n) e)
      ≡ (false, done v (stream rest n e))
unfolding pb_decode_varint32_eof pb_decode_varint32
eof-encoding v n rest e h =
    let s : IStream = stream (encoding 9 v ++ rest) (length (encoding 9 v) + n) e in
    eof_kept (pb_readbyte s) v (stream rest n e) (pb_decode_varint32-encoding v n rest e h)

not_end : (tag : ℕ) → 0 < tag → (tag == 0) ≡ false
not_end tag h = ground arith

low_bits : (f w : ℕ) → w < 8 → (f * 8 + w) % 8 ≡ w
low_bits f w h = omega arith

high_bits : (f w : ℕ) → w < 8 → (f * 8 + w) / 8 ≡ f
high_bits f w h = omega arith

-- `pb_decode_tag` reads the wire type and the field number of an encoded tag back, for a field number
-- that is not 0 and has no more than 29 bits.
pub pb_decode_tag-encode :
    (w f n : ℕ) (rest : List ℕ) (e : Option ErrMsg)
    → w < 8
    → 0 < f
    → f < 2 ^ 29
    → pb_decode_tag
        (stream (encoding 9 (f * 8 + w) ++ rest) (length (encoding 9 (f * 8 + w)) + n) e)
      ≡ (false, done (w, f) (stream rest n e))
unfolding pb_decode_tag
pb_decode_tag-encode w f n rest e hw pos hf =
    ap split_tag (eof-encoding (f * 8 + w) n rest e (omega arith))
    ∙ rw (not_end (f * 8 + w) (omega arith), low_bits f w hw, high_bits f w hw)

shift_eight : (s : ℕ) → 2 ^ (s + 8) ≡ 2 ^ s * 256
shift_eight s = simp towards_suc (omega arith)

split_byte : (v s : ℕ) → v * 2 ^ s ≡ v % 256 * 2 ^ s + v / 256 * 2 ^ (s + 8)
split_byte v s = omega (
  arith,
  ap (λ (t : ℕ). t * 2 ^ s) (div-add-mod v 256),
  ap (λ (t : ℕ). v / 256 * t) (shift_eight s),
)

below_next : (t acc b : ℕ) → acc < t → b < 256 → acc + b * t < t * 256
below_next t acc b h hb = grind arith

little_endian-bytes_of :
    (count shift v acc : ℕ)
    → acc < 2 ^ shift
    → v < 256 ^ count
    → little_endian shift (bytes_of count v) acc ≡ acc + v * 2 ^ shift
little_endian-bytes_of zero shift v acc h lim = let e : v ≡ 0 = omega arith in rw e (omega arith)
little_endian-bytes_of (suc count) shift v acc h lim =
    let below : acc + v % 256 * 2 ^ shift < 2 ^ (shift + 8) =
      rw (shift_eight shift) (below_next (2 ^ shift) acc (v % 256) h (omega arith)) in
    ap (little_endian (shift + 8) (bytes_of count (v / 256))) (bit_or_shifted shift acc (v % 256) h)
    ∙ little_endian-bytes_of count (shift + 8) (v / 256) (acc + v % 256 * 2 ^ shift) below
        (omega arith)
    ∙ omega (arith, split_byte v shift)

length-bytes_of : (count v : ℕ) → length (bytes_of count v) ≡ count
length-bytes_of zero v = refl
length-bytes_of (suc count) v = ap suc (length-bytes_of count (v / 256))

pub read_front :
    (count : ℕ) (bytes rest : List ℕ) (n : ℕ) (e : Option ErrMsg)
    → length bytes ≡ count
    → 0 < count
    → pb_read count (stream (bytes ++ rest) (count + n) e) ≡ done bytes (stream rest n e)
read_front count bytes rest n e h p = rw (← h) (
    pb_read_enough (length bytes) (stream (bytes ++ rest) (length bytes + n) e) (omega arith)
      (omega arith) (omega (arith, length-append bytes rest))
    ∙ rw (take-length_append bytes rest, drop-length_append bytes rest)
        (ap (λ m. done bytes (stream rest m e)) (omega arith)))

-- `pb_decode_fixed32` reads the four bytes of every 32-bit number back, lowest first.
pub pb_decode_fixed32-bytes_of :
    (v n : ℕ) (rest : List ℕ) (e : Option ErrMsg)
    → v < 2 ^ 32
    → pb_decode_fixed32 (stream (bytes_of 4 v ++ rest) (4 + n) e) ≡ done v (stream rest n e)
unfolding pb_decode_fixed32
pb_decode_fixed32-bytes_of v n rest e h =
    ap (continue (λ bytes. done (little_endian 0 bytes 0)))
      (read_front 4 (bytes_of 4 v) rest n e (length-bytes_of 4 v) (omega arith))
    ∙ ap (λ x. done x (stream rest n e))
        (little_endian-bytes_of 4 0 v 0 (omega arith) (omega arith) ∙ omega arith)

-- `pb_decode_fixed64` reads the eight bytes of every 64-bit number back, lowest first.
pub pb_decode_fixed64-bytes_of :
    (v n : ℕ) (rest : List ℕ) (e : Option ErrMsg)
    → v < 2 ^ 64
    → pb_decode_fixed64 (stream (bytes_of 8 v ++ rest) (8 + n) e) ≡ done v (stream rest n e)
unfolding pb_decode_fixed64
pb_decode_fixed64-bytes_of v n rest e h =
    ap (continue (λ bytes. done (little_endian 0 bytes 0)))
      (read_front 8 (bytes_of 8 v) rest n e (length-bytes_of 8 v) (omega arith))
    ∙ ap (λ x. done x (stream rest n e))
        (little_endian-bytes_of 8 0 v 0 (omega arith) (omega arith) ∙ omega arith)
