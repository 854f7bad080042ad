-- ===== src/Nanopb/Wire/Eats.antt =====
-- The tag of a field and the numbers of fixed size take at least one byte off the stream, and a
-- field that is skipped ends.
use firebase_login.Base.{
  ℕ, zero, suc, ◌^◌, ◌<◌, ◌≡◌, subst, arith, List, Bool, false, ◌==◌, Bool-cases, inl, inr, [], ◌∷◌,
  ◌++◌, All, take,
}
use native.Mathlib.Decide.{dec_le}
use firebase_login.Nanopb.Istream.{
  IStream, Outcome, done, fail, fault, stuck, pb_read, invalid_wire_type,
}
use firebase_login.Nanopb.Istream.Reads.{
  IsValid, pb_read-Safe, pb_read_shorter, pb_read_enough, pb_read_short, Reads-refl,
}
use firebase_login.Nanopb.Varint.{pb_decode_varint32_eof, any_more}
use firebase_login.Nanopb.Varint.Eats.{
  Word, eaten, continue-Ends, choice-Ends, pb_decode_varint32_eof-Ends,
}
use firebase_login.Nanopb.Wire.{
  split_tag, pb_decode_tag, pb_decode_fixed32, pb_decode_fixed64, raw_varint, read_raw_value,
  wt_varint, wt_64bit, wt_32bit,
}
use firebase_login.Nanopb.Action.Ends.{
  IsInput, Ends, Reads-Keeps, set_error-Keeps, Shorter, Safe-Ends,
}

pub pb_read-Ends :
    (count : ℕ) (s : IStream) → 0 < count → IsInput s → Ends (Shorter s) s (pb_read count s)
pb_read-Ends count s p i =
    Safe-Ends (Shorter s) s (pb_read count s) (pb_read-Safe count s i.0)
      (λ bytes t e r. pb_read_shorter count s bytes t p e)

pub pb_decode_fixed32-Ends : (s : IStream) → IsInput s → Ends (Shorter s) s (pb_decode_fixed32 s)
unfolding pb_decode_fixed32
pb_decode_fixed32-Ends s i =
    eaten _ s (pb_read 4 s) i (pb_read-Ends 4 s (omega arith) i) λ bytes t it. Reads-refl t

pub pb_decode_fixed64-Ends : (s : IStream) → IsInput s → Ends (Shorter s) s (pb_decode_fixed64 s)
unfolding pb_decode_fixed64
pb_decode_fixed64-Ends s i =
    eaten _ s (pb_read 8 s) i (pb_read-Ends 8 s (omega arith) i) λ bytes t it. Reads-refl t

-- A wire type and a tag, for which at least one byte was read.
abbrev pub Tag : IStream → ℕ × ℕ → IStream → Type 0
Tag s p t = (p.1 < 2 ^ 29) × (t.bytes_left < s.bytes_left)

split_tag-Ends :
    (s : IStream) (eof : Bool) (o : Outcome ℕ)
    → Ends (Word s) s o
    → Ends (Tag s) s (split_tag (eof, o)).1
unfolding split_tag
split_tag-Ends s eof (done temp t) h = elim (Bool-cases (temp == 0)) [
  | inl end ↦ rw end (Reads-Keeps h.0)
  | inr tag ↦ rw tag (h.0, (omega (arith, h.1.0), h.1.1))
]
split_tag-Ends s eof (fail t) h = h
split_tag-Ends s eof fault h = h
split_tag-Ends s eof stuck h = h

pub pb_decode_tag-Ends : (s : IStream) → IsInput s → Ends (Tag s) s (pb_decode_tag s).1
unfolding pb_decode_tag
pb_decode_tag-Ends s i =
    split_tag-Ends s (pb_decode_varint32_eof false s).0 (pb_decode_varint32_eof false s).1
      (pb_decode_varint32_eof-Ends false s i)

-- The bytes that were read.
abbrev pub Octets : List ℕ → IStream → Type 0
Octets bytes t = All (λ b. b < 256) bytes

take-All : (n : ℕ) (xs : List ℕ) → All (λ b. b < 256) xs → All (λ b. b < 256) (take n xs)
take-All zero xs h = tt
take-All (suc n) [] h = tt
take-All (suc n) (x ∷ xs) h = (h.0, take-All n xs h.1)

append-All :
    (xs ys : List ℕ) → All (λ b. b < 256) xs → All (λ b. b < 256) ys → All (λ b. b < 256) (xs ++ ys)
append-All [] ys h k = k
append-All (x ∷ xs) ys h k = (h.0, append-All xs ys h.1 k)

read_bytes_of :
    (count : ℕ) (s : IStream) (bytes : List ℕ) (t : IStream)
    → 0 < count
    → IsValid s
    → pb_read count s ≡ done bytes t
    → take count s.state ≡ bytes
read_bytes_of count s bytes t p v e = elim (dec_le count s.bytes_left) [
  | yes h ↦ let all = pb_read_enough count s p h (omega arith) in cc
  | no h ↦ let short = pb_read_short count s (omega arith) in absurd (cc)
]

read-Octets : (count : ℕ) (s : IStream) → 0 < count → IsInput s → Ends Octets s (pb_read count s)
read-Octets count s p i =
    Safe-Ends Octets s (pb_read count s) (pb_read-Safe count s i.0) (λ bytes t e r.
      subst (All (λ b. b < 256)) (read_bytes_of count s bytes t p i.0 e)
        (take-All count s.state i.1))

raw_varint-Octets : (room : ℕ) (s : IStream) → IsInput s → Ends Octets s (raw_varint room s)
unfolding raw_varint
raw_varint-Octets zero s i = omega arith
raw_varint-Octets (suc room) s i =
    continue-Ends Octets Octets _ s (pb_read 1 s) i (read-Octets 1 s (omega arith) i)
      λ bytes t q r it.
        choice-Ends Octets t (any_more bytes) _ _
          (continue-Ends Octets Octets _ t (raw_varint room t) it (raw_varint-Octets room t it)
            λ rest u qu ru iu. (Reads-refl u, append-All bytes rest q qu))
          (Reads-refl t, q)

pub read_raw_value-Octets :
    (wire_type room : ℕ) (s : IStream) → IsInput s → Ends Octets s (read_raw_value wire_type room s)
unfolding read_raw_value
read_raw_value-Octets w room s i =
    choice-Ends Octets s (w == wt_varint) _ _ (raw_varint-Octets room s i) (
      choice-Ends Octets s (w == wt_64bit) _ _ (read-Octets 8 s (omega arith) i) (
        choice-Ends Octets s (w == wt_32bit) _ _ (read-Octets 4 s (omega arith) i)
          (set_error-Keeps invalid_wire_type s)))
