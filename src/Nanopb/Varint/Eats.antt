-- ===== src/Nanopb/Varint/Eats.antt =====
-- The numbers that a decoder reads take at least one byte off the stream.
use firebase_login.Base.{
  ℕ, zero, suc, ◌+◌, ◌*◌, Option, ◌/◌, ◌%◌, ◌^◌, ◌<◌, ◌≡◌, arith, List, [], ◌∷◌, All, Bool, true,
  false, leb, not, ◌==◌, ◌&&◌, Bool-cases, inl, inr, if◌then◌else◌,
}
use firebase_login.Nanopb.Istream.{
  ErrMsg, IStream, Outcome, Call, done, fail, fault, stuck, continue, varint_overflow, pb_readbyte,
}
use firebase_login.Nanopb.Istream.Reads.{
  Reads, Safe, Reads-refl, stream, pb_readbyte-cons, pb_readbyte-Safe, pb_readbyte_shorter,
}
use firebase_login.Nanopb.Varint.{
  has_more, is_overflow, or_group, varint_loop, varint32_loop, varint32_rest, after_first_byte,
  pb_decode_varint, pb_decode_varint32_eof, pb_decode_varint32, pb_decode_svarint,
}
use firebase_login.Nanopb.Varint.Safety.{if-Safe, varint_loop-Safe}
use firebase_login.Nanopb.Decode.Message.Bits.{or-lt}
use firebase_login.Nanopb.Action.Ends.{
  IsInput, Ends, Shorter, Reads-IsInput, Reads-bytes_left, Safe-Ends, Ends-later, set_error-Keeps,
}

module _ {A B : Type 0} where
  -- What follows a call that ends.
  pub continue-Ends :
      (Q : A → IStream → Type 0) (R : B → IStream → Type 0) (f : A → Call B) (s : IStream)
      (o : Outcome A)
      → IsInput s
      → Ends Q s o
      → ((a : A) (t : IStream) → Q a t → Reads s t → IsInput t → Ends R t (f a t))
      → Ends R s (continue f o)
  continue-Ends Q R f s (done a t) i h k =
      Ends-later R R s t (f a t) h.0 (k a t h.1 h.0 (Reads-IsInput h.0 i)) (λ b u _ q. q)
  continue-Ends Q R f s (fail t) i h k = h
  continue-Ends Q R f s fault i h k = h
  continue-Ends Q R f s stuck i h k = h

  -- What only reads on after a call that has read something.
  pub eaten :
      (f : A → Call B) (s : IStream) (o : Outcome A)
      → IsInput s
      → Ends (Shorter s) s o
      → ((a : A) (t : IStream) → IsInput t → Safe t (f a t))
      → Ends (Shorter s) s (continue f o)
  eaten f s o i h k = continue-Ends (Shorter s) (Shorter s) f s o i h λ a t short r it.
      Safe-Ends (Shorter s) t (f a t) (k a t it)
        (λ b u _ ru. let less = Reads-bytes_left ru in omega (arith, short, less))

-- A choice between two ends.
pub choice-Ends :
    {A : Type 0} (Q : A → IStream → Type 0) (s : IStream) (b : Bool) (o p : Outcome A)
    → Ends Q s o
    → Ends Q s p
    → Ends Q s (if b then o else p)
choice-Ends Q s true o p h k = h
choice-Ends Q s false o p h k = k

-- The byte that was read.
abbrev Octet : IStream → ℕ → IStream → Type 0
Octet s b t = (b < 256) × (t.bytes_left < s.bytes_left)

readbyte-lt :
    (m : List ℕ) (n : ℕ) (e : Option ErrMsg) (b : ℕ) (t : IStream)
    → All (λ b. b < 256) m
    → pb_readbyte (stream m n e) ≡ done b t
    → b < 256
readbyte-lt m zero e b t a h = unfold pb_readbyte in cc
readbyte-lt [] (suc n) e b t a h = unfold pb_readbyte in ground arith
readbyte-lt (c ∷ m) (suc n) e b t a h = ground (arith, pb_readbyte-cons c m n e, a.0)

pb_readbyte-Ends : (s : IStream) → IsInput s → Ends (Octet s) s (pb_readbyte s)
pb_readbyte-Ends s i = Safe-Ends (Octet s) s (pb_readbyte s) (pb_readbyte-Safe s i.0) (λ b t e r. (
  readbyte-lt s.state s.bytes_left s.errmsg b t i.1 e,
  omega (arith, pb_readbyte_shorter s b t e),
))

pub pb_decode_varint-Ends : (s : IStream) → IsInput s → Ends (Shorter s) s (pb_decode_varint s)
unfolding pb_decode_varint varint_loop
pb_decode_varint-Ends s i =
    continue-Ends (Octet s) (Shorter s) _ s (pb_readbyte s) i (pb_readbyte-Ends s i)
      λ byte t q r it.
        let safe =
          if-Safe t (has_more byte) _ _
            (varint_loop-Safe 10 7 (or_group 64 0 byte 0) t it.0 (omega arith) (omega arith))
            (Reads-refl t) in
        Safe-Ends (Shorter s) t _ safe
          (λ b u _ ru. let less = Reads-bytes_left ru in omega (arith, q.1, less))

pub pb_decode_svarint-Ends : (s : IStream) → IsInput s → Ends (Shorter s) s (pb_decode_svarint s)
unfolding pb_decode_svarint
pb_decode_svarint-Ends s i =
    eaten _ s (pb_decode_varint s) i (pb_decode_varint-Ends s i) λ value t it. Reads-refl t

-- A number of 32 bits for which at least one byte was read.
abbrev pub Word : IStream → ℕ → IStream → Type 0
Word s v t = (v < 2 ^ 32) × (t.bytes_left < s.bytes_left)

-- A number of 32 bits.
abbrev Short : ℕ → IStream → Type 0
Short v t = v < 2 ^ 32

-- The number that a round of the loop leaves.
abbrev group32 : ℕ → ℕ → ℕ → ℕ
group32 result byte bitpos = if leb 32 bitpos then result else or_group 32 result byte bitpos

word-lt : (x : ℕ) → x % 2 ^ 32 < 2 ^ 32
word-lt x = omega arith

group32-lt : (result byte bitpos : ℕ) → result < 2 ^ 32 → group32 result byte bitpos < 2 ^ 32
group32-lt result byte bitpos h = elim (Bool-cases (leb 32 bitpos)) [
  | inl over ↦ rw over h
  | inr room ↦
      rw room
        (or-lt 32 result (byte % 128 * 2 ^ bitpos % 2 ^ 32) h (word-lt (byte % 128 * 2 ^ bitpos)))
]

varint32_loop-Ends :
    (rounds bitpos result : ℕ) (s : IStream)
    → IsInput s
    → s.bytes_left < rounds
    → result < 2 ^ 32
    → Ends Short s (varint32_loop rounds bitpos result s)
unfolding varint32_loop
varint32_loop-Ends zero bitpos result s i h small = absurd (omega arith)
varint32_loop-Ends (suc rounds) bitpos result s i h small =
    continue-Ends (Octet s) Short _ s (pb_readbyte s) i (pb_readbyte-Ends s i) λ byte t q r it.
      let result' : ℕ = group32 result byte bitpos in
      let small' : result' < 2 ^ 32 = group32-lt result byte bitpos small in
      let bitpos' : ℕ = (bitpos + 7) % 256 in
      choice-Ends Short t (leb 32 bitpos && is_overflow result byte bitpos) _ _
        (set_error-Keeps varint_overflow t)
        (choice-Ends Short t (has_more byte) _ _
          (varint32_loop-Ends rounds bitpos' result' t it (omega (arith, q.1)) small')
          (choice-Ends Short t (bitpos' == 35 && not (byte / 16 % 8 == 0)) _ _
            (set_error-Keeps varint_overflow t) (Reads-refl t, small')))

varint32_rest-Ends :
    (byte : ℕ) (s : IStream) → IsInput s → byte < 256 → Ends Short s (varint32_rest byte s)
unfolding varint32_rest
varint32_rest-Ends byte s i h =
    choice-Ends Short s (has_more byte) _ _
      (varint32_loop-Ends (suc s.bytes_left) 7 (byte % 128) s i (omega arith) (omega arith))
      (Reads-refl s, omega arith)

after_first_byte-Ends :
    (eof : Bool) (s : IStream) (o : Outcome ℕ)
    → IsInput s
    → Ends (Octet s) s o
    → Ends (Word s) s (after_first_byte eof o).1
unfolding after_first_byte
after_first_byte-Ends eof s (done byte t) i h =
    Ends-later Short (Word s) s t (varint32_rest byte t) h.0
      (varint32_rest-Ends byte t (Reads-IsInput h.0 i) h.1.0)
      (λ v u r q. let less = Reads-bytes_left r in (q, omega (arith, h.1.1, less)))
after_first_byte-Ends eof s (fail t) i h = h
after_first_byte-Ends eof s fault i h = h
after_first_byte-Ends eof s stuck i h = h

pub pb_decode_varint32_eof-Ends :
    (eof : Bool) (s : IStream) → IsInput s → Ends (Word s) s (pb_decode_varint32_eof eof s).1
unfolding pb_decode_varint32_eof
pb_decode_varint32_eof-Ends eof s i =
    after_first_byte-Ends eof s (pb_readbyte s) i (pb_readbyte-Ends s i)

pub pb_decode_varint32-Ends : (s : IStream) → IsInput s → Ends (Word s) s (pb_decode_varint32 s)
unfolding pb_decode_varint32
pb_decode_varint32-Ends s i = pb_decode_varint32_eof-Ends false s i
