-- ===== src/Nanopb/Action/Eats.antt =====
-- The decoders of a field's data end, and take at least one byte.
use firebase_login.Base.{
  ℕ, ◌+◌, ◌%◌, ◌^◌, ◌≤◌, ◌<◌, ◌≡◌, ◌≢◌, arith, Option, none, some, Bool, ltb, ◌==◌, not,
  if◌then◌else◌,
}
use firebase_login.Nanopb.Istream.{
  ErrMsg, IStream, Outcome, done, fail, fault, stuck, pb_read, bytes_overflow, string_overflow,
  size_too_large, end_of_stream, invalid_data_size, integer_too_large, incorrect_fixed_length,
}
use firebase_login.Nanopb.Istream.Reads.{Reads-refl, pb_read-Safe}
use firebase_login.Nanopb.Varint.{pb_decode_varint, pb_decode_varint32, pb_decode_svarint}
use firebase_login.Nanopb.Varint.Eats.{
  Word, pb_decode_varint-Ends, pb_decode_varint32-Ends, pb_decode_svarint-Ends,
}
use firebase_login.Nanopb.Wire.{pb_decode_fixed32, pb_decode_fixed64}
use firebase_login.Nanopb.Wire.Eats.{pb_decode_fixed32-Ends, pb_decode_fixed64-Ends}
use firebase_login.Nanopb.Field.{Field, pb_ltype, size_max, add_pointer}
use firebase_login.Nanopb.Scalar.{cast_signed, cast_unsigned, as_signed}
use firebase_login.Nanopb.Blob.{is_pointer, bytes_alloc_size, allocate_field}
use firebase_login.Nanopb.Blob.Bounds.{allocate_field-Safe}
use firebase_login.Nanopb.Memory.{Memory, store, write_bytes, load_pointer}
use firebase_login.Nanopb.Action.{
  Host, Action, and_then, reading, store_number, read_into, request, is_met, allocated, allocate_at,
  room_for, bytes_into, string_into, fixed_into, terminated, decoder, undefined,
}
use firebase_login.Nanopb.Action.Ends.{
  IsInput, Ends, Any, Shorter, Reads-bytes_left, Safe-Ends, Ends-later, if-Ends, and_then-Ends,
  set_error-Keeps, Reads-IsInput,
}

read_into-Ends :
    (dest count : ℕ) (m : Memory) (s : IStream)
    → IsInput s
    → Ends Any s (read_into dest count m s).1
unfolding read_into
read_into-Ends dest count m s i =
    and_then-Ends Any Any (λ bytes m' s'. (write_bytes dest bytes m', done tt s')) s
      (m, pb_read count s) i
      (Safe-Ends Any s (pb_read count s) (pb_read-Safe count s i.0) (λ a t e r. tt))
      (λ bytes m' t q r it. (Reads-refl t, tt))

store_number-Ends :
    (size dest : ℕ) (o : Option ℕ) (value : ℕ) (m : Memory) (s : IStream)
    → Ends Any s (store_number size dest o value m s).1
unfolding store_number
store_number-Ends size dest none value m s = set_error-Keeps invalid_data_size s
store_number-Ends size dest (some clamped) value m s =
    if-Ends Any s (not (clamped == value)) _ _ (λ _. set_error-Keeps integer_too_large s)
      (λ _. (Reads-refl s, tt))

-- What only has to end after a number that was read.
after_number :
    {B : Type 0} (Q : ℕ → IStream → Type 0) (f : ℕ → Action B) (m : Memory) (s : IStream)
    (o : Outcome ℕ)
    → IsInput s
    → Ends Q s o
    → ((v : ℕ) (t : IStream) → Q v t → t.bytes_left < s.bytes_left)
    → ((v : ℕ) (t : IStream) → IsInput t → Ends Any t (f v m t).1)
    → Ends (Shorter s) s (and_then f (m, o)).1
after_number Q f m s (done v t) i h short k =
    Ends-later Any (Shorter s) s t (f v m t).1 h.0 (k v t (Reads-IsInput h.0 i)) (λ b u r _.
      let less = Reads-bytes_left r in let first = short v t h.1 in omega (arith, first, less))
after_number Q f m s (fail t) i h short k = h
after_number Q f m s fault i h short k = h
after_number Q f m s stuck i h short k = h

module _ (host : Host) where
  allocated-Ends :
      (want : ℕ → Option (ℕ × Memory)) (p_data : ℕ) (m : Memory) (s : IStream) (o : Outcome ℕ)
      → Ends Any s o
      → Ends Any s (allocated want p_data m o).1
  allocated-Ends want p_data m s (done n t) h = h
  allocated-Ends want p_data m s (fail t) h = h
  allocated-Ends want p_data m s fault h = h
  allocated-Ends want p_data m s stuck h = h

  -- The allocation ends, whether or not the memory is there.
  pub allocate_at-Ends :
      (p_data data_size array_size : ℕ) (m : Memory) (s : IStream)
      → Ends Any s (allocate_at host p_data data_size array_size m s).1
  unfolding allocate_at
  allocate_at-Ends p_data data_size array_size m s =
      let realloc : ℕ → Bool = λ n. is_met (request host p_data m n) in
      allocated-Ends (request host p_data m) p_data m s
        (allocate_field realloc data_size array_size s)
        (Safe-Ends Any s _ (allocate_field-Safe realloc data_size array_size s) (λ a t e r. tt))

  room_for-Ends :
      (field : Field) (dest size alloc_size : ℕ) (overflow : ErrMsg) (m : Memory) (s : IStream)
      → IsInput s
      → Ends Any s (room_for host field dest size alloc_size overflow m s).1
  room_for-Ends field dest size alloc_size overflow m s i =
      if-Ends Any s (is_pointer field) _ _
        (λ _.
          if-Ends Any s (ltb s.bytes_left size) _ _ (λ _. set_error-Keeps end_of_stream s)
            (λ _.
              and_then-Ends Any Any (λ _ m' s'. (m', done (load_pointer dest m') s')) s
                (allocate_at host dest alloc_size 1 m s) i (allocate_at-Ends dest alloc_size 1 m s)
                (λ a m' t q r it. (Reads-refl t, tt))))
        (λ _.
          if-Ends Any s (ltb field.data_size alloc_size) _ _ (λ _. set_error-Keeps overflow s)
            (λ _. (Reads-refl s, tt)))

  bytes_into-Ends :
      (field : Field) (dest size : ℕ) (m : Memory) (s : IStream)
      → IsInput s
      → Ends Any s (bytes_into host field dest size m s).1
  bytes_into-Ends field dest size m s i =
      if-Ends Any s (ltb size_max size) _ _ (λ _. set_error-Keeps bytes_overflow s)
        (λ _.
          if-Ends Any s (ltb (bytes_alloc_size size) size) _ _
            (λ _. set_error-Keeps size_too_large s)
            (λ _.
              and_then-Ends Any Any
                (λ bdest m' s'. read_into (add_pointer bdest 4) size (store 4 bdest size m') s') s
                (room_for host field dest size (bytes_alloc_size size) bytes_overflow m s) i
                (room_for-Ends field dest size (bytes_alloc_size size) bytes_overflow m s i)
                (λ bdest m' t q r it.
                  read_into-Ends (add_pointer bdest 4) size (store 4 bdest size m') t it)))

  string_into-Ends :
      (field : Field) (dest size : ℕ) (m : Memory) (s : IStream)
      → IsInput s
      → Ends Any s (string_into host field dest size m s).1
  string_into-Ends field dest size m s i =
      let alloc_size = (size + 1) % 2 ^ 32 in
      if-Ends Any s (ltb alloc_size size) _ _ (λ _. set_error-Keeps size_too_large s)
        (λ _.
          and_then-Ends Any Any
            (λ text m' s'. terminated host (add_pointer text size) (read_into text size m' s')) s
            (room_for host field dest size alloc_size string_overflow m s) i
            (room_for-Ends field dest size alloc_size string_overflow m s i)
            (λ text m' t q r it. read_into-Ends text size m' t it))

  fixed_into-Ends :
      (field : Field) (dest size : ℕ) (m : Memory) (s : IStream)
      → IsInput s
      → Ends Any s (fixed_into host field dest size m s).1
  fixed_into-Ends field dest size m s i =
      if-Ends Any s (ltb size_max size) _ _ (λ _. set_error-Keeps bytes_overflow s)
        (λ _.
          if-Ends Any s (size == 0) _ _ (λ _. (Reads-refl s, tt))
            (λ _.
              if-Ends Any s (not (size == field.data_size)) _ _
                (λ _. set_error-Keeps incorrect_fixed_length s)
                (λ _. read_into-Ends dest field.data_size m s i)))

  module _ (submessage : Field → ℕ → Action (Unit {0})) (field : Field)
      (known : pb_ltype field.type ≤ 10) (no_extension : pb_ltype field.type ≢ 9)
      (nested : pb_ltype field.type ≡ 8
        → (dest : ℕ) (m : Memory) (s : IStream) → IsInput s
        → Ends (Shorter s) s (submessage field dest m s).1) where
    -- The types whose data has a size in front.
    sized-Ends :
        (dest : ℕ) (m : Memory) (s : IStream)
        → IsInput s
        → 6 ≤ pb_ltype field.type
        → Ends
            (Shorter s)
            s
            (if pb_ltype field.type == 0x06
              then and_then (bytes_into host field dest) (reading pb_decode_varint32 m s)
              else if pb_ltype field.type == 0x07
              then and_then (string_into host field dest) (reading pb_decode_varint32 m s)
              else if pb_ltype field.type == 0x08
              then submessage field dest m s
              else if pb_ltype field.type == 0x0A
              then and_then (fixed_into host field dest) (reading pb_decode_varint32 m s)
              else undefined m s).1
    sized-Ends dest m s i above =
        let l = pb_ltype field.type in
        let word = pb_decode_varint32-Ends s i in
        if-Ends (Shorter s) s (l == 6) _ _
          (λ _.
            after_number (Word s) (bytes_into host field dest) m s (pb_decode_varint32 s) i word
              (λ v t q. q.1) (λ v t it. bytes_into-Ends field dest v m t it))
          (λ h6.
            if-Ends (Shorter s) s (l == 7) _ _
              (λ _.
                after_number (Word s) (string_into host field dest) m s (pb_decode_varint32 s) i
                  word (λ v t q. q.1) (λ v t it. string_into-Ends field dest v m t it))
              (λ h7.
                if-Ends (Shorter s) s (l == 8) _ _ (λ h. nested (ground arith) dest m s i)
                  (λ h8.
                    if-Ends (Shorter s) s (l == 10) _ _
                      (λ _.
                        after_number (Word s) (fixed_into host field dest) m s
                          (pb_decode_varint32 s) i word (λ v t q. q.1)
                          (λ v t it. fixed_into-Ends field dest v m t it))
                      (λ h10. absurd (ground (arith, known, no_extension, above))))))

    -- The decoder of a field ends and takes at least one byte, if the submessage's does.
    pub decoder-Ends :
        (dest : ℕ) (m : Memory) (s : IStream)
        → IsInput s
        → Ends (Shorter s) s (decoder host submessage field dest m s).1
    unfolding decoder
    decoder-Ends dest m s i =
        let l = pb_ltype field.type in
        let n = field.data_size in
        let word = pb_decode_varint32-Ends s i in
        let long = pb_decode_varint-Ends s i in
        if-Ends (Shorter s) s (l == 0) _ _
          (λ _.
            after_number (Word s) (λ v m' t. (store 1 dest (if v == 0 then 0 else 1) m', done tt t))
              m s (pb_decode_varint32 s) i word (λ v t q. q.1) (λ v t it. (Reads-refl t, tt)))
          (λ h0.
            if-Ends (Shorter s) s (l == 1) _ _
              (λ _.
                after_number (Shorter s)
                  (λ v. store_number n dest (cast_signed n (as_signed n v)) (as_signed n v)) m s
                  (pb_decode_varint s) i long (λ v t q. q)
                  (λ v t it.
                    store_number-Ends n dest (cast_signed n (as_signed n v)) (as_signed n v) m t))
              (λ h1.
                if-Ends (Shorter s) s (l == 2) _ _
                  (λ _.
                    after_number (Shorter s) (λ v. store_number n dest (cast_unsigned n v) v) m s
                      (pb_decode_varint s) i long (λ v t q. q)
                      (λ v t it. store_number-Ends n dest (cast_unsigned n v) v m t))
                  (λ h2.
                    if-Ends (Shorter s) s (l == 3) _ _
                      (λ _.
                        after_number (Shorter s) (λ v. store_number n dest (cast_signed n v) v) m s
                          (pb_decode_svarint s) i (pb_decode_svarint-Ends s i) (λ v t q. q)
                          (λ v t it. store_number-Ends n dest (cast_signed n v) v m t))
                      (λ h3.
                        if-Ends (Shorter s) s (l == 4) _ _
                          (λ _.
                            after_number (Shorter s) (λ v m' t. (store 4 dest v m', done tt t)) m s
                              (pb_decode_fixed32 s) i (pb_decode_fixed32-Ends s i) (λ v t q. q)
                              (λ v t it. (Reads-refl t, tt)))
                          (λ h4.
                            if-Ends (Shorter s) s (l == 5) _ _
                              (λ _.
                                after_number (Shorter s) (λ v m' t. (store 8 dest v m', done tt t))
                                  m s (pb_decode_fixed64 s) i (pb_decode_fixed64-Ends s i)
                                  (λ v t q. q) (λ v t it. (Reads-refl t, tt)))
                              (λ h5. sized-Ends dest m s i (ground arith)))))))
