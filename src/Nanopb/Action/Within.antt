-- ===== src/Nanopb/Action/Within.antt =====
-- The decoders of a field's data write nothing outside of the field.
use firebase_login.Base.{
  ◌≢◌, ◌⊎◌, ℕ, zero, suc, ◌+◌, ◌%◌, ◌^◌, ◌≤◌, ◌<◌, ◌≡◌, refl, subst, arith, length, replicate,
  Option, none, some, false, ltb, lt→ltb, le→ltb_false, ◌==◌, not, if◌then◌else◌,
}
use native.Mathlib.Decide.{dec_lt}
use firebase_login.Nanopb.Istream.{ErrMsg, IStream, done, pb_read, bytes_overflow, string_overflow}
use firebase_login.Nanopb.Wire.Safety.{Fits, pb_read-Fits}
use firebase_login.Nanopb.Varint.{pb_decode_varint, pb_decode_varint32, pb_decode_svarint}
use firebase_login.Nanopb.Wire.{pb_decode_fixed32, pb_decode_fixed64}
use firebase_login.Nanopb.Field.{Field, pb_ltype, size_max, add_pointer}
use firebase_login.Nanopb.Scalar.{cast_signed, cast_unsigned, as_signed}
use firebase_login.Nanopb.Blob.{is_pointer, bytes_alloc_size}
use firebase_login.Nanopb.Memory.{Memory, store, write_bytes}
use firebase_login.Nanopb.Action.{
  Host, Action, and_then, store_number, read_into, room_for, bytes_into, string_into, fixed_into,
  terminated, decoder,
}
use firebase_login.Nanopb.Action.Same.{
  Avoids, Same, Same-trans, Avoids-part, write_bytes-Same, store-Same, if-Same, reading-Same,
}

pub length-replicate : (n b : ℕ) → length (replicate n b) ≡ n
length-replicate zero b = refl
length-replicate (suc n) b = omega (arith, length-replicate n b)

-- The field lies in the struct, and its size is the one that its type asks for.
pub record IsInline (field : Field) (dest : ℕ) : Type 0 where
  pub in_struct : is_pointer field ≡ false
  pub nonempty : 0 < field.data_size
  pub four : pb_ltype field.type ≡ 4 → field.data_size ≡ 4
  pub eight : pb_ltype field.type ≡ 5 → field.data_size ≡ 8
  pub no_wrap : dest + field.data_size < 2 ^ 64

module _ (P : ℕ → Type 0) where
  read_into-Same :
      (dest count : ℕ) (m : Memory) (s : IStream)
      → Avoids P dest (dest + count)
      → Same P m (read_into dest count m s).0
  unfolding read_into
  read_into-Same dest count m s avoids =
      reading-Same P (λ bytes m' s'. (write_bytes dest bytes m', done tt s')) m (pb_read count s)
        (λ bytes t e.
          let fits : length bytes ≤ count = subst (Fits count) e (pb_read-Fits count s) in
          write_bytes-Same P bytes dest m (
            Avoids-part P dest (dest + count) dest (dest + length bytes) avoids (omega arith)
              (omega arith)))

  store_number-Same :
      (size dest : ℕ) (o : Option ℕ) (value : ℕ) (m : Memory) (s : IStream)
      → Avoids P dest (dest + size)
      → Same P m (store_number size dest o value m s).0
  unfolding store_number
  store_number-Same size dest none value m s avoids = λ a p. refl
  store_number-Same size dest (some clamped) value m s avoids =
      if-Same P m (not (clamped == value)) _ _ (λ _. store-Same P size dest clamped m avoids)
        (λ _. store-Same P size dest clamped m avoids)

  module _ (host : Host) (field : Field) (dest : ℕ) (is : IsInline field dest)
      (avoids : Avoids P dest (dest + field.data_size)) where
    front-Avoids : (k : ℕ) → k ≤ field.data_size → Avoids P dest (dest + k)
    front-Avoids k h =
        Avoids-part P dest (dest + field.data_size) dest (dest + k) avoids (omega arith)
          (omega arith)

    -- A field in the struct has its room there, or the call fails.
    room_for-Same :
        (f : ℕ → Action (Unit {0})) (size alloc_size : ℕ) (overflow : ErrMsg) (m : Memory)
        (s : IStream)
        → (alloc_size ≤ field.data_size → Same P m (f dest m s).0)
        → Same P m (and_then f (room_for host field dest size alloc_size overflow m s)).0
    room_for-Same f size alloc_size overflow m s h = elim (dec_lt field.data_size alloc_size) [
      | yes over ↦ rw (is.in_struct, lt→ltb field.data_size alloc_size over) (λ a p. refl)
      | no fits ↦
          rw (is.in_struct, le→ltb_false field.data_size alloc_size (omega arith)) (h (omega arith))
    ]

    bytes_into-Same :
        (size : ℕ) (m : Memory) (s : IStream) → Same P m (bytes_into host field dest size m s).0
    bytes_into-Same size m s =
        if-Same P m (ltb size_max size) _ _ (λ _ a p. refl)
          (λ small.
            if-Same P m (ltb (bytes_alloc_size size) size) _ _ (λ _ a p. refl)
              (λ _.
                room_for-Same
                  (λ bdest m' s'. read_into (add_pointer bdest 4) size (store 4 bdest size m') s')
                  size (bytes_alloc_size size) bytes_overflow m s
                  (λ fits.
                    let word : size ≤ size_max = ground arith in
                    let alloc : bytes_alloc_size size ≡ size + 4 = omega arith in
                    let all : size + 4 ≤ field.data_size = omega (arith, alloc, fits) in
                    let behind : add_pointer dest 4 ≡ dest + 4 = omega (arith, is.no_wrap, all) in
                    let m' = store 4 dest size m in
                    Same-trans P m m' (read_into (add_pointer dest 4) size m' s).0
                      (store-Same P 4 dest size m (front-Avoids 4 (omega (arith, all))))
                      (read_into-Same (add_pointer dest 4) size m' s (
                        Avoids-part P dest (dest + field.data_size) (add_pointer dest 4)
                          (add_pointer dest 4 + size) avoids (omega (arith, behind))
                          (omega (arith, behind, all)))))))

    string_into-Same :
        (size : ℕ) (m : Memory) (s : IStream) → Same P m (string_into host field dest size m s).0
    string_into-Same size m s =
        let alloc_size = (size + 1) % 2 ^ 32 in
        if-Same P m (ltb alloc_size size) _ _ (λ _ a p. refl)
          (λ small.
            room_for-Same
              (λ text m' s'. terminated host (add_pointer text size) (read_into text size m' s'))
              size alloc_size string_overflow m s
              (λ fits.
                let word : size ≤ alloc_size = ground arith in
                let all : size + 1 ≤ field.data_size = omega (arith, word, fits) in
                let behind : add_pointer dest size ≡ dest + size = omega (arith, is.no_wrap, all) in
                let m' = (read_into dest size m s).0 in
                Same-trans P m m' (store 1 (add_pointer dest size) 0 m')
                  (read_into-Same dest size m s (front-Avoids size (omega (arith, all))))
                  (store-Same P 1 (add_pointer dest size) 0 m' (
                    Avoids-part P dest (dest + field.data_size) (add_pointer dest size)
                      (add_pointer dest size + 1) avoids (omega (arith, behind))
                      (omega (arith, behind, all))))))

    fixed_into-Same :
        (size : ℕ) (m : Memory) (s : IStream) → Same P m (fixed_into host field dest size m s).0
    fixed_into-Same size m s =
        if-Same P m (ltb size_max size) _ _ (λ _ a p. refl)
          (λ _.
            if-Same P m (size == 0) _ _
              (λ _. write_bytes-Same P (replicate field.data_size 0) dest m (
                front-Avoids (length (replicate field.data_size 0))
                  (omega (arith, length-replicate field.data_size 0))))
              (λ _.
                if-Same P m (not (size == field.data_size)) _ _ (λ _ a p. refl)
                  (λ _. read_into-Same dest field.data_size m s avoids)))

    -- The decoder of a field in the struct leaves every byte of the memory that is outside of the
    -- field as it is, however it ends, if that of a submessage does.
    pub decoder-Same :
        (submessage : Field → ℕ → Action (Unit {0})) (m : Memory) (s : IStream)
        → (pb_ltype field.type ≡ 8 → Same P m (submessage field dest m s).0)
        → Same P m (decoder host submessage field dest m s).0
    unfolding decoder
    decoder-Same submessage m s nested =
        let l = pb_ltype field.type in
        let n = field.data_size in
        if-Same P m (l == 0) _ _
          (λ _.
            reading-Same P (λ v m' t. (store 1 dest (if v == 0 then 0 else 1) m', done tt t)) m
              (pb_decode_varint32 s)
              (λ v t _.
                store-Same P 1 dest (if v == 0 then 0 else 1) m (front-Avoids 1 is.nonempty)))
          (λ _.
            if-Same P m (l == 1) _ _
              (λ _.
                reading-Same P
                  (λ v. store_number n dest (cast_signed n (as_signed n v)) (as_signed n v)) m
                  (pb_decode_varint s)
                  (λ v t _.
                    store_number-Same n dest (cast_signed n (as_signed n v)) (as_signed n v) m t
                      avoids))
              (λ _.
                if-Same P m (l == 2) _ _
                  (λ _.
                    reading-Same P (λ v. store_number n dest (cast_unsigned n v) (v)) m
                      (pb_decode_varint s)
                      (λ v t _. store_number-Same n dest (cast_unsigned n v) (v) m t avoids))
                  (λ _.
                    if-Same P m (l == 3) _ _
                      (λ _.
                        reading-Same P (λ v. store_number n dest (cast_signed n v) (v)) m
                          (pb_decode_svarint s)
                          (λ v t _. store_number-Same n dest (cast_signed n v) (v) m t avoids))
                      (λ _.
                        if-Same P m (l == 4) _ _
                          (λ h.
                            reading-Same P (λ v m' t. (store 4 dest v m', done tt t)) m
                              (pb_decode_fixed32 s)
                              (λ v t _.
                                store-Same P 4 dest v m
                                  (front-Avoids 4 (omega (arith, is.four (ground arith))))))
                          (λ _.
                            if-Same P m (l == 5) _ _
                              (λ h.
                                reading-Same P (λ v m' t. (store 8 dest v m', done tt t)) m
                                  (pb_decode_fixed64 s)
                                  (λ v t _.
                                    store-Same P 8 dest v m
                                      (front-Avoids 8 (omega (arith, is.eight (ground arith))))))
                              (λ _.
                                if-Same P m (l == 6) _ _
                                  (λ _.
                                    reading-Same P (bytes_into host field dest) m
                                      (pb_decode_varint32 s) (λ size t _. bytes_into-Same size m t))
                                  (λ _.
                                    if-Same P m (l == 7) _ _
                                      (λ _.
                                        reading-Same P (string_into host field dest) m
                                          (pb_decode_varint32 s)
                                          (λ size t _. string_into-Same size m t))
                                      (λ _.
                                        if-Same P m (l == 8) _ _ (λ h. nested (ground arith))
                                          (λ _.
                                            if-Same P m (l == 10) _ _
                                              (λ _.
                                                reading-Same P (fixed_into host field dest) m
                                                  (pb_decode_varint32 s)
                                                  (λ size t _. fixed_into-Same size m t))
                                              (λ _ a p. refl))))))))))

-- The decoder of a field that lies in the struct and is no submessage, on any input and however it
-- ends, leaves every byte in front of the field and behind its `data_size` bytes as it is.
pub decoder_keeps :
    (host : Host) (submessage : Field → ℕ → Action (Unit {0})) (field : Field) (dest : ℕ)
    (m : Memory) (s : IStream) (a : ℕ)
    → IsInline field dest
    → pb_ltype field.type ≢ 8
    → (a < dest) ⊎ (dest + field.data_size ≤ a)
    → (decoder host submessage field dest m s).0 a ≡ m a
decoder_keeps host submessage field dest m s a is plain outside =
    decoder-Same (λ b. b ≡ a) host field dest is (λ b e. rw e outside) submessage m s
      (λ l. absurd (plain l)) a refl
