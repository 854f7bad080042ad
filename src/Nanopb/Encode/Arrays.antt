-- ===== src/Nanopb/Encode/Arrays.antt =====
-- Arrays are encoded uniformly: in particular the length in front of a packed array is right.
use firebase_login.Base.{
  ℕ, zero, suc, ◌*◌, ◌%◌, ◌^◌, ◌<◌, ◌≡◌, refl, sym, ap, subst, ◌∙◌, arith, List, [], ◌++◌, length,
  length-append, Bool, true, false, ltb, leb, ◌==◌, not, ◌&&◌,
}
use firebase_login.Nanopb.Istream.{array_max_size_exceeded}
use firebase_login.Nanopb.Ostream.{Emit, ◌>>◌, sizing_stream}
use firebase_login.Nanopb.Varint.{pb_encode_varint}
use firebase_login.Nanopb.Varint.Encoding.{encoding}
use firebase_login.Nanopb.Wire.{wt_string, bytes_of, pb_encode_fixed32, pb_encode_fixed64}
use firebase_login.Nanopb.Field.{Field, pb_ltype, add_pointer}
use firebase_login.Nanopb.Scalar.{pb_enc_fixed32, pb_enc_fixed64}
use firebase_login.Nanopb.Blob.{is_pointer}
use firebase_login.Nanopb.Memory.{Memory, load}
use firebase_login.Nanopb.Encode.{
  unless_counting, encoder, packed_items, unpacked_items, encode_array, packed_data, packed_counted,
  entry_data, last_packable,
}
use firebase_login.Nanopb.Encode.Uniform.{
  Writes, Fails, Outcome, Uniform, always_writes, seq-Writes, succeed-Writes, pb_write-Writes,
}
use firebase_login.Nanopb.Encode.Compose.{
  seq-Uniform, if-Uniform, succeed-Uniform, return_error-Uniform, pb_encode_varint-Writes,
  unless_counting-Writes, counted, counted_size, uncounted,
}
use firebase_login.Nanopb.Encode.Values.{
  IsEncodable, encoder-Uniform, tag-Uniform, tag_for_field-Uniform,
}

-- Entries that are known to write `size` bytes.
record Sized (items : Emit) (size : ℕ) : Type 0 where
  bytes : List ℕ
  count : length bytes ≡ size
  law : length bytes < 2 ^ 62 → Writes items bytes

sized_data :
    (items : Emit) (size : ℕ)
    → Sized items size
    → Uniform (pb_encode_varint (size % 2 ^ 64) >> unless_counting (size % 2 ^ 64) items)
sized_data items size z = always_writes (encoding 9 (length z.bytes) ++ z.bytes) (λ h.
    let n = length z.bytes in
    let short : n < 2 ^ 62 = omega (arith, length-append (encoding 9 n) z.bytes) in
    let same : n ≡ size % 2 ^ 64 = omega (arith, z.count, short) in
    subst (λ k. Writes (pb_encode_varint k >> unless_counting k items) (encoding 9 n ++ z.bytes))
      same
      (seq-Writes (pb_encode_varint n) (unless_counting n items) (encoding 9 n) z.bytes
        (pb_encode_varint-Writes n (omega arith))
        (unless_counting-Writes items z.bytes (z.law short))))

module _ (m : Memory) (sub : ℕ → ℕ → Emit) (field : Field) where
  next-Sized :
      (width p count : ℕ) (bytes : List ℕ)
      → length bytes ≡ width
      → Writes (encoder m sub field p) bytes
      → Sized (packed_items m sub field count (add_pointer p field.data_size)) (width * count)
      → Sized (packed_items m sub field (suc count) p) (width * suc count)
  unfolding packed_items
  next-Sized width p count bytes e w rest = record {
    bytes = bytes ++ rest.bytes;
    count = length-append bytes rest.bytes ∙ grind (arith, e, rest.count);
    law = λ h.
        seq-Writes (encoder m sub field p)
          (packed_items m sub field count (add_pointer p field.data_size)) bytes rest.bytes w
          (rest.law (omega (arith, length-append bytes rest.bytes)));
  }

  items-Sized :
      (width : ℕ)
      → ((p : ℕ) → (bytes : List ℕ) × (length bytes ≡ width) × Writes (encoder m sub field p) bytes)
      → (count p : ℕ) → Sized (packed_items m sub field count p) (width * count)
  unfolding packed_items
  items-Sized width each zero p = record {
    bytes = [];
    count = omega arith;
    law = λ _. succeed-Writes;
  }
  items-Sized width each (suc count) p =
      let (bytes, e, w) = each p in
      next-Sized width p count bytes e w
        (items-Sized width each count (add_pointer p field.data_size))

  fixed32_writes :
      (pb_ltype field.type == 4) ≡ true
      → (p : ℕ) → (bytes : List ℕ) × (length bytes ≡ 4) × Writes (encoder m sub field p) bytes
  unfolding encoder pb_enc_fixed32 pb_encode_fixed32
  fixed32_writes h p =
      let l : pb_ltype field.type ≡ 4 = ground arith in
      (
        bytes_of 4 (load 4 p m),
        refl,
        rw l (pb_write-Writes (bytes_of 4 (load 4 p m)) (omega arith)),
      )

  fixed64_writes :
      (pb_ltype field.type == 5) ≡ true
      → (p : ℕ) → (bytes : List ℕ) × (length bytes ≡ 8) × Writes (encoder m sub field p) bytes
  unfolding encoder pb_enc_fixed64 pb_encode_fixed64
  fixed64_writes h p =
      let l : pb_ltype field.type ≡ 5 = ground arith in
      (
        bytes_of 8 (load 8 p m),
        refl,
        rw l (pb_write-Writes (bytes_of 8 (load 8 p m)) (omega arith)),
      )

  counted_data :
      (p count : ℕ) (out : List ℕ) (ok : Bool)
      → (length out < 2 ^ 62 → Outcome (packed_items m sub field count p) out ok)
      → Uniform
          (packed_counted m sub field p count (packed_items m sub field count p sizing_stream))
  counted_data p count out true law =
      let items = packed_items m sub field count p in
      always_writes (encoding 9 (length out) ++ out) (λ h.
        let n = length out in
        let short : n < 2 ^ 62 = omega (arith, length-append (encoding 9 n) out) in
        let w = law short in
        subst (λ e. Writes e (encoding 9 n ++ out))
          (sym (
            ap (packed_counted m sub field p count) (counted items out short w)
            ∙ ap (packed_data m sub field p count) (counted_size n short)))
          (seq-Writes (pb_encode_varint n) (unless_counting n items) (encoding 9 n) out
            (pb_encode_varint-Writes n (omega arith)) (unless_counting-Writes items out w)))
  counted_data p count out false law = record {
    out = out;
    succeeds = false;
    law = λ h.
        let (t, e) = uncounted (packed_items m sub field count p) (law h) in
        subst Fails (sym (ap (packed_counted m sub field p count) e))
          (record { on_counting = λ s c. tt; on_buffer = λ s r. tt });
  }

  module _ (is : IsEncodable sub field) where
    packed_items-Uniform : (count p : ℕ) → Uniform (packed_items m sub field count p)
    unfolding packed_items
    packed_items-Uniform zero p = succeed-Uniform
    packed_items-Uniform (suc count) p =
        seq-Uniform _ _ (encoder-Uniform m sub field is p)
          (packed_items-Uniform count (add_pointer p field.data_size))

    unpacked_items-Uniform : (count p : ℕ) → Uniform (unpacked_items m sub field count p)
    unfolding unpacked_items
    unpacked_items-Uniform zero p = succeed-Uniform
    unpacked_items-Uniform (suc count) p =
        seq-Uniform _ _
          (seq-Uniform _ _ (tag_for_field-Uniform field is.tag_word)
            (encoder-Uniform m sub field is (entry_data m sub field p)))
          (unpacked_items-Uniform count (add_pointer p field.data_size))

    -- An array of a field is encoded uniformly, packed or not.
    pub encode_array-Uniform : (p count : ℕ) → Uniform (encode_array m sub field p count)
    unfolding encode_array
    encode_array-Uniform p count =
        let l = pb_ltype field.type in
        let items = packed_items-Uniform count p in
        if-Uniform (count == 0) _ _ (λ _. succeed-Uniform)
          (λ _.
            if-Uniform (not (is_pointer field) && ltb field.array_size count) _ _
              (λ _. return_error-Uniform array_max_size_exceeded)
              (λ _.
                if-Uniform (leb l last_packable) _ _
                  (λ _.
                    seq-Uniform _ _ (tag-Uniform wt_string field.tag (omega arith) is.tag_word) (
                      if-Uniform (l == 4) _ _
                        (λ h.
                          sized_data (packed_items m sub field count p) (4 * count)
                            (items-Sized 4 (fixed32_writes h) count p))
                        (λ _.
                          if-Uniform (l == 5) _ _
                            (λ h.
                              sized_data (packed_items m sub field count p) (8 * count)
                                (items-Sized 8 (fixed64_writes h) count p))
                            (λ _. counted_data p count items.out items.succeeds items.law))))
                  (λ _. unpacked_items-Uniform count p)))
