-- ===== src/Nanopb/Encode/Values.antt =====
-- The encoders of a field's data and of arrays are uniform.
use firebase_login.Base.{
  ℕ, zero, suc, ◌+◌, ◌*◌, ◌^◌, ◌≤◌, ◌<◌, ◌≡◌, ◌≢◌, refl, sym, subst, arith, List, [], ◌++◌, length,
  length-append, Option, none, some, Option-cases, Bool, true, false, if◌then◌else◌, leb, ◌==◌,
  ◌||◌, inl, inr,
}
use firebase_login.Nanopb.Istream.{
  invalid_data_size, bytes_size_exceeded, invalid_field_type, invalid_field_descriptor,
}
use firebase_login.Nanopb.Ostream.{Emit, return_error, pb_write}
use firebase_login.Nanopb.Varint.{pb_encode_varint, pb_encode_svarint, zigzag}
use firebase_login.Nanopb.Varint.Encoding.{encoding}
use firebase_login.Nanopb.Varint.RoundTrip.{zigzag-lt}
use firebase_login.Nanopb.Wire.{
  pb_encode_tag, pb_encode_string, pb_encode_fixed32, pb_encode_fixed64, wt_varint, wt_64bit,
  wt_string, wt_32bit,
}
use firebase_login.Nanopb.Wire.RoundTrip.{pb_encode_tag_lem}
use firebase_login.Nanopb.Field.{Field, pb_ltype}
use firebase_login.Nanopb.Scalar.{
  load_signed, load_unsigned, emit_loaded, pb_enc_bool, pb_enc_varint, pb_enc_uvarint,
  pb_enc_svarint, pb_enc_fixed32, pb_enc_fixed64,
}
use firebase_login.Nanopb.Blob.{
  is_pointer, pb_enc_bytes, pb_enc_string, pb_enc_fixed_length_bytes, text_of,
}
use firebase_login.Nanopb.Memory.{Memory, load}
use firebase_login.Nanopb.Encode.{
  pb_encode_tag_for_field, pb_enc_submessage, encoder, bytes_at, text_at,
}
use firebase_login.Nanopb.Encode.Uniform.{
  Writes, Uniform, always_writes, seq-Writes, pb_write-Writes,
}
use firebase_login.Nanopb.Encode.Compose.{
  if-Uniform, return_error-Uniform, pb_write-Uniform, pb_encode_varint-Writes,
  pb_encode_varint-Uniform, pb_encode_submessage-Uniform,
}

load-lt : (width address : ℕ) (m : Memory) → load width address m < 256 ^ width
unfolding load
load-lt zero address m = omega arith
load-lt (suc width) address m = omega (arith, load-lt width (address + 1) m)

load_of : (n k address : ℕ) (m : Memory) → n ≡ k → load n address m < 256 ^ k
load_of n k address m e = subst (λ w. load n address m < 256 ^ w) e (load-lt n address m)

-- A loaded number has no more than 64 bits.
abbrev Short : Option ℕ → Type 0
Short none = Unit {0}
Short (some v) = v < 2 ^ 64

if-Short :
    (b : Bool) (x y : Option ℕ)
    → (b ≡ true → Short x)
    → (b ≡ false → Short y)
    → Short (if b then x else y)
if-Short true x y hx hy = hx refl
if-Short false x y hx hy = hy refl

pub load_signed-Short : (n address : ℕ) (m : Memory) → Short (load_signed n (load n address m))
unfolding load_signed
load_signed-Short n address m =
    let cell = load n address m in
    if-Short (n == 1) _ _ (λ h. let k = load_of n 1 address m (ground arith) in ground arith)
      (λ _.
        if-Short (n == 2) _ _ (λ h. let k = load_of n 2 address m (ground arith) in ground arith)
          (λ _.
            if-Short (n == 4) _ _
              (λ h. let k = load_of n 4 address m (ground arith) in ground arith)
              (λ _.
                if-Short (n == 8) _ _
                  (λ h. let k = load_of n 8 address m (ground arith) in omega arith) (λ _. tt))))

pub load_unsigned-Short : (n address : ℕ) (m : Memory) → Short (load_unsigned n (load n address m))
unfolding load_unsigned
load_unsigned-Short n address m =
    if-Short (n == 1) _ _ (λ h. let k = load_of n 1 address m (ground arith) in omega arith)
      (λ _.
        if-Short (n == 2) _ _ (λ h. let k = load_of n 2 address m (ground arith) in omega arith)
          (λ _.
            if-Short (n == 4) _ _ (λ h. let k = load_of n 4 address m (ground arith) in omega arith)
              (λ _.
                if-Short (n == 8) _ _
                  (λ h. let k = load_of n 8 address m (ground arith) in omega arith) (λ _. tt))))

unfoldable pub emit_loaded-Uniform :
    (encode : ℕ → Emit) (o : Option ℕ)
    → ((v : ℕ) → v < 2 ^ 64 → Uniform (encode v))
    → Short o
    → Uniform (emit_loaded encode o)
emit_loaded-Uniform encode none u h = return_error-Uniform invalid_data_size
emit_loaded-Uniform encode (some v) u h = u v h

pub svarint-Uniform : (v : ℕ) → v < 2 ^ 64 → Uniform (pb_encode_svarint v)
unfolding pb_encode_svarint
svarint-Uniform v h = pb_encode_varint-Uniform (zigzag v) (zigzag-lt v h)

pub string-Uniform : (buffer : List ℕ) → Uniform (pb_encode_string buffer)
unfolding pb_encode_string
string-Uniform buffer = always_writes (encoding 9 (length buffer) ++ buffer) (λ h.
    let n = length buffer in
    let short : n < 2 ^ 62 = omega (arith, length-append (encoding 9 n) buffer) in
    seq-Writes (pb_encode_varint n) (pb_write buffer) (encoding 9 n) buffer
      (pb_encode_varint-Writes n (omega arith)) (pb_write-Writes buffer short))

pub bytes-Uniform : (field : Field) (bytes : Option (List ℕ)) → Uniform (pb_enc_bytes field bytes)
unfolding pb_enc_bytes
bytes-Uniform field none = string-Uniform []
bytes-Uniform field (some bytes) =
    if-Uniform _ (return_error bytes_size_exceeded) (pb_encode_string bytes)
      (λ _. return_error-Uniform bytes_size_exceeded) (λ _. string-Uniform bytes)

pub text-Uniform : (field : Field) (memory : Option (List ℕ)) → Uniform (pb_enc_string field memory)
unfolding pb_enc_string
text-Uniform field none = string-Uniform []
text-Uniform field (some memory) =
    string-Uniform (text_of (if is_pointer field then length memory else field.data_size) memory)

unfoldable pub tag-Uniform : (w f : ℕ) → w < 8 → f < 2 ^ 32 → Uniform (pb_encode_tag w f)
tag-Uniform w f hw hf = always_writes (encoding 9 (f * 8 + w)) (λ h.
    subst (λ e. Writes e (encoding 9 (f * 8 + w))) (sym (pb_encode_tag_lem w f hw hf))
      (pb_write-Writes (encoding 9 (f * 8 + w)) h))

unfoldable pub tag_for_field-Uniform :
    (field : Field) → field.tag < 2 ^ 32 → Uniform (pb_encode_tag_for_field field)
unfolding pb_encode_tag_for_field
tag_for_field-Uniform field h =
    let l = pb_ltype field.type in
    if-Uniform (leb l 3) _ _ (λ _. tag-Uniform wt_varint field.tag (omega arith) h)
      (λ _.
        if-Uniform (l == 4) _ _ (λ _. tag-Uniform wt_32bit field.tag (omega arith) h)
          (λ _.
            if-Uniform (l == 5) _ _ (λ _. tag-Uniform wt_64bit field.tag (omega arith) h)
              (λ _.
                if-Uniform (l == 6 || l == 7 || l == 8 || l == 10) _ _
                  (λ _. tag-Uniform wt_string field.tag (omega arith) h)
                  (λ _. return_error-Uniform invalid_field_type))))

-- A field that the encoder's table has an entry for, and its submessage is encoded uniformly.
pub record IsEncodable (sub : ℕ → ℕ → Emit) (field : Field) : Type 0 where
  pub tag_word : field.tag < 2 ^ 32
  pub known : pb_ltype field.type ≤ 10
  pub no_extension : pb_ltype field.type ≢ 9
  pub submessage :
      pb_ltype field.type ≡ 8
      → (fields src : ℕ) → field.ptr ≡ some fields
      → Uniform (sub fields src)

pub submessage-Uniform :
    (sub : ℕ → ℕ → Emit) (field : Field) (src : ℕ)
    → ((fields src : ℕ) → field.ptr ≡ some fields → Uniform (sub fields src))
    → Uniform (pb_enc_submessage sub field src)
unfolding pb_enc_submessage
submessage-Uniform sub field src u = elim (Option-cases field.ptr) [
  | inl e ↦ rw e (return_error-Uniform invalid_field_descriptor)
  | inr (fields, e) ↦ rw e (pb_encode_submessage-Uniform (sub fields src) (u fields src e))
]

module _ (m : Memory) (sub : ℕ → ℕ → Emit) (field : Field) (is : IsEncodable sub field) where
  unfoldable pub encoder-Uniform : (src : ℕ) → Uniform (encoder m sub field src)
  unfolding encoder pb_enc_bool pb_enc_varint pb_enc_uvarint pb_enc_svarint pb_enc_fixed32
      pb_enc_fixed64 pb_encode_fixed32 pb_encode_fixed64 pb_enc_fixed_length_bytes
  encoder-Uniform src =
      let l = pb_ltype field.type in
      let n = field.data_size in
      if-Uniform (l == 0) _ _ (λ _. pb_encode_varint-Uniform _ (ground arith))
        (λ h0.
          if-Uniform (l == 1) _ _
            (λ _.
              emit_loaded-Uniform pb_encode_varint _ pb_encode_varint-Uniform
                (load_signed-Short n src m))
            (λ h1.
              if-Uniform (l == 2) _ _
                (λ _.
                  emit_loaded-Uniform pb_encode_varint _ pb_encode_varint-Uniform
                    (load_unsigned-Short n src m))
                (λ h2.
                  if-Uniform (l == 3) _ _
                    (λ _.
                      emit_loaded-Uniform pb_encode_svarint _ svarint-Uniform
                        (load_signed-Short n src m))
                    (λ h3.
                      if-Uniform (l == 4) _ _ (λ _. pb_write-Uniform _)
                        (λ h4.
                          if-Uniform (l == 5) _ _ (λ _. pb_write-Uniform _)
                            (λ h5.
                              if-Uniform (l == 6) _ _ (λ _. bytes-Uniform field (bytes_at src m))
                                (λ h6.
                                  if-Uniform (l == 7) _ _
                                    (λ _. text-Uniform field (text_at field src m))
                                    (λ h7.
                                      if-Uniform (l == 8) _ _
                                        (λ h.
                                          submessage-Uniform sub field src
                                            (is.submessage (ground arith)))
                                        (λ h8.
                                          if-Uniform (l == 10) _ _ (λ _. string-Uniform _)
                                            (λ h10.
                                              let known = is.known in
                                              let other = is.no_extension in
                                              absurd (ground arith)))))))))))
