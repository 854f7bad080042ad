-- ===== src/Nanopb/Scalar/RoundTrip.antt =====
-- What the number encoders write from a field, the decoders read back, and what does not fit the
-- field is refused.
use firebase_login.Base.{
  ℕ, ◌+◌, ◌%◌, ◌^◌, ◌≤◌, ◌<◌, ◌≡◌, refl, ap, arith, Option, some, ◌∙◌, ◌++◌, length, List, ltb,
  lt→ltb, if◌then◌else◌,
}
use firebase_login.Nanopb.Istream.{IStream, done, return_error, integer_too_large, ErrMsg}
use firebase_login.Nanopb.Istream.Reads.{stream}
use firebase_login.Nanopb.Ostream.{pb_write}
use firebase_login.Nanopb.Varint.{zigzag, pb_decode_svarint, pb_encode_varint, pb_encode_svarint}
use firebase_login.Nanopb.Varint.Encoding.{encoding, pb_encode_varint_lem}
use firebase_login.Nanopb.Varint.RoundTrip.{pb_decode_varint-encoding, unzigzag-zigzag, zigzag-lt}
use firebase_login.Nanopb.Field.{Field}
use firebase_login.Nanopb.Scalar.{
  sign_extend, cast_signed, cast_unsigned, store_checked, as_signed, load_signed, load_unsigned,
  pb_dec_varint, pb_dec_uvarint, pb_dec_svarint, pb_enc_varint, pb_enc_uvarint, pb_enc_svarint,
  emit_loaded,
}

-- The sizes that a number in a struct can have, with the number of its values.
pub data IntSize : ℕ → ℕ → Type 0 where
  one : IntSize 1 (2 ^ 8)
  two : IntSize 2 (2 ^ 16)
  four : IntSize 4 (2 ^ 32)
  eight : IntSize 8 (2 ^ 64)

-- The number that a signed field's bits stand for, in 64 bits: what the encoder loads, what the
-- decoder's casts leave as it is, and what stands in the field again when it is stored.
pub record Loads (size values cell : ℕ) : Type 0 where
  pub number : ℕ
  pub loaded : load_signed size cell ≡ some number
  pub word : number < 2 ^ 64
  pub stays : as_signed size number ≡ number
  pub cast : cast_signed size number ≡ some number
  pub stored : number % values ≡ cell

pub signed_Loads :
    {size values : ℕ} (i : IntSize size values) (cell : ℕ) → cell < values → Loads size values cell
unfolding load_signed cast_signed
signed_Loads one cell h = record {
  number = sign_extend 8 cell;
  loaded = refl;
  word = ground arith;
  stays = ground arith;
  cast = ground arith;
  stored = ground arith;
}
signed_Loads two cell h = record {
  number = sign_extend 16 cell;
  loaded = refl;
  word = ground arith;
  stays = ground arith;
  cast = ground arith;
  stored = ground arith;
}
signed_Loads four cell h = record {
  number = sign_extend 32 cell;
  loaded = refl;
  word = ground arith;
  stays = ground arith;
  cast = ground arith;
  stored = ground arith;
}
signed_Loads eight cell h = record {
  number = cell;
  loaded = refl;
  word = h;
  stays = refl;
  cast = refl;
  stored = omega arith;
}

store_same : (value : ℕ) (s : IStream) → store_checked (some value) value s ≡ done value s
unfolding store_checked
store_same value s = ground arith

-- A written number, and what follows it in the stream.
abbrev pub written : ℕ → List ℕ → ℕ → Option ErrMsg → IStream
written v rest n e = stream (encoding 9 v ++ rest) (length (encoding 9 v) + n) e

module _ (f : Field) {values : ℕ} (i : IntSize f.data_size values) (rest : List ℕ) (n : ℕ)
    (e : Option ErrMsg) where
  -- A signed field of 8, 16, 32 or 64 bits is written as the encoding of a number that stands for
  -- its bits, and that is read back into the same field.
  pub pb_dec_varint-enc :
      (cell : ℕ)
      → cell < values
      → (v : ℕ) × (pb_enc_varint f cell ≡ pb_write (encoding 9 v))
        × (pb_dec_varint f (written v rest n e) ≡ done v (stream rest n e))
        × (v % values ≡ cell)
  unfolding pb_enc_varint pb_dec_varint
  pb_dec_varint-enc cell h =
      let l : Loads f.data_size values cell = signed_Loads i cell h in
      (
        l.number,
        ap (emit_loaded pb_encode_varint) l.loaded ∙ pb_encode_varint_lem l.number l.word,
        rw (pb_decode_varint-encoding l.number n rest e l.word)
            (rw (l.stays, l.cast) (store_same l.number (stream rest n e))),
        l.stored,
      )

  -- A signed field of the zigzag kind, of any of the four sizes, is written as the encoding of its
  -- number's zigzag form, and that is read back into the same field.
  pub pb_dec_svarint-enc :
      (cell : ℕ)
      → cell < values
      → (v : ℕ) × (pb_enc_svarint f cell ≡ pb_write (encoding 9 (zigzag v)))
        × (pb_dec_svarint f (written (zigzag v) rest n e) ≡ done v (stream rest n e))
        × (v % values ≡ cell)
  unfolding pb_enc_svarint pb_dec_svarint pb_encode_svarint pb_decode_svarint
  pb_dec_svarint-enc cell h =
      let l : Loads f.data_size values cell = signed_Loads i cell h in
      let v : ℕ = l.number in
      (
        v,
        ap (emit_loaded pb_encode_svarint) l.loaded
            ∙ pb_encode_varint_lem (zigzag v) (zigzag-lt v l.word),
        rw (pb_decode_varint-encoding (zigzag v) n rest e (zigzag-lt v l.word))
            (rw (unzigzag-zigzag v l.word, l.cast) (store_same v (stream rest n e))),
        l.stored,
      )

cast_unsigned_lem :
    {size values : ℕ} (i : IntSize size values) (v : ℕ) (s : IStream)
    → v < 2 ^ 64
    → store_checked (cast_unsigned size v) v s
      ≡ (if ltb v values then done v s else return_error integer_too_large s)
unfolding cast_unsigned store_checked
cast_unsigned_lem one v s h = ground arith
cast_unsigned_lem two v s h = ground arith
cast_unsigned_lem four v s h = ground arith
cast_unsigned_lem eight v s h = ground arith

load_unsigned_lem :
    {size values : ℕ} (i : IntSize size values) (cell : ℕ)
    → (load_unsigned size cell ≡ some cell) × (values ≤ 2 ^ 64)
unfolding load_unsigned
load_unsigned_lem one cell = (refl, omega arith)
load_unsigned_lem two cell = (refl, omega arith)
load_unsigned_lem four cell = (refl, omega arith)
load_unsigned_lem eight cell = (refl, omega arith)

module _ (f : Field) {values : ℕ} (i : IntSize f.data_size values) (rest : List ℕ) (n : ℕ)
    (e : Option ErrMsg) where
  -- Of the encoded 64-bit numbers an unsigned field takes exactly those that fit it; the others are
  -- refused as too large.
  pub pb_dec_uvarint-encoding :
      (v : ℕ)
      → v < 2 ^ 64
      → pb_dec_uvarint f (written v rest n e) ≡ (
          if ltb v values
          then done v (stream rest n e)
          else return_error integer_too_large (stream rest n e))
  unfolding pb_dec_uvarint
  pb_dec_uvarint-encoding v h =
      rw (pb_decode_varint-encoding v n rest e h) (cast_unsigned_lem i v (stream rest n e) h)

  -- An unsigned field of any of the four sizes is written as its number's encoding, and that is read
  -- back into the same field.
  pub pb_dec_uvarint-enc :
      (cell : ℕ)
      → cell < values
      → (pb_enc_uvarint f cell ≡ pb_write (encoding 9 cell))
        × (pb_dec_uvarint f (written cell rest n e) ≡ done cell (stream rest n e))
  unfolding pb_enc_uvarint
  pb_dec_uvarint-enc cell h =
      let (loaded, small) = load_unsigned_lem i cell in
      (
        ap (emit_loaded pb_encode_varint) loaded ∙ pb_encode_varint_lem cell (omega arith),
        pb_dec_uvarint-encoding cell (omega arith) ∙ rw (lt→ltb cell values h),
      )
