-- ===== src/Nanopb/Blob/RoundTrip.antt =====
-- Texts and byte arrays as they are written.
use firebase_login.Base.{
  ℕ, zero, suc, ◌+◌, ◌%◌, ◌^◌, ◌≤◌, ◌<◌, ◌≡◌, refl, ap, arith, List, [], ◌∷◌, ◌++◌, length, some,
  Option, false, ◌∙◌, le→ltb_false, All, ◌≢◌,
}
use firebase_login.Nanopb.Istream.{IStream, done, pb_read, ErrMsg}
use firebase_login.Nanopb.Istream.Reads.{stream, pb_read-zero}
use native.Mathlib.Nat.{zero-add}
use firebase_login.Nanopb.Ostream.{pb_write, ◌>>◌}
use firebase_login.Nanopb.Varint.Encoding.{encoding, pb_encode_varint_lem}
use firebase_login.Nanopb.Wire.{pb_encode_string}
use firebase_login.Nanopb.Wire.RoundTrip.{read_front}
use firebase_login.Nanopb.Field.{Field, pb_atype}
use firebase_login.Nanopb.Blob.{is_pointer, text_of, pb_enc_string, pb_enc_bytes}

-- A text in memory: its characters are not 0, and a 0 follows them.
abbrev IsText : List ℕ → Type 0
IsText text = All (λ c. c ≢ 0) text

text_of-terminated :
    (max : ℕ) (text memory : List ℕ)
    → IsText text
    → length text < max
    → text_of max (text ++ (0 ∷ memory)) ≡ text
text_of-terminated zero text memory h lim = absurd (omega arith)
text_of-terminated (suc max) [] memory h lim = refl
text_of-terminated (suc max) (c ∷ text) memory h lim =
    ground (arith, text_of-terminated max text memory h.1)

pub read_text :
    (text rest : List ℕ) (n : ℕ) (e : Option ErrMsg)
    → pb_read (length text) (stream (text ++ rest) (length text + n) e)
      ≡ done text (stream rest n e)
read_text [] rest n e = pb_read-zero _ ∙ ap (λ m. done [] (stream rest m e)) (zero-add n)
read_text (c ∷ text) rest n e =
    read_front (length (c ∷ text)) (c ∷ text) rest n e refl (omega arith)

-- A string with its length in front.
abbrev pub framed : List ℕ → List ℕ → ℕ → Option ErrMsg → IStream
framed text rest n e =
    stream (encoding 9 (length text) ++ (text ++ rest))
      (length (encoding 9 (length text)) + (length text + n)) e

module _ (f : Field) (static : is_pointer f ≡ false) (text : List ℕ)
    (fits : length text < f.data_size) (word : f.data_size < 2 ^ 32) where
  -- A text that fits a field in the struct with its terminator is written as its length and its
  -- characters, whatever stands in memory behind it.
  pub pb_enc_string_lem :
      (memory : List ℕ)
      → IsText text
      → pb_enc_string f (some (text ++ (0 ∷ memory)))
        ≡ (pb_write (encoding 9 (length text)) >> pb_write text)
  unfolding pb_enc_string pb_encode_string
  pb_enc_string_lem memory h = rw (
    static,
    text_of-terminated f.data_size text memory h fits,
    pb_encode_varint_lem (length text) (omega arith),
  )

module _ (f : Field) (static : pb_atype f.type ≡ 0) (bytes : List ℕ)
    (fits : length bytes + 4 ≤ f.data_size) (word : f.data_size < 2 ^ 32) where
  -- A byte array that fits a field in the struct is written as its length and its bytes.
  pub pb_enc_bytes_lem :
      pb_enc_bytes f (some bytes) ≡ (pb_write (encoding 9 (length bytes)) >> pb_write bytes)
  unfolding pb_enc_bytes pb_encode_string
  pb_enc_bytes_lem =
      let room : (length bytes + 4) % 2 ^ 64 ≡ length bytes + 4 = omega arith in
      rw (
        room,
        le→ltb_false (length bytes + 4) (length bytes) (omega arith),
        le→ltb_false f.data_size (length bytes + 4) fits,
        static,
        pb_encode_varint_lem (length bytes) (omega arith),
      )
