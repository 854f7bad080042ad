-- ===== src/Nanopb/Message/Sized.antt =====
-- The encoding of a message into a buffer against its counted size.
use firebase_login.Base.{
  ℕ, ◌+◌, ◌^◌, ◌≤◌, ◌<◌, ◌≡◌, sym, ap, ◌∙◌, arith, List, ◌++◌, length, none, some, Bool, true,
  false,
}
use firebase_login.Nanopb.Ostream.{Emit, OStream, done, sizing_stream}
use firebase_login.Nanopb.Ostream.Room.{extend}
use firebase_login.Nanopb.Varint.Encoding.{encoding}
use firebase_login.Nanopb.Memory.{Memory}
use firebase_login.Nanopb.Encode.{Code}
use firebase_login.Nanopb.Encode.Uniform.{Ready, IsFail, Writes, Outcome}
use firebase_login.Nanopb.Encode.Compose.{
  counted, counted_size, uncounted, pb_encode_submessage-Writes,
}
use firebase_login.Nanopb.Message.{pb_encode, pb_encode_delimited, pb_get_encoded_size, size_of}
use firebase_login.Nanopb.Message.Fields.{Nests, CallbacksUniform}
use firebase_login.Nanopb.Message.Uniform.{pb_encode-Uniform}

-- The size that is counted, of an encoder that writes and of one that fails.
size_of-done :
    (e : Emit) (out : List ℕ)
    → length out < 2 ^ 62
    → Writes e out
    → size_of (e sizing_stream) ≡ some (length out)
size_of-done e out short w =
    ap size_of (counted e out short w) ∙ ap some (counted_size (length out) short)

some-injective : (a b : ℕ) → some a ≡ some b → a ≡ b
some-injective a b h = cc

-- Whether an encoder writes `out` is told by the counted size.
size_tells :
    (e : Emit) (out : List ℕ) (ok : Bool) (n : ℕ)
    → length out < 2 ^ 62
    → Outcome e out ok
    → size_of (e sizing_stream) ≡ some n
    → Writes e out × (length out ≡ n)
size_tells e out true n short w h =
    (w, some-injective (length out) n (sym (size_of-done e out short w) ∙ h))
size_tells e out false n short f h =
    let (t, failed) = uncounted e f in
    let nothing : none ≡ some n = sym (ap size_of failed) ∙ h in absurd (cc)

no_size_tells :
    (e : Emit) (out : List ℕ) (ok : Bool) (s : OStream)
    → length out < 2 ^ 62
    → Outcome e out ok
    → Ready s
    → size_of (e sizing_stream) ≡ none
    → IsFail (e s)
no_size_tells e out true s short w r h =
    let something : some (length out) ≡ none = sym (size_of-done e out short w) ∙ h in absurd (cc)
no_size_tells e out false s short f r h = f.on_buffer s r

module _ (code : Code) (m : Memory) (callbacks : CallbacksUniform code m) (depth fields : ℕ)
    (nests : Nests code.tables depth fields) (src_struct : ℕ) where
  -- The encoding of the message.
  abbrev pub message_bytes : List ℕ
  message_bytes = (pb_encode-Uniform code m callbacks depth fields nests src_struct).out

  outcome :
      length message_bytes < 2 ^ 62
      → Outcome
          (pb_encode code m depth fields src_struct)
          message_bytes
          (pb_encode-Uniform code m callbacks depth fields nests src_struct).succeeds
  outcome = (pb_encode-Uniform code m callbacks depth fields nests src_struct).law

  tells :
      (n : ℕ)
      → length message_bytes < 2 ^ 62
      → pb_get_encoded_size code m depth fields src_struct ≡ some n
      → Writes (pb_encode code m depth fields src_struct) message_bytes × (length message_bytes ≡ n)
  unfolding pb_get_encoded_size
  tells n short size =
      size_tells (pb_encode code m depth fields src_struct) message_bytes _ n short (outcome short)
        size

  -- Let the encoding callbacks write the same bytes at every call, let no table of the message or
  -- of a submessage hold extensions, let the messages nest less deep than the depth, and let the
  -- encoding have less than 2 ^ 62 bytes, and the buffer less than 2 ^ 63 and no earlier error. If pb_get_encoded_size gives a size, then pb_encode into any
  -- buffer that has room for so many bytes succeeds and appends the message's encoding, which has
  -- exactly this size.
  pub pb_encode-sized :
      (s : OStream) (n : ℕ)
      → length message_bytes < 2 ^ 62
      → Ready s
      → pb_get_encoded_size code m depth fields src_struct ≡ some n
      → s.bytes_written + n ≤ s.max_size
      → (pb_encode code m depth fields src_struct s ≡ done (extend s message_bytes))
        × (length message_bytes ≡ n)
  pb_encode-sized s n short r size room =
      let (w, e) = tells n short size in (w.writes s r (omega (arith, e, room)), e)

  -- Under the conditions of pb_encode-sized, pb_encode returns false if the buffer has no room for the size
  -- that pb_get_encoded_size gives.
  pub pb_encode-full :
      (s : OStream) (n : ℕ)
      → length message_bytes < 2 ^ 62
      → Ready s
      → pb_get_encoded_size code m depth fields src_struct ≡ some n
      → s.max_size < s.bytes_written + n
      → IsFail (pb_encode code m depth fields src_struct s)
  pb_encode-full s n short r size full =
      let (w, e) = tells n short size in w.refuses s r (omega (arith, e, full))

  -- Under the conditions of pb_encode-sized, pb_encode returns false on every buffer if pb_get_encoded_size does.
  pb_encode_unsized :
      (s : OStream)
      → length message_bytes < 2 ^ 62
      → Ready s
      → pb_get_encoded_size code m depth fields src_struct ≡ none
      → IsFail (pb_encode code m depth fields src_struct s)
  unfolding pb_get_encoded_size
  pb_encode_unsized s short r size =
      no_size_tells (pb_encode code m depth fields src_struct) message_bytes _ s short
        (outcome short) r size

  -- Under the conditions of pb_encode-sized, into a buffer with room pb_encode_delimited writes the size that
  -- pb_get_encoded_size gives as a varint, and then the bytes that pb_encode writes.
  pub pb_encode_delimited-sized :
      (s : OStream) (n : ℕ)
      → length message_bytes < 2 ^ 62
      → Ready s
      → pb_get_encoded_size code m depth fields src_struct ≡ some n
      → s.bytes_written + length (encoding 9 n ++ message_bytes) ≤ s.max_size
      → pb_encode_delimited code m depth fields src_struct s
        ≡ done (extend s (encoding 9 n ++ message_bytes))
  unfolding pb_encode_delimited
  pb_encode_delimited-sized s n short r size room =
      let (w, e) = tells n short size in
      let frame = λ (k : ℕ). encoding 9 k ++ message_bytes in
      let framed =
        pb_encode_submessage-Writes (pb_encode code m depth fields src_struct) message_bytes short
          w in
      framed.writes s r (rw e room) ∙ ap (λ k. done (extend s (frame k))) e
