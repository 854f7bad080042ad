-- ===== src/Nanopb/Decode/Nested.antt =====
-- FirebaseLogin/Pods/nanopb/pb_decode.c: the decoding of messages and of what is nested in them.
pub mod Ends
pub mod Within
pub mod Struct
mod Tests
use firebase_login.Base.{ℕ, zero, suc, none, some, ◌==◌, if◌then◌else◌}
use firebase_login.Nanopb.Istream.{Outcome, done, fail, fault, stuck, invalid_field_descriptor}
use firebase_login.Nanopb.Varint.{pb_decode_varint32}
use firebase_login.Nanopb.Wire.{pb_make_string_substream}
use firebase_login.Nanopb.Field.{Field, pb_htype, htype_repeated}
use firebase_login.Nanopb.Memory.{Memory, store}
use firebase_login.Nanopb.Action.{Host, Change, Action, and_then, reading, changing, fails, decoder}
use firebase_login.Nanopb.Defaults.{pb_message_set_to_defaults}
use firebase_login.Nanopb.Release.{pb_release_single_field, pb_release}
use firebase_login.Nanopb.Decode.{closing}
use firebase_login.Nanopb.Decode.Message.{decode_message}

-- `status = body(&substream, …)`, the close, and `return status`.
unfoldable pub in_substream : Action (Unit {0}) → Action (Unit {0})
in_substream body m s =
    and_then (λ t m' s'. closing s' (body m' t)) (reading pb_make_string_substream m s)

-- `pb_dec_submessage`, over `pb_decode` and `pb_decode_noinit`.
unfoldable pub pb_dec_submessage :
    (ℕ → ℕ → Action (Unit {0})) → (ℕ → ℕ → Action (Unit {0})) → Field → ℕ → Action (Unit {0})
unfolding in_substream
pb_dec_submessage decode decode_noinit field dest m s = elim field.ptr [
  | none ↦ and_then (λ _. fails invalid_field_descriptor) (reading pb_make_string_substream m s)
  | some fields ↦
      in_substream
        (if pb_htype field.type == htype_repeated
          then decode fields dest
          else decode_noinit fields dest)
        m s
]

-- What a message points to is released when the decoding fails.
abbrev pub released : Change → Memory × Outcome (Unit {0}) → Memory × Outcome (Unit {0})
released release (m, fail s) = elim (release m) [ none ↦ (m, stuck) | some m' ↦ (m', fail s) ]
released release (m, done a s) = (m, done a s)
released release (m, fault) = (m, fault)
released release (m, stuck) = (m, stuck)

-- `pb_decode`, over `pb_decode_noinit`.
unfoldable pub initialized : Change → Change → Action (Unit {0}) → Action (Unit {0})
initialized defaults release decode_noinit m s =
    and_then (λ _ m' s'. released release (decode_noinit m' s')) (changing defaults m s)

-- For messages that nest less deep than `depth`.
module _ (host : Host) where
  unfoldable pub pb_decode_noinit : ℕ → ℕ → ℕ → Action (Unit {0})
  unfolding initialized pb_dec_submessage
  pb_decode_noinit zero fields dest_struct m s = (m, stuck)
  pb_decode_noinit (suc depth) fields dest_struct m s =
      decode_message host (host.fixed_count_size depth)
        (decoder host (
          pb_dec_submessage
            (λ f p.
              initialized (pb_message_set_to_defaults host depth f p) (pb_release host depth f p)
                (pb_decode_noinit depth f p))
            (pb_decode_noinit depth)))
        (pb_message_set_to_defaults host depth) (pb_release_single_field host (suc depth)) fields
        dest_struct m s

  unfoldable pub pb_decode : ℕ → ℕ → ℕ → Action (Unit {0})
  unfolding pb_decode_noinit
  pb_decode depth fields dest_struct =
      initialized (pb_message_set_to_defaults host depth fields dest_struct)
        (pb_release host depth fields dest_struct) (pb_decode_noinit depth fields dest_struct)

  unfoldable pub pb_decode_delimited_noinit : ℕ → ℕ → ℕ → Action (Unit {0})
  unfolding pb_decode_noinit
  pb_decode_delimited_noinit depth fields dest_struct =
      in_substream (pb_decode_noinit depth fields dest_struct)

  unfoldable pub pb_decode_delimited : ℕ → ℕ → ℕ → Action (Unit {0})
  unfolding pb_decode
  pb_decode_delimited depth fields dest_struct = in_substream (pb_decode depth fields dest_struct)

  unfoldable pub pb_decode_nullterminated : ℕ → ℕ → ℕ → Action (Unit {0})
  unfolding pb_decode
  pb_decode_nullterminated depth fields dest_struct = pb_decode depth fields dest_struct

-- `pb_decode_bool` is the decoder of a bool.
unfoldable pub pb_decode_bool : ℕ → Action (Unit {0})
pb_decode_bool dest m s =
    and_then (λ value m' s'. (store 1 dest (if value == 0 then 0 else 1) m', done tt s'))
      (reading pb_decode_varint32 m s)
