-- ===== src/Nanopb/Decode/Fields.antt =====
-- FirebaseLogin/Pods/nanopb/pb_decode.c: the decoding of any field, and of extensions.
pub mod Table
pub mod Union
pub mod Within
pub mod Ends
use firebase_login.Base.{ℕ, zero, suc, ◌+◌, ◌==◌, if◌then◌else◌, not, ◌&&◌, ◌||◌, length}
use firebase_login.Nanopb.Istream.{
  IStream, Outcome, done, fail, fault, stuck, callback_failed, invalid_field_type,
  pb_istream_from_buffer,
}
use firebase_login.Nanopb.Wire.{wt_string, pb_skip_field, read_raw_value, pb_make_string_substream}
use firebase_login.Nanopb.Field.{
  Field, FieldIter, field_at, current, pb_htype, pb_atype, htype_oneof, atype_static, atype_pointer,
}
use firebase_login.Nanopb.Message.{atype_callback}
use firebase_login.Nanopb.Memory.{Memory, load_pointer, store}
use firebase_login.Nanopb.Action.{Host, Change, Action, and_then, reading, fails, succeed}
use firebase_login.Nanopb.Defaults.{extension_table, iter_from_extension}
use firebase_login.Nanopb.Release.{pb_release_union_field}
use firebase_login.Nanopb.Decode.{closing}
use firebase_login.Nanopb.Decode.Static.{decode_static_field}
use firebase_login.Nanopb.Decode.Pointer.{decode_pointer_field}

-- `PB_RETURN_ERROR(stream, "callback failed")`: the substream's message is not passed on.
abbrev pub or_callback_failed :
    IStream
    → (IStream → Memory → Memory × Outcome (Unit {0}))
    → Memory × Outcome (Unit {0})
    → Memory × Outcome (Unit {0})
or_callback_failed s k (m, done a t) = k t m
or_callback_failed s k (m, fail t) = fails callback_failed m s
or_callback_failed s k (m, fault) = (m, fault)
or_callback_failed s k (m, stuck) = (m, stuck)

-- The status of a call on a stream of its own.
abbrev pub status_only : IStream → Memory × Outcome (Unit {0}) → Memory × Outcome (Unit {0})
status_only s (m, done a t) = (m, done tt s)
status_only s (m, fail t) = (m, fail s)
status_only s (m, fault) = (m, fault)
status_only s (m, stuck) = (m, stuck)

-- The loop of `decode_callback_field`: it ends if each call takes a byte or fails.
unfoldable pub callback_loop : ℕ → Action (Unit {0}) → IStream → Action (Unit {0})
callback_loop zero callback s m t = (m, stuck)
callback_loop (suc rounds) callback s m t =
    or_callback_failed s
      (λ t' m'.
        if t'.bytes_left == 0
        then closing s (m', done tt t')
        else callback_loop rounds callback s m' t')
      (callback m t)

unfoldable pub skip : ℕ → Action (Unit {0})
skip wire_type m s = and_then (λ _. succeed) (reading (pb_skip_field wire_type) m s)

-- `func` is the decoder of the field's data, `defaults` is `pb_message_set_to_defaults` for what
-- is nested in the field, and `release` is
-- `pb_release_single_field`.
module _ (host : Host) (func : Field → ℕ → Action (Unit {0})) (defaults : ℕ → ℕ → Change)
    (release : FieldIter → Change) where
  -- A `pb_callback_t` is a function and its argument.
  unfoldable pub decode_callback_field : ℕ → FieldIter → Action (Unit {0})
  unfolding callback_loop skip
  decode_callback_field wire_type it m s =
      let callback = load_pointer it.p_data m in
      let decode = host.decode_callback callback (current it) (it.p_data + 8) in
      if it.p_data == 0 || callback == 0
      then skip wire_type m s
      else if wire_type == wt_string
      then and_then (λ t m' s'. callback_loop (suc t.bytes_left) decode s' m' t)
          (reading pb_make_string_substream m s)
      else and_then
          (λ bytes m' s'. status_only s' (decode m' (pb_istream_from_buffer bytes (length bytes))))
          (reading (read_raw_value wire_type 10) m s)

  abbrev pub by_atype : ℕ → FieldIter → Action (Unit {0})
  by_atype wire_type it m s =
      let atype = pb_atype (current it).type in
      if atype == atype_static
      then decode_static_field func defaults wire_type it m s
      else if atype == atype_pointer
      then decode_pointer_field host func defaults release wire_type it m s
      else if atype == atype_callback
      then decode_callback_field wire_type it m s
      else fails invalid_field_type m s

  -- `decode_field`; the result is the iterator, as the union's release leaves it.
  unfoldable pub decode_field : ℕ → FieldIter → Action FieldIter
  unfolding decode_callback_field
  decode_field wire_type it m s =
      and_then
        (λ it' m' s'. and_then (λ _ m'' s''. (m'', done it' s'')) (by_atype wire_type it' m' s'))
        (if pb_htype (current it).type == htype_oneof
          then pb_release_union_field release it m s
          else (m, done it s))

  unfoldable pub default_extension_decoder : ℕ → ℕ → ℕ → Action (Unit {0})
  unfolding decode_field
  default_extension_decoder extension tag wire_type m s =
      if not ((field_at (extension_table host extension m) 0).tag == tag)
      then succeed m s
      else and_then (λ _. succeed)
          (decode_field wire_type (iter_from_extension host extension m)
            (store 1 (extension + 24) 1 m) s)

  -- The loop of `decode_extension`: an extension is tried as long as `pos` bytes are left.
  unfoldable pub extension_handlers : ℕ → ℕ → ℕ → ℕ → ℕ → Action (Unit {0})
  unfolding default_extension_decoder
  extension_handlers zero pos extension tag wire_type m s = (m, stuck)
  extension_handlers (suc rounds) pos extension tag wire_type m s =
      let decode = load_pointer (load_pointer extension m) m in
      if not (extension == 0) && pos == s.bytes_left
      then and_then
          (λ _ m' s'.
            extension_handlers rounds pos (load_pointer (extension + 16) m') tag wire_type m' s')
          (if decode == 0
            then default_extension_decoder extension tag wire_type m s
            else host.extension_decoder decode extension tag wire_type m s)
      else succeed m s

  unfoldable pub decode_extension : ℕ → ℕ → FieldIter → Action (Unit {0})
  unfolding extension_handlers
  decode_extension tag wire_type it m s =
      extension_handlers (suc host.links) s.bytes_left (load_pointer it.p_data m) tag wire_type m s
