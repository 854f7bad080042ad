-- ===== src/Nanopb/Decode.antt =====
-- FirebaseLogin/Pods/nanopb/pb_decode.c: what the decoders of fields share.
pub mod Static
pub mod Pointer
pub mod Fields
pub mod Message
pub mod Nested
pub mod Substream
pub mod Layout
pub mod Tests
use firebase_login.Base.{
  ℕ, List, zero, suc, ◌+◌, ◌-◌, ◌*◌, ◌/◌, ◌%◌, ◌^◌, Option, none, some, ltb, leb, ◌==◌,
  if◌then◌else◌, Bool, true, false, not, ◌&&◌, ◌||◌, length,
}
use firebase_login.Nanopb.Istream.{
  ErrMsg, IStream, Outcome, done, fail, fault, stuck, set_error, array_overflow,
  too_many_array_entries, callback_failed, invalid_field_type, pb_istream_from_buffer,
}
use firebase_login.Nanopb.Wire.{
  wt_string, pb_skip_field, read_raw_value, pb_make_string_substream, close_after,
}
use firebase_login.Nanopb.Field.{
  Field, FieldIter, field_at, current, pb_ltype, pb_htype, pb_atype, ltype_submessage,
  htype_required, htype_repeated, htype_oneof, atype_static, atype_pointer, size_max, add_pointer,
}
use firebase_login.Nanopb.Presence.{htype_optional}
use firebase_login.Nanopb.Message.{atype_callback}
use firebase_login.Nanopb.Encode.{last_packable}
use firebase_login.Nanopb.Memory.{Memory, load_pointer, load_size, store}
use firebase_login.Nanopb.Action.{
  Host, Change, Action, and_then, reading, changing, fails, succeed, undefined, no_rounds,
  allocate_at,
}
use firebase_login.Nanopb.Defaults.{
  ◌then_change◌, unchanged, memset_zero, extension_table, iter_from_extension,
}
use firebase_login.Nanopb.Release.{pb_release_union_field}

-- `(*size)++`
abbrev pub add_one : ℕ → Memory → Memory
add_one p m = store 4 p ((load_size p m + 1) % 2 ^ 32) m

-- The entry of an array at an index; both factors have 32 bits.
abbrev pub item_at : Field → ℕ → ℕ → ℕ
item_at field p index = add_pointer p (field.data_size * index % 2 ^ 32)

-- `pb_close_string_substream`, and `return status`.
abbrev pub closing {ℓ} : {A : Type ℓ} → IStream → Memory × Outcome A → Memory × Outcome A
closing s (m, status) = (m, close_after s status)

-- `defaults` is `pb_message_set_to_defaults`, for what is nested in a field.
module _ (defaults : ℕ → ℕ → Change) where
  abbrev pub defaults_at : Option ℕ → ℕ → Change
  defaults_at none p m = none
  defaults_at (some fields) p m = defaults fields p m

  -- A submessage in memory that has not held one.
  abbrev pub fresh_submessage : Field → ℕ → Change
  fresh_submessage field p m = defaults_at field.ptr p (memset_zero p field.data_size m)
