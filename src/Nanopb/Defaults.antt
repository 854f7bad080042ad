-- ===== src/Nanopb/Defaults.antt =====
-- FirebaseLogin/Pods/nanopb/pb_decode.c: the fields of a message get their default values, and
-- what they point to is released.
pub mod Total
pub mod Counted
pub mod Within
use firebase_login.Base.{
  ℕ, List, zero, suc, ◌+◌, none, some, ◌==◌, if◌then◌else◌, not, ◌&&◌, ◌||◌, length, replicate,
}
use firebase_login.Nanopb.Field.{
  Field, FieldIter, current, begin_at, pb_ltype, pb_htype, pb_atype, ltype_submessage,
  ltype_extension, htype_repeated, htype_oneof, atype_static, atype_pointer, pb_field_iter_begin,
  pb_field_iter_next,
}
use firebase_login.Nanopb.Presence.{htype_optional}
use firebase_login.Nanopb.Memory.{Memory, load_pointer, read_bytes, store, write_bytes}
use firebase_login.Nanopb.Action.{Host, Change}

-- One change of the memory after another.
infixl 5 ◌then_change◌
abbrev pub ◌then_change◌ : Change → Change → Change
(a then_change b) m = elim (a m) [ none ↦ none | some m' ↦ b m' ]

abbrev pub unchanged : Change
unchanged m = some m

abbrev pub memset_zero : ℕ → ℕ → Memory → Memory
memset_zero p count m = write_bytes p (replicate count 0) m

-- `do … while (pb_field_iter_next(&iter))`, for as many rounds as there are fields.
unfoldable pub each_field : (FieldIter → Change) → ℕ → FieldIter → Change
each_field one zero it m = none
each_field one (suc rounds) it m =
    let (more, it') = pb_field_iter_next it in
    let rest = each_field one rounds it' in
    (one it then_change (if more then rest else unchanged)) m

module _ (host : Host) where
  -- A `pb_extension_t` has its type at 0, its data's address at 8, the next one at 16 and `found`
  -- at 24; its type has the decoder at 0 and the field's address at 16.
  abbrev pub extension_table : ℕ → Memory → List Field
  extension_table extension m = host.tables (load_pointer (load_pointer extension m + 16) m)

  unfoldable pub iter_from_extension : ℕ → Memory → FieldIter
  iter_from_extension extension m =
      let it = begin_at (extension_table extension m) (load_pointer (extension + 8) m) in
      let dest = load_pointer (extension + 8) m in
      record it {
        p_data = if pb_atype (current it).type == atype_pointer then extension + 8 else dest;
        p_size = extension + 24;
      }

  -- The loop over a list of extensions; `ready` is done to each one's memory first.
  unfoldable pub each_extension : (ℕ → Memory → Memory) → (FieldIter → Change) → ℕ → ℕ → Change
  unfolding iter_from_extension
  each_extension ready one zero extension m = none
  each_extension ready one (suc rounds) extension m =
      if extension == 0
      then some m
      else elim (one (iter_from_extension extension (ready extension m)) (ready extension m)) [
        | none ↦ none
        | some m' ↦ each_extension ready one rounds (load_pointer (extension + 16) m') m'
      ]

  -- `pb_message_set_to_defaults`, over `pb_field_set_to_default`.
  unfoldable pub message_to_defaults : (FieldIter → Change) → ℕ → ℕ → Change
  unfolding each_field
  message_to_defaults one fields dest_struct m =
      let (nonempty, it) = pb_field_iter_begin (host.tables fields) dest_struct in
      if nonempty then each_field one (length (host.tables fields)) it m else some m

  -- The contents of a static field: its submessage's defaults, its default value, or zeros.
  unfoldable pub init_data : (FieldIter → Change) → FieldIter → Change
  unfolding message_to_defaults
  init_data one it m =
      let field = current it in
      elim field.ptr [
        | none ↦
            if pb_ltype field.type == ltype_submessage
            then none
            else some (memset_zero it.p_data field.data_size m)
        | some p ↦
            if pb_ltype field.type == ltype_submessage
            then message_to_defaults one p it.p_data m
            else some (write_bytes it.p_data (read_bytes field.data_size p m) m)
      ]

  -- `pb_field_set_to_default`; `one` is the same for what is nested in the field.
  unfoldable pub field_to_default : (FieldIter → Change) → FieldIter → Change
  unfolding each_extension init_data
  field_to_default one it m =
      let field = current it in
      let htype = pb_htype field.type in
      let atype = pb_atype field.type in
      let counted = htype == htype_repeated || htype == htype_oneof in
      if pb_ltype field.type == ltype_extension
      then each_extension (λ ext. store 1 (ext + 24) 0) one (suc host.links)
          (load_pointer it.p_data m) m
      else if atype == atype_static
      then (if htype == htype_optional && not (it.p_size == it.p_data)
          then init_data one it (store 1 it.p_size 0 m)
          else if counted
          then some (store 4 it.p_size 0 m)
          else init_data one it m)
      else if atype == atype_pointer
      then (let m' = store 8 it.p_data 0 m in some (if counted then store 4 it.p_size 0 m' else m'))
      else some m

  -- For messages that nest less deep than `depth`.
  unfoldable pub pb_field_set_to_default : ℕ → FieldIter → Change
  unfolding field_to_default
  pb_field_set_to_default zero it m = none
  pb_field_set_to_default (suc depth) it m = field_to_default (pb_field_set_to_default depth) it m

  unfoldable pub pb_message_set_to_defaults : ℕ → ℕ → ℕ → Change
  unfolding pb_field_set_to_default
  pb_message_set_to_defaults depth fields dest_struct =
      message_to_defaults (pb_field_set_to_default depth) fields dest_struct
