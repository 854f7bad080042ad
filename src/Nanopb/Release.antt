-- ===== src/Nanopb/Release.antt =====
-- FirebaseLogin/Pods/nanopb/pb_decode.c: what a message points to is released.
pub mod Cleared
pub mod Total
pub mod Within
use firebase_login.Base.{
  ℕ, zero, suc, Option, none, some, ltb, ◌==◌, if◌then◌else◌, Bool, true, false, not, ◌&&◌, ◌||◌,
  length,
}
use firebase_login.Nanopb.Istream.{done, invalid_union_tag, iterator_error}
use firebase_login.Nanopb.Field.{
  FieldIter, current, pb_ltype, pb_htype, pb_atype, ltype_submessage, ltype_extension,
  htype_repeated, htype_oneof, atype_static, atype_pointer, pb_field_iter_begin, pb_field_iter_find,
  add_pointer,
}
use firebase_login.Nanopb.Message.{atype_callback}
use firebase_login.Nanopb.Memory.{Memory, load_pointer, load_size, store}
use firebase_login.Nanopb.Action.{Host, Change, Action, and_then, changing, fails, no_rounds}
use firebase_login.Nanopb.Defaults.{◌then_change◌, unchanged, each_field, each_extension}

-- What `pb_release_single_field` releases more than one of: the entries at `p`, `step` apart.
unfoldable pub each_item : (ℕ → Change) → ℕ → ℕ → ℕ → Change
each_item one step zero p m = some m
each_item one step (suc count) p m =
    (one p then_change each_item one step count (add_pointer p step)) m

module _ (host : Host) where
  -- `pb_release`, over `pb_release_single_field`.
  unfoldable pub release_message : (FieldIter → Change) → ℕ → ℕ → Change
  unfolding each_field
  release_message one fields dest_struct m =
      let (nonempty, it) = pb_field_iter_begin (host.tables fields) dest_struct in
      if dest_struct == 0
      then some m
      else if nonempty
      then each_field one (length (host.tables fields)) it m
      else some m

  -- The number of submessages in the field.
  abbrev pub item_count : FieldIter → Memory → ℕ
  item_count it m =
      let field = current it in
      let is_static = pb_atype field.type == atype_static in
      let count =
        if is_static && it.p_size == it.p_data then field.array_size else load_size it.p_size m in
      if not (pb_htype field.type == htype_repeated)
      then 1
      else if is_static && ltb field.array_size count
      then field.array_size
      else count

  unfoldable pub release_nested : (FieldIter → Change) → FieldIter → Change
  unfolding each_item release_message each_extension
  release_nested one it m =
      let field = current it in
      let atype = pb_atype field.type in
      let item = if atype == atype_pointer then load_pointer it.p_data m else it.p_data in
      if pb_ltype field.type == ltype_extension
      then each_extension host (λ ext m'. m') one (suc host.links) (load_pointer it.p_data m) m
      else if pb_ltype field.type == ltype_submessage && not (atype == atype_callback)
      then (if item == 0 then some m else elim field.ptr [
        | none ↦ none
        | some fields ↦
            each_item (release_message one fields) field.data_size (item_count it m) item m
      ])
      else some m

  -- `pb_free(*pItem); *pItem++ = NULL;`
  abbrev pub free_entry : ℕ → Change
  free_entry p m = some (store 8 p 0 (host.free (load_pointer p m) m))

  abbrev pub no_size : Bool → ℕ → Change
  no_size repeated p_size m = some (if repeated then store 4 p_size 0 m else m)

  -- The entries of an array of strings or bytes.
  abbrev pub free_entries : FieldIter → Memory → Change
  free_entries it m =
      let ltype = pb_ltype (current it).type in
      if pb_htype (current it).type == htype_repeated && (ltype == 0x07 || ltype == 0x06)
      then each_item free_entry 8 (load_size it.p_size m) (load_pointer it.p_data m)
      else unchanged

  -- The entries, and the array's size.
  abbrev pub release_entries : FieldIter → Memory → Change
  release_entries it m =
      free_entries it m then_change no_size (pb_htype (current it).type == htype_repeated) it.p_size

  -- What is done for a pointer after what it points to was released.
  unfoldable pub release_pointer : FieldIter → Change
  unfolding each_item
  release_pointer it m = (release_entries it m then_change free_entry it.p_data) m

  -- `pb_release_single_field`; `one` is the same for what is nested in the field.
  unfoldable pub release_field : (FieldIter → Change) → FieldIter → Change
  unfolding release_nested release_pointer
  release_field one it m =
      let field = current it in
      if pb_htype field.type == htype_oneof && not (load_size it.p_size m == field.tag)
      then some m
      else (release_nested one it
            then_change (if pb_atype field.type == atype_pointer
                then release_pointer it
                else unchanged))
          m

  -- For messages that nest less deep than `depth`.
  unfoldable pub pb_release_single_field : ℕ → FieldIter → Change
  unfolding release_field
  pb_release_single_field zero it m = none
  pb_release_single_field (suc depth) it m = release_field (pb_release_single_field depth) it m

  unfoldable pub pb_release : ℕ → ℕ → ℕ → Change
  unfolding pb_release_single_field
  pb_release depth fields dest_struct =
      release_message (pb_release_single_field depth) fields dest_struct

-- The iterator after a search, with what is done where it fails.
abbrev pub found_or :
    Action FieldIter → (FieldIter → Action FieldIter) → Option (Bool × FieldIter) → Action FieldIter
found_or missing k none = no_rounds
found_or missing k (some (false, it)) = missing
found_or missing k (some (true, it)) = k it

-- The end of `pb_release_union_field`: a pointer is NULL even if the decoding fails.
abbrev pub back_at_field : FieldIter → Action FieldIter
back_at_field it m s =
    if pb_atype (current it).type == atype_pointer
    then (store 8 it.p_data 0 m, done it s)
    else (m, done it s)

-- `pb_release_union_field`, over `pb_release_single_field`; the result is the iterator.
unfoldable pub pb_release_union_field : (FieldIter → Change) → FieldIter → Action FieldIter
pb_release_union_field release it m s =
    let old_tag = load_size it.p_size m in
    let new_tag = (current it).tag in
    if old_tag == 0
    then (m, done it s)
    else if old_tag == new_tag
    then (m, done it s)
    else found_or (fails invalid_union_tag)
        (λ old m' s'.
          and_then
            (λ _. found_or (fails iterator_error) back_at_field (pb_field_iter_find old new_tag))
            (changing (release old) m' s'))
        (pb_field_iter_find it old_tag) m s
