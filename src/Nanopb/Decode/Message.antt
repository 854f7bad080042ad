-- ===== src/Nanopb/Decode/Message.antt =====
-- FirebaseLogin/Pods/nanopb/pb_decode.c: the loop of `pb_decode_noinit` over the fields that it
-- reads, and its last checks.
pub mod Bits
pub mod Required
pub mod Rounds
pub mod Ends
pub mod Loop
pub mod Within
pub mod Struct
use firebase_login.Base.{
  ℕ, zero, suc, ◌+◌, ◌-◌, ◌/◌, ◌%◌, ◌^◌, Option, none, some, ltb, leb, ◌==◌, if◌then◌else◌, Bool,
  true, false, not, ◌&&◌, ◌||◌, length, bit_or,
}
use firebase_login.Nanopb.Istream.{
  Outcome, done, fail, fault, stuck, missing_required_field, wrong_size_for_fixed_count_field,
}
use firebase_login.Nanopb.Wire.{pb_decode_tag}
use firebase_login.Nanopb.Field.{
  Field, FieldIter, field_at, current, begin_at, pb_ltype, pb_htype, ltype_extension,
  htype_required, htype_repeated, pb_field_iter_next, pb_field_iter_find,
}
use firebase_login.Nanopb.Memory.{Memory, load_size, store}
use firebase_login.Nanopb.Action.{Host, Change, Action, and_then, fails, succeed, no_rounds}
use firebase_login.Nanopb.Decode.Fields.{skip, decode_field, decode_extension}

-- `fields_seen`: the two words of 32 bits for PB_MAX_REQUIRED_FIELDS fields.
abbrev pub Seen : Type 0
Seen = ℕ × ℕ

abbrev pub max_required_fields : ℕ
max_required_fields = 64

abbrev pub all_bits : ℕ
all_bits = 2 ^ 32 - 1

unfoldable pub mark_seen : ℕ → Seen → Seen
mark_seen index (low, high) =
    let tmp = 2 ^ (index % 32) in
    if index / 32 == 0 then (bit_or low tmp, high) else (low, bit_or high tmp)

abbrev pub word : Seen → ℕ → ℕ
word (low, high) i = if i == 0 then low else high

-- The whole words are checked first, then the remaining bits.
abbrev pub whole_words : Seen → ℕ → Bool
whole_words seen zero = true
whole_words seen (suc i) = whole_words seen i && word seen i == all_bits

unfoldable pub is_complete : Seen → ℕ → Bool
is_complete seen count =
    whole_words seen (count / 32)
    && (count % 32 == 0 || word seen (count / 32) == all_bits / 2 ^ (32 - count % 32))

-- The number of required fields, from the iterator before it starts again; `none` means that the
-- rounds ran out.
abbrev count_at_end : FieldIter → FieldIter → ℕ
count_at_end it it' =
    let count = it.required_field_index in
    let more =
      if pb_htype (current it).type == htype_required && not ((current it').tag == 0)
      then count + 1
      else count in
    if ltb max_required_fields more then max_required_fields else more

unfoldable pub required_count : ℕ → FieldIter → Option ℕ
required_count zero it = none
required_count (suc rounds) it =
    let (more, it') = pb_field_iter_next it in
    let rest = required_count rounds it' in if more then rest else some (count_at_end it it')

-- The loop of `find_extension_field`.
unfoldable pub extension_loop : ℕ → ℕ → FieldIter → Option (Bool × FieldIter)
extension_loop zero start it = none
extension_loop (suc rounds) start it =
    let it' = (pb_field_iter_next it).1 in
    let rest = extension_loop rounds start it' in
    if pb_ltype (current it).type == ltype_extension
    then some (true, it)
    else if it'.pos == start
    then some (false, it')
    else rest

unfoldable pub find_extension_field : FieldIter → Option (Bool × FieldIter)
unfolding extension_loop
find_extension_field it = extension_loop (suc (length it.fields)) it.pos it

-- The local variables of `pb_decode_noinit`, other than `fixed_count_size`. A pointer to a field
-- is its index.
pub record Locals : Type 0 where
  pub iter : FieldIter
  pub fields_seen : Seen
  pub extension_range_start : ℕ
  pub fixed_count_field : Option ℕ

-- `fixed_count_size` lies in the memory at `counter`.
module _ (host : Host) (counter : ℕ) (func : Field → ℕ → Action (Unit {0}))
    (defaults : ℕ → ℕ → Change) (release : FieldIter → Change) where
  -- The field is skipped unless its data was taken.
  abbrev pub unless_handled : ℕ → ℕ → Locals → Action Locals
  unless_handled pos wire_type l m s =
      if not (pos == s.bytes_left)
      then (m, done l s)
      else and_then (λ _ m' s'. (m', done l s')) (skip wire_type m s)

  abbrev pub at_extension : ℕ → ℕ → Locals → Option (Bool × FieldIter) → Action Locals
  at_extension tag wire_type l none m s = (m, stuck)
  at_extension tag wire_type l (some (found, it)) m s =
      let start = if found then (current it).tag else all_bits in
      let l' = record l { iter = it; extension_range_start = start } in
      if leb start tag
      then and_then (λ _. unless_handled s.bytes_left wire_type l')
          (decode_extension host func defaults release tag wire_type it m s)
      else unless_handled s.bytes_left wire_type l' m s

  -- A field that the table has not.
  unfoldable pub unknown_field : ℕ → ℕ → Locals → Action Locals
  unknown_field tag wire_type l m s =
      if leb l.extension_range_start tag
      then at_extension tag wire_type l (find_extension_field l.iter) m s
      else unless_handled s.bytes_left wire_type l m s

  -- Whether the array of fixed size that was read last has all its entries.
  unfoldable pub has_all_entries : Locals → Memory → Bool
  has_all_entries l m = elim l.fixed_count_field [
    | none ↦ true
    | some pos ↦ load_size counter m == (field_at l.iter.fields pos).array_size
  ]

  abbrev pub is_counted_here : Locals → Bool
  is_counted_here l = elim l.fixed_count_field [ none ↦ false | some pos ↦ pos == l.iter.pos ]

  -- An array of fixed size has no counter in the struct.
  unfoldable pub use_counter : Locals → Action Locals
  unfolding has_all_entries
  use_counter l m s =
      let it = l.iter in
      let counted = record l { iter = record it { p_size = counter } } in
      if not (pb_htype (current it).type == htype_repeated && it.p_size == it.p_data)
      then (m, done l s)
      else if is_counted_here l
      then (m, done counted s)
      else if not (has_all_entries l m)
      then fails wrong_size_for_fixed_count_field m s
      else (store 4 counter 0 m, done (record counted { fixed_count_field = some it.pos }) s)

  abbrev pub seen_now : Locals → Locals
  seen_now l =
      let it = l.iter in
      if pb_htype (current it).type == htype_required
        && ltb it.required_field_index max_required_fields
      then record l { fields_seen = mark_seen it.required_field_index l.fields_seen }
      else l

  -- A field that the table has.
  unfoldable pub known_field : ℕ → Locals → Action Locals
  unfolding use_counter
  known_field wire_type l m s =
      and_then
        (λ l' m' s'.
          and_then (λ it m'' s''. (m'', done (record (seen_now l') { iter = it }) s''))
            (decode_field host func defaults release wire_type l'.iter m' s'))
        (use_counter l m s)

  abbrev pub at_field : ℕ → ℕ → Locals → Option (Bool × FieldIter) → Action Locals
  at_field tag wire_type l none m s = (m, stuck)
  at_field tag wire_type l (some (true, it)) m s =
      known_field wire_type (record l { iter = it }) m s
  at_field tag wire_type l (some (false, it)) m s =
      unknown_field tag wire_type (record l { iter = it }) m s

  -- What follows the tag. At the end of the message the loop is left.
  abbrev pub with_tag :
      (ℕ → ℕ → Action Locals) → Locals → Memory → Bool × Outcome (ℕ × ℕ) → Memory × Outcome Locals
  with_tag k l m (eof, done (wire_type, tag) s) = k wire_type tag m s
  with_tag k l m (true, fail s) = (m, done l s)
  with_tag k l m (false, fail s) = (m, fail s)
  with_tag k l m (eof, fault) = (m, fault)
  with_tag k l m (eof, stuck) = (m, stuck)

  -- The loop over the fields that are read. Each tag takes at least one byte.
  unfoldable pub fields_loop : ℕ → Locals → Action Locals
  unfolding known_field unknown_field
  fields_loop zero l m s = (m, stuck)
  fields_loop (suc rounds) l m s =
      if s.bytes_left == 0
      then (m, done l s)
      else with_tag
          (λ wire_type tag m' s'.
            and_then (λ l' m'' s''. fields_loop rounds l' m'' s'')
              (at_field tag wire_type l (pb_field_iter_find l.iter tag) m' s'))
          l m (pb_decode_tag s)

  unfoldable pub last_checks : Locals → Action (Unit {0})
  unfolding has_all_entries required_count is_complete
  last_checks l m s =
      if not (has_all_entries l m)
      then fails wrong_size_for_fixed_count_field m s
      else elim (required_count (suc (length l.iter.fields)) l.iter) [
        | none ↦ no_rounds m s
        | some count ↦
            if not (is_complete l.fields_seen count)
            then fails missing_required_field m s
            else succeed m s
      ]

  abbrev pub first_locals : ℕ → ℕ → Locals
  first_locals fields dest_struct = record {
    iter = begin_at (host.tables fields) dest_struct;
    fields_seen = (0, 0);
    extension_range_start = 0;
    fixed_count_field = none;
  }

  -- `pb_decode_noinit`, over what its fields nest.
  unfoldable pub decode_message : ℕ → ℕ → Action (Unit {0})
  unfolding fields_loop last_checks
  decode_message fields dest_struct m s =
      and_then last_checks
        (fields_loop (suc s.bytes_left) (first_locals fields dest_struct) (store 4 counter 0 m) s)
