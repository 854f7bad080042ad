-- ===== src/Nanopb/Field.antt =====
-- FirebaseLogin/Pods/nanopb/pb.h and pb_common.c: field descriptors, and the iterator over the
-- fields of a message.
pub mod Find
pub mod Table
use firebase_login.Base.{
  ℕ, zero, suc, ◌+◌, ◌-◌, ◌*◌, ◌%◌, ◌^◌, List, [], ◌∷◌, Option, none, some, ◌==◌, if◌then◌else◌,
  Bool, true, false, ◌&&◌, not, bit_and, length,
}

-- `pb_field_t`. `size_offset` may be negative: it is given as the 64 bits that are added to a
-- pointer. `ptr` is the address of a submessage's fields or of a default value; `none` is NULL.
pub record Field : Type 0 where
  pub tag : ℕ
  pub type : ℕ
  pub data_offset : ℕ
  pub size_offset : ℕ
  pub data_size : ℕ
  pub array_size : ℕ
  pub ptr : Option ℕ

-- PB_LAST_FIELD, the entry behind a message's fields.
abbrev pub last_field : Field
last_field = record {
  tag = 0;
  type = 0;
  data_offset = 0;
  size_offset = 0;
  data_size = 0;
  array_size = 0;
  ptr = none;
}

-- PB_LTYPE, PB_HTYPE and PB_ATYPE of a field's type, and their values.
unfoldable pub pb_ltype : ℕ → ℕ
pb_ltype x = bit_and x 0x0F

unfoldable pub pb_htype : ℕ → ℕ
pb_htype x = bit_and x 0x30

unfoldable pub pb_atype : ℕ → ℕ
pb_atype x = bit_and x 0xC0

abbrev pub ltype_submessage : ℕ
ltype_submessage = 0x08

abbrev pub ltype_extension : ℕ
ltype_extension = 0x09

abbrev pub htype_required : ℕ
htype_required = 0x00

abbrev pub htype_repeated : ℕ
htype_repeated = 0x20

abbrev pub htype_oneof : ℕ
htype_oneof = 0x30

abbrev pub atype_static : ℕ
atype_static = 0x00

abbrev pub atype_pointer : ℕ
atype_pointer = 0x80

-- PB_SIZE_MAX of the 32-bit `pb_size_t`
abbrev pub size_max : ℕ
size_max = 0xFFFF_FFFF

-- `pb_field_iter_t`. `fields` are the entries in front of the terminator, and `pos` is the index
-- of the entry that the pointer of that name points to.
pub record FieldIter : Type 0 where
  pub fields : List Field
  pub pos : ℕ
  pub required_field_index : ℕ
  pub dest_struct : ℕ
  pub p_data : ℕ
  pub p_size : ℕ

-- `fields[i]`
abbrev pub field_at : List Field → ℕ → Field
field_at [] i = last_field
field_at (f ∷ fs) zero = f
field_at (f ∷ fs) (suc i) = field_at fs i

abbrev pub current : FieldIter → Field
current it = field_at it.fields it.pos

-- Pointer arithmetic.
abbrev pub add_pointer : ℕ → ℕ → ℕ
add_pointer p offset = (p + offset) % 2 ^ 64

abbrev pub begin_at : List Field → ℕ → FieldIter
begin_at fields dest_struct =
    let p_data = add_pointer dest_struct (field_at fields 0).data_offset in
    record {
      fields = fields;
      pos = 0;
      required_field_index = 0;
      dest_struct = dest_struct;
      p_data = p_data;
      p_size = add_pointer p_data (field_at fields 0).size_offset;
    }

unfoldable pub pb_field_iter_begin : List Field → ℕ → Bool × FieldIter
pb_field_iter_begin fields dest_struct =
    (not ((field_at fields 0).tag == 0), begin_at fields dest_struct)

-- `prev_size`: how far the field's data reaches in the struct.
abbrev pub data_extent : Field → ℕ
data_extent f =
    if pb_atype f.type == atype_static && pb_htype f.type == htype_repeated
    then f.data_size * f.array_size
    else if pb_atype f.type == atype_pointer
    then 8
    else f.data_size

abbrev pub advance : Field → Field → FieldIter → FieldIter
advance prev now it =
    let p_data = add_pointer (add_pointer it.p_data (data_extent prev)) now.data_offset in
    let required =
      if pb_htype prev.type == htype_required
      then (it.required_field_index + 1) % 2 ^ 32
      else it.required_field_index in
    record it {
      pos = it.pos + 1;
      required_field_index = required;
      p_data = p_data;
      p_size = add_pointer p_data now.size_offset;
    }

-- Two fields of one union lie at one place.
abbrev pub same_union : Field → Field → Bool
same_union prev now =
    pb_htype prev.type == htype_oneof
    && pb_htype now.type == htype_oneof
    && now.data_offset == size_max

unfoldable pub pb_field_iter_next : FieldIter → Bool × FieldIter
pb_field_iter_next it =
    let prev = current it in
    let now = field_at it.fields (it.pos + 1) in
    if prev.tag == 0
    then (false, it)
    else if now.tag == 0
    then (false, begin_at it.fields it.dest_struct)
    else if same_union prev now
    then (true, record it { pos = it.pos + 1 })
    else (true, advance prev now it)

-- The wanted field: the one with the tag that is no extension.
unfoldable pub is_wanted : ℕ → Field → Bool
is_wanted tag f = f.tag == tag && not (pb_ltype f.type == ltype_extension)

-- The loop of `pb_field_iter_find`; `none` means that the rounds ran out.
unfoldable pub find_loop : ℕ → ℕ → ℕ → FieldIter → Option (Bool × FieldIter)
unfolding is_wanted
find_loop zero tag start it = none
find_loop (suc rounds) tag start it =
    let it' = (pb_field_iter_next it).1 in
    let more = find_loop rounds tag start it' in
    if is_wanted tag (current it)
    then some (true, it)
    else if it'.pos == start
    then some (false, it')
    else more

-- One round for each field is enough.
unfoldable pub pb_field_iter_find : FieldIter → ℕ → Option (Bool × FieldIter)
unfolding find_loop
pb_field_iter_find it tag = find_loop (suc (length it.fields)) tag it.pos it
