-- ===== src/Nanopb/Action.antt =====
-- FirebaseLogin/Pods/nanopb/pb_decode.c: calls that read a stream and change the memory, and the
-- decoders of a field's data.
pub mod Same
pub mod Within
pub mod Ends
pub mod Eats
pub mod RoundTrip
mod Tests
use firebase_login.Base.{
  ℕ, List, ◌+◌, ◌%◌, ◌^◌, Option, none, some, ltb, ◌==◌, if◌then◌else◌, Bool, true, false, not,
  replicate,
}
use firebase_login.Nanopb.Istream.{
  ErrMsg, IStream, Outcome, Call, done, fail, fault, stuck, return_error, pb_read, bytes_overflow,
  string_overflow, size_too_large, end_of_stream, invalid_data_size, integer_too_large,
  incorrect_fixed_length,
}
use firebase_login.Nanopb.Varint.{pb_decode_varint, pb_decode_varint32, pb_decode_svarint}
use firebase_login.Nanopb.Wire.{pb_decode_fixed32, pb_decode_fixed64}
use firebase_login.Nanopb.Field.{Field, size_max}
use firebase_login.Nanopb.Scalar.{as_signed, cast_signed, cast_unsigned}
use firebase_login.Nanopb.Blob.{allocate_field, is_pointer, bytes_alloc_size}
use firebase_login.Nanopb.Memory.{Memory, load_pointer, store, write_bytes}
use firebase_login.Nanopb.Field.{pb_ltype, add_pointer}

-- A call's memory is what it leaves behind, however it ends.
abbrev pub Action {ℓ} : Type ℓ → Type ℓ
Action A = Memory → IStream → Memory × Outcome A

abbrev pub and_then {ℓ κ} :
    {A : Type ℓ} {B : Type κ} → (A → Action B) → Memory × Outcome A → Memory × Outcome B
and_then f (m, done a s) = f a m s
and_then f (m, fail s) = (m, fail s)
and_then f (m, fault) = (m, fault)
and_then f (m, stuck) = (m, stuck)

-- A call that only reads the stream.
abbrev pub reading {ℓ} : {A : Type ℓ} → Call A → Action A
reading call m s = (m, call s)

abbrev pub succeed : Action (Unit {0})
succeed m s = (m, done tt s)

abbrev pub fails {ℓ} : {A : Type ℓ} → ErrMsg → Action A
fails e m s = (m, return_error e s)

-- Behaviour that C leaves undefined, and the end of the model's rounds or depth.
abbrev pub undefined {ℓ} : {A : Type ℓ} → Action A
undefined m s = (m, fault)

abbrev pub no_rounds {ℓ} : {A : Type ℓ} → Action A
no_rounds m s = (m, stuck)

-- A change of the memory; `none` is the end of the model's rounds or depth, or the use of a NULL
-- table.
abbrev pub Change : Type 0
Change = Memory → Option Memory

abbrev pub changing : Change → Action (Unit {0})
changing change m s = elim (change m) [ none ↦ (m, stuck) | some m' ↦ (m', done tt s) ]

-- The code that a decoder uses: the tables of fields by their addresses, the C library's
-- allocator (`none` is NULL), the functions that the memory points to, and where the local
-- variable `fixed_count_size` of a call at a depth lies. No list of extensions has more than
-- `links` entries.
pub record Host : Type 0 where
  pub tables : ℕ → List Field
  pub realloc : ℕ → ℕ → Memory → Option (ℕ × Memory)
  pub free : ℕ → Memory → Memory
  pub decode_callback : ℕ → Field → ℕ → Action (Unit {0})
  pub extension_decoder : ℕ → ℕ → ℕ → ℕ → Action (Unit {0})
  pub fixed_count_size : ℕ → ℕ
  pub links : ℕ

abbrev is_met : Option (ℕ × Memory) → Bool
is_met none = false
is_met (some r) = true

-- `*(void**)pData = ptr`
abbrev place : ℕ → Option (ℕ × Memory) → Memory → Memory
place p_data none m = m
place p_data (some (p, m')) m = store 8 p_data p m'

abbrev allocated : (ℕ → Option (ℕ × Memory)) → ℕ → Memory → Outcome ℕ → Memory × Outcome (Unit {0})
allocated request p_data m (done n s) = (place p_data (request n) m, done tt s)
allocated request p_data m (fail s) = (m, fail s)
allocated request p_data m fault = (m, fault)
allocated request p_data m stuck = (m, stuck)

-- `pb_read` into memory. Without the bytes nothing is copied.
unfoldable pub read_into : ℕ → ℕ → Action (Unit {0})
read_into dest count m s =
    and_then (λ bytes m' s'. (write_bytes dest bytes m', done tt s')) (reading (pb_read count) m s)

-- What is stored is stored before it is compared.
unfoldable pub store_number : ℕ → ℕ → Option ℕ → ℕ → Action (Unit {0})
store_number data_size dest none value m s = fails invalid_data_size m s
store_number data_size dest (some clamped) value m s =
    let m' = store data_size dest clamped m in
    if not (clamped == value) then fails integer_too_large m' s else succeed m' s

module _ (host : Host) where
  -- `pb_realloc(ptr, …)`
  abbrev request : ℕ → Memory → ℕ → Option (ℕ × Memory)
  request p_data m n = host.realloc (load_pointer p_data m) n m

  -- `allocate_field`, with the pointer that it stores.
  unfoldable pub allocate_at : ℕ → ℕ → ℕ → Action (Unit {0})
  allocate_at p_data data_size array_size m s =
      allocated (request p_data m) p_data m
        (allocate_field (λ n. is_met (request p_data m n)) data_size array_size s)

  -- Where the bytes go: to the memory that is taken for them, or to the field itself.
  abbrev pub room_for : Field → ℕ → ℕ → ℕ → ErrMsg → Action ℕ
  room_for field dest size alloc_size overflow m s =
      if is_pointer field
      then (if ltb s.bytes_left size
          then fails end_of_stream m s
          else and_then (λ _ m' s'. (m', done (load_pointer dest m') s'))
              (allocate_at dest alloc_size 1 m s))
      else if ltb field.data_size alloc_size
      then fails overflow m s
      else (m, done dest s)

  abbrev pub bytes_into : Field → ℕ → ℕ → Action (Unit {0})
  bytes_into field dest size m s =
      let alloc_size = bytes_alloc_size size in
      if ltb size_max size
      then fails bytes_overflow m s
      else if ltb alloc_size size
      then fails size_too_large m s
      else and_then (λ bdest m' s'. read_into (add_pointer bdest 4) size (store 4 bdest size m') s')
          (room_for field dest size alloc_size bytes_overflow m s)

  -- `pb_dec_bytes`: the array's size of four bytes, and its bytes behind it.
  abbrev pub pb_dec_bytes : Field → ℕ → Action (Unit {0})
  pb_dec_bytes field dest m s = and_then (bytes_into field dest) (reading pb_decode_varint32 m s)

  -- The terminator is written whether or not the text could be read.
  abbrev pub terminated : ℕ → Memory × Outcome (Unit {0}) → Memory × Outcome (Unit {0})
  terminated last (m, status) = (store 1 last 0 m, status)

  abbrev pub string_into : Field → ℕ → ℕ → Action (Unit {0})
  string_into field dest size m s =
      let alloc_size = (size + 1) % 2 ^ 32 in
      if ltb alloc_size size
      then fails size_too_large m s
      else and_then (λ text m' s'. terminated (add_pointer text size) (read_into text size m' s'))
          (room_for field dest size alloc_size string_overflow m s)

  abbrev pub pb_dec_string : Field → ℕ → Action (Unit {0})
  pb_dec_string field dest m s = and_then (string_into field dest) (reading pb_decode_varint32 m s)

  abbrev pub fixed_into : Field → ℕ → ℕ → Action (Unit {0})
  fixed_into field dest size m s =
      if ltb size_max size
      then fails bytes_overflow m s
      else if size == 0
      then (write_bytes dest (replicate field.data_size 0) m, done tt s)
      else if not (size == field.data_size)
      then fails incorrect_fixed_length m s
      else read_into dest field.data_size m s

  abbrev pub pb_dec_fixed_length_bytes : Field → ℕ → Action (Unit {0})
  pb_dec_fixed_length_bytes field dest m s =
      and_then (fixed_into field dest) (reading pb_decode_varint32 m s)

  -- PB_DECODERS, indexed by the field's type, over `pb_dec_submessage`. Its entry for extensions
  -- is NULL.
  unfoldable pub decoder : (Field → ℕ → Action (Unit {0})) → Field → ℕ → Action (Unit {0})
  unfolding store_number read_into
  decoder submessage field dest m s =
      let ltype = pb_ltype field.type in
      let size = field.data_size in
      if ltype == 0x00
      then and_then (λ value m' s'. (store 1 dest (if value == 0 then 0 else 1) m', done tt s'))
          (reading pb_decode_varint32 m s)
      else if ltype == 0x01
      then and_then
          (λ value.
            store_number size dest (cast_signed size (as_signed size value)) (as_signed size value))
          (reading pb_decode_varint m s)
      else if ltype == 0x02
      then and_then (λ value. store_number size dest (cast_unsigned size value) value)
          (reading pb_decode_varint m s)
      else if ltype == 0x03
      then and_then (λ value. store_number size dest (cast_signed size value) value)
          (reading pb_decode_svarint m s)
      else if ltype == 0x04
      then and_then (λ value m' s'. (store 4 dest value m', done tt s'))
          (reading pb_decode_fixed32 m s)
      else if ltype == 0x05
      then and_then (λ value m' s'. (store 8 dest value m', done tt s'))
          (reading pb_decode_fixed64 m s)
      else if ltype == 0x06
      then pb_dec_bytes field dest m s
      else if ltype == 0x07
      then pb_dec_string field dest m s
      else if ltype == 0x08
      then submessage field dest m s
      else if ltype == 0x0A
      then pb_dec_fixed_length_bytes field dest m s
      else undefined m s
