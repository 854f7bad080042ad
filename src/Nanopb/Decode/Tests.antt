-- ===== src/Nanopb/Decode/Tests.antt =====
-- Runs of the decoder, with witnesses.
use firebase_login.Base.{
  ℕ, ◌<◌, ◌≡◌, ◌≢◌, refl, [], ◌∷◌, none, some, arith, inr, ◌==◌, if◌then◌else◌, ◌&&◌, not, false,
}
use firebase_login.Nanopb.Istream.Reads.{stream}
use firebase_login.Nanopb.Field.{Field, FieldIter, pb_ltype, pb_htype, pb_atype}
use firebase_login.Nanopb.Memory.{Memory, load_size, load_pointer, store}
use firebase_login.Nanopb.Defaults.{pb_field_set_to_default, field_to_default}
use firebase_login.Nanopb.Defaults.Counted.{pb_field_set_to_default_overruns}
use firebase_login.Nanopb.Action.{Host, decoder, succeed}
use firebase_login.Nanopb.Action.Within.{IsInline}
use firebase_login.Nanopb.Decode.Message.{is_complete}
use firebase_login.Nanopb.Decode.Message.Required.{marks, covers, is_complete-marks}
use firebase_login.Nanopb.Release.{pb_release_single_field}
use firebase_login.Nanopb.Release.Cleared.{pb_release_single_field_clears}
use firebase_login.Nanopb.Decode.Static.{decode_static_field}
use firebase_login.Nanopb.Decode.Static.Within.{decode_static_field_keeps}

-- `repeated uint32 numbers = 1 [(nanopb).max_count = 3]`, whose counter is in front of it.
abbrev pub numbers : Field
numbers = record {
  tag = 1;
  type = 0x22;
  data_offset = 4;
  size_offset = 0xFFFF_FFFF_FFFF_FFFC;
  data_size = 4;
  array_size = 3;
  ptr = none;
}

abbrev at_numbers : FieldIter
at_numbers = record {
  fields = numbers ∷ [];
  pos = 0;
  required_field_index = 0;
  dest_struct = 96;
  p_data = 100;
  p_size = 96;
}

abbrev pub host : Host
host = record {
  tables = λ p. numbers ∷ [];
  realloc = λ p n m. none;
  free = λ p m. m;
  decode_callback = λ callback field arg. succeed;
  extension_decoder = λ decode extension tag wire_type. succeed;
  fixed_count_size = λ depth. 0;
  links = 0;
}

abbrev pub empty : Memory
empty a = 0

pub numbers-plain : pb_ltype 0x22 ≢ 8
unfolding pb_ltype
numbers-plain h = omega (arith, h)

pub numbers-IsInline : IsInline numbers 100
unfolding pb_ltype pb_atype
numbers-IsInline = record {
  in_struct = refl;
  nonempty = omega arith;
  four = λ h. refl;
  eight = λ h. absurd (omega (arith, h));
  no_wrap = omega arith;
}

-- Four numbers, where there is room for three.
decode_static_field_keeps_example :
    (decode_static_field
        (decoder host (λ field dest. succeed))
        (λ fields p m. none)
        2
        at_numbers
        empty
        (stream (4 ∷ 1 ∷ 2 ∷ 3 ∷ 4 ∷ []) 5 none)).0
      112
    ≡ empty 112
decode_static_field_keeps_example =
    decode_static_field_keeps host (λ field dest. succeed) (λ fields p m. none) at_numbers 2 3 empty
      (stream (4 ∷ 1 ∷ 2 ∷ 3 ∷ 4 ∷ []) 5 none) 112 numbers-plain numbers-IsInline (omega arith)
      (omega arith) (omega arith) (omega arith) (inr (omega arith))
      (λ optional own. inr (omega arith)) (λ repeated. inr (omega arith))
      (λ oneof. inr (omega arith))

-- Three required fields that came in another order.
is_complete-marks_example : is_complete (marks (2 ∷ 0 ∷ 1 ∷ [])) 3 ≡ covers (2 ∷ 0 ∷ 1 ∷ []) 3
is_complete-marks_example =
    is_complete-marks (2 ∷ 0 ∷ 1 ∷ []) 3 (omega arith, (omega arith, (omega arith, tt)))
      (omega arith)

-- `optional string name = 2` behind a pointer at 200, which points to 1.
abbrev name_field : Field
name_field = record {
  tag = 2;
  type = 0x97;
  data_offset = 0;
  size_offset = 0;
  data_size = 8;
  array_size = 0;
  ptr = none;
}

abbrev at_name : FieldIter
at_name = record {
  fields = name_field ∷ [];
  pos = 0;
  required_field_index = 0;
  dest_struct = 200;
  p_data = 200;
  p_size = 200;
}

abbrev with_name : Memory
with_name a = if a == 200 then 1 else 0

name-pointer : pb_atype 0x97 ≡ 0x80
unfolding pb_atype
name-pointer = refl

name-current : (pb_htype 0x97 == 0x30 && not (load_size 200 with_name == 2)) ≡ false
unfolding pb_htype
name-current = refl

name-text : (k : ℕ) → 7 < k → pb_ltype 0x97 ≢ k
unfolding pb_ltype
name-text k h e = omega (arith, h, e)

pb_release_single_field_clears_example :
    (m' : Memory) × (pb_release_single_field host 1 at_name with_name ≡ some m')
    × (load_pointer 200 m' ≡ 0)
pb_release_single_field_clears_example =
    pb_release_single_field_clears host 0 at_name with_name name-pointer name-current
      (name-text 8 (omega arith)) (name-text 9 (omega arith))

-- `repeated bool flags = 3 [(nanopb).max_count = 2, fixed_count = true]`, with a 7 behind it.
abbrev flags : Field
flags = record {
  tag = 3;
  type = 0x20;
  data_offset = 0;
  size_offset = 0;
  data_size = 1;
  array_size = 2;
  ptr = none;
}

abbrev at_flags : FieldIter
at_flags = record {
  fields = flags ∷ [];
  pos = 0;
  required_field_index = 0;
  dest_struct = 300;
  p_data = 300;
  p_size = 300;
}

abbrev with_neighbour : Memory
with_neighbour a = if a == 302 then 7 else 1

flags-default :
    pb_field_set_to_default host 1 at_flags with_neighbour ≡ some (store 4 300 0 with_neighbour)
unfolding pb_field_set_to_default field_to_default pb_ltype pb_atype pb_htype
flags-default = refl

flags-types : (pb_ltype 0x20 ≢ 9) × (pb_atype 0x20 ≡ 0) × (pb_htype 0x20 ≡ 0x20)
unfolding pb_ltype pb_atype pb_htype
flags-types = (λ e. omega (arith, e), refl, refl)

pb_field_set_to_default_overruns_example : store 4 300 0 with_neighbour 302 ≡ 0
pb_field_set_to_default_overruns_example =
    pb_field_set_to_default_overruns host 0 at_flags with_neighbour (store 4 300 0 with_neighbour)
      flags-types.0 flags-types.1 flags-types.2 refl (omega arith) flags-default
