-- ===== src/Nanopb/Action/Tests.antt =====
-- Runs of the decoders of a field's data, with witnesses.
use firebase_login.Base.{◌≡◌, ◌≢◌, refl, [], ◌∷◌, none, arith, inr, false}
use firebase_login.Nanopb.Istream.{done}
use firebase_login.Nanopb.Istream.Reads.{stream}
use firebase_login.Nanopb.Field.{Field, pb_ltype, pb_atype, add_pointer}
use firebase_login.Nanopb.Blob.{is_pointer}
use firebase_login.Nanopb.Blob.RoundTrip.{framed}
use firebase_login.Nanopb.Memory.{Memory, store, write_bytes}
use firebase_login.Nanopb.Action.{Host, decoder, pb_dec_bytes, pb_dec_string, succeed}
use firebase_login.Nanopb.Action.Within.{IsInline, decoder_keeps}
use firebase_login.Nanopb.Action.RoundTrip.{pb_dec_string-framed, pb_dec_bytes-framed}

-- A string of at most three characters in the struct.
abbrev name : Field
name = record {
  tag = 1;
  type = 7;
  data_offset = 0;
  size_offset = 0;
  data_size = 4;
  array_size = 0;
  ptr = none;
}

abbrev host : Host
host = record {
  tables = λ p. [];
  realloc = λ p n m. none;
  free = λ p m. m;
  decode_callback = λ callback field arg. succeed;
  extension_decoder = λ decode extension tag wire_type. succeed;
  fixed_count_size = λ depth. 0;
  links = 0;
}

abbrev ones : Memory
ones a = 1

name-static : is_pointer name ≡ false
unfolding pb_atype
name-static = refl

name-plain : pb_ltype 7 ≢ 8
unfolding pb_ltype
name-plain h = omega (arith, h)

name-IsInline : IsInline name 100
unfolding pb_ltype pb_atype
name-IsInline = record {
  in_struct = refl;
  nonempty = omega arith;
  four = λ h. absurd (omega (arith, h));
  eight = λ h. absurd (omega (arith, h));
  no_wrap = omega arith;
}

-- The length 3 with only one character behind it: the read fails, the terminator is stored.
decoder_keeps_example :
    (decoder host (λ field dest. succeed) name 100 ones (stream (3 ∷ 97 ∷ []) 2 none)).0 104
    ≡ ones 104
decoder_keeps_example =
    decoder_keeps host (λ field dest. succeed) name 100 ones (stream (3 ∷ 97 ∷ []) 2 none) 104
      name-IsInline name-plain (inr (omega arith))

pb_dec_string-framed_example :
    pb_dec_string host name 100 ones (framed (97 ∷ 98 ∷ []) (7 ∷ []) 1 none) ≡ (
      store 1 (add_pointer 100 2) 0 (write_bytes 100 (97 ∷ 98 ∷ []) ones),
      done tt (stream (7 ∷ []) 1 none),
    )
pb_dec_string-framed_example =
    pb_dec_string-framed host name name-static (97 ∷ 98 ∷ []) 100 ones (7 ∷ []) 1 none (omega arith)
      (omega arith)

abbrev blob : Field
blob = record name { type = 6; data_size = 6 }

blob-static : is_pointer blob ≡ false
unfolding pb_atype
blob-static = refl

pb_dec_bytes-framed_example :
    pb_dec_bytes host blob 100 ones (framed (97 ∷ 0 ∷ []) (7 ∷ []) 1 none) ≡ (
      write_bytes (add_pointer 100 4) (97 ∷ 0 ∷ []) (store 4 100 2 ones),
      done tt (stream (7 ∷ []) 1 none),
    )
pb_dec_bytes-framed_example =
    pb_dec_bytes-framed host blob blob-static (97 ∷ 0 ∷ []) 100 ones (7 ∷ []) 1 none (omega arith)
      (omega arith)
