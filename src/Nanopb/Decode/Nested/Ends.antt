-- ===== src/Nanopb/Decode/Nested/Ends.antt =====
-- The decoding of a message and of what it nests ends.
use firebase_login.Base.{
  ℕ, zero, suc, ◌≡◌, refl, subst, Option, none, some, Bool, true, false, ◌==◌, if◌then◌else◌,
}
use firebase_login.Nanopb.Istream.{
  IStream, Outcome, done, fail, fault, stuck, invalid_field_descriptor,
}
use firebase_login.Nanopb.Wire.{pb_make_string_substream}
use firebase_login.Nanopb.Field.{Field, field_at, pb_htype, htype_repeated}
use firebase_login.Nanopb.Field.Table.{Decodable, Decodable-tags}
use firebase_login.Nanopb.Memory.{Memory}
use firebase_login.Nanopb.Action.{Host, Change, Action, and_then, reading, fails, decoder}
use firebase_login.Nanopb.Action.Ends.{IsInput, Ends, Any, Shorter, Total, IsMade, changing-Ends}
use firebase_login.Nanopb.Action.Eats.{decoder-Ends}
use firebase_login.Nanopb.Defaults.{pb_message_set_to_defaults}
use firebase_login.Nanopb.Defaults.Total.{pb_message_set_to_defaults-Total}
use firebase_login.Nanopb.Release.{pb_release_single_field, pb_release}
use firebase_login.Nanopb.Release.Total.{pb_release_single_field-Total, pb_release-Total}
use firebase_login.Nanopb.Decode.{closing}
use firebase_login.Nanopb.Decode.Substream.{substream-Ends, close_after-Ends}
use firebase_login.Nanopb.Decode.Fields.Table.{Ready}
use firebase_login.Nanopb.Decode.Fields.Ends.{CallbacksEnd}
use firebase_login.Nanopb.Decode.Message.Loop.{decode_message-Ends}
use firebase_login.Nanopb.Decode.Nested.{
  in_substream, pb_dec_submessage, released, initialized, pb_decode_noinit, pb_decode,
  pb_decode_delimited,
}

-- The action ends on every stream.
abbrev pub Ending : Action (Unit {0}) → Type 0
Ending body = (m : Memory) (s : IStream) → IsInput s → Ends Any s (body m s).1

-- What is decoded in a substream ends and takes the length at least.
pub in_substream-Ends :
    (body : Action (Unit {0})) (m : Memory) (s : IStream)
    → Ending body
    → IsInput s
    → Ends (Shorter s) s (in_substream body m s).1
unfolding in_substream
in_substream-Ends body m s ends i =
    substream-Ends (Shorter s) (λ t m' s'. closing s' (body m' t)) m s i
      (λ t s' c it. close_after-Ends s t s' s' it c refl Any (body m t).1 (ends m t it))

submessage_at :
    (decode decode_noinit : ℕ → ℕ → Action (Unit {0})) (field : Field) (dest : ℕ) (m : Memory)
    (s : IStream) (ptr : Option ℕ)
    → (p : ℕ) × (ptr ≡ some p)
      × ((q : ℕ) → Ending (decode p q))
      × ((q : ℕ) → Ending (decode_noinit p q))
    → IsInput s
    → Ends
        (Shorter s)
        s
        (elim ptr as (λ _. Memory × Outcome (Unit {0})) [
          | none ↦
              and_then (λ _. fails invalid_field_descriptor) (reading pb_make_string_substream m s)
          | some fields ↦
              in_substream
                (if pb_htype field.type == htype_repeated
                  then decode fields dest
                  else decode_noinit fields dest)
                m
                s
        ]).1
submessage_at decode decode_noinit field dest m s none (p, e, h, k) i = absurd (cc)
submessage_at decode decode_noinit field dest m s (some q) (p, e, h, k) i =
    let same : p ≡ q = cc in
    let body =
      if pb_htype field.type == htype_repeated then decode q dest else decode_noinit q dest in
    in_substream-Ends body m s
      (if-Ending (pb_htype field.type == htype_repeated) (decode q dest) (decode_noinit q dest)
        (subst (λ r. Ending (decode r dest)) same (h dest))
        (subst (λ r. Ending (decode_noinit r dest)) same (k dest)))
      i
  where
    if-Ending :
        (b : Bool) (x y : Action (Unit {0})) → Ending x → Ending y → Ending (if b then x else y)
    if-Ending true x y hx hy = hx
    if-Ending false x y hx hy = hy

made_fail :
    (m : Memory) (s u : IStream) (o : Option Memory)
    → IsMade o
    → Ends {A = Unit {0}} Any s (fail u)
    → Ends Any s
        (elim o as (λ _. Memory × Outcome (Unit {0})) [
          | none ↦ (m, stuck)
          | some m' ↦ (m', fail u)
        ]).1
made_fail m s u none h k = elim h [ ]
made_fail m s u (some m') h k = k

released-Ends :
    (release : Change) (s : IStream) (r : Memory × Outcome (Unit {0}))
    → Total release
    → Ends Any s r.1
    → Ends Any s (released release r).1
released-Ends release s (m, done a u) total h = h
released-Ends release s (m, fail u) total h = made_fail m s u (release m) (total m) h
released-Ends release s (m, fault) total h = h
released-Ends release s (m, stuck) total h = h

initialized-Ends :
    (defaults release : Change) (decode_noinit : Action (Unit {0}))
    → Total defaults
    → Total release
    → Ending decode_noinit
    → Ending (initialized defaults release decode_noinit)
unfolding initialized
initialized-Ends defaults release decode_noinit made gone ends m s i =
    changing-Ends Any defaults (λ _ m' s'. released release (decode_noinit m' s')) m s made
      (λ m'. released-Ends release s (decode_noinit m' s) gone (ends m' s i))

pb_dec_submessage-Ends :
    (decode decode_noinit : ℕ → ℕ → Action (Unit {0})) (field : Field) (dest : ℕ) (m : Memory)
    (s : IStream)
    → (p : ℕ) × (field.ptr ≡ some p)
      × ((q : ℕ) → Ending (decode p q))
      × ((q : ℕ) → Ending (decode_noinit p q))
    → IsInput s
    → Ends (Shorter s) s (pb_dec_submessage decode decode_noinit field dest m s).1
unfolding pb_dec_submessage
pb_dec_submessage-Ends decode decode_noinit field dest m s nested i =
    submessage_at decode decode_noinit field dest m s field.ptr nested i

module _ (host : Host) (callbacks : CallbacksEnd host) where
  whole-Ending :
      (depth fields : ℕ)
      → Decodable host.tables depth fields
      → ((dest : ℕ) → Ending (pb_decode_noinit host depth fields dest))
      → (dest : ℕ)
      → Ending (
          initialized
            (pb_message_set_to_defaults host depth fields dest)
            (pb_release host depth fields dest)
            (pb_decode_noinit host depth fields dest))
  whole-Ending depth fields d ends dest =
      initialized-Ends (pb_message_set_to_defaults host depth fields dest)
        (pb_release host depth fields dest) (pb_decode_noinit host depth fields dest)
        (pb_message_set_to_defaults-Total host depth fields d dest)
        (pb_release-Total host depth fields d dest) (ends dest)

  -- `pb_decode`, for the depth of a submessage.
  abbrev pub whole : ℕ → ℕ → ℕ → Action (Unit {0})
  whole depth f p =
      initialized (pb_message_set_to_defaults host depth f p) (pb_release host depth f p)
        (pb_decode_noinit host depth f p)

  -- The decoder of a field's data, over what is nested less deep than `depth`.
  abbrev pub func_of : ℕ → Field → ℕ → Action (Unit {0})
  func_of depth = decoder host (pb_dec_submessage (whole depth) (pb_decode_noinit host depth))

  pub func_of-Ready :
      (depth fields : ℕ)
      → Decodable host.tables (suc depth) fields
      → ((p : ℕ)
          → Decodable host.tables depth p
          → (dest : ℕ) → Ending (pb_decode_noinit host depth p dest))
      → Ready
          (func_of depth)
          (pb_message_set_to_defaults host depth)
          (pb_release_single_field host (suc depth))
          (host.tables fields)
  func_of-Ready depth fields d inner = record {
    tags = Decodable-tags host.tables (suc depth) fields d;
    no_extension = λ j h. (d.1 j h).0.no_extension;
    sized = λ j h. (d.1 j h).0.sized;
    eats = λ j h dest m t it.
        let field = field_at (host.tables fields) j in
        decoder-Ends host (pb_dec_submessage (whole depth) (pb_decode_noinit host depth)) field
          (d.1 j h).0.known (d.1 j h).0.no_extension
          (λ l dest' m' u iu.
            let (p, e, deeper) = (d.1 j h).1 l in
            pb_dec_submessage-Ends (whole depth) (pb_decode_noinit host depth) field dest' m' u
              (p, e, whole-Ending depth p deeper (inner p deeper), inner p deeper) iu)
          dest m t it;
    nested = λ j h l.
        let (p, e, deeper) = (d.1 j h).1 l in
        (p, e, pb_message_set_to_defaults-Total host depth p deeper);
    released = pb_release_single_field-Total host (suc depth) fields d;
  }

  -- Over a table that has fields and nests less deep than the depth, with callbacks that end, the
  -- decoding ends on every stream of bytes that lies in its buffer.
  pub noinit-Ending :
      (depth fields : ℕ)
      → Decodable host.tables depth fields
      → (dest_struct : ℕ) → Ending (pb_decode_noinit host depth fields dest_struct)
  unfolding pb_decode_noinit
  noinit-Ending zero fields d dest_struct = elim d [ ]
  noinit-Ending (suc depth) fields d dest_struct = λ m s i.
      decode_message-Ends host callbacks (host.fixed_count_size depth) (func_of depth)
        (pb_message_set_to_defaults host depth) (pb_release_single_field host (suc depth))
        (host.tables fields) (func_of-Ready depth fields d (noinit-Ending depth)) fields dest_struct
        m s refl d.0 i

  decode-Ending :
      (depth fields : ℕ)
      → Decodable host.tables depth fields
      → (dest_struct : ℕ) → Ending (pb_decode host depth fields dest_struct)
  unfolding pb_decode
  decode-Ending depth fields d dest_struct =
      whole-Ending depth fields d (noinit-Ending depth fields d) dest_struct

  delimited-Ends :
      (depth fields dest_struct : ℕ) (m : Memory) (s : IStream)
      → Decodable host.tables depth fields
      → IsInput s
      → Ends (Shorter s) s (pb_decode_delimited host depth fields dest_struct m s).1
  unfolding pb_decode_delimited
  delimited-Ends depth fields dest_struct m s d i =
      in_substream-Ends (pb_decode host depth fields dest_struct) m s
        (decode-Ending depth fields d dest_struct) i

  -- Let the tables have fields, tags that are not 0, known types, sizes that are not 0 and no
  -- extensions, and let them nest less deep than the depth; let the application's field callbacks
  -- end, and read something when they return true and there is something left. On every stream of
  -- bytes that lies in its buffer, whatever the bytes and the memory are, `pb_decode`,
  -- `pb_decode_noinit` and `pb_decode_delimited` return: their rounds and their depth are enough,
  -- and they read nothing outside of the buffer. If they return true they have read forward only,
  -- `pb_decode_delimited` at least one byte; if they return false no byte behind the end of the
  -- stream was taken.
  pub pb_decode-Ends :
      (depth fields dest_struct : ℕ) (m : Memory) (s : IStream)
      → Decodable host.tables depth fields
      → IsInput s
      → Ends Any s (pb_decode host depth fields dest_struct m s).1
        × Ends Any s (pb_decode_noinit host depth fields dest_struct m s).1
        × Ends (Shorter s) s (pb_decode_delimited host depth fields dest_struct m s).1
  pb_decode-Ends depth fields dest_struct m s d i = (
    decode-Ending depth fields d dest_struct m s i,
    noinit-Ending depth fields d dest_struct m s i,
    delimited-Ends depth fields dest_struct m s d i,
  )
