-- ===== src/Nanopb/Decode/Substream.antt =====
-- FirebaseLogin/Pods/nanopb/pb_decode.c: what is decoded in a substream ends.
use firebase_login.Base.{
  ℕ, ◌+◌, ◌-◌, ◌<◌, ◌≡◌, refl, sym, ap, subst, ◌∙◌, arith, ◌++◌, length, take, drop, ltb, Bool,
  true, false, if◌then◌else◌, Bool-cases, inl, inr, append_assoc, length-append, take-append-drop,
  length-take, length-drop,
}
use firebase_login.Nanopb.Istream.{
  IStream, Outcome, done, fail, fault, stuck, continue, parent_stream_too_short, set_error,
}
use firebase_login.Nanopb.Istream.Reads.{Reads, Reads-trans, Reads-IsValid}
use firebase_login.Nanopb.Varint.{pb_decode_varint32}
use firebase_login.Nanopb.Varint.Eats.{Word, pb_decode_varint32-Ends}
use firebase_login.Nanopb.Wire.{carve, adopt, pb_make_string_substream, close_after}
use firebase_login.Nanopb.Wire.Frame.{close_skips}
use firebase_login.Nanopb.Memory.{Memory}
use firebase_login.Nanopb.Action.{Action, and_then}
use firebase_login.Nanopb.Action.Ends.{
  IsInput, Keeps, Ends, Shorter, Reads-Keeps, Reads-IsInput, set_error-Keeps,
}

-- `t` is a substream, and `s'` is what is left of `s`: it keeps its position, which is behind the
-- length.
pub record Carved (s t s' : IStream) : Type 0 where
  pub origin : IStream
  pub reads : Reads s origin
  pub shorter : origin.bytes_left < s.bytes_left
  pub inner : t.state ≡ origin.state
  pub outer : s'.state ≡ origin.state
  pub parts : t.bytes_left + s'.bytes_left ≡ origin.bytes_left

pub Carved-Keeps : (s t s' : IStream) → Carved s t s' → Keeps s s'
Carved-Keeps s t s' c = let k = Reads-Keeps c.reads in omega (arith, k, ap length c.outer, c.parts)

substream_made :
    {B : Type 0} (R : B → IStream → Type 0) (f : IStream → Action B) (m : Memory) (s : IStream)
    (o : Outcome ℕ)
    → IsInput s
    → Ends (Word s) s o
    → ((t s' : IStream) → Carved s t s' → IsInput t → Ends R s (f t m s').1)
    → Ends R s (and_then f (m, continue carve o)).1
substream_made R f m s (done size t) i h k = elim (Bool-cases (ltb t.bytes_left size)) [
  | inl over ↦ rw over (
      let a = Reads-Keeps h.0 in
      let b = set_error-Keeps parent_stream_too_short t in omega (arith, a, b))
  | inr room ↦ rw room (
      k (record t { bytes_left = size }) (record t { bytes_left = t.bytes_left - size })
        (record {
          origin = t;
          reads = h.0;
          shorter = h.1.1;
          inner = refl;
          outer = refl;
          parts = ground arith;
        })
        (let it = Reads-IsInput h.0 i in (ground (arith, it.0), it.1)))
]
substream_made R f m s (fail t) i h k = h
substream_made R f m s fault i h k = h
substream_made R f m s stuck i h k = h

-- What follows the making of a substream.
pub substream-Ends :
    {B : Type 0} (R : B → IStream → Type 0) (f : IStream → Action B) (m : Memory) (s : IStream)
    → IsInput s
    → ((t s' : IStream) → Carved s t s' → IsInput t → Ends R s (f t m s').1)
    → Ends R s (and_then f (m, pb_make_string_substream s)).1
unfolding pb_make_string_substream
substream-Ends R f m s i k =
    substream_made R f m s (pb_decode_varint32 s) i (pb_decode_varint32-Ends s i) k

-- The stream behind a substream.
behind : IStream → IStream → IStream
behind u s = adopt (record u { state = drop u.bytes_left u.state }) s

module _ (s t s' s'' : IStream) (i : IsInput t) (c : Carved s t s')
    (left : s''.bytes_left ≡ s'.bytes_left) where
  behind-Reads : (u : IStream) → Reads t u → Reads s (behind u s'')
  unfolding behind
  behind-Reads u r = Reads-trans c.reads (record {
    taken = r.taken ++ take u.bytes_left u.state;
    front =
        sym c.inner
        ∙ r.front
        ∙ ap (λ x. r.taken ++ x) (sym (take-append-drop u.bytes_left u.state))
        ∙ sym (append_assoc r.taken (take u.bytes_left u.state) (drop u.bytes_left u.state));
    count = omega (
      arith,
      left,
      c.parts,
      r.count,
      length-append r.taken (take u.bytes_left u.state),
      length-take u.bytes_left u.state (Reads-IsValid r i.0),
    );
  })

  behind-Keeps : (u : IStream) → Keeps t u → Keeps s (behind u s'')
  unfolding behind
  behind-Keeps u h =
      let k = Reads-Keeps c.reads in
      omega (arith, i.0, left, c.parts, h, k, ap length c.inner, length-drop u.bytes_left u.state)

  -- The close leaves the stream behind the substream, however much of it was read.
  pub close_after-Ends :
      {A : Type 0} (Q : A → IStream → Type 0) (o : Outcome A)
      → Ends Q t o
      → Ends (Shorter s) s (close_after s'' o)
  unfolding close_after behind
  close_after-Ends Q (done a u) h =
      rw (close_skips u s'' (Reads-IsValid h.0 i.0))
        (behind-Reads u h.0, omega (arith, left, c.parts, c.shorter))
  close_after-Ends Q (fail u) h = rw (close_skips u s'' (omega (arith, i.0, h))) (behind-Keeps u h)
  close_after-Ends Q fault h = h
  close_after-Ends Q stuck h = h

chosen :
    {A : Type 0} (b : Bool) (x s' s'' : IStream) (y t : A)
    → (if b then fail x else done y s'') ≡ done t s'
    → (b ≡ false) × (y ≡ t)
chosen true x s' s'' y t e = absurd (cc)
chosen false x s' s'' y t e = (refl, cc)

carved-IsInput :
    (s t s' : IStream) (o : Outcome ℕ)
    → IsInput s
    → Ends (Word s) s o
    → continue carve o ≡ done t s'
    → IsInput t
carved-IsInput s t s' (done size u) i h e =
    let (room, same) =
      chosen (ltb u.bytes_left size) (set_error parent_stream_too_short u) s'
        (record u { bytes_left = u.bytes_left - size }) (record u { bytes_left = size }) t e in
    let iu = Reads-IsInput h.0 i in
    let inner : IsInput (record u { bytes_left = size }) = (ground (arith, room, iu.0), iu.1) in
    subst IsInput same inner
carved-IsInput s t s' (fail u) i h e = absurd (cc)
carved-IsInput s t s' fault i h e = elim h [ ]
carved-IsInput s t s' stuck i h e = elim h [ ]

-- The substream of a stream of bytes in its buffer is one, too.
pub substream-IsInput :
    (s t s' : IStream) → IsInput s → pb_make_string_substream s ≡ done t s' → IsInput t
unfolding pb_make_string_substream
substream-IsInput s t s' i e =
    carved-IsInput s t s' (pb_decode_varint32 s) i (pb_decode_varint32-Ends s i) e
