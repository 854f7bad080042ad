-- ===== src/Nanopb/Decode/Nested/Within.antt =====
-- The decoding of a message whose fields all lie in its struct writes nothing outside of where they
-- lie.
use firebase_login.Base.{ℕ, ◌≡◌, subst, Option, none, some, Bool, true, false, ◌==◌, if◌then◌else◌}
use firebase_login.Nanopb.Istream.{
  IStream, Outcome, done, fail, fault, stuck, invalid_field_descriptor,
}
use firebase_login.Nanopb.Wire.{pb_make_string_substream}
use firebase_login.Nanopb.Field.{Field, pb_htype, htype_repeated}
use firebase_login.Nanopb.Memory.{Memory}
use firebase_login.Nanopb.Action.{Change, Action, and_then, reading, fails}
use firebase_login.Nanopb.Action.Ends.{IsInput}
use firebase_login.Nanopb.Action.Same.{Same, Same-trans, Kept, reading-Same, changing-Same}
use firebase_login.Nanopb.Release.Within.{Keeping}
use firebase_login.Nanopb.Decode.{closing}
use firebase_login.Nanopb.Decode.Substream.{substream-IsInput}
use firebase_login.Nanopb.Decode.Nested.{in_substream, pb_dec_submessage, released, initialized}

module _ (P : ℕ → Type 0) where
  -- The action writes nothing where `P` is satisfied, on every stream of bytes in its buffer.
  abbrev pub Writing : Action (Unit {0}) → Type 0
  Writing body = (m : Memory) (s : IStream) → IsInput s → Same P m (body m s).0

  pub closing-Same :
      (s : IStream) (m : Memory) (r : Memory × Outcome (Unit {0}))
      → Same P m r.0
      → Same P m (closing s r).0
  closing-Same s m (m', o) h = h

  pub in_substream-Same : (body : Action (Unit {0})) → Writing body → Writing (in_substream body)
  unfolding in_substream
  in_substream-Same body w m s i =
      reading-Same P (λ t m' s'. closing s' (body m' t)) m (pb_make_string_substream s)
        (λ t s' e. closing-Same s' m (body m t) (w m t (substream-IsInput s t s' i e)))

  if-Writing :
      (b : Bool) (x y : Action (Unit {0})) → Writing x → Writing y → Writing (if b then x else y)
  if-Writing true x y hx hy = hx
  if-Writing false x y hx hy = hy

  -- What the field nests is decoded at the address.
  abbrev pub Nested :
      (ℕ → ℕ → Action (Unit {0})) → (ℕ → ℕ → Action (Unit {0})) → Option ℕ → ℕ → Type 0
  Nested decode decode_noinit ptr dest =
      (p : ℕ) × (ptr ≡ some p) × Writing (decode p dest) × Writing (decode_noinit p dest)

  submessage_at :
      (decode decode_noinit : ℕ → ℕ → Action (Unit {0})) (field : Field) (dest : ℕ) (m : Memory)
      (s : IStream) (ptr : Option ℕ)
      → Nested decode decode_noinit ptr dest
      → IsInput s
      → Same P m
          (elim ptr as (λ _. Memory × Outcome (Unit {0})) [
            | none ↦
                and_then
                  (λ _. fails invalid_field_descriptor)
                  (reading pb_make_string_substream m s)
            | some fields ↦
                in_substream
                  (if pb_htype field.type == htype_repeated
                    then decode fields dest
                    else decode_noinit fields dest)
                  m
                  s
          ]).0
  submessage_at decode decode_noinit field dest m s none (p, e, h, k) i = absurd (cc)
  submessage_at decode decode_noinit field dest m s (some q) (p, e, h, k) i =
      let same : p ≡ q = cc in
      let repeated = pb_htype field.type == htype_repeated in
      in_substream-Same (if repeated then decode q dest else decode_noinit q dest)
        (if-Writing repeated (decode q dest) (decode_noinit q dest)
          (subst (λ r. Writing (decode r dest)) same h)
          (subst (λ r. Writing (decode_noinit r dest)) same k))
        m s i

  pub pb_dec_submessage-Same :
      (decode decode_noinit : ℕ → ℕ → Action (Unit {0})) (field : Field) (dest : ℕ) (m : Memory)
      (s : IStream)
      → Nested decode decode_noinit field.ptr dest
      → IsInput s
      → Same P m (pb_dec_submessage decode decode_noinit field dest m s).0
  unfolding pb_dec_submessage
  pb_dec_submessage-Same decode decode_noinit field dest m s nested i =
      submessage_at decode decode_noinit field dest m s field.ptr nested i

  made_fail :
      (m u : Memory) (t : IStream) (o : Option Memory)
      → Same P m u
      → Kept P u o
      → Same P m
          (elim o as (λ _. Memory × Outcome (Unit {0})) [
            | none ↦ (u, stuck)
            | some m' ↦ (m', fail t)
          ]).0
  made_fail m u t none h k = h
  made_fail m u t (some m') h k = Same-trans P m u m' h k

  released-Same :
      (release : Change) (m : Memory) (r : Memory × Outcome (Unit {0}))
      → Keeping P release
      → Same P m r.0
      → Same P m (released release r).0
  released-Same release m (m', done a t) keeping h = h
  released-Same release m (m', fail t) keeping h = made_fail m m' t (release m') h (keeping m')
  released-Same release m (m', fault) keeping h = h
  released-Same release m (m', stuck) keeping h = h

  pub initialized-Writing :
      (defaults release : Change) (decode_noinit : Action (Unit {0}))
      → ((m : Memory) → Kept P m (defaults m))
      → Keeping P release
      → Writing decode_noinit
      → Writing (initialized defaults release decode_noinit)
  unfolding initialized
  initialized-Writing defaults release decode_noinit made gone w m s i =
      changing-Same P (λ _ m' s'. released release (decode_noinit m' s')) defaults m s (made m)
        (λ m'. released-Same release m' (decode_noinit m' s) gone (w m' s i))
