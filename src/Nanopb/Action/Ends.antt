-- ===== src/Nanopb/Action/Ends.antt =====
-- How a call of the decoder may end: it returns, and reads only inside of the buffer.
use firebase_login.Base.{
  ℕ, ◌+◌, ◌≤◌, ◌<◌, ◌≡◌, refl, subst, ap, arith, List, [], ◌∷◌, ◌++◌, length, All, Option, none,
  some, Bool, true, false, if◌then◌else◌, length-append,
}
use firebase_login.Nanopb.Istream.{ErrMsg, IStream, Outcome, done, fail, fault, stuck, set_error}
use firebase_login.Nanopb.Istream.Reads.{
  IsValid, Reads, Safe, Reads-refl, Reads-trans, Reads-IsValid, set_error-Reads,
}
use firebase_login.Nanopb.Memory.{Memory}
use firebase_login.Nanopb.Action.{Change, Action, and_then, changing}

-- The stream lies in its buffer, which holds bytes.
abbrev pub IsInput : IStream → Type 0
IsInput s = IsValid s × All (λ b. b < 256) s.state

-- The bytes behind the end of the stream are all still there.
abbrev pub Keeps : IStream → IStream → Type 0
Keeps s t = t.bytes_left + length s.state ≤ length t.state + s.bytes_left

-- The call returns. If it returns true, it has read from `s` on, only forward and only inside of
-- the buffer, and `Q` tells of its result and the stream.
abbrev pub Ends : {A : Type 0} → (A → IStream → Type 0) → IStream → Outcome A → Type 0
Ends Q s (done a t) = Reads s t × Q a t
Ends Q s (fail t) = Keeps s t
Ends Q s fault = ⊥
Ends Q s stuck = ⊥

abbrev pub Any : {A : Type 0} → A → IStream → Type 0
Any a t = Unit

-- The call that returns true has read something.
abbrev pub Shorter : {A : Type 0} → IStream → A → IStream → Type 0
Shorter s a t = t.bytes_left < s.bytes_left

pub Reads-Keeps : {s t : IStream} → Reads s t → Keeps s t
Reads-Keeps {t} r = omega (arith, r.count, ap length r.front, length-append r.taken t.state)

pub Reads-bytes_left : {s t : IStream} → Reads s t → t.bytes_left ≤ s.bytes_left
Reads-bytes_left r = omega (arith, r.count)

rest-All : (xs ys : List ℕ) → All (λ b. b < 256) (xs ++ ys) → All (λ b. b < 256) ys
rest-All [] ys h = h
rest-All (x ∷ xs) ys h = rest-All xs ys h.1

pub Reads-IsInput : {s t : IStream} → Reads s t → IsInput s → IsInput t
Reads-IsInput {t} r h =
    (Reads-IsValid r h.0, rest-All r.taken t.state (subst (All (λ b. b < 256)) r.front h.1))

pub set_error-Keeps : (e : ErrMsg) (s : IStream) → Keeps s (set_error e s)
set_error-Keeps e s = Reads-Keeps (set_error-Reads e s)

module _ {A : Type 0} where
  -- A safe call ends.
  pub Safe-Ends :
      (Q : A → IStream → Type 0) (s : IStream) (o : Outcome A)
      → Safe s o
      → ((a : A) (t : IStream) → o ≡ done a t → Reads s t → Q a t)
      → Ends Q s o
  Safe-Ends Q s (done a t) h q = (h, q a t refl h)
  Safe-Ends Q s (fail t) h q = Reads-Keeps h
  Safe-Ends Q s fault h q = h
  Safe-Ends Q s stuck h q = h

  -- What ends after some reading ends from the start.
  pub Ends-later :
      (Q R : A → IStream → Type 0) (s t : IStream) (o : Outcome A)
      → Reads s t
      → Ends Q t o
      → ((a : A) (u : IStream) → Reads t u → Q a u → R a u)
      → Ends R s o
  Ends-later Q R s t (done a u) r h q = (Reads-trans r h.0, q a u h.0 h.1)
  Ends-later Q R s t (fail u) r h q = let k = Reads-Keeps r in omega (arith, h, k)
  Ends-later Q R s t fault r h q = h
  Ends-later Q R s t stuck r h q = h

  pub weaken-Ends :
      (Q R : A → IStream → Type 0) (s : IStream) (o : Outcome A)
      → Ends Q s o
      → ((a : A) (u : IStream) → Reads s u → Q a u → R a u)
      → Ends R s o
  weaken-Ends Q R s o h q = Ends-later Q R s s o (Reads-refl s) h q

  pub if-Ends :
      (Q : A → IStream → Type 0) (s : IStream) (b : Bool) (x y : Memory × Outcome A)
      → (b ≡ true → Ends Q s x.1)
      → (b ≡ false → Ends Q s y.1)
      → Ends Q s (if b then x else y).1
  if-Ends Q s true x y hx hy = hx refl
  if-Ends Q s false x y hx hy = hy refl

-- What follows a call that ends has to end wherever that call may leave the stream.
pub and_then-Ends :
    {A B : Type 0} (Q : A → IStream → Type 0) (R : B → IStream → Type 0) (f : A → Action B)
    (s : IStream) (r : Memory × Outcome A)
    → IsInput s
    → Ends Q s r.1
    → ((a : A) (m : Memory) (t : IStream) → Q a t → Reads s t → IsInput t → Ends R t (f a m t).1)
    → Ends R s (and_then f r).1
and_then-Ends Q R f s (m, done a t) i h k =
    Ends-later R R s t (f a m t).1 h.0 (k a m t h.1 h.0 (Reads-IsInput h.0 i)) (λ b u _ q. q)
and_then-Ends Q R f s (m, fail t) i h k = h
and_then-Ends Q R f s (m, fault) i h k = h
and_then-Ends Q R f s (m, stuck) i h k = h

abbrev pub IsMade : Option Memory → Type 0
IsMade none = ⊥
IsMade (some m) = Unit

-- The change is made, whatever the memory is.
abbrev pub Total : Change → Type 0
Total c = (m : Memory) → IsMade (c m)

pub if-Total :
    (b : Bool) (x y : Change)
    → (b ≡ true → Total x)
    → (b ≡ false → Total y)
    → Total (if b then x else y)
if-Total true x y hx hy = hx refl
if-Total false x y hx hy = hy refl

pub if-IsMade :
    (b : Bool) (x y : Option Memory)
    → (b ≡ true → IsMade x)
    → (b ≡ false → IsMade y)
    → IsMade (if b then x else y)
if-IsMade true x y hx hy = hx refl
if-IsMade false x y hx hy = hy refl

made-Ends :
    {B : Type 0} (R : B → IStream → Type 0) (f : Unit {0} → Action B) (m : Memory) (s : IStream)
    (o : Option Memory)
    → IsMade o
    → ((m' : Memory) → Ends R s (f tt m' s).1)
    → Ends R s (and_then f (elim o [ none ↦ (m, stuck) | some m' ↦ (m', done tt s) ])).1
made-Ends R f m s none h k = elim h [ ]
made-Ends R f m s (some m') h k = k m'

-- What follows a change of the memory.
pub changing-Ends :
    {B : Type 0} (R : B → IStream → Type 0) (c : Change) (f : Unit {0} → Action B) (m : Memory)
    (s : IStream)
    → Total c
    → ((m' : Memory) → Ends R s (f tt m' s).1)
    → Ends R s (and_then f (changing c m s)).1
changing-Ends R c f m s total k = made-Ends R f m s (c m) (total m) k
