-- ===== src/Nanopb/Action/Same.antt =====
-- Changes of the memory that leave some addresses alone.
use firebase_login.Base.{
  ℕ, zero, suc, ◌+◌, ◌/◌, ◌%◌, ◌≤◌, ◌<◌, ◌≡◌, ◌⊎◌, refl, ◌∙◌, arith, List, [], Option, none, some,
  ◌∷◌, length, Bool, true, false, inl, inr, if◌then◌else◌,
}
use firebase_login.Nanopb.Istream.{IStream, Outcome, done, fail, fault, stuck}
use firebase_login.Nanopb.Memory.{Memory, set_byte, store, write_bytes}
use firebase_login.Nanopb.Action.{Action, Change, and_then, changing}

-- The addresses that satisfy `P` lie outside of a range.
abbrev pub Avoids : (ℕ → Type 0) → ℕ → ℕ → Type 0
Avoids P low high = (a : ℕ) → P a → (a < low) ⊎ (high ≤ a)

-- Where `P` is satisfied, the memory stays what it is.
abbrev pub Same : (ℕ → Type 0) → Memory → Memory → Type 0
Same P m m' = (a : ℕ) → P a → m' a ≡ m a

module _ (P : ℕ → Type 0) where
  pub Same-trans : (m m' m'' : Memory) → Same P m m' → Same P m' m'' → Same P m m''
  Same-trans m m' m'' h k a p = k a p ∙ h a p

  pub Avoids-part :
      (low high low' high' : ℕ)
      → Avoids P low high
      → low ≤ low'
      → high' ≤ high
      → Avoids P low' high'
  Avoids-part low high low' high' avoids hl hh a p = elim (avoids a p) [
    | inl below ↦ inl (omega arith)
    | inr above ↦ inr (omega arith)
  ]

  set_byte-Same :
      (address b : ℕ) (m : Memory)
      → Avoids P address (address + 1)
      → Same P m (set_byte address b m)
  unfolding set_byte
  set_byte-Same address b m avoids a p = elim (avoids a p) [
    | inl below ↦ ground arith
    | inr above ↦ ground arith
  ]

  pub write_bytes-Same :
      (bytes : List ℕ) (address : ℕ) (m : Memory)
      → Avoids P address (address + length bytes)
      → Same P m (write_bytes address bytes m)
  unfolding write_bytes
  write_bytes-Same [] address m avoids = λ a p. refl
  write_bytes-Same (b ∷ bytes) address m avoids =
      let e = address + length (b ∷ bytes) in
      Same-trans m (set_byte address b m) (write_bytes (address + 1) bytes (set_byte address b m))
        (set_byte-Same address b m
          (Avoids-part address e address (address + 1) avoids (omega arith) (omega arith)))
        (write_bytes-Same bytes (address + 1) (set_byte address b m) (
          Avoids-part address e (address + 1) (address + 1 + length bytes) avoids (omega arith)
            (omega arith)))

  pub store-Same :
      (width address n : ℕ) (m : Memory)
      → Avoids P address (address + width)
      → Same P m (store width address n m)
  unfolding store
  store-Same zero address n m avoids = λ a p. refl
  store-Same (suc width) address n m avoids =
      let e = address + suc width in
      Same-trans m (set_byte address (n % 256) m)
        (store width (address + 1) (n / 256) (set_byte address (n % 256) m))
        (set_byte-Same address (n % 256) m
          (Avoids-part address e address (address + 1) avoids (omega arith) (omega arith)))
        (store-Same width (address + 1) (n / 256) (set_byte address (n % 256) m) (
          Avoids-part address e (address + 1) (address + 1 + width) avoids (omega arith)
            (omega arith)))

  pub if-Same :
      {A : Type 0} (m : Memory) (b : Bool) (x y : Memory × Outcome A)
      → (b ≡ true → Same P m x.0)
      → (b ≡ false → Same P m y.0)
      → Same P m (if b then x else y).0
  if-Same m true x y hx hy = hx refl
  if-Same m false x y hx hy = hy refl

  pub and_then-Same :
      {A B : Type 0} (f : A → Action B) (m : Memory) (r : Memory × Outcome A)
      → Same P m r.0
      → ((x : A) (m' : Memory) (t : IStream) → r ≡ (m', done x t) → Same P m' (f x m' t).0)
      → Same P m (and_then f r).0
  and_then-Same f m (m', done x t) h k = Same-trans m m' (f x m' t).0 h (k x m' t refl)
  and_then-Same f m (m', fail t) h k = h
  and_then-Same f m (m', fault) h k = h
  and_then-Same f m (m', stuck) h k = h

  pub reading-Same :
      {A B : Type 0} (f : A → Action B) (m : Memory) (o : Outcome A)
      → ((x : A) (t : IStream) → o ≡ done x t → Same P m (f x m t).0)
      → Same P m (and_then f (m, o)).0
  reading-Same f m (done x t) k = k x t refl
  reading-Same f m (fail t) k = λ a p. refl
  reading-Same f m fault k = λ a p. refl
  reading-Same f m stuck k = λ a p. refl

  -- A change of the memory, where it is made.
  abbrev pub Kept : Memory → Option Memory → Type 0
  Kept m none = Unit
  Kept m (some m') = Same P m m'

  made-Same :
      {B : Type 0} (f : Unit {0} → Action B) (m : Memory) (s : IStream) (o : Option Memory)
      → Kept m o
      → ((m' : Memory) → Same P m' (f tt m' s).0)
      → Same P m
          (and_then f (elim o as (λ _. Memory × Outcome (Unit {0})) [
            | none ↦ (m, stuck)
            | some m' ↦ (m', done tt s)
          ])).0
  made-Same f m s none h k = λ a p. refl
  made-Same f m s (some m') h k = Same-trans m m' (f tt m' s).0 h (k m')

  -- What follows a change of the memory.
  pub changing-Same :
      {B : Type 0} (f : Unit {0} → Action B) (c : Change) (m : Memory) (s : IStream)
      → Kept m (c m)
      → ((m' : Memory) → Same P m' (f tt m' s).0)
      → Same P m (and_then f (changing c m s)).0
  changing-Same f c m s h k = made-Same f m s (c m) h k

  pub if-Kept :
      (m : Memory) (b : Bool) (x y : Option Memory)
      → (b ≡ true → Kept m x)
      → (b ≡ false → Kept m y)
      → Kept m (if b then x else y)
  if-Kept m true x y hx hy = hx refl
  if-Kept m false x y hx hy = hy refl

  pub Kept-later : (m m' : Memory) (o : Option Memory) → Same P m m' → Kept m' o → Kept m o
  Kept-later m m' none h k = tt
  Kept-later m m' (some m'') h k = Same-trans m m' m'' h k

  pub bind-Kept :
      (m : Memory) (o : Option Memory) (c : Change)
      → Kept m o
      → ((m' : Memory) → Kept m' (c m'))
      → Kept m (elim o as (λ _. Option Memory) [ none ↦ none | some m' ↦ c m' ])
  bind-Kept m none c h k = tt
  bind-Kept m (some m') c h k = Kept-later m m' (c m') h (k m')

  -- The memory stays what it is where `P` is satisfied, and `Q` tells of the result.
  abbrev pub Leaves : {A : Type 0} → (A → Type 0) → Memory → Memory × Outcome A → Type 0
  Leaves Q m (m', done a t) = Same P m m' × Q a
  Leaves Q m (m', fail t) = Same P m m'
  Leaves Q m (m', fault) = Same P m m'
  Leaves Q m (m', stuck) = Same P m m'

  pub Leaves-Same :
      {A : Type 0} (Q : A → Type 0) (m : Memory) (r : Memory × Outcome A)
      → Leaves Q m r
      → Same P m r.0
  Leaves-Same Q m (m', done a t) h = h.0
  Leaves-Same Q m (m', fail t) h = h
  Leaves-Same Q m (m', fault) h = h
  Leaves-Same Q m (m', stuck) h = h

  pub Same-Leaves :
      {A : Type 0} (m : Memory) (r : Memory × Outcome A) → Same P m r.0 → Leaves (λ _. Unit {0}) m r
  Same-Leaves m (m', done a t) h = (h, tt)
  Same-Leaves m (m', fail t) h = h
  Same-Leaves m (m', fault) h = h
  Same-Leaves m (m', stuck) h = h

  pub Leaves-later :
      {A : Type 0} (Q : A → Type 0) (m m' : Memory) (r : Memory × Outcome A)
      → Same P m m'
      → Leaves Q m' r
      → Leaves Q m r
  Leaves-later Q m m' (m'', done a t) h k = (Same-trans m m' m'' h k.0, k.1)
  Leaves-later Q m m' (m'', fail t) h k = Same-trans m m' m'' h k
  Leaves-later Q m m' (m'', fault) h k = Same-trans m m' m'' h k
  Leaves-later Q m m' (m'', stuck) h k = Same-trans m m' m'' h k

  pub and_then-Leaves :
      {A B : Type 0} (Q : A → Type 0) (R : B → Type 0) (f : A → Action B) (m : Memory)
      (r : Memory × Outcome A)
      → Leaves Q m r
      → ((a : A) (m' : Memory) (t : IStream) → Q a → Leaves R m' (f a m' t))
      → Leaves R m (and_then f r)
  and_then-Leaves Q R f m (m', done a t) h k = Leaves-later R m m' (f a m' t) h.0 (k a m' t h.1)
  and_then-Leaves Q R f m (m', fail t) h k = h
  and_then-Leaves Q R f m (m', fault) h k = h
  and_then-Leaves Q R f m (m', stuck) h k = h

  pub if-Leaves :
      {A : Type 0} (Q : A → Type 0) (m : Memory) (b : Bool) (x y : Memory × Outcome A)
      → (b ≡ true → Leaves Q m x)
      → (b ≡ false → Leaves Q m y)
      → Leaves Q m (if b then x else y)
  if-Leaves Q m true x y hx hy = hx refl
  if-Leaves Q m false x y hx hy = hy refl

  made-Leaves :
      {B : Type 0} (Q : B → Type 0) (f : Unit {0} → Action B) (m : Memory) (s : IStream)
      (o : Option Memory)
      → Kept m o
      → ((m' : Memory) → Leaves Q m' (f tt m' s))
      → Leaves Q m (
          and_then f (elim o as (λ _. Memory × Outcome (Unit {0})) [
            | none ↦ (m, stuck)
            | some m' ↦ (m', done tt s)
          ]))
  made-Leaves Q f m s none h k = λ a p. refl
  made-Leaves Q f m s (some m') h k = Leaves-later Q m m' (f tt m' s) h (k m')

  pub changing-Leaves :
      {B : Type 0} (Q : B → Type 0) (f : Unit {0} → Action B) (c : Change) (m : Memory)
      (s : IStream)
      → Kept m (c m)
      → ((m' : Memory) → Leaves Q m' (f tt m' s))
      → Leaves Q m (and_then f (changing c m s))
  changing-Leaves Q f c m s h k = made-Leaves Q f m s (c m) h k
