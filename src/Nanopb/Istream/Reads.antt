-- ===== src/Nanopb/Istream/Reads.antt =====
-- What a call may do to an input stream: it takes bytes off the front, and position and count
-- move together.
use firebase_login.Base.{
  ℕ, zero, suc, ◌+◌, ◌-◌, ◌≤◌, ◌≡◌, refl, ap, List, [], ◌∷◌, ◌++◌, length, take, drop, arith,
  append_assoc, length-append, take-append-drop, length-take, sym, ◌∙◌, Option, ◌<◌,
}
use native.Mathlib.Decide.{dec_le}
use firebase_login.Nanopb.Istream.{
  end_of_stream, IStream, Outcome, done, fail, fault, stuck, Call, continue, pb_read, pb_readbyte,
  ErrMsg, set_error,
}

-- The bytes that may still be read lie in the buffer.
abbrev pub IsValid : IStream → Type 0
IsValid s = s.bytes_left ≤ length s.state

-- `t` is `s` after some bytes were read.
pub record Reads (s t : IStream) : Type 0 where
  pub taken : List ℕ
  pub front : s.state ≡ taken ++ t.state
  pub count : s.bytes_left ≡ length taken + t.bytes_left

-- The call has read from `s` on, has read nothing outside of the buffer and has come to its end.
abbrev pub Safe {ℓ} : {A : Type ℓ} → IStream → Outcome A → Type 0
Safe s (done a t) = Reads s t
Safe s (fail t) = Reads s t
Safe s fault = ⊥
Safe s stuck = ⊥

pub Reads-refl : (s : IStream) → Reads s s
Reads-refl s = record { taken = []; front = refl; count = omega arith }

pub Reads-trans : {s t u : IStream} → Reads s t → Reads t u → Reads s u
Reads-trans {u} p q = record {
  taken = p.taken ++ q.taken;
  front = p.front ∙ ap (λ x. p.taken ++ x) q.front ∙ sym (append_assoc p.taken q.taken u.state);
  count = omega (arith, length-append p.taken q.taken);
}

pub Reads-IsValid : {s t : IStream} → Reads s t → IsValid s → IsValid t
Reads-IsValid {t} p h = omega (arith, ap length p.front, length-append p.taken t.state)

-- What is safe after some reading is safe from the start.
pub Safe-later {ℓ} : {A : Type ℓ} {s t : IStream} (o : Outcome A) → Reads s t → Safe t o → Safe s o
Safe-later (done a u) r h = Reads-trans r h
Safe-later (fail u) r h = Reads-trans r h
Safe-later fault r h = h
Safe-later stuck r h = h

-- What follows a safe call is safe, if it is safe wherever that call may leave the stream.
pub continue-Safe {ℓ κ} :
    {A : Type ℓ} {B : Type κ} {s : IStream} (f : A → Call B) (o : Outcome A)
    → IsValid s
    → Safe s o
    → ((a : A) (t : IStream) → o ≡ done a t → Reads s t → IsValid t → Safe t (f a t))
    → Safe s (continue f o)
continue-Safe f (done a t) v h next = Safe-later (f a t) h (next a t refl h (Reads-IsValid h v))
continue-Safe f (fail t) v h next = h
continue-Safe f fault v h next = h
continue-Safe f stuck v h next = h

abbrev pub stream : List ℕ → ℕ → Option ErrMsg → IStream
stream m n e = record { state = m; bytes_left = n; errmsg = e }

pub pb_readbyte-cons :
    (b : ℕ) (m : List ℕ) (n : ℕ) (e : Option ErrMsg)
    → pb_readbyte (stream (b ∷ m) (suc n) e) ≡ done b (stream m n e)
unfolding pb_readbyte
pb_readbyte-cons b m n e = ground arith

readbyte-Safe :
    (m : List ℕ) (n : ℕ) (e : Option ErrMsg)
    → n ≤ length m
    → Safe (stream m n e) (pb_readbyte (stream m n e))
readbyte-Safe m zero e v =
    unfold pb_readbyte in record { taken = []; front = refl; count = omega arith }
readbyte-Safe [] (suc n) e v = absurd (omega arith)
readbyte-Safe (b ∷ m) (suc n) e v =
    rw (pb_readbyte-cons b m n e) (record { taken = b ∷ []; front = refl; count = omega arith })

-- Reading one byte is safe.
pub pb_readbyte-Safe : (s : IStream) → IsValid s → Safe s (pb_readbyte s)
pb_readbyte-Safe s v = readbyte-Safe s.state s.bytes_left s.errmsg v

readbyte_shorter :
    (m : List ℕ) (n : ℕ) (e : Option ErrMsg) (b : ℕ) (t : IStream)
    → pb_readbyte (stream m n e) ≡ done b t
    → suc t.bytes_left ≡ n
readbyte_shorter m zero e b t h = unfold pb_readbyte in cc
readbyte_shorter [] (suc n) e b t h = unfold pb_readbyte in ground arith
readbyte_shorter (c ∷ m) (suc n) e b t h = ground (arith, pb_readbyte-cons c m n e)

-- A byte that was read is gone from the count.
pub pb_readbyte_shorter :
    (s : IStream) (b : ℕ) (t : IStream) → pb_readbyte s ≡ done b t → suc t.bytes_left ≡ s.bytes_left
pb_readbyte_shorter s b t h = readbyte_shorter s.state s.bytes_left s.errmsg b t h

-- The three ends of `pb_read`.
pub pb_read-zero : (s : IStream) → pb_read 0 s ≡ done [] s
unfolding pb_read
pb_read-zero s = refl

pub pb_read_short :
    (count : ℕ) (s : IStream)
    → s.bytes_left < count
    → pb_read count s ≡ fail (set_error end_of_stream s)
unfolding pb_read
pb_read_short count s h = ground arith

pub pb_read_enough :
    (count : ℕ) (s : IStream)
    → 0 < count
    → count ≤ s.bytes_left
    → count ≤ length s.state
    → pb_read count s
      ≡ done (take count s.state) (stream (drop count s.state) (s.bytes_left - count) s.errmsg)
unfolding pb_read
pb_read_enough count s p h v = ground arith

pub pb_read_outside :
    (count : ℕ) (s : IStream)
    → 0 < count
    → count ≤ s.bytes_left
    → length s.state < count
    → pb_read count s ≡ fault
unfolding pb_read
pb_read_outside count s p h v = ground arith

pub set_error-Reads : (e : ErrMsg) (s : IStream) → Reads s (set_error e s)
unfolding set_error
set_error-Reads e s = record { taken = []; front = refl; count = omega arith }

pub pb_read_shorter :
    (count : ℕ) (s : IStream) (bytes : List ℕ) (t : IStream)
    → 0 < count
    → pb_read count s ≡ done bytes t
    → t.bytes_left < s.bytes_left
unfolding pb_read
pb_read_shorter count s bytes t p h = ground arith

-- `pb_read` of any number of bytes from a valid stream ends, reads only inside the buffer and only
-- forward.
pub pb_read-Safe : (count : ℕ) (s : IStream) → IsValid s → Safe s (pb_read count s)
pb_read-Safe zero s v = rw (pb_read-zero s) (Reads-refl s)
pb_read-Safe (suc k) s v = elim (dec_le (suc k) s.bytes_left) [
  | yes h ↦ rw (pb_read_enough (suc k) s (omega arith) h (omega arith)) (record {
    taken = take (suc k) s.state;
    front = sym (take-append-drop (suc k) s.state);
    count = omega (arith, length-take (suc k) s.state (omega arith));
  })
  | no h ↦ rw (pb_read_short (suc k) s (omega arith)) (set_error-Reads end_of_stream s)
]
