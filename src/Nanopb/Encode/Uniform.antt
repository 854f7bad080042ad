-- ===== src/Nanopb/Encode/Uniform.antt =====
-- A call that writes: the same bytes into every buffer that has room for them, none that is
-- counted wrong, and a failure everywhere else.
use firebase_login.Base.{
  ℕ, ◌+◌, ◌^◌, ◌≤◌, ◌<◌, ◌≡◌, refl, sym, ap, subst, ◌∙◌, arith, List, [], ◌∷◌, ◌++◌, append-nil,
  append_assoc, length, length-append, none, Bool, true, false,
}
use native.Mathlib.Decide.{dec_le}
use firebase_login.Nanopb.Istream.{ErrMsg}
use firebase_login.Nanopb.Ostream.{
  OStream, Written, done, fail, overrun, stuck, Emit, ◌>>◌, follow, succeed, return_error, buffer,
  sizing, add_size, pb_write, count_bytes,
}
use firebase_login.Nanopb.Ostream.Room.{extend, pb_write_room, pb_write_full, pb_write_sizing}

-- A stream that only counts, and one into a buffer.
pub record Counting (s : OStream) : Type 0 where
  pub sink : s.callback ≡ sizing
  pub word : s.bytes_written < 2 ^ 64

pub record Ready (s : OStream) : Type 0 where
  pub sink : s.callback ≡ buffer
  pub fits : s.bytes_written ≤ s.max_size
  pub small : s.max_size < 2 ^ 63
  pub clean : s.errmsg ≡ none

-- The call returns false.
abbrev pub IsFail : Written → Type 0
IsFail (done s) = ⊥
IsFail (fail s) = Unit {0}
IsFail overrun = ⊥
IsFail stuck = ⊥

-- The call writes `out`: it counts these bytes, it writes them where there is room, and it returns
-- false where there is not.
pub record Writes (e : Emit) (out : List ℕ) : Type 0 where
  pub counts : (s : OStream) → Counting s → e s ≡ done (count_bytes (length out) s)
  pub writes :
      (s : OStream)
      → Ready s
      → s.bytes_written + length out ≤ s.max_size
      → e s ≡ done (extend s out)
  pub refuses : (s : OStream) → Ready s → s.max_size < s.bytes_written + length out → IsFail (e s)

-- The call returns false on every stream.
pub record Fails (e : Emit) : Type 0 where
  pub on_counting : (s : OStream) → Counting s → IsFail (e s)
  pub on_buffer : (s : OStream) → Ready s → IsFail (e s)

extend-append : (s : OStream) (a b : List ℕ) → extend (extend s a) b ≡ extend s (a ++ b)
extend-append s a b =
    let bytes = append_assoc s.state a b in
    let count : s.bytes_written + length a + length b ≡ s.bytes_written + length (a ++ b) =
      omega (arith, length-append a b) in
    λ i. record s { state = bytes i; bytes_written = count i }

extend-nil : (s : OStream) → extend s [] ≡ s
extend-nil s =
    let count : s.bytes_written + 0 ≡ s.bytes_written = omega arith in
    λ i. record s { state = append-nil s.state i; bytes_written = count i }

count-append :
    (s : OStream) (a b : List ℕ)
    → count_bytes (length b) (count_bytes (length a) s) ≡ count_bytes (length (a ++ b)) s
count-append s a b =
    let count : add_size (add_size s.bytes_written (length a)) (length b)
        ≡ add_size s.bytes_written (length (a ++ b)) =
      omega (arith, length-append a b) in
    λ i. record s { bytes_written = count i }

count-zero : (s : OStream) → Counting s → count_bytes 0 s ≡ s
count-zero s c =
    let count : add_size s.bytes_written 0 ≡ s.bytes_written = omega (arith, c.word) in
    λ i. record s { bytes_written = count i }

follow-IsFail : (w : Written) (k : Emit) → IsFail w → IsFail (follow w k)
follow-IsFail (done s) k h = elim h [ ]
follow-IsFail (fail s) k h = tt
follow-IsFail overrun k h = elim h [ ]
follow-IsFail stuck k h = elim h [ ]

counted-Counting : (s : OStream) (n : ℕ) → Counting s → Counting (count_bytes n s)
counted-Counting s n c = record { sink = c.sink; word = omega arith }

extended-Ready :
    (s : OStream) (out : List ℕ)
    → Ready s
    → s.bytes_written + length out ≤ s.max_size
    → Ready (extend s out)
extended-Ready s out r room = record {
  sink = r.sink;
  fits = room;
  small = r.small;
  clean = r.clean;
}

module _ (a b : Emit) (first second : List ℕ) (wa : Writes a first) where
  pub seq-Writes : Writes b second → Writes (a >> b) (first ++ second)
  seq-Writes wb = record {
    counts = λ s c.
        ap (λ w. follow w b) (wa.counts s c)
        ∙ wb.counts (count_bytes (length first) s) (counted-Counting s (length first) c)
        ∙ ap done (count-append s first second);
    writes = λ s r room.
        let total = length-append first second in
        let half : s.bytes_written + length first ≤ s.max_size = omega (arith, total, room) in
        ap (λ w. follow w b) (wa.writes s r half)
        ∙ wb.writes (extend s first) (extended-Ready s first r half) (omega (arith, total, room))
        ∙ ap done (extend-append s first second);
    refuses = λ s r full.
        let total = length-append first second in
        elim (dec_le (s.bytes_written + length first) s.max_size) [
          | yes half ↦
              subst (λ w. IsFail (follow w b)) (sym (wa.writes s r half))
                (wb.refuses (extend s first) (extended-Ready s first r half)
                  (omega (arith, total, full)))
          | no over ↦ follow-IsFail (a s) b (wa.refuses s r (omega (arith, over)))
        ];
  }

  pub seq-Fails : Fails b → Fails (a >> b)
  seq-Fails fb = record {
    on_counting = λ s c.
        subst (λ w. IsFail (follow w b)) (sym (wa.counts s c))
          (fb.on_counting (count_bytes (length first) s) (counted-Counting s (length first) c));
    on_buffer = λ s r. elim (dec_le (s.bytes_written + length first) s.max_size) [
      | yes half ↦
          subst (λ w. IsFail (follow w b)) (sym (wa.writes s r half))
            (fb.on_buffer (extend s first) (extended-Ready s first r half))
      | no over ↦ follow-IsFail (a s) b (wa.refuses s r (omega (arith, over)))
    ];
  }

pub first-Fails : (a b : Emit) → Fails a → Fails (a >> b)
first-Fails a b fa = record {
  on_counting = λ s c. follow-IsFail (a s) b (fa.on_counting s c);
  on_buffer = λ s r. follow-IsFail (a s) b (fa.on_buffer s r);
}

pub succeed-Writes : Writes succeed []
succeed-Writes = record {
  counts = λ s c. ap done (sym (count-zero s c));
  writes = λ s r room. ap done (sym (extend-nil s));
  refuses = λ s r full. absurd (omega (arith, r.fits, full));
}

pub pb_write-Writes : (out : List ℕ) → length out < 2 ^ 62 → Writes (pb_write out) out
unfolding pb_write
pb_write-Writes [] short = record {
  counts = λ s c. refl;
  writes = λ s r room.
      let count : add_size s.bytes_written 0 ≡ s.bytes_written + 0 =
        omega (arith, r.fits, r.small) in
      ap done (λ i. record s { state = sym (append-nil s.state) i; bytes_written = count i });
  refuses = λ s r full. absurd (omega (arith, r.fits, full));
}
pb_write-Writes (x ∷ bytes) short = record {
  counts = λ s c. pb_write_sizing (x ∷ bytes) s c.sink;
  writes =
      λ s r room. pb_write_room (x ∷ bytes) s r.sink (omega arith) room (omega (arith, r.small));
  refuses = λ s r full.
      subst IsFail
        (sym
          (pb_write_full (x ∷ bytes) s r.sink full r.fits (omega (arith, r.small)) (omega arith)))
        tt;
}

pub return_error-Fails : (e : ErrMsg) → Fails (return_error e)
return_error-Fails e = record { on_counting = λ s c. tt; on_buffer = λ s r. tt }

-- Every call of the encoder is one of the two, as far as it writes less than 2 ^ 62 bytes.
abbrev pub Outcome : Emit → List ℕ → Bool → Type 0
Outcome e out true = Writes e out
Outcome e out false = Fails e

pub record Uniform (e : Emit) : Type 0 where
  pub out : List ℕ
  pub succeeds : Bool
  pub law : length out < 2 ^ 62 → Outcome e out succeeds

unfoldable pub always_writes :
    {e : Emit} (out : List ℕ) → (length out < 2 ^ 62 → Writes e out) → Uniform e
always_writes out law = record { out = out; succeeds = true; law = law }

pub always_fails : {e : Emit} → Fails e → Uniform e
always_fails f = record { out = []; succeeds = false; law = λ _. f }
