-- ===== src/Nanopb/Encode/Compose.antt =====
-- Encoders that are put together from encoders, and a submessage behind its length.
use firebase_login.Base.{
  ℕ, ◌+◌, ◌^◌, ◌≤◌, ◌<◌, ◌≡◌, refl, sym, ap, subst, ◌∙◌, arith, List, [], ◌++◌, length,
  length-append, Bool, true, false, if◌then◌else◌, ltb, ◌==◌, le→ltb_false, lt→ltb,
}
use firebase_login.Nanopb.Istream.{ErrMsg, stream_full}
use firebase_login.Nanopb.Ostream.{
  OStream, Written, done, fail, overrun, stuck, Emit, ◌>>◌, succeed, return_error, add_size,
  pb_write, count_bytes, sizing_stream, is_null, pb_write_null,
}
use firebase_login.Nanopb.Ostream.Room.{extend}
use firebase_login.Nanopb.Varint.{pb_encode_varint}
use firebase_login.Nanopb.Varint.Encoding.{encoding, encoding_short, pb_encode_varint_lem}
use firebase_login.Nanopb.Encode.{
  unless_counting, close_sized, sized, write_sized, after_sizing, pb_encode_submessage,
}
use firebase_login.Nanopb.Encode.Uniform.{
  Counting, Ready, IsFail, Writes, Fails, Outcome, Uniform, always_writes, always_fails, seq-Writes,
  seq-Fails, first-Fails, succeed-Writes, pb_write-Writes, return_error-Fails,
}

unfoldable pub seq_first :
    (a b : Emit) (out : List ℕ) (ok : Bool) (second : List ℕ) (ok2 : Bool)
    → (length out < 2 ^ 62 → Outcome a out ok)
    → (length second < 2 ^ 62 → Outcome b second ok2)
    → Uniform (a >> b)
seq_first a b out false second ok2 la lb = record {
  out = out;
  succeeds = false;
  law = λ h. first-Fails a b (la h);
}
seq_first a b out true second true la lb = always_writes (out ++ second) (λ h.
    let total = length-append out second in
    seq-Writes a b out second (la (omega (arith, total))) (lb (omega (arith, total))))
seq_first a b out true second false la lb = record {
  out = out ++ second;
  succeeds = false;
  law = λ h.
      let total = length-append out second in
      seq-Fails a b out second (la (omega (arith, total))) (lb (omega (arith, total)));
}

unfoldable pub seq-Uniform : (a b : Emit) → Uniform a → Uniform b → Uniform (a >> b)
seq-Uniform a b ua ub = seq_first a b ua.out ua.succeeds ub.out ub.succeeds ua.law ub.law

-- A choice needs each side only where it is taken.
unfoldable pub if-Uniform :
    (b : Bool) (x y : Emit)
    → (b ≡ true → Uniform x)
    → (b ≡ false → Uniform y)
    → Uniform (if b then x else y)
if-Uniform true x y ux uy = ux refl
if-Uniform false x y ux uy = uy refl

unfoldable pub succeed-Uniform : Uniform succeed
succeed-Uniform = always_writes [] (λ _. succeed-Writes)

pub return_error-Uniform : (e : ErrMsg) → Uniform (return_error e)
return_error-Uniform e = always_fails (return_error-Fails e)

unfoldable pub pb_write-Uniform : (out : List ℕ) → Uniform (pb_write out)
pb_write-Uniform out = always_writes out (pb_write-Writes out)

varint_short : (v : ℕ) → length (encoding 9 v) < 2 ^ 62
varint_short v = omega (arith, encoding_short 9 v)

pub pb_encode_varint-Writes : (v : ℕ) → v < 2 ^ 64 → Writes (pb_encode_varint v) (encoding 9 v)
pb_encode_varint-Writes v h =
    subst (λ e. Writes e (encoding 9 v)) (sym (pb_encode_varint_lem v h))
      (pb_write-Writes (encoding 9 v) (varint_short v))

unfoldable pub pb_encode_varint-Uniform : (v : ℕ) → v < 2 ^ 64 → Uniform (pb_encode_varint v)
pb_encode_varint-Uniform v h = always_writes (encoding 9 v) (λ _. pb_encode_varint-Writes v h)

choose_true : (b : Bool) (x y : Written) → b ≡ true → (if b then x else y) ≡ x
choose_true true x y h = refl
choose_true false x y h = absurd (cc)

choose_false : (b : Bool) (x y : Written) → b ≡ false → (if b then x else y) ≡ y
choose_false true x y h = absurd (cc)
choose_false false x y h = refl

no_callback : (s : OStream) → Counting s → is_null s.callback ≡ true
no_callback s c = ap is_null c.sink

has_callback : (s : OStream) → Ready s → is_null s.callback ≡ false
has_callback s r = ap is_null r.sink

-- Data whose size is known in advance.
pub unless_counting-Writes :
    (items : Emit) (out : List ℕ)
    → Writes items out
    → Writes (unless_counting (length out) items) out
unfolding unless_counting pb_write_null
unless_counting-Writes items out w = record {
  counts = λ s c. choose_true (is_null s.callback) _ (items s) (no_callback s c);
  writes = λ s r room.
      choose_false (is_null s.callback) (pb_write_null (length out) s) (items s) (has_callback s r)
      ∙ w.writes s r room;
  refuses = λ s r full.
      subst IsFail
        (sym (
          choose_false (is_null s.callback) (pb_write_null (length out) s) (items s)
            (has_callback s r)))
        (w.refuses s r full);
}

-- The pass that only counts gives the number of the bytes.
pub counted :
    (e : Emit) (out : List ℕ)
    → length out < 2 ^ 62
    → Writes e out
    → e sizing_stream ≡ done (count_bytes (length out) sizing_stream)
unfolding sizing_stream
counted e out h w = w.counts sizing_stream (record { sink = refl; word = omega arith })

pub counted_size : (n : ℕ) → n < 2 ^ 62 → (count_bytes n sizing_stream).bytes_written ≡ n
unfolding sizing_stream
counted_size n h = omega arith

sizing_stream-Counting : Counting sizing_stream
unfolding sizing_stream
sizing_stream-Counting = record { sink = refl; word = omega arith }

failed : (w : Written) → IsFail w → (t : OStream) × (w ≡ fail t)
failed (done s) h = elim h [ ]
failed (fail s) h = (s, refl)
failed overrun h = elim h [ ]
failed stuck h = elim h [ ]

pub uncounted : (e : Emit) → Fails e → (t : OStream) × (e sizing_stream ≡ fail t)
uncounted e f = failed (e sizing_stream) (f.on_counting sizing_stream sizing_stream-Counting)

-- The second pass into a substream of the counted size.
close_sized-done :
    (s : OStream) (out : List ℕ)
    → Ready s
    → s.bytes_written + length out ≤ s.max_size
    → close_sized (length out) s (done (extend (sized (length out) s) out)) ≡ done (extend s out)
unfolding close_sized
close_sized-done s out r room =
    let n = length out in
    let same : (0 + n == n) ≡ true = ground arith in
    let count : add_size s.bytes_written (0 + n) ≡ s.bytes_written + n = omega (arith, r.small) in
    let clean = sym r.clean in
    rw same (
      ap done (λ i. record s { state = s.state ++ out; bytes_written = count i; errmsg = clean i }))

-- What is behind the length, into a buffer: whether there is room is tested before the second pass.
module _ (message : Emit) (s : OStream) (r : Ready s) (n : ℕ) (short : n < 2 ^ 62) where
  abbrev second_pass : Written
  second_pass = close_sized n s (message (sized n s))

  write_sized_room : s.bytes_written + n ≤ s.max_size → write_sized message n s ≡ second_pass
  unfolding write_sized
  write_sized_room room =
      choose_false (is_null s.callback) (pb_write_null n s) _ (has_callback s r)
      ∙ choose_false (ltb s.max_size (add_size s.bytes_written n)) (return_error stream_full s)
          second_pass
          (le→ltb_false s.max_size (add_size s.bytes_written n) (omega (arith, r.small)))

  write_sized_full : s.max_size < s.bytes_written + n → IsFail (write_sized message n s)
  unfolding write_sized
  write_sized_full full =
      subst IsFail
        (sym (
          choose_false (is_null s.callback) (pb_write_null n s) _ (has_callback s r)
          ∙ choose_true (ltb s.max_size (add_size s.bytes_written n)) (return_error stream_full s)
              second_pass
              (lt→ltb s.max_size (add_size s.bytes_written n) (omega (arith, r.fits, r.small)))))
        tt

write_sized-Writes :
    (message : Emit) (out : List ℕ)
    → length out < 2 ^ 62
    → Writes message out
    → Writes (write_sized message (length out)) out
write_sized-Writes message out short w = record {
  counts = λ s c.
      unfold write_sized pb_write_null in choose_true (is_null s.callback) _ _ (no_callback s c);
  writes = λ s r room.
      let n = length out in
      let inner : message (sized n s) ≡ done (extend (sized n s) out) =
        w.writes (sized n s)
          (record { sink = r.sink; fits = omega arith; small = omega arith; clean = refl })
          (omega arith) in
      write_sized_room message s r n short room
      ∙ ap (close_sized n s) inner
      ∙ close_sized-done s out r room;
  refuses = λ s r full. write_sized_full message s r (length out) short full;
}

-- The submessage behind its length.
pub pb_encode_submessage-Writes :
    (message : Emit) (out : List ℕ)
    → length out < 2 ^ 62
    → Writes message out
    → Writes (pb_encode_submessage message) (encoding 9 (length out) ++ out)
unfolding pb_encode_submessage after_sizing
pb_encode_submessage-Writes message out short w =
    let n = length out in
    subst (λ e. Writes e (encoding 9 n ++ out))
      (sym (
        ap (after_sizing message) (counted message out short w)
        ∙ ap (λ k. pb_encode_varint k >> write_sized message k) (counted_size n short)))
      (seq-Writes (pb_encode_varint n) (write_sized message n) (encoding 9 n) out
        (pb_encode_varint-Writes n (omega arith)) (write_sized-Writes message out short w))

submessage_of :
    (message : Emit) (out : List ℕ) (ok : Bool)
    → (length out < 2 ^ 62 → Outcome message out ok)
    → Uniform (pb_encode_submessage message)
unfolding pb_encode_submessage after_sizing
submessage_of message out true law = always_writes (encoding 9 (length out) ++ out) (λ h.
    let short : length out < 2 ^ 62 = omega (arith, length-append (encoding 9 (length out)) out) in
    pb_encode_submessage-Writes message out short (law short))
submessage_of message out false law = record {
  out = out;
  succeeds = false;
  law = λ h.
      let (t, e) = uncounted message (law h) in
      subst Fails (sym (ap (after_sizing message) e))
        (record { on_counting = λ s c. tt; on_buffer = λ s r. tt });
}

-- A submessage is written behind its length if its encoding is uniform: the second pass writes
-- what the first one has counted.
pub pb_encode_submessage-Uniform :
    (message : Emit) → Uniform message → Uniform (pb_encode_submessage message)
pb_encode_submessage-Uniform message u = submessage_of message u.out u.succeeds u.law
