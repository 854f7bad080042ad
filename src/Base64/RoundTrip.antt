-- ===== src/Base64/RoundTrip.antt =====
-- What f_b64_ntop writes, f_b64_pton reads back.
use firebase_login.Base.{
  ℕ, zero, suc, ◌^◌, ◌+◌, ◌*◌, ◌/◌, ◌%◌, ◌<◌, ◌≡◌, refl, arith, List, [], ◌∷◌, ◌++◌, length, ap,
  ◌∙◌, All,
}
use firebase_login.Base.Text.{Text}
use firebase_login.Base64.{
  pad64, sextet, first, second, third, Target, set_char, put_chars, Phase, running, pton_loop,
  f_b64_ntop, f_b64_pton, after_pad, at_end, whole_bytes,
}
use firebase_login.Base64.Encoded.{chars, length-chars, ntop_loop-chars}
use firebase_login.Base64.Quad.{pton_loop-sextet, put_zeroth, put_one, put_two, put_three}

-- What the decoder leaves in its target from an index on: the bytes, and a zero behind them where
-- the characters end with padding.
abbrev left : List ℕ → ℕ → Target → Target
left [] i target = target
left (a ∷ []) i target = set_char (i + 1) 0 (set_char i a target)
left (a ∷ b ∷ []) i target = set_char (i + 1 + 1) 0 (set_char (i + 1) b (set_char i a target))
left (a ∷ b ∷ c ∷ src) i target =
    left src (i + 1 + 1 + 1) (set_char (i + 1 + 1) c (set_char (i + 1) b (set_char i a target)))

module _ (m : ℕ) where
  -- The first two and three characters.
  after_two :
      (a b i : ℕ) (src : Text) (target : Target)
      → a < 256
      → b < 256
      → i + 1 < m
      → i + 1 < 2 ^ 32
      → pton_loop m (first a ∷ second a b ∷ src) (running Phase.zeroth i target)
        ≡ pton_loop m src
            (running Phase.two (i + 1) (set_char (i + 1) (b / 16 * 16) (set_char i a target)))
  after_two a b i src target ha hb room word =
      pton_loop-sextet m (a / 4) (second a b ∷ src) (running Phase.zeroth i target) (omega arith)
      ∙ ap (pton_loop m (second a b ∷ src)) (put_zeroth m a i target (omega arith))
      ∙ pton_loop-sextet m (a % 4 * 16 + b / 16) src
          (running Phase.one i (set_char i (a / 4 * 4) target)) (omega arith)
      ∙ ap (pton_loop m src) (put_one m a b i target room word hb)

  after_three :
      (b c i : ℕ) (src : Text) (target : Target)
      → c < 256
      → i + 1 < m
      → i + 1 < 2 ^ 32
      → pton_loop m (third b c ∷ src) (running Phase.two i (set_char i (b / 16 * 16) target))
        ≡ pton_loop m src
            (running Phase.three (i + 1) (set_char (i + 1) (c / 64 * 64) (set_char i b target)))
  after_three b c i src target hc room word =
      pton_loop-sextet m (b % 16 * 4 + c / 64) src
        (running Phase.two i (set_char i (b / 16 * 16) target)) (omega arith)
      ∙ ap (pton_loop m src) (put_two m b c i target room word hc)

  after_four :
      (c i : ℕ) (src : Text) (target : Target)
      → i < m
      → i + 1 < 2 ^ 32
      → pton_loop m
          (sextet (c % 64) ∷ src)
          (running Phase.three i (set_char i (c / 64 * 64) target))
        ≡ pton_loop m src (running Phase.zeroth (i + 1) (set_char i c target))
  after_four c i src target room word =
      pton_loop-sextet m (c % 64) src (running Phase.three i (set_char i (c / 64 * 64) target))
        (omega arith)
      ∙ ap (pton_loop m src) (put_three m c i target room word)

  -- A byte that was stored as zero bits is zero.
  padded : (i : ℕ) (target : Target) → whole_bytes i (set_char i 0 target) ≡ i
  unfolding set_char
  padded i target = ground arith

  pton_loop-chars :
      (src : List ℕ) (i : ℕ) (target : Target)
      → All (λ b. b < 256) src
      → i + length src < m
      → i + length src < 2 ^ 32
      → pton_loop m (chars src) (running Phase.zeroth i target)
        ≡ (left src i target, i + length src)
  unfolding pton_loop at_end after_pad
  pton_loop-chars [] i target h room word =
      let same : i ≡ i + 0 = omega arith in ap (λ k. (target, k)) same
  pton_loop-chars (a ∷ []) i target (ha, _) room word =
      let t = set_char i a target in
      after_two a 0 i (pad64 ∷ pad64 ∷ []) target ha (omega arith) (omega arith) (omega arith)
      ∙ ap (λ k. (set_char (i + 1) 0 t, k)) (padded (i + 1) t)
  pton_loop-chars (a ∷ b ∷ []) i target (ha, (hb, _)) room word =
      let t = set_char (i + 1) b (set_char i a target) in
      let pair : i + 1 + 1 ≡ i + length (a ∷ b ∷ []) = omega arith in
      after_two a b i (third b 0 ∷ pad64 ∷ []) target ha hb (omega arith) (omega arith)
      ∙ after_three b 0 (i + 1) (pad64 ∷ []) (set_char i a target) (omega arith) (omega arith)
          (omega arith)
      ∙ ap (λ k. (set_char (i + 1 + 1) 0 t, k)) (padded (i + 1 + 1) t ∙ pair)
  pton_loop-chars (a ∷ b ∷ c ∷ src) i target (ha, (hb, (hc, hs))) room word =
      let t1 = set_char i a target in
      let t2 = set_char (i + 1) b t1 in
      let t3 = set_char (i + 1 + 1) c t2 in
      let count : i + 1 + 1 + 1 + length src ≡ i + length (a ∷ b ∷ c ∷ src) = omega arith in
      after_two a b i (third b c ∷ sextet (c % 64) ∷ chars src) target ha hb (omega arith)
        (omega arith)
      ∙ after_three b c (i + 1) (sextet (c % 64) ∷ chars src) t1 hc (omega arith) (omega arith)
      ∙ after_four c (i + 1 + 1) (chars src) t2 (omega arith) (omega arith)
      ∙ pton_loop-chars src (i + 1 + 1 + 1) t3 hs (omega arith) (omega arith)
      ∙ ap (λ k. (left src (i + 1 + 1 + 1) t3, k)) count

-- The bytes from an index on.
abbrev pub read_chars : ℕ → ℕ → Target → List ℕ
read_chars zero i target = []
read_chars (suc count) i target = target i ∷ read_chars count (i + 1) target

set_char-other : (i b : ℕ) (target : Target) (k : ℕ) → k < i → set_char i b target k ≡ target k
unfolding set_char
set_char-other i b target k h = ground arith

set_char-here : (i b : ℕ) (target : Target) → set_char i b target i ≡ b
unfolding set_char
set_char-here i b target = ground arith

left_before :
    (src : List ℕ) (i : ℕ) (target : Target) (k : ℕ) → k < i → left src i target k ≡ target k
left_before [] i target k h = refl
left_before (a ∷ []) i target k h =
    set_char-other (i + 1) 0 (set_char i a target) k (omega arith) ∙ set_char-other i a target k h
left_before (a ∷ b ∷ []) i target k h =
    let t1 = set_char i a target in
    set_char-other (i + 1 + 1) 0 (set_char (i + 1) b t1) k (omega arith)
    ∙ set_char-other (i + 1) b t1 k (omega arith)
    ∙ set_char-other i a target k h
left_before (a ∷ b ∷ c ∷ src) i target k h =
    let t1 = set_char i a target in
    let t2 = set_char (i + 1) b t1 in
    left_before src (i + 1 + 1 + 1) (set_char (i + 1 + 1) c t2) k (omega arith)
    ∙ set_char-other (i + 1 + 1) c t2 k (omega arith)
    ∙ set_char-other (i + 1) b t1 k (omega arith)
    ∙ set_char-other i a target k h

read_chars-left :
    (src : List ℕ) (i : ℕ) (target : Target) → read_chars (length src) i (left src i target) ≡ src
read_chars-left [] i target = refl
read_chars-left (a ∷ []) i target =
    let t1 = set_char i a target in
    ap (λ x. x ∷ []) (set_char-other (i + 1) 0 t1 i (omega arith) ∙ set_char-here i a target)
read_chars-left (a ∷ b ∷ []) i target =
    let t1 = set_char i a target in
    let t2 = set_char (i + 1) b t1 in
    let ea : set_char (i + 1 + 1) 0 t2 i ≡ a =
      set_char-other (i + 1 + 1) 0 t2 i (omega arith)
      ∙ set_char-other (i + 1) b t1 i (omega arith)
      ∙ set_char-here i a target in
    let eb : set_char (i + 1 + 1) 0 t2 (i + 1) ≡ b =
      set_char-other (i + 1 + 1) 0 t2 (i + 1) (omega arith) ∙ set_char-here (i + 1) b t1 in
    rw (ea, eb) refl
read_chars-left (a ∷ b ∷ c ∷ src) i target =
    let t1 = set_char i a target in
    let t2 = set_char (i + 1) b t1 in
    let t3 = set_char (i + 1 + 1) c t2 in
    let ea : left src (i + 1 + 1 + 1) t3 i ≡ a =
      left_before src (i + 1 + 1 + 1) t3 i (omega arith)
      ∙ set_char-other (i + 1 + 1) c t2 i (omega arith)
      ∙ set_char-other (i + 1) b t1 i (omega arith)
      ∙ set_char-here i a target in
    let eb : left src (i + 1 + 1 + 1) t3 (i + 1) ≡ b =
      left_before src (i + 1 + 1 + 1) t3 (i + 1) (omega arith)
      ∙ set_char-other (i + 1 + 1) c t2 (i + 1) (omega arith)
      ∙ set_char-here (i + 1) b t1 in
    let ec : left src (i + 1 + 1 + 1) t3 (i + 1 + 1) ≡ c =
      left_before src (i + 1 + 1 + 1) t3 (i + 1 + 1) (omega arith)
      ∙ set_char-here (i + 1 + 1) c t2 in
    rw (ea, eb, ec, read_chars-left src (i + 1 + 1 + 1) t3) refl

-- With room for the characters and a terminator, fewer than 2^31, `f_b64_ntop` stores the characters
-- and the terminator for any bytes and returns the number of characters; and with room for one byte
-- more than there are, `f_b64_pton` of these characters returns the number of the bytes and leaves
-- them, in order, at the start of its target.
pub f_b64_pton-ntop :
    (src : List ℕ) (n m : ℕ) (target target' : Target)
    → All (λ b. b < 256) src
    → 4 * ((length src + 2) / 3) < n
    → 4 * ((length src + 2) / 3) < 2 ^ 31
    → length src < m
    → (out : Text) × (f_b64_ntop src n target ≡ (put_chars 0 (out ++ (0 ∷ [])) target, length out))
      × ((f_b64_pton out m target').1 ≡ length src)
      × (read_chars (length src) 0 (f_b64_pton out m target').0 ≡ src)
unfolding f_b64_ntop f_b64_pton
f_b64_pton-ntop src n m target target' bytes out_room word room =
    let count = length-chars src in
    let whole : length (chars src) % 2 ^ 32 ≡ length (chars src) = omega (arith, count) in
    let all : 0 + length src ≡ length src = omega arith in
    let decoded = pton_loop-chars m src 0 target' bytes (omega arith) (omega arith) in
    (
      chars src,
      ntop_loop-chars src n 0 target (omega (arith, count)) (omega (arith, count))
          ∙ ap (λ k. (put_chars 0 (chars src ++ (0 ∷ [])) target, k)) (omega (arith, whole)),
      ap (λ r. r.1) decoded ∙ all,
      ap (λ r. read_chars (length src) 0 r.0) decoded ∙ read_chars-left src 0 target',
    )
