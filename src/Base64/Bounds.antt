-- ===== src/Base64/Bounds.antt =====
-- Which bytes of their targets the calls of base64 change.
use firebase_login.Base.{
  ℕ, ◌+◌, ◌*◌, ◌/◌, bit_or, ◌%◌, ◌^◌, ◌≤◌, ◌<◌, ◌≡◌, refl, arith, List, [], ◌∷◌, Option, none, some,
  leb, ltb, ◌==◌, length, Bool-cases, inl, inr,
}
use firebase_login.Base.Text.{Text}
use firebase_login.Base64.{
  sextet, first, second, third, pad64, is_space, base64, index_of, Target, set_char, put_chars, add,
  add_four, finish, ntop_loop, f_b64_ntop, Decoder, Phase, running, failed, next, or_char, stop,
  put, put_found, take_char, after_pad, at_end, pton_loop, f_b64_pton,
}

-- The byte at an index behind the target stays what it is.
module _ (n a b : ℕ) (behind : n ≤ a) where
  set_char-Keeps : (i c : ℕ) (target : Target) → i < n → target a ≡ b → set_char i c target a ≡ b
  unfolding set_char
  set_char-Keeps i c target h e = ground arith

  put_chars-Keeps :
      (i : ℕ) (cs : Text) (target : Target)
      → i + length cs ≤ n
      → n < 2 ^ 64
      → target a ≡ b
      → put_chars i cs target a ≡ b
  unfolding put_chars
  put_chars-Keeps i [] target h word e = e
  put_chars-Keeps i (c ∷ cs) target h word e =
      put_chars-Keeps (add i 1) cs (set_char i c target) (omega arith) word
        (set_char-Keeps i c target (omega arith) e)

  finish-Keeps : (d : ℕ) (target : Target) → target a ≡ b → (finish n d target).0 a ≡ b
  finish-Keeps d target e = elim (Bool-cases (leb n d)) [
    | inl full ↦ rw full e
    | inr room ↦ rw room (set_char-Keeps d 0 target (ground arith) e)
  ]

  add_four-Keeps :
      (four : Text) (more : ℕ → Target → Target × ℕ) (d : ℕ) (target : Target)
      → length four ≡ 4
      → n + 4 < 2 ^ 64
      → d ≤ n
      → ((d' : ℕ) (target' : Target) → d' ≤ n → target' a ≡ b → (more d' target').0 a ≡ b)
      → target a ≡ b
      → (add_four n four more d target).0 a ≡ b
  add_four-Keeps four more d target count word h k e = elim (Bool-cases (ltb n (add d 4))) [
    | inl full ↦ rw full e
    | inr room ↦
        let inside : d + 4 ≤ n = ground arith in
        rw room (
          k (add d 4) (put_chars d four target) (omega arith)
            (put_chars-Keeps d four target (omega (arith, count, inside)) (omega arith) e))
  ]

  ntop_loop-Keeps :
      (src : List ℕ) (d : ℕ) (target : Target)
      → n + 4 < 2 ^ 64
      → d ≤ n
      → target a ≡ b
      → (ntop_loop n src d target).0 a ≡ b
  unfolding ntop_loop
  ntop_loop-Keeps [] d target word h e = finish-Keeps d target e
  ntop_loop-Keeps (x ∷ []) d target word h e =
      add_four-Keeps (first x ∷ second x 0 ∷ pad64 ∷ pad64 ∷ []) (finish n) d target refl word h
        (λ d' target' _. finish-Keeps d' target') e
  ntop_loop-Keeps (x ∷ y ∷ []) d target word h e =
      add_four-Keeps (first x ∷ second x y ∷ third y 0 ∷ pad64 ∷ []) (finish n) d target refl word h
        (λ d' target' _. finish-Keeps d' target') e
  ntop_loop-Keeps (x ∷ y ∷ z ∷ src) d target word h e =
      add_four-Keeps (first x ∷ second x y ∷ third y z ∷ sextet (z % 64) ∷ []) (ntop_loop n src) d
        target refl word h (λ d' target' h'. ntop_loop-Keeps src d' target' word h') e

  -- In the states one and two the byte at `tarindex` is in the target.
  abbrev Within : Decoder → Type 0
  Within (failed target) = target a ≡ b
  Within (running Phase.zeroth i target) = target a ≡ b
  Within (running Phase.one i target) = (i < n) × (target a ≡ b)
  Within (running Phase.two i target) = (i < n) × (target a ≡ b)
  Within (running Phase.three i target) = target a ≡ b

  or_char-Keeps : (i c : ℕ) (target : Target) → i < n → target a ≡ b → or_char i c target a ≡ b
  or_char-Keeps i c target h e = set_char-Keeps i (bit_or (target i) c) target h e

  put-Within : (pos : ℕ) (d : Decoder) → Within d → Within (put n pos d)
  unfolding put
  put-Within pos (failed target) w = w
  put-Within pos (running Phase.zeroth i target) w = elim (Bool-cases (leb n i)) [
    | inl full ↦ rw full w
    | inr room ↦ let h : i < n = ground arith in rw room (h, set_char-Keeps i (pos * 4) target h w)
  ]
  put-Within pos (running Phase.one i target) (h, e) = elim (Bool-cases (leb n (next i))) [
    | inl full ↦ rw full e
    | inr room ↦
        let k : next i < n = ground arith in
        rw room (
          k,
          set_char-Keeps (next i) (pos % 16 * 16) (or_char i (pos / 16) target) k
              (or_char-Keeps i (pos / 16) target h e),
        )
  ]
  put-Within pos (running Phase.two i target) (h, e) = elim (Bool-cases (leb n (next i))) [
    | inl full ↦ rw full e
    | inr room ↦
        let k : next i < n = ground arith in
        rw room (
          set_char-Keeps (next i) (pos % 4 * 64) (or_char i (pos / 4) target) k
            (or_char-Keeps i (pos / 4) target h e))
  ]
  put-Within pos (running Phase.three i target) w = elim (Bool-cases (leb n i)) [
    | inl full ↦ rw full w
    | inr room ↦ rw room (or_char-Keeps i pos target (ground arith) w)
  ]

  stop-Within : (d : Decoder) → Within d → Within (stop d)
  stop-Within (failed target) w = w
  stop-Within (running Phase.zeroth i target) w = w
  stop-Within (running Phase.one i target) w = w.1
  stop-Within (running Phase.two i target) w = w.1
  stop-Within (running Phase.three i target) w = w

  found-Within : (o : Option ℕ) (d : Decoder) → Within d → Within (put_found n o d)
  found-Within none d w = stop-Within d w
  found-Within (some pos) d w = put-Within pos d w

  take_char-Within : (ch : ℕ) (d : Decoder) → Within d → Within (take_char n ch d)
  unfolding take_char
  take_char-Within ch d w = elim (Bool-cases (is_space ch)) [
    | inl space ↦ rw space w
    | inr other ↦ rw other (found-Within (index_of ch base64) d w)
  ]

  after_pad-Keeps : (src : Text) (d : Decoder) → Within d → (after_pad src d).0 a ≡ b
  unfolding after_pad
  after_pad-Keeps src (failed target) w = w
  after_pad-Keeps src (running Phase.zeroth i target) w = w
  after_pad-Keeps src (running Phase.one i target) w = w.1
  after_pad-Keeps src (running Phase.two i target) w = w.1
  after_pad-Keeps src (running Phase.three i target) w = w

  at_end-Keeps : (d : Decoder) → Within d → (at_end d).0 a ≡ b
  unfolding at_end
  at_end-Keeps (failed target) w = w
  at_end-Keeps (running Phase.zeroth i target) w = w
  at_end-Keeps (running Phase.one i target) w = w.1
  at_end-Keeps (running Phase.two i target) w = w.1
  at_end-Keeps (running Phase.three i target) w = w

  pton_loop-Keeps : (src : Text) (d : Decoder) → Within d → (pton_loop n src d).0 a ≡ b
  unfolding pton_loop
  pton_loop-Keeps [] d w = at_end-Keeps d w
  pton_loop-Keeps (ch ∷ src) d w = elim (Bool-cases (ch == pad64)) [
    | inl pad ↦ rw pad (after_pad-Keeps src d w)
    | inr other ↦ rw other (pton_loop-Keeps src (take_char n ch d) (take_char-Within ch d w))
  ]

-- Whatever bytes it is given and however it ends, `f_b64_ntop` stores nothing behind the first
-- `targsize` bytes of its target, if `targsize + 4` does not wrap around.
pub f_b64_ntop_keeps :
    (src : List ℕ) (targsize : ℕ) (target : Target) (a : ℕ)
    → targsize + 4 < 2 ^ 64
    → targsize ≤ a
    → (f_b64_ntop src targsize target).0 a ≡ target a
unfolding f_b64_ntop
f_b64_ntop_keeps src targsize target a word h =
    ntop_loop-Keeps targsize a (target a) h src 0 target word (omega arith) refl

-- Whatever characters it is given and however it ends, `f_b64_pton` stores nothing behind the first
-- `targsize` bytes of its target, also where `tarindex` wraps around.
pub f_b64_pton_keeps :
    (src : Text) (targsize : ℕ) (target : Target) (a : ℕ)
    → targsize ≤ a
    → (f_b64_pton src targsize target).0 a ≡ target a
unfolding f_b64_pton
f_b64_pton_keeps src targsize target a h =
    pton_loop-Keeps targsize a (target a) h src (running Phase.zeroth 0 target) refl
