-- ===== src/Base64/Encoded.antt =====
-- The characters that f_b64_ntop stores, and the four of a group at a time.
use firebase_login.Base.{
  ℕ, ◌^◌, ◌+◌, ◌*◌, ◌/◌, ◌%◌, ◌≤◌, ◌<◌, ◌≡◌, refl, sym, arith, List, [], ◌∷◌, ◌++◌, length, ap, ◌∙◌,
  le→ltb_false, lt→leb_false,
}
use firebase_login.Base.Text.{Text}
use firebase_login.Base64.{
  pad64, sextet, first, second, third, Target, set_char, put_chars, add, ntop_loop, add_four,
  finish,
}

-- The characters of some bytes, whatever the target's size.
abbrev pub chars : List ℕ → Text
chars [] = []
chars (a ∷ []) = first a ∷ second a 0 ∷ pad64 ∷ pad64 ∷ []
chars (a ∷ b ∷ []) = first a ∷ second a b ∷ third b 0 ∷ pad64 ∷ []
chars (a ∷ b ∷ c ∷ src) = first a ∷ second a b ∷ third b c ∷ sextet (c % 64) ∷ chars src

pub length-chars : (src : List ℕ) → length (chars src) ≡ 4 * ((length src + 2) / 3)
length-chars [] = refl
length-chars (a ∷ []) = refl
length-chars (a ∷ b ∷ []) = refl
length-chars (a ∷ b ∷ c ∷ src) = omega (arith, length-chars src)

-- The next four indices, one after the other and at once.
four_on : (d : ℕ) → d + 4 < 2 ^ 64 → add (add (add (add d 1) 1) 1) 1 ≡ add d 4
four_on d h = omega arith

-- With room, four characters are stored, and what follows goes on behind them.
add_four_room :
    (n : ℕ) (four : Text) (more : ℕ → Target → Target × ℕ) (d : ℕ) (target : Target)
    → d + 4 ≤ n
    → d + 4 < 2 ^ 64
    → add_four n four more d target ≡ more (d + 4) (put_chars d four target)
add_four_room n four more d target h word =
    let plain : (d + 4) % 2 ^ 64 ≡ d + 4 = omega arith in rw (plain, le→ltb_false n (d + 4) h) refl

finish_room :
    (n d : ℕ) (target : Target) → d < n → finish n d target ≡ (set_char d 0 target, d % 2 ^ 32)
finish_room n d target h = rw (lt→leb_false n d h) refl

-- The characters of a group and those behind it.
put_chars_four :
    (w x y z d : ℕ) (rest : Text) (target : Target)
    → d + 4 < 2 ^ 64
    → put_chars d (w ∷ x ∷ y ∷ z ∷ rest) target
      ≡ put_chars (d + 4) rest (put_chars d (w ∷ x ∷ y ∷ z ∷ []) target)
unfolding put_chars
put_chars_four w x y z d rest target h =
    let i : add (add (add (add d 1) 1) 1) 1 ≡ d + 4 = omega (arith, four_on d h) in
    ap (λ k. put_chars k rest (put_chars d (w ∷ x ∷ y ∷ z ∷ []) target)) i

-- The last group.
ended :
    (n w x y z d : ℕ) (target : Target)
    → d + 4 < n
    → d + 4 < 2 ^ 64
    → add_four n (w ∷ x ∷ y ∷ z ∷ []) (finish n) d target
      ≡ (put_chars d (w ∷ x ∷ y ∷ z ∷ 0 ∷ []) target, (d + 4) % 2 ^ 32)
unfolding put_chars
ended n w x y z d target h word =
    let four : Text = w ∷ x ∷ y ∷ z ∷ [] in
    add_four_room n four (finish n) d target (omega arith) word
    ∙ finish_room n (d + 4) (put_chars d four target) h
    ∙ ap (λ t. (t, (d + 4) % 2 ^ 32)) (sym (put_chars_four w x y z d (0 ∷ []) target word))

-- With room, the characters and the terminator are stored, and what is returned is where the
-- characters end.
pub ntop_loop-chars :
    (src : List ℕ) (n d : ℕ) (target : Target)
    → d + length (chars src) < n
    → d + length (chars src) < 2 ^ 64
    → ntop_loop n src d target
      ≡ (put_chars d (chars src ++ (0 ∷ [])) target, (d + length (chars src)) % 2 ^ 32)
unfolding ntop_loop put_chars
ntop_loop-chars [] n d target h word =
    let same : d ≡ d + 0 = omega arith in
    finish_room n d target (omega arith) ∙ ap (λ k. (set_char d 0 target, k % 2 ^ 32)) same
ntop_loop-chars (a ∷ []) n d target h word =
    ended n (first a) (second a 0) pad64 pad64 d target h word
ntop_loop-chars (a ∷ b ∷ []) n d target h word =
    ended n (first a) (second a b) (third b 0) pad64 d target h word
ntop_loop-chars (a ∷ b ∷ c ∷ src) n d target h word =
    let w = first a in
    let x = second a b in
    let y = third b c in
    let z = sextet (c % 64) in
    let rest = chars src ++ (0 ∷ []) in
    let four : Text = w ∷ x ∷ y ∷ z ∷ [] in
    let count : (d + 4 + length (chars src)) % 2 ^ 32
        ≡ (d + length (chars (a ∷ b ∷ c ∷ src))) % 2 ^ 32 =
      omega arith in
    add_four_room n four (ntop_loop n src) d target (omega arith) (omega arith)
    ∙ ntop_loop-chars src n (d + 4) (put_chars d four target) (omega arith) (omega arith)
    ∙ ap (λ t. (t, (d + 4 + length (chars src)) % 2 ^ 32))
        (sym (put_chars_four w x y z d rest target (omega arith)))
    ∙ ap (λ k. (put_chars d (w ∷ x ∷ y ∷ z ∷ rest) target, k)) count
