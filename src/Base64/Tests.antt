-- ===== src/Base64/Tests.antt =====
-- Runs of base64 at concrete inputs.
use firebase_login.Base.{◌≡◌, ◌++◌, [], ◌∷◌, refl, arith, length}
use firebase_login.Base.Text.{Text, text}
use firebase_login.Base64.{
  Target, put_chars, set_char, f_b64_ntop, f_b64_pton, sextet, char_at, index_of, minus_one,
}
use firebase_login.Base64.RoundTrip.{f_b64_pton-ntop, read_chars}
use firebase_login.Base64.Bounds.{f_b64_ntop_keeps, f_b64_pton_keeps}

abbrev blank : Target
blank i = 1

run-f_b64_ntop :
    read_chars 10 0 (f_b64_ntop (text "Main") 9 blank).0 ≡ text "TWFpbg==" ++ (0 ∷ 1 ∷ [])
unfolding f_b64_ntop sextet char_at put_chars set_char
run-f_b64_ntop = refl

-- The terminator needs a ninth byte.
run-f_b64_ntop_short : (f_b64_ntop (text "Main") 8 blank).1 ≡ minus_one
unfolding f_b64_ntop
run-f_b64_ntop_short = refl

run-f_b64_pton :
    read_chars 6 0 (f_b64_pton (text " TWFp bg= =") 5 blank).0 ≡ text "Main" ++ (0 ∷ 1 ∷ [])
unfolding f_b64_pton index_of set_char
run-f_b64_pton = refl

f_b64_pton-ntop_example :
    (out : Text) × (f_b64_ntop (text "Main") 9 blank
      ≡ (put_chars 0 (out ++ (0 ∷ [])) blank, length out))
    × ((f_b64_pton out 5 blank).1 ≡ 4)
    × (read_chars 4 0 (f_b64_pton out 5 blank).0 ≡ text "Main")
f_b64_pton-ntop_example =
    f_b64_pton-ntop (text "Main") 9 5 blank blank
      (omega arith, (omega arith, (omega arith, (omega arith, tt)))) (omega arith) (omega arith)
      (omega arith)

-- Without room for the second group of characters.
f_b64_ntop_keeps_example : (f_b64_ntop (text "Main") 6 blank).0 6 ≡ blank 6
f_b64_ntop_keeps_example = f_b64_ntop_keeps (text "Main") 6 blank 6 (omega arith) (omega arith)

-- Without room for the fourth byte.
f_b64_pton_keeps_example : (f_b64_pton (text "TWFpbg==") 3 blank).0 3 ≡ blank 3
f_b64_pton_keeps_example = f_b64_pton_keeps (text "TWFpbg==") 3 blank 3 (omega arith)
