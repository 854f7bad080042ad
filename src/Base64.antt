-- ===== src/Base64.antt =====
-- FirebaseLogin/Pods/FirebaseDatabase/FirebaseDatabase/Sources/third_party/SocketRocket/fbase64.c:
-- base64, as the database's web socket uses it.
--
-- A C string is the list of its characters, without the terminator. A call takes its target, bytes
-- at indices, and gives it back with what it has stored there, however it ends; the other result is
-- the `int` that it returns, as its 32 bits.
pub mod Quad
pub mod Encoded
pub mod RoundTrip
pub mod Bounds
mod Tests
use firebase_login.Base.{
  ℕ, zero, suc, ◌+◌, ◌*◌, ◌/◌, ◌%◌, ◌^◌, List, [], ◌∷◌, ◌++◌, Option, none, some, leb, ltb, ◌==◌,
  if◌then◌else◌, Bool, true, false, ◌||◌, ◌&&◌, not, length, bit_or,
}
use firebase_login.Base.Text.{Text, text}

abbrev pub base64 : Text
base64 = text "ABCDEFGHIJKLMNOPQRSTUVWXYZabcdefghijklmnopqrstuvwxyz0123456789+/"

abbrev pub pad64 : ℕ
pad64 = 61

-- `Base64[i]`
unfoldable pub char_at : Text → ℕ → ℕ
char_at [] i = 0
char_at (c ∷ cs) zero = c
char_at (c ∷ cs) (suc i) = char_at cs i

-- `strchr(Base64, ch) - Base64`
unfoldable pub index_of : ℕ → Text → Option ℕ
index_of ch [] = none
index_of ch (c ∷ cs) =
    let rest = index_of ch cs in
    if c == ch then some 0 else elim rest [ none ↦ none | some i ↦ some (suc i) ]

-- `isspace`, in the C locale.
abbrev pub is_space : ℕ → Bool
is_space ch = ch == 32 || (leb 9 ch && leb ch 13)

abbrev pub Target : Type 0
Target = ℕ → ℕ

-- `target[i] = b`
unfoldable pub set_char : ℕ → ℕ → Target → Target
set_char i b target a = if a == i then b else target a

-- `return (-1)`
abbrev pub minus_one : ℕ
minus_one = 0xFFFF_FFFF

-- The sum of two numbers of type `size_t`.
abbrev pub add : ℕ → ℕ → ℕ
add a b = (a + b) % 2 ^ 64

-- `target[datalength++] = …`, for one character after the other.
unfoldable pub put_chars : ℕ → Text → Target → Target
unfolding set_char
put_chars i [] target = target
put_chars i (c ∷ cs) target = put_chars (add i 1) cs (set_char i c target)

-- The character of an entry of `output`.
unfoldable pub sextet : ℕ → ℕ
unfolding char_at
sextet v = char_at base64 v

abbrev pub first : ℕ → ℕ
first a = sextet (a / 4)

abbrev pub second : ℕ → ℕ → ℕ
second a b = sextet (a % 4 * 16 + b / 16)

abbrev pub third : ℕ → ℕ → ℕ
third b c = sextet (b % 16 * 4 + c / 64)

-- Four characters are added at `datalength`, if there is room for them.
abbrev pub add_four : ℕ → Text → (ℕ → Target → Target × ℕ) → ℕ → Target → Target × ℕ
add_four targsize four more datalength target =
    if ltb targsize (add datalength 4)
    then (target, minus_one)
    else more (add datalength 4) (put_chars datalength four target)

-- The terminator needs a byte as well. `(int)(datalength)` has the lowest 32 bits.
abbrev pub finish : ℕ → ℕ → Target → Target × ℕ
finish targsize datalength target =
    if leb targsize datalength
    then (target, minus_one)
    else (set_char datalength 0 target, datalength % 2 ^ 32)

unfoldable pub ntop_loop : ℕ → List ℕ → ℕ → Target → Target × ℕ
unfolding put_chars
ntop_loop targsize [] = finish targsize
ntop_loop targsize (a ∷ []) =
    add_four targsize (first a ∷ second a 0 ∷ pad64 ∷ pad64 ∷ []) (finish targsize)
ntop_loop targsize (a ∷ b ∷ []) =
    add_four targsize (first a ∷ second a b ∷ third b 0 ∷ pad64 ∷ []) (finish targsize)
ntop_loop targsize (a ∷ b ∷ c ∷ src) =
    add_four targsize (first a ∷ second a b ∷ third b c ∷ sextet (c % 64) ∷ [])
      (ntop_loop targsize src)

unfoldable pub f_b64_ntop : List ℕ → ℕ → Target → Target × ℕ
unfolding ntop_loop
f_b64_ntop src targsize = ntop_loop targsize src 0

-- The four values of `state`.
pub data Phase : Type 0 where
  zeroth : Phase
  one : Phase
  two : Phase
  three : Phase

-- The state, `tarindex` and the target; or the target after `return (-1)`.
pub data Decoder : Type 0 where
  running : Phase → ℕ → Target → Decoder
  failed : Target → Decoder

-- `tarindex + 1`, a sum of 32-bit numbers.
abbrev pub next : ℕ → ℕ
next tarindex = (tarindex + 1) % 2 ^ 32

-- `target[i] |= b`
abbrev pub or_char : ℕ → ℕ → Target → Target
or_char i b target = set_char i (bit_or (target i) b) target

-- The switch on `state`, for the character at `pos` of the alphabet.
unfoldable pub put : ℕ → ℕ → Decoder → Decoder
unfolding set_char
put targsize pos (failed target) = failed target
put targsize pos (running zeroth tarindex target) =
    if leb targsize tarindex
    then failed target
    else running one tarindex (set_char tarindex (pos * 4) target)
put targsize pos (running one tarindex target) =
    if leb targsize (next tarindex)
    then failed target
    else running two (next tarindex)
        (set_char (next tarindex) (pos % 16 * 16) (or_char tarindex (pos / 16) target))
put targsize pos (running two tarindex target) =
    if leb targsize (next tarindex)
    then failed target
    else running three (next tarindex)
        (set_char (next tarindex) (pos % 4 * 64) (or_char tarindex (pos / 4) target))
put targsize pos (running three tarindex target) =
    if leb targsize tarindex
    then failed target
    else running zeroth (next tarindex) (or_char tarindex pos target)

-- A character outside of the alphabet ends the call.
abbrev pub stop : Decoder → Decoder
stop (failed target) = failed target
stop (running phase tarindex target) = failed target

abbrev pub put_found : ℕ → Option ℕ → Decoder → Decoder
put_found targsize none d = stop d
put_found targsize (some pos) d = put targsize pos d

-- One character that is no padding.
unfoldable pub take_char : ℕ → ℕ → Decoder → Decoder
unfolding put index_of
take_char targsize ch d = if is_space ch then d else put_found targsize (index_of ch base64) d

-- Whether only spaces follow.
abbrev pub only_spaces : Text → Bool
only_spaces [] = true
only_spaces (ch ∷ src) = let rest = only_spaces src in if is_space ch then rest else false

-- What is returned, if the bits behind the last byte are zero.
abbrev pub whole_bytes : ℕ → Target → ℕ
whole_bytes tarindex target = if target tarindex == 0 then tarindex else minus_one

abbrev pub last_pad : Text → ℕ → Target → ℕ
last_pad src tarindex target = if only_spaces src then whole_bytes tarindex target else minus_one

abbrev pub second_pad : Text → ℕ → Target → ℕ
second_pad [] tarindex target = minus_one
second_pad (ch ∷ src) tarindex target =
    let rest = second_pad src tarindex target in
    if is_space ch then rest else if ch == pad64 then last_pad src tarindex target else minus_one

-- What follows the first padding character.
unfoldable pub after_pad : Text → Decoder → Target × ℕ
after_pad src (failed target) = (target, minus_one)
after_pad src (running zeroth tarindex target) = (target, minus_one)
after_pad src (running one tarindex target) = (target, minus_one)
after_pad src (running two tarindex target) = (target, second_pad src tarindex target)
after_pad src (running three tarindex target) = (target, last_pad src tarindex target)

-- The end of the string without padding.
unfoldable pub at_end : Decoder → Target × ℕ
at_end (failed target) = (target, minus_one)
at_end (running zeroth tarindex target) = (target, tarindex)
at_end (running _ tarindex target) = (target, minus_one)

unfoldable pub pton_loop : ℕ → Text → Decoder → Target × ℕ
unfolding take_char after_pad at_end
pton_loop targsize [] d = at_end d
pton_loop targsize (ch ∷ src) d =
    let more = pton_loop targsize src (take_char targsize ch d) in
    if ch == pad64 then after_pad src d else more

unfoldable pub f_b64_pton : Text → ℕ → Target → Target × ℕ
unfolding pton_loop
f_b64_pton src targsize target = pton_loop targsize src (running zeroth 0 target)
