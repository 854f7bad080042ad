-- ===== src/Nanopb/Varint/Narrow.antt =====
-- `pb_decode_varint32`: what it makes of the numbers that the encoder writes, and of padding.
use firebase_login.Base.{
  ℕ, zero, suc, ◌+◌, ◌*◌, ◌/◌, ◌%◌, ◌^◌, ◌≤◌, ◌<◌, ◌≡◌, ap, arith, List, ◌∷◌, ◌++◌, length,
  if◌then◌else◌, ◌∙◌, Option, replicate, true, false,
}
use firebase_login.Base.Bits.{zero-bit_or}
use firebase_login.Nanopb.Istream.{done, ErrMsg}
use firebase_login.Nanopb.Istream.Reads.{stream, pb_readbyte-cons}
use firebase_login.Nanopb.Varint.{
  varint32_loop, after_first_byte, pb_decode_varint32, or_group, has_more,
}
use firebase_login.Nanopb.Varint.Encoding.{
  encoding, encoding_small, encoding_large, encoding_enough, encoding_nonempty,
}
use firebase_login.Nanopb.Varint.RoundTrip.{
  or_group_lem, one_zero, one_more, below_next, group_and_rest, shift_seven,
}
use native.Mathlib.Nat.{zero-add}
use native.Mathlib.Decide.{dec_lt}

-- The rounds of a last byte, and of a byte with the top bit set over the group `g`.
last_round :
    (rounds w acc s n : ℕ) (rest : List ℕ) (e : Option ErrMsg)
    → s ≤ 28
    → w < 128
    → (s ≡ 28 → w < 16)
    → or_group 32 acc w s ≡ acc + w * 2 ^ s
    → varint32_loop (suc rounds) s acc (stream (w ∷ rest) (suc n) e)
      ≡ done (acc + w * 2 ^ s) (stream rest n e)
unfolding varint32_loop
last_round rounds w acc s n rest e hs hw top or = ground (arith, pb_readbyte-cons w rest n e)

inner_round :
    (rounds g acc s n : ℕ) (rest : List ℕ) (e : Option ErrMsg)
    → s ≤ 28
    → g < 128
    → or_group 32 acc (g + 128) s ≡ acc + g * 2 ^ s
    → varint32_loop (suc rounds) s acc (stream ((g + 128) ∷ rest) (suc n) e)
      ≡ varint32_loop rounds (s + 7) (acc + g * 2 ^ s) (stream rest n e)
unfolding varint32_loop
inner_round rounds g acc s n rest e hs hw or =
    let small : (s + 7) % 256 ≡ s + 7 = omega arith in
    ground (arith, pb_readbyte-cons (g + 128) rest n e)

top_bits : (acc w s : ℕ) → acc + w * 2 ^ s < 2 ^ 32 → s ≡ 28 → w < 16
top_bits acc w s fits e = let at : acc + w * 2 ^ 28 < 2 ^ 32 = rw e at fits in omega arith

-- `w` is what is still to be read, and it counts from bit `s` on.
varint32_loop-encoding :
    (k rounds w acc s n : ℕ) (rest : List ℕ) (e : Option ErrMsg)
    → length (encoding k w) ≤ rounds
    → s + 7 * k ≤ 28
    → w < 128 ^ suc k
    → acc < 2 ^ s
    → acc + w * 2 ^ s < 2 ^ 32
    → varint32_loop rounds s acc (stream (encoding k w ++ rest) (length (encoding k w) + n) e)
      ≡ done (acc + w * 2 ^ s) (stream rest n e)
varint32_loop-encoding k zero w acc s n rest e hk hs hw ha fits =
    absurd (omega (arith, encoding_nonempty k w))
varint32_loop-encoding zero (suc rounds) w acc s n rest e hk hs hw ha fits =
    rw (encoding_small zero w hw, one_zero n)
      (last_round rounds w acc s n rest e (omega arith) hw (top_bits acc w s fits)
        (or_group_lem 32 acc w w s (omega arith) ha fits))
varint32_loop-encoding (suc k) (suc rounds) w acc s n rest e hk hs hw ha fits =
    elim (dec_lt w 128) [
      | yes small ↦
          rw (encoding_small (suc k) w small, one_zero n)
            (last_round rounds w acc s n rest e (omega arith) small (top_bits acc w s fits)
              (or_group_lem 32 acc w w s (omega arith) ha fits))
      | no large ↦
          let count : ℕ = length (encoding k (w / 128)) in
          let split = group_and_rest w s in
          let low : acc + w % 128 * 2 ^ s < 2 ^ 32 = omega arith in
          let below : acc + w % 128 * 2 ^ s < 2 ^ (s + 7) =
            rw (shift_seven s) (below_next (2 ^ s) acc (w % 128) ha (omega arith)) in
          rw (encoding_large k w (omega arith), one_more count n)
            (inner_round rounds (w % 128) acc s (count + n) (encoding k (w / 128) ++ rest) e
                (omega arith) (omega arith)
                (or_group_lem 32 acc (w % 128 + 128) (w % 128) s (omega arith) ha low)
              ∙ varint32_loop-encoding k rounds (w / 128) (acc + w % 128 * 2 ^ s) (s + 7) n rest e
                  (omega (arith, ap length (encoding_large k w (omega arith)))) (omega arith)
                  (omega arith) below (omega arith)
              ∙ ap (λ x. done x (stream rest n e)) (omega (arith, split)))
    ]

first_byte :
    (b n : ℕ) (rest : List ℕ) (e : Option ErrMsg)
    → pb_decode_varint32 (stream (b ∷ rest) (suc n) e) ≡ (
        if has_more b
        then varint32_loop (suc n) 7 (b % 128) (stream rest n e)
        else done b (stream rest n e))
unfolding pb_decode_varint32
first_byte b n rest e = ap (λ o. (after_first_byte false o).1) (pb_readbyte-cons b rest n e)

rest-encoding :
    (v n : ℕ) (rest : List ℕ) (e : Option ErrMsg)
    → v < 2 ^ 32
    → pb_decode_varint32 (stream (encoding 4 v ++ rest) (length (encoding 4 v) + n) e)
      ≡ done v (stream rest n e)
rest-encoding v n rest e h = elim (dec_lt v 128) [
  | yes small ↦ rw (encoding_small 4 v small, one_zero n, first_byte v n rest e) (ground arith)
  | no large ↦
      let count : ℕ = length (encoding 3 (v / 128)) in
      let more : has_more (v % 128 + 128) ≡ true = ground arith in
      let low : (v % 128 + 128) % 128 ≡ v % 128 = omega arith in
      rw
        (
          encoding_large 3 v (omega arith),
          one_more count n,
          first_byte (v % 128 + 128) (count + n) (encoding 3 (v / 128) ++ rest) e,
          more,
          low,
        )
        (varint32_loop-encoding 3 (suc (count + n)) (v / 128) (v % 128) 7 n rest e (omega arith)
            (omega arith) (omega arith) (omega arith) (omega arith)
          ∙ ap (λ x. done x (stream rest n e)) (omega arith))
]

-- `pb_decode_varint32` reads the encoding of every 32-bit number back, and leaves the stream behind
-- it.
pub pb_decode_varint32-encoding :
    (v n : ℕ) (rest : List ℕ) (e : Option ErrMsg)
    → v < 2 ^ 32
    → pb_decode_varint32 (stream (encoding 9 v ++ rest) (length (encoding 9 v) + n) e)
      ≡ done v (stream rest n e)
pb_decode_varint32-encoding v n rest e h =
    rw (encoding_enough 4 9 v (omega arith) (omega arith)) (rest-encoding v n rest e h)

zero_group : (s : ℕ) → 0x80 % 128 * 2 ^ s % 2 ^ 32 ≡ 0
zero_group s = omega arith

-- A byte 0x80 behind no bits leaves none, wherever it stands, and moves the place on by 7 mod 256.
pad_round :
    (rounds s n : ℕ) (rest : List ℕ) (e : Option ErrMsg)
    → varint32_loop (suc rounds) s 0 (stream (0x80 ∷ rest) (suc n) e)
      ≡ varint32_loop rounds ((s + 7) % 256) 0 (stream rest n e)
unfolding varint32_loop
pad_round rounds s n rest e =
    let none_set : or_group 32 0 0x80 s ≡ 0 = zero-bit_or _ ∙ zero_group s in
    ground (arith, pb_readbyte-cons 0x80 rest n e)

pad_rounds :
    (j rounds s n : ℕ) (rest : List ℕ) (e : Option ErrMsg)
    → s < 256
    → varint32_loop (j + rounds) s 0 (stream (replicate j 0x80 ++ rest) (j + n) e)
      ≡ varint32_loop rounds ((s + 7 * j) % 256) 0 (stream rest n e)
pad_rounds zero rounds s n rest e h =
    let place : (s + 7 * 0) % 256 ≡ s = omega arith in rw (zero-add rounds, zero-add n, place)
pad_rounds (suc j) rounds s n rest e h =
    let place : ((s + 7) % 256 + 7 * j) % 256 ≡ (s + 7 * suc j) % 256 = omega arith in
    rw (one_more j rounds, one_more j n)
      (pad_round (j + rounds) s (j + n) (replicate j 0x80 ++ rest) e
        ∙ pad_rounds j rounds ((s + 7) % 256) n rest e (omega arith)
        ∙ ap (λ x. varint32_loop rounds x 0 (stream rest n e)) place)

-- The place of the bits wraps around: 37 bytes of padding and the byte `g` are read as `8 * g`
-- (the number that they encode is `g * 2 ^ 259`), where `varint overflow` is meant.
pub pb_decode_varint32_wraps :
    (g n : ℕ) (rest : List ℕ) (e : Option ErrMsg)
    → g < 128
    → pb_decode_varint32 (stream (replicate 37 0x80 ++ (g ∷ rest)) (38 + n) e)
      ≡ done (8 * g) (stream rest n e)
pb_decode_varint32_wraps g n rest e h =
    let tail : List ℕ = g ∷ rest in
    let all : 38 + n ≡ suc (36 + suc n) = omega arith in
    let rounds : suc (36 + suc n) ≡ 36 + suc (suc n) = omega arith in
    rw all (
      first_byte 0x80 (36 + suc n) (replicate 36 0x80 ++ tail) e
      ∙ ap (λ x. varint32_loop x 7 0 (stream (replicate 36 0x80 ++ tail) (36 + suc n) e)) rounds
      ∙ pad_rounds 36 (suc (suc n)) 7 (suc n) tail e (omega arith)
      ∙ last_round (suc n) g 0 3 n rest e (omega arith) h (λ q. absurd (omega arith))
          (or_group_lem 32 0 g g 3 (omega arith) (omega arith) (omega arith))
      ∙ ap (λ x. done x (stream rest n e)) (omega arith))
