-- ===== src/Nanopb/Varint.antt =====
-- FirebaseLogin/Pods/nanopb/pb_decode.c and pb_encode.c: variable-length integers.
pub mod Encoding
pub mod RoundTrip
pub mod Narrow
pub mod Safety
pub mod Eats
use firebase_login.Base.{
  ℕ, zero, suc, ◌+◌, ◌-◌, ◌*◌, ◌/◌, ◌%◌, ◌^◌, ◌≡◌, List, [], ◌∷◌, Option, none, some, leb, ltb,
  ◌==◌, if◌then◌else◌, Bool, true, false, ◌&&◌, ◌||◌, not, bit_or,
}
use firebase_login.Nanopb.Istream.{
  IStream, Outcome, done, fail, fault, stuck, continue, return_error, set_error, varint_overflow,
  pb_read, pb_readbyte,
}
use firebase_login.Nanopb.Ostream
use firebase_login.Nanopb.Ostream.{OStream, Emit, overrun, pb_write}

-- `byte & 0x80`
abbrev pub has_more : ℕ → Bool
has_more byte = byte / 128 % 2 == 1

-- `result |= (uint64_t)(byte & 0x7F) << bitpos`, and the same at 32 bits.
abbrev pub or_group : ℕ → ℕ → ℕ → ℕ → ℕ
or_group width result byte bitpos = bit_or result (byte % 128 * 2 ^ bitpos % 2 ^ width)

-- The loop of `pb_decode_varint`. The test of `bitpos` ends it in the eleventh round at the latest.
pub varint_loop : ℕ → ℕ → ℕ → IStream → Outcome ℕ
varint_loop zero bitpos result s = stuck
varint_loop (suc rounds) bitpos result s =
    if leb 64 bitpos
    then return_error varint_overflow s
    else continue
        (λ byte s'.
          let result' = or_group 64 result byte bitpos in
          let more = varint_loop rounds (bitpos + 7) result' s' in
          if has_more byte then more else done result' s')
        (pb_readbyte s)

unfoldable pub pb_decode_varint : IStream → Outcome ℕ
unfolding varint_loop
pb_decode_varint = varint_loop 11 0 0

-- The test of a byte that lies past bit 31: only padding of a non-negative number, or the sign
-- bits of a negative one, may stand there.
abbrev pub is_overflow : ℕ → ℕ → ℕ → Bool
is_overflow result byte bitpos =
    let sign_extension : ℕ = if ltb bitpos 63 then 0xFF else 0x01 in
    not (byte % 128 == 0) && (result / 2 ^ 31 == 0 || not (byte == sign_extension))

-- The loop of `pb_decode_varint32_eof`. `bitpos` is a `uint_fast8_t`, eight bits wide on the
-- app's platform. Nothing but the stream bounds the loop, so its rounds are the bytes left.
varint32_loop : ℕ → ℕ → ℕ → IStream → Outcome ℕ
varint32_loop zero bitpos result s = stuck
varint32_loop (suc rounds) bitpos result s =
    continue
      (λ byte s'.
        if leb 32 bitpos && is_overflow result byte bitpos
        then return_error varint_overflow s'
        else (let result' = if leb 32 bitpos then result else or_group 32 result byte bitpos in
            let bitpos' = (bitpos + 7) % 256 in
            let more = varint32_loop rounds bitpos' result' s' in
            if has_more byte
            then more
            -- The last byte was at bit 28, so only its lowest four bits fit.
            else if bitpos' == 35 && not (byte / 16 % 8 == 0)
            then return_error varint_overflow s'
            else done result' s'))
      (pb_readbyte s)

-- What follows the first byte.
unfoldable pub varint32_rest : ℕ → IStream → Outcome ℕ
unfolding varint32_loop
varint32_rest byte s =
    if has_more byte then varint32_loop (suc s.bytes_left) 7 (byte % 128) s else done byte s

-- What follows the read of the first byte. Only a stream that is used up there sets `*eof`.
unfoldable pub after_first_byte : Bool → Outcome ℕ → Bool × Outcome ℕ
unfolding varint32_rest
after_first_byte eof (done byte s) = (eof, varint32_rest byte s)
after_first_byte eof (fail s) = (eof || s.bytes_left == 0, fail s)
after_first_byte eof fault = (eof, fault)
after_first_byte eof stuck = (eof, stuck)

-- `pb_decode_varint32_eof`: the value that `*eof` has afterwards, and the call's end.
unfoldable pub pb_decode_varint32_eof : Bool → IStream → Bool × Outcome ℕ
unfolding after_first_byte
pb_decode_varint32_eof eof s = after_first_byte eof (pb_readbyte s)

unfoldable pub pb_decode_varint32 : IStream → Outcome ℕ
unfolding pb_decode_varint32_eof
pb_decode_varint32 s = (pb_decode_varint32_eof false s).1

-- `byte & 0x80` of the one byte that `pb_read` has put into `byte`.
abbrev pub any_more : List ℕ → Bool
any_more [] = false
any_more (byte ∷ rest) = has_more byte

-- The loop of `pb_skip_varint`, bounded by the stream alone.
skip_loop : ℕ → IStream → Outcome (List ℕ)
skip_loop zero s = stuck
skip_loop (suc rounds) s =
    continue
      (λ bytes s'. let more = skip_loop rounds s' in if any_more bytes then more else done [] s')
      (pb_read 1 s)

unfoldable pub pb_skip_varint : IStream → Outcome (List ℕ)
unfolding skip_loop
pb_skip_varint s = skip_loop (suc s.bytes_left) s

-- The loop of `pb_encode_varint` that fills `buffer`, where `room` bytes are left: none is a
-- write past its end. The last byte loses its top bit.
fill_buffer : ℕ → ℕ → Option (List ℕ)
fill_buffer room zero = some []
fill_buffer zero (suc value) = none
fill_buffer (suc room) (suc value) =
    let low = bit_or (suc value % 128) 0x80 in
    elim (fill_buffer room (suc value / 128)) [ none ↦ none | some rest ↦ some (low ∷ rest) ]

abbrev clear_last : List ℕ → List ℕ
clear_last [] = []
clear_last (b ∷ []) = (b % 128) ∷ []
clear_last (b ∷ c ∷ r) = b ∷ clear_last (c ∷ r)

write_filled : Option (List ℕ) → Emit
write_filled none s = overrun
write_filled (some bytes) s = pb_write (clear_last bytes) s

unfoldable pub pb_encode_varint : ℕ → Emit
unfolding fill_buffer write_filled
pb_encode_varint value =
    if leb value 0x7F then pb_write (value ∷ []) else write_filled (fill_buffer 10 value)

-- `pb_encode_svarint`: an `int64_t` is its 64 bits.
unfoldable pub zigzag : ℕ → ℕ
zigzag value =
    let shifted : ℕ = value * 2 % 2 ^ 64 in
    if leb (2 ^ 63) value then 2 ^ 64 - 1 - shifted else shifted

unfoldable pub pb_encode_svarint : ℕ → Emit
unfolding zigzag
pb_encode_svarint value = pb_encode_varint (zigzag value)

unfoldable pub unzigzag : ℕ → ℕ
unzigzag value = if value % 2 == 1 then 2 ^ 64 - 1 - value / 2 else value / 2

unfoldable pub pb_decode_svarint : IStream → Outcome ℕ
unfolding unzigzag
pb_decode_svarint s = continue (λ value s'. done (unzigzag value) s') (pb_decode_varint s)
