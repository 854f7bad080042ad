-- ===== src/Nanopb/Wire/Frame.antt =====
-- A delimited read leaves the stream right behind its string, whatever its body has read of it.
use firebase_login.Base.{
  ℕ, zero, suc, ◌+◌, ◌^◌, ◌<◌, ◌≡◌, refl, ap, arith, List, [], ◌++◌, length, drop, ◌∙◌, sym,
  drop-append_add, drop-length_append, length-append, Option,
}
use firebase_login.Nanopb.Istream.{IStream, Outcome, done, fail, continue, ErrMsg}
use firebase_login.Nanopb.Istream.Reads.{IsValid, Reads, Reads-IsValid, stream, pb_read_enough}
use firebase_login.Nanopb.Varint.Encoding.{encoding}
use firebase_login.Nanopb.Varint.Narrow.{pb_decode_varint32-encoding}
use firebase_login.Nanopb.Wire.{
  pb_make_string_substream, pb_close_string_substream, close_after, delimited, adopt,
}

-- The rest of the substream is skipped.
pub close_skips :
    (t s : IStream)
    → IsValid t
    → pb_close_string_substream t s
      ≡ done [] (adopt (record t { state = drop t.bytes_left t.state }) s)
close_skips t s v = go t.bytes_left refl
  where
    go :
        (k : ℕ)
        → t.bytes_left ≡ k
        → pb_close_string_substream t s
          ≡ done [] (adopt (record t { state = drop t.bytes_left t.state }) s)
    go zero e = unfold pb_close_string_substream in ground arith
    go (suc k) e = unfold pb_close_string_substream in ground (arith, pb_read_enough t.bytes_left t)

after_content :
    (content rest taken x : List ℕ) (k : ℕ)
    → content ++ rest ≡ taken ++ x
    → length content ≡ length taken + k
    → drop k x ≡ rest
after_content content rest taken x k e n =
    sym (drop-append_add taken x k)
    ∙ sym (ap (drop (length taken + k)) e)
    ∙ ap (λ m. drop m (content ++ rest)) (sym n)
    ∙ drop-length_append content rest

make_substream :
    (content rest : List ℕ) (n : ℕ) (e : Option ErrMsg)
    → length content < 2 ^ 32
    → pb_make_string_substream (
        stream
          (encoding 9 (length content) ++ (content ++ rest))
          (length (encoding 9 (length content)) + (length content + n))
          e)
      ≡ done (stream (content ++ rest) (length content) e) (stream (content ++ rest) n e)
unfolding pb_make_string_substream
make_substream content rest n e h =
    rw (pb_decode_varint32-encoding (length content) (length content + n) (content ++ rest) e h)
      (ground arith)

module _ {ℓ} {A : Type ℓ} (body : IStream → Outcome A) (content rest : List ℕ) (n : ℕ)
    (e : Option ErrMsg) (short : length content < 2 ^ 32) where
  -- The stream in front of the string's length, and the substream.
  abbrev pub whole : IStream
  whole =
      stream (encoding 9 (length content) ++ (content ++ rest))
        (length (encoding 9 (length content)) + (length content + n)) e

  abbrev pub inside : IStream
  inside = stream (content ++ rest) (length content) e

  frame_done :
      (o : Outcome A) (a : A) (t : IStream)
      → o ≡ done a t
      → Reads inside t
      → close_after (stream (content ++ rest) n e) o ≡ done a (stream rest n t.errmsg)
  unfolding close_after
  frame_done o a t h r =
      let outer : IStream = stream (content ++ rest) n e in
      let vt : IsValid t = Reads-IsValid r (omega (arith, length-append content rest)) in
      ap (close_after outer) h
      ∙ ap (continue (λ _. done a)) (close_skips t outer vt)
      ∙ ap (λ m. done a (stream m n t.errmsg))
          (after_content content rest r.taken t.state t.bytes_left r.front r.count)

  -- A delimited message shorter than 4 GiB whose decoder succeeds inside of it gives the decoder's
  -- result, and the stream goes on behind the message, whatever the decoder left unread.
  pub delimited_done :
      (a : A) (t : IStream)
      → body inside ≡ done a t
      → Reads inside t
      → delimited body whole ≡ done a (stream rest n t.errmsg)
  unfolding delimited
  delimited_done a t h r =
      rw (make_substream content rest n e short) (frame_done (body inside) a t h r)

  frame_fail :
      (o : Outcome A) (t : IStream)
      → o ≡ fail t
      → Reads inside t
      → close_after (stream (content ++ rest) n e) o ≡ fail (stream rest n t.errmsg)
  unfolding close_after
  frame_fail o t h r =
      let outer : IStream = stream (content ++ rest) n e in
      let vt : IsValid t = Reads-IsValid r (omega (arith, length-append content rest)) in
      ap (close_after outer) h
      ∙ ap (continue (λ _. fail)) (close_skips t outer vt)
      ∙ ap (λ m. fail (stream m n t.errmsg))
          (after_content content rest r.taken t.state t.bytes_left r.front r.count)

  -- Where the decoder of a delimited message shorter than 4 GiB fails and has read only forward and
  -- inside of the message, with its count of the bytes that are left moved by just what it has read,
  -- the call fails, and the stream stands behind the message all the same. A failure that leaves a
  -- nested substream unclosed, as a packed array's overflow does, does not meet the condition.
  pub delimited_fail :
      (t : IStream)
      → body inside ≡ fail t
      → Reads inside t
      → delimited body whole ≡ fail (stream rest n t.errmsg)
  unfolding delimited
  delimited_fail t h r = rw (make_substream content rest n e short) (frame_fail (body inside) t h r)
