-- ===== src/Nanopb/Decode/Nested/Struct.antt =====
-- The decoding of a message into its struct.
use firebase_login.Base.{
  ℕ, zero, suc, ◌+◌, ◌*◌, ◌^◌, ◌<◌, ◌≡◌, ◌≢◌, refl, sym, subst, arith, List, length, Option, some,
}
use firebase_login.Nanopb.Istream.{IStream}
use firebase_login.Nanopb.Field.{Field, FieldIter, current, begin_at, pb_ltype}
use firebase_login.Nanopb.Field.Table.{
  OnTable, Each, at_current, Decodable, Decodable-tags, AllStatic, Deeper, next-OnTable,
}
use firebase_login.Nanopb.Memory.{Memory}
use firebase_login.Nanopb.Action.{Host}
use firebase_login.Nanopb.Action.Ends.{IsInput}
use firebase_login.Nanopb.Action.Same.{Avoids, Avoids-part, Same, Kept, Kept-later}
use firebase_login.Nanopb.Action.Within.{decoder-Same}
use firebase_login.Nanopb.Defaults.{pb_message_set_to_defaults, memset_zero}
use firebase_login.Nanopb.Defaults.Within.{
  front-Avoids, pb_message_set_to_defaults-Kept, zeroed-Same,
}
use firebase_login.Nanopb.Release.{pb_release_single_field, pb_release}
use firebase_login.Nanopb.Release.Within.{pb_release_single_field-Keeping, pb_release-Keeping}
use firebase_login.Nanopb.Decode.{item_at, defaults_at}
use firebase_login.Nanopb.Decode.Layout.{Walked, Layout}
use firebase_login.Nanopb.Decode.Static.Within.{moved_field, slot_of}
use firebase_login.Nanopb.Decode.Fields.Ends.{CallbacksEnd}
use firebase_login.Nanopb.Decode.Fields.Within.{Contained}
use firebase_login.Nanopb.Decode.Message.Struct.{decode_message-Same}
use firebase_login.Nanopb.Decode.Nested.{
  pb_dec_submessage, pb_decode_noinit, pb_decode, pb_decode_delimited,
}
use firebase_login.Nanopb.Decode.Nested.Ends.{whole, func_of, func_of-Ready, noinit-Ending}
use firebase_login.Nanopb.Decode.Nested.Within.{
  Writing, Nested, in_substream-Same, pb_dec_submessage-Same, initialized-Writing,
}

-- The local variables of all depths lie where `P` is not satisfied.
abbrev pub CountersAvoid : (ℕ → Type 0) → Host → ℕ → Type 0
CountersAvoid P host depth =
    (d : ℕ) → d < depth → Avoids P (host.fixed_count_size d) (host.fixed_count_size d + 4)

-- A walk stays on the table.
Walked-OnTable :
    (fs : List Field) (dest : ℕ)
    → Each (λ f. f.tag ≢ 0) fs
    → 0 < length fs
    → (it : FieldIter) → Walked (begin_at fs dest) it
    → OnTable fs it
Walked-OnTable fs dest tags h it Walked.begin = (refl, h)
Walked-OnTable fs dest tags h it (Walked.step w) =
    next-OnTable fs tags _ (Walked-OnTable fs dest tags h _ w)

same_ptr : (o : Option ℕ) (p q : ℕ) → o ≡ some p → o ≡ some q → p ≡ q
same_ptr o p q e f = cc

module _ (P : ℕ → Type 0) (host : Host) (callbacks : CallbacksEnd host) where
  -- What the messages nested less deep than `depth` may be decoded into.
  abbrev Inner : ℕ → Type 0
  Inner depth =
      (p : ℕ)
      → Decodable host.tables depth p
      → AllStatic host.tables depth p
      → (dest : ℕ) → Layout P host.tables depth p dest
      → Writing P (pb_decode_noinit host depth p dest)

  whole-Writing :
      (depth p dest : ℕ)
      → AllStatic host.tables depth p
      → Layout P host.tables depth p dest
      → Writing P (pb_decode_noinit host depth p dest)
      → Writing P (whole host callbacks depth p dest)
  whole-Writing depth p dest static layout w =
      initialized-Writing P (pb_message_set_to_defaults host depth p dest)
        (pb_release host depth p dest) (pb_decode_noinit host depth p dest)
        (λ m. pb_message_set_to_defaults-Kept P host depth p dest m layout)
        (pb_release-Keeping P host depth p static dest) w

  module _ (depth fields dest_struct : ℕ) (d : Decodable host.tables (suc depth) fields)
      (static : AllStatic host.tables (suc depth) fields)
      (layout : Layout P host.tables (suc depth) fields dest_struct) (inner : Inner depth) where
    start : FieldIter
    start = begin_at (host.tables fields) dest_struct

    on_table :
        (it : FieldIter)
        → Walked (begin_at (host.tables fields) dest_struct) it
        → OnTable (host.tables fields) it
    on_table =
        Walked-OnTable (host.tables fields) dest_struct
          (Decodable-tags host.tables (suc depth) fields d) d.0

    inner_at :
        (it : FieldIter)
        → Walked (begin_at (host.tables fields) dest_struct) it
        → pb_ltype (current it).type ≡ 8
        → (q dest : ℕ) → (current it).ptr ≡ some q
        → Layout P host.tables depth q dest
        → Nested P (whole host callbacks depth) (pb_decode_noinit host depth) (current it).ptr dest
    inner_at it w l q dest e lay =
        let fs = host.tables fields in
        let on = on_table it w in
        let (p, ep, dp) =
          at_current (Deeper (Decodable host.tables depth)) fs it (λ i h. (d.1 i h).1) on l in
        let (r, er, sr) =
          at_current (Deeper (AllStatic host.tables depth)) fs it (λ i h. (static i h).3) on l in
        let dq = subst (Decodable host.tables depth) (same_ptr (current it).ptr p q ep e) dp in
        let sq = subst (AllStatic host.tables depth) (same_ptr (current it).ptr r q er e) sr in
        let body = inner q dq sq dest lay in (q, e, whole-Writing depth q dest sq lay body, body)

    data_at :
        (it : FieldIter) (p : ℕ) (m : Memory) (s : IStream)
        → (w : Walked (begin_at (host.tables fields) dest_struct) it)
        → p + (current it).data_size < 2 ^ 64
        → Avoids P p (p + (current it).data_size)
        → (pb_ltype (current it).type ≡ 8
            → (q : ℕ) × ((current it).ptr ≡ some q) × Layout P host.tables depth q p)
        → IsInput s
        → Same P m (func_of host callbacks depth (current it) p m s).0
    data_at it p m s w no_wrap avoids nested i =
        decoder-Same P host (current it) p
          (moved_field (current it) it.p_data p (layout it w).inline no_wrap) avoids
          (pb_dec_submessage (whole host callbacks depth) (pb_decode_noinit host depth)) m s
          (λ l.
            let (q, e, lay) = nested l in
            pb_dec_submessage-Same P (whole host callbacks depth) (pb_decode_noinit host depth)
              (current it) p m s (inner_at it w l q p e lay) i)

    contained :
        Contained P
          (func_of host callbacks depth)
          (pb_message_set_to_defaults host depth)
          (pb_release_single_field host (suc depth))
          (begin_at (host.tables fields) dest_struct)
    contained = record {
      static = λ it w. (layout it w).static;
      sizes = λ it w. (layout it w).size;
      single = λ it w m s i.
          let at = layout it w in
          data_at it it.p_data m s w at.inline.no_wrap
            (front-Avoids P (Layout P host.tables depth) it at)
            (λ l. let (q, e, lay, _) = at.nested l in (q, e, lay)) i;
      entry = λ it w index m s h i.
          let at = layout it w in
          let n = (current it).data_size in
          let less : index < at.slots = omega (arith, h, at.enough) in
          let (place, inside) = slot_of n at.slots index it.p_data less at.product at.no_wrap in
          let p = item_at (current it) it.p_data index in
          data_at it p m s w (omega (arith, place, inside, at.no_wrap))
            (Avoids-part P it.p_data (it.p_data + n * at.slots) p (p + n) at.region
              (omega (arith, place)) (omega (arith, place, inside)))
            (λ l. let (q, e, _, lay) = at.nested l in (q, e, lay index h)) i;
      fresh = λ it w l m.
          let at = layout it w in
          let (q, e, lay, _) = at.nested l in
          let m' = memset_zero it.p_data (current it).data_size m in
          let defaults = pb_message_set_to_defaults host depth in
          subst (λ ptr. Kept P m (defaults_at defaults ptr it.p_data m')) (sym e)
            (Kept-later P m m' (defaults q it.p_data m')
              (zeroed-Same P (Layout P host.tables depth) it m at)
              (pb_message_set_to_defaults-Kept P host depth q it.p_data m' lay));
      released = λ it on.
          pb_release_single_field-Keeping P host (suc depth) fields static it
            (subst (OnTable (host.tables fields)) (sym on.same) (on_table on.base on.walked));
    }

  noinit-Writing : (depth : ℕ) → CountersAvoid P host depth → Inner depth
  unfolding pb_decode_noinit
  noinit-Writing zero counters fields d static dest layout = elim d [ ]
  noinit-Writing (suc depth) counters fields d static dest layout = λ m s i.
      let fs = host.tables fields in
      let inner = noinit-Writing depth (λ k h. counters k (omega arith)) in
      decode_message-Same P host callbacks (host.fixed_count_size depth)
        (counters depth (omega arith)) (func_of host callbacks depth)
        (pb_message_set_to_defaults host depth) (pb_release_single_field host (suc depth)) fs
        (func_of-Ready host callbacks depth fields d (noinit-Ending host callbacks depth))
        (begin_at fs dest) (on_table depth fields dest d static layout inner)
        (contained depth fields dest d static layout inner) fields dest m s refl i

  -- Let the tables have fields, tags that are not 0, known types, sizes that are not 0 and no
  -- extensions, let all fields lie in the struct, and let the tables nest less deep than the
  -- depth. Let each field lie, with the entries of its array, its flag (one byte), its counter or
  -- tag (four bytes) and the fields of its submessages, where `P` is not satisfied, and the four
  -- bytes of each `fixed_count_size` as well. An array of fixed size has no counter, but the four
  -- bytes from its start on, which its default writes even where the array is shorter, have to lie
  -- there too. And let the application's field callbacks end, and read something when they return
  -- true and there is something left. Then `pb_decode`, `pb_decode_noinit` and
  -- `pb_decode_delimited`, on every stream of bytes that lies in its buffer and however they end,
  -- change no byte where `P` is satisfied.
  pub pb_decode-Same :
      (depth fields dest_struct : ℕ) (m : Memory) (s : IStream)
      → Decodable host.tables depth fields
      → AllStatic host.tables depth fields
      → Layout P host.tables depth fields dest_struct
      → CountersAvoid P host depth
      → IsInput s
      → Same P m (pb_decode host depth fields dest_struct m s).0
        × Same P m (pb_decode_noinit host depth fields dest_struct m s).0
        × Same P m (pb_decode_delimited host depth fields dest_struct m s).0
  unfolding pb_decode pb_decode_delimited
  pb_decode-Same depth fields dest_struct m s d static layout counters i =
      let body = noinit-Writing depth counters fields d static dest_struct layout in
      let all = whole-Writing depth fields dest_struct static layout body in
      (
        all m s i,
        body m s i,
        in_substream-Same P (whole host callbacks depth fields dest_struct) all m s i,
      )
