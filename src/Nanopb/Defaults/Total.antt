-- ===== src/Nanopb/Defaults/Total.antt =====
-- A message gets its default values: the rounds and the depth are enough.
use firebase_login.Base.{
  ℕ, zero, suc, ◌+◌, ◌<◌, ◌≡◌, ◌≢◌, refl, subst, arith, List, length, Option, none, some, not, ◌==◌,
  ◌&&◌, ◌||◌, if◌then◌else◌,
}
use firebase_login.Nanopb.Field.{
  Field, FieldIter, field_at, current, begin_at, pb_ltype, pb_htype, pb_atype, ltype_submessage,
  ltype_extension, htype_repeated, htype_oneof, atype_static, atype_pointer, pb_field_iter_next,
  pb_field_iter_begin,
}
use firebase_login.Nanopb.Field.Table.{OnTable, Each, at_current, Deeper, Decodable}
use firebase_login.Nanopb.Presence.{htype_optional}
use firebase_login.Nanopb.Message.Uniform.{next_round, nonempty}
use firebase_login.Nanopb.Memory.{Memory, read_bytes, store, write_bytes}
use firebase_login.Nanopb.Action.{Host, Change}
use firebase_login.Nanopb.Action.Ends.{IsMade, Total, if-Total, if-IsMade}
use firebase_login.Nanopb.Defaults.{
  ◌then_change◌, unchanged, memset_zero, each_field, message_to_defaults, init_data,
  field_to_default, pb_field_set_to_default, pb_message_set_to_defaults,
}

then-IsMade :
    (o : Option Memory) (c : Change)
    → IsMade o
    → Total c
    → IsMade (elim o [ none ↦ none | some m' ↦ c m' ])
then-IsMade none c h k = h
then-IsMade (some m) c h k = k m

pub then-Total : (a b : Change) → Total a → Total b → Total (a then_change b)
then-Total a b h k m = then-IsMade (a m) b (h m) k

module _ (fs : List Field) (tags : Each (λ f. f.tag ≢ 0) fs) (one : FieldIter → Change)
    (each : (it : FieldIter) → OnTable fs it → Total (one it)) where
  -- What can be done to each field can be done to all of them.
  pub each_field-Total :
      (rounds : ℕ) (it : FieldIter)
      → OnTable fs it
      → it.pos + rounds ≡ length fs
      → Total (each_field one rounds it)
  unfolding each_field
  each_field-Total zero it on e = absurd (omega (arith, e, on.1))
  each_field-Total (suc rounds) it on e =
      let it' = (pb_field_iter_next it).1 in
      let rest =
        if-Total (pb_field_iter_next it).0 (each_field one rounds it') unchanged
          (λ more.
            let (en, ep, inner) = next_round fs tags rounds it on.0 e more in
            each_field-Total rounds it' (en, inner) ep)
          (λ _ m. tt) in
      then-Total (one it)
        (if (pb_field_iter_next it).0 then each_field one rounds it' else unchanged) (each it on)
        rest

module _ (host : Host) where
  defaults-Total :
      (one : FieldIter → Change) (fields : ℕ)
      → Each (λ f. f.tag ≢ 0) (host.tables fields)
      → ((it : FieldIter) → OnTable (host.tables fields) it → Total (one it))
      → (dest : ℕ) → Total (message_to_defaults host one fields dest)
  unfolding message_to_defaults pb_field_iter_begin
  defaults-Total one fields tags each dest m =
      let fs = host.tables fields in
      if-IsMade (not ((field_at fs 0).tag == 0)) _ _
        (λ h.
          let on : 0 < length fs = nonempty fs h in
          each_field-Total fs tags one each (length fs) (begin_at fs dest) (refl, on) (omega arith)
            m)
        (λ _. tt)

  -- What is nested in a field gets its defaults.
  abbrev Nested : (FieldIter → Change) → Field → Type 0
  Nested one = Deeper (λ p. (dest : ℕ) → Total (message_to_defaults host one p dest))

  init_data-Total :
      (one : FieldIter → Change) (it : FieldIter)
      → Nested one (current it)
      → Total (init_data host one it)
  unfolding init_data
  init_data-Total one it nested m = go (current it).ptr nested
    where
      go :
          (ptr : Option ℕ)
          → (pb_ltype (current it).type ≡ 8
              → (p : ℕ) × (ptr ≡ some p)
                × ((dest : ℕ) → Total (message_to_defaults host one p dest)))
          → IsMade (elim ptr as (λ _. Option Memory) [
            | none ↦
                if pb_ltype (current it).type == ltype_submessage
                then none
                else some (memset_zero it.p_data (current it).data_size m)
            | some p ↦
                if pb_ltype (current it).type == ltype_submessage
                then message_to_defaults host one p it.p_data m
                else some (write_bytes it.p_data (read_bytes (current it).data_size p m) m)
          ])
      go none deeper =
          if-IsMade (pb_ltype (current it).type == 8) _ _
            (λ l. let (p, e, total) = deeper (ground arith) in absurd (cc)) (λ _. tt)
      go (some q) deeper =
          if-IsMade (pb_ltype (current it).type == 8) _ _
            (λ l.
              let (p, e, total) = deeper (ground arith) in
              subst (λ r. IsMade (message_to_defaults host one r it.p_data m)) (cc)
                (total it.p_data m))
            (λ _. tt)

  field_to_default-Total :
      (one : FieldIter → Change) (it : FieldIter)
      → pb_ltype (current it).type ≢ 9
      → Nested one (current it)
      → Total (field_to_default host one it)
  unfolding field_to_default
  field_to_default-Total one it plain nested m =
      let field = current it in
      let h = pb_htype field.type in
      let a = pb_atype field.type in
      let counted = h == htype_repeated || h == htype_oneof in
      if-IsMade (pb_ltype field.type == ltype_extension) _ _ (λ e. absurd (ground (arith, plain)))
        (λ _.
          if-IsMade (a == atype_static) _ _
            (λ _.
              if-IsMade (h == htype_optional && not (it.p_size == it.p_data)) _ _
                (λ _. init_data-Total one it nested (store 1 it.p_size 0 m))
                (λ _. if-IsMade counted _ _ (λ _. tt) (λ _. init_data-Total one it nested m)))
            (λ _. if-IsMade (a == atype_pointer) _ _ (λ _. tt) (λ _. tt)))

  -- A message whose tables have fields and nest less deep than the depth gets its default values.
  pub pb_message_set_to_defaults-Total :
      (depth fields : ℕ)
      → Decodable host.tables depth fields
      → (dest_struct : ℕ) → Total (pb_message_set_to_defaults host depth fields dest_struct)
  unfolding pb_message_set_to_defaults pb_field_set_to_default
  pb_message_set_to_defaults-Total zero fields d dest_struct = elim d [ ]
  pb_message_set_to_defaults-Total (suc depth) fields d dest_struct =
      let fs = host.tables fields in
      defaults-Total (pb_field_set_to_default host (suc depth)) fields
        (λ i h. (d.1 i h).0.tag_nonzero)
        (λ it on.
          field_to_default-Total (pb_field_set_to_default host depth) it
            (at_current (λ f. pb_ltype f.type ≢ 9) fs it (λ i h. (d.1 i h).0.no_extension) on)
            (at_current (Nested (pb_field_set_to_default host depth)) fs it
              (λ i h l.
                let (p, e, deeper) = (d.1 i h).1 l in
                (p, e, pb_message_set_to_defaults-Total depth p deeper))
              on))
        dest_struct
