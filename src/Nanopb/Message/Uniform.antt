-- ===== src/Nanopb/Message/Uniform.antt =====
-- A message has one encoding: it is what the pass that only counts counts, and what is written.
use firebase_login.Base.{
  ℕ, zero, suc, ◌+◌, ◌<◌, ◌≡◌, ◌≢◌, refl, sym, ap, subst, ◌∙◌, arith, List, [], ◌∷◌, length, not,
  Option, none, some, Bool, true, false, ◌==◌, if◌then◌else◌,
}
use native.Mathlib.Decide.{dec_lt}
use firebase_login.Nanopb.Ostream.{Emit}
use firebase_login.Nanopb.Field.{
  Field, FieldIter, field_at, current, pb_ltype, begin_at, pb_field_iter_begin, pb_field_iter_next,
  ltype_extension,
}
use firebase_login.Nanopb.Field.Find.{OnField, next_inner}
use firebase_login.Nanopb.Memory.{Memory}
use firebase_login.Nanopb.Encode.{Code}
use firebase_login.Nanopb.Encode.Uniform.{Uniform}
use firebase_login.Nanopb.Encode.Compose.{seq-Uniform, if-Uniform, succeed-Uniform}
use firebase_login.Nanopb.Presence.{
  pb_check_proto3_default_value, default_loop, has_defaults, and_then,
}
use firebase_login.Nanopb.Message.{
  encode_extension_field, encode_field, encode_current, encode_loop, encode_message, pb_encode,
}
use firebase_login.Nanopb.Message.Fields.{
  Nests, CallbacksUniform, Decided, if-Decided, next_end, check-Decided, encode_field-Uniform,
}

and_then-Decided : (a b : Option Bool) → Decided a → Decided b → Decided (and_then a b)
and_then-Decided none b da db = da
and_then-Decided (some false) b da db = tt
and_then-Decided (some true) b da db = db

-- A walk over all fields of a table.
module _ (fs : List Field) (tags : (i : ℕ) → i < length fs → (field_at fs i).tag ≢ 0) where
  walks : (it : FieldIter) → it.fields ≡ fs → it.pos < length fs → OnField it
  walks it ef h = record {
    tags = subst (λ f. (i : ℕ) → i < length f → (field_at f i).tag ≢ 0) (sym ef) tags;
    inside = rw ef h;
  }

  -- If there is a next field, one round less is left for it.
  pub next_round :
      (rounds : ℕ) (it : FieldIter)
      → it.fields ≡ fs
      → it.pos + suc rounds ≡ length fs
      → (pb_field_iter_next it).0 ≡ true
      → ((pb_field_iter_next it).1.fields ≡ fs)
        × ((pb_field_iter_next it).1.pos + rounds ≡ length fs)
        × ((pb_field_iter_next it).1.pos < length fs)
  next_round rounds it ef e more = elim (dec_lt (it.pos + 1) (length it.fields)) [
    | yes inner ↦
        let on = walks it ef (omega arith) in
        let (en, ep) = next_inner it on inner in
        (en ∙ ef, omega (arith, ep), omega (arith, ep, ap length ef))
    | no last ↦
        let on = walks it ef (omega arith) in let stop = next_end it on (omega arith) in absurd (cc)
  ]

pub nonempty : (fs : List Field) → not ((field_at fs 0).tag == 0) ≡ true → 0 < length fs
nonempty [] h = absurd (cc)
nonempty (f ∷ fs) h = omega arith

module _ (code : Code) (m : Memory) where
  module _ (sub_default : ℕ → ℕ → Option Bool) (fs : List Field)
      (tags : (i : ℕ) → i < length fs → (field_at fs i).tag ≢ 0)
      (each : (i p_data : ℕ)
        → i < length fs
        → Decided (pb_check_proto3_default_value code m sub_default (field_at fs i) p_data)) where
    default_loop-Decided :
        (rounds : ℕ) (it : FieldIter)
        → it.fields ≡ fs
        → it.pos + rounds ≡ length fs
        → it.pos < length fs
        → Decided (default_loop code m sub_default rounds it)
    unfolding default_loop
    default_loop-Decided zero it ef e h = absurd (omega arith)
    default_loop-Decided (suc rounds) it ef e h =
        and_then-Decided _ _
          (subst
            (λ f.
              Decided
                (pb_check_proto3_default_value code m sub_default (field_at f it.pos) it.p_data))
            (sym ef) (each it.pos it.p_data h))
          (if-Decided (pb_field_iter_next it).0 _ _
            (λ more.
              let (en, ep, inner) = next_round fs tags rounds it ef e more in
              default_loop-Decided rounds (pb_field_iter_next it).1 en ep inner)
            (λ _. tt))

  -- A table's fields have tags, and submessages have tables that nest less deep.
  pub tags_of :
      (depth fields : ℕ)
      → Nests code.tables (suc depth) fields
      → (i : ℕ) → i < length (code.tables fields)
      → (field_at (code.tables fields) i).tag ≢ 0
  tags_of depth fields nests i h = (nests i h).0.tag_nonzero

  -- Whether a message has its defaults is decided within its depth.
  pub has_defaults-Decided :
      (depth fields : ℕ)
      → Nests code.tables depth fields
      → (p_data : ℕ) → Decided (has_defaults code m depth fields p_data)
  unfolding has_defaults pb_field_iter_begin
  has_defaults-Decided zero fields nests p_data = elim nests [ ]
  has_defaults-Decided (suc depth) fields nests p_data =
      let fs = code.tables fields in
      let tags = tags_of depth fields nests in
      if-Decided (not ((field_at fs 0).tag == 0)) _ _
        (λ h.
          default_loop-Decided (has_defaults code m depth) fs tags
            (λ i q inside.
              check-Decided m (has_defaults code m depth) code (field_at fs i)
                (λ l.
                  let (p, e, deeper) = (nests i inside).1 l in
                  (p, e, has_defaults-Decided depth p deeper))
                q)
            (length fs) (begin_at fs p_data) refl (omega arith) (nonempty fs h))
        (λ _. tt)

  module _ (callbacks : CallbacksUniform code m) where
    -- The loop over the fields, where each field's encoding is uniform.
    module _ (sub : ℕ → ℕ → Emit) (sub_default : ℕ → ℕ → Option Bool) (fs : List Field)
        (tags : (i : ℕ) → i < length fs → (field_at fs i).tag ≢ 0)
        (each : (i p_data : ℕ)
          → i < length fs
          → (pb_ltype (field_at fs i).type ≢ 9)
            × Uniform (encode_field code m sub sub_default (field_at fs i) p_data)) where
      unfoldable pub encode_current-Uniform :
          (it : FieldIter)
          → it.fields ≡ fs
          → it.pos < length fs
          → Uniform (encode_current code m sub sub_default it)
      unfolding encode_current
      encode_current-Uniform it ef h =
          let (l, u) = each it.pos it.p_data h in
          let same : current it ≡ field_at fs it.pos = ap (λ f. field_at f it.pos) ef in
          subst
            (λ f. Uniform (
              if pb_ltype f.type == ltype_extension
              then encode_extension_field code m sub sub_default it.p_data
              else encode_field code m sub sub_default f it.p_data))
            (sym same)
            (if-Uniform (pb_ltype (field_at fs it.pos).type == ltype_extension) _ _
              (λ extension. absurd (ground arith)) (λ _. u))

      unfoldable pub encode_loop-Uniform :
          (rounds : ℕ) (it : FieldIter)
          → it.fields ≡ fs
          → it.pos + rounds ≡ length fs
          → it.pos < length fs
          → Uniform (encode_loop code m sub sub_default rounds it)
      unfolding encode_loop
      encode_loop-Uniform zero it ef e h = absurd (omega arith)
      encode_loop-Uniform (suc rounds) it ef e h =
          seq-Uniform _ _ (encode_current-Uniform it ef h) (
            if-Uniform (pb_field_iter_next it).0 _ _
              (λ more.
                let (en, ep, inner) = next_round fs tags rounds it ef e more in
                encode_loop-Uniform rounds (pb_field_iter_next it).1 en ep inner)
              (λ _. succeed-Uniform))

    -- A message whose tables nest less deep than the depth is encoded uniformly: it writes the
    -- same bytes to every buffer with room that it counts for a stream that only counts, or
    -- it fails on all of them.
    unfoldable pub pb_encode-Uniform :
        (depth fields : ℕ)
        → Nests code.tables depth fields
        → (src_struct : ℕ) → Uniform (pb_encode code m depth fields src_struct)
    unfolding pb_encode encode_message pb_field_iter_begin
    pb_encode-Uniform zero fields nests src_struct = elim nests [ ]
    pb_encode-Uniform (suc depth) fields nests src_struct =
        let fs = code.tables fields in
        let tags = tags_of depth fields nests in
        let sub = pb_encode code m depth in
        let sub_default = has_defaults code m depth in
        if-Uniform (not ((field_at fs 0).tag == 0)) _ _
          (λ h.
            encode_loop-Uniform sub sub_default fs tags
              (λ i q inside. (
                (nests i inside).0.no_extension,
                encode_field-Uniform code m callbacks sub sub_default (field_at fs i)
                    (nests i inside).0
                    (λ l.
                      let (p, e, deeper) = (nests i inside).1 l in
                      (p, e, has_defaults-Decided depth p deeper, pb_encode-Uniform depth p deeper))
                    q,
              ))
              (length fs) (begin_at fs src_struct) refl (omega arith) (nonempty fs h))
          (λ _. succeed-Uniform)
