-- ===== src/Nanopb/Field/Table.antt =====
-- FirebaseLogin/Pods/nanopb/pb.h: tables of fields that a message can be decoded by.
use firebase_login.Base.{
  ℕ, zero, suc, ◌+◌, ◌≤◌, ◌<◌, ◌≡◌, ◌≢◌, sym, ap, ◌∙◌, subst, arith, List, length, some,
}
use native.Mathlib.Decide.{dec_lt}
use firebase_login.Nanopb.Field.{
  Field, FieldIter, field_at, current, pb_ltype, pb_atype, pb_field_iter_next,
}
use firebase_login.Nanopb.Field.Find.{OnField, next_inner, next_last}

-- The iterator stands on a field of the table.
abbrev pub OnTable : List Field → FieldIter → Type 0
OnTable fs it = (it.fields ≡ fs) × (it.pos < length fs)

abbrev pub Each : (Field → Type 0) → List Field → Type 0
Each P fs = (i : ℕ) → i < length fs → P (field_at fs i)

pub at_current :
    (P : Field → Type 0) (fs : List Field) (it : FieldIter)
    → Each P fs
    → OnTable fs it
    → P (current it)
at_current P fs it each on = subst (λ f. P (field_at f it.pos)) (sym on.0) (each it.pos on.1)

pub OnTable-OnField :
    (fs : List Field) (it : FieldIter) → Each (λ f. f.tag ≢ 0) fs → OnTable fs it → OnField it
OnTable-OnField fs it tags on = record {
  tags = subst (Each (λ f. f.tag ≢ 0)) (sym on.0) tags;
  inside = subst (λ f. it.pos < length f) (sym on.0) on.1;
}

module _ (fs : List Field) (tags : Each (λ f. f.tag ≢ 0) fs) where
  -- A step stays on the table.
  pub next-OnTable : (it : FieldIter) → OnTable fs it → OnTable fs (pb_field_iter_next it).1
  next-OnTable it on = elim (dec_lt (it.pos + 1) (length it.fields)) [
    | yes inner ↦
        let (en, ep) = next_inner it (OnTable-OnField fs it tags on) inner in
        (en ∙ on.0, omega (arith, ep, ap length on.0))
    | no last ↦
        let (en, ep) = next_last it (OnTable-OnField fs it tags on) (omega arith) in
        (en ∙ on.0, omega (arith, ep, on.1))
  ]

-- A field as the generator makes them, other than one that stands for extensions.
pub record IsDecodable (field : Field) : Type 0 where
  pub tag_nonzero : field.tag ≢ 0
  pub known : pb_ltype field.type ≤ 10
  pub no_extension : pb_ltype field.type ≢ 9
  pub sized : 0 < field.data_size

-- The table of a submessage satisfies `P`.
abbrev pub Deeper : (ℕ → Type 0) → Field → Type 0
Deeper P field = pb_ltype field.type ≡ 8 → (p : ℕ) × (field.ptr ≡ some p) × P p

-- The table at an address has fields, and it and those of its submessages nest less deep than
-- `depth`.
abbrev pub Decodable : (ℕ → List Field) → ℕ → ℕ → Type 0
Decodable tables zero fields = ⊥
Decodable tables (suc depth) fields =
    (0 < length (tables fields))
    × Each (λ f. IsDecodable f × Deeper (Decodable tables depth) f) (tables fields)

pub Decodable-tags :
    (tables : ℕ → List Field) (depth fields : ℕ)
    → Decodable tables depth fields
    → Each (λ f. f.tag ≢ 0) (tables fields)
Decodable-tags tables zero fields d = elim d [ ]
Decodable-tags tables (suc depth) fields d = λ i h. (d.1 i h).0.tag_nonzero

-- The table at an address and those of its submessages nest less deep than `depth`, and all of
-- their fields lie in the struct.
abbrev pub AllStatic : (ℕ → List Field) → ℕ → ℕ → Type 0
AllStatic tables zero fields = ⊥
AllStatic tables (suc depth) fields =
    Each
      (λ f.
        (f.tag ≢ 0)
        × (pb_ltype f.type ≢ 9)
        × (pb_atype f.type ≡ 0)
        × Deeper (AllStatic tables depth) f)
      (tables fields)
