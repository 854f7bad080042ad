-- ===== src/Nanopb/Decode/Message/Rounds.antt =====
-- The loops over the table at a field that it has not and at the end of a message come to their
-- end.
use firebase_login.Base.{
  ℕ, zero, suc, ◌+◌, ◌<◌, ◌≡◌, ◌≢◌, refl, sym, subst, ◌∙◌, arith, List, length, Option, none, some,
  Bool, true, false, ◌==◌, if◌then◌else◌,
}
use native.Mathlib.Decide.{dec_lt}
use firebase_login.Nanopb.Field.{
  Field, FieldIter, current, field_at, pb_ltype, ltype_extension, is_wanted, find_loop,
  pb_field_iter_next, pb_field_iter_find,
}
use firebase_login.Nanopb.Field.Find.{Answer, next_inner, pb_field_iter_find-Answer}
use firebase_login.Nanopb.Message.Fields.{next_end}
use firebase_login.Nanopb.Decode.Message.{required_count, extension_loop, find_extension_field}
use firebase_login.Nanopb.Field.Table.{OnTable, Each, at_current, OnTable-OnField, next-OnTable}

module _ (fs : List Field) (tags : Each (λ f. f.tag ≢ 0) fs) where
  unwanted : (it : FieldIter) → OnTable fs it → is_wanted 0 (current it) ≡ false
  unfolding is_wanted
  unwanted it on = let tag = at_current (λ f. f.tag ≢ 0) fs it tags on in ground (arith, tag)

  -- Without extensions both loops look at every field and find none.
  module _ (no_extension : Each (λ f. pb_ltype f.type ≢ 9) fs) where
    extension_loop_lem :
        (rounds start : ℕ) (it : FieldIter)
        → OnTable fs it
        → extension_loop rounds start it ≡ find_loop rounds 0 start it
    unfolding extension_loop find_loop
    extension_loop_lem zero start it on = refl
    extension_loop_lem (suc rounds) start it on =
        let plain = at_current (λ f. pb_ltype f.type ≢ 9) fs it no_extension on in
        let l : (pb_ltype (current it).type == ltype_extension) ≡ false = ground (arith, plain) in
        let tag = at_current (λ f. f.tag ≢ 0) fs it tags on in
        let nonzero : ((current it).tag == 0) ≡ false = ground (arith, tag) in
        rw
          (
            l,
            nonzero,
            extension_loop_lem rounds start (pb_field_iter_next it).1 (next-OnTable fs tags it on),
          )
          refl

    -- Nothing was found, and the iterator is where it was.
    abbrev pub NotFound : ℕ → Option (Bool × FieldIter) → Type 0
    NotFound pos none = ⊥
    NotFound pos (some (true, it)) = ⊥
    NotFound pos (some (false, it)) = OnTable fs it

    not_found :
        (table : List Field) (start : ℕ) (o : Option (Bool × FieldIter))
        → table ≡ fs
        → start < length fs
        → Answer table 0 start o
        → NotFound start o
    not_found table start none e h a = elim a [ ]
    not_found table start (some (true, it)) e h a =
        let on : OnTable fs it = (a.0 ∙ e, subst (λ f. it.pos < length f) e a.1) in
        let other = unwanted it on in
        let same = subst (λ f. is_wanted 0 (field_at f it.pos) ≡ true) (sym a.0) a.2 in absurd (cc)
    not_found table start (some (false, it)) e h a = (a.0 ∙ e, omega (arith, a.1, h))

    pub find_extension_field_lem :
        (it : FieldIter) → OnTable fs it → NotFound it.pos (find_extension_field it)
    unfolding find_extension_field pb_field_iter_find
    find_extension_field_lem it on =
        subst (NotFound it.pos) (sym (extension_loop_lem (suc (length it.fields)) it.pos it on)) (
          not_found it.fields it.pos (pb_field_iter_find it 0) on.0 on.1
            (pb_field_iter_find-Answer 0 it (OnTable-OnField fs it tags on)))

  abbrev pub IsCounted : Option ℕ → Type 0
  IsCounted none = ⊥
  IsCounted (some n) = Unit

  if-IsCounted :
      (b : Bool) (x y : Option ℕ)
      → (b ≡ true → IsCounted x)
      → IsCounted y
      → IsCounted (if b then x else y)
  if-IsCounted true x y hx hy = hx refl
  if-IsCounted false x y hx hy = hy

  -- The required fields are counted: the rounds are enough from every field.
  pub required_count-IsCounted :
      (rounds : ℕ) (it : FieldIter)
      → OnTable fs it
      → length fs < it.pos + rounds
      → IsCounted (required_count rounds it)
  unfolding required_count
  required_count-IsCounted zero it on h = absurd (omega (arith, h, on.1))
  required_count-IsCounted (suc rounds) it on h =
      if-IsCounted (pb_field_iter_next it).0 _ _
        (λ more. elim (dec_lt (it.pos + 1) (length it.fields)) [
          | yes inner ↦
              let (en, ep) = next_inner it (OnTable-OnField fs it tags on) inner in
              required_count-IsCounted rounds (pb_field_iter_next it).1 (next-OnTable fs tags it on)
                (omega (arith, h, ep))
          | no last ↦
              let stop = next_end it (OnTable-OnField fs it tags on) (omega arith) in absurd (cc)
        ])
        tt
