-- ===== src/Nanopb/Decode/Layout.antt =====
-- Where the fields of a message lie in its struct.
use firebase_login.Base.{
  ℕ, zero, suc, ◌+◌, ◌*◌, ◌^◌, ◌≤◌, ◌<◌, ◌≡◌, ◌≢◌, refl, sym, subst, arith, List, Option, none,
  some, Bool, true, false, ◌==◌, if◌then◌else◌, Bool-cases, inl, inr, length,
}
use firebase_login.Nanopb.Field.{
  Field, FieldIter, field_at, current, begin_at, advance, same_union, pb_ltype, pb_atype, pb_htype,
  atype_static, htype_oneof, pb_field_iter_next, find_loop, is_wanted, pb_field_iter_find,
}
use firebase_login.Nanopb.Action.Same.{Avoids}
use firebase_login.Nanopb.Action.Within.{IsInline}
use firebase_login.Nanopb.Decode.{item_at}
use firebase_login.Nanopb.Decode.Static.Within.{AvoidsSize}
use firebase_login.Nanopb.Decode.Message.{extension_loop, find_extension_field}

-- The iterators that a walk over the fields comes to.
pub data Walked (start : FieldIter) : FieldIter → Type 0 where
  begin : Walked start start
  step : {it : FieldIter} → Walked start it → Walked start (pb_field_iter_next it).1

-- A field of the struct that the iterator stands on, with `slots` entries. `Inner` is asked of
-- the submessages in it.
pub record Placed (P : ℕ → Type 0) (Inner : ℕ → ℕ → Type 0) (it : FieldIter) : Type 0 where
  pub static : pb_atype (current it).type ≡ atype_static
  pub no_extension : pb_ltype (current it).type ≢ 9
  pub inline : IsInline (current it) it.p_data
  pub slots : ℕ
  pub some_slot : 0 < slots
  pub enough : (current it).array_size ≤ slots
  pub product : (current it).data_size * slots < 2 ^ 32
  pub no_wrap : it.p_data + (current it).data_size * slots < 2 ^ 64
  pub region : Avoids P it.p_data (it.p_data + (current it).data_size * slots)
  pub size : AvoidsSize P it
  pub nested :
      pb_ltype (current it).type ≡ 8
      → (p : ℕ) × ((current it).ptr ≡ some p)
        × Inner p it.p_data
        × ((index : ℕ)
            → index < (current it).array_size
            → Inner p (item_at (current it) it.p_data index))

-- All fields of the message at an address, and those of the submessages in them, lie where `P` is
-- not satisfied. The tables nest less deep than `depth`, and all fields are static.
abbrev pub Layout : (ℕ → Type 0) → (ℕ → List Field) → ℕ → ℕ → ℕ → Type 0
Layout P tables zero fields dest = ⊥
Layout P tables (suc depth) fields dest =
    (it : FieldIter)
    → Walked (begin_at (tables fields) dest) it
    → Placed P (Layout P tables depth) it

-- The iterator of the decoder: it may have another counter than the struct's.
pub record Stands (P : ℕ → Type 0) (start it : FieldIter) : Type 0 where
  pub base : FieldIter
  pub walked : Walked start base
  pub same : it ≡ record base { p_size = it.p_size }
  pub size : AvoidsSize P it

module _ (P : ℕ → Type 0) (start : FieldIter)
    (sizes : (it : FieldIter) → Walked start it → AvoidsSize P it) where
  pub Walked-Stands : (it : FieldIter) → Walked start it → Stands P start it
  Walked-Stands it w = record { base = it; walked = w; same = refl; size = sizes it w }

  -- A field of a union keeps the tag's place of the field in front of it.
  union-AvoidsSize :
      (base : FieldIter) (q : ℕ)
      → same_union (current base) (field_at base.fields (base.pos + 1)) ≡ true
      → AvoidsSize P (record base { p_size = q })
      → AvoidsSize P (record base { pos = base.pos + 1; p_size = q })
  union-AvoidsSize base q e size =
      let h = pb_htype (field_at base.fields (base.pos + 1)).type in
      let one : h ≡ htype_oneof = ground (arith, e) in
      let before : pb_htype (current base).type ≡ htype_oneof = ground (arith, e) in
      record {
        optional = λ o _. absurd (omega (arith, one, o));
        repeated = λ r. absurd (omega (arith, one, r));
        oneof = λ _. size.oneof before;
      }

  step_from :
      (base : FieldIter) (q : ℕ)
      → Walked start base
      → AvoidsSize P (record base { p_size = q })
      → Stands P start (pb_field_iter_next (record base { p_size = q })).1
  unfolding pb_field_iter_next
  step_from base q w size =
      let prev = current base in
      let now = field_at base.fields (base.pos + 1) in
      let w' = Walked.step w in
      elim (Bool-cases (prev.tag == 0)) [
        | inl end ↦ rw end (record { base = base; walked = w; same = refl; size = size })
        | inr more ↦ elim (Bool-cases (now.tag == 0)) [
          | inl last ↦
              let e : (pb_field_iter_next base).1 ≡ begin_at base.fields base.dest_struct =
                rw (more, last) refl in
              rw (more, last)
                (Walked-Stands (begin_at base.fields base.dest_struct) (subst (Walked start) e w'))
          | inr inner ↦ elim (Bool-cases (same_union prev now)) [
            | inl union ↦
                let e : (pb_field_iter_next base).1 ≡ record base { pos = base.pos + 1 } =
                  rw (more, inner, union) refl in
                rw (more, inner, union)
                  (record {
                    base = record base { pos = base.pos + 1 };
                    walked = subst (Walked start) e w';
                    same = refl;
                    size = union-AvoidsSize base q union size;
                  })
            | inr apart ↦
                let e : (pb_field_iter_next base).1 ≡ advance prev now base =
                  rw (more, inner, apart) refl in
                rw (more, inner, apart)
                  (Walked-Stands (advance prev now base) (subst (Walked start) e w'))
          ]
        ]
      ]

  pub next-Stands : (it : FieldIter) → Stands P start it → Stands P start (pb_field_iter_next it).1
  next-Stands it s =
      subst (λ i. Stands P start (pb_field_iter_next i).1) (sym s.same)
        (step_from s.base it.p_size s.walked (subst (AvoidsSize P) s.same s.size))

  -- What a search finds.
  abbrev pub Finds : Option (Bool × FieldIter) → Type 0
  Finds none = Unit
  Finds (some (found, it)) = Stands P start it

  if-Finds :
      (b : Bool) (x y : Option (Bool × FieldIter)) → Finds x → Finds y → Finds (if b then x else y)
  if-Finds true x y hx hy = hx
  if-Finds false x y hx hy = hy

  find_loop-Finds :
      (rounds tag from : ℕ) (it : FieldIter)
      → Stands P start it
      → Finds (find_loop rounds tag from it)
  unfolding find_loop
  find_loop-Finds zero tag from it s = tt
  find_loop-Finds (suc rounds) tag from it s =
      let it' = (pb_field_iter_next it).1 in
      let s' = next-Stands it s in
      if-Finds (is_wanted tag (current it)) _ _ s
        (if-Finds (it'.pos == from) _ _ s' (find_loop-Finds rounds tag from it' s'))

  pub pb_field_iter_find-Finds :
      (it : FieldIter) (tag : ℕ) → Stands P start it → Finds (pb_field_iter_find it tag)
  unfolding pb_field_iter_find
  pb_field_iter_find-Finds it tag s = find_loop-Finds (suc (length it.fields)) tag it.pos it s

  extension_loop-Finds :
      (rounds from : ℕ) (it : FieldIter) → Stands P start it → Finds (extension_loop rounds from it)
  unfolding extension_loop
  extension_loop-Finds zero from it s = tt
  extension_loop-Finds (suc rounds) from it s =
      let it' = (pb_field_iter_next it).1 in
      let s' = next-Stands it s in
      if-Finds (pb_ltype (current it).type == 9) _ _ s
        (if-Finds (it'.pos == from) _ _ s' (extension_loop-Finds rounds from it' s'))

  pub find_extension_field-Finds :
      (it : FieldIter) → Stands P start it → Finds (find_extension_field it)
  unfolding find_extension_field
  find_extension_field-Finds it s = extension_loop-Finds (suc (length it.fields)) it.pos it s
