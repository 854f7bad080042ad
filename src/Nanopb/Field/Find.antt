-- ===== src/Nanopb/Field/Find.antt =====
-- The search for a field looks at every field once and ends.
use firebase_login.Base.{
  ℕ, zero, suc, ◌+◌, ◌≤◌, ◌<◌, ◌≡◌, ◌≢◌, refl, ap, arith, List, [], ◌∷◌, length, Option, some, none,
  Bool, true, false, ◌==◌, Bool-cases, inl, inr, sym, subst, ◌∙◌,
}
use firebase_login.Nanopb.Field.{
  Field, FieldIter, field_at, current, pb_field_iter_next, is_wanted, find_loop, pb_field_iter_find,
}
use native.Mathlib.Decide.{dec_lt}

-- A message's table: its tags are not 0, and the iterator stands on one of its fields.
pub record OnField (it : FieldIter) : Type 0 where
  pub tags : (i : ℕ) → i < length it.fields → (field_at it.fields i).tag ≢ 0
  pub inside : it.pos < length it.fields

pub field_at-beyond : (fs : List Field) (i : ℕ) → length fs ≤ i → (field_at fs i).tag ≡ 0
field_at-beyond [] i h = refl
field_at-beyond (f ∷ fs) zero h = absurd (omega arith)
field_at-beyond (f ∷ fs) (suc i) h = field_at-beyond fs i (omega arith)

-- A step keeps the table and goes to the next field, or back to the first behind the last.
pub next_inner :
    (it : FieldIter)
    → OnField it
    → it.pos + 1 < length it.fields
    → ((pb_field_iter_next it).1.fields ≡ it.fields) × ((pb_field_iter_next it).1.pos ≡ it.pos + 1)
unfolding pb_field_iter_next
next_inner it on h = ground (arith, on.tags it.pos on.inside, on.tags (it.pos + 1) h)

pub next_last :
    (it : FieldIter)
    → OnField it
    → length it.fields ≤ it.pos + 1
    → ((pb_field_iter_next it).1.fields ≡ it.fields) × ((pb_field_iter_next it).1.pos ≡ 0)
unfolding pb_field_iter_next
next_last it on h =
    ground (arith, on.tags it.pos on.inside, field_at-beyond it.fields (it.pos + 1) h)

abbrev pub Unwanted : List Field → ℕ → ℕ → Type 0
Unwanted fs tag i = is_wanted tag (field_at fs i) ≡ false

-- Either the iterator stands on the wanted field, or there is none and it is back at the start.
abbrev pub Answer : List Field → ℕ → ℕ → Option (Bool × FieldIter) → Type 0
Answer fs tag start none = ⊥
Answer fs tag start (some (true, it)) =
    (it.fields ≡ fs) × (it.pos < length fs) × (is_wanted tag (field_at fs it.pos) ≡ true)
Answer fs tag start (some (false, it)) =
    (it.fields ≡ fs) × (it.pos ≡ start) × ((i : ℕ) → i < length fs → Unwanted fs tag i)

module _ (fs : List Field) (tag start : ℕ)
    (tags : (i : ℕ) → i < length fs → (field_at fs i).tag ≢ 0) (start_in : start < length fs) where
  on_field : (it : FieldIter) → it.fields ≡ fs → it.pos < length fs → OnField it
  on_field it ef h = record {
    tags = subst (λ f. (i : ℕ) → i < length f → (field_at f i).tag ≢ 0) (sym ef) tags;
    inside = rw ef h;
  }

  wanted_here :
      (it : FieldIter) (b : Bool)
      → it.fields ≡ fs
      → is_wanted tag (current it) ≡ b
      → is_wanted tag (field_at fs it.pos) ≡ b
  wanted_here it b ef h = subst (λ f. is_wanted tag (field_at f it.pos) ≡ b) ef h

  -- One round, by what the field and the next position are.
  round :
      (rounds : ℕ) (it : FieldIter)
      → it.fields ≡ fs
      → it.pos < length fs
      → (pb_field_iter_next it).1.fields ≡ fs
      → (Unwanted fs tag it.pos
          → (pb_field_iter_next it).1.pos ≡ start
          → (i : ℕ) → i < length fs
          → Unwanted fs tag i)
      → (Unwanted fs tag it.pos
          → (pb_field_iter_next it).1.pos ≢ start
          → Answer fs tag start (find_loop rounds tag start (pb_field_iter_next it).1))
      → Answer fs tag start (find_loop (suc rounds) tag start it)
  unfolding find_loop
  round rounds it ef h en all more = elim (Bool-cases (is_wanted tag (current it))) [
    | inl hit ↦ rw hit (ef, h, wanted_here it true ef hit)
    | inr other ↦
        let here : Unwanted fs tag it.pos = wanted_here it false ef other in
        rw other (elim (Bool-cases ((pb_field_iter_next it).1.pos == start)) [
          | inl back ↦
              let e : (pb_field_iter_next it).1.pos ≡ start = ground arith in
              rw back (en, e, all here e)
          | inr on ↦ rw on (more here (ground arith))
        ])
  ]

  extend_low :
      (p : ℕ)
      → ((i : ℕ) → i < p → Unwanted fs tag i)
      → Unwanted fs tag p
      → (i : ℕ) → i < p + 1
      → Unwanted fs tag i
  extend_low p seen here i h = elim (dec_lt i p) [
    | yes low ↦ seen i low
    | no last ↦ let e : i ≡ p = omega arith in rw e here
  ]

  -- Behind the wrap-around: what lies from the start on was seen, and what lies before `pos`.
  search_low :
      (rounds : ℕ) (it : FieldIter)
      → it.fields ≡ fs
      → it.pos < start
      → ((i : ℕ) → i < it.pos → Unwanted fs tag i)
      → ((i : ℕ) → start ≤ i → i < length fs → Unwanted fs tag i)
      → start ≤ it.pos + rounds
      → Answer fs tag start (find_loop rounds tag start it)
  search_low zero it ef h low high enough = absurd (omega arith)
  search_low (suc rounds) it ef h low high enough =
      let on : OnField it = on_field it ef (omega arith) in
      let short : it.pos + 1 < length it.fields = rw ef (omega arith) in
      let (en, ep) = next_inner it on short in
      round rounds it ef (omega arith) (en ∙ ef)
        (λ here e i hi. elim (dec_lt i (it.pos + 1)) [
          | yes below ↦ extend_low it.pos low here i below
          | no above ↦ high i (omega arith) hi
        ])
        (λ here e.
          search_low rounds (pb_field_iter_next it).1 (en ∙ ef) (omega arith)
            (λ i hi. extend_low it.pos low here i (omega arith)) high (omega arith))

  extend_high :
      (p : ℕ)
      → ((i : ℕ) → start ≤ i → i < p → Unwanted fs tag i)
      → Unwanted fs tag p
      → (i : ℕ) → start ≤ i
      → i < p + 1
      → Unwanted fs tag i
  extend_high p seen here i lo h = elim (dec_lt i p) [
    | yes low ↦ seen i lo low
    | no last ↦ let e : i ≡ p = omega arith in rw e here
  ]

  -- Before the wrap-around: what lies from the start to `pos` was seen.
  search_high :
      (rounds : ℕ) (it : FieldIter)
      → it.fields ≡ fs
      → start ≤ it.pos
      → it.pos < length fs
      → ((i : ℕ) → start ≤ i → i < it.pos → Unwanted fs tag i)
      → length fs + start ≤ it.pos + rounds
      → Answer fs tag start (find_loop rounds tag start it)
  search_high zero it ef h inside seen enough = absurd (omega arith)
  search_high (suc rounds) it ef h inside seen enough =
      let on : OnField it = on_field it ef inside in
      let next : FieldIter = (pb_field_iter_next it).1 in
      let until = λ (here : Unwanted fs tag it.pos) (i : ℕ) (lo : start ≤ i) (hi : i < it.pos + 1).
        extend_high it.pos seen here i lo hi in
      elim (dec_lt (it.pos + 1) (length fs)) [
        | yes short ↦
            let (en, ep) = next_inner it on (rw ef short) in
            round rounds it ef inside (en ∙ ef) (λ here e. absurd (omega arith))
              (λ here e.
                search_high rounds next (en ∙ ef) (omega arith) (omega arith)
                  (λ i lo hi. until here i lo (omega arith)) (omega arith))
        | no last ↦
            let (en, ep) = next_last it on (rw ef (omega arith)) in
            round rounds it ef inside (en ∙ ef)
              (λ here e i hi. until here i (omega arith) (omega arith))
              (λ here e.
                search_low rounds next (en ∙ ef) (omega arith) (λ i hi. absurd (omega arith))
                  (λ i lo hi. until here i lo (omega arith)) (omega arith))
      ]

  search_all :
      (it : FieldIter)
      → it.fields ≡ fs
      → it.pos ≡ start
      → Answer fs tag start (find_loop (suc (length it.fields)) tag start it)
  search_all it ef es =
      search_high (suc (length it.fields)) it ef (omega arith) (omega arith)
        (λ i lo hi. absurd (omega arith)) (omega (arith, ap length ef))

-- From a field of a message, whose tags are not 0, the search ends: it stands on a wanted field, or
-- no field is wanted and it is back where it started.
pub pb_field_iter_find-Answer :
    (tag : ℕ) (it : FieldIter)
    → OnField it
    → Answer it.fields tag it.pos (pb_field_iter_find it tag)
unfolding pb_field_iter_find
pb_field_iter_find-Answer tag it on = search_all it.fields tag it.pos on.tags on.inside it refl refl
