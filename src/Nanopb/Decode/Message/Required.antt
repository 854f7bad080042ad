-- ===== src/Nanopb/Decode/Message/Required.antt =====
-- The bits of `fields_seen`: the last check of `pb_decode_noinit` is that every required field was
-- seen.
use firebase_login.Base.{
  ℕ, zero, suc, ◌+◌, ◌-◌, ◌/◌, ◌%◌, ◌^◌, ◌≤◌, ◌<◌, ◌≡◌, refl, sym, ap, subst, ◌∙◌, arith, List, [],
  ◌∷◌, Bool, true, false, ◌==◌, ◌&&◌, ◌||◌, bit_or,
}
use native.Mathlib.Decide.{dec_lt}
use firebase_login.Nanopb.Decode.Message.{Seen, mark_seen, is_complete, all_bits}
use firebase_login.Nanopb.Decode.Message.Bits.{
  bit_at, bit_at-or, bit_at-zero, bit_at-power, or-lt, all_set, positive, largest, power-lt,
}

-- The mask of the remaining bits.
abbrev masks_are : ℕ → Bool
masks_are zero = true
masks_are (suc n) = masks_are n && all_bits / 2 ^ (32 - n) == 2 ^ n - 1

mask_at : (n r : ℕ) → masks_are n ≡ true → r < n → all_bits / 2 ^ (32 - r) ≡ 2 ^ r - 1
mask_at zero r h lt = absurd (omega arith)
mask_at (suc n) r h lt = elim (dec_lt r n) [
  | yes below ↦ mask_at n r (ground arith) below
  | no last ↦ let e : r ≡ n = omega arith in rw e (ground arith)
]

remaining : (r : ℕ) → r < 32 → all_bits / 2 ^ (32 - r) ≡ 2 ^ r - 1
remaining r h = mask_at 32 r refl h

-- The fields that were seen, as marks and as a list.
abbrev pub marks : List ℕ → Seen
marks [] = (0, 0)
marks (j ∷ indices) = mark_seen j (marks indices)

abbrev pub member : ℕ → List ℕ → Bool
member i [] = false
member i (j ∷ indices) = i == j || member i indices

abbrev pub Below : ℕ → List ℕ → Type 0
Below count [] = Unit {0}
Below count (j ∷ indices) = (j < count) × Below count indices

abbrev pub covers : List ℕ → ℕ → Bool
covers indices zero = true
covers indices (suc n) = covers indices n && member n indices

mark-low : (j : ℕ) (seen : Seen) → j < 32 → mark_seen j seen ≡ (bit_or seen.0 (2 ^ j), seen.1)
unfolding mark_seen
mark-low j seen h =
    let e : j / 32 ≡ 0 = omega arith in let r : j % 32 ≡ j = omega arith in rw (e, r) refl

mark-high :
    (j : ℕ) (seen : Seen)
    → 32 ≤ j
    → j < 64
    → mark_seen j seen ≡ (seen.0, bit_or seen.1 (2 ^ (j - 32)))
unfolding mark_seen
mark-high j seen low high =
    let e : j / 32 ≡ 1 = omega arith in let r : j % 32 ≡ j - 32 = omega arith in rw (e, r) refl

low_bit :
    (i count : ℕ) (indices : List ℕ)
    → i < 32
    → count ≤ 64
    → Below count indices
    → bit_at i (marks indices).0 ≡ member i indices
low_bit i count [] h all below = bit_at-zero i
low_bit i count (j ∷ indices) h all (lt, below) =
    let rest = low_bit i count indices h all below in
    let seen = marks indices in
    elim (dec_lt j 32) [
      | yes low ↦
          ap (λ w. bit_at i w.0) (mark-low j seen low)
          ∙ bit_at-or i seen.0 (2 ^ j)
          ∙ ground (arith, rest, bit_at-power i j)
      | no high ↦
          ap (λ w. bit_at i w.0) (mark-high j seen (omega arith) (omega arith))
          ∙ rest
          ∙ ground arith
    ]

high_bit :
    (i count : ℕ) (indices : List ℕ)
    → i < 32
    → count ≤ 64
    → Below count indices
    → bit_at i (marks indices).1 ≡ member (32 + i) indices
high_bit i count [] h all below = bit_at-zero i
high_bit i count (j ∷ indices) h all (lt, below) =
    let rest = high_bit i count indices h all below in
    let seen = marks indices in
    elim (dec_lt j 32) [
      | yes low ↦ ap (λ w. bit_at i w.1) (mark-low j seen low) ∙ rest ∙ ground arith
      | no high ↦
          ap (λ w. bit_at i w.1) (mark-high j seen (omega arith) (omega arith))
          ∙ bit_at-or i seen.1 (2 ^ (j - 32))
          ∙ ground (arith, rest, bit_at-power i (j - 32))
    ]

-- Nothing is marked behind the last field.
low-lt :
    (k count : ℕ) (indices : List ℕ)
    → k ≤ 32
    → count ≤ 64
    → ((j : ℕ) → j < count → j < 32 → j < k)
    → Below count indices
    → (marks indices).0 < 2 ^ k
low-lt k count [] h all inside below = positive k
low-lt k count (j ∷ indices) h all inside (lt, below) =
    let rest = low-lt k count indices h all inside below in
    let seen = marks indices in
    elim (dec_lt j 32) [
      | yes low ↦
          let bound : bit_or seen.0 (2 ^ j) < 2 ^ k =
            or-lt k seen.0 (2 ^ j) rest (power-lt j k (inside j lt low)) in
          subst (λ w. w.0 < 2 ^ k) (sym (mark-low j seen low)) bound
      | no high ↦ subst (λ w. w.0 < 2 ^ k) (sym (mark-high j seen (omega arith) (omega arith))) rest
    ]

high-lt :
    (k count : ℕ) (indices : List ℕ)
    → k ≤ 32
    → count ≤ 32 + k
    → Below count indices
    → (marks indices).1 < 2 ^ k
high-lt k count [] h all below = positive k
high-lt k count (j ∷ indices) h all (lt, below) =
    let rest = high-lt k count indices h all below in
    let seen = marks indices in
    elim (dec_lt j 32) [
      | yes low ↦ subst (λ w. w.1 < 2 ^ k) (sym (mark-low j seen low)) rest
      | no high ↦
          let bound : bit_or seen.1 (2 ^ (j - 32)) < 2 ^ k =
            or-lt k seen.1 (2 ^ (j - 32)) rest (power-lt (j - 32) k (omega arith)) in
          subst (λ w. w.1 < 2 ^ k) (sym (mark-high j seen (omega arith) (omega arith))) bound
    ]

low-covers :
    (k count : ℕ) (indices : List ℕ)
    → k ≤ 32
    → count ≤ 64
    → Below count indices
    → all_set k (marks indices).0 ≡ covers indices k
low-covers zero count indices h all below = refl
low-covers (suc k) count indices h all below =
    let rest = low-covers k count indices (omega arith) all below in
    let bit = low_bit k count indices (omega arith) all below in rw (rest, bit) refl

and_assoc : (a b c : Bool) → (a && (b && c)) ≡ ((a && b) && c)
and_assoc true b c = refl
and_assoc false b c = refl

or_zero : (indices : List ℕ) (n : ℕ) → (n == 0 || covers indices n) ≡ covers indices n
or_zero indices zero = refl
or_zero indices (suc n) = let z : (suc n == 0) ≡ false = ground arith in rw z refl

and_true : (b : Bool) → (b && true) ≡ b
and_true true = refl
and_true false = refl

-- Without remaining bits there is nothing to compare.
no_remaining : (r n : ℕ) → n < 2 ^ r → (r == 0 || n == 2 ^ r - 1) ≡ (n == 2 ^ r - 1)
no_remaining zero n h = ground arith
no_remaining (suc r) n h = let z : (suc r == 0) ≡ false = ground arith in rw z refl

high-covers :
    (k count : ℕ) (indices : List ℕ)
    → k ≤ 32
    → count ≤ 64
    → Below count indices
    → (covers indices 32 && all_set k (marks indices).1) ≡ covers indices (32 + k)
high-covers zero count indices h all below = ground arith
high-covers (suc k) count indices h all below =
    let rest = high-covers k count indices (omega arith) all below in
    let bit = high_bit k count indices (omega arith) all below in
    let next : 32 + suc k ≡ suc (32 + k) = omega arith in
    and_assoc (covers indices 32) (all_set k (marks indices).1) (bit_at k (marks indices).1)
    ∙ ap (λ b. b && bit_at k (marks indices).1) rest
    ∙ ap (λ b. covers indices (32 + k) && b) bit
    ∙ sym (ap (covers indices) next)

module _ (indices : List ℕ) (count : ℕ) (below : Below count indices) where
  few : count < 32 → is_complete (marks indices) count ≡ covers indices count
  unfolding is_complete
  few h =
      let q : count / 32 ≡ 0 = omega arith in
      let r : count % 32 ≡ count = omega arith in
      let bound = low-lt count count indices (omega arith) (omega arith) (λ j lt _. lt) below in
      rw
        (
          q,
          r,
          remaining count h,
          largest count (marks indices).0 bound,
          low-covers count count indices (omega arith) (omega arith) below,
        )
        (or_zero indices count)

  -- The first word is checked as a whole.
  first_word : 32 ≤ count → count ≤ 64 → ((marks indices).0 == all_bits) ≡ covers indices 32
  first_word h all =
      largest 32 (marks indices).0
        (low-lt 32 count indices (omega arith) all (λ j lt low. low) below)
      ∙ low-covers 32 count indices (omega arith) all below

  second_word :
      (r : ℕ)
      → count ≡ 32 + r
      → r ≤ 32
      → (covers indices 32 && (marks indices).1 == 2 ^ r - 1) ≡ covers indices count
  second_word r e h =
      ap (λ b. covers indices 32 && b)
        (largest r (marks indices).1 (high-lt r count indices h (omega arith) below))
      ∙ high-covers r count indices h (omega arith) below
      ∙ ap (covers indices) (sym e)

  some_fields : 32 ≤ count → count < 64 → is_complete (marks indices) count ≡ covers indices count
  unfolding is_complete
  some_fields low high =
      let q : count / 32 ≡ 1 = omega arith in
      let r : count % 32 ≡ count - 32 = omega arith in
      let rest = second_word (count - 32) (omega arith) (omega arith) in
      rw (q, r, remaining (count - 32) (omega arith), first_word low (omega arith))
        (ap (λ b. covers indices 32 && b)
            (no_remaining (count - 32) (marks indices).1
              (high-lt (count - 32) count indices (omega arith) (omega arith) below))
          ∙ rest)

  all_fields : count ≡ 64 → is_complete (marks indices) count ≡ covers indices count
  unfolding is_complete
  all_fields e =
      let q : count / 32 ≡ 2 = omega arith in
      let r : count % 32 ≡ 0 = omega arith in
      rw (q, r, first_word (omega arith) (omega arith))
        (and_true _ ∙ second_word 32 e (omega arith))

  -- Of at most 64 required fields, the check at the end of pb_decode_noinit lets exactly those
  -- messages pass in which each one has been marked in fields_seen.
  pub is_complete-marks : count ≤ 64 → is_complete (marks indices) count ≡ covers indices count
  is_complete-marks h = elim (dec_lt count 32) [
    | yes below32 ↦ few below32
    | no over ↦ elim (dec_lt count 64) [
      | yes below64 ↦ some_fields (omega arith) below64
      | no last ↦ all_fields (omega arith)
    ]
  ]
