-- ===== src/App/Form/Check.antt =====
-- What each check of the form accepts, and what it reports.
use firebase_login.Base.{
  ℕ, ◌≡◌, refl, sym, ap, ◌∙◌, ◌≤◌, ◌⊎◌, ◌↔◌, inl, inr, Option, none, some, true, false, [], ◌∷◌,
  ◌++◌, arith, length, Bool-cases, leb, ltb,
}
use firebase_login.Base.Text.{Text, ℤ, pos, negsuc, int_eq_iff}
use firebase_login.App.Client.{DataError}
use firebase_login.App.Form.{
  RequiredClientData, ViewModel, Check, is_valid_data, validate_full_name, is_name, is_age,
  validate_birth_day_date, compare_dates, check_age, set_birth_date,
}

-- The check answers yes and adds no error, or answers no and adds exactly one.
unfoldable pub Reports : {D : Type 0} → ViewModel D → Check D → Type 0
Reports m (answer, after) =
    ((answer ≡ true) × (after.errors ≡ m.errors))
    ⊎ ((answer ≡ false) × ((e : DataError) × (after.errors ≡ m.errors ++ (e ∷ []))))

is_age_iff : (y : ℤ) (a : Option ℤ) → (is_age y a ≡ true) ↔ (a ≡ some y)
is_age_iff y none = (λ h. cc, λ h. cc)
is_age_iff y (some a) = (λ h. ap some (sym ((int_eq_iff y a).0 h)), λ h. (int_eq_iff y a).1 cc)

module _ {D : Type 0} (years_between : D → D → ℤ) (now : D) (format : D → Text) where
  check_age-Reports : (y : ℤ) (m : ViewModel D) → Reports m (check_age years_between now format y m)
  unfolding Reports
  check_age-Reports (negsuc n) m = inr (refl, (DataError.birthday_to_young, refl))
  check_age-Reports (pos n) m = elim (Bool-cases (leb 13 n)) [
    | inl h ↦ elim (Bool-cases (leb 121 n)) [
      | inl k ↦ rw (h, k) (inr (refl, (DataError.birthday_to_old, refl)))
      | inr k ↦ rw (h, k) (inl (refl, refl))
    ]
    | inr h ↦
        let k : leb 121 n ≡ false = ground arith in
        rw (h, k) (inr (refl, (DataError.birthday_to_young, refl)))
  ]

  birthday-Reports :
      (d : D) (m : ViewModel D) → Reports m (validate_birth_day_date years_between now format d m)
  unfolding Reports validate_birth_day_date compare_dates
  birthday-Reports d m = elim (Bool-cases (is_age (years_between d now) (m.client.age))) [
    | inl h ↦ rw h (check_age-Reports (years_between d now) (set_birth_date (format d) m))
    | inr h ↦ rw h (inr (refl, (DataError.birthday_not_match, refl)))
  ]

  full_name-Reports :
      (s : Text) (wanted : RequiredClientData) (m : ViewModel D)
      → Reports m (validate_full_name s wanted m)
  unfolding Reports validate_full_name
  full_name-Reports s wanted m = elim (Bool-cases (ltb 2 (length s))) [
    | inl h ↦ elim (Bool-cases (is_name wanted)) [
      | inl k ↦ rw (h, k) (inl (refl, refl))
      | inr k ↦ rw (h, k) (inl (refl, refl))
    ]
    | inr h ↦ rw h (inr (refl, (_, refl)))
  ]

  -- Whatever is checked, the answer is yes and no error is added, or it is no and exactly one is
  -- added at the end of the list.
  pub is_valid_data-Reports :
      (s : Text) (d : D) (wanted : RequiredClientData) (m : ViewModel D)
      → Reports m (is_valid_data years_between now format s d wanted m)
  unfolding is_valid_data
  is_valid_data-Reports s d RequiredClientData.name m =
      full_name-Reports s RequiredClientData.name m
  is_valid_data-Reports s d RequiredClientData.last_name m =
      full_name-Reports s RequiredClientData.last_name m
  is_valid_data-Reports s d RequiredClientData.years m = birthday-Reports d m
  is_valid_data-Reports s d RequiredClientData.birthday m = birthday-Reports d m

  check_age_accepts :
      (y : ℤ) (m : ViewModel D)
      → ((check_age years_between now format y m).0 ≡ true)
        ↔ ((n : ℕ) × (y ≡ pos n) × (13 ≤ n) × (n ≤ 120))
  check_age_accepts (negsuc n) m = (λ h. cc, λ (n, e, _, _). cc)
  check_age_accepts (pos n) m =
      (λ h. (n, refl, ground arith, ground arith), λ (k, e, low, high). ground arith)

  -- A birthday is accepted exactly when the client has an age, from 13 to 120, and the calendar
  -- counts that many years from the date to now.
  pub is_valid_data_birthday :
      (s : Text) (d : D) (m : ViewModel D)
      → ((is_valid_data years_between now format s d RequiredClientData.birthday m).0 ≡ true) ↔ (
          (n : ℕ) × (m.client.age ≡ some (pos n))
          × (years_between d now ≡ pos n)
          × (13 ≤ n)
          × (n ≤ 120))
  unfolding is_valid_data validate_birth_day_date compare_dates
  is_valid_data_birthday s d m =
      let y = years_between d now in
      let m1 = set_birth_date (format d) m in
      elim (Bool-cases (is_age y (m.client.age))) [
        | inl h ↦
            let age = (is_age_iff y (m.client.age)).0 h in
            let accepts = check_age_accepts y m1 in
            rw h (
              λ t. let (n, e, low, high) = accepts.0 t in (n, age ∙ ap some e, e, low, high),
              λ (n, _, e, low, high). accepts.1 (n, e, low, high),
            )
        | inr h ↦ rw h (
          λ t. absurd (cc),
          λ (n, age, e, _, _).
              let h2 : is_age y (m.client.age) ≡ true =
                (is_age_iff y (m.client.age)).1 (age ∙ ap some (sym e)) in
              absurd (cc),
        )
      ]
