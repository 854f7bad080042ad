-- ===== src/App/Form/Page/Refusal.antt =====
-- MainViewController.swift: what must have been typed for a tap to save anything.
use firebase_login.Base.{
  ℕ, ◌≡◌, ◌≢◌, refl, sym, ap, ◌∙◌, ◌≤◌, inl, inr, some, true, List, [], ◌∷◌, ◌++◌, length,
  Bool-cases, ltb, ltb→lt,
}
use firebase_login.Base.Text.{Text, ℤ, pos}
use firebase_login.App.Client.{DataError}
use firebase_login.App.Form.{
  RequiredClientData, ViewModel, is_valid_data, parse_int, validate_full_name, is_name, Check,
}
use firebase_login.App.Form.Check.{Reports, is_valid_data-Reports, is_valid_data_birthday}
use firebase_login.App.Form.Page.{
  Page, validate, start_loading, stop_loading, check_validation_errors, save_button_tapped,
  conclude, present_data_errors_message, validate_name, validate_last_name, set_years,
  validate_birthday,
}

append_one_nonempty : {A : Type 0} (xs : List A) (a : A) → xs ++ (a ∷ []) ≢ []
append_one_nonempty [] a h = cc
append_one_nonempty (x ∷ xs) a h = cc

-- A check that leaves no error accepted, and there was none before it.
Reports-clean :
    {D : Type 0} (m : ViewModel D) (c : Check D)
    → Reports m c
    → c.1.errors ≡ []
    → (m.errors ≡ []) × (c.0 ≡ true)
unfolding Reports
Reports-clean m (answer, after) (inl (h, same)) clean = (sym same ∙ clean, h)
Reports-clean m (answer, after) (inr (h, (e, one_more))) clean =
    absurd (append_one_nonempty (m.errors) e (sym one_more ∙ clean))

full_name_long :
    {D : Type 0} (t : Text) (wanted : RequiredClientData) (m : ViewModel D)
    → (validate_full_name t wanted m).0 ≡ true
    → 3 ≤ length t
unfolding validate_full_name
full_name_long t wanted m h = elim (Bool-cases (ltb 2 (length t))) [
  | inl k ↦ ltb→lt 2 (length t) k
  | inr k ↦ absurd (cc)
]

full_name-date :
    {D : Type 0} (t : Text) (wanted : RequiredClientData) (m : ViewModel D)
    → (validate_full_name t wanted m).1.date_selected ≡ m.date_selected
unfolding validate_full_name
full_name-date t wanted m = elim (Bool-cases (ltb 2 (length t))) [
  | inl k ↦ elim (Bool-cases (is_name wanted)) [ inl n ↦ rw (k, n) refl | inr n ↦ rw (k, n) refl ]
  | inr k ↦ rw k refl
]

module _ {D : Type 0} (years_between : D → D → ℤ) (now : D) (format : D → Text)
    (capitalized : Text → Text) where
  birthday_clean :
      (q : Page D)
      → (validate_birthday years_between now format capitalized q).model.errors ≡ []
      → (q.model.errors ≡ [])
        × ((n : ℕ) × (q.model.client.age ≡ some (pos n))
            × (years_between (q.model.date_selected) now ≡ pos n)
            × (13 ≤ n)
            × (n ≤ 120))
  unfolding validate_birthday
  birthday_clean q clean =
      let date = q.model.date_selected in
      let birthday = RequiredClientData.birthday in
      let check = is_valid_data years_between now format [] date birthday (q.model) in
      let same : (validate_birthday years_between now format capitalized q).model.errors
          ≡ check.1.errors =
        elim (Bool-cases (check.0)) [ inl h ↦ rw h refl | inr h ↦ rw h refl ] in
      let reports = is_valid_data-Reports years_between now format [] date birthday (q.model) in
      let (before, yes_) = Reports-clean (q.model) check reports (sym same ∙ clean) in
      (before, (is_valid_data_birthday years_between now format [] date (q.model)).0 yes_)

  birthday-saved :
      (q : Page D) → (validate_birthday years_between now format capitalized q).saved ≡ q.saved
  unfolding validate_birthday
  birthday-saved q =
      let date = q.model.date_selected in
      let check =
        is_valid_data years_between now format [] date RequiredClientData.birthday (q.model) in
      elim (Bool-cases (check.0)) [ inl h ↦ rw h refl | inr h ↦ rw h refl ]

  -- The page after the checks, where the three fields hold texts.
  abbrev names_checked : Text → Text → Page D → Page D
  names_checked first last p =
      validate_last_name years_between now format capitalized (some last)
        (validate_name years_between now format capitalized (some first) (start_loading p))

  abbrev all_checked : Text → Text → Text → Page D → Page D
  all_checked first last typed p =
      validate_birthday years_between now format capitalized
        (set_years (some typed) (names_checked first last p))

  validate_typed :
      (p : Page D) (first last typed : Text)
      → p.name_text ≡ some first
      → p.last_name_text ≡ some last
      → p.years_text ≡ some typed
      → validate years_between now format capitalized p ≡ all_checked first last typed p
  unfolding validate start_loading validate_name validate_last_name set_years
  validate_typed p first last typed h1 h2 h3 = rw (h1, h2, h3) refl

  all_checked-saved :
      (first last typed : Text) (p : Page D) → (all_checked first last typed p).saved ≡ p.saved
  unfolding start_loading validate_name validate_last_name set_years
  all_checked-saved first last typed p =
      birthday-saved (set_years (some typed) (names_checked first last p))

  all_checked_clean :
      (first last typed : Text) (p : Page D)
      → (all_checked first last typed p).model.errors ≡ []
      → (3 ≤ length first)
        × (3 ≤ length last)
        × ((n : ℕ) × (parse_int typed ≡ some (pos n))
            × (years_between (p.model.date_selected) now ≡ pos n)
            × (13 ≤ n)
            × (n ≤ 120))
  unfolding start_loading validate_name validate_last_name set_years is_valid_data
  all_checked_clean first last typed p clean =
      let one = RequiredClientData.name in
      let two = RequiredClientData.last_name in
      let m1 : ViewModel D = (validate_full_name first one (p.model)).1 in
      let (clean2, (n, age, years, low, high)) =
        birthday_clean (set_years (some typed) (names_checked first last p)) clean in
      let (clean1, long2) =
        Reports-clean m1 (validate_full_name last two m1)
          (is_valid_data-Reports years_between now format last now two m1) clean2 in
      let (_, long1) =
        Reports-clean (p.model) (validate_full_name first one (p.model))
          (is_valid_data-Reports years_between now format first now one (p.model)) clean1 in
      let date : (validate_full_name last two m1).1.date_selected ≡ p.model.date_selected =
        full_name-date last two m1 ∙ full_name-date first one (p.model) in
      (
        full_name_long first one (p.model) long1,
        full_name_long last two m1 long2,
        (n, age, sym (ap (λ d. years_between d now) date) ∙ years, low, high),
      )

  conclude_refuses :
      (es : List DataError) (q : Page D)
      → (conclude years_between now format capitalized es q).saved ≢ q.saved
      → es ≡ []
  unfolding conclude stop_loading present_data_errors_message
  conclude_refuses [] q changed = refl
  conclude_refuses (e ∷ es) q changed = absurd (changed refl)

  -- Where the three fields hold texts, a tap saves something only if both names have 3 or more characters, the years' field holds
  -- a number from 13 to 120, and the calendar counts that many years from the selected date.
  pub save_button_tapped_refuses :
      (p : Page D) (first last typed : Text)
      → p.name_text ≡ some first
      → p.last_name_text ≡ some last
      → p.years_text ≡ some typed
      → (save_button_tapped years_between now format capitalized p).saved ≢ p.saved
      → (3 ≤ length first)
        × (3 ≤ length last)
        × ((n : ℕ) × (parse_int typed ≡ some (pos n))
            × (years_between (p.model.date_selected) now ≡ pos n)
            × (13 ≤ n)
            × (n ≤ 120))
  unfolding save_button_tapped check_validation_errors
  save_button_tapped_refuses p first last typed h1 h2 h3 changed =
      let q = validate years_between now format capitalized p in
      let typed_in = validate_typed p first last typed h1 h2 h3 in
      let saved : q.saved ≡ p.saved =
        ap (λ r. r.saved) typed_in ∙ all_checked-saved first last typed p in
      let clean = conclude_refuses (q.model.errors) q (λ same. changed (same ∙ saved)) in
      all_checked_clean first last typed p (sym (ap (λ r. r.model.errors) typed_in) ∙ clean)
