-- ===== src/App/Form/Page/Tap.antt =====
-- What a tap on the save button saves, shows and leaves behind.
use firebase_login.Base.{
  ℕ, ◌≡◌, refl, ap, ◌∙◌, ◌≤◌, inl, inr, Option, none, some, Option-cases, true, false, List, [],
  ◌∷◌, ◌++◌, arith, length, Bool-cases, ltb, leb, ◌==◌,
}
use firebase_login.Base.Text.{Text, ℤ, pos}
use firebase_login.App.Client.{DataError}
use firebase_login.App.Form.{
  RequiredClientData, default_color, is_valid_data, parse_int, validate_full_name,
  validate_birth_day_date, compare_dates,
}
use firebase_login.App.Form.Page.{
  Page, id_of, run_pending, run_tasks, run_task, Task, validate, start_loading, stop_loading,
  save_user, clear_data, check_validation_errors, conclude, save_button_tapped,
  present_data_errors_message, validate_name, validate_last_name, set_years, validate_birthday,
}

module _ {D : Type 0} (years_between : D → D → ℤ) (now : D) (format : D → Text)
    (capitalized : Text → Text) where
  -- What the last step does not depend on the branch it takes for.
  conclude-errors :
      (es : List DataError) (q : Page D)
      → q.model.errors ≡ es
      → (conclude years_between now format capitalized es q).model.errors ≡ []
  unfolding conclude present_data_errors_message save_user clear_data stop_loading
  conclude-errors [] q h = elim (Option-cases (id_of (q.user_logged))) [
    | inl k ↦ rw k h
    | inr (uid, k) ↦ rw k h
  ]
  conclude-errors (e ∷ es) q h = refl

  conclude-pending :
      (es : List DataError) (q : Page D)
      → (conclude years_between now format capitalized es q).pending
        ≡ q.pending ++ (Task.enable ∷ [])
  unfolding conclude present_data_errors_message save_user clear_data stop_loading
  conclude-pending [] q = elim (Option-cases (id_of (q.user_logged))) [
    | inl k ↦ rw k refl
    | inr (uid, k) ↦ rw k refl
  ]
  conclude-pending (e ∷ es) q = refl

  birthday-pending :
      (q : Page D) → (validate_birthday years_between now format capitalized q).pending ≡ q.pending
  unfolding validate_birthday
  birthday-pending q =
      let date = q.model.date_selected in
      let check =
        is_valid_data years_between now format [] date RequiredClientData.birthday (q.model) in
      elim (Bool-cases (check.0)) [ inl h ↦ rw h refl | inr h ↦ rw h refl ]

  years-pending : (t : Option Text) (q : Page D) → (set_years t q).pending ≡ q.pending
  unfolding set_years
  years-pending none q = refl
  years-pending (some t) q = refl

  last_name-pending :
      (t : Option Text) (q : Page D)
      → (validate_last_name years_between now format capitalized t q).pending ≡ q.pending
  unfolding validate_last_name
  last_name-pending none q = refl
  last_name-pending (some t) q = refl

  name-pending :
      (t : Option Text) (q : Page D)
      → (validate_name years_between now format capitalized t q).pending ≡ q.pending
  unfolding validate_name
  name-pending none q = refl
  name-pending (some t) q = refl

  validate-pending :
      (q : Page D)
      → (validate years_between now format capitalized q).pending ≡ q.pending ++ (Task.disable ∷ [])
  unfolding validate start_loading
  validate-pending q =
      let p1 = start_loading q in
      let p2 = validate_name years_between now format capitalized (p1.name_text) p1 in
      let p3 = validate_last_name years_between now format capitalized (p2.last_name_text) p2 in
      let p4 = set_years (p3.years_text) p3 in
      birthday-pending p4
      ∙ years-pending (p3.years_text) p3
      ∙ last_name-pending (p2.last_name_text) p2
      ∙ name-pending (p1.name_text) p1

  -- What each check does to the page where it accepts.
  name_accepted :
      (t : Text) (q : Page D)
      → 3 ≤ length t
      → validate_name years_between now format capitalized (some t) q ≡ record q {
        model = record (q.model) { client = record (q.model.client) { name = some t } };
        name_color = default_color;
      }
  unfolding validate_name is_valid_data validate_full_name
  name_accepted t q h = let long : ltb 2 (length t) ≡ true = ground arith in rw long refl

  last_name_accepted :
      (t : Text) (q : Page D)
      → 3 ≤ length t
      → validate_last_name years_between now format capitalized (some t) q ≡ record q {
        model = record (q.model) { client = record (q.model.client) { last_name = some t } };
        last_name_color = default_color;
      }
  unfolding validate_last_name is_valid_data validate_full_name
  last_name_accepted t q h = let long : ltb 2 (length t) ≡ true = ground arith in rw long refl

  birthday_accepted :
      (n : ℕ) (q : Page D)
      → q.model.client.age ≡ some (pos n)
      → years_between (q.model.date_selected) now ≡ pos n
      → 13 ≤ n
      → n ≤ 120
      → validate_birthday years_between now format capitalized q ≡ record q {
        model = record (q.model) {
          client = record (q.model.client) { birth_date = some (format (q.model.date_selected)) };
        };
        picker_tint = default_color;
      }
  unfolding validate_birthday is_valid_data validate_birth_day_date compare_dates
  birthday_accepted n q age years low high =
      let same : (n == n) ≡ true = ground arith in
      let old_enough : leb 13 n ≡ true = ground arith in
      let young_enough : leb 121 n ≡ false = ground arith in
      rw (years, age, same, old_enough, young_enough) refl

module _ {D : Type 0} (years_between : D → D → ℤ) (now : D) (format : D → Text)
    (capitalized : Text → Text) (p : Page D) where
  abbrev tap : Page D
  tap = save_button_tapped years_between now format capitalized p

  abbrev checked : Page D
  checked = validate years_between now format capitalized p

  validate_accepted :
      (first last typed : Text) (n : ℕ)
      → p.name_text ≡ some first
      → 3 ≤ length first
      → p.last_name_text ≡ some last
      → 3 ≤ length last
      → p.years_text ≡ some typed
      → parse_int typed ≡ some (pos n)
      → years_between (p.model.date_selected) now ≡ pos n
      → 13 ≤ n
      → n ≤ 120
      → checked ≡ record (start_loading p) {
        model = record (p.model) {
          client = record (p.model.client) {
            name = some first;
            last_name = some last;
            age = some (pos n);
            birth_date = some (format (p.model.date_selected));
          };
        };
        name_color = default_color;
        last_name_color = default_color;
        picker_tint = default_color;
      }
  unfolding validate start_loading set_years
  validate_accepted first last typed n h1 h2 h3 h4 h5 h6 h7 h8 h9 =
      let p1 : Page D = start_loading p in
      let p2 : Page D = record p1 {
        model = record (p.model) { client = record (p.model.client) { name = some first } };
        name_color = default_color;
      } in
      let p3 : Page D = record p2 {
        model = record (p2.model) { client = record (p2.model.client) { last_name = some last } };
        last_name_color = default_color;
      } in
      let p4 : Page D = record p3 {
        model = record (p3.model) { client = record (p3.model.client) { age = some (pos n) } };
      } in
      let last_step : Page D → Page D =
        λ q. validate_last_name years_between now format capitalized (q.last_name_text) q in
      let years_step : Page D → Page D = λ q. set_years (q.years_text) q in
      let date_step : Page D → Page D = validate_birthday years_between now format capitalized in
      let e1 : validate_name years_between now format capitalized (p1.name_text) p1 ≡ p2 =
        ap (λ t. validate_name years_between now format capitalized t p1) h1
        ∙ name_accepted years_between now format capitalized first p1 h2 in
      let e2 : last_step p2 ≡ p3 =
        ap (λ t. validate_last_name years_between now format capitalized t p2) h3
        ∙ last_name_accepted years_between now format capitalized last p2 h4 in
      let e3 : years_step p3 ≡ p4 = rw (h5, h6) refl in
      ap (λ q. date_step (years_step (last_step q))) e1
      ∙ ap (λ q. date_step (years_step q)) e2
      ∙ ap date_step e3
      ∙ birthday_accepted years_between now format capitalized n p4 refl h7 h8 h9

  -- After a tap no error is left in the list, whatever was typed and however many there were.
  pub save_button_tapped-errors : tap.model.errors ≡ []
  unfolding save_button_tapped check_validation_errors
  save_button_tapped-errors =
      conclude-errors years_between now format capitalized (checked.model.errors) checked refl

  -- Where no block was waiting, the page is usable again once the main queue has run: the loader
  -- is still, and both buttons are enabled. This holds whether the data were saved or refused.
  pub save_button_tapped-enabled :
      p.pending ≡ []
      → let after = run_pending tap in
        (after.is_animating ≡ false) × (after.back_enabled ≡ true) × (after.save_enabled ≡ true)
  unfolding save_button_tapped check_validation_errors run_pending run_tasks run_task
  save_button_tapped-enabled idle =
      let ends =
        conclude-pending years_between now format capitalized (checked.model.errors) checked in
      let starts = validate-pending years_between now format capitalized p in
      rw (ends, starts, idle) (refl, refl, refl)

  -- With the errors of no earlier check, names of 3 or more characters, an age from 13 to 120
  -- in the years' field and a date the calendar counts as many years from, a tap of a user with an
  -- id saves one client, with exactly these data in it, and shows no alert.
  pub save_button_tapped_saves :
      (first last typed uid : Text) (n : ℕ)
      → p.model.errors ≡ []
      → p.name_text ≡ some first
      → 3 ≤ length first
      → p.last_name_text ≡ some last
      → 3 ≤ length last
      → p.years_text ≡ some typed
      → parse_int typed ≡ some (pos n)
      → years_between (p.model.date_selected) now ≡ pos n
      → 13 ≤ n
      → n ≤ 120
      → id_of (p.user_logged) ≡ some uid
      → (tap.alerts ≡ p.alerts)
        × (tap.saved
            ≡ p.saved
              ++ ((
                uid,
                record (p.model.client) {
                  name = some first;
                  last_name = some last;
                  age = some (pos n);
                  birth_date = some (format (p.model.date_selected));
                },
              )
                  ∷ []))
  unfolding save_button_tapped check_validation_errors conclude stop_loading clear_data save_user
  save_button_tapped_saves first last typed uid n clean h1 h2 h3 h4 h5 h6 h7 h8 h9 h10 =
      rw (validate_accepted first last typed n h1 h2 h3 h4 h5 h6 h7 h8 h9, clean, h10) (refl, refl)
