-- ===== src/App/Form/Page.antt =====
-- MainViewController.swift: the page, and what a tap on its save button does.
--
-- Blocks given to the main queue are kept in `pending`, in the order they run: the one second's
-- delay of `stopLoading` puts its block behind that of `startLoading`. The call of
-- `ServiceDataManager.saveClient` is an entry of `saved`.
pub mod Tap
pub mod Refusal
use firebase_login.Base.{List, [], ◌∷◌, ◌++◌, Option, none, some, if◌then◌else◌, Bool, true, false}
use firebase_login.Base.Text.{Text, text, ℤ}
use firebase_login.App.Client.{User, DataError, raw_value}
use firebase_login.App.Form.{
  RequiredClientData, ViewModel, Check, Color, error_color, default_color, is_valid_data, parse_int,
}

-- What the main queue still has to run.
pub data Task : Type 0 where
  disable : Task
  enable : Task

pub record Page (D : Type 0) : Type 0 where
  pub model : ViewModel D
  pub user_logged : Option User
  pub name_text : Option Text
  pub last_name_text : Option Text
  pub years_text : Option Text
  pub name_color : Color
  pub last_name_color : Color
  pub picker_tint : Color
  pub is_animating : Bool
  pub back_enabled : Bool
  pub save_enabled : Bool
  pub pending : List Task
  -- Each alert has a title and a message.
  pub alerts : List (Text × Text)
  pub saved : List (Text × User)

-- The blocks of `startLoading` and `stopLoading`.
unfoldable pub run_task : {D : Type 0} → Task → Page D → Page D
run_task disable p = record p { is_animating = true; back_enabled = false; save_enabled = false }
run_task enable p = record p { is_animating = false; back_enabled = true; save_enabled = true }

unfoldable pub run_tasks : {D : Type 0} → List Task → Page D → Page D
unfolding run_task
run_tasks [] p = p
run_tasks (t ∷ rest) p = run_tasks rest (run_task t p)

-- The main queue until it is empty.
unfoldable pub run_pending : {D : Type 0} → Page D → Page D
unfolding run_tasks
run_pending p = run_tasks (p.pending) (record p { pending = [] })

abbrev pub present : {D : Type 0} → Text → Text → Page D → Page D
present title message p = record p { alerts = p.alerts ++ ((title, message) ∷ []) }

-- The optional chain `userLogged?.id`.
abbrev pub id_of : Option User → Option Text
id_of none = none
id_of (some u) = u.id

abbrev pub answer_color : Bool → Color
answer_color answer = if answer then default_color else error_color

unfoldable pub start_loading : {D : Type 0} → Page D → Page D
start_loading p = record p { pending = p.pending ++ (disable ∷ []) }

unfoldable pub stop_loading : {D : Type 0} → Page D → Page D
stop_loading p = record p { pending = p.pending ++ (enable ∷ []) }

unfoldable pub set_years : {D : Type 0} → Option Text → Page D → Page D
set_years none p = p
set_years (some t) p = record p {
  model = record (p.model) { client = record (p.model.client) { age = parse_int t } };
}

unfoldable pub save_user : {D : Type 0} → Option Text → Page D → Page D
save_user none p = p
save_user (some uid) p = record p { saved = p.saved ++ ((uid, p.model.client) ∷ []) }

-- What the completion handler of `saveUser` shows, with the error's description.
unfoldable pub save_finished : {D : Type 0} → Option Text → Page D → Page D
save_finished none p = present (text "Success") (text "Client saved") p
save_finished (some description) p = present (text "Error") description p

unfoldable pub clear_data : {D : Type 0} → Page D → Page D
clear_data p = record p { name_text = some []; last_name_text = some []; years_text = some [] }

module _ {D : Type 0} (years_between : D → D → ℤ) (now : D) (format : D → Text)
    (capitalized : Text → Text) where
  -- `now` is also the default of the date, which a name's check does not read.
  abbrev pub check_text : Text → RequiredClientData → ViewModel D → Check D
  check_text t wanted m = is_valid_data years_between now format t now wanted m

  unfoldable pub validate_name : Option Text → Page D → Page D
  validate_name none p = p
  validate_name (some t) p =
      let (answer, m) = check_text t RequiredClientData.name (p.model) in
      record p { model = m; name_color = answer_color answer }

  unfoldable pub validate_last_name : Option Text → Page D → Page D
  validate_last_name none p = p
  validate_last_name (some t) p =
      let (answer, m) = check_text t RequiredClientData.last_name (p.model) in
      record p { model = m; last_name_color = answer_color answer }

  unfoldable pub validate_birthday : Page D → Page D
  validate_birthday p =
      let date = p.model.date_selected in
      let (answer, m) =
        is_valid_data years_between now format [] date RequiredClientData.birthday (p.model) in
      if answer
      then record p {
        model = record m { client = record (m.client) { birth_date = some (format date) } };
        picker_tint = default_color;
      }
      else record p { model = m; picker_tint = error_color }

  -- The text that `presentDataErrorsMessage` puts together.
  unfoldable pub separated_errors : Text → List DataError → Text
  separated_errors t [] = t
  separated_errors t (e ∷ rest) =
      separated_errors (t ++ capitalized (raw_value e) ++ text "\n") rest

  unfoldable pub present_data_errors_message : Page D → Page D
  unfolding separated_errors
  present_data_errors_message p =
      let shown = present (text "Error") (separated_errors [] (p.model.errors)) p in
      record shown { model = record (p.model) { errors = [] } }

  -- `checkValidationErrors`, on the list of the errors.
  unfoldable pub conclude : List DataError → Page D → Page D
  unfolding present_data_errors_message save_user clear_data stop_loading
  conclude [] p = stop_loading (clear_data (save_user (id_of (p.user_logged)) p))
  conclude (e ∷ rest) p = stop_loading (present_data_errors_message p)

  unfoldable pub check_validation_errors : Page D → Page D
  unfolding conclude
  check_validation_errors p = conclude (p.model.errors) p

  -- The checks of `saveButtonTapped`, in its order.
  unfoldable pub validate : Page D → Page D
  unfolding start_loading validate_name validate_last_name set_years validate_birthday
  validate p =
      let p1 = start_loading p in
      let p2 = validate_name (p1.name_text) p1 in
      let p3 = validate_last_name (p2.last_name_text) p2 in
      let p4 = set_years (p3.years_text) p3 in validate_birthday p4

  unfoldable pub save_button_tapped : Page D → Page D
  unfolding validate check_validation_errors
  save_button_tapped p = check_validation_errors (validate p)
