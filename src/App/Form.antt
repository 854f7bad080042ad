-- ===== src/App/Form.antt =====
-- FirebaseLogin/FirebaseLogin/View/Main: the form of a new client. MainViewController.swift is the
-- page, ViewModel/MainViewControllerViewModel.swift its checks.
--
-- A text is the list of its characters. Dates, the calendar's difference in years, the date
-- formatter and `capitalized` are the system's: they are parameters.
pub mod Check
pub mod Page
use firebase_login.Base.{
  ℕ, zero, suc, ◌+◌, ◌-◌, ◌*◌, ◌^◌, List, [], ◌∷◌, ◌++◌, Option, none, some, if◌then◌else◌, Bool,
  true, false, not, ◌&&◌, leb, ltb, ◌==◌, length,
}
use firebase_login.Base.Text.{Text, text, ℤ, pos, negsuc, int_eq, at_least, more_than}
use firebase_login.App.Client.{
  User, DataError, raw_value, k_min_age, k_max_age, k_min_string_to_accept,
}

-- `RequiredClientData`
pub data RequiredClientData : Type 0 where
  name : RequiredClientData
  last_name : RequiredClientData
  years : RequiredClientData
  birthday : RequiredClientData

-- `Int(text)`: an optional sign and decimal digits, of a number that fits in 64 bits.
abbrev pub digits_value : ℕ → Text → Option ℕ
digits_value n [] = some n
digits_value n (c ∷ rest) =
    if leb 48 c && leb c 57 then digits_value (n * 10 + (c - 48)) rest else none

abbrev pub negated : ℕ → ℤ
negated zero = pos 0
negated (suc n) = negsuc n

abbrev pub up_to : ℕ → (ℕ → ℤ) → Option ℕ → Option ℤ
up_to most f none = none
up_to most f (some n) = if leb n most then some (f n) else none

abbrev pub unsigned : Text → Option ℕ
unsigned [] = none
unsigned (c ∷ rest) = digits_value 0 (c ∷ rest)

unfoldable pub parse_int : Text → Option ℤ
parse_int [] = none
parse_int (c ∷ rest) =
    if c == 43
    then up_to (2 ^ 63 - 1) pos (unsigned rest)
    else if c == 45
    then up_to (2 ^ 63) negated (unsigned rest)
    else up_to (2 ^ 63 - 1) pos (unsigned (c ∷ rest))

pub data Color : Type 0 where
  red : Color
  label : Color

-- `years == client.age`
abbrev pub is_age : ℤ → Option ℤ → Bool
is_age y none = false
is_age y (some age) = int_eq y age

-- `MainViewControllerViewModel`
pub record ViewModel (D : Type 0) : Type 0 where
  pub errors : List DataError
  pub date_selected : D
  pub client : User

abbrev pub append_error : {D : Type 0} → DataError → ViewModel D → ViewModel D
append_error e m = record m { errors = m.errors ++ (e ∷ []) }

abbrev pub set_birth_date : {D : Type 0} → Text → ViewModel D → ViewModel D
set_birth_date t m = record m { client = record (m.client) { birth_date = some t } }

abbrev pub error_color : Color
error_color = Color.red

abbrev pub default_color : Color
default_color = Color.label

-- A check's answer, and the view model after it.
abbrev pub Check : Type 0 → Type 0
Check D = Bool × ViewModel D

-- `type == .name`
abbrev pub is_name : RequiredClientData → Bool
is_name name = true
is_name _ = false

-- `validateFullName`
unfoldable pub validate_full_name : {D : Type 0} → Text → RequiredClientData → ViewModel D → Check D
validate_full_name t wanted m =
    if ltb k_min_string_to_accept (length t)
    then (
      true,
      if is_name wanted
          then record m { client = record (m.client) { name = some t } }
          else record m { client = record (m.client) { last_name = some t } },
    )
    else (false, append_error (if is_name wanted then DataError.name else DataError.last_name) m)

module _ {D : Type 0} (years_between : D → D → ℤ) (now : D) (format : D → Text) where
  -- `compareDates`
  unfoldable pub compare_dates : D → ℤ
  compare_dates date = years_between date now

  abbrev pub check_age : ℤ → ViewModel D → Check D
  check_age y m =
      let has_required_years = at_least k_min_age y in
      let is_too_old = more_than k_max_age y in
      let m1 = if not has_required_years then append_error DataError.birthday_to_young m else m in
      let m2 = if is_too_old then append_error DataError.birthday_to_old m1 else m1 in
      (has_required_years && not is_too_old, m2)

  -- `validateBirthDayDate`
  unfoldable pub validate_birth_day_date : D → ViewModel D → Check D
  unfolding compare_dates
  validate_birth_day_date date m =
      let m1 = set_birth_date (format date) m in
      let y = compare_dates date in
      if not (is_age y (m1.client.age))
      then (false, append_error DataError.birthday_not_match m1)
      else check_age y m1

  -- `isValidData`; every type but the two names is checked as a birthday
  unfoldable pub is_valid_data : Text → D → RequiredClientData → ViewModel D → Check D
  is_valid_data data_string date RequiredClientData.name m =
      validate_full_name data_string RequiredClientData.name m
  is_valid_data data_string date RequiredClientData.last_name m =
      validate_full_name data_string RequiredClientData.last_name m
  is_valid_data data_string date RequiredClientData.years m = validate_birth_day_date date m
  is_valid_data data_string date RequiredClientData.birthday m = validate_birth_day_date date m
