-- ===== src/App/Client.antt =====
-- FirebaseLogin/FirebaseLogin/Model/UserModel.swift and Resourses/Constants.swift: the record of a
-- client, and how it is written to and read from the database's dictionaries.
pub mod Codec
use firebase_login.Base.{ℕ, List, [], ◌∷◌, Option, none, some, if◌then◌else◌, Bool}
use firebase_login.Base.Text.{Text, text, text_eq, ℤ, pos}

pub record User : Type 0 where
  pub id : Option Text
  pub name : Option Text
  pub last_name : Option Text
  pub image : Option Text
  pub age : Option ℤ
  pub birth_date : Option Text

-- `User()`
abbrev pub empty_user : User
empty_user = record {
  id = none;
  name = none;
  last_name = none;
  image = none;
  age = none;
  birth_date = none;
}

-- What a dictionary's entry holds.
pub data Value : Type 0 where
  string : Text → Value
  number : ℤ → Value
  null : Value

abbrev pub Dictionary : Type 0
Dictionary = List (Text × Value)

unfoldable pub lookup : Text → Dictionary → Option Value
lookup key [] = none
lookup key ((k, v) ∷ rest) = if text_eq k key then some v else lookup key rest

-- `value ?? default`
abbrev pub or_else {ℓ} : {A : Type ℓ} → Option A → A → A
or_else none default = default
or_else (some a) default = a

-- `toDictionary`
unfoldable pub to_dictionary : User → Dictionary
to_dictionary u =
    (text "id", string (or_else u.id []))
    ∷ (text "name", string (or_else u.name []))
    ∷ (text "lastName", string (or_else u.last_name []))
    ∷ (text "years", number (or_else u.age (pos 0)))
    ∷ (text "birthDay", string (or_else u.birth_date []))
    ∷ []

-- A decoder's result: it throws where an entry has another type.
pub data Decoded {ℓ} (A : Type ℓ) : Type ℓ where
  ok : A → Decoded A
  mismatch : Decoded A

infixl 5 ◌>>=◌
abbrev pub ◌>>=◌ {ℓ κ} : {A : Type ℓ} {B : Type κ} → Decoded A → (A → Decoded B) → Decoded B
ok a >>= f = f a
mismatch >>= f = mismatch

-- `decodeIfPresent`: a missing key and a null give nil.
abbrev pub as_string : Option Value → Decoded (Option Text)
as_string none = ok none
as_string (some null) = ok none
as_string (some (string t)) = ok (some t)
as_string (some (number n)) = mismatch

abbrev pub as_int : Option Value → Decoded (Option ℤ)
as_int none = ok none
as_int (some null) = ok none
as_int (some (string t)) = mismatch
as_int (some (number n)) = ok (some n)

-- `User.init(from:)`, with the keys of `User.Keys`.
unfoldable pub from_decoder : Dictionary → Decoded User
unfolding lookup
from_decoder d = do
  id ← as_string (lookup (text "id") d)
  name ← as_string (lookup (text "name") d)
  last_name ← as_string (lookup (text "lastName") d)
  image ← as_string (lookup (text "image") d)
  age ← as_int (lookup (text "years") d)
  birth_date ← as_string (lookup (text "birthDate") d)
  ok (record {
    id = id;
    name = name;
    last_name = last_name;
    image = image;
    age = age;
    birth_date = birth_date;
  })

-- The constants.
abbrev pub k_min_age : ℕ
k_min_age = 13

abbrev pub k_max_age : ℕ
k_max_age = 120

abbrev pub k_min_string_to_accept : ℕ
k_min_string_to_accept = 2

abbrev pub proof_client_testable_id : Text
proof_client_testable_id = text "1234567890"

-- `DataError`
pub data DataError : Type 0 where
  name : DataError
  last_name : DataError
  birthday_to_young : DataError
  birthday_to_old : DataError
  birthday_not_match : DataError

-- Its `rawValue`.
unfoldable pub raw_value : DataError → Text
raw_value name = text "Wrong name, must contain more than 3 characters"
raw_value last_name = text "Wrong lastname, must contain more than 3 characters"
raw_value birthday_to_young = text "Must be over 13 years old"
raw_value birthday_to_old = text "Are you a dinosaur HaHaHa?"
raw_value birthday_not_match = text "Your age does not match the selected date"
