-- ===== src/App/Tests.antt =====
-- Runs of the app at concrete inputs. A date is a year, and the calendar counts from the first of
-- January.
use firebase_login.Base.{
  ℕ, ◌-◌, ◌≤◌, ◌≡◌, ◌≢◌, ◌↔◌, refl, sym, ap, ◌∙◌, List, [], ◌∷◌, ◌++◌, Option, none, some, true,
  false, if◌then◌else◌, arith,
}
use firebase_login.Base.Text.{Text, text, text_eq, text_eq_refl, ℤ, pos}
use firebase_login.App.Client.{User, empty_user, Dictionary, from_decoder, ok, to_dictionary}
use firebase_login.App.Client.Codec.{from_decoder-to_dictionary}
use firebase_login.App.Form.{RequiredClientData, ViewModel, Color, is_valid_data, parse_int}
use firebase_login.App.Form.Check.{Reports, is_valid_data-Reports, is_valid_data_birthday}
use firebase_login.App.Form.Page.{Page, save_button_tapped, run_pending}
use firebase_login.App.Form.Page.Tap.{save_button_tapped-enabled, save_button_tapped_saves}
use firebase_login.App.Form.Page.Refusal.{save_button_tapped_refuses}
use firebase_login.App.Login.{LoginResult, new_page, view_did_load, facebook_tapped, login_finished}
use firebase_login.App.Login.Reach.{loaded, IsValid, Reachable-IsValid, login_finished-button}
use firebase_login.App.Store.{
  Database, clients_of, client_key, save_client, check_if_client_exist_in_db,
}
use firebase_login.App.Store.Saved.{save_client-exists}

abbrev years : ℕ → ℕ → ℤ
years born now = pos (now - born)

abbrev format : ℕ → Text
format year = year ∷ []

abbrev same : Text → Text
same t = t

abbrev dustin : User
dustin = record empty_user { name = some (text "Dustin"); age = some (pos 18) }

abbrev eleven : User
eleven = record empty_user { id = some (text "uid") }

abbrev model : ViewModel ℕ
model = record { errors = []; date_selected = 2003; client = dustin }

abbrev page : Page ℕ
page = record {
  model = model;
  user_logged = some eleven;
  name_text = some (text "Dustin");
  last_name_text = some (text "Henderson");
  years_text = some (text "18");
  name_color = Color.label;
  last_name_color = Color.label;
  picker_tint = Color.label;
  is_animating = false;
  back_enabled = true;
  save_enabled = true;
  pending = [];
  alerts = [];
  saved = [];
}

run-parse_int : parse_int (text "18") ≡ some (pos 18)
unfolding parse_int
run-parse_int = refl

from_decoder-to_dictionary_example :
    from_decoder (to_dictionary dustin)
    ≡ ok (record {
      id = some [];
      name = some (text "Dustin");
      last_name = some [];
      image = none;
      age = some (pos 18);
      birth_date = none;
    })
from_decoder-to_dictionary_example = from_decoder-to_dictionary dustin

is_valid_data-Reports_example :
    Reports model (is_valid_data years 2021 format (text "Du") 2003 RequiredClientData.name model)
is_valid_data-Reports_example =
    is_valid_data-Reports years 2021 format (text "Du") 2003 RequiredClientData.name model

is_valid_data_birthday_example :
    ((is_valid_data years 2021 format [] 2003 RequiredClientData.birthday model).0 ≡ true)
    ↔ ((n : ℕ) × (some (pos 18) ≡ some (pos n)) × (pos 18 ≡ pos n) × (13 ≤ n) × (n ≤ 120))
is_valid_data_birthday_example = is_valid_data_birthday years 2021 format [] 2003 model

save_button_tapped-enabled_example :
    let after = run_pending (save_button_tapped years 2021 format same page) in
    (after.is_animating ≡ false) × (after.back_enabled ≡ true) × (after.save_enabled ≡ true)
save_button_tapped-enabled_example = save_button_tapped-enabled years 2021 format same page refl

save_button_tapped_saves_example :
    let after = save_button_tapped years 2021 format same page in
    (after.alerts ≡ [])
    × (after.saved
        ≡ (
          text "uid",
          record dustin {
            name = some (text "Dustin");
            last_name = some (text "Henderson");
            age = some (pos 18);
            birth_date = some (2003 ∷ []);
          },
        )
          ∷ [])
save_button_tapped_saves_example =
    save_button_tapped_saves years 2021 format same page (text "Dustin") (text "Henderson")
      (text "18") (text "uid") 18 refl refl (omega arith) refl (omega arith) refl run-parse_int refl
      (omega arith) (omega arith) refl

one_nonempty : {A : Type 0} (a : A) → a ∷ [] ≢ []
one_nonempty a e = cc

something_saved : (save_button_tapped years 2021 format same page).saved ≢ []
something_saved e = one_nonempty _ (sym (save_button_tapped_saves_example.1) ∙ e)

save_button_tapped_refuses_example :
    (3 ≤ 6)
    × (3 ≤ 9)
    × ((n : ℕ) × (parse_int (text "18") ≡ some (pos n)) × (pos 18 ≡ pos n) × (13 ≤ n) × (n ≤ 120))
save_button_tapped_refuses_example =
    save_button_tapped_refuses years 2021 format same page (text "Dustin") (text "Henderson")
      (text "18") refl refl refl something_saved

Reachable-IsValid_example : IsValid (view_did_load (some eleven) new_page)
Reachable-IsValid_example =
    Reachable-IsValid (view_did_load (some eleven) new_page) (loaded (some eleven))

login_finished-button_example :
    ((login_finished
        (LoginResult.failed (text "offline"))
        (facebook_tapped new_page)).button_enabled
      ≡ true)
    ↔ (LoginResult.failed (text "offline") ≡ LoginResult.cancelled)
login_finished-button_example = login_finished-button (LoginResult.failed (text "offline")) new_page

-- A database that is the list of its writes, the last one first.
abbrev Writes : Type 0
Writes = List (List Text × Dictionary)

-- The last key of a path that has one key more than the other.
abbrev child_of : List Text → List Text → Option Text
child_of [] [] = none
child_of [] (k ∷ []) = some k
child_of [] (k ∷ l ∷ rest) = none
child_of (p ∷ path) [] = none
child_of (p ∷ path) (q ∷ rest) = if text_eq p q then child_of path rest else none

abbrev add_child : Option Text → Dictionary → List (Text × Dictionary) → List (Text × Dictionary)
add_child none value rest = rest
add_child (some k) value rest = (k, value) ∷ rest

abbrev list_children : List Text → Writes → List (Text × Dictionary)
list_children path [] = []
list_children path ((q, value) ∷ rest) = add_child (child_of path q) value (list_children path rest)

child_of-append : (path : List Text) (k : Text) → child_of path (path ++ (k ∷ [])) ≡ some k
child_of-append [] k = refl
child_of-append (p ∷ path) k = rw (text_eq_refl p) (child_of-append path k)

abbrev writes : Database Writes
writes = record {
  set_value = λ path value b. (path, value) ∷ b;
  children = list_children;
  child_key = λ path b. text "auto";
  set_value-children = λ path key value b. (
    [],
    list_children path b,
    ap (λ k. add_child k value (list_children path b)) (child_of-append path key),
  );
}

save_client-exists_example :
    let (b1, answer) = save_client writes false (text "uid") dustin none [] in
    let key = client_key writes false (text "uid") [] in
    (answer ≡ none)
    × (check_if_client_exist_in_db writes (text "uid") b1 ≡ true)
    × ((before : List (Text × Dictionary)) × (after : List (Text × Dictionary))
        × (value : Dictionary) × (list_children (clients_of (text "uid")) b1
            ≡ before ++ ((key, value) ∷ after))
        × (from_decoder value
            ≡ ok (record {
              id = some key;
              name = some (text "Dustin");
              last_name = some [];
              image = none;
              age = some (pos 18);
              birth_date = none;
            })))
save_client-exists_example = save_client-exists writes false (text "uid") dustin []
