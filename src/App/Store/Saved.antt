-- ===== src/App/Store/Saved.antt =====
-- A client that was saved is found, and reads back with the key it was saved under.
use firebase_login.Base.{◌≡◌, refl, ap, ◌∙◌, List, [], ◌∷◌, ◌++◌, none, some, Bool, true}
use firebase_login.Base.Text.{Text, pos}
use firebase_login.App.Client.{User, Dictionary, to_dictionary, from_decoder, ok, or_else}
use firebase_login.App.Client.Codec.{from_decoder-to_dictionary}
use firebase_login.App.Store.{
  Database, clients_of, client_key, save_client, check_if_client_exist_in_db, is_nonempty,
}

module _ {B : Type 0} (database : Database B) where
  found :
      (before after : List (Text × Dictionary)) (c : Text × Dictionary)
      → is_nonempty database (before ++ (c ∷ after)) ≡ true
  found [] after c = refl
  found (b ∷ before) after c = refl

  -- After a write that succeeds the completion gets no error, the user has a client, and one of
  -- the user's entries has the client's key and decodes to the client with that key as its id
  -- (less the image and the birth date, a missing text as "" and a missing age as 0).
  pub save_client-exists :
      (is_testable : Bool) (id : Text) (client : User) (b : B)
      → let (b1, answer) = save_client database is_testable id client none b in
        let key = client_key database is_testable id b in
        (answer ≡ none)
        × (check_if_client_exist_in_db database id b1 ≡ true)
        × ((before : List (Text × Dictionary)) × (after : List (Text × Dictionary))
            × (value : Dictionary) × (database.children (clients_of id) b1
                ≡ before ++ ((key, value) ∷ after))
            × (from_decoder value
                ≡ ok (record {
                  id = some key;
                  name = some (or_else client.name []);
                  last_name = some (or_else client.last_name []);
                  image = none;
                  age = some (or_else client.age (pos 0));
                  birth_date = none;
                })))
  unfolding save_client check_if_client_exist_in_db
  save_client-exists is_testable id client b =
      let key = client_key database is_testable id b in
      let saved : User = record client { id = some key } in
      let value = to_dictionary saved in
      let (before, after, e) = database.set_value-children (clients_of id) key value b in
      (
        refl,
        ap (is_nonempty database) e ∙ found before after (key, value),
        (before, after, value, e, from_decoder-to_dictionary saved),
      )
