-- ===== src/App/Store.antt =====
-- FirebaseLogin/FirebaseLogin/Service/ServiceDataManager.swift: where a client is written in the
-- database, and whether a user has any.
--
-- The database is Firebase's: an interface, with what the code relies on as its law.
pub mod Saved
use firebase_login.Base.{
  ◌≡◌, List, [], ◌∷◌, ◌++◌, Option, none, some, if◌then◌else◌, Bool, true, false,
}
use firebase_login.Base.Text.{Text, text}
use firebase_login.App.Client.{User, Dictionary, to_dictionary, proof_client_testable_id}

-- A path is the list of its keys. `set_value` is what a write that succeeds does; `child_key` is
-- the key that `childByAutoId` makes for a new child.
pub record Database (B : Type 0) : Type 0 where
  pub set_value : List Text → Dictionary → B → B
  pub children : List Text → B → List (Text × Dictionary)
  pub child_key : List Text → B → Text
  -- What was written under a path is among the children of that path.
  pub set_value-children :
      (path : List Text) (key : Text) (value : Dictionary) (b : B)
      → (before : List (Text × Dictionary)) × (after : List (Text × Dictionary)) × (children path
            (set_value (path ++ (key ∷ [])) value b)
          ≡ before ++ ((key, value) ∷ after))

-- `child(id).child(clientDbReference)`
abbrev pub clients_of : Text → List Text
clients_of id = id ∷ text "clients" ∷ []

module _ {B : Type 0} (database : Database B) where
  -- `dataBaseRef.key`
  unfoldable pub client_key : Bool → Text → B → Text
  client_key is_testable id b =
      if is_testable then proof_client_testable_id else database.child_key (clients_of id) b

  -- `saveClient`: the database after the write, and the error that the completion is called with.
  -- `refused` is the error that the write ends in, if it does.
  unfoldable pub save_client : Bool → Text → User → Option Text → B → B × Option Text
  unfolding client_key
  save_client is_testable id client none b =
      let key = client_key is_testable id b in
      let client_with_key = record client { id = some key } in
      (database.set_value (clients_of id ++ (key ∷ [])) (to_dictionary client_with_key) b, none)
  save_client is_testable id client (some refused) b = (b, some refused)

  -- `snapshots.count > 0`
  abbrev pub is_nonempty : List (Text × Dictionary) → Bool
  is_nonempty [] = false
  is_nonempty (c ∷ rest) = true

  unfoldable pub check_if_client_exist_in_db : Text → B → Bool
  check_if_client_exist_in_db id b = is_nonempty (database.children (clients_of id) b)
