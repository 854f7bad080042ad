-- ===== src/App/Login.antt =====
-- FirebaseLogin/FirebaseLogin/View/Login/LoginViewController.swift with
-- Service/ServiceLoginManager.swift: the login page and the callbacks of a login.
--
-- Facebook's and Firebase's SDKs answer later: `waiting` holds the calls they owe. What they answer
-- is the argument of the function that models their callback.
pub mod Reach
use firebase_login.Base.{
  List, [], ◌∷◌, ◌++◌, Option, none, some, if◌then◌else◌, Bool, true, false, not,
}
use firebase_login.Base.Text.{Text, text}
use firebase_login.App.Client.{User, empty_user}

-- `LoginMethod`
pub data LoginMethod : Type 0 where
  facebook : LoginMethod
  no_method : LoginMethod

-- The answers of `LoginManager.logIn`: a token's text, where there is a token.
pub data LoginResult : Type 0 where
  success : Option Text → LoginResult
  cancelled : LoginResult
  failed : Text → LoginResult

-- A call that is still to come.
pub data Callback : Type 0 where
  log_in : Callback
  sign_in : Text → Callback
  later : User → Callback

-- `logs_out` holds where the alert's button calls `logOut`.
pub record Alert : Type 0 where
  pub message : Text
  pub logs_out : Bool

pub record LoginPage : Type 0 where
  pub is_initial_view : Bool
  pub is_animating : Bool
  pub button_enabled : Bool
  pub button_hidden : Bool
  pub waiting : List Callback
  pub alerts : List Alert
  -- The users whose main page was pushed.
  pub pushed : List User

-- The page before `viewDidLoad`.
abbrev pub new_page : LoginPage
new_page = record {
  is_initial_view = true;
  is_animating = false;
  button_enabled = true;
  button_hidden = false;
  waiting = [];
  alerts = [];
  pushed = [];
}

unfoldable pub start_loading : LoginPage → LoginPage
start_loading p = record p { is_animating = true; button_enabled = false }

unfoldable pub stop_loading : LoginPage → LoginPage
stop_loading p = record p { is_animating = false; button_enabled = true }

abbrev pub wait_for : Callback → LoginPage → LoginPage
wait_for c p = record p { waiting = p.waiting ++ (c ∷ []) }

abbrev pub present : Text → Bool → LoginPage → LoginPage
present message logs_out p = record p {
  alerts = p.alerts ++ (record { message = message; logs_out = logs_out } ∷ []);
}

unfoldable pub go_to_main : User → LoginPage → LoginPage
unfolding stop_loading
go_to_main user p =
    let p1 = stop_loading (record p { is_initial_view = false }) in
    record p1 { pushed = p1.pushed ++ (user ∷ []) }

unfoldable pub setup_default_view : LoginPage → LoginPage
unfolding stop_loading
setup_default_view p = stop_loading p

-- `viewModel.userLogged` is the argument.
unfoldable pub setup_view_with_current_user : Option User → LoginPage → LoginPage
unfolding setup_default_view
setup_view_with_current_user (some user) p = wait_for (later user) p
setup_view_with_current_user none p = setup_default_view p

unfoldable pub setup_view : Option User → Bool → LoginPage → LoginPage
unfolding setup_default_view setup_view_with_current_user
setup_view user active_user p =
    let p1 = record p { button_hidden = active_user } in
    if active_user then setup_view_with_current_user user p1 else setup_default_view p1

-- `isUserActive`
abbrev pub is_user_active : Option User → Bool
is_user_active none = false
is_user_active (some user) = true

unfoldable pub view_did_load : Option User → LoginPage → LoginPage
unfolding start_loading setup_view
view_did_load user p = setup_view user (is_user_active user) (start_loading p)

unfoldable pub view_will_appear : LoginPage → LoginPage
unfolding setup_view
view_will_appear p = if not (p.is_initial_view) then setup_view none false p else p

-- `login(provider:delegate:)`, whose other providers do nothing
unfoldable pub login : LoginMethod → LoginPage → LoginPage
login facebook p = wait_for log_in p
login no_method p = p

unfoldable pub facebook_tapped : LoginPage → LoginPage
unfolding start_loading login
facebook_tapped p = login facebook (start_loading p)

-- The callback of `facebookLogin`.
unfoldable pub login_finished : LoginResult → LoginPage → LoginPage
unfolding stop_loading
login_finished (success (some token)) p = wait_for (sign_in token) p
login_finished (success none) p = present (text "An error ocurred. Try again later") false p
login_finished cancelled p = stop_loading p
login_finished (failed description) p = present description true p

-- The callback of `tryloginWithFacebook`: an error's description and a user, if there are any.
unfoldable pub sign_in_finished : Option Text → Option User → LoginPage → LoginPage
unfolding go_to_main
sign_in_finished none none p = p
sign_in_finished (some description) none p = present description true p
sign_in_finished none (some user) p = go_to_main user p
sign_in_finished (some description) (some user) p = go_to_main user (present description true p)
