-- ===== src/App/Login/Reach.antt =====
-- The pages that a run can reach, and what holds on each of them.
use firebase_login.Base.{
  ◌≡◌, ◌≢◌, ◌↔◌, inl, inr, refl, sym, ap, ◌∙◌, List, [], ◌∷◌, ◌++◌, Option, none, some, true, false,
  not, Bool-cases,
}
use firebase_login.Base.Text.{Text}
use firebase_login.App.Client.{User}
use firebase_login.App.Login.{
  LoginPage, LoginResult, Callback, new_page, start_loading, stop_loading, present, view_did_load,
  view_will_appear, facebook_tapped, login, login_finished, sign_in_finished, go_to_main,
  setup_view, setup_default_view, setup_view_with_current_user,
}

-- The call that comes next is taken off the waiting ones.
abbrev answered : List Callback → LoginPage → LoginPage
answered rest p = record p { waiting = rest }

-- What can happen to the page. A button that is disabled cannot be tapped.
pub data Step : LoginPage → LoginPage → Type 0 where
  appear : {p : LoginPage} → Step p (view_will_appear p)
  tap : {p : LoginPage} → p.button_enabled ≡ true → Step p (facebook_tapped p)
  logged_in :
      {p : LoginPage} {rest : List Callback} (r : LoginResult)
      → p.waiting ≡ Callback.log_in ∷ rest
      → Step p (login_finished r (answered rest p))
  signed_in :
      {p : LoginPage} {rest : List Callback} (token : Text) (e : Option Text) (user : Option User)
      → p.waiting ≡ Callback.sign_in token ∷ rest
      → Step p (sign_in_finished e user (answered rest p))
  shown :
      {p : LoginPage} {rest : List Callback} (user : User)
      → p.waiting ≡ Callback.later user ∷ rest
      → Step p (go_to_main user (answered rest p))

-- A run starts with `viewDidLoad`, for the user who is signed in, if any.
pub data Reachable : LoginPage → Type 0 where
  loaded : (user : Option User) → Reachable (view_did_load user new_page)
  next : {p q : LoginPage} → Reachable p → Step p q → Reachable q

-- The loader turns exactly while the button is disabled, and until the first main page nothing is
-- waited for while the button is enabled, and at most one call at any time.
unfoldable pub IsValid : LoginPage → Type 0
IsValid p =
    (p.is_animating ≡ not (p.button_enabled))
    × (p.is_initial_view ≡ true → p.button_enabled ≡ true → p.waiting ≡ [])
    × (p.is_initial_view ≡ true
        → (c : Callback) (rest : List Callback) → p.waiting ≡ c ∷ rest
        → rest ≡ [])

cons_nonempty : (c : Callback) (rest : List Callback) → c ∷ rest ≢ []
cons_nonempty c rest e = cc

false≢true : false ≢ true
false≢true e = cc

loaded-IsValid : (user : Option User) → IsValid (view_did_load user new_page)
unfolding IsValid view_did_load setup_view setup_default_view setup_view_with_current_user
    start_loading stop_loading
loaded-IsValid none = (refl, λ _ _. refl, λ _ c rest e. cc)
loaded-IsValid (some user) = (refl, λ _ e. cc, λ _ c rest e. cc)

-- Taking the only call off leaves nothing to wait for.
answered_alone :
    (p : LoginPage) (c : Callback) (rest : List Callback)
    → IsValid p
    → p.waiting ≡ c ∷ rest
    → p.is_initial_view ≡ true
    → rest ≡ []
unfolding IsValid
answered_alone p c rest (_, _, alone) w initial = alone initial c rest w

answered-IsValid :
    (p : LoginPage) (c : Callback) (rest : List Callback)
    → IsValid p
    → p.waiting ≡ c ∷ rest
    → IsValid (answered rest p)
unfolding IsValid
answered-IsValid p c rest (turns, idle, alone) w = (
  turns,
  λ i _. alone i c rest w,
  λ i d more e. absurd (cons_nonempty d more (sym e ∙ alone i c rest w)),
)

stop_loading-IsValid :
    (p : LoginPage) → (p.is_initial_view ≡ true → p.waiting ≡ []) → IsValid (stop_loading p)
unfolding IsValid stop_loading
stop_loading-IsValid p none_left =
    (refl, λ i _. none_left i, λ i d more e. absurd (cons_nonempty d more (sym e ∙ none_left i)))

go_to_main-IsValid : (user : User) (p : LoginPage) → IsValid (go_to_main user p)
unfolding IsValid go_to_main stop_loading
go_to_main-IsValid user p = (refl, λ i. absurd (false≢true i), λ i. absurd (false≢true i))

appear-IsValid : (p : LoginPage) → IsValid p → IsValid (view_will_appear p)
unfolding IsValid view_will_appear setup_view setup_default_view stop_loading
appear-IsValid p (turns, idle, alone) = elim (Bool-cases (p.is_initial_view)) [
  | inl h ↦ rw h (turns, λ _. idle h, λ _. alone h)
  | inr h ↦ rw h (refl, λ i. absurd (false≢true i), λ i. absurd (false≢true i))
]

tap-IsValid : (p : LoginPage) → IsValid p → p.button_enabled ≡ true → IsValid (facebook_tapped p)
unfolding IsValid facebook_tapped login start_loading
tap-IsValid p (_, idle, _) enabled = (
  refl,
  λ _ e. absurd (false≢true e),
  λ i c rest e.
      let one : Callback.log_in ∷ [] ≡ c ∷ rest =
        ap (λ ws. ws ++ (Callback.log_in ∷ [])) (sym (idle i enabled)) ∙ e in
      cc,
)

login_finished-IsValid :
    (r : LoginResult) (p : LoginPage)
    → IsValid p
    → (p.is_initial_view ≡ true → p.waiting ≡ [])
    → (p.is_initial_view ≡ true → p.button_enabled ≡ false)
    → IsValid (login_finished r p)
unfolding IsValid login_finished
login_finished-IsValid (LoginResult.success (some token)) p (turns, _, _) none_left off = (
  turns,
  λ i e. absurd (false≢true (sym (off i) ∙ e)),
  λ i c rest e.
      let one : Callback.sign_in token ∷ [] ≡ c ∷ rest =
        ap (λ ws. ws ++ (Callback.sign_in token ∷ [])) (sym (none_left i)) ∙ e in
      cc,
)
login_finished-IsValid (LoginResult.success none) p v _ _ = v
login_finished-IsValid LoginResult.cancelled p v none_left _ = stop_loading-IsValid p none_left
login_finished-IsValid (LoginResult.failed description) p v _ _ = v

sign_in_finished-IsValid :
    (e : Option Text) (user : Option User) (p : LoginPage)
    → IsValid p
    → IsValid (sign_in_finished e user p)
unfolding sign_in_finished IsValid
sign_in_finished-IsValid none none p v = v
sign_in_finished-IsValid (some description) none p v = v
sign_in_finished-IsValid none (some user) p v = go_to_main-IsValid user p
sign_in_finished-IsValid (some description) (some user) p v =
    go_to_main-IsValid user (present description true p)

-- While a call is waited for, the button is disabled.
waiting_off :
    (p : LoginPage) (c : Callback) (rest : List Callback)
    → IsValid p
    → p.waiting ≡ c ∷ rest
    → p.is_initial_view ≡ true
    → p.button_enabled ≡ false
unfolding IsValid
waiting_off p c rest (_, idle, _) w i = elim (Bool-cases (p.button_enabled)) [
  | inl h ↦ absurd (cons_nonempty c rest (sym w ∙ idle i h))
  | inr h ↦ h
]

Step-IsValid : {p q : LoginPage} → Step p q → IsValid p → IsValid q
Step-IsValid {p} appear v = appear-IsValid p v
Step-IsValid {p} (tap enabled) v = tap-IsValid p v enabled
Step-IsValid {p} (logged_in {rest = rest} r w) v =
    login_finished-IsValid r (answered rest p) (answered-IsValid p _ rest v w)
      (answered_alone p _ rest v w) (waiting_off p _ rest v w)
Step-IsValid {p} (signed_in {rest = rest} token e user w) v =
    sign_in_finished-IsValid e user (answered rest p) (answered-IsValid p _ rest v w)
Step-IsValid {p} (shown {rest = rest} user w) v = go_to_main-IsValid user (answered rest p)

-- On every page that a run reaches the loader turns exactly while the button is disabled, and until
-- the first main page at most one call is waited for, and none while the button is enabled.
pub Reachable-IsValid : (p : LoginPage) → Reachable p → IsValid p
Reachable-IsValid p (loaded user) = loaded-IsValid user
Reachable-IsValid p (next r s) = Step-IsValid s (Reachable-IsValid _ r)

-- When the answer to a tapped login comes, the button is enabled again if and only if the login
-- was cancelled: a login that failed or gave no token leaves it disabled.
pub login_finished-button :
    (r : LoginResult) (p : LoginPage)
    → ((login_finished r (facebook_tapped p)).button_enabled ≡ true) ↔ (r ≡ LoginResult.cancelled)
unfolding login_finished facebook_tapped start_loading login stop_loading
login_finished-button (LoginResult.success (some token)) p = (λ e. cc, λ e. cc)
login_finished-button (LoginResult.success none) p = (λ e. cc, λ e. cc)
login_finished-button LoginResult.cancelled p = (λ e. refl, λ e. refl)
login_finished-button (LoginResult.failed description) p = (λ e. cc, λ e. cc)
