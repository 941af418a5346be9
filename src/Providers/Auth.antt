-- ===== src/Providers/Auth.antt =====
-- client/src/components/organisms/providers/AuthProvider/index.tsx: who is signed in.
pub mod Loading
pub mod Order
pub mod Granted
use knowtfolio.Base.{
  String, Bool, true, false, Option, none, some, List, [], ◌∷◌, truthy, truthy?, or_else,
  if◌then◌else◌,
}
use knowtfolio.Base.Dict.{Dict, lookup}
use knowtfolio.Apis.Request.{Session, error, exception}
use knowtfolio.Apis.Cognito.{load_session, load_attributes}
use knowtfolio.Apis.Dynamodb.{fetch_wallet_address}
use knowtfolio.React.Program.{
  Async, ret, throw, alert, console_error, set_state, perform, catch, when, ◌>>=◌, ◌>>◌,
}
use knowtfolio.React.View.{View, heading, text, link, listener}
use knowtfolio.React.World.{Component}

pub record UserAttributes : Type 0 where
  pub email : String
  pub website : Option String
  pub description : Option String
  pub picture : Option String

pub record AuthContext : Type 0 where
  pub user : String
  pub session : Session
  pub attributes : UserAttributes
  pub user_wallet_address : Option String

pub record State : Type 0 where
  pub auth : Option AuthContext
  pub has_loaded_session : Bool

abbrev pub initial : State
initial = record { auth = none; has_loaded_session = false }

-- A method of a session that is missing throws a TypeError; its text is the browser's.
abbrev pub require_session : {S : Type 0} → Option Session → Async S Session
require_session none =
    throw (exception (record { name = "TypeError"; message = "getIdToken"; json = "{}" }))
require_session (some session) = ret session

-- `if (!email) throw …`.
abbrev pub require_email : {S : Type 0} → Option String → Async S String
require_email none = throw (exception (error "Email is not registered."))
require_email (some email) =
    if truthy email then ret email else throw (exception (error "Email is not registered."))

-- The `try` block of `loadCurrentUser`.
unfoldable pub load_user : String → Async State (Unit {0})
load_user cognito_user = do
  loaded ← load_session cognito_user
  attributes ← load_attributes cognito_user
  session ← require_session loaded
  wallet ← fetch_wallet_address session.id_token cognito_user
  email ← require_email (lookup "email" attributes)
  set_state (λ s. record s {
    auth = some (record {
      user = cognito_user;
      session = session;
      attributes = record {
        email = email;
        website = lookup "website" attributes;
        description = lookup "custom:description" attributes;
        picture = lookup "picture" attributes;
      };
      user_wallet_address = wallet;
    });
  })

-- The argument is what `userPool.getCurrentUser()` returns.
unfoldable pub load_current_user : Option String → Async State (Unit {0})
load_current_user none = do
  set_state (λ s. record s { auth = none })
  set_state (λ s. record s { has_loaded_session = true })
load_current_user (some cognito_user) = do
  catch (load_user cognito_user)
      (λ error. do perform (console_error error); perform (alert "正常にログインできませんでした。"))
  set_state (λ s. record s { has_loaded_session = true })

-- The effect on the location's state.
unfoldable pub location_effect : Option Bool → Option String → Async State (Unit {0})
location_effect none current = ret tt
location_effect (some should_load_current_user) current =
    when should_load_current_user (load_current_user current)

pub data Content : Type 0 where
  while_loading_session : Content
  authenticated : AuthContext → Content
  on_unauthenticated : Content

unfoldable pub content : State → Content
content s =
    if s.has_loaded_session
    then elim s.auth [ none ↦ on_unauthenticated | some auth ↦ authenticated auth ]
    else while_loading_session

-- The provider's content, for its children and its two other contents.
abbrev pub provide : {A : Type 0} → (AuthContext → A) → A → A → State → A
provide children content_on_unauthenticated content_while_loading_session s = elim (content s) [
  | while_loading_session ↦ content_while_loading_session
  | authenticated auth ↦ children auth
  | on_unauthenticated ↦ content_on_unauthenticated
]

-- LoadingDisplay, less its spinner.
abbrev pub loading_display : {M E : Type 0} → Option String → List (View M E)
loading_display none = []
loading_display (some message) = if truthy message then text message ∷ [] else []

abbrev pub default_content_on_unauthenticated : {M E : Type 0} → List (View M E)
default_content_on_unauthenticated =
    heading "サインインが必要です"
    ∷ link "/signin" "こちら"
    ∷ text "からサインインできます"
    ∷ text "アカウントをお持ちでない方は"
    ∷ link "/signup" "こちら"
    ∷ text "からサインアップできます"
    ∷ []

abbrev pub default_content_while_loading_session : {M E : Type 0} → List (View M E)
default_content_while_loading_session = loading_display (some "認証中")

-- What makes the provider load the user: a change of the browser's storage, and a location that asks
-- for it. Each comes with what `userPool.getCurrentUser()` then returns.
pub data Event : Type 0 where
  storage_changed : (current : Option String) → Event
  load_asked : (current : Option String) → Event

unfoldable pub handle : Event → State → Async State (Unit {0})
handle (storage_changed current) s = load_current_user current
handle (load_asked current) s = location_effect (some true) current

-- The provider around nothing, on a location that asks for no load.
abbrev pub auth_provider : Option String → Component State String Event
auth_provider current = record {
  initial = initial;
  mount = load_current_user current;
  render = λ s. listener storage_changed ∷ listener load_asked ∷ [];
  handle = handle;
}
