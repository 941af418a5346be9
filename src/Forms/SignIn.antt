-- ===== src/Forms/SignIn.antt =====
-- client/src/components/organisms/forms/SignInForm/index.tsx: the sign-in by password or wallet.
pub mod Handlers
pub mod Challenges
use knowtfolio.Base.{
  ℕ, String, Bool, true, false, ◌||◌, Option, none, some, List, [], ◌∷◌, ◌++◌, ◌==◌, if◌then◌else◌,
  concat,
}
use knowtfolio.Apis.Cognito.{sign_in_to_cognito_with_password, sign_in_to_cognito_with_wallet}
use knowtfolio.React.Program.{
  Async, ret, navigate, toast_success, toast_error, console_error, open_window,
  call_connect_metamask, ◌>>=◌, ◌>>◌, catch, set_state, perform,
}
use knowtfolio.React.View.{View, heading, text, link, wallet, input, button}
use knowtfolio.Providers.Web3.{Web3Context, assert_metamask, connect_button, require_web3}

-- The form `signInWithPasswordForm`, which is all of the state.
pub record State : Type 0 where
  pub username : String
  pub password : String

abbrev pub initial : State
initial = record { username = ""; password = "" }

pub data Event : Type 0 where
  change_form : (name content : String) → Event
  submit_password : Event
  submit_wallet : Event
  connect : Event
  install : Event

-- `{ ...prev, [name]: content }` for the names of the `switch`.
unfoldable pub set_field : String → String → State → State
set_field name content prev =
    if name == "username"
    then record prev { username = content }
    else if name == "password"
    then record prev { password = content }
    else prev

unfoldable pub sign_in_with_password : State → Async State (Unit {0})
sign_in_with_password form =
    catch
      (do
        token ← sign_in_to_cognito_with_password form.username form.password
        perform (navigate (concat ("/users/" ∷ form.username ∷ [])) true)
        perform (toast_success "サインインしました。"))
      (λ error. do perform (console_error error); perform (toast_error "サインインに失敗しました。"))

-- The number bounds the challenges that Cognito sets in a row.
unfoldable pub sign_in_with_wallet : ℕ → Web3Context → State → Async State (Unit {0})
sign_in_with_wallet rounds context form =
    catch
      (do
        assert_metamask context.is_connected_to_metamask
        token ← sign_in_to_cognito_with_wallet rounds form.username context.account
        perform (navigate (concat ("/users/" ∷ form.username ∷ [])) true)
        perform (toast_success "サインインしました。"))
      (λ error. do perform (console_error error); perform (toast_error "サインインに失敗しました。"))

unfoldable pub handle : ℕ → Web3Context → Event → State → Async State (Unit {0})
handle rounds context (change_form name content) s =
    if name == "username" || name == "password"
    then set_state (λ prev. set_field name content prev)
    else ret tt
handle rounds context submit_password s = sign_in_with_password s
handle rounds context submit_wallet s = sign_in_with_wallet rounds context s
handle rounds context connect s = perform call_connect_metamask
handle rounds context install s = perform (open_window "https://metamask.io/download/")

unfoldable pub render : Web3Context → State → List (View String Event)
render context s =
    heading "サインイン"
    ∷ input "username" (some s.username) false none (change_form "username")
    ∷ input "password" (some s.password) false none (change_form "password")
    ∷ button "Sign in" false submit_password
    ∷ text "OR"
    ∷ (require_web3 context.is_connected_to_metamask
          (text "Connected wallet address"
            ∷ wallet context.account false
            ∷ button "Sign in with metamask" false submit_wallet
            ∷ [])
          (text "Connect to Metamask" ∷ connect_button context connect install ∷ [])
        ++ text "パスワードを忘れた方は"
          ∷ link "/reset-password" "パスワード再設定"
          ∷ text "まだアカウントを持っていない方は"
          ∷ link "/signup" "サインアップ"
          ∷ [])
