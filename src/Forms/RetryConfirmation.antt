-- ===== src/Forms/RetryConfirmation.antt =====
-- client/src/components/organisms/forms/RetryConfirmationForm/index.tsx: another confirmation code.
pub mod Handlers
use knowtfolio.Base.{
  ℕ, String, Bool, true, false, Option, none, some, List, [], ◌∷◌, ◌++◌, ◌==◌, if◌then◌else◌,
  truthy, not,
}
use knowtfolio.Apis.Request.{Thrown, exception, value}
use knowtfolio.Apis.Cognito.{confirm_signing_up_to_cognito, resend_confirmation_code}
use knowtfolio.React.Program.{
  Async, navigate, toast_success, toast_error, ◌>>=◌, ◌>>◌, catch, set_state, perform,
}
use knowtfolio.React.View.{View, heading, input, button}

pub record State : Type 0 where
  pub username : String
  pub has_sent_code : Bool
  pub confirmation_code : String

abbrev pub initial : State
initial = record { username = ""; has_sent_code = false; confirmation_code = "" }

pub data Event : Type 0 where
  change_username : (content : String) → Event
  submit_username : Event
  change_code : (content : String) → Event
  verify_code : Event

-- The text for what `resendConfirmationCode` has thrown.
unfoldable pub resend_failure : Thrown → String
resend_failure (exception error) =
    if error.name == "UserNotFoundException"
    then "指定のユーザーは存在しません。"
    else if error.name == "LimitExceededException"
    then "時間をおいてから再度お試しください。"
    else "確認コードの再送信に失敗しました。"
resend_failure (value s) = "確認コードの再送信に失敗しました。"

unfoldable pub resend : String → Async State (Unit {0})
resend username =
    catch
      (do
        resend_confirmation_code username
        set_state (λ s. record s { has_sent_code = true })
        perform (toast_success "確認コードを再送信しました。"))
      (λ error. perform (toast_error (resend_failure error)))

unfoldable pub verify : String → String → Async State (Unit {0})
verify username confirmation_code =
    catch
      (do
        confirmed ← confirm_signing_up_to_cognito username confirmation_code
        perform (toast_success "確認コードの検証に成功しました。")
        perform (navigate "/signin" false))
      (λ error. perform (toast_error "確認コードの検証に失敗しました。"))

unfoldable pub handle : Event → State → Async State (Unit {0})
handle (change_username content) s = set_state (λ t. record t { username = content })
handle submit_username s = resend s.username
handle (change_code content) s = set_state (λ t. record t { confirmation_code = content })
handle verify_code s = verify s.username s.confirmation_code

-- `username.length === 0` holds of the empty text alone.
unfoldable pub render : State → List (View String Event)
render s =
    heading "確認コードの再送信"
    ∷ input "username" (some s.username) s.has_sent_code none change_username
    ∷ button "確認コードの再送信" (s.username == "") submit_username
    ∷ (if s.has_sent_code
        then input "confirmation_code" (some s.confirmation_code) false none change_code
          ∷ button "verify" false verify_code
          ∷ []
        else [])
