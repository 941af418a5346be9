-- ===== src/Forms/ResetPassword.antt =====
-- client/src/components/organisms/forms/ResetPasswordForm/index.tsx: a new password by a code.
pub mod Offered
pub mod Username
pub mod Handlers
pub mod Blocked
use knowtfolio.Base.{
  String, Bool, true, false, ◌||◌, not, Option, none, some, List, [], ◌∷◌, ◌==◌, if◌then◌else◌,
}
use knowtfolio.Base.Dict.{Dict, lookup}
use knowtfolio.Apis.Cognito.{
  ResetPasswordForm, send_password_reset_verification_code, reset_password,
}
use knowtfolio.React.Program.{
  Async, ret, navigate, toast_success, toast_error, console_error, ◌>>=◌, ◌>>◌, catch, set_state,
  perform,
}
use knowtfolio.React.View.{View, heading, input, button}
use knowtfolio.React.World.{Component}
use knowtfolio.Forms.Validation.{FieldMessage, validate_form}

pub record State : Type 0 where
  pub form : ResetPasswordForm
  pub field_messages : Dict FieldMessage
  pub can_submit_form : Bool
  pub has_sent_code : Bool

abbrev pub initial : State
initial = record {
  form = record {
    username = "";
    password = "";
    password_confirmation = "";
    verification_code = "";
  };
  field_messages = [];
  can_submit_form = false;
  has_sent_code = false;
}

-- `Object.keys(form)` and `form[key]`: the form is validated with its username and its code.
abbrev pub entries : ResetPasswordForm → Dict String
entries form =
    ("username", form.username)
    ∷ ("password", form.password)
    ∷ ("password_confirmation", form.password_confirmation)
    ∷ ("verification_code", form.verification_code)
    ∷ []

pub data Event : Type 0 where
  change_form : (name content : String) → Event
  submit_username : Event
  submit_password_reset_form : Event

-- The names of the `switch`.
abbrev pub is_field : String → Bool
is_field name =
    name == "username"
    || name == "password"
    || name == "password_confirmation"
    || name == "verification_code"

-- `{ ...prev, [name]: content }`.
unfoldable pub set_field : String → String → ResetPasswordForm → ResetPasswordForm
set_field name content prev =
    if name == "username"
    then record prev { username = content }
    else if name == "password"
    then record prev { password = content }
    else if name == "password_confirmation"
    then record prev { password_confirmation = content }
    else if name == "verification_code"
    then record prev { verification_code = content }
    else prev

-- The effect on `form`.
unfoldable pub validate_effect : ResetPasswordForm → Async State (Unit {0})
validate_effect form = do
  validation ← validate_form (entries form)
  set_state (λ s. record s {
    field_messages = validation.field_messages;
    can_submit_form = validation.can_submit_form;
  })

-- A change of a field, and the effect of the form that it leaves.
unfoldable pub change : String → String → ResetPasswordForm → Async State (Unit {0})
change name content form = do
  set_state (λ s. record s { form = set_field name content s.form })
  validate_effect (set_field name content form)

unfoldable pub send_code : String → Async State (Unit {0})
send_code username =
    catch
      (do
        send_password_reset_verification_code username
        set_state (λ s. record s { has_sent_code = true })
        perform (toast_success "検証コードを送信しました。"))
      (λ error. do perform (console_error error); perform (toast_error "検証コードの送信に失敗しました。"))

unfoldable pub submit : ResetPasswordForm → Async State (Unit {0})
submit form =
    catch
      (do
        reset_password form
        perform (toast_success "パスワードを再設定しました。")
        perform (navigate "/signin" false))
      (λ error. do perform (console_error error); perform (toast_error "パスワードの再設定に失敗しました。"))

unfoldable pub handle : Event → State → Async State (Unit {0})
handle (change_form name content) s = if is_field name then change name content s.form else ret tt
handle submit_username s = send_code s.form.username
handle submit_password_reset_form s = submit s.form

-- The part of the page that needs `hasSentCode`.
abbrev pub password_section : State → List (View FieldMessage Event)
password_section s =
    if s.has_sent_code
    then input "verification_code" (some s.form.verification_code) (not s.has_sent_code) none
        (change_form "verification_code")
      ∷ input "password" (some s.form.password) (not s.has_sent_code)
          (lookup "password" s.field_messages) (change_form "password")
      ∷ input "password_confirmation" (some s.form.password_confirmation) (not s.has_sent_code)
          (lookup "password_confirmation" s.field_messages) (change_form "password_confirmation")
      ∷ button "Submit" (not s.can_submit_form || not s.has_sent_code) submit_password_reset_form
      ∷ []
    else []

unfoldable pub render : State → List (View FieldMessage Event)
unfolding lookup
render s =
    heading "パスワードを再設定する"
    ∷ input "username" (some s.form.username) s.has_sent_code none (change_form "username")
    ∷ button "検証コードを送信" s.has_sent_code submit_username
    ∷ password_section s

abbrev pub reset_password_form : Component State FieldMessage Event
reset_password_form = record {
  initial = initial;
  mount = validate_effect initial.form;
  render = render;
  handle = handle;
}
