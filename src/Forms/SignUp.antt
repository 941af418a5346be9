-- ===== src/Forms/SignUp.antt =====
-- client/src/components/organisms/forms/SignUpForm/index.tsx: the sign-up form.
pub mod Frozen
pub mod Handlers
pub mod Races
pub mod Reachable
use knowtfolio.Base.{
  String, Bool, true, false, ◌||◌, not, Option, none, some, List, [], ◌∷◌, ◌++◌, ◌==◌,
  if◌then◌else◌, concat,
}
use knowtfolio.Base.Dict.{Dict, lookup}
use knowtfolio.Apis.Request.{error_text}
use knowtfolio.Apis.Cognito.{
  SignUpForm, sign_up_to_cognito, confirm_signing_up_to_cognito, sign_in_to_cognito_with_password,
}
use knowtfolio.React.Program.{
  Async, ret, navigate, toast_success, toast_error, ◌>>=◌, ◌>>◌, catch, set_state, perform,
}
use knowtfolio.React.View.{View, heading, input, button, text, link}
use knowtfolio.React.World.{Component}
use knowtfolio.Forms.Validation.{FieldMessage, Validation, validate_form}

pub record State : Type 0 where
  pub form : SignUpForm
  pub field_messages : Dict FieldMessage
  pub can_submit_form : Bool
  pub has_signed_up : Bool
  pub code : String

abbrev pub initial : State
initial = record {
  form = record { email = ""; password = ""; password_confirmation = ""; username = "" };
  field_messages = [];
  can_submit_form = false;
  has_signed_up = false;
  code = "";
}

-- `Object.keys(form)` and `form[key]`.
abbrev pub entries : SignUpForm → Dict String
entries form =
    ("email", form.email)
    ∷ ("password", form.password)
    ∷ ("password_confirmation", form.password_confirmation)
    ∷ ("username", form.username)
    ∷ []

pub data Event : Type 0 where
  change_form : (name content : String) → Event
  submit_form : Event
  change_code_input : (content : String) → Event
  verify_code : Event

-- The names of the `switch`.
abbrev pub is_field : String → Bool
is_field name =
    name == "password" || name == "username" || name == "email" || name == "password_confirmation"

-- `{ ...prev, [name]: content }`.
unfoldable pub set_field : String → String → SignUpForm → SignUpForm
set_field name content prev =
    if name == "password"
    then record prev { password = content }
    else if name == "username"
    then record prev { username = content }
    else if name == "email"
    then record prev { email = content }
    else if name == "password_confirmation"
    then record prev { password_confirmation = content }
    else prev

-- The effect on `form`.
unfoldable pub validate_effect : SignUpForm → Async State (Unit {0})
validate_effect form = do
  validation ← validate_form (entries form)
  set_state (λ s. record s {
    field_messages = validation.field_messages;
    can_submit_form = validation.can_submit_form;
  })

-- A change of a field, and the effect of the form that it leaves.
unfoldable pub change : String → String → SignUpForm → Async State (Unit {0})
change name content form = do
  set_state (λ s. record s { form = set_field name content s.form })
  validate_effect (set_field name content form)

unfoldable pub submit : SignUpForm → Async State (Unit {0})
submit form =
    catch
      (do
        user ← sign_up_to_cognito form
        set_state (λ s. record s { has_signed_up = true })
        perform (toast_success "登録したEmailに確認コードを送信しました。"))
      (λ error. perform (toast_error (concat ("sign up failed: " ∷ error_text error ∷ []))))

-- The second `try` of `verifyCode`.
unfoldable pub sign_in_after : SignUpForm → Async State (Unit {0})
sign_in_after form =
    catch
      (do
        token ← sign_in_to_cognito_with_password form.username form.password
        perform (toast_success "サインインしました。")
        perform (navigate "/settings/wallet" true))
      (λ error. perform (toast_error "サインインに失敗しました。"))

-- The first `try`, by whether it was left without its `return`.
unfoldable pub confirm_code : SignUpForm → String → Async State Bool
confirm_code form code =
    catch
      (do
        confirmed ← confirm_signing_up_to_cognito form.username code
        perform (toast_success "確認コードの検証に成功しました。")
        ret true)
      (λ error. do perform (toast_error "確認コードの検証に失敗しました。"); ret false)

unfoldable pub verify : SignUpForm → String → Async State (Unit {0})
verify form code = do
  confirmed ← confirm_code form code
  if confirmed then sign_in_after form else ret tt

unfoldable pub handle : Event → State → Async State (Unit {0})
handle (change_form name content) s = if is_field name then change name content s.form else ret tt
handle submit_form s = submit s.form
handle (change_code_input content) s = set_state (λ t. record t { code = content })
handle verify_code s = verify s.form s.code

-- The part of the page that needs `hasSignedUp`.
abbrev pub code_section : State → List (View FieldMessage Event)
code_section s =
    if s.has_signed_up
    then input "confirmation_code" (some s.code) false none change_code_input
      ∷ button "verify" false verify_code
      ∷ []
    else []

-- The username's input has no value of the form's: it shows what is typed.
unfoldable pub render : State → List (View FieldMessage Event)
unfolding lookup
render s =
    heading "サインアップ"
    ∷ input "username" none s.has_signed_up (lookup "username" s.field_messages)
        (change_form "username")
    ∷ input "email" (some s.form.email) s.has_signed_up (lookup "email" s.field_messages)
        (change_form "email")
    ∷ input "password" (some s.form.password) s.has_signed_up (lookup "password" s.field_messages)
        (change_form "password")
    ∷ input "password_confirmation" (some s.form.password_confirmation) s.has_signed_up
        (lookup "password_confirmation" s.field_messages) (change_form "password_confirmation")
    ∷ button "Submit" (not s.can_submit_form || s.has_signed_up) submit_form
    ∷ (code_section s
        ++ text "すでにアカウントを持っている方は"
          ∷ link "/signin" "サインイン"
          ∷ text "確認コードの再送信は"
          ∷ link "/retry-confirmation" "こちら"
          ∷ [])

abbrev pub sign_up_form : Component State FieldMessage Event
sign_up_form = record {
  initial = initial;
  mount = validate_effect initial.form;
  render = render;
  handle = handle;
}
