-- ===== src/Forms/UpdatePassword.antt =====
-- client/src/components/organisms/forms/UpdatePasswordForm/index.tsx: a new password by the old one.
pub mod Confined
pub mod Unconfirmed
use knowtfolio.Base.{
  String, Bool, true, false, ◌||◌, not, Option, none, some, List, [], ◌∷◌, ◌==◌, if◌then◌else◌,
  concat,
}
use knowtfolio.Base.Dict.{Dict, lookup}
use knowtfolio.Apis.Request.{JsError, value, change_password}
use knowtfolio.React.Program.{
  Async, ret, navigate, toast_success, toast_error, console_error, ◌>>=◌, ◌>>◌, ask, set_state,
  perform,
}
use knowtfolio.React.View.{View, heading, input, button}
use knowtfolio.React.World.{Component}
use knowtfolio.Forms.Validation.{FieldMessage, validate_form}

pub record UpdatePasswordForm : Type 0 where
  pub old_password : String
  pub password : String
  pub password_confirmation : String

pub record State : Type 0 where
  pub form : UpdatePasswordForm
  pub field_messages : Dict FieldMessage
  pub can_submit_form : Bool

abbrev pub initial : State
initial = record {
  form = record { old_password = ""; password = ""; password_confirmation = "" };
  field_messages = [];
  can_submit_form = false;
}

-- The part of the form that is validated.
abbrev pub entries : UpdatePasswordForm → Dict String
entries form =
    ("password", form.password) ∷ ("password_confirmation", form.password_confirmation) ∷ []

pub data Event : Type 0 where
  change_form : (name content : String) → Event
  submit_form : Event
  cancel : Event

-- The names of the `switch`.
abbrev pub is_field : String → Bool
is_field name = name == "password" || name == "old_password" || name == "password_confirmation"

-- `{ ...prev, [name]: content }`.
unfoldable pub set_field : String → String → UpdatePasswordForm → UpdatePasswordForm
set_field name content prev =
    if name == "password"
    then record prev { password = content }
    else if name == "old_password"
    then record prev { old_password = content }
    else if name == "password_confirmation"
    then record prev { password_confirmation = content }
    else prev

-- The effect on the form.
unfoldable pub validate_effect : UpdatePasswordForm → Async State (Unit {0})
validate_effect form = do
  validation ← validate_form (entries form)
  set_state (λ s. record s {
    field_messages = validation.field_messages;
    can_submit_form = validation.can_submit_form;
  })

-- A change of a field, and the effect of the form that it leaves.
unfoldable pub change : String → String → UpdatePasswordForm → Async State (Unit {0})
change name content form = do
  set_state (λ s. record s { form = set_field name content s.form })
  validate_effect (set_field name content form)

-- The callback of `changePassword`.
abbrev pub password_changed : Option JsError → Async State (Unit {0})
password_changed (some err) = do
  perform (console_error (value err.message))
  perform (toast_error "パスワードのアップデートに失敗しました。")
password_changed none = perform (toast_success "パスワードを更新しました。")

-- The user is the one of the context.
unfoldable pub submit : String → UpdatePasswordForm → Async State (Unit {0})
submit user form = do
  err ← ask (change_password user form.old_password form.password)
  password_changed err

unfoldable pub handle : String → Event → State → Async State (Unit {0})
handle user (change_form name content) s =
    if is_field name then change name content s.form else ret tt
handle user submit_form s = submit user s.form
handle user cancel s = perform (navigate (concat ("/users/" ∷ user ∷ [])) false)

unfoldable pub render : State → List (View FieldMessage Event)
unfolding lookup
render s =
    heading "パスワードを再設定する"
    ∷ input "old_password" (some s.form.old_password) false none (change_form "old_password")
    ∷ input "password" (some s.form.password) false (lookup "password" s.field_messages)
        (change_form "password")
    ∷ input "password_confirmation" (some s.form.password_confirmation) false
        (lookup "password_confirmation" s.field_messages) (change_form "password_confirmation")
    ∷ button "Submit" (not s.can_submit_form) submit_form
    ∷ button "Cancel" false cancel
    ∷ []

abbrev pub update_password_form : String → Component State FieldMessage Event
update_password_form user = record {
  initial = initial;
  mount = validate_effect initial.form;
  render = render;
  handle = handle user;
}
