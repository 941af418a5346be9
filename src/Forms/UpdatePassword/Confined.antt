-- ===== src/Forms/UpdatePassword/Confined.antt =====
-- What the password update form sends, at any time.
use knowtfolio.Base.{String, Option, none, some, ◌≡◌, refl, All}
use knowtfolio.Base.Dict.{lookup, without}
use knowtfolio.Apis.Request.{JsError, Request, validate_form, change_password}
use knowtfolio.Apis.Lambda.{validate_sign_up_form}
use knowtfolio.React.Run.{Event, sent, did}
use knowtfolio.React.World.{World, Reach, mounted}
use knowtfolio.React.World.Does.{Does, does_rules, mounted-AllWell}
use knowtfolio.Forms.Validation.{validate_form as validate_entries}
use knowtfolio.Forms.UpdatePassword.{
  State, UpdatePasswordForm, change_form, submit_form, cancel, Event as FormEvent, entries,
  validate_effect, change, password_changed, submit, handle, update_password_form,
}

-- The request validates a form without the old password and the confirmation, or changes the
-- password of that user.
abbrev pub IsOwn : String → Request → Type 0
IsOwn user (validate_form url body) =
    (url ≡ "/api/validate_sign_up_form")
    × (lookup "old_password" body ≡ none)
    × (lookup "password_confirmation" body ≡ none)
IsOwn user (change_password username old_password password) = username ≡ user
IsOwn user _ = ⊥

module _ (user : String) where
  abbrev Sends : Event → Type 0
  Sends (sent q) = IsOwn user q
  Sends (did e) = Unit

  body-IsOwn :
      (form : UpdatePasswordForm)
      → Sends (
          sent (
            validate_form "/api/validate_sign_up_form"
              (without "password_confirmation" (entries form))))
  unfolding lookup without
  body-IsOwn form = (refl, refl, refl)

  validate_effect-Does : (form : UpdatePasswordForm) → Does Sends (validate_effect form)
  unfolding validate_effect validate_entries validate_sign_up_form
  validate_effect-Does form = search (does_rules, body-IsOwn)

  password_changed-Does : (err : Option JsError) → Does Sends (password_changed err)
  password_changed-Does none = search does_rules
  password_changed-Does (some err) = search does_rules

  handle-Does : (e : FormEvent) (s : State) → Does Sends (handle user e s)
  unfolding handle change submit
  handle-Does (change_form name content) s = search (does_rules, validate_effect-Does)
  handle-Does submit_form s = search (does_rules, password_changed-Does)
  handle-Does cancel s = search does_rules

  -- Whatever the user does, in any order of the answers, every request that the form has sent
  -- validates a form without the old password and the confirmation, or changes the password of the
  -- context's user.
  pub requests_confined :
      {w : World State}
      → Reach (update_password_form user) (mounted (update_password_form user)) w
      → All (IsOwn user) w.sent
  requests_confined r =
      (mounted-AllWell (update_password_form user) Sends
        (validate_effect-Does
          (record { old_password = ""; password = ""; password_confirmation = "" }))
        handle-Does r).requests
