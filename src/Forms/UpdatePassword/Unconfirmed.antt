-- ===== src/Forms/UpdatePassword/Unconfirmed.antt =====
-- The submission of a new password against the validation of the form.
use knowtfolio.Base.{String, List, true, ◌≡◌, ◌↔◌, inl, inr, [], ◌∷◌, ◌++◌, refl, arith, some, none}
use knowtfolio.Base.Dict.{without}
use knowtfolio.Apis.Request.{Request, change_password, validate_form}
use knowtfolio.Apis.Lambda.{validate_sign_up_form}
use knowtfolio.React.Program.{Effect, ◌>>=◌, toast_success}
use knowtfolio.React.View.{Offers}
use knowtfolio.React.World.{World, settle}
use knowtfolio.React.World.Rely.{Trusted, start, raise}
use knowtfolio.React.Run.{Environment, run, Has, did}
use knowtfolio.Forms.Validation.{validate_form as validate_entries}
use knowtfolio.Forms.UpdatePassword.{
  State, change_form, change, submit_form, set_field, validate_effect, submit, handle, render,
  update_password_form,
}

Offers-confirmation :
    (s : State) (content : String) → Offers (render s) (change_form "password_confirmation" content)
unfolding render
Offers-confirmation s content = inr (inr (inr (inl (refl, content, refl))))

Offers-submit : (s : State) → s.can_submit_form ≡ true → Offers (render s) submit_form
unfolding render
Offers-submit s h = inr (inr (inr (inr (inl (rw h refl, refl)))))

-- From any state whose form can be submitted, by events alone and without an answer to any call,
-- the user can change the confirmation to any text and then have Cognito asked to set the password
-- that the form held before.
pub unconfirmed_change :
    (account : String) (s : State) (effects : List Effect) (sent : List Request) (other : String)
    → s.can_submit_form ≡ true
    → (w : World State) × Trusted
        (update_password_form account)
        (λ q a. ⊥)
        (record { state = s; tasks = []; effects = effects; sent = sent })
        w
      × (w.state.form.password_confirmation ≡ other)
      × (w.sent
          ≡ (sent
              ++ validate_form "/api/validate_sign_up_form" (("password", s.form.password) ∷ [])
                ∷ [])
            ++ change_password account s.form.old_password s.form.password ∷ [])
unfolding handle settle submit change set_field validate_effect validate_entries
    validate_sign_up_form without ◌>>=◌
unconfirmed_change account s effects sent other ready = (
  _,
  raise submit_form
      (raise (change_form "password_confirmation" other) start (Offers-confirmation s other))
      (Offers-submit _ ready),
  refl,
  refl,
)

-- The success is shown exactly when Cognito has answered without an error.
submit_succeeds_iff :
    (env : Environment) (account : String) (s : State)
    → Has (did (toast_success "パスワードを更新しました。")) (run env (submit account s.form) s).trace
      ↔ (env 0 (change_password account s.form.old_password s.form.password) ≡ some none)
unfolding run submit ◌>>=◌
submit_succeeds_iff env account s = ground arith
