-- ===== src/Forms/ResetPassword/Handlers.antt =====
-- What the reset form's effect and buttons do, for every answer of the servers.
use knowtfolio.Base.{true, false, some, ◌≡◌, ◌↔◌, arith, eq_iff, List}
use knowtfolio.Apis.Request.{FieldError, resolved, forgot_password, confirm_password}
use knowtfolio.Apis.Cognito.{
  ResetPasswordForm, send_password_reset_verification_code, reset_password,
}
use knowtfolio.Apis.Lambda.{add_confirmation_error}
use knowtfolio.React.Program.{navigate, ◌>>=◌, catch}
use knowtfolio.React.Run.{Environment, did, run, Has}
use knowtfolio.Forms.ResetPassword.{State, entries, send_code, submit}

-- The server's errors for the form, with the check of the confirmation.
abbrev pub errors_of : ResetPasswordForm → List FieldError → List FieldError
errors_of form errors = add_confirmation_error (entries form) errors

-- On a form without a code, the code ends as sent exactly when Cognito has resolved the request for
-- it.
send_code_iff :
    (env : Environment) (s : State)
    → s.has_sent_code ≡ false
    → ((run env (send_code s.form.username) s).state.has_sent_code ≡ true)
      ↔ (env 0 (forgot_password s.form.username) ≡ some (resolved tt))
unfolding run send_code send_password_reset_verification_code ◌>>=◌ catch
send_code_iff env s h = ground arith

-- The form leaves for the sign-in page exactly when the two passwords are the same and Cognito has
-- taken the new password with the code.
submit_navigates_iff :
    (env : Environment) (s : State)
    → Has (did (navigate "/signin" false)) (run env (submit s.form) s).trace ↔ (
        (s.form.password ≡ s.form.password_confirmation)
        × (env 0 (confirm_password s.form.username s.form.verification_code s.form.password)
            ≡ some (resolved tt)))
unfolding run submit reset_password ◌>>=◌ catch
submit_navigates_iff env s = ground (arith, eq_iff s.form.password s.form.password_confirmation)
