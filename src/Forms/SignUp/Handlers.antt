-- ===== src/Forms/SignUp/Handlers.antt =====
-- What one press of the buttons does, for every answer of Cognito.
use knowtfolio.Base.{String, true, false, none, some, ◌≡◌, ◌≢◌, ◌↔◌, [], ◌∷◌, arith, eq_iff}
use knowtfolio.Apis.Request.{
  Callback, JsError, sign_up, confirm_registration, authenticate_user, on_success, Session,
}
use knowtfolio.Apis.Cognito.{
  SignUpForm, sign_up_to_cognito, confirm_signing_up_to_cognito, sign_in_to_cognito_with_password,
}
use knowtfolio.React.Program.{navigate, toast_error, ◌>>=◌, catch}
use knowtfolio.React.Run.{Environment, sent, did, run, Has, fulfilled}
use knowtfolio.Forms.SignUp.{State, submit, verify, confirm_code, sign_in_after}

-- Passwords that differ: nothing is sent, the mismatch is shown, and the state stays.
submit_mismatch :
    (env : Environment) (s : State)
    → s.form.password ≢ s.form.password_confirmation
    → run env (submit s.form) s ≡ record {
      state = s;
      trace =
          did (toast_error "sign up failed: Error: Password does not match confirm password.") ∷ [];
      result = fulfilled tt;
    }
unfolding run submit sign_up_to_cognito ◌>>=◌ catch
submit_mismatch env s h = ground (arith, eq_iff s.form.password s.form.password_confirmation)

module _ (env : Environment) (form : SignUpForm) where
  -- Cognito takes the sign-up.
  abbrev pub SignsUp : Type 0
  SignsUp =
      (form.password ≡ form.password_confirmation)
      × (callback : Callback JsError String) × (user : String) × (env 0
            (sign_up form.username form.password (("email", form.email) ∷ []))
          ≡ some callback)
      × (callback.err ≡ none)
      × (callback.result ≡ some user)

-- A press of the submit button, on a form not yet signed up, ends with the sign-up counted as done
-- exactly when the two passwords are the same and Cognito has answered with a user and no error.
pub submit_iff :
    (env : Environment) (s : State)
    → s.has_signed_up ≡ false
    → ((run env (submit s.form) s).state.has_signed_up ≡ true) ↔ SignsUp env s.form
unfolding run submit sign_up_to_cognito ◌>>=◌ catch
submit_iff env s h = ground (arith, eq_iff s.form.password s.form.password_confirmation)

module _ (env : Environment) (form : SignUpForm) (code : String) where
  abbrev pub Confirms : Type 0
  Confirms =
      (callback : Callback JsError String) × (env 0 (confirm_registration form.username code)
        ≡ some callback)
      × (callback.err ≡ none)

  abbrev pub SignsIn : Type 0
  SignsIn =
      (session : Session) × (env 1 (authenticate_user form.username form.password)
        ≡ some (on_success session))

  -- The username and the password are sent for a sign-in exactly when Cognito has confirmed the
  -- code.
  verify_sends_iff :
      (s : State)
      → Has
          (sent (authenticate_user form.username form.password))
          (run env (verify form code) s).trace
        ↔ Confirms
  unfolding run verify confirm_code sign_in_after confirm_signing_up_to_cognito
      sign_in_to_cognito_with_password ◌>>=◌ catch
  verify_sends_iff s = ground arith

  -- The form goes on to the wallet exactly when Cognito has confirmed the code and then given a
  -- session for the username and the password.
  pub verify_navigates_iff :
      (s : State)
      → Has (did (navigate "/settings/wallet" true)) (run env (verify form code) s).trace
        ↔ (Confirms × SignsIn)
  unfolding run verify confirm_code sign_in_after confirm_signing_up_to_cognito
      sign_in_to_cognito_with_password ◌>>=◌ catch
  verify_navigates_iff s = ground arith
