-- ===== src/Tests/Passwords.antt =====
-- The forms for passwords, the sign-in and the codes at concrete inputs.
use knowtfolio.Base.{true, false, some, ◌≡◌, inl, inr, [], ◌∷◌, ◌++◌, refl}
use knowtfolio.Apis.Request.{resolved, initiate_auth, personal_sign, validate_form, change_password}
use knowtfolio.Apis.Cognito.{ResetPasswordForm, send_password_reset_verification_code}
use knowtfolio.React.Program.{◌>>=◌, catch}
use knowtfolio.React.Run.{run, sent, pending}
use knowtfolio.React.World.{World, Reach, here, next, user, answer, mounted, settle}
use knowtfolio.React.World.Rely.{Trusted}
use knowtfolio.Providers.Web3.{Web3Context}
use knowtfolio.Apis.Lambda.{validate_sign_up_form}
use knowtfolio.Forms.Validation
use knowtfolio.Forms.ResetPassword
use knowtfolio.Forms.ResetPassword.{reset_password_form}
use knowtfolio.Forms.ResetPassword.Username.{username_frozen}
use knowtfolio.Forms.UpdatePassword
use knowtfolio.Forms.UpdatePassword.{update_password_form}
use knowtfolio.Forms.UpdatePassword.Unconfirmed.{unconfirmed_change}
use knowtfolio.Forms.SignIn
use knowtfolio.Forms.SignIn.{sign_in_with_password, sign_in_with_wallet}
use knowtfolio.Forms.SignIn.Handlers.{wallet_refusal_hangs}
use knowtfolio.Forms.RetryConfirmation
use knowtfolio.Forms.RetryConfirmation.{
  verify_code, change_username, submit_username, resend, resend_failure, verify, render,
}
use knowtfolio.Tests.Servers.{refusing, refusal}

-- The code is asked for on the page as it is opened, and sent.
code_sent_run :
    (w : World ResetPassword.State) × Reach reset_password_form (mounted reset_password_form) w
    × (w.state.has_sent_code ≡ true)
unfolding settle ResetPassword.handle ResetPassword.send_code ResetPassword.render
    send_password_reset_verification_code ◌>>=◌ catch ResetPassword.validate_effect
    Validation.validate_form validate_sign_up_form
code_sent_run = (
  _,
  next (next here (user _ ResetPassword.submit_username (inr (inr (inl (refl, refl))))))
      (answer _ (_ ∷ []) [] _ _ (resolved tt) refl),
  refl,
)

abbrev password_typed : World ResetPassword.State
password_typed =
    settle
      (ResetPassword.handle (ResetPassword.change_form "password" "Pa5$word") code_sent_run.0.state)
      code_sent_run.0

password_typed_run : Reach reset_password_form code_sent_run.0 password_typed
unfolding ResetPassword.render
password_typed_run = next here (
    user _ (ResetPassword.change_form "password" "Pa5$word")
      (rw code_sent_run.2 (inr (inr (inr (inr (inl (refl, "Pa5$word", refl))))))))

username_frozen_example :
    (password_typed.state.form.username ≡ code_sent_run.0.state.form.username)
    × (password_typed.state.has_sent_code ≡ true)
username_frozen_example = username_frozen code_sent_run.1 password_typed_run code_sent_run.2

abbrev new_password : ResetPasswordForm
new_password = record {
  username = "alice";
  password = "Pa5$word";
  password_confirmation = "Pa5$word";
  verification_code = "123456";
}

abbrev resetting : ResetPassword.State
resetting = record {
  form = new_password;
  field_messages = [];
  can_submit_form = true;
  has_sent_code = false;
}

abbrev updating : UpdatePassword.State
updating = record {
  form = record { old_password = "old"; password = "Pa5$word"; password_confirmation = "Pa5$word" };
  field_messages = [];
  can_submit_form = true;
}

unconfirmed_change_example :
    (w : World UpdatePassword.State) × Trusted
      (update_password_form "alice")
      (λ q a. ⊥)
      (record { state = updating; tasks = []; effects = []; sent = [] })
      w
    × (w.state.form.password_confirmation ≡ "other")
    × (w.sent
        ≡ ([] ++ validate_form "/api/validate_sign_up_form" (("password", "Pa5$word") ∷ []) ∷ [])
          ++ change_password "alice" "old" "Pa5$word" ∷ [])
unconfirmed_change_example = unconfirmed_change "alice" updating [] [] "other" refl

abbrev login : SignIn.State
login = record { username = "alice"; password = "Pa5$word" }

abbrev wallet : Web3Context
wallet = record {
  is_connected_to_metamask = true;
  account = some "0x1";
  has_connect_metamask = true;
}

wallet_refusal_hangs_example :
    ((run refusing (sign_in_with_wallet 1 wallet login) login).result ≡ pending)
    × ((run refusing (sign_in_with_wallet 1 wallet login) login).trace
        ≡ sent (initiate_auth "alice") ∷ sent (personal_sign "challenge" (some "0x1")) ∷ [])
wallet_refusal_hangs_example =
    wallet_refusal_hangs refusing 0 wallet login "challenge" refl refl refusal refl

abbrev retrying : RetryConfirmation.State
retrying = record { username = "alice"; confirmation_code = "123456"; has_sent_code = false }
