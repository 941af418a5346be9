-- ===== src/Tests/SignUp.antt =====
-- The account forms at concrete inputs.
use knowtfolio.Base.{String, true, false, none, some, ◌≡◌, inl, inr, [], ◌∷◌, refl}
use knowtfolio.Base.Dict.{without, lookup}
use knowtfolio.Apis.Request.{resolved}
use knowtfolio.Apis.Cognito.{SignUpForm}
use knowtfolio.React.World.{World, Reach, Step, here, next, user, answer, settle, mounted}
use knowtfolio.React.Program.{◌>>=◌, catch}
use knowtfolio.Apis.Cognito.{sign_up_to_cognito}
use knowtfolio.Apis.Lambda.{validate_sign_up_form, add_confirmation_error}
use knowtfolio.Forms.Validation
use knowtfolio.Forms.SignUp
use knowtfolio.Forms.SignUp.{change_form, submit_form, change_code_input, sign_up_form}
use knowtfolio.Forms.SignUp.Frozen.{account_frozen}

abbrev pub filled : SignUpForm
filled = record {
  email = "a@b.c";
  password = "Pa5$word";
  password_confirmation = "Pa5$word";
  username = "alice";
}

type_username :
    (w : World SignUp.State) (content : String)
    → w.state.has_signed_up ≡ false
    → Step sign_up_form w (settle (SignUp.handle (change_form "username" content) w.state) w)
unfolding SignUp.render
type_username w content h = user w (change_form "username" content) (inr (inl (h, content, refl)))

type_email :
    (w : World SignUp.State) (content : String)
    → w.state.has_signed_up ≡ false
    → Step sign_up_form w (settle (SignUp.handle (change_form "email" content) w.state) w)
unfolding SignUp.render
type_email w content h = user w (change_form "email" content) (inr (inr (inl (h, content, refl))))

type_password :
    (w : World SignUp.State) (content : String)
    → w.state.has_signed_up ≡ false
    → Step sign_up_form w (settle (SignUp.handle (change_form "password" content) w.state) w)
unfolding SignUp.render
type_password w content h =
    user w (change_form "password" content) (inr (inr (inr (inl (h, content, refl)))))

type_confirmation :
    (w : World SignUp.State) (content : String)
    → w.state.has_signed_up ≡ false
    → Step sign_up_form w
        (settle (SignUp.handle (change_form "password_confirmation" content) w.state) w)
unfolding SignUp.render
type_confirmation w content h =
    user w (change_form "password_confirmation" content)
      (inr (inr (inr (inr (inl (h, content, refl))))))

press_submit :
    (w : World SignUp.State)
    → w.state.has_signed_up ≡ false
    → w.state.can_submit_form ≡ true
    → Step sign_up_form w (settle (SignUp.handle submit_form w.state) w)
unfolding SignUp.render
press_submit w h k = user w submit_form (inr (inr (inr (inr (inr (inl (rw (h, k) refl, refl)))))))

type_code :
    (w : World SignUp.State) (content : String)
    → w.state.has_signed_up ≡ true
    → Step sign_up_form w (settle (SignUp.handle (change_code_input content) w.state) w)
unfolding SignUp.render
type_code w content h =
    user w (change_code_input content)
      (rw h (inr (inr (inr (inr (inr (inr (inl (refl, content, refl)))))))))

-- A user fills the form in, the server finds no error, and Cognito takes the sign-up.
signed_up_run :
    (w : World SignUp.State) × Reach sign_up_form (mounted sign_up_form) w
    × (w.state.has_signed_up ≡ true)
    × (w.state.form ≡ filled)
unfolding settle SignUp.handle SignUp.change SignUp.set_field SignUp.submit SignUp.validate_effect
    Validation.validate_form validate_sign_up_form Validation.judge_form add_confirmation_error
    sign_up_to_cognito without lookup Validation.reduce_keys Validation.find_error
    Validation.filter_keys ◌>>=◌ catch
signed_up_run = (
  _,
  next
      (next
        (next
          (next
            (next (next (next here (type_username _ "alice" refl)) (type_email _ "a@b.c" refl))
              (type_password _ "Pa5$word" refl))
            (type_confirmation _ "Pa5$word" refl))
          (answer _ (_ ∷ _ ∷ _ ∷ _ ∷ []) [] _ _ (resolved []) refl))
        (press_submit _ refl refl))
      (answer _ (_ ∷ _ ∷ _ ∷ _ ∷ []) [] _ _ (record { err = none; result = some "alice" }) refl),
  refl,
  refl,
)

account_frozen_example :
    ((settle
        (SignUp.handle (change_code_input "123456") signed_up_run.0.state)
        signed_up_run.0).state.form
      ≡ signed_up_run.0.state.form)
    × ((settle
          (SignUp.handle (change_code_input "123456") signed_up_run.0.state)
          signed_up_run.0).state.has_signed_up
        ≡ true)
account_frozen_example =
    account_frozen signed_up_run.1 (next here (type_code signed_up_run.0 "123456" signed_up_run.2))
      signed_up_run.2
