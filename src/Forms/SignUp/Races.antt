-- ===== src/Forms/SignUp/Races.antt =====
-- The sign-up form against the order of the answers.
use knowtfolio.Base.{
  concat, String, List, Bool, true, false, none, some, ◌≡◌, inl, inr, [], ◌∷◌, ◌++◌, refl, eq_iff,
}
use knowtfolio.Base.Dict.{Dict, without}
use knowtfolio.Apis.Request.{
  Callback, JsError, value, error_text, Request, Reply, FieldError, sign_up, validate_form,
  resolved,
}
use knowtfolio.Apis.Cognito.{SignUpForm, sign_up_to_cognito, reject_described, resolve_result}
use knowtfolio.Apis.Lambda.{validate_sign_up_form, add_confirmation_error}
use knowtfolio.React.Program.{
  Effect, Async, call, promise, reject, set_state, perform, toast_success, toast_error, ◌>>=◌, ◌>>◌,
  catch,
}
use knowtfolio.React.View.{Offers}
use knowtfolio.React.World.{World, Reach, here, next, Step, user, answer, settle}
use knowtfolio.React.World.Rely.{Trusted, start, raise, reply}
use knowtfolio.Forms.Validation.{judge_form, validate_form as validate_entries}
use knowtfolio.Forms.SignUp.{
  State, change_form, change, submit_form, entries, set_field, validate_effect, submit, handle,
  render, sign_up_form,
}

-- No call is open.
abbrev pub idle : State → List Effect → List Request → World State
idle s effects sent = record { state = s; tasks = []; effects = effects; sent = sent }

-- The server finds the same errors in the same entries.
abbrev pub Judges : (Dict String → List FieldError) → (q : Request) → Reply q → Type 0
Judges find (Request.validate_form url entries) a = a ≡ resolved (find entries)
Judges find _ a = Unit

Offers-change :
    (s : State) (content : String)
    → s.has_signed_up ≡ false
    → Offers (render s) (change_form "password" content)
unfolding render
Offers-change s content h = inr (inr (inr (inl (h, content, refl))))

module _ (s : State) where
  abbrev pub with_password : String → SignUpForm
  with_password content = record s.form { password = content }

  -- The verdict on the form with that password, for the server's errors.
  abbrev pub verdict : String → List FieldError → Bool
  verdict content errors =
      (judge_form (entries (with_password content))
        (add_confirmation_error (entries (with_password content)) errors)).can_submit_form

  -- What the validation of that form sends.
  abbrev pub body : String → Dict String
  body content = without "password_confirmation" (entries (with_password content))

module _ (s : State) (effects : List Effect) (sent : List Request)
    (open_form : s.has_signed_up ≡ false) where
  -- From a form that is not signed up and has no call open, where the server finds the same errors
  -- in the same entries: typing a password twice can leave the second password in the form beside
  -- the verdict on the first, by the errors of the first, with one validation sent for each and no
  -- call open.
  pub stale_verdict :
      (find : Dict String → List FieldError) (first second : String)
      → (w : World State) × Trusted sign_up_form (Judges find) (idle s effects sent) w
        × (w.state.form ≡ with_password s second)
        × (w.tasks ≡ [])
        × (w.state.can_submit_form ≡ verdict s first (find (body s first)))
        × (w.sent
            ≡ (sent ++ validate_form "/api/validate_sign_up_form" (body s first) ∷ [])
              ++ validate_form "/api/validate_sign_up_form" (body s second) ∷ [])
  unfolding handle settle change set_field validate_effect validate_entries validate_sign_up_form
      ◌>>=◌
  stale_verdict find first second = (
    _,
    reply [] [] _ _ _
        (reply (_ ∷ []) [] _ _ _
          (raise (change_form "password" second)
            (raise (change_form "password" first) start (Offers-change s first open_form))
            (Offers-change _ second open_form))
          refl refl)
        refl refl,
    refl,
    refl,
    refl,
    refl,
  )

  -- From a form that is not signed up and has no call open, typing a password twice and having the
  -- two validations answered in their order leaves the second password in the form with the verdict
  -- on it.
  verdict_in_order :
      (find : Dict String → List FieldError) (first second : String)
      → (w : World State) × Trusted sign_up_form (Judges find) (idle s effects sent) w
        × (w.state.form ≡ with_password s second)
        × (w.tasks ≡ [])
        × (w.state.can_submit_form ≡ verdict s second (find (body s second)))
  unfolding handle settle change set_field validate_effect validate_entries validate_sign_up_form
      ◌>>=◌
  verdict_in_order find first second = (
    _,
    reply [] [] _ _ _
        (reply [] (_ ∷ []) _ _ _
          (raise (change_form "password" second)
            (raise (change_form "password" first) start (Offers-change s first open_form))
            (Offers-change _ second open_form))
          refl refl)
        refl refl,
    refl,
    refl,
    refl,
  )

pub Offers-submit :
    (s : State) → s.can_submit_form ≡ true → s.has_signed_up ≡ false → Offers (render s) submit_form
unfolding render
Offers-submit s h k = inr (inr (inr (inr (inr (inl (rw (h, k) refl, refl))))))

pub Offers-username :
    (s : State) (content : String)
    → s.has_signed_up ≡ false
    → Offers (render s) (change_form "username" content)
unfolding render
Offers-username s content h = inr (inl (h, content, refl))

-- What is left of a submission when Cognito is asked.
abbrev pub awaiting : Callback JsError String → Async State Unit
awaiting callback =
    catch
      (do
        signed_up ← promise (
            reject_described callback.err
            ++ (resolve_result callback.result ++ reject (value "unexpected error") ∷ []))
        set_state (λ t. record t { has_signed_up = true })
        perform (toast_success "登録したEmailに確認コードを送信しました。"))
      (λ error. perform (toast_error (concat ("sign up failed: " ∷ error_text error ∷ []))))

submit-awaiting :
    (form : SignUpForm)
    → form.password ≡ form.password_confirmation
    → submit form ≡ call (sign_up form.username form.password (("email", form.email) ∷ [])) awaiting
unfolding submit sign_up_to_cognito ◌>>=◌ catch
submit-awaiting form h = rw ((eq_iff form.password form.password_confirmation).1 h) refl

pub submit-handle :
    (s : State)
    → s.form.password ≡ s.form.password_confirmation
    → handle submit_form s
      ≡ call (sign_up s.form.username s.form.password (("email", s.form.email) ∷ [])) awaiting
unfolding handle
submit-handle s equal = submit-awaiting s.form equal

submit-Step :
    (s : State) (effects : List Effect) (sent : List Request)
    → s.has_signed_up ≡ false
    → s.can_submit_form ≡ true
    → s.form.password ≡ s.form.password_confirmation
    → Step sign_up_form (idle s effects sent) (
        settle
          (call (sign_up s.form.username s.form.password (("email", s.form.email) ∷ [])) awaiting)
          (idle s effects sent))
submit-Step s effects sent fresh ready equal =
    rw (← submit-handle s equal) (user _ submit_form (Offers-submit s ready fresh))

-- From a form that can be submitted, is not signed up and whose passwords are the same: the user
-- can submit it, change the username to any other and then have the first answered, which leaves a
-- form that counts as signed up with a username that was not sent for it.
edited_while_pending :
    (s : State) (effects : List Effect) (sent : List Request) (username user_name : String)
    → s.has_signed_up ≡ false
    → s.can_submit_form ≡ true
    → s.form.password ≡ s.form.password_confirmation
    → (w : World State) × Reach sign_up_form (idle s effects sent) w
      × (w.state.has_signed_up ≡ true)
      × (w.state.form.username ≡ username)
      × (w.sent
          ≡ (sent ++ sign_up s.form.username s.form.password (("email", s.form.email) ∷ []) ∷ [])
            ++ validate_form "/api/validate_sign_up_form" (
                ("email", s.form.email)
                ∷ ("password", s.form.password)
                ∷ ("username", username)
                ∷ [])
              ∷ [])
unfolding handle settle change set_field validate_effect validate_entries validate_sign_up_form
    without ◌>>=◌ catch
edited_while_pending s effects sent username user_name fresh ready equal = (
  _,
  next
      (next (next here (submit-Step s effects sent fresh ready equal))
        (user _ (change_form "username" username) (Offers-username s username fresh)))
      (answer _ [] (_ ∷ []) _ _ (record { err = none; result = some user_name }) refl),
  refl,
  refl,
  refl,
)
