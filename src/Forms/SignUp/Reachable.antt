-- ===== src/Forms/SignUp/Reachable.antt =====
-- A sign-up from the opening of the form to its account.
use knowtfolio.Base.{
  String, true, none, some, ◌≡◌, ◌≢◌, inl, inr, [], ◌∷◌, false, List, refl, eq_refl,
}
use knowtfolio.Base.Dict.{lookup, without}
use knowtfolio.Apis.Request.{Request, Reply, resolved, sign_up}
use knowtfolio.Apis.Cognito.{SignUpForm}
use knowtfolio.Apis.Lambda.{validate_sign_up_form, add_confirmation_error}
use knowtfolio.React.Program.{Effect, call, ◌>>=◌, catch}
use knowtfolio.React.View.{Offers}
use knowtfolio.React.World.{World, settle, mounted}
use knowtfolio.React.World.Rely.{Trusted, start, raise, reply}
use knowtfolio.Forms.Validation.{judge_form, validate_form}
use knowtfolio.Forms.Validation.Submission.{can_submit_form_iff, Passes-nil}
use knowtfolio.Forms.SignUp.{
  State, is_field, initial, change_form, change, entries, set_field, validate_effect, handle,
  render, submit_form, sign_up_form,
}
use knowtfolio.Forms.SignUp.Races.{submit-handle, Offers-submit, awaiting, idle}

-- The state after a field is typed and the server has found no error in the form.
abbrev typed : String → String → State → State
typed name content s =
    let form = set_field name content s.form in
    let verdict = judge_form (entries form) (add_confirmation_error (entries form) []) in
    record s {
      form = form;
      field_messages = verdict.field_messages;
      can_submit_form = verdict.can_submit_form;
    }

-- The server finds no error in the form, and Cognito gives none.
abbrev pub Accepts : (q : Request) → Reply q → Type 0
Accepts (Request.validate_form url entries) a = a ≡ resolved []
Accepts (Request.sign_up username password attributes) a = a.err ≡ none
Accepts _ a = Unit

abbrev Idle : State → Type 0
Idle s =
    (effects : List Effect) × (sent : List Request) × Trusted sign_up_form Accepts
      (mounted sign_up_form) (idle s effects sent)

handle_change :
    (name content : String) (s : State)
    → is_field name ≡ true
    → handle (change_form name content) s ≡ change name content s.form
unfolding handle
handle_change name content s field = rw field refl

change-Trusted :
    (name content : String) (s : State) (effects : List Effect) (sent : List Request)
    → is_field name ≡ true
    → Offers (render s) (change_form name content)
    → Trusted sign_up_form Accepts (mounted sign_up_form) (idle s effects sent)
    → Trusted sign_up_form Accepts
        (mounted sign_up_form)
        (settle (change name content s.form) (idle s effects sent))
change-Trusted name content s effects sent field offered path =
    rw (← handle_change name content s field)
      (raise {u = idle s effects sent} (change_form name content) path offered)

submit-Trusted :
    (s : State) (effects : List Effect) (sent : List Request)
    → s.has_signed_up ≡ false
    → s.can_submit_form ≡ true
    → s.form.password ≡ s.form.password_confirmation
    → Trusted sign_up_form Accepts (mounted sign_up_form) (idle s effects sent)
    → Trusted sign_up_form Accepts (mounted sign_up_form) (
        settle
          (call (sign_up s.form.username s.form.password (("email", s.form.email) ∷ [])) awaiting)
          (idle s effects sent))
submit-Trusted s effects sent fresh ready equal path =
    rw (← submit-handle s equal)
      (raise {u = idle s effects sent} submit_form path (Offers-submit s ready fresh))

typed-Idle :
    (name content : String) (s : State)
    → is_field name ≡ true
    → Offers (render s) (change_form name content)
    → Idle s
    → Idle (typed name content s)
unfolding settle change validate_effect validate_form validate_sign_up_form ◌>>=◌
typed-Idle name content s field offered (effects, sent, path) = (
  effects,
  _,
  reply [] [] _ _ _ (change-Trusted name content s effects sent field offered path) refl refl,
)

module _ (username email password : String) where
  abbrev pub filled_form : SignUpForm
  filled_form = record {
    email = email;
    password = password;
    password_confirmation = password;
    username = username;
  }

  no_confirmation_error : add_confirmation_error (entries filled_form) [] ≡ []
  unfolding add_confirmation_error lookup without
  no_confirmation_error = rw eq_refl refl

  accepted :
      username ≢ ""
      → email ≢ ""
      → password ≢ ""
      → (judge_form
          (entries filled_form)
          (add_confirmation_error (entries filled_form) [])).can_submit_form
        ≡ true
  accepted u e p = rw no_confirmation_error (
      (can_submit_form_iff (entries filled_form) []).1
        (Passes-nil (entries filled_form) (e, (p, (p, (u, tt))))))

  -- The form is opened, and the server has found no error in the empty form.
  abbrev opened : State
  opened =
      let verdict =
        judge_form (entries initial.form) (add_confirmation_error (entries initial.form) []) in
      record initial {
        field_messages = verdict.field_messages;
        can_submit_form = verdict.can_submit_form;
      }

  opened-Idle : Idle opened
  unfolding settle validate_effect validate_form validate_sign_up_form ◌>>=◌
  opened-Idle = ([], _, reply [] [] _ _ _ start refl refl)

  abbrev filled : State
  filled =
      typed "password_confirmation" password
        (typed "password" password (typed "email" email (typed "username" username opened)))

  filled-Idle : Idle filled
  unfolding render
  filled-Idle =
      typed-Idle "password_confirmation" password _ refl
        (inr (inr (inr (inr (inl (refl, password, refl))))))
        (typed-Idle "password" password _ refl (inr (inr (inr (inl (refl, password, refl))))) (
          typed-Idle "email" email _ refl (inr (inr (inl (refl, email, refl)))) (
            typed-Idle "username" username opened refl (inr (inl (refl, username, refl)))
              opened-Idle)))

  filled_lem : filled.form ≡ filled_form
  unfolding set_field
  filled_lem = refl

  filled-accepted : username ≢ "" → email ≢ "" → password ≢ "" → filled.can_submit_form ≡ true
  filled-accepted u e p = rw filled_lem (accepted u e p)

  -- For any username, email and password that are not empty: from the opening of the sign-up form,
  -- by what its page offers, with every validation answered by no error and every sign-up by none,
  -- the form gets to hold them with an account made, and with no call open.
  pub sign_up_reachable :
      (user_name : String)
      → username ≢ ""
      → email ≢ ""
      → password ≢ ""
      → (w : World State) × Trusted sign_up_form Accepts (mounted sign_up_form) w
        × (w.state.has_signed_up ≡ true)
        × (w.state.form ≡ filled_form)
        × (w.tasks ≡ [])
  unfolding settle catch ◌>>=◌
  sign_up_reachable user_name u e p =
      let (effects, sent, path) = filled-Idle in
      (
        _,
        reply [] [] _ _ (record { err = none; result = some user_name })
            (submit-Trusted filled effects sent refl (filled-accepted u e p)
              (unfold set_field in refl) path)
            refl refl,
        refl,
        filled_lem,
        refl,
      )
