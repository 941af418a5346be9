-- ===== src/Forms/ResetPassword/Blocked.antt =====
-- The reset form against a server that reports the usernames in use.
use knowtfolio.Base.{
  String, true, false, some, List, ◌≡◌, refl, sym, ◌∙◌, arith, eq_iff, Bool-cases, inl, inr, ◌⊎◌,
}
use knowtfolio.Base.Dict.{Dict, lookup, without}
use knowtfolio.Apis.Request.{Request, Reply, FieldError, Outcome, resolved, rejected, validate_form}
use knowtfolio.Apis.Cognito.{ResetPasswordForm, send_password_reset_verification_code}
use knowtfolio.Apis.Stateless.{stateless}
use knowtfolio.React.World.Respects.{Respects}
use mathlib.Core.Path.{subst}
use knowtfolio.Apis.Lambda.{validate_sign_up_form}
use knowtfolio.React.Program.{◌>>=◌, catch}
use knowtfolio.React.View.{Offers}
use knowtfolio.React.World.{World, mounted}
use knowtfolio.React.World.Rely.{
  Trusted, Contract, Fine, Starts, Starts-of_Fine, Trusted-Inv, Fine-of_Only,
}
use knowtfolio.Forms.Validation.{validate_form as validate_entries}
use knowtfolio.Forms.Validation.Submission.{
  can_submit_form_iff, IsNamed, not-Passes, IsNamed-add_confirmation_error, Passes,
}
use knowtfolio.Forms.ResetPassword.{
  State, Event, change_form, submit_username, submit_password_reset_form, entries, set_field,
  initial, validate_effect, change, is_field, send_code, submit, handle, render,
  reset_password_form,
}
use knowtfolio.Forms.ResetPassword.Offered.{Offered, Offers-change_form, Offers-submit}
use knowtfolio.Forms.ResetPassword.Handlers.{errors_of}

-- A validation of a form whose username is in use answers with an error of the username.
abbrev pub Reports : (String → Type 0) → Dict String → Outcome (List FieldError) → Type 0
Reports Used body (resolved errors) =
    (name : String) → lookup "username" body ≡ some name → Used name → IsNamed "username" errors
Reports Used body (rejected e) = Unit

abbrev pub ReportsUsed : (String → Type 0) → (q : Request) → Reply q → Type 0
ReportsUsed Used (validate_form url body) a = Reports Used body a
ReportsUsed Used _ a = Unit

submit-keeps : (form : ResetPasswordForm) → Respects ◌≡◌ (submit form)
unfolding submit
submit-keeps form = search stateless depth 9

module _ (Used : String → Type 0) where
  -- A form that can be submitted has its code and a username that is not in use, and without the
  -- code it has no password.
  record Locked (s : State) : Type 0 where
    pub unlocked : s.can_submit_form ≡ true → (s.has_sent_code ≡ true) × (¬ Used s.form.username)
    pub blank : s.has_sent_code ≡ false → s.form.password ≡ ""

  abbrev Becomes : State → State → Type 0
  Becomes s t =
      s.has_sent_code ≡ true → (t.has_sent_code ≡ true) × (t.form.username ≡ s.form.username)

  abbrev contract : Contract State
  contract = record {
    Ok = ReportsUsed Used;
    Becomes = Becomes;
    becomes_refl = λ s h. (h, refl);
    becomes_trans = λ s t u b c h. let (h', e) = b h in let (h'', e') = c h' in (h'', e' ∙ e);
    Inv = Locked;
  }

  -- The form is the state's, or has no password.
  abbrev Launched : State → ResetPasswordForm → Type 0
  Launched s form =
      (form.password ≡ "") ⊎ ((s.has_sent_code ≡ true) × (form.username ≡ s.form.username))

  verdict-Locked :
      (s t : State) (form : ResetPasswordForm) (errors : List FieldError)
      → Launched s form
      → Reports Used (without "password_confirmation" (entries form)) (resolved errors)
      → Becomes s t
      → Passes (entries form) (errors_of form errors)
      → (t.has_sent_code ≡ true) × (¬ Used t.form.username)
  verdict-Locked s t form errors (inl e) ok b p = absurd (p.filled.1.0 e)
  verdict-Locked s t form errors (inr (h, e)) ok b p =
      let (h', e') = b h in
      (
        h',
        λ used.
            not-Passes (entries form) (errors_of form errors) "username" (unfold lookup in refl)
              (IsNamed-add_confirmation_error "username" (entries form) errors
                (ok form.username (unfold lookup without in refl) (rw (e' ∙ sym e) at used)))
              p,
      )

  validate_effect-Fine :
      (s : State) (form : ResetPasswordForm)
      → Launched s form
      → Fine contract s (validate_effect form)
  unfolding validate_effect validate_entries validate_sign_up_form ◌>>=◌
  validate_effect-Fine s form l (rejected e) ok = tt
  validate_effect-Fine s form l (resolved errors) ok = (
    λ t b i. (
      record {
        unlocked = λ v.
            verdict-Locked s t form errors l ok b
              ((can_submit_form_iff (entries form) (errors_of form errors)).0 v);
        blank = i.blank;
      },
      λ h. (h, refl),
    ),
    tt,
  )

  send_code-Fine : (s : State) (username : String) → Fine contract s (send_code username)
  unfolding send_code send_password_reset_verification_code ◌>>=◌ catch
  send_code-Fine s username (rejected e) ok = tt
  send_code-Fine s username (resolved a) ok = (
    λ t b i.
        (record { unlocked = λ v. (refl, (i.unlocked v).1); blank = λ h. cc }, λ h. (refl, refl)),
    tt,
  )

  submit-Fine : (s : State) (form : ResetPasswordForm) → Fine contract s (submit form)
  submit-Fine s form =
      Fine-of_Only contract ◌≡◌ (λ t u e. rw (sym e) (λ h. (h, refl))) (λ t u e i. subst Locked e i)
        s (submit form) (submit-keeps form).only

  set_field-Locked :
      (name content : String) (s : State)
      → Locked s
      → Offered name s
      → Locked (record s { form = set_field name content s.form })
  unfolding set_field
  set_field-Locked name content s i o = record {
    unlocked = λ v. ground (arith, i.unlocked v, eq_iff name "username");
    blank = λ h. ground (arith, i.blank h, eq_iff name "username");
  }

  set_field-Becomes :
      (name content : String) (s : State)
      → Offered name s
      → Becomes s (record s { form = set_field name content s.form })
  unfolding set_field
  set_field-Becomes name content s o h = ground (arith, eq_iff name "username")

  set_field-Launched :
      (name content : String) (s : State)
      → Locked s
      → Offered name s
      → Launched (record s { form = set_field name content s.form }) (set_field name content s.form)
  unfolding set_field
  set_field-Launched name content s i (inl (h, e)) =
      inl (ground (arith, i.blank h, eq_iff name "username"))
  set_field-Launched name content s i (inr (h, e)) = inr (h, refl)

  change-Starts :
      (name content : String) (s : State)
      → Locked s
      → Offered name s
      → Starts contract s (change name content s.form)
  unfolding change ◌>>=◌
  change-Starts name content s i o = (
    set_field-Locked name content s i o,
    set_field-Becomes name content s o,
    validate_effect-Fine (record s { form = set_field name content s.form })
        (set_field name content s.form) (set_field-Launched name content s i o),
  )

  handle-Starts :
      (e : Event) (s : State) → Locked s → Offers (render s) e → Starts contract s (handle e s)
  unfolding handle
  handle-Starts (change_form name content) s i o = elim (Bool-cases (is_field name)) [
    | inl e ↦ rw e (change-Starts name content s i (Offers-change_form name content s o))
    | inr e ↦ rw e tt
  ]
  handle-Starts submit_username s i o =
      Starts-of_Fine contract s (send_code s.form.username) i (send_code-Fine s s.form.username)
  handle-Starts submit_password_reset_form s i o =
      Starts-of_Fine contract s (submit s.form) i (submit-Fine s s.form)

  initial-Locked : Locked initial
  initial-Locked = record { unlocked = λ h. cc; blank = λ h. refl }

  -- As long as every validation of a form whose username is in use, among any names, is answered
  -- with an error of the username or fails: whatever the user does, in any order of the answers, a
  -- page that lets the user submit the reset shows a username that is not in use.
  pub reset_blocked :
      {w : World State}
      → Trusted reset_password_form (ReportsUsed Used) (mounted reset_password_form) w
      → Offers (render w.state) submit_password_reset_form
      → ¬ Used w.state.form.username
  reset_blocked {w} path o =
      ((Trusted-Inv reset_password_form contract initial-Locked
          (validate_effect-Fine initial initial.form (inl refl)) handle-Starts path).unlocked
        (Offers-submit w.state o)).1
