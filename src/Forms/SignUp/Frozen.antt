-- ===== src/Forms/SignUp/Frozen.antt =====
-- The sign-up form after the sign-up.
use knowtfolio.Base.{String, true, ◌≡◌, refl, ◌∙◌, arith}
use knowtfolio.Apis.Cognito.{SignUpForm}
use knowtfolio.Apis.Stateless.{stateless}
use knowtfolio.React.Program.{ret, ◌>>=◌}
use knowtfolio.React.View.{Offers}
use knowtfolio.React.World.{World, Reach, mounted}
use knowtfolio.React.World.Frame.{Only, Later, mounted-keeps}
use knowtfolio.React.World.Respects.{Respects, Respects-update, Respects-Later, Later-if}
use knowtfolio.Forms.Validation.{Validation, validate_form}
use knowtfolio.Forms.SignUp.{
  State, Event, change_form, submit_form, change_code_input, verify_code, validate_effect, change,
  is_field, submit, sign_in_after, confirm_code, verify, handle, render, set_field, sign_up_form,
}

-- The form is the same, and a sign-up is not forgotten.
pub record KeepsAccount (s t : State) : Type 0 where
  same_form : t.form ≡ s.form
  pub still : s.has_signed_up ≡ true → t.has_signed_up ≡ true

show-keeps :
    (v : Validation) (s : State)
    → KeepsAccount s
        (record s { field_messages = v.field_messages; can_submit_form = v.can_submit_form })
show-keeps v s = record { same_form = refl; still = λ h. h }

sign_up-keeps : (s : State) → KeepsAccount s (record s { has_signed_up = true })
sign_up-keeps s = record { same_form = refl; still = λ h. refl }

code-keeps : (code : String) (s : State) → KeepsAccount s (record s { code = code })
code-keeps code s = record { same_form = refl; still = λ h. h }

ruleset keeps_rules = (stateless, Respects-update, show-keeps, sign_up-keeps, code-keeps)

validate_effect-keeps : (form : SignUpForm) → Respects KeepsAccount (validate_effect form)
unfolding validate_effect validate_form
validate_effect-keeps form = search keeps_rules depth 9

submit-keeps : (form : SignUpForm) → Respects KeepsAccount (submit form)
unfolding submit
submit-keeps form = search keeps_rules depth 9

verify-keeps : (form : SignUpForm) (code : String) → Respects KeepsAccount (verify form code)
unfolding verify confirm_code sign_in_after
verify-keeps form code = search keeps_rules depth 9

change-Later :
    (name content : String) (form : SignUpForm) → Later KeepsAccount (change name content form)
unfolding change ◌>>=◌
change-Later name content form =
    Respects-Later (validate_effect-keeps (set_field name content form))

handle-Later : (e : Event) (s : State) → Later KeepsAccount (handle e s)
unfolding handle
handle-Later (change_form name content) s =
    Later-if KeepsAccount (is_field name) (change name content s.form) (ret tt)
      (change-Later name content s.form) tt
handle-Later submit_form s = Respects-Later (submit-keeps s.form)
handle-Later (change_code_input content) s = tt
handle-Later verify_code s = Respects-Later (verify-keeps s.form s.code)

-- With the account signed up, the page offers no change of the form.
handle-Only :
    (e : Event) (s : State)
    → s.has_signed_up ≡ true
    → Offers (render s) e
    → Only KeepsAccount (handle e s)
unfolding handle render
handle-Only (change_form name content) s h o = absurd (ground arith)
handle-Only submit_form s h o = (submit-keeps s.form).only
handle-Only (change_code_input content) s h o = (code-keeps content, tt)
handle-Only verify_code s h o = (verify-keeps s.form s.code).only

-- From the sign-up on, whatever the user does and in whatever order the calls are answered, the
-- form keeps its fields, and the sign-up is not forgotten.
pub account_frozen :
    {w v : World State}
    → Reach sign_up_form (mounted sign_up_form) w
    → Reach sign_up_form w v
    → w.state.has_signed_up ≡ true
    → (v.state.form ≡ w.state.form) × (v.state.has_signed_up ≡ true)
account_frozen {w} before after h =
    mounted-keeps sign_up_form KeepsAccount (Respects-Later (validate_effect-keeps _)) handle-Later
      (λ s. (s.form ≡ w.state.form) × (s.has_signed_up ≡ true))
      (λ s t r p. (r.same_form ∙ p.0, r.still p.1)) (λ e s p o. handle-Only e s p.1 o) before after
      (refl, h)
