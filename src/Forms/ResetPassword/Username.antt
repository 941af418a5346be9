-- ===== src/Forms/ResetPassword/Username.antt =====
-- The username of the reset form.
use knowtfolio.Base.{inl, inr, String, true, ◌≡◌, refl, ◌∙◌, arith, ◌≢◌, eq_iff}
use knowtfolio.Apis.Cognito.{ResetPasswordForm}
use knowtfolio.Apis.Stateless.{stateless}
use knowtfolio.React.Program.{ret, ◌>>=◌}
use knowtfolio.React.View.{Offers}
use knowtfolio.React.World.{World, Reach, mounted}
use knowtfolio.React.World.Frame.{Only, Later, mounted-keeps}
use knowtfolio.React.World.Respects.{Respects, Respects-update, Respects-Later, Later-if, Only-if}
use knowtfolio.Forms.Validation.{Validation, validate_form}
use knowtfolio.Forms.ResetPassword.Offered.{Offers-change_form}
use knowtfolio.Forms.ResetPassword.{
  State, Event, change_form, submit_username, submit_password_reset_form, validate_effect, change,
  is_field, send_code, submit, handle, render, set_field, reset_password_form,
}

-- The username is the same, and a code that was sent is not forgotten.
pub record KeepsUsername (s t : State) : Type 0 where
  same_username : t.form.username ≡ s.form.username
  pub still : s.has_sent_code ≡ true → t.has_sent_code ≡ true

show-keeps :
    (v : Validation) (s : State)
    → KeepsUsername s
        (record s { field_messages = v.field_messages; can_submit_form = v.can_submit_form })
show-keeps v s = record { same_username = refl; still = λ h. h }

sent-keeps : (s : State) → KeepsUsername s (record s { has_sent_code = true })
sent-keeps s = record { same_username = refl; still = λ h. refl }

set_field-keeps :
    (name content : String) (s : State)
    → name ≢ "username"
    → KeepsUsername s (record s { form = set_field name content s.form })
unfolding set_field
set_field-keeps name content s h = record {
  same_username = ground (arith, eq_iff name "username");
  still = λ k. k;
}

ruleset keeps_rules = (stateless, Respects-update, show-keeps, sent-keeps)

validate_effect-keeps : (form : ResetPasswordForm) → Respects KeepsUsername (validate_effect form)
unfolding validate_effect validate_form
validate_effect-keeps form = search keeps_rules depth 9

send_code-keeps : (username : String) → Respects KeepsUsername (send_code username)
unfolding send_code
send_code-keeps username = search keeps_rules depth 9

submit-keeps : (form : ResetPasswordForm) → Respects KeepsUsername (submit form)
unfolding submit
submit-keeps form = search keeps_rules depth 9

change-Later :
    (name content : String) (form : ResetPasswordForm)
    → Later KeepsUsername (change name content form)
unfolding change ◌>>=◌
change-Later name content form =
    Respects-Later (validate_effect-keeps (set_field name content form))

handle-Later : (e : Event) (s : State) → Later KeepsUsername (handle e s)
unfolding handle
handle-Later (change_form name content) s =
    Later-if KeepsUsername (is_field name) (change name content s.form) (ret tt)
      (change-Later name content s.form) tt
handle-Later submit_username s = Respects-Later (send_code-keeps s.form.username)
handle-Later submit_password_reset_form s = Respects-Later (submit-keeps s.form)

change-Only :
    (name content : String) (form : ResetPasswordForm)
    → name ≢ "username"
    → Only KeepsUsername (change name content form)
unfolding change ◌>>=◌
change-Only name content form h = (
  λ s. set_field-keeps name content s h,
  (validate_effect-keeps (set_field name content form)).only,
)

-- With the code sent, the page offers no change of the username.
Offers-ne-username :
    (name content : String) (s : State)
    → s.has_sent_code ≡ true
    → Offers (render s) (change_form name content)
    → name ≢ "username"
Offers-ne-username name content s h o = elim (Offers-change_form name content s o) [
  | inl (f, e) ↦ absurd (cc)
  | inr (t, ne) ↦ ne
]

handle-Only :
    (e : Event) (s : State)
    → s.has_sent_code ≡ true
    → Offers (render s) e
    → Only KeepsUsername (handle e s)
unfolding handle
handle-Only (change_form name content) s h o =
    Only-if KeepsUsername (is_field name) (change name content s.form) (ret tt)
      (change-Only name content s.form (Offers-ne-username name content s h o)) tt
handle-Only submit_username s h o = (send_code-keeps s.form.username).only
handle-Only submit_password_reset_form s h o = (submit-keeps s.form).only

-- From the time that the page shows the code as sent, whatever the user does and in whatever order
-- the calls are answered, the form keeps its username, and the page goes on to show the code as
-- sent.
pub username_frozen :
    {w v : World State}
    → Reach reset_password_form (mounted reset_password_form) w
    → Reach reset_password_form w v
    → w.state.has_sent_code ≡ true
    → (v.state.form.username ≡ w.state.form.username) × (v.state.has_sent_code ≡ true)
username_frozen {w} before after h =
    mounted-keeps reset_password_form KeepsUsername (Respects-Later (validate_effect-keeps _))
      handle-Later (λ s. (s.form.username ≡ w.state.form.username) × (s.has_sent_code ≡ true))
      (λ s t r p. (r.same_username ∙ p.0, r.still p.1)) (λ e s p o. handle-Only e s p.1 o) before
      after (refl, h)
