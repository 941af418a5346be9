-- ===== src/Forms/ResetPassword/Offered.antt =====
-- What the page of the reset form offers.
use knowtfolio.Base.{String, true, false, ◌≡◌, ◌≢◌, ◌⊎◌, arith, eq_iff}
use knowtfolio.React.View.{Offers}
use knowtfolio.Forms.ResetPassword.{State, change_form, submit_password_reset_form, render}

-- A change of the username without the code, or of another field with it.
abbrev pub Offered : String → State → Type 0
Offered name s =
    ((s.has_sent_code ≡ false) × (name ≡ "username"))
    ⊎ ((s.has_sent_code ≡ true) × (name ≢ "username"))

-- Before the code is sent the page offers a change of the username alone, and after that no
-- change of it.
pub Offers-change_form :
    (name content : String) (s : State)
    → Offers (render s) (change_form name content)
    → Offered name s
unfolding render
Offers-change_form name content s o = ground (
  arith,
  eq_iff "password" "username",
  eq_iff "password_confirmation" "username",
  eq_iff "verification_code" "username",
)

pub Offers-submit :
    (s : State) → Offers (render s) submit_password_reset_form → s.can_submit_form ≡ true
unfolding render
Offers-submit s o = ground arith
