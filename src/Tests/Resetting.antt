-- ===== src/Tests/Resetting.antt =====
-- The reset form of a user that the server does not know, from its opening to its submission.
use knowtfolio.Base.{String, ◌≡◌, inl, inr, arith, eq_iff, [], ◌∷◌, refl}
use knowtfolio.Base.Dict.{lookup, put, without}
use knowtfolio.Apis.Request.{resolved}
use knowtfolio.Apis.Cognito.{send_password_reset_verification_code}
use knowtfolio.Apis.Lambda.{validate_sign_up_form, add_confirmation_error}
use knowtfolio.React.Program.{◌>>=◌, catch}
use knowtfolio.React.View.{Offers}
use knowtfolio.React.World.{World, settle, mounted}
use knowtfolio.React.World.Rely.{Trusted, start, raise, reply}
use knowtfolio.Forms.Validation.{judge_form, reduce_keys, filter_keys, find_error, validate_form}
use knowtfolio.Forms.ResetPassword.{
  State, change_form, submit_username, submit_password_reset_form, validate_effect, change,
  send_code, handle, render, set_field, reset_password_form,
}
use knowtfolio.Forms.ResetPassword.Blocked.{ReportsUsed, reset_blocked}

-- Carol has an account, and nobody else.
abbrev Used : String → Type 0
Used name = name ≡ "carol"

reset_offered :
    (w : World State) × Trusted reset_password_form
      (ReportsUsed Used)
      (mounted reset_password_form)
      w
    × Offers (render w.state) submit_password_reset_form
unfolding settle handle change send_code send_password_reset_verification_code ◌>>=◌ catch
    validate_effect validate_form validate_sign_up_form render judge_form reduce_keys filter_keys
    find_error set_field add_confirmation_error lookup put without
reset_offered = (
  _,
  reply (_ ∷ _ ∷ _ ∷ _ ∷ []) [] _ _ (resolved [])
      (raise (change_form "password_confirmation" "Pa5$word")
        (raise (change_form "password" "Pa5$word")
          (raise (change_form "verification_code" "123456")
            (reply (_ ∷ _ ∷ []) [] _ _ (resolved tt)
              (raise submit_username
                (raise (change_form "username" "bob") start (inr (inl (refl, "bob", refl))))
                (inr (inr (inl (refl, refl)))))
              refl tt)
            (inr (inr (inr (inl (refl, "123456", refl))))))
          (inr (inr (inr (inr (inl (refl, "Pa5$word", refl)))))))
        (inr (inr (inr (inr (inr (inl (refl, "Pa5$word", refl))))))))
      refl (λ name e used. ground (arith, eq_iff "bob" "carol")),
  inr (inr (inr (inr (inr (inr (inl (refl, refl))))))),
)

reset_blocked_example : ¬ Used reset_offered.0.state.form.username
reset_blocked_example = reset_blocked Used reset_offered.1 reset_offered.2
