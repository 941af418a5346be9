-- ===== src/Forms/RetryConfirmation/Handlers.antt =====
-- What the form for another code does.
use knowtfolio.Base.{String, true, false, none, some, ◌≡◌, ◌≢◌, ◌↔◌, [], ◌∷◌, arith, eq_iff}
use knowtfolio.Apis.Request.{JsError, exception, Callback, resend_code, confirm_registration}
use knowtfolio.Apis.Cognito.{confirm_signing_up_to_cognito, resend_confirmation_code}
use knowtfolio.React.Program.{navigate, toast_error, toast_success, ◌>>=◌, catch}
use knowtfolio.React.View.{Offers}
use knowtfolio.React.Run.{Environment, run, Has, sent, did, fulfilled}
use knowtfolio.Forms.RetryConfirmation.{
  State, submit_username, verify_code, change_username, resend_failure, resend, verify, render,
}

-- A press of the button for another code: if Cognito answers without an error, the code counts as
-- sent and the success is shown; if it answers with an error, the state stays and the one text
-- shown is the one for that error.
resend_lem :
    (env : Environment) (s : State) (err : JsError)
    → (env 0 (resend_code s.username) ≡ some none
        → run env (resend s.username) s ≡ record {
          state = record s { has_sent_code = true };
          trace = sent (resend_code s.username) ∷ did (toast_success "確認コードを再送信しました。") ∷ [];
          result = fulfilled tt;
        })
      × (env 0 (resend_code s.username) ≡ some (some err)
          → run env (resend s.username) s ≡ record {
            state = s;
            trace =
                sent (resend_code s.username)
                ∷ did (toast_error (resend_failure (exception err)))
                ∷ [];
            result = fulfilled tt;
          })
unfolding run resend resend_confirmation_code ◌>>=◌ catch
resend_lem env s err = ground arith

-- The text for a missing user is shown exactly of the error UserNotFoundException.
resend_failure_iff :
    (err : JsError)
    → (resend_failure (exception err) ≡ "指定のユーザーは存在しません。") ↔ (err.name ≡ "UserNotFoundException")
unfolding resend_failure
resend_failure_iff err = ground (
  arith,
  eq_iff err.name "UserNotFoundException",
  eq_iff "時間をおいてから再度お試しください。" "指定のユーザーは存在しません。",
  eq_iff "確認コードの再送信に失敗しました。" "指定のユーザーは存在しません。",
)

-- The page offers to verify the code exactly when a code was sent, a change of the username exactly
-- when none was, and another code exactly when the username is not empty.
Offers-render_iff :
    (s : State) (content : String)
    → (Offers (render s) verify_code ↔ (s.has_sent_code ≡ true))
      × (Offers (render s) (change_username content) ↔ (s.has_sent_code ≡ false))
      × (Offers (render s) submit_username ↔ (s.username ≢ ""))
unfolding render
Offers-render_iff s content = ground (arith, eq_iff s.username "")

-- The form leaves for the sign-in page exactly when Cognito has answered the code without an error.
confirm_navigates_iff :
    (env : Environment) (s : State)
    → Has (did (navigate "/signin" false)) (run env (verify s.username s.confirmation_code) s).trace
      ↔ ((callback : Callback JsError String) × (env 0
              (confirm_registration s.username s.confirmation_code)
            ≡ some callback)
          × (callback.err ≡ none))
unfolding run verify confirm_signing_up_to_cognito ◌>>=◌ catch
confirm_navigates_iff env s = ground arith
