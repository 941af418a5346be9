-- ===== src/Apis/Lambda.antt =====
-- client/src/apis/lambda.ts: the calls of the functions for accounts.
use knowtfolio.Base.{Option, String, List, [], ◌∷◌, ◌++◌, concat, same, if◌then◌else◌}
use knowtfolio.Base.Dict.{Dict, lookup, without}
use knowtfolio.Apis.Request.{
  Session, FieldError, invalid_format, UserInfo, validate_form, post_wallet, user_info,
}
use knowtfolio.Apis.Cognito.{session_to_header}
use knowtfolio.Apis.Knowtfolio.{optional_entry}
use knowtfolio.React.Program.{Async, ret, ask, await_promise, ◌>>=◌}

-- The check of the confirmation, which the server does not make. A form without the two fields
-- compares undefined with undefined.
unfoldable pub add_confirmation_error : Dict String → List FieldError → List FieldError
add_confirmation_error form err_data =
    if same (lookup "password_confirmation" form)
      (lookup "password" (without "password_confirmation" form))
    then err_data
    else err_data ++ record { field_name = "password_confirmation"; code = invalid_format } ∷ []

module _ {S : Type 0} where
  unfoldable pub validate_sign_up_form : Dict String → Async S (List FieldError)
  validate_sign_up_form form = do
    outcome ←
        ask (validate_form "/api/validate_sign_up_form" (without "password_confirmation" form))
    err_data ← await_promise outcome
    ret (add_confirmation_error form err_data)

  unfoldable pub post_wallet_address :
      String → Option String → String → Session → Async S (Unit {0})
  post_wallet_address user_id wallet_address signature session = do
    outcome ← ask (
        post_wallet "/api/wallet_address"
          (("user_id", user_id)
            ∷ (optional_entry "wallet_address" wallet_address ++ ("signature", signature) ∷ []))
          (session_to_header session))
    await_promise outcome

  unfoldable pub get_user : String → Async S UserInfo
  get_user user_id = do
    outcome ← ask (user_info (concat ("/api/users/" ∷ user_id ∷ [])))
    await_promise outcome
