-- ===== src/Apis/Cognito.antt =====
-- client/src/apis/cognito.ts: the calls of the Cognito library as promises.
use knowtfolio.Base.{
  ℕ, zero, suc, String, Option, none, some, List, [], ◌∷◌, ◌++◌, not, ◌==◌, concat,
}
use knowtfolio.Base.Dict.{Dict}
use knowtfolio.Apis.Request.{
  JsError, error, describe, Thrown, exception, value, Outcome, rejected, Session, AuthEvent,
  on_success, on_failure, custom_challenge, sign_up, confirm_registration, authenticate_user,
  initiate_auth, send_challenge_answer, personal_sign, sign_out, get_session, get_user_attributes,
  forgot_password, confirm_password, resend_code,
}
use knowtfolio.React.Program.{
  Async, throw, never, ask, await_promise, when, Settling, resolve, reject, promise, ◌>>=◌, ◌>>◌,
  call,
}

pub record SignUpForm : Type 0 where
  pub email : String
  pub password : String
  pub password_confirmation : String
  pub username : String

pub record ResetPasswordForm : Type 0 where
  pub username : String
  pub password : String
  pub password_confirmation : String
  pub verification_code : String

-- `if (err) reject(err.message || JSON.stringify(err))`.
abbrev pub reject_described : {A : Type 0} → Option JsError → List (Settling A)
reject_described none = []
reject_described (some e) = reject (value (describe e)) ∷ []

-- `if (err) reject(err)`.
abbrev pub reject_error : {A : Type 0} → Option JsError → List (Settling A)
reject_error none = []
reject_error (some e) = reject (exception e) ∷ []

-- `if (err instanceof Error) reject(err.message || JSON.stringify(err))`.
abbrev pub reject_exception : {A : Type 0} → Option Thrown → List (Settling A)
reject_exception (some (exception e)) = reject (value (describe e)) ∷ []
reject_exception _ = []

-- `"" + result`.
abbrev pub result_text : Option String → String
result_text none = "undefined"
result_text (some s) = s

-- `if (result) resolve(result)`.
abbrev pub resolve_result : {A : Type 0} → Option A → List (Settling A)
resolve_result none = []
resolve_result (some a) = resolve a ∷ []

module _ {S : Type 0} where
  unfoldable pub sign_out_from_cognito : String → Async S (Unit {0})
  sign_out_from_cognito user = ask (sign_out user)

  -- The callbacks of `authenticateUser`; a challenge has no callback there.
  abbrev pub authenticated : AuthEvent → Async S String
  authenticated (on_success session) = promise (resolve session.access_token ∷ [])
  authenticated (on_failure err) = promise (reject (value (describe err)) ∷ [])
  authenticated (custom_challenge message) = never

  unfoldable pub sign_in_to_cognito_with_password : String → String → Async S String
  sign_in_to_cognito_with_password username password = do
    event ← ask (authenticate_user username password)
    authenticated event

  -- `await web3.eth.personal.sign(…)` in the callback `customChallenge`. Nobody awaits the
  -- callback, so a rejected signature settles nothing.
  abbrev pub challenge_signed : (String → Async S String) → Outcome String → Async S String
  challenge_signed send (Outcome.resolved signature) = send signature
  challenge_signed send (rejected e) = never

  -- The callbacks of `initiateAuth`; the answer to a challenge goes to the same callbacks. The
  -- number bounds how many challenges Cognito sets in a row.
  unfoldable pub answer_challenges : ℕ → String → Option String → AuthEvent → Async S String
  answer_challenges n username account (on_success session) =
      promise (resolve session.access_token ∷ [])
  answer_challenges n username account (on_failure err) =
      promise (reject (value (describe err)) ∷ [])
  answer_challenges zero username account (custom_challenge message) = never
  answer_challenges (suc n) username account (custom_challenge message) =
      call (personal_sign message account) (
        challenge_signed (λ signature.
          call (send_challenge_answer username signature) (answer_challenges n username account)))

  unfoldable pub sign_in_to_cognito_with_wallet : ℕ → String → Option String → Async S String
  unfolding answer_challenges
  sign_in_to_cognito_with_wallet n username account = do
    event ← ask (initiate_auth username)
    answer_challenges n username account event

  unfoldable pub assert_confirm_password : String → String → Async S (Unit {0})
  assert_confirm_password password confirmation =
      when (not (password == confirmation))
        (throw (exception (error "Password does not match confirm password.")))

  unfoldable pub sign_up_to_cognito : SignUpForm → Async S String
  unfolding assert_confirm_password
  sign_up_to_cognito form = do
    assert_confirm_password form.password form.password_confirmation
    callback ← ask (sign_up form.username form.password (("email", form.email) ∷ []))
    promise (
        reject_described callback.err
        ++ (resolve_result callback.result ++ reject (value "unexpected error") ∷ []))

  unfoldable pub confirm_signing_up_to_cognito : String → String → Async S String
  confirm_signing_up_to_cognito username code = do
    callback ← ask (confirm_registration username code)
    promise (
        reject_described callback.err
        ++ resolve (concat ("call result: " ∷ result_text callback.result ∷ [])) ∷ [])

  -- A session that is missing is passed on as it is.
  unfoldable pub load_session : String → Async S (Option Session)
  load_session user = do
    callback ← ask (get_session user)
    promise (reject_exception callback.err ++ resolve callback.result ∷ [])

  unfoldable pub load_attributes : String → Async S (Dict String)
  load_attributes user = do
    callback ← ask (get_user_attributes user)
    promise (
        reject_described callback.err
        ++ (resolve_result callback.result ++ reject (value "no attributes") ∷ []))

  unfoldable pub send_password_reset_verification_code : String → Async S (Unit {0})
  send_password_reset_verification_code username = do
    outcome ← ask (forgot_password username)
    await_promise outcome

  unfoldable pub reset_password : ResetPasswordForm → Async S (Unit {0})
  unfolding assert_confirm_password
  reset_password form = do
    assert_confirm_password form.password form.password_confirmation
    outcome ← ask (confirm_password form.username form.verification_code form.password)
    await_promise outcome

  unfoldable pub resend_confirmation_code : String → Async S (Unit {0})
  resend_confirmation_code username = do
    err ← ask (resend_code username)
    promise (reject_error err ++ resolve tt ∷ [])

-- The header that carries the session's token.
abbrev pub session_to_header : Session → Dict String
session_to_header session = ("Authorization", concat ("Bearer " ∷ session.id_token ∷ [])) ∷ []
