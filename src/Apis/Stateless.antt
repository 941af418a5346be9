-- ===== src/Apis/Stateless.antt =====
-- The calls of the servers leave a component's state alone, so they respect every relation.
use knowtfolio.Base.{ℕ, zero, suc, String, Option}
use knowtfolio.Base.Dict.{Dict}
use knowtfolio.Apis.Request.{
  AuthEvent, on_success, on_failure, custom_challenge, Outcome, resolved, rejected, SearchQuery,
  value, describe,
}
use knowtfolio.Apis.Cognito.{
  SignUpForm, ResetPasswordForm, sign_out_from_cognito, authenticated,
  sign_in_to_cognito_with_password, challenge_signed, answer_challenges,
  sign_in_to_cognito_with_wallet, sign_up_to_cognito, confirm_signing_up_to_cognito, load_session,
  load_attributes, send_password_reset_verification_code, reset_password, resend_confirmation_code,
}
use knowtfolio.Apis.Dynamodb.{fetch_wallet_address}
use knowtfolio.Apis.Knowtfolio.{get_article, search_articles}
use knowtfolio.Apis.Lambda.{validate_sign_up_form, get_user}
use knowtfolio.React.Program.{Async}
use knowtfolio.React.World.Respects.{
  Respects, respects_rules, Respects-never, Respects-call, Respects-ret, Respects-throw,
}

module _ {S : Type 0} {R : S → S → Type 0} where
  pub Respects-sign_out_from_cognito : (user : String) → Respects R (sign_out_from_cognito user)
  unfolding sign_out_from_cognito
  Respects-sign_out_from_cognito user = search respects_rules

  Respects-authenticated : (event : AuthEvent) → Respects R (authenticated event)
  Respects-authenticated (on_success session) = Respects-ret session.access_token
  Respects-authenticated (on_failure err) = Respects-throw (value (describe err))
  Respects-authenticated (custom_challenge message) = Respects-never

  pub Respects-sign_in_to_cognito_with_password :
      (username password : String) → Respects R (sign_in_to_cognito_with_password username password)
  unfolding sign_in_to_cognito_with_password
  Respects-sign_in_to_cognito_with_password username password =
      search (respects_rules, Respects-authenticated)

  Respects-challenge_signed :
      (send : String → Async S String) (o : Outcome String)
      → ((signature : String) → Respects R (send signature))
      → Respects R (challenge_signed send o)
  Respects-challenge_signed send (resolved signature) h = h signature
  Respects-challenge_signed send (rejected e) h = Respects-never

  Respects-answer_challenges :
      (n : ℕ) (username : String) (account : Option String) (event : AuthEvent)
      → Respects R (answer_challenges n username account event)
  unfolding answer_challenges
  Respects-answer_challenges n username account (on_success session) =
      Respects-ret session.access_token
  Respects-answer_challenges n username account (on_failure err) =
      Respects-throw (value (describe err))
  Respects-answer_challenges zero username account (custom_challenge message) = Respects-never
  Respects-answer_challenges (suc n) username account (custom_challenge message) =
      Respects-call _ _ (λ o.
        Respects-challenge_signed _ o
          (λ signature. Respects-call _ _ (Respects-answer_challenges n username account)))

  pub Respects-sign_in_to_cognito_with_wallet :
      (n : ℕ) (username : String) (account : Option String)
      → Respects R (sign_in_to_cognito_with_wallet n username account)
  unfolding sign_in_to_cognito_with_wallet
  Respects-sign_in_to_cognito_with_wallet n username account =
      search (respects_rules, Respects-answer_challenges)

  pub Respects-sign_up_to_cognito : (form : SignUpForm) → Respects R (sign_up_to_cognito form)
  unfolding sign_up_to_cognito
  Respects-sign_up_to_cognito form = search respects_rules

  pub Respects-confirm_signing_up_to_cognito :
      (username code : String) → Respects R (confirm_signing_up_to_cognito username code)
  unfolding confirm_signing_up_to_cognito
  Respects-confirm_signing_up_to_cognito username code = search respects_rules

  pub Respects-load_session : (user : String) → Respects R (load_session user)
  unfolding load_session
  Respects-load_session user = search respects_rules

  pub Respects-load_attributes : (user : String) → Respects R (load_attributes user)
  unfolding load_attributes
  Respects-load_attributes user = search respects_rules

  pub Respects-send_password_reset_verification_code :
      (username : String) → Respects R (send_password_reset_verification_code username)
  unfolding send_password_reset_verification_code
  Respects-send_password_reset_verification_code username = search respects_rules

  pub Respects-reset_password : (form : ResetPasswordForm) → Respects R (reset_password form)
  unfolding reset_password
  Respects-reset_password form = search respects_rules

  pub Respects-resend_confirmation_code :
      (username : String) → Respects R (resend_confirmation_code username)
  unfolding resend_confirmation_code
  Respects-resend_confirmation_code username = search respects_rules

  pub Respects-fetch_wallet_address :
      (client user : String) → Respects R (fetch_wallet_address client user)
  unfolding fetch_wallet_address
  Respects-fetch_wallet_address client user = search respects_rules

  pub Respects-get_article : (article_id : String) → Respects R (get_article article_id)
  unfolding get_article
  Respects-get_article article_id = search respects_rules

  pub Respects-search_articles : (query : SearchQuery) → Respects R (search_articles query)
  unfolding search_articles
  Respects-search_articles query = search respects_rules

  pub Respects-validate_sign_up_form :
      (form : Dict String) → Respects R (validate_sign_up_form form)
  unfolding validate_sign_up_form
  Respects-validate_sign_up_form form = search respects_rules

  pub Respects-get_user : (user_id : String) → Respects R (get_user user_id)
  unfolding get_user
  Respects-get_user user_id = search respects_rules

pub ruleset stateless = (
  respects_rules, Respects-sign_out_from_cognito, Respects-sign_in_to_cognito_with_password,
  Respects-sign_in_to_cognito_with_wallet, Respects-sign_up_to_cognito,
  Respects-confirm_signing_up_to_cognito, Respects-load_session, Respects-load_attributes,
  Respects-send_password_reset_verification_code, Respects-reset_password,
  Respects-resend_confirmation_code, Respects-fetch_wallet_address, Respects-get_article,
  Respects-search_articles, Respects-validate_sign_up_form, Respects-get_user,
)
