-- ===== src/App/Links/Answered.antt =====
-- Rules for the calls of the servers, as to whether they end once they are answered.
use knowtfolio.Base.{String, Bool, Option, none, some}
use knowtfolio.Base.Dict.{Dict}
use knowtfolio.Apis.Request.{
  AuthEvent, on_success, on_failure, custom_challenge, SearchQuery, value, describe, Session,
  authenticate_user,
}
use knowtfolio.Apis.Cognito.{
  SignUpForm, ResetPasswordForm, sign_out_from_cognito, authenticated,
  sign_in_to_cognito_with_password, sign_up_to_cognito, confirm_signing_up_to_cognito, load_session,
  load_attributes, send_password_reset_verification_code, reset_password, resend_confirmation_code,
}
use knowtfolio.Apis.Dynamodb.{fetch_wallet_address, found_nonce, fetch_nonce}
use knowtfolio.Apis.Knowtfolio.{
  PostArticleForm, UpdateArticleForm, MintArticleNftForm, get_article, search_articles,
  mint_article_nft, post_article, put_article,
}
use knowtfolio.Apis.Lambda.{validate_sign_up_form, get_user, post_wallet_address}
use knowtfolio.Forms.Validation.{validate_form}
use knowtfolio.Providers.Web3.{assert_metamask}
use knowtfolio.React.Run.Settles.{
  Settles, settles_rules, Settles-ret, Settles-throw, Settles-ask, IsFinal, IsProvidedFor,
}

module _ {S : Type 0} where
  pub Settles-sign_out_from_cognito : (user : String) → Settles {S = S} (sign_out_from_cognito user)
  unfolding sign_out_from_cognito
  Settles-sign_out_from_cognito user = search settles_rules

  Settles-authenticated :
      (event : AuthEvent) → IsFinal event → Settles {S = S} (authenticated event)
  Settles-authenticated (on_success session) h = Settles-ret session.access_token
  Settles-authenticated (on_failure err) h = Settles-throw (value (describe err))
  Settles-authenticated (custom_challenge message) h = absurd h

  pub Settles-sign_in_to_cognito_with_password :
      (username password : String)
      → Settles {S = S} (sign_in_to_cognito_with_password username password)
  unfolding sign_in_to_cognito_with_password
  Settles-sign_in_to_cognito_with_password username password =
      Settles-ask (authenticate_user username password) authenticated Settles-authenticated

  pub Settles-sign_up_to_cognito : (form : SignUpForm) → Settles {S = S} (sign_up_to_cognito form)
  unfolding sign_up_to_cognito
  Settles-sign_up_to_cognito form = search settles_rules

  pub Settles-confirm_signing_up_to_cognito :
      (username code : String) → Settles {S = S} (confirm_signing_up_to_cognito username code)
  unfolding confirm_signing_up_to_cognito
  Settles-confirm_signing_up_to_cognito username code = search settles_rules

  pub Settles-load_session : (user : String) → Settles {S = S} (load_session user)
  unfolding load_session
  Settles-load_session user = search settles_rules

  pub Settles-load_attributes : (user : String) → Settles {S = S} (load_attributes user)
  unfolding load_attributes
  Settles-load_attributes user = search settles_rules

  pub Settles-send_password_reset_verification_code :
      (username : String) → Settles {S = S} (send_password_reset_verification_code username)
  unfolding send_password_reset_verification_code
  Settles-send_password_reset_verification_code username = search settles_rules

  pub Settles-reset_password : (form : ResetPasswordForm) → Settles {S = S} (reset_password form)
  unfolding reset_password
  Settles-reset_password form = search settles_rules

  pub Settles-resend_confirmation_code :
      (username : String) → Settles {S = S} (resend_confirmation_code username)
  unfolding resend_confirmation_code
  Settles-resend_confirmation_code username = search settles_rules

  pub Settles-fetch_wallet_address :
      (client user : String) → Settles {S = S} (fetch_wallet_address client user)
  unfolding fetch_wallet_address
  Settles-fetch_wallet_address client user = search settles_rules

  pub Settles-get_article : (article_id : String) → Settles {S = S} (get_article article_id)
  unfolding get_article
  Settles-get_article article_id = search settles_rules

  pub Settles-search_articles : (query : SearchQuery) → Settles {S = S} (search_articles query)
  unfolding search_articles
  Settles-search_articles query = search settles_rules

  pub Settles-validate_sign_up_form :
      (form : Dict String) → Settles {S = S} (validate_sign_up_form form)
  unfolding validate_sign_up_form
  Settles-validate_sign_up_form form = search settles_rules

  pub Settles-get_user : (user_id : String) → Settles {S = S} (get_user user_id)
  unfolding get_user
  Settles-get_user user_id = search settles_rules

  pub Settles-validate_form : (form : Dict String) → Settles {S = S} (validate_form form)
  unfolding validate_form
  Settles-validate_form form = search (settles_rules, Settles-validate_sign_up_form)

  Settles-found_nonce : (found : Option String) → Settles {S = S} (found_nonce found)
  Settles-found_nonce none = search settles_rules
  Settles-found_nonce (some nonce) = search settles_rules

  pub Settles-fetch_nonce : (client user : String) → Settles {S = S} (fetch_nonce client user)
  unfolding fetch_nonce
  Settles-fetch_nonce client user = search (settles_rules, Settles-found_nonce)

  pub Settles-mint_article_nft :
      (client : String) (form : MintArticleNftForm) → Settles {S = S} (mint_article_nft client form)
  unfolding mint_article_nft
  Settles-mint_article_nft client form = search (settles_rules, Settles-fetch_nonce) depth 9

  pub Settles-post_article :
      (form : PostArticleForm) (session : Session) → Settles {S = S} (post_article form session)
  unfolding post_article
  Settles-post_article form session = search settles_rules

  pub Settles-put_article :
      (form : UpdateArticleForm) (session : Session) → Settles {S = S} (put_article form session)
  unfolding put_article
  Settles-put_article form session = search settles_rules

  pub Settles-post_wallet_address :
      (user_id : String) (wallet : Option String) (signature : String) (session : Session)
      → Settles {S = S} (post_wallet_address user_id wallet signature session)
  unfolding post_wallet_address
  Settles-post_wallet_address user_id wallet signature session = search settles_rules

  pub Settles-assert_metamask : (connected : Bool) → Settles {S = S} (assert_metamask connected)
  unfolding assert_metamask
  Settles-assert_metamask connected = search settles_rules

pub ruleset answered = (
  settles_rules, Settles-sign_out_from_cognito, Settles-sign_in_to_cognito_with_password,
  Settles-sign_up_to_cognito, Settles-confirm_signing_up_to_cognito, Settles-load_session,
  Settles-load_attributes, Settles-send_password_reset_verification_code, Settles-reset_password,
  Settles-resend_confirmation_code, Settles-fetch_wallet_address, Settles-get_article,
  Settles-search_articles, Settles-validate_sign_up_form, Settles-get_user, Settles-validate_form,
  Settles-mint_article_nft, Settles-post_article, Settles-put_article, Settles-post_wallet_address,
  Settles-assert_metamask,
)
