-- ===== src/App/Links/Silent.antt =====
-- Rules for the calls of the servers, for predicates that hold of every request.
use knowtfolio.Base.{ℕ, zero, suc, String, Bool, Option, none, some}
use knowtfolio.Base.Dict.{Dict}
use knowtfolio.Apis.Request.{
  AuthEvent, on_success, on_failure, custom_challenge, Outcome, resolved, rejected, SearchQuery,
  value, describe, Request, Session,
}
use knowtfolio.Apis.Cognito.{
  SignUpForm, ResetPasswordForm, sign_out_from_cognito, authenticated,
  sign_in_to_cognito_with_password, challenge_signed, answer_challenges,
  sign_in_to_cognito_with_wallet, sign_up_to_cognito, confirm_signing_up_to_cognito, load_session,
  load_attributes, send_password_reset_verification_code, reset_password, resend_confirmation_code,
}
use knowtfolio.Apis.Dynamodb.{fetch_wallet_address, found_nonce, fetch_nonce}
use knowtfolio.Apis.Knowtfolio.{
  PostArticleForm, UpdateArticleForm, MintArticleNftForm, get_article, search_articles,
  mint_article_nft, post_article, put_article,
}
use knowtfolio.Apis.Lambda.{validate_sign_up_form, get_user, post_wallet_address}
use knowtfolio.Forms.Validation.{validate_form}
use knowtfolio.Providers.Web3.{assert_metamask}
use knowtfolio.React.Program.{Async}
use knowtfolio.React.Run.{Event, sent}
use knowtfolio.React.World.Does.{Does, does_rules, Does-never, Does-call, Does-ret, Does-throw}

module _ {S : Type 0} {P : Event → Type 0} (asked : (q : Request) → P (sent q)) where
  pub Does-sign_out_from_cognito : (user : String) → Does {S = S} P (sign_out_from_cognito user)
  unfolding sign_out_from_cognito
  Does-sign_out_from_cognito user = search (does_rules, asked)

  Does-authenticated : (event : AuthEvent) → Does {S = S} P (authenticated event)
  Does-authenticated (on_success session) = Does-ret session.access_token
  Does-authenticated (on_failure err) = Does-throw (value (describe err))
  Does-authenticated (custom_challenge message) = Does-never

  pub Does-sign_in_to_cognito_with_password :
      (username password : String)
      → Does {S = S} P (sign_in_to_cognito_with_password username password)
  unfolding sign_in_to_cognito_with_password
  Does-sign_in_to_cognito_with_password username password =
      search (does_rules, asked, Does-authenticated)

  Does-challenge_signed :
      (send : String → Async S String) (o : Outcome String)
      → ((signature : String) → Does {S = S} P (send signature))
      → Does {S = S} P (challenge_signed send o)
  Does-challenge_signed send (resolved signature) h = h signature
  Does-challenge_signed send (rejected e) h = Does-never

  Does-answer_challenges :
      (n : ℕ) (username : String) (account : Option String) (event : AuthEvent)
      → Does {S = S} P (answer_challenges n username account event)
  unfolding answer_challenges
  Does-answer_challenges n username account (on_success session) = Does-ret session.access_token
  Does-answer_challenges n username account (on_failure err) = Does-throw (value (describe err))
  Does-answer_challenges zero username account (custom_challenge message) = Does-never
  Does-answer_challenges (suc n) username account (custom_challenge message) =
      Does-call _ _ (asked _) (λ o.
        Does-challenge_signed _ o
          (λ signature. Does-call _ _ (asked _) (Does-answer_challenges n username account)))

  pub Does-sign_in_to_cognito_with_wallet :
      (n : ℕ) (username : String) (account : Option String)
      → Does {S = S} P (sign_in_to_cognito_with_wallet n username account)
  unfolding sign_in_to_cognito_with_wallet
  Does-sign_in_to_cognito_with_wallet n username account =
      search (does_rules, asked, Does-answer_challenges)

  pub Does-sign_up_to_cognito : (form : SignUpForm) → Does {S = S} P (sign_up_to_cognito form)
  unfolding sign_up_to_cognito
  Does-sign_up_to_cognito form = search (does_rules, asked)

  pub Does-confirm_signing_up_to_cognito :
      (username code : String) → Does {S = S} P (confirm_signing_up_to_cognito username code)
  unfolding confirm_signing_up_to_cognito
  Does-confirm_signing_up_to_cognito username code = search (does_rules, asked)

  pub Does-load_session : (user : String) → Does {S = S} P (load_session user)
  unfolding load_session
  Does-load_session user = search (does_rules, asked)

  pub Does-load_attributes : (user : String) → Does {S = S} P (load_attributes user)
  unfolding load_attributes
  Does-load_attributes user = search (does_rules, asked)

  pub Does-send_password_reset_verification_code :
      (username : String) → Does {S = S} P (send_password_reset_verification_code username)
  unfolding send_password_reset_verification_code
  Does-send_password_reset_verification_code username = search (does_rules, asked)

  pub Does-reset_password : (form : ResetPasswordForm) → Does {S = S} P (reset_password form)
  unfolding reset_password
  Does-reset_password form = search (does_rules, asked)

  pub Does-resend_confirmation_code :
      (username : String) → Does {S = S} P (resend_confirmation_code username)
  unfolding resend_confirmation_code
  Does-resend_confirmation_code username = search (does_rules, asked)

  pub Does-fetch_wallet_address :
      (client user : String) → Does {S = S} P (fetch_wallet_address client user)
  unfolding fetch_wallet_address
  Does-fetch_wallet_address client user = search (does_rules, asked)

  pub Does-get_article : (article_id : String) → Does {S = S} P (get_article article_id)
  unfolding get_article
  Does-get_article article_id = search (does_rules, asked)

  pub Does-search_articles : (query : SearchQuery) → Does {S = S} P (search_articles query)
  unfolding search_articles
  Does-search_articles query = search (does_rules, asked)

  pub Does-validate_sign_up_form :
      (form : Dict String) → Does {S = S} P (validate_sign_up_form form)
  unfolding validate_sign_up_form
  Does-validate_sign_up_form form = search (does_rules, asked)

  pub Does-get_user : (user_id : String) → Does {S = S} P (get_user user_id)
  unfolding get_user
  Does-get_user user_id = search (does_rules, asked)

  pub Does-validate_form : (form : Dict String) → Does {S = S} P (validate_form form)
  unfolding validate_form
  Does-validate_form form = search (does_rules, Does-validate_sign_up_form)

  Does-found_nonce : (found : Option String) → Does {S = S} P (found_nonce found)
  Does-found_nonce none = search does_rules
  Does-found_nonce (some nonce) = search does_rules

  pub Does-fetch_nonce : (client user : String) → Does {S = S} P (fetch_nonce client user)
  unfolding fetch_nonce
  Does-fetch_nonce client user = search (does_rules, asked, Does-found_nonce)

  pub Does-mint_article_nft :
      (client : String) (form : MintArticleNftForm) → Does {S = S} P (mint_article_nft client form)
  unfolding mint_article_nft
  Does-mint_article_nft client form = search (does_rules, asked, Does-fetch_nonce) depth 9

  pub Does-post_article :
      (form : PostArticleForm) (session : Session) → Does {S = S} P (post_article form session)
  unfolding post_article
  Does-post_article form session = search (does_rules, asked)

  pub Does-put_article :
      (form : UpdateArticleForm) (session : Session) → Does {S = S} P (put_article form session)
  unfolding put_article
  Does-put_article form session = search (does_rules, asked)

  pub Does-post_wallet_address :
      (user_id : String) (wallet : Option String) (signature : String) (session : Session)
      → Does {S = S} P (post_wallet_address user_id wallet signature session)
  unfolding post_wallet_address
  Does-post_wallet_address user_id wallet signature session = search (does_rules, asked)

  pub Does-assert_metamask : (connected : Bool) → Does {S = S} P (assert_metamask connected)
  unfolding assert_metamask
  Does-assert_metamask connected = search does_rules

pub ruleset silent = (
  does_rules, Does-sign_out_from_cognito, Does-sign_in_to_cognito_with_password,
  Does-sign_in_to_cognito_with_wallet, Does-sign_up_to_cognito, Does-confirm_signing_up_to_cognito,
  Does-load_session, Does-load_attributes, Does-send_password_reset_verification_code,
  Does-reset_password, Does-resend_confirmation_code, Does-fetch_wallet_address, Does-get_article,
  Does-search_articles, Does-validate_sign_up_form, Does-get_user, Does-validate_form,
  Does-mint_article_nft, Does-post_article, Does-put_article, Does-post_wallet_address,
  Does-assert_metamask,
)
