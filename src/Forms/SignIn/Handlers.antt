-- ===== src/Forms/SignIn/Handlers.antt =====
-- What the two buttons of the sign-in do, for every answer of Cognito and of the wallet.
use knowtfolio.Base.{ℕ, suc, String, true, false, some, ◌≡◌, ◌↔◌, [], ◌∷◌, arith, concat}
use knowtfolio.Apis.Request.{
  Session, Thrown, error, exception, rejected, resolved, authenticate_user, initiate_auth,
  on_success, custom_challenge, personal_sign, send_challenge_answer,
}
use knowtfolio.Apis.Cognito.{sign_in_to_cognito_with_password, sign_in_to_cognito_with_wallet}
use knowtfolio.Providers.Web3.{Web3Context, assert_metamask}
use knowtfolio.React.Program.{navigate, toast_success, toast_error, console_error, ◌>>=◌, catch}
use knowtfolio.React.View.{Offers}
use knowtfolio.React.Run.{Environment, run, Has, sent, did, pending}
use knowtfolio.Forms.SignIn.{
  State, submit_wallet, sign_in_with_password, sign_in_with_wallet, render,
}

abbrev pub home : State → String
home s = concat ("/users/" ∷ s.username ∷ [])

-- By password the form leaves for the user's page exactly when Cognito has given a session.
password_navigates_iff :
    (env : Environment) (s : State)
    → Has (did (navigate (home s) true)) (run env (sign_in_with_password s) s).trace ↔ (
        (session : Session) × (env 0 (authenticate_user s.username s.password)
          ≡ some (on_success session)))
unfolding run sign_in_with_password sign_in_to_cognito_with_password ◌>>=◌ catch
password_navigates_iff env s = ground arith

-- Without a wallet nothing is sent, and the failure is shown.
wallet_not_connected :
    (env : Environment) (n : ℕ) (context : Web3Context) (s : State)
    → context.is_connected_to_metamask ≡ false
    → (run env (sign_in_with_wallet n context s) s).trace
      ≡ did (console_error (exception (error "Metamaskに接続されていません。")))
        ∷ did (toast_error "サインインに失敗しました。")
        ∷ []
unfolding run sign_in_with_wallet assert_metamask ◌>>=◌ catch
wallet_not_connected env n context s h = ground arith

-- The button for it is on the page exactly when the wallet is connected.
Offers-wallet_iff :
    (context : Web3Context) (s : State)
    → Offers (render context s) submit_wallet ↔ (context.is_connected_to_metamask ≡ true)
unfolding render
Offers-wallet_iff context s = ground arith

module _ (env : Environment) (n : ℕ) (context : Web3Context) (s : State) (message : String)
    (connected : context.is_connected_to_metamask ≡ true)
    (challenged : env 0 (initiate_auth s.username) ≡ some (custom_challenge message)) where
  -- With a connected wallet and one challenge: if the wallet signs it and Cognito takes the
  -- signature, the three requests are sent in this order, and the form leaves for the user's page
  -- and shows the success.
  wallet_challenge :
      (signature : String) (session : Session)
      → env 1 (personal_sign message context.account) ≡ some (resolved signature)
      → env 2 (send_challenge_answer s.username signature) ≡ some (on_success session)
      → (run env (sign_in_with_wallet (suc n) context s) s).trace
        ≡ sent (initiate_auth s.username)
          ∷ sent (personal_sign message context.account)
          ∷ sent (send_challenge_answer s.username signature)
          ∷ did (navigate (home s) true)
          ∷ did (toast_success "サインインしました。")
          ∷ []
  unfolding run sign_in_with_wallet assert_metamask sign_in_to_cognito_with_wallet ◌>>=◌ catch
  wallet_challenge signature session signed taken = ground arith

  -- With a connected wallet and a challenge that the wallet refuses to sign, the sign-in stays
  -- pending, and after the request for the signature nothing is sent, shown or logged.
  pub wallet_refusal_hangs :
      (refusal : Thrown)
      → env 1 (personal_sign message context.account) ≡ some (rejected refusal)
      → ((run env (sign_in_with_wallet (suc n) context s) s).result ≡ pending)
        × ((run env (sign_in_with_wallet (suc n) context s) s).trace
            ≡ sent (initiate_auth s.username) ∷ sent (personal_sign message context.account) ∷ [])
  unfolding run sign_in_with_wallet assert_metamask sign_in_to_cognito_with_wallet ◌>>=◌ catch
  wallet_refusal_hangs refusal refused = ground arith
