-- ===== src/Forms/RegisterWallet/Handlers.antt =====
-- When a wallet is registered.
use knowtfolio.Base.{String, true, false, some, ◌≡◌, ◌↔◌, [], ◌∷◌, ◌++◌, arith, truthy?}
use knowtfolio.Base.Dict.{Dict}
use knowtfolio.Apis.Request.{Thrown, personal_sign, post_wallet, resolved, rejected}
use knowtfolio.Apis.Cognito.{session_to_header}
use knowtfolio.Apis.Knowtfolio.{optional_entry}
use knowtfolio.Apis.Lambda.{post_wallet_address}
use knowtfolio.React.Program.{navigate, ◌>>=◌, catch}
use knowtfolio.React.View.{Offers}
use knowtfolio.React.Run.{Environment, run, Has, sent, did, failed}
use knowtfolio.Providers.Auth.{AuthContext}
use knowtfolio.Providers.Web3.{Web3Context, assert_metamask}
use knowtfolio.Forms.RegisterWallet.{register, register_wallet_address, render}

-- The page offers the registration exactly where the account has no wallet yet and the wallet is
-- connected.
Offers-register_iff :
    (auth : AuthContext) (context : Web3Context)
    → Offers (render auth context) register
      ↔ ((truthy? auth.user_wallet_address ≡ false) × (context.is_connected_to_metamask ≡ true))
unfolding render
Offers-register_iff auth context = ground arith

abbrev body : AuthContext → Web3Context → String → Dict String
body auth context signature =
    ("user_id", auth.user)
    ∷ (optional_entry "wallet_address" context.account ++ ("signature", signature) ∷ [])

module _ (env : Environment) (auth : AuthContext) (context : Web3Context)
    (connected : context.is_connected_to_metamask ≡ true) where
  -- With a connected wallet, the form goes on exactly when the wallet has signed and the server has
  -- taken the user's own name, the wallet's address and that signature.
  registers_iff :
      Has
        (did (navigate "/settings/wallet" true))
        (run env (register_wallet_address auth context) tt).trace
      ↔ ((signature : String) × (env 0 (personal_sign "Register wallet address" context.account)
            ≡ some (resolved signature))
          × (env 1 (
                post_wallet "/api/wallet_address"
                  (body auth context signature)
                  (session_to_header auth.session))
              ≡ some (resolved tt)))
  unfolding run register_wallet_address post_wallet_address assert_metamask ◌>>=◌ catch
  registers_iff = ground arith

  -- With a connected wallet that refuses its signature, the handler fails with the refusal, nothing
  -- is sent after it and nothing is shown.
  refusal_uncaught :
      (refusal : Thrown)
      → env 0 (personal_sign "Register wallet address" context.account) ≡ some (rejected refusal)
      → ((run env (register_wallet_address auth context) tt).result ≡ failed refusal)
        × ((run env (register_wallet_address auth context) tt).trace
            ≡ sent (personal_sign "Register wallet address" context.account) ∷ [])
  unfolding run register_wallet_address post_wallet_address assert_metamask ◌>>=◌ catch
  refusal_uncaught refusal refused = ground arith
