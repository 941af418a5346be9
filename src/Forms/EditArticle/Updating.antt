-- ===== src/Forms/EditArticle/Updating.antt =====
-- What an update does, with and without an NFT.
use knowtfolio.Base.{String, true, false, some, ◌≡◌, ◌↔◌, [], ◌∷◌, ◌++◌, arith, concat, truthy}
use knowtfolio.Apis.Request.{Request, resolved, update_article, get_item, personal_sign, create_nft}
use knowtfolio.Apis.Cognito.{session_to_header}
use knowtfolio.Apis.Knowtfolio.{put_article, mint_article_nft, generate_sign_data, optional_entry}
use knowtfolio.React.Program.{navigate, ◌>>=◌, catch}
use knowtfolio.React.Run.{Environment, run, Has, sent, did}
use knowtfolio.Providers.Auth.{AuthContext}
use knowtfolio.Providers.Web3.{Web3Context, assert_metamask}
use knowtfolio.Forms.EditArticle.{State, handle_update}

module _ (article_id : String) (auth : AuthContext) (context : Web3Context) (s : State) where
  abbrev pub change : Request
  change =
      update_article (concat ("/api/articles/" ∷ article_id ∷ []))
        (("content", s.content) ∷ ("title", s.title) ∷ []) (session_to_header auth.session)

  abbrev pub home : String
  home = concat ("/users/" ∷ auth.user ∷ [])

  -- The request for an NFT that carries that signature.
  abbrev pub minting : String → Request
  minting signature =
      create_nft (concat ("/api/nfts/" ∷ article_id ∷ []))
        (optional_entry "address" context.account ++ ("signature", signature) ∷ [])

  -- With the switch off the form leaves for the user's page exactly when the article was changed.
  update_iff :
      (env : Environment)
      → s.mint_switch_checked ≡ false
      → Has (did (navigate home false)) (run env (handle_update article_id auth context s) s).trace
        ↔ (env 0 change ≡ some (resolved tt))
  unfolding run handle_update put_article ◌>>=◌ catch
  update_iff env off = ground arith

  -- With the switch on, whatever is known of the article's NFT, one is asked for with a signature
  -- exactly when the article was changed, the wallet is connected, the table has given a nonce that
  -- is not empty and the wallet has signed it so.
  pub update_mints_iff :
      (env : Environment) (signature : String)
      → s.mint_switch_checked ≡ true
      → Has (sent (minting signature)) (run env (handle_update article_id auth context s) s).trace
        ↔ ((env 0 change ≡ some (resolved tt))
            × (context.is_connected_to_metamask ≡ true)
            × (nonce : String) × (env 1
                  (get_item auth.session.id_token "user_id_to_nonce" auth.user)
                ≡ some (resolved (some nonce)))
            × (truthy nonce ≡ true)
            × (env 2 (personal_sign (generate_sign_data "Mint NFT" nonce) context.account)
                ≡ some (resolved signature)))
  unfolding run handle_update put_article mint_article_nft assert_metamask ◌>>=◌ catch
  update_mints_iff env signature on = ground arith
