-- ===== src/Forms/NewArticle/Posting.antt =====
-- What a new article's post does, with and without an NFT.
use knowtfolio.Base.{String, true, false, some, ◌≡◌, ◌↔◌, [], ◌∷◌, ◌++◌, arith, concat, truthy}
use knowtfolio.Apis.Request.{
  Request, Thrown, resolved, rejected, create_article, get_item, personal_sign, create_nft,
}
use knowtfolio.Apis.Cognito.{session_to_header}
use knowtfolio.Apis.Knowtfolio.{post_article, mint_article_nft, generate_sign_data, optional_entry}
use knowtfolio.React.Program.{navigate, toast_error, console_error, ◌>>=◌, catch}
use knowtfolio.React.Run.{Environment, run, Has, sent, did}
use knowtfolio.Providers.Auth.{AuthContext}
use knowtfolio.Providers.Web3.{Web3Context, assert_metamask}
use knowtfolio.Forms.NewArticle.{State, handle_post}

module _ (auth : AuthContext) (context : Web3Context) (s : State) where
  abbrev pub creation : Request
  creation =
      create_article "/api/articles" (("content", s.content) ∷ ("title", s.title_input) ∷ [])
        (session_to_header auth.session)

  abbrev pub home : String
  home = concat ("/users/" ∷ auth.user ∷ [])

  -- The answers by which the article gets its NFT: a nonce, the wallet's signature over it, and the
  -- server's consent.
  abbrev pub Mints : Environment → String → Type 0
  Mints env id =
      (nonce : String) × (signature : String) × (context.is_connected_to_metamask ≡ true)
      × (env 1 (get_item auth.session.id_token "user_id_to_nonce" auth.user)
          ≡ some (resolved (some nonce)))
      × (truthy nonce ≡ true)
      × (env 2 (personal_sign (generate_sign_data "Mint NFT" nonce) context.account)
          ≡ some (resolved signature))
      × (env 3 (
            create_nft (concat ("/api/nfts/" ∷ id ∷ []))
              (optional_entry "address" context.account ++ ("signature", signature) ∷ []))
          ≡ some (resolved tt))

  -- With the switch off the form leaves for the user's page exactly when the article was created.
  post_iff :
      (env : Environment)
      → s.mint_switch_checked ≡ false
      → Has (did (navigate home false)) (run env (handle_post auth context s) s).trace
        ↔ ((id : String) × (env 0 creation ≡ some (resolved id)))
  unfolding run handle_post post_article ◌>>=◌ catch
  post_iff env off = ground arith

  -- With the switch on the form leaves for the user's page exactly when the article was created and
  -- its NFT was minted: the wallet is connected, the table gives a nonce that is not empty, the
  -- wallet signs it and the server takes the signature.
  pub post_and_mint_iff :
      (env : Environment)
      → s.mint_switch_checked ≡ true
      → Has (did (navigate home false)) (run env (handle_post auth context s) s).trace
        ↔ ((id : String) × (env 0 creation ≡ some (resolved id)) × Mints env id)
  unfolding run handle_post post_article mint_article_nft assert_metamask ◌>>=◌ catch
  post_and_mint_iff env on = ground arith

  -- With the switch on and the wallet connected, an article that was created and whose nonce could
  -- not be read is reported as an article that could not be created: these two requests are sent,
  -- the failure is logged and shown, and the form stays.
  failed_mint_reported_as_failed_post :
      (env : Environment) (id : String) (failure : Thrown)
      → s.mint_switch_checked ≡ true
      → context.is_connected_to_metamask ≡ true
      → env 0 creation ≡ some (resolved id)
      → env 1 (get_item auth.session.id_token "user_id_to_nonce" auth.user)
        ≡ some (rejected failure)
      → (run env (handle_post auth context s) s).trace
        ≡ sent creation
          ∷ sent (get_item auth.session.id_token "user_id_to_nonce" auth.user)
          ∷ did (console_error failure)
          ∷ did (toast_error "記事の作成に失敗しました。")
          ∷ []
  unfolding run handle_post post_article mint_article_nft assert_metamask ◌>>=◌ catch
  failed_mint_reported_as_failed_post env id failure on connected created refused = ground arith
