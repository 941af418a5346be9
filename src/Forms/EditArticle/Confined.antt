-- ===== src/Forms/EditArticle/Confined.antt =====
-- What the edit article form sends, at any time.
use knowtfolio.Base.{String, Bool, true, false, ◌≡◌, refl, All, concat, [], ◌∷◌}
use knowtfolio.Apis.Request.{
  Request, read_article, get_token_id, update_article, get_item, personal_sign, create_nft,
}
use knowtfolio.Apis.Cognito.{session_to_header}
use knowtfolio.Apis.Dynamodb.{fetch_nonce}
use knowtfolio.Apis.Dynamodb.Nonce.{Does-found_nonce}
use knowtfolio.Apis.Knowtfolio.{get_article, put_article, mint_article_nft}
use knowtfolio.React.Program.{Async, ◌>>=◌}
use knowtfolio.React.Run.{Event, sent, did}
use knowtfolio.React.World.{World, Reach, mounted}
use knowtfolio.React.World.Does.{
  Does, Does-throw, Does-bind, Does-call, does_rules, mounted-AllWell,
}
use knowtfolio.Providers.Auth.{AuthContext}
use knowtfolio.Providers.Web3.{Web3Context, assert_metamask}
use knowtfolio.Forms.EditArticle.{
  State, change_editor, change_title, change_switch, submit, back, connect, install,
  Event as FormEvent, load_effect, handle_update, handle, edit_article_form,
}

assert-Does :
    {S A : Type 0} {P : Event → Type 0} (connected : Bool) (m : Unit → Async S A)
    → (connected ≡ true → Does P (m tt))
    → Does P (assert_metamask connected >>= m)
unfolding assert_metamask ◌>>=◌
assert-Does true m h = h refl
assert-Does false m h = Does-throw _

module _ (article_id : String) (auth : AuthContext) (context : Web3Context) where
  -- The request reads the article or its token, changes the article with the session's header, reads
  -- the user's nonce with the session's token, or has the connected account sign and asks for the
  -- article's NFT.
  abbrev pub IsOfArticle : Request → Type 0
  IsOfArticle (read_article url) = url ≡ concat ("/api/articles/" ∷ article_id ∷ [])
  IsOfArticle (get_token_id id) = id ≡ article_id
  IsOfArticle (update_article url body headers) =
      (url ≡ concat ("/api/articles/" ∷ article_id ∷ []))
      × (headers ≡ session_to_header auth.session)
  IsOfArticle (get_item id_token type key) =
      (id_token ≡ auth.session.id_token) × (type ≡ "user_id_to_nonce") × (key ≡ auth.user)
  IsOfArticle (personal_sign message account) =
      (context.is_connected_to_metamask ≡ true) × (account ≡ context.account)
  IsOfArticle (create_nft url body) =
      (context.is_connected_to_metamask ≡ true) × (url ≡ concat ("/api/nfts/" ∷ article_id ∷ []))
  IsOfArticle _ = ⊥

  abbrev Sends : Event → Type 0
  Sends (sent q) = IsOfArticle q
  Sends (did e) = Unit

  put-Does :
      (s : State)
      → Does {S = State} Sends (
          put_article
            (record { article_id = article_id; content = s.content; title = s.title })
            auth.session)
  unfolding put_article
  put-Does s =
      Does-bind _ _ (Does-call _ _ (refl, refl) (λ a. search does_rules)) (λ a. search does_rules)

  mint-Does :
      context.is_connected_to_metamask ≡ true
      → Does {S = State} Sends (
          mint_article_nft auth.session.id_token
            (record { article_id = article_id; username = auth.user; account = context.account }))
  unfolding mint_article_nft fetch_nonce
  mint-Does h = search (does_rules, Does-found_nonce) depth 14 fits 4000

  load_effect-Does : Does Sends (load_effect article_id context)
  unfolding load_effect get_article
  load_effect-Does = search does_rules depth 14 fits 4000

  handle_update-Does : (s : State) → Does Sends (handle_update article_id auth context s)
  unfolding handle_update
  handle_update-Does s = search (does_rules, put-Does, mint-Does, assert-Does) depth 14 fits 4000

  handle-Does : (e : FormEvent) (s : State) → Does Sends (handle article_id auth context e s)
  unfolding handle
  handle-Does (change_editor content) s = search does_rules
  handle-Does (change_title content) s = search does_rules
  handle-Does (change_switch checked) s = search does_rules
  handle-Does submit s = handle_update-Does s
  handle-Does back s = search does_rules
  handle-Does connect s = search does_rules
  handle-Does install s = search does_rules

  -- Whatever the user does, in any order of the answers, every request that the form has sent reads
  -- its own article or its token, changes it with the session's header, or reads the user's nonce
  -- with the session's token; only with a connected wallet a signature of the context's account is
  -- asked for, and an NFT, which is the article's.
  pub article_requests_confined :
      {w : World State}
      → Reach
          (edit_article_form article_id auth context)
          (mounted (edit_article_form article_id auth context))
          w
      → All IsOfArticle w.sent
  article_requests_confined r =
      (mounted-AllWell (edit_article_form article_id auth context) Sends load_effect-Does
        handle-Does r).requests
