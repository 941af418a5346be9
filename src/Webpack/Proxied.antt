-- ===== src/Webpack/Proxied.antt =====
-- Where the calls of the client go from the development server.
use knowtfolio.Base.{
  String, Bool, Option, none, some, List, [], ◌∷◌, ◌≡◌, refl, if◌then◌else◌, concat,
}
use knowtfolio.Base.Dict.{Dict}
use knowtfolio.Base.Text.{starts_with, append-eq-spell, anywhere}
use knowtfolio.Apis.Request.{
  Request, Session, SearchQuery, validate_form, post_wallet, user_info, create_article,
  update_article, read_article, create_nft,
}
use knowtfolio.Apis.Knowtfolio.{
  PostArticleForm, UpdateArticleForm, MintArticleNftForm, post_article, put_article, get_article,
  mint_article_nft, search_articles,
}
use knowtfolio.Apis.Dynamodb.{fetch_nonce}
use knowtfolio.Apis.Dynamodb.Nonce.{Does-found_nonce}
use knowtfolio.Apis.Lambda.{validate_sign_up_form, post_wallet_address, get_user}
use knowtfolio.React.Run.{Event, sent}
use knowtfolio.React.World.Does.{Does, does_rules}
use knowtfolio.Webpack.{goes_to_server}
use knowtfolio.Webpack.Builds.{Context, named, chosen, Proxy, proxies}

-- `matches` is how the proxy reads a context that is a text.
module _ (matches : String → String → Bool) where
  abbrev pub applies : Context → String → Bool
  applies (named text) path = matches text path
  applies (chosen test) path = test path

  -- The target of the first proxy whose context matches.
  unfoldable pub target_of : List Proxy → String → Option String
  target_of [] path = none
  target_of (p ∷ ps) path =
      let rest = target_of ps path in if applies p.context path then some p.target else rest

  -- The calls of the functions for accounts, and those of the server of the articles.
  abbrev pub Reaches : Event → Type 0
  Reaches (sent (validate_form url _)) = target_of proxies url ≡ some "https://knowtfolio.com"
  Reaches (sent (post_wallet url _ _)) = target_of proxies url ≡ some "https://knowtfolio.com"
  Reaches (sent (user_info url)) = target_of proxies url ≡ some "https://knowtfolio.com"
  Reaches (sent (create_article url _ _)) = target_of proxies url ≡ some "http://server:8080"
  Reaches (sent (update_article url _ _)) = target_of proxies url ≡ some "http://server:8080"
  Reaches (sent (read_article url)) = target_of proxies url ≡ some "http://server:8080"
  Reaches (sent (create_nft url _)) = target_of proxies url ≡ some "http://server:8080"
  Reaches (sent (Request.search url _)) = target_of proxies url ≡ some "http://server:8080"
  Reaches _ = Unit

module _ (matches : String → String → Bool)
    (by_prefix : (text path : String) → matches text path ≡ starts_with text path) where
  applies_lem : (c : Context) (path : String) → applies matches c path ≡ applies starts_with c path
  applies_lem (named text) path = by_prefix text path
  applies_lem (chosen test) path = refl

  -- The proxies are those that a prefix selects.
  target_lem :
      (ps : List Proxy) (path : String) → target_of matches ps path ≡ target_of starts_with ps path
  unfolding target_of
  target_lem [] path = refl
  target_lem (p ∷ ps) path = rw (applies_lem, target_lem ps path) refl

  validation-target :
      target_of matches proxies "/api/validate_sign_up_form" ≡ some "https://knowtfolio.com"
  unfolding target_of
  validation-target = rw target_lem refl

  wallet-target : target_of matches proxies "/api/wallet_address" ≡ some "https://knowtfolio.com"
  unfolding target_of
  wallet-target = rw target_lem refl

  user_info-target :
      (id : String)
      → target_of matches proxies (concat ("/api/users/" ∷ id ∷ [])) ≡ some "https://knowtfolio.com"
  unfolding target_of
  user_info-target id = rw (target_lem, append-eq-spell "/api/users/" id) refl

  creation-target : target_of matches proxies "/api/articles" ≡ some "http://server:8080"
  unfolding target_of goes_to_server anywhere
  creation-target = rw target_lem refl

  article-target :
      (id : String)
      → target_of matches proxies (concat ("/api/articles/" ∷ id ∷ [])) ≡ some "http://server:8080"
  unfolding target_of goes_to_server anywhere
  article-target id = rw (target_lem, append-eq-spell "/api/articles/" id) refl

  nft-target :
      (id : String)
      → target_of matches proxies (concat ("/api/nfts/" ∷ id ∷ [])) ≡ some "http://server:8080"
  unfolding target_of goes_to_server anywhere
  nft-target id = rw (target_lem, append-eq-spell "/api/nfts/" id) refl

  search-target : target_of matches proxies "/api/search" ≡ some "http://server:8080"
  unfolding target_of goes_to_server anywhere
  search-target = rw target_lem refl

  ruleset targets = (
    does_rules, validation-target, wallet-target, user_info-target, creation-target, article-target,
    nft-target, search-target,
  )

  validate_sign_up_form-Reaches :
      {S : Type 0} (form : Dict String)
      → Does {S = S} (Reaches matches) (validate_sign_up_form form)
  unfolding validate_sign_up_form
  validate_sign_up_form-Reaches form = search targets depth 12

  post_wallet_address-Reaches :
      {S : Type 0} (user_id : String) (wallet_address : Option String) (signature : String)
      (session : Session)
      → Does {S = S}
          (Reaches matches)
          (post_wallet_address user_id wallet_address signature session)
  unfolding post_wallet_address
  post_wallet_address-Reaches user_id wallet_address signature session = search targets depth 12

  get_user-Reaches :
      {S : Type 0} (user_id : String) → Does {S = S} (Reaches matches) (get_user user_id)
  unfolding get_user
  get_user-Reaches user_id = search targets depth 12

  post_article-Reaches :
      {S : Type 0} (form : PostArticleForm) (session : Session)
      → Does {S = S} (Reaches matches) (post_article form session)
  unfolding post_article
  post_article-Reaches form session = search targets depth 12

  put_article-Reaches :
      {S : Type 0} (form : UpdateArticleForm) (session : Session)
      → Does {S = S} (Reaches matches) (put_article form session)
  unfolding put_article
  put_article-Reaches form session = search targets depth 12

  get_article-Reaches :
      {S : Type 0} (article_id : String) → Does {S = S} (Reaches matches) (get_article article_id)
  unfolding get_article
  get_article-Reaches article_id = search targets depth 12

  mint_article_nft-Reaches :
      {S : Type 0} (client : String) (form : MintArticleNftForm)
      → Does {S = S} (Reaches matches) (mint_article_nft client form)
  unfolding mint_article_nft fetch_nonce
  mint_article_nft-Reaches client form = search (targets, Does-found_nonce) depth 14 fits 4000

  search_articles-Reaches :
      {S : Type 0} (query : SearchQuery) → Does {S = S} (Reaches matches) (search_articles query)
  unfolding search_articles
  search_articles-Reaches query = search targets depth 12

  -- For a proxy that reads a text as the beginning of the path: on the development server, the
  -- validation of forms, the registration of wallets and the data of users go to knowtfolio.com,
  -- and the creation, the update, the reading and the search of articles, and the creation of NFTs
  -- go to the local one.
  pub calls_reach :
      {S : Type 0} (fields : Dict String) (id signature : String) (wallet : Option String)
      (session : Session) (created : PostArticleForm) (updated : UpdateArticleForm)
      (minted : MintArticleNftForm) (query : SearchQuery)
      → Does {S = S} (Reaches matches) (validate_sign_up_form fields)
        × Does {S = S} (Reaches matches) (post_wallet_address id wallet signature session)
        × Does {S = S} (Reaches matches) (get_user id)
        × Does {S = S} (Reaches matches) (post_article created session)
        × Does {S = S} (Reaches matches) (put_article updated session)
        × Does {S = S} (Reaches matches) (get_article id)
        × Does {S = S} (Reaches matches) (mint_article_nft session.id_token minted)
        × Does {S = S} (Reaches matches) (search_articles query)
  calls_reach fields id signature wallet session created updated minted query = (
    validate_sign_up_form-Reaches fields,
    post_wallet_address-Reaches id wallet signature session,
    get_user-Reaches id,
    post_article-Reaches created session,
    put_article-Reaches updated session,
    get_article-Reaches id,
    mint_article_nft-Reaches session.id_token minted,
    search_articles-Reaches query,
  )
