-- ===== src/Apis/Knowtfolio.antt =====
-- client/src/apis/knowtfolio.ts: the calls of the articles' server.
use knowtfolio.Base.{◌++◌, Option, none, some, String, [], ◌∷◌, concat}
use knowtfolio.Base.Dict.{Dict}
use knowtfolio.Apis.Request.{
  Session, Article, SearchQuery, SearchResponse, create_article, update_article, read_article,
  create_nft, search, personal_sign,
}
use knowtfolio.Apis.Cognito.{session_to_header}
use knowtfolio.Apis.Dynamodb.{fetch_nonce}
use knowtfolio.React.Program.{Async, ask, await_promise, ◌>>=◌}

pub record PostArticleForm : Type 0 where
  pub content : String
  pub title : String

pub record UpdateArticleForm : Type 0 where
  pub article_id : String
  pub content : String
  pub title : String

pub record MintArticleNftForm : Type 0 where
  pub article_id : String
  pub username : String
  pub account : Option String

-- An entry of a request's body, which an undefined value leaves out.
abbrev pub optional_entry : String → Option String → Dict String
optional_entry key none = []
optional_entry key (some content) = (key, content) ∷ []

abbrev pub generate_sign_data : String → String → String
generate_sign_data message nonce = concat (message ∷ "\n(nonce: " ∷ nonce ∷ ")" ∷ [])

module _ {S : Type 0} where
  unfoldable pub post_article : PostArticleForm → Session → Async S String
  post_article form session = do
    outcome ← ask (
        create_article "/api/articles" (("content", form.content) ∷ ("title", form.title) ∷ [])
          (session_to_header session))
    await_promise outcome

  unfoldable pub put_article : UpdateArticleForm → Session → Async S (Unit {0})
  put_article form session = do
    outcome ← ask (
        update_article (concat ("/api/articles/" ∷ form.article_id ∷ []))
          (("content", form.content) ∷ ("title", form.title) ∷ []) (session_to_header session))
    await_promise outcome

  unfoldable pub get_article : String → Async S Article
  get_article article_id = do
    outcome ← ask (read_article (concat ("/api/articles/" ∷ article_id ∷ [])))
    await_promise outcome

  unfoldable pub mint_article_nft : String → MintArticleNftForm → Async S (Unit {0})
  unfolding fetch_nonce
  mint_article_nft client form = do
    nonce ← fetch_nonce client form.username
    signed ← ask (personal_sign (generate_sign_data "Mint NFT" nonce) form.account)
    signature ← await_promise signed
    outcome ← ask (
        create_nft (concat ("/api/nfts/" ∷ form.article_id ∷ []))
          (optional_entry "address" form.account ++ ("signature", signature) ∷ []))
    await_promise outcome

  unfoldable pub search_articles : SearchQuery → Async S SearchResponse
  search_articles query = do outcome ← ask (search "/api/search" query); await_promise outcome
