-- ===== src/Pages/EditArticle.antt =====
-- client/src/components/pages/EditArticlePage/index.tsx: who may edit an article. The article's id is
-- that of the address, and the user that of the context.
pub mod Owner
use knowtfolio.Base.{
  String, Bool, false, ◌&&◌, Option, none, some, ◌==◌, if◌then◌else◌, or_else, truthy, truthy?,
}
use knowtfolio.Apis.Knowtfolio.{get_article}
use knowtfolio.React.Program.{Async, ◌>>=◌, ◌>>◌, set_state}

-- The state `ownerIdOfArticle`, and the address's `articleId`.
pub record State : Type 0 where
  pub article_id : Option String
  pub owner_id_of_article : Option String

abbrev pub initial : Option String → State
initial article_id = record { article_id = article_id; owner_id_of_article = none }

-- `resp.owner_id || null`.
abbrev pub owner_of : String → Option String
owner_of owner_id = if truthy owner_id then some owner_id else none

-- The effect on the article's id and the wallet.
unfoldable pub load_owner : Option String → Async State (Unit {0})
load_owner article_id = do
  resp ← get_article (or_else article_id "")
  set_state (λ s. record s { owner_id_of_article = owner_of resp.owner_id })

-- Another article's address while the page stays, and the effect that it has.
unfoldable pub go_to : Option String → Async State (Unit {0})
go_to article_id = do set_state (λ s. record s { article_id = article_id }); load_owner article_id

pub data Content : Type 0 where
  loading : Content
  edit_article_form : (article_id : String) → Content
  not_editable : (user : String) → Content

abbrev pub is_authorized : String → State → Bool
is_authorized user s = elim s.owner_id_of_article [ none ↦ false | some owner ↦ owner == user ]

unfoldable pub content : String → State → Content
content user s = elim s.owner_id_of_article [
  | none ↦ loading
  | some owner ↦
      if is_authorized user s && truthy? s.article_id
      then edit_article_form (or_else s.article_id "")
      else not_editable user
]
