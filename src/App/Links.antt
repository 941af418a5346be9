-- ===== src/App/Links.antt =====
-- What the handlers of the client's components do, and where they lead by the table of routes.
pub mod Actions
pub mod Routed
pub mod Silent
pub mod Answered
pub mod Endings
use knowtfolio.Base.{ℕ, String, Option, Bool, List, [], ◌∷◌, ◌≡◌, ◌⊎◌, concat, true, truthy}
use knowtfolio.Base.Text.{has_no, starts_with}
use knowtfolio.Apis.Request.{Outcome, UserInfo, SearchResultEntry, Session}
use knowtfolio.React.Program.{navigate}
use knowtfolio.React.Run.{Environment, Event, did, Run, Settled, run}
use knowtfolio.Providers.Auth.{AuthContext}
use knowtfolio.Providers.Web3.{Web3Context}
use knowtfolio.Apis.Number.{Number}
use knowtfolio.Cards
use knowtfolio.Header
use knowtfolio.Forms.SignUp
use knowtfolio.Forms.SignIn
use knowtfolio.Forms.ResetPassword
use knowtfolio.Forms.RetryConfirmation
use knowtfolio.Forms.RegisterWallet
use knowtfolio.Forms.UpdatePassword
use knowtfolio.Forms.UpdateProfile
use knowtfolio.Forms.NewArticle
use knowtfolio.Forms.EditArticle
use knowtfolio.Tables.AccountInfo
use knowtfolio.Tables.SearchResult
use knowtfolio.Tables.OwnedArticles
use knowtfolio.App.{Element, group, Route, routes}
use knowtfolio.App.Guarded.{Among}

-- An event of a component, with the state and the context that its handler finds.
pub data Action : Type 0 where
  header : Header.Event → Action
  sign_up_form : SignUp.Event → SignUp.State → Action
  sign_in_form : ℕ → Web3Context → SignIn.Event → SignIn.State → Action
  reset_password_form : ResetPassword.Event → ResetPassword.State → Action
  retry_confirmation_form : RetryConfirmation.Event → RetryConfirmation.State → Action
  register_wallet_form : AuthContext → Web3Context → RegisterWallet.Event → Action
  update_password_form : String → UpdatePassword.Event → UpdatePassword.State → Action
  update_profile_form :
      (String → Outcome String) → AuthContext → UpdateProfile.Event → UpdateProfile.State → Action
  new_article_form : AuthContext → Web3Context → NewArticle.Event → NewArticle.State → Action
  edit_article_form :
      String → AuthContext → Web3Context → EditArticle.Event → EditArticle.State → Action
  my_account_info_table : AuthContext → AccountInfo.MyEvent → Action
  article_owner_info_table : String → AccountInfo.OwnerEvent → UserInfo → Action
  search_page : (String → Number) → SearchResult.Event → SearchResult.State → Action
  owned_articles_table :
      (String → Number) → String → OwnedArticles.Event → OwnedArticles.State → Action
  owned_article_card :
      String → (ℕ → String) → SearchResultEntry → Cards.CardEvent → Cards.CardState → Action

-- What a run sends and does, and how it settles.
pub record Report : Type 0 where
  pub trace : List Event
  pub result : Settled (Unit {0})

abbrev pub report : {S : Type 0} → Run S (Unit {0}) → Report
report r = record { trace = r.trace; result = r.result }

-- The run of the action's handler.
unfoldable pub perform : Environment → Action → Report
perform env (header e) = report (run env (Header.handle {S = Unit} e) tt)
perform env (sign_up_form e s) = report (run env (SignUp.handle e s) s)
perform env (sign_in_form rounds context e s) =
    report (run env (SignIn.handle rounds context e s) s)
perform env (reset_password_form e s) = report (run env (ResetPassword.handle e s) s)
perform env (retry_confirmation_form e s) = report (run env (RetryConfirmation.handle e s) s)
perform env (register_wallet_form auth context e) =
    report (run env (RegisterWallet.handle auth context e) tt)
perform env (update_password_form name e s) = report (run env (UpdatePassword.handle name e s) s)
perform env (update_profile_form encode_uri auth e s) =
    report (run env (UpdateProfile.handle encode_uri auth e s) s)
perform env (new_article_form auth context e s) =
    report (run env (NewArticle.handle auth context e s) s)
perform env (edit_article_form id auth context e s) =
    report (run env (EditArticle.handle id auth context e s) s)
perform env (my_account_info_table auth e) = report (run env (AccountInfo.handle_mine auth e) tt)
perform env (article_owner_info_table id e info) =
    report (run env (AccountInfo.handle_owner id e info) info)
perform env (search_page other e s) = report (run env (SearchResult.handle other e s) s)
perform env (owned_articles_table other id e s) =
    report (run env (OwnedArticles.handle other id e s) s)
perform env (owned_article_card contract_address printed article e s) =
    report (run env (Cards.handle_card contract_address printed article e) s)

abbrev pub IsPage : Element → Type 0
IsPage group = ⊥
IsPage _ = Unit

-- A text that can stand for a parameter of a route, between two slashes of a path.
pub record IsSegment (s : String) : Type 0 where
  pub not_empty : truthy s ≡ true
  pub no_slash : has_no 0x2F s ≡ true
  pub no_query : has_no 0x3F s ≡ true
  pub no_fragment : has_no 0x23 s ≡ true

-- The text ends the path, or a slash follows.
abbrev pub ClosesSegment : String → Type 0
ClosesSegment after = (after ≡ "") ⊎ (starts_with "/" after ≡ true)

-- The path is the route's, or the route's with a segment in the place of its parameter, which is a
-- whole segment of the route.
abbrev pub Fits : String → String → Type 0
Fits pattern path =
    (pattern ≡ path)
    ⊎ ((before name : String) × (after : List String) × (content : String) × (pattern
          ≡ concat (before ∷ ":" ∷ name ∷ after))
        × (path ≡ concat (before ∷ content ∷ after))
        × IsSegment name
        × IsSegment content
        × ClosesSegment (concat after))

-- A route of the table that has a page fits the path.
abbrev pub IsRouted : String → Type 0
IsRouted path = (r : Route) × Among r routes × IsPage r.element × Fits r.path path

-- A navigation leads to a page of the table.
abbrev pub LeadsToPage : Event → Type 0
LeadsToPage (did (navigate path should_load)) = IsRouted path
LeadsToPage _ = Unit

-- The names of users and the ids of articles that the action's handler finds.
abbrev pub opened : Header.Event → List String
opened (Header.open_account user) = user ∷ []
opened _ = []

abbrev pub found_article : SearchResult.Event → List String
found_article (SearchResult.open_article id) = id ∷ []
found_article _ = []

abbrev pub owned_article : OwnedArticles.Event → List String
owned_article (OwnedArticles.open_article id) = id ∷ []
owned_article _ = []

abbrev pub names : Action → List String
names (header e) = opened e
names (sign_in_form rounds context e s) = s.username ∷ []
names (register_wallet_form auth context e) = auth.user ∷ []
names (update_password_form name e s) = name ∷ []
names (update_profile_form encode_uri auth e s) = auth.user ∷ []
names (new_article_form auth context e s) = auth.user ∷ []
names (edit_article_form id auth context e s) = auth.user ∷ []
names (article_owner_info_table id e info) = id ∷ []
names (search_page other e s) = found_article e
names (owned_articles_table other id e s) = owned_article e
names (owned_article_card contract_address printed article e s) = article.id ∷ []
names _ = []
