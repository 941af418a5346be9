-- ===== src/App/Links/Endings.antt =====
-- Whether the handlers end once their calls are answered, for the tables and the forms of articles.
pub mod Accounts
use knowtfolio.Base.{◌≢◌, refl, ℕ, String, Option, none, some, All}
use knowtfolio.Apis.Request.{Outcome, UserInfo, SearchResultEntry, JsError, ImageForm}
use knowtfolio.Apis.Number.{Number}
use knowtfolio.React.Run.{Environment}
use knowtfolio.React.Run.Settles.{Settles, settles_rules, IsObliging, IsSettled, run-Settles}
use knowtfolio.Providers.Auth.{AuthContext}
use knowtfolio.Providers.Web3.{Web3Context}
use knowtfolio.Cards
use knowtfolio.Header
use knowtfolio.Forms.SignUp
use knowtfolio.Forms.SignIn
use knowtfolio.Forms.ResetPassword
use knowtfolio.Forms.RetryConfirmation
use knowtfolio.Forms.RegisterWallet
use knowtfolio.Forms.UpdatePassword
use knowtfolio.Forms.UpdateProfile
use knowtfolio.Forms.NewArticle
use knowtfolio.Forms.EditArticle
use knowtfolio.Tables.AccountInfo
use knowtfolio.Tables.SearchResult
use knowtfolio.Tables.OwnedArticles
use knowtfolio.App.Links.Answered.{answered}
use knowtfolio.App.Links.{
  Action, perform, header, sign_up_form, sign_in_form, reset_password_form, retry_confirmation_form,
  register_wallet_form, update_password_form, update_profile_form, new_article_form,
  edit_article_form, my_account_info_table, article_owner_info_table, search_page,
  owned_articles_table, owned_article_card,
}
use knowtfolio.App.Links.Endings.Accounts.{
  ends_rules, header-Settles, sign_up-Settles, sign_in-Settles, reset_password-Settles,
  retry_confirmation-Settles, register_wallet-Settles, update_password-Settles,
  update_profile-Settles,
}

new_article-Settles :
    (auth : AuthContext) (context : Web3Context) (e : NewArticle.Event) (s : NewArticle.State)
    → Settles {S = NewArticle.State} (NewArticle.handle auth context e s)
unfolding NewArticle.handle NewArticle.handle_post
new_article-Settles auth context (NewArticle.change_editor content) s =
    search ends_rules depth 14 fits 4000
new_article-Settles auth context (NewArticle.change_title content) s =
    search ends_rules depth 14 fits 4000
new_article-Settles auth context (NewArticle.change_switch checked) s =
    search ends_rules depth 14 fits 4000
new_article-Settles auth context NewArticle.post s = search ends_rules depth 14 fits 4000
new_article-Settles auth context NewArticle.back s = search ends_rules depth 14 fits 4000
new_article-Settles auth context NewArticle.connect s = search ends_rules depth 14 fits 4000
new_article-Settles auth context NewArticle.install s = search ends_rules depth 14 fits 4000

edit_article-Settles :
    (id : String) (auth : AuthContext) (context : Web3Context) (e : EditArticle.Event)
    (s : EditArticle.State)
    → Settles {S = EditArticle.State} (EditArticle.handle id auth context e s)
unfolding EditArticle.handle EditArticle.handle_update
edit_article-Settles id auth context (EditArticle.change_editor content) s =
    search ends_rules depth 14 fits 4000
edit_article-Settles id auth context (EditArticle.change_title content) s =
    search ends_rules depth 14 fits 4000
edit_article-Settles id auth context (EditArticle.change_switch checked) s =
    search ends_rules depth 14 fits 4000
edit_article-Settles id auth context EditArticle.submit s = search ends_rules depth 14 fits 4000
edit_article-Settles id auth context EditArticle.back s = search ends_rules depth 14 fits 4000
edit_article-Settles id auth context EditArticle.connect s = search ends_rules depth 14 fits 4000
edit_article-Settles id auth context EditArticle.install s = search ends_rules depth 14 fits 4000

my_account-Settles :
    (auth : AuthContext) (e : AccountInfo.MyEvent)
    → Settles {S = Unit} (AccountInfo.handle_mine auth e)
unfolding AccountInfo.handle_mine AccountInfo.sign_out
my_account-Settles auth AccountInfo.edit_profile = search ends_rules depth 14 fits 4000
my_account-Settles auth AccountInfo.change_password = search ends_rules depth 14 fits 4000
my_account-Settles auth AccountInfo.press_sign_out = search ends_rules depth 14 fits 4000
my_account-Settles auth AccountInfo.register_wallet = search ends_rules depth 14 fits 4000

owner-Settles :
    (id : String) (e : AccountInfo.OwnerEvent) (s : UserInfo)
    → Settles {S = UserInfo} (AccountInfo.handle_owner id e s)
unfolding AccountInfo.handle_owner
owner-Settles id AccountInfo.open_owner s = search ends_rules depth 14 fits 4000
owner-Settles id AccountInfo.open_website s = search ends_rules depth 14 fits 4000

search_page-Settles :
    (other : String → Number) (e : SearchResult.Event) (s : SearchResult.State)
    → Settles {S = SearchResult.State} (SearchResult.handle other e s)
unfolding SearchResult.handle SearchResult.go_to SearchResult.fetch_effect
    Cards.open_searched_article
search_page-Settles other (SearchResult.change_page page) s = search ends_rules depth 14 fits 4000
search_page-Settles other (SearchResult.change_keywords content) s =
    search ends_rules depth 14 fits 4000
search_page-Settles other (SearchResult.open_article id) s = search ends_rules depth 14 fits 4000

owned-Settles :
    (other : String → Number) (id : String) (e : OwnedArticles.Event) (s : OwnedArticles.State)
    → Settles {S = OwnedArticles.State} (OwnedArticles.handle other id e s)
unfolding OwnedArticles.handle OwnedArticles.turn_page OwnedArticles.fetch_effect
    Cards.open_searched_article
owned-Settles other id (OwnedArticles.change_page page) s = search ends_rules depth 14 fits 4000
owned-Settles other id (OwnedArticles.open_article article) s = search ends_rules depth 14 fits 4000

card-Settles :
    (contract_address : String) (printed : ℕ → String) (article : SearchResultEntry)
    (e : Cards.CardEvent)
    → Settles {S = Cards.CardState} (Cards.handle_card contract_address printed article e)
unfolding Cards.handle_card
card-Settles contract_address printed article Cards.open_article =
    search ends_rules depth 14 fits 4000
card-Settles contract_address printed article Cards.edit_article =
    search ends_rules depth 14 fits 4000
card-Settles contract_address printed article (Cards.open_token token_id) =
    search ends_rules depth 14 fits 4000

-- The action is not the sign-in by a wallet.
abbrev pub IsWithoutWallet : Action → Type 0
IsWithoutWallet (sign_in_form rounds context e s) = e ≢ SignIn.submit_wallet
IsWithoutWallet _ = Unit

-- In any environment that answers every call, and a sign-in by password with a session or a
-- failure: the handler of every action ends, but for the sign-in by a wallet.
pub handlers_settle :
    (env : Environment)
    → IsObliging env
    → (a : Action) → IsWithoutWallet a
    → IsSettled (perform env a).result
unfolding perform
handlers_settle env o (header e) h = run-Settles env _ tt o (header-Settles e)
handlers_settle env o (sign_up_form e s) h = run-Settles env _ s o (sign_up-Settles e s)
handlers_settle env o (sign_in_form rounds context e s) h =
    run-Settles env _ s o (sign_in-Settles rounds context e s h)
handlers_settle env o (reset_password_form e s) h =
    run-Settles env _ s o (reset_password-Settles e s)
handlers_settle env o (retry_confirmation_form e s) h =
    run-Settles env _ s o (retry_confirmation-Settles e s)
handlers_settle env o (register_wallet_form auth context e) h =
    run-Settles env _ tt o (register_wallet-Settles auth context e)
handlers_settle env o (update_password_form name e s) h =
    run-Settles env _ s o (update_password-Settles name e s)
handlers_settle env o (update_profile_form encode_uri auth e s) h =
    run-Settles env _ s o (update_profile-Settles encode_uri auth e s)
handlers_settle env o (new_article_form auth context e s) h =
    run-Settles env _ s o (new_article-Settles auth context e s)
handlers_settle env o (edit_article_form id auth context e s) h =
    run-Settles env _ s o (edit_article-Settles id auth context e s)
handlers_settle env o (my_account_info_table auth e) h =
    run-Settles env _ tt o (my_account-Settles auth e)
handlers_settle env o (article_owner_info_table id e info) h =
    run-Settles env _ info o (owner-Settles id e info)
handlers_settle env o (search_page other e s) h =
    run-Settles env _ s o (search_page-Settles other e s)
handlers_settle env o (owned_articles_table other id e s) h =
    run-Settles env _ s o (owned-Settles other id e s)
handlers_settle env o (owned_article_card contract_address printed article e s) h =
    run-Settles env _ s o (card-Settles contract_address printed article e)
