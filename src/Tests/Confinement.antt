-- ===== src/Tests/Confinement.antt =====
-- The pages and forms that run, with what they send, at concrete inputs.
use knowtfolio.Base.{
  false, ℕ, String, true, Option, none, some, List, [], ◌∷◌, ◌≡◌, refl, inl, inr, arith, All, ◌++◌,
  ◌==◌, if◌then◌else◌,
}
use knowtfolio.Base.Dict.{Dict}
use knowtfolio.Apis.Number.{Number, nan, nat}
use knowtfolio.Apis.Request.{
  Request, SearchResponse, Article, SearchQuery, SearchResultEntry, resolved, read_article,
}
use knowtfolio.Apis.Knowtfolio.{get_article}
use knowtfolio.Tables.Order.{Offers-page}
use knowtfolio.React.Program.{catch, ◌>>=◌}
use knowtfolio.React.Run.{Environment}
use knowtfolio.React.World.{World, Reach, here, next, user, mounted, settle}
use knowtfolio.React.World.History.{History, begun, raised, answered}
use knowtfolio.React.World.Rely.{Trusted}
use knowtfolio.Providers.Auth
use knowtfolio.Providers.Auth.{
  AuthContext, content, authenticated, on_unauthenticated, auth_provider, load_asked,
  storage_changed,
}
use knowtfolio.Providers.Auth.Order.{idle, late_load}
use knowtfolio.Providers.Web3
use knowtfolio.Providers.Web3.{connect, Web3Context, initialize, connect_metamask, web3_provider}
use knowtfolio.Providers.Web3.Kept.{IsUsable, connection_kept}
use knowtfolio.Tables.SearchResult
use knowtfolio.Tables.SearchResult.{search_page, change_page, initial}
use knowtfolio.Tables.Requests.{IsPaged, searches-IsPaged}
use knowtfolio.Tables.Browsing.{slice, browse_all, browsing_shows_all}
use knowtfolio.Forms.UpdatePassword
use knowtfolio.Forms.UpdatePassword.{update_password_form}
use knowtfolio.Forms.UpdatePassword.Confined.{IsOwn, requests_confined}
use knowtfolio.Forms.EditArticle
use knowtfolio.Forms.EditArticle.{edit_article_form}
use knowtfolio.Forms.EditArticle.Confined.{IsOfArticle, article_requests_confined}
use knowtfolio.Pages.Article as ArticlePage
use knowtfolio.Pages.Article.{client, article_page}
use knowtfolio.Pages.Article.Shown.{Stores, stale_article}
use knowtfolio.Tests.Servers.{granting, session, article}
use knowtfolio.Tests.Articles.{alice}

abbrev unread : String → Number
unread s = nan

abbrev address : Dict String
address = ("q", "nft") ∷ ("page", "-3") ∷ []

-- The search page after a turn to the second page.
abbrev turned : World SearchResult.State
turned =
    settle (SearchResult.handle unread (change_page 2) (mounted (search_page unread address)).state)
      (mounted (search_page unread address))

turned-Reach : Reach (search_page unread address) (mounted (search_page unread address)) turned
turned-Reach = next here (
    user (mounted (search_page unread address)) (change_page 2)
      (Offers-page (mounted (search_page unread address)).state 2))

searches-IsPaged_example : All IsPaged turned.sent
searches-IsPaged_example = searches-IsPaged unread address turned-Reach

-- Two answers of the search: the only page with hits is the second.
abbrev hits : Option String → List SearchResultEntry
hits keywords =
    record { id = "a1"; title = "One"; owner_address = "0x1" }
    ∷ record { id = "a2"; title = "Two"; owner_address = "0x2" }
    ∷ []

abbrev paging : ℕ → SearchQuery → ℕ → SearchResponse
paging n params p = record {
  results = slice p params.page_size (hits params.keywords);
  total_count = 2;
}

abbrev number_of : Number → ℕ
number_of (nat n) = n
number_of _ = 0

abbrev serving : Environment
serving n (Request.search url params) =
    some (resolved (paging n params (number_of params.page_num)))
serving n q = granting n q

paging_lem :
    (params : SearchQuery)
    → serving 0 (Request.search "/api/search" params)
      ≡ some (resolved (paging 0 params (number_of params.page_num)))
paging_lem params = refl

browsing_shows_all_example : browse_all serving unread (initial address) ≡ hits (some "nft")
browsing_shows_all_example =
    browsing_shows_all serving unread hits (λ params p e. rw (paging_lem params, e) refl)
      (initial address) (omega arith)

abbrev updating : World UpdatePassword.State
updating =
    settle
      (UpdatePassword.handle "alice" (UpdatePassword.change_form "password" "Pa5$word")
        (mounted (update_password_form "alice")).state)
      (mounted (update_password_form "alice"))

updating-Reach :
    Reach (update_password_form "alice") (mounted (update_password_form "alice")) updating
unfolding UpdatePassword.render settle UpdatePassword.validate_effect
updating-Reach = next here (
    user _ (UpdatePassword.change_form "password" "Pa5$word")
      (inr (inr (inl (refl, "Pa5$word", refl)))))

requests_confined_example : All (IsOwn "alice") updating.sent
requests_confined_example = requests_confined "alice" updating-Reach

abbrev wallet : Web3Context
wallet = record {
  is_connected_to_metamask = true;
  account = some "0x1";
  has_connect_metamask = true;
}

abbrev submitted : World EditArticle.State
submitted =
    settle
      (EditArticle.handle "a1" alice wallet EditArticle.submit
        (mounted (edit_article_form "a1" alice wallet)).state)
      (mounted (edit_article_form "a1" alice wallet))

submitted-Reach :
    Reach
      (edit_article_form "a1" alice wallet)
      (mounted (edit_article_form "a1" alice wallet))
      submitted
unfolding EditArticle.render settle EditArticle.load_effect catch ◌>>=◌ get_article
submitted-Reach = next here (user _ EditArticle.submit (inr (inr (inl (refl, refl)))))

article_requests_confined_example : All (IsOfArticle "a1" alice wallet) submitted.sent
article_requests_confined_example = article_requests_confined "a1" alice wallet submitted-Reach

late_load_example :
    (w v : World Auth.State) × History
      (auth_provider (some "alice"))
      (idle Auth.initial [] [])
      (load_asked none ∷ storage_changed (some "alice") ∷ [])
      w
    × (content w.state ≡ on_unauthenticated)
    × History (auth_provider (some "alice")) w [] v
    × (content v.state ≡ authenticated alice)
    × (v.tasks ≡ [])
late_load_example = late_load (some "alice") Auth.initial [] [] "alice" session "a@b.c" none refl

abbrev unrendered : ArticlePage.RenderOn
unrendered = client (λ id. none)

abbrev second : Article
second = record article { id = "a2"; title = "Second" }

-- The article at each address.
unfoldable stored : String → Article
stored url = if url == "/api/articles/a1" then article else second

stale_article_example :
    (w : World ArticlePage.State) × Trusted
      (article_page unrendered none)
      (Stores stored)
      (record { state = ArticlePage.initial unrendered none; tasks = []; effects = []; sent = [] })
      w
    × (w.state.article_id ≡ some "a2")
    × (w.state.title ≡ (stored "/api/articles/a1").title)
    × (w.state.content ≡ (stored "/api/articles/a1").content)
    × (w.tasks ≡ [])
    × (w.sent
        ≡ ([] ++ read_article "/api/articles/a1" ∷ []) ++ read_article "/api/articles/a2" ∷ [])
stale_article_example =
    stale_article stored unrendered none (ArticlePage.initial unrendered none) [] [] "a1" "a2" refl
      refl

abbrev found_wallet : Web3Context
found_wallet = record {
  is_connected_to_metamask = false;
  account = none;
  has_connect_metamask = true;
}

connection_kept_example :
    (found_wallet.is_connected_to_metamask ≡ true → wallet.is_connected_to_metamask ≡ true)
    × (found_wallet.has_connect_metamask ≡ true → wallet.has_connect_metamask ≡ true)
    × IsUsable found_wallet
unfolding settle initialize connect_metamask Web3.handle Web3.render ◌>>=◌
connection_kept_example =
    connection_kept (answered {es = []} [] [] _ _ (resolved true) begun refl)
      (answered {es = connect ∷ []} [] (_ ∷ []) _ _ (resolved ("0x1" ∷ []))
        (raised connect begun (inl (refl, refl))) refl)
      (tt, tt)
