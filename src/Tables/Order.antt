-- ===== src/Tables/Order.antt =====
-- The tables against the order of the search's answers.
use knowtfolio.Base.{ℕ, ◌<◌, String, List, some, ◌≡◌, inl, inr, [], ◌∷◌, ◌++◌, refl}
use mathlib.Core.List.{flat_map}
use knowtfolio.Base.Dict.{Dict}
use knowtfolio.Apis.Number.{Number, nat}
use knowtfolio.Apis.Decimal.{max_exact}
use knowtfolio.Apis.Request.{Request, SearchQuery, SearchResponse, resolved, search}
use knowtfolio.Apis.Knowtfolio.{search_articles}
use knowtfolio.React.Program.{Effect, ◌>>=◌}
use knowtfolio.React.View.{View, Offers, pagination}
use knowtfolio.React.Run.{Environment, run}
use knowtfolio.React.World.{World, settle}
use knowtfolio.React.World.Rely.{Trusted, start, raise, reply}
use knowtfolio.Cards.{searched_article_card}
use knowtfolio.Tables.Params.{with_page, number_of_pages}
use knowtfolio.Tables.Paged.{Serves}
use knowtfolio.Tables.Paging.{page_num-with_page}
use knowtfolio.Tables.SearchResult.{
  State, change_page, open_article, query, fetch_effect, go_to, handle, render, search_page,
}

Offers-last :
    {M E : Type 0} (vs : List (View M E)) (v : View M E) (e : E)
    → Offers (v ∷ []) e
    → Offers (vs ++ v ∷ []) e
Offers-last [] v e h = h
Offers-last (w ∷ vs) v e h = inr (Offers-last vs v e h)

pub Offers-page : (s : State) (page : ℕ) → Offers (render s) (change_page page)
unfolding render
Offers-page s page = inr (
    inr (
      Offers-last (flat_map (searched_article_card open_article) s.articles)
        (pagination s.total_num_of_page change_page) (change_page page) (inl (page, refl))))

module _ (other : String → Number) (address : Dict String) (s : State) (effects : List Effect)
    (sent : List Request) where
  -- From any state of the search page with no call open, where the server answers a query always
  -- the same: two pages turned to one after the other can leave the address at the second page and
  -- the articles that the server has for the first, with one search sent for each and no call open.
  pub stale_results :
      (serve : SearchQuery → SearchResponse) (first second : ℕ)
      → (w : World State) × Trusted
          (search_page other address)
          (Serves serve)
          (record { state = s; tasks = []; effects = effects; sent = sent })
          w
        × (w.state.search_params ≡ with_page second (with_page first s.search_params))
        × (w.state.articles ≡ (serve (query other (with_page first s.search_params))).results)
        × (w.tasks ≡ [])
        × (w.sent
            ≡ (sent ++ search "/api/search" (query other (with_page first s.search_params)) ∷ [])
              ++ search "/api/search"
                  (query other (with_page second (with_page first s.search_params)))
                ∷ [])
  unfolding handle go_to settle fetch_effect search_articles ◌>>=◌
  stale_results serve first second = (
    _,
    reply [] [] _ _ _
        (reply (_ ∷ []) [] _ _ _
          (raise (change_page second) (raise (change_page first) start (Offers-page s first))
            (Offers-page _ second))
          refl refl)
        refl refl,
    refl,
    refl,
    refl,
    refl,
  )

-- For a positive exact page, the search page asks for the page that the user turned to, and shows
-- the articles and the number of pages that the search answers.
pub turned_page_shown :
    (env : Environment) (other : String → Number) (s : State) (page : ℕ) (response : SearchResponse)
    → 0 < page
    → page < max_exact
    → env 0 (search "/api/search" (query other (with_page page s.search_params)))
      ≡ some (resolved response)
    → ((query other (with_page page s.search_params)).page_num ≡ nat page)
      × ((run env (handle other (change_page page) s) s).state ≡ record {
        search_params = with_page page s.search_params;
        articles = response.results;
        total_num_of_page = number_of_pages response.total_count;
      })
unfolding run handle go_to fetch_effect search_articles ◌>>=◌
turned_page_shown env other s page response h k e =
    ((page_num-with_page other page s.search_params "page" h k).0, rw e refl)
