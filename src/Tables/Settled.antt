-- ===== src/Tables/Settled.antt =====
-- The search page when its searches are answered in order.
use knowtfolio.Base.{ℕ, String, List, [], ◌∷◌, ◌≡◌, refl, inl, inr}
use knowtfolio.Base.Dict.{Dict}
use knowtfolio.Apis.Number.{Number}
use knowtfolio.Apis.Request.{SearchQuery, SearchResponse, SearchResultEntry}
use knowtfolio.Apis.Knowtfolio.{search_articles}
use knowtfolio.React.Program.{Async, set_state, ◌>>=◌, ◌>>◌}
use knowtfolio.React.World.{World, settle, mounted}
use knowtfolio.React.World.InOrder.{Resumes, InOrder}
use knowtfolio.Cards.{open_searched_article}
use knowtfolio.Tables.Params.{number_of_pages}
use knowtfolio.Tables.Paged.{PagedTable, Handles, Serves, idle-UpToDate}
use knowtfolio.Tables.SearchResult
use knowtfolio.Tables.SearchResult.{change_page, change_keywords, open_article, query, search_page}

module _ (other : String → Number) (params : Dict String) where
  -- The effect of the search page, by its query.
  abbrev fetch : SearchQuery → Async SearchResult.State (Unit {0})
  fetch q = do
    response ← search_articles q
    set_state (λ s. record s { articles = response.results })
    set_state (λ s. record s { total_num_of_page = number_of_pages response.total_count })

  abbrev show : SearchResponse → SearchResult.State → SearchResult.State
  show r s = record s { articles = r.results; total_num_of_page = number_of_pages r.total_count }

  abbrev query_of : SearchResult.State → SearchQuery
  query_of s = query other s.search_params

  abbrev articles_of : SearchResult.State → List SearchResultEntry
  articles_of s = s.articles

  abbrev pages_of : SearchResult.State → ℕ
  pages_of s = s.total_num_of_page

  starts :
      (mounted (search_page other params)).tasks
      ≡ fetch (query_of (mounted (search_page other params)).state) ∷ []
  unfolding settle SearchResult.fetch_effect search_articles ◌>>=◌
  starts = refl

  handles :
      (e : SearchResult.Event) (w : World SearchResult.State)
      → Handles query_of articles_of pages_of fetch w
          (settle (SearchResult.handle other e w.state) w)
  unfolding settle SearchResult.handle SearchResult.go_to SearchResult.fetch_effect search_articles
      open_searched_article ◌>>=◌
  handles (change_page page) w = inr refl
  handles (change_keywords content) w = inr refl
  handles (open_article id) w = inl (refl, refl, refl, refl)

  resumes :
      (serve : SearchQuery → SearchResponse) (q : SearchQuery) (m : Async SearchResult.State Unit)
      → Resumes (Serves serve) (fetch q) m
      → (w : World SearchResult.State) → settle m w ≡ record w { state = show (serve q) w.state }
  unfolding settle search_articles ◌>>=◌
  resumes serve q m (a, ok, at) w = rw (at, ok) refl

  abbrev search_table : PagedTable SearchResult.State SearchResult.Event
  search_table = record {
    component = search_page other params;
    query_of = query_of;
    articles_of = articles_of;
    pages_of = pages_of;
    fetch = fetch;
    show = show;
    show_articles = λ r s. refl;
    show_pages = λ r s. refl;
    show_query = λ r s. refl;
    starts = starts;
    handles = handles;
    resumes = resumes;
  }

  -- As long as the server answers each query always in the same way, and the searches are answered
  -- in their order: whatever the user does, whenever no call is open the search page shows the
  -- articles and the number of pages that the server has for its address.
  pub searches_in_order_shown :
      (serve : SearchQuery → SearchResponse) {w : World SearchResult.State}
      → InOrder (search_page other params) (Serves serve) (mounted (search_page other params)) w
      → w.tasks ≡ []
      → (w.state.articles ≡ (serve (query other w.state.search_params)).results)
        × (w.state.total_num_of_page
            ≡ number_of_pages (serve (query other w.state.search_params)).total_count)
  searches_in_order_shown serve path idle = idle-UpToDate search_table serve path idle
