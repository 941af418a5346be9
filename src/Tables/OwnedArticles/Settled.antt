-- ===== src/Tables/OwnedArticles/Settled.antt =====
-- Another user's articles when the searches are answered in order.
use knowtfolio.Base.{
  ℕ, String, true, List, [], ◌∷◌, ◌≡◌, refl, sym, ap, inl, inr, arith, eq_iff, Bool-cases,
}
use knowtfolio.Base.Dict.{Dict}
use knowtfolio.Apis.Number.{Number, nat, positive, nonpositive}
use knowtfolio.Apis.Request.{SearchQuery, SearchResponse, SearchResultEntry}
use knowtfolio.Apis.Knowtfolio.{search_articles}
use knowtfolio.React.Program.{Async, set_state, ◌>>=◌, ◌>>◌}
use knowtfolio.React.World.{World, settle, mounted}
use knowtfolio.React.World.InOrder.{Resumes, InOrder}
use knowtfolio.Cards.{open_searched_article}
use knowtfolio.Tables.Params.{number_of_pages, page_num, with_page}
use knowtfolio.Tables.Paged.{PagedTable, Handles, Serves, idle-UpToDate}
use knowtfolio.Tables.OwnedArticles.{
  State, Event, change_page, open_article, query, fetch_effect, same_number, turn_page, handle,
  owned_articles_table,
}

-- Numbers that are the same for the effect are equal.
same_number_lem : (a b : Number) → same_number a b ≡ true → a ≡ b
same_number_lem (nat a) (nat b) h = ground arith
same_number_lem (positive s) (positive t) h = ground (arith, eq_iff s t)
same_number_lem (nonpositive s) (nonpositive t) h = ground (arith, eq_iff s t)
same_number_lem a b h = absurd (cc)

module _ (other : String → Number) (user_id : String) (params : Dict String) where
  abbrev fetch : SearchQuery → Async State (Unit {0})
  fetch q = do
    response ← search_articles q
    set_state (λ s. record s { articles = response.results })
    set_state (λ s. record s { total_num_of_page = number_of_pages response.total_count })

  abbrev show : SearchResponse → State → State
  show r s = record s { articles = r.results; total_num_of_page = number_of_pages r.total_count }

  abbrev query_of : State → SearchQuery
  query_of s = query user_id (page_num other s.search_params)

  abbrev articles_of : State → List SearchResultEntry
  articles_of s = s.articles

  abbrev pages_of : State → ℕ
  pages_of s = s.total_num_of_page

  starts :
      (mounted (owned_articles_table other user_id params)).tasks
      ≡ fetch (query_of (mounted (owned_articles_table other user_id params)).state) ∷ []
  unfolding settle fetch_effect search_articles ◌>>=◌
  starts = refl

  turn_page-Handles :
      (page : ℕ) (w : World State)
      → Handles query_of articles_of pages_of fetch w
          (settle (turn_page other user_id w.state.search_params page) w)
  unfolding settle turn_page fetch_effect search_articles ◌>>=◌
  turn_page-Handles page w =
      elim (Bool-cases (
        same_number (page_num other w.state.search_params)
          (page_num other (with_page page w.state.search_params)))) [
            | inl e ↦
                rw e (inl (refl, ap (query user_id) (sym (same_number_lem _ _ e)), refl, refl))
            | inr e ↦ rw e (inr refl)
          ]

  handles :
      (e : Event) (w : World State)
      → Handles query_of articles_of pages_of fetch w (settle (handle other user_id e w.state) w)
  unfolding settle handle open_searched_article ◌>>=◌
  handles (change_page page) w = turn_page-Handles page w
  handles (open_article id) w = inl (refl, refl, refl, refl)

  resumes :
      (serve : SearchQuery → SearchResponse) (q : SearchQuery) (m : Async State Unit)
      → Resumes (Serves serve) (fetch q) m
      → (w : World State) → settle m w ≡ record w { state = show (serve q) w.state }
  unfolding settle search_articles ◌>>=◌
  resumes serve q m (a, ok, at) w = rw (at, ok) refl

  abbrev owned_table : PagedTable State Event
  owned_table = record {
    component = owned_articles_table other user_id params;
    query_of = query_of;
    articles_of = articles_of;
    pages_of = pages_of;
    fetch = fetch;
    show = show;
    show_articles = λ r s. refl;
    show_pages = λ r s. refl;
    show_query = λ r s. refl;
    starts = starts;
    handles = handles;
    resumes = resumes;
  }

  -- Whenever no call is open, the table shows the articles and the number of pages that the server has
  -- for the user and the page of the address, as long as the server answers each query always in the
  -- same way and the searches are answered in their order.
  owned_in_order_shown :
      (serve : SearchQuery → SearchResponse) {w : World State}
      → InOrder
          (owned_articles_table other user_id params)
          (Serves serve)
          (mounted (owned_articles_table other user_id params))
          w
      → w.tasks ≡ []
      → (w.state.articles ≡ (serve (query_of w.state)).results)
        × (w.state.total_num_of_page ≡ number_of_pages (serve (query_of w.state)).total_count)
  owned_in_order_shown serve path idle = idle-UpToDate owned_table serve path idle
