-- ===== src/Tests/Tables.antt =====
-- The tables and the numbers of their pages at concrete inputs.
use knowtfolio.Base.{String, ◌≡◌, [], ◌∷◌, ◌++◌}
use knowtfolio.Base.Dict.{Dict}
use knowtfolio.Apis.Number.{Number, nan, nat, positive, nonpositive}
use knowtfolio.Apis.Request.{SearchQuery, SearchResponse, search}
use knowtfolio.React.World.{World}
use knowtfolio.React.World.Rely.{Trusted}
use knowtfolio.Tables.Paged.{Serves}
use knowtfolio.Tables.Params.{with_page}
use knowtfolio.Tables.SearchResult.{State, initial, query, search_page}
use knowtfolio.Tables.Order.{stale_results}
use knowtfolio.Tests.Servers.{found}

abbrev pub unread : String → Number
unread s = nan

abbrev pub address : Dict String
address = ("q", "nft") ∷ ("page", "3") ∷ []

abbrev opened : State
opened = initial address

-- The articles on the page with that number: none but on a positive one.
unfoldable results_on : Number → SearchResponse
results_on (nat n) = found
results_on (positive s) = found
results_on (nonpositive s) = record { results = []; total_count = 0 }
results_on nan = record { results = []; total_count = 0 }

unfoldable serve : SearchQuery → SearchResponse
serve q = results_on q.page_num

stale_results_example :
    (w : World State) × Trusted
      (search_page unread address)
      (Serves serve)
      (record { state = opened; tasks = []; effects = []; sent = [] })
      w
    × (w.state.search_params ≡ with_page 2 (with_page 1 address))
    × (w.state.articles ≡ (serve (query unread (with_page 1 address))).results)
    × (w.tasks ≡ [])
    × (w.sent
        ≡ ([] ++ search "/api/search" (query unread (with_page 1 address)) ∷ [])
          ++ search "/api/search" (query unread (with_page 2 (with_page 1 address))) ∷ [])
stale_results_example = stale_results unread address opened [] [] serve 1 2
