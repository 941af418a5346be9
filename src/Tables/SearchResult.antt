-- ===== src/Tables/SearchResult.antt =====
-- client/src/components/organisms/tables/SearchResultTable/index.tsx with the SearchForm above it:
-- the search page. The address is part of the state, since the two components share it.
use knowtfolio.Base.{
  ℕ, String, false, Option, none, some, List, [], ◌∷◌, ◌++◌, or_else, truthy?, if◌then◌else◌,
}
use mathlib.Core.List.{flat_map}
use knowtfolio.Base.Dict.{Dict, lookup}
use knowtfolio.Apis.Number.{Number}
use knowtfolio.Apis.Request.{SearchQuery, SearchResultEntry}
use knowtfolio.Apis.Knowtfolio.{search_articles}
use knowtfolio.React.Program.{Async, set_state, ◌>>=◌, ◌>>◌}
use knowtfolio.React.View.{View, heading, input, pagination}
use knowtfolio.React.World.{Component}
use knowtfolio.Cards.{searched_article_card, open_searched_article}
use knowtfolio.Tables.Params.{page_num, page_size, number_of_pages, with_page, with_keywords}

pub record State : Type 0 where
  pub search_params : Dict String
  pub articles : List SearchResultEntry
  pub total_num_of_page : ℕ

abbrev pub initial : Dict String → State
initial params = record { search_params = params; articles = []; total_num_of_page = 1 }

pub data Event : Type 0 where
  change_page : (page : ℕ) → Event
  change_keywords : (content : String) → Event
  open_article : (id : String) → Event

-- `searchParams.get("q") || undefined`.
abbrev pub keywords_of : Dict String → Option String
keywords_of params = if truthy? (lookup "q" params) then lookup "q" params else none

abbrev pub query : (String → Number) → Dict String → SearchQuery
query other params = record {
  keywords = keywords_of params;
  owned_by = none;
  sort_by = "updated_at";
  page_num = page_num other params;
  page_size = page_size;
}

-- The effect on the address.
unfoldable pub fetch_effect : (String → Number) → Dict String → Async State (Unit {0})
fetch_effect other params = do
  response ← search_articles (query other params)
  set_state (λ s. record s { articles = response.results })
  set_state (λ s. record s { total_num_of_page = number_of_pages response.total_count })

-- A new address, and the effect that it has.
unfoldable pub go_to : (String → Number) → Dict String → Async State (Unit {0})
go_to other params = do
  set_state (λ s. record s { search_params = params })
  fetch_effect other params

unfoldable pub handle : (String → Number) → Event → State → Async State (Unit {0})
handle other (change_page page) s = go_to other (with_page page s.search_params)
handle other (change_keywords content) s = go_to other (with_keywords content s.search_params)
handle other (open_article id) s = open_searched_article id

unfoldable pub render : State → List (View String Event)
render s =
    heading "Search"
    ∷ input "" (some (or_else (lookup "q" s.search_params) "")) false none change_keywords
    ∷ (flat_map (searched_article_card open_article) s.articles
        ++ pagination s.total_num_of_page change_page ∷ [])

abbrev pub search_page : (String → Number) → Dict String → Component State String Event
search_page other params = record {
  initial = initial params;
  mount = fetch_effect other params;
  render = render;
  handle = handle other;
}
