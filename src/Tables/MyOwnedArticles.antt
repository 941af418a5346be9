-- ===== src/Tables/MyOwnedArticles.antt =====
-- client/src/components/organisms/tables/MyOwnedArticlesTable/index.tsx: the user's own articles.
-- Each one stands in a card of its own state, `Cards.render_card`.
use knowtfolio.Base.{ℕ, String, none, some, List, [], ◌∷◌, ◌++◌, false, if◌then◌else◌}
use mathlib.Core.List.{map}
use knowtfolio.Base.Dict.{Dict}
use knowtfolio.Apis.Number.{Number}
use knowtfolio.Apis.Request.{SearchQuery, SearchResultEntry}
use knowtfolio.Apis.Knowtfolio.{search_articles}
use knowtfolio.React.Program.{Async, ret, reload, set_state, perform, ◌>>=◌, ◌>>◌}
use knowtfolio.React.World.{Component}
use knowtfolio.React.View.{View, heading, text, button, pagination}
use knowtfolio.Providers.Auth.{AuthContext}
use knowtfolio.Tables.Params.{page_num, page_size, number_of_pages, with_page}
use knowtfolio.Tables.OwnedArticles.{same_number}

pub record State : Type 0 where
  pub search_params : Dict String
  pub articles : List SearchResultEntry
  pub total_num_of_page : ℕ

abbrev pub initial : Dict String → State
initial params = record { search_params = params; articles = []; total_num_of_page = 1 }

pub data Event : Type 0 where
  change_page : (page : ℕ) → Event
  refresh : Event

abbrev pub query : AuthContext → Number → SearchQuery
query auth page = record {
  keywords = none;
  owned_by = some auth.user;
  sort_by = "updated_at";
  page_num = page;
  page_size = page_size;
}

-- The effect on the number of the page and the user.
unfoldable pub fetch_effect : AuthContext → Number → Async State (Unit {0})
fetch_effect auth page = do
  response ← search_articles (query auth page)
  set_state (λ s. record s { articles = response.results })
  set_state (λ s. record s { total_num_of_page = number_of_pages response.total_count })

unfoldable pub turn_page :
    (String → Number) → AuthContext → Dict String → ℕ → Async State (Unit {0})
turn_page other auth params page = do
  set_state (λ s. record s { search_params = with_page page params })
  if same_number (page_num other params) (page_num other (with_page page params))
      then ret tt
      else fetch_effect auth (page_num other (with_page page params))

-- `window.location.reload()`: the page starts anew at its address. The calls that the old page has
-- left open are dropped by the browser; a mounted component here may still be given their answers.
unfoldable pub reload_page : (String → Number) → AuthContext → Dict String → Async State (Unit {0})
reload_page other auth params = do
  perform reload
  set_state (λ old. initial params)
  fetch_effect auth (page_num other params)

unfoldable pub handle : (String → Number) → AuthContext → Event → State → Async State (Unit {0})
handle other auth (change_page page) s = turn_page other auth s.search_params page
handle other auth refresh s = reload_page other auth s.search_params

-- A card is shown here by the title of its article.
unfoldable pub render : State → List (View String Event)
render s =
    heading "Article collection"
    ∷ button "refresh" false refresh
    ∷ (map (λ (article : SearchResultEntry). text article.title) s.articles
        ++ pagination s.total_num_of_page change_page ∷ [])

abbrev pub my_owned_articles_table :
    (String → Number) → AuthContext → Dict String → Component State String Event
my_owned_articles_table other auth params = record {
  initial = initial params;
  mount = fetch_effect auth (page_num other params);
  render = render;
  handle = handle other auth;
}
