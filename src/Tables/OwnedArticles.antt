-- ===== src/Tables/OwnedArticles.antt =====
-- client/src/components/organisms/tables/OwnedArticlesTable/index.tsx: another user's articles.
pub mod Settled
use knowtfolio.Base.{
  ℕ, String, Bool, none, some, List, [], ◌∷◌, ◌++◌, ◌==◌, eqb, false, if◌then◌else◌,
}
use mathlib.Core.List.{flat_map}
use knowtfolio.Base.Dict.{Dict}
use knowtfolio.Apis.Number.{Number, nat, positive, nonpositive}
use knowtfolio.Apis.Request.{SearchQuery, SearchResultEntry}
use knowtfolio.Apis.Knowtfolio.{search_articles}
use knowtfolio.React.Program.{Async, ret, set_state, ◌>>=◌, ◌>>◌}
use knowtfolio.React.World.{Component}
use knowtfolio.React.View.{View, heading, pagination}
use knowtfolio.Cards.{searched_article_card, open_searched_article}
use knowtfolio.Tables.Params.{page_num, page_size, number_of_pages, with_page}

pub record State : Type 0 where
  pub search_params : Dict String
  pub articles : List SearchResultEntry
  pub total_num_of_page : ℕ

abbrev pub initial : Dict String → State
initial params = record { search_params = params; articles = []; total_num_of_page = 1 }

pub data Event : Type 0 where
  change_page : (page : ℕ) → Event
  open_article : (id : String) → Event

abbrev pub query : String → Number → SearchQuery
query user_id page = record {
  keywords = none;
  owned_by = some user_id;
  sort_by = "updated_at";
  page_num = page;
  page_size = page_size;
}

-- The effect on the number of the page and the user.
unfoldable pub fetch_effect : String → Number → Async State (Unit {0})
fetch_effect user_id page = do
  response ← search_articles (query user_id page)
  set_state (λ s. record s { articles = response.results })
  set_state (λ s. record s { total_num_of_page = number_of_pages response.total_count })

-- The two numbers are one, so that the effect is not run again.
abbrev pub same_number : Number → Number → Bool
same_number (nat a) (nat b) = eqb a b
same_number (positive s) (positive t) = s == t
same_number (nonpositive s) (nonpositive t) = s == t
same_number _ _ = false

unfoldable pub turn_page : (String → Number) → String → Dict String → ℕ → Async State (Unit {0})
turn_page other user_id params page = do
  set_state (λ s. record s { search_params = with_page page params })
  if same_number (page_num other params) (page_num other (with_page page params))
      then ret tt
      else fetch_effect user_id (page_num other (with_page page params))

unfoldable pub handle : (String → Number) → String → Event → State → Async State (Unit {0})
handle other user_id (change_page page) s = turn_page other user_id s.search_params page
handle other user_id (open_article id) s = open_searched_article id

unfoldable pub render : State → List (View String Event)
render s =
    heading "Article collection"
    ∷ (flat_map (searched_article_card open_article) s.articles
        ++ pagination s.total_num_of_page change_page ∷ [])

abbrev pub owned_articles_table :
    (String → Number) → String → Dict String → Component State String Event
owned_articles_table other user_id params = record {
  initial = initial params;
  mount = fetch_effect user_id (page_num other params);
  render = render;
  handle = handle other user_id;
}
