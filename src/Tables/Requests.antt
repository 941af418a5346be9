-- ===== src/Tables/Requests.antt =====
-- What the search page asks for, at any time and after any address.
use knowtfolio.Base.{
  String, true, none, some, ◌≡◌, refl, All, truthy, arith, truthy?, Option, if◌then◌else◌,
}
use knowtfolio.Base.Dict.{Dict, lookup}
use knowtfolio.Apis.Number.{Number, is_positive}
use knowtfolio.Apis.Request.{Request}
use knowtfolio.Apis.Knowtfolio.{search_articles}
use knowtfolio.React.Run.{Event, sent, did}
use knowtfolio.React.World.{World, Reach, mounted}
use knowtfolio.React.World.Does.{Does, does_rules, mounted-AllWell}
use knowtfolio.Cards.{open_searched_article}
use knowtfolio.Tables.Params.{page_size}
use knowtfolio.Tables.Paging.{page_num-is_positive}
use knowtfolio.Tables.SearchResult.{
  State, change_page, change_keywords, open_article, Event as Event', query, fetch_effect, go_to,
  handle, search_page,
}

-- The request is a search for a page that can be there: its number is positive, its size is that of
-- the table, and its keywords, if it has any, are not empty.
abbrev pub IsPaged : Request → Type 0
IsPaged (Request.search url params) =
    (url ≡ "/api/search")
    × (is_positive params.page_num ≡ true)
    × (params.page_size ≡ page_size)
    × ((keywords : String) → params.keywords ≡ some keywords → truthy keywords ≡ true)
IsPaged _ = ⊥

abbrev Searches : Event → Type 0
Searches (sent q) = IsPaged q
Searches (did e) = Unit

keywords_filled :
    (keywords : Option String) (content : String)
    → (if truthy? keywords then keywords else none) ≡ some content
    → truthy content ≡ true
keywords_filled none content h = ground arith
keywords_filled (some s) content h = ground arith

query-IsPaged :
    (other : String → Number) (params : Dict String)
    → Searches (sent (Request.search "/api/search" (query other params)))
query-IsPaged other params =
    (refl, page_num-is_positive other params, refl, keywords_filled (lookup "q" params))

fetch_effect-Does :
    (other : String → Number) (params : Dict String) → Does Searches (fetch_effect other params)
unfolding fetch_effect search_articles
fetch_effect-Does other params = search (does_rules, query-IsPaged)

handle-Does : (other : String → Number) (e : Event') (s : State) → Does Searches (handle other e s)
unfolding handle go_to open_searched_article
handle-Does other (change_page page) s = search (does_rules, fetch_effect-Does)
handle-Does other (change_keywords content) s = search (does_rules, fetch_effect-Does)
handle-Does other (open_article id) s = search does_rules

-- Whatever the address holds and whatever the user does, in any order of the answers, every request
-- that the search page has sent is a search for a positive page of twelve articles, with keywords
-- that are not empty or none.
pub searches-IsPaged :
    (other : String → Number) (address : Dict String) {w : World State}
    → Reach (search_page other address) (mounted (search_page other address)) w
    → All IsPaged w.sent
searches-IsPaged other address r =
    (mounted-AllWell (search_page other address) Searches (fetch_effect-Does other address)
      (handle-Does other) r).requests
