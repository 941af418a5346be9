-- ===== src/Tests/Ordered.antt =====
-- Two searches answered in order, at concrete inputs.
use knowtfolio.Base.{◌≡◌, [], ◌∷◌, refl}
use knowtfolio.Apis.Request.{SearchQuery, SearchResponse, resolved}
use knowtfolio.Apis.Knowtfolio.{search_articles}
use knowtfolio.React.Program.{◌>>=◌}
use knowtfolio.React.World.{World, mounted, settle}
use knowtfolio.React.World.InOrder.{InOrder, begin, raise, proceed}
use knowtfolio.Tables.Order.{Offers-page}
use knowtfolio.Tables.SearchResult.{
  State, initial, change_page, search_page, handle, go_to, fetch_effect,
}
use knowtfolio.Tables.Params.{number_of_pages}
use knowtfolio.Tables.Paged.{Serves}
use knowtfolio.Tables.Settled.{searches_in_order_shown}
use knowtfolio.Tests.Servers.{found}
use knowtfolio.Tests.Tables.{unread, address}

abbrev serve : SearchQuery → SearchResponse
serve query = found

both_answered :
    (w : World State) × InOrder
      (search_page unread address)
      (Serves serve)
      (mounted (search_page unread address))
      w
    × (w.tasks ≡ [])
unfolding settle handle go_to fetch_effect search_articles ◌>>=◌
both_answered = (
  _,
  proceed _ [] _
      (proceed _ (_ ∷ []) _ (raise (change_page 2) begin (Offers-page (initial address) 2)) refl
        (resolved found, refl, refl))
      refl (resolved found, refl, refl),
  refl,
)

searches_in_order_shown_example :
    (both_answered.0.state.articles ≡ found.results)
    × (both_answered.0.state.total_num_of_page ≡ number_of_pages found.total_count)
searches_in_order_shown_example =
    searches_in_order_shown unread address serve both_answered.1 both_answered.2
