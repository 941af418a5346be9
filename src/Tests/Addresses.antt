-- ===== src/Tests/Addresses.antt =====
-- The address of the search page at concrete inputs.
use knowtfolio.Base.{some, none, String, ◌≡◌, [], ◌∷◌, ◌++◌, List, inl, inr, refl, arith}
use mathlib.Core.Quot
use knowtfolio.Base.Dict.{Dict, without}
use knowtfolio.Tables.Params.{with_keywords, set_param}
use knowtfolio.Apis.Request.{Request, search, resolved}
use knowtfolio.Apis.Knowtfolio.{search_articles}
use knowtfolio.React.Program.{◌>>=◌}
use knowtfolio.React.World.{World, mounted, settle}
use knowtfolio.React.World.History.{History, begun, raised, answered}
use knowtfolio.Apis.Decimal.{to_string}
use knowtfolio.Tables.Address.{get, turn, enter, last_edit_counts}
use knowtfolio.Tables.SearchResult.{
  State, Event, initial, change_page, change_keywords, search_page, handle, go_to, fetch_effect,
  render,
}
use knowtfolio.Tables.Order.{Offers-page}
use knowtfolio.Tables.History.{wanted, want_all, query_for, search_refines}
use knowtfolio.Tests.Servers.{found}
use knowtfolio.Tests.Tables.{unread, address}

last_edit_counts_example :
    (turn 2 (turn 1 (Quot.mk address)) ≡ turn 2 (Quot.mk address))
    × (enter "art" (turn 2 (Quot.mk address)) ≡ enter "art" (Quot.mk address))
    × (enter "art" (enter "ar" (Quot.mk address)) ≡ enter "art" (Quot.mk address))
    × (enter "" (turn 2 (Quot.mk address)) ≡ turn 2 (enter "" (Quot.mk address)))
    × ((get "page" (turn 2 (Quot.mk address)) ≡ some "2")
        × (get "q" (turn 2 (Quot.mk address)) ≡ get "q" (Quot.mk address)))
    × ((get "q" (enter "art" (Quot.mk address)) ≡ some "art")
        × (get "page" (enter "art" (Quot.mk address)) ≡ none))
    × ((get "q" (enter "" (Quot.mk address)) ≡ none)
        × (get "page" (enter "" (Quot.mk address)) ≡ get "page" (Quot.mk address)))
unfolding to_string
last_edit_counts_example = last_edit_counts 2 1 "art" "ar" (Quot.mk address) refl

-- New keywords, then the second page, then the answer to the first search.
abbrev searched : Dict String
searched = ("q", "art") ∷ []

abbrev edits : List Event
edits = change_page 2 ∷ change_keywords "art" ∷ []

edited :
    (w : World State) × History
      (search_page unread address)
      (mounted (search_page unread address))
      edits
      w
unfolding settle handle go_to fetch_effect search_articles render with_keywords set_param without
    ◌>>=◌
edited = (
  _,
  answered [] _ _ _ (resolved found)
      (raised (change_page 2) (raised (change_keywords "art") begun (inr (inl (refl, "art", refl))))
        (Offers-page (initial searched) 2))
      refl,
)

search_refines_example :
    (wanted unread edited.0.state.search_params ≡ want_all edits (wanted unread address))
    × (earlier : List Request) × (edited.0.sent
        ≡ earlier ++ search "/api/search" (query_for (want_all edits (wanted unread address))) ∷ [])
search_refines_example =
    search_refines unread address edited.1 ((omega arith, omega arith), (tt, tt))
