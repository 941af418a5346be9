-- ===== src/Tables/History.antt =====
-- The search page after any edits of its address, against what the user wants.
use knowtfolio.Base.{
  ℕ, ◌<◌, String, Option, none, some, List, [], ◌∷◌, ◌++◌, ◌≡◌, refl, ap, ◌∙◌, arith, eq_iff,
  truthy, if◌then◌else◌, All, All-append, Bool-cases, inl, inr,
}
use knowtfolio.Base.Dict.{Dict}
use knowtfolio.Apis.Number.{Number, nat}
use knowtfolio.Apis.Decimal.{max_exact}
use knowtfolio.Apis.Request.{Request, SearchQuery, search, resolved, rejected}
use knowtfolio.Apis.Knowtfolio.{search_articles}
use knowtfolio.React.Program.{◌>>=◌}
use knowtfolio.React.World.{World, settle, mounted, fresh}
use knowtfolio.React.World.History.{
  History, begun, raised, answered, Waits, Unmoved, answered-Unmoved,
}
use knowtfolio.Cards.{open_searched_article}
use knowtfolio.Tables.Params.{page_num, page_size, with_page, with_keywords}
use knowtfolio.Tables.Paging.{page_num-with_page, keywords_reset_page, cleared_keywords_keep_page}
use knowtfolio.Tables.SearchResult.{
  State, Event, initial, change_page, change_keywords, open_article, keywords_of, query,
  fetch_effect, go_to, handle, search_page,
}

-- What the user wants to see.
pub record Wanted : Type 0 where
  pub keywords : Option String
  pub page : Number

-- A page is turned to; new keywords start from the first page, and without keywords the page stays.
abbrev pub want : Event → Wanted → Wanted
want (change_page page) w = record w { page = nat page }
want (change_keywords content) w =
    if truthy content
    then record { keywords = some content; page = nat 1 }
    else record w { keywords = none }
want (open_article id) w = w

-- The last edit first.
abbrev pub want_all : List Event → Wanted → Wanted
want_all [] w = w
want_all (e ∷ es) w = want e (want_all es w)

abbrev pub query_for : Wanted → SearchQuery
query_for w = record {
  keywords = w.keywords;
  owned_by = none;
  sort_by = "updated_at";
  page_num = w.page;
  page_size = page_size;
}

-- What the address says.
abbrev pub wanted : (String → Number) → Dict String → Wanted
wanted other params = record { keywords = keywords_of params; page = page_num other params }

-- The pages turned to are positive and exact.
abbrev pub IsExact : Event → Type 0
IsExact (change_page page) = (0 < page) × (page < max_exact)
IsExact _ = Unit

wanted-with_page :
    (other : String → Number) (page : ℕ) (params : Dict String)
    → 0 < page
    → page < max_exact
    → wanted other (with_page page params) ≡ record (wanted other params) { page = nat page }
wanted-with_page other page params h k =
    let (page_is, others) = page_num-with_page other page params "q" h k in
    rw (page_is, others (λ e. ground (arith, eq_iff "q" "page"))) refl

wanted-with_keywords :
    (other : String → Number) (content : String) (params : Dict String)
    → wanted other (with_keywords content params)
      ≡ want (change_keywords content) (wanted other params)
wanted-with_keywords other content params = elim (Bool-cases (truthy content)) [
  | inl e ↦
      let (page_is, keywords_are) = keywords_reset_page other content params e in
      rw (page_is, keywords_are, e) refl
  | inr e ↦
      let (page_is, keywords_are) = cleared_keywords_keep_page other params in
      let empty : content ≡ "" = ground (arith, eq_iff content "") in
      rw (empty, page_is, keywords_are) refl
]

-- The last request is the search for what the address says, and what waits will show its answer.
record IsCurrent (other : String → Number) (w : World State) : Type 0 where
  pub earlier : List Request
  pub last : w.sent ≡ earlier ++ search "/api/search" (query other w.state.search_params) ∷ []
  pub waiting : All (Waits (λ s. s.search_params)) w.tasks

fetch_effect-IsCurrent :
    (other : String → Number) (w : World State)
    → All (Waits (λ s. s.search_params)) w.tasks
    → IsCurrent other (settle (fetch_effect other w.state.search_params) w)
unfolding settle fetch_effect search_articles ◌>>=◌
fetch_effect-IsCurrent other w h = record {
  earlier = w.sent;
  last = refl;
  waiting = All-append _ w.tasks _ h (shows, tt);
}
  where
    shows : Waits (λ s. s.search_params) (fetch_effect other w.state.search_params)
    shows (resolved response) = (λ s. refl, (λ s. refl, tt))
    shows (rejected e) = tt

handle-IsCurrent :
    (other : String → Number) (e : Event) (w : World State)
    → IsCurrent other w
    → IsCurrent other (settle (handle other e w.state) w)
unfolding handle go_to settle open_searched_article ◌>>=◌
handle-IsCurrent other (change_page page) w h =
    fetch_effect-IsCurrent other
      (record w { state = record w.state { search_params = with_page page w.state.search_params } })
      h.waiting
handle-IsCurrent other (change_keywords content) w h =
    fetch_effect-IsCurrent other
      (record w {
        state = record w.state { search_params = with_keywords content w.state.search_params };
      })
      h.waiting
handle-IsCurrent other (open_article id) w h = record {
  earlier = h.earlier;
  last = h.last;
  waiting = h.waiting;
}

answered-IsCurrent :
    (other : String → Number) (u v : World State)
    → Unmoved (λ s. s.search_params) u v
    → All (Waits (λ s. s.search_params)) u.tasks
    → (earlier : List Request)
    → u.sent ≡ earlier ++ search "/api/search" (query other u.state.search_params) ∷ []
    → IsCurrent other v
answered-IsCurrent other u v m h earlier last = record {
  earlier = earlier;
  last = rw (m.same_sent, m.same_view) last;
  waiting = rw m.same_tasks h;
}

handle-wanted :
    (other : String → Number) (e : Event) (w : World State)
    → IsExact e
    → wanted other (settle (handle other e w.state) w).state.search_params
      ≡ want e (wanted other w.state.search_params)
unfolding handle go_to settle fetch_effect search_articles open_searched_article ◌>>=◌
handle-wanted other (change_page page) w (h, k) =
    wanted-with_page other page w.state.search_params h k
handle-wanted other (change_keywords content) w h =
    wanted-with_keywords other content w.state.search_params
handle-wanted other (open_article id) w h = refl

module _ (other : String → Number) (params : Dict String) where
  abbrev Held : List Event → World State → Type 0
  Held es w =
      IsCurrent other w × (wanted other w.state.search_params ≡ want_all es (wanted other params))

  History-Held :
      {es : List Event} {w : World State}
      → History (search_page other params) (mounted (search_page other params)) es w
      → All IsExact es
      → Held es w
  unfolding settle fetch_effect search_articles ◌>>=◌
  History-Held begun h = (fetch_effect-IsCurrent other (fresh (initial params)) tt, refl)
  History-Held (raised {u} e history o) (x, h) =
      let (current, same) = History-Held history h in
      (handle-IsCurrent other e u current, handle-wanted other e u x ∙ ap (want e) same)
  History-Held (answered {u} before after q k a history at) h =
      let (current, same) = History-Held history h in
      let (unmoved, waiting) =
        answered-Unmoved (λ s. s.search_params) u before after q k a at current.waiting in
      (
        answered-IsCurrent other (record u { tasks = before ++ after }) _ unmoved waiting
            current.earlier current.last,
        ap (wanted other) unmoved.same_view ∙ same,
      )

  -- For any edits of the address, whose pages are positive and exact, in any order of the answers:
  -- the address of the search page says what the user wants by the edits and the first address, the
  -- last request is the search for just that, and nothing else is sent after it.
  pub search_refines :
      {es : List Event} {w : World State}
      → History (search_page other params) (mounted (search_page other params)) es w
      → All IsExact es
      → (wanted other w.state.search_params ≡ want_all es (wanted other params))
        × (earlier : List Request) × (w.sent
            ≡ earlier ++ search "/api/search" (query_for (want_all es (wanted other params))) ∷ [])
  search_refines history h =
      let (current, same) = History-Held history h in
      (
        same,
        current.earlier,
        current.last ∙ ap (λ v. current.earlier ++ search "/api/search" (query_for v) ∷ []) same,
      )
