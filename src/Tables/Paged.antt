-- ===== src/Tables/Paged.antt =====
-- What the tables of articles promise: each fetches the articles of a query that its state determines.
-- From that alone, a table whose searches are answered in order ends with what the server has.
use knowtfolio.Base.{ℕ, String, List, [], ◌∷◌, ◌++◌, ◌≡◌, refl, sym, ap, ◌∙◌, ◌⊎◌, inl, inr}
use mathlib.Core.Path.{subst}
use knowtfolio.Apis.Request.{
  Request, Reply, SearchQuery, SearchResponse, SearchResultEntry, resolved,
}
use knowtfolio.React.Program.{Async}
use knowtfolio.React.World.{World, settle, mounted, Component}
use knowtfolio.React.World.InOrder.{Resumes, InOrder, begin, raise, proceed}
use knowtfolio.Tables.Params.{number_of_pages}

-- The server answers a query always the same.
abbrev pub Serves : (SearchQuery → SearchResponse) → (q : Request) → Reply q → Type 0
Serves serve (Request.search url query) a = a ≡ resolved (serve query)
Serves serve _ a = Unit

-- An event leaves what the table shows and asks for as it is, or asks anew.
abbrev pub Handles :
    {S : Type 0}
    → (S → SearchQuery)
    → (S → List SearchResultEntry)
    → (S → ℕ)
    → (SearchQuery → Async S (Unit {0}))
    → World S
    → World S
    → Type 0
Handles query_of articles_of pages_of fetch w v =
    ((v.tasks ≡ w.tasks)
      × (query_of v.state ≡ query_of w.state)
      × (articles_of v.state ≡ articles_of w.state)
      × (pages_of v.state ≡ pages_of w.state))
    ⊎ (v.tasks ≡ w.tasks ++ fetch (query_of v.state) ∷ [])

pub record PagedTable (S E : Type 0) : Type 1 where
  pub component : Component S String E
  pub query_of : S → SearchQuery
  pub articles_of : S → List SearchResultEntry
  pub pages_of : S → ℕ
  pub fetch : SearchQuery → Async S (Unit {0})
  pub show : SearchResponse → S → S
  pub show_articles : (r : SearchResponse) (s : S) → articles_of (show r s) ≡ r.results
  pub show_pages :
      (r : SearchResponse) (s : S) → pages_of (show r s) ≡ number_of_pages r.total_count
  pub show_query : (r : SearchResponse) (s : S) → query_of (show r s) ≡ query_of s
  pub starts : (mounted component).tasks ≡ fetch (query_of (mounted component).state) ∷ []
  pub handles :
      (e : E) (w : World S)
      → Handles query_of articles_of pages_of fetch w (settle (component.handle e w.state) w)
  pub resumes :
      (serve : SearchQuery → SearchResponse) (q : SearchQuery) (m : Async S (Unit {0}))
      → Resumes (Serves serve) (fetch q) m
      → (w : World S) → settle m w ≡ record w { state = show (serve q) w.state }

module _ {S E : Type 0} (table : PagedTable S E) (serve : SearchQuery → SearchResponse) where
  open table use {query_of, articles_of, pages_of, fetch}

  -- The table shows what the server has for its query.
  abbrev pub UpToDate : S → Type 0
  UpToDate s =
      (articles_of s ≡ (serve (query_of s)).results)
      × (pages_of s ≡ number_of_pages (serve (query_of s)).total_count)

  -- Every handler waits for a search, and the last one for that of the query.
  abbrev Awaits : SearchQuery → List (Async S (Unit {0})) → Type 0
  Awaits query [] = ⊥
  Awaits query (t ∷ []) = t ≡ fetch query
  Awaits query (t ∷ u ∷ ts) = ((q : SearchQuery) × (t ≡ fetch q)) × Awaits query (u ∷ ts)

  abbrev Current : World S → Type 0
  Current w = ((w.tasks ≡ []) × UpToDate w.state) ⊎ Awaits (query_of w.state) w.tasks

  Awaits-append :
      (query next : SearchQuery) (ts : List (Async S Unit))
      → Awaits query ts
      → Awaits next (ts ++ fetch next ∷ [])
  Awaits-append query next [] h = absurd h
  Awaits-append query next (t ∷ []) h = ((query, h), refl)
  Awaits-append query next (t ∷ u ∷ ts) (h, rest) = (h, Awaits-append query next (u ∷ ts) rest)

  fetched-Awaits :
      (w : World S) (next : SearchQuery) → Current w → Awaits next (w.tasks ++ fetch next ∷ [])
  fetched-Awaits w next (inl (e, shown)) = rw e refl
  fetched-Awaits w next (inr h) = Awaits-append (query_of w.state) next w.tasks h

  handled-Current :
      (w v : World S) → Handles query_of articles_of pages_of fetch w v → Current w → Current v
  handled-Current w v (inr at) h =
      inr (subst (Awaits (query_of v.state)) (sym at) (fetched-Awaits w (query_of v.state) h))
  handled-Current w v (inl (at, q, a, p)) (inl (e, (shown, pages))) =
      inl (at ∙ e, (rw (a, q) shown, rw (p, q) pages))
  handled-Current w v (inl (at, q, a, p)) (inr h) = inr (rw (q, at) h)

  answered-Current :
      (w : World S) (rest : List (Async S Unit)) (q : SearchQuery)
      → ((rest ≡ []) × (q ≡ query_of w.state)) ⊎ Awaits (query_of w.state) rest
      → Current (record w { state = table.show (serve q) w.state; tasks = rest })
  answered-Current w rest q (inl (e, p)) = inl (
    e,
    (
      table.show_articles (serve q) w.state
          ∙ ap (λ x. (serve x).results) (p ∙ sym (table.show_query (serve q) w.state)),
      table.show_pages (serve q) w.state
          ∙ ap (λ x. number_of_pages (serve x).total_count)
              (p ∙ sym (table.show_query (serve q) w.state)),
    ),
  )
  answered-Current w rest q (inr h) =
      inr (subst (λ x. Awaits x rest) (sym (table.show_query (serve q) w.state)) h)

  resumed :
      (w : World S) (first m : Async S Unit) (rest : List (Async S Unit)) (q : SearchQuery)
      → first ≡ fetch q
      → Resumes (Serves serve) first m
      → settle m (record w { tasks = rest })
        ≡ record w { state = table.show (serve q) w.state; tasks = rest }
  resumed w first m rest q e r =
      table.resumes serve q m (subst (λ t. Resumes (Serves serve) t m) e r)
        (record w { tasks = rest })

  proceed-Current :
      (w : World S) (first : Async S Unit) (rest : List (Async S Unit)) (m : Async S Unit)
      → Awaits (query_of w.state) (first ∷ rest)
      → Resumes (Serves serve) first m
      → Current (settle m (record w { tasks = rest }))
  proceed-Current w first [] m h r =
      subst Current (sym (resumed w first m [] (query_of w.state) h r))
        (answered-Current w [] (query_of w.state) (inl (refl, refl)))
  proceed-Current w first (t ∷ ts) m ((q, e), h) r =
      subst Current (sym (resumed w first m (t ∷ ts) q e r)) (answered-Current w (t ∷ ts) q (inr h))

  cons-ne-nil : (t : Async S Unit) (ts : List (Async S Unit)) → ¬ (t ∷ ts ≡ [])
  cons-ne-nil t ts e = cc

  InOrder-Current :
      {w : World S} → InOrder table.component (Serves serve) (mounted table.component) w → Current w
  InOrder-Current begin =
      inr (subst (Awaits (query_of (mounted table.component).state)) (sym table.starts) refl)
  InOrder-Current (raise {u} e path o) =
      handled-Current u (settle (table.component.handle e u.state) u) (table.handles e u)
        (InOrder-Current path)
  InOrder-Current (proceed {u} first rest m path at r) = elim (InOrder-Current path) [
    | inl (e, shown) ↦ absurd (cons-ne-nil first rest (sym at ∙ e))
    | inr h ↦ proceed-Current u first rest m (subst (Awaits (query_of u.state)) at h) r
  ]

  -- Whenever no call is open, the table is up to date.
  pub idle-UpToDate :
      {w : World S}
      → InOrder table.component (Serves serve) (mounted table.component) w
      → w.tasks ≡ []
      → UpToDate w.state
  idle-UpToDate {w} path idle = elim (InOrder-Current path) [
    | inl (e, shown) ↦ shown
    | inr h ↦ absurd (subst (Awaits (query_of w.state)) idle h)
  ]
