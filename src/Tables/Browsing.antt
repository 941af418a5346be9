-- ===== src/Tables/Browsing.antt =====
-- The search page against a search that answers any list of hits page by page.
use knowtfolio.Base.{
  ℕ, zero, suc, ◌+◌, ◌-◌, ◌*◌, ◌≤◌, ◌<◌, String, Option, some, List, [], ◌∷◌, ◌++◌, length, take,
  drop, ◌≡◌, refl, sym, ap, ◌∙◌, arith, eq_iff,
}
use knowtfolio.Base.Dict.{Dict}
use knowtfolio.Apis.Number.{Number, nat}
use knowtfolio.Apis.Decimal.{max_exact}
use knowtfolio.Apis.Request.{Request, SearchQuery, SearchResultEntry, resolved}
use knowtfolio.React.Run.{Environment, run}
use knowtfolio.Tables.Params.{with_page, number_of_pages, page_size}
use knowtfolio.Tables.Paging.{page_num-with_page}
use knowtfolio.Tables.Order.{turned_page_shown}
use knowtfolio.Tables.SearchResult.{State, change_page, keywords_of, query, handle}

module _ {ℓ} {A : Type ℓ} where
  take-nil : (n : ℕ) → take {A = A} n [] ≡ []
  take-nil zero = refl
  take-nil (suc n) = refl

  drop-nil : (n : ℕ) → drop {A = A} n [] ≡ []
  drop-nil zero = refl
  drop-nil (suc n) = refl

  take-split : (n m : ℕ) (xs : List A) → take (n + m) xs ≡ take n xs ++ take m (drop n xs)
  take-split zero m xs = ground arith
  take-split (suc n) m [] = rw (take-nil (suc n + m), take-nil m) refl
  take-split (suc n) m (x ∷ xs) =
      let e : suc n + m ≡ suc (n + m) = omega arith in rw e (ap (λ ys. x ∷ ys) (take-split n m xs))

  drop-drop : (n m : ℕ) (xs : List A) → drop m (drop n xs) ≡ drop (n + m) xs
  drop-drop zero m xs = ground arith
  drop-drop (suc n) m [] = rw (drop-nil (suc n + m), drop-nil m) refl
  drop-drop (suc n) m (x ∷ xs) =
      let e : suc n + m ≡ suc (n + m) = omega arith in rw e (drop-drop n m xs)

  -- A page and what follows it.
  page-slices :
      (p n size : ℕ) (xs : List A)
      → take size (drop (p * size) xs) ++ take (n * size) (drop (suc p * size) xs)
        ≡ take (suc n * size) (drop (p * size) xs)
  page-slices p n size xs =
      let e : p * size + size ≡ suc p * size = omega arith in
      rw (sym e, sym (drop-drop (p * size) size xs))
        let f : size + n * size ≡ suc n * size = omega arith in
          rw (sym f) (sym (take-split size (n * size) (drop (p * size) xs)))

  take_all : (n : ℕ) (xs : List A) → length xs ≤ n → take n xs ≡ xs
  take_all zero [] h = refl
  take_all zero (x ∷ xs) h = ground arith
  take_all (suc n) [] h = refl
  take_all (suc n) (x ∷ xs) h = ap (λ ys. x ∷ ys) (take_all n xs (omega (arith, h)))

-- The hits of a page.
abbrev pub slice : ℕ → ℕ → List SearchResultEntry → List SearchResultEntry
slice page size hits = take size (drop ((page - 1) * size) hits)

-- The search answers each page from the hits of the keywords.
abbrev pub Serves : Environment → (Option String → List SearchResultEntry) → Type 0
Serves env hits =
    (params : SearchQuery) (page : ℕ)
    → params.page_num ≡ nat page
    → env 0 (Request.search "/api/search" params)
      ≡ some (
          resolved (record {
            results = slice page params.page_size (hits params.keywords);
            total_count = length (hits params.keywords);
          }))

-- The state after a page was turned to and answered.
abbrev pub turn : Environment → (String → Number) → ℕ → State → State
turn env other page s = (run env (handle other (change_page page) s) s).state

-- The articles shown on that many pages from a page on, one page after the other.
abbrev pub browse : Environment → (String → Number) → ℕ → ℕ → State → List SearchResultEntry
browse env other zero page s = []
browse env other (suc n) page s =
    (turn env other page s).articles ++ browse env other n (suc page) (turn env other page s)

-- The first page, and the others by the number of pages that it shows.
abbrev pub browse_all : Environment → (String → Number) → State → List SearchResultEntry
browse_all env other s =
    (turn env other 1 s).articles
    ++ browse env other ((turn env other 1 s).total_num_of_page - 1) 2 (turn env other 1 s)

keywords_of-with_page :
    (page : ℕ) (params : Dict String)
    → 0 < page
    → page < max_exact
    → keywords_of (with_page page params) ≡ keywords_of params
keywords_of-with_page page params h k =
    rw ((page_num-with_page (λ t. nat 0) page params "q" h k).1 (ground (arith, eq_iff "q" "page")))
      refl

pages_cover : (total : ℕ) → total ≤ suc (number_of_pages total - 1) * page_size
unfolding number_of_pages
pages_cover total = omega arith

pages_few : (total : ℕ) → total < max_exact → 1 + (number_of_pages total - 1) < max_exact
unfolding number_of_pages
pages_few total h = omega (arith, h)

module _ (env : Environment) (other : String → Number)
    (hits : Option String → List SearchResultEntry) (serves : Serves env hits) where
  turn_lem :
      (page : ℕ) (s : State)
      → 0 < page
      → page < max_exact
      → turn env other page s ≡ record {
        search_params = with_page page s.search_params;
        articles = slice page page_size (hits (keywords_of s.search_params));
        total_num_of_page = number_of_pages (length (hits (keywords_of s.search_params)));
      }
  turn_lem page s h k =
      (turned_page_shown env other s page _ h k (
        serves (query other (with_page page s.search_params)) page
          (page_num-with_page other page s.search_params "q" h k).0)).1
      ∙ ap
          (λ keywords. record {
            search_params = with_page page s.search_params;
            articles = slice page page_size (hits keywords);
            total_num_of_page = number_of_pages (length (hits keywords));
          })
          (keywords_of-with_page page s.search_params h k)

  turned_articles :
      (page : ℕ) (s : State)
      → 0 < page
      → page < max_exact
      → (turn env other page s).articles ≡ slice page page_size (hits (keywords_of s.search_params))
  turned_articles page s h k = ap (λ t. t.articles) (turn_lem page s h k)

  turned_keywords :
      (page : ℕ) (s : State)
      → 0 < page
      → page < max_exact
      → keywords_of (turn env other page s).search_params ≡ keywords_of s.search_params
  turned_keywords page s h k =
      ap (λ t. keywords_of t.search_params) (turn_lem page s h k)
      ∙ keywords_of-with_page page s.search_params h k

  browse_lem :
      (n p : ℕ) (s : State)
      → p + n < max_exact
      → browse env other n (suc p) s
        ≡ take (n * page_size) (drop (p * page_size) (hits (keywords_of s.search_params)))
  browse_lem zero p s h = refl
  browse_lem (suc n) p s h =
      let small : suc p < max_exact = omega (arith, h) in
      let later : suc p + n < max_exact = omega (arith, h) in
      let from : suc p - 1 ≡ p = omega arith in
      rw (turned_articles (suc p) s (omega arith) small) rw
        (browse_lem n (suc p) (turn env other (suc p) s) later) rw
        (turned_keywords (suc p) s (omega arith) small, from)
        (page-slices p n page_size (hits (keywords_of s.search_params)))

  -- For a search that answers every page with that page of one list of hits per keywords and with
  -- the number of the hits, which is below 2 ^ 53: the articles shown on the first page and then on
  -- each of the others, up to the number of pages that the table shows, are together all the hits
  -- of the address's keywords, in their order.
  pub browsing_shows_all :
      (s : State)
      → length (hits (keywords_of s.search_params)) < max_exact
      → browse_all env other s ≡ hits (keywords_of s.search_params)
  browsing_shows_all s h =
      let hit = hits (keywords_of s.search_params) in
      rw (turned_articles 1 s (omega arith) (omega arith)) rw
        (ap (λ t. t.total_num_of_page) (turn_lem 1 s (omega arith) (omega arith))) rw
        (browse_lem (number_of_pages (length hit) - 1) 1 (turn env other 1 s)
          (pages_few (length hit) h))
        rw (turned_keywords 1 s (omega arith) (omega arith))
        (page-slices 0 _ page_size hit ∙ take_all _ _ (pages_cover (length hit)))
