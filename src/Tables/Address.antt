-- ===== src/Tables/Address.antt =====
-- The address of the search page, as what its parameters are: their order and their repetitions are
-- forgotten.
use knowtfolio.Base.{
  ℕ, String, true, ◌≡◌, refl, arith, eq_iff, truthy, Option, some, none, if◌then◌else◌, ◌==◌,
  Bool-cases, inl, inr, ap,
}
use mathlib.Core.HLevel.{hedberg}
use mathlib.Core.Quot
use mathlib.Core.Quot.{Quot, Quot-set}
use knowtfolio.Base.Dict.{Dict, lookup, lookup-without}
use knowtfolio.Tables.Params.{lookup-set_param, set_param, page_num, with_page, with_keywords}
use knowtfolio.Tables.Paging.{lookup-with_page}
use knowtfolio.Tables.SearchResult.{query}
use knowtfolio.Apis.Number.{Number}
use knowtfolio.Apis.Decimal.{to_string}

-- `get` answers the same for every name.
abbrev pub SameParams : Dict String → Dict String → Type 0
SameParams d e = (k : String) → lookup k d ≡ lookup k e

abbrev pub Address : Type 0
Address = Quot SameParams

pub lookup-with_keywords :
    (content : String) (params : Dict String) (k : String)
    → lookup k (with_keywords content params) ≡ (
        if truthy content
        then (if "page" == k then none else (if "q" == k then some content else lookup k params))
        else (if "q" == k then none else lookup k params))
unfolding with_keywords
lookup-with_keywords content params k = ground (
  arith,
  lookup-without "page" k (set_param "q" content params),
  lookup-without "q" k params,
  lookup-set_param "q" k content params,
)

-- A page turned to.
unfoldable pub turn : ℕ → Address → Address
turn page =
    Quot.lift Quot-set (λ d. Quot.mk (with_page page d))
      (λ d e h.
        Quot.sound (λ k. rw (lookup-with_page page d k, lookup-with_page page e k, h k) refl))

-- Keywords entered.
unfoldable pub enter : String → Address → Address
enter content =
    Quot.lift Quot-set (λ d. Quot.mk (with_keywords content d))
      (λ d e h.
        Quot.sound
          (λ k. rw (lookup-with_keywords content d k, lookup-with_keywords content e k, h k) refl))

turn-turn : (n m : ℕ) (a : Address) → turn n (turn m a) ≡ turn n a
unfolding turn
turn-turn n m =
    Quot.ind (λ a. Quot-set _ _)
      (λ d. Quot.sound (λ k. ground (
        arith,
        lookup-with_page n (with_page m d) k,
        lookup-with_page m d k,
        lookup-with_page n d k,
      )))

enter-turn :
    (content : String) (n : ℕ) (a : Address)
    → truthy content ≡ true
    → enter content (turn n a) ≡ enter content a
unfolding enter turn
enter-turn content n =
    Quot.ind (λ a. hlevel (Quot-set))
      (λ d h. Quot.sound (λ k. ground (
        arith,
        lookup-with_keywords content (with_page n d) k,
        lookup-with_page n d k,
        lookup-with_keywords content d k,
      )))

enter-enter :
    (content earlier : String) (a : Address)
    → truthy content ≡ true
    → enter content (enter earlier a) ≡ enter content a
unfolding enter
enter-enter content earlier =
    Quot.ind (λ a. hlevel (Quot-set))
      (λ d h. Quot.sound (λ k. ground (
        arith,
        lookup-with_keywords content (with_keywords earlier d) k,
        lookup-with_keywords earlier d k,
        lookup-with_keywords content d k,
      )))

enter-turn_comm : (n : ℕ) (a : Address) → enter "" (turn n a) ≡ turn n (enter "" a)
unfolding enter turn
enter-turn_comm n =
    Quot.ind (λ a. Quot-set _ _)
      (λ d. Quot.sound (λ k. ground (
        arith,
        lookup-with_keywords "" (with_page n d) k,
        lookup-with_page n d k,
        lookup-with_page n (with_keywords "" d) k,
        lookup-with_keywords "" d k,
        eq_iff "page" k,
        eq_iff "q" k,
        eq_iff "page" "q",
      )))

value_dec : (v w : Option String) → Dec (v ≡ w)
value_dec none none = yes refl
value_dec none (some t) = no (λ e. ground (arith, e))
value_dec (some s) none = no (λ e. ground (arith, e))
value_dec (some s) (some t) = elim (Bool-cases (s == t)) [
  | inl h ↦ yes (ap (λ x. some x) ((eq_iff s t).0 h))
  | inr h ↦ no (λ e. ground (arith, e, eq_iff s t))
]

pub value-IsSet : IsSet (Option String)
value-IsSet = hedberg value_dec

-- `get` of a parameter.
unfoldable pub get : String → Address → Option String
get k = Quot.lift value-IsSet (lookup k) (λ d e h. h k)

get-turn :
    (n : ℕ) (k : String) (a : Address)
    → get k (turn n a) ≡ (if "page" == k then some (to_string n) else get k a)
unfolding get turn
get-turn n k = Quot.ind (λ a. value-IsSet _ _) (λ d. lookup-with_page n d k)

get-enter :
    (content k : String) (a : Address)
    → get k (enter content a) ≡ (
        if truthy content
        then (if "page" == k then none else (if "q" == k then some content else get k a))
        else (if "q" == k then none else get k a))
unfolding get enter
get-enter content k = Quot.ind (λ a. value-IsSet _ _) (λ d. lookup-with_keywords content d k)

-- In the address of the search page the last edit counts, for keywords that are not empty. A page
-- replaces the page before it, keywords replace the keywords and drop the page, and clearing the
-- keywords and turning a page do not depend on their order. After a page is turned to, the address
-- has that page, and the keywords it had; after keywords are entered it has these and no page;
-- after they are cleared it has no keywords, and the page it had.
pub last_edit_counts :
    (n m : ℕ) (content earlier : String) (a : Address)
    → truthy content ≡ true
    → (turn n (turn m a) ≡ turn n a)
      × (enter content (turn n a) ≡ enter content a)
      × (enter content (enter earlier a) ≡ enter content a)
      × (enter "" (turn n a) ≡ turn n (enter "" a))
      × ((get "page" (turn n a) ≡ some (to_string n)) × (get "q" (turn n a) ≡ get "q" a))
      × ((get "q" (enter content a) ≡ some content) × (get "page" (enter content a) ≡ none))
      × ((get "q" (enter "" a) ≡ none) × (get "page" (enter "" a) ≡ get "page" a))
last_edit_counts n m content earlier a h = (
  turn-turn n m a,
  enter-turn content n a h,
  enter-enter content earlier a h,
  enter-turn_comm n a,
  (get-turn n "page" a, get-turn n "q" a),
  (ground (arith, get-enter content "q" a), ground (arith, get-enter content "page" a)),
  (get-enter "" "q" a, get-enter "" "page" a),
)

-- What the search page asks for is the same at the same address.
query-SameParams :
    (other : String → Number) (d e : Dict String) → SameParams d e → query other d ≡ query other e
unfolding page_num
query-SameParams other d e h = rw (h "q", h "page") refl
