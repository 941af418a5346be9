-- ===== src/Tables/Params.antt =====
-- The parameters of the page's address, `URLSearchParams`, in order and with repetitions.
use knowtfolio.Base.{
  ℕ, ◌+◌, ◌-◌, ◌/◌, String, some, [], ◌∷◌, ◌==◌, ◌≡◌, refl, arith, eq_iff, if◌then◌else◌, truthy,
}
use knowtfolio.Base.Dict.{Dict, lookup, without, lookup-without}
use knowtfolio.Apis.Number.{Number, nat, is_positive}
use knowtfolio.Apis.Decimal.{number, to_string}

-- `set`: the first value of the name is replaced and the others go; without one it comes last.
unfoldable pub set_param : String → String → Dict String → Dict String
unfolding without
set_param k v [] = (k, v) ∷ []
set_param k v ((j, w) ∷ d) = if j == k then (j, v) ∷ without k d else (j, w) ∷ set_param k v d

pub lookup-set_param :
    (k j v : String) (d : Dict String)
    → lookup j (set_param k v d) ≡ (if k == j then some v else lookup j d)
unfolding lookup set_param
lookup-set_param k j v [] = refl
lookup-set_param k j v ((i, w) ∷ d) =
    ground
      (arith, eq_iff k j, eq_iff i k, eq_iff i j, lookup-set_param k j v d, lookup-without k j d)

-- The memo `pageNum`: `const n = Number(searchParams.get("page")); return n > 0 ? n : 1`.
unfoldable pub page_num : (String → Number) → Dict String → Number
unfolding number lookup
page_num other params =
    let n = number other (lookup "page" params) in if is_positive n then n else nat 1

-- `Math.ceil(total_count / pageSize)` with pages of 12.
abbrev pub page_size : ℕ
page_size = 12

unfoldable pub number_of_pages : ℕ → ℕ
number_of_pages total_count = (total_count + (page_size - 1)) / page_size

-- The parameters after a change of the page.
unfoldable pub with_page : ℕ → Dict String → Dict String
unfolding set_param
with_page page params = set_param "page" (to_string page) params

-- The parameters after a change of the keywords, SearchForm's `onChangeKeywords`.
unfoldable pub with_keywords : String → Dict String → Dict String
unfolding set_param without
with_keywords content params =
    if truthy content then without "page" (set_param "q" content params) else without "q" params
