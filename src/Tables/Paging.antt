-- ===== src/Tables/Paging.antt =====
-- The page that the address names.
use knowtfolio.Base.{
  ℕ, ◌+◌, ◌*◌, ◌/◌, ◌<◌, ◌≤◌, String, true, none, some, ◌≡◌, ◌≢◌, refl, arith, eq_iff, truthy,
  if◌then◌else◌, ◌==◌, lt→ltb,
}
use knowtfolio.Base.Dict.{Dict, lookup, lookup-without}
use knowtfolio.Apis.Number.{Number, nat, is_positive}
use knowtfolio.Apis.Decimal.{number, to_string, number-to_string, max_exact}
use knowtfolio.Tables.Params.{
  lookup-set_param, page_num, page_size, number_of_pages, with_page, with_keywords,
}

pub lookup-with_page :
    (page : ℕ) (params : Dict String) (j : String)
    → lookup j (with_page page params)
      ≡ (if "page" == j then some (to_string page) else lookup j params)
unfolding with_page
lookup-with_page page params j = lookup-set_param "page" j (to_string page) params

-- The number is read off the one parameter.
abbrev positive_or_one : Number → Number
positive_or_one n = if is_positive n then n else nat 1

page_num_lem :
    (other : String → Number) (params : Dict String)
    → page_num other params ≡ positive_or_one (number other (lookup "page" params))
unfolding page_num
page_num_lem other params = refl

-- A positive exact page that the user turns to is the page that the address then names, and no
-- other parameter of the address changes.
pub page_num-with_page :
    (other : String → Number) (page : ℕ) (params : Dict String) (j : String)
    → 0 < page
    → page < max_exact
    → (page_num other (with_page page params) ≡ nat page)
      × (j ≢ "page" → lookup j (with_page page params) ≡ lookup j params)
page_num-with_page other page params j h k = (
  rw (page_num_lem, lookup-with_page, number-to_string other page k) (rw (lt→ltb 0 page h) refl),
  λ ne. rw lookup-with_page (ground (arith, eq_iff "page" j)),
)

-- Whatever the address holds, the number of the page is positive.
pub page_num-is_positive :
    (other : String → Number) (params : Dict String) → is_positive (page_num other params) ≡ true
unfolding page_num
page_num-is_positive other params = ground arith

-- Every article lies on one of the pages, and every page starts before the last article.
number_of_pages_exact :
    (total i : ℕ)
    → (i < total → i / page_size + 1 ≤ number_of_pages total)
      × (i < number_of_pages total → i * page_size < total)
unfolding number_of_pages
number_of_pages_exact total i = omega arith

-- New keywords that are not empty start from the first page, and are then the keywords of the
-- address.
pub keywords_reset_page :
    (other : String → Number) (content : String) (params : Dict String)
    → truthy content ≡ true
    → (page_num other (with_keywords content params) ≡ nat 1)
      × (lookup "q" (with_keywords content params) ≡ some content)
unfolding with_keywords number
keywords_reset_page other content params h = (
  rw (page_num_lem, h) (rw lookup-without refl),
  rw h (rw lookup-without (rw lookup-set_param refl)),
)

-- With the keywords cleared the page stays, and the address has no keywords left.
pub cleared_keywords_keep_page :
    (other : String → Number) (params : Dict String)
    → (page_num other (with_keywords "" params) ≡ page_num other params)
      × (lookup "q" (with_keywords "" params) ≡ none)
unfolding with_keywords
cleared_keywords_keep_page other params = (
  rw (page_num_lem other (with_keywords "" params), page_num_lem other params)
      (rw lookup-without refl),
  rw lookup-without refl,
)
