-- ===== src/App/Links/Routed.antt =====
-- The paths that the client leads to, by the table of routes.
use knowtfolio.Base.{
  ℕ, zero, suc, String, List, [], ◌∷◌, ◌≡◌, refl, inl, inr, concat, Option, none, some, arith,
}
use knowtfolio.App.{Route, routes}
use knowtfolio.App.Guarded.{Among}
use knowtfolio.App.Links.{IsPage, IsRouted, IsSegment}

-- The route at a place of the table.
abbrev pub place : ℕ → List Route → Option Route
place n [] = none
place zero (r ∷ rs) = some r
place (suc n) (r ∷ rs) = place n rs

pub place-Among : (n : ℕ) (rs : List Route) (r : Route) → place n rs ≡ some r → Among r rs
place-Among n [] r h = ground arith
place-Among zero (x ∷ rs) r h = inl (ground arith)
place-Among (suc n) (x ∷ rs) r h = inr (place-Among n rs r h)

-- A path of the table with a page.
at_place : (n : ℕ) (r : Route) → place n routes ≡ some r → IsPage r.element → IsRouted r.path
at_place n r h k = (r, place-Among n routes r h, k, inl refl)

pub top-IsRouted : IsRouted "/"
unfolding routes
top-IsRouted = at_place 0 _ refl tt

pub sign_up-IsRouted : IsRouted "/signup"
unfolding routes
sign_up-IsRouted = at_place 1 _ refl tt

pub sign_in-IsRouted : IsRouted "/signin"
unfolding routes
sign_in-IsRouted = at_place 2 _ refl tt

pub reset_password-IsRouted : IsRouted "/reset-password"
unfolding routes
reset_password-IsRouted = at_place 3 _ refl tt

pub retry_confirmation-IsRouted : IsRouted "/retry-confirmation"
unfolding routes
retry_confirmation-IsRouted = at_place 4 _ refl tt

pub wallet-IsRouted : IsRouted "/settings/wallet"
unfolding routes
wallet-IsRouted = at_place 6 _ refl tt

pub profile-IsRouted : IsRouted "/settings/profile"
unfolding routes
profile-IsRouted = at_place 7 _ refl tt

pub password-IsRouted : IsRouted "/settings/password"
unfolding routes
password-IsRouted = at_place 8 _ refl tt

pub new_article-IsRouted : IsRouted "/articles/new"
unfolding routes
new_article-IsRouted = at_place 12 _ refl tt

pub search-IsRouted : IsRouted "/search"
unfolding routes
search-IsRouted = at_place 15 _ refl tt

-- The names of the table's parameters.
user_id-IsSegment : IsSegment "userId"
user_id-IsSegment = record {
  not_empty = refl;
  no_slash = refl;
  no_query = refl;
  no_fragment = refl;
}

article_id-IsSegment : IsSegment "articleId"
article_id-IsSegment = record {
  not_empty = refl;
  no_slash = refl;
  no_query = refl;
  no_fragment = refl;
}

-- The paths with a parameter.
pub user-IsRouted : (name : String) → IsSegment name → IsRouted (concat ("/users/" ∷ name ∷ []))
unfolding routes
user-IsRouted name h = (
  _,
  place-Among 10 routes _ refl,
  tt,
  inr ("/users/", "userId", [], name, refl, refl, user_id-IsSegment, h, inl refl),
)

pub article-IsRouted : (id : String) → IsSegment id → IsRouted (concat ("/articles/" ∷ id ∷ []))
unfolding routes
article-IsRouted id h = (
  _,
  place-Among 14 routes _ refl,
  tt,
  inr ("/articles/", "articleId", [], id, refl, refl, article_id-IsSegment, h, inl refl),
)

pub edit-IsRouted :
    (id : String) → IsSegment id → IsRouted (concat ("/articles/" ∷ id ∷ "/edit" ∷ []))
unfolding routes
edit-IsRouted id h = (
  _,
  place-Among 13 routes _ refl,
  tt,
  inr ("/articles/", "articleId", "/edit" ∷ [], id, refl, refl, article_id-IsSegment, h, inr refl),
)

pub ruleset routed_rules = (
  top-IsRouted, sign_up-IsRouted, sign_in-IsRouted, reset_password-IsRouted,
  retry_confirmation-IsRouted, wallet-IsRouted, profile-IsRouted, password-IsRouted,
  new_article-IsRouted, search-IsRouted, user-IsRouted, article-IsRouted, edit-IsRouted,
)
