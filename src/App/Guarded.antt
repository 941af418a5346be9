-- ===== src/App/Guarded.antt =====
-- Which pages need a user.
use knowtfolio.Base.{
  String, Bool, true, false, Option, some, List, [], ◌∷◌, ◌≡◌, ◌⊎◌, inl, inr, arith, Option-cases,
  All,
}
use knowtfolio.Providers.Auth
use knowtfolio.Providers.Auth.{AuthContext, content, authenticated}
use knowtfolio.App.{
  Page, Route, Element, plain, guarded, group, page, routes, show, app, register_wallet_page,
  reset_profile_page, update_password_page, upload_image_page, new_article_page, edit_article_page,
}

-- The pages that use a signed-in user.
abbrev pub needs_user : Page → Bool
needs_user register_wallet_page = true
needs_user reset_profile_page = true
needs_user update_password_page = true
needs_user upload_image_page = true
needs_user new_article_page = true
needs_user edit_article_page = true
needs_user _ = false

abbrev pub Among : Route → List Route → Type 0
Among r [] = ⊥
Among r (x ∷ xs) = (r ≡ x) ⊎ Among r xs

-- A page that stands on a route without an AuthProvider needs no user.
abbrev IsGuarded : Element → Type 0
IsGuarded (plain p) = needs_user p ≡ false
IsGuarded _ = Unit

routes-IsGuarded : All (λ r. IsGuarded r.element) routes
unfolding routes
routes-IsGuarded = ground arith

-- What holds along the table holds of a route among it.
pub All-Among : (P : Route → Type 0) (r : Route) (rs : List Route) → All P rs → Among r rs → P r
All-Among P r [] h m = elim m [ ]
All-Among P r (x ∷ xs) (h, hs) (inl e) = rw e h
All-Among P r (x ∷ xs) (h, hs) (inr m) = All-Among P r xs hs m

show_needs :
    (s : Auth.State) (e : Element) (auth : Option AuthContext) (p : Page)
    → IsGuarded e
    → show s e ≡ page auth p
    → needs_user p ≡ true
    → (user : AuthContext) × (auth ≡ some user) × (content s ≡ authenticated user)
unfolding content
show_needs s (plain q) auth p g shown needs = ground arith
show_needs s (guarded q) auth p g shown needs = ground arith
show_needs s group auth p g shown needs = ground arith

-- Whichever route of the table the router takes for a location: a page that needs a user is on the
-- screen only with the context of the user who is signed in.
pub guarded_pages :
    (choose : List Route → String → Option Route)
    → ((rs : List Route) (location : String) (r : Route) → choose rs location ≡ some r → Among r rs)
    → (s : Auth.State) (location : String) (auth : Option AuthContext) (p : Page)
    → app choose s location ≡ page auth p
    → needs_user p ≡ true
    → (user : AuthContext) × (auth ≡ some user) × (content s ≡ authenticated user)
unfolding app
guarded_pages choose chosen s location auth p shown needs =
    elim (Option-cases (choose routes location)) [
      | inl e ↦ cc (rw (e, app) at shown)
      | inr (r, e) ↦
          show_needs s r.element auth p
            (All-Among (λ r. IsGuarded r.element) r routes routes-IsGuarded
              (chosen routes location r e))
            (rw (e, app) at shown) needs
    ]
