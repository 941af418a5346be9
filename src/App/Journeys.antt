-- ===== src/App/Journeys.antt =====
-- From one component to the next: what a handler leads to, what the AuthProvider there loads, and what
-- is then on the screen.
use knowtfolio.Base.{String, Bool, true, Option, none, some, List, ◌≡◌, refl, ◌∙◌, arith}
use knowtfolio.Apis.Cognito.{
  SignUpForm, confirm_signing_up_to_cognito, sign_in_to_cognito_with_password,
  sign_out_from_cognito,
}
use knowtfolio.React.Program.{navigate, ◌>>=◌, catch}
use knowtfolio.React.Run.{Environment, run, Has, did}
use knowtfolio.Providers.Auth
use knowtfolio.Providers.Auth.{
  AuthContext, location_effect, load_current_user, content, authenticated, on_unauthenticated,
}
use knowtfolio.Providers.Auth.Loading.{Answers, authenticated_iff}
use knowtfolio.Forms.SignUp
use knowtfolio.Forms.SignUp.{verify, confirm_code, sign_in_after}
use knowtfolio.Tables.AccountInfo.{sign_out}
use knowtfolio.App.{
  Route, Page, page, routes, app, show, register_wallet_page, sign_in_page, guarded, plain,
}
use knowtfolio.React.View.{Offers}
use knowtfolio.Header
use knowtfolio.Header.{open_sign_in}
use knowtfolio.Header.Links.{Offers-account_iff}
use knowtfolio.App.Guarded.{Among}
use knowtfolio.App.Links.Routed.{place-Among}

-- The router takes a route of the table for the route's own path.
abbrev pub IsExact : (List Route → String → Option Route) → Type 0
IsExact choose = (r : Route) → Among r routes → choose routes r.path ≡ some r

verify_leads :
    (env : Environment) (form : SignUpForm) (code : String) (s : SignUp.State) (path : String)
    (should_load : Bool)
    → Has (did (navigate path should_load)) (run env (verify form code) s).trace
    → (path ≡ "/settings/wallet") × (should_load ≡ true)
unfolding run verify confirm_code confirm_signing_up_to_cognito sign_in_after
    sign_in_to_cognito_with_password ◌>>=◌ catch
verify_leads env form code s path should_load h = ground arith

wallet-place :
    Among (record { path = "/settings/wallet"; element = guarded register_wallet_page }) routes
unfolding routes
wallet-place = place-Among 6 routes _ refl

sign_in-place : Among (record { path = "/signin"; element = plain sign_in_page }) routes
unfolding routes
sign_in-place = place-Among 2 routes _ refl

exact_page :
    (choose : List Route → String → Option Route) (exact : IsExact choose) (r : Route)
    (at : Among r routes) (s : Auth.State)
    → app choose s r.path ≡ show s r.element
unfolding app
exact_page choose exact r at s = rw (exact r at, app) refl

loads_user :
    (env : Environment) (user : String) (auth : AuthContext)
    → Answers env user auth
    → content (run env (location_effect (some true) (some user)) Auth.initial).state
      ≡ authenticated auth
unfolding location_effect
loads_user env user auth a = (authenticated_iff env user auth).1 a

sign_out_leads :
    (env : Environment) (user path : String) (should_load : Bool)
    → Has (did (navigate path should_load)) (run env (sign_out user) tt).trace
    → (path ≡ "/signin") × (should_load ≡ true)
unfolding run sign_out sign_out_from_cognito ◌>>=◌ catch
sign_out_leads env user path should_load h = ground arith

signs_out :
    (env : Environment) (s : Auth.State)
    → content (run env (location_effect (some true) none) s).state ≡ on_unauthenticated
unfolding run location_effect load_current_user content ◌>>=◌
signs_out env s = refl

guarded_shown :
    (s : Auth.State) (auth : AuthContext) (p : Page)
    → content s ≡ authenticated auth
    → show s (guarded p) ≡ page (some auth) p
unfolding content
guarded_shown s auth p h = ground arith

module _ (choose : List Route → String → Option Route) (exact : IsExact choose)
    (env served : Environment) (path : String) (should_load : Bool) where
  -- For a router that takes a route of the table for the route's own path: wherever the sign-up
  -- leads once the code is verified, the load of the user that the navigation asks for, where
  -- Cognito and the table give a context for the user of the form, shows the page to register a
  -- wallet with that context.
  pub sign_up_journey :
      (form : SignUpForm) (code : String) (s : SignUp.State) (auth : AuthContext)
      → Has (did (navigate path should_load)) (run env (verify form code) s).trace
      → Answers served form.username auth
      → app choose
          (run served (location_effect (some should_load) (some form.username)) Auth.initial).state
          path
        ≡ page (some auth) register_wallet_page
  sign_up_journey form code s auth h a =
      let led = verify_leads env form code s path should_load h in
      rw (led.0, led.1)
        (exact_page choose exact _ wallet-place _
          ∙ guarded_shown _ auth register_wallet_page (loads_user served form.username auth a))

  -- For a router that takes a route of the table for the route's own path: wherever the sign-out
  -- leads, whoever was signed in, the load that the navigation asks for, which finds nobody, shows
  -- the sign-in page, and the header there offers to sign in.
  pub sign_out_journey :
      (user : String) (s : Auth.State)
      → Has (did (navigate path should_load)) (run env (sign_out user) tt).trace
      → (app choose (run served (location_effect (some should_load) none) s).state path
          ≡ page none sign_in_page)
        × Offers
            (Header.render (run served (location_effect (some should_load) none) s).state)
            open_sign_in
  sign_out_journey user s h =
      let led = sign_out_leads env user path should_load h in
      rw (led.0, led.1)
        (
          exact_page choose exact _ sign_in-place _,
          (Offers-account_iff (run served (location_effect (some true) none) s).state "").4.1
              (signs_out served s),
        )
