-- ===== src/Pages/Account/Mine.antt =====
-- Whose account the page shows as the user's own.
use knowtfolio.Base.{String, Option, none, some, ◌≡◌, ◌≢◌, ◌↔◌, arith, eq_iff, sym, ap, ◌∙◌}
use knowtfolio.React.Run.{Environment, run}
use knowtfolio.Providers.Auth
use knowtfolio.Providers.Auth.{
  AuthContext, Content, content, load_current_user, authenticated, while_loading_session,
  on_unauthenticated,
}
use knowtfolio.Providers.Auth.Loading.{Answers, authenticated_iff}
use knowtfolio.Pages.Account.{account_page, page_of, my_account_page}

page_of_iff :
    (user_id : Option String) (c : Content) (auth : AuthContext)
    → (page_of user_id c ≡ my_account_page auth)
      ↔ ((c ≡ authenticated auth) × (user_id ≡ some auth.user) × (auth.user ≢ ""))
page_of_iff none while_loading_session auth = ground arith
page_of_iff none (authenticated a) auth = ground arith
page_of_iff none on_unauthenticated auth = ground arith
page_of_iff (some id) while_loading_session auth = ground arith
page_of_iff (some id) (authenticated a) auth = ground (arith, eq_iff a.user id, eq_iff id "")
page_of_iff (some id) on_unauthenticated auth = ground arith

-- On the page that has just been opened for an account, by a user whom Cognito knows, the user's
-- own account is shown with a context exactly when the account is the user's, its name is not
-- empty, and Cognito and the table have given that context.
my_account_page_iff :
    (env : Environment) (user : String) (user_id : Option String) (auth : AuthContext)
    → (account_page user_id (run env (load_current_user (some user)) Auth.initial).state
        ≡ my_account_page auth)
      ↔ ((user_id ≡ some user) × (user ≢ "") × Answers env user auth)
unfolding account_page
my_account_page_iff env user user_id auth =
    let page =
      page_of_iff user_id (content (run env (load_current_user (some user)) Auth.initial).state)
        auth in
    let answers = authenticated_iff env user auth in
    (
      λ h.
          let (signed_in, mine, named) = page.0 h in
          let a = answers.0 signed_in in
          (mine ∙ ap some a.same_user, λ e. named (a.same_user ∙ e), a),
      λ (mine, named, a).
          page.1 (answers.1 a, mine ∙ ap some (sym a.same_user), λ e. named (sym a.same_user ∙ e)),
    )
