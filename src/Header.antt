-- ===== src/Header.antt =====
-- client/src/components/organisms/Header/index.tsx: the header of the pages, around an AuthProvider of
-- its own.
pub mod Links
use knowtfolio.Base.{String, true, false, Option, none, some, List, [], ◌∷◌, ◌++◌, concat}
use knowtfolio.React.Program.{Async, navigate, perform}
use knowtfolio.React.View.{View, button, text, wallet}
use knowtfolio.Providers.Auth
use knowtfolio.Providers.Auth.{AuthContext, provide, loading_display}

pub data Event : Type 0 where
  open_top : Event
  open_account : (user : String) → Event
  open_sign_up : Event
  open_sign_in : Event
  open_new_article : Event
  open_search : Event

unfoldable pub handle : {S : Type 0} → Event → Async S (Unit {0})
handle open_top = perform (navigate "/" false)
handle (open_account user) = perform (navigate (concat ("/users/" ∷ user ∷ [])) false)
handle open_sign_up = perform (navigate "/signup" false)
handle open_sign_in = perform (navigate "/signin" false)
handle open_new_article = perform (navigate "/articles/new" false)
handle open_search = perform (navigate "/search" false)

-- The button of the account, with the wallet's address in it.
abbrev pub account_info : AuthContext → List (View String Event)
account_info auth =
    button auth.user false (open_account auth.user) ∷ wallet auth.user_wallet_address true ∷ []

abbrev pub auth_buttons : List (View String Event)
auth_buttons = button "sign up" false open_sign_up ∷ button "sign in" false open_sign_in ∷ []

abbrev pub signed_in_links : AuthContext → List (View String Event)
signed_in_links auth =
    account_info auth
    ++ button "create article" false open_new_article ∷ button "search" false open_search ∷ []

unfoldable pub render : Auth.State → List (View String Event)
unfolding Auth.content
render s =
    button "Knowtfolio" false open_top
    ∷ provide signed_in_links auth_buttons (loading_display none) s
