-- ===== src/Pages/Account.antt =====
-- client/src/components/pages/AccountPage/index.tsx: one's own account, or another's.
pub mod Mine
use knowtfolio.Base.{String, Bool, ◌&&◌, Option, none, some, if◌then◌else◌, same, or_else, truthy?}
use knowtfolio.Providers.Auth
use knowtfolio.Providers.Auth.{
  AuthContext, Content, while_loading_session, authenticated, on_unauthenticated,
}

-- What the page shows: nothing but the loading while the session is loaded, the user's own tables,
-- or the public ones of the account of the address.
pub data Page : Type 0 where
  loading_session : Page
  my_account_page : AuthContext → Page
  other_account_page : (user_id : String) → Page

-- `ConditionalAccountPageContent`, for the parameter `userId` of the address.
abbrev pub conditional_content : Option String → AuthContext → Page
conditional_content user_id auth =
    if same (some auth.user) user_id && truthy? user_id
    then my_account_page auth
    else other_account_page (or_else user_id "")

abbrev pub page_of : Option String → Content → Page
page_of user_id while_loading_session = loading_session
page_of user_id (authenticated auth) = conditional_content user_id auth
page_of user_id on_unauthenticated = other_account_page (or_else user_id "")

unfoldable pub account_page : Option String → Auth.State → Page
unfolding Auth.content
account_page user_id s = page_of user_id (Auth.content s)
