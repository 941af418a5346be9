-- ===== src/App.antt =====
-- client/src/App.tsx with the pages that only compose: the table of routes, what stands on each page,
-- and which routes stand behind the AuthProvider.
pub mod Guarded
pub mod Links
pub mod Journeys
use knowtfolio.Base.{String, Bool, true, false, Option, none, some, List, [], ◌∷◌, ◌++◌, map}
use knowtfolio.React.View.{View}
use knowtfolio.Providers.Auth
use knowtfolio.Providers.Auth.{
  AuthContext, provide, default_content_on_unauthenticated, default_content_while_loading_session,
}

-- The page components.
pub data Page : Type 0 where
  top_page sign_up_page sign_in_page reset_password_page retry_confirmation_page : Page
  register_wallet_page reset_profile_page update_password_page account_page : Page
  upload_image_page new_article_page edit_article_page article_page search_page : Page
  not_found_page : Page

-- What a page is put together from.
pub data Part : Type 0 where
  header : Part
  link : (to label : String) → Part
  title : String → Part
  sign_up_form sign_in_form reset_password_form retry_confirmation_form : Part
  register_wallet_form update_profile_form update_password_form : Part
  new_article_form search_form search_result_table : Part
  -- A page with a state or a choice of its own, which has a module of its own.
  own_content : Page → Part

-- HeaderLayout.
abbrev pub header_layout : List Part → List Part
header_layout children = header ∷ children

abbrev pub top_page_parts : List Part
top_page_parts = header_layout (
    link "/signin" "サインイン"
    ∷ link "/signup" "サインアップ"
    ∷ link "/articles/new" "記事作成"
    ∷ link "/search" "記事検索"
    ∷ [])

abbrev pub sign_up_page_parts : List Part
sign_up_page_parts = header_layout (sign_up_form ∷ [])

abbrev pub sign_in_page_parts : List Part
sign_in_page_parts = header_layout (sign_in_form ∷ [])

abbrev pub reset_password_page_parts : List Part
reset_password_page_parts = header_layout (reset_password_form ∷ [])

abbrev pub retry_confirmation_page_parts : List Part
retry_confirmation_page_parts = header_layout (retry_confirmation_form ∷ [])

abbrev pub register_wallet_page_parts : List Part
register_wallet_page_parts = header_layout (register_wallet_form ∷ [])

abbrev pub reset_profile_page_parts : List Part
reset_profile_page_parts = header_layout (update_profile_form ∷ [])

abbrev pub update_password_page_parts : List Part
update_password_page_parts = header_layout (update_password_form ∷ [])

abbrev pub new_article_page_parts : List Part
new_article_page_parts = new_article_form ∷ []

abbrev pub search_page_parts : List Part
search_page_parts = header_layout (title "Search" ∷ search_form ∷ search_result_table ∷ [])

abbrev pub not_found_page_parts : List Part
not_found_page_parts = title "sorry... page not found" ∷ []

unfoldable pub parts : Page → List Part
parts top_page = top_page_parts
parts sign_up_page = sign_up_page_parts
parts sign_in_page = sign_in_page_parts
parts reset_password_page = reset_password_page_parts
parts retry_confirmation_page = retry_confirmation_page_parts
parts register_wallet_page = register_wallet_page_parts
parts reset_profile_page = reset_profile_page_parts
parts update_password_page = update_password_page_parts
parts new_article_page = new_article_page_parts
parts search_page = search_page_parts
parts article_page = header_layout (own_content article_page ∷ [])
parts account_page = own_content account_page ∷ []
parts upload_image_page = own_content upload_image_page ∷ []
parts edit_article_page = own_content edit_article_page ∷ []
parts not_found_page = not_found_page_parts

-- `element`: a page, or a page inside an AuthProvider with its two default contents. A route that
-- only groups others has no element, and renders nothing by itself.
pub data Element : Type 0 where
  plain : Page → Element
  guarded : Page → Element
  group : Element

pub record Route : Type 0 where
  pub path : String
  pub element : Element

-- A route inside another is written with the other's path before its own.
unfoldable pub routes : List Route
routes =
    record { path = "/"; element = plain top_page }
    ∷ record { path = "/signup"; element = plain sign_up_page }
    ∷ record { path = "/signin"; element = plain sign_in_page }
    ∷ record { path = "/reset-password"; element = plain reset_password_page }
    ∷ record { path = "/retry-confirmation"; element = plain retry_confirmation_page }
    ∷ record { path = "/settings"; element = group }
    ∷ record { path = "/settings/wallet"; element = guarded register_wallet_page }
    ∷ record { path = "/settings/profile"; element = guarded reset_profile_page }
    ∷ record { path = "/settings/password"; element = guarded update_password_page }
    ∷ record { path = "/users"; element = group }
    ∷ record { path = "/users/:userId"; element = plain account_page }
    ∷ record { path = "/upload-image"; element = guarded upload_image_page }
    ∷ record { path = "/articles/new"; element = guarded new_article_page }
    ∷ record { path = "/articles/:articleId/edit"; element = guarded edit_article_page }
    ∷ record { path = "/articles/:articleId"; element = plain article_page }
    ∷ record { path = "/search"; element = plain search_page }
    ∷ record { path = "*"; element = plain not_found_page }
    ∷ []

-- What is on the screen: a page, with the context that its AuthProvider gives if it has one, or one
-- of the provider's other contents.
pub data Screen : Type 0 where
  page : Option AuthContext → Page → Screen
  instead : List (View String Unit) → Screen
  blank : Screen

abbrev pub show : Auth.State → Element → Screen
show s (plain p) = page none p
show s (guarded p) =
    provide (λ auth. page (some auth) p) (instead default_content_on_unauthenticated)
      (instead default_content_while_loading_session) s
show s group = blank

-- `Routes` is react-router's: the argument `choose` is the route that it takes for a location.
unfoldable pub app : (List Route → String → Option Route) → Auth.State → String → Screen
unfolding routes Auth.content
app choose s location = elim (choose routes location) [ none ↦ blank | some r ↦ show s r.element ]
