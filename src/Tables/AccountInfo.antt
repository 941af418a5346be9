-- ===== src/Tables/AccountInfo.antt =====
-- client/src/components/organisms/tables: AccountInfoTable and ArticleOwnerInfoTable, which show what
-- is known of a user, and MyAccountInfoTable, from which the signed-in user signs out.
pub mod SignedOut
use knowtfolio.Base.{
  String, true, false, none, some, List, [], ◌∷◌, ◌++◌, if◌then◌else◌, concat, truthy, truthy?,
  or_else, Option,
}
use knowtfolio.Apis.Request.{UserInfo}
use knowtfolio.Apis.Cognito.{sign_out_from_cognito}
use knowtfolio.Apis.Lambda.{get_user}
use knowtfolio.React.Program.{
  Async, ret, navigate, toast_success, toast_error, console_error, open_window, set_state, perform,
  catch, ◌>>=◌, ◌>>◌,
}
use knowtfolio.Atoms.{icon_image}
use knowtfolio.React.World.{Component}
use knowtfolio.React.View.{View, heading, text, labelled, wallet, link, button}
use knowtfolio.Providers.Auth.{AuthContext}

-- The state of the first two tables is the user's data.
abbrev pub no_user : UserInfo
no_user = record {
  username = "";
  icon_url = "";
  website_url = "";
  biography = "";
  wallet_address = "";
}

-- The effect on the user's id, which is the same in the two tables.
unfoldable pub fetch_user : String → Async UserInfo (Unit {0})
fetch_user user_id =
    catch (do user ← get_user user_id; set_state (λ s. user))
      (λ error. perform (toast_error "ご指定のユーザーを見つけられませんでした。"))

-- A website as a link to it, or a dash.
abbrev pub website_or_dash : {M E : Type 0} → Option String → View M E
website_or_dash none = labelled "Website" (some "-")
website_or_dash (some url) = if truthy url then link url url else labelled "Website" (some "-")

-- AccountInfoTable raises no events.
unfoldable pub render_account : UserInfo → List (View String (Unit {0}))
render_account info =
    heading "Account info"
    ∷ icon_image (some info.icon_url)
    ∷ labelled "Username" (some (or_else (some info.username) "-"))
    ∷ website_or_dash (some info.website_url)
    ∷ labelled "Biography" (some (or_else (some info.biography) "-"))
    ∷ wallet (some info.wallet_address) true
    ∷ []

-- ArticleOwnerInfoTable.
pub data OwnerEvent : Type 0 where
  open_owner : OwnerEvent
  open_website : OwnerEvent

unfoldable pub handle_owner : String → OwnerEvent → UserInfo → Async UserInfo (Unit {0})
handle_owner owner_id open_owner info =
    perform (navigate (concat ("/users/" ∷ owner_id ∷ [])) false)
handle_owner owner_id open_website info = perform (open_window info.website_url)

-- The icons of the owner and of the website are buttons.
unfoldable pub render_owner : UserInfo → List (View String OwnerEvent)
render_owner info =
    icon_image (some info.icon_url)
    ∷ button "" false open_owner
    ∷ text info.username
    ∷ ((if truthy info.wallet_address then wallet (some info.wallet_address) true ∷ [] else [])
        ++ ((if truthy info.website_url then button "" false open_website ∷ [] else [])
            ++ text info.biography ∷ []))

-- MyAccountInfoTable has no state of its own.
unfoldable pub sign_out : String → Async (Unit {0}) (Unit {0})
sign_out user =
    catch
      (do
        sign_out_from_cognito user
        perform (navigate "/signin" true)
        perform (toast_success "サインアウトしました。"))
      (λ error. do perform (console_error error); perform (toast_error "サインアウトに失敗しました。"))

pub data MyEvent : Type 0 where
  edit_profile : MyEvent
  change_password : MyEvent
  press_sign_out : MyEvent
  register_wallet : MyEvent

unfoldable pub handle_mine : AuthContext → MyEvent → Async (Unit {0}) (Unit {0})
handle_mine auth edit_profile = perform (navigate "/settings/profile" false)
handle_mine auth change_password = perform (navigate "/settings/password" false)
handle_mine auth press_sign_out = sign_out auth.user
handle_mine auth register_wallet = perform (navigate "/settings/wallet" false)

unfoldable pub render_mine : AuthContext → List (View String MyEvent)
render_mine auth =
    heading "Account info"
    ∷ icon_image auth.attributes.picture
    ∷ labelled "Username" (some auth.user)
    ∷ labelled "Email" (some auth.attributes.email)
    ∷ website_or_dash auth.attributes.website
    ∷ labelled "Biography" (some (or_else auth.attributes.description "-"))
    ∷ button "アカウント情報を編集" false edit_profile
    ∷ button "パスワードを変更" false change_password
    ∷ button "sign out" false press_sign_out
    ∷ heading "Wallet info"
    ∷ (if truthy? auth.user_wallet_address
        then wallet auth.user_wallet_address false
        else button "登録する" false register_wallet)
    ∷ []

abbrev pub account_info_table : String → Component UserInfo String (Unit {0})
account_info_table user_id = record {
  initial = no_user;
  mount = fetch_user user_id;
  render = render_account;
  handle = λ e s. ret tt;
}

abbrev pub article_owner_info_table : String → Component UserInfo String OwnerEvent
article_owner_info_table owner_id = record {
  initial = no_user;
  mount = fetch_user owner_id;
  render = render_owner;
  handle = handle_owner owner_id;
}
