-- ===== src/Forms/NewArticle.antt =====
-- client/src/components/organisms/forms/NewArticleForm/index.tsx: a new article, with its NFT if the
-- user wants one.
pub mod Posting
use knowtfolio.Base.{
  String, Bool, true, false, ◌&&◌, Option, none, some, List, [], ◌∷◌, ◌++◌, if◌then◌else◌, concat,
  truthy?,
}
use knowtfolio.Apis.Knowtfolio.{post_article, mint_article_nft}
use knowtfolio.React.Program.{
  Async, navigate, navigate_back, toast_success, toast_error, console_error, open_window,
  call_connect_metamask, ◌>>=◌, ◌>>◌, catch, set_state, perform, when,
}
use knowtfolio.React.View.{View, input, switch, button}
use knowtfolio.Providers.Auth.{AuthContext}
use knowtfolio.Providers.Web3.{Web3Context, assert_metamask, connect_button, require_web3}

pub record State : Type 0 where
  pub content : String
  pub title_input : String
  pub mint_switch_checked : Bool

abbrev pub initial : State
initial = record { content = ""; title_input = ""; mint_switch_checked = false }

pub data Event : Type 0 where
  change_editor : (content : String) → Event
  change_title : (content : String) → Event
  change_switch : (checked : Bool) → Event
  post : Event
  back : Event
  connect : Event
  install : Event

unfoldable pub handle_post : AuthContext → Web3Context → State → Async State (Unit {0})
handle_post auth context s =
    catch
      (do
        id ← post_article (record { content = s.content; title = s.title_input }) auth.session
        when s.mint_switch_checked (do
          assert_metamask context.is_connected_to_metamask
          mint_article_nft auth.session.id_token
              (record { article_id = id; username = auth.user; account = context.account }))
        perform (navigate (concat ("/users/" ∷ auth.user ∷ [])) false)
        perform (toast_success "記事を作成しました。"))
      (λ error. do perform (console_error error); perform (toast_error "記事の作成に失敗しました。"))

unfoldable pub handle : AuthContext → Web3Context → Event → State → Async State (Unit {0})
handle auth context (change_editor content) s = set_state (λ t. record t { content = content })
handle auth context (change_title content) s = set_state (λ t. record t { title_input = content })
handle auth context (change_switch checked) s =
    set_state (λ t. record t { mint_switch_checked = checked })
handle auth context post s = handle_post auth context s
handle auth context back s = perform navigate_back
handle auth context connect s = perform call_connect_metamask
handle auth context install s = perform (open_window "https://metamask.io/download/")

-- The back arrow is a button without a text, and the editor an input without a name.
unfoldable pub render : AuthContext → Web3Context → State → List (View String Event)
render auth context s =
    button "" false back
    ∷ input "" (some s.title_input) false none change_title
    ∷ (if s.mint_switch_checked
        then require_web3 context.is_connected_to_metamask (button "create article" false post)
            (connect_button context connect install)
        else button "create article" false post)
    ∷ ((if context.is_connected_to_metamask && truthy? auth.user_wallet_address
          then switch "mint" s.mint_switch_checked false change_switch ∷ []
          else [])
        ++ input "" (some s.content) false none change_editor ∷ [])
