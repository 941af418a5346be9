-- ===== src/Forms/EditArticle.antt =====
-- client/src/components/organisms/forms/EditArticleForm/index.tsx: an article's edits, with its NFT
-- if it has none and the user wants one.
pub mod Confined
pub mod Loading
pub mod Updating
use knowtfolio.Base.{
  ℕ, String, Bool, true, false, not, ltb, Option, none, some, List, [], ◌∷◌, ◌++◌, if◌then◌else◌,
  concat, truthy,
}
use knowtfolio.Apis.Request.{get_token_id}
use knowtfolio.Apis.Knowtfolio.{get_article, put_article, mint_article_nft}
use knowtfolio.React.Program.{
  Async, navigate, navigate_back, toast_success, toast_error, console_error, open_window,
  call_connect_metamask, ask, await_promise, ◌>>=◌, ◌>>◌, catch, set_state, perform, when,
}
use knowtfolio.React.View.{View, input, switch, button}
use knowtfolio.React.World.{Component}
use knowtfolio.Providers.Auth.{AuthContext}
use knowtfolio.Providers.Web3.{Web3Context, assert_metamask, connect_button, require_web3}

pub record State : Type 0 where
  pub content : String
  pub title : String
  pub mint_switch_checked : Bool
  pub has_nft : Bool

abbrev pub initial : State
initial = record { content = ""; title = ""; mint_switch_checked = false; has_nft = false }

pub data Event : Type 0 where
  change_editor : (content : String) → Event
  change_title : (content : String) → Event
  change_switch : (checked : Bool) → Event
  submit : Event
  back : Event
  connect : Event
  install : Event

-- `Number(tokenId) !== 0`.
abbrev pub is_token : ℕ → Bool
is_token token_id = ltb 0 token_id

-- The effect on the article's id and the contract. The contract is there when the wallet is
-- connected.
unfoldable pub load_effect : String → Web3Context → Async State (Unit {0})
load_effect article_id context =
    catch
      (when (truthy article_id) (do
        article ← get_article article_id
        set_state (λ s. record s { title = article.title })
        set_state (λ s. record s { content = article.content })
        when context.is_connected_to_metamask (do
          outcome ← ask (get_token_id article_id)
          token_id ← await_promise outcome
          set_state (λ s. record s { has_nft = is_token token_id }))))
      (λ error. do perform (console_error error); perform (toast_error "記事の取得に失敗しました。"))

unfoldable pub handle_update : String → AuthContext → Web3Context → State → Async State (Unit {0})
handle_update article_id auth context s =
    catch
      (do
        put_article (record { article_id = article_id; content = s.content; title = s.title })
            auth.session
        when s.mint_switch_checked (do
          assert_metamask context.is_connected_to_metamask
          mint_article_nft auth.session.id_token
              (record { article_id = article_id; username = auth.user; account = context.account }))
        perform (navigate (concat ("/users/" ∷ auth.user ∷ [])) false)
        perform (toast_success "記事が更新されました。"))
      (λ error. do perform (console_error error); perform (toast_error "記事の更新に失敗しました。"))

unfoldable pub handle : String → AuthContext → Web3Context → Event → State → Async State (Unit {0})
handle article_id auth context (change_editor content) s =
    set_state (λ t. record t { content = content })
handle article_id auth context (change_title content) s =
    set_state (λ t. record t { title = content })
handle article_id auth context (change_switch checked) s =
    set_state (λ t. record t { mint_switch_checked = checked })
handle article_id auth context submit s = handle_update article_id auth context s
handle article_id auth context back s = perform navigate_back
handle article_id auth context connect s = perform call_connect_metamask
handle article_id auth context install s = perform (open_window "https://metamask.io/download/")

-- The back arrow is a button without a text, and the editor an input without a name.
unfoldable pub render : Web3Context → State → List (View String Event)
render context s =
    button "" false back
    ∷ input "" (some s.title) false none change_title
    ∷ (if s.mint_switch_checked
        then require_web3 context.is_connected_to_metamask (button "update article" false submit)
            (connect_button context connect install)
        else button "update article" false submit)
    ∷ ((if not s.has_nft
          then switch "mint" s.mint_switch_checked s.has_nft change_switch ∷ []
          else [])
        ++ input "" (some s.content) false none change_editor ∷ [])

abbrev pub edit_article_form : String → AuthContext → Web3Context → Component State String Event
edit_article_form article_id auth context = record {
  initial = initial;
  mount = load_effect article_id context;
  render = render context;
  handle = handle article_id auth context;
}
