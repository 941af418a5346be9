-- ===== src/Forms/RegisterWallet.antt =====
-- client/src/components/organisms/forms/RegisterWalletForm/index.tsx: the wallet of an account.
pub mod Handlers
use knowtfolio.Base.{
  String, Bool, true, false, Option, none, some, List, [], ◌∷◌, ◌++◌, if◌then◌else◌, concat,
  truthy?,
}
use knowtfolio.Apis.Request.{personal_sign, Session}
use knowtfolio.Apis.Lambda.{post_wallet_address}
use knowtfolio.React.Program.{
  Async, navigate, toast_success, toast_error, open_window, call_connect_metamask, ask,
  await_promise, ◌>>=◌, ◌>>◌, catch, perform,
}
use knowtfolio.React.View.{View, heading, text, wallet, labelled, button}
use knowtfolio.Providers.Auth.{AuthContext}
use knowtfolio.Providers.Web3.{Web3Context, assert_metamask, connect_button, require_web3}

-- `noteOnWalletAddress` of the sign-up form.
abbrev pub note_on_wallet_address : String
note_on_wallet_address =
    "※一度連携したwallet addressは後から変更・削除できません。必ず正しいwallet addressが表示されているかどうかよく確認してから登録してください。"

pub data Event : Type 0 where
  register : Event
  cancel : Event
  connect : Event
  install : Event

-- The form has no state of its own.
unfoldable pub register_wallet_address : AuthContext → Web3Context → Async (Unit {0}) (Unit {0})
register_wallet_address auth context = do
  assert_metamask context.is_connected_to_metamask
  signed ← ask (personal_sign "Register wallet address" context.account)
  signature ← await_promise signed
  catch
      (do
        post_wallet_address auth.user context.account signature auth.session
        perform (toast_success "Wallet addressの登録に成功しました。")
        perform (navigate "/settings/wallet" true))
      (λ error. perform (toast_error "Wallet addressの登録に失敗しました。"))

unfoldable pub handle : AuthContext → Web3Context → Event → Async (Unit {0}) (Unit {0})
handle auth context register = register_wallet_address auth context
handle auth context cancel = perform (navigate (concat ("/users/" ∷ auth.user ∷ [])) false)
handle auth context connect = perform call_connect_metamask
handle auth context install = perform (open_window "https://metamask.io/download/")

abbrev pub registered_wallet_address_message : AuthContext → List (View String Event)
registered_wallet_address_message auth =
    text "すでに下記のwallet addressが登録されています。登録したwallet addressを後から変更することはできません。"
    ∷ labelled "ユーザーid" (some auth.user)
    ∷ wallet auth.user_wallet_address false
    ∷ button "cancel" false cancel
    ∷ []

abbrev pub register_wallet_form_content : AuthContext → Web3Context → List (View String Event)
register_wallet_form_content auth context =
    text "表示されているwallet addressとユーザーidを連携します。"
    ∷ text note_on_wallet_address
    ∷ labelled "ユーザーid" (some auth.user)
    ∷ wallet context.account false
    ∷ require_web3 context.is_connected_to_metamask
        (button "register wallet address" false register) (connect_button context connect install)
    ∷ button "cancel" false cancel
    ∷ []

unfoldable pub render : AuthContext → Web3Context → List (View String Event)
render auth context =
    heading "Wallet addressを登録する"
    ∷ (if truthy? auth.user_wallet_address
        then registered_wallet_address_message auth
        else register_wallet_form_content auth context)
