-- ===== src/Providers/Web3.antt =====
-- client/src/components/organisms/providers/Web3Provider/index.tsx, with the two components that
-- depend on its context: ConnectToMetamaskButton and RequireWeb3Wrapper. The context is its flag,
-- its account and whether it has `connectMetamask`; its `web3` and `contract` are there exactly when
-- the flag is set. The log lines of the console are left out.
pub mod Connection
pub mod Kept
use knowtfolio.Base.{
  String, Bool, true, false, not, Option, none, some, List, [], ◌∷◌, if◌then◌else◌,
}
use knowtfolio.Apis.Request.{error, exception, detect_provider, request_accounts}
use knowtfolio.React.Program.{
  Async, ret, throw, reload, open_window, ask, await_promise, when, set_state, perform, ◌>>=◌, ◌>>◌,
}
use knowtfolio.React.View.{View, button, listener}
use knowtfolio.React.World.{Component}

pub record Web3Context : Type 0 where
  pub is_connected_to_metamask : Bool
  pub account : Option String
  pub has_connect_metamask : Bool

abbrev pub initial : Web3Context
initial = record { is_connected_to_metamask = false; account = none; has_connect_metamask = false }

-- `accounts[0]`.
abbrev pub first : List String → Option String
first [] = none
first (a ∷ rest) = some a

unfoldable pub connect_metamask : Async Web3Context (Unit {0})
connect_metamask = do
  outcome ← ask request_accounts
  accounts ← await_promise outcome
  set_state (λ s. record {
    is_connected_to_metamask = true;
    account = first accounts;
    has_connect_metamask = true;
  })

-- The effect of the provider. `connectMetamask()` is not awaited: it is left at its call while the
-- rest of the effect runs, so the rest stands before it here.
unfoldable pub initialize : Async Web3Context (Unit {0})
initialize = do
  outcome ← ask detect_provider
  provider ← await_promise outcome
  when provider
      (do set_state (λ prev. record prev { has_connect_metamask = true }); connect_metamask)

-- What the wallet raises: its accounts or its chain have changed.
pub data WalletEvent : Type 0 where
  accounts_changed chain_changed : WalletEvent

-- `window.location.reload()`: the page starts anew, with the first state and the effect of the
-- mounting. The calls that the old page has left open are dropped by the browser; a mounted
-- component here may still be given their answers.
unfoldable pub reload_page : Async Web3Context (Unit {0})
reload_page = do perform reload; set_state (λ old. initial); initialize

unfoldable pub on_wallet_event : WalletEvent → Async Web3Context (Unit {0})
on_wallet_event accounts_changed = reload_page
on_wallet_event chain_changed = reload_page

unfoldable pub assert_metamask : {S : Type 0} → Bool → Async S (Unit {0})
assert_metamask is_connected_to_metamask =
    when (not is_connected_to_metamask) (throw (exception (error "Metamaskに接続されていません。")))

-- The button that connects to the wallet, or leads to its installation.
abbrev pub connect_button : {M E : Type 0} → Web3Context → E → E → View M E
connect_button context connect install =
    if context.has_connect_metamask
    then button "metamaskに接続" false connect
    else button "metamaskをインストール" false install

-- The children where the wallet is connected, else the other content.
abbrev pub require_web3 : {A : Type 0} → Bool → A → A → A
require_web3 is_connected_to_metamask children content_on_not_connected =
    if is_connected_to_metamask then children else content_on_not_connected

-- The provider around the button that connects to the wallet.
pub data Event : Type 0 where
  connect : Event
  install : Event
  wallet_raised : WalletEvent → Event

unfoldable pub handle : Event → Web3Context → Async Web3Context (Unit {0})
handle connect s = connect_metamask
handle install s = perform (open_window "https://metamask.io/download/")
handle (wallet_raised e) s = on_wallet_event e

-- The wallet's events are listened to once it was found.
unfoldable pub render : Web3Context → List (View String Event)
render s =
    connect_button s connect install
    ∷ (if s.has_connect_metamask
        then listener (λ current. wallet_raised accounts_changed)
          ∷ listener (λ current. wallet_raised chain_changed)
          ∷ []
        else [])

abbrev pub web3_provider : Component Web3Context String Event
web3_provider = record { initial = initial; mount = initialize; render = render; handle = handle }
