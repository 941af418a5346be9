-- ===== src/Tables/NftInfo.antt =====
-- client/src/components/organisms/tables/NftInfoTable/index.tsx: the token of an article. The state
-- is the token, undefined until the contract has answered.
use knowtfolio.Base.{ℕ, zero, suc, String, Bool, Option, none, some, List, [], ◌∷◌, concat}
use knowtfolio.Apis.Decimal.{to_string}
use knowtfolio.Apis.Request.{get_token_id}
use knowtfolio.React.Program.{Async, ask, await_promise, when, set_state, ◌>>=◌}
use knowtfolio.React.World.{Component}
use knowtfolio.React.View.{View, text}
use knowtfolio.Cards.{nft_link_button, open_nft_link}

unfoldable pub token_effect : String → Bool → Async (Option ℕ) (Unit {0})
token_effect article_id is_connected_to_metamask = when is_connected_to_metamask (do
  outcome ← ask (get_token_id article_id)
  id ← await_promise outcome
  set_state (λ s. some id))

-- The one event is a press of the link to a token.
unfoldable pub handle : String → ℕ → Async (Option ℕ) (Unit {0})
handle contract_address token_id = open_nft_link contract_address (to_string token_id)

unfoldable pub table_content : Option ℕ → List (View String ℕ)
table_content none = text "MetamaskでMumbaiに接続するとNFT情報を確認できます" ∷ []
table_content (some zero) = text "NFTがまだ作成されていません" ∷ []
table_content (some (suc n)) =
    text (concat ("NFT ID: " ∷ to_string (suc n) ∷ []))
    ∷ nft_link_button "View NFT on Mumbai Scan" (suc n)
    ∷ []

abbrev pub nft_info_table : String → String → Bool → Component (Option ℕ) String ℕ
nft_info_table contract_address article_id is_connected_to_metamask = record {
  initial = none;
  mount = token_effect article_id is_connected_to_metamask;
  render = table_content;
  handle = λ token_id s. handle contract_address token_id;
}
