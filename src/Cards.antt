-- ===== src/Cards.antt =====
-- client/src/components/organisms/cards: the cards of articles in the tables. The title is shown
-- through `Atoms.truncate`, and the address of an owner through `Atoms.display_address`.
use knowtfolio.Base.{
  ℕ, String, Bool, true, false, ltb, Option, none, some, List, [], ◌∷◌, concat, if◌then◌else◌,
}
use knowtfolio.Base.Text.{utf16}
use knowtfolio.Atoms.{truncate}
use knowtfolio.Apis.Request.{SearchResultEntry, get_token_id}
use knowtfolio.React.Program.{
  Async, navigate, open_window, ask, await_promise, when, set_state, perform, ◌>>=◌,
}
use knowtfolio.React.World.{Component}
use knowtfolio.React.View.{View, wallet, button}

-- What ArticleCardBase shows of the title.
unfoldable pub card_title : String → List ℕ
unfolding utf16 truncate
card_title title = truncate (utf16 title) 25 5

-- ArticleCardBase: the title, which can be pressed, above the content.
abbrev pub article_card_base :
    {E : Type 0} → E → String → List (View String E) → List (View String E)
article_card_base on_click title lower_content = button title false on_click ∷ lower_content

-- SearchedArticleCard: the title leads to the article, above its owner's address.
abbrev pub searched_article_card :
    {E : Type 0} → (String → E) → SearchResultEntry → List (View String E)
searched_article_card open_article article =
    article_card_base (open_article article.id) article.title
      (wallet (some article.owner_address) true ∷ [])

unfoldable pub open_searched_article : {S : Type 0} → String → Async S (Unit {0})
open_searched_article id = perform (navigate (concat ("/articles/" ∷ id ∷ [])) false)

-- OwnedArticleCard: its state is the article's token, undefined while none is known.
abbrev pub CardState : Type 0
CardState = Option ℕ

pub data CardEvent : Type 0 where
  open_article : CardEvent
  edit_article : CardEvent
  open_token : (token_id : ℕ) → CardEvent

-- `if (isConnectedToMetamask) { const resp = …; resp > 0 && setTokenId(resp); }`.
unfoldable pub token_effect : Bool → SearchResultEntry → Async CardState (Unit {0})
token_effect is_connected_to_metamask article = when is_connected_to_metamask (do
  outcome ← ask (get_token_id article.id)
  resp ← await_promise outcome
  when (ltb 0 resp) (set_state (λ s. some resp)))

-- `generateLink` of NftLinkButton, for the contract's address and a token written out.
abbrev pub generate_link : String → String → String
generate_link contract_address token_id =
    concat ("https://mumbai.polygonscan.com/token/" ∷ contract_address ∷ "?a=" ∷ token_id ∷ [])

-- NftLinkButton, and what a press of it does.
abbrev pub nft_link_button : {E : Type 0} → (label : String) (on_click : E) → View String E
nft_link_button label on_click = button label false on_click

abbrev pub open_nft_link : {S : Type 0} → String → String → Async S (Unit {0})
open_nft_link contract_address token_id =
    perform (open_window (generate_link contract_address token_id))

unfoldable pub handle_card :
    String → (ℕ → String) → SearchResultEntry → CardEvent → Async CardState (Unit {0})
handle_card contract_address show article open_article =
    perform (navigate (concat ("/articles/" ∷ article.id ∷ [])) false)
handle_card contract_address show article edit_article =
    perform (navigate (concat ("/articles/" ∷ article.id ∷ "/edit" ∷ [])) false)
handle_card contract_address show article (open_token token_id) =
    open_nft_link contract_address (show token_id)

-- The link to the token stands beside the edit button once the token is known.
abbrev pub token_link : (ℕ → String) → CardState → List (View String CardEvent)
token_link show none = []
token_link show (some token_id) =
    if ltb 0 token_id
    then nft_link_button (concat ("NFT id: " ∷ show token_id ∷ [])) (open_token token_id) ∷ []
    else []

unfoldable pub render_card :
    (ℕ → String) → SearchResultEntry → CardState → List (View String CardEvent)
render_card show article s =
    article_card_base open_article article.title
      (button "Edit" false edit_article ∷ token_link show s)

abbrev pub owned_article_card :
    String → (ℕ → String) → Bool → SearchResultEntry → Component CardState String CardEvent
owned_article_card contract_address show is_connected_to_metamask article = record {
  initial = none;
  mount = token_effect is_connected_to_metamask article;
  render = render_card show article;
  handle = λ e s. handle_card contract_address show article e;
}
