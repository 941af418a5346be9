-- ===== src/Tests/Articles.antt =====
-- The forms for the wallet and for articles at concrete inputs.
use knowtfolio.Base.{String, true, false, none, some, truthy, ◌≡◌, ◌↔◌, [], refl, arith}
use knowtfolio.Apis.Request.{resolved, get_item, personal_sign}
use knowtfolio.Apis.Knowtfolio.{generate_sign_data}
use knowtfolio.React.Program.{navigate}
use knowtfolio.React.Run.{run, Has, sent, did}
use knowtfolio.React.World.{World, Reach, mounted}
use knowtfolio.Providers.Auth.{AuthContext}
use knowtfolio.Providers.Web3.{Web3Context}
use knowtfolio.Forms.NewArticle
use knowtfolio.Forms.NewArticle.{handle_post}
use knowtfolio.Forms.NewArticle.Posting.{creation, Mints, post_and_mint_iff}
use knowtfolio.Forms.EditArticle
use knowtfolio.Forms.EditArticle.{handle_update, load_effect, edit_article_form}
use knowtfolio.Forms.EditArticle.Loading.{connected_as, switch_outlives_offer}
use knowtfolio.Forms.EditArticle.Updating.{change, minting, update_mints_iff}
use knowtfolio.Tests.Servers.{granting, session, article}

abbrev pub alice : AuthContext
alice = record {
  user = "alice";
  session = session;
  attributes = record { email = "a@b.c"; website = none; description = none; picture = none };
  user_wallet_address = none;
}

abbrev wallet : Web3Context
wallet = connected_as (some "0x1")

abbrev plain : NewArticle.State
plain = record { content = "<p>text</p>"; title_input = "Title"; mint_switch_checked = false }

abbrev minted : NewArticle.State
minted = record plain { mint_switch_checked = true }

post_and_mint_iff_example :
    Has
      (did (navigate "/users/alice" false))
      (run granting (handle_post alice wallet minted) minted).trace
    ↔ ((id : String) × (granting 0 (creation alice wallet minted) ≡ some (resolved id))
        × Mints alice wallet minted granting id)
post_and_mint_iff_example = post_and_mint_iff alice wallet minted granting refl

abbrev edited : EditArticle.State
edited = record {
  content = "<p>new</p>";
  title = "New";
  mint_switch_checked = false;
  has_nft = false;
}

abbrev edited_and_minted : EditArticle.State
edited_and_minted = record edited { mint_switch_checked = true }

update_mints_iff_example :
    Has
      (sent (minting "a1" alice wallet edited_and_minted "signature"))
      (run granting (handle_update "a1" alice wallet edited_and_minted) edited_and_minted).trace
    ↔ ((granting 0 (change "a1" alice wallet edited_and_minted) ≡ some (resolved tt))
        × (wallet.is_connected_to_metamask ≡ true)
        × (nonce : String) × (granting 1 (get_item "id" "user_id_to_nonce" "alice")
            ≡ some (resolved (some nonce)))
        × (truthy nonce ≡ true)
        × (granting 2 (personal_sign (generate_sign_data "Mint NFT" nonce) (some "0x1"))
            ≡ some (resolved "signature")))
update_mints_iff_example =
    update_mints_iff "a1" alice wallet edited_and_minted granting "signature" refl

switch_outlives_offer_example :
    (w : World EditArticle.State) × Reach
      (edit_article_form "a1" alice wallet)
      (mounted (edit_article_form "a1" alice wallet))
      w
    × (w.state.has_nft ≡ true)
    × (w.state.mint_switch_checked ≡ true)
    × (w.tasks ≡ [])
switch_outlives_offer_example =
    switch_outlives_offer "a1" alice (some "0x1") article 7 refl (omega arith)
