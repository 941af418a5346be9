-- ===== src/Forms/EditArticle/Loading.antt =====
-- What the form holds of its article.
use knowtfolio.Base.{
  ℕ, String, true, some, ◌≡◌, inl, inr, [], ◌∷◌, arith, concat, truthy, refl, ltb, Option, ◌<◌,
}
use knowtfolio.Apis.Request.{Article, resolved, read_article, get_token_id}
use knowtfolio.Apis.Knowtfolio.{get_article}
use knowtfolio.React.Program.{◌>>=◌, catch}
use knowtfolio.React.View.{Offers}
use knowtfolio.React.Run.{Environment, run}
use knowtfolio.React.World.{World, Reach, here, next, user, answer, settle, mounted}
use knowtfolio.Providers.Auth.{AuthContext}
use knowtfolio.Providers.Web3.{Web3Context}
use knowtfolio.Forms.EditArticle.{
  State, initial, change_switch, load_effect, is_token, handle, render, edit_article_form,
}

-- For an article that is there, a wallet that is connected and a token that the contract answers,
-- the effect leaves the article's texts in the form, and counts it as having an NFT exactly when
-- the token is positive; nothing else of the form changes.
load_lem :
    (env : Environment) (article_id : String) (context : Web3Context) (s : State)
    (article : Article) (token_id : ℕ)
    → truthy article_id ≡ true
    → context.is_connected_to_metamask ≡ true
    → env 0 (read_article (concat ("/api/articles/" ∷ article_id ∷ []))) ≡ some (resolved article)
    → env 1 (get_token_id article_id) ≡ some (resolved token_id)
    → (run env (load_effect article_id context) s).state
      ≡ record s { content = article.content; title = article.title; has_nft = ltb 0 token_id }
unfolding run load_effect get_article ◌>>=◌ catch
load_lem env article_id context s article token_id h k e f = ground arith

Offers-switch : (context : Web3Context) → Offers (render context initial) (change_switch true)
unfolding render
Offers-switch context = inr (inr (inr (inl (refl, true, refl))))

abbrev pub connected_as : Option String → Web3Context
connected_as account = record {
  is_connected_to_metamask = true;
  account = account;
  has_connect_metamask = true;
}

is_token_of : (token_id : ℕ) → 0 < token_id → is_token token_id ≡ true
is_token_of token_id h = ground arith

-- For any article with a token and a connected wallet: from the page as it is opened, a state can
-- be reached, with no call left open, in which the article is known to have an NFT and the switch
-- that asks for one is set.
pub switch_outlives_offer :
    (article_id : String) (auth : AuthContext) (account : Option String) (article : Article)
    (token_id : ℕ)
    → truthy article_id ≡ true
    → 0 < token_id
    → (w : World State) × Reach
        (edit_article_form article_id auth (connected_as account))
        (mounted (edit_article_form article_id auth (connected_as account)))
        w
      × (w.state.has_nft ≡ true)
      × (w.state.mint_switch_checked ≡ true)
      × (w.tasks ≡ [])
unfolding settle handle load_effect get_article ◌>>=◌ catch
switch_outlives_offer article_id auth account article token_id present minted =
    rw (present, load_effect)
      (
        _,
        next
            (next (next here (user _ (change_switch true) (Offers-switch (connected_as account))))
              (answer _ [] [] _ _ (resolved article) refl))
            (answer _ [] [] _ _ (resolved token_id) refl),
        is_token_of token_id minted,
        refl,
        refl,
      )
