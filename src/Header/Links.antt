-- ===== src/Header/Links.antt =====
-- Where the header leads.
use knowtfolio.Base.{String, ◌≡◌, ◌↔◌, arith}
use knowtfolio.React.View.{Offers}
use knowtfolio.Providers.Auth
use knowtfolio.Providers.Auth.{AuthContext, content, authenticated, on_unauthenticated}
use knowtfolio.Header.{
  render, open_account, open_sign_up, open_sign_in, open_new_article, open_search,
}

-- The header offers the account of a user exactly when that user is signed in, a new article and
-- the search exactly when someone is, and the sign-up and the sign-in exactly when the session is
-- loaded and nobody is signed in.
pub Offers-account_iff :
    (s : Auth.State) (name : String)
    → (Offers (render s) (open_account name)
        ↔ ((auth : AuthContext) × (content s ≡ authenticated auth) × (auth.user ≡ name)))
      × (Offers (render s) open_new_article
          ↔ ((auth : AuthContext) × (content s ≡ authenticated auth)))
      × (Offers (render s) open_search ↔ ((auth : AuthContext) × (content s ≡ authenticated auth)))
      × (Offers (render s) open_sign_up ↔ (content s ≡ on_unauthenticated))
      × (Offers (render s) open_sign_in ↔ (content s ≡ on_unauthenticated))
unfolding render content
Offers-account_iff s name = ground arith
