-- ===== src/Tests/Proxies.antt =====
-- The calls of the client on the development server at concrete inputs.
use knowtfolio.Base.{none, [], ◌∷◌, refl}
use knowtfolio.Base.Text.{starts_with}
use knowtfolio.Apis.Knowtfolio.{
  PostArticleForm, UpdateArticleForm, MintArticleNftForm, post_article, put_article, get_article,
  mint_article_nft, search_articles,
}
use knowtfolio.Apis.Lambda.{validate_sign_up_form, post_wallet_address, get_user}
use knowtfolio.React.World.Does.{Does}
use knowtfolio.Tables.SearchResult.{query}
use knowtfolio.Webpack.Proxied.{Reaches, calls_reach}
use knowtfolio.Tests.Servers.{session}
use knowtfolio.Tests.Tables.{unread, address}

abbrev created : PostArticleForm
created = record { content = "<p>text</p>"; title = "Title" }

abbrev updated : UpdateArticleForm
updated = record { article_id = "a1"; content = "<p>text</p>"; title = "Title" }

abbrev minted : MintArticleNftForm
minted = record { article_id = "a1"; username = "alice"; account = none }

calls_reach_example :
    Does {S = Unit {0}} (Reaches starts_with) (validate_sign_up_form (("username", "alice") ∷ []))
    × Does {S = Unit {0}} (Reaches starts_with) (post_wallet_address "alice" none "sig" session)
    × Does {S = Unit {0}} (Reaches starts_with) (get_user "alice")
    × Does {S = Unit {0}} (Reaches starts_with) (post_article created session)
    × Does {S = Unit {0}} (Reaches starts_with) (put_article updated session)
    × Does {S = Unit {0}} (Reaches starts_with) (get_article "alice")
    × Does {S = Unit {0}} (Reaches starts_with) (mint_article_nft session.id_token minted)
    × Does {S = Unit {0}} (Reaches starts_with) (search_articles (query unread address))
calls_reach_example =
    calls_reach starts_with (λ text path. refl) (("username", "alice") ∷ []) "alice" "sig" none
      session created updated minted (query unread address)
