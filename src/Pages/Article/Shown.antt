-- ===== src/Pages/Article/Shown.antt =====
-- Which article the page shows.
use knowtfolio.Base.{
  String, List, Option, true, some, ◌≡◌, [], ◌∷◌, ◌++◌, inl, refl, arith, concat, truthy,
}
use knowtfolio.Apis.Request.{Request, Reply, Article, resolved, read_article}
use knowtfolio.Apis.Knowtfolio.{get_article}
use knowtfolio.React.Program.{Effect, update, ◌>>=◌}
use knowtfolio.React.Run.{Environment, run}
use knowtfolio.React.World.{World, settle}
use knowtfolio.React.World.Rely.{Trusted, start, raise, reply}
use knowtfolio.Pages.Article.{
  State, RenderOn, article_page, address_changed, load_effect, go_to, handle, fetch_article,
  sections, title, html, article_owner_info_table, nft_info_table,
}

-- For an article with an id, the page ends with the article's texts, the table of its owner and
-- that of its NFT, whatever the server had rendered, if the article is answered and has an owner.
article_shown :
    (env : Environment) (s : State) (id : String) (article : Article)
    → truthy id ≡ true
    → truthy article.owner_id ≡ true
    → env 0 (read_article (concat ("/api/articles/" ∷ id ∷ []))) ≡ some (resolved article)
    → sections (run env (go_to (some id)) s).state
      ≡ title article.title
        ∷ html article.content
        ∷ article_owner_info_table article.owner_id
        ∷ nft_info_table id
        ∷ []
unfolding run go_to load_effect get_article sections ◌>>=◌
article_shown env s id article h k e = ground arith

go_to_lem :
    (id : String)
    → truthy id ≡ true
    → go_to (some id) ≡ update (λ s. record s { article_id = some id }) (fetch_article id)
unfolding go_to load_effect ◌>>=◌
go_to_lem id h = rw h refl

-- The server has one article at each address.
abbrev pub Stores : (String → Article) → (q : Request) → Reply q → Type 0
Stores stored (Request.read_article url) a = a ≡ resolved (stored url)
Stores stored _ a = Unit

module _ (stored : String → Article) (render_on : RenderOn) (mounted_at : Option String)
    {start_world : World State} where
  address-Trusted :
      (w : World State) (id : String)
      → truthy id ≡ true
      → Trusted (article_page render_on mounted_at) (Stores stored) start_world w
      → Trusted
          (article_page render_on mounted_at)
          (Stores stored)
          start_world
          (settle (update (λ s. record s { article_id = some id }) (fetch_article id)) w)
  unfolding handle
  address-Trusted w id h path =
      rw (← go_to_lem id h) (raise {u = w} (address_changed (some id)) path (inl (some id, refl)))

-- From any state of the article page with no call open, where the server has one article at each
-- address: two addresses with an id after one another can leave the page's address at the second
-- and the texts of the first's article, with one request sent for each and no call open.
pub stale_article :
    (stored : String → Article) (render_on : RenderOn) (mounted_at : Option String) (s : State)
    (effects : List Effect) (sent : List Request) (first second : String)
    → truthy first ≡ true
    → truthy second ≡ true
    → (w : World State) × Trusted
        (article_page render_on mounted_at)
        (Stores stored)
        (record { state = s; tasks = []; effects = effects; sent = sent })
        w
      × (w.state.article_id ≡ some second)
      × (w.state.title ≡ (stored (concat ("/api/articles/" ∷ first ∷ []))).title)
      × (w.state.content ≡ (stored (concat ("/api/articles/" ∷ first ∷ []))).content)
      × (w.tasks ≡ [])
      × (w.sent
          ≡ (sent ++ read_article (concat ("/api/articles/" ∷ first ∷ [])) ∷ [])
            ++ read_article (concat ("/api/articles/" ∷ second ∷ [])) ∷ [])
unfolding settle get_article ◌>>=◌
stale_article stored render_on mounted_at s effects sent first second h k = (
  _,
  reply [] [] _ _ _
      (reply (_ ∷ []) [] _ _ _
        (address-Trusted stored render_on mounted_at _ second k
          (address-Trusted stored render_on mounted_at _ first h start))
        refl refl)
      refl refl,
  refl,
  refl,
  refl,
  refl,
  refl,
)
