-- ===== src/Pages/EditArticle/Owner.antt =====
-- Which of its three contents the page shows.
use knowtfolio.Base.{
  String, none, some, Option, ◌≡◌, ◌≢◌, ◌↔◌, [], ◌∷◌, arith, eq_iff, concat, refl,
}
use knowtfolio.Apis.Request.{Article, Outcome, resolved, rejected, read_article}
use knowtfolio.Apis.Knowtfolio.{get_article}
use knowtfolio.React.Program.{◌>>=◌}
use knowtfolio.React.Run.{Environment, run}
use knowtfolio.Pages.EditArticle.{
  State, initial, load_owner, go_to, owner_of, content, edit_article_form,
}

authorized_iff :
    (user owner id shown : String)
    → id ≢ ""
    → (content user (record { article_id = some id; owner_id_of_article = owner_of owner })
        ≡ edit_article_form shown)
      ↔ ((shown ≡ id) × (user ≢ "") × (owner ≡ user))
unfolding content
authorized_iff user owner id shown h =
    ground (arith, eq_iff id "", eq_iff owner "", eq_iff owner user)

owner_answered :
    (id : String) (reply : Option (Outcome Article)) (user shown : String)
    → id ≢ ""
    → (env : Environment) → env 0 (read_article (concat ("/api/articles/" ∷ id ∷ []))) ≡ reply
    → (content user (run env (load_owner (some id)) (initial (some id))).state
        ≡ edit_article_form shown)
      ↔ ((shown ≡ id)
          × (user ≢ "")
          × (article : Article) × (env 0 (read_article (concat ("/api/articles/" ∷ id ∷ [])))
              ≡ some (resolved article))
          × (article.owner_id ≡ user))
unfolding run load_owner get_article content ◌>>=◌
owner_answered id none user shown h env e = ground arith
owner_answered id (some (rejected f)) user shown h env e = ground arith
owner_answered id (some (resolved article)) user shown h env e =
    ground (arith, eq_iff id "", authorized_iff user article.owner_id id shown h)

-- On the page that has just been opened for an article with an id, the form to edit it is shown,
-- and then for that article, exactly when the server has answered the article with the user, whose
-- name is not empty, as its owner.
editable_iff :
    (env : Environment) (user id shown : String)
    → id ≢ ""
    → (content user (run env (load_owner (some id)) (initial (some id))).state
        ≡ edit_article_form shown)
      ↔ ((shown ≡ id)
          × (user ≢ "")
          × (article : Article) × (env 0 (read_article (concat ("/api/articles/" ∷ id ∷ [])))
              ≡ some (resolved article))
          × (article.owner_id ≡ user))
editable_iff env user id shown h = owner_answered id _ user shown h env refl

-- A page that shows the form of one article goes on to show that of any other that it is led to, as
-- long as the server has not answered the article.
pub stale_owner :
    (env : Environment) (user id other : String) (s : State)
    → content user s ≡ edit_article_form id
    → other ≢ ""
    → env 0 (read_article (concat ("/api/articles/" ∷ other ∷ []))) ≡ none
    → content user (run env (go_to (some other)) s).state ≡ edit_article_form other
unfolding run go_to load_owner get_article content ◌>>=◌
stale_owner env user id other s h k e = ground (arith, eq_iff other "")
