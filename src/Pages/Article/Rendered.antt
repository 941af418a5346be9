-- ===== src/Pages/Article/Rendered.antt =====
-- client/src/insertPageContent.tsx with the article page: the page that the server renders once as a
-- template, fills for an article, and that a client then takes over.
use knowtfolio.Base.{
  String, Option, true, none, some, List, [], ◌∷◌, map, ◌≡◌, ◌↔◌, arith, eq_iff, truthy, ◌==◌,
  if◌then◌else◌,
}
use knowtfolio.Apis.Request.{Article}
use knowtfolio.Pages.Article.Escaped.{escape, all_plain, escape_fixed_iff}
use knowtfolio.Pages.Article.{
  client, server, initial, sections, Section, title, html, article_owner_info_table, nft_info_table,
}

-- What `main` puts into the template: the sections of the page at /articles/articleId, which no
-- effect has changed.
unfoldable pub template : List Section
unfolding sections
template = sections (initial server (some "articleId"))

module _ (reserialize : String → String) where
  -- `innerHTML` of the elements with the ids "title" and "content" on a page of these sections: the
  -- text of the title escaped, and the content as the browser writes it after reading it.
  unfoldable pub inner_html : List Section → String → Option String
  inner_html [] id = none
  inner_html (title content ∷ rest) id =
      let later = inner_html rest id in if id == "title" then some (escape content) else later
  inner_html (html content ∷ rest) id =
      let later = inner_html rest id in
      if id == "content" then some (reserialize content) else later
  inner_html (article_owner_info_table owner_id ∷ rest) id = inner_html rest id
  inner_html (nft_info_table article_id ∷ rest) id = inner_html rest id

module _ (fill : Article → String → String) where
  -- The server fills the fields of the template: the text that the title then has, and the HTML that
  -- the content then has.
  abbrev pub fill_section : Article → Section → Section
  fill_section article (title content) = title (fill article content)
  fill_section article (html content) = html (fill article content)
  fill_section article other = other

  abbrev pub served : Article → List Section
  served article = map (fill_section article) template

module _ (fill : Article → String → String) (sanitize reserialize : String → String) where
  sections-served :
      (article : Article) (id : String)
      → fill article "{{ .title }}" ≡ article.title
      → fill article "{{ .content }}" ≡ sanitize article.content
      → truthy id ≡ true
      → sections (initial (client (inner_html reserialize (served fill article))) (some id))
        ≡ title (escape article.title)
          ∷ html (reserialize (sanitize article.content))
          ∷ nft_info_table id
          ∷ []
  unfolding sections template inner_html
  sections-served article id filled filled' h =
      ground (
        arith,
        eq_iff (escape article.title) "",
        eq_iff (reserialize (sanitize article.content)) "",
      )

  title-served :
      (article : Article) (id : String)
      → fill article "{{ .title }}" ≡ article.title
      → (initial (client (inner_html reserialize (served fill article))) (some id)).title
        ≡ escape article.title
  unfolding template sections inner_html
  title-served article id filled = ground (arith, eq_iff (escape article.title) "")

  -- For an address with an article's id, where the server fills the template's title with the
  -- article's title and its content with the sanitized content: the client that takes over the
  -- served page starts with the title's escaped form, with the content as the browser writes it,
  -- and with the table of the NFT of its own address. Its title is the article's exactly when no
  -- character of that has an entity in HTML.
  pub served_article_kept :
      (article : Article) (id : String)
      → fill article "{{ .title }}" ≡ article.title
      → fill article "{{ .content }}" ≡ sanitize article.content
      → truthy id ≡ true
      → (sections (initial (client (inner_html reserialize (served fill article))) (some id))
          ≡ title (escape article.title)
            ∷ html (reserialize (sanitize article.content))
            ∷ nft_info_table id
            ∷ [])
        × (((initial (client (inner_html reserialize (served fill article))) (some id)).title
              ≡ article.title)
            ↔ (all_plain article.title ≡ true))
  served_article_kept article id filled filled' h = (
    sections-served article id filled filled' h,
    rw (title-served article id filled) (escape_fixed_iff article.title),
  )
