-- ===== src/Pages/Article.antt =====
-- client/src/components/pages/ArticlePage/index.tsx: an article, first as the server has rendered it.
pub mod Shown
pub mod Escaped
pub mod Rendered
use knowtfolio.Base.{
  String, Option, none, some, List, [], ◌∷◌, ◌++◌, if◌then◌else◌, concat, or_else, truthy, truthy?,
}
use knowtfolio.Apis.Knowtfolio.{get_article}
use knowtfolio.React.Program.{Async, ret, set_state, ◌>>=◌, ◌>>◌}
use knowtfolio.React.View.{View, listener}
use knowtfolio.React.World.{Component}

-- `__RenderOn__`, which the build defines. On a client, the argument is the inner HTML of the
-- document's element with an id, if there is such an element.
pub data RenderOn : Type 0 where
  client : (inner_html : String → Option String) → RenderOn
  server : RenderOn

-- On the server the value is a field of Go's template.
abbrev pub init_server_side_renderable_value : RenderOn → String → String → String
init_server_side_renderable_value (client inner_html) element_id var_name_for_tmpl =
    or_else (inner_html element_id) ""
init_server_side_renderable_value server element_id var_name_for_tmpl =
    concat ("{{ ." ∷ var_name_for_tmpl ∷ " }}" ∷ [])

pub record State : Type 0 where
  pub article_id : Option String
  pub title : String
  pub content : String
  pub owner_id : String

abbrev pub initial : RenderOn → Option String → State
initial render_on article_id = record {
  article_id = article_id;
  title = init_server_side_renderable_value render_on "title" "title";
  content = init_server_side_renderable_value render_on "content" "content";
  owner_id = "";
}

-- The effect on the article's id, where it is not empty.
abbrev pub fetch_article : String → Async State (Unit {0})
fetch_article article_id = do
  article ← get_article article_id
  set_state (λ s. record s { title = article.title })
  set_state (λ s. record s { content = article.content })
  set_state (λ s. record s { owner_id = article.owner_id })

unfoldable pub load_effect : Option String → Async State (Unit {0})
load_effect none = ret tt
load_effect (some article_id) = if truthy article_id then fetch_article article_id else ret tt

-- Another article's address while the page stays, and the effect that it has.
unfoldable pub go_to : Option String → Async State (Unit {0})
go_to article_id = do set_state (λ s. record s { article_id = article_id }); load_effect article_id

-- What stands below the header: the owner's table once the owner is known, and the table of the NFT
-- where the address has an article.
pub data Section : Type 0 where
  title : String → Section
  html : (content : String) → Section
  article_owner_info_table : (owner_id : String) → Section
  nft_info_table : (article_id : String) → Section

unfoldable pub sections : State → List Section
sections s =
    title s.title
    ∷ html s.content
    ∷ ((if truthy s.owner_id then article_owner_info_table s.owner_id ∷ [] else [])
        ++ (if truthy? s.article_id then nft_info_table (or_else s.article_id "") ∷ [] else []))

pub data Event : Type 0 where
  address_changed : (article_id : Option String) → Event

unfoldable pub handle : Event → State → Async State (Unit {0})
handle (address_changed article_id) s = go_to article_id

abbrev pub article_page : RenderOn → Option String → Component State Section Event
article_page render_on article_id = record {
  initial = initial render_on article_id;
  mount = load_effect article_id;
  render = λ s. listener address_changed ∷ [];
  handle = handle;
}
