-- ===== src/Editor/Settings.antt =====
-- client/src/components/organisms/ArticleEditor/index.tsx: what the editor is given.
use knowtfolio.Base.{ℕ, String, Bool, false, Option, none, some, List, [], ◌∷◌}
use knowtfolio.Apis.Configs.{Env, tiny_mce_api_key}
use knowtfolio.Apis.Request.{Outcome, Session}
use knowtfolio.React.Program.{Async}
use knowtfolio.Editor.{BlobInfo, image_upload_handler}

-- A text that formats what is typed: the format of what stands between two texts or behind one, or a
-- command, which may have a style of lists.
pub data TextPattern : Type 0 where
  between : (start end format : String) → TextPattern
  behind : (start format : String) → TextPattern
  command : (start cmd : String) (list_style_type : Option String) → TextPattern

abbrev pub text_patterns : List TextPattern
text_patterns =
    between "*" "*" "italic"
    ∷ between "**" "**" "bold"
    ∷ behind "#" "h1"
    ∷ behind "##" "h2"
    ∷ behind "###" "h3"
    ∷ behind "####" "h4"
    ∷ behind "#####" "h5"
    ∷ behind "######" "h6"
    ∷ between "`" "`" "code"
    ∷ command "1. " "InsertOrderedList" none
    ∷ command "a. " "InsertOrderedList" (some "lower-alpha")
    ∷ command "i. " "InsertOrderedList" (some "lower-roman")
    ∷ command "* " "InsertUnorderedList" none
    ∷ command "- " "InsertUnorderedList" none
    ∷ []

-- The groups of the toolbar, whose bars are left out.
abbrev pub toolbar : List (List String)
toolbar =
    ("undo" ∷ "redo" ∷ [])
    ∷ ("styles" ∷ [])
    ∷ ("bold" ∷ "italic" ∷ "codeformat" ∷ "underline" ∷ [])
    ∷ ("fontfamily" ∷ "fontsize" ∷ "forecolor" ∷ [])
    ∷ ("alignleft" ∷ "aligncenter" ∷ "alignright" ∷ [])
    ∷ ("link" ∷ "image" ∷ "media" ∷ [])
    ∷ ("numlist" ∷ "bullist" ∷ "table" ∷ [])
    ∷ ("codesample" ∷ [])
    ∷ ("searchreplace" ∷ "help" ∷ [])
    ∷ []

abbrev pub plugins : List String
plugins =
    "image" ∷ "textpattern" ∷ "preview" ∷ "lists" ∷ "advlist" ∷ "link" ∷ "autolink" ∷ "table"
    ∷ "anchor" ∷ "code" ∷ "codesample" ∷ "emoticons" ∷ "searchreplace" ∷ "visualblocks" ∷ "media"
    ∷ "wordcount" ∷ "help" ∷ []

-- The properties of the editor; `S` is the state of the page around it.
pub record EditorProps (S : Type 0) : Type 0 where
  pub on_editor_change : String → Async S (Unit {0})
  pub value : Option String
  pub api_key : String
  pub height : Option String
  pub menubar : Bool
  pub content_style : String
  pub images_upload_handler : ℕ → String → BlobInfo → Async S String
  pub patterns : List TextPattern
  pub toolbar_groups : List (List String)
  pub plugin_names : List String

unfoldable pub article_editor :
    {S : Type 0}
    → Env
    → (String → Outcome String)
    → Session
    → (String → Async S (Unit {0}))
    → (value height : Option String) → EditorProps S
article_editor env encode_uri session on_editor_change value height = record {
  on_editor_change = on_editor_change;
  value = value;
  api_key = tiny_mce_api_key env;
  height = height;
  menubar = false;
  content_style = "body { font-family:Helvetica,Arial,sans-serif; font-size:14px }";
  images_upload_handler = image_upload_handler encode_uri session;
  patterns = text_patterns;
  toolbar_groups = toolbar;
  plugin_names = plugins;
}
