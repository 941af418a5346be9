-- ===== src/Editor.antt =====
-- client/src/components/organisms/ArticleEditor/index.tsx: the name and the upload of an image that is
-- put into an article. The editor itself is TinyMCE's; its settings are in Editor.Settings.
pub mod Extension
pub mod Settings
use knowtfolio.Base.{ℕ, String, ltb, List, [], ◌∷◌, length, if◌then◌else◌, concat}
use knowtfolio.Base.Text.{split, last_of}
use knowtfolio.Apis.Decimal.{to_string}
use knowtfolio.Apis.Request.{Session, Outcome, put_object}
use knowtfolio.React.Program.{Async, ask, await_promise, ◌>>=◌}

unfoldable pub extract_extension : String → String
unfolding split
extract_extension filename =
    let arr = split b'.' filename in
    if ltb 0 (length (arr.first ∷ arr.rest))
    then concat ("." ∷ last_of arr.first arr.rest ∷ [])
    else ""

-- What the editor hands over: the name that the file had, and its bytes.
pub record BlobInfo : Type 0 where
  pub filename : String
  pub blob : String

-- The time and the six characters of nanoid are arguments, as is `encodeURI`.
unfoldable pub image_filename : ℕ → String → BlobInfo → String
unfolding extract_extension
image_filename timestamp id info =
    concat (to_string timestamp ∷ "_" ∷ id ∷ extract_extension info.filename ∷ [])

unfoldable pub image_upload_handler :
    {S : Type 0} → (String → Outcome String) → Session → ℕ → String → BlobInfo → Async S String
unfolding image_filename
image_upload_handler encode_uri session timestamp id info = do
  let filename = image_filename timestamp id info
  outcome ← ask (put_object session.id_token (concat ("images/" ∷ filename ∷ [])) info.blob)
  stored ← await_promise outcome
  await_promise (encode_uri (concat ("https://knowtfolio.com/images/" ∷ filename ∷ [])))
