-- ===== src/Editor/Extension.antt =====
-- The extension of an image's name, and the address that its upload gives.
use Prim.Native.String
use knowtfolio.Base.{ℕ, String, true, some, ◌≡◌, ◌↔◌, [], ◌∷◌, refl, arith, concat}
use knowtfolio.Base.Text.{split, last_of, has_no, spell, append-eq-spell, split_one}
use knowtfolio.Apis.Request.{Session, Outcome, resolved, put_object}
use knowtfolio.React.Program.{◌>>=◌}
use knowtfolio.React.Run.{Environment, run, fulfilled}
use knowtfolio.Editor.{BlobInfo, extract_extension, image_filename, image_upload_handler}

last_of-split_dotted :
    (base ext q : String)
    → has_no b'.' ext ≡ true
    → last_of q (split b'.' (spell base (String.◌∷◌ "." ext))).rest ≡ ext
unfolding split
last_of-split_dotted String.[] ext q h = rw (split_one b'.' ext h) refl
last_of-split_dotted (String.◌∷◌ c base) ext q h = ground (
  arith,
  last_of-split_dotted base ext (split b'.' (spell base (String.◌∷◌ "." ext))).first,
  last_of-split_dotted base ext q,
)

-- For a text without a dot: a name that ends with a dot and the text has the dot and the text as
-- its extension, and so has the name that is the text alone.
extract_extension_lem :
    (base ext : String)
    → has_no b'.' ext ≡ true
    → (extract_extension (String.◌++◌ base (String.◌∷◌ "." ext)) ≡ String.◌++◌ "." ext)
      × (extract_extension ext ≡ String.◌++◌ "." ext)
unfolding extract_extension
extract_extension_lem base ext h = (
  rw (append-eq-spell base (String.◌∷◌ "." ext)) (
      ground (
        arith,
        last_of-split_dotted base ext (split b'.' (spell base (String.◌∷◌ "." ext))).first,
      )),
  rw (split_one b'.' ext h) (ground arith),
)

-- The upload gives the encoded address of the image that was stored, exactly when it was stored.
upload_resolves_iff :
    (encode_uri : String → Outcome String) (env : Environment) (session : Session) (timestamp : ℕ)
    (id : String) (info : BlobInfo) (uri : String)
    → ((run env (image_upload_handler {S = Unit} encode_uri session timestamp id info) tt).result
        ≡ fulfilled uri)
      ↔ ((env 0 (
              put_object session.id_token
                (concat ("images/" ∷ image_filename timestamp id info ∷ []))
                info.blob)
            ≡ some (resolved tt))
          × (encode_uri
                (concat ("https://knowtfolio.com/images/" ∷ image_filename timestamp id info ∷ []))
              ≡ resolved uri))
unfolding run image_upload_handler ◌>>=◌
upload_resolves_iff encode_uri env session timestamp id info uri = ground arith
