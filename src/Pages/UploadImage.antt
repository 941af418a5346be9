-- ===== src/Pages/UploadImage.antt =====
-- client/src/components/pages/UploadImagePage/index.tsx: an image is chosen, previewed and stored.
pub mod Stored
use knowtfolio.Base.{String, Option, none, some, List, [], ◌∷◌, ◌++◌, false, concat}
use knowtfolio.Apis.Request.{
  Session, ImageForm, Outcome, resolved, rejected, put_object, read_image,
}
use knowtfolio.React.Program.{
  Async, ret, never, alert, console_error, ask, await_promise, set_state, perform, catch, ◌>>=◌,
  ◌>>◌,
}
use knowtfolio.React.View.{View, text, icon, file, button}

-- The state `imageForm`.
abbrev pub State : Type 0
State = Option ImageForm

pub data Event : Type 0 where
  set_image_on_form : (chosen : Option String) → Event
  upload_image : Event

unfoldable pub upload : Session → State → Async State (Unit {0})
upload session none = perform (alert "please input your image before")
upload session (some image) =
    catch
      (do
        outcome ←
            ask (put_object session.id_token (concat ("images/" ∷ image.name ∷ [])) image.blob)
        stored ← await_promise outcome
        perform (alert "successfully uploaded file"))
      (λ error. do perform (console_error error); perform (alert "uploading file failed..."))

-- The listener of the reader's `load`; a file that cannot be read raises none.
abbrev pub loaded : Outcome ImageForm → Async State (Unit {0})
loaded (resolved image) = set_state (λ s. some image)
loaded (rejected e) = ret tt

unfoldable pub read_file : Option String → Async State (Unit {0})
read_file none = ret tt
read_file (some chosen) = do outcome ← ask (read_image chosen); loaded outcome

unfoldable pub handle : Session → Event → State → Async State (Unit {0})
handle session (set_image_on_form chosen) s = read_file chosen
handle session upload_image s = upload session s

abbrev pub preview : State → List (View String Event)
preview none = []
preview (some image) = text "preview" ∷ icon (some image.url) ∷ []

unfoldable pub render : State → List (View String Event)
render s =
    text "input image"
    ∷ file "image/*" set_image_on_form
    ∷ (preview s ++ button "upload" false upload_image ∷ [])
