-- ===== src/Pages/UploadImage/Stored.antt =====
-- What the upload of an image reports.
use knowtfolio.Base.{none, some, ◌≡◌, ◌↔◌, [], ◌∷◌, arith, eq_iff, concat}
use knowtfolio.Apis.Request.{Session, ImageForm, resolved, put_object}
use knowtfolio.React.Program.{alert, ◌>>=◌, catch}
use knowtfolio.React.Run.{Environment, run, Has, did}
use knowtfolio.Pages.UploadImage.{State, upload}

-- The success is reported exactly when an image was chosen and read, and the store has taken it
-- under its name with the session's token; the user is asked for an image exactly when none was
-- chosen.
upload_reports_iff :
    (env : Environment) (session : Session) (s : State)
    → (Has (did (alert "successfully uploaded file")) (run env (upload session s) s).trace ↔ (
        (image : ImageForm) × (s ≡ some image)
        × (env 0 (put_object session.id_token (concat ("images/" ∷ image.name ∷ [])) image.blob)
            ≡ some (resolved tt))))
      × (Has (did (alert "please input your image before")) (run env (upload session s) s).trace
          ↔ (s ≡ none))
unfolding run upload ◌>>=◌ catch
upload_reports_iff env session none = (
  (
    λ h.
        let no : ⊥ =
          ground (arith, eq_iff "please input your image before" "successfully uploaded file") in
        elim no [ ],
    ground arith,
  ),
  ground arith,
)
upload_reports_iff env session (some image) = (
  ground (arith, eq_iff "successfully uploaded file" "uploading file failed..."),
  ground (
    arith,
    eq_iff "please input your image before" "successfully uploaded file",
    eq_iff "please input your image before" "uploading file failed...",
  ),
)
