-- ===== src/Forms/UpdateProfile/Updating.antt =====
-- When a profile can be submitted, and what is sent of it.
use knowtfolio.Base.{
  String, Bool, true, none, some, ◌≡◌, ◌≤◌, ◌↔◌, [], ◌∷◌, ◌++◌, arith, eq_iff, concat, truthy,
  truthy?, or_else, if◌then◌else◌,
}
use knowtfolio.Apis.Request.{
  Thrown, Outcome, resolved, rejected, put_object, update_attributes, ImageForm,
}
use knowtfolio.React.Program.{navigate, console_error, toast_error, toast_success, ◌>>=◌, catch}
use knowtfolio.React.View.{Offers}
use knowtfolio.React.Run.{Environment, run, Has, sent, did}
use knowtfolio.Providers.Auth.{AuthContext}
use knowtfolio.Forms.UpdateProfile.{
  State, submit_form, submit, upload_image, render, entries, convert_to_attributes,
  description_length, image_key,
}

-- The page offers the submission exactly when the description has at most 160 code units and the
-- website, if it is not empty, is a URL.
Offers-submit_form_iff :
    (is_url : String → Bool) (auth : AuthContext) (s : State)
    → Offers (render is_url auth s) submit_form ↔ (
        (description_length s.profile_form ≤ 160)
        × (truthy? s.profile_form.website ≡ true
            → is_url (or_else s.profile_form.website "") ≡ true))
unfolding render
Offers-submit_form_iff is_url auth s = ground arith

or_else-empty : (s : String) → (if truthy s then s else "") ≡ s
or_else-empty s = ground (arith, eq_iff s "")

module _ (encode_uri : String → Outcome String) (env : Environment) (auth : AuthContext) (s : State)
    (image : ImageForm) (chosen : s.image_form ≡ some image) where
  -- With a picture chosen, the attributes are sent with an address of the picture exactly when the
  -- picture was stored and that address is its encoded one.
  picture_sent_iff :
      (uri : String)
      → Has
          (sent (
            update_attributes auth.user
              (convert_to_attributes (entries s.profile_form ++ ("picture", some uri) ∷ []))))
          (run env (submit encode_uri auth s) s).trace
        ↔ ((env 0 (put_object auth.session.id_token (image_key image) image.blob)
              ≡ some (resolved tt))
            × (encode_uri (concat ("https://knowtfolio.com/images/" ∷ image.name ∷ []))
                ≡ resolved uri))
  unfolding run submit upload_image ◌>>=◌ catch
  picture_sent_iff uri = grind (arith, or_else-empty)

  -- With a picture chosen that cannot be stored, and attributes that Cognito then takes: the
  -- failure is logged and shown, the attributes are sent without a picture, and the form leaves for
  -- the profile.
  profile_sent_without_picture :
      (failure : Thrown)
      → env 0 (put_object auth.session.id_token (image_key image) image.blob)
        ≡ some (rejected failure)
      → env 1 (update_attributes auth.user (convert_to_attributes (entries s.profile_form)))
        ≡ some none
      → (run env (submit encode_uri auth s) s).trace
        ≡ sent (put_object auth.session.id_token (image_key image) image.blob)
          ∷ did (console_error failure)
          ∷ did (toast_error "プロフィール画像の更新に失敗しました。")
          ∷ sent (update_attributes auth.user (convert_to_attributes (entries s.profile_form)))
          ∷ did (toast_success "プロフィールの更新に成功しました。")
          ∷ did (navigate "/settings/profile" true)
          ∷ []
  unfolding run submit upload_image ◌>>=◌ catch
  profile_sent_without_picture failure refused taken = ground arith
