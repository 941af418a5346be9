-- ===== src/Forms/UpdateProfile.antt =====
-- client/src/components/organisms/forms/UpdateProfileForm/index.tsx: the user's profile and picture.
pub mod Updating
use Prim.Native.String
use knowtfolio.Base.{
  length, ℕ, ◌+◌, String, Bool, true, false, ◌&&◌, not, ltb, leb, Option, none, some, List, [], ◌∷◌,
  ◌++◌, map, ◌==◌, if◌then◌else◌, or_else, concat, truthy?, ◌||◌,
}
use knowtfolio.Base.Text.{utf16}
use knowtfolio.Base.Dict.{Dict}
use knowtfolio.Apis.Decimal.{to_string}
use knowtfolio.Apis.Request.{
  JsError, Outcome, ImageForm, value, describe, put_object, read_image, update_attributes,
}
use knowtfolio.React.Program.{
  Async, ret, navigate, toast_success, toast_error, console_error, ask, await_promise, ◌>>=◌, ◌>>◌,
  catch, set_state, perform,
}
use knowtfolio.Atoms.{icon_image}
use knowtfolio.React.View.{View, heading, file, labelled, input, note, text, button}
use knowtfolio.Providers.Auth.{AuthContext}

-- The two fields that are typed; the picture joins them in the submission.
pub record ProfileForm : Type 0 where
  pub website : Option String
  pub description : Option String

pub record State : Type 0 where
  pub profile_form : ProfileForm
  pub image_form : Option ImageForm

abbrev pub initial : AuthContext → State
initial auth = record {
  profile_form = record {
    website = auth.attributes.website;
    description = auth.attributes.description;
  };
  image_form = none;
}

-- `Object.keys(form)` and `form[key]`; a field may be there and undefined.
abbrev pub entries : ProfileForm → Dict (Option String)
entries form = ("website", form.website) ∷ ("description", form.description) ∷ []

abbrev pub convert_to_attributes : Dict (Option String) → Dict String
convert_to_attributes form =
    map
      (λ entry.
        (if entry.0 == "description" then "custom:description" else entry.0, or_else entry.1 ""))
      form

abbrev pub description_max_length : ℕ
description_max_length = 160

unfoldable pub description_length : ProfileForm → ℕ
unfolding utf16
description_length form = elim form.description [ none ↦ 0 | some s ↦ length (utf16 s) ]

abbrev pub is_valid_bio : ProfileForm → Bool
is_valid_bio form = leb (description_length form) description_max_length

-- `validator.isURL` with the protocols http and https is the argument `is_url`.
abbrev pub is_valid_url : (String → Bool) → ProfileForm → Bool
is_valid_url is_url form = if truthy? form.website then is_url (or_else form.website "") else true

abbrev pub is_valid_form : (String → Bool) → ProfileForm → Bool
is_valid_form is_url form = is_valid_bio form && is_valid_url is_url form

abbrev pub image_key : ImageForm → String
image_key image = concat ("images/" ∷ image.name ∷ [])

-- The upload of the picture, and the form that it leaves. `encodeURI` is the argument `encode_uri`.
unfoldable pub upload_image :
    (String → Outcome String)
    → AuthContext
    → ProfileForm
    → Option ImageForm
    → Async State (Dict (Option String))
upload_image encode_uri auth form none = ret (entries form)
upload_image encode_uri auth form (some image) =
    catch
      (do
        outcome ← ask (put_object auth.session.id_token (image_key image) image.blob)
        stored ← await_promise outcome
        uri ←
            await_promise (encode_uri (concat ("https://knowtfolio.com/images/" ∷ image.name ∷ [])))
        perform (toast_success "プロフィール画像の更新に成功しました。")
        ret (entries form ++ ("picture", some uri) ∷ []))
      (λ error. do
        perform (console_error error)
        perform (toast_error "プロフィール画像の更新に失敗しました。")
        ret (entries form))

-- The callback of `updateAttributes`.
abbrev pub attributes_updated : Option JsError → Async State (Unit {0})
attributes_updated (some err) = do
  perform (console_error (value (describe err)))
  perform (toast_error "プロフィールの更新に失敗しました。")
attributes_updated none = do
  perform (toast_success "プロフィールの更新に成功しました。")
  perform (navigate "/settings/profile" true)

unfoldable pub submit : (String → Outcome String) → AuthContext → State → Async State (Unit {0})
submit encode_uri auth s = do
  form ← upload_image encode_uri auth s.profile_form s.image_form
  err ← ask (update_attributes auth.user (convert_to_attributes form))
  attributes_updated err

pub data Event : Type 0 where
  change_form : (name content : String) → Event
  set_image : (chosen : Option String) → Event
  submit_form : Event
  cancel : Event

-- `{ ...prev, [field]: content }` for the two fields of the page.
unfoldable pub set_field : String → String → ProfileForm → ProfileForm
set_field name content prev =
    if name == "website"
    then record prev { website = some content }
    else if name == "description"
    then record prev { description = some content }
    else prev

-- The compression and the reading of the file are one call, which is rejected when the compression
-- is, and has no answer when the file cannot be read.
unfoldable pub handle_set_image : Option String → Async State (Unit {0})
handle_set_image none = ret tt
handle_set_image (some chosen) =
    catch
      (do
        outcome ← ask (read_image chosen)
        image ← await_promise outcome
        set_state (λ s. record s { image_form = some image }))
      (λ error. do perform (console_error error); perform (toast_error "画像の読み込みに失敗しました。"))

unfoldable pub handle :
    (String → Outcome String) → AuthContext → Event → State → Async State (Unit {0})
handle encode_uri auth (change_form name content) s =
    set_state (λ t. record t { profile_form = set_field name content t.profile_form })
handle encode_uri auth (set_image chosen) s = handle_set_image chosen
handle encode_uri auth submit_form s = submit encode_uri auth s
handle encode_uri auth cancel s = perform (navigate (concat ("/users/" ∷ auth.user ∷ [])) false)

-- The message below the website, if there is one.
abbrev pub website_message : (String → Bool) → ProfileForm → Option String
website_message is_url form =
    if truthy? form.website
    then some (if is_valid_url is_url form then "有効なURLです。" else "無効なURLです。")
    else none

abbrev pub image_url : Option ImageForm → Option String → Option String
image_url none picture = picture
image_url (some image) picture = if truthy? (some image.url) then some image.url else picture

unfoldable pub render : (String → Bool) → AuthContext → State → List (View String Event)
render is_url auth s =
    heading "プロフィールを編集"
    ∷ icon_image (image_url s.image_form auth.attributes.picture)
    ∷ file "image/*" set_image
    ∷ labelled "Username" (some auth.user)
    ∷ labelled "Email" (some auth.attributes.email)
    ∷ input "website" s.profile_form.website false (website_message is_url s.profile_form)
        (change_form "website")
    ∷ input "description" s.profile_form.description false none (change_form "description")
    ∷ note (if is_valid_bio s.profile_form then "" else "自己紹介の文字数は160文字以内にしてください")
    ∷ text (concat (to_string (description_length s.profile_form) ∷ "/160文字" ∷ []))
    ∷ button "update" (not (is_valid_form is_url s.profile_form)) submit_form
    ∷ button "cancel" false cancel
    ∷ []
