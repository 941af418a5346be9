-- ===== src/Tests/Journeys.antt =====
-- The ways from one page to the next, at concrete inputs.
use knowtfolio.Base.{
  ◌↔◌, String, ◌==◌, if◌then◌else◌, true, none, some, [], ◌∷◌, ◌≡◌, refl, All, arith, truthy_iff,
  inl, inr,
}
use knowtfolio.Base.Dict.{lookup}
use knowtfolio.React.Program.{navigate, ◌>>=◌, catch}
use knowtfolio.React.View.{Offers}
use knowtfolio.React.Run.{Has, did, run}
use knowtfolio.Apis.Cognito.{
  confirm_signing_up_to_cognito, sign_in_to_cognito_with_password, sign_out_from_cognito,
}
use knowtfolio.Providers.Auth
use knowtfolio.Providers.Auth.{AuthContext, location_effect}
use knowtfolio.Providers.Auth.Loading.{Answers}
use knowtfolio.Forms.SignUp
use knowtfolio.Forms.SignUp.{verify, confirm_code, sign_in_after, verify_code}
use knowtfolio.Tables.AccountInfo.{sign_out}
use knowtfolio.Header
use knowtfolio.Header.{open_sign_in}
use knowtfolio.App.{Route, routes, app, page, register_wallet_page, sign_in_page}
use knowtfolio.App.Guarded.{All-Among}
use knowtfolio.App.Journeys.{IsExact, sign_up_journey, sign_out_journey}
use knowtfolio.App.Links.{perform, sign_up_form}
use knowtfolio.Cards
use knowtfolio.Apis.Request
use knowtfolio.React.Run.Settles.{IsObliging, IsSettled}
use knowtfolio.App.Links.Endings.{handlers_settle}
use knowtfolio.Apis.Request.{Article, SearchResultEntry}
use knowtfolio.Pages.Article.{initial, client, sections, title, html, nft_info_table}
use knowtfolio.Pages.Article.Escaped.{escape, all_plain}
use knowtfolio.Pages.Article.Rendered.{inner_html, served, served_article_kept}
use knowtfolio.Tests.Composition.{same_path, signed_in}
use knowtfolio.Tests.Servers.{granting, session, article}
use knowtfolio.Tests.Articles.{alice}

all_found : All (λ (r : Route). same_path routes r.path ≡ some r) routes
unfolding routes
all_found = ground arith

same_path-IsExact : IsExact same_path
same_path-IsExact r at = All-Among (λ r. same_path routes r.path ≡ some r) r routes all_found at

abbrev signed_up : SignUp.State
signed_up = record SignUp.initial {
  form = record {
    email = "a@b.c";
    password = "Pa5$word";
    password_confirmation = "Pa5$word";
    username = "alice";
  };
  has_signed_up = true;
  code = "123456";
}

verified :
    Has
      (did (navigate "/settings/wallet" true))
      (run granting (verify signed_up.form "123456") signed_up).trace
unfolding run verify confirm_code confirm_signing_up_to_cognito sign_in_after
    sign_in_to_cognito_with_password ◌>>=◌ catch
verified = inr (inr (inr (inr (inl refl))))

-- What the granting servers give of alice.
abbrev served_alice : AuthContext
served_alice = record alice { user_wallet_address = some "value" }

alice_answered : Answers granting "alice" served_alice
unfolding lookup
alice_answered = record {
  session_reply = record { err = none; result = some session };
  session_answered = refl;
  no_exception = refl;
  session = refl;
  attributes_reply = record { err = none; result = some (("email", "a@b.c") ∷ []) };
  attributes_answered = refl;
  no_error = refl;
  attributes = ("email", "a@b.c") ∷ [];
  attributes_result = refl;
  email = refl;
  website = refl;
  description = refl;
  picture = refl;
  has_email = (truthy_iff "a@b.c").0 refl;
  wallet = refl;
  same_user = refl;
}

sign_up_journey_example :
    app same_path
      (run granting (location_effect (some true) (some "alice")) Auth.initial).state
      "/settings/wallet"
    ≡ page (some served_alice) register_wallet_page
sign_up_journey_example =
    sign_up_journey same_path same_path-IsExact granting granting "/settings/wallet" true
      signed_up.form "123456" signed_up served_alice verified alice_answered

signed_off : Has (did (navigate "/signin" true)) (run granting (sign_out "alice") tt).trace
unfolding run sign_out sign_out_from_cognito ◌>>=◌ catch
signed_off = inr (inl refl)

sign_out_journey_example :
    (app same_path (run granting (location_effect (some true) none) signed_in).state "/signin"
      ≡ page none sign_in_page)
    × Offers
        (Header.render (run granting (location_effect (some true) none) signed_in).state)
        open_sign_in
sign_out_journey_example =
    sign_out_journey same_path same_path-IsExact granting granting "/signin" true "alice" signed_in
      signed_off

abbrev entry : SearchResultEntry
entry = record { id = "a1"; title = "Title"; owner_address = "0x1" }

granting-IsObliging : IsObliging granting
granting-IsObliging n (Request.sign_up a b c) = (_, refl, tt)
granting-IsObliging n (Request.confirm_registration a b) = (_, refl, tt)
granting-IsObliging n (Request.authenticate_user a b) = (_, refl, tt)
granting-IsObliging n (Request.initiate_auth a) = (_, refl, tt)
granting-IsObliging n (Request.send_challenge_answer a b) = (_, refl, tt)
granting-IsObliging n (Request.personal_sign a b) = (_, refl, tt)
granting-IsObliging n (Request.sign_out a) = (_, refl, tt)
granting-IsObliging n (Request.get_session a) = (_, refl, tt)
granting-IsObliging n (Request.get_user_attributes a) = (_, refl, tt)
granting-IsObliging n (Request.forgot_password a) = (_, refl, tt)
granting-IsObliging n (Request.confirm_password a b c) = (_, refl, tt)
granting-IsObliging n (Request.resend_code a) = (_, refl, tt)
granting-IsObliging n (Request.change_password a b c) = (_, refl, tt)
granting-IsObliging n (Request.update_attributes a b) = (_, refl, tt)
granting-IsObliging n (Request.get_item a b c) = (_, refl, tt)
granting-IsObliging n (Request.put_object a b c) = (_, refl, tt)
granting-IsObliging n (Request.read_image a) = (_, refl, tt)
granting-IsObliging n (Request.get_token_id a) = (_, refl, tt)
granting-IsObliging n Request.detect_provider = (_, refl, tt)
granting-IsObliging n Request.request_accounts = (_, refl, tt)
granting-IsObliging n (Request.validate_form a b) = (_, refl, tt)
granting-IsObliging n (Request.post_wallet a b c) = (_, refl, tt)
granting-IsObliging n (Request.user_info a) = (_, refl, tt)
granting-IsObliging n (Request.create_article a b c) = (_, refl, tt)
granting-IsObliging n (Request.update_article a b c) = (_, refl, tt)
granting-IsObliging n (Request.read_article a) = (_, refl, tt)
granting-IsObliging n (Request.create_nft a b) = (_, refl, tt)
granting-IsObliging n (Request.search a b) = (_, refl, tt)

handlers_settle_example : IsSettled (perform granting (sign_up_form verify_code signed_up)).result
handlers_settle_example =
    handlers_settle granting granting-IsObliging (sign_up_form verify_code signed_up) tt

-- Of all contents, the one with a script loses it.
abbrev strip_scripts : String → String
strip_scripts content = if content == "<p>text</p><script></script>" then "<p>text</p>" else content

abbrev reserialize : String → String
reserialize content = content

abbrev compared : Article
compared = record article { title = "A & B"; content = "<p>text</p><script></script>" }

-- The server writes the article's texts into the fields.
abbrev filling : Article → String → String
filling a field =
    if field == "{{ .title }}"
    then a.title
    else if field == "{{ .content }}"
    then strip_scripts a.content
    else field

served_article_kept_example :
    (sections (initial (client (inner_html reserialize (served filling compared))) (some "a1"))
      ≡ title (escape "A & B") ∷ html "<p>text</p>" ∷ nft_info_table "a1" ∷ [])
    × (((initial (client (inner_html reserialize (served filling compared))) (some "a1")).title
          ≡ "A & B")
        ↔ (all_plain "A & B" ≡ true))
served_article_kept_example =
    served_article_kept filling strip_scripts reserialize compared "a1" refl refl refl
