-- ===== src/Tests/Composition.antt =====
-- The page after its requests, the routes, the header, the editor and the challenges, at concrete
-- inputs.
use knowtfolio.Base.{
  zero, suc, String, true, Option, none, some, List, [], ◌∷◌, ◌≡◌, ◌↔◌, refl, inl, inr, arith, ◌==◌,
  if◌then◌else◌, Bool-cases,
}
use knowtfolio.Apis.Request.{
  ImageForm, on_success, custom_challenge, initiate_auth, personal_sign, send_challenge_answer,
}
use knowtfolio.React.Program.{navigate, toast_success}
use knowtfolio.React.View.{Offers}
use knowtfolio.React.Run.{Environment, run, sent, did, fulfilled}
use knowtfolio.Providers.Auth
use knowtfolio.Providers.Auth.{
  AuthContext, content, authenticated, on_unauthenticated, auth_provider,
}
use knowtfolio.Providers.Web3.{Web3Context}
use knowtfolio.Forms.SignIn
use knowtfolio.Forms.SignIn.{sign_in_with_wallet}
use knowtfolio.Forms.SignIn.Challenges.{wallet_sign_in_ends}
use knowtfolio.Header
use knowtfolio.Header.{open_account, open_new_article, open_search, open_sign_up, open_sign_in}
use knowtfolio.Header.Links.{Offers-account_iff}
use knowtfolio.App.{Route, page, app, upload_image_page}
use knowtfolio.App.Guarded.{Among, guarded_pages}
use knowtfolio.Tests.Servers.{granting, session}
use knowtfolio.Tests.Articles.{alice}

abbrev login : SignIn.State
login = record { username = "alice"; password = "" }

abbrev wallet : Web3Context
wallet = record {
  is_connected_to_metamask = true;
  account = some "0x1";
  has_connect_metamask = true;
}

-- Cognito sets two challenges in a row.
abbrev challenging : Environment
challenging (suc (suc zero)) (send_challenge_answer username answer) =
    some (custom_challenge "again")
challenging n q = granting n q

wallet_sign_in_ends_example : run challenging (sign_in_with_wallet 3 wallet login) login ≡ record {
  state = login;
  trace =
      sent (initiate_auth "alice")
      ∷ sent (personal_sign "challenge" (some "0x1"))
      ∷ sent (send_challenge_answer "alice" "signature")
      ∷ sent (personal_sign "again" (some "0x1"))
      ∷ sent (send_challenge_answer "alice" "signature")
      ∷ did (navigate "/users/alice" true)
      ∷ did (toast_success "サインインしました。")
      ∷ [];
  result = fulfilled tt;
}
wallet_sign_in_ends_example =
    wallet_sign_in_ends challenging 3 wallet login (custom_challenge "challenge")
      (("challenge", "signature") ∷ ("again", "signature") ∷ []) session refl refl
      (refl, refl, custom_challenge "again", refl, (refl, refl, on_success session, refl, refl))
      (omega arith)

abbrev pub signed_in : Auth.State
signed_in = record { auth = some alice; has_loaded_session = true }

Offers-account_iff_example :
    (Offers (Header.render signed_in) (open_account "alice")
      ↔ ((auth : AuthContext) × (content signed_in ≡ authenticated auth) × (auth.user ≡ "alice")))
    × (Offers (Header.render signed_in) open_new_article
        ↔ ((auth : AuthContext) × (content signed_in ≡ authenticated auth)))
    × (Offers (Header.render signed_in) open_search
        ↔ ((auth : AuthContext) × (content signed_in ≡ authenticated auth)))
    × (Offers (Header.render signed_in) open_sign_up ↔ (content signed_in ≡ on_unauthenticated))
    × (Offers (Header.render signed_in) open_sign_in ↔ (content signed_in ≡ on_unauthenticated))
Offers-account_iff_example = Offers-account_iff signed_in "alice"

-- The route whose path is the location.
abbrev pub same_path : List Route → String → Option Route
same_path [] location = none
same_path (r ∷ rs) location =
    let rest = same_path rs location in if r.path == location then some r else rest

same_path-Among :
    (rs : List Route) (location : String) (r : Route) → same_path rs location ≡ some r → Among r rs
same_path-Among [] location r e = ground arith
same_path-Among (x ∷ rs) location r e = elim (Bool-cases (x.path == location)) [
  | inl h ↦ inl (ground (arith, h, e))
  | inr h ↦ inr (same_path-Among rs location r (ground (arith, h, e)))
]

upload_shown : app same_path signed_in "/upload-image" ≡ page (some alice) upload_image_page
unfolding app
upload_shown = refl

guarded_pages_example :
    (user : AuthContext) × (◌≡◌ {A = Option AuthContext} (some alice) (some user))
    × (content signed_in ≡ authenticated user)
guarded_pages_example =
    guarded_pages same_path same_path-Among signed_in "/upload-image" (some alice) upload_image_page
      upload_shown refl

abbrev picture : ImageForm
picture = record { blob = "bytes"; url = "data:"; name = "me.png" }
