-- ===== src/Tests/Servers.antt =====
-- Servers that grant everything, and one that fails in one place.
use knowtfolio.Base.{true, List, none, some, [], ◌∷◌}
use knowtfolio.Apis.Request.{
  Session, Article, SearchResponse, Thrown, FieldError, exception, error, resolved, rejected,
  on_success, custom_challenge, already_exists, sign_up, confirm_registration, authenticate_user,
  initiate_auth, send_challenge_answer, personal_sign, sign_out, get_session, get_user_attributes,
  forgot_password, confirm_password, resend_code, change_password, update_attributes, get_item,
  put_object, read_image, get_token_id, detect_provider, request_accounts, validate_form,
  post_wallet, user_info, create_article, update_article, read_article, create_nft, search,
}
use knowtfolio.React.Run.{Environment}

abbrev pub session : Session
session = record { access_token = "access"; id_token = "id" }

abbrev pub article : Article
article = record { id = "a1"; content = "<p>text</p>"; title = "Title"; owner_id = "alice" }

abbrev pub found : SearchResponse
found = record {
  results = record { id = "a1"; title = "Title"; owner_address = "0x1" } ∷ [];
  total_count = 25;
}

abbrev pub granting : Environment
granting n (sign_up username password attributes) =
    some (record { err = none; result = some username })
granting n (confirm_registration username code) =
    some (record { err = none; result = some "SUCCESS" })
granting n (authenticate_user username password) = some (on_success session)
granting n (initiate_auth username) = some (custom_challenge "challenge")
granting n (send_challenge_answer username answer) = some (on_success session)
granting n (personal_sign message account) = some (resolved "signature")
granting n (sign_out username) = some tt
granting n (get_session user) = some (record { err = none; result = some session })
granting n (get_user_attributes user) =
    some (record { err = none; result = some (("email", "a@b.c") ∷ []) })
granting n (forgot_password username) = some (resolved tt)
granting n (confirm_password username code password) = some (resolved tt)
granting n (resend_code username) = some none
granting n (change_password username old_password password) = some none
granting n (update_attributes username attributes) = some none
granting n (get_item id_token type key) = some (resolved (some "value"))
granting n (put_object id_token key blob) = some (resolved tt)
granting n (read_image file) =
    some (resolved (record { blob = "bytes"; url = "data:"; name = file }))
granting n (get_token_id article_id) = some (resolved 7)
granting n detect_provider = some (resolved true)
granting n request_accounts = some (resolved ("0x1" ∷ []))
granting n (validate_form url body) = some (resolved [])
granting n (post_wallet url body headers) = some (resolved tt)
granting n (user_info url) = some (
    resolved (record {
      username = "alice";
      icon_url = "";
      website_url = "";
      biography = "";
      wallet_address = "0x1";
    }))
granting n (create_article url body headers) = some (resolved "a1")
granting n (update_article url body headers) = some (resolved tt)
granting n (read_article url) = some (resolved article)
granting n (create_nft url body) = some (resolved tt)
granting n (search url params) = some (resolved found)

abbrev pub refusal : Thrown
refusal = exception (error "refused")

-- The wallet refuses its signature.
abbrev pub refusing : Environment
refusing n (personal_sign message account) = some (rejected refusal)
refusing n q = granting n q

-- The table is not reached.
abbrev pub tableless : Environment
tableless n (get_item id_token type key) = some (rejected refusal)
tableless n q = granting n q

abbrev pub alice_taken : List FieldError
alice_taken = record { field_name = "username"; code = already_exists } ∷ []

-- The username is taken.
abbrev pub taking : Environment
taking n (validate_form url body) = some (resolved alice_taken)
taking n q = granting n q
