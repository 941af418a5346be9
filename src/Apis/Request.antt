-- ===== src/Apis/Request.antt =====
-- The calls that leave the client, with the data that each one carries, and what each answers.
-- The libraries and servers behind them are not modelled: any answer of the type may come.
use knowtfolio.Base.{ℕ, String, Bool, Option, List, [], ◌∷◌, concat, truthy, if◌then◌else◌}
use knowtfolio.Base.Dict.{Dict}
use knowtfolio.Apis.Number.{Number}

-- An error object: `json` is what `JSON.stringify` makes of it.
pub record JsError : Type 0 where
  pub name : String
  pub message : String
  pub json : String

-- `new Error(message)`.
abbrev pub error : String → JsError
error message = record { name = "Error"; message = message; json = "{}" }

-- `err.message || JSON.stringify(err)`.
abbrev pub describe : JsError → String
describe e = if truthy e.message then e.message else e.json

-- What `throw` and `reject` carry: an `Error` object, or another value by its text.
pub data Thrown : Type 0 where
  exception : JsError → Thrown
  value : String → Thrown

-- `${error}`.
abbrev pub error_text : Thrown → String
error_text (exception e) =
    if truthy e.message then concat (e.name ∷ ": " ∷ e.message ∷ []) else e.name
error_text (value s) = s

-- How a promise has settled.
pub data Outcome {ℓ} (A : Type ℓ) : Type ℓ where
  resolved : A → Outcome A
  rejected : Thrown → Outcome A

-- The two arguments of a callback, either of which may be missing.
pub record Callback {ℓ} (E A : Type ℓ) : Type ℓ where
  pub err : Option E
  pub result : Option A

-- The two tokens of a Cognito session that the client reads.
pub record Session : Type 0 where
  pub access_token : String
  pub id_token : String

-- The callbacks of an authentication, one of which Cognito calls.
pub data AuthEvent : Type 0 where
  on_success : Session → AuthEvent
  on_failure : JsError → AuthEvent
  custom_challenge : (sign_message : String) → AuthEvent

pub data SignUpErrorCode : Type 0 where
  invalid_format already_exists : SignUpErrorCode

pub record FieldError : Type 0 where
  pub field_name : String
  pub code : SignUpErrorCode

pub record Article : Type 0 where
  pub id : String
  pub content : String
  pub title : String
  pub owner_id : String

pub record UserInfo : Type 0 where
  pub username : String
  pub icon_url : String
  pub website_url : String
  pub biography : String
  pub wallet_address : String

pub record SearchResultEntry : Type 0 where
  pub id : String
  pub title : String
  pub owner_address : String

pub record SearchQuery : Type 0 where
  pub keywords : Option String
  pub owned_by : Option String
  pub sort_by : String
  pub page_num : Number
  pub page_size : ℕ

pub record SearchResponse : Type 0 where
  pub results : List SearchResultEntry
  pub total_count : ℕ

-- An image that was compressed and read: its bytes, its data URL and its name.
pub record ImageForm : Type 0 where
  pub blob : String
  pub url : String
  pub name : String

pub data Request : Type 0 where
  sign_up : (username password : String) (attributes : Dict String) → Request
  confirm_registration : (username code : String) → Request
  authenticate_user : (username password : String) → Request
  initiate_auth : (username : String) → Request
  send_challenge_answer : (username answer : String) → Request
  personal_sign : (message : String) (account : Option String) → Request
  sign_out : (username : String) → Request
  get_session : (username : String) → Request
  get_user_attributes : (username : String) → Request
  forgot_password : (username : String) → Request
  confirm_password : (username code password : String) → Request
  resend_code : (username : String) → Request
  change_password : (username old_password password : String) → Request
  update_attributes : (username : String) (attributes : Dict String) → Request
  get_item : (id_token type key : String) → Request
  -- Less the bucket and the type of the content.
  put_object : (id_token key blob : String) → Request
  read_image : (file : String) → Request
  get_token_id : (article_id : String) → Request
  -- `provider && window.ethereum?.isMetaMask`.
  detect_provider : Request
  request_accounts : Request
  validate_form : (url : String) (body : Dict String) → Request
  post_wallet : (url : String) (body headers : Dict String) → Request
  user_info : (url : String) → Request
  create_article : (url : String) (body headers : Dict String) → Request
  update_article : (url : String) (body headers : Dict String) → Request
  read_article : (url : String) → Request
  create_nft : (url : String) (body : Dict String) → Request
  search : (url : String) (params : SearchQuery) → Request

abbrev pub Reply : Request → Type 0
Reply (sign_up _ _ _) = Callback JsError String
Reply (confirm_registration _ _) = Callback JsError String
Reply (authenticate_user _ _) = AuthEvent
Reply (initiate_auth _) = AuthEvent
Reply (send_challenge_answer _ _) = AuthEvent
Reply (personal_sign _ _) = Outcome String
Reply (sign_out _) = Unit
Reply (get_session _) = Callback Thrown Session
Reply (get_user_attributes _) = Callback JsError (Dict String)
Reply (forgot_password _) = Outcome Unit
Reply (confirm_password _ _ _) = Outcome Unit
Reply (resend_code _) = Option JsError
Reply (change_password _ _ _) = Option JsError
Reply (update_attributes _ _) = Option JsError
Reply (get_item _ _ _) = Outcome (Option String)
Reply (put_object _ _ _) = Outcome Unit
Reply (read_image _) = Outcome ImageForm
Reply (get_token_id _) = Outcome ℕ
Reply detect_provider = Outcome Bool
Reply request_accounts = Outcome (List String)
Reply (validate_form _ _) = Outcome (List FieldError)
Reply (post_wallet _ _ _) = Outcome Unit
Reply (user_info _) = Outcome UserInfo
Reply (create_article _ _ _) = Outcome String
Reply (update_article _ _ _) = Outcome Unit
Reply (read_article _) = Outcome Article
Reply (create_nft _ _) = Outcome Unit
Reply (search _ _) = Outcome SearchResponse
