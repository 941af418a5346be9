-- ===== src/Forms/Validation.antt =====
-- client/src/components/organisms/forms/helper.tsx: the validation that the account forms share.
-- A form is its entries in the order of its keys.
pub mod Submission
pub mod Messages
use knowtfolio.Base.{
  String, Bool, true, false, ◌&&◌, Option, none, some, List, [], ◌∷◌, map, ◌==◌, all, truthy,
  truthy?, if◌then◌else◌, concat,
}
use knowtfolio.Base.Dict.{Dict, lookup, put}
use knowtfolio.Apis.Request.{SignUpErrorCode, invalid_format, already_exists, FieldError}
use knowtfolio.Apis.Lambda.{validate_sign_up_form}
use knowtfolio.React.Program.{Async, ret, ◌>>=◌}

-- What is shown below a field: its value is taken, wrong or fine. A wrong value is explained by the
-- text for its field, if there is one.
pub data FieldMessage : Type 0 where
  already_registered : (content : String) → FieldMessage
  wrong : (explanation : Option String) → FieldMessage
  valid_field : FieldMessage

abbrev pub messages_on_invalid_form_error : Dict String
messages_on_invalid_form_error =
    ("username", "小文字・数字・ハイフンのみを含む３９文字以内の文字列である必要があります。（ハイフンは頭と末尾に来てはいけません。）")
    ∷ ("password", "大文字・小文字・数字・記号を含む８文字以上の文字列である必要があります。")
    ∷ ("email", "適切なEmailアドレスではありません。")
    ∷ ("wallet_address", "適切なwallet addressではありません。")
    ∷ ("password_confirmation", "パスワードが一致していません。")
    ∷ []

unfoldable pub translate_sign_up_error_code : String → SignUpErrorCode → String → FieldMessage
unfolding lookup
translate_sign_up_error_code field already_exists content = already_registered content
translate_sign_up_error_code field invalid_format content =
    wrong (lookup field messages_on_invalid_form_error)

-- `fieldErrors.find((err) => err.field_name == key)`.
unfoldable pub find_error : String → List FieldError → Option FieldError
find_error key [] = none
find_error key (e ∷ errors) = if e.field_name == key then some e else find_error key errors

-- `String(form[key])`.
abbrev pub shown : Option String → String
shown none = "undefined"
shown (some s) = s

unfoldable pub filter_keys : (String → Bool) → List String → List String
filter_keys p [] = []
filter_keys p (k ∷ ks) = let rest = filter_keys p ks in if p k then k ∷ rest else rest

-- The message below a filled field.
abbrev pub message_of : Dict String → String → Option FieldError → FieldMessage
message_of form key none = valid_field
message_of form key (some e) =
    translate_sign_up_error_code e.field_name e.code (shown (lookup key form))

abbrev pub is_missing : {A : Type 0} → Option A → Bool
is_missing none = true
is_missing (some e) = false

pub record Verdict : Type 0 where
  pub messages : Dict FieldMessage
  pub is_form_valid : Bool

-- The loop of `reduce`, with the flag that it writes to.
unfoldable pub reduce_keys :
    Dict String → List FieldError → List String → Dict FieldMessage → Bool → Verdict
reduce_keys form errors [] msgs valid = record { messages = msgs; is_form_valid = valid }
reduce_keys form errors (key ∷ keys) msgs valid =
    reduce_keys form errors keys (put key (message_of form key (find_error key errors)) msgs)
      (is_missing (find_error key errors) && valid)

pub record Validation : Type 0 where
  pub field_messages : Dict FieldMessage
  pub can_submit_form : Bool

abbrev pub names : Dict String → List String
names form = map (λ entry. entry.0) form

-- Fields without input get no message.
abbrev pub filled_names : Dict String → List String
filled_names form = filter_keys (λ key. truthy? (lookup key form)) (names form)

unfoldable pub judge_form : Dict String → List FieldError → Validation
judge_form form errors =
    let verdict = reduce_keys form errors (filled_names form) [] true in
    record {
      field_messages = verdict.messages;
      can_submit_form = verdict.is_form_valid && all (λ entry. truthy entry.1) form;
    }

unfoldable pub validate_form : {S : Type 0} → Dict String → Async S Validation
validate_form form = do
  field_errors ← validate_sign_up_form form
  ret (judge_form form field_errors)
