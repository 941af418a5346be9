-- ===== src/Apis/Configs.antt =====
-- client/src/configs: what the client takes from the environment of its build. A variable that is
-- missing or empty is the empty text.
use knowtfolio.Base.{String, Option, or_else}

abbrev pub Env : Type 0
Env = String → Option String

-- `process.env.NAME || ""`.
abbrev pub read : Env → String → String
read env name = or_else (env name) ""

abbrev pub contract_address : Env → String
contract_address env = read env "CONTRACT_ADDRESS"

abbrev pub tiny_mce_api_key : Env → String
tiny_mce_api_key env = read env "TINY_MCE_API_KEY"

-- The arguments of the `CognitoUserPool`.
pub record UserPool : Type 0 where
  pub user_pool_id : String
  pub client_id : String

abbrev pub user_pool : Env → UserPool
user_pool env = record {
  user_pool_id = read env "COGNITO_USER_POOL_ID";
  client_id = read env "COGNITO_CLIENT_ID";
}

abbrev pub cognito_identity_pool_id : Env → String
cognito_identity_pool_id env = read env "COGNITO_IDENTITY_POOL_ID"

abbrev pub article_resources_s3_bucket : Env → String
article_resources_s3_bucket env = read env "ARTICLE_RESOURCES_S3_BUCKET"
