-- ===== src/Apis/S3.antt =====
-- client/src/apis/s3.ts with configs/s3.ts, and the client of apis/dynamodb.ts: the clients of the
-- stores, and the identity that each one has.
use knowtfolio.Base.{String, [], ◌∷◌, concat}
use knowtfolio.Base.Dict.{Dict}
use knowtfolio.Apis.Configs.{Env, user_pool, cognito_identity_pool_id, article_resources_s3_bucket}
use knowtfolio.Apis.Request.{Session}

-- The arguments of `fromCognitoIdentityPool`.
pub record Credentials : Type 0 where
  pub identity_pool_id : String
  pub logins : Dict String
  pub region : String

abbrev pub credentials_of : Env → String → Credentials
credentials_of env token = record {
  identity_pool_id = cognito_identity_pool_id env;
  logins =
      (
        concat ("cognito-idp.ap-northeast-1.amazonaws.com/" ∷ (user_pool env).user_pool_id ∷ []),
        token,
      )
      ∷ [];
  region = "ap-northeast-1";
}

-- A client of the store of images or of the table.
pub record Client : Type 0 where
  pub region : String
  pub credentials : Credentials

abbrev pub get_s3_client : Credentials → Client
get_s3_client credentials = record { region = "ap-northeast-1"; credentials = credentials }

unfoldable pub get_s3_client_with_cognito_jwt_token : Env → String → Client
get_s3_client_with_cognito_jwt_token env jwt_token = get_s3_client (credentials_of env jwt_token)

-- The memo of `useS3Client`, which is remade for each session.
unfoldable pub use_s3_client : Env → Session → Client
use_s3_client env session = get_s3_client (credentials_of env session.id_token)

unfoldable pub init_dynamodb_client : Env → String → Client
init_dynamodb_client env id_token = record {
  region = "ap-northeast-1";
  credentials = credentials_of env id_token;
}

pub record PutObjectCommand : Type 0 where
  pub bucket : String
  pub key : String
  pub body : String

unfoldable pub create_put_image_object_command : Env → String → String → PutObjectCommand
create_put_image_object_command env key blob = record {
  bucket = article_resources_s3_bucket env;
  key = key;
  body = blob;
}
