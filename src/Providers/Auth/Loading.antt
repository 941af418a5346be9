-- ===== src/Providers/Auth/Loading.antt =====
-- What loading the current user leaves behind.
use knowtfolio.Base.{
  Bool, String, true, false, none, some, Option, ◌≡◌, ◌≢◌, ◌↔◌, ◌⊎◌, arith, eq_iff,
}
use knowtfolio.Base.Dict.{Dict, lookup}
use knowtfolio.Apis.Request.{
  Session, Callback, Thrown, JsError, exception, resolved, get_session, get_user_attributes,
  get_item,
}
use knowtfolio.Apis.Cognito.{load_session, load_attributes}
use knowtfolio.Apis.Dynamodb.{fetch_wallet_address}
use knowtfolio.React.Program.{catch, ◌>>=◌}
use knowtfolio.React.Run.{Environment, run, fulfilled, failed}
use knowtfolio.Providers.Auth.{
  State, initial, AuthContext, load_user, load_current_user, content, authenticated,
}

-- `err instanceof Error`.
abbrev pub is_exception : Option Thrown → Bool
is_exception (some (exception e)) = true
is_exception _ = false

-- The answers by which the user is signed in with this context.
pub record Answers (env : Environment) (user : String) (auth : AuthContext) : Type 0 where
  pub session_reply : Callback Thrown Session
  pub session_answered : env 0 (get_session user) ≡ some session_reply
  pub no_exception : is_exception session_reply.err ≡ false
  pub session : session_reply.result ≡ some auth.session
  pub attributes_reply : Callback JsError (Dict String)
  pub attributes_answered : env 1 (get_user_attributes user) ≡ some attributes_reply
  pub no_error : attributes_reply.err ≡ none
  pub attributes : Dict String
  pub attributes_result : attributes_reply.result ≡ some attributes
  pub email : lookup "email" attributes ≡ some auth.attributes.email
  pub website : lookup "website" attributes ≡ auth.attributes.website
  pub description : lookup "custom:description" attributes ≡ auth.attributes.description
  pub picture : lookup "picture" attributes ≡ auth.attributes.picture
  pub has_email : auth.attributes.email ≢ ""
  pub wallet :
      env 2 (get_item auth.session.id_token "user_id_to_wallet_address" user)
      ≡ some (resolved auth.user_wallet_address)
  pub same_user : auth.user ≡ user

authenticates_of :
    (env : Environment) (user : String) (auth : AuthContext)
    → Answers env user auth
    → content (run env (load_current_user (some user)) initial).state ≡ authenticated auth
unfolding run load_current_user load_user load_session load_attributes fetch_wallet_address content
    ◌>>=◌ catch
authenticates_of env user auth a = ground (arith, eq_iff auth.attributes.email "")

authenticates_only :
    (env : Environment) (user : String) (auth : AuthContext)
    → content (run env (load_current_user (some user)) initial).state ≡ authenticated auth
    → Answers env user auth
unfolding run load_current_user load_user load_session load_attributes fetch_wallet_address content
    ◌>>=◌ catch
authenticates_only env user auth h = ground (arith, eq_iff auth.attributes.email "")

-- On the page that has just been opened, the user is signed in with a context exactly when Cognito
-- and the table have given that context: a session without an exception, attributes without an
-- error and with an email that is not empty, and an answer of the table.
pub authenticated_iff :
    (env : Environment) (user : String) (auth : AuthContext)
    → (content (run env (load_current_user (some user)) initial).state ≡ authenticated auth)
      ↔ Answers env user auth
authenticated_iff env user auth = (authenticates_only env user auth, authenticates_of env user auth)

-- Loading a user throws nothing; when it ends the session counts as loaded, and whoever is then
-- signed in was so before the load, or is who the answers give. Nobody is signed out by it.
pub load_current_user-keeps :
    (env : Environment) (user : String) (s : State) (auth : AuthContext) (e : Thrown)
    → ((run env (load_current_user (some user)) s).result ≢ failed e)
      × ((run env (load_current_user (some user)) s).result ≡ fulfilled tt
          → (run env (load_current_user (some user)) s).state.has_loaded_session ≡ true)
      × ((run env (load_current_user (some user)) s).state.auth ≡ none → s.auth ≡ none)
      × ((run env (load_current_user (some user)) s).state.auth ≡ some auth
          → (s.auth ≡ some auth) ⊎ Answers env user auth)
unfolding run load_current_user load_user load_session load_attributes fetch_wallet_address ◌>>=◌
    catch
load_current_user-keeps env user s auth e =
    (ground arith, ground arith, ground arith, λ h. ground (arith, eq_iff auth.attributes.email ""))
