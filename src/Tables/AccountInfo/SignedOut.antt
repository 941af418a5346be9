-- ===== src/Tables/AccountInfo/SignedOut.antt =====
-- The sign-out, up to the context that it leaves.
use knowtfolio.Base.{String, true, none, some, ◌≡◌, ◌↔◌, arith}
use knowtfolio.Apis.Request
use knowtfolio.Apis.Cognito.{sign_out_from_cognito}
use knowtfolio.React.Program.{navigate, ◌>>=◌, catch}
use knowtfolio.React.Run.{Environment, run, Has, did}
use knowtfolio.Providers.Auth
use knowtfolio.Providers.Auth.{location_effect, load_current_user, content, on_unauthenticated}
use knowtfolio.Tables.AccountInfo.{sign_out}

-- The table leaves for the sign-in page exactly when Cognito has signed the user out; the
-- navigation then has the current user loaded, and without one nobody is signed in, whoever was so
-- before.
sign_out_iff :
    (env : Environment) (user : String) (s : Auth.State)
    → (Has (did (navigate "/signin" true)) (run env (sign_out user) tt).trace
        ↔ (env 0 (Request.sign_out user) ≡ some tt))
      × (content (run env (location_effect (some true) none) s).state ≡ on_unauthenticated)
unfolding run sign_out sign_out_from_cognito location_effect load_current_user content ◌>>=◌ catch
sign_out_iff env user s = ground arith
