-- ===== src/Tests/Granting.antt =====
-- A load of the user with a Cognito that gives one session, at concrete inputs.
use knowtfolio.Base.{String, none, some, ◌≡◌, [], ◌∷◌, refl, arith}
use knowtfolio.Base.Dict.{lookup}
use knowtfolio.Apis.Request.{Session, resolved}
use knowtfolio.Apis.Cognito.{load_session, load_attributes}
use knowtfolio.Apis.Dynamodb.{fetch_wallet_address}
use knowtfolio.React.Program.{◌>>=◌, catch}
use knowtfolio.React.World.{World, settle, mounted}
use knowtfolio.React.World.Rely.{Trusted, start, reply}
use knowtfolio.Providers.Auth.{
  State, auth_provider, load_current_user, load_user, content, authenticated,
}
use knowtfolio.Providers.Auth.Granted.{GrantsSessions, shown_users_granted}
use knowtfolio.Tests.Servers.{session}
use knowtfolio.Tests.Articles.{alice}

-- Alice has the session, and nobody else has any.
abbrev Owns : String → Session → Type 0
Owns user given = (user ≡ "alice") × (given ≡ session)

alice_loaded :
    (w : World State) × Trusted
      (auth_provider (some "alice"))
      (GrantsSessions Owns)
      (mounted (auth_provider (some "alice")))
      w
    × (content w.state ≡ authenticated alice)
unfolding settle load_current_user load_user load_session load_attributes fetch_wallet_address
    content lookup ◌>>=◌ catch
alice_loaded = (
  _,
  reply [] [] _ _ (resolved none)
      (reply [] [] _ _ (record { err = none; result = some (("email", "a@b.c") ∷ []) })
        (reply [] [] _ _ (record { err = none; result = some session }) start refl
          (λ given e. (refl, ground arith)))
        refl tt)
      refl tt,
  refl,
)

shown_users_granted_example : Owns "alice" session
shown_users_granted_example =
    shown_users_granted Owns (some "alice") alice alice_loaded.1 alice_loaded.2
