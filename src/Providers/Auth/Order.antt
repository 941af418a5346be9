-- ===== src/Providers/Auth/Order.antt =====
-- Loads of the user that overlap.
use knowtfolio.Base.{String, List, true, none, some, Option, ◌≡◌, [], ◌∷◌, inl, inr, refl, truthy}
use knowtfolio.Base.Dict.{lookup}
use knowtfolio.Apis.Request.{Session, resolved, Request}
use knowtfolio.Apis.Cognito.{load_session, load_attributes}
use knowtfolio.Apis.Dynamodb.{fetch_wallet_address}
use knowtfolio.React.Program.{Effect, ◌>>=◌, catch}
use knowtfolio.React.World.{World, settle}
use knowtfolio.React.World.History.{History, begun, raised, answered}
use knowtfolio.Providers.Auth.{
  State, load_asked, storage_changed, auth_provider, handle, location_effect, load_current_user,
  load_user, content, authenticated, on_unauthenticated,
}

abbrev pub idle : State → List Effect → List Request → World State
idle s effects sent = record { state = s; tasks = []; effects = effects; sent = sent }

-- From any state of the provider with no call open, for a user of any name with an email that is
-- not empty: where the name is stored and then a load without a name is asked for, and nothing
-- else, the page can show that nobody is signed in, and then, by answers alone, the user again,
-- with no call left open.
pub late_load :
    (mounted_with : Option String) (s : State) (effects : List Effect) (sent : List Request)
    (name : String) (session : Session) (email : String) (wallet : Option String)
    → truthy email ≡ true
    → (w v : World State) × History
        (auth_provider mounted_with)
        (idle s effects sent)
        (load_asked none ∷ storage_changed (some name) ∷ [])
        w
      × (content w.state ≡ on_unauthenticated)
      × History (auth_provider mounted_with) w [] v
      × (content v.state
          ≡ authenticated (record {
            user = name;
            session = session;
            attributes = record {
              email = email;
              website = none;
              description = none;
              picture = none;
            };
            user_wallet_address = wallet;
          }))
      × (v.tasks ≡ [])
unfolding handle settle location_effect load_current_user load_user load_session load_attributes
    fetch_wallet_address content lookup ◌>>=◌ catch
late_load mounted_with s effects sent name session email wallet h = (
  _,
  _,
  raised (load_asked none) (raised (storage_changed (some name)) begun (inl (some name, refl)))
      (inr (inl (none, refl))),
  refl,
  answered [] [] _ _ (resolved wallet)
      (answered [] [] _ _ (record { err = none; result = some (("email", email) ∷ []) })
        (answered [] [] _ _ (record { err = none; result = some session }) begun refl) refl)
      refl,
  rw h refl,
  rw h refl,
)
