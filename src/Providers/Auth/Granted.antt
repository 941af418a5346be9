-- ===== src/Providers/Auth/Granted.antt =====
-- The provider against a Cognito that gives sessions to their users alone.
use knowtfolio.Base.{
  String, Option, none, some, [], ◌∷◌, ◌++◌, ◌≡◌, refl, arith, truthy, Bool-cases, inl, inr,
}
use mathlib.Core.Path.{subst}
use knowtfolio.Base.Dict.{lookup}
use knowtfolio.Apis.Request.{Request, Reply, Thrown, exception, value, Session, get_session}
use knowtfolio.Apis.Cognito.{reject_exception, load_session, load_attributes}
use knowtfolio.Apis.Dynamodb.{fetch_wallet_address}
use knowtfolio.Apis.Stateless.{stateless}
use knowtfolio.React.Program.{Async, Effect, perform, ◌>>◌, ◌>>=◌, promise, resolve}
use knowtfolio.React.World.{World, mounted}
use knowtfolio.React.World.Respects.{Respects}
use knowtfolio.React.World.Rely.{
  Trusted, Contract, Fine, Gives, Starts, Starts-of_Fine, Trusted-Inv, Fine-of_Only, Fine-bind,
  Fine-catch, Fine-then,
}
use knowtfolio.Providers.Auth.{
  State, Event, storage_changed, load_asked, AuthContext, initial, require_session, require_email,
  load_user, load_current_user, location_effect, handle, content, authenticated, auth_provider,
}

module _ (Granted : String → Session → Type 0) where
  -- A session that Cognito answers for a user is one that it has given to the user.
  abbrev pub GrantsSessions : (q : Request) → Reply q → Type 0
  GrantsSessions (get_session user) callback =
      (session : Session) → callback.result ≡ some session → Granted user session
  GrantsSessions _ a = Unit

  abbrev IsGranted : State → Type 0
  IsGranted s = (auth : AuthContext) → s.auth ≡ some auth → Granted auth.user auth.session

  -- Nothing is relied on between two steps but the invariant.
  abbrev contract : Contract State
  contract = record {
    Ok = GrantsSessions;
    Becomes = λ s t. Unit;
    becomes_refl = λ s. tt;
    becomes_trans = λ s t u b c. tt;
    Inv = IsGranted;
  }

  Fine-stateless : {A : Type 0} (s : State) (m : Async State A) → Respects ◌≡◌ m → Fine contract s m
  Fine-stateless s m h =
      Fine-of_Only contract ◌≡◌ (λ t u e. tt) (λ t u e i. subst IsGranted e i) s m h.only

  -- A session that is there was given to the user.
  abbrev Given : String → Option Session → Type 0
  Given user loaded = (session : Session) → loaded ≡ some session → Granted user session

  settled-Gives :
      (s : State) (user : String) (err : Option Thrown) (result : Option Session)
      → Given user result
      → Gives contract (Given user) s (promise (reject_exception err ++ resolve result ∷ []))
  settled-Gives s user none result g = g
  settled-Gives s user (some (exception e)) result g = tt
  settled-Gives s user (some (value v)) result g = g

  load_session-Gives :
      (s : State) (user : String) → Gives contract (Given user) s (load_session user)
  unfolding load_session ◌>>=◌
  load_session-Gives s user callback ok = settled-Gives s user callback.err callback.result ok

  require_session-Gives :
      (s : State) (user : String) (loaded : Option Session)
      → Given user loaded
      → Gives contract (Granted user) s (require_session loaded)
  require_session-Gives s user none g = tt
  require_session-Gives s user (some session) g = g session refl

  require_email-Fine : (s : State) (email : Option String) → Fine contract s (require_email email)
  require_email-Fine s none = tt
  require_email-Fine s (some email) = elim (Bool-cases (truthy email)) [
    | inl e ↦ rw e tt
    | inr e ↦ rw e tt
  ]

  load_attributes-Fine : (s : State) (user : String) → Fine contract s (load_attributes user)
  load_attributes-Fine s user = Fine-stateless s (load_attributes user) (search stateless)

  fetch_wallet_address-Fine :
      (s : State) (client user : String) → Fine contract s (fetch_wallet_address client user)
  fetch_wallet_address-Fine s client user =
      Fine-stateless s (fetch_wallet_address client user) (search stateless)

  -- The context in the state was granted.
  abbrev Shown : Option AuthContext → Type 0
  Shown none = Unit
  Shown (some auth) = Granted auth.user auth.session

  load_user-Fine : (s : State) (user : String) → Fine contract s (load_user user)
  unfolding load_user
  load_user-Fine s user =
      Fine-bind contract (Given user) s (load_session user) _ (load_session-Gives s user)
        (λ loaded given.
          Fine-then contract s (load_attributes user) _ (load_attributes-Fine s user) (λ attributes.
            Fine-bind contract (Granted user) s (require_session loaded) _
              (require_session-Gives s user loaded given)
              (λ session granted.
                Fine-then contract s (fetch_wallet_address session.id_token user) _
                  (fetch_wallet_address-Fine s session.id_token user)
                  (λ wallet.
                    Fine-then contract s (require_email (lookup "email" attributes)) _
                      (require_email-Fine s (lookup "email" attributes))
                      (λ email. (λ t b i. (λ auth e. subst Shown e granted, tt), tt))))))

  nobody-Fine : (s : State) → Fine contract s (load_current_user none)
  unfolding load_current_user ◌>>=◌
  nobody-Fine s = ((λ t b i. (λ auth e. cc, tt)), ((λ t b i. (i, tt)), tt))

  performs-Fine : (s : State) (e f : Effect) → Fine contract s (perform e >> perform f)
  unfolding ◌>>=◌
  performs-Fine s e f = tt

  load_current_user-Fine :
      (s : State) (current : Option String) → Fine contract s (load_current_user current)
  unfolding load_current_user
  load_current_user-Fine s none = nobody-Fine s
  load_current_user-Fine s (some user) =
      Fine-then contract s _ _
        (Fine-catch contract s (load_user user) _ (load_user-Fine s user)
          (λ error. performs-Fine s _ _))
        (λ _. ((λ t b i. (i, tt)), tt))

  handle-Starts : (e : Event) (s : State) → IsGranted s → Starts contract s (handle e s)
  unfolding handle location_effect
  handle-Starts (storage_changed current) s i =
      Starts-of_Fine contract s (load_current_user current) i (load_current_user-Fine s current)
  handle-Starts (load_asked current) s i =
      Starts-of_Fine contract s (load_current_user current) i (load_current_user-Fine s current)

  content_authenticated :
      (s : State) (auth : AuthContext) → content s ≡ authenticated auth → s.auth ≡ some auth
  unfolding content
  content_authenticated s auth h = ground arith

  -- As long as every session that Cognito answers for a user is granted to that user, by any notion
  -- of it: whoever the provider shows as signed in, after any events and in any order of the
  -- answers, is shown with a session that is granted to the user.
  pub shown_users_granted :
      (current : Option String) {w : World State} (auth : AuthContext)
      → Trusted (auth_provider current) GrantsSessions (mounted (auth_provider current)) w
      → content w.state ≡ authenticated auth
      → Granted auth.user auth.session
  shown_users_granted current {w} auth path shown =
      Trusted-Inv (auth_provider current) contract (λ a e. cc)
        (load_current_user-Fine initial current) (λ e s i o. handle-Starts e s i) path auth
        (content_authenticated w.state auth shown)
