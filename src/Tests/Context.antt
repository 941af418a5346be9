-- ===== src/Tests/Context.antt =====
-- The two contexts and the texts that are cut short, at concrete inputs.
use knowtfolio.Base.{
  ℕ, true, none, some, ◌≡◌, ◌≢◌, ◌↔◌, ◌⊎◌, ◌≤◌, ◌<◌, ◌+◌, List, [], ◌∷◌, arith, length,
}
use knowtfolio.React.Run.{run, failed, fulfilled}
use knowtfolio.Providers.Auth
use knowtfolio.Providers.Auth.{load_current_user, content, authenticated}
use knowtfolio.Providers.Auth.Loading.{Answers, authenticated_iff, load_current_user-keeps}
use knowtfolio.Atoms.{truncate}
use knowtfolio.Atoms.Truncation.{length-truncate}
use knowtfolio.Tests.Servers.{granting, refusal}
use knowtfolio.Tests.Articles.{alice}

authenticated_iff_example :
    (content (run granting (load_current_user (some "alice")) Auth.initial).state
      ≡ authenticated alice)
    ↔ Answers granting "alice" alice
authenticated_iff_example = authenticated_iff granting "alice" alice

load_current_user-keeps_example :
    ((run granting (load_current_user (some "alice")) Auth.initial).result ≢ failed refusal)
    × ((run granting (load_current_user (some "alice")) Auth.initial).result ≡ fulfilled tt
        → (run granting (load_current_user (some "alice")) Auth.initial).state.has_loaded_session
          ≡ true)
    × ((run granting (load_current_user (some "alice")) Auth.initial).state.auth ≡ none
        → Auth.initial.auth ≡ none)
    × ((run granting (load_current_user (some "alice")) Auth.initial).state.auth ≡ some alice
        → (Auth.initial.auth ≡ some alice) ⊎ Answers granting "alice" alice)
load_current_user-keeps_example =
    load_current_user-keeps granting "alice" Auth.initial alice refusal

abbrev digits : List ℕ
digits = 48 ∷ 49 ∷ 50 ∷ 51 ∷ 52 ∷ 53 ∷ 54 ∷ 55 ∷ 56 ∷ 57 ∷ 48 ∷ 49 ∷ 50 ∷ []

length-truncate_example :
    (13 ≤ 8 + 4 → truncate digits 8 4 ≡ digits) × (8 + 4 < 13 → length (truncate digits 8 4) ≡ 14)
length-truncate_example = length-truncate digits 8 4 (omega arith) (omega arith)
