-- ===== src/Forms/SignIn/Challenges.antt =====
-- The sign-in by wallet against any number of challenges in a row.
use knowtfolio.Base.{
  ℕ, zero, suc, String, Option, true, some, List, [], ◌∷◌, ◌++◌, ◌≡◌, refl, ap, arith, ◌≤◌, length,
}
use knowtfolio.Apis.Request.{
  Session, AuthEvent, Thrown, on_success, custom_challenge, initiate_auth, personal_sign,
  send_challenge_answer, resolved,
}
use knowtfolio.Apis.Cognito.{sign_in_to_cognito_with_wallet, answer_challenges}
use knowtfolio.Providers.Web3.{Web3Context, assert_metamask}
use knowtfolio.React.Program.{Async, navigate, toast_success, ◌>>=◌, catch}
use knowtfolio.React.Run.{Environment, Event, Run, after, sent, did, run, run_from, fulfilled}
use knowtfolio.Forms.SignIn.{State, sign_in_with_wallet}
use knowtfolio.Forms.SignIn.Handlers.{home}

module _ (env : Environment) (username : String) (account : Option String) where
  -- From the event, which came when that many calls were made, the challenges of the list follow one
  -- another, each with the wallet's signature for it, and then the session.
  abbrev pub Leads : ℕ → AuthEvent → List (String × String) → Session → Type 0
  Leads n event [] session = event ≡ on_success session
  Leads n event ((message, signature) ∷ rest) session =
      (event ≡ custom_challenge message)
      × (env n (personal_sign message account) ≡ some (resolved signature))
      × (reply : AuthEvent) × (env (suc n) (send_challenge_answer username signature) ≡ some reply)
      × Leads (suc (suc n)) reply rest session

  -- The requests that the challenges cost.
  abbrev pub exchange : List (String × String) → List Event
  exchange [] = []
  exchange ((message, signature) ∷ rest) =
      sent (personal_sign message account)
      ∷ sent (send_challenge_answer username signature)
      ∷ exchange rest

  -- The handler goes on with the session's token after the exchange.
  challenges_answered :
      {S B : Type 0} (goes_on : String → Async S B) (failed : Thrown → Async S B) (s : S)
      (last : Run S B) (session : Session)
      → ((n : ℕ) → run_from env n (catch (goes_on session.access_token) failed) s ≡ last)
      → (rounds n : ℕ) (event : AuthEvent) (l : List (String × String)) → length l ≤ rounds
      → Leads n event l session
      → run_from env n
          (catch (answer_challenges rounds username account event >>= goes_on) failed)
          s
        ≡ record last { trace = exchange l ++ last.trace }
  unfolding run_from answer_challenges catch ◌>>=◌
  challenges_answered goes_on failed s last session ends rounds n event [] h k = rw k (ends n)
  challenges_answered goes_on failed s last session ends zero n event ((message, signature) ∷ l) h
        k =
      ground (arith, h)
  challenges_answered goes_on failed s last session ends (suc rounds) n event
        ((message, signature) ∷ l) h (challenged, signed, reply, taken, leads) =
      rw (challenged, signed, taken)
        (ap
          (λ r.
            after (sent (personal_sign message account))
              (after (sent (send_challenge_answer username signature)) r))
          (challenges_answered goes_on failed s last session ends rounds (suc (suc n)) reply l
            (omega (arith, h)) leads))

-- With a connected wallet, for any number of challenges in a row up to the rounds that the model
-- allows: if the wallet signs each and a session follows the last, the sign-in ends with its state
-- kept; it has asked for each signature and sent each answer, in this order, left for the user's
-- page and shown the success.
pub wallet_sign_in_ends :
    (env : Environment) (rounds : ℕ) (context : Web3Context) (s : State) (event : AuthEvent)
    (challenges : List (String × String)) (session : Session)
    → context.is_connected_to_metamask ≡ true
    → env 0 (initiate_auth s.username) ≡ some event
    → Leads env s.username context.account 1 event challenges session
    → length challenges ≤ rounds
    → run env (sign_in_with_wallet rounds context s) s ≡ record {
      state = s;
      trace =
          sent (initiate_auth s.username)
          ∷ (exchange env s.username context.account challenges
              ++ did (navigate (home s) true) ∷ did (toast_success "サインインしました。") ∷ []);
      result = fulfilled tt;
    }
unfolding run sign_in_with_wallet assert_metamask sign_in_to_cognito_with_wallet ◌>>=◌ catch
wallet_sign_in_ends env rounds context s event challenges session connected initiated leads enough =
    rw (connected, initiated)
      (ap (λ r. after (sent (initiate_auth s.username)) r)
        (challenges_answered env s.username context.account _ _ s _ session (λ n. refl) rounds 1
          event challenges enough leads))
