-- ===== src/React/Run.antt =====
-- One handler run alone, against any environment. The environment is asked with the number of
-- calls made so far; it may answer a call or leave it unanswered for ever.
pub mod Settles
use knowtfolio.Base.{ℕ, zero, suc, Option, none, some, List, [], ◌∷◌, ◌≡◌, ◌⊎◌}
use knowtfolio.Apis.Request.{Thrown, Request, Reply}
use knowtfolio.React.Program.{Effect, Async, ret, throw, never, update, emit, call}

abbrev pub Environment : Type 0
Environment = (n : ℕ) (q : Request) → Option (Reply q)

pub data Event : Type 0 where
  sent : Request → Event
  did : Effect → Event

pub data Settled (A : Type 0) : Type 0 where
  fulfilled : A → Settled A
  failed : Thrown → Settled A
  pending : Settled A

pub record Run (S A : Type 0) : Type 0 where
  pub state : S
  pub trace : List Event
  pub result : Settled A

module _ {S A : Type 0} where
  abbrev pub after : Event → Run S A → Run S A
  after e r = record r { trace = e ∷ r.trace }

  unfoldable pub run_from : Environment → ℕ → Async S A → S → Run S A
  run_from env n (ret a) s = record { state = s; trace = []; result = fulfilled a }
  run_from env n (throw e) s = record { state = s; trace = []; result = failed e }
  run_from env n never s = record { state = s; trace = []; result = pending }
  run_from env n (update f m) s = run_from env n m (f s)
  run_from env n (emit e m) s = after (did e) (run_from env n m s)
  run_from env n (call q k) s = elim (env n q) [
    | none ↦ record { state = s; trace = sent q ∷ []; result = pending }
    | some a ↦ after (sent q) (run_from env (suc n) (k a) s)
  ]

  unfoldable pub run : Environment → Async S A → S → Run S A
  unfolding run_from
  run env m s = run_from env zero m s

-- The event is in the trace.
abbrev pub Has : Event → List Event → Type 0
Has e [] = ⊥
Has e (x ∷ xs) = (x ≡ e) ⊎ Has e xs
