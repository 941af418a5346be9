-- ===== src/React/World.antt =====
-- A mounted component: its state, the handlers that wait for an answer, and what it has done. The
-- user raises an event that the page offers, or one of the open calls is answered, in any order.
pub mod Frame
pub mod Respects
pub mod Does
pub mod Rely
pub mod History
pub mod InOrder
use knowtfolio.Base.{String, ◌≡◌, List, [], ◌∷◌, ◌++◌}
use knowtfolio.Apis.Request.{Request, Reply}
use knowtfolio.React.Program.{Effect, Async, ret, throw, never, update, emit, call}
use knowtfolio.React.View.{View, Offers}

pub record World (S : Type 0) : Type 0 where
  pub state : S
  pub tasks : List (Async S (Unit {0}))
  pub effects : List Effect
  pub sent : List Request

module _ {S : Type 0} where
  -- Runs a handler up to its next call. An error that the handler does not catch is dropped.
  unfoldable pub settle : Async S (Unit {0}) → World S → World S
  settle (ret a) w = w
  settle (throw e) w = w
  settle never w = w
  settle (update f m) w = settle m (record w { state = f w.state })
  settle (emit e m) w = settle m (record w { effects = w.effects ++ e ∷ [] })
  settle (call q k) w = record w { tasks = w.tasks ++ call q k ∷ []; sent = w.sent ++ q ∷ [] }

  -- Nothing has happened yet.
  abbrev pub fresh : S → World S
  fresh s = record { state = s; tasks = []; effects = []; sent = [] }

-- A component is its first state, what its effects do when it is mounted, what it renders, and what
-- its events do.
pub record Component (S M E : Type 0) : Type 0 where
  pub initial : S
  pub mount : Async S (Unit {0})
  pub render : S → List (View M E)
  pub handle : E → S → Async S (Unit {0})

module _ {S M E : Type 0} (c : Component S M E) where
  abbrev pub mounted : World S
  mounted = settle c.mount (fresh c.initial)

  pub data Step : World S → World S → Type 0 where
    user :
        (w : World S) (e : E) → Offers (c.render w.state) e → Step w (settle (c.handle e w.state) w)
    answer :
        (w : World S) (before after : List (Async S (Unit {0}))) (q : Request)
        (k : Reply q → Async S (Unit {0})) (a : Reply q)
        → w.tasks ≡ before ++ call q k ∷ after
        → Step w (settle (k a) (record w { tasks = before ++ after }))

  pub data Reach (w : World S) : World S → Type 0 where
    here : Reach w w
    next : {u v : World S} → Reach w u → Step u v → Reach w v
