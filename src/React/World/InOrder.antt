-- ===== src/React/World/InOrder.antt =====
-- A mounted component whose open calls are answered in the order in which they were made, each with a
-- trusted answer.
use knowtfolio.Base.{◌≡◌, List, ◌∷◌}
use knowtfolio.Apis.Request.{Request, Reply}
use knowtfolio.React.Program.{Async, call}
use knowtfolio.React.View.{Offers}
use knowtfolio.React.World.{World, settle, Component}

-- The handler waits for a call, and this is how it goes on after a trusted answer.
abbrev pub Resumes :
    {S : Type 0}
    → ((q : Request) → Reply q → Type 0)
    → Async S (Unit {0})
    → Async S (Unit {0})
    → Type 0
Resumes Ok (call q k) m = (a : Reply q) × Ok q a × (m ≡ k a)
Resumes Ok _ m = ⊥

pub data InOrder {S M E : Type 0} (c : Component S M E) (Ok : (q : Request) → Reply q → Type 0)
    (w : World S) : World S → Type 0 where
  begin : InOrder c Ok w w
  raise :
      {u : World S} (e : E)
      → InOrder c Ok w u
      → Offers (c.render u.state) e
      → InOrder c Ok w (settle (c.handle e u.state) u)
  proceed :
      {u : World S} (first : Async S (Unit {0})) (rest : List (Async S (Unit {0})))
      (m : Async S (Unit {0}))
      → InOrder c Ok w u
      → u.tasks ≡ first ∷ rest
      → Resumes Ok first m
      → InOrder c Ok w (settle m (record u { tasks = rest }))
