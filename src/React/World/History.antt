-- ===== src/React/World/History.antt =====
-- A mounted component with the events that the user has raised, and the handlers that only wait for
-- an answer to show it.
use knowtfolio.Base.{◌≡◌, refl, ◌∙◌, List, [], ◌∷◌, ◌++◌, All, All-append, All-left, All-right}
use knowtfolio.Apis.Request.{Request, Reply}
use knowtfolio.React.Program.{Async, ret, throw, never, update, emit, call}
use knowtfolio.React.View.{Offers}
use knowtfolio.React.World.{World, settle, Component}

-- The worlds that are reached when the user has raised the events, the last one first; the calls are
-- answered in any order.
pub data History {S M E : Type 0} (c : Component S M E) (w : World S)
    : List E → World S → Type 0 where
  begun : History c w [] w
  raised :
      {es : List E} {u : World S} (e : E)
      → History c w es u
      → Offers (c.render u.state) e
      → History c w (e ∷ es) (settle (c.handle e u.state) u)
  answered :
      {es : List E} {u : World S} (before after : List (Async S (Unit {0}))) (q : Request)
      (k : Reply q → Async S (Unit {0})) (a : Reply q)
      → History c w es u
      → u.tasks ≡ before ++ call q k ∷ after
      → History c w es (settle (k a) (record u { tasks = before ++ after }))

module _ {S V : Type 0} (view : S → V) where
  -- The program keeps the view of the state and sends nothing.
  abbrev pub Shows : Async S (Unit {0}) → Type 0
  Shows (update f m) = ((s : S) → view (f s) ≡ view s) × Shows m
  Shows (emit e m) = Shows m
  Shows (call q k) = ⊥
  Shows _ = Unit

  -- A handler whose first call is its only one, and which keeps the view after it.
  abbrev pub Waits : Async S (Unit {0}) → Type 0
  Waits (call q k) = (a : Reply q) → Shows (k a)
  Waits _ = Unit

  -- The world after an answer.
  pub record Unmoved (w v : World S) : Type 0 where
    pub same_view : view v.state ≡ view w.state
    pub same_tasks : v.tasks ≡ w.tasks
    pub same_sent : v.sent ≡ w.sent

  settle-Unmoved : (m : Async S Unit) (w : World S) → Shows m → Unmoved w (settle m w)
  unfolding settle
  settle-Unmoved (ret a) w h = record { same_view = refl; same_tasks = refl; same_sent = refl }
  settle-Unmoved (throw e) w h = record { same_view = refl; same_tasks = refl; same_sent = refl }
  settle-Unmoved never w h = record { same_view = refl; same_tasks = refl; same_sent = refl }
  settle-Unmoved (update f m) w h =
      let r = settle-Unmoved m (record w { state = f w.state }) h.1 in
      record {
        same_view = r.same_view ∙ h.0 w.state;
        same_tasks = r.same_tasks;
        same_sent = r.same_sent;
      }
  settle-Unmoved (emit e m) w h =
      let r = settle-Unmoved m (record w { effects = w.effects ++ e ∷ [] }) h in
      record { same_view = r.same_view; same_tasks = r.same_tasks; same_sent = r.same_sent }
  settle-Unmoved (call q k) w h = elim h [ ]

  -- An answer to a handler that waits shows the answer, and the others go on waiting.
  pub answered-Unmoved :
      (u : World S) (before after : List (Async S Unit)) (q : Request) (k : Reply q → Async S Unit)
      (a : Reply q)
      → u.tasks ≡ before ++ call q k ∷ after
      → All Waits u.tasks
      → Unmoved
          (record u { tasks = before ++ after })
          (settle (k a) (record u { tasks = before ++ after }))
        × All Waits (before ++ after)
  answered-Unmoved u before after q k a at h =
      let split : All Waits (before ++ call q k ∷ after) = rw at at h in
      let rest = All-right Waits before (call q k ∷ after) split in
      (
        settle-Unmoved (k a) _ (rest.0 a),
        All-append Waits before after (All-left Waits before (call q k ∷ after) split) rest.1,
      )
