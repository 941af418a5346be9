-- ===== src/React/World/Frame.antt =====
-- What the handlers of a component may change: a relation that every update of a waiting handler
-- respects, and the facts about the state that last.
use knowtfolio.Base.{◌∷◌, ◌++◌, All, All-append, All-left, All-right}
use knowtfolio.Apis.Request.{Reply}
use knowtfolio.React.Program.{Async, ret, throw, never, update, emit, call}
use knowtfolio.React.View.{Offers}
use knowtfolio.React.World.{
  World, settle, fresh, mounted, Component, Step, user, answer, Reach, here, next,
}

module _ {S A : Type 0} (R : S → S → Type 0) where
  -- Every update in the program respects the relation.
  abbrev pub Only : Async S A → Type 0
  Only (ret a) = Unit
  Only (throw e) = Unit
  Only never = Unit
  Only (update f m) = ((s : S) → R s (f s)) × Only m
  Only (emit e m) = Only m
  Only (call q k) = (a : Reply q) → Only (k a)

  -- Every update behind the program's first call respects it.
  abbrev pub Later : Async S A → Type 0
  Later (ret a) = Unit
  Later (throw e) = Unit
  Later never = Unit
  Later (update f m) = Later m
  Later (emit e m) = Later m
  Later (call q k) = (a : Reply q) → Only (k a)

  pub Later-of_Only : (m : Async S A) → Only m → Later m
  Later-of_Only (ret a) h = tt
  Later-of_Only (throw e) h = tt
  Later-of_Only never h = tt
  Later-of_Only (update f m) h = Later-of_Only m h.1
  Later-of_Only (emit e m) h = Later-of_Only m h
  Later-of_Only (call q k) h = h

module _ {S : Type 0} (R : S → S → Type 0) where
  pub settle-All_Only :
      (m : Async S Unit) (w : World S)
      → Later R m
      → All (Only R) w.tasks
      → All (Only R) (settle m w).tasks
  unfolding settle
  settle-All_Only (ret a) w l h = h
  settle-All_Only (throw e) w l h = h
  settle-All_Only never w l h = h
  settle-All_Only (update f m) w l h = settle-All_Only m _ l h
  settle-All_Only (emit e m) w l h = settle-All_Only m _ l h
  settle-All_Only (call q k) w l h = All-append (Only R) w.tasks _ h (l, tt)

  -- A fact that the relation carries along lasts while the handler runs.
  pub settle-keeps :
      (P : S → Type 0) (carry : (s t : S) → R s t → P s → P t) (m : Async S Unit) (w : World S)
      → Only R m
      → P w.state
      → P (settle m w).state
  unfolding settle
  settle-keeps P carry (ret a) w o p = p
  settle-keeps P carry (throw e) w o p = p
  settle-keeps P carry never w o p = p
  settle-keeps P carry (update f m) w o p =
      settle-keeps P carry m _ o.1 (carry w.state (f w.state) (o.0 w.state) p)
  settle-keeps P carry (emit e m) w o p = settle-keeps P carry m _ o p
  settle-keeps P carry (call q k) w o p = p

module _ {S M E : Type 0} (c : Component S M E) (R : S → S → Type 0) (mount : Later R c.mount)
    (later : (e : E) (s : S) → Later R (c.handle e s)) where
  Step-All_Only : {w v : World S} → Step c w v → All (Only R) w.tasks → All (Only R) v.tasks
  Step-All_Only (user w e o) h = settle-All_Only R (c.handle e w.state) w (later e w.state) h
  Step-All_Only (answer w before after q k a at) h =
      let split : All (Only R) (before ++ call q k ∷ after) = rw at at h in
      let rest = All-right (Only R) before (call q k ∷ after) split in
      settle-All_Only R (k a) _ (Later-of_Only R (k a) (rest.0 a)) (
        All-append (Only R) before after (All-left (Only R) before (call q k ∷ after) split) rest.1)

  -- Whatever waits in a component respects the relation, at any time after its mounting.
  pub mounted-All_Only : {w : World S} → Reach c (mounted c) w → All (Only R) w.tasks
  mounted-All_Only here = settle-All_Only R c.mount (fresh c.initial) mount tt
  mounted-All_Only (next r s) = Step-All_Only s (mounted-All_Only r)

  module _ (P : S → Type 0) (carry : (s t : S) → R s t → P s → P t)
      (offered : (e : E) (s : S) → P s → Offers (c.render s) e → Only R (c.handle e s)) where
    Step-keeps : {w v : World S} → Step c w v → All (Only R) w.tasks → P w.state → P v.state
    Step-keeps (user w e o) h p =
        settle-keeps R P carry (c.handle e w.state) w (offered e w.state p o) p
    Step-keeps (answer w before after q k a at) h p =
        let split : All (Only R) (before ++ call q k ∷ after) = rw at at h in
        settle-keeps R P carry (k a) _ ((All-right (Only R) before (call q k ∷ after) split).0 a) p

    Reach-keeps :
        {w v : World S}
        → All (Only R) w.tasks
        → Reach c w v
        → P w.state
        → All (Only R) v.tasks × P v.state
    Reach-keeps h here p = (h, p)
    Reach-keeps h (next r s) p =
        let (h', p') = Reach-keeps h r p in (Step-All_Only s h', Step-keeps s h' p')

    -- A fact that the relation carries along, and under which every event that the page offers
    -- respects the relation, lasts once it holds.
    pub mounted-keeps :
        {w v : World S} → Reach c (mounted c) w → Reach c w v → P w.state → P v.state
    mounted-keeps before after p = (Reach-keeps (mounted-All_Only before) after p).1
