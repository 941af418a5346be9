-- ===== src/React/World/Rely.antt =====
-- A mounted component whose servers answer as they are trusted to, and rules by which its handlers
-- keep an invariant whatever the other handlers do meanwhile.
use knowtfolio.Base.{◌≡◌, List, ◌∷◌, ◌++◌, All, All-append, All-left, All-right, All-mono}
use knowtfolio.Apis.Request.{Thrown, Request, Reply}
use knowtfolio.React.Program.{Async, ret, throw, never, update, emit, call, ◌>>=◌, catch}
use knowtfolio.React.View.{Offers}
use knowtfolio.React.World.{World, settle, fresh, mounted, Component}
use knowtfolio.React.World.Frame.{Only}

-- The worlds that are reached when each answer is a trusted one.
pub data Trusted {S M E : Type 0} (c : Component S M E) (Ok : (q : Request) → Reply q → Type 0)
    (w : World S) : World S → Type 0 where
  start : Trusted c Ok w w
  raise :
      {u : World S} (e : E)
      → Trusted c Ok w u
      → Offers (c.render u.state) e
      → Trusted c Ok w (settle (c.handle e u.state) u)
  reply :
      {u : World S} (before after : List (Async S (Unit {0}))) (q : Request)
      (k : Reply q → Async S (Unit {0})) (a : Reply q)
      → Trusted c Ok w u
      → u.tasks ≡ before ++ call q k ∷ after
      → Ok q a
      → Trusted c Ok w (settle (k a) (record u { tasks = before ++ after }))

-- What a component's handlers rely on, and keep: what becomes of a state that others change
-- meanwhile, and the invariant.
pub record Contract (S : Type 0) : Type 1 where
  pub Ok : (q : Request) → Reply q → Type 0
  pub Becomes : S → S → Type 0
  pub becomes_refl : (s : S) → Becomes s s
  pub becomes_trans : (s t u : S) → Becomes s t → Becomes t u → Becomes s u
  pub Inv : S → Type 0

module _ {S A : Type 0} (r : Contract S) where
  -- The program, waiting since the state `s`, keeps the contract whenever it goes on.
  abbrev pub Fine : S → Async S A → Type 0
  Fine s (ret a) = Unit
  Fine s (throw e) = Unit
  Fine s never = Unit
  Fine s (update f m) =
      ((t : S) → r.Becomes s t → r.Inv t → r.Inv (f t) × r.Becomes t (f t)) × Fine s m
  Fine s (emit e m) = Fine s m
  Fine s (call q k) = (a : Reply q) → r.Ok q a → Fine s (k a)

  -- The program keeps the contract when it is started in the state `s`: its first update is made
  -- there.
  abbrev pub Starts : S → Async S A → Type 0
  Starts s (update f m) = r.Inv (f s) × r.Becomes s (f s) × Fine (f s) m
  Starts s m = Fine s m

  Fine-Becomes : (s t : S) (m : Async S A) → r.Becomes s t → Fine s m → Fine t m
  Fine-Becomes s t (ret a) b h = tt
  Fine-Becomes s t (throw e) b h = tt
  Fine-Becomes s t never b h = tt
  Fine-Becomes s t (update f m) b h =
      (λ u b' i. h.0 u (r.becomes_trans s t u b b') i, Fine-Becomes s t m b h.1)
  Fine-Becomes s t (emit e m) b h = Fine-Becomes s t m b h
  Fine-Becomes s t (call q k) b h = λ a ok. Fine-Becomes s t (k a) b (h a ok)

  pub Starts-of_Fine : (s : S) (m : Async S A) → r.Inv s → Fine s m → Starts s m
  Starts-of_Fine s (ret a) i h = h
  Starts-of_Fine s (throw e) i h = h
  Starts-of_Fine s never i h = h
  Starts-of_Fine s (update f m) i h =
      let (i', b) = h.0 s (r.becomes_refl s) i in (i', b, Fine-Becomes s (f s) m b h.1)
  Starts-of_Fine s (emit e m) i h = h
  Starts-of_Fine s (call q k) i h = h

module _ {S : Type 0} (r : Contract S) (R : S → S → Type 0)
    (becomes : (s t : S) → R s t → r.Becomes s t)
    (carry : (s t : S) → R s t → r.Inv s → r.Inv t) where
  -- Updates that respect a relation that the contract allows keep the contract.
  pub Fine-of_Only : {A : Type 0} (s : S) (m : Async S A) → Only R m → Fine r s m
  Fine-of_Only s (ret a) h = tt
  Fine-of_Only s (throw e) h = tt
  Fine-of_Only s never h = tt
  Fine-of_Only s (update f m) h =
      (λ t b i. (carry t (f t) (h.0 t) i, becomes t (f t) (h.0 t)), Fine-of_Only s m h.1)
  Fine-of_Only s (emit e m) h = Fine-of_Only s m h
  Fine-of_Only s (call q k) h = λ a ok. Fine-of_Only s (k a) (h a)

module _ {S A : Type 0} (r : Contract S) (Q : A → Type 0) where
  -- The program keeps the contract and ends with a value of which the predicate holds.
  abbrev pub Gives : S → Async S A → Type 0
  Gives s (ret a) = Q a
  Gives s (throw e) = Unit
  Gives s never = Unit
  Gives s (update f m) =
      ((t : S) → r.Becomes s t → r.Inv t → r.Inv (f t) × r.Becomes t (f t)) × Gives s m
  Gives s (emit e m) = Gives s m
  Gives s (call q k) = (a : Reply q) → r.Ok q a → Gives s (k a)

  pub Fine-bind :
      {B : Type 0} (s : S) (m : Async S A) (k : A → Async S B)
      → Gives s m
      → ((a : A) → Q a → Fine r s (k a))
      → Fine r s (m >>= k)
  unfolding ◌>>=◌
  Fine-bind s (ret a) k h f = f a h
  Fine-bind s (throw e) k h f = tt
  Fine-bind s never k h f = tt
  Fine-bind s (update g m) k h f = (h.0, Fine-bind s m k h.1 f)
  Fine-bind s (emit e m) k h f = Fine-bind s m k h f
  Fine-bind s (call q c) k h f = λ a ok. Fine-bind s (c a) k (h a ok) f

module _ {S A : Type 0} (r : Contract S) where
  Gives-of_Fine : (s : S) (m : Async S A) → Fine r s m → Gives r (λ _. Unit) s m
  Gives-of_Fine s (ret a) h = tt
  Gives-of_Fine s (throw e) h = tt
  Gives-of_Fine s never h = tt
  Gives-of_Fine s (update g m) h = (h.0, Gives-of_Fine s m h.1)
  Gives-of_Fine s (emit e m) h = Gives-of_Fine s m h
  Gives-of_Fine s (call q k) h = λ a ok. Gives-of_Fine s (k a) (h a ok)

  pub Fine-then :
      {B : Type 0} (s : S) (m : Async S A) (k : A → Async S B)
      → Fine r s m
      → ((a : A) → Fine r s (k a))
      → Fine r s (m >>= k)
  Fine-then s m k h f = Fine-bind r (λ _. Unit) s m k (Gives-of_Fine s m h) (λ a _. f a)

  pub Fine-catch :
      (s : S) (m : Async S A) (k : Thrown → Async S A)
      → Fine r s m
      → ((e : Thrown) → Fine r s (k e))
      → Fine r s (catch m k)
  unfolding catch
  Fine-catch s (ret a) k h f = tt
  Fine-catch s (throw e) k h f = f e
  Fine-catch s never k h f = tt
  Fine-catch s (update g m) k h f = (h.0, Fine-catch s m k h.1 f)
  Fine-catch s (emit e m) k h f = Fine-catch s m k h f
  Fine-catch s (call q c) k h f = λ a ok. Fine-catch s (c a) k (h a ok) f

-- The state satisfies the invariant, and whatever waits keeps the contract.
pub record Keeps {S : Type 0} (r : Contract S) (w : World S) : Type 0 where
  pub invariant : r.Inv w.state
  pub waiting : All (Fine r w.state) w.tasks

module _ {S : Type 0} (r : Contract S) where
  settle-Keeps :
      (m : Async S Unit) (w : World S) → Fine r w.state m → Keeps r w → Keeps r (settle m w)
  unfolding settle
  settle-Keeps (ret a) w f h = h
  settle-Keeps (throw e) w f h = h
  settle-Keeps never w f h = h
  settle-Keeps (update g m) w f h =
      let (i, b) = f.0 w.state (r.becomes_refl w.state) h.invariant in
      settle-Keeps m _ (Fine-Becomes r w.state (g w.state) m b f.1) (record {
        invariant = i;
        waiting = All-mono (λ n. Fine-Becomes r w.state (g w.state) n b) w.tasks h.waiting;
      })
  settle-Keeps (emit e m) w f h =
      settle-Keeps m _ f (record { invariant = h.invariant; waiting = h.waiting })
  settle-Keeps (call q k) w f h = record {
    invariant = h.invariant;
    waiting = All-append (Fine r w.state) w.tasks _ h.waiting (f, tt);
  }

  settle-Keeps_of_Starts :
      (m : Async S Unit) (w : World S) → Starts r w.state m → Keeps r w → Keeps r (settle m w)
  unfolding settle
  settle-Keeps_of_Starts (ret a) w f h = h
  settle-Keeps_of_Starts (throw e) w f h = h
  settle-Keeps_of_Starts never w f h = h
  settle-Keeps_of_Starts (update g m) w f h = settle-Keeps m _ f.2 (record {
    invariant = f.0;
    waiting = All-mono (λ n. Fine-Becomes r w.state (g w.state) n f.1) w.tasks h.waiting;
  })
  settle-Keeps_of_Starts (emit e m) w f h = settle-Keeps (emit e m) w f h
  settle-Keeps_of_Starts (call q k) w f h = settle-Keeps (call q k) w f h

module _ {S M E : Type 0} (c : Component S M E) (r : Contract S) (first : r.Inv c.initial)
    (mount : Fine r c.initial c.mount)
    (handled : (e : E) (s : S) → r.Inv s → Offers (c.render s) e → Starts r s (c.handle e s)) where
  Trusted-Keeps : {w : World S} → Trusted c r.Ok (mounted c) w → Keeps r w
  Trusted-Keeps start =
      settle-Keeps r c.mount (fresh c.initial) mount (record { invariant = first; waiting = tt })
  Trusted-Keeps (raise {u} e path o) =
      let h = Trusted-Keeps path in
      settle-Keeps_of_Starts r (c.handle e u.state) u (handled e u.state h.invariant o) h
  Trusted-Keeps (reply {u} before after q k a path at ok) =
      let h = Trusted-Keeps path in
      let split : All (Fine r u.state) (before ++ call q k ∷ after) = rw at at h.waiting in
      let rest = All-right (Fine r u.state) before (call q k ∷ after) split in
      settle-Keeps r (k a) _ (rest.0 a ok) (record {
        invariant = h.invariant;
        waiting =
            All-append (Fine r u.state) before after
              (All-left (Fine r u.state) before (call q k ∷ after) split) rest.1;
      })

  -- Where the mounting and every handler that the page offers keep the contract, the invariant holds
  -- at any time after the mounting, as long as the answers are trusted ones.
  pub Trusted-Inv : {w : World S} → Trusted c r.Ok (mounted c) w → r.Inv w.state
  Trusted-Inv path = (Trusted-Keeps path).invariant
