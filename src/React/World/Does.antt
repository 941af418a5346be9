-- ===== src/React/World/Does.antt =====
-- Rules by which every request and every effect of a handler is seen to satisfy a predicate, and
-- what a mounted component then has sent and done.
use knowtfolio.Base.{
  ℕ, suc, Option-cases, inl, inr, Bool, true, false, List, [], ◌∷◌, ◌++◌, if◌then◌else◌, All,
  All-append, All-left, All-right,
}
use knowtfolio.Apis.Request.{Thrown, Outcome, resolved, rejected, Request, Reply}
use knowtfolio.React.Program.{
  Effect, Async, ret, throw, never, update, emit, call, ◌>>=◌, catch, await_promise, Settling,
  resolve, reject, promise, when,
}
use knowtfolio.React.Run.{Environment, Event, sent, did, run, run_from}
use knowtfolio.React.World.{
  World, settle, fresh, mounted, Component, Step, user, answer, Reach, here, next,
}

module _ {S A : Type 0} (P : Event → Type 0) where
  abbrev pub AllDone : Async S A → Type 0
  AllDone (ret a) = Unit
  AllDone (throw e) = Unit
  AllDone never = Unit
  AllDone (update f m) = AllDone m
  AllDone (emit e m) = P (did e) × AllDone m
  AllDone (call q k) = P (sent q) × ((a : Reply q) → AllDone (k a))

pub record Does {S A : Type 0} (P : Event → Type 0) (m : Async S A) : Type 0 where
  pub all_done : AllDone P m

module _ {S : Type 0} (P : Event → Type 0) where
  AllDone-bind :
      {A B : Type 0} (m : Async S A) (k : A → Async S B)
      → AllDone P m
      → ((a : A) → AllDone P (k a))
      → AllDone P (m >>= k)
  unfolding ◌>>=◌
  AllDone-bind (ret a) k h f = f a
  AllDone-bind (throw e) k h f = tt
  AllDone-bind never k h f = tt
  AllDone-bind (update g m) k h f = AllDone-bind m k h f
  AllDone-bind (emit e m) k h f = (h.0, AllDone-bind m k h.1 f)
  AllDone-bind (call q c) k h f = (h.0, λ a. AllDone-bind (c a) k (h.1 a) f)

  AllDone-catch :
      {A : Type 0} (m : Async S A) (k : Thrown → Async S A)
      → AllDone P m
      → ((e : Thrown) → AllDone P (k e))
      → AllDone P (catch m k)
  unfolding catch
  AllDone-catch (ret a) k h f = tt
  AllDone-catch (throw e) k h f = f e
  AllDone-catch never k h f = tt
  AllDone-catch (update g m) k h f = AllDone-catch m k h f
  AllDone-catch (emit e m) k h f = (h.0, AllDone-catch m k h.1 f)
  AllDone-catch (call q c) k h f = (h.0, λ a. AllDone-catch (c a) k (h.1 a) f)

module _ {S : Type 0} {P : Event → Type 0} where
  pub Does-ret : {A : Type 0} (a : A) → Does {S = S} P (ret a)
  Does-ret a = record { all_done = tt }

  pub Does-throw : {A : Type 0} (e : Thrown) → Does {S = S} {A = A} P (throw e)
  Does-throw e = record { all_done = tt }

  pub Does-never : {A : Type 0} → Does {S = S} {A = A} P never
  Does-never = record { all_done = tt }

  pub Does-update : {A : Type 0} (f : S → S) (m : Async S A) → Does P m → Does P (update f m)
  Does-update f m h = record { all_done = h.all_done }

  pub Does-emit :
      {A : Type 0} (e : Effect) (m : Async S A) → P (did e) → Does P m → Does P (emit e m)
  Does-emit e m p h = record { all_done = (p, h.all_done) }

  pub Does-call :
      {A : Type 0} (q : Request) (k : Reply q → Async S A)
      → P (sent q)
      → ((a : Reply q) → Does P (k a))
      → Does P (call q k)
  Does-call q k p h = record { all_done = (p, λ a. (h a).all_done) }

  pub Does-bind :
      {A B : Type 0} (m : Async S A) (k : A → Async S B)
      → Does P m
      → ((a : A) → Does P (k a))
      → Does P (m >>= k)
  Does-bind m k h f = record { all_done = AllDone-bind P m k h.all_done (λ a. (f a).all_done) }

  pub Does-catch :
      {A : Type 0} (m : Async S A) (k : Thrown → Async S A)
      → Does P m
      → ((e : Thrown) → Does P (k e))
      → Does P (catch m k)
  Does-catch m k h f = record { all_done = AllDone-catch P m k h.all_done (λ e. (f e).all_done) }

  pub Does-await_promise : {A : Type 0} (o : Outcome A) → Does {S = S} P (await_promise o)
  Does-await_promise (resolved a) = Does-ret a
  Does-await_promise (rejected e) = Does-throw e

  pub Does-promise : {A : Type 0} (l : List (Settling A)) → Does {S = S} P (promise l)
  Does-promise [] = Does-never
  Does-promise (resolve a ∷ l) = Does-ret a
  Does-promise (reject e ∷ l) = Does-throw e

  pub Does-if :
      {A : Type 0} (b : Bool) (m n : Async S A) → Does P m → Does P n → Does P (if b then m else n)
  Does-if true m n h k = h
  Does-if false m n h k = k

  pub Does-when : (b : Bool) (m : Async S Unit) → Does P m → Does P (when b m)
  Does-when true m h = h
  Does-when false m h = Does-ret tt

pub ruleset does_rules = (
  Does-ret, Does-throw, Does-never, Does-update, Does-emit, Does-call, Does-bind, Does-catch,
  Does-await_promise, Does-promise, Does-if, Does-when,
)

run_from-AllDone :
    {S A : Type 0} (P : Event → Type 0) (env : Environment) (n : ℕ) (m : Async S A) (s : S)
    → AllDone P m
    → All P (run_from env n m s).trace
unfolding run_from
run_from-AllDone P env n (ret a) s h = tt
run_from-AllDone P env n (throw e) s h = tt
run_from-AllDone P env n never s h = tt
run_from-AllDone P env n (update f m) s h = run_from-AllDone P env n m (f s) h
run_from-AllDone P env n (emit e m) s h = (h.0, run_from-AllDone P env n m s h.1)
run_from-AllDone P env n (call q k) s h = elim (Option-cases (env n q)) [
  | inl e ↦ rw (e, All) (h.0, tt)
  | inr (a, e) ↦ rw (e, All) (h.0, run_from-AllDone P env (suc n) (k a) s (h.1 a))
]

-- Where a handler satisfies the predicate, so does all that a run of it sends and does.
pub run-Does :
    {S A : Type 0} (P : Event → Type 0) (env : Environment) (m : Async S A) (s : S)
    → Does P m
    → All P (run env m s).trace
unfolding run
run-Does P env m s h = run_from-AllDone P env 0 m s h.all_done

-- What a component has sent and done, and what its open handlers will send and do.
pub record AllWell {S : Type 0} (P : Event → Type 0) (w : World S) : Type 0 where
  pub requests : All (λ q. P (sent q)) w.sent
  pub effects : All (λ e. P (did e)) w.effects
  pub waiting : All (AllDone P) w.tasks

settle-AllWell :
    {S : Type 0} (P : Event → Type 0) (m : Async S Unit) (w : World S)
    → AllDone P m
    → AllWell P w
    → AllWell P (settle m w)
unfolding settle
settle-AllWell P (ret a) w h k = k
settle-AllWell P (throw e) w h k = k
settle-AllWell P never w h k = k
settle-AllWell P (update f m) w h k =
    settle-AllWell P m _ h
      (record { requests = k.requests; effects = k.effects; waiting = k.waiting })
settle-AllWell P (emit e m) w h k = settle-AllWell P m _ h.1 (record {
  requests = k.requests;
  effects = All-append (λ e. P (did e)) w.effects _ k.effects (h.0, tt);
  waiting = k.waiting;
})
settle-AllWell P (call q c) w h k = record {
  requests = All-append (λ q. P (sent q)) w.sent _ k.requests (h.0, tt);
  effects = k.effects;
  waiting = All-append (AllDone P) w.tasks _ k.waiting (h, tt);
}

module _ {S M E : Type 0} (c : Component S M E) (P : Event → Type 0) (mount : Does P c.mount)
    (handled : (e : E) (s : S) → Does P (c.handle e s)) where
  Step-AllWell : {w v : World S} → Step c w v → AllWell P w → AllWell P v
  Step-AllWell (user w e o) h =
      settle-AllWell P (c.handle e w.state) w (handled e w.state).all_done h
  Step-AllWell (answer w before after q k a at) h =
      let split : All (AllDone P) (before ++ call q k ∷ after) = rw at at h.waiting in
      let rest = All-right (AllDone P) before (call q k ∷ after) split in
      settle-AllWell P (k a) _ (rest.0.1 a) (record {
        requests = h.requests;
        effects = h.effects;
        waiting =
            All-append (AllDone P) before after
              (All-left (AllDone P) before (call q k ∷ after) split) rest.1;
      })

  -- Where the mounting and every handler satisfy the predicate, so does all that a component has sent
  -- and done at any time after its mounting.
  pub mounted-AllWell : {w : World S} → Reach c (mounted c) w → AllWell P w
  mounted-AllWell here =
      settle-AllWell P c.mount (fresh c.initial) mount.all_done
        (record { requests = tt; effects = tt; waiting = tt })
  mounted-AllWell (next r s) = Step-AllWell s (mounted-AllWell r)
