-- ===== src/React/World/Respects.antt =====
-- Rules by which a handler is seen to respect a relation, one for each way to build a program.
use knowtfolio.Base.{Bool, true, false, List, [], ◌∷◌, if◌then◌else◌}
use knowtfolio.Apis.Request.{Thrown, Outcome, resolved, rejected, Request, Reply}
use knowtfolio.React.Program.{
  Effect, Async, ret, throw, never, update, emit, call, ◌>>=◌, catch, await_promise, Settling,
  resolve, reject, promise, when,
}
use knowtfolio.React.World.Frame.{Only, Later, Later-of_Only}

pub record Respects {S A : Type 0} (R : S → S → Type 0) (m : Async S A) : Type 0 where
  pub only : Only R m

module _ {S : Type 0} (R : S → S → Type 0) where
  Only-bind :
      {A B : Type 0} (m : Async S A) (k : A → Async S B)
      → Only R m
      → ((a : A) → Only R (k a))
      → Only R (m >>= k)
  unfolding ◌>>=◌
  Only-bind (ret a) k h f = f a
  Only-bind (throw e) k h f = tt
  Only-bind never k h f = tt
  Only-bind (update g m) k h f = (h.0, Only-bind m k h.1 f)
  Only-bind (emit e m) k h f = Only-bind m k h f
  Only-bind (call q c) k h f = λ a. Only-bind (c a) k (h a) f

  Only-catch :
      {A : Type 0} (m : Async S A) (k : Thrown → Async S A)
      → Only R m
      → ((e : Thrown) → Only R (k e))
      → Only R (catch m k)
  unfolding catch
  Only-catch (ret a) k h f = tt
  Only-catch (throw e) k h f = f e
  Only-catch never k h f = tt
  Only-catch (update g m) k h f = (h.0, Only-catch m k h.1 f)
  Only-catch (emit e m) k h f = Only-catch m k h f
  Only-catch (call q c) k h f = λ a. Only-catch (c a) k (h a) f

  pub Later-if :
      {A : Type 0} (b : Bool) (m n : Async S A)
      → Later R m
      → Later R n
      → Later R (if b then m else n)
  Later-if true m n h k = h
  Later-if false m n h k = k

  pub Only-if :
      {A : Type 0} (b : Bool) (m n : Async S A) → Only R m → Only R n → Only R (if b then m else n)
  Only-if true m n h k = h
  Only-if false m n h k = k

module _ {S : Type 0} {R : S → S → Type 0} where
  pub Respects-ret : {A : Type 0} (a : A) → Respects R (ret a)
  Respects-ret a = record { only = tt }

  pub Respects-throw : {A : Type 0} (e : Thrown) → Respects {A = A} R (throw e)
  Respects-throw e = record { only = tt }

  pub Respects-never : {A : Type 0} → Respects {A = A} R never
  Respects-never = record { only = tt }

  pub Respects-update :
      {A : Type 0} (f : S → S) (m : Async S A)
      → ((s : S) → R s (f s))
      → Respects R m
      → Respects R (update f m)
  Respects-update f m r h = record { only = (r, h.only) }

  pub Respects-emit :
      {A : Type 0} (e : Effect) (m : Async S A) → Respects R m → Respects R (emit e m)
  Respects-emit e m h = record { only = h.only }

  pub Respects-call :
      {A : Type 0} (q : Request) (k : Reply q → Async S A)
      → ((a : Reply q) → Respects R (k a))
      → Respects R (call q k)
  Respects-call q k h = record { only = λ a. (h a).only }

  pub Respects-bind :
      {A B : Type 0} (m : Async S A) (k : A → Async S B)
      → Respects R m
      → ((a : A) → Respects R (k a))
      → Respects R (m >>= k)
  Respects-bind m k h f = record { only = Only-bind R m k h.only (λ a. (f a).only) }

  pub Respects-catch :
      {A : Type 0} (m : Async S A) (k : Thrown → Async S A)
      → Respects R m
      → ((e : Thrown) → Respects R (k e))
      → Respects R (catch m k)
  Respects-catch m k h f = record { only = Only-catch R m k h.only (λ e. (f e).only) }

  pub Respects-await_promise : {A : Type 0} (o : Outcome A) → Respects R (await_promise o)
  Respects-await_promise (resolved a) = Respects-ret a
  Respects-await_promise (rejected e) = Respects-throw e

  pub Respects-promise : {A : Type 0} (l : List (Settling A)) → Respects R (promise l)
  Respects-promise [] = Respects-never
  Respects-promise (resolve a ∷ l) = Respects-ret a
  Respects-promise (reject e ∷ l) = Respects-throw e

  pub Respects-if :
      {A : Type 0} (b : Bool) (m n : Async S A)
      → Respects R m
      → Respects R n
      → Respects R (if b then m else n)
  Respects-if true m n h k = h
  Respects-if false m n h k = k

  pub Respects-when : (b : Bool) (m : Async S Unit) → Respects R m → Respects R (when b m)
  Respects-when true m h = h
  Respects-when false m h = Respects-ret tt

  pub Respects-Later : {A : Type 0} {m : Async S A} → Respects R m → Later R m
  Respects-Later {m} h = Later-of_Only R m h.only

pub ruleset respects_rules = (
  Respects-ret, Respects-throw, Respects-never, Respects-emit, Respects-call, Respects-bind,
  Respects-catch, Respects-await_promise, Respects-promise, Respects-if, Respects-when,
)
