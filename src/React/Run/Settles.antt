-- ===== src/React/Run/Settles.antt =====
-- Rules by which a handler is seen to end once all its calls are answered.
use knowtfolio.Base.{ℕ, suc, Bool, true, false, some, List, [], ◌∷◌, ◌++◌, if◌then◌else◌, ◌≡◌}
use knowtfolio.Apis.Request.{
  AuthEvent, custom_challenge, Thrown, Outcome, resolved, rejected, Request, Reply,
  authenticate_user,
}
use knowtfolio.React.Program.{
  Effect, Async, ret, throw, never, update, emit, call, ◌>>=◌, catch, await_promise, Settling,
  resolve, reject, promise, when,
}
use knowtfolio.React.Run.{Environment, Settled, pending, run, run_from}

-- A session or a failure.
abbrev pub IsFinal : AuthEvent → Type 0
IsFinal (custom_challenge message) = ⊥
IsFinal _ = Unit

-- The answers that are provided for: `authenticateUser` sets no challenge of its own.
abbrev pub IsProvidedFor : (q : Request) → Reply q → Type 0
IsProvidedFor (authenticate_user username password) event = IsFinal event
IsProvidedFor _ a = Unit

module _ {S A : Type 0} where
  abbrev pub AllSettled : Async S A → Type 0
  AllSettled (ret a) = Unit
  AllSettled (throw e) = Unit
  AllSettled never = ⊥
  AllSettled (update f m) = AllSettled m
  AllSettled (emit e m) = AllSettled m
  AllSettled (call q k) = (a : Reply q) → IsProvidedFor q a → AllSettled (k a)

pub record Settles {S A : Type 0} (m : Async S A) : Type 0 where
  pub all_settled : AllSettled m

module _ {S : Type 0} where
  AllSettled-bind :
      {A B : Type 0} (m : Async S A) (k : A → Async S B)
      → AllSettled m
      → ((a : A) → AllSettled (k a))
      → AllSettled (m >>= k)
  unfolding ◌>>=◌
  AllSettled-bind (ret a) k h f = f a
  AllSettled-bind (throw e) k h f = tt
  AllSettled-bind never k h f = h
  AllSettled-bind (update g m) k h f = AllSettled-bind m k h f
  AllSettled-bind (emit e m) k h f = AllSettled-bind m k h f
  AllSettled-bind (call q c) k h f = λ a p. AllSettled-bind (c a) k (h a p) f

  AllSettled-catch :
      {A : Type 0} (m : Async S A) (k : Thrown → Async S A)
      → AllSettled m
      → ((e : Thrown) → AllSettled (k e))
      → AllSettled (catch m k)
  unfolding catch
  AllSettled-catch (ret a) k h f = tt
  AllSettled-catch (throw e) k h f = f e
  AllSettled-catch never k h f = h
  AllSettled-catch (update g m) k h f = AllSettled-catch m k h f
  AllSettled-catch (emit e m) k h f = AllSettled-catch m k h f
  AllSettled-catch (call q c) k h f = λ a p. AllSettled-catch (c a) k (h a p) f

  pub Settles-ret : {A : Type 0} (a : A) → Settles {S = S} (ret a)
  Settles-ret a = record { all_settled = tt }

  pub Settles-throw : {A : Type 0} (e : Thrown) → Settles {S = S} {A = A} (throw e)
  Settles-throw e = record { all_settled = tt }

  pub Settles-update : {A : Type 0} (f : S → S) (m : Async S A) → Settles m → Settles (update f m)
  Settles-update f m h = record { all_settled = h.all_settled }

  pub Settles-emit : {A : Type 0} (e : Effect) (m : Async S A) → Settles m → Settles (emit e m)
  Settles-emit e m h = record { all_settled = h.all_settled }

  pub Settles-call :
      {A : Type 0} (q : Request) (k : Reply q → Async S A)
      → ((a : Reply q) → Settles (k a))
      → Settles (call q k)
  Settles-call q k h = record { all_settled = λ a p. (h a).all_settled }

  pub Settles-bind :
      {A B : Type 0} (m : Async S A) (k : A → Async S B)
      → Settles m
      → ((a : A) → Settles (k a))
      → Settles (m >>= k)
  Settles-bind m k h f = record {
    all_settled = AllSettled-bind m k h.all_settled (λ a. (f a).all_settled);
  }

  -- An answer that is provided for reaches what follows the call.
  pub Settles-ask :
      {A : Type 0} (q : Request) (k : Reply q → Async S A)
      → ((a : Reply q) → IsProvidedFor q a → Settles (k a))
      → Settles (call q ret >>= k)
  unfolding ◌>>=◌
  Settles-ask q k h = record { all_settled = λ a p. (h a p).all_settled }

  pub Settles-catch :
      {A : Type 0} (m : Async S A) (k : Thrown → Async S A)
      → Settles m
      → ((e : Thrown) → Settles (k e))
      → Settles (catch m k)
  Settles-catch m k h f = record {
    all_settled = AllSettled-catch m k h.all_settled (λ e. (f e).all_settled);
  }

  pub Settles-await_promise : {A : Type 0} (o : Outcome A) → Settles {S = S} (await_promise o)
  Settles-await_promise (resolved a) = Settles-ret a
  Settles-await_promise (rejected e) = Settles-throw e

  pub Settles-promise_cons :
      {A : Type 0} (x : Settling A) (l : List (Settling A)) → Settles {S = S} (promise (x ∷ l))
  Settles-promise_cons (resolve a) l = Settles-ret a
  Settles-promise_cons (reject e) l = Settles-throw e

  pub Settles-promise_append :
      {A : Type 0} (l m : List (Settling A))
      → Settles {S = S} (promise m)
      → Settles {S = S} (promise (l ++ m))
  Settles-promise_append [] m h = h
  Settles-promise_append (x ∷ l) m h = Settles-promise_cons x (l ++ m)

  pub Settles-if :
      {A : Type 0} (b : Bool) (m n : Async S A)
      → Settles m
      → Settles n
      → Settles (if b then m else n)
  Settles-if true m n h k = h
  Settles-if false m n h k = k

  pub Settles-when : (b : Bool) (m : Async S Unit) → Settles m → Settles (when b m)
  Settles-when true m h = h
  Settles-when false m h = Settles-ret tt

pub ruleset settles_rules = (
  Settles-ret, Settles-throw, Settles-update, Settles-emit, Settles-call, Settles-bind,
  Settles-catch, Settles-await_promise, Settles-promise_cons, Settles-promise_append, Settles-if,
  Settles-when,
)

-- Every call is answered, in a way that is provided for.
abbrev pub IsObliging : Environment → Type 0
IsObliging env = (n : ℕ) (q : Request) → (a : Reply q) × (env n q ≡ some a) × IsProvidedFor q a

abbrev pub IsSettled : {A : Type 0} → Settled A → Type 0
IsSettled pending = ⊥
IsSettled _ = Unit

run_from-AllSettled :
    {S A : Type 0} (env : Environment) (n : ℕ) (m : Async S A) (s : S)
    → IsObliging env
    → AllSettled m
    → IsSettled (run_from env n m s).result
unfolding run_from
run_from-AllSettled env n (ret a) s o h = tt
run_from-AllSettled env n (throw e) s o h = tt
run_from-AllSettled env n never s o h = h
run_from-AllSettled env n (update f m) s o h = run_from-AllSettled env n m (f s) o h
run_from-AllSettled env n (emit e m) s o h = run_from-AllSettled env n m s o h
run_from-AllSettled env n (call q k) s o h =
    let answered = o n q in
    rw (answered.1, IsSettled)
      (run_from-AllSettled env (suc n) (k answered.0) s o (h answered.0 answered.2))

pub run-Settles :
    {S A : Type 0} (env : Environment) (m : Async S A) (s : S)
    → IsObliging env
    → Settles m
    → IsSettled (run env m s).result
unfolding run
run-Settles env m s o h = run_from-AllSettled env 0 m s o h.all_settled
