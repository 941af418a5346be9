-- ===== src/React/Program.antt =====
-- An `async` function as a tree of what it does: it updates the component's state, performs an
-- effect, or awaits a call, whose answer selects how it goes on.
use knowtfolio.Base.{String, Bool, true, false, List, [], ◌∷◌}
use knowtfolio.Apis.Request.{Thrown, Outcome, resolved, rejected, Request, Reply}

-- What a component does to the world outside its state. The flag of `navigate` is the
-- `shouldLoadCurrentUser` of the navigation's state.
pub data Effect : Type 0 where
  navigate : (path : String) (should_load_current_user : Bool) → Effect
  toast_success : (message : String) → Effect
  toast_error : (message : String) → Effect
  alert : (message : String) → Effect
  console_error : Thrown → Effect
  open_window : (url : String) → Effect
  -- `navigate(-1)`.
  navigate_back : Effect
  -- `window.location.reload()`.
  reload : Effect
  -- The function `connectMetamask` of the wallet's context.
  call_connect_metamask : Effect

-- `never` is a promise that is never settled.
pub data Async (S A : Type 0) : Type 0 where
  ret : A → Async S A
  throw : Thrown → Async S A
  never : Async S A
  update : (S → S) → Async S A → Async S A
  emit : Effect → Async S A → Async S A
  call : (q : Request) → (Reply q → Async S A) → Async S A

infixl 5 ◌>>=◌ ◌>>◌
unfoldable pub ◌>>=◌ : {S A B : Type 0} → Async S A → (A → Async S B) → Async S B
ret a >>= f = f a
throw e >>= f = throw e
never >>= f = never
update g m >>= f = update g (m >>= f)
emit e m >>= f = emit e (m >>= f)
call q k >>= f = call q (λ a. k a >>= f)

abbrev pub ◌>>◌ : {S B : Type 0} → Async S (Unit {0}) → Async S B → Async S B
m >> n = m >>= λ _. n

-- `try { m } catch (error) { h(error) }`.
unfoldable pub catch : {S A : Type 0} → Async S A → (Thrown → Async S A) → Async S A
catch (ret a) h = ret a
catch (throw e) h = h e
catch never h = never
catch (update g m) h = update g (catch m h)
catch (emit e m) h = emit e (catch m h)
catch (call q k) h = call q (λ a. catch (k a) h)

-- `await` of a settled promise.
abbrev pub await_promise : {S A : Type 0} → Outcome A → Async S A
await_promise (resolved a) = ret a
await_promise (rejected e) = throw e

abbrev pub set_state : {S : Type 0} → (S → S) → Async S (Unit {0})
set_state f = update f (ret tt)

abbrev pub perform : {S : Type 0} → Effect → Async S (Unit {0})
perform e = emit e (ret tt)

abbrev pub when : {S : Type 0} → Bool → Async S (Unit {0}) → Async S (Unit {0})
when true m = m
when false m = ret tt

-- `await` of a call.
abbrev pub ask : {S : Type 0} (q : Request) → Async S (Reply q)
ask q = call q ret

-- What a promise's executor does, in order: the first settling counts, and without one the promise
-- stays pending.
pub data Settling (A : Type 0) : Type 0 where
  resolve : A → Settling A
  reject : Thrown → Settling A

abbrev pub promise : {S A : Type 0} → List (Settling A) → Async S A
promise [] = never
promise (resolve a ∷ rest) = ret a
promise (reject e ∷ rest) = throw e
