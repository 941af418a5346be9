-- ===== src/Contracts/Script.antt =====
-- A script of Hardhat: what it writes, and how its promise settles. What Hardhat and its plugins
-- answer is a parameter.
use knowtfolio.Base.{ℕ, String, List, [], ◌∷◌, ◌++◌}
use knowtfolio.Apis.Request.{Thrown, Outcome, resolved, rejected}

-- `console.log` with its arguments, and `console.error`.
pub data Output : Type 0 where
  log : List String → Output
  log_error : Thrown → Output

-- A call that the script makes of Hardhat, in the order of the calls.
pub data Call : Type 0 where
  get_contract_factory : (name : String) → Call
  deploy_proxy : (factory initializer : String) → Call
  deployed : (address : String) → Call
  upgrade_proxy : (proxy_address factory : String) → Call
  get_implementation_address : (address : String) → Call
  get_admin_address : (address : String) → Call
  get_signers : Call

-- The answers: a factory is its contract's name, and a contract is its address.
pub record Hardhat : Type 0 where
  pub factory_of : (name : String) → Outcome String
  pub proxy_of : (factory initializer : String) → Outcome String
  pub when_deployed : (address : String) → Outcome (Unit {0})
  pub upgraded : (proxy_address factory : String) → Outcome String
  pub implementation_of : (address : String) → Outcome String
  pub admin_of : (address : String) → Outcome String
  pub signers : Outcome (List String)

pub record Log : Type 0 where
  pub output : List Output
  pub calls : List Call

pub record Ran (A : Type 0) : Type 0 where
  pub written : Log
  pub result : Outcome A

pub data Script (A : Type 0) : Type 0 where
  script : (Log → Ran A) → Script A

abbrev pub run : {A : Type 0} → Script A → Log → Ran A
run (script f) l = f l

abbrev pub continue : {A B : Type 0} → (A → Script B) → Ran A → Ran B
continue f r = elim r.result [
  | resolved a ↦ run (f a) r.written
  | rejected e ↦ record { written = r.written; result = rejected e }
]

infixl 5 ◌>>=◌ ◌>>◌
abbrev pub ◌>>=◌ : {A B : Type 0} → Script A → (A → Script B) → Script B
m >>= f = script (λ l. continue f (run m l))

abbrev pub ◌>>◌ : {B : Type 0} → Script (Unit {0}) → Script B → Script B
m >> n = m >>= λ _. n

abbrev pub done : Script (Unit {0})
done = script (λ l. record { written = l; result = resolved tt })

abbrev pub print : Output → Script (Unit {0})
print o =
    script
      (λ l. record { written = record l { output = l.output ++ o ∷ [] }; result = resolved tt })

-- `await` of a call.
abbrev pub await_call : {A : Type 0} → Call → Outcome A → Script A
await_call c a =
    script (λ l. record { written = record l { calls = l.calls ++ c ∷ [] }; result = a })

-- The process after `main().catch((error) => { console.error(error); process.exitCode = 1; })`.
pub record Exit : Type 0 where
  pub output : List Output
  pub calls : List Call
  pub exit_code : ℕ

abbrev pub exit_of : Ran (Unit {0}) → Exit
exit_of r = elim r.result [
  | resolved a ↦ record { output = r.written.output; calls = r.written.calls; exit_code = 0 }
  | rejected e ↦ record {
    output = r.written.output ++ log_error e ∷ [];
    calls = r.written.calls;
    exit_code = 1;
  }
]

abbrev pub execute : Script (Unit {0}) → Exit
execute m = exit_of (run m (record { output = []; calls = [] }))
