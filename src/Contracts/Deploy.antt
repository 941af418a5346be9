-- ===== src/Contracts/Deploy.antt =====
-- blockchain/scripts: the contract is deployed behind a proxy, and the proxy is upgraded.
pub mod Upgrading
use knowtfolio.Base.{
  String, Bool, true, false, Option, none, some, List, [], ◌∷◌, truthy, truthy?, if◌then◌else◌,
}
use knowtfolio.Apis.Request.{Thrown, Outcome, resolved, rejected}
use knowtfolio.Contracts.Script.{
  Output, log, Call, get_contract_factory, deploy_proxy, deployed, upgrade_proxy,
  get_implementation_address, get_admin_address, Hardhat, Script, ◌>>=◌, ◌>>◌, done, print,
  await_call,
}

-- `main` of deploy.ts.
unfoldable pub deploy : Hardhat → Script (Unit {0})
deploy hardhat = do
  factory ← await_call (get_contract_factory "Knowtfolio") (hardhat.factory_of "Knowtfolio")
  address ← await_call (deploy_proxy factory "initialize") (hardhat.proxy_of factory "initialize")
  await_call (deployed address) (hardhat.when_deployed address)
  print (log ("Greeter deployed to:" ∷ address ∷ []))

-- `assert` of Node's console, with the value that it tests alone: it writes something when the value
-- is falsy, and it never throws.
abbrev pub assert : String → Script (Unit {0})
assert value = if truthy value then done else print (log ("Assertion failed" ∷ []))

-- The branch with an address.
unfoldable pub upgrade_at : Hardhat → String → Script (Unit {0})
upgrade_at hardhat proxy_address = do
  print (log ("Upgrade contract of" ∷ proxy_address ∷ []))
  factory ← await_call (get_contract_factory "KnowtfolioV2") (hardhat.factory_of "KnowtfolioV2")
  address ←
      await_call (upgrade_proxy proxy_address factory) (hardhat.upgraded proxy_address factory)
  print (log (address ∷ " Knowtfolio(proxy) address" ∷ []))
  implementation ←
      await_call (get_implementation_address address) (hardhat.implementation_of address)
  print (log (implementation ∷ " getImplementationAddress" ∷ []))
  admin ← await_call (get_admin_address address) (hardhat.admin_of address)
  print (log (admin ∷ " getAdminAddress" ∷ []))

-- `main` of deploy_v2.ts; the address comes from the environment.
unfoldable pub upgrade : Hardhat → Option String → Script (Unit {0})
unfolding upgrade_at
upgrade hardhat none = assert "Could not read CONTRACT_ADDRESS..."
upgrade hardhat (some proxy_address) =
    if truthy proxy_address
    then upgrade_at hardhat proxy_address
    else assert "Could not read CONTRACT_ADDRESS..."
