-- ===== src/Contracts/Settings.antt =====
-- blockchain/hardhat.config.ts: the networks, and the task that lists the accounts. The variables of
-- the environment are an argument.
use knowtfolio.Base.{ℕ, String, Bool, true, false, Option, none, some, List, [], ◌∷◌, or_else}
use knowtfolio.Contracts.Script.{
  log, get_signers, Hardhat, Script, ◌>>=◌, ◌>>◌, done, print, await_call,
}

pub record Network : Type 0 where
  pub url : String
  pub chain_id : Option ℕ
  pub accounts : List String

pub record Settings : Type 0 where
  pub solidity : String
  pub localhost : Network
  pub mumbai : Network
  pub report_gas : Bool
  pub gas_currency : String
  pub etherscan_api_key : Option String

-- `value !== undefined`.
abbrev pub is_defined : Option String → Bool
is_defined none = false
is_defined (some value) = true

-- `value !== undefined ? [value] : []`.
abbrev pub key_list : Option String → List String
key_list none = []
key_list (some key) = key ∷ []

unfoldable pub config : (String → Option String) → Settings
config env = record {
  solidity = "0.8.4";
  localhost = record {
    url = "http://127.0.0.1:8545/";
    chain_id = some 31337;
    accounts = "0xac0974bec39a17e36ba4a6b4d238ff944bacb478cbed5efcae784d7bf4f2ff80" ∷ [];
  };
  mumbai = record {
    url = or_else (env "MUMBAI_URL") "";
    chain_id = none;
    accounts = key_list (env "PRIVATE_KEY");
  };
  report_gas = is_defined (env "REPORT_GAS");
  gas_currency = "USD";
  etherscan_api_key = env "ETHERSCAN_API_KEY";
}

abbrev pub print_each : List String → Script (Unit {0})
print_each [] = done
print_each (address ∷ rest) = print (log (address ∷ [])) >> print_each rest

-- The task `accounts`.
unfoldable pub accounts : Hardhat → Script (Unit {0})
accounts hardhat = do signers ← await_call get_signers hardhat.signers; print_each signers
