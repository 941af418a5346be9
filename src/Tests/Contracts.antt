-- ===== src/Tests/Contracts.antt =====
-- The upgrade of the contract at concrete inputs.
use knowtfolio.Base.{String, false, Option, some, [], ◌≡◌, ◌↔◌, ◌⊎◌, truthy?}
use knowtfolio.Apis.Request.{resolved}
use knowtfolio.Contracts.Script.{Hardhat, execute}
use knowtfolio.Contracts.Deploy.{upgrade}
use knowtfolio.Contracts.Deploy.Upgrading.{Upgrades, idle, upgrade_exit_iff}

abbrev network : Hardhat
network = record {
  factory_of = λ name. resolved name;
  proxy_of = λ factory initializer. resolved "0xproxy";
  when_deployed = λ address. resolved tt;
  upgraded = λ proxy_address factory. resolved proxy_address;
  implementation_of = λ address. resolved "0xcode";
  admin_of = λ address. resolved "0xadmin";
  signers = resolved [];
}

upgrade_exit_iff_example :
    (((execute (upgrade network (some "0xproxy"))).exit_code ≡ 0) ↔ (
      (truthy? (some "0xproxy") ≡ false)
      ⊎ ((proxy_address : String) × (◌≡◌ {A = Option String} (some "0xproxy") (some proxy_address))
          × Upgrades network proxy_address)))
    × ((execute (upgrade network (some "0xproxy")) ≡ idle) ↔ (truthy? (some "0xproxy") ≡ false))
upgrade_exit_iff_example = upgrade_exit_iff network (some "0xproxy")
