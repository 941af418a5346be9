-- ===== src/Contracts/Deploy/Upgrading.antt =====
-- How the upgrade of the contract ends.
use mathlib.Core.Path.{subst}
use knowtfolio.Base.{
  String, true, false, Option, some, [], ◌≡◌, ◌≢◌, ◌↔◌, ◌⊎◌, inl, inr, refl, ap, none, Bool-cases,
  arith, truthy, truthy?,
}
use knowtfolio.Apis.Request.{resolved}
use knowtfolio.Contracts.Script.{Hardhat, Exit, execute}
use knowtfolio.Contracts.Deploy.{upgrade_at, upgrade}

-- Hardhat has answered each call of the upgrade.
pub record Upgrades (hardhat : Hardhat) (proxy_address : String) : Type 0 where
  pub factory : String
  pub has_factory : hardhat.factory_of "KnowtfolioV2" ≡ resolved factory
  pub address : String
  pub has_upgraded : hardhat.upgraded proxy_address factory ≡ resolved address
  pub implementation : String
  pub has_implementation : hardhat.implementation_of address ≡ resolved implementation
  pub admin : String
  pub has_admin : hardhat.admin_of address ≡ resolved admin

upgrade_of :
    (hardhat : Hardhat) (proxy_address : String)
    → truthy proxy_address ≡ true
    → Upgrades hardhat proxy_address
    → (execute (upgrade hardhat (some proxy_address))).exit_code ≡ 0
unfolding upgrade upgrade_at
upgrade_of hardhat proxy_address t u = ground arith

upgrade_only :
    (hardhat : Hardhat) (proxy_address : String)
    → truthy proxy_address ≡ true
    → (execute (upgrade hardhat (some proxy_address))).exit_code ≡ 0
    → Upgrades hardhat proxy_address
unfolding upgrade upgrade_at
upgrade_only hardhat proxy_address t h = ground arith

-- The script has called and written nothing, and counts as successful.
abbrev pub idle : Exit
idle = record { output = []; calls = []; exit_code = 0 }

unaddressed :
    (hardhat : Hardhat) (address : Option String)
    → truthy? address ≡ false
    → execute (upgrade hardhat address) ≡ idle
unfolding upgrade
unaddressed hardhat address h = ground arith

upgraded_iff :
    (hardhat : Hardhat) (address : Option String)
    → ((execute (upgrade hardhat address)).exit_code ≡ 0) ↔ (
        (truthy? address ≡ false)
        ⊎ ((proxy_address : String) × (address ≡ some proxy_address)
            × Upgrades hardhat proxy_address))
upgraded_iff hardhat none =
    (λ h. inl refl, λ h. ap (λ (x : Exit). x.exit_code) (unaddressed hardhat none refl))
upgraded_iff hardhat (some a) = elim (Bool-cases (truthy a)) [
  | inl t ↦ (
    λ h. inr (a, refl, upgrade_only hardhat a t h),
    λ c. elim c [
      | inl f ↦ ground arith
      | inr (p, e, u) ↦
          let same : p ≡ a = ground arith in
          upgrade_of hardhat a t (subst (Upgrades hardhat) same u)
    ],
  )
  | inr f ↦ (λ h. inl f, λ c. ap (λ (x : Exit). x.exit_code) (unaddressed hardhat (some a) f))
]

-- An upgrade with an address makes a call.
upgrade-calls :
    (hardhat : Hardhat) (a : String) → truthy a ≡ true → execute (upgrade hardhat (some a)) ≢ idle
unfolding upgrade upgrade_at
upgrade-calls hardhat a t h =
    let made : (execute (upgrade hardhat (some a))).calls ≡ [] = ap (λ (x : Exit). x.calls) h in
    ground arith

idle_only :
    (hardhat : Hardhat) (address : Option String)
    → execute (upgrade hardhat address) ≡ idle
    → truthy? address ≡ false
idle_only hardhat none h = refl
idle_only hardhat (some a) h = elim (Bool-cases (truthy a)) [
  | inl t ↦ absurd (upgrade-calls hardhat a t h)
  | inr f ↦ f
]

-- The upgrade ends with the exit code 0 exactly when it has no address, where an empty one counts
-- as none, or Hardhat has answered each of its calls for the address; and it ends with this exit
-- code without having called or written anything exactly when it has no address.
pub upgrade_exit_iff :
    (hardhat : Hardhat) (address : Option String)
    → (((execute (upgrade hardhat address)).exit_code ≡ 0) ↔ (
        (truthy? address ≡ false)
        ⊎ ((proxy_address : String) × (address ≡ some proxy_address)
            × Upgrades hardhat proxy_address)))
      × ((execute (upgrade hardhat address) ≡ idle) ↔ (truthy? address ≡ false))
upgrade_exit_iff hardhat address =
    (upgraded_iff hardhat address, (idle_only hardhat address, unaddressed hardhat address))
