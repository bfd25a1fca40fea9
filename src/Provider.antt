-- ===== src/Provider.antt =====
-- The first task of a deployment, full:deploy-address-provider, tasks/full/01-address-provider.ts:
-- which registry and which access controller are used, and who gets roles.
pub mod Granted
use Prim.Native.Nat.{bit_or}
use augmented_finance_protoc.Prelude.{
  ℕ, eqb, String, Bool, true, false, not, List, [], ◌∷◌, Option, none, some, if◌then◌else◌, ◌==◌,
  ok, Act, pure, throw, ◌>>=◌, ◌>>◌, to_lower_case, drop, map, for_each,
}
use augmented_finance_protoc.Helpers.Addresses.{AddressLib, falsy_or_zero_address}
use augmented_finance_protoc.JsonDb.{Db}
use augmented_finance_protoc.Access.Flags.{AccessFlag, flag_value}
use augmented_finance_protoc.Reserves.Plan.{has}
use augmented_finance_protoc.Types.ContractIds.{id_name, market_access_controller}
use augmented_finance_protoc.Deployment.{Site, Chain, lift, register_and_verify}
use augmented_finance_protoc.Deployment.Controllers.{set_pre_deploy_access_controller}

-- The registry, with the signer of the calls to it.
pub record Registry : Type 0 where
  pub address : String
  pub signer : String

-- What is called on the chain. A signer is known by its address, `none` is no signer.
pub record Contracts (W : Type 0) : Type 0 where
  pub get_first_signer : Act W String
  pub get_owner : String → Act W String
  pub get_one_time_user : String → Act W String
  pub get_signer : String → Option String
  -- The registry of the database, and a new one, with the flag `verify` given.
  pub get_addresses_provider_registry : Act (Site W) String
  pub deploy_addresses_provider_registry : Act (Site W) String
  pub set_one_time_registrar : Registry → String → ℕ → Act W (Unit {0})
  pub transfer_registry : Registry → String → Act W (Unit {0})
  -- The controller, deployed and waited for.
  pub deploy_market_access_controller_no_save : String → Act W String
  pub set_any_role_mode : String → Bool → Act W (Unit {0})
  pub set_temporary_admin : String → String → ℕ → Act W (Unit {0})
  pub transfer_controller : String → String → Act W (Unit {0})
  pub prepare_addresses_provider : Registry → String → Act W (Unit {0})
  pub get_addresses_provider_id_by_address : Registry → String → Act W ℕ
  pub role_active_grantees : String → ℕ → Act W (List String × ℕ)
  pub grant_roles : (controller user : String) → ℕ → Act W (Unit {0})

-- The configuration of the market for the network.
pub record ProviderParams : Type 0 where
  pub market_id : String
  pub provider_id : ℕ
  pub address_provider : Option String
  pub provider_registry : Option String
  pub provider_registry_owner : Option String
  pub address_provider_owner : Option String
  pub emergency_admins : List String

abbrev pub text_of : Option String → String
text_of none = ""
text_of (some s) = s

module _ {W : Type 0} (contracts : Contracts W) (lib : AddressLib) where
  -- Who may write to the configured registry.
  unfoldable pub registry_signer : (deployer addr : String) → Act W String
  registry_signer deployer addr = do
    owner ← contracts.get_owner addr
    if owner == deployer then pure deployer else elim (contracts.get_signer owner) [
      | some signer ↦ pure signer
      | none ↦ (do
        user ← contracts.get_one_time_user addr
        (if user == deployer
            then throw "Deployer has no access to the registry"
            else elim (contracts.get_signer user) [
              | some signer ↦ pure signer
              | none ↦ throw "Deployer has no access to the registry"
            ]))
    ]

  unfoldable pub new_registry : String → ProviderParams → Act (Site W) Registry
  new_registry deployer params = do
    addr ← contracts.deploy_addresses_provider_registry
    let registry : Registry = record { address = addr; signer = deployer }
    (if falsy_or_zero_address lib params.provider_registry_owner then pure tt else (do
      lift (contracts.set_one_time_registrar registry deployer params.provider_id)
      lift (contracts.transfer_registry registry (text_of params.provider_registry_owner))))
    pure registry

  unfoldable pub find_registry :
      (continuation : Bool) → String → ProviderParams → Act (Site W) Registry
  unfolding registry_signer new_registry
  find_registry continuation deployer params =
      if not (falsy_or_zero_address lib params.provider_registry)
      then (do
        let addr = text_of params.provider_registry
        signer ← lift (registry_signer deployer addr)
        pure (record { address = addr; signer = signer }))
      else (if continuation
          then (do
            addr ← contracts.get_addresses_provider_registry
            pure (record { address = addr; signer = deployer }))
          else new_registry deployer params)

  unfoldable pub transfer_provider : String → ProviderParams → Act W (Unit {0})
  transfer_provider controller params =
      if not (falsy_or_zero_address lib params.address_provider_owner)
      then contracts.transfer_controller controller (text_of params.address_provider_owner)
      else (if not (falsy_or_zero_address lib params.provider_registry_owner)
          then contracts.transfer_controller controller (text_of params.provider_registry_owner)
          else pure tt)

  -- The emergency admins of a controller that is not new.
  unfoldable pub known_admins : String → Act W (List String)
  known_admins controller = do
    known ← contracts.role_active_grantees controller (flag_value AccessFlag.emergency_admin)
    pure (map to_lower_case (drop known.1 known.0))

  unfoldable pub grant_admin : String → List String → String → Act W (Unit {0})
  unfolding has
  grant_admin controller known admin =
      if has (to_lower_case admin) known
      then pure tt
      else contracts.grant_roles controller admin (flag_value AccessFlag.emergency_admin)

  unfoldable pub grant_emergency_admins : String → (new : Bool) → List String → Act W (Unit {0})
  unfolding known_admins grant_admin for_each
  grant_emergency_admins controller new [] = pure tt
  grant_emergency_admins controller new (a ∷ admins) = do
    known ← (if new then pure [] else known_admins controller)
    for_each (grant_admin controller known) (a ∷ admins)

-- `LENDING_RATE_ADMIN | POOL_ADMIN | ..`
unfoldable pub deployer_roles : ℕ
unfolding flag_value
deployer_roles =
    bit_or
      (bit_or
        (bit_or
          (bit_or
            (bit_or
              (bit_or (flag_value AccessFlag.lending_rate_admin) (flag_value AccessFlag.pool_admin))
              (flag_value AccessFlag.stake_admin))
            (flag_value AccessFlag.reward_config_admin))
          (flag_value AccessFlag.reward_rate_admin))
        (flag_value AccessFlag.oracle_admin))
      (flag_value AccessFlag.treasury_admin)

abbrev pub on_db : {W A : Type 0} → Act Db A → Act (Site W) A
on_db m s = let r = m s.db in (r.0, record s { db = r.1 })

module _ {W : Type 0} (chain : Chain W) (contracts : Contracts W) (lib : AddressLib)
    (network : String) where
  -- `args` is what `stringifyArgs` makes of the market's id. The registration is not awaited; it is
  -- done here before what follows.
  unfoldable pub deploy_controller :
      String → Registry → ProviderParams → (args : String) → (verify : Bool) → Act (Site W) String
  unfolding transfer_provider register_and_verify
  deploy_controller deployer registry params args verify = do
    controller ← lift (contracts.deploy_market_access_controller_no_save params.market_id)
    lift (contracts.set_any_role_mode controller false)
    lift (contracts.set_temporary_admin controller deployer 1000)
    lift (transfer_provider contracts lib controller params)
    lift (contracts.prepare_addresses_provider registry controller)
    register_and_verify chain lib network controller (id_name market_access_controller) args verify

  -- The task after the choice of the controller: `existing` is that of a deployment that is continued.
  unfoldable pub prepare_provider :
      String
      → (existing : Option String) → ProviderParams
      → (args : String) → (verify : Bool) → Act (Site W) (Unit {0})
  unfolding find_registry deploy_controller grant_emergency_admins
  prepare_provider deployer existing params args verify = do
    registry ←
        find_registry contracts lib (elim existing as (λ _. Bool) [ none ↦ false | some a ↦ true ])
          deployer params
    controller ← elim existing as (λ _. Act (Site W) String) [
      | some addr ↦ pure addr
      | none ↦ deploy_controller deployer registry params args verify
    ]
    id ← lift (contracts.get_addresses_provider_id_by_address registry controller)
    (if not (eqb id 0) then throw "deployment was already finished" else (do
      lift (
          grant_emergency_admins contracts lib controller
            (elim existing as (λ _. Bool) [ none ↦ true | some a ↦ false ]) params.emergency_admins)
      lift (contracts.grant_roles controller deployer deployer_roles)))

  -- A configured controller is taken as it is.
  unfoldable pub with_controller :
      String
      → ProviderParams
      → (args : String) → (verify : Bool) → (continuation : Bool) → Option String
      → Act (Site W) (Unit {0})
  unfolding prepare_provider
  with_controller deployer params args verify false (some addr) = pure tt
  with_controller deployer params args verify false none =
      prepare_provider deployer none params args verify
  with_controller deployer params args verify true existing =
      prepare_provider deployer existing params args verify

  unfoldable pub deploy_address_provider :
      ProviderParams → (args : String) → (verify : Bool) → Act (Site W) (Unit {0})
  unfolding with_controller set_pre_deploy_access_controller
  deploy_address_provider params args verify = do
    deployer ← lift contracts.get_first_signer
    found ← on_db (set_pre_deploy_access_controller lib network params.address_provider)
    with_controller deployer params args verify found.0 found.1
