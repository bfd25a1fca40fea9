-- ===== src/Migrations/Finalize.antt =====
-- The task full:deploy-finalize, tasks/full/99-finalize.ts: the temporary rights are given up, and the
-- access controller is registered with the registry of address providers.
pub mod Fresh
use augmented_finance_protoc.Prelude.{
  ℕ, ◌+◌, eqb, ltb, String, Bool, true, false, not, List, [], ◌∷◌, Option, none, some,
  if◌then◌else◌, Act, pure, throw, ◌>>=◌, ◌>>◌,
}
use augmented_finance_protoc.Helpers.Addresses.{AddressLib, falsy_or_zero_address}

-- What is called on the access controller and on the registry, which is known by its address.
pub record Market (W : Type 0) : Type 0 where
  pub set_dre : Act W (Unit {0})
  pub get_market_access_controller : Act W String
  pub renounce_temporary_admin : String → Act W (Unit {0})
  pub has_address_provider_registry : Bool
  pub get_addresses_provider_registry : Act W String
  pub registry_at : String → Act W String
  pub get_addresses_provider_id_by_address : String → String → Act W ℕ
  pub get_addresses_providers_list : String → Act W (List String)
  pub register_addresses_provider : String → String → ℕ → Act W (Unit {0})
  pub renounce_one_time_registrar : String → Act W (Unit {0})
  -- The grantees of POOL_ADMIN and EMERGENCY_ADMIN, which are only reported.
  pub report_admins : String → Act W (Unit {0})

-- The parameters of the pool for the network.
pub record ProviderConfig : Type 0 where
  pub provider_registry : Option String
  pub provider_id : ℕ

module _ {W : Type 0} (market : Market W) (lib : AddressLib) where
  abbrev or_text : Option String → String
  or_text none = ""
  or_text (some s) = s

  unfoldable pub find_registry : ProviderConfig → Act W String
  find_registry config =
      if market.has_address_provider_registry
      then market.get_addresses_provider_registry
      else (if falsy_or_zero_address lib config.provider_registry
          then throw "registry address is unknown"
          else market.registry_at (or_text config.provider_registry))

  -- The loop of `findMaxProviderId`, with the largest id so far.
  unfoldable pub max_id_loop : String → ℕ → List String → Act W ℕ
  max_id_loop registry provider_id [] = pure provider_id
  max_id_loop registry provider_id (addr ∷ addrs) =
      if falsy_or_zero_address lib (some addr) then max_id_loop registry provider_id addrs else (do
        known_id ← market.get_addresses_provider_id_by_address registry addr
        max_id_loop registry (if ltb provider_id known_id then known_id else provider_id) addrs)

  unfoldable pub find_max_provider_id : String → Act W ℕ
  unfolding max_id_loop
  find_max_provider_id registry = do
    addrs ← market.get_addresses_providers_list registry
    max_id_loop registry 0 addrs

  -- The configured id; without one, the id that the provider has, or else the next one that is free.
  unfoldable pub choose_id : String → ℕ → ℕ → Act W ℕ
  unfolding find_max_provider_id
  choose_id registry configured id =
      if not (eqb configured 0)
      then pure configured
      else (if not (eqb id 0)
          then pure id
          else (do largest ← find_max_provider_id registry; pure (largest + 1)))

  -- Whether the provider was registered now.
  unfoldable pub register_provider : String → String → ℕ → Act W Bool
  unfolding choose_id
  register_provider registry provider configured = do
    id ← market.get_addresses_provider_id_by_address registry provider
    provider_id ← choose_id registry configured id
    if not (eqb id provider_id)
        then (do market.register_addresses_provider registry provider provider_id; pure true)
        else pure false

  unfoldable pub deploy_finalize : Bool → ProviderConfig → Act W (Unit {0})
  unfolding find_registry register_provider
  deploy_finalize register config = do
    market.set_dre
    provider ← market.get_market_access_controller
    market.renounce_temporary_admin provider
    registry ← find_registry config
    registered ←
        (if register then register_provider registry provider config.provider_id else pure false)
    (if not registered then market.renounce_one_time_registrar registry else pure tt)
    market.report_admins provider
