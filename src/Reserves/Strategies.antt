-- ===== src/Reserves/Strategies.antt =====
-- The parameters of a reserve (helpers/types.ts) and its interest rate strategy: `getStrategyFactory`
-- of helpers/init-helpers.ts. A deployment function of helpers/contracts-deployments.ts is an
-- operation of the chain, named by the id of its contract.
use augmented_finance_protoc.Prelude.{
  ℤ, ℕ, String, Bool, true, false, List, [], ◌∷◌, Option, none, some, if◌then◌else◌, Act, throw,
  ◌>>=◌,
}
use augmented_finance_protoc.Helpers.Addresses.{AddressLib, falsy_or_zero_address}
use augmented_finance_protoc.Types.ContractIds.{
  ContractId, delegated_strategy_aave, delegated_strategy_compound_erc20,
  delegated_strategy_compound_eth,
}

pub record InterestRateStrategyParams : Type 0 where
  pub name : String
  pub strategy_impl : Option ContractId
  pub optimal_utilization_rate : String
  pub base_variable_borrow_rate : String
  pub variable_rate_slope1 : String
  pub variable_rate_slope2 : String
  pub stable_rate_slope1 : String
  pub stable_rate_slope2 : String

pub record ReserveParams : Type 0 where
  pub borrowing_enabled : Bool
  pub stable_borrow_rate_enabled : Bool
  pub base_ltv_as_collateral : ℤ
  pub liquidation_threshold : ℤ
  pub liquidation_bonus : ℤ
  pub deposit_token_impl : ContractId
  pub reserve_factor : ℕ
  pub strategy : InterestRateStrategyParams
  pub reserve_decimals : ℕ

-- What is called on the chain. A contract is known by its address.
pub record Market (W : Type 0) : Type 0 where
  pub deploy : ContractId → List String → Act W String
  pub deploy_reserve_interest_rate_strategy : String → List String → Act W String
  pub ac_address : String
  pub get_weth_gateway : Act W String
  pub get_weth_address : String → Act W String
  pub get_reserves_list : Act W (List String)

-- Which of the four deployment functions a factory has.
pub data StrategyKind : Type 0 where
  own_rates : StrategyKind
  aave : StrategyKind
  compound_erc20 : StrategyKind
  compound_eth : StrategyKind

pub record StrategyFactoryInfo : Type 0 where
  pub external : Bool
  pub kind : StrategyKind
  pub optional_underlying : Option Bool
  pub has_feed : Bool

unfoldable pub get_strategy_factory : InterestRateStrategyParams → Option StrategyFactoryInfo
get_strategy_factory strategy = elim (strategy.strategy_impl) [
  | none ↦
      some (record {
        external = false;
        kind = own_rates;
        optional_underlying = none;
        has_feed = false;
      })
  | some delegated_strategy_aave ↦
      some
        (record { external = true; kind = aave; optional_underlying = some true; has_feed = true })
  | some delegated_strategy_compound_erc20 ↦ some (record {
    external = true;
    kind = compound_erc20;
    optional_underlying = some false;
    has_feed = true;
  })
  | some delegated_strategy_compound_eth ↦ some (record {
    external = true;
    kind = compound_eth;
    optional_underlying = some true;
    has_feed = true;
  })
  | some _ ↦ none
]

-- `factoryInfo.deployFn(addressProvider, verify)`
unfoldable pub deploy_fn :
    {W : Type 0} → AddressLib → Market W → StrategyKind → InterestRateStrategyParams → Act W String
unfolding falsy_or_zero_address
deploy_fn lib m own_rates s = m.deploy_reserve_interest_rate_strategy s.name (
    m.ac_address ∷ s.optimal_utilization_rate ∷ s.base_variable_borrow_rate ∷ s.variable_rate_slope1
    ∷ s.variable_rate_slope2 ∷ s.stable_rate_slope1 ∷ s.stable_rate_slope2 ∷ [])
deploy_fn lib m aave s = m.deploy delegated_strategy_aave (s.name ∷ [])
deploy_fn lib m compound_erc20 s =
    m.deploy delegated_strategy_compound_erc20 (s.name ∷ m.ac_address ∷ [])
deploy_fn lib m compound_eth s = do
  gateway ← m.get_weth_gateway
  weth ← m.get_weth_address gateway
  if falsy_or_zero_address lib (some weth)
      then throw "wethAddress is required"
      else m.deploy delegated_strategy_compound_eth (s.name ∷ m.ac_address ∷ weth ∷ [])
