-- ===== src/Reserves/Plan.antt =====
-- The loop of `initReservesByHelper` (helpers/init-helpers.ts) that chooses the reserves to be
-- initialised and deploys the strategies they need.
pub mod Covered
pub mod Chosen
use augmented_finance_protoc.Prelude.{
  ℕ, String, Bool, true, false, not, ◌||◌, List, [], ◌∷◌, ◌++◌, Option, none, some, if◌then◌else◌,
  Result, ok, thrown, Act, pure, throw, ◌>>=◌, Dict, lookup, insert, to_lower_case, ◌<>◌, ◌==◌, map,
}
use augmented_finance_protoc.Helpers.Addresses.{AddressLib, falsy_or_zero_address}
use augmented_finance_protoc.Types.ContractIds.{
  ContractId, deposit_token_impl, delegation_aware_deposit_token_impl,
}
use augmented_finance_protoc.Reserves.Strategies.{
  Market, ReserveParams, InterestRateStrategyParams, StrategyFactoryInfo, get_strategy_factory,
  deploy_fn,
}

pub record StrategyInfo : Type 0 where
  pub address : String
  pub external : Bool

-- The type of a deposit token, one of the two that the loop knows.
pub data DepositType : Type 0 where
  generic : DepositType
  delegation_aware : DepositType

unfoldable pub deposit_type : ContractId → Option DepositType
deposit_type deposit_token_impl = some generic
deposit_type delegation_aware_deposit_token_impl = some delegation_aware
deposit_type _ = none

pub record ReserveInfo : Type 0 where
  pub token_address : String
  pub symbol : String
  pub decimals : ℕ
  pub deposit_token_type : DepositType
  pub strategy_address : String
  pub external : Bool

-- The local variables that the loop changes.
pub record InitPlan : Type 0 where
  pub strategies : Dict StrategyInfo
  pub has_deposit : Bool
  pub has_delegation_aware : Bool
  pub has_variable_debt : Bool
  pub has_stable_debt : Bool
  pub reserve_info : List ReserveInfo

abbrev pub empty_plan : InitPlan
empty_plan = record {
  strategies = [];
  has_deposit = false;
  has_delegation_aware = false;
  has_variable_debt = false;
  has_stable_debt = false;
  reserve_info = [];
}

-- `existingAssets.has(..)`
unfoldable pub has : String → List String → Bool
has x [] = false
has x (y ∷ ys) = (y == x) || has x ys

-- The plan with the strategy that was deployed.
unfoldable pub with_strategy : String → StrategyInfo → InitPlan → InitPlan
with_strategy name info plan = record plan {
  strategies = insert name info plan.strategies;
  has_variable_debt = not info.external || plan.has_variable_debt;
  has_stable_debt = not info.external || plan.has_stable_debt;
}

-- The plan with the reserve.
abbrev pub push_typed :
    String → String → ReserveParams → StrategyInfo → InitPlan → DepositType → InitPlan
push_typed symbol addr params info plan t = record plan {
  has_deposit = (elim t [ generic ↦ true | delegation_aware ↦ plan.has_deposit ]);
  has_delegation_aware = (elim t [ generic ↦ plan.has_delegation_aware | delegation_aware ↦ true ]);
  reserve_info =
      plan.reserve_info
      ++ record {
        token_address = addr;
        symbol = symbol;
        decimals = params.reserve_decimals;
        deposit_token_type = t;
        strategy_address = info.address;
        external = info.external;
      }
        ∷ [];
}

-- An unknown type of deposit token is passed over.
unfoldable pub push_reserve : String → String → ReserveParams → StrategyInfo → InitPlan → InitPlan
unfolding deposit_type
push_reserve symbol addr params info plan = elim (deposit_type (params.deposit_token_impl)) [
  | none ↦ plan
  | some t ↦ push_typed symbol addr params info plan t
]

module _ {W : Type 0} (lib : AddressLib) (m : Market W) where
  -- A strategy that the loop does not have yet.
  unfoldable pub new_strategy :
      String → String → ReserveParams → InitPlan → Option StrategyFactoryInfo → Act W InitPlan
  unfolding deploy_fn with_strategy push_reserve
  new_strategy symbol addr params plan none = pure plan
  new_strategy symbol addr params plan (some f) = do
    address ← deploy_fn lib m f.kind params.strategy
    let info : StrategyInfo = record { address = address; external = f.external }
    pure (push_reserve symbol addr params info (with_strategy params.strategy.name info plan))

  unfoldable pub use_strategy :
      String → String → ReserveParams → InitPlan → Option StrategyInfo → Act W InitPlan
  unfolding new_strategy get_strategy_factory push_reserve
  use_strategy symbol addr params plan none =
      new_strategy symbol addr params plan (get_strategy_factory params.strategy)
  use_strategy symbol addr params plan (some info) =
      pure (push_reserve symbol addr params info plan)

  module _ (reserves_params_opt : Bool) (token_addresses : Dict String)
      (existing_assets : List String) where
    unfoldable pub missing_asset : String → InitPlan → Act W InitPlan
    missing_asset symbol plan =
        if reserves_params_opt then pure plan else throw ("asset is missing: " <> symbol)

    unfoldable pub plan_at : String → ReserveParams → InitPlan → Option String → Act W InitPlan
    unfolding missing_asset use_strategy falsy_or_zero_address has
    plan_at symbol params plan none = missing_asset symbol plan
    plan_at symbol params plan (some addr) =
        if falsy_or_zero_address lib (some addr)
        then missing_asset symbol plan
        else (if has (to_lower_case addr) existing_assets
            then pure plan
            else use_strategy symbol addr params plan (lookup params.strategy.name plan.strategies))

    unfoldable pub plan_reserves : Dict ReserveParams → InitPlan → Act W InitPlan
    unfolding plan_at
    plan_reserves [] plan = pure plan
    plan_reserves ((symbol, params) ∷ rest) plan = do
      plan' ← plan_at symbol params plan (lookup symbol token_addresses)
      plan_reserves rest plan'
