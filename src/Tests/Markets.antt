-- ===== src/Tests/Markets.antt =====
-- The reserves of the test market, and an external asset that is derived from one of them.
use augmented_finance_protoc.Prelude.{refl, some, arith}
use augmented_finance_protoc.Types.ContractIds.{delegated_strategy_aave}
use augmented_finance_protoc.Reserves.Strategies.{InterestRateStrategyParams}
use augmented_finance_protoc.Markets.Assets.{external_asset}
use augmented_finance_protoc.Markets.TestReserves.{dai_reserve, test_reserves}
use augmented_finance_protoc.Markets.Sound.{
  IsAcceptedReserve, AreAccepted, external_asset-IsAccepted,
}

test_reserves-AreAccepted : AreAccepted test_reserves
unfolding test_reserves
test_reserves-AreAccepted = (
  (omega arith, omega arith, omega arith, omega arith, omega arith),
  (
    (omega arith, omega arith, omega arith, omega arith, omega arith),
    (
      (omega arith, omega arith, omega arith, omega arith, omega arith),
      (
        (omega arith, omega arith, omega arith, omega arith, omega arith),
        (
          (omega arith, omega arith, omega arith, omega arith, omega arith),
          (
            (omega arith, omega arith, omega arith, omega arith, omega arith),
            ((omega arith, omega arith, omega arith, omega arith, omega arith), tt),
          ),
        ),
      ),
    ),
  ),
)

abbrev aave_strategy : InterestRateStrategyParams
aave_strategy = record {
  name = "externalReserveAAVE";
  strategy_impl = some delegated_strategy_aave;
  optimal_utilization_rate = "";
  base_variable_borrow_rate = "";
  variable_rate_slope1 = "";
  variable_rate_slope2 = "";
  stable_rate_slope1 = "";
  stable_rate_slope2 = "";
}

dai-IsAccepted : IsAcceptedReserve dai_reserve
dai-IsAccepted = (omega arith, omega arith, omega arith, omega arith, omega arith)

external_asset-IsAccepted_example :
    IsAcceptedReserve (external_asset dai_reserve aave_strategy 2000 (some 8))
external_asset-IsAccepted_example =
    external_asset-IsAccepted dai_reserve aave_strategy 2000 (some 8) 7500 8000 10500 refl refl refl
      (omega arith) (omega arith) (omega arith) dai-IsAccepted
