-- ===== src/Markets/TestReserves.antt =====
-- The reserves of the test market: markets/augmented/reservesConfigs.ts. A rate is a text of its digits with
-- 27 decimals.
use augmented_finance_protoc.Prelude.{[], ◌∷◌, none, Dict, pos, true, false}
use augmented_finance_protoc.Types.ContractIds.{deposit_token_impl}
use augmented_finance_protoc.Reserves.Strategies.{InterestRateStrategyParams, ReserveParams}

abbrev pub aave_rates : InterestRateStrategyParams
aave_rates = record {
  name = "rateStrategyAAVE";
  strategy_impl = none;
  optimal_utilization_rate = "450000000000000000000000000";
  base_variable_borrow_rate = "0";
  variable_rate_slope1 = "0";
  variable_rate_slope2 = "0";
  stable_rate_slope1 = "0";
  stable_rate_slope2 = "0";
}

abbrev pub stable1_rates : InterestRateStrategyParams
stable1_rates = record {
  name = "rateStrategyStableOne";
  strategy_impl = none;
  optimal_utilization_rate = "800000000000000000000000000";
  base_variable_borrow_rate = "0";
  variable_rate_slope1 = "40000000000000000000000000";
  variable_rate_slope2 = "1000000000000000000000000000";
  stable_rate_slope1 = "0";
  stable_rate_slope2 = "0";
}

abbrev pub stable2_rates : InterestRateStrategyParams
stable2_rates = record {
  name = "rateStrategyStableTwo";
  strategy_impl = none;
  optimal_utilization_rate = "800000000000000000000000000";
  base_variable_borrow_rate = "0";
  variable_rate_slope1 = "40000000000000000000000000";
  variable_rate_slope2 = "750000000000000000000000000";
  stable_rate_slope1 = "20000000000000000000000000";
  stable_rate_slope2 = "750000000000000000000000000";
}

abbrev pub stable3_rates : InterestRateStrategyParams
stable3_rates = record {
  name = "rateStrategyStableThree";
  strategy_impl = none;
  optimal_utilization_rate = "900000000000000000000000000";
  base_variable_borrow_rate = "0";
  variable_rate_slope1 = "40000000000000000000000000";
  variable_rate_slope2 = "600000000000000000000000000";
  stable_rate_slope1 = "20000000000000000000000000";
  stable_rate_slope2 = "600000000000000000000000000";
}

abbrev pub volatile1_rates : InterestRateStrategyParams
volatile1_rates = record {
  name = "rateStrategyVolatileOne";
  strategy_impl = none;
  optimal_utilization_rate = "450000000000000000000000000";
  base_variable_borrow_rate = "0";
  variable_rate_slope1 = "70000000000000000000000000";
  variable_rate_slope2 = "3000000000000000000000000000";
  stable_rate_slope1 = "100000000000000000000000000";
  stable_rate_slope2 = "3000000000000000000000000000";
}

abbrev pub volatile2_rates : InterestRateStrategyParams
volatile2_rates = record {
  name = "rateStrategyVolatileTwo";
  strategy_impl = none;
  optimal_utilization_rate = "650000000000000000000000000";
  base_variable_borrow_rate = "0";
  variable_rate_slope1 = "80000000000000000000000000";
  variable_rate_slope2 = "3000000000000000000000000000";
  stable_rate_slope1 = "100000000000000000000000000";
  stable_rate_slope2 = "3000000000000000000000000000";
}

abbrev pub volatile3_rates : InterestRateStrategyParams
volatile3_rates = record {
  name = "rateStrategyVolatileThree";
  strategy_impl = none;
  optimal_utilization_rate = "650000000000000000000000000";
  base_variable_borrow_rate = "0";
  variable_rate_slope1 = "80000000000000000000000000";
  variable_rate_slope2 = "3000000000000000000000000000";
  stable_rate_slope1 = "100000000000000000000000000";
  stable_rate_slope2 = "3000000000000000000000000000";
}

abbrev pub volatile4_rates : InterestRateStrategyParams
volatile4_rates = record {
  name = "rateStrategyVolatileFour";
  strategy_impl = none;
  optimal_utilization_rate = "450000000000000000000000000";
  base_variable_borrow_rate = "0";
  variable_rate_slope1 = "70000000000000000000000000";
  variable_rate_slope2 = "3000000000000000000000000000";
  stable_rate_slope1 = "0";
  stable_rate_slope2 = "0";
}

abbrev pub weth_rates : InterestRateStrategyParams
weth_rates = record {
  name = "rateStrategyWETH";
  strategy_impl = none;
  optimal_utilization_rate = "650000000000000000000000000";
  base_variable_borrow_rate = "0";
  variable_rate_slope1 = "80000000000000000000000000";
  variable_rate_slope2 = "1000000000000000000000000000";
  stable_rate_slope1 = "100000000000000000000000000";
  stable_rate_slope2 = "1000000000000000000000000000";
}

abbrev pub aave_reserve : ReserveParams
aave_reserve = record {
  borrowing_enabled = false;
  stable_borrow_rate_enabled = false;
  base_ltv_as_collateral = pos 5000;
  liquidation_threshold = pos 6500;
  liquidation_bonus = pos 11000;
  deposit_token_impl = deposit_token_impl;
  reserve_factor = 0;
  strategy = aave_rates;
  reserve_decimals = 18;
}

abbrev pub link_reserve : ReserveParams
link_reserve = record {
  borrowing_enabled = true;
  stable_borrow_rate_enabled = true;
  base_ltv_as_collateral = pos 7000;
  liquidation_threshold = pos 7500;
  liquidation_bonus = pos 11000;
  deposit_token_impl = deposit_token_impl;
  reserve_factor = 2000;
  strategy = volatile1_rates;
  reserve_decimals = 18;
}

abbrev pub dai_reserve : ReserveParams
dai_reserve = record {
  borrowing_enabled = true;
  stable_borrow_rate_enabled = true;
  base_ltv_as_collateral = pos 7500;
  liquidation_threshold = pos 8000;
  liquidation_bonus = pos 10500;
  deposit_token_impl = deposit_token_impl;
  reserve_factor = 1000;
  strategy = stable2_rates;
  reserve_decimals = 18;
}

abbrev pub usdc_reserve : ReserveParams
usdc_reserve = record {
  borrowing_enabled = true;
  stable_borrow_rate_enabled = true;
  base_ltv_as_collateral = pos 8000;
  liquidation_threshold = pos 8500;
  liquidation_bonus = pos 10500;
  deposit_token_impl = deposit_token_impl;
  reserve_factor = 1000;
  strategy = stable3_rates;
  reserve_decimals = 6;
}

abbrev pub usdt_reserve : ReserveParams
usdt_reserve = record {
  borrowing_enabled = true;
  stable_borrow_rate_enabled = true;
  base_ltv_as_collateral = pos 8000;
  liquidation_threshold = pos 8500;
  liquidation_bonus = pos 10500;
  deposit_token_impl = deposit_token_impl;
  reserve_factor = 1000;
  strategy = stable3_rates;
  reserve_decimals = 6;
}

abbrev pub wbtc_reserve : ReserveParams
wbtc_reserve = record {
  borrowing_enabled = true;
  stable_borrow_rate_enabled = true;
  base_ltv_as_collateral = pos 7000;
  liquidation_threshold = pos 7500;
  liquidation_bonus = pos 11000;
  deposit_token_impl = deposit_token_impl;
  reserve_factor = 2000;
  strategy = volatile2_rates;
  reserve_decimals = 8;
}

abbrev pub weth_reserve : ReserveParams
weth_reserve = record {
  borrowing_enabled = true;
  stable_borrow_rate_enabled = true;
  base_ltv_as_collateral = pos 8000;
  liquidation_threshold = pos 8250;
  liquidation_bonus = pos 10500;
  deposit_token_impl = deposit_token_impl;
  reserve_factor = 1000;
  strategy = weth_rates;
  reserve_decimals = 18;
}

unfoldable pub test_reserves : Dict ReserveParams
test_reserves =
    ("AAVE", aave_reserve)
    ∷ ("LINK", link_reserve)
    ∷ ("DAI", dai_reserve)
    ∷ ("USDC", usdc_reserve)
    ∷ ("USDT", usdt_reserve)
    ∷ ("WBTC", wbtc_reserve)
    ∷ ("WETH", weth_reserve)
    ∷ []
