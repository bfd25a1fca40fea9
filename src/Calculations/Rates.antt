-- ===== src/Calculations/Rates.antt =====
-- The rates of helpers/utils/calculations.ts. The parameters of the reserves are the `configuration`
-- that the suite has loaded; a symbol without parameters makes the calculation throw, which is `none`.
use augmented_finance_protoc.Prelude.{String, ◌&&◌, Option, none, some, if◌then◌else◌, Dict, lookup}
use augmented_finance_protoc.Reserves.Strategies.{InterestRateStrategyParams, ReserveParams}
use augmented_finance_protoc.Calculations.Math.{
  BigNumberLib, ray_text, percentage_factor, ray_mul, ray_div, wad_to_ray, percent_mul,
}
use augmented_finance_protoc.Calculations.Data.{ReserveData}
use augmented_finance_protoc.Calculations.Interest.{calc_linear_interest, calc_compounded_interest}

-- `rates[0]`, `rates[1]` and `rates[2]`.
pub record InterestRates (N : Type 0) : Type 0 where
  pub liquidity_rate : N
  pub stable_borrow_rate : N
  pub variable_borrow_rate : N

module _ (lib : BigNumberLib) where
  open lib use {BigNumber, of_text, of_number, plus, minus, eq, gt}

  unfoldable pub overall_borrow_rate :
      (total_stable_debt total_variable_debt variable_rate average_stable_rate : BigNumber)
      → BigNumber
  unfolding ray_mul ray_div wad_to_ray
  overall_borrow_rate total_stable_debt total_variable_debt variable_rate average_stable_rate =
      let total_borrows = plus total_stable_debt total_variable_debt in
      let weighted_variable = ray_mul lib (wad_to_ray lib total_variable_debt) variable_rate in
      let weighted_stable = ray_mul lib (wad_to_ray lib total_stable_debt) average_stable_rate in
      if eq total_borrows (of_number 0)
      then of_text "0"
      else ray_div lib (plus weighted_variable weighted_stable) (wad_to_ray lib total_borrows)

  unfoldable pub utilization_rate_of :
      (total_stable_debt total_variable_debt total_liquidity : BigNumber) → BigNumber
  unfolding ray_div
  utilization_rate_of total_stable_debt total_variable_debt total_liquidity =
      if eq total_stable_debt (of_text "0") && eq total_variable_debt (of_text "0")
      then of_text "0"
      else ray_div lib (plus total_stable_debt total_variable_debt) total_liquidity

  -- The stable and the variable rate at a utilization.
  unfoldable pub borrow_rates :
      InterestRateStrategyParams
      → (market_stable_rate utilization : BigNumber) → BigNumber × BigNumber
  unfolding ray_mul ray_div
  borrow_rates strategy market_stable_rate utilization =
      let base = of_text strategy.base_variable_borrow_rate in
      let optimal = of_text strategy.optimal_utilization_rate in
      let excess = minus (of_text ray_text) optimal in
      let ratio = ray_div lib (minus utilization optimal) excess in
      if gt utilization optimal
      then (
        plus (plus market_stable_rate (of_text strategy.stable_rate_slope1))
            (ray_mul lib (of_text strategy.stable_rate_slope2) ratio),
        plus (plus base (of_text strategy.variable_rate_slope1))
            (ray_mul lib (of_text strategy.variable_rate_slope2) ratio),
      )
      else (
        plus market_stable_rate
            (ray_mul lib (of_text strategy.stable_rate_slope1) (ray_div lib utilization optimal)),
        plus base
            (ray_mul lib (ray_div lib utilization optimal) (of_text strategy.variable_rate_slope1)),
      )

  rates_with :
      ReserveParams
      → (market_stable_rate utilization total_stable_debt total_variable_debt
          average_stable_rate : BigNumber)
      → InterestRates BigNumber
  unfolding borrow_rates overall_borrow_rate ray_mul percent_mul
  rates_with params market_stable_rate utilization total_stable_debt total_variable_debt
        average_stable_rate =
      let (stable_rate, variable_rate) =
        borrow_rates params.strategy market_stable_rate utilization in
      let overall =
        overall_borrow_rate total_stable_debt total_variable_debt variable_rate
          average_stable_rate in
      record {
        liquidity_rate =
            percent_mul lib (ray_mul lib overall utilization)
              (minus (of_text percentage_factor) (of_number params.reserve_factor));
        stable_borrow_rate = stable_rate;
        variable_borrow_rate = variable_rate;
      }

  unfoldable pub interest_rates :
      Dict ReserveParams
      → String
      → (market_stable_rate utilization total_stable_debt total_variable_debt
          average_stable_rate : BigNumber)
      → Option (InterestRates BigNumber)
  unfolding rates_with lookup
  interest_rates configuration symbol market_stable_rate utilization total_stable_debt
        total_variable_debt average_stable_rate =
      elim (lookup symbol configuration) [
        | none ↦ none
        | some params ↦ some (
            rates_with params market_stable_rate utilization total_stable_debt total_variable_debt
              average_stable_rate)
      ]

  -- `calcExpectedLiquidityIndex` and `calcExpectedVariableBorrowIndex`
  unfoldable pub liquidity_index_at : ReserveData BigNumber → BigNumber → BigNumber
  unfolding calc_linear_interest ray_mul
  liquidity_index_at reserve timestamp =
      if eq reserve.utilization_rate (of_text "0")
      then reserve.liquidity_index
      else ray_mul lib
          (calc_linear_interest lib reserve.liquidity_rate timestamp reserve.last_update_timestamp)
          reserve.liquidity_index

  unfoldable pub variable_borrow_index_at : ReserveData BigNumber → BigNumber → BigNumber
  unfolding calc_compounded_interest ray_mul
  variable_borrow_index_at reserve timestamp =
      if eq reserve.total_variable_debt (of_text "0")
      then reserve.variable_borrow_index
      else ray_mul lib
          (calc_compounded_interest lib reserve.variable_borrow_rate timestamp
            reserve.last_update_timestamp)
          reserve.variable_borrow_index
