-- ===== src/Calculations/Switches.antt =====
-- What is expected of a user of a reserve who uses it as collateral, whose rate mode is swapped or
-- whose stable rate is rebalanced: helpers/utils/calculations.ts.
use augmented_finance_protoc.Prelude.{String, Bool, ◌==◌, if◌then◌else◌}
use augmented_finance_protoc.Calculations.Math.{BigNumberLib, ray_mul, ray_div}
use augmented_finance_protoc.Calculations.Data.{ReserveData, UserReserveData, ExpectedReserve}
use augmented_finance_protoc.Calculations.Interest.{user_stable_rate}
use augmented_finance_protoc.Calculations.Reserves.{
  stable_mode, user_stable_debt, user_variable_debt, user_deposit,
}

module _ (lib : BigNumberLib) where
  open lib use {BigNumber, of_number, plus}

  unfoldable pub user_after_set_use_as_collateral :
      Bool → UserReserveData BigNumber → UserReserveData BigNumber
  user_after_set_use_as_collateral use_as_collateral user = record user {
    usage_as_collateral_enabled = use_as_collateral;
  }

  -- The user after a swap of this mode into the other one.
  unfoldable pub user_after_swap :
      ReserveData BigNumber
      → ExpectedReserve BigNumber
      → UserReserveData BigNumber
      → String
      → BigNumber
      → UserReserveData BigNumber
  user_after_swap before expected user mode timestamp =
      let stable_debt = user_stable_debt lib user timestamp in
      let variable_debt = user_variable_debt lib before user timestamp in
      let scaled =
        plus user.scaled_variable_debt (ray_div lib stable_debt expected.variable_borrow_index) in
      let principal = plus user.current_stable_debt variable_debt in
      let rate =
        user_stable_rate lib stable_debt user.stable_borrow_rate variable_debt
          before.stable_borrow_rate in
      if mode == stable_mode
      then record user {
        current_a_token_balance = user_deposit lib before user timestamp;
        current_stable_debt = of_number 0;
        principal_stable_debt = of_number 0;
        stable_borrow_rate = of_number 0;
        scaled_variable_debt = scaled;
        current_variable_debt = ray_mul lib scaled expected.variable_borrow_index;
        stable_rate_last_updated = of_number 0;
        liquidity_rate = expected.liquidity_rate;
      }
      else record user {
        current_a_token_balance = user_deposit lib before user timestamp;
        current_stable_debt = principal;
        principal_stable_debt = principal;
        stable_borrow_rate = rate;
        stable_rate_last_updated = timestamp;
        scaled_variable_debt = of_number 0;
        current_variable_debt = of_number 0;
        liquidity_rate = expected.liquidity_rate;
      }

  unfoldable pub user_after_rebalance :
      ReserveData BigNumber
      → ExpectedReserve BigNumber
      → UserReserveData BigNumber
      → BigNumber
      → UserReserveData BigNumber
  user_after_rebalance before expected user timestamp = record user {
    current_stable_debt = user_stable_debt lib user timestamp;
    principal_stable_debt = user_stable_debt lib user timestamp;
    current_variable_debt = user_variable_debt lib before user timestamp;
    stable_rate_last_updated = timestamp;
    stable_borrow_rate = expected.average_stable_borrow_rate;
    liquidity_rate = expected.liquidity_rate;
    current_a_token_balance = user_deposit lib before user timestamp;
  }
