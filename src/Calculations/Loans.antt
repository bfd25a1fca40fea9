-- ===== src/Calculations/Loans.antt =====
-- What is expected of a reserve after a borrow and after a repayment: helpers/utils/calculations.ts.
use augmented_finance_protoc.Prelude.{String, Option, some, ◌==◌, if◌then◌else◌, Dict}
use augmented_finance_protoc.Reserves.Strategies.{ReserveParams}
use augmented_finance_protoc.Calculations.Math.{BigNumberLib, max_uint_amount, ray_mul, ray_div}
use augmented_finance_protoc.Calculations.Data.{ReserveData, UserReserveData, ExpectedReserve}
use augmented_finance_protoc.Calculations.Interest.{
  stable_debt_token_balance, total_stable_debt_at, average_stable_borrow_rate_after,
  normalized_debt,
}
use augmented_finance_protoc.Calculations.Rates.{
  InterestRates, interest_rates, utilization_rate_of, liquidity_index_at, variable_borrow_index_at,
}
use augmented_finance_protoc.Calculations.Reserves.{
  stable_mode, Balances, with_rates, map_rates, settle, stable_debt_until, user_stable_debt,
  user_variable_debt,
}

module _ (lib : BigNumberLib) where
  open lib use {BigNumber, of_text, of_number, plus, minus, negated, abs, eq, lt}

  -- A borrow under the rates of its transaction, with the utilization of its balances.
  abbrev pub borrowed :
      ReserveData BigNumber
      → Balances BigNumber
      → InterestRates BigNumber
      → ExpectedReserve BigNumber
  borrowed before b rates =
      with_rates lib before b
        (utilization_rate_of lib b.total_stable_debt b.total_variable_debt b.total_liquidity) rates

  -- The balances at the current time after a borrow at a stable rate, under the rates of the transaction.
  abbrev pub stable_borrow_balances :
      ReserveData BigNumber
      → (available principal average_rate tx_timestamp current_timestamp : BigNumber)
      → InterestRates BigNumber
      → Balances BigNumber
  stable_borrow_balances before available principal average_rate tx_timestamp current_timestamp
        rates =
      let index = variable_borrow_index_at lib before tx_timestamp in
      let stable_debt =
        total_stable_debt_at lib principal average_rate tx_timestamp current_timestamp in
      let variable_debt =
        ray_mul lib before.scaled_variable_debt
          (normalized_debt lib rates.variable_borrow_rate index tx_timestamp current_timestamp) in
      record {
        total_liquidity = plus (plus available variable_debt) stable_debt;
        available_liquidity = available;
        total_stable_debt = stable_debt;
        total_variable_debt = variable_debt;
        principal_stable_debt = principal;
        scaled_variable_debt = before.scaled_variable_debt;
        average_stable_borrow_rate = average_rate;
        liquidity_index = liquidity_index_at lib before tx_timestamp;
        variable_borrow_index = index;
        last_update_timestamp = some tx_timestamp;
      }

  unfoldable pub reserve_after_stable_borrow :
      Dict ReserveParams
      → String
      → ReserveData BigNumber
      → BigNumber
      → BigNumber
      → Option (ExpectedReserve BigNumber)
  reserve_after_stable_borrow configuration amount before tx_timestamp current_timestamp =
      let index = variable_borrow_index_at lib before tx_timestamp in
      let available = minus before.available_liquidity (of_text amount) in
      let variable_after = ray_mul lib before.scaled_variable_debt index in
      let stable_until = stable_debt_until lib before tx_timestamp in
      let principal = plus stable_until (of_text amount) in
      let average_rate =
        average_stable_borrow_rate_after lib before.average_stable_borrow_rate stable_until
          (of_text amount) before.stable_borrow_rate in
      let utilization_after =
        utilization_rate_of lib principal variable_after
          (plus (plus available principal) variable_after) in
      map_rates lib
        (λ rates.
          borrowed before
            (stable_borrow_balances before available principal average_rate tx_timestamp
              current_timestamp rates)
            rates)
        (interest_rates lib configuration before.symbol before.market_stable_rate utilization_after
          principal variable_after average_rate)

  abbrev pub variable_borrow_balances :
      ReserveData BigNumber
      → (available scaled tx_timestamp current_timestamp : BigNumber) → InterestRates BigNumber
      → Balances BigNumber
  variable_borrow_balances before available scaled tx_timestamp current_timestamp rates =
      let index = variable_borrow_index_at lib before tx_timestamp in
      let stable_debt = stable_debt_until lib before current_timestamp in
      let variable_debt =
        ray_mul lib scaled
          (normalized_debt lib rates.variable_borrow_rate index tx_timestamp current_timestamp) in
      record {
        total_liquidity = plus (plus available stable_debt) variable_debt;
        available_liquidity = available;
        total_stable_debt = stable_debt;
        total_variable_debt = variable_debt;
        principal_stable_debt = before.principal_stable_debt;
        scaled_variable_debt = scaled;
        average_stable_borrow_rate = before.average_stable_borrow_rate;
        liquidity_index = liquidity_index_at lib before tx_timestamp;
        variable_borrow_index = index;
        last_update_timestamp = some tx_timestamp;
      }

  unfoldable pub reserve_after_variable_borrow :
      Dict ReserveParams
      → String
      → ReserveData BigNumber
      → BigNumber
      → BigNumber
      → Option (ExpectedReserve BigNumber)
  reserve_after_variable_borrow configuration amount before tx_timestamp current_timestamp =
      let index = variable_borrow_index_at lib before tx_timestamp in
      let available = minus before.available_liquidity (of_text amount) in
      let stable_after =
        stable_debt_token_balance lib before.principal_stable_debt before.average_stable_borrow_rate
          before.total_stable_debt_last_updated tx_timestamp in
      let scaled = plus before.scaled_variable_debt (ray_div lib (of_text amount) index) in
      let variable_after = ray_mul lib scaled index in
      let utilization_after =
        utilization_rate_of lib stable_after variable_after
          (plus (plus available stable_after) variable_after) in
      map_rates lib
        (λ rates.
          borrowed before
            (variable_borrow_balances before available scaled tx_timestamp current_timestamp rates)
            rates)
        (interest_rates lib configuration before.symbol before.market_stable_rate utilization_after
          stable_after variable_after before.average_stable_borrow_rate)

  unfoldable pub reserve_after_borrow :
      Dict ReserveParams
      → String
      → String
      → ReserveData BigNumber
      → BigNumber
      → BigNumber
      → Option (ExpectedReserve BigNumber)
  unfolding reserve_after_stable_borrow reserve_after_variable_borrow
  reserve_after_borrow configuration amount mode before tx_timestamp current_timestamp =
      if mode == stable_mode
      then reserve_after_stable_borrow configuration amount before tx_timestamp current_timestamp
      else reserve_after_variable_borrow configuration amount before tx_timestamp current_timestamp

  -- The largest amount, with either sign, stands for the whole debt.
  unfoldable pub repaid_amount :
      String → String → (stable_debt variable_debt : BigNumber) → BigNumber
  repaid_amount amount mode stable_debt variable_debt =
      if eq (abs (of_text amount)) (of_text max_uint_amount)
      then (if mode == stable_mode then stable_debt else variable_debt)
      else of_text amount

  pub record RepaidDebts : Type 0 where
    pub principal : BigNumber
    pub total_stable : BigNumber
    pub average_rate : BigNumber
    pub scaled_variable : BigNumber

  abbrev pub erased : BigNumber → RepaidDebts
  erased scaled = record {
    principal = of_number 0;
    total_stable = of_number 0;
    average_rate = of_number 0;
    scaled_variable = scaled;
  }

  -- A total debt or an average rate below zero comes from rounding, and is erased.
  unfoldable pub debts_after_repay :
      ReserveData BigNumber
      → UserReserveData BigNumber
      → String
      → (repaid index tx_timestamp : BigNumber) → RepaidDebts
  debts_after_repay before user mode repaid index tx_timestamp =
      let expected_debt = stable_debt_until lib before tx_timestamp in
      let left = minus expected_debt repaid in
      let average_rate =
        average_stable_borrow_rate_after lib before.average_stable_borrow_rate expected_debt
          (negated repaid) user.stable_borrow_rate in
      if mode == stable_mode
      then (if lt left (of_number 0)
          then erased before.scaled_variable_debt
          else (if lt average_rate (of_number 0)
              then erased before.scaled_variable_debt
              else record {
                principal = left;
                total_stable = left;
                average_rate = average_rate;
                scaled_variable = before.scaled_variable_debt;
              }))
      else record {
        principal = before.principal_stable_debt;
        total_stable = before.total_stable_debt;
        average_rate = before.average_stable_borrow_rate;
        scaled_variable = minus before.scaled_variable_debt (ray_div lib repaid index);
      }

  unfoldable pub reserve_after_repay :
      Dict ReserveParams
      → String
      → String
      → ReserveData BigNumber
      → UserReserveData BigNumber
      → BigNumber
      → Option (ExpectedReserve BigNumber)
  unfolding settle repaid_amount debts_after_repay
  reserve_after_repay configuration amount mode before user tx_timestamp =
      let repaid =
        repaid_amount amount mode (user_stable_debt lib user tx_timestamp)
          (user_variable_debt lib before user tx_timestamp) in
      let index = variable_borrow_index_at lib before tx_timestamp in
      let debts = debts_after_repay before user mode repaid index tx_timestamp in
      let variable_debt = ray_mul lib debts.scaled_variable index in
      let available = plus before.available_liquidity repaid in
      settle lib configuration before (record {
        total_liquidity = plus (plus available debts.total_stable) variable_debt;
        available_liquidity = available;
        total_stable_debt = debts.total_stable;
        total_variable_debt = variable_debt;
        principal_stable_debt = debts.principal;
        scaled_variable_debt = debts.scaled_variable;
        average_stable_borrow_rate = debts.average_rate;
        liquidity_index = liquidity_index_at lib before tx_timestamp;
        variable_borrow_index = index;
        last_update_timestamp = some tx_timestamp;
      })
