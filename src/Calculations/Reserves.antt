-- ===== src/Calculations/Reserves.antt =====
-- What is expected of a reserve after a deposit, a withdrawal, a swap of the rate mode and a rebalance
-- of a stable rate: helpers/utils/calculations.ts. An amount is a text.
use augmented_finance_protoc.Prelude.{String, Option, none, some, ◌==◌, if◌then◌else◌, Dict}
use augmented_finance_protoc.Reserves.Strategies.{ReserveParams}
use augmented_finance_protoc.Calculations.Math.{BigNumberLib, max_uint_amount, ray_mul, ray_div}
use augmented_finance_protoc.Calculations.Data.{ReserveData, UserReserveData, ExpectedReserve}
use augmented_finance_protoc.Calculations.Interest.{
  a_token_balance, variable_debt_token_balance, stable_debt_token_balance, total_stable_debt_at,
  average_stable_borrow_rate_after, average_stable_borrow_rate_rebalanced,
}
use augmented_finance_protoc.Calculations.Rates.{
  InterestRates, interest_rates, utilization_rate_of, liquidity_index_at, variable_borrow_index_at,
}

-- `RateMode`
abbrev pub stable_mode : String
stable_mode = "1"

abbrev pub variable_mode : String
variable_mode = "2"

-- What an action computes before the utilization and the rates.
pub record Balances (N : Type 0) : Type 0 where
  pub total_liquidity : N
  pub available_liquidity : N
  pub total_stable_debt : N
  pub total_variable_debt : N
  pub principal_stable_debt : N
  pub scaled_variable_debt : N
  pub average_stable_borrow_rate : N
  pub liquidity_index : N
  pub variable_borrow_index : N
  pub last_update_timestamp : Option N

module _ (lib : BigNumberLib) where
  open lib use {BigNumber, of_text, plus, minus, negated, to_fixed}

  abbrev pub with_rates :
      ReserveData BigNumber
      → Balances BigNumber
      → BigNumber
      → InterestRates BigNumber
      → ExpectedReserve BigNumber
  with_rates before b utilization rates = record {
    address = before.address;
    total_liquidity = b.total_liquidity;
    available_liquidity = b.available_liquidity;
    total_stable_debt = b.total_stable_debt;
    total_variable_debt = b.total_variable_debt;
    principal_stable_debt = b.principal_stable_debt;
    scaled_variable_debt = b.scaled_variable_debt;
    average_stable_borrow_rate = b.average_stable_borrow_rate;
    variable_borrow_rate = rates.variable_borrow_rate;
    stable_borrow_rate = rates.stable_borrow_rate;
    utilization_rate = utilization;
    liquidity_index = b.liquidity_index;
    variable_borrow_index = b.variable_borrow_index;
    last_update_timestamp = b.last_update_timestamp;
    liquidity_rate = rates.liquidity_rate;
  }

  abbrev pub map_rates :
      (InterestRates BigNumber → ExpectedReserve BigNumber)
      → Option (InterestRates BigNumber)
      → Option (ExpectedReserve BigNumber)
  map_rates f none = none
  map_rates f (some rates) = some (f rates)

  -- The end of these actions: the utilization of the new totals, and the rates at it.
  unfoldable pub settle :
      Dict ReserveParams
      → ReserveData BigNumber
      → Balances BigNumber
      → Option (ExpectedReserve BigNumber)
  settle configuration before b =
      let utilization =
        utilization_rate_of lib b.total_stable_debt b.total_variable_debt b.total_liquidity in
      map_rates (with_rates before b utilization) (
        interest_rates lib configuration before.symbol before.market_stable_rate utilization
          b.total_stable_debt b.total_variable_debt b.average_stable_borrow_rate)

  abbrev pub stable_debt_until : ReserveData BigNumber → BigNumber → BigNumber
  stable_debt_until before timestamp =
      total_stable_debt_at lib before.principal_stable_debt before.average_stable_borrow_rate
        before.total_stable_debt_last_updated timestamp

  abbrev pub user_stable_debt : UserReserveData BigNumber → BigNumber → BigNumber
  user_stable_debt user timestamp =
      stable_debt_token_balance lib user.principal_stable_debt user.stable_borrow_rate
        user.stable_rate_last_updated timestamp

  abbrev pub user_variable_debt :
      ReserveData BigNumber → UserReserveData BigNumber → BigNumber → BigNumber
  user_variable_debt before user timestamp =
      variable_debt_token_balance lib before.variable_borrow_rate before.variable_borrow_index
        before.last_update_timestamp user.scaled_variable_debt timestamp

  abbrev pub user_deposit :
      ReserveData BigNumber → UserReserveData BigNumber → BigNumber → BigNumber
  user_deposit before user timestamp =
      a_token_balance lib before.liquidity_rate before.liquidity_index before.last_update_timestamp
        user.scaled_a_token_balance timestamp

  unfoldable pub reserve_after_deposit :
      Dict ReserveParams
      → String
      → ReserveData BigNumber
      → BigNumber
      → Option (ExpectedReserve BigNumber)
  unfolding settle
  reserve_after_deposit configuration amount before timestamp =
      let index = variable_borrow_index_at lib before timestamp in
      settle configuration before (record {
        total_liquidity = plus before.total_liquidity (of_text amount);
        available_liquidity = plus before.available_liquidity (of_text amount);
        total_stable_debt = stable_debt_until before timestamp;
        total_variable_debt = ray_mul lib before.scaled_variable_debt index;
        principal_stable_debt = before.principal_stable_debt;
        scaled_variable_debt = before.scaled_variable_debt;
        average_stable_borrow_rate = before.average_stable_borrow_rate;
        liquidity_index = liquidity_index_at lib before timestamp;
        variable_borrow_index = index;
        last_update_timestamp = none;
      })

  -- The largest amount stands for the whole deposit of the user.
  unfoldable pub withdrawn_amount :
      String → ReserveData BigNumber → UserReserveData BigNumber → BigNumber → String
  withdrawn_amount amount before user timestamp =
      if amount == max_uint_amount then to_fixed (user_deposit before user timestamp) else amount

  unfoldable pub reserve_after_withdraw :
      Dict ReserveParams
      → String
      → ReserveData BigNumber
      → UserReserveData BigNumber
      → BigNumber
      → Option (ExpectedReserve BigNumber)
  unfolding settle withdrawn_amount
  reserve_after_withdraw configuration amount before user timestamp =
      let taken = of_text (withdrawn_amount amount before user timestamp) in
      let index = variable_borrow_index_at lib before timestamp in
      let variable_debt = ray_mul lib before.scaled_variable_debt index in
      let stable_debt = stable_debt_until before timestamp in
      settle configuration before (record {
        total_liquidity =
            plus (plus (minus before.available_liquidity taken) variable_debt) stable_debt;
        available_liquidity = minus before.available_liquidity taken;
        total_stable_debt = stable_debt;
        total_variable_debt = variable_debt;
        principal_stable_debt = before.principal_stable_debt;
        scaled_variable_debt = before.scaled_variable_debt;
        average_stable_borrow_rate = before.average_stable_borrow_rate;
        liquidity_index = liquidity_index_at lib before timestamp;
        variable_borrow_index = index;
        last_update_timestamp = none;
      })

  -- The debts of a reserve after an action.
  pub record Debts : Type 0 where
    pub stable : BigNumber
    pub scaled_variable : BigNumber
    pub average_rate : BigNumber

  unfoldable pub debts_after_swap :
      ReserveData BigNumber → UserReserveData BigNumber → String → BigNumber → BigNumber → Debts
  debts_after_swap before user mode index timestamp =
      let variable_debt = user_variable_debt before user timestamp in
      let stable_debt = user_stable_debt user timestamp in
      let total_stable = stable_debt_until before timestamp in
      if mode == stable_mode
      then record {
        stable = minus total_stable stable_debt;
        scaled_variable = plus before.scaled_variable_debt (ray_div lib stable_debt index);
        average_rate =
            average_stable_borrow_rate_after lib before.average_stable_borrow_rate
              (plus (minus total_stable stable_debt) stable_debt) (negated stable_debt)
              user.stable_borrow_rate;
      }
      else record {
        stable = plus total_stable variable_debt;
        scaled_variable = minus before.scaled_variable_debt (ray_div lib variable_debt index);
        average_rate =
            average_stable_borrow_rate_after lib before.average_stable_borrow_rate
              before.total_stable_debt variable_debt before.stable_borrow_rate;
      }

  unfoldable pub reserve_after_swap :
      Dict ReserveParams
      → ReserveData BigNumber
      → UserReserveData BigNumber
      → String
      → BigNumber
      → Option (ExpectedReserve BigNumber)
  unfolding settle debts_after_swap
  reserve_after_swap configuration before user mode timestamp =
      let index = variable_borrow_index_at lib before timestamp in
      let debts = debts_after_swap before user mode index timestamp in
      let variable_debt = ray_mul lib debts.scaled_variable index in
      settle configuration before (record {
        total_liquidity = plus (plus before.available_liquidity debts.stable) variable_debt;
        available_liquidity = before.available_liquidity;
        total_stable_debt = debts.stable;
        total_variable_debt = variable_debt;
        principal_stable_debt = debts.stable;
        scaled_variable_debt = debts.scaled_variable;
        average_stable_borrow_rate = debts.average_rate;
        liquidity_index = liquidity_index_at lib before timestamp;
        variable_borrow_index = index;
        last_update_timestamp = none;
      })

  unfoldable pub reserve_after_rebalance :
      Dict ReserveParams
      → ReserveData BigNumber
      → UserReserveData BigNumber
      → BigNumber
      → Option (ExpectedReserve BigNumber)
  unfolding settle
  reserve_after_rebalance configuration before user timestamp =
      let index = variable_borrow_index_at lib before timestamp in
      let variable_debt = ray_mul lib before.scaled_variable_debt index in
      let stable_debt = stable_debt_until before timestamp in
      let user_debt = user_stable_debt user timestamp in
      let rate_without =
        average_stable_borrow_rate_rebalanced lib before.average_stable_borrow_rate stable_debt
          (negated user_debt) user.stable_borrow_rate in
      settle configuration before (record {
        total_liquidity = plus (plus before.available_liquidity stable_debt) variable_debt;
        available_liquidity = before.available_liquidity;
        total_stable_debt = stable_debt;
        total_variable_debt = variable_debt;
        principal_stable_debt = stable_debt;
        scaled_variable_debt = before.scaled_variable_debt;
        average_stable_borrow_rate =
            average_stable_borrow_rate_rebalanced lib rate_without (minus stable_debt user_debt)
              user_debt before.stable_borrow_rate;
        liquidity_index = liquidity_index_at lib before timestamp;
        variable_borrow_index = index;
        last_update_timestamp = none;
      })
