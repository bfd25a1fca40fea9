-- ===== src/Calculations/Data.antt =====
-- helpers/utils/interfaces/index.ts: the data of a reserve and of a user of it, over numbers `N`.
use augmented_finance_protoc.Prelude.{String, Bool, Option}

module _ (N : Type 0) where
  pub record UserReserveData : Type 0 where
    pub scaled_a_token_balance : N
    pub current_a_token_balance : N
    pub current_stable_debt : N
    pub current_variable_debt : N
    pub principal_stable_debt : N
    pub scaled_variable_debt : N
    pub liquidity_rate : N
    pub stable_borrow_rate : N
    pub stable_rate_last_updated : N
    pub usage_as_collateral_enabled : Bool
    pub wallet_balance : N

  pub record ReserveData : Type 0 where
    pub address : String
    pub symbol : String
    pub decimals : N
    pub total_liquidity : N
    pub available_liquidity : N
    pub total_stable_debt : N
    pub total_variable_debt : N
    pub principal_stable_debt : N
    pub scaled_variable_debt : N
    pub average_stable_borrow_rate : N
    pub variable_borrow_rate : N
    pub stable_borrow_rate : N
    pub utilization_rate : N
    pub liquidity_index : N
    pub variable_borrow_index : N
    pub deposit_token_address : String
    pub market_stable_rate : N
    pub last_update_timestamp : N
    pub total_stable_debt_last_updated : N
    pub liquidity_rate : N

  -- The fields that are assigned to an expected `ReserveData`: the others stay `undefined`, and
  -- `lastUpdateTimestamp` is assigned by two of the actions.
  pub record ExpectedReserve : Type 0 where
    pub address : String
    pub total_liquidity : N
    pub available_liquidity : N
    pub total_stable_debt : N
    pub total_variable_debt : N
    pub principal_stable_debt : N
    pub scaled_variable_debt : N
    pub average_stable_borrow_rate : N
    pub variable_borrow_rate : N
    pub stable_borrow_rate : N
    pub utilization_rate : N
    pub liquidity_index : N
    pub variable_borrow_index : N
    pub last_update_timestamp : Option N
    pub liquidity_rate : N
