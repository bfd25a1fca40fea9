-- ===== src/Calculations/Users.antt =====
-- What is expected of a user of a reserve after each action: helpers/utils/calculations.ts. The fields
-- `variableBorrowIndex` and `principalVariableDebt`, which no data of a user has, are left out.
use augmented_finance_protoc.Prelude.{String, true, false, Option, none, some, ◌==◌, if◌then◌else◌}
use augmented_finance_protoc.Calculations.Math.{BigNumberLib, max_uint_amount, ray_mul, ray_div}
use augmented_finance_protoc.Calculations.Data.{ReserveData, UserReserveData, ExpectedReserve}
use augmented_finance_protoc.Calculations.Interest.{
  a_token_balance, variable_debt_token_balance, stable_debt_token_balance,
  scaled_a_token_balance_after, user_stable_rate,
}
use augmented_finance_protoc.Calculations.Reserves.{
  stable_mode, user_stable_debt, user_variable_debt, user_deposit,
}
use augmented_finance_protoc.Calculations.Loans.{repaid_amount}

module _ (lib : BigNumberLib) where
  open lib use {BigNumber, of_text, of_number, nan, to_fixed_0, plus, minus, eq}

  -- An `undefined` argument of a calculation.
  abbrev or_nan : Option BigNumber → BigNumber
  or_nan none = nan
  or_nan (some n) = n

  -- The principal of the stable debt is assigned three times, the last time the variable debt.
  unfoldable pub user_after_deposit :
      String
      → ReserveData BigNumber
      → ReserveData BigNumber
      → UserReserveData BigNumber
      → BigNumber
      → UserReserveData BigNumber
  user_after_deposit amount before after user timestamp =
      let variable_debt = user_variable_debt lib before user timestamp in
      record {
        scaled_a_token_balance =
            scaled_a_token_balance_after lib user.scaled_a_token_balance after.liquidity_index
              (of_text amount) (of_number 0);
        current_a_token_balance = plus (user_deposit lib before user timestamp) (of_text amount);
        current_stable_debt = user_stable_debt lib user timestamp;
        current_variable_debt = variable_debt;
        principal_stable_debt = variable_debt;
        scaled_variable_debt = user.scaled_variable_debt;
        liquidity_rate = after.liquidity_rate;
        stable_borrow_rate = user.stable_borrow_rate;
        stable_rate_last_updated = user.stable_rate_last_updated;
        usage_as_collateral_enabled =
            if eq user.current_a_token_balance (of_number 0)
            then true
            else user.usage_as_collateral_enabled;
        wallet_balance = minus user.wallet_balance (of_text amount);
      }

  unfoldable pub user_after_withdraw :
      String
      → ReserveData BigNumber
      → ReserveData BigNumber
      → UserReserveData BigNumber
      → BigNumber
      → UserReserveData BigNumber
  user_after_withdraw amount before after user timestamp =
      let deposit = user_deposit lib before user timestamp in
      let taken = of_text (if amount == max_uint_amount then to_fixed_0 deposit else amount) in
      let balance = minus deposit taken in
      record {
        scaled_a_token_balance =
            scaled_a_token_balance_after lib user.scaled_a_token_balance after.liquidity_index
              (of_number 0) taken;
        current_a_token_balance = balance;
        current_stable_debt = user_stable_debt lib user timestamp;
        current_variable_debt = user_variable_debt lib before user timestamp;
        principal_stable_debt = user.principal_stable_debt;
        scaled_variable_debt = user.scaled_variable_debt;
        liquidity_rate = after.liquidity_rate;
        stable_borrow_rate = user.stable_borrow_rate;
        stable_rate_last_updated = user.stable_rate_last_updated;
        usage_as_collateral_enabled =
            if eq user.current_a_token_balance (of_number 0)
            then true
            else (if eq balance (of_number 0) then false else user.usage_as_collateral_enabled);
        wallet_balance = plus user.wallet_balance taken;
      }

  -- The stable part of a user after a borrow.
  pub record StablePart : Type 0 where
    pub current : BigNumber
    pub principal : BigNumber
    pub rate : BigNumber
    pub last_updated : BigNumber
    pub scaled_variable : BigNumber

  unfoldable pub borrowed_part :
      String
      → String
      → ReserveData BigNumber
      → ExpectedReserve BigNumber
      → UserReserveData BigNumber
      → (tx_timestamp current_timestamp : BigNumber) → StablePart
  borrowed_part amount mode before expected user tx_timestamp current_timestamp =
      let until = user_stable_debt lib user tx_timestamp in
      let principal = plus until (of_text amount) in
      let rate =
        user_stable_rate lib until user.stable_borrow_rate (of_text amount)
          before.stable_borrow_rate in
      if mode == stable_mode
      then record {
        current = stable_debt_token_balance lib principal rate tx_timestamp current_timestamp;
        principal = principal;
        rate = rate;
        last_updated = tx_timestamp;
        scaled_variable = user.scaled_variable_debt;
      }
      else record {
        current = user_stable_debt lib user current_timestamp;
        principal = user.principal_stable_debt;
        rate = user.stable_borrow_rate;
        last_updated = user.stable_rate_last_updated;
        scaled_variable =
            plus before.scaled_variable_debt
              (ray_div lib (of_text amount) expected.variable_borrow_index);
      }

  unfoldable pub user_after_borrow :
      String
      → String
      → ReserveData BigNumber
      → ExpectedReserve BigNumber
      → UserReserveData BigNumber
      → (tx_timestamp current_timestamp : BigNumber) → UserReserveData BigNumber
  unfolding borrowed_part
  user_after_borrow amount mode before expected user tx_timestamp current_timestamp =
      let part = borrowed_part amount mode before expected user tx_timestamp current_timestamp in
      let updated = or_nan expected.last_update_timestamp in
      record {
        scaled_a_token_balance = user.scaled_a_token_balance;
        current_a_token_balance =
            a_token_balance lib expected.liquidity_rate expected.liquidity_index updated
              user.scaled_a_token_balance current_timestamp;
        current_stable_debt = part.current;
        current_variable_debt =
            variable_debt_token_balance lib expected.variable_borrow_rate
              expected.variable_borrow_index updated part.scaled_variable current_timestamp;
        principal_stable_debt = part.principal;
        scaled_variable_debt = part.scaled_variable;
        liquidity_rate = expected.liquidity_rate;
        stable_borrow_rate = part.rate;
        stable_rate_last_updated = part.last_updated;
        usage_as_collateral_enabled = user.usage_as_collateral_enabled;
        wallet_balance = plus user.wallet_balance (of_text amount);
      }

  -- The debts of a user after a repayment; in the variable mode the stable debt with its interest is
  -- the principal, and the principal before is the current debt.
  pub record RepaidPart : Type 0 where
    pub current_stable : BigNumber
    pub principal : BigNumber
    pub rate : BigNumber
    pub last_updated : BigNumber
    pub scaled_variable : BigNumber
    pub current_variable : BigNumber

  unfoldable pub repaid_part :
      String
      → ExpectedReserve BigNumber
      → UserReserveData BigNumber
      → (repaid stable_debt variable_debt tx_timestamp : BigNumber) → RepaidPart
  repaid_part mode expected user repaid stable_debt variable_debt tx_timestamp =
      let left = minus stable_debt repaid in
      let scaled =
        minus user.scaled_variable_debt (ray_div lib repaid expected.variable_borrow_index) in
      if mode == stable_mode
      then record {
        current_stable = left;
        principal = left;
        rate = if eq left (of_text "0") then of_text "0" else user.stable_borrow_rate;
        last_updated = if eq left (of_text "0") then of_text "0" else tx_timestamp;
        scaled_variable = user.scaled_variable_debt;
        current_variable = variable_debt;
      }
      else record {
        current_stable = user.principal_stable_debt;
        principal = stable_debt;
        rate = user.stable_borrow_rate;
        last_updated = user.stable_rate_last_updated;
        scaled_variable = scaled;
        current_variable = ray_mul lib scaled expected.variable_borrow_index;
      }

  -- `payer` is `user` of the source, `on_behalf_of` whose debt is repaid.
  unfoldable pub user_after_repay :
      String
      → String
      → ReserveData BigNumber
      → ExpectedReserve BigNumber
      → UserReserveData BigNumber
      → (payer on_behalf_of : String) → (tx_timestamp current_timestamp : BigNumber)
      → UserReserveData BigNumber
  unfolding repaid_amount repaid_part
  user_after_repay amount mode before expected user payer on_behalf_of tx_timestamp
        current_timestamp =
      let stable_debt = user_stable_debt lib user current_timestamp in
      let variable_debt = user_variable_debt lib before user current_timestamp in
      let repaid = repaid_amount lib amount mode stable_debt variable_debt in
      let part = repaid_part mode expected user repaid stable_debt variable_debt tx_timestamp in
      record {
        scaled_a_token_balance = user.scaled_a_token_balance;
        current_a_token_balance = user_deposit lib before user tx_timestamp;
        current_stable_debt = part.current_stable;
        current_variable_debt = part.current_variable;
        principal_stable_debt = part.principal;
        scaled_variable_debt = part.scaled_variable;
        liquidity_rate = expected.liquidity_rate;
        stable_borrow_rate = part.rate;
        stable_rate_last_updated = part.last_updated;
        usage_as_collateral_enabled = user.usage_as_collateral_enabled;
        wallet_balance =
            if payer == on_behalf_of then minus user.wallet_balance repaid else user.wallet_balance;
      }
