-- ===== src/Calculations/Interest.antt =====
-- The interest of helpers/utils/calculations.ts, and the balances and indices that grow by it. A
-- function that reads some fields of a reserve or of a user takes those fields.
use augmented_finance_protoc.Prelude.{◌||◌, if◌then◌else◌}
use augmented_finance_protoc.Calculations.Math.{
  BigNumberLib, ray_text, one_year, ray_mul, ray_div, wad_to_ray,
}

module _ (lib : BigNumberLib) where
  open lib use {BigNumber, of_text, of_number, plus, minus, times, div, round_down, eq, gt}

  unfoldable pub calc_linear_interest : BigNumber → BigNumber → BigNumber → BigNumber
  calc_linear_interest rate current_timestamp last_update_timestamp =
      let time_difference = minus current_timestamp last_update_timestamp in
      plus (div (times rate time_difference) (of_text one_year)) (of_text ray_text)

  unfoldable pub calc_compounded_interest : BigNumber → BigNumber → BigNumber → BigNumber
  unfolding ray_mul
  calc_compounded_interest rate current_timestamp last_update_timestamp =
      let time_difference = minus current_timestamp last_update_timestamp in
      let exp_minus_one = minus time_difference (of_number 1) in
      let exp_minus_two =
        if gt time_difference (of_number 2)
        then minus time_difference (of_number 2)
        else of_number 0 in
      let rate_per_second = div rate (of_text one_year) in
      let base_power_two = ray_mul lib rate_per_second rate_per_second in
      let base_power_three = ray_mul lib base_power_two rate_per_second in
      let second_term =
        div (times (times time_difference exp_minus_one) base_power_two) (of_number 2) in
      let third_term =
        div (times (times (times time_difference exp_minus_one) exp_minus_two) base_power_three)
          (of_number 6) in
      if eq time_difference (of_number 0)
      then of_text ray_text
      else plus (plus (plus (of_text ray_text) (times rate_per_second time_difference)) second_term)
          third_term

  unfoldable pub normalized_income : (rate index last_update current : BigNumber) → BigNumber
  unfolding calc_linear_interest ray_mul
  normalized_income rate index last_update current =
      if eq rate (of_number 0)
      then index
      else ray_mul lib (calc_linear_interest rate current last_update) index

  unfoldable pub normalized_debt : (rate index last_update current : BigNumber) → BigNumber
  unfolding calc_compounded_interest ray_mul
  normalized_debt rate index last_update current =
      if eq rate (of_number 0)
      then index
      else ray_mul lib (calc_compounded_interest rate current last_update) index

  -- `calcExpectedATokenBalance`, of the rate, index and time of a reserve and the balance of a user.
  unfoldable pub a_token_balance :
      (rate index last_update scaled_balance current : BigNumber) → BigNumber
  unfolding normalized_income ray_mul
  a_token_balance rate index last_update scaled_balance current =
      ray_mul lib scaled_balance (normalized_income rate index last_update current)

  unfoldable pub variable_debt_token_balance :
      (rate index last_update scaled_debt current : BigNumber) → BigNumber
  unfolding normalized_debt ray_mul
  variable_debt_token_balance rate index last_update scaled_debt current =
      ray_mul lib scaled_debt (normalized_debt rate index last_update current)

  unfoldable pub stable_debt_token_balance :
      (principal rate last_updated current : BigNumber) → BigNumber
  unfolding calc_compounded_interest ray_mul
  stable_debt_token_balance principal rate last_updated current =
      if (eq rate (of_number 0) || eq current last_updated) || eq last_updated (of_number 0)
      then principal
      else ray_mul lib principal (calc_compounded_interest rate current last_updated)

  unfoldable pub total_stable_debt_at : (principal rate last_update current : BigNumber) → BigNumber
  unfolding calc_compounded_interest ray_mul
  total_stable_debt_at principal rate last_update current =
      ray_mul lib (calc_compounded_interest rate current last_update) principal

  -- `calcExpectedScaledATokenBalance`
  unfoldable pub scaled_a_token_balance_after :
      (scaled_balance index added taken : BigNumber) → BigNumber
  unfolding ray_div
  scaled_a_token_balance_after scaled_balance index added taken =
      minus (plus scaled_balance (ray_div lib added index)) (ray_div lib taken index)

  unfoldable pub average_stable_borrow_rate_after :
      (rate_before debt_before changed rate : BigNumber) → BigNumber
  average_stable_borrow_rate_after rate_before debt_before changed rate =
      let weighted_total = times rate_before debt_before in
      let weighted_amount = times rate changed in
      let total = plus debt_before changed in
      if eq total (of_number 0)
      then of_text "0"
      else round_down (div (plus weighted_total weighted_amount) total)

  unfoldable pub average_stable_borrow_rate_rebalanced :
      (rate_before debt_before changed rate : BigNumber) → BigNumber
  unfolding ray_mul ray_div wad_to_ray
  average_stable_borrow_rate_rebalanced rate_before debt_before changed rate =
      let weighted_total = ray_mul lib rate_before debt_before in
      let weighted_amount = ray_mul lib rate (wad_to_ray lib changed) in
      let total = plus debt_before (wad_to_ray lib changed) in
      if eq total (of_number 0)
      then of_text "0"
      else round_down (ray_div lib (plus weighted_total weighted_amount) total)

  unfoldable pub user_stable_rate :
      (balance_before rate_before amount rate_new : BigNumber) → BigNumber
  user_stable_rate balance_before rate_before amount rate_new =
      div (plus (times balance_before rate_before) (times amount rate_new))
        (plus balance_before amount)
