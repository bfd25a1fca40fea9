-- ===== src/Types/ProtocolErrors.antt =====
-- The enum `ProtocolErrors` of helpers/types.ts: what the contracts revert with.
use augmented_finance_protoc.Prelude.{String}

pub data ProtocolError : Type 0 where
  vl_invalid_amount : ProtocolError
  vl_no_active_reserve : ProtocolError
  vl_reserve_frozen : ProtocolError
  vl_not_enough_available_user_balance : ProtocolError
  vl_transfer_not_allowed : ProtocolError
  vl_borrowing_not_enabled : ProtocolError
  vl_invalid_interest_rate_mode_selected : ProtocolError
  vl_collateral_balance_is_0 : ProtocolError
  vl_health_factor_lower_than_liquidation_threshold : ProtocolError
  vl_collateral_cannot_cover_new_borrow : ProtocolError
  vl_stable_borrowing_not_enabled : ProtocolError
  vl_collateral_same_as_borrowing_currency : ProtocolError
  vl_amount_bigger_than_max_loan_size_stable : ProtocolError
  vl_no_debt_of_selected_type : ProtocolError
  vl_no_explicit_amount_to_repay_on_behalf : ProtocolError
  vl_no_stable_rate_loan_in_reserve : ProtocolError
  vl_no_variable_rate_loan_in_reserve : ProtocolError
  vl_underlying_balance_not_greater_than_0 : ProtocolError
  vl_deposit_already_in_use : ProtocolError
  lp_interest_rate_rebalance_conditions_not_met : ProtocolError
  at_overdraft_disabled : ProtocolError
  vl_invalid_sub_balance_args : ProtocolError
  lp_caller_not_lending_pool_configurator : ProtocolError
  ct_caller_must_be_lending_pool : ProtocolError
  at_caller_not_sub_balance_operator : ProtocolError
  rl_reserve_already_initialized : ProtocolError
  caller_not_pool_admin : ProtocolError
  lpc_reserve_liquidity_not_0 : ProtocolError
  lpapr_provider_not_registered : ProtocolError
  lpcm_health_factor_not_below_threshold : ProtocolError
  lpcm_collateral_cannot_be_liquidated : ProtocolError
  lpcm_specified_currency_not_borrowed_by_user : ProtocolError
  lpcm_not_enough_liquidity_to_liquidate : ProtocolError
  math_multiplication_overflow : ProtocolError
  math_addition_overflow : ProtocolError
  math_division_by_zero : ProtocolError
  rl_liquidity_index_overflow : ProtocolError
  rl_variable_borrow_index_overflow : ProtocolError
  rl_liquidity_rate_overflow : ProtocolError
  rl_variable_borrow_rate_overflow : ProtocolError
  rl_stable_borrow_rate_overflow : ProtocolError
  ct_invalid_mint_amount : ProtocolError
  caller_not_stake_admin : ProtocolError
  ct_invalid_burn_amount : ProtocolError
  lp_borrow_allowance_not_enough : ProtocolError
  caller_not_liquidity_controller : ProtocolError
  caller_not_ref_admin : ProtocolError
  vl_insufficient_reward_available : ProtocolError
  lp_caller_must_be_deposit_token : ProtocolError
  lp_is_paused : ProtocolError
  lp_no_more_reserves_allowed : ProtocolError
  lp_invalid_flash_loan_executor_return : ProtocolError
  rc_invalid_ltv : ProtocolError
  rc_invalid_liq_threshold : ProtocolError
  rc_invalid_liq_bonus : ProtocolError
  rc_invalid_decimals : ProtocolError
  rc_invalid_reserve_factor : ProtocolError
  lpapr_invalid_addresses_provider_id : ProtocolError
  vl_inconsistent_flashloan_params : ProtocolError
  lpc_invalid_configuration : ProtocolError
  caller_not_emergency_admin : ProtocolError
  ul_invalid_index : ProtocolError
  lp_not_contract : ProtocolError
  sdt_stable_debt_overflow : ProtocolError
  sdt_burn_exceeds_balance : ProtocolError
  ct_caller_must_be_reward_admin : ProtocolError
  lp_invalid_percentage : ProtocolError
  lp_is_not_trusted_flashloan : ProtocolError
  ct_caller_must_be_sweep_admin : ProtocolError
  lp_flash_loan_restricted : ProtocolError
  ct_pump_dump_protection : ProtocolError
  lp_too_many_flashloan_calls : ProtocolError
  rw_baseline_exceeded : ProtocolError
  rw_not_reward_rate_admin : ProtocolError
  rw_not_reward_controller : ProtocolError
  rw_reward_paused : ProtocolError
  rw_not_team_manager : ProtocolError
  stk_redeem_paused : ProtocolError
  stk_insufficient_cooldown : ProtocolError
  stk_unstake_window_finished : ProtocolError
  stk_invalid_balance_on_cooldown : ProtocolError
  stk_excessive_slash_pct : ProtocolError
  stk_wrong_cooldown_or_unstake : ProtocolError
  stk_paused : ProtocolError
  txt_ownable_caller_not_owner : ProtocolError
  txt_caller_not_proxy_owner : ProtocolError
  txt_access_restricted : ProtocolError
  invalid_from_balance_after_transfer : ProtocolError
  invalid_to_balance_after_transfer : ProtocolError
  invalid_owner_revert_msg : ProtocolError
  invalid_hf : ProtocolError
  transfer_amount_exceeds_balance : ProtocolError
  safeerc20_lowlevel_call : ProtocolError

unfoldable pub code : ProtocolError → String
code vl_invalid_amount = "1"
code vl_no_active_reserve = "2"
code vl_reserve_frozen = "3"
code vl_not_enough_available_user_balance = "5"
code vl_transfer_not_allowed = "6"
code vl_borrowing_not_enabled = "7"
code vl_invalid_interest_rate_mode_selected = "8"
code vl_collateral_balance_is_0 = "9"
code vl_health_factor_lower_than_liquidation_threshold = "10"
code vl_collateral_cannot_cover_new_borrow = "11"
code vl_stable_borrowing_not_enabled = "12"
code vl_collateral_same_as_borrowing_currency = "13"
code vl_amount_bigger_than_max_loan_size_stable = "14"
code vl_no_debt_of_selected_type = "15"
code vl_no_explicit_amount_to_repay_on_behalf = "16"
code vl_no_stable_rate_loan_in_reserve = "17"
code vl_no_variable_rate_loan_in_reserve = "18"
code vl_underlying_balance_not_greater_than_0 = "19"
code vl_deposit_already_in_use = "20"
code lp_interest_rate_rebalance_conditions_not_met = "22"
code at_overdraft_disabled = "23"
code vl_invalid_sub_balance_args = "24"
code lp_caller_not_lending_pool_configurator = "27"
code ct_caller_must_be_lending_pool = "29"
code at_caller_not_sub_balance_operator = "30"
code rl_reserve_already_initialized = "32"
code caller_not_pool_admin = "33"
code lpc_reserve_liquidity_not_0 = "34"
code lpapr_provider_not_registered = "41"
code lpcm_health_factor_not_below_threshold = "42"
code lpcm_collateral_cannot_be_liquidated = "43"
code lpcm_specified_currency_not_borrowed_by_user = "44"
code lpcm_not_enough_liquidity_to_liquidate = "45"
code math_multiplication_overflow = "48"
code math_addition_overflow = "49"
code math_division_by_zero = "50"
code rl_liquidity_index_overflow = "51"
code rl_variable_borrow_index_overflow = "52"
code rl_liquidity_rate_overflow = "53"
code rl_variable_borrow_rate_overflow = "54"
code rl_stable_borrow_rate_overflow = "55"
code ct_invalid_mint_amount = "56"
code caller_not_stake_admin = "57"
code ct_invalid_burn_amount = "58"
code lp_borrow_allowance_not_enough = "59"
code caller_not_liquidity_controller = "60"
code caller_not_ref_admin = "61"
code vl_insufficient_reward_available = "62"
code lp_caller_must_be_deposit_token = "63"
code lp_is_paused = "64"
code lp_no_more_reserves_allowed = "65"
code lp_invalid_flash_loan_executor_return = "66"
code rc_invalid_ltv = "67"
code rc_invalid_liq_threshold = "68"
code rc_invalid_liq_bonus = "69"
code rc_invalid_decimals = "70"
code rc_invalid_reserve_factor = "71"
code lpapr_invalid_addresses_provider_id = "72"
code vl_inconsistent_flashloan_params = "73"
code lpc_invalid_configuration = "75"
code caller_not_emergency_admin = "76"
code ul_invalid_index = "77"
code lp_not_contract = "78"
code sdt_stable_debt_overflow = "79"
code sdt_burn_exceeds_balance = "80"
code ct_caller_must_be_reward_admin = "81"
code lp_invalid_percentage = "82"
code lp_is_not_trusted_flashloan = "83"
code ct_caller_must_be_sweep_admin = "84"
code lp_flash_loan_restricted = "85"
code ct_pump_dump_protection = "86"
code lp_too_many_flashloan_calls = "87"
code rw_baseline_exceeded = "88"
code rw_not_reward_rate_admin = "89"
code rw_not_reward_controller = "90"
code rw_reward_paused = "91"
code rw_not_team_manager = "92"
code stk_redeem_paused = "93"
code stk_insufficient_cooldown = "94"
code stk_unstake_window_finished = "95"
code stk_invalid_balance_on_cooldown = "96"
code stk_excessive_slash_pct = "97"
code stk_wrong_cooldown_or_unstake = "98"
code stk_paused = "99"
code txt_ownable_caller_not_owner = "Ownable: caller is not the owner"
code txt_caller_not_proxy_owner = "ProxyOwner: caller is not the owner"
code txt_access_restricted = "RESTRICTED"
code invalid_from_balance_after_transfer = "Invalid from balance after transfer"
code invalid_to_balance_after_transfer = "Invalid from balance after transfer"
code invalid_owner_revert_msg = "Ownable: caller is not the owner"
code invalid_hf = "Invalid health factor"
code transfer_amount_exceeds_balance = "ERC20: transfer amount exceeds balance"
code safeerc20_lowlevel_call = "SafeERC20: low-level call failed"
