-- ===== src/Types/ContractGetters.antt =====
-- helpers/contracts-mapper.ts: the ids that have a getter. A getter connects a contract of the type
-- of its id, so the id stands for it. An id that names a property which every JavaScript object has
-- is no id of a contract.
use augmented_finance_protoc.Prelude.{
  String, List, [], ◌∷◌, Option, none, some, if◌then◌else◌, ◌==◌, index_of, str_take,
}
use augmented_finance_protoc.Types.ContractIds.{
  ContractId, id_name, market_access_controller, addresses_provider_registry, lending_rate_oracle,
  static_price_oracle, oracle_router, protocol_data_provider, weth_gateway, proxy_admin,
  team_reward_pool, permit_freezer_reward_pool, deposit_token_impl,
  delegation_aware_deposit_token_impl, stable_debt_token_impl, variable_debt_token_impl,
  lending_pool_impl, lending_pool_configurator_impl, lending_pool_extension_impl,
  stake_configurator_impl, stake_token_impl, treasury_impl, reward_configurator_impl,
  token_weighted_reward_pool_impl, xagf_token_v1_impl, agf_token_impl, referral_reward_pool_v1_impl,
  reward_booster_impl, deposit_stake_token_impl, treasury_reward_pool,
  default_reserve_interest_rate_strategy, price_feed_compound_eth, price_feed_compound_erc20,
  price_feed_uni_eth_pair, price_feed_uni_eth_token, delegated_strategy_aave,
  delegated_strategy_compound_erc20, delegated_strategy_compound_eth,
  uniswap_liquidity_swap_adapter, uniswap_repay_adapter, flash_liquidation_adapter,
  mock_uni_eth_pair, mock_reward_freezer, mock_reward_booster, mock_deposit_token, mock_agf_token,
  mock_staked_agf_token, mock_token_locker, mock_decaying_token_locker, mock_deposit_stake_token,
  token_weighted_reward_pool_ag, mock_referral_reward_pool,
}

unfoldable pub contract_getters : List ContractId
contract_getters =
    market_access_controller ∷ addresses_provider_registry ∷ lending_rate_oracle
    ∷ static_price_oracle ∷ oracle_router ∷ protocol_data_provider ∷ weth_gateway ∷ proxy_admin
    ∷ team_reward_pool ∷ permit_freezer_reward_pool ∷ deposit_token_impl
    ∷ delegation_aware_deposit_token_impl ∷ stable_debt_token_impl ∷ variable_debt_token_impl
    ∷ lending_pool_impl ∷ lending_pool_configurator_impl ∷ lending_pool_extension_impl
    ∷ stake_configurator_impl ∷ stake_token_impl ∷ treasury_impl ∷ reward_configurator_impl
    ∷ token_weighted_reward_pool_impl ∷ xagf_token_v1_impl ∷ agf_token_impl
    ∷ referral_reward_pool_v1_impl ∷ reward_booster_impl ∷ deposit_stake_token_impl
    ∷ treasury_reward_pool ∷ default_reserve_interest_rate_strategy ∷ price_feed_compound_eth
    ∷ price_feed_compound_erc20 ∷ price_feed_uni_eth_pair ∷ price_feed_uni_eth_token
    ∷ delegated_strategy_aave ∷ delegated_strategy_compound_erc20 ∷ delegated_strategy_compound_eth
    ∷ uniswap_liquidity_swap_adapter ∷ uniswap_repay_adapter ∷ flash_liquidation_adapter
    ∷ mock_uni_eth_pair ∷ mock_reward_freezer ∷ mock_reward_booster ∷ mock_deposit_token
    ∷ mock_agf_token ∷ mock_staked_agf_token ∷ mock_token_locker ∷ mock_decaying_token_locker
    ∷ mock_deposit_stake_token ∷ token_weighted_reward_pool_ag ∷ mock_referral_reward_pool ∷ []

-- `CONTRACT_GETTERS[id]`
unfoldable pub find_getter : String → List ContractId → Option ContractId
unfolding id_name
find_getter id [] = none
find_getter id (c ∷ cs) = let rest = find_getter id cs in if id_name c == id then some c else rest

-- `none` is a getter that is `undefined`.
unfoldable pub get_contract_getter_by_id : String → Option ContractId
unfolding find_getter contract_getters index_of str_take
get_contract_getter_by_id id = elim (find_getter id contract_getters) [
  | some c ↦ some c
  | none ↦ elim (index_of 45 id) [
    | none ↦ none
    | some pos ↦ find_getter (str_take pos id) contract_getters
  ]
]
