-- ===== src/Types/ContractIds.antt =====
-- The enum `eContractid` of helpers/types.ts.
use augmented_finance_protoc.Prelude.{String}

pub data ContractId : Type 0 where
  market_access_controller : ContractId
  pre_deployed_market_access_controller : ContractId
  addresses_provider_registry : ContractId
  validation_logic : ContractId
  reserve_logic : ContractId
  generic_logic : ContractId
  lending_rate_oracle : ContractId
  static_price_oracle : ContractId
  oracle_router : ContractId
  protocol_data_provider : ContractId
  weth_gateway : ContractId
  team_reward_pool : ContractId
  permit_freezer_reward_pool : ContractId
  proxy_admin : ContractId
  deposit_token_impl : ContractId
  delegation_aware_deposit_token_impl : ContractId
  stable_debt_token_impl : ContractId
  variable_debt_token_impl : ContractId
  lending_pool_impl : ContractId
  lending_pool_configurator_impl : ContractId
  lending_pool_extension_impl : ContractId
  stake_configurator_impl : ContractId
  stake_token_impl : ContractId
  treasury_impl : ContractId
  reward_configurator_impl : ContractId
  token_weighted_reward_pool_impl : ContractId
  xagf_token_v1_impl : ContractId
  agf_token_impl : ContractId
  referral_reward_pool_v1_impl : ContractId
  reward_booster_impl : ContractId
  treasury_reward_pool : ContractId
  deposit_stake_token_impl : ContractId
  mock_deposit_stake_token : ContractId
  mock_uni_eth_pair : ContractId
  delegated_strategy_aave : ContractId
  delegated_strategy_compound_erc20 : ContractId
  delegated_strategy_compound_eth : ContractId
  uniswap_liquidity_swap_adapter : ContractId
  uniswap_repay_adapter : ContractId
  flash_liquidation_adapter : ContractId
  default_reserve_interest_rate_strategy : ContractId
  price_feed_compound_eth : ContractId
  price_feed_compound_erc20 : ContractId
  price_feed_uni_eth_pair : ContractId
  price_feed_uni_eth_token : ContractId
  mock_treasury_reward_pool : ContractId
  mock_reward_freezer : ContractId
  mock_reward_booster : ContractId
  mock_price_oracle : ContractId
  mock_aggregator : ContractId
  mock_flash_loan_receiver : ContractId
  mock_deposit_token : ContractId
  mock_stable_debt_token : ContractId
  mock_variable_debt_token : ContractId
  mock_agf_token : ContractId
  mock_staked_agf_token : ContractId
  weth_mocked : ContractId
  mock_uniswap_v2_router02 : ContractId
  mock_token_locker : ContractId
  mock_decaying_token_locker : ContractId
  mock_delegation_aware_deposit_token : ContractId
  mock_mintable_erc20 : ContractId
  mock_mintable_delegation_erc20 : ContractId
  token_weighted_reward_pool_agf_separate : ContractId
  token_weighted_reward_pool_agf_boosted : ContractId
  token_weighted_reward_pool_ag : ContractId
  token_weighted_reward_pool_ag_boosted : ContractId
  token_weighted_reward_pool_agusdc_boosted : ContractId
  mock_referral_reward_pool : ContractId
  mock_default_reserve_interest_rate_strategy : ContractId
  mock_stake_token : ContractId

unfoldable pub id_name : ContractId → String
id_name market_access_controller = "MarketAccessController"
id_name pre_deployed_market_access_controller = "~MarketAccessController"
id_name addresses_provider_registry = "AddressesProviderRegistry"
id_name validation_logic = "ValidationLogic"
id_name reserve_logic = "ReserveLogic"
id_name generic_logic = "GenericLogic"
id_name lending_rate_oracle = "LendingRateOracle"
id_name static_price_oracle = "StaticPriceOracle"
id_name oracle_router = "OracleRouter"
id_name protocol_data_provider = "ProtocolDataProvider"
id_name weth_gateway = "WETHGateway"
id_name team_reward_pool = "TeamRewardPool"
id_name permit_freezer_reward_pool = "PermitFreezerRewardPool"
id_name proxy_admin = "ProxyAdmin"
id_name deposit_token_impl = "DepositTokenImpl"
id_name delegation_aware_deposit_token_impl = "DelegationAwareDepositTokenImpl"
id_name stable_debt_token_impl = "StableDebtTokenImpl"
id_name variable_debt_token_impl = "VariableDebtTokenImpl"
id_name lending_pool_impl = "LendingPoolImpl"
id_name lending_pool_configurator_impl = "LendingPoolConfiguratorImpl"
id_name lending_pool_extension_impl = "LendingPoolExtensionImpl"
id_name stake_configurator_impl = "StakeConfiguratorImpl"
id_name stake_token_impl = "StakeTokenImpl"
id_name treasury_impl = "TreasuryImpl"
id_name reward_configurator_impl = "RewardConfiguratorImpl"
id_name token_weighted_reward_pool_impl = "TokenWeightedRewardPoolImpl"
id_name xagf_token_v1_impl = "XAGFTokenV1Impl"
id_name agf_token_impl = "AGFTokenImpl"
id_name referral_reward_pool_v1_impl = "ReferralRewardPoolV1Impl"
id_name reward_booster_impl = "RewardBoosterImpl"
id_name treasury_reward_pool = "TreasuryRewardPool"
id_name deposit_stake_token_impl = "DepositStakeTokenImpl"
id_name mock_deposit_stake_token = "MockDepositStakeToken"
id_name mock_uni_eth_pair = "MockUniEthPair"
id_name delegated_strategy_aave = "DelegatedStrategyAave"
id_name delegated_strategy_compound_erc20 = "DelegatedStrategyCompoundErc20"
id_name delegated_strategy_compound_eth = "DelegatedStrategyCompoundEth"
id_name uniswap_liquidity_swap_adapter = "UniswapLiquiditySwapAdapter"
id_name uniswap_repay_adapter = "UniswapRepayAdapter"
id_name flash_liquidation_adapter = "FlashLiquidationAdapter"
id_name default_reserve_interest_rate_strategy = "DefaultReserveInterestRateStrategy"
id_name price_feed_compound_eth = "PriceFeedCompoundEth"
id_name price_feed_compound_erc20 = "PriceFeedCompoundErc20"
id_name price_feed_uni_eth_pair = "PriceFeedUniEthPair"
id_name price_feed_uni_eth_token = "PriceFeedUniEthToken"
id_name mock_treasury_reward_pool = "MockTreasuryRewardPool"
id_name mock_reward_freezer = "MockRewardFreezer"
id_name mock_reward_booster = "MockRewardBooster"
id_name mock_price_oracle = "MockPriceOracle"
id_name mock_aggregator = "MockAggregator"
id_name mock_flash_loan_receiver = "MockFlashLoanReceiver"
id_name mock_deposit_token = "MockDepositToken"
id_name mock_stable_debt_token = "MockStableDebtToken"
id_name mock_variable_debt_token = "MockVariableDebtToken"
id_name mock_agf_token = "MockAgfToken"
id_name mock_staked_agf_token = "MockStakedAgfToken"
id_name weth_mocked = "MockWETH"
id_name mock_uniswap_v2_router02 = "MockUniswapV2Router02"
id_name mock_token_locker = "MockTokenLocker"
id_name mock_decaying_token_locker = "MockDecayingTokenLocker"
id_name mock_delegation_aware_deposit_token = "MockDelegationAwareDepositToken"
id_name mock_mintable_erc20 = "MockMintableERC20"
id_name mock_mintable_delegation_erc20 = "MockMintableDelegationERC20"
id_name token_weighted_reward_pool_agf_separate = "MockRewardPoolAGFSeparate"
id_name token_weighted_reward_pool_agf_boosted = "MockRewardPoolAGFBoosted"
id_name token_weighted_reward_pool_ag = "MockRewardPoolAG"
id_name token_weighted_reward_pool_ag_boosted = "MockRewardPoolAGBoosted"
id_name token_weighted_reward_pool_agusdc_boosted = "MockRewardPoolAGUSDCBoosted"
id_name mock_referral_reward_pool = "MockReferralRewardPool"
id_name mock_default_reserve_interest_rate_strategy = "MockDefaultReserveInterestRateStrategy"
id_name mock_stake_token = "MockStakeToken"
