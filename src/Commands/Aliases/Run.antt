-- ===== src/Commands/Aliases/Run.antt =====
-- What each alias does, and `parseCommand` itself (tasks/helpers/call-cmd.ts).
use augmented_finance_protoc.Prelude.{
  String, false, List, [], ◌∷◌, ◌++◌, none, some, Act, throw, ◌>>=◌, ◌<>◌, get_elem?, drop, map,
  index_of, lookup,
}
use augmented_finance_protoc.Types.ContractIds.{
  id_name, stake_configurator_impl, oracle_router, static_price_oracle, reward_booster_impl,
  referral_reward_pool_v1_impl, treasury_impl, reward_configurator_impl,
}
use augmented_finance_protoc.Access.Flags.{
  flag_value, number, stake_configurator, stake_admin, price_oracle, oracle_admin,
  reward_config_admin, reward_controller, reward_rate_admin, referral_registry, referral_admin,
  treasury, treasury_admin, reward_configurator,
}
use augmented_finance_protoc.Commands.Session.{
  text, texts, fields, Role, flag, Session, remote, call_contract,
}
use augmented_finance_protoc.Commands.Objects.{qualified_name, call_qualified_func}
use augmented_finance_protoc.Commands.Tokens.{
  get_token_list, find_token, get_reward_pool_by_name, prepare_pool_names_and_values,
}
use augmented_finance_protoc.Commands.Aliases.{
  Alias, set_cooldown_for_all, get_price, get_price_source, set_price_source, set_static_price,
  add_reward_provider, set_meltdown, set_mint_rate, set_mint_rate_and_shares, set_boost_factors,
  register_ref_code, transfer_from_treasury, set_claimable_pools, upgrade_reward_pool,
  upgrade_stake_token, cmd_aliases, Market, text_or_undefined, or_zero_address, of_result, arg,
  call_alias, price_tokens, ask_oracle, split_two, get_named_pool_addr, prepare_mint_rate,
  meltdown_timestamp, share_value, factor_of, changed, set_factors, pool_contract, set_shares,
}

module _ {W : Type 0} (m : Market W) where
  unfoldable pub run_alias : Alias → List String → Act (Session W) (Unit {0})
  unfolding call_alias ask_oracle split_two price_tokens get_named_pool_addr prepare_mint_rate
      meltdown_timestamp share_value changed set_factors set_shares arg call_contract
      call_qualified_func get_reward_pool_by_name prepare_pool_names_and_values find_token
      get_token_list qualified_name id_name flag_value
  run_alias set_cooldown_for_all args =
      call_alias m stake_configurator_impl stake_configurator "setCooldownForAll" (map text args)
        (some stake_admin)
  run_alias get_price args = ask_oracle m "getAssetsPrices" "getAssetPrice" args
  run_alias get_price_source args = ask_oracle m "getAssetSources" "getSourceOfAsset" args
  run_alias set_price_source args = do
    tokens ← price_tokens m (split_two args).0
    call_alias m oracle_router price_oracle "setAssetSources"
        (texts tokens ∷ texts (split_two args).1 ∷ []) (some oracle_admin)
  run_alias set_static_price args = do
    oracle ← remote m.fallback_oracle
    tokens ← price_tokens m (split_two args).0
    call_qualified_func m.net (flag (flag_value oracle_admin) ∷ [])
        (qualified_name (id_name static_price_oracle) oracle "setAssetPrice")
        (texts tokens ∷ texts (split_two args).1 ∷ [])
  run_alias add_reward_provider args = do
    name ← arg m args 0
    pool ← get_named_pool_addr m name
    call_contract m.net.get_function (flag (flag_value reward_config_admin) ∷ [])
        (pool_contract "IManagedRewardPool" pool) "addRewardProvider"
        (text_or_undefined (get_elem? args 1) ∷ text (or_zero_address (get_elem? args 2)) ∷ [])
  run_alias set_meltdown args = do
    name ← arg m args 0
    pool ← get_named_pool_addr m name
    date ← arg m args 1
    timestamp ← of_result m (meltdown_timestamp m date)
    call_contract m.net.get_function (flag (flag_value reward_config_admin) ∷ [])
        (pool_contract "PermitFreezerRewardPool" pool) "setMeltDownAt" (timestamp ∷ [])
  run_alias set_mint_rate args = do
    value ← arg m args 0
    rate ← of_result m (prepare_mint_rate m value)
    call_alias m reward_booster_impl reward_controller "updateBaseline" (rate ∷ [])
        (some reward_rate_admin)
  run_alias set_mint_rate_and_shares args = do
    value ← arg m args 0
    rate ← of_result m (prepare_mint_rate m value)
    pools ← prepare_pool_names_and_values m.net.lib m.list_pools (share_value m) (drop 1 args)
    updates ← changed m m.baseline_percentage pools.0 pools.1
    set_shares m rate updates
  run_alias set_boost_factors args = do
    pools ← prepare_pool_names_and_values m.net.lib m.list_pools (factor_of m) args
    booster ← remote (m.net.get_address (number (flag_value reward_controller)))
    updates ← changed m m.boost_factor pools.0 pools.1
    set_factors m (pool_contract "RewardBooster" booster) updates
  run_alias register_ref_code args =
      call_alias m referral_reward_pool_v1_impl referral_registry "registerShortCodes"
        (texts (split_two args).0 ∷ texts (split_two args).1 ∷ []) (some referral_admin)
  run_alias transfer_from_treasury args = do
    name ← arg m args 0
    tokens ← price_tokens m (name ∷ [])
    call_alias m treasury_impl treasury "transferToken"
        (map text tokens
          ++ text_or_undefined (get_elem? args 2) ∷ text_or_undefined (get_elem? args 1) ∷ [])
        (some treasury_admin)
  run_alias set_claimable_pools args =
      call_alias m reward_booster_impl reward_controller "setClaimablePoolsFor"
        (texts (drop 1 args) ∷ text_or_undefined (get_elem? args 0) ∷ []) (some reward_config_admin)
  run_alias upgrade_reward_pool args = do
    name ← arg m args 0
    pool ← get_reward_pool_by_name m.net.lib m.list_pools name
    impl ← arg m args 1
    call_alias m reward_configurator_impl reward_configurator "updateRewardPool"
        (fields (("pool", pool) ∷ ("impl", impl) ∷ []) ∷ []) (some reward_config_admin)
  run_alias upgrade_stake_token args = do
    name ← arg m args 0
    token ← find_token m.net.lib (get_token_list m.fetch_tokens) false name
    configurator ← remote (m.net.get_address (number (flag_value stake_configurator)))
    data' ← remote (m.stake_token_data token)
    impl ← arg m args 1
    call_contract m.net.get_function (flag (flag_value stake_admin) ∷ [])
        (pool_contract "StakeConfiguratorImpl" configurator) "updateStakeToken"
        (fields (
            ("token", token)
            ∷ ("stakeTokenImpl", impl)
            ∷ ("stkTokenName", data'.0)
            ∷ ("stkTokenSymbol", data'.1)
            ∷ [])
          ∷ [])

  -- A command with a dot is a qualified function, any other one an alias.
  unfoldable pub parse_command : List Role → String → List String → Act (Session W) (Unit {0})
  unfolding run_alias call_qualified_func index_of lookup cmd_aliases
  parse_command roles cmd args = elim (index_of 46 cmd) [
    | some pos ↦ call_qualified_func m.net roles cmd (map text args)
    | none ↦ elim (lookup cmd cmd_aliases) [
      | none ↦ throw ("Unknown command: " <> cmd)
      | some alias ↦ run_alias alias args
    ]
  ]
