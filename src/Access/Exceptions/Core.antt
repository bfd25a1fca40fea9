-- ===== src/Access/Exceptions/Core.antt =====
-- Entries of `DEFAULT_EXCEPTIONS` of helpers/contracts-access.ts.
use augmented_finance_protoc.Prelude.{[], ◌∷◌, ◌++◌, none, some, Dict}
use augmented_finance_protoc.Types.ProtocolErrors.{
  code, caller_not_emergency_admin, caller_not_pool_admin, ct_caller_must_be_sweep_admin,
  lp_caller_must_be_deposit_token, rw_not_team_manager,
}
use augmented_finance_protoc.Types.ContractIds.{
  id_name, addresses_provider_registry, market_access_controller, proxy_admin,
  uniswap_liquidity_swap_adapter, uniswap_repay_adapter, flash_liquidation_adapter, weth_gateway,
  delegated_strategy_aave, delegated_strategy_compound_erc20, delegated_strategy_compound_eth,
  team_reward_pool, treasury_reward_pool, permit_freezer_reward_pool, lending_pool_impl,
  lending_pool_extension_impl,
}
use augmented_finance_protoc.Access.Exceptions.Shared.{
  ContractAccessExceptions, reasons_of, allowed, reason, uniswap_adapter_access,
  external_strategy_access, reward_pool_access,
}

unfoldable pub core_exceptions : Dict ContractAccessExceptions
unfolding id_name code uniswap_adapter_access external_strategy_access reward_pool_access
core_exceptions =
    (
      id_name addresses_provider_registry,
      record {
        impl_override = none;
        functions =
            ("renounceOneTimeRegistrar", allowed)
            ∷ ("acceptOwnership", reason "SafeOwnable: caller is not the pending owner")
            ∷ ("recoverOwnership", reason "SafeOwnable: caller can not recover ownership")
            ∷ [];
        reasons = none;
      },
    )
    ∷ (
      id_name market_access_controller,
      record {
        impl_override = none;
        functions =
            ("createProxy", allowed)
            ∷ ("renounceTemporaryAdmin", allowed)
            ∷ ("acceptOwnership", reason "SafeOwnable: caller is not the pending owner")
            ∷ ("recoverOwnership", reason "SafeOwnable: caller can not recover ownership")
            ∷ [];
        reasons = none;
      },
    )
    ∷ (
      id_name proxy_admin,
      record {
        impl_override = none;
        functions = ("upgradeAndCall", reason "ProxyOwner: caller is not the owner") ∷ [];
        reasons = none;
      },
    )
    ∷ (id_name uniswap_liquidity_swap_adapter, uniswap_adapter_access)
    ∷ (id_name uniswap_repay_adapter, uniswap_adapter_access)
    ∷ (id_name flash_liquidation_adapter, uniswap_adapter_access)
    ∷ (
      id_name weth_gateway,
      record {
        impl_override = none;
        functions =
            ("depositETH", allowed)
            ∷ ("withdrawETH", allowed)
            ∷ ("borrowETH", allowed)
            ∷ ("repayETH", allowed)
            ∷ ("sweepToken", reason (code ct_caller_must_be_sweep_admin))
            ∷ [];
        reasons = none;
      },
    )
    ∷ (id_name delegated_strategy_aave, external_strategy_access)
    ∷ (id_name delegated_strategy_compound_erc20, external_strategy_access)
    ∷ (id_name delegated_strategy_compound_eth, external_strategy_access)
    ∷ (
      id_name team_reward_pool,
      record {
        impl_override = none;
        functions = ("setPaused", reason (code caller_not_emergency_admin)) ∷ [];
        reasons = some (reasons_of reward_pool_access ++ (code rw_not_team_manager ∷ []));
      },
    )
    ∷ (
      id_name treasury_reward_pool,
      record {
        impl_override = none;
        functions = ("setPaused", reason (code caller_not_emergency_admin)) ∷ [];
        reasons = reward_pool_access.reasons;
      },
    )
    ∷ (
      id_name permit_freezer_reward_pool,
      record {
        impl_override = none;
        functions =
            ("claimRewardByPermit", allowed)
            ∷ ("setPaused", reason (code caller_not_emergency_admin))
            ∷ [];
        reasons = reward_pool_access.reasons;
      },
    )
    ∷ (
      id_name lending_pool_impl,
      record {
        impl_override = some (("initialize", reason "initializer blocked") ∷ []);
        functions =
            ("deposit", allowed)
            ∷ ("withdraw", allowed)
            ∷ ("borrow", allowed)
            ∷ ("repay", allowed)
            ∷ ("finalizeTransfer", reason (code lp_caller_must_be_deposit_token))
            ∷ ("flashLoan", allowed)
            ∷ ("liquidationCall", allowed)
            ∷ ("rebalanceStableBorrowRate", allowed)
            ∷ ("setUserUseReserveAsCollateral", allowed)
            ∷ ("swapBorrowRateMode", allowed)
            ∷ ("setLendingPoolExtension", reason (code caller_not_pool_admin))
            ∷ ("setPaused", reason (code caller_not_emergency_admin))
            ∷ ("setReservePaused", reason (code caller_not_emergency_admin))
            ∷ ("initialize", reason "already initialized")
            ∷ [];
        reasons = none;
      },
    )
    ∷ (
      id_name lending_pool_extension_impl,
      record {
        impl_override = some (("initialize", reason "initializer blocked") ∷ []);
        functions =
            ("borrow", allowed)
            ∷ ("flashLoan", allowed)
            ∷ ("liquidationCall", allowed)
            ∷ ("initialize", reason "already initialized")
            ∷ [];
        reasons = none;
      },
    )
    ∷ []
