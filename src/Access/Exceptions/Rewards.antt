-- ===== src/Access/Exceptions/Rewards.antt =====
-- Entries of `DEFAULT_EXCEPTIONS` of helpers/contracts-access.ts.
use augmented_finance_protoc.Prelude.{[], ◌∷◌, none, some, Dict}
use augmented_finance_protoc.Types.ProtocolErrors.{
  code, caller_not_emergency_admin, caller_not_ref_admin, ct_caller_must_be_reward_admin,
  rw_not_reward_rate_admin,
}
use augmented_finance_protoc.Types.ContractIds.{
  id_name, reward_booster_impl, xagf_token_v1_impl, token_weighted_reward_pool_impl,
  referral_reward_pool_v1_impl, oracle_router, price_feed_compound_erc20, price_feed_compound_eth,
  price_feed_uni_eth_pair, price_feed_uni_eth_token,
}
use augmented_finance_protoc.Access.Exceptions.Shared.{
  ContractAccessExceptions, merge, allowed, reason, reward_pool_access, reward_pool_impl_access,
}

unfoldable pub reward_exceptions : Dict ContractAccessExceptions
unfolding id_name code merge reward_pool_access reward_pool_impl_access
reward_exceptions =
    (
      id_name reward_booster_impl,
      record {
        impl_override = some (("initialize", reason "initializer blocked") ∷ []);
        functions =
            ("claimReward", allowed)
            ∷ ("claimRewardTo", allowed)
            ∷ ("setClaimablePools", allowed)
            ∷ ("autolockStop", allowed)
            ∷ ("autolockProlongate", allowed)
            ∷ ("autolockKeepUpBalance", allowed)
            ∷ ("autolockDefault", allowed)
            ∷ ("autolockAccumulateUnderlying", allowed)
            ∷ ("autolockAccumulateTill", allowed)
            ∷ ("setPaused", reason (code caller_not_emergency_admin))
            ∷ ("allocatedByPool", reason "unknown pool")
            ∷ ("initialize", reason "already initialized")
            ∷ [];
        reasons = some (code rw_not_reward_rate_admin ∷ code ct_caller_must_be_reward_admin ∷ []);
      },
    )
    ∷ (
      id_name xagf_token_v1_impl,
      record {
        impl_override = some (
            ("initializeRewardPool", reason "initializer blocked")
            ∷ ("initializeRewardToken", reason "initializer blocked")
            ∷ ("initializeToken", reason "initializer blocked")
            ∷ ("initialize", reason "initializer blocked")
            ∷ []);
        functions = merge (reward_pool_access.functions) (
            ("lock", allowed)
            ∷ ("allowAdd", allowed)
            ∷ ("lockAdd", allowed)
            ∷ ("lockExtend", allowed)
            ∷ ("redeem", allowed)
            ∷ ("update", allowed)
            ∷ ("initializeRewardPool", reason "already initialized")
            ∷ ("initializeRewardToken", reason "already initialized")
            ∷ ("initializeToken", reason "already initialized")
            ∷ ("initialize", reason "already initialized")
            ∷ []);
        reasons = reward_pool_access.reasons;
      },
    )
    ∷ (id_name token_weighted_reward_pool_impl, reward_pool_impl_access)
    ∷ (
      id_name referral_reward_pool_v1_impl,
      record {
        impl_override = reward_pool_impl_access.impl_override;
        functions =
            ("transferCodeTo", allowed)
            ∷ ("registerCustomCode", allowed)
            ∷ ("claimRewardByPermit", allowed)
            ∷ ("setPaused", reason (code caller_not_emergency_admin))
            ∷ ("registerShortCode", reason (code caller_not_ref_admin))
            ∷ ("registerShortCodes", reason (code caller_not_ref_admin))
            ∷ [];
        reasons = reward_pool_impl_access.reasons;
      },
    )
    ∷ (
      id_name oracle_router,
      record {
        impl_override = none;
        functions = ("updateAssetSource", allowed) ∷ [];
        reasons = none;
      },
    )
    ∷ (
      id_name price_feed_compound_erc20,
      record { impl_override = none; functions = ("updatePrice", allowed) ∷ []; reasons = none },
    )
    ∷ (
      id_name price_feed_compound_eth,
      record { impl_override = none; functions = ("updatePrice", allowed) ∷ []; reasons = none },
    )
    ∷ (
      id_name price_feed_uni_eth_pair,
      record { impl_override = none; functions = ("updatePrice", allowed) ∷ []; reasons = none },
    )
    ∷ (
      id_name price_feed_uni_eth_token,
      record { impl_override = none; functions = ("updatePrice", allowed) ∷ []; reasons = none },
    )
    ∷ []
