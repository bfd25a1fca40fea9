-- ===== src/Access/Exceptions/Shared.antt =====
-- The exceptions that several contracts share, as helpers/contracts-access.ts spells them out.
use augmented_finance_protoc.Prelude.{String, List, [], ◌∷◌, ◌++◌, Option, none, some, Dict, insert}
use augmented_finance_protoc.Types.ProtocolErrors.{
  code, caller_not_emergency_admin, caller_not_liquidity_controller, caller_not_pool_admin,
  caller_not_stake_admin, ct_caller_must_be_lending_pool, ct_caller_must_be_reward_admin,
  ct_caller_must_be_sweep_admin, rw_not_reward_controller, rw_not_reward_rate_admin,
}

-- What the table says of a function: that anybody may call it, that it reverts with a reason, or
-- the arguments to try it with and the reason to expect.
pub data FunctionAccessException : Type 0 where
  allowed : FunctionAccessException
  reason : String → FunctionAccessException
  with_args : List String → Option String → FunctionAccessException

pub record ContractAccessExceptions : Type 0 where
  pub impl_override : Option (Dict FunctionAccessException)
  pub functions : Dict FunctionAccessException
  pub reasons : Option (List String)

-- `{ ...base, ...more }`
unfoldable pub merge : {V : Type 0} → Dict V → Dict V → Dict V
merge base [] = base
merge base ((k, v) ∷ more) = merge (insert k v base) more

abbrev pub reasons_of : ContractAccessExceptions → List String
reasons_of e = elim e.reasons [ none ↦ [] | some l ↦ l ]

unfoldable pub uniswap_adapter_access : ContractAccessExceptions
unfolding code
uniswap_adapter_access = record {
  impl_override = none;
  functions =
      ("executeOperation", reason "CALLER_MUST_BE_LENDING_POOL")
      ∷ ("sweepToken", reason (code ct_caller_must_be_sweep_admin))
      ∷ ("swapAndRepay", allowed)
      ∷ ("swapAndDeposit", allowed)
      ∷ [];
  reasons = none;
}

unfoldable pub external_strategy_access : ContractAccessExceptions
external_strategy_access = record {
  impl_override = none;
  functions = ("delegatedWithdrawUnderlying", allowed) ∷ ("getDelegatedState", allowed) ∷ [];
  reasons = none;
}

unfoldable pub reward_pool_access : ContractAccessExceptions
unfolding merge code
reward_pool_access = record {
  impl_override = none;
  functions =
      ("setPaused", reason (code caller_not_emergency_admin))
      ∷ ("handleScaledBalanceUpdate", reason "unknown reward provider")
      ∷ ("handleBalanceUpdate", reason "unknown reward provider")
      ∷ [];
  reasons = some (
      code rw_not_reward_controller
      ∷ code rw_not_reward_rate_admin
      ∷ code ct_caller_must_be_reward_admin
      ∷ []);
}

unfoldable pub erc20_access : ContractAccessExceptions
erc20_access = record {
  impl_override = none;
  functions =
      ("approve", allowed)
      ∷ ("transfer", allowed)
      ∷ ("transferFrom", allowed)
      ∷ ("permit", allowed)
      ∷ ("increaseAllowance", allowed)
      ∷ ("decreaseAllowance", allowed)
      ∷ ("useAllowance", allowed)
      ∷ [];
  reasons = none;
}

unfoldable pub reward_pool_impl_access : ContractAccessExceptions
unfolding reward_pool_access
reward_pool_impl_access = record {
  impl_override = some (("initialize", reason "initializer blocked") ∷ []);
  functions = reward_pool_access.functions;
  reasons = reward_pool_access.reasons;
}

unfoldable pub pool_token_impl_access : ContractAccessExceptions
unfolding merge code
pool_token_impl_access = record {
  impl_override = some (("initialize", reason "initializer blocked") ∷ []);
  functions =
      ("updatePool", reason (code caller_not_pool_admin))
      ∷ ("setPaused", reason (code caller_not_emergency_admin))
      ∷ ("initialize", reason "already initialized")
      ∷ [];
  reasons = some (
      code ct_caller_must_be_lending_pool
      ∷ code rw_not_reward_controller
      ∷ code ct_caller_must_be_reward_admin
      ∷ []);
}

unfoldable pub stake_token_impl_access : ContractAccessExceptions
unfolding erc20_access pool_token_impl_access merge code
stake_token_impl_access = record {
  impl_override = some (("initializeStakeToken", reason "initializer blocked") ∷ []);
  functions = merge (merge pool_token_impl_access.functions erc20_access.functions) (
      ("stake", allowed)
      ∷ ("redeem", allowed)
      ∷ ("redeemUnderlying", allowed)
      ∷ ("cooldown", allowed)
      ∷ ("initializeStakeToken", reason "already initialized")
      ∷ []);
  reasons = some (
      reasons_of pool_token_impl_access
      ++ (code caller_not_liquidity_controller ∷ code caller_not_stake_admin ∷ []));
}

unfoldable pub pool_debt_token_impl_access : ContractAccessExceptions
unfolding pool_token_impl_access merge
pool_debt_token_impl_access = record {
  impl_override = pool_token_impl_access.impl_override;
  functions = merge (pool_token_impl_access.functions) (("approveDelegation", allowed) ∷ []);
  reasons = pool_token_impl_access.reasons;
}
