-- ===== src/Access/Exceptions/Tokens.antt =====
-- Entries of `DEFAULT_EXCEPTIONS` of helpers/contracts-access.ts.
use augmented_finance_protoc.Prelude.{[], ◌∷◌, ◌++◌, none, some, Dict}
use augmented_finance_protoc.Types.ProtocolErrors.{
  code, at_caller_not_sub_balance_operator, caller_not_emergency_admin, caller_not_pool_admin,
  ct_caller_must_be_reward_admin, rw_not_reward_controller, rw_not_reward_rate_admin,
  txt_access_restricted,
}
use augmented_finance_protoc.Types.ContractIds.{
  id_name, lending_pool_configurator_impl, treasury_impl, stable_debt_token_impl,
  variable_debt_token_impl, deposit_token_impl, stake_configurator_impl, stake_token_impl,
  deposit_stake_token_impl, reward_configurator_impl, agf_token_impl,
}
use augmented_finance_protoc.Access.Exceptions.Shared.{
  ContractAccessExceptions, merge, reasons_of, reason, erc20_access, pool_token_impl_access,
  stake_token_impl_access, pool_debt_token_impl_access,
}

unfoldable pub token_exceptions : Dict ContractAccessExceptions
unfolding id_name code merge erc20_access pool_token_impl_access stake_token_impl_access
    pool_debt_token_impl_access
token_exceptions =
    (
      id_name lending_pool_configurator_impl,
      record {
        impl_override = some (("initialize", reason "initializer blocked") ∷ []);
        functions =
            ("setPausedFor", reason (code caller_not_emergency_admin))
            ∷ ("initialize", reason "already initialized")
            ∷ [];
        reasons = some (code caller_not_pool_admin ∷ []);
      },
    )
    ∷ (
      id_name treasury_impl,
      record {
        impl_override = some (("initialize", reason "initializer blocked") ∷ []);
        functions = ("initialize", reason "already initialized") ∷ [];
        reasons = none;
      },
    )
    ∷ (id_name stable_debt_token_impl, pool_debt_token_impl_access)
    ∷ (id_name variable_debt_token_impl, pool_debt_token_impl_access)
    ∷ (
      id_name deposit_token_impl,
      record {
        impl_override = pool_token_impl_access.impl_override;
        functions = merge (merge pool_token_impl_access.functions erc20_access.functions) ([]);
        reasons = some (
            reasons_of pool_token_impl_access
            ++ (code caller_not_pool_admin ∷ code at_caller_not_sub_balance_operator ∷ []));
      },
    )
    ∷ (
      id_name stake_configurator_impl,
      record {
        impl_override = some (("initialize", reason "initializer blocked") ∷ []);
        functions = ("initialize", reason "already initialized") ∷ [];
        reasons = none;
      },
    )
    ∷ (id_name stake_token_impl, stake_token_impl_access)
    ∷ (id_name deposit_stake_token_impl, stake_token_impl_access)
    ∷ (
      id_name reward_configurator_impl,
      record {
        impl_override = some (("initialize", reason "initializer blocked") ∷ []);
        functions = ("initialize", reason "already initialized") ∷ [];
        reasons = some (code ct_caller_must_be_reward_admin ∷ code rw_not_reward_rate_admin ∷ []);
      },
    )
    ∷ (
      id_name agf_token_impl,
      record {
        impl_override = some (
            ("initializeRewardToken", reason "initializer blocked")
            ∷ ("initialize", reason "initializer blocked")
            ∷ []);
        functions = merge (erc20_access.functions) (
            ("initializeRewardToken", reason "already initialized")
            ∷ ("initialize", reason "already initialized")
            ∷ []);
        reasons = some (code rw_not_reward_controller ∷ code txt_access_restricted ∷ []);
      },
    )
    ∷ []
