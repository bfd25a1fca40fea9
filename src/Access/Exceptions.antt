-- ===== src/Access/Exceptions.antt =====
-- `DEFAULT_EXCEPTIONS` and `getContractAccessExceptions` of helpers/contracts-access.ts.
pub mod Shared
pub mod Core
pub mod Tokens
pub mod Rewards
pub mod Blocked
use augmented_finance_protoc.Prelude.{String, Option, ◌++◌, Dict, lookup}
use Shared.{ContractAccessExceptions}
use Core.{core_exceptions}
use Tokens.{token_exceptions}
use Rewards.{reward_exceptions}

unfoldable pub default_exceptions : Dict ContractAccessExceptions
unfolding core_exceptions token_exceptions reward_exceptions
default_exceptions = core_exceptions ++ (token_exceptions ++ reward_exceptions)

unfoldable pub get_contract_access_exceptions : String → Option ContractAccessExceptions
unfolding default_exceptions
get_contract_access_exceptions name = lookup name default_exceptions
