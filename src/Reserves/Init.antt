-- ===== src/Reserves/Init.antt =====
-- The rest of `initReservesByHelper` (helpers/init-helpers.ts): the token implementations are
-- deployed, and the reserves are initialised in batches.
pub mod Implemented
use augmented_finance_protoc.Prelude.{
  ℕ, String, Bool, true, false, List, [], ◌∷◌, Option, none, some, if◌then◌else◌, Result, ok,
  thrown, Act, pure, throw, ◌>>=◌, ◌>>◌, for_each, Dict, to_lower_case, ◌<>◌, map,
}
use augmented_finance_protoc.Helpers.Addresses.{AddressLib}
use augmented_finance_protoc.Helpers.Batches.{chunk}
use augmented_finance_protoc.Types.ContractIds.{
  ContractId, deposit_token_impl, delegation_aware_deposit_token_impl, stable_debt_token_impl,
  variable_debt_token_impl,
}
use augmented_finance_protoc.Reserves.Strategies.{Market, ReserveParams}
use augmented_finance_protoc.Reserves.Plan.{
  DepositType, generic, delegation_aware, ReserveInfo, InitPlan, empty_plan, plan_reserves,
}

-- The token implementations, `undefined` where no reserve needs one.
pub record TokenImpls : Type 0 where
  pub stable_debt : Option String
  pub variable_debt : Option String
  pub deposit : Option String
  pub delegation_aware : Option String

abbrev pub deploy_if : {W : Type 0} → Bool → Act W String → Act W (Option String)
deploy_if false deployment = pure none
deploy_if true deployment = do address ← deployment; pure (some address)

-- `deploy id` is the deployment function of an implementation, with its `verify` and `once` given.
unfoldable pub deploy_impls :
    {W : Type 0} → (ContractId → Act W String) → InitPlan → Act W TokenImpls
deploy_impls deploy plan = do
  stable ← deploy_if plan.has_stable_debt (deploy stable_debt_token_impl)
  variable ← deploy_if plan.has_variable_debt (deploy variable_debt_token_impl)
  deposit ← deploy_if plan.has_deposit (deploy deposit_token_impl)
  delegation ← deploy_if plan.has_delegation_aware (deploy delegation_aware_deposit_token_impl)
  pure (record {
    stable_debt = stable;
    variable_debt = variable;
    deposit = deposit;
    delegation_aware = delegation;
  })

-- `ITokenNames`, the fields that are used here.
pub record TokenNames : Type 0 where
  pub deposit_token_name_prefix : String
  pub stable_debt_token_name_prefix : String
  pub variable_debt_token_name_prefix : String
  pub symbol_prefix : String
  pub deposit_symbol_prefix : String
  pub stable_debt_symbol_prefix : String
  pub variable_debt_symbol_prefix : String

pub record InitReserveInput : Type 0 where
  pub deposit_token_impl : String
  pub stable_debt_token_impl : String
  pub variable_debt_token_impl : String
  pub underlying_asset_decimals : ℕ
  pub strategy : String
  pub underlying_asset : String
  pub deposit_token_name : String
  pub deposit_token_symbol : String
  pub variable_debt_token_name : String
  pub variable_debt_token_symbol : String
  pub stable_debt_token_name : String
  pub stable_debt_token_symbol : String
  pub external_strategy : Bool
  pub params : String

abbrev pub zero_address : String
zero_address = "0x0000000000000000000000000000000000000000"

-- `impl!.address`, which throws a TypeError where `impl` is `undefined`; as a value, `none`.
abbrev pub token_to_use : TokenImpls → DepositType → Option String
token_to_use impls generic = impls.deposit
token_to_use impls delegation_aware = impls.delegation_aware

abbrev pub debt_impl : (external : Bool) → Option String → Option String
debt_impl true impl = some zero_address
debt_impl false impl = impl

unfoldable pub input_of :
    TokenNames → ReserveInfo → (deposit stable variable : String) → InitReserveInput
input_of names info deposit stable variable = record {
  deposit_token_impl = deposit;
  stable_debt_token_impl = stable;
  variable_debt_token_impl = variable;
  underlying_asset_decimals = info.decimals;
  strategy = info.strategy_address;
  underlying_asset = info.token_address;
  deposit_token_name = names.deposit_token_name_prefix <> " " <> info.symbol;
  deposit_token_symbol = names.deposit_symbol_prefix <> names.symbol_prefix <> info.symbol;
  variable_debt_token_name = names.variable_debt_token_name_prefix <> " " <> info.symbol;
  variable_debt_token_symbol =
      names.variable_debt_symbol_prefix <> names.symbol_prefix <> info.symbol;
  stable_debt_token_name = names.stable_debt_token_name_prefix <> " " <> info.symbol;
  stable_debt_token_symbol = names.stable_debt_symbol_prefix <> names.symbol_prefix <> info.symbol;
  external_strategy = info.external;
  params = "0x10";
}

unfoldable pub input_with :
    TokenNames → ReserveInfo → (deposit stable variable : Option String) → Option InitReserveInput
unfolding input_of
input_with names info (some deposit) (some stable) (some variable) =
    some (input_of names info deposit stable variable)
input_with names info _ _ _ = none

unfoldable pub init_input : TokenNames → TokenImpls → ReserveInfo → Option InitReserveInput
unfolding input_with
init_input names impls info =
    input_with names info (token_to_use impls (info.deposit_token_type))
      (debt_impl (info.external) (impls.stable_debt))
      (debt_impl (info.external) (impls.variable_debt))

abbrev cons_input :
    Option InitReserveInput → Option (List InitReserveInput) → Option (List InitReserveInput)
cons_input (some input) (some inputs) = some (input ∷ inputs)
cons_input _ _ = none

unfoldable pub init_inputs :
    TokenNames → TokenImpls → List ReserveInfo → Option (List InitReserveInput)
unfolding init_input
init_inputs names impls [] = some []
init_inputs names impls (info ∷ infos) =
    cons_input (init_input names impls info) (init_inputs names impls infos)

abbrev init_chunks : ℕ
init_chunks = 2

-- `batch` sends a transaction and waits for it.
unfoldable pub submit_inputs :
    {W : Type 0}
    → (List InitReserveInput → Act W (Unit {0}))
    → Option (List InitReserveInput)
    → Act W (List InitReserveInput)
unfolding for_each chunk
submit_inputs batch none = throw "TypeError"
submit_inputs batch (some inputs) = do for_each batch (chunk inputs init_chunks); pure inputs

-- Up to the collection of the verification data: what is returned are the inputs that were sent.
unfoldable pub init_reserves_by_helper :
    {W : Type 0}
    → AddressLib
    → Market W
    → (List InitReserveInput → Act W (Unit {0}))
    → (reserves_params_opt skip_existing_assets : Bool) → TokenNames
    → Dict ReserveParams
    → Dict String
    → Act W (List InitReserveInput)
unfolding plan_reserves deploy_impls init_inputs submit_inputs to_lower_case
init_reserves_by_helper lib m batch opt skip_existing names params addresses = do
  reserves ← (if skip_existing then m.get_reserves_list else pure [])
  plan ← plan_reserves lib m opt addresses (map to_lower_case reserves) params empty_plan
  elim (plan.reserve_info) [
    | [] ↦ pure []
    | _ ∷ _ ↦ do
      impls ← deploy_impls (λ id. m.deploy id []) plan
      submit_inputs batch (init_inputs names impls plan.reserve_info)
  ]
