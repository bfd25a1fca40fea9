-- ===== src/Tests/Commands.antt =====
-- Configuration commands at concrete data.
use augmented_finance_protoc.Prelude.{
  ℕ, suc, String, ◌≡◌, refl, ◌↔◌, ◌⊎◌, true, false, List, [], ◌∷◌, none, some, Result, ok, lookup,
  insert, All, map, index_of, str_take, starts_with, to_lower_case, ◌==◌, flatten, thrown,
  if◌then◌else◌, ◌++◌,
}
use augmented_finance_protoc.Helpers.Addresses.{falsy_or_zero_address}
use augmented_finance_protoc.Types.ContractIds.{oracle_router}
use augmented_finance_protoc.Types.ContractGetters.{get_contract_getter_by_id}
use augmented_finance_protoc.Access.Flags.{
  pool_admin, price_oracle, flag_value, flag_digits, number, access_flags,
}
use augmented_finance_protoc.Commands.Session.{
  text, Contract, ContractCall, TokenInfo, Session, new_session, named, FunctionFragment, add_roles,
  call_contract, Value,
}
use augmented_finance_protoc.Commands.Session.Roles.{
  IsSummary, IsOneCall, add_roles-digits, call_contract_lem,
}
use augmented_finance_protoc.Commands.Split.{split_array}
use augmented_finance_protoc.Commands.Dispatch.{CallWithRoles, send_batch, send_calls, dispatch}
use augmented_finance_protoc.Commands.Dispatch.Sent.{is_sent, outcome_of, dispatch-IsSent}
use augmented_finance_protoc.Commands.Session.Collected.{collected, NeedsTransaction}
use augmented_finance_protoc.Commands.Dispatch.Whole.{IsWhole, dispatch-calls}
use augmented_finance_protoc.Commands.Objects.{
  Network, qualified_name, connected, call_qualified_func,
}
use augmented_finance_protoc.Commands.Objects.Named.{call_qualified_func-qualified_name}
use augmented_finance_protoc.Commands.Prepare.{CallCommand, prepare_args, separator}
use augmented_finance_protoc.Commands.Prepare.Separated.{
  command_line, with_roles, ended, weird, IsWritten, prepare_args-command_line,
  prepare_args-empty_command,
}
use augmented_finance_protoc.Commands.Tokens.{
  PoolEntry, pool_key, register_pools, get_token_list, find_price_tokens,
}
use augmented_finance_protoc.Tests.{sample_lib}

abbrev oracle_at : Contract
oracle_at = record { type_id = "OracleRouter"; address = "0x7" }

abbrev sample_call : ContractCall
sample_call = record {
  access_flags = 0;
  contract = oracle_at;
  fn_name = "getAssetPrice";
  is_static = true;
  args = text "0x1" ∷ [];
}

-- Any function, by its name.
abbrev any_function : Contract → String → Result FunctionFragment
any_function contract name = ok (record { fn_name = name; is_view_or_pure = true })

abbrev empty_session : Session ℕ
empty_session = new_session [] 0

empty_session-IsSummary : IsSummary empty_session
empty_session-IsSummary = record { flags = refl; static = refl }

call_contract_lem_example :
    IsSummary
      (call_contract any_function (named "POOL_ADMIN" ∷ []) oracle_at "f" [] empty_session).1
    × IsOneCall oracle_at [] empty_session
        (call_contract any_function (named "POOL_ADMIN" ∷ []) oracle_at "f" [] empty_session)
call_contract_lem_example =
    call_contract_lem any_function (named "POOL_ADMIN" ∷ []) oracle_at "f" [] empty_session
      empty_session-IsSummary

add_roles-digits_example : add_roles (named (flag_digits pool_admin) ∷ []) 4 ≡ add_roles [] 4
add_roles-digits_example = add_roles-digits pool_admin [] 4

split_two_lists :
    split_array 2 ("a" ∷ "1" ∷ "b" ∷ "2" ∷ []) ≡ ("a" ∷ "b" ∷ []) ∷ ("1" ∷ "2" ∷ []) ∷ []
unfolding split_array
split_two_lists = refl

-- The data of a call is the name of its function; one function takes no arguments.
abbrev by_fn_name : Contract → String → List Value → Result String
by_fn_name contract name args = if name == "pause" then thrown "INVALID_ARGUMENT" else ok name

abbrev role_call : ContractCall
role_call = record sample_call { access_flags = 2; fn_name = "setPriceOracle" }

dispatch-IsSent_example :
    (is_sent (outcome_of by_fn_name "call" (collected (sample_call ∷ role_call ∷ []) empty_session))
      ≡ true)
    ↔ (((Path String "call" "call") ⊎ (Path String "call" "waitTx"))
        × NeedsTransaction (sample_call ∷ role_call ∷ []))
dispatch-IsSent_example =
    dispatch-IsSent by_fn_name "call" (sample_call ∷ role_call ∷ []) [] 0
      (("getAssetPrice", refl), (("setPriceOracle", refl), tt))

abbrev two_entries : List CallWithRoles
two_entries =
    record { access_flags = 0; call_flag = 0; call_addr = "0x7"; call_data = "getAssetPrice" }
    ∷ record { access_flags = 2; call_flag = 0; call_addr = "0x7"; call_data = "setPriceOracle" }
    ∷ []

batch_sent :
    dispatch by_fn_name "waitTx" (sample_call ∷ role_call ∷ []) 2 true
    ≡ ok (send_batch two_entries true)
unfolding dispatch send_calls
batch_sent = refl

refused_arguments :
    dispatch by_fn_name "call" (sample_call ∷ record role_call { fn_name = "pause" } ∷ []) 2 true
    ≡ thrown "INVALID_ARGUMENT"
unfolding dispatch send_calls
refused_arguments = refl

dispatch-calls_example :
    IsWhole by_fn_name (sample_call ∷ role_call ∷ []) 2 (send_batch two_entries true)
dispatch-calls_example =
    dispatch-calls by_fn_name "waitTx" (sample_call ∷ role_call ∷ []) 2 true
      (send_batch two_entries true) batch_sent

abbrev sample_network : Network ℕ
sample_network = record {
  network = "main";
  lib = sample_lib;
  ac_address = "0x8";
  get_address = λ role w. (ok "0x7", suc w);
  provider_registry = none;
  get_function = any_function;
  encode_function_data = by_fn_name;
}

oracle_flag : access_flags "PRICE_ORACLE" ≡ some (number (flag_value price_oracle))
unfolding access_flags lookup
oracle_flag = refl

seven_valid : falsy_or_zero_address sample_lib (some "0x7") ≡ false
unfolding falsy_or_zero_address sample_lib starts_with
seven_valid = refl

oracle_getter : get_contract_getter_by_id "OracleRouter" ≡ some oracle_router
unfolding get_contract_getter_by_id
oracle_getter = refl

oracle_lacks :
    (index_of 46 "OracleRouter" ≡ none)
    × (index_of 46 "PRICE_ORACLE" ≡ none)
    × (index_of 64 "OracleRouter" ≡ none)
unfolding index_of
oracle_lacks = (refl, refl, refl)

not_hex : (str_take 2 "PRICE_ORACLE" == "0x") ≡ false
unfolding str_take
not_hex = refl

call_qualified_func-qualified_name_example :
    call_qualified_func sample_network []
      (qualified_name "OracleRouter" "PRICE_ORACLE" "getPriceSource")
      []
      empty_session
    ≡ call_contract any_function []
        (connected oracle_router "0x7")
        "getPriceSource"
        []
        (record empty_session { chain = 1 })
call_qualified_func-qualified_name_example =
    call_qualified_func-qualified_name sample_network "OracleRouter" "PRICE_ORACLE" "getPriceSource"
      [] [] empty_session (number (flag_value price_oracle)) oracle_router "0x7" 1 (oracle_lacks.0)
      (oracle_lacks.1) (oracle_lacks.2) not_hex oracle_flag refl seven_valid oracle_getter

abbrev two_commands : List CallCommand
two_commands =
    record { roles = "POOL_ADMIN" ∷ []; cmd = "AC.owner"; args = [] }
    ∷ record { roles = []; cmd = "getPrice"; args = "USDC" ∷ "DAI" ∷ [] }
    ∷ []

two_commands-IsWritten : All IsWritten two_commands
unfolding index_of
two_commands-IsWritten = (((refl, tt), refl, refl, tt), ((tt, refl, refl, (refl, (refl, tt))), tt))

prepare_args-command_line_example :
    prepare_args ("STAKE_ADMIN" ∷ []) (command_line two_commands)
    ≡ map (with_roles ("STAKE_ADMIN" ∷ [])) two_commands
prepare_args-command_line_example =
    prepare_args-command_line ("STAKE_ADMIN" ∷ []) two_commands two_commands-IsWritten

prepare_args-empty_command_example :
    (prepare_args
        ("X" ∷ [])
        (flatten (map ended two_commands) ++ (separator ∷ "getPrice" ∷ "DAI" ∷ []))
      ≡ map (with_roles ("X" ∷ [])) two_commands
        ++ with_roles ("X" ∷ []) (weird ("getPrice" ∷ "DAI" ∷ [])) ∷ [])
    × (prepare_args ("X" ∷ []) (flatten (map ended two_commands))
        ≡ map (with_roles ("X" ∷ [])) two_commands)
prepare_args-empty_command_example =
    prepare_args-empty_command ("X" ∷ []) two_commands "getPrice" ("DAI" ∷ [])
      two_commands-IsWritten (refl, (refl, tt))

abbrev same_name : List PoolEntry
same_name =
    record { address = "0x1"; pool_name = "Main"; revision = some "2" }
    ∷ record { address = "0x2"; pool_name = "main"; revision = some "2" }
    ∷ []

first_stays : lookup "main-2" (register_pools same_name []) ≡ some "0x1"
unfolding register_pools lookup insert pool_key to_lower_case
first_stays = refl

abbrev sample_tokens : List TokenInfo
sample_tokens =
    record { token = "0x5"; price_token = "0x6"; token_symbol = "USDC"; token_type = 0 } ∷ []

abbrev known_session : Session ℕ
known_session = record empty_session { token_list = some sample_tokens }

known_prices :
    find_price_tokens sample_lib
      (get_token_list (λ w. (ok (sample_tokens, 1), w)))
      ("usdc" ∷ "0x9" ∷ [])
      known_session
    ≡ (ok ("0x6" ∷ "0x9" ∷ []), known_session)
unfolding find_price_tokens sample_lib get_token_list
known_prices = refl
