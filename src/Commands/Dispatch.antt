-- ===== src/Commands/Dispatch.antt =====
-- What the task does with the calls that it has collected, by its mode. `encodeFunctionData` of the
-- contracts' interfaces, which throws on arguments that do not fit, is a parameter.
pub mod Sent
pub mod Whole
use augmented_finance_protoc.Prelude.{
  ℕ, String, Bool, true, false, ◌&&◌, ◌||◌, List, [], ◌∷◌, ◌++◌, Option, none, some, ◌==◌, eqb,
  if◌then◌else◌, Result, ok, thrown, ◌<>◌,
}
use augmented_finance_protoc.Commands.Session.{ContractCall, Contract, Value}

-- An entry of the array that `callWithRoles` takes.
pub record CallWithRoles : Type 0 where
  pub access_flags : ℕ
  pub call_flag : ℕ
  pub call_addr : String
  pub call_data : String

-- What is encoded, simulated or sent: nothing, one call of a contract, or a batch by
-- `callWithRoles` of the access controller. A sent transaction may be waited for.
pub data Dispatch : Type 0 where
  nothing : Dispatch
  encode_one : (to payload : String) → Dispatch
  encode_batch : List CallWithRoles → (needless : Bool) → Dispatch
  static_one : ContractCall → Dispatch
  static_batch : List CallWithRoles → Dispatch
  send_one : ContractCall → (wait : Bool) → Dispatch
  send_batch : List CallWithRoles → (wait : Bool) → Dispatch

-- `contractCalls.length == 1 && allFlags == 0`
abbrev pub single_call : List ContractCall → ℕ → Option ContractCall
single_call (c ∷ []) flags = if eqb flags 0 then some c else none
single_call _ flags = none

-- What throws ends the task.
abbrev pub and_then : {A B : Type 0} → Result A → (A → Result B) → Result B
and_then (ok a) f = f a
and_then (thrown e) f = thrown e

module _ (encode_function_data : Contract → String → List Value → Result String) where
  abbrev pub encoded : ContractCall → Result String
  encoded c = encode_function_data c.contract c.fn_name c.args

  abbrev pub entry_of : ContractCall → String → CallWithRoles
  entry_of c payload = record {
    access_flags = c.access_flags;
    call_flag = 0;
    call_addr = c.contract.address;
    call_data = payload;
  }

  -- The loop of `prepareCallWithRolesArgs`, with the entries so far.
  unfoldable pub push_calls : List CallWithRoles → List ContractCall → Result (List CallWithRoles)
  push_calls entries [] = ok entries
  push_calls entries (c ∷ cs) =
      and_then (encoded c) (λ payload. push_calls (entries ++ entry_of c payload ∷ []) cs)

  unfoldable pub prepare_call_with_roles_args : List ContractCall → Result (List CallWithRoles)
  unfolding push_calls
  prepare_call_with_roles_args calls = push_calls [] calls

  unfoldable pub encode_calls : List ContractCall → ℕ → Bool → Result Dispatch
  unfolding prepare_call_with_roles_args
  encode_calls calls flags all_static = elim (single_call calls flags) [
    | some c ↦ and_then (encoded c) (λ payload. ok (encode_one c.contract.address payload))
    | none ↦
        and_then (prepare_call_with_roles_args calls)
          (λ entries. ok (encode_batch entries (all_static && eqb flags 0)))
  ]

  unfoldable pub static_calls : List ContractCall → ℕ → Result Dispatch
  unfolding prepare_call_with_roles_args
  static_calls calls flags = elim (single_call calls flags) [
    | some c ↦ ok (static_one c)
    | none ↦ and_then (prepare_call_with_roles_args calls) (λ entries. ok (static_batch entries))
  ]

  unfoldable pub send_calls : List ContractCall → ℕ → Bool → Result Dispatch
  unfolding prepare_call_with_roles_args
  send_calls calls flags wait = elim (single_call calls flags) [
    | some c ↦ ok (send_one c wait)
    | none ↦ and_then (prepare_call_with_roles_args calls) (λ entries. ok (send_batch entries wait))
  ]

  unfoldable pub dispatch : String → List ContractCall → ℕ → Bool → Result Dispatch
  dispatch mode [] flags all_static = ok nothing
  dispatch mode (c ∷ cs) flags all_static =
      if mode == "encode"
      then encode_calls (c ∷ cs) flags all_static
      else (if mode == "static" || (all_static && eqb flags 0)
          then static_calls (c ∷ cs) flags
          else (if mode == "waitTx"
              then send_calls (c ∷ cs) flags true
              else (if mode == "call"
                  then send_calls (c ∷ cs) flags false
                  else thrown ("unknown mode:" <> mode))))
