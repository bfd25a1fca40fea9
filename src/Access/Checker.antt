-- ===== src/Access/Checker.antt =====
-- `verifyContractMutableAccess`, `verifyProxyMutableAccess` and `_verifyMutableAccess` of
-- helpers/method-checker.ts: every function that can change state must revert for a caller
-- without roles, and with a reason that is expected of it.
pub mod Unquote
pub mod Sound
unfoldable pub use Unquote.*
use augmented_finance_protoc.Prelude.{
  ℕ, zero, suc, ◌+◌, ◌-◌, String, Bool, true, false, not, ◌&&◌, ◌||◌, List, [], ◌∷◌, Option, none,
  some, ◌==◌, if◌then◌else◌, is_some, Dict, lookup, Result, ok, thrown, index_of, index_of_text,
  str_take, str_drop, str_length, ◌<>◌, starts_with, insert,
}
use augmented_finance_protoc.Types.ProtocolErrors.{
  code, txt_access_restricted, txt_ownable_caller_not_owner, caller_not_emergency_admin,
}
use augmented_finance_protoc.Access.Exceptions.{get_contract_access_exceptions}
use augmented_finance_protoc.Access.Exceptions.Shared.{
  FunctionAccessException, allowed, reason, with_args, ContractAccessExceptions, merge,
}

-- What a call without roles did: it returned, its gas estimate failed with an inner message, or it
-- failed with a message.
pub data CallOutcome : Type 0 where
  returned : CallOutcome
  estimate_failed : String → CallOutcome
  failed : String → CallOutcome

pub data Mutability : Type 0 where
  is_pure is_view is_nonpayable is_payable : Mutability

abbrev pub is_mutable : Mutability → Bool
is_mutable is_pure = false
is_mutable is_view = false
is_mutable _ = true

pub record FunctionDesc : Type 0 where
  pub signature : String
  pub mutability : Mutability

abbrev pub default_reverts : List String
default_reverts =
    code txt_access_restricted
    ∷ code txt_ownable_caller_not_owner
    ∷ code caller_not_emergency_admin
    ∷ []

abbrev pub contains : String → List String → Bool
contains s [] = false
contains s (x ∷ xs) = x == s || contains s xs

abbrev pub or_default : Option (List String) → List String
or_default none = default_reverts
or_default (some l) = l

-- `exceptions[fnName]`, or the entry of the name before `(`; `substring(0, -1)` is empty.
unfoldable pub exception_of :
    Option (Dict FunctionAccessException) → String → Option FunctionAccessException
exception_of none name = none
exception_of (some d) name = elim (lookup name d) [
  | some e ↦ some e
  | none ↦ lookup (elim (index_of b'(' name) [ none ↦ "" | some n ↦ str_take n name ]) d
]

-- The arguments of the exception, `none` for the defaults of the function's inputs.
unfoldable pub args_of : Option FunctionAccessException → Option (List String)
args_of (some (with_args args r)) = some args
args_of _ = none

-- What is left of an exception after its arguments are taken: `none`, `true` or a reason.
pub data Expected : Type 0 where
  anything_listed : Expected
  open_to_all : Expected
  exactly : String → Expected

unfoldable pub expected_of : Option FunctionAccessException → Expected
expected_of none = anything_listed
expected_of (some allowed) = open_to_all
expected_of (some (reason r)) = exactly r
expected_of (some (with_args args none)) = anything_listed
expected_of (some (with_args args (some r))) = exactly r

module _ (is_impl : Bool) (expected_reverts : List String) where
  reason_fits : Expected → String → Bool
  reason_fits anything_listed message = contains message expected_reverts
  reason_fits open_to_all message = false
  reason_fits (exactly r) message = r == message

  -- `handleError`, true where the error is accepted.
  unfoldable pub accepts_error : Expected → Option String → (has_reason : Bool) → Bool
  unfolding reason_fits
  accepts_error expected none has_reason = false
  accepts_error expected (some message) true = reason_fits expected (trim message)
  accepts_error expected (some message) false =
      is_impl
      && (trim message == "function call to a non-contract account"
          || trim message == "function selector was not recognized and there's no fallback function"
          || trim message == "<<MISSING>>")

  -- The `catch` block.
  unfoldable pub accepts_failure : Expected → CallOutcome → Bool
  unfolding accepts_error substring_after
  accepts_failure expected returned = false
  accepts_failure expected (estimate_failed message) =
      elim (substring_after message "execution reverted: " false) [
        | some text ↦ accepts_error expected (some text) true
        | none ↦
            if starts_with message "execution reverted"
            then true
            else accepts_error expected (some "<<MISSING>>") false
      ]
  accepts_failure expected (failed message) =
      if message == "Transaction reverted without a reason string"
      then accepts_error expected (some "") true
      else elim (if is_impl then substring_after message "Transaction reverted: " false else none) [
        | some text ↦ accepts_error expected (some text) false
        | none ↦ accepts_error expected (revert_reason message) true
      ]

  -- A function that is open to all is not tried.
  accepts_outcome : Expected → CallOutcome → Bool
  accepts_outcome open_to_all outcome = true
  accepts_outcome anything_listed outcome = accepts_failure anything_listed outcome
  accepts_outcome (exactly r) outcome = accepts_failure (exactly r) outcome

  -- One round of the loop, true where it reports no error. `call` runs a function with the
  -- arguments of the exception, or with default ones.
  unfoldable pub check_function :
      (String → Option (List String) → CallOutcome)
      → Option (Dict FunctionAccessException)
      → FunctionDesc
      → Bool
  unfolding accepts_outcome accepts_failure exception_of expected_of args_of
  check_function call exceptions f =
      if not (is_mutable f.mutability)
      then true
      else (let e = exception_of exceptions f.signature in
          accepts_outcome (expected_of e) (call f.signature (args_of e)))

-- What it throws is named by the function instead of the error that the call gave.
-- The loop: with `check_all` it goes on after an error and fails at the end.
unfoldable pub check_functions :
    (FunctionDesc → Bool) → Bool → String → List FunctionDesc → Bool → Result (Unit {0})
check_functions check check_all name [] has_errors =
    if has_errors then thrown ("Access errors were found for " <> name) else ok tt
check_functions check check_all name (f ∷ fs) has_errors =
    let next = check_functions check check_all name fs (if check f then has_errors else true) in
    if check f || check_all then next else thrown (name <> "." <> f.signature)

module _ (call : String → Option (List String) → CallOutcome) where
  unfoldable pub verify_mutable_access :
      String
      → (is_impl : Bool) → Option (Dict FunctionAccessException)
      → Option (List String)
      → (check_all : Bool) → List FunctionDesc
      → Result (Unit {0})
  unfolding check_functions check_function
  verify_mutable_access name is_impl exceptions expected check_all functions =
      check_functions (check_function is_impl (or_default expected) call exceptions) check_all name
        functions false

  abbrev functions_of : Option ContractAccessExceptions → Option (Dict FunctionAccessException)
  functions_of none = none
  functions_of (some e) = some e.functions

  abbrev reasons_of_entry : Option ContractAccessExceptions → Option (List String)
  reasons_of_entry none = none
  reasons_of_entry (some e) = e.reasons

  abbrev overridden : Option ContractAccessExceptions → Option (Dict FunctionAccessException)
  overridden none = none
  overridden (some e) = elim e.impl_override [
    | none ↦ some e.functions
    | some over ↦ some (merge e.functions over)
  ]

  abbrev has_override : Option ContractAccessExceptions → Bool
  has_override none = false
  has_override (some e) = is_some e.impl_override

  unfoldable pub verify_contract_mutable_access :
      String → Bool → List FunctionDesc → Result (Unit {0})
  unfolding verify_mutable_access get_contract_access_exceptions merge
  verify_contract_mutable_access name check_all functions =
      let e = get_contract_access_exceptions name in
      verify_mutable_access name (has_override e) (overridden e) (reasons_of_entry e) check_all
        functions

  unfoldable pub verify_proxy_mutable_access : String → Bool → List FunctionDesc → Result (Unit {0})
  unfolding verify_mutable_access get_contract_access_exceptions
  verify_proxy_mutable_access name check_all functions =
      let e = get_contract_access_exceptions name in
      verify_mutable_access name false (functions_of e) (reasons_of_entry e) check_all functions
