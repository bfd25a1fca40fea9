-- ===== src/Tests/Access.antt =====
-- The access checks and the verification of contracts at concrete data.
use augmented_finance_protoc.Prelude.{
  ℕ, suc, ◌≤◌, ◌<◌, String, ◌≡◌, refl, ◌↔◌, Bool, true, false, List, [], ◌∷◌, Option, none, some,
  arith, ok, thrown, Dict, lookup, All, ◌==◌, index_of, str_take, index_of_text, str_drop, ltb,
  if◌then◌else◌, zero,
}
use augmented_finance_protoc.Access.Exceptions.{get_contract_access_exceptions}
use augmented_finance_protoc.Access.Exceptions.Shared.{
  FunctionAccessException, reason, stake_token_impl_access,
}
use augmented_finance_protoc.Access.Exceptions.Blocked.{}
use augmented_finance_protoc.Access.Checker.Unquote.{revert_reason}
use augmented_finance_protoc.Access.Checker.{
  CallOutcome, returned, estimate_failed, failed, Mutability, FunctionDesc, or_default, trim,
  verify_mutable_access,
}
use augmented_finance_protoc.Access.Checker.Sound.{
  IsGuarded, verify_mutable_access-IsGuarded, verify_mutable_access-check_all,
}
use augmented_finance_protoc.Verification.Proxy.{EtherscanResponse, is_ok, is_pending, verify_proxy}
use augmented_finance_protoc.Verification.Proxy.Bounds.{
  Script, scripted, none_yet, Trial, tried, verify_proxy-bounds, verify_proxy-succeeds,
}

abbrev guarded_call : String → Option (List String) → CallOutcome
guarded_call name args =
    if name == "initialize(address)"
    then failed "Transaction reverted without a reason string"
    else (if name == "pause()"
        then failed "VM Exception while processing transaction: reverted with reason string '42'"
        else estimate_failed "execution reverted: 42")

abbrev sample_functions : List FunctionDesc
sample_functions =
    record { signature = "owner()"; mutability = Mutability.is_view }
    ∷ record { signature = "setOwner(address)"; mutability = Mutability.is_nonpayable }
    ∷ record { signature = "initialize(address)"; mutability = Mutability.is_nonpayable }
    ∷ record { signature = "pause()"; mutability = Mutability.is_nonpayable }
    ∷ []

abbrev sample_exceptions : Option (Dict FunctionAccessException)
sample_exceptions = some (("initialize", reason "") ∷ [])

sample_check :
    verify_mutable_access guarded_call "X" false sample_exceptions
      (some ("42" ∷ []))
      true
      sample_functions
    ≡ ok tt
unfolding verify_mutable_access lookup index_of str_take index_of_text trim str_drop revert_reason
sample_check = refl

open_check :
    verify_mutable_access (λ _ _. returned) "X" false sample_exceptions none true sample_functions
    ≡ thrown "Access errors were found for X"
unfolding verify_mutable_access lookup index_of str_take
open_check = refl

verify_mutable_access-IsGuarded_example :
    All (IsGuarded guarded_call sample_exceptions (or_default (some ("42" ∷ [])))) sample_functions
verify_mutable_access-IsGuarded_example =
    verify_mutable_access-IsGuarded guarded_call "X" sample_exceptions (some ("42" ∷ [])) true
      sample_functions sample_check

verify_mutable_access-check_all_example :
    (verify_mutable_access guarded_call "X" false sample_exceptions
        (some ("42" ∷ []))
        true
        sample_functions
      ≡ ok tt)
    ↔ (verify_mutable_access guarded_call "X" false sample_exceptions
          (some ("42" ∷ []))
          false
          sample_functions
        ≡ ok tt)
verify_mutable_access-check_all_example =
    verify_mutable_access-check_all guarded_call "X" false sample_exceptions (some ("42" ∷ []))
      sample_functions

abbrev pending : EtherscanResponse
pending = record { status = some 0; message = "Pending in queue" }

abbrev accepted : EtherscanResponse
accepted = record { status = some 1; message = "guid" }

abbrev two_pending : Script
two_pending = record {
  first = accepted;
  later = λ i. if ltb i 2 then pending else accepted;
  form_works = false;
}

-- Two answers, and then a request that throws.
abbrev lost_connection : Trial
lost_connection = record {
  submission = ok accepted;
  answers = λ i. if ltb i 2 then ok pending else thrown "timeout";
  form = thrown "no form";
}

verify_proxy-bounds_example :
    (r : Bool × String) × ((verify_proxy (tried lost_connection) none_yet).0 ≡ ok r)
    × ((verify_proxy (tried lost_connection) none_yet).1.statuses ≤ 21)
    × ((verify_proxy (tried lost_connection) none_yet).1.forms ≤ 1)
verify_proxy-bounds_example = verify_proxy-bounds lost_connection

pending_before :
    (j : ℕ)
    → j < 2
    → (is_ok (two_pending.later j) ≡ false) × (is_pending (two_pending.later j) ≡ true)
pending_before zero h = (refl, refl)
pending_before (suc zero) h = (refl, refl)
pending_before (suc (suc j)) h = absurd (omega arith)

verify_proxy-succeeds_example :
    ((verify_proxy (scripted two_pending) none_yet).0 ≡ ok (true, ""))
    × ((verify_proxy (scripted two_pending) none_yet).1.statuses ≡ 3)
verify_proxy-succeeds_example =
    verify_proxy-succeeds two_pending 2 (omega arith) refl pending_before refl

stake_token_blocked : get_contract_access_exceptions "StakeTokenImpl" ≡ some stake_token_impl_access
unfolding get_contract_access_exceptions lookup
stake_token_blocked = refl

override_of_stake_token :
    stake_token_impl_access.impl_override
    ≡ some (("initializeStakeToken", reason "initializer blocked") ∷ [])
unfolding stake_token_impl_access
override_of_stake_token = refl

initialize_overridden :
    lookup "initializeStakeToken" (("initializeStakeToken", reason "initializer blocked") ∷ [])
    ≡ some (reason "initializer blocked")
unfolding lookup
initialize_overridden = refl
