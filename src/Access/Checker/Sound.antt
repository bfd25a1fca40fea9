-- ===== src/Access/Checker/Sound.antt =====
-- What a check without errors says of the contract.
use augmented_finance_protoc.Prelude.{
  String, ◌≡◌, refl, sym, ◌≢◌, ◌↔◌, Bool, true, false, List, [], ◌∷◌, Option, none, some, arith,
  All, ◌==◌, eq_iff, Dict, ok, Bool-cases, inl, inr, ◌⊎◌, if◌then◌else◌, starts_with,
}
use augmented_finance_protoc.Access.Exceptions.Shared.{FunctionAccessException}
use augmented_finance_protoc.Access.Checker.{
  CallOutcome, returned, estimate_failed, failed, FunctionDesc, is_mutable, contains, or_default,
  exception_of, args_of, Expected, anything_listed, open_to_all, exactly, expected_of,
  accepts_error, accepts_failure, accepts_outcome, check_function, check_functions,
  verify_mutable_access, revert_reason, trim, substring_after,
}

check_functions-All :
    (check : FunctionDesc → Bool) (check_all : Bool) (name : String) (fs : List FunctionDesc)
    (has_errors : Bool)
    → check_functions check check_all name fs has_errors ≡ ok tt
    → (has_errors ≡ false) × All (λ f. check f ≡ true) fs
unfolding check_functions
check_functions-All check check_all name [] has_errors h = (ground arith, tt)
check_functions-All check check_all name (f ∷ fs) has_errors h = elim (Bool-cases (check f)) [
  | inl e ↦
      let (clean, rest) = check_functions-All check check_all name fs has_errors (ground arith) in
      (clean, (e, rest))
  | inr e ↦ elim (Bool-cases check_all) [
    | inl go ↦
        let (dirty, rest) = check_functions-All check check_all name fs true (ground arith) in
        absurd (ground arith)
    | inr stop ↦ absurd (ground arith)
  ]
]

All-check_functions :
    (check : FunctionDesc → Bool) (check_all : Bool) (name : String) (fs : List FunctionDesc)
    → All (λ f. check f ≡ true) fs
    → check_functions check check_all name fs false ≡ ok tt
unfolding check_functions
All-check_functions check check_all name [] h = refl
All-check_functions check check_all name (f ∷ fs) (e, h) =
    rw e (All-check_functions check check_all name fs h)

-- A check passes with the flag `check_all` exactly when it passes without it.
pub verify_mutable_access-check_all :
    (call : String → Option (List String) → CallOutcome) (name : String) (is_impl : Bool)
    (exceptions : Option (Dict FunctionAccessException)) (expected : Option (List String))
    (functions : List FunctionDesc)
    → (verify_mutable_access call name is_impl exceptions expected true functions ≡ ok tt)
      ↔ (verify_mutable_access call name is_impl exceptions expected false functions ≡ ok tt)
unfolding verify_mutable_access
verify_mutable_access-check_all call name is_impl exceptions expected functions = (
  λ h.
      All-check_functions _ false name functions
        (check_functions-All _ true name functions false h).1,
  λ h.
      All-check_functions _ true name functions
        (check_functions-All _ false name functions false h).1,
)

-- A reason fits if the exception names it, or if there is no exception and it is in the list.
abbrev pub Fits : List String → Expected → String → Type 0
Fits reasons anything_listed r = contains r reasons ≡ true
Fits reasons open_to_all r = ⊥
Fits reasons (exactly expected) r = r ≡ expected

-- The reason that a failed call has.
abbrev pub failure_reason : String → Option String
failure_reason m =
    if m == "Transaction reverted without a reason string" then some "" else revert_reason m

-- The reason of a failed gas estimate; a revert may have none.
abbrev pub estimate_reason : String → Option String
estimate_reason m = substring_after m "execution reverted: " false

abbrev pub IsBareRevert : String → Type 0
IsBareRevert m = (estimate_reason m ≡ none) × (starts_with m "execution reverted" ≡ true)

abbrev pub HasReason : List String → Expected → Option String → Type 0
HasReason reasons e given = (r : String) × (given ≡ some r) × Fits reasons e (trim r)

-- The call did not return, and it failed with a reason that fits; only a failed gas estimate may also
-- be a revert without any reason.
abbrev pub IsRejected : List String → Expected → CallOutcome → Type 0
IsRejected reasons e returned = ⊥
IsRejected reasons e (estimate_failed m) = HasReason reasons e (estimate_reason m) ⊎ IsBareRevert m
IsRejected reasons e (failed m) = HasReason reasons e (failure_reason m)

accepts_error-Fits :
    (reasons : List String) (e : Expected) (message : Option String)
    → accepts_error false reasons e message true ≡ true
    → (r : String) × (message ≡ some r) × Fits reasons e (trim r)
unfolding accepts_error
accepts_error-Fits reasons e none h = ground arith
accepts_error-Fits reasons anything_listed (some r) h = (r, refl, h)
accepts_error-Fits reasons open_to_all (some r) h = ground arith
accepts_error-Fits reasons (exactly expected) (some r) h =
    (r, refl, sym ((eq_iff expected (trim r)).0 h))

rejects_missing :
    (reasons : List String) (e : Expected)
    → accepts_error false reasons e (some "<<MISSING>>") false ≡ true
    → ⊥
unfolding accepts_error
rejects_missing reasons e h = ground arith

-- The branch for a failed gas estimate, on the reason that was found.
estimate_fits :
    (reasons : List String) (e : Expected) (m : String) (found : Option String)
    → (elim found as (λ _. Bool) [
      | some text ↦ accepts_error false reasons e (some text) true
      | none ↦
          if starts_with m "execution reverted"
          then true
          else accepts_error false reasons e (some "<<MISSING>>") false
    ])
      ≡ true
    → HasReason reasons e found ⊎ ((found ≡ none) × (starts_with m "execution reverted" ≡ true))
estimate_fits reasons e m (some r) h = inl (accepts_error-Fits reasons e (some r) h)
estimate_fits reasons e m none h = elim (Bool-cases (starts_with m "execution reverted")) [
  | inl starts ↦ inr (refl, starts)
  | inr starts ↦ absurd (rejects_missing reasons e (rw starts at h))
]

accepts_failure-IsRejected :
    (reasons : List String) (e : Expected) (outcome : CallOutcome)
    → accepts_failure false reasons e outcome ≡ true
    → IsRejected reasons e outcome
unfolding accepts_failure
accepts_failure-IsRejected reasons e returned h = ground arith
accepts_failure-IsRejected reasons e (estimate_failed m) h =
    estimate_fits reasons e m (estimate_reason m) h
accepts_failure-IsRejected reasons e (failed m) h =
    elim (Bool-cases (m == "Transaction reverted without a reason string")) [
      | inl b ↦ rw b (accepts_error-Fits reasons e (some "") (rw b at h))
      | inr b ↦ rw b (accepts_error-Fits reasons e (revert_reason m) (rw b at h))
    ]

-- The exception and the outcome of one function.
abbrev pub IsGuarded :
    (String → Option (List String) → CallOutcome)
    → Option (Dict FunctionAccessException)
    → List String
    → FunctionDesc
    → Type 0
IsGuarded call exceptions reasons f =
    is_mutable f.mutability ≡ true
    → expected_of (exception_of exceptions f.signature) ≢ open_to_all
    → IsRejected reasons (expected_of (exception_of exceptions f.signature))
        (call f.signature (args_of (exception_of exceptions f.signature)))

accepts_outcome-IsRejected :
    (reasons : List String) (e : Expected) (outcome : CallOutcome)
    → accepts_outcome false reasons e outcome ≡ true
    → e ≢ open_to_all
    → IsRejected reasons e outcome
unfolding accepts_outcome
accepts_outcome-IsRejected reasons open_to_all outcome h closed = absurd (closed refl)
accepts_outcome-IsRejected reasons anything_listed outcome h closed =
    accepts_failure-IsRejected reasons anything_listed outcome h
accepts_outcome-IsRejected reasons (exactly r) outcome h closed =
    accepts_failure-IsRejected reasons (exactly r) outcome h

check_function-IsGuarded :
    (call : String → Option (List String) → CallOutcome)
    (exceptions : Option (Dict FunctionAccessException)) (reasons : List String) (f : FunctionDesc)
    → check_function false reasons call exceptions f ≡ true
    → IsGuarded call exceptions reasons f
unfolding check_function
check_function-IsGuarded call exceptions reasons f h mutable closed =
    accepts_outcome-IsRejected reasons (expected_of (exception_of exceptions f.signature)) _
      (rw mutable at h) closed

All-map {ℓ} :
    {A : Type ℓ} (P Q : A → Type 0) → ((a : A) → P a → Q a) → (xs : List A) → All P xs → All Q xs
All-map P Q f [] h = tt
All-map P Q f (x ∷ xs) (p, h) = (f x p, All-map P Q f xs h)

-- If the check of a contract that is no implementation behind a proxy passes, then for every function that
-- can change state and that the exceptions do not open to all, the call without roles failed with a
-- reason that is the one of its exception or, with no exception, in the list of expected reasons, where
-- the message for no reason counts as the empty reason; only a failed gas estimate may also be a revert
-- without any reason.
pub verify_mutable_access-IsGuarded :
    (call : String → Option (List String) → CallOutcome) (name : String)
    (exceptions : Option (Dict FunctionAccessException)) (expected : Option (List String))
    (check_all : Bool) (functions : List FunctionDesc)
    → verify_mutable_access call name false exceptions expected check_all functions ≡ ok tt
    → All (IsGuarded call exceptions (or_default expected)) functions
unfolding verify_mutable_access
verify_mutable_access-IsGuarded call name exceptions expected check_all functions h =
    All-map _ _ (check_function-IsGuarded call exceptions (or_default expected)) functions
      (check_functions-All _ check_all name functions false h).1
