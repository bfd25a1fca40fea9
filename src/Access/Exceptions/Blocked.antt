-- ===== src/Access/Exceptions/Blocked.antt =====
-- What the table says of the initializers of the implementations.
use augmented_finance_protoc.Prelude.{
  String, ◌≡◌, refl, Bool, true, false, ◌&&◌, [], ◌∷◌, none, some, arith, ◌==◌, eq_iff, Dict,
  lookup,
}
use augmented_finance_protoc.Access.Exceptions.Shared.{
  FunctionAccessException, allowed, reason, with_args, ContractAccessExceptions,
}
use augmented_finance_protoc.Access.Exceptions.{default_exceptions, get_contract_access_exceptions}

is_blocked : FunctionAccessException → Bool
is_blocked (reason r) = r == "initializer blocked"
is_blocked _ = false

all_blocked : Dict FunctionAccessException → Bool
all_blocked [] = true
all_blocked ((k, e) ∷ d) = is_blocked e && all_blocked d

entry_blocks : ContractAccessExceptions → Bool
entry_blocks e = elim e.impl_override [ none ↦ true | some over ↦ all_blocked over ]

table_blocks : Dict ContractAccessExceptions → Bool
table_blocks [] = true
table_blocks ((k, e) ∷ d) = entry_blocks e && table_blocks d

default_exceptions-blocks : table_blocks default_exceptions ≡ true
unfolding table_blocks entry_blocks all_blocked is_blocked default_exceptions
default_exceptions-blocks = refl

lookup-blocks :
    (name : String) (d : Dict ContractAccessExceptions) (e : ContractAccessExceptions)
    → table_blocks d ≡ true
    → lookup name d ≡ some e
    → entry_blocks e ≡ true
unfolding table_blocks lookup
lookup-blocks name [] e t h = ground arith
lookup-blocks name ((k, x) ∷ d) e t h = ground (arith, lookup-blocks name d e)

lookup-all_blocked :
    (f : String) (d : Dict FunctionAccessException) (x : FunctionAccessException)
    → all_blocked d ≡ true
    → lookup f d ≡ some x
    → x ≡ reason "initializer blocked"
unfolding all_blocked is_blocked lookup
lookup-all_blocked f [] x t h = ground arith
lookup-all_blocked f ((k, reason r) ∷ d) x t h =
    ground (arith, lookup-all_blocked f d x, eq_iff r "initializer blocked")
lookup-all_blocked f ((k, allowed) ∷ d) x t h = ground arith
lookup-all_blocked f ((k, with_args a r) ∷ d) x t h = ground arith

-- Whatever the contract, every function that the table overrides for its implementation is expected
-- to revert with the reason `initializer blocked`.
get_contract_access_exceptions-blocked :
    (name f : String) (e : ContractAccessExceptions) (over : Dict FunctionAccessException)
    (x : FunctionAccessException)
    → get_contract_access_exceptions name ≡ some e
    → e.impl_override ≡ some over
    → lookup f over ≡ some x
    → x ≡ reason "initializer blocked"
unfolding entry_blocks get_contract_access_exceptions
get_contract_access_exceptions-blocked name f e over x h o l =
    lookup-all_blocked f over x
      (ground (arith, lookup-blocks name default_exceptions e default_exceptions-blocks)) l
