-- ===== src/Commands/Tokens/Pools.antt =====
-- Which pool a name stands for.
use augmented_finance_protoc.Prelude.{
  String, ◌≡◌, ◌∙◌, List, [], ◌∷◌, Option, none, some, arith, if◌then◌else◌, ◌==◌, eq_iff, Dict,
  lookup, insert, lookup-insert, Option-cases, inl, inr,
}
use augmented_finance_protoc.Commands.Tokens.{PoolEntry, pool_key, register_pools}

-- The pool that was the first to answer with a key.
abbrev pub first_pool : String → List PoolEntry → Option String
first_pool k [] = none
first_pool k (p ∷ ps) =
    let rest = first_pool k ps in if pool_key p == k then some p.address else rest

abbrev pub or_else : Option String → Option String → Option String
or_else (some a) b = some a
or_else none b = b

-- Whichever pools are known already, a name stands for the pool that had it first, the known ones before
-- those that are added: a later pool of the same name never takes its place.
lookup-register_pools :
    (k : String) (ps : List PoolEntry) (pools : Dict String)
    → lookup k (register_pools ps pools) ≡ or_else (lookup k pools) (first_pool k ps)
unfolding register_pools
lookup-register_pools k [] pools = ground arith
lookup-register_pools k (p ∷ ps) pools = elim (Option-cases (lookup (pool_key p) pools)) [
  | inl n ↦ rw n (
      lookup-register_pools k ps (insert (pool_key p) p.address pools)
      ∙ ground (arith, lookup-insert (pool_key p) k p.address pools, eq_iff (pool_key p) k, n))
  | inr (a, e) ↦ rw e (lookup-register_pools k ps pools ∙ ground (arith, eq_iff (pool_key p) k, e))
]
