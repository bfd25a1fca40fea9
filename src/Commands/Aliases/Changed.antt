-- ===== src/Commands/Aliases/Changed.antt =====
-- Which pools get a new boost factor.
use augmented_finance_protoc.Prelude.{ℕ, String, ◌≡◌, not, List, [], ◌∷◌, Option, ok, Act, keep}
use augmented_finance_protoc.Access.Flags.{reward_rate_admin, flag_value}
use augmented_finance_protoc.Commands.Session.{
  Session, Contract, ContractCall, FunctionFragment, new_call, text,
}
use augmented_finance_protoc.Commands.Aliases.{Market, same_number, factor_value}

-- The pools with the values that they are given.
abbrev pub pairs_of : List String → List (Option ℕ) → List (String × Option ℕ)
pairs_of (p ∷ ps) (v ∷ vs) = (p, v) ∷ pairs_of ps vs
pairs_of _ _ = []

-- The pools whose new value is not the number that the table has.
abbrev pub differing : (String → ℕ) → List String → List (Option ℕ) → List (String × Option ℕ)
differing old pools values = keep (λ p. not (same_number (old p.0) p.1)) (pairs_of pools values)

-- The call that sets one factor.
abbrev pub factor_call : Contract → FunctionFragment → String × Option ℕ → ContractCall
factor_call booster fragment u =
    new_call (flag_value reward_rate_admin) booster (text u.0 ∷ factor_value u.1 ∷ []) fragment

module _ {W : Type 0} (m : Market W) where
  -- The chain answers from a table.
  abbrev pub IsTable : (String → Act W ℕ) → (String → ℕ) → Type 0
  IsTable ask old = (pool : String) (w : W) → ask pool w ≡ (ok (old pool), w)
