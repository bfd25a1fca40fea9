-- ===== src/Reserves/Plan/Chosen.antt =====
-- Which reserves the loop chooses.
use augmented_finance_protoc.Prelude.{
  String, Bool, false, ◌≡◌, refl, List, [], ◌∷◌, Option, none, some, ok, Dict, lookup,
  to_lower_case, All, All-append, Bool-cases, Option-cases, inl, inr,
}
use augmented_finance_protoc.Helpers.Addresses.{AddressLib, falsy_or_zero_address}
use augmented_finance_protoc.Reserves.Strategies.{
  Market, ReserveParams, StrategyFactoryInfo, deploy_fn, get_strategy_factory,
}
use augmented_finance_protoc.Reserves.Plan.{
  StrategyInfo, ReserveInfo, InitPlan, empty_plan, deposit_type, with_strategy, push_reserve,
  new_strategy, use_strategy, missing_asset, plan_at, plan_reserves, has,
}
use augmented_finance_protoc.Reserves.Plan.Covered.{
  Returned, Returned-ok, Returned-continue, Returned-any,
}

module _ {W : Type 0} (lib : AddressLib) (m : Market W) (opt : Bool) (addresses : Dict String)
    (existing : List String) where
  abbrev pub IsChosen : ReserveInfo → Type 0
  IsChosen info =
      (lookup info.symbol addresses ≡ some info.token_address)
      × (falsy_or_zero_address lib (some info.token_address) ≡ false)
      × (has (to_lower_case info.token_address) existing ≡ false)

  abbrev AreChosen : InitPlan → Type 0
  AreChosen plan = All IsChosen plan.reserve_info

  -- An address that passed the guards of the loop.
  abbrev IsFree : String → String → Type 0
  IsFree symbol addr =
      (lookup symbol addresses ≡ some addr)
      × (falsy_or_zero_address lib (some addr) ≡ false)
      × (has (to_lower_case addr) existing ≡ false)

  push_reserve-AreChosen :
      (symbol addr : String) (params : ReserveParams) (info : StrategyInfo) (plan : InitPlan)
      → IsFree symbol addr
      → AreChosen plan
      → AreChosen (push_reserve symbol addr params info plan)
  unfolding push_reserve lookup
  push_reserve-AreChosen symbol addr params info plan g h =
      elim (Option-cases (deposit_type (params.deposit_token_impl))) [
        | inl n ↦ rw (push_reserve, n) h
        | inr (t, p) ↦ rw (push_reserve, p) (All-append IsChosen (plan.reserve_info) _ h (g, tt))
      ]

  new_strategy-AreChosen :
      (symbol addr : String) (params : ReserveParams) (plan : InitPlan)
      (f : Option StrategyFactoryInfo) (w : W)
      → IsFree symbol addr
      → AreChosen plan
      → Returned AreChosen (new_strategy lib m symbol addr params plan f w)
  unfolding new_strategy with_strategy
  new_strategy-AreChosen symbol addr params plan none w g h = h
  new_strategy-AreChosen symbol addr params plan (some f) w g h =
      Returned-continue (λ a. Unit {0}) AreChosen (deploy_fn lib m (f.kind) (params.strategy) w) _
        (Returned-any _)
        (λ address w' t.
          let info : StrategyInfo = record { address = address; external = f.external } in
          push_reserve-AreChosen symbol addr params info
            (with_strategy params.strategy.name info plan) g h)

  use_strategy-AreChosen :
      (symbol addr : String) (params : ReserveParams) (plan : InitPlan)
      (found : Option StrategyInfo) (w : W)
      → IsFree symbol addr
      → AreChosen plan
      → Returned AreChosen (use_strategy lib m symbol addr params plan found w)
  unfolding use_strategy
  use_strategy-AreChosen symbol addr params plan none w g h =
      new_strategy-AreChosen symbol addr params plan (get_strategy_factory (params.strategy)) w g h
  use_strategy-AreChosen symbol addr params plan (some info) w g h =
      push_reserve-AreChosen symbol addr params info plan g h

  missing_asset-AreChosen :
      (symbol : String) (plan : InitPlan) (w : W)
      → AreChosen plan
      → Returned AreChosen (missing_asset lib m opt addresses existing symbol plan w)
  unfolding missing_asset
  missing_asset-AreChosen symbol plan w h = elim (Bool-cases opt) [
    | inl e ↦ rw e h
    | inr e ↦ rw e tt
  ]

  plan_at-AreChosen :
      (symbol : String) (params : ReserveParams) (plan : InitPlan) (found : Option String) (w : W)
      → lookup symbol addresses ≡ found
      → AreChosen plan
      → Returned AreChosen (plan_at lib m opt addresses existing symbol params plan found w)
  unfolding plan_at
  plan_at-AreChosen symbol params plan none w l h = missing_asset-AreChosen symbol plan w h
  plan_at-AreChosen symbol params plan (some addr) w l h =
      elim (Bool-cases (falsy_or_zero_address lib (some addr))) [
        | inl e ↦ rw e (missing_asset-AreChosen symbol plan w h)
        | inr e ↦ elim (Bool-cases (has (to_lower_case addr) existing)) [
          | inl x ↦ rw (e, x) h
          | inr x ↦ rw (e, x) (use_strategy-AreChosen symbol addr params plan _ w (l, e, x) h)
        ]
      ]

  plan_reserves-AreChosen :
      (params : Dict ReserveParams) (plan : InitPlan) (w : W)
      → AreChosen plan
      → Returned AreChosen (plan_reserves lib m opt addresses existing params plan w)
  unfolding plan_reserves
  plan_reserves-AreChosen [] plan w h = h
  plan_reserves-AreChosen ((symbol, p) ∷ rest) plan w h =
      Returned-continue AreChosen AreChosen
        (plan_at lib m opt addresses existing symbol p plan (lookup symbol addresses) w) _
        (plan_at-AreChosen symbol p plan (lookup symbol addresses) w refl h)
        (plan_reserves-AreChosen rest)

-- A reserve that the loop has chosen, when it returns, has the address that is given for its symbol;
-- the address is neither missing, invalid nor zero, and, in lower case, is none of the existing assets.
pub plan_reserves-All-IsChosen :
    {W : Type 0} (lib : AddressLib) (m : Market W) (opt : Bool) (addresses : Dict String)
    (existing : List String) (params : Dict ReserveParams) (plan : InitPlan) (w w' : W)
    → plan_reserves lib m opt addresses existing params empty_plan w ≡ (ok plan, w')
    → All (IsChosen lib m opt addresses existing) plan.reserve_info
plan_reserves-All-IsChosen lib m opt addresses existing params plan w w' e =
    Returned-ok (λ p. All (IsChosen lib m opt addresses existing) p.reserve_info) _ plan w' e
      (plan_reserves-AreChosen lib m opt addresses existing params empty_plan w tt)
