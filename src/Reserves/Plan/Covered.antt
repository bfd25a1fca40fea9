-- ===== src/Reserves/Plan/Covered.antt =====
-- Every reserve that the loop chooses has the flags set by which its token implementations are
-- deployed.
use std.Path.{subst}
use augmented_finance_protoc.Prelude.{
  String, Bool, true, ◌≡◌, refl, ◌&&◌, ◌||◌, List, [], ◌∷◌, Option, none, some, arith, Result, ok,
  thrown, continue, Dict, to_lower_case, lookup, lookup-insert, All, All-append, eq_iff, Bool-cases,
  Option-cases, inl, inr,
}
use augmented_finance_protoc.Helpers.Addresses.{AddressLib, falsy_or_zero_address}
use augmented_finance_protoc.Reserves.Strategies.{
  Market, ReserveParams, StrategyFactoryInfo, deploy_fn, get_strategy_factory,
}
use augmented_finance_protoc.Reserves.Plan.{
  StrategyInfo, DepositType, generic, delegation_aware, ReserveInfo, InitPlan, deposit_type,
  with_strategy, push_typed, push_reserve, new_strategy, use_strategy, missing_asset, plan_at,
  plan_reserves, has,
}

abbrev pub deposit_flag : InitPlan → DepositType → Bool
deposit_flag plan generic = plan.has_deposit
deposit_flag plan delegation_aware = plan.has_delegation_aware

abbrev pub debt_flag : InitPlan → Bool → Bool
debt_flag plan external = external || (plan.has_variable_debt && plan.has_stable_debt)

abbrev pub is_covered : InitPlan → ReserveInfo → Bool
is_covered plan info = deposit_flag plan (info.deposit_token_type) && debt_flag plan (info.external)

abbrev pub AreCovered : InitPlan → List ReserveInfo → Type 0
AreCovered plan = All (λ info. is_covered plan info ≡ true)

abbrev pub IsCovered : InitPlan → Type 0
IsCovered plan =
    AreCovered plan plan.reserve_info
    × ((k : String) (i : StrategyInfo)
        → lookup k plan.strategies ≡ some i
        → debt_flag plan i.external ≡ true)

All-mono :
    {A : Type 0} (P Q : A → Type 0) → ((x : A) → P x → Q x) → (xs : List A) → All P xs → All Q xs
All-mono P Q f [] h = tt
All-mono P Q f (x ∷ xs) (p, h) = (f x p, All-mono P Q f xs h)

-- The flags of one plan are those of the other, or more.
abbrev Grows : InitPlan → InitPlan → Type 0
Grows plan plan' =
    ((t : DepositType) → deposit_flag plan t ≡ true → deposit_flag plan' t ≡ true)
    × ((external : Bool) → debt_flag plan external ≡ true → debt_flag plan' external ≡ true)

AreCovered-Grows :
    (plan plan' : InitPlan) (infos : List ReserveInfo)
    → Grows plan plan'
    → AreCovered plan infos
    → AreCovered plan' infos
AreCovered-Grows plan plan' infos (t, d) h =
    All-mono (λ info. is_covered plan info ≡ true) (λ info. is_covered plan' info ≡ true)
      (λ info e. ground (arith, t (info.deposit_token_type), d (info.external))) infos h

with_strategy-IsCovered :
    (name : String) (info : StrategyInfo) (plan : InitPlan)
    → IsCovered plan
    → IsCovered (with_strategy name info plan)
      × (debt_flag (with_strategy name info plan) info.external ≡ true)
unfolding with_strategy
with_strategy-IsCovered name info plan (c, s) =
    let grows : Grows plan (with_strategy name info plan) =
      (λ t. elim t [ generic ↦ λ e. e | delegation_aware ↦ λ e. e ], λ x e. ground arith) in
    (
      (
        AreCovered-Grows plan (with_strategy name info plan) plan.reserve_info grows c,
        λ k i e. ground (arith, lookup-insert name k info plan.strategies, eq_iff name k, s k i),
      ),
      ground arith,
    )

push_typed-keeps :
    (symbol addr : String) (params : ReserveParams) (info : StrategyInfo) (plan : InitPlan)
    (t u : DepositType)
    → deposit_flag plan u ≡ true
    → deposit_flag (push_typed symbol addr params info plan t) u ≡ true
push_typed-keeps symbol addr params info plan generic generic e = refl
push_typed-keeps symbol addr params info plan generic delegation_aware e = e
push_typed-keeps symbol addr params info plan delegation_aware generic e = e
push_typed-keeps symbol addr params info plan delegation_aware delegation_aware e = refl

push_typed-flag :
    (symbol addr : String) (params : ReserveParams) (info : StrategyInfo) (plan : InitPlan)
    (t : DepositType)
    → deposit_flag (push_typed symbol addr params info plan t) t ≡ true
push_typed-flag symbol addr params info plan generic = refl
push_typed-flag symbol addr params info plan delegation_aware = refl

push_typed-IsCovered :
    (symbol addr : String) (params : ReserveParams) (info : StrategyInfo) (plan : InitPlan)
    (t : DepositType)
    → IsCovered plan
    → debt_flag plan info.external ≡ true
    → IsCovered (push_typed symbol addr params info plan t)
push_typed-IsCovered symbol addr params info plan t (c, s) e =
    let next = push_typed symbol addr params info plan t in
    let grows : Grows plan next = (push_typed-keeps symbol addr params info plan t, λ x d. d) in
    (
      All-append (λ i. is_covered next i ≡ true) (plan.reserve_info) _
          (AreCovered-Grows plan next plan.reserve_info grows c)
          (ground (arith, push_typed-flag symbol addr params info plan t), tt),
      s,
    )

push_reserve-IsCovered :
    (symbol addr : String) (params : ReserveParams) (info : StrategyInfo) (plan : InitPlan)
    → IsCovered plan
    → debt_flag plan info.external ≡ true
    → IsCovered (push_reserve symbol addr params info plan)
unfolding push_reserve lookup
push_reserve-IsCovered symbol addr params info plan h e =
    elim (Option-cases (deposit_type (params.deposit_token_impl))) [
      | inl n ↦ rw (push_reserve, n) h
      | inr (t, p) ↦ rw (push_reserve, p) (push_typed-IsCovered symbol addr params info plan t h e)
    ]

-- The plan that an action returned.
abbrev pub Returned : {W A : Type 0} (P : A → Type 0) → Result A × W → Type 0
Returned P (ok a, w) = P a
Returned P (thrown e, w) = Unit

pub Returned-continue :
    {W A B : Type 0} (P : A → Type 0) (Q : B → Type 0) (r : Result A × W) (f : A → W → Result B × W)
    → Returned P r
    → ((a : A) (w : W) → P a → Returned Q (f a w))
    → Returned Q (continue f r)
Returned-continue P Q (ok a, w) f h k = k a w h
Returned-continue P Q (thrown e, w) f h k = tt

pub Returned-any : {W A : Type 0} (r : Result A × W) → Returned (λ a. Unit {0}) r
Returned-any (ok a, w) = tt
Returned-any (thrown e, w) = tt

pub Returned-ok :
    {W A : Type 0} (P : A → Type 0) (r : Result A × W) (a : A) (w : W)
    → r ≡ (ok a, w)
    → Returned P r
    → P a
Returned-ok P r a w e h = subst (Returned P) e h

module _ {W : Type 0} (lib : AddressLib) (m : Market W) where
  new_strategy-IsCovered :
      (symbol addr : String) (params : ReserveParams) (plan : InitPlan)
      (f : Option StrategyFactoryInfo) (w : W)
      → IsCovered plan
      → Returned IsCovered (new_strategy lib m symbol addr params plan f w)
  unfolding new_strategy
  new_strategy-IsCovered symbol addr params plan none w h = h
  new_strategy-IsCovered symbol addr params plan (some f) w h =
      Returned-continue (λ a. Unit {0}) IsCovered (deploy_fn lib m (f.kind) (params.strategy) w) _
        (Returned-any _)
        (λ address w' t.
          let info : StrategyInfo = record { address = address; external = f.external } in
          let next = with_strategy-IsCovered params.strategy.name info plan h in
          push_reserve-IsCovered symbol addr params info _ (next.0) (next.1))

  use_strategy-IsCovered :
      (symbol addr : String) (params : ReserveParams) (plan : InitPlan)
      (found : Option StrategyInfo) (w : W)
      → lookup params.strategy.name plan.strategies ≡ found
      → IsCovered plan
      → Returned IsCovered (use_strategy lib m symbol addr params plan found w)
  unfolding use_strategy
  use_strategy-IsCovered symbol addr params plan none w e h =
      new_strategy-IsCovered symbol addr params plan (get_strategy_factory (params.strategy)) w h
  use_strategy-IsCovered symbol addr params plan (some info) w e h =
      push_reserve-IsCovered symbol addr params info plan h (h.1 (params.strategy.name) info e)

  module _ (opt : Bool) (addresses : Dict String) (existing : List String) where
    missing_asset-IsCovered :
        (symbol : String) (plan : InitPlan) (w : W)
        → IsCovered plan
        → Returned IsCovered (missing_asset lib m opt addresses existing symbol plan w)
    unfolding missing_asset
    missing_asset-IsCovered symbol plan w h = elim (Bool-cases opt) [
      | inl e ↦ rw e h
      | inr e ↦ rw e tt
    ]

    plan_at-IsCovered :
        (symbol : String) (params : ReserveParams) (plan : InitPlan) (found : Option String) (w : W)
        → IsCovered plan
        → Returned IsCovered (plan_at lib m opt addresses existing symbol params plan found w)
    unfolding plan_at
    plan_at-IsCovered symbol params plan none w h = missing_asset-IsCovered symbol plan w h
    plan_at-IsCovered symbol params plan (some addr) w h =
        elim (Bool-cases (falsy_or_zero_address lib (some addr))) [
          | inl e ↦ rw e (missing_asset-IsCovered symbol plan w h)
          | inr e ↦ elim (Bool-cases (has (to_lower_case addr) existing)) [
            | inl x ↦ rw (e, x) h
            | inr x ↦ rw (e, x) (use_strategy-IsCovered symbol addr params plan _ w refl h)
          ]
        ]

    pub plan_reserves-IsCovered :
        (params : Dict ReserveParams) (plan : InitPlan) (w : W)
        → IsCovered plan
        → Returned IsCovered (plan_reserves lib m opt addresses existing params plan w)
    unfolding plan_reserves
    plan_reserves-IsCovered [] plan w h = h
    plan_reserves-IsCovered ((symbol, p) ∷ rest) plan w h =
        Returned-continue IsCovered IsCovered
          (plan_at lib m opt addresses existing symbol p plan (lookup symbol addresses) w) _
          (plan_at-IsCovered symbol p plan (lookup symbol addresses) w h)
          (plan_reserves-IsCovered rest)
