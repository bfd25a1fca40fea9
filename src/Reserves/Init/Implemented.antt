-- ===== src/Reserves/Init/Implemented.antt =====
-- The implementations that the reserves need are there when the inputs are made.
use augmented_finance_protoc.Prelude.{
  String, Bool, true, false, ◌≡◌, refl, ◌∙◌, ◌||◌, List, [], ◌∷◌, Option, none, some, arith, Result,
  ok, thrown, Act, pure, continue, Dict, lookup, map, is_some,
}
use augmented_finance_protoc.Helpers.Addresses.{AddressLib}
use augmented_finance_protoc.Types.ContractIds.{
  ContractId, deposit_token_impl, delegation_aware_deposit_token_impl, stable_debt_token_impl,
  variable_debt_token_impl,
}
use augmented_finance_protoc.Reserves.Strategies.{Market, ReserveParams}
use augmented_finance_protoc.Reserves.Plan.{
  DepositType, generic, delegation_aware, ReserveInfo, InitPlan, empty_plan, plan_reserves,
}
use augmented_finance_protoc.Reserves.Plan.Covered.{
  deposit_flag, AreCovered, IsCovered, plan_reserves-IsCovered, Returned, Returned-ok,
  Returned-continue,
}
use augmented_finance_protoc.Reserves.Init.{
  TokenImpls, TokenNames, InitReserveInput, deploy_if, deploy_impls, token_to_use, debt_impl,
  input_of, input_with, init_input, init_inputs,
}

-- The implementations are those that the flags ask for.
abbrev Supplies : InitPlan → TokenImpls → Type 0
Supplies plan impls =
    (is_some (impls.stable_debt) ≡ plan.has_stable_debt)
    × (is_some (impls.variable_debt) ≡ plan.has_variable_debt)
    × (is_some (impls.deposit) ≡ plan.has_deposit)
    × (is_some (impls.delegation_aware) ≡ plan.has_delegation_aware)

some-is_some :
    {W : Type 0} (r : Result String × W)
    → Returned (λ o. is_some o ≡ true) (continue (λ a. pure (some a)) r)
some-is_some (ok a, w) = refl
some-is_some (thrown e, w) = tt

deploy_if-is_some :
    {W : Type 0} (b : Bool) (deployment : Act W String) (w : W)
    → Returned (λ o. is_some o ≡ b) (deploy_if b deployment w)
deploy_if-is_some false deployment w = refl
deploy_if-is_some true deployment w = some-is_some (deployment w)

deploy_impls-Supplies :
    {W : Type 0} (deploy : ContractId → Act W String) (plan : InitPlan) (w : W)
    → Returned (Supplies plan) (deploy_impls deploy plan w)
unfolding deploy_impls
deploy_impls-Supplies deploy plan w =
    let given : Bool → Option String → Type 0 = λ b o. is_some o ≡ b in
    Returned-continue (given plan.has_stable_debt) (Supplies plan) _ _
      (deploy_if-is_some plan.has_stable_debt (deploy stable_debt_token_impl) w)
      λ s w1 hs.
        Returned-continue (given plan.has_variable_debt) (Supplies plan) _ _
          (deploy_if-is_some plan.has_variable_debt (deploy variable_debt_token_impl) w1)
          λ v w2 hv.
            Returned-continue (given plan.has_deposit) (Supplies plan) _ _
              (deploy_if-is_some plan.has_deposit (deploy deposit_token_impl) w2)
              λ d w3 hd.
                Returned-continue (given plan.has_delegation_aware) (Supplies plan) _ _
                  (deploy_if-is_some plan.has_delegation_aware
                    (deploy delegation_aware_deposit_token_impl) w3)
                  λ g w4 hg. (hs, hv, hd, hg)

token_to_use-is_some :
    (plan : InitPlan) (impls : TokenImpls) (t : DepositType)
    → Supplies plan impls
    → deposit_flag plan t ≡ true
    → is_some (token_to_use impls t) ≡ true
token_to_use-is_some plan impls generic h e = ground arith
token_to_use-is_some plan impls delegation_aware h e = ground arith

input_with-some :
    (names : TokenNames) (info : ReserveInfo) (d s v : Option String)
    → is_some d ≡ true
    → is_some s ≡ true
    → is_some v ≡ true
    → (input : InitReserveInput) × (input_with names info d s v ≡ some input)
      × (input.underlying_asset ≡ info.token_address)
unfolding input_with input_of
input_with-some names info (some d) (some s) (some v) hd hs hv =
    (input_of names info d s v, refl, refl)
input_with-some names info none s v hd hs hv = ground arith
input_with-some names info (some d) none v hd hs hv = ground arith
input_with-some names info (some d) (some s) none hd hs hv = ground arith

debt_impl-is_some :
    (external : Bool) (b : Bool) (o : Option String)
    → is_some o ≡ b
    → external || b ≡ true
    → is_some (debt_impl external o) ≡ true
debt_impl-is_some true b o h e = refl
debt_impl-is_some false b o h e = h ∙ e

init_inputs-some :
    (names : TokenNames) (plan : InitPlan) (impls : TokenImpls) (infos : List ReserveInfo)
    → Supplies plan impls
    → AreCovered plan infos
    → (inputs : List InitReserveInput) × (init_inputs names impls infos ≡ some inputs)
      × (map (λ i. i.underlying_asset) inputs ≡ map (λ i. i.token_address) infos)
unfolding init_inputs init_input
init_inputs-some names plan impls [] h c = ([], refl, refl)
init_inputs-some names plan impls (info ∷ infos) h (c, cs) =
    let (input, e, u) =
      input_with-some names info (token_to_use impls info.deposit_token_type)
        (debt_impl info.external impls.stable_debt) (debt_impl info.external impls.variable_debt)
        (token_to_use-is_some plan impls info.deposit_token_type h (ground arith))
        (debt_impl-is_some info.external _ impls.stable_debt (h.0) (ground arith))
        (debt_impl-is_some info.external _ impls.variable_debt (h.1) (ground arith)) in
    let (inputs, es, us) = init_inputs-some names plan impls infos h cs in
    (input ∷ inputs, ground arith, ground arith)

-- When the loop over the reserves and the deployment of the implementations have returned, no implementation
-- that a chosen reserve needs is `undefined`: the input of every chosen reserve is made, in their
-- order and for their assets.
pub init_inputs-made :
    {W : Type 0} (lib : AddressLib) (m : Market W) (deploy : ContractId → Act W String) (opt : Bool)
    (addresses : Dict String) (existing : List String) (names : TokenNames)
    (params : Dict ReserveParams) (plan : InitPlan) (impls : TokenImpls) (w w1 w2 : W)
    → plan_reserves lib m opt addresses existing params empty_plan w ≡ (ok plan, w1)
    → deploy_impls deploy plan w1 ≡ (ok impls, w2)
    → (inputs : List InitReserveInput) × (init_inputs names impls plan.reserve_info ≡ some inputs)
      × (map (λ i. i.underlying_asset) inputs ≡ map (λ i. i.token_address) plan.reserve_info)
unfolding lookup
init_inputs-made lib m deploy opt addresses existing names params plan impls w w1 w2 e d =
    init_inputs-some names plan impls plan.reserve_info
      (Returned-ok (Supplies plan) _ impls w2 d (deploy_impls-Supplies deploy plan w1))
      ((Returned-ok IsCovered _ plan w1 e (
        plan_reserves-IsCovered lib m opt addresses existing params empty_plan w
          (tt, λ k i l. ground arith))).0)
