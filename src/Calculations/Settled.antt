-- ===== src/Calculations/Settled.antt =====
-- What all expected reserves have in common.
use augmented_finance_protoc.Prelude.{
  String, ◌≡◌, refl, Option, none, some, ◌==◌, arith, Dict, Bool-cases, inl, inr,
}
use augmented_finance_protoc.Reserves.Strategies.{ReserveParams}
use augmented_finance_protoc.Calculations.Math.{BigNumberLib}
use augmented_finance_protoc.Calculations.Data.{ReserveData, UserReserveData, ExpectedReserve}
use augmented_finance_protoc.Calculations.Rates.{InterestRates, utilization_rate_of}
use augmented_finance_protoc.Calculations.Reserves.{
  stable_mode, Balances, map_rates, settle, reserve_after_deposit, reserve_after_withdraw,
  reserve_after_swap, reserve_after_rebalance,
}
use augmented_finance_protoc.Calculations.Loans.{
  reserve_after_stable_borrow, reserve_after_variable_borrow, reserve_after_borrow,
  reserve_after_repay,
}

-- An action on a reserve, with the texts that it is given.
pub data ReserveAction : Type 0 where
  deposit : (amount : String) → ReserveAction
  withdraw : (amount : String) → ReserveAction
  borrow : (amount mode : String) → ReserveAction
  repay : (amount mode : String) → ReserveAction
  swap : (mode : String) → ReserveAction
  rebalance : ReserveAction

module _ (lib : BigNumberLib) where
  open lib use {BigNumber, of_text, plus}

  unfoldable pub reserve_after :
      Dict ReserveParams
      → ReserveAction
      → ReserveData BigNumber
      → UserReserveData BigNumber
      → (tx_timestamp current_timestamp : BigNumber) → Option (ExpectedReserve BigNumber)
  reserve_after configuration (deposit amount) before user tx now =
      reserve_after_deposit lib configuration amount before tx
  reserve_after configuration (withdraw amount) before user tx now =
      reserve_after_withdraw lib configuration amount before user tx
  reserve_after configuration (borrow amount mode) before user tx now =
      reserve_after_borrow lib configuration amount mode before tx now
  reserve_after configuration (repay amount mode) before user tx now =
      reserve_after_repay lib configuration amount mode before user tx
  reserve_after configuration (swap mode) before user tx now =
      reserve_after_swap lib configuration before user mode tx
  reserve_after configuration rebalance before user tx now =
      reserve_after_rebalance lib configuration before user tx

  -- The total liquidity of `b`: after a deposit the one before with the amount, and after any other
  -- action what is available with both debts.
  abbrev pub total_of :
      ReserveAction → ReserveData BigNumber → (available stable variable : BigNumber) → BigNumber
  total_of (deposit amount) before available stable variable =
      plus before.total_liquidity (of_text amount)
  total_of _ before available stable variable = plus (plus available stable) variable

  pub record IsSettled (total utilization : BigNumber) (e : ExpectedReserve BigNumber)
      : Type 0 where
    pub balanced : e.total_liquidity ≡ total
    pub used : e.utilization_rate ≡ utilization

  abbrev IsTotal : (BigNumber → BigNumber → BigNumber → BigNumber) → Balances BigNumber → Type 0
  IsTotal total b =
      b.total_liquidity ≡ total b.available_liquidity b.total_stable_debt b.total_variable_debt

  abbrev pub Settles :
      (BigNumber → BigNumber → BigNumber → BigNumber) → ExpectedReserve BigNumber → Type 0
  Settles total e =
      IsSettled (total e.available_liquidity e.total_stable_debt e.total_variable_debt)
        (utilization_rate_of lib e.total_stable_debt e.total_variable_debt e.total_liquidity) e

  abbrev parts : BigNumber → BigNumber → BigNumber → BigNumber
  parts available stable variable = plus (plus available stable) variable

  map_rates-Settles :
      (total : BigNumber → BigNumber → BigNumber → BigNumber)
      (f : InterestRates BigNumber → ExpectedReserve BigNumber)
      (rates : Option (InterestRates BigNumber)) (e : ExpectedReserve BigNumber)
      → ((r : InterestRates BigNumber) → Settles total (f r))
      → map_rates lib f rates ≡ some e
      → Settles total e
  map_rates-Settles total f none e h q = cc q
  map_rates-Settles total f (some r) e h q = let same : f r ≡ e = ground arith in rw (← same) (h r)

  settle-Settles :
      (total : BigNumber → BigNumber → BigNumber → BigNumber) (configuration : Dict ReserveParams)
      (before : ReserveData BigNumber) (b : Balances BigNumber) (e : ExpectedReserve BigNumber)
      → IsTotal total b
      → settle lib configuration before b ≡ some e
      → Settles total e
  unfolding settle
  settle-Settles total configuration before b e t q =
      map_rates-Settles total _ _ e (λ r. record { balanced = t; used = refl }) q

  module _ (plus_swap : (a b c : BigNumber) → plus (plus a b) c ≡ plus (plus a c) b) where
    stable_borrow-Settles :
        (configuration : Dict ReserveParams) (amount : String) (before : ReserveData BigNumber)
        (tx now : BigNumber) (e : ExpectedReserve BigNumber)
        → reserve_after_stable_borrow lib configuration amount before tx now ≡ some e
        → Settles parts e
    unfolding reserve_after_stable_borrow
    stable_borrow-Settles configuration amount before tx now e q =
        map_rates-Settles parts _ _ e (λ r. record { balanced = plus_swap _ _ _; used = refl }) q

    variable_borrow-Settles :
        (configuration : Dict ReserveParams) (amount : String) (before : ReserveData BigNumber)
        (tx now : BigNumber) (e : ExpectedReserve BigNumber)
        → reserve_after_variable_borrow lib configuration amount before tx now ≡ some e
        → Settles parts e
    unfolding reserve_after_variable_borrow
    variable_borrow-Settles configuration amount before tx now e q =
        map_rates-Settles parts _ _ e (λ r. record { balanced = refl; used = refl }) q

    borrow-Settles :
        (configuration : Dict ReserveParams) (amount mode : String) (before : ReserveData BigNumber)
        (tx now : BigNumber) (e : ExpectedReserve BigNumber)
        → reserve_after_borrow lib configuration amount mode before tx now ≡ some e
        → Settles parts e
    unfolding reserve_after_borrow
    borrow-Settles configuration amount mode before tx now e q =
        elim (Bool-cases (mode == stable_mode)) [
          | inl s ↦ stable_borrow-Settles configuration amount before tx now e (rw s at q)
          | inr v ↦ variable_borrow-Settles configuration amount before tx now e (rw v at q)
        ]

    -- Whatever the action, when it is calculated at all: the expected utilization is the one of the
    -- expected debts and of the expected total liquidity; and this total is, after a deposit, the one
    -- before with the amount added, and after any other action what is available with both debts.
    pub reserve_after-IsSettled :
        (configuration : Dict ReserveParams) (action : ReserveAction)
        (before : ReserveData BigNumber) (user : UserReserveData BigNumber) (tx now : BigNumber)
        (e : ExpectedReserve BigNumber)
        → reserve_after configuration action before user tx now ≡ some e
        → IsSettled
            (total_of action before e.available_liquidity e.total_stable_debt e.total_variable_debt)
            (utilization_rate_of lib e.total_stable_debt e.total_variable_debt e.total_liquidity)
            e
    unfolding reserve_after reserve_after_deposit reserve_after_withdraw reserve_after_swap
        reserve_after_rebalance reserve_after_repay
    reserve_after-IsSettled configuration (deposit amount) before user tx now e q =
        settle-Settles (total_of (deposit amount) before) configuration before _ e refl q
    reserve_after-IsSettled configuration (withdraw amount) before user tx now e q =
        settle-Settles parts configuration before _ e (plus_swap _ _ _) q
    reserve_after-IsSettled configuration (borrow amount mode) before user tx now e q =
        borrow-Settles configuration amount mode before tx now e q
    reserve_after-IsSettled configuration (repay amount mode) before user tx now e q =
        settle-Settles parts configuration before _ e refl q
    reserve_after-IsSettled configuration (swap mode) before user tx now e q =
        settle-Settles parts configuration before _ e refl q
    reserve_after-IsSettled configuration rebalance before user tx now e q =
        settle-Settles parts configuration before _ e refl q
