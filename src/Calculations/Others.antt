-- ===== src/Calculations/Others.antt =====
-- The expected reserve against the expected user: what the other users owe.
use augmented_finance_protoc.Prelude.{
  String, false, ◌≡◌, refl, sym, ap, ◌∙◌, Option, none, some, ◌==◌, if◌then◌else◌, arith, Dict,
}
use augmented_finance_protoc.Reserves.Strategies.{ReserveParams}
use augmented_finance_protoc.Calculations.Math.{BigNumberLib, max_uint_amount, ray_div}
use augmented_finance_protoc.Calculations.Data.{ReserveData, UserReserveData, ExpectedReserve}
use augmented_finance_protoc.Calculations.Rates.{InterestRates, variable_borrow_index_at}
use augmented_finance_protoc.Calculations.Reserves.{
  stable_mode, user_stable_debt, Balances, map_rates, settle, debts_after_swap, reserve_after_swap,
}
use augmented_finance_protoc.Calculations.Loans.{
  repaid_amount, debts_after_repay, reserve_after_variable_borrow, reserve_after_borrow,
  reserve_after_repay,
}
use augmented_finance_protoc.Calculations.Users.{
  borrowed_part, user_after_borrow, repaid_part, user_after_repay,
}
use augmented_finance_protoc.Calculations.Switches.{user_after_swap}

module _ (lib : BigNumberLib) where
  open lib use {BigNumber, of_text, plus, minus, abs, eq}

  -- The fields that stand in an expected reserve as they were computed.
  abbrev Keeps : (scaled index : BigNumber) → ExpectedReserve BigNumber → Type 0
  Keeps scaled index e = (e.scaled_variable_debt ≡ scaled) × (e.variable_borrow_index ≡ index)

  map_rates-Keeps :
      (scaled index : BigNumber) (f : InterestRates BigNumber → ExpectedReserve BigNumber)
      (rates : Option (InterestRates BigNumber)) (e : ExpectedReserve BigNumber)
      → ((r : InterestRates BigNumber) → Keeps scaled index (f r))
      → map_rates lib f rates ≡ some e
      → Keeps scaled index e
  map_rates-Keeps scaled index f none e h q = cc q
  map_rates-Keeps scaled index f (some r) e h q =
      let same : f r ≡ e = ground arith in rw (← same) (h r)

  settle-Keeps :
      (configuration : Dict ReserveParams) (before : ReserveData BigNumber) (b : Balances BigNumber)
      (e : ExpectedReserve BigNumber)
      → settle lib configuration before b ≡ some e
      → Keeps b.scaled_variable_debt b.variable_borrow_index e
  unfolding settle
  settle-Keeps configuration before b e q = map_rates-Keeps _ _ _ _ e (λ r. (refl, refl)) q

  -- The scaled variable debt of all users but one.
  abbrev pub others : ExpectedReserve BigNumber → UserReserveData BigNumber → BigNumber
  others e user = minus e.scaled_variable_debt user.scaled_variable_debt

  -- The end of a repayment, reduced to what the mode chooses.
  repaid_amount_part :
      (amount mode : String) (stable_debt variable_debt : BigNumber)
      → eq (abs (of_text amount)) (of_text max_uint_amount) ≡ false
      → repaid_amount lib amount mode stable_debt variable_debt ≡ of_text amount
  unfolding repaid_amount
  repaid_amount_part amount mode stable_debt variable_debt h = rw h

  -- A scaled debt after a repayment, which only changes in the variable mode.
  abbrev reduced : String → (scaled repaid index : BigNumber) → BigNumber
  reduced mode scaled repaid index =
      if mode == stable_mode then scaled else minus scaled (ray_div lib repaid index)

  debts_after_repay-scaled :
      (before : ReserveData BigNumber) (user : UserReserveData BigNumber) (mode : String)
      (repaid index tx : BigNumber)
      → (debts_after_repay lib before user mode repaid index tx).scaled_variable
        ≡ reduced mode before.scaled_variable_debt repaid index
  unfolding debts_after_repay
  debts_after_repay-scaled before user mode repaid index tx = ground arith

  repaid_part-scaled :
      (mode : String) (e : ExpectedReserve BigNumber) (user : UserReserveData BigNumber)
      (repaid stable_debt variable_debt tx : BigNumber)
      → (repaid_part lib mode e user repaid stable_debt variable_debt tx).scaled_variable
        ≡ reduced mode user.scaled_variable_debt repaid e.variable_borrow_index
  unfolding repaid_part
  repaid_part-scaled mode e user repaid stable_debt variable_debt tx = ground arith

  module _ (amount mode : String)
      (part : eq (abs (of_text amount)) (of_text max_uint_amount) ≡ false) where
    reserve-scaled :
        (configuration : Dict ReserveParams) (before : ReserveData BigNumber)
        (user : UserReserveData BigNumber) (tx : BigNumber) (e : ExpectedReserve BigNumber)
        → reserve_after_repay lib configuration amount mode before user tx ≡ some e
        → e.scaled_variable_debt
          ≡ reduced mode before.scaled_variable_debt (of_text amount) e.variable_borrow_index
    unfolding reserve_after_repay
    reserve-scaled configuration before user tx e q =
        let (scaled, index) = settle-Keeps configuration before _ e q in
        scaled
        ∙ debts_after_repay-scaled before user mode _ _ tx
        ∙ ap
            (λ r.
              reduced mode before.scaled_variable_debt r (variable_borrow_index_at lib before tx))
            (repaid_amount_part amount mode _ _ part)
        ∙ ap (λ i. reduced mode before.scaled_variable_debt (of_text amount) i) (sym index)

    user-scaled :
        (before : ReserveData BigNumber) (e : ExpectedReserve BigNumber)
        (user : UserReserveData BigNumber) (payer on_behalf_of : String) (tx now : BigNumber)
        → (user_after_repay lib amount mode before e user payer on_behalf_of tx
            now).scaled_variable_debt
          ≡ reduced mode user.scaled_variable_debt (of_text amount) e.variable_borrow_index
    unfolding user_after_repay
    user-scaled before e user payer on_behalf_of tx now =
        repaid_part-scaled mode e user _ _ _ tx
        ∙ ap (λ r. reduced mode user.scaled_variable_debt r e.variable_borrow_index)
            (repaid_amount_part amount mode _ _ part)

  -- The laws hold for the numbers that are exact: with bignumber.js those that are finite, no negative zero and
  -- in the range of its exponents, since NaN and the infinities do not cancel out.
  module _ (IsExact : BigNumber → Type 0)
      (minus-plus : (a b c : BigNumber)
        → IsExact a
        → IsExact b
        → IsExact c
        → minus (plus a c) (plus b c) ≡ minus a b)
      (minus-minus : (a b c : BigNumber)
        → IsExact a
        → IsExact b
        → IsExact c
        → minus (minus a c) (minus b c) ≡ minus a b) where
    repaid-others :
        (mode : String) (reserve user repaid : BigNumber)
        → IsExact reserve
        → IsExact user
        → IsExact repaid
        → minus
            (if mode == stable_mode then reserve else minus reserve repaid)
            (if mode == stable_mode then user else minus user repaid)
          ≡ minus reserve user
    repaid-others mode reserve user repaid r u p =
        ground (arith, minus-minus reserve user repaid r u p)

    swap-others :
        (configuration : Dict ReserveParams) (before : ReserveData BigNumber)
        (user : UserReserveData BigNumber) (tx : BigNumber) (e : ExpectedReserve BigNumber)
        → IsExact before.scaled_variable_debt
        → IsExact user.scaled_variable_debt
        → IsExact
            (ray_div lib (user_stable_debt lib user tx) (variable_borrow_index_at lib before tx))
        → reserve_after_swap lib configuration before user stable_mode tx ≡ some e
        → others e (user_after_swap lib before e user stable_mode tx)
          ≡ minus before.scaled_variable_debt user.scaled_variable_debt
    unfolding reserve_after_swap debts_after_swap user_after_swap
    swap-others configuration before user tx e r u p q =
        let (scaled, index) = settle-Keeps configuration before _ e q in
        rw (scaled, index) (minus-plus _ _ _ r u p)

    repay-others :
        (configuration : Dict ReserveParams) (amount mode payer on_behalf_of : String)
        (before : ReserveData BigNumber) (user : UserReserveData BigNumber) (tx now : BigNumber)
        (e : ExpectedReserve BigNumber)
        → IsExact before.scaled_variable_debt
        → IsExact user.scaled_variable_debt
        → IsExact (ray_div lib (of_text amount) e.variable_borrow_index)
        → eq (abs (of_text amount)) (of_text max_uint_amount) ≡ false
        → reserve_after_repay lib configuration amount mode before user tx ≡ some e
        → others e (user_after_repay lib amount mode before e user payer on_behalf_of tx now)
          ≡ minus before.scaled_variable_debt user.scaled_variable_debt
    repay-others configuration amount mode payer on_behalf_of before user tx now e r u p part q =
        let reserve = reserve-scaled amount mode part configuration before user tx e q in
        let own = user-scaled amount mode part before e user payer on_behalf_of tx now in
        ap
          (λ r.
            minus r
              (user_after_repay lib amount mode before e user payer on_behalf_of tx
                now).scaled_variable_debt)
          reserve
        ∙ ap
            (λ u.
              minus
                (reduced mode before.scaled_variable_debt (of_text amount) e.variable_borrow_index)
                u)
            own
        ∙ repaid-others mode before.scaled_variable_debt user.scaled_variable_debt _ r u p

    -- The expected scaled variable debt of all users but the one who acts is the one before: after a
    -- swap of the stable mode into the variable one, and after a repayment, in either mode, of an
    -- amount that does not stand for the whole debt. The scaled debts before and the scaled amounts are
    -- numbers for which sums and differences are exact.
    pub scaled_debt_of_others :
        (configuration : Dict ReserveParams) (amount mode payer on_behalf_of : String)
        (before : ReserveData BigNumber) (user : UserReserveData BigNumber) (tx now : BigNumber)
        (swapped repaid : ExpectedReserve BigNumber)
        → IsExact before.scaled_variable_debt
        → IsExact user.scaled_variable_debt
        → IsExact
            (ray_div lib (user_stable_debt lib user tx) (variable_borrow_index_at lib before tx))
        → IsExact (ray_div lib (of_text amount) repaid.variable_borrow_index)
        → reserve_after_swap lib configuration before user stable_mode tx ≡ some swapped
        → reserve_after_repay lib configuration amount mode before user tx ≡ some repaid
        → eq (abs (of_text amount)) (of_text max_uint_amount) ≡ false
        → (others swapped (user_after_swap lib before swapped user stable_mode tx)
            ≡ minus before.scaled_variable_debt user.scaled_variable_debt)
          × (others repaid
                (user_after_repay lib amount mode before repaid user payer on_behalf_of tx now)
              ≡ minus before.scaled_variable_debt user.scaled_variable_debt)
    scaled_debt_of_others configuration amount mode payer on_behalf_of before user tx now swapped
          repaid x u d a s r part =
        (
          swap-others configuration before user tx swapped x u d s,
          repay-others configuration amount mode payer on_behalf_of before user tx now repaid x u a
              part r,
        )

  -- What a user who borrows at the variable rate is expected to owe is the scaled variable debt of the
  -- whole reserve, whatever the user and the others owed before.
  pub borrow_owes_all :
      (configuration : Dict ReserveParams) (amount mode : String) (before : ReserveData BigNumber)
      (user : UserReserveData BigNumber) (tx now : BigNumber) (e : ExpectedReserve BigNumber)
      → (mode == stable_mode) ≡ false
      → reserve_after_borrow lib configuration amount mode before tx now ≡ some e
      → (user_after_borrow lib amount mode before e user tx now).scaled_variable_debt
        ≡ e.scaled_variable_debt
  unfolding reserve_after_borrow reserve_after_variable_borrow user_after_borrow borrowed_part
  borrow_owes_all configuration amount mode before user tx now e v q =
      let variable : reserve_after_variable_borrow lib configuration amount before tx now ≡ some e =
        rw v at q in
      let (scaled, index) = map_rates-Keeps _ _ _ _ e (λ r. (refl, refl)) variable in
      rw v (
        ap (λ i. plus before.scaled_variable_debt (ray_div lib (of_text amount) i)) index
        ∙ sym scaled)
