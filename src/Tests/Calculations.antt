-- ===== src/Tests/Calculations.antt =====
-- The expected reserves and users at concrete data, with integers for the numbers of the package.
use augmented_finance_protoc.Prelude.{
  ℕ, ◌+◌, ◌*◌, ◌-◌, ◌/◌, ◌%◌, ltb, pos, eqb, String, ◌≡◌, refl, arith, true, Option, none, some, [],
  ◌∷◌, Dict, lookup,
}
use Prim.Native.Char.{code}
use augmented_finance_protoc.Reserves.Strategies.{ReserveParams, InterestRateStrategyParams}
use augmented_finance_protoc.Types.ContractIds.{deposit_token_impl}
use augmented_finance_protoc.Calculations.Math.{BigNumberLib, ray_div}
use augmented_finance_protoc.Calculations.Data.{ReserveData, UserReserveData, ExpectedReserve}
use augmented_finance_protoc.Calculations.Interest.{
  total_stable_debt_at, stable_debt_token_balance, average_stable_borrow_rate_after,
  normalized_debt,
}
use augmented_finance_protoc.Calculations.Rates.{
  utilization_rate_of, interest_rates, variable_borrow_index_at, liquidity_index_at,
}
use augmented_finance_protoc.Calculations.Reserves.{reserve_after_swap, stable_mode, variable_mode}
use augmented_finance_protoc.Calculations.Loans.{reserve_after_repay, reserve_after_borrow}
use augmented_finance_protoc.Calculations.Users.{user_after_repay, user_after_borrow}
use augmented_finance_protoc.Calculations.Switches.{user_after_swap}
use augmented_finance_protoc.Calculations.Settled.{
  ReserveAction, repay, reserve_after, total_of, IsSettled, reserve_after-IsSettled,
}
use augmented_finance_protoc.Calculations.Others.{others, scaled_debt_of_others, borrow_owes_all}

-- The number that digits write.
abbrev read_digits : ℕ → String → ℕ
read_digits n String.[] = n
read_digits n (String.◌∷◌ c s) = read_digits (n * 10 + (code c - b'0')) s

-- Numbers of 256 bits, which wrap around: the package's numbers as far as they are in range.
abbrev range : ℕ
range = 115792089237316195423570985008687907853269984665640564039457584007913129639936

abbrev signed : ℕ → ℕ
signed a =
    (a + 57896044618658097711785492504343953926634992332820282019728792003956564819968) % range

abbrev words : BigNumberLib
words = record {
  BigNumber = ℕ;
  of_text = λ s. read_digits 0 s;
  of_number = λ n. n;
  nan = 0;
  plus = λ a b. (a + b) % range;
  minus = λ a b. (a % range + range - b % range) % range;
  times = λ a b. (a * b) % range;
  div = λ a b. a / b;
  round_down = λ a. a;
  negated = λ a. (range - a % range) % range;
  abs = λ a. a;
  eq = eqb;
  lt = λ a b. ltb (signed a) (signed b);
  gt = λ a b. ltb (signed b) (signed a);
  to_fixed = λ a. "";
  to_fixed_0 = λ a. "";
}

abbrev strategy : InterestRateStrategyParams
strategy = record {
  name = "own";
  strategy_impl = none;
  optimal_utilization_rate = "800000000000000000000000000";
  base_variable_borrow_rate = "0";
  variable_rate_slope1 = "40000000000000000000000000";
  variable_rate_slope2 = "750000000000000000000000000";
  stable_rate_slope1 = "20000000000000000000000000";
  stable_rate_slope2 = "750000000000000000000000000";
}

abbrev configuration : Dict ReserveParams
configuration =
    (
      "DAI",
      record {
        borrowing_enabled = true;
        stable_borrow_rate_enabled = true;
        base_ltv_as_collateral = pos 7500;
        liquidation_threshold = pos 8000;
        liquidation_bonus = pos 10500;
        deposit_token_impl = deposit_token_impl;
        reserve_factor = 1000;
        strategy = strategy;
        reserve_decimals = 18;
      },
    )
    ∷ []

-- A reserve with 1000 available, a stable debt of 200 and a variable debt of 300, at index 1.
abbrev reserve : ReserveData ℕ
reserve = record {
  address = "0xd";
  symbol = "DAI";
  decimals = 18;
  total_liquidity = 1500;
  available_liquidity = 1000;
  total_stable_debt = 200;
  total_variable_debt = 300;
  principal_stable_debt = 200;
  scaled_variable_debt = 300;
  average_stable_borrow_rate = 50000000000000000000000000;
  variable_borrow_rate = 40000000000000000000000000;
  stable_borrow_rate = 60000000000000000000000000;
  utilization_rate = 333333333333333333333333333;
  liquidity_index = 1000000000000000000000000000;
  variable_borrow_index = 1000000000000000000000000000;
  deposit_token_address = "0xa";
  market_stable_rate = 39000000000000000000000000;
  last_update_timestamp = 1000;
  total_stable_debt_last_updated = 1000;
  liquidity_rate = 10000000000000000000000000;
}

abbrev borrower : UserReserveData ℕ
borrower = record {
  scaled_a_token_balance = 700;
  current_a_token_balance = 700;
  current_stable_debt = 50;
  current_variable_debt = 100;
  principal_stable_debt = 50;
  scaled_variable_debt = 100;
  liquidity_rate = 10000000000000000000000000;
  stable_borrow_rate = 50000000000000000000000000;
  stable_rate_last_updated = 1000;
  usage_as_collateral_enabled = true;
  wallet_balance = 5000;
}

abbrev scaled_of : Option (ExpectedReserve ℕ) → Option ℕ
scaled_of none = none
scaled_of (some e) = some e.scaled_variable_debt

repaid_scaled :
    scaled_of (reserve_after_repay words configuration "40" variable_mode reserve borrower 1000)
    ≡ some 260
unfolding reserve_after_repay lookup interest_rates variable_borrow_index_at
repaid_scaled = refl

abbrev repaid_reserve : ExpectedReserve ℕ
repaid_reserve = record {
  address = "0xd";
  total_liquidity = 1513;
  available_liquidity = 1040;
  total_stable_debt = 200;
  total_variable_debt = 273;
  principal_stable_debt = 200;
  scaled_variable_debt = 262;
  average_stable_borrow_rate = 50000000000000000000000000;
  variable_borrow_rate = 15631196298744216787838731;
  stable_borrow_rate = 46815598149372108393919366;
  utilization_rate = 312623925974884335756774620;
  liquidity_index = 1010000000000000000000000000;
  variable_borrow_index = 1040810454360354976032448000;
  last_update_timestamp = some 31537000;
  liquidity_rate = 8486837363516192994051554;
}

abbrev swapped_reserve : ExpectedReserve ℕ
swapped_reserve = record {
  address = "0xd";
  total_liquidity = 1522;
  available_liquidity = 1000;
  total_stable_debt = 157;
  total_variable_debt = 365;
  principal_stable_debt = 157;
  scaled_variable_debt = 351;
  average_stable_borrow_rate = 50000000000000000000000000;
  variable_borrow_rate = 17148488830486202365308804;
  stable_borrow_rate = 47574244415243101182654402;
  utilization_rate = 342969776609724047306176084;
  liquidity_index = 1010000000000000000000000000;
  variable_borrow_index = 1040810454360354976032448000;
  last_update_timestamp = none;
  liquidity_rate = 8343152812549277266754271;
}

abbrev borrowed_reserve : ExpectedReserve ℕ
borrowed_reserve = record {
  address = "0xd";
  total_liquidity = 1522;
  available_liquidity = 960;
  total_stable_debt = 210;
  total_variable_debt = 352;
  principal_stable_debt = 200;
  scaled_variable_debt = 338;
  average_stable_borrow_rate = 50000000000000000000000000;
  variable_borrow_rate = 18462549277266754270696452;
  stable_borrow_rate = 48231274638633377135348226;
  utilization_rate = 369250985545335085413929041;
  liquidity_index = 1010000000000000000000000000;
  variable_borrow_index = 1040810454360354976032448000;
  last_update_timestamp = some 31537000;
  liquidity_rate = 10051863082391590013140605;
}

repaid_run :
    reserve_after_repay words configuration "40" variable_mode reserve borrower 31537000
    ≡ some repaid_reserve
unfolding reserve_after_repay interest_rates lookup variable_borrow_index_at liquidity_index_at
    utilization_rate_of total_stable_debt_at stable_debt_token_balance
    average_stable_borrow_rate_after normalized_debt
repaid_run = refl

swapped_run :
    reserve_after_swap words configuration reserve borrower stable_mode 31537000
    ≡ some swapped_reserve
unfolding reserve_after_swap interest_rates lookup variable_borrow_index_at liquidity_index_at
    utilization_rate_of total_stable_debt_at stable_debt_token_balance
    average_stable_borrow_rate_after normalized_debt
swapped_run = refl

borrowed_run :
    reserve_after_borrow words configuration "40" variable_mode reserve 31537000 31538000
    ≡ some borrowed_reserve
unfolding reserve_after_borrow interest_rates lookup variable_borrow_index_at liquidity_index_at
    utilization_rate_of total_stable_debt_at stable_debt_token_balance
    average_stable_borrow_rate_after normalized_debt
borrowed_run = refl

words_plus_swap : (a b c : ℕ) → words.plus (words.plus a b) c ≡ words.plus (words.plus a c) b
words_plus_swap a b c = omega arith

words_minus-plus : (a b c : ℕ) → words.minus (words.plus a c) (words.plus b c) ≡ words.minus a b
words_minus-plus a b c = omega arith

words_minus-minus : (a b c : ℕ) → words.minus (words.minus a c) (words.minus b c) ≡ words.minus a b
words_minus-minus a b c = omega arith

abbrev repayment : ReserveAction
repayment = repay "40" variable_mode

repayment_run :
    reserve_after words configuration repayment reserve borrower 31537000 31537000
    ≡ some repaid_reserve
unfolding reserve_after
repayment_run = repaid_run

reserve_after-IsSettled_example :
    IsSettled words
      (total_of words repayment reserve repaid_reserve.available_liquidity
        repaid_reserve.total_stable_debt repaid_reserve.total_variable_debt)
      (utilization_rate_of words repaid_reserve.total_stable_debt repaid_reserve.total_variable_debt
        repaid_reserve.total_liquidity)
      repaid_reserve
reserve_after-IsSettled_example =
    reserve_after-IsSettled words words_plus_swap configuration repayment reserve borrower 31537000
      31537000 repaid_reserve repayment_run

-- A number of 256 bits.
abbrev IsWord : ℕ → Type 0
IsWord n = ltb n range ≡ true

scaled_debt_of_others_example :
    (others words swapped_reserve
        (user_after_swap words reserve swapped_reserve borrower stable_mode 31537000)
      ≡ words.minus 300 100)
    × (others words repaid_reserve (
          user_after_repay words "40" variable_mode reserve repaid_reserve borrower "0x1" "0x1"
            31537000 31538000)
        ≡ words.minus 300 100)
unfolding ray_div variable_borrow_index_at stable_debt_token_balance
scaled_debt_of_others_example =
    scaled_debt_of_others words IsWord (λ a b c p q r. words_minus-plus a b c)
      (λ a b c p q r. words_minus-minus a b c) configuration "40" variable_mode "0x1" "0x1" reserve
      borrower 31537000 31538000 swapped_reserve repaid_reserve refl refl refl refl swapped_run
      repaid_run refl

borrow_owes_all_example :
    (user_after_borrow words "40" variable_mode reserve borrowed_reserve borrower 31537000
      31538000).scaled_variable_debt
    ≡ borrowed_reserve.scaled_variable_debt
borrow_owes_all_example =
    borrow_owes_all words configuration "40" variable_mode reserve borrower 31537000 31538000
      borrowed_reserve refl borrowed_run
