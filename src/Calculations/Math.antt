-- ===== src/Calculations/Math.antt =====
-- helpers/utils/math.ts over the numbers of the package bignumber.js, and the constants of
-- helpers/constants.ts that it uses; `ray` and `wad`, which nothing calls, are left out. The package is the argument `lib`; its rounding is what the suite
-- has configured.
use augmented_finance_protoc.Prelude.{ℕ, String, Bool}

pub record BigNumberLib : Type 1 where
  pub BigNumber : Type 0
  -- `new BigNumber(text)`, which a text or a number as an argument stands for.
  pub of_text : String → BigNumber
  pub of_number : ℕ → BigNumber
  -- `new BigNumber(undefined)`
  pub nan : BigNumber
  pub plus : BigNumber → BigNumber → BigNumber
  pub minus : BigNumber → BigNumber → BigNumber
  pub times : BigNumber → BigNumber → BigNumber
  pub div : BigNumber → BigNumber → BigNumber
  -- `decimalPlaces(0, BigNumber.ROUND_DOWN)`
  pub round_down : BigNumber → BigNumber
  pub negated : BigNumber → BigNumber
  pub abs : BigNumber → BigNumber
  pub eq : BigNumber → BigNumber → Bool
  pub lt : BigNumber → BigNumber → Bool
  pub gt : BigNumber → BigNumber → Bool
  pub to_fixed : BigNumber → String
  -- `toFixed(0)`
  pub to_fixed_0 : BigNumber → String

abbrev pub ray_text : String
ray_text = "1000000000000000000000000000"

abbrev pub half_ray_text : String
half_ray_text = "500000000000000000000000000"

abbrev pub wad_text : String
wad_text = "1000000000000000000"

abbrev pub half_wad_text : String
half_wad_text = "500000000000000000"

abbrev pub wad_ray_ratio : String
wad_ray_ratio = "1000000000"

abbrev pub percentage_factor : String
percentage_factor = "10000"

abbrev pub half_percentage_text : String
half_percentage_text = "5000"

abbrev pub one_year : String
one_year = "31536000"

abbrev pub max_uint_amount : String
max_uint_amount = "115792089237316195423570985008687907853269984665640564039457584007913129639935"

module _ (lib : BigNumberLib) where
  open lib use {BigNumber, of_text, of_number, plus, times, div, round_down}

  pub half_ray : BigNumber
  half_ray = round_down (of_text half_ray_text)

  pub half_wad : BigNumber
  half_wad = round_down (of_text half_wad_text)

  pub wad_mul : BigNumber → BigNumber → BigNumber
  unfolding half_wad
  wad_mul a b = round_down (div (plus half_wad (times a b)) (of_text wad_text))

  pub wad_div : BigNumber → BigNumber → BigNumber
  wad_div a b =
      let half = round_down (div b (of_number 2)) in
      round_down (div (plus half (times a (of_text wad_text))) b)

  unfoldable pub ray_mul : BigNumber → BigNumber → BigNumber
  unfolding half_ray
  ray_mul a b = round_down (div (plus half_ray (times a b)) (of_text ray_text))

  unfoldable pub ray_div : BigNumber → BigNumber → BigNumber
  ray_div a b =
      let half = round_down (div b (of_number 2)) in
      round_down (div (round_down (plus half (times a (of_text ray_text)))) b)

  pub ray_to_wad : BigNumber → BigNumber
  ray_to_wad a =
      let half_ratio = div (of_text wad_ray_ratio) (of_number 2) in
      round_down (div (plus half_ratio a) (of_text wad_ray_ratio))

  unfoldable pub wad_to_ray : BigNumber → BigNumber
  wad_to_ray a = round_down (times a (of_text wad_ray_ratio))

  pub half_percentage_value : BigNumber
  half_percentage_value = round_down (of_text half_percentage_text)

  unfoldable pub percent_mul : BigNumber → BigNumber → BigNumber
  unfolding half_percentage_value
  percent_mul a b =
      round_down (div (plus half_percentage_value (times a b)) (of_text percentage_factor))

  pub percent_div : BigNumber → BigNumber → BigNumber
  percent_div a b =
      let half = round_down (div b (of_number 2)) in
      round_down (div (plus half (times a (of_text percentage_factor))) b)
