-- ===== src/Markets/Assets.antt =====
-- How the parameters of a reserve are made: `externalAsset` and `assetReserve` of
-- markets/augmented/rateStrategies.ts.
use augmented_finance_protoc.Prelude.{
  ℕ, zero, suc, ◌+◌, ◌-◌, ◌/◌, Bool, false, Option, none, some, ℤ, pos, negsuc, if◌then◌else◌, ltb,
}
use augmented_finance_protoc.Types.ContractIds.{ContractId, deposit_token_impl}
use augmented_finance_protoc.Reserves.Strategies.{InterestRateStrategyParams, ReserveParams}

unfoldable pub minus : ℤ → ℕ → ℤ
minus (pos a) b = if ltb a b then negsuc (b - a - 1) else pos (a - b)
minus (negsuc a) b = negsuc (a + b)

unfoldable pub plus : ℤ → ℕ → ℤ
plus (pos a) b = pos (a + b)
plus (negsuc a) b = if ltb a b then pos (b - a - 1) else negsuc (a - b)

-- `decimals || template.reserveDecimals`
abbrev decimals_or : Option ℕ → ℕ → ℕ
decimals_or none d = d
decimals_or (some zero) d = d
decimals_or (some (suc n)) d = suc n

unfoldable pub external_asset :
    ReserveParams → InterestRateStrategyParams → ℕ → Option ℕ → ReserveParams
unfolding minus plus
external_asset template strategy ltv_delta decimals = record {
  borrowing_enabled = false;
  stable_borrow_rate_enabled = false;
  base_ltv_as_collateral = minus template.base_ltv_as_collateral ltv_delta;
  liquidation_threshold = minus template.liquidation_threshold ltv_delta;
  liquidation_bonus = plus template.liquidation_bonus (ltv_delta / 2);
  deposit_token_impl = deposit_token_impl;
  reserve_factor = 0;
  strategy = strategy;
  reserve_decimals = decimals_or decimals template.reserve_decimals;
}

-- The arguments that have a default come last, as in the source.
unfoldable pub asset_reserve :
    InterestRateStrategyParams
    → (base_ltv_as_collateral liquidation_threshold liquidation_bonus : ℤ)
    → (reserve_decimals reserve_factor : ℕ) → (borrowing_enabled stable_borrow_rate_enabled : Bool)
    → ContractId
    → ReserveParams
asset_reserve strategy ltv threshold bonus decimals factor borrowing stable impl = record {
  borrowing_enabled = borrowing;
  stable_borrow_rate_enabled = stable;
  base_ltv_as_collateral = ltv;
  liquidation_threshold = threshold;
  liquidation_bonus = bonus;
  deposit_token_impl = impl;
  reserve_factor = factor;
  strategy = strategy;
  reserve_decimals = decimals;
}
