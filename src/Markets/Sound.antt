-- ===== src/Markets/Sound.antt =====
-- Which parameters the contracts accept for a collateral.
use native.Mathlib.Nat.{mul-le-mul}
use augmented_finance_protoc.Prelude.{
  ℕ, ◌+◌, ◌-◌, ◌*◌, ◌/◌, ◌≤◌, ◌<◌, ◌≡◌, Option, arith, ℤ, pos, Bool-cases, inl, inr, ltb, Dict, All,
}
use augmented_finance_protoc.Reserves.Strategies.{InterestRateStrategyParams, ReserveParams}
use augmented_finance_protoc.Markets.Assets.{minus, plus, external_asset}

-- The requirements on a collateral: a threshold above 0 that the LTV does not exceed, a bonus above 100%, the
-- rounded product of threshold and bonus at most 100%, where 10000 stands for 100%, and a bonus that fits
-- into 16 bits. The LTV and the threshold fit as well then, since they are at most 100%.
abbrev pub IsAccepted : ℤ → ℤ → ℤ → Type 0
IsAccepted (pos ltv) (pos threshold) (pos bonus) =
    (ltv ≤ threshold)
    × (0 < threshold)
    × (10000 < bonus)
    × (bonus ≤ 65535)
    × ((threshold * bonus + 5000) / 10000 ≤ 10000)
IsAccepted _ _ _ = ⊥

abbrev pub IsAcceptedReserve : ReserveParams → Type 0
IsAcceptedReserve p =
    IsAccepted p.base_ltv_as_collateral p.liquidation_threshold p.liquidation_bonus

minus-pos : (a b : ℕ) → b ≤ a → minus (pos a) b ≡ pos (a - b)
unfolding minus
minus-pos a b h = ground arith

-- A threshold above 100% is not accepted.
threshold-le :
    (threshold bonus : ℕ)
    → 10000 < bonus
    → (threshold * bonus + 5000) / 10000 ≤ 10000
    → threshold ≤ 10000
threshold-le threshold bonus b p = elim (Bool-cases (ltb 10000 threshold)) [
  | inr small ↦ ground arith
  | inl large ↦
      let above : 10001 ≤ threshold = ground arith in
      let wide : 10001 ≤ bonus = omega arith in
      let product : 10001 * 10001 ≤ threshold * bonus = mul-le-mul above wide in
      absurd (omega (arith, product, p))
]

-- Taking `d` from the threshold outweighs adding half of it to the bonus.
product-le : (rest d bonus : ℕ) → rest ≤ bonus → rest * (bonus + d / 2) ≤ (rest + d) * bonus
product-le rest d bonus h =
    let part : rest * (d / 2) ≤ bonus * d = mul-le-mul h (omega arith) in omega (arith, part)

external_bounds :
    (ltv threshold bonus d : ℕ)
    → d ≤ ltv
    → d < threshold
    → bonus + d / 2 ≤ 65535
    → IsAccepted (pos ltv) (pos threshold) (pos bonus)
    → IsAccepted (pos (ltv - d)) (pos (threshold - d)) (pos (bonus + d / 2))
external_bounds ltv threshold bonus d l t w (a, z, b, c, p) =
    let small = threshold-le threshold bonus b p in
    let less = product-le (threshold - d) d bonus (omega arith) in
    let back : threshold - d + d ≡ threshold = omega arith in
    let least : (threshold - d) * (bonus + d / 2) ≤ threshold * bonus = rw back at less in
    (omega arith, omega arith, omega arith, w, omega (arith, least, p))

-- If the parameters of a reserve are accepted as a collateral, `ltvDelta` is at most its LTV and below its
-- threshold, and its bonus with half of `ltvDelta` still fits into 16 bits, then the parameters of the
-- external asset that is derived from it are accepted as well.
pub external_asset-IsAccepted :
    (template : ReserveParams) (strategy : InterestRateStrategyParams) (d : ℕ) (decimals : Option ℕ)
    (ltv threshold bonus : ℕ)
    → template.base_ltv_as_collateral ≡ pos ltv
    → template.liquidation_threshold ≡ pos threshold
    → template.liquidation_bonus ≡ pos bonus
    → d ≤ ltv
    → d < threshold
    → bonus + d / 2 ≤ 65535
    → IsAcceptedReserve template
    → IsAcceptedReserve (external_asset template strategy d decimals)
unfolding external_asset plus
external_asset-IsAccepted template strategy d decimals ltv threshold bonus e f g l t w h =
    rw (e, f, g, minus-pos ltv d l, minus-pos threshold d (omega arith))
      (external_bounds ltv threshold bonus d l t w (rw (e, f, g) at h))

abbrev pub AreAccepted : Dict ReserveParams → Type 0
AreAccepted = All (λ e. IsAcceptedReserve e.1)
