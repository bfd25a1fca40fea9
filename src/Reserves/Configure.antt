-- ===== src/Reserves/Configure.antt =====
-- The settings of reserves and of their prices: `configureReservesByHelper` and
-- `getTokenAggregatorPairs` of helpers/init-helpers.ts, and helpers/oracles-helpers.ts.
pub mod Selected
pub mod Rates
use augmented_finance_protoc.Prelude.{
  ℤ, is_negative, ℕ, zero, suc, String, Bool, true, false, not, ◌&&◌, ◌||◌, List, [], ◌∷◌, Option,
  none, some, if◌then◌else◌, Result, ok, thrown, Act, pure, throw, ◌>>=◌, ◌>>◌, for_each, Dict, map,
  ◌==◌, get_elem?, lookup,
}
use augmented_finance_protoc.Helpers.Addresses.{AddressLib, falsy_or_zero_address}
use augmented_finance_protoc.Helpers.Batches.{chunk}
use augmented_finance_protoc.Reserves.Strategies.{ReserveParams}

pub record ConfigureInput : Type 0 where
  pub asset : String
  pub base_ltv : ℤ
  pub liquidation_threshold : ℤ
  pub liquidation_bonus : ℤ
  pub reserve_factor : ℕ
  pub borrowing_enabled : Bool
  pub stable_borrowing_enabled : Bool

abbrev pub configure_input : String → ReserveParams → ConfigureInput
configure_input addr p = record {
  asset = addr;
  base_ltv = p.base_ltv_as_collateral;
  liquidation_threshold = p.liquidation_threshold;
  liquidation_bonus = p.liquidation_bonus;
  reserve_factor = p.reserve_factor;
  borrowing_enabled = p.borrowing_enabled;
  stable_borrowing_enabled = p.stable_borrow_rate_enabled;
}

abbrev enable_chunks : ℕ
enable_chunks = 20

abbrev cons_unless :
    {W : Type 0} → Bool → ConfigureInput → Act W (List ConfigureInput) → Act W (List ConfigureInput)
cons_unless true input more = more
cons_unless false input more = do inputs ← more; pure (input ∷ inputs)

-- `already_enabled` asks `getReserveConfigurationData` of the data provider, `configure` sends a
-- transaction and waits for it.
module _ {W : Type 0} (lib : AddressLib) (already_enabled : String → Act W Bool)
    (token_addresses : Dict String) where
  -- A reserve at the address that its symbol has.
  unfoldable pub select_at :
      ReserveParams → Option String → Act W (List ConfigureInput) → Act W (List ConfigureInput)
  unfolding falsy_or_zero_address
  select_at p none more = more
  select_at p (some addr) more =
      if falsy_or_zero_address lib (some addr)
      then more
      else (do enabled ← already_enabled addr; cons_unless enabled (configure_input addr p) more)

  unfoldable pub select_configured : Dict ReserveParams → Act W (List ConfigureInput)
  unfolding select_at
  select_configured [] = pure []
  select_configured ((symbol, p) ∷ rest) =
      let more = select_configured rest in
      if is_negative (p.base_ltv_as_collateral)
      then more
      else select_at p (lookup symbol token_addresses) more

  unfoldable pub configure_reserves_by_helper :
      (List ConfigureInput → Act W (Unit {0})) → Dict ReserveParams → Act W (Unit {0})
  unfolding select_configured for_each chunk
  configure_reserves_by_helper configure params = do
    inputs ← select_configured params
    for_each configure (chunk inputs enable_chunks)

-- `Object.keys(d).findIndex((value) => value === k)`, with -1 as `none`.
unfoldable pub find_index : String → Dict String → Option ℕ
find_index k [] = none
find_index k ((j, v) ∷ d) =
    let rest = find_index k d in
    if j == k then some 0 else (elim rest [ none ↦ none | some i ↦ some (suc i) ])

-- `const [, address] = Object.entries(d)[index]`, which throws where there is no such entry.
unfoldable pub entry_at : Dict String → Option ℕ → Option String
entry_at d none = none
entry_at d (some i) = elim (get_elem? d i) [ none ↦ none | some (k, v) ↦ some v ]

abbrev pub cons_pair :
    String → Option String → Option (List (String × String)) → Option (List (String × String))
cons_pair token (some aggregator) (some pairs) = some ((token, aggregator) ∷ pairs)
cons_pair token _ _ = none

abbrev pub is_base : String → Bool
is_base symbol = symbol == "ETH" || symbol == "USD" || symbol == "WETH"

-- The pairs over the assets less ETH, USD and WETH; `none` is a TypeError.
unfoldable pub aggregator_pairs : Dict String → Dict String → Option (List (String × String))
unfolding find_index entry_at
aggregator_pairs [] aggregators = some []
aggregator_pairs ((symbol, addr) ∷ rest) aggregators =
    let more = aggregator_pairs rest aggregators in
    if is_base symbol
    then more
    else cons_pair addr (entry_at aggregators (find_index symbol aggregators)) more

unfoldable pub get_token_aggregator_pairs :
    Dict String → Dict String → Option (List String × List String)
unfolding aggregator_pairs
get_token_aggregator_pairs assets aggregators = elim (aggregator_pairs assets aggregators) [
  | none ↦ none
  | some pairs ↦ some (map (λ p. p.0) pairs, map (λ p. p.1) pairs)
]

-- The loop of `setInitialMarketRatesInRatesOracleByHelper`; `none` is a TypeError. A symbol whose
-- rates are `undefined` is passed over.
abbrev cons_rate :
    Option String → String → Option (List (String × String)) → Option (List (String × String))
cons_rate (some addr) rate (some more) = some ((addr, rate) ∷ more)
cons_rate _ rate _ = none

unfoldable pub collect_rates : Dict (Option String) → Dict String → Option (List (String × String))
unfolding find_index entry_at
collect_rates [] addresses = some []
collect_rates ((symbol, none) ∷ rest) addresses = collect_rates rest addresses
collect_rates ((symbol, some rate) ∷ rest) addresses =
    cons_rate (entry_at addresses (find_index symbol addresses)) rate (collect_rates rest addresses)

abbrev rates_chunks : ℕ
rates_chunks = 20

-- `for (let i = 0; i < chunkedTokens.length; i++)` over the two arrays of chunks; past the end of the
-- second one is `undefined`, read here as an empty chunk.
unfoldable pub zip_chunks : {A B : Type 0} → List (List A) → List (List B) → List (List A × List B)
zip_chunks [] ds = []
zip_chunks (c ∷ cs) [] = (c, []) ∷ zip_chunks cs []
zip_chunks (c ∷ cs) (d ∷ ds) = (c, d) ∷ zip_chunks cs ds

unfoldable pub set_initial_market_rates :
    {W : Type 0}
    → (List String × List String → Act W (Unit {0}))
    → Dict (Option String)
    → Dict String
    → Act W (Unit {0})
unfolding collect_rates zip_chunks for_each chunk
set_initial_market_rates set_rates market_rates addresses =
    elim (collect_rates market_rates addresses) [
      | none ↦ throw "TypeError"
      | some pairs ↦ for_each set_rates (
          zip_chunks (chunk (map (λ p. p.0) pairs) rates_chunks)
            (chunk (map (λ p. p.1) pairs) rates_chunks))
    ]

-- The loop of `setInitialAssetPricesInOracle` and of `setAssetPricesInOracle`.
abbrev set_price_at :
    {W : Type 0} → (String → String → Act W (Unit {0})) → String → Option String → Act W (Unit {0})
set_price_at set_price price none = throw "TypeError"
set_price_at set_price price (some addr) = set_price addr price

unfoldable pub set_asset_prices_in_oracle :
    {W : Type 0}
    → (String → String → Act W (Unit {0}))
    → Dict String
    → Dict String
    → Act W (Unit {0})
unfolding find_index entry_at
set_asset_prices_in_oracle set_price [] addresses = pure tt
set_asset_prices_in_oracle set_price ((symbol, price) ∷ rest) addresses = do
  set_price_at set_price price (entry_at addresses (find_index symbol addresses))
  set_asset_prices_in_oracle set_price rest addresses
