-- ===== src/Reserves/Feeds/Factories.antt =====
-- Every factory that is chosen for a derived feed is one with a feed.
use augmented_finance_protoc.Prelude.{
  ℕ, ◌+◌, String, ◌≡◌, refl, Bool-cases, inl, inr, true, List, [], ◌∷◌, Option, none, some,
  if◌then◌else◌, All, Dict, lookup, get_elem?, to_lower_case,
}
use augmented_finance_protoc.Helpers.Addresses.{AddressLib, falsy_or_zero_address}
use augmented_finance_protoc.Helpers.Answers.{Gives, Answers}
use augmented_finance_protoc.Types.ContractIds.{
  ContractId, delegated_strategy_aave, delegated_strategy_compound_erc20,
  delegated_strategy_compound_eth,
}
use augmented_finance_protoc.Reserves.Strategies.{
  StrategyFactoryInfo, InterestRateStrategyParams, ReserveParams, get_strategy_factory,
}
use augmented_finance_protoc.Reserves.Plan.{has}
use augmented_finance_protoc.Reserves.Feeds.{
  Oracle, FeedAsset, text_of, feed_assets_of, missing_feeds,
}
use augmented_finance_protoc.Reserves.Feeds.Derived.{needs, IsFeed}

abbrev IsFactory : Option StrategyFactoryInfo → Type 0
IsFactory none = Unit
IsFactory (some f) = (b : f.has_feed ≡ true) → needs f.kind ≡ some f.optional_underlying

get_strategy_factory-IsFactory :
    (impl : Option ContractId) (name a b c d e f : String)
    → IsFactory (
        get_strategy_factory (record {
          name = name;
          strategy_impl = impl;
          optimal_utilization_rate = a;
          base_variable_borrow_rate = b;
          variable_rate_slope1 = c;
          variable_rate_slope2 = d;
          stable_rate_slope1 = e;
          stable_rate_slope2 = f;
        }))
unfolding get_strategy_factory
get_strategy_factory-IsFactory none name a b c d e f = λ h. absurd (cc h)
get_strategy_factory-IsFactory (some delegated_strategy_aave) name a b c d e f = λ h. refl
get_strategy_factory-IsFactory (some delegated_strategy_compound_erc20) name a b c d e f = λ h. refl
get_strategy_factory-IsFactory (some delegated_strategy_compound_eth) name a b c d e f = λ h. refl
get_strategy_factory-IsFactory (some _) name a b c d e f = tt

strategy-IsFactory : (s : InterestRateStrategyParams) → IsFactory (get_strategy_factory s)
strategy-IsFactory s =
    get_strategy_factory-IsFactory s.strategy_impl s.name s.optimal_utilization_rate
      s.base_variable_borrow_rate s.variable_rate_slope1 s.variable_rate_slope2 s.stable_rate_slope1
      s.stable_rate_slope2

abbrev IsFeedAsset : FeedAsset → Type 0
IsFeedAsset a = needs a.factory.kind ≡ some a.factory.optional_underlying

add_feed-All :
    (symbol addr : String) (factory : Option StrategyFactoryInfo) (found : List FeedAsset)
    → IsFactory factory
    → All IsFeedAsset found
    → All IsFeedAsset (elim factory as (λ _. List FeedAsset) [
      | none ↦ found
      | some f ↦
          if f.has_feed then record { name = symbol; asset = addr; factory = f } ∷ found else found
    ])
add_feed-All symbol addr none found h hs = hs
add_feed-All symbol addr (some f) found h hs = elim (Bool-cases f.has_feed) [
  | inl e ↦ rw e (h e, hs)
  | inr e ↦ rw e hs
]

module _ {W : Type 0} (oracle : Oracle W) (lib : AddressLib) where
  feed_assets_of-All :
      (existing : List String) (token_addresses : Dict String) (params : Dict ReserveParams)
      → All IsFeedAsset (feed_assets_of oracle lib existing token_addresses params)
  unfolding feed_assets_of
  feed_assets_of-All existing token_addresses [] = tt
  feed_assets_of-All existing token_addresses ((symbol, p) ∷ rest) =
      let found = feed_assets_of oracle lib existing token_addresses rest in
      let address = lookup symbol token_addresses in
      let hs = feed_assets_of-All existing token_addresses rest in
      elim (Bool-cases (falsy_or_zero_address lib address)) [
        | inl e ↦ rw e hs
        | inr e ↦ elim (Bool-cases (has (to_lower_case (text_of address)) existing)) [
          | inl k ↦
              rw (e, k)
                (add_feed-All symbol (text_of address) (get_strategy_factory p.strategy) found
                  (strategy-IsFactory p.strategy) hs)
          | inr k ↦ rw (e, k) hs
        ]
      ]

  -- If the strategies tell their underlying tokens, the assets without a source are found, and each has
  -- a factory with a feed.
  missing_feeds-All :
      ((a : String) → Answers (oracle.get_underlying a))
      → (sources : List String) (remaps : Dict String) (i : ℕ) (assets : List FeedAsset) (s : W)
      → All IsFeedAsset assets
      → Gives (All IsFeed) (missing_feeds oracle lib sources remaps i assets) s
  unfolding missing_feeds
  missing_feeds-All told sources remaps i [] s h = ([], s, refl, tt)
  missing_feeds-All told sources remaps i (a ∷ rest) s (h, hs) =
      elim (Bool-cases (falsy_or_zero_address lib (get_elem? sources i))) [
        | inl e ↦
            let (u, s1, run, _) = told a.asset s in
            let (ms, s2, others, all) = missing_feeds-All told sources remaps (i + 1) rest s1 hs in
            let r = lookup (to_lower_case u) remaps in
            let used = if falsy_or_zero_address lib r then u else text_of r in
            (record { feed = a; underlying = used } ∷ ms, s2, rw (e, run, others) refl, (h, all))
        | inr e ↦ rw e (missing_feeds-All told sources remaps (i + 1) rest s hs)
      ]
