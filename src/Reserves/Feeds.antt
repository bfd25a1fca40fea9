-- ===== src/Reserves/Feeds.antt =====
-- Price feeds that are derived from the feed of an underlying token: `initReservePriceFeeds` of
-- helpers/init-helpers.ts and the task full:initialize-derived-feeds,
-- tasks/full/11-initialize-derived-feeds.ts. Arrays that are pushed to together are one list of records.
pub mod Derived
pub mod Factories
use augmented_finance_protoc.Prelude.{
  ℕ, ◌+◌, String, Bool, true, false, not, ◌&&◌, List, [], ◌∷◌, ◌++◌, Option, none, some,
  if◌then◌else◌, Act, pure, throw, ◌>>=◌, ◌>>◌, Dict, lookup, insert, get_elem?, map, to_lower_case,
  ◌==◌, ◌<>◌,
}
use augmented_finance_protoc.Helpers.Addresses.{AddressLib, falsy_or_zero_address}
use augmented_finance_protoc.Reserves.Strategies.{
  ReserveParams, StrategyKind, own_rates, aave, compound_erc20, compound_eth, StrategyFactoryInfo,
  get_strategy_factory,
}
use augmented_finance_protoc.Reserves.Plan.{has}

-- The lending pool, the oracle router with its fallback, and the feeds that are deployed.
pub record Oracle (W : Type 0) : Type 0 where
  pub get_reserves_list : Act W (List String)
  -- `getUnderlying` of the strategy in the reserve's data.
  pub get_underlying : String → Act W String
  pub get_asset_sources : List String → Act W (List String)
  pub get_asset_price : String → Act W String
  pub set_asset_sources : List String → List String → Act W (Unit {0})
  pub get_fallback_oracle : Act W String
  pub set_asset_prices : String → List String → List String → Act W (Unit {0})
  pub deploy_price_feed_compound_erc20 : String → List String → Act W String
  pub deploy_price_feed_compound_eth : String → List String → Act W String

pub record FeedAsset : Type 0 where
  pub name : String
  pub asset : String
  pub factory : StrategyFactoryInfo

-- An asset without a source, with its underlying token.
pub record MissingFeed : Type 0 where
  pub feed : FeedAsset
  pub underlying : String

-- What a feed factory returns: a price, or a contract.
pub data Feed : Type 0 where
  price : String → Feed
  contract : String → Feed

-- The arrays that are sent to the oracles.
pub record Feeds : Type 0 where
  pub feed_assets : List String
  pub feeds : List String
  pub static_assets : List String
  pub static_prices : List String

abbrev pub no_feeds : Feeds
no_feeds = record { feed_assets = []; feeds = []; static_assets = []; static_prices = [] }

abbrev pub text_of : Option String → String
text_of none = ""
text_of (some s) = s

abbrev add_remap : Dict String → Dict String → Dict String
add_remap remaps [] = remaps
add_remap remaps ((k, v) ∷ rest) = add_remap (insert (to_lower_case k) v remaps) rest

module _ {W : Type 0} (oracle : Oracle W) (lib : AddressLib) where
  -- The assets of the reserves whose strategy has a feed.
  unfoldable pub feed_assets_of :
      (existing : List String) → Dict String → Dict ReserveParams → List FeedAsset
  unfolding has get_strategy_factory
  feed_assets_of existing token_addresses [] = []
  feed_assets_of existing token_addresses ((symbol, params) ∷ rest) =
      let found = feed_assets_of existing token_addresses rest in
      let address = lookup symbol token_addresses in
      if falsy_or_zero_address lib address
      then found
      else (if not (has (to_lower_case (text_of address)) existing)
          then found
          else (elim (get_strategy_factory params.strategy) as (λ _. List FeedAsset) [
            | none ↦ found
            | some f ↦
                if f.has_feed
                then record { name = symbol; asset = text_of address; factory = f } ∷ found
                else found
          ]))

  -- The loop over the assets, from the index `i` on.
  unfoldable pub missing_feeds :
      (sources : List String) → Dict String → ℕ → List FeedAsset → Act W (List MissingFeed)
  missing_feeds sources remaps i [] = pure []
  missing_feeds sources remaps i (a ∷ rest) =
      let others = missing_feeds sources remaps (i + 1) rest in
      if not (falsy_or_zero_address lib (get_elem? sources i)) then others else (do
        underlying ← oracle.get_underlying a.asset
        let remapped = lookup (to_lower_case underlying) remaps
        let used = if falsy_or_zero_address lib remapped then underlying else text_of remapped
        missing ← others
        pure (record { feed = a; underlying = used } ∷ missing))

  -- `factoryInfo.feedFactoryFn(..)`; the factory without one is left out before.
  unfoldable pub feed_factory_fn : StrategyKind → (name asset source : String) → Act W Feed
  feed_factory_fn own_rates name asset source = throw "feedFactoryFn is not a function"
  feed_factory_fn aave name asset source =
      if not (falsy_or_zero_address lib (some source))
      then pure (contract source)
      else pure (price "")
  feed_factory_fn compound_erc20 name asset source =
      if falsy_or_zero_address lib (some source)
      then throw ("Unknown underlying price feed: " <> name)
      else (do
        addr ← oracle.deploy_price_feed_compound_erc20 name (asset ∷ source ∷ [])
        pure (contract addr))
  feed_factory_fn compound_eth name asset source = do
    addr ← oracle.deploy_price_feed_compound_eth name (asset ∷ [])
    pure (contract addr)

  abbrev pub is_optional : Option Bool → Bool
  is_optional none = false
  is_optional (some b) = b

  unfoldable pub push_feed : MissingFeed → Feeds → Feed → Act W Feeds
  push_feed m fs (contract addr) = pure (record fs {
    feed_assets = fs.feed_assets ++ m.feed.asset ∷ [];
    feeds = fs.feeds ++ addr ∷ [];
  })
  push_feed m fs (price p) = do
    static_price ← (if not (p == "") then pure p else oracle.get_asset_price m.underlying)
    pure (record fs {
      static_assets = fs.static_assets ++ m.feed.asset ∷ [];
      static_prices = fs.static_prices ++ static_price ∷ [];
    })

  unfoldable pub derive_feed : MissingFeed → (source : String) → Feeds → Act W Feeds
  unfolding feed_factory_fn push_feed
  derive_feed m source fs =
      if not (is_optional m.feed.factory.optional_underlying)
        && falsy_or_zero_address lib (some source)
      then pure fs
      else (do
        feed ← feed_factory_fn m.feed.factory.kind m.feed.name m.feed.asset source
        push_feed m fs feed)

  -- The loop over the sources of the underlying tokens.
  unfoldable pub derive_feeds : List MissingFeed → (sources : List String) → Feeds → Act W Feeds
  unfolding derive_feed
  derive_feeds missing [] fs = pure fs
  derive_feeds [] (source ∷ sources) fs = throw "factoryInfo is undefined"
  derive_feeds (m ∷ missing) (source ∷ sources) fs = do
    fs' ← derive_feed m source fs
    derive_feeds missing sources fs'

  unfoldable pub set_feeds : Feeds → Act W (Unit {0})
  set_feeds fs = do
    (elim fs.feeds as (λ _. Act W (Unit {0})) [
      | [] ↦ pure tt
      | f ∷ rest ↦ oracle.set_asset_sources fs.feed_assets fs.feeds
    ])
    (elim fs.static_assets as (λ _. Act W (Unit {0})) [
      | [] ↦ pure tt
      | a ∷ rest ↦ (do
        fallback ← oracle.get_fallback_oracle
        oracle.set_asset_prices fallback fs.static_assets fs.static_prices)
    ])

  unfoldable pub derive_missing : List MissingFeed → Act W (Unit {0})
  unfolding derive_feeds set_feeds
  derive_missing [] = pure tt
  derive_missing (m ∷ missing) = do
    sources ← oracle.get_asset_sources (map (λ x. x.underlying) (m ∷ missing))
    fs ← derive_feeds (m ∷ missing) sources no_feeds
    set_feeds fs

  unfoldable pub init_feeds : List FeedAsset → Dict String → Act W (Unit {0})
  unfolding missing_feeds derive_missing
  init_feeds [] remappings = pure tt
  init_feeds (a ∷ assets) remappings = do
    sources ← oracle.get_asset_sources (map (λ x. x.asset) (a ∷ assets))
    missing ← missing_feeds sources (add_remap [] remappings) 0 (a ∷ assets)
    derive_missing missing

  unfoldable pub init_reserve_price_feeds :
      Dict ReserveParams → Dict String → Dict String → Act W (Unit {0})
  unfolding init_feeds feed_assets_of
  init_reserve_price_feeds reserves_params token_addresses remappings = do
    reserves ← oracle.get_reserves_list
    init_feeds (feed_assets_of (map to_lower_case reserves) token_addresses reserves_params)
        remappings
