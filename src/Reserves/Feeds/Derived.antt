-- ===== src/Reserves/Feeds/Derived.antt =====
-- Which assets get a derived feed and which a derived price.
use augmented_finance_protoc.Prelude.{
  ◌+◌, String, ◌≡◌, refl, ap, ◌∙◌, sym, Bool, Bool-cases, inl, inr, true, false, List, [], ◌∷◌,
  ◌++◌, Option, none, some, not, All, append-nil, append_assoc, length, length-append,
  if◌then◌else◌, Act, pure, ◌>>=◌, arith,
}
use augmented_finance_protoc.Helpers.Addresses.{AddressLib, falsy_or_zero_address}
use augmented_finance_protoc.Helpers.Answers.{Gives, Answers, after}
use augmented_finance_protoc.Reserves.Strategies.{
  StrategyKind, own_rates, aave, compound_erc20, compound_eth,
}
use augmented_finance_protoc.Reserves.Feeds.{
  Oracle, MissingFeed, price, contract, Feeds, feed_factory_fn, push_feed, derive_feed,
  derive_feeds,
}

-- The factories with a feed, as `getStrategyFactory` makes them.
abbrev pub needs : StrategyKind → Option (Option Bool)
needs own_rates = none
needs aave = some (some true)
needs compound_erc20 = some (some false)
needs compound_eth = some (some true)

abbrev pub IsFeed : MissingFeed → Type 0
IsFeed m = needs m.feed.factory.kind ≡ some m.feed.factory.optional_underlying

module _ (lib : AddressLib) where
  -- Whether the asset gets a feed, or a price.
  abbrev pub gets_feed : StrategyKind → String → Bool
  gets_feed own_rates source = false
  gets_feed aave source = not (falsy_or_zero_address lib (some source))
  gets_feed compound_erc20 source = not (falsy_or_zero_address lib (some source))
  gets_feed compound_eth source = true

  abbrev pub gets_price : StrategyKind → String → Bool
  gets_price aave source = falsy_or_zero_address lib (some source)
  gets_price _ source = false

  abbrev pub chosen_by :
      (StrategyKind → String → Bool) → List MissingFeed → List String → List String
  chosen_by p (m ∷ ms) (source ∷ sources) =
      (if p m.feed.factory.kind source then m.feed.asset ∷ [] else []) ++ chosen_by p ms sources
  chosen_by p _ _ = []

-- The oracle answers, and feeds can be deployed.
pub record FeedsAnswer {W : Type 0} (o : Oracle W) : Type 0 where
  pub asset_price : (a : String) → Answers (o.get_asset_price a)
  pub deploy_erc20 :
      (n : String) (as' : List String) → Answers (o.deploy_price_feed_compound_erc20 n as')
  pub deploy_eth :
      (n : String) (as' : List String) → Answers (o.deploy_price_feed_compound_eth n as')

-- What was pushed, with as many feeds as assets.
pub record Pushed (assets statics : List String) (fs fs' : Feeds) : Type 0 where
  pub feed_assets : fs'.feed_assets ≡ fs.feed_assets ++ assets
  pub static_assets : fs'.static_assets ≡ fs.static_assets ++ statics
  pub feeds : length fs'.feeds ≡ length fs.feeds + length assets
  pub static_prices : length fs'.static_prices ≡ length fs.static_prices + length statics

Pushed-nothing : (fs : Feeds) → Pushed [] [] fs fs
Pushed-nothing fs = record {
  feed_assets = sym (append-nil fs.feed_assets);
  static_assets = sym (append-nil fs.static_assets);
  feeds = omega arith;
  static_prices = omega arith;
}

Pushed-both :
    (as1 ss1 as2 ss2 : List String) (f f' f'' : Feeds)
    → Pushed as1 ss1 f f'
    → Pushed as2 ss2 f' f''
    → Pushed (as1 ++ as2) (ss1 ++ ss2) f f''
Pushed-both as1 ss1 as2 ss2 f f' f'' p q = record {
  feed_assets =
      q.feed_assets ∙ ap (λ l. l ++ as2) p.feed_assets ∙ append_assoc f.feed_assets as1 as2;
  static_assets =
      q.static_assets ∙ ap (λ l. l ++ ss2) p.static_assets ∙ append_assoc f.static_assets ss1 ss2;
  feeds = omega (arith, p.feeds, q.feeds, length-append as1 as2);
  static_prices = omega (arith, p.static_prices, q.static_prices, length-append ss1 ss2);
}

module _ {W : Type 0} (oracle : Oracle W) (lib : AddressLib) (answers : FeedsAnswer oracle) where
  abbrev asset_of :
      StrategyKind → Option Bool → (name asset underlying : String) → Bool → Bool → MissingFeed
  asset_of kind opt name asset underlying external has_feed = record {
    feed = record {
      name = name;
      asset = asset;
      factory = record {
        external = external;
        kind = kind;
        optional_underlying = opt;
        has_feed = has_feed;
      };
    };
    underlying = underlying;
  }

  abbrev Derives : MissingFeed → String → Type 0
  Derives m source =
      (fs : Feeds) (s : W)
      → Gives
          (Pushed (if gets_feed lib m.feed.factory.kind source then m.feed.asset ∷ [] else [])
            (if gets_price lib m.feed.factory.kind source then m.feed.asset ∷ [] else []) fs)
          (derive_feed oracle lib m source fs) s

  Pushed-feed :
      (m : MissingFeed) (addr : String) (fs : Feeds) (s : W)
      → Gives (Pushed (m.feed.asset ∷ []) [] fs) (push_feed oracle lib m fs (contract addr)) s
  unfolding push_feed
  Pushed-feed m addr fs s = (
    record fs { feed_assets = fs.feed_assets ++ m.feed.asset ∷ []; feeds = fs.feeds ++ addr ∷ [] },
    s,
    refl,
    record {
      feed_assets = refl;
      static_assets = sym (append-nil fs.static_assets);
      feeds = length-append fs.feeds (addr ∷ []);
      static_prices = omega arith;
    },
  )

  Pushed-deployed :
      (m : MissingFeed) (deploy : Act W String) (fs : Feeds)
      → Answers deploy
      → (s : W)
      → Gives
          (Pushed (m.feed.asset ∷ []) [] fs)
          ((deploy >>= λ addr. pure (contract addr)) >>= push_feed oracle lib m fs)
          s
  Pushed-deployed m deploy fs answers s =
      let (addr, s1, run, _) = answers s in
      let (fs', s2, pushed, p) = Pushed-feed m addr fs s1 in (fs', s2, rw run pushed, p)

  Pushed-price :
      (m : MissingFeed) (fs : Feeds) (s : W)
      → Gives (Pushed [] (m.feed.asset ∷ []) fs) (push_feed oracle lib m fs (price "")) s
  unfolding push_feed
  Pushed-price m fs s = after _ _ _ s (answers.asset_price m.underlying) λ p s1. (
    record fs {
      static_assets = fs.static_assets ++ m.feed.asset ∷ [];
      static_prices = fs.static_prices ++ p ∷ [];
    },
    s1,
    refl,
    record {
      feed_assets = sym (append-nil fs.feed_assets);
      static_assets = refl;
      feeds = omega arith;
      static_prices = length-append fs.static_prices (p ∷ []);
    },
  )

  derive_kind :
      (kind : StrategyKind) (opt : Option Bool) (name asset underlying : String) (ext hf : Bool)
      (source : String)
      → needs kind ≡ some opt
      → Derives (asset_of kind opt name asset underlying ext hf) source
  unfolding derive_feed feed_factory_fn
  derive_kind own_rates opt name asset underlying ext hf source h fs s = absurd (cc h)
  derive_kind aave (some true) name asset underlying ext hf source h fs s =
      elim (Bool-cases (falsy_or_zero_address lib (some source))) [
        | inl e ↦ rw e (Pushed-price (asset_of aave (some true) name asset underlying ext hf) fs s)
        | inr e ↦
            rw e (Pushed-feed (asset_of aave (some true) name asset underlying ext hf) source fs s)
      ]
  derive_kind compound_erc20 (some false) name asset underlying ext hf source h fs s =
      elim (Bool-cases (falsy_or_zero_address lib (some source))) [
        | inl e ↦ rw e (fs, s, refl, Pushed-nothing fs)
        | inr e ↦ rw e (
            Pushed-deployed (asset_of compound_erc20 (some false) name asset underlying ext hf)
              (oracle.deploy_price_feed_compound_erc20 name (asset ∷ source ∷ [])) fs
              (answers.deploy_erc20 name (asset ∷ source ∷ [])) s)
      ]
  derive_kind compound_eth (some true) name asset underlying ext hf source h fs s =
      Pushed-deployed (asset_of compound_eth (some true) name asset underlying ext hf)
        (oracle.deploy_price_feed_compound_eth name (asset ∷ [])) fs
        (answers.deploy_eth name (asset ∷ [])) s
  derive_kind _ _ name asset underlying ext hf source h fs s = absurd (cc h)

  derive_feed-Derives : (m : MissingFeed) (source : String) → IsFeed m → Derives m source
  derive_feed-Derives m source h =
      derive_kind m.feed.factory.kind m.feed.factory.optional_underlying m.feed.name m.feed.asset
        m.underlying m.feed.factory.external m.feed.factory.has_feed source h

  -- If the oracle answers and gives as many sources as there are assets, the derived feeds and prices
  -- come about: a feed for each asset whose strategy needs no source of the underlying, or has one, in
  -- order, and a price for each asset with an Aave strategy and no source; no other asset gets any.
  pub derive_feeds-Pushed :
      (missing : List MissingFeed) (sources : List String) (fs : Feeds) (s : W)
      → All IsFeed missing
      → length sources ≡ length missing
      → Gives
          (Pushed
            (chosen_by lib (gets_feed lib) missing sources)
            (chosen_by lib (gets_price lib) missing sources)
            fs)
          (derive_feeds oracle lib missing sources fs)
          s
  unfolding derive_feeds
  derive_feeds-Pushed [] [] fs s h e = (fs, s, refl, Pushed-nothing fs)
  derive_feeds-Pushed [] (source ∷ sources) fs s h e = absurd (omega (arith, e))
  derive_feeds-Pushed (m ∷ missing) [] fs s h e = absurd (omega (arith, e))
  derive_feeds-Pushed (m ∷ missing) (source ∷ sources) fs s (h, hs) e =
      let (f1, s1, run, p) = derive_feed-Derives m source h fs s in
      let (f2, s2, rest, q) = derive_feeds-Pushed missing sources f1 s1 hs (omega (arith, e)) in
      (f2, s2, rw run rest, Pushed-both _ _ _ _ fs f1 f2 p q)
