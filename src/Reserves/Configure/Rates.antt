-- ===== src/Reserves/Configure/Rates.antt =====
-- What the index searches of helpers/init-helpers.ts and helpers/oracles-helpers.ts find, and the
-- batches of market rates.
use augmented_finance_protoc.Prelude.{
  String, ◌≡◌, refl, sym, ap, ◌∙◌, not, List, [], ◌∷◌, Option, none, some, arith, Act, for_each,
  Dict, lookup, keep, map, Bool-cases, Option-cases, inl, inr,
}
use augmented_finance_protoc.Helpers.Batches.{chunk}
use augmented_finance_protoc.Helpers.Batches.Parallel.{chunk-map}
use augmented_finance_protoc.Reserves.Configure.{
  find_index, entry_at, aggregator_pairs, get_token_aggregator_pairs, is_base, cons_pair,
  collect_rates, zip_chunks, set_initial_market_rates,
}

-- The entry at the index of a key is the entry that the key has.
entry_at-find_index : (k : String) (d : Dict String) → entry_at d (find_index k d) ≡ lookup k d
unfolding entry_at find_index lookup
entry_at-find_index k [] = refl
entry_at-find_index k ((j, v) ∷ d) = ground (arith, entry_at-find_index k d)

abbrev pub assets_without_base : Dict String → Dict String
assets_without_base = keep (λ e. not (is_base e.0))

cons_pair-some :
    (token : String) (found : Option String) (more : Option (List (String × String)))
    (pairs : List (String × String))
    → cons_pair token found more ≡ some pairs
    → (a : String) × (ps : List (String × String)) × (found ≡ some a)
      × (more ≡ some ps)
      × (pairs ≡ (token, a) ∷ ps)
cons_pair-some token (some a) (some ps) pairs e = (a, ps, refl, refl, ground arith)
cons_pair-some token (some a) none pairs e = ground arith
cons_pair-some token none more pairs e = ground arith

pairs_lem :
    (assets aggregators : Dict String) (pairs : List (String × String))
    → aggregator_pairs assets aggregators ≡ some pairs
    → (map (λ p. p.0) pairs ≡ map (λ e. e.1) (assets_without_base assets))
      × (map (λ p. some p.1) pairs ≡ map (λ e. lookup e.0 aggregators) (assets_without_base assets))
unfolding aggregator_pairs
pairs_lem [] aggregators pairs e = ground arith
pairs_lem ((symbol, addr) ∷ rest) aggregators pairs e = elim (Bool-cases (is_base symbol)) [
  | inl b ↦ rw b (pairs_lem rest aggregators pairs (rw b at e))
  | inr b ↦
      let (a, ps, f, m, q) = cons_pair-some addr _ _ pairs (rw b at e) in
      let found : lookup symbol aggregators ≡ some a =
        sym (entry_at-find_index symbol aggregators) ∙ f in
      let (l, r) = pairs_lem rest aggregators ps m in
      rw (b, q, found) (ap (λ ys. addr ∷ ys) l, ap (λ ys. some a ∷ ys) r)
]

map-some :
    (pairs : List (String × String)) → map some (map (λ q. q.1) pairs) ≡ map (λ p. some p.1) pairs
map-some [] = refl
map-some (p ∷ pairs) = ap (λ ys. some p.1 ∷ ys) (map-some pairs)

abbrev both : List String → List String → Option (List String × List String)
both tokens sources = some (tokens, sources)

some_sources :
    (pairs : List (String × String)) (tokens sources : List String)
    → both (map (λ q. q.0) pairs) (map (λ q. q.1) pairs) ≡ both tokens sources
    → map some sources ≡ map (λ p. some p.1) pairs
some_sources pairs tokens sources e =
    let same : sources ≡ map (λ q. q.1) pairs = ground arith in ap (map some) same ∙ map-some pairs

-- When the pairs are made, the assets are all the assets but ETH, USD and WETH, in their order, and beside each of
-- them stands the aggregator of its symbol.
get_token_aggregator_pairs_lem :
    (assets aggregators : Dict String) (tokens sources : List String)
    → get_token_aggregator_pairs assets aggregators ≡ some (tokens, sources)
    → (tokens ≡ map (λ e. e.1) (assets_without_base assets))
      × (map some sources ≡ map (λ e. lookup e.0 aggregators) (assets_without_base assets))
unfolding get_token_aggregator_pairs
get_token_aggregator_pairs_lem assets aggregators tokens sources e =
    elim (Option-cases (aggregator_pairs assets aggregators)) [
      | inl n ↦
          let bad : none ≡ both tokens sources = rw (get_token_aggregator_pairs, n) at e in
          ground arith
      | inr (pairs, p) ↦
          let made : both (map (λ q. q.0) pairs) (map (λ q. q.1) pairs) ≡ both tokens sources =
            rw (get_token_aggregator_pairs, p) at e in
          let (l, r) = pairs_lem assets aggregators pairs p in
          (cc (made, l), some_sources pairs tokens sources made ∙ r)
    ]

zip_chunks-map :
    {A B C : Type 0} (f : C → A) (g : C → B) (cs : List (List C))
    → zip_chunks (map (map f) cs) (map (map g) cs) ≡ map (λ c. (map f c, map g c)) cs
unfolding zip_chunks
zip_chunks-map f g [] = refl
zip_chunks-map f g (c ∷ cs) = ap (λ ds. (map f c, map g c) ∷ ds) (zip_chunks-map f g cs)

-- When every symbol that has a rate has an address, the rates are set in batches of at most 20 pairs, in their
-- order, and every asset of a batch is sent with its own rate.
set_initial_market_rates_lem :
    {W : Type 0} (set_rates : List String × List String → Act W (Unit {0}))
    (market_rates : Dict (Option String)) (addresses : Dict String) (pairs : List (String × String))
    → collect_rates market_rates addresses ≡ some pairs
    → set_initial_market_rates set_rates market_rates addresses
      ≡ for_each set_rates (map (λ c. (map (λ p. p.0) c, map (λ p. p.1) c)) (chunk pairs 20))
unfolding set_initial_market_rates
set_initial_market_rates_lem set_rates market_rates addresses pairs e =
    rw (set_initial_market_rates, e, chunk-map (λ p. p.0) pairs 20, chunk-map (λ p. p.1) pairs 20)
      (ap (for_each set_rates) (zip_chunks-map (λ p. p.0) (λ p. p.1) (chunk pairs 20)))
