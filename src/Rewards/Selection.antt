-- ===== src/Rewards/Selection.antt =====
-- The reward pools that are asked for, tasks/full/10-token-reward-pools.ts: the tokens of the known
-- reserves with the shares that are configured for them. What is only printed is left out.
pub mod Aligned
use augmented_finance_protoc.Prelude.{
  ℕ, String, List, [], ◌∷◌, ◌++◌, Option, none, some, if◌then◌else◌, Act, pure, ◌>>=◌, Dict, lookup,
  get_elem?, ◌<>◌,
}
use augmented_finance_protoc.Helpers.Addresses.{AddressLib, falsy_or_zero_address}

-- `IRewardPoolParams`
pub record RewardPoolParams : Type 0 where
  pub base_points : ℕ
  pub boost_factor : ℕ

-- `ITokenTypes<IRewardPoolParams>`
pub record TokenTypes : Type 0 where
  pub deposit : Option RewardPoolParams
  pub v_debt : Option RewardPoolParams
  pub s_debt : Option RewardPoolParams
  pub stake : Option RewardPoolParams

pub record KnownReserve : Type 0 where
  pub base_symbol : String
  pub tokens : List String
  pub shares : List (Option RewardPoolParams)

-- What `getReserveData` returns of a reserve, as far as it is used.
pub record ReserveTokens : Type 0 where
  pub deposit_token_address : String
  pub variable_debt_token_address : String
  pub stable_debt_token_address : String

-- The lending pool, the stake configurator and the pair of the reward token on Uniswap.
pub record Tokens (W : Type 0) : Type 0 where
  pub get_reserve_data : String → Act W ReserveTokens
  pub stake_token_of : String → Act W String
  pub router_factory : String → Act W String
  pub get_reward_token : Act W String
  pub get_pair : (factory : String) → (base : Option String) → (agf : String) → Act W String

-- `UniV2EthPair`
pub record PairParams : Type 0 where
  pub symbol : String
  pub reward_share : Option RewardPoolParams

-- `Dependencies`
pub record Dependencies : Type 0 where
  pub agf_pair : Option String
  pub wrapped_native : Option String
  pub uniswap_v2_router : Option String

-- `poolInitParams`
pub record PoolInitParams : Type 0 where
  pub provider : String
  pub impl : String
  pub pool_name : String
  pub baseline_percentage : ℕ
  pub initial_rate : ℕ
  pub boost_factor : ℕ

-- The symbol prefixes of `Names`.
pub record SymbolPrefixes : Type 0 where
  pub deposit : String
  pub variable_debt : String
  pub stable_debt : String
  pub stake : String
  pub symbol : String

-- `a ?? b`
abbrev or_else : Option String → String → String
or_else none b = b
or_else (some a) b = a

module _ {W : Type 0} (tokens : Tokens W) (lib : AddressLib) where
  unfoldable pub known_reserve : String → TokenTypes → ReserveTokens → Act W KnownReserve
  known_reserve sym share rd =
      let known : KnownReserve = record {
        base_symbol = sym;
        tokens =
            rd.deposit_token_address ∷ rd.variable_debt_token_address ∷ rd.stable_debt_token_address
            ∷ [];
        shares = share.deposit ∷ share.v_debt ∷ share.s_debt ∷ [];
      } in
      elim share.stake [
        | none ↦ pure known
        | some s ↦ (do
          token ← tokens.stake_token_of rd.deposit_token_address
          pure (record known {
            tokens = known.tokens ++ token ∷ [];
            shares = known.shares ++ some s ∷ [];
          }))
      ]

  -- The body of the first loop: what it adds to the known reserves.
  unfoldable pub find_reserve :
      Dict String → List KnownReserve → String → TokenTypes → Act W (List KnownReserve)
  unfolding known_reserve
  find_reserve reserve_assets known sym share =
      let asset = lookup sym reserve_assets in
      if falsy_or_zero_address lib asset then pure known else (do
        rd ← tokens.get_reserve_data (elim asset [ none ↦ "" | some a ↦ a ])
        if falsy_or_zero_address lib (some rd.deposit_token_address)
            then pure known
            else (do info ← known_reserve sym share rd; pure (known ++ info ∷ [])))

  unfoldable pub find_reserves :
      Dict String → List KnownReserve → Dict (Option TokenTypes) → Act W (List KnownReserve)
  unfolding find_reserve
  find_reserves reserve_assets known [] = pure known
  find_reserves reserve_assets known ((sym, none) ∷ rest) = find_reserves reserve_assets known rest
  find_reserves reserve_assets known ((sym, some share) ∷ rest) = do
    known' ← find_reserve reserve_assets known sym share
    find_reserves reserve_assets known' rest

  unfoldable pub get_uni_agf_eth : Option String → Option String → Act W String
  get_uni_agf_eth none base = pure ""
  get_uni_agf_eth (some addr) base = if falsy_or_zero_address lib (some addr) then pure "" else (do
    factory ← tokens.router_factory addr
    agf ← tokens.get_reward_token
    tokens.get_pair factory base agf)

  -- The stake of the pair with the reward token.
  unfoldable pub find_pair :
      Option PairParams → Dependencies → Dict String → List KnownReserve → Act W (List KnownReserve)
  unfolding get_uni_agf_eth
  find_pair none dependencies reserve_assets known = pure known
  find_pair (some pair) dependencies reserve_assets known = elim pair.reward_share [
    | none ↦ pure known
    | some share ↦ (do
      let price_base = or_else dependencies.agf_pair (or_else dependencies.wrapped_native "WETH")
      addr ← get_uni_agf_eth dependencies.uniswap_v2_router (lookup price_base reserve_assets)
      if falsy_or_zero_address lib (some addr) then pure known else (do
        token ← tokens.stake_token_of addr
        pure (
            known
            ++ record {
              base_symbol = pair.symbol;
              tokens = "" ∷ "" ∷ "" ∷ token ∷ [];
              shares = none ∷ none ∷ none ∷ some share ∷ [];
            }
              ∷ [])))
  ]

-- The arrays `prepParams`, `prepNames` and `prepProviders`.
pub record Prepared : Type 0 where
  pub params : List PoolInitParams
  pub names : List String
  pub providers : List String

abbrev pub nothing_prepared : Prepared
nothing_prepared = record { params = []; names = []; providers = [] }

module _ (lib : AddressLib) (prefixes : SymbolPrefixes) where
  unfoldable pub token_symbol : ℕ → String → String
  token_symbol sub_type base =
      or_else
        (get_elem?
          (prefixes.deposit ∷ prefixes.variable_debt ∷ prefixes.stable_debt ∷ prefixes.stake ∷ [])
          sub_type)
        ""
      <> prefixes.symbol
      <> base

  pub push_prepared : String → String → RewardPoolParams → Prepared → Prepared
  push_prepared name token share p = record {
    params =
        p.params
        ++ record {
          provider = token;
          impl = "";
          pool_name = name;
          baseline_percentage = share.base_points;
          initial_rate = 0;
          boost_factor = share.boost_factor;
        }
          ∷ [];
    names = p.names ++ name ∷ [];
    providers = p.providers ++ token ∷ [];
  }

  pub prepare_pool : String → Option (Option RewardPoolParams) → Option String → Prepared → Prepared
  unfolding push_prepared
  prepare_pool name (some (some share)) (some token) p =
      if falsy_or_zero_address lib (some token) then p else push_prepared name token share p
  prepare_pool name _ _ p = p

  -- The inner loop, for one type of token.
  unfoldable pub prepare_type : ℕ → List KnownReserve → Prepared → Prepared
  unfolding prepare_pool token_symbol
  prepare_type sub_type [] p = p
  prepare_type sub_type (r ∷ rs) p = prepare_type sub_type rs (
      prepare_pool (token_symbol sub_type r.base_symbol) (get_elem? r.shares sub_type)
        (get_elem? r.tokens sub_type) p)

  unfoldable pub prepare_types : List ℕ → List KnownReserve → Prepared → Prepared
  unfolding prepare_type
  prepare_types [] reserves p = p
  prepare_types (t ∷ ts) reserves p = prepare_types ts reserves (prepare_type t reserves p)

  -- Deposit, variable, stake, stable.
  unfoldable pub prepare_pools : List KnownReserve → Prepared
  unfolding prepare_types
  prepare_pools reserves = prepare_types (0 ∷ 1 ∷ 3 ∷ 2 ∷ []) reserves nothing_prepared
