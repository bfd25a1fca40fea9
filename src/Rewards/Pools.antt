-- ===== src/Rewards/Pools.antt =====
-- Which of the reward pools are created or only initialised, and their initialisation in batches:
-- tasks/full/10-token-reward-pools.ts, from the call of `getRewardedTokenParams` on.
pub mod Split
use augmented_finance_protoc.Prelude.{
  ℕ, ◌+◌, ◌-◌, ltb, eqb, leb, String, Bool, true, false, not, ◌&&◌, ◌||◌, List, [], ◌∷◌, ◌++◌,
  Option, none, some, if◌then◌else◌, Act, pure, throw, ◌>>=◌, ◌>>◌, for_each, get_elem?, length,
  drop, map, ◌<>◌,
}
use augmented_finance_protoc.Helpers.Addresses.{AddressLib, falsy_or_zero_address}
use augmented_finance_protoc.Helpers.Batches.{chunk}
use augmented_finance_protoc.Rewards.Selection.{PoolInitParams, Prepared}

-- The reward configurator, the reward controller, and what is kept for the verification.
pub record Configurator (W : Type 0) : Type 0 where
  -- The pools and the controllers of the tokens.
  pub get_rewarded_token_params : List String → Act W (List String × List String)
  -- With the flags `verify` and `continuation` given.
  pub deploy_token_weighted_reward_pool_impl : Act W String
  -- The total share and the number of the pools.
  pub get_pool_totals : Act W (ℕ × ℕ)
  pub batch_init_reward_pools : List PoolInitParams → Act W (Unit {0})
  pub list_pools : Act W (List String)
  -- Of the pool at the address, `undefined` for an index that is out of range.
  pub encode_initialize_reward_pool : Option String → String → String → ℕ → Act W String
  pub add_proxy_to_json_db :
      String → (proxy : Option String) → (impl sub_type : String) → List String → Act W (Unit {0})
  pub update_baseline : ℕ → Act W (Unit {0})
  pub get_rate : String → Act W ℕ
  pub address : String

abbrev pub zero_address : String
zero_address = "0x0000000000000000000000000000000000000000"

-- The variables `initParams`, `initNames` and `poolImplAddr`.
pub record Chosen : Type 0 where
  pub params : List PoolInitParams
  pub names : List String
  pub impl : String

abbrev pub nothing_chosen : Chosen
nothing_chosen = record { params = []; names = []; impl = zero_address }

abbrev pub push_chosen : String → PoolInitParams → Option String → Chosen → Chosen
push_chosen impl params name c = record c {
  params = c.params ++ record params { impl = impl } ∷ [];
  names = c.names ++ (elim name [ none ↦ "" | some n ↦ n ]) ∷ [];
}

-- The loop that adds up `totalShare`.
unfoldable pub add_shares : ℕ → List PoolInitParams → ℕ
add_shares total [] = total
add_shares total (p ∷ ps) = add_shares (total + p.baseline_percentage) ps

-- `xs[xs.length - n]`
unfoldable pub from_end : List String → ℕ → Option String
from_end xs n = if ltb (length xs) n then none else get_elem? xs (length xs - n)

module _ {W : Type 0} (configurator : Configurator W) (lib : AddressLib) where
  -- The implementation of a separate pool, deployed when it is needed first.
  unfoldable pub pool_impl : String → Act W String
  pool_impl impl =
      if falsy_or_zero_address lib (some impl)
      then configurator.deploy_token_weighted_reward_pool_impl
      else pure impl

  unfoldable pub choose_pool :
      PoolInitParams → Option String → (pool controller : Option String) → Chosen → Act W Chosen
  unfolding pool_impl
  choose_pool params name pool controller c =
      if falsy_or_zero_address lib pool
      then (do
        impl ← pool_impl c.impl
        pure (push_chosen impl params name (record c { impl = impl })))
      else (if falsy_or_zero_address lib controller
          then pure (push_chosen zero_address params name c)
          else pure c)

  -- The loop over `prepParams`, from the index `i` on.
  unfoldable pub choose_pools :
      (names pools controllers : List String) → ℕ → List PoolInitParams → Chosen → Act W Chosen
  unfolding choose_pool
  choose_pools names pools controllers i [] c = pure c
  choose_pools names pools controllers i (params ∷ rest) c = do
    c' ← choose_pool params (get_elem? names i) (get_elem? pools i) (get_elem? controllers i) c
    choose_pools names pools controllers (i + 1) rest c'

  -- The share of the pools that exist, and the number of those that are not new.
  unfoldable pub known_totals : (fresh_start continuation : Bool) → Act W (ℕ × ℕ)
  known_totals fresh_start continuation =
      if not fresh_start || continuation then configurator.get_pool_totals else pure (0, 0)

  -- The check of the total share, and the batches.
  unfoldable pub init_pools : ℕ → List PoolInitParams → Act W (Unit {0})
  unfolding chunk for_each
  init_pools total params =
      if ltb 10000 total
      then throw "excessive total reward share"
      else for_each configurator.batch_init_reward_pools (chunk params 4)

  -- The pools that are new are at the end of the list of all pools.
  unfoldable pub collect_pools : List String → ℕ → List PoolInitParams → Act W (Unit {0})
  unfolding from_end
  collect_pools active count [] = pure tt
  collect_pools active count (p ∷ ps) =
      if falsy_or_zero_address lib (some p.impl) then collect_pools active (count - 1) ps else (do
        let proxy = from_end active count
        payload ←
            configurator.encode_initialize_reward_pool proxy configurator.address p.pool_name
              p.baseline_percentage
        configurator.add_proxy_to_json_db ("REWARD_POOL_" <> p.pool_name) proxy p.impl "rewardPool"
            (configurator.address ∷ p.impl ∷ payload ∷ [])
        collect_pools active (count - 1) ps)

  -- The rates are read to be printed, if the number of pools is as expected.
  unfoldable pub read_rates : List String → Act W (Unit {0})
  read_rates [] = pure tt
  read_rates (pool ∷ pools) = do rate ← configurator.get_rate pool; read_rates pools

  unfoldable pub update_rates : List String → ℕ → List String → ℕ → Act W (Unit {0})
  unfolding read_rates
  update_rates active_pools initial_rate new_names new_pools_offset = do
    configurator.update_baseline initial_rate
    if not (eqb (length new_names + new_pools_offset) (length active_pools))
        then pure tt
        else read_rates (drop new_pools_offset active_pools)
