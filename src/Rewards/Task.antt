-- ===== src/Rewards/Task.antt =====
-- The whole task full:init-reward-pools, tasks/full/10-token-reward-pools.ts. Its contracts are found
-- by the access controller before; they are given here.
use augmented_finance_protoc.Prelude.{
  ℕ, ◌+◌, leb, String, Bool, ◌&&◌, List, [], ◌∷◌, ◌++◌, Option, if◌then◌else◌, Act, pure, ◌>>=◌,
  ◌>>◌, Dict, length,
}
use augmented_finance_protoc.Helpers.Addresses.{AddressLib}
use augmented_finance_protoc.Rewards.Selection.{
  TokenTypes, Tokens, PairParams, Dependencies, SymbolPrefixes, find_reserves, find_pair,
  prepare_pools,
}
use augmented_finance_protoc.Rewards.Pools.{
  Configurator, nothing_chosen, choose_pools, known_totals, add_shares, init_pools, collect_pools,
  update_rates,
}
use augmented_finance_protoc.Rewards.Extra.{ExtraPools, ExtraContracts, deploy_extra_pools}

-- The configuration of the market for the network.
pub record RewardConfig : Type 0 where
  pub reserve_assets : Dict String
  pub token_pools : Dict (Option TokenTypes)
  pub extra_pools : ExtraPools
  pub pair : Option PairParams
  pub dependencies : Dependencies
  pub prefixes : SymbolPrefixes
  pub reward_stake_token_symbol : String
  -- `InitialRateWad`, in units of 10^-18.
  pub initial_rate : ℕ

module _ {W : Type 0} (tokens : Tokens W) (configurator : Configurator W)
    (contracts : ExtraContracts W) (lib : AddressLib) where
  -- The stake token has a reward pool before the others on a fresh start.
  unfoldable pub first_names : RewardConfig → (fresh_start : Bool) → ℕ → List String
  first_names config fresh_start count =
      if fresh_start && leb count 1 then config.reward_stake_token_symbol ∷ [] else []

  unfoldable pub pools_offset : (fresh_start : Bool) → ℕ → ℕ
  pools_offset fresh_start count = if fresh_start && leb count 1 then 0 else count

  unfoldable pub init_reward_pools :
      (fresh_start continuation verify : Bool) → RewardConfig → Act W (Unit {0})
  unfolding find_reserves find_pair prepare_pools choose_pools known_totals init_pools collect_pools
      update_rates deploy_extra_pools first_names pools_offset add_shares
  init_reward_pools fresh_start continuation verify config = do
    reserves ← find_reserves tokens lib config.reserve_assets [] config.token_pools
    known ← find_pair tokens lib config.pair config.dependencies config.reserve_assets reserves
    let prepared = prepare_pools lib config.prefixes known
    rewarded ← configurator.get_rewarded_token_params prepared.providers
    chosen ←
        choose_pools configurator lib prepared.names rewarded.0 rewarded.1 0 prepared.params
          nothing_chosen
    totals ← known_totals configurator lib fresh_start continuation
    extra ← deploy_extra_pools contracts lib fresh_start continuation config.extra_pools
    init_pools configurator lib (add_shares (totals.0 + extra.1) chosen.params) chosen.params
    active ← configurator.list_pools
    (if verify
        then collect_pools configurator lib active (length chosen.params) chosen.params
        else pure tt)
    update_rates configurator lib active config.initial_rate
        (first_names config fresh_start totals.1 ++ extra.0 ++ chosen.names)
        (pools_offset fresh_start totals.1)
