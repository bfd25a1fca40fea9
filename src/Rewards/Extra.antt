-- ===== src/Rewards/Extra.antt =====
-- The pools that belong to no token, `deployExtraPools` of tasks/full/10-token-reward-pools.ts.
pub mod Deployable
pub mod Deployed
use augmented_finance_protoc.Prelude.{
  ℕ, ◌+◌, ◌*◌, ◌/◌, ◌^◌, ltb, eqb, ℤ, to_int32, String, Bool, true, false, not, ◌&&◌, ◌||◌, List,
  [], ◌∷◌, ◌++◌, Option, none, some, if◌then◌else◌, Act, pure, ◌>>=◌, ◌>>◌, for_each, Dict, length,
  map,
}
use augmented_finance_protoc.Helpers.Addresses.{AddressLib, falsy_or_zero_address}
use augmented_finance_protoc.Reserves.Plan.{has}
use augmented_finance_protoc.Rewards.Selection.{RewardPoolParams}
use augmented_finance_protoc.Rewards.Pools.{zero_address}

-- `ITeamPool`; a date is its milliseconds.
pub record TeamPool : Type 0 where
  pub base_points : ℕ
  pub manager : String
  pub unlock_at : ℕ
  pub members : Dict ℕ

-- `IPermiRewardPool`
pub record PermiRewardPool : Type 0 where
  pub total_wad : ℕ
  pub boost_factor : ℕ
  pub melt_down_at : ℕ
  pub providers : List String

-- `IRewardPools`, without the rate and the pools of tokens.
pub record ExtraPools : Type 0 where
  pub treasury_pool : Option RewardPoolParams
  pub team_pool : Option TeamPool
  pub referral_pool : Option RewardPoolParams
  pub burners_pool : Option PermiRewardPool
  pub retro_pool : Option PermiRewardPool

-- The contracts, with the address of the reward controller and the flags `verify` and `continuation`
-- given.
pub record ExtraContracts (W : Type 0) : Type 0 where
  pub get_named_reward_pools : List String → Act W (List String)
  pub deploy_team_reward_pool : (base_points : ℕ) → (manager : String) → Act W String
  pub configure_team_reward_pool :
      (addr name : String) → (unlock : ℤ) → List String → List ℕ → Act W (Unit {0})
  pub get_allocated_shares : String → Act W ℕ
  pub get_referral_registry : Act W String
  pub deploy_referral_reward_pool_impl : Act W String
  pub build_reward_pool_init_data : String → ℕ → Act W String
  pub set_and_get_referral_registry : (impl init_data : String) → Act W String
  pub deploy_treasury_reward_pool : ℕ → Act W String
  pub deploy_named_permit_freezer_reward_pool :
      (name : String) → (total : ℕ) → (unlock : ℤ) → Act W String
  pub add_reward_provider : (pool provider token : String) → Act W (Unit {0})
  pub add_named_reward_pools : List String → List String → List ℕ → Act W (Unit {0})

abbrev pub team_pool_name : String
team_pool_name = "TeamPool"

abbrev pub ref_pool_name : String
ref_pool_name = "RefPool"

abbrev pub burn_pool_name : String
burn_pool_name = "BurnersPool"

abbrev pub retro_pool_name : String
retro_pool_name = "RetroPool"

abbrev pub treasury_pool_name : String
treasury_pool_name = "TreasuryPool"

abbrev pub all_names : List String
all_names =
    team_pool_name ∷ ref_pool_name ∷ burn_pool_name ∷ retro_pool_name ∷ treasury_pool_name ∷ []

-- The variables `poolAddrs`, `poolNames`, `poolFactors` and `totalShare`.
pub record Named : Type 0 where
  pub addrs : List String
  pub names : List String
  pub factors : List ℕ
  pub total_share : ℕ

abbrev push_named : String → String → ℕ → ℕ → Named → Named
push_named addr name factor share n = record {
  addrs = n.addrs ++ addr ∷ [];
  names = n.names ++ name ∷ [];
  factors = n.factors ++ factor ∷ [];
  total_share = n.total_share + share;
}

module _ {W : Type 0} (contracts : ExtraContracts W) (lib : AddressLib) where
  -- The loop that fills `knownNamedPools`.
  unfoldable pub add_known : List String → List String → List String → List String
  add_known known (name ∷ names) (addr ∷ addrs) =
      add_known (if not (falsy_or_zero_address lib (some addr)) then known ++ name ∷ [] else known)
        names addrs
  add_known known _ _ = known

  unfoldable pub find_known : (fresh_start continuation : Bool) → Act W (List String)
  unfolding add_known
  find_known fresh_start continuation =
      if not fresh_start || continuation
      then (do
        all_named ← contracts.get_named_reward_pools all_names
        pure (add_known [] all_names all_named))
      else pure []

  module _ (known : List String) where
    -- The names and the share of the team pool, if it is deployed.
    unfoldable pub deploy_team_pool : Option TeamPool → Act W (List String × ℕ)
    unfolding has
    deploy_team_pool none = pure ([], 0)
    deploy_team_pool (some params) = if has team_pool_name known then pure ([], 0) else (do
      addr ← contracts.deploy_team_reward_pool params.base_points params.manager
      contracts.configure_team_reward_pool addr team_pool_name (to_int32 (params.unlock_at / 1000))
          (map (λ m. m.0) params.members) (map (λ m. m.1) params.members)
      allocation ← contracts.get_allocated_shares addr
      pure (team_pool_name ∷ [], params.base_points))

    unfoldable pub referral_pool_at : ℕ → String → Act W String
    referral_pool_at share addr =
        if falsy_or_zero_address lib (some addr)
        then (do
          impl ← contracts.deploy_referral_reward_pool_impl
          init_data ← contracts.build_reward_pool_init_data ref_pool_name share
          contracts.set_and_get_referral_registry impl init_data)
        else pure addr

    unfoldable pub deploy_referral_pool : Option RewardPoolParams → Named → Act W Named
    unfolding has referral_pool_at
    deploy_referral_pool none n = pure n
    deploy_referral_pool (some params) n = if has ref_pool_name known then pure n else (do
      found ← contracts.get_referral_registry
      addr ← referral_pool_at params.base_points found
      pure (push_named addr ref_pool_name params.boost_factor params.base_points n))

    unfoldable pub deploy_treasury_pool : Option RewardPoolParams → Named → Act W Named
    unfolding has
    deploy_treasury_pool none n = pure n
    deploy_treasury_pool (some params) n = if has treasury_pool_name known then pure n else (do
      addr ← contracts.deploy_treasury_reward_pool params.base_points
      pure (push_named addr treasury_pool_name params.boost_factor params.base_points n))

    unfoldable pub add_provider : String → String → Act W (Unit {0})
    add_provider pool value =
        if not (falsy_or_zero_address lib (some value))
        then contracts.add_reward_provider pool value zero_address
        else pure tt

    unfoldable pub deploy_permit_pool : String → Option PermiRewardPool → Named → Act W Named
    unfolding has add_provider for_each
    deploy_permit_pool name none n = pure n
    deploy_permit_pool name (some params) n =
        if eqb params.total_wad 0 || has name known then pure n else (do
          addr ←
              contracts.deploy_named_permit_freezer_reward_pool name (10 ^ 18 * params.total_wad)
                (to_int32 (params.melt_down_at / 1000))
          for_each (add_provider addr) params.providers
          pure (push_named addr name params.boost_factor 0 n))

    unfoldable pub register_named_pools : List String → Named → Act W (List String × ℕ)
    register_named_pools extra_names n =
        if ltb 0 (length n.addrs)
        then (do
          contracts.add_named_reward_pools n.addrs n.names n.factors
          pure (extra_names ++ n.names, n.total_share))
        else pure (extra_names, n.total_share)

    unfoldable pub deploy_missing : ExtraPools → Act W (List String × ℕ)
    unfolding deploy_team_pool deploy_referral_pool deploy_treasury_pool deploy_permit_pool
        register_named_pools
    deploy_missing pools = do
      team ← deploy_team_pool pools.team_pool
      with_referral ←
          deploy_referral_pool pools.referral_pool
            (record { addrs = []; names = []; factors = []; total_share = team.1 })
      with_treasury ← deploy_treasury_pool pools.treasury_pool with_referral
      with_burners ← deploy_permit_pool burn_pool_name pools.burners_pool with_treasury
      with_retro ← deploy_permit_pool retro_pool_name pools.retro_pool with_burners
      register_named_pools team.0 with_retro

  unfoldable pub deploy_extra_pools :
      (fresh_start continuation : Bool) → ExtraPools → Act W (List String × ℕ)
  unfolding find_known deploy_missing
  deploy_extra_pools fresh_start continuation pools = do
    known ← find_known fresh_start continuation
    deploy_missing known pools
