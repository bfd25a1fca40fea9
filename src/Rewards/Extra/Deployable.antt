-- ===== src/Rewards/Extra/Deployable.antt =====
-- What gets deployed of the pools that belong to no token, and how it is registered.
use augmented_finance_protoc.Prelude.{
  ℕ, ◌+◌, ◌*◌, ◌/◌, ◌^◌, eqb, ℤ, to_int32, String, Bool, ◌||◌, List, [], ◌∷◌, ◌++◌, Option, none,
  some, map, if◌then◌else◌, ok,
}
use augmented_finance_protoc.Helpers.Addresses.{AddressLib, falsy_or_zero_address}
use augmented_finance_protoc.Reserves.Plan.{has}
use augmented_finance_protoc.Rewards.Selection.{RewardPoolParams}
use augmented_finance_protoc.Rewards.Pools.{zero_address}
use augmented_finance_protoc.Rewards.Extra.{
  TeamPool, PermiRewardPool, ExtraPools, ExtraContracts, team_pool_name, ref_pool_name,
  burn_pool_name, retro_pool_name, treasury_pool_name,
}

-- What the chain gets to do.
pub data Event : Type 0 where
  team_deployed : (base_points : ℕ) (manager : String) → Event
  team_configured : (addr name : String) (unlock : ℤ) → List String → List ℕ → Event
  referral_deployed : Event
  registry_set : (impl init_data : String) → Event
  treasury_deployed : ℕ → Event
  freezer_deployed : (name : String) (total : ℕ) (unlock : ℤ) → Event
  provider_added : (pool provider token : String) → Event
  pools_named : (addrs names : List String) → List ℕ → Event

-- The addresses that come about; `registry` is the referral registry that there is before.
pub record Addresses : Type 0 where
  pub team : String
  pub registry : String
  pub referral_impl : String
  pub referral : String
  pub treasury : String
  pub freezer : String → String
  pub init_data : String → ℕ → String

-- Contracts that write down what they are asked to do, the last first.
abbrev pub logging : Addresses → ExtraContracts (List Event)
logging a = record {
  get_named_reward_pools = λ names w. (ok [], w);
  deploy_team_reward_pool = λ share manager w. (ok a.team, team_deployed share manager ∷ w);
  configure_team_reward_pool = λ addr name unlock members shares w.
      (ok tt, team_configured addr name unlock members shares ∷ w);
  get_allocated_shares = λ addr w. (ok 0, w);
  get_referral_registry = λ w. (ok a.registry, w);
  deploy_referral_reward_pool_impl = λ w. (ok a.referral_impl, referral_deployed ∷ w);
  build_reward_pool_init_data = λ name share w. (ok (a.init_data name share), w);
  set_and_get_referral_registry = λ impl payload w. (ok a.referral, registry_set impl payload ∷ w);
  deploy_treasury_reward_pool = λ share w. (ok a.treasury, treasury_deployed share ∷ w);
  deploy_named_permit_freezer_reward_pool =
      λ name total unlock w. (ok (a.freezer name), freezer_deployed name total unlock ∷ w);
  add_reward_provider = λ pool provider token w. (ok tt, provider_added pool provider token ∷ w);
  add_named_reward_pools = λ addrs names factors w. (ok tt, pools_named addrs names factors ∷ w);
}

-- A pool that is registered by its name.
pub record Entry : Type 0 where
  pub addr : String
  pub name : String
  pub factor : ℕ
  pub share : ℕ

abbrev pub share_of : List Entry → ℕ
share_of [] = 0
share_of (e ∷ es) = e.share + share_of es

abbrev pub unless : {A : Type 0} → Bool → A → List A
unless b x = if b then [] else x ∷ []

module _ (a : Addresses) (lib : AddressLib) (known : List String) where
  -- The team pool: its name, its share and what is done.
  abbrev pub team_names : Option TeamPool → List String
  team_names none = []
  team_names (some p) = unless (has team_pool_name known) team_pool_name

  abbrev pub team_share : Option TeamPool → ℕ
  team_share none = 0
  team_share (some p) = if has team_pool_name known then 0 else p.base_points

  abbrev pub team_log : Option TeamPool → List Event → List Event
  team_log none log = log
  team_log (some p) log =
      if has team_pool_name known
      then log
      else team_configured a.team team_pool_name (to_int32 (p.unlock_at / 1000))
          (map (λ m. m.0) p.members) (map (λ m. m.1) p.members)
        ∷ team_deployed p.base_points p.manager
        ∷ log

  -- The referral pool is deployed only if there is no referral registry.
  abbrev pub no_registry : Bool
  no_registry = falsy_or_zero_address lib (some a.registry)

  abbrev pub referral_entry : Option RewardPoolParams → List Entry
  referral_entry none = []
  referral_entry (some p) = unless (has ref_pool_name known) (record {
    addr = if no_registry then a.referral else a.registry;
    name = ref_pool_name;
    factor = p.boost_factor;
    share = p.base_points;
  })

  abbrev pub referral_log : Option RewardPoolParams → List Event → List Event
  referral_log none log = log
  referral_log (some p) log =
      if has ref_pool_name known
      then log
      else (if no_registry
          then registry_set a.referral_impl (a.init_data ref_pool_name p.base_points)
            ∷ referral_deployed
            ∷ log
          else log)

  abbrev pub treasury_entry : Option RewardPoolParams → List Entry
  treasury_entry none = []
  treasury_entry (some p) = unless (has treasury_pool_name known) (record {
    addr = a.treasury;
    name = treasury_pool_name;
    factor = p.boost_factor;
    share = p.base_points;
  })

  abbrev pub treasury_log : Option RewardPoolParams → List Event → List Event
  treasury_log none log = log
  treasury_log (some p) log =
      if has treasury_pool_name known then log else treasury_deployed p.base_points ∷ log

  -- A pool of frozen rewards has a limit and no share; it is passed over if the limit is 0.
  abbrev pub is_passed : String → PermiRewardPool → Bool
  is_passed name p = eqb p.total_wad 0 || has name known

  abbrev pub permit_entry : String → Option PermiRewardPool → List Entry
  permit_entry name none = []
  permit_entry name (some p) =
      unless (is_passed name p)
        (record { addr = a.freezer name; name = name; factor = p.boost_factor; share = 0 })

  -- Its providers are added, those with an address.
  abbrev pub providers_log : String → List String → List Event → List Event
  providers_log pool [] log = log
  providers_log pool (p ∷ ps) log =
      providers_log pool ps (
        if falsy_or_zero_address lib (some p)
        then log
        else provider_added pool p zero_address ∷ log)

  abbrev pub permit_log : String → Option PermiRewardPool → List Event → List Event
  permit_log name none log = log
  permit_log name (some p) log =
      if is_passed name p
      then log
      else providers_log (a.freezer name) p.providers
          (freezer_deployed name (10 ^ 18 * p.total_wad) (to_int32 (p.melt_down_at / 1000)) ∷ log)

  -- The pools that are configured and not known yet, less the team pool.
  abbrev pub entries : ExtraPools → List Entry
  entries pools =
      referral_entry pools.referral_pool
      ++ (treasury_entry pools.treasury_pool
          ++ (permit_entry burn_pool_name pools.burners_pool
              ++ permit_entry retro_pool_name pools.retro_pool))

  -- They are registered together, unless there is none.
  abbrev pub naming_log : List Entry → List Event → List Event
  naming_log [] log = log
  naming_log (e ∷ es) log =
      pools_named (map (λ x. x.addr) (e ∷ es)) (map (λ x. x.name) (e ∷ es))
        (map (λ x. x.factor) (e ∷ es))
      ∷ log

  abbrev pub whole_log : ExtraPools → List Event → List Event
  whole_log pools log = naming_log (entries pools) (
      permit_log retro_pool_name pools.retro_pool (
        permit_log burn_pool_name pools.burners_pool (
          treasury_log pools.treasury_pool
            (referral_log pools.referral_pool (team_log pools.team_pool log)))))
