-- ===== src/Tests/Rewards.antt =====
-- The access controller of a deployment and the reward pools at concrete data.
use augmented_finance_protoc.Prelude.{
  to_int32, ℕ, ◌+◌, ltb, String, ◌≡◌, refl, true, false, List, [], ◌∷◌, ◌++◌, none, some,
  if◌then◌else◌, ok, thrown, ◌==◌, starts_with, for_each, to_lower_case, pos, map,
}
use augmented_finance_protoc.Helpers.Addresses.{AddressLib, falsy_or_zero_address}
use augmented_finance_protoc.JsonDb.{Db, empty_network}
use augmented_finance_protoc.Deployment.Controllers.{set_pre_deploy_access_controller}
use augmented_finance_protoc.Deployment.Controllers.Agreed.{
  Agree, set_pre_deploy_access_controller-agrees,
}
use augmented_finance_protoc.Provider.{Contracts, grant_emergency_admins}
use augmented_finance_protoc.Provider.Granted.{grant, grant_emergency_admins-regrants}
use augmented_finance_protoc.Reserves.Plan.{has}
use augmented_finance_protoc.Rewards.Selection.{PoolInitParams}
use augmented_finance_protoc.Rewards.Pools.{
  Configurator, Chosen, nothing_chosen, zero_address, choose_pools, add_shares, init_pools,
}
use augmented_finance_protoc.Rewards.Pools.Split.{
  wanted, some_missing, sum_shares, recording, choose_pools_lem, init_pools_lem,
}
use augmented_finance_protoc.Rewards.Extra.{ExtraPools, deploy_missing}
use augmented_finance_protoc.Rewards.Extra.Deployable.{
  Addresses, logging, team_names, team_share, entries, share_of, whole_log, pools_named,
  provider_added, freezer_deployed, treasury_deployed, team_configured, team_deployed,
}
use augmented_finance_protoc.Rewards.Extra.Deployed.{deploy_missing_lem}
use augmented_finance_protoc.Tests.{sample_lib}

abbrev deployed_db : Db
deployed_db =
    (
      "main",
      record empty_network {
        named = ("MarketAccessController", record { address = "0x5"; count = 1 }) ∷ [];
      },
    )
    ∷ []

set_pre_deploy_access_controller-agrees_example :
    Agree sample_lib "main" deployed_db
      (set_pre_deploy_access_controller sample_lib "main" none deployed_db)
set_pre_deploy_access_controller-agrees_example =
    set_pre_deploy_access_controller-agrees sample_lib "main" none deployed_db

-- Texts with the prefix 0x are addresses.
unfoldable reward_lib : AddressLib
unfolding starts_with
reward_lib = record {
  is_address = λ a. starts_with a "0x";
  is_zero_address = λ a. a == zero_address;
}

abbrev pool_of : String → ℕ → PoolInitParams
pool_of name share = record {
  provider = "0x7";
  impl = "";
  pool_name = name;
  baseline_percentage = share;
  initial_rate = 0;
  boost_factor = 0;
}

abbrev three_pools : List PoolInitParams
three_pools = pool_of "agA" 1000 ∷ pool_of "agB" 2000 ∷ pool_of "agC" 500 ∷ []

-- A configurator that counts what it deploys.
abbrev counting : {W : Type 0} → (W → W) → Configurator W
counting next = record {
  get_rewarded_token_params = λ tokens w. (ok ("" ∷ "0x2" ∷ [], "" ∷ "" ∷ []), w);
  deploy_token_weighted_reward_pool_impl = λ w. (ok "0x9", next w);
  get_pool_totals = λ w. (ok (0, 0), w);
  batch_init_reward_pools = λ params w. (ok tt, w);
  list_pools = λ w. (ok ("0x3" ∷ "0x2" ∷ []), w);
  encode_initialize_reward_pool = λ pool controller name share w. (ok "0x", w);
  add_proxy_to_json_db = λ id proxy impl sub_type args w. (ok tt, w);
  update_baseline = λ rate w. (ok tt, w);
  get_rate = λ pool w. (ok 1, w);
  address = "0x4";
}

nine_valid : falsy_or_zero_address reward_lib (some "0x9") ≡ false
unfolding falsy_or_zero_address reward_lib
nine_valid = refl

zero_falsy : falsy_or_zero_address reward_lib (some zero_address) ≡ true
unfolding falsy_or_zero_address reward_lib
zero_falsy = refl

-- The first pool is missing, the second is not started, the third is active.
choose_pools_lem_example :
    (c : Chosen) × (choose_pools
        (counting (λ n. n + 1))
        reward_lib
        ("agA" ∷ "agB" ∷ "agC" ∷ [])
        ("" ∷ "0x2" ∷ "0x3" ∷ [])
        ("" ∷ "" ∷ "0x4" ∷ [])
        0
        three_pools
        nothing_chosen
        0
      ≡ (
        ok c,
        (if some_missing reward_lib "0x9"
              ("" ∷ "0x2" ∷ "0x3" ∷ [])
              ("" ∷ "" ∷ "0x4" ∷ [])
              0
              three_pools
            then 0 + 1
            else 0),
      ))
    × (c.params
        ≡ wanted reward_lib "0x9" ("" ∷ "0x2" ∷ "0x3" ∷ []) ("" ∷ "" ∷ "0x4" ∷ []) 0 three_pools)
choose_pools_lem_example =
    choose_pools_lem (counting (λ n. n + 1)) reward_lib "0x9" (λ n. n + 1)
      ("agA" ∷ "agB" ∷ "agC" ∷ []) ("" ∷ "0x2" ∷ "0x3" ∷ []) ("" ∷ "" ∷ "0x4" ∷ []) (λ s. refl)
      nine_valid zero_falsy three_pools 0

two_wanted :
    wanted reward_lib "0x9" ("" ∷ "0x2" ∷ "0x3" ∷ []) ("" ∷ "" ∷ "0x4" ∷ []) 0 three_pools
    ≡ record (pool_of "agA" 1000) { impl = "0x9" }
      ∷ record (pool_of "agB" 2000) { impl = zero_address }
      ∷ []
unfolding falsy_or_zero_address reward_lib
two_wanted = refl

init_pools_lem_example :
    init_pools
      (recording (counting (λ log. log)) reward_lib)
      reward_lib
      (add_shares 7000 three_pools)
      three_pools
      []
    ≡ (if ltb 10000 (7000 + sum_shares three_pools)
        then (thrown "excessive total reward share", [])
        else (ok tt, [] ++ three_pools))
init_pools_lem_example = init_pools_lem (counting (λ log. log)) reward_lib 7000 three_pools []

-- There is no referral registry yet.
abbrev sample_addresses : Addresses
sample_addresses = record {
  team = "0xa";
  registry = "";
  referral_impl = "0xb";
  referral = "0xc";
  treasury = "0xd";
  freezer = λ name. "0xe";
  init_data = λ name share. "0x";
}

abbrev sample_extra : ExtraPools
sample_extra = record {
  treasury_pool = some (record { base_points = 1000; boost_factor = 0 });
  team_pool = some (record {
    base_points = 2000;
    manager = "0x1";
    unlock_at = 1600000000000;
    members = ("0x2", 100) ∷ [];
  });
  referral_pool = some (record { base_points = 1500; boost_factor = 0 });
  burners_pool = some (record {
    total_wad = 120000;
    boost_factor = 0;
    melt_down_at = 1600000000000;
    providers = "0x3" ∷ [];
  });
  retro_pool = none;
}

deploy_missing_lem_example :
    deploy_missing (logging sample_addresses) reward_lib ("RetroPool" ∷ []) sample_extra [] ≡ (
      ok (
        team_names sample_addresses reward_lib ("RetroPool" ∷ []) sample_extra.team_pool
            ++ map
                (λ e. e.name)
                (entries sample_addresses reward_lib ("RetroPool" ∷ []) sample_extra),
        team_share sample_addresses reward_lib ("RetroPool" ∷ []) sample_extra.team_pool
            + share_of (entries sample_addresses reward_lib ("RetroPool" ∷ []) sample_extra),
      ),
      whole_log sample_addresses reward_lib ("RetroPool" ∷ []) sample_extra [],
    )
deploy_missing_lem_example =
    deploy_missing_lem sample_addresses reward_lib ("RetroPool" ∷ []) sample_extra []

known_referrals :
    deploy_missing (logging sample_addresses) reward_lib ("RefPool" ∷ []) sample_extra [] ≡ (
      ok ("TeamPool" ∷ "TreasuryPool" ∷ "BurnersPool" ∷ [], 3000),
      pools_named ("0xd" ∷ "0xe" ∷ []) ("TreasuryPool" ∷ "BurnersPool" ∷ []) (0 ∷ 0 ∷ [])
          ∷ provider_added "0xe" "0x3" zero_address
          ∷ freezer_deployed "BurnersPool" 120000000000000000000000 (pos 1600000000)
          ∷ treasury_deployed 1000
          ∷ team_configured "0xa" "TeamPool" (pos 1600000000) ("0x2" ∷ []) (100 ∷ [])
          ∷ team_deployed 2000 "0x1"
          ∷ [],
    )
unfolding deploy_missing reward_lib falsy_or_zero_address for_each to_int32
known_referrals = refl

-- A controller with the emergency admin 0xA, and one place that is not used; it counts what it grants.
abbrev granting : Contracts ℕ
granting = record {
  get_first_signer = λ w. (ok "0x1", w);
  get_owner = λ registry w. (ok "0x1", w);
  get_one_time_user = λ registry w. (ok "0x1", w);
  get_signer = λ addr. some addr;
  get_addresses_provider_registry = λ s. (ok "0x2", s);
  deploy_addresses_provider_registry = λ s. (ok "0x2", s);
  set_one_time_registrar = λ registry user id w. (ok tt, w);
  transfer_registry = λ registry owner w. (ok tt, w);
  deploy_market_access_controller_no_save = λ id w. (ok "0x3", w);
  set_any_role_mode = λ controller mode w. (ok tt, w);
  set_temporary_admin = λ controller user limit w. (ok tt, w);
  transfer_controller = λ controller owner w. (ok tt, w);
  prepare_addresses_provider = λ registry controller w. (ok tt, w);
  get_addresses_provider_id_by_address = λ registry controller w. (ok 0, w);
  role_active_grantees = λ controller flags w. (ok ("0xA" ∷ zero_address ∷ [], 1), w);
  grant_roles = λ controller user flags w. (ok tt, w + 1);
}

grant_emergency_admins-regrants_example :
    grant_emergency_admins granting sample_lib "0x3" false ("0xA" ∷ []) 0
    ≡ for_each (grant granting sample_lib "0x3") ("0xA" ∷ []) 0
unfolding has to_lower_case
grant_emergency_admins-regrants_example =
    grant_emergency_admins-regrants granting sample_lib "0x3" ("0xA" ∷ []) (zero_address ∷ []) "0xA"
      [] 0 0 refl (refl, tt)

granted_again : grant_emergency_admins granting sample_lib "0x3" false ("0xA" ∷ []) 0 ≡ (ok tt, 1)
unfolding grant_emergency_admins has to_lower_case
granted_again = refl
