-- ===== src/Tests/Reserves.antt =====
-- The reserves of a market at concrete data.
use augmented_finance_protoc.Prelude.{
  pos, negsuc, ℕ, suc, ◌+◌, Bool, String, ◌≡◌, refl, true, false, List, [], ◌∷◌, Option, none, some,
  ok, Act, Dict, lookup, insert, All, map, keep, for_each, starts_with, to_lower_case,
}
use augmented_finance_protoc.Helpers.Addresses.{falsy_or_zero_address}
use augmented_finance_protoc.Helpers.Batches.{chunk}
use augmented_finance_protoc.Types.ContractIds.{
  ContractId, deposit_token_impl, delegated_strategy_aave,
}
use augmented_finance_protoc.Reserves.Strategies.{
  InterestRateStrategyParams, ReserveParams, Market, StrategyKind, aave, compound_erc20,
  compound_eth,
}
use augmented_finance_protoc.Reserves.Plan.{generic, InitPlan, empty_plan, plan_reserves}
use augmented_finance_protoc.Reserves.Plan.Chosen.{IsChosen, plan_reserves-All-IsChosen}
use augmented_finance_protoc.Reserves.Init.{
  TokenImpls, TokenNames, InitReserveInput, deploy_impls, init_inputs,
}
use augmented_finance_protoc.Reserves.Init.Implemented.{init_inputs-made}
use augmented_finance_protoc.Reserves.Configure.{
  ConfigureInput, configure_reserves_by_helper, get_token_aggregator_pairs, collect_rates,
}
use augmented_finance_protoc.Reserves.Configure.Selected.{
  answers, input_for, is_configurable, configure_reserves_by_helper_lem,
}
use augmented_finance_protoc.Helpers.Answers.{Gives}
use augmented_finance_protoc.Reserves.Feeds.{Oracle, MissingFeed, no_feeds, derive_feeds}
use augmented_finance_protoc.Reserves.Feeds.Derived.{
  FeedsAnswer, Pushed, chosen_by, gets_feed, gets_price, derive_feeds-Pushed,
}
use augmented_finance_protoc.Tests.{sample_lib}

-- A chain that counts what is deployed.
abbrev sample_market : Market ℕ
sample_market = record {
  deploy = λ id args w. (ok "0xa", suc w);
  deploy_reserve_interest_rate_strategy = λ name args w. (ok "0xb", suc w);
  ac_address = "0x8";
  get_weth_gateway = λ w. (ok "0x7", w);
  get_weth_address = λ gateway w. (ok "0x6", w);
  get_reserves_list = λ w. (ok [], w);
}

abbrev own_strategy : InterestRateStrategyParams
own_strategy = record {
  name = "own";
  strategy_impl = none;
  optimal_utilization_rate = "1";
  base_variable_borrow_rate = "0";
  variable_rate_slope1 = "0";
  variable_rate_slope2 = "0";
  stable_rate_slope1 = "0";
  stable_rate_slope2 = "0";
}

abbrev dai : ReserveParams
dai = record {
  borrowing_enabled = true;
  stable_borrow_rate_enabled = true;
  base_ltv_as_collateral = pos 7500;
  liquidation_threshold = pos 8000;
  liquidation_bonus = pos 10500;
  deposit_token_impl = deposit_token_impl;
  reserve_factor = 1000;
  strategy = own_strategy;
  reserve_decimals = 18;
}

abbrev sample_params : Dict ReserveParams
sample_params =
    ("DAI", dai)
    ∷ (
      "ADAI",
      record dai {
        strategy = record own_strategy {
          name = "aave";
          strategy_impl = some delegated_strategy_aave;
        };
      },
    )
    ∷ ("OLD", record dai { base_ltv_as_collateral = negsuc 0 })
    ∷ []

abbrev sample_addresses : Dict String
sample_addresses = ("DAI", "0x1") ∷ ("ADAI", "0x2") ∷ ("OLD", "0x3") ∷ []

abbrev sample_plan : InitPlan
sample_plan = record {
  strategies =
      ("own", record { address = "0xb"; external = false })
      ∷ ("aave", record { address = "0xa"; external = true })
      ∷ [];
  has_deposit = true;
  has_delegation_aware = false;
  has_variable_debt = true;
  has_stable_debt = true;
  reserve_info =
      record {
        token_address = "0x1";
        symbol = "DAI";
        decimals = 18;
        deposit_token_type = generic;
        strategy_address = "0xb";
        external = false;
      }
      ∷ record {
        token_address = "0x2";
        symbol = "ADAI";
        decimals = 18;
        deposit_token_type = generic;
        strategy_address = "0xa";
        external = true;
      }
      ∷ [];
}

-- The third asset exists already.
planned :
    plan_reserves sample_lib sample_market false sample_addresses
      ("0x3" ∷ [])
      sample_params
      empty_plan
      0
    ≡ (ok sample_plan, 2)
unfolding plan_reserves lookup insert to_lower_case sample_lib starts_with falsy_or_zero_address
planned = refl

plan_reserves-All-IsChosen_example :
    All
      (IsChosen sample_lib sample_market false sample_addresses ("0x3" ∷ []))
      sample_plan.reserve_info
plan_reserves-All-IsChosen_example =
    plan_reserves-All-IsChosen sample_lib sample_market false sample_addresses ("0x3" ∷ [])
      sample_params sample_plan 0 2 planned

abbrev sample_impls : TokenImpls
sample_impls = record {
  stable_debt = some "0xa";
  variable_debt = some "0xa";
  deposit = some "0xa";
  delegation_aware = none;
}

abbrev deploy_sample : ContractId → Act ℕ String
deploy_sample id w = (ok "0xa", suc w)

impls_deployed : deploy_impls deploy_sample sample_plan 2 ≡ (ok sample_impls, 5)
unfolding deploy_impls
impls_deployed = refl

abbrev sample_names : TokenNames
sample_names = record {
  deposit_token_name_prefix = "Augmented deposit";
  stable_debt_token_name_prefix = "Augmented stable debt";
  variable_debt_token_name_prefix = "Augmented variable debt";
  symbol_prefix = "";
  deposit_symbol_prefix = "ag";
  stable_debt_symbol_prefix = "s";
  variable_debt_symbol_prefix = "v";
}

init_inputs-made_example :
    (inputs : List InitReserveInput) × (init_inputs sample_names sample_impls
        sample_plan.reserve_info
      ≡ some inputs)
    × (map (λ i. i.underlying_asset) inputs ≡ map (λ i. i.token_address) sample_plan.reserve_info)
init_inputs-made_example =
    init_inputs-made sample_lib sample_market deploy_sample false sample_addresses ("0x3" ∷ [])
      sample_names sample_params sample_plan sample_impls 0 2 5 planned impls_deployed

abbrev configure_sample : List ConfigureInput → Act ℕ (Unit {0})
configure_sample inputs w = (ok tt, suc w)

configure_reserves_by_helper_lem_example :
    configure_reserves_by_helper sample_lib
      (answers sample_lib (λ _. false) sample_addresses)
      sample_addresses
      configure_sample
      sample_params
      0
    ≡ for_each configure_sample
        (chunk
          (map
            (input_for sample_addresses)
            (keep (is_configurable sample_lib (λ _. false) sample_addresses) sample_params))
          20)
        0
configure_reserves_by_helper_lem_example =
    configure_reserves_by_helper_lem sample_lib (λ _. false) sample_addresses configure_sample
      sample_params 0

abbrev sample_assets : Dict String
sample_assets = ("WETH", "0x4") ∷ sample_addresses

abbrev sample_aggregators : Dict String
sample_aggregators = ("OLD", "0xc") ∷ ("DAI", "0xd") ∷ ("ADAI", "0xe") ∷ []

abbrev sample_sources : List String
sample_sources = "0xd" ∷ "0xe" ∷ "0xc" ∷ []

pairs_made :
    get_token_aggregator_pairs sample_assets sample_aggregators
    ≡ some ("0x1" ∷ "0x2" ∷ "0x3" ∷ [], sample_sources)
unfolding get_token_aggregator_pairs
pairs_made = refl

abbrev sample_rates : Dict (Option String)
sample_rates = ("DAI", some "39") ∷ ("OLD", none) ∷ ("ADAI", some "30") ∷ []

abbrev sample_pairs : List (String × String)
sample_pairs = ("0x1", "39") ∷ ("0x2", "30") ∷ []

rates_collected : collect_rates sample_rates sample_addresses ≡ some sample_pairs
unfolding collect_rates
rates_collected = refl

abbrev set_sample : List String × List String → Act ℕ (Unit {0})
set_sample batch w = (ok tt, suc w)

abbrev sample_oracle : Oracle ℕ
sample_oracle = record {
  get_reserves_list = λ w. (ok [], w);
  get_underlying = λ asset w. (ok "0x1", w);
  get_asset_sources = λ assets w. (ok [], w);
  get_asset_price = λ asset w. (ok "10", w);
  set_asset_sources = λ assets sources w. (ok tt, w);
  get_fallback_oracle = λ w. (ok "0x2", w);
  set_asset_prices = λ fallback assets prices w. (ok tt, w);
  deploy_price_feed_compound_erc20 = λ name args w. (ok "0x8", w + 1);
  deploy_price_feed_compound_eth = λ name args w. (ok "0x9", w + 1);
}

sample_oracle-FeedsAnswer : FeedsAnswer sample_oracle
sample_oracle-FeedsAnswer = record {
  asset_price = λ a s. ("10", s, refl, tt);
  deploy_erc20 = λ n args s. ("0x8", s + 1, refl, tt);
  deploy_eth = λ n args s. ("0x9", s + 1, refl, tt);
}

abbrev missing_feed : StrategyKind → Bool → String → MissingFeed
missing_feed kind optional asset = record {
  feed = record {
    name = "T";
    asset = asset;
    factory = record {
      external = true;
      kind = kind;
      optional_underlying = some optional;
      has_feed = true;
    };
  };
  underlying = "0x1";
}

abbrev three_missing : List MissingFeed
three_missing =
    missing_feed aave true "0xa"
    ∷ missing_feed compound_erc20 false "0xb"
    ∷ missing_feed compound_eth true "0xc"
    ∷ []

derive_feeds-Pushed_example :
    Gives
      (Pushed
        (chosen_by sample_lib (gets_feed sample_lib) three_missing ("" ∷ "0x5" ∷ "" ∷ []))
        (chosen_by sample_lib (gets_price sample_lib) three_missing ("" ∷ "0x5" ∷ "" ∷ []))
        no_feeds)
      (derive_feeds sample_oracle sample_lib three_missing ("" ∷ "0x5" ∷ "" ∷ []) no_feeds)
      0
derive_feeds-Pushed_example =
    derive_feeds-Pushed sample_oracle sample_lib sample_oracle-FeedsAnswer three_missing
      ("" ∷ "0x5" ∷ "" ∷ []) no_feeds 0 (refl, (refl, (refl, tt))) refl
