-- ===== src/Tests/Migrations.antt =====
-- Migrations at concrete data: a chain that counts the tasks that it has run.
use augmented_finance_protoc.Prelude.{
  ℕ, suc, ◌+◌, ◌<◌, All, String, ◌≡◌, refl, true, false, List, [], ◌∷◌, ◌++◌, map, take, drop, none,
  some, ok, thrown, ◌==◌, if◌then◌else◌, lookup, pos, length, index_of, str_take,
}
use augmented_finance_protoc.Deployment.{Site}
use augmented_finance_protoc.Migrations.Steps.{
  CatalogEntry, StepCatalog, DeployStep, step_catalog, deploy_task, get_deploy_steps, number_steps,
}
use augmented_finance_protoc.Migrations.Runs.{Hardhat, Run, run_task, run_steps}
use augmented_finance_protoc.Migrations.Runs.Resumed.{run_steps_resumed}
use augmented_finance_protoc.Migrations.Mainnet.{
  MainnetOptions, prepare, deploy_all, augmented_mainnet,
}
use augmented_finance_protoc.Migrations.Mainnet.Marked.{is_secured}
use augmented_finance_protoc.Migrations.Mainnet.Finalized.{
  Ends, ending, is_ok, augmented_mainnet-finalizes,
}
use augmented_finance_protoc.Migrations.Finalize.{
  Market, deploy_finalize, find_max_provider_id, choose_id,
}
use augmented_finance_protoc.Migrations.Finalize.Fresh.{IsAbove, choose_id-IsFresh}
use augmented_finance_protoc.Helpers.Addresses.{falsy_or_zero_address}
use augmented_finance_protoc.Tests.{sample_lib}
use augmented_finance_protoc.Migrations.Incremental.{nothing_seen, run_cycles}
use augmented_finance_protoc.Migrations.Incremental.Cycles.{
  Returns, schedule, task_of, run_cycles_ends,
}

-- The smoke test fails.
abbrev dre : Hardhat ℕ
dre = record {
  run = λ name args s.
      if name == "full:smoke-test"
      then (thrown "smoke", s)
      else (ok tt, record s { chain = suc s.chain });
  get_first_signer = λ s. (ok tt, s);
  get_balance = λ s. (ok 100, s);
  cleanup_ui_config = λ s. (ok tt, s);
  report_costs = λ start end spent s. (ok tt, s);
  report_tenderly = λ s. (ok tt, s);
  network = "main";
  is_fork_network = false;
  using_tenderly = false;
}

abbrev secure_start : MainnetOptions
secure_start = record {
  incremental = false;
  secure = true;
  strict = false;
  ignore_calc = false;
  verify = false;
  skip = 0;
}

abbrev entry : String → CatalogEntry (Site ℕ)
entry name = record {
  step_name = "a step";
  task_name = name;
  params_fn = λ params s.
      (ok (record { pool = some params.pool; flags = ("verify", params.verify) ∷ [] }), s);
}

abbrev catalog : StepCatalog (Site ℕ)
catalog = ("full", entry "full:first" ∷ entry "full:second" ∷ entry "full:third" ∷ []) ∷ []

abbrev step : ℕ → String → DeployStep
step n name = record {
  seq_id = n;
  step_name = "a step";
  task_name = name;
  args = record { pool = some "Augmented"; flags = ("verify", true) ∷ [] };
}

abbrev steps : List DeployStep
steps = step 1 "full:first" ∷ step 2 "full:second" ∷ step 3 "full:third" ∷ []

abbrev site : ℕ → Site ℕ
site n = record { db = []; chain = n }

abbrev start : Run ℕ
start = record {
  site = site 0;
  started = [];
  spent_on_pluck = pos 0;
  renounce = false;
  success = false;
}

-- Registering steps keeps their order; a task of another folder is refused.
registered :
    (deploy_task {W = Site ℕ}
      (λ dir. "full")
      "full:first"
      "a step"
      "/src/tasks/full"
      none
      (step_catalog (Site ℕ))).0
    ≡ ok tt
unfolding deploy_task lookup index_of str_take
registered = refl

misplaced :
    (deploy_task {W = Site ℕ}
      (λ dir. "dev")
      "full:first"
      "a step"
      "/src/tasks/dev"
      none
      (step_catalog (Site ℕ))).0
    ≡ thrown "Invalid location: full, /src/tasks/dev"
unfolding deploy_task index_of str_take
misplaced = refl

listed :
    get_deploy_steps catalog "full" (record { pool = "Augmented"; verify = true }) (site 0)
    ≡ (ok steps, site 0)
unfolding get_deploy_steps lookup number_steps
listed = refl

abbrev after_two : Run ℕ
after_two = record start {
  site = site 2;
  started = task_of (step 1 "full:first") ∷ task_of (step 2 "full:second") ∷ [];
}

ran_two : run_steps dre 0 (take 2 steps) start ≡ (ok tt, after_two)
unfolding run_steps
ran_two = refl

run_steps_resumed_example :
    ((t : Run ℕ) → run_steps dre 2 steps t ≡ run_steps dre 0 (drop 2 steps) t)
    × (run_steps dre 2 steps after_two ≡ run_steps dre 0 steps start)
run_steps_resumed_example =
    run_steps_resumed dre catalog "full" (record { pool = "Augmented"; verify = true }) (site 0)
      (site 0) steps 2 start after_two listed ran_two

abbrev prepared : Run ℕ
prepared = record start {
  site = site 1;
  started = ("set-DRE", record { pool = none; flags = [] }) ∷ [];
}

prepared_run : prepare dre catalog secure_start start ≡ (ok 100, prepared)
unfolding prepare run_task
prepared_run = refl

augmented_mainnet-finalizes_example :
    Ends
      (is_ok (deploy_all dre catalog secure_start prepared).0)
      ((deploy_all dre catalog secure_start prepared).1.started
        ++ ending
            (is_secured dre catalog secure_start)
            (deploy_all dre catalog secure_start prepared).0)
      (augmented_mainnet dre catalog secure_start start).1
augmented_mainnet-finalizes_example =
    augmented_mainnet-finalizes dre catalog secure_start 100 start prepared (site 1) prepared_run
      refl

abbrev decimal : ℕ → String
decimal n = "a number"

run_cycles_ends_example :
    Returns
      (λ left. left ≡ true)
      (start.started ++ map task_of (schedule (length steps + 1) 1 steps))
      (run_cycles dre decimal (length steps + 2) steps 1 false nothing_seen start)
run_cycles_ends_example = run_cycles_ends dre decimal steps start

-- The first step, then two, then all three, and all three once more.
scheduled :
    map (λ (s : DeployStep). s.seq_id) (schedule 4 1 steps) ≡ 1 ∷ 1 ∷ 2 ∷ 1 ∷ 2 ∷ 3 ∷ 1 ∷ 2 ∷ 3 ∷ []
unfolding schedule
scheduled = refl

-- A registry with the ids 2 and 7, whose list also holds an address that is none.
abbrev ids : String → ℕ
ids addr = if addr == "0x1" then 2 else (if addr == "0x2" then 7 else 0)

abbrev registry_market : Market ℕ
registry_market = record {
  set_dre = λ w. (ok tt, w);
  get_market_access_controller = λ w. (ok "0x9", w);
  renounce_temporary_admin = λ provider w. (ok tt, w);
  has_address_provider_registry = true;
  get_addresses_provider_registry = λ w. (ok "0x8", w);
  registry_at = λ addr w. (ok addr, w);
  get_addresses_provider_id_by_address = λ registry addr w. (ok (ids addr), w);
  get_addresses_providers_list = λ registry w. (ok ("0x1" ∷ "" ∷ "0x2" ∷ []), w);
  register_addresses_provider = λ registry provider id w. (ok tt, w + id);
  renounce_one_time_registrar = λ registry w. (ok tt, w);
  report_admins = λ provider w. (ok tt, w);
}

registered_next :
    deploy_finalize registry_market sample_lib true
      (record { provider_registry = none; provider_id = 0 })
      0
    ≡ (ok tt, 8)
unfolding deploy_finalize find_max_provider_id sample_lib falsy_or_zero_address
registered_next = refl

choose_id-IsFresh_example :
    (n : ℕ) × (choose_id registry_market sample_lib "0x8" 0 0 0 ≡ (ok n, 0))
    × (0 < n)
    × All (IsAbove registry_market sample_lib "0x8" ids n) ("0x1" ∷ "" ∷ "0x2" ∷ [])
choose_id-IsFresh_example =
    choose_id-IsFresh registry_market sample_lib "0x8" ids ("0x1" ∷ "" ∷ "0x2" ∷ []) 0
      (λ addr w. refl) refl
