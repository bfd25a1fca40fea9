-- ===== src/Migrations/Runs.antt =====
-- What a migration does with hardhat: the tasks that it runs, in the order in which it starts them,
-- beside the site that they work on. Used by tasks/migrations.
pub mod Resumed
use augmented_finance_protoc.Prelude.{
  ℕ, leb, ℤ, String, Bool, List, [], ◌∷◌, ◌++◌, Result, Act, pure, ◌>>=◌, ◌>>◌, if◌then◌else◌,
  for_each,
}
use augmented_finance_protoc.Deployment.{Site}
use augmented_finance_protoc.Migrations.Steps.{TaskArguments, DeployStep}

-- What a migration calls on hardhat, on the deployer's account and on the files of the UI.
pub record Hardhat (W : Type 0) : Type 0 where
  pub run : String → TaskArguments → Act (Site W) (Unit {0})
  pub get_first_signer : Act (Site W) (Unit {0})
  pub get_balance : Act (Site W) ℕ
  pub cleanup_ui_config : Act (Site W) (Unit {0})
  -- The balances at the start and at the end, and what `dev:pluck-tokens` spent.
  pub report_costs : ℕ → ℕ → ℤ → Act (Site W) (Unit {0})
  pub report_tenderly : Act (Site W) (Unit {0})
  pub network : String
  pub is_fork_network : Bool
  pub using_tenderly : Bool

abbrev pub Started : Type 0
Started = String × TaskArguments

-- The variables of a migration, and in `started` the history of the tasks that it has started.
pub record Run (W : Type 0) : Type 0 where
  pub site : Site W
  pub started : List Started
  pub spent_on_pluck : ℤ
  pub renounce : Bool
  pub success : Bool

module _ {W : Type 0} where
  abbrev pub on_site : {A : Type 0} → Run W → Result A × Site W → Result A × Run W
  on_site s (r, site) = (r, record s { site = site })

  abbrev pub lift_site : {A : Type 0} → Act (Site W) A → Act (Run W) A
  lift_site m s = on_site s (m s.site)

module _ {W : Type 0} (dre : Hardhat W) where
  -- `await DRE.run(name, args)`
  unfoldable pub run_task : String → TaskArguments → Act (Run W) (Unit {0})
  run_task name args s =
      on_site (record s { started = s.started ++ (name, args) ∷ [] }) (dre.run name args s.site)

  -- A step is passed over if its number is at most `skip`.
  unfoldable pub run_step : ℕ → DeployStep → Act (Run W) (Unit {0})
  unfolding run_task
  run_step skip step = if leb step.seq_id skip then pure tt else run_task step.task_name step.args

  unfoldable pub run_steps : ℕ → List DeployStep → Act (Run W) (Unit {0})
  unfolding run_step for_each
  run_steps skip steps = for_each (run_step skip) steps
