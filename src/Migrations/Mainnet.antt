-- ===== src/Migrations/Mainnet.antt =====
-- The task augmented:mainnet, tasks/migrations/augmented-mainnet.ts: a whole deployment, which ends by
-- giving up the temporary rights of the deployer.
pub mod Marked
pub mod Finalized
use augmented_finance_protoc.Prelude.{
  ℕ, eqb, ltb, ℤ, pos, sub_ℕ, String, Bool, true, false, not, ◌&&◌, ◌||◌, List, [], ◌∷◌, Option,
  none, some, if◌then◌else◌, Dict, length, Act, ok, thrown, pure, throw, ◌>>=◌, ◌>>◌, catch,
  starts_with,
}
use augmented_finance_protoc.Deployment.{Site, modify_db}
use augmented_finance_protoc.JsonDb.{cleanup_json_db, print_contracts}
use augmented_finance_protoc.Migrations.Steps.{
  StepCatalog, TaskArguments, get_deploy_steps, no_arguments, pool_only,
}
use augmented_finance_protoc.Migrations.Runs.{Hardhat, Run, lift_site, run_task, run_steps}

-- The parameters of the task.
pub record MainnetOptions : Type 0 where
  pub incremental : Bool
  pub secure : Bool
  pub strict : Bool
  pub ignore_calc : Bool
  pub verify : Bool
  pub skip : ℕ

-- How the process ends: `exit(1)`, or the end of the task.
pub data Outcome : Type 0 where
  exited : Outcome
  finished : Outcome

abbrev pub pool_name : String
pool_name = "Augmented"

unfoldable pub has_mock : Dict String → Bool
has_mock [] = false
has_mock ((key, _) ∷ entries) = starts_with key "Mock" || has_mock entries

-- Several contracts under one id, contracts without an id, or a mock.
unfoldable pub has_warnings : Dict String × ℕ × ℕ → Bool
unfolding has_mock
has_warnings (entry_map, instance_count, multi_count) =
    (ltb 0 multi_count || not (eqb (length entry_map) instance_count)) || has_mock entry_map

abbrev pub finalize_arguments : Bool → TaskArguments
finalize_arguments register = record { pool = some pool_name; flags = ("register", register) ∷ [] }

abbrev pub smoke_arguments : Bool → TaskArguments
smoke_arguments ignore_calc = record {
  pool = some pool_name;
  flags = ("ignoreCalc", ignore_calc) ∷ [];
}

module _ {W : Type 0} (dre : Hardhat W) (catalog : StepCatalog (Site W))
    (options : MainnetOptions) where
  -- A deployment that starts anew forgets the database, and is `secure` if it is asked to be.
  unfoldable pub start_mode : Act (Run W) (Unit {0})
  start_mode = if options.incremental then pure tt else (do
    lift_site (modify_db (cleanup_json_db dre.network))
    (λ s. (ok tt, record s { renounce = options.secure })))

  unfoldable pub pluck : Act (Run W) (Unit {0})
  pluck =
      if dre.is_fork_network then run_task dre "dev:pluck-tokens" (pool_only pool_name) else pure tt

  unfoldable pub check_warnings : Act (Run W) (Unit {0})
  check_warnings s =
      (if has_warnings (print_contracts dre.network s.site.db) && options.strict
          then throw "warnings are present"
          else pure tt)
        s

  abbrev note_spent : ℕ → ℕ → Act (Run W) (Unit {0})
  note_spent before after s = (ok tt, record s { spent_on_pluck = sub_ℕ before after })

  abbrev mark_success : Act (Run W) (Unit {0})
  mark_success s = (ok tt, record s { renounce = true; success = true })

  -- The body of the `try` after its mode is set.
  unfoldable pub deploy_steps : Act (Run W) (Unit {0})
  unfolding pluck check_warnings
  deploy_steps = do
    steps ← lift_site (get_deploy_steps catalog "full" (record { pool = pool_name; verify = true }))
    run_steps dre options.skip steps
    run_task dre "full:access-test" (pool_only pool_name)
    before ← lift_site dre.get_balance
    pluck
    after ← lift_site dre.get_balance
    note_spent before after
    run_task dre "full:smoke-test" (smoke_arguments options.ignore_calc)
    lift_site dre.get_first_signer
    check_warnings
    mark_success

  unfoldable pub deploy_all : Act (Run W) (Unit {0})
  unfolding start_mode deploy_steps
  deploy_all = do lift_site dre.cleanup_ui_config; start_mode; deploy_steps

  -- The last step, whose failure is only reported.
  unfoldable pub finalize : Act (Run W) (Unit {0})
  finalize s =
      (if s.renounce || s.success
          then catch (run_task dre "full:deploy-finalize" (finalize_arguments s.success))
              (λ _. pure tt)
          else pure tt)
        s

  unfoldable pub after_success : Act (Run W) Outcome
  after_success = do
    run_task dre "full:write-ui-config" (pool_only pool_name)
    (if dre.using_tenderly then lift_site dre.report_tenderly else pure tt)
    (if options.verify
        then run_task dre "verify:verify-all-contracts" (pool_only pool_name)
        else pure tt)
    pure finished

  unfoldable pub end_of : Act (Run W) Outcome
  unfolding after_success
  end_of s = (if s.success then after_success else pure exited) s

  -- What follows the `try`.
  unfoldable pub wind_up : ℕ → Act (Run W) Outcome
  unfolding finalize end_of
  wind_up start_balance = do
    finalize
    end_balance ← lift_site dre.get_balance
    (λ s. lift_site (dre.report_costs start_balance end_balance s.spent_on_pluck) s)
    end_of

  abbrev clear_variables : Act (Run W) (Unit {0})
  clear_variables s =
      (ok tt, record s { spent_on_pluck = pos 0; renounce = false; success = false })

  -- What precedes the `try`; the balance is returned.
  unfoldable pub prepare : Act (Run W) ℕ
  prepare = do
    run_task dre "set-DRE" no_arguments
    lift_site dre.get_first_signer
    start_balance ← lift_site dre.get_balance
    clear_variables
    pure start_balance

  unfoldable pub augmented_mainnet : Act (Run W) Outcome
  augmented_mainnet = do
    start_balance ← prepare
    catch deploy_all (λ _. pure tt)
    wind_up start_balance
