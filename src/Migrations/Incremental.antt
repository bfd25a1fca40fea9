-- ===== src/Migrations/Incremental.antt =====
-- The task augmented:test-incremental, tasks/migrations/augmented-test-incremental.ts: the steps of a
-- deployment are run in longer and longer cycles, which must not deploy anything twice. `decimal`
-- writes a number in a message.
pub mod Cycles
use augmented_finance_protoc.Prelude.{
  ℕ, zero, suc, ◌+◌, ◌-◌, eqb, ltb, String, ◌<>◌, Bool, true, false, not, ◌&&◌, ◌||◌, List, [], ◌∷◌,
  Option, none, some, ◌==◌, if◌then◌else◌, Dict, length, lookup, Act, pure, throw, ◌>>=◌, ◌>>◌,
  catch,
}
use augmented_finance_protoc.Deployment.{Site, modify_db}
use augmented_finance_protoc.JsonDb.{cleanup_json_db, print_contracts, get_instances_from_json_db}
use augmented_finance_protoc.Migrations.Steps.{
  StepCatalog, DeployStep, TaskArguments, get_deploy_steps, no_arguments, pool_only,
}
use augmented_finance_protoc.Migrations.Runs.{Hardhat, Run, lift_site, run_task}
use augmented_finance_protoc.Migrations.Mainnet.{Outcome, exited, finished, pool_name, has_mock}

abbrev same_value : String → Option String → Bool
same_value value none = false
same_value value (some next) = next == value

-- `checkUnchanged`: whatever stood in the map before has the same value in the next one.
unfoldable pub check_unchanged : Dict String → Dict String → Bool
unfolding lookup
check_unchanged [] next = true
check_unchanged ((key, value) ∷ prev) next =
    same_value value (lookup key next) && check_unchanged prev next

-- `lastEntryMap` and `lastInstanceCount`.
pub record Seen : Type 0 where
  pub entry_map : Dict String
  pub instance_count : ℕ

abbrev pub nothing_seen : Seen
nothing_seen = record { entry_map = []; instance_count = 0 }

module _ {W : Type 0} (dre : Hardhat W) (decimal : ℕ → String) where
  -- The checks before a cycle, on the contracts that `printContracts` reports.
  check_contracts : ℕ → Seen → Dict String × ℕ × ℕ → Act (Run W) Seen
  check_contracts max_step last (entry_map, instance_count, multi_count) =
      if ltb 0 multi_count
      then throw ("illegal multi-deployment detected after step " <> decimal max_step)
      else (if ltb instance_count last.instance_count
            || ltb (length entry_map) (length last.entry_map)
          then throw ("impossible / jsonDb is broken after step " <> decimal max_step)
          else (if not (check_unchanged last.entry_map entry_map)
              then throw ("some contracts were redeployed after step " <> decimal max_step)
              else (if has_mock entry_map
                  then throw "mock contract(s) detected"
                  else pure (record { entry_map = entry_map; instance_count = instance_count }))))

  abbrev read_contracts : ℕ → Seen → Act (Run W) Seen
  read_contracts max_step last s =
      check_contracts max_step last (print_contracts dre.network s.site.db) s

  unfoldable pub check_cycle : ℕ → Seen → Act (Run W) Seen
  unfolding check_contracts
  check_cycle max_step last =
      if ltb 1 max_step
      then (do lift_site dre.get_first_signer; read_contracts max_step last)
      else pure last

  -- The check of `isLastStep`: the last step but one of a cycle must have deployed nothing new.
  unfoldable pub check_instances : ℕ → ℕ → ℕ → Act (Run W) (Unit {0})
  check_instances max_step last_count step s =
      (if eqb step 2
            && not (eqb last_count (length (get_instances_from_json_db dre.network s.site.db)))
          then throw
              ("unexpected contracts were deployed at step #" <> decimal (1 + max_step - step))
          else pure tt)
        s

  -- The steps of a cycle, with `step` of them to go; the result is the variable `stop`.
  unfoldable pub run_cycle : ℕ → ℕ → ℕ → List DeployStep → Act (Run W) Bool
  unfolding check_instances
  run_cycle max_step last_count step [] = pure true
  run_cycle max_step last_count step (s ∷ steps) = do
    run_task dre s.task_name s.args
    check_instances max_step last_count step
    if eqb step 1 then pure false else run_cycle max_step last_count (step - 1) steps

  -- The loop over the cycles; `false` is returned when the fuel has run out.
  unfoldable pub run_cycles : ℕ → List DeployStep → ℕ → Bool → Seen → Act (Run W) Bool
  unfolding check_cycle run_cycle
  run_cycles zero steps max_step stop last = pure false
  run_cycles (suc fuel) steps max_step stop last = do
    seen ← check_cycle max_step last
    if stop then pure true else (do
      stop' ← run_cycle max_step seen.instance_count max_step steps
      run_cycles fuel steps (max_step + 1) stop' seen)

  unfoldable pub test_cycles : StepCatalog (Site W) → Act (Run W) (Unit {0})
  unfolding run_cycles
  test_cycles catalog = do
    steps ←
        lift_site (get_deploy_steps catalog "full" (record { pool = pool_name; verify = false }))
    _ ← run_cycles (length steps + 2) steps 1 false nothing_seen
    run_task dre "full:smoke-test" (pool_only pool_name)
    run_task dre "dev:pluck-tokens"
        (record { pool = some pool_name; flags = ("mustDeposit", true) ∷ [] })

  clean_up : Outcome → Act (Run W) Outcome
  clean_up exited = pure exited
  clean_up finished = do lift_site (modify_db (cleanup_json_db dre.network)); pure finished

  -- On a chain that is no fork, and on an error, the process exits with the database as it is.
  unfoldable pub augmented_test_incremental : StepCatalog (Site W) → Act (Run W) Outcome
  unfolding test_cycles clean_up
  augmented_test_incremental catalog = do
    run_task dre "set-DRE" no_arguments
    lift_site (modify_db (cleanup_json_db dre.network))
    lift_site dre.cleanup_ui_config
    if not dre.is_fork_network then pure exited else (do
      outcome ← catch (test_cycles catalog >> pure finished) (λ _. pure exited)
      clean_up outcome)
