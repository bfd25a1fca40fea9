-- ===== src/Migrations/Steps.antt =====
-- The catalog of deployment steps: tasks/helpers/deploy-steps.ts. A step of `W` computes the
-- arguments of its task by an action on `W`. `path.basename` of node is the argument `basename`.
use augmented_finance_protoc.Prelude.{
  ℕ, ◌+◌, String, ◌<>◌, Bool, List, [], ◌∷◌, ◌++◌, Option, none, some, ◌==◌, if◌then◌else◌, Dict,
  lookup, insert, Act, pure, throw, ◌>>=◌, ok, index_of, str_take,
}

pub record DeployStepParams : Type 0 where
  pub pool : String
  pub verify : Bool

-- `TaskArguments`: the pool, where it is given, and the flags by their names.
pub record TaskArguments : Type 0 where
  pub pool : Option String
  pub flags : Dict Bool

abbrev pub no_arguments : TaskArguments
no_arguments = record { pool = none; flags = [] }

abbrev pub pool_only : String → TaskArguments
pool_only pool = record { pool = some pool; flags = [] }

pub record DeployStep : Type 0 where
  pub seq_id : ℕ
  pub step_name : String
  pub task_name : String
  pub args : TaskArguments

module _ (W : Type 0) where
  pub record CatalogEntry : Type 0 where
    pub step_name : String
    pub task_name : String
    pub params_fn : DeployStepParams → Act W TaskArguments

  abbrev pub StepCatalog : Type 0
  StepCatalog = Dict (List CatalogEntry)

  abbrev pub step_catalog : StepCatalog
  step_catalog = ("full", []) ∷ []

-- `name.substring(0, name.indexOf(':'))`, which is empty when there is no colon.
abbrev before_colon : String → Option ℕ → String
before_colon name none = ""
before_colon name (some i) = str_take i name

module _ {W : Type 0} where
  unfoldable pub default_params : DeployStepParams → Act W TaskArguments
  default_params params =
      pure (record { pool = some params.pool; flags = ("verify", params.verify) ∷ [] })

  abbrev or_default :
      Option (DeployStepParams → Act W TaskArguments) → DeployStepParams → Act W TaskArguments
  or_default none = default_params
  or_default (some params_fn) = params_fn

  -- `steps.push(...)`: the array in the catalog is changed.
  push_step :
      String → CatalogEntry W → Option (List (CatalogEntry W)) → Act (StepCatalog W) (Unit {0})
  push_step deploy_type entry none catalog = throw ("Unknown deploy type: " <> deploy_type) catalog
  push_step deploy_type entry (some steps) catalog =
      (ok tt, insert deploy_type (steps ++ entry ∷ []) catalog)

  unfoldable pub add_step :
      String
      → String
      → String
      → Option (DeployStepParams → Act W TaskArguments)
      → Act (StepCatalog W) (Unit {0})
  unfolding push_step
  add_step deploy_type step_name task_name params_fn catalog =
      push_step deploy_type
        (record { step_name = step_name; task_name = task_name; params_fn = or_default params_fn })
        (lookup deploy_type catalog) catalog

  unfoldable pub deploy_task :
      (basename : String → String)
      → String
      → String
      → String
      → Option (DeployStepParams → Act W TaskArguments)
      → Act (StepCatalog W) (Unit {0})
  unfolding add_step str_take index_of
  deploy_task basename name description module_dir params_fn =
      let deploy_type = before_colon name (index_of b':' name) in
      if basename module_dir == deploy_type
      then add_step deploy_type description name params_fn
      else throw ("Invalid location: " <> (deploy_type <> (", " <> module_dir)))

  -- The loop over the entries, with `i` the index of the first.
  unfoldable pub number_steps :
      DeployStepParams → ℕ → List (CatalogEntry W) → Act W (List DeployStep)
  number_steps params i [] = pure []
  number_steps params i (entry ∷ entries) = do
    args ← entry.params_fn params
    steps ← number_steps params (i + 1) entries
    pure (
        (record {
          seq_id = i + 1;
          step_name = entry.step_name;
          task_name = entry.task_name;
          args = args;
        })
        ∷ steps)

  unfoldable pub steps_of :
      String → DeployStepParams → Option (List (CatalogEntry W)) → Act W (List DeployStep)
  steps_of deploy_type params none = throw ("Unknown deploy type: " <> deploy_type)
  steps_of deploy_type params (some entries) = number_steps params 0 entries

  unfoldable pub get_deploy_steps :
      StepCatalog W → String → DeployStepParams → Act W (List DeployStep)
  unfolding steps_of
  get_deploy_steps catalog deploy_type params =
      steps_of deploy_type params (lookup deploy_type catalog)
