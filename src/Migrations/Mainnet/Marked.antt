-- ===== src/Migrations/Mainnet/Marked.antt =====
-- The variables `renounce` and `success` of the deployment, when its `try` is left.
use augmented_finance_protoc.Prelude.{
  ℕ, leb, String, ◌≡◌, refl, Bool, true, false, not, ◌&&◌, List, [], ◌∷◌, arith, if◌then◌else◌,
  Result, ok, thrown, Act, pure, ◌>>=◌, continue, for_each,
}
use augmented_finance_protoc.Deployment.{Site}
use augmented_finance_protoc.Migrations.Steps.{
  StepCatalog, TaskArguments, DeployStep, pool_only, get_deploy_steps,
}
use augmented_finance_protoc.Migrations.Runs.{
  Hardhat, Run, lift_site, run_task, run_step, run_steps,
}
use augmented_finance_protoc.Migrations.Mainnet.{
  MainnetOptions, pool_name, smoke_arguments, mark_success, note_spent, start_mode, pluck,
  check_warnings, deploy_steps, deploy_all,
}

module _ {W : Type 0} where
  -- The variables before the deployment has succeeded.
  abbrev pub Pending : Bool → Run W → Type 0
  Pending secured s = (s.renounce ≡ secured) × (s.success ≡ false)

  record Keeps {A : Type 0} (m : Act (Run W) A) : Type 0 where
    at : (secured : Bool) (s : Run W) → Pending secured s → Pending secured (m s).1

  -- A body that returned has set both variables, one that threw has left them.
  abbrev pub IsMarked : Bool → Result (Unit {0}) × Run W → Type 0
  IsMarked secured (ok _, b) = (b.renounce ≡ true) × (b.success ≡ true)
  IsMarked secured (thrown _, b) = Pending secured b

  record Marks (m : Act (Run W) (Unit {0})) : Type 0 where
    at : (secured : Bool) (s : Run W) → Pending secured s → IsMarked secured (m s)

  Keeps-lift_site : {A : Type 0} (m : Act (Site W) A) → Keeps (lift_site m)
  Keeps-lift_site m = record { at = λ secured s h. h }

  Keeps-if :
      (b : Bool) {m n : Act (Run W) (Unit {0})} → Keeps m → Keeps n → Keeps (if b then m else n)
  Keeps-if true km kn = km
  Keeps-if false km kn = kn

  Keeps-pure : Keeps (pure {S = Run W} tt)
  Keeps-pure = record { at = λ secured s h. h }

  Pending-continue :
      {A B : Type 0} (secured : Bool) (f : A → Act (Run W) B) (r : Result A × Run W)
      → ((a : A) → Keeps (f a))
      → Pending secured r.1
      → Pending secured (continue f r).1
  Pending-continue secured f (ok a, s) k h = (k a).at secured s h
  Pending-continue secured f (thrown e, s) k h = h

  Keeps-for_each :
      {A : Type 0} (f : A → Act (Run W) (Unit {0})) (xs : List A)
      → ((a : A) → Keeps (f a))
      → Keeps (for_each f xs)
  unfolding for_each
  Keeps-for_each f [] k = record { at = λ secured s h. h }
  Keeps-for_each f (x ∷ xs) k = record {
    at = λ secured s h.
        Pending-continue secured (λ _. for_each f xs) (f x s) (λ _. Keeps-for_each f xs k)
          ((k x).at secured s h);
  }

  IsMarked-continue :
      {A : Type 0} (secured : Bool) (f : A → Act (Run W) (Unit {0})) (r : Result A × Run W)
      → ((a : A) → Marks (f a))
      → Pending secured r.1
      → IsMarked secured (continue f r)
  IsMarked-continue secured f (ok a, s) k h = (k a).at secured s h
  IsMarked-continue secured f (thrown e, s) k h = h

  Marks-bind :
      {A : Type 0} {m : Act (Run W) A} {f : A → Act (Run W) (Unit {0})}
      → Keeps m
      → ((a : A) → Marks (f a))
      → Marks (m >>= f)
  Marks-bind {m = m} {f = f} km kf = record {
    at = λ secured s h. IsMarked-continue secured f (m s) kf (km.at secured s h);
  }

module _ {W : Type 0} (dre : Hardhat W) where
  Keeps-run_task : (name : String) (args : TaskArguments) → Keeps (run_task dre name args)
  unfolding run_task
  Keeps-run_task name args = record { at = λ secured s h. h }

  Keeps-run_steps : (skip : ℕ) (steps : List DeployStep) → Keeps (run_steps dre skip steps)
  unfolding run_steps run_step
  Keeps-run_steps skip steps =
      Keeps-for_each (run_step dre skip) steps
        λ step. Keeps-if (leb step.seq_id skip) Keeps-pure (Keeps-run_task step.task_name step.args)

module _ {W : Type 0} (dre : Hardhat W) (catalog : StepCatalog (Site W))
    (options : MainnetOptions) where
  Keeps-pluck : Keeps (pluck dre catalog options)
  unfolding pluck
  Keeps-pluck =
      Keeps-if dre.is_fork_network (Keeps-run_task dre "dev:pluck-tokens" (pool_only pool_name))
        Keeps-pure

  Keeps-check_warnings : Keeps (check_warnings dre catalog options)
  unfolding check_warnings
  Keeps-check_warnings = record { at = λ secured s h. ground arith }

  Keeps-note_spent : (before after : ℕ) → Keeps (note_spent dre catalog options before after)
  Keeps-note_spent before after = record { at = λ secured s h. h }

  Marks-mark_success : Marks (mark_success dre catalog options)
  Marks-mark_success = record { at = λ secured s h. (refl, refl) }

  deploy_steps-Marks : Marks (deploy_steps dre catalog options)
  unfolding deploy_steps
  deploy_steps-Marks =
      Marks-bind
        (Keeps-lift_site
          (get_deploy_steps catalog "full" (record { pool = pool_name; verify = true })))
        λ steps. Marks-bind (Keeps-run_steps dre options.skip steps) λ _.
          Marks-bind (Keeps-run_task dre "full:access-test" (pool_only pool_name)) λ _.
            Marks-bind (Keeps-lift_site dre.get_balance) λ before. Marks-bind Keeps-pluck λ _.
              Marks-bind (Keeps-lift_site dre.get_balance) λ after.
                Marks-bind (Keeps-note_spent before after) λ _.
                  Marks-bind
                    (Keeps-run_task dre "full:smoke-test" (smoke_arguments options.ignore_calc))
                    λ _.
                      Marks-bind (Keeps-lift_site dre.get_first_signer)
                        λ _. Marks-bind Keeps-check_warnings λ _. Marks-mark_success

  -- The deployment is secured if it starts anew and is asked to be secure.
  abbrev pub is_secured : Bool
  is_secured = not options.incremental && options.secure

  Pending-start_mode :
      (s : Run W) → Pending false s → Pending is_secured (start_mode dre catalog options s).1
  unfolding start_mode
  Pending-start_mode s h = ground arith

  pub deploy_all-IsMarked :
      (s : Run W) (site : Site W)
      → dre.cleanup_ui_config s.site ≡ (ok tt, site)
      → Pending false s
      → IsMarked is_secured (deploy_all dre catalog options s)
  unfolding deploy_all
  deploy_all-IsMarked s site cleaned h =
      let s' : Run W = record s { site = site } in
      rw (cleaned, deploy_all)
        (IsMarked-continue is_secured (λ _. deploy_steps dre catalog options)
          (start_mode dre catalog options s') (λ _. deploy_steps-Marks) (Pending-start_mode s' h))
