-- ===== src/Migrations/Mainnet/Finalized.antt =====
-- The last step of a deployment is started whatever happened before it.
use augmented_finance_protoc.Prelude.{
  ℕ, String, ◌≡◌, refl, sym, ap, ◌∙◌, Bool, true, false, ◌||◌, List, [], ◌∷◌, ◌++◌, append-nil,
  append_assoc, arith, if◌then◌else◌, Result, ok, thrown, Act, pure, recover, catch, continue-eq_ok,
  ◌>>=◌, continue,
}
use augmented_finance_protoc.Deployment.{Site}
use augmented_finance_protoc.Migrations.Steps.{StepCatalog, TaskArguments, pool_only, no_arguments}
use augmented_finance_protoc.Migrations.Runs.{Hardhat, Run, Started, lift_site, run_task}
use augmented_finance_protoc.Migrations.Mainnet.{
  MainnetOptions, exited, finished, pool_name, finalize_arguments, deploy_all, finalize,
  after_success, end_of, wind_up, prepare, augmented_mainnet,
}
use augmented_finance_protoc.Migrations.Mainnet.Marked.{
  Pending, IsMarked, is_secured, deploy_all-IsMarked,
}

abbrev pub finalized : Bool → List Started
finalized register = ("full:deploy-finalize", finalize_arguments register) ∷ []

-- What is started when the deployment has ended in this way.
abbrev pub ending : Bool → Result (Unit {0}) → List Started
ending secured (ok _) = finalized true
ending secured (thrown _) = if secured then finalized false else []

abbrev pub is_ok : Result (Unit {0}) → Bool
is_ok (ok _) = true
is_ok (thrown _) = false

module _ {W : Type 0} where
  -- Between the parts of the end: the tasks so far, and whether the deployment succeeded.
  abbrev IsAt : Bool → List Started → Run W → Type 0
  IsAt succeeded tasks s = (s.success ≡ succeeded) × (s.started ≡ tasks)

  -- Nothing is started any more, unless the deployment succeeded.
  abbrev pub Ends : Bool → List Started → Run W → Type 0
  Ends succeeded tasks s =
      (rest : List Started) × (s.started ≡ tasks ++ rest) × (succeeded ≡ false → rest ≡ [])

  Ends-here :
      (succeeded : Bool) (tasks : List Started) (s : Run W)
      → IsAt succeeded tasks s
      → Ends succeeded tasks s
  Ends-here succeeded tasks s h = ([], h.1 ∙ sym (append-nil tasks), λ _. refl)

  Ends-cast :
      {k k' : Bool} {tasks tasks' : List Started} (s : Run W)
      → k ≡ k'
      → tasks ≡ tasks'
      → Ends k tasks s
      → Ends k' tasks' s
  Ends-cast s e f (rest, g, h) = (rest, g ∙ ap (λ t. t ++ rest) f, λ bad. h (e ∙ bad))

  Ends-continue :
      {A B : Type 0} (succeeded : Bool) (tasks : List Started) (f : A → Act (Run W) B)
      (r : Result A × Run W)
      → IsAt succeeded tasks r.1
      → ((a : A) (s : Run W) → IsAt succeeded tasks s → Ends succeeded tasks (f a s).1)
      → Ends succeeded tasks (continue f r).1
  Ends-continue succeeded tasks f (ok a, s) h k = k a s h
  Ends-continue succeeded tasks f (thrown e, s) h k = Ends-here succeeded tasks s h

  abbrev Grows : {A : Type 0} → Act (Run W) A → Type 0
  Grows m = (s : Run W) → (rest : List Started) × ((m s).1.started ≡ s.started ++ rest)

  Grows-continue :
      {A B : Type 0} (tasks : List Started) (f : A → Act (Run W) B) (r : Result A × Run W)
      → (rest : List Started) × (r.1.started ≡ tasks ++ rest)
      → ((a : A) → Grows (f a))
      → (rest : List Started) × ((continue f r).1.started ≡ tasks ++ rest)
  Grows-continue tasks f (ok a, s) (l, e) k =
      let (l', e') = k a s in (l ++ l', e' ∙ ap (λ t. t ++ l') e ∙ append_assoc tasks l l')
  Grows-continue tasks f (thrown m, s) h k = h

  Grows-bind :
      {A B : Type 0} (m : Act (Run W) A) (f : A → Act (Run W) B)
      → Grows m
      → ((a : A) → Grows (f a))
      → Grows (m >>= f)
  Grows-bind m f gm gf s = Grows-continue s.started f (m s) (gm s) gf

  Grows-quiet :
      {A : Type 0} (m : Act (Run W) A) → ((s : Run W) → (m s).1.started ≡ s.started) → Grows m
  Grows-quiet m q s = ([], q s ∙ sym (append-nil s.started))

  Grows-if :
      (b : Bool) (m n : Act (Run W) (Unit {0})) → Grows m → Grows n → Grows (if b then m else n)
  Grows-if true m n gm gn = gm
  Grows-if false m n gm gn = gn

module _ {W : Type 0} (dre : Hardhat W) (catalog : StepCatalog (Site W))
    (options : MainnetOptions) where
  Grows-run_task : (name : String) (args : TaskArguments) → Grows (run_task dre name args)
  unfolding run_task
  Grows-run_task name args s = ((name, args) ∷ [], refl)

  after_success-Grows : Grows (after_success dre catalog options)
  unfolding after_success
  after_success-Grows =
      Grows-bind (run_task dre "full:write-ui-config" (pool_only pool_name)) _
        (Grows-run_task "full:write-ui-config" (pool_only pool_name))
        λ _.
          Grows-bind (if dre.using_tenderly then lift_site dre.report_tenderly else pure tt) _
            (Grows-if dre.using_tenderly _ _ (Grows-quiet (lift_site dre.report_tenderly) λ s. refl)
              (Grows-quiet (pure tt) λ s. refl))
            λ _.
              Grows-bind
                (if options.verify
                  then run_task dre "verify:verify-all-contracts" (pool_only pool_name)
                  else pure tt)
                _
                (Grows-if options.verify _ _
                  (Grows-run_task "verify:verify-all-contracts" (pool_only pool_name))
                  (Grows-quiet (pure tt) λ s. refl))
                λ _. Grows-quiet (pure finished) λ s. refl

  Ends-if :
      (b succeeded : Bool) (tasks : List Started) (s : Run W)
      → b ≡ succeeded
      → IsAt succeeded tasks s
      → Ends succeeded tasks ((if b then after_success dre catalog options else pure exited) s).1
  Ends-if true succeeded tasks s same h =
      let (rest, e) = after_success-Grows s in (rest, e ∙ ap (λ t. t ++ rest) h.1, λ bad. cc)
  Ends-if false succeeded tasks s same h = Ends-here succeeded tasks s h

  abbrev final_tasks : Run W → List Started
  final_tasks s = if s.renounce || s.success then finalized s.success else []

  recovered-state : (r : Result (Unit {0}) × Run W) → (recover (λ (_ : String). pure tt) r).1 ≡ r.1
  recovered-state (ok a, s) = refl
  recovered-state (thrown e, s) = refl

  IsAt-if :
      (b register : Bool) (s : Run W)
      → IsAt s.success
          (s.started ++ (if b then finalized register else []))
          ((if b
              then catch
                  (run_task dre "full:deploy-finalize" (finalize_arguments register))
                  (λ _. pure tt)
              else pure tt)
            s).1
  unfolding run_task
  IsAt-if true register s = rw recovered-state (refl, refl)
  IsAt-if false register s = (refl, sym (append-nil s.started))

  IsAt-finalize :
      (s : Run W) → IsAt s.success (s.started ++ final_tasks s) (finalize dre catalog options s).1
  unfolding finalize
  IsAt-finalize s = IsAt-if (s.renounce || s.success) s.success s

  Ends-wind_up :
      (balance : ℕ) (s : Run W)
      → Ends s.success (s.started ++ final_tasks s) (wind_up dre catalog options balance s).1
  unfolding wind_up end_of
  Ends-wind_up balance s =
      let tasks = s.started ++ final_tasks s in
      Ends-continue s.success tasks _ (finalize dre catalog options s) (IsAt-finalize s) λ _ s1 h1.
        Ends-continue s.success tasks _ (lift_site dre.get_balance s1) h1 λ now s2 h2.
          Ends-continue s.success tasks _
            (lift_site (dre.report_costs balance now s2.spent_on_pluck) s2) h2
            λ _ s3 h3. Ends-if s3.success s.success tasks s3 h3.0 h3

  prepare-Pending :
      (balance : ℕ) (s s1 : Run W)
      → prepare dre catalog options s ≡ (ok balance, s1)
      → Pending false s1
  unfolding prepare
  prepare-Pending balance s s1 e =
      let (a, _, e1) = continue-eq_ok _ (run_task dre "set-DRE" no_arguments s) e in
      let (b, _, e2) = continue-eq_ok _ (lift_site dre.get_first_signer a.1) e1 in
      let (c, _, e3) = continue-eq_ok _ (lift_site dre.get_balance b.1) e2 in
      (sym (ap (λ p. p.1.renounce) e3), sym (ap (λ p. p.1.success) e3))

  final_tasks-ending :
      (secured : Bool) (r : Result (Unit {0})) (b : Run W)
      → IsMarked secured (r, b)
      → (final_tasks b ≡ ending secured r) × (b.success ≡ is_ok r)
  final_tasks-ending secured (ok _) b h = (ground arith, h.1)
  final_tasks-ending secured (thrown e) b h = (ground arith, h.1)

  Ends-continue-recover :
      (balance : ℕ) (secured : Bool) (r : Result (Unit {0}) × Run W)
      → IsMarked secured r
      → Ends
          (is_ok r.0)
          (r.1.started ++ ending secured r.0)
          (continue
            (λ _. wind_up dre catalog options balance)
            (recover (λ (_ : String). pure tt) r)).1
  Ends-continue-recover balance secured (ok a, b) h =
      let (tasks, success) = final_tasks-ending secured (ok a) b h in
      Ends-cast (wind_up dre catalog options balance b).1 success (ap (λ t. b.started ++ t) tasks)
        (Ends-wind_up balance b)
  Ends-continue-recover balance secured (thrown e, b) h =
      let (tasks, success) = final_tasks-ending secured (thrown e) b h in
      Ends-cast (wind_up dre catalog options balance b).1 success (ap (λ t. b.started ++ t) tasks)
        (Ends-wind_up balance b)

  -- However a deployment ends, once its preparations are done and the files of the UI are cleaned:
  -- `full:deploy-finalize` is started right after it, with `register` on if it succeeded, and with
  -- `register` off if it failed but started anew with the flag `secure`. If it failed without these,
  -- the step is left out; and a failed deployment starts nothing after this.
  pub augmented_mainnet-finalizes :
      (balance : ℕ) (s s1 : Run W) (site : Site W)
      → prepare dre catalog options s ≡ (ok balance, s1)
      → dre.cleanup_ui_config s1.site ≡ (ok tt, site)
      → let (r, b) = deploy_all dre catalog options s1 in
        Ends
          (is_ok r)
          (b.started ++ ending (is_secured dre catalog options) r)
          (augmented_mainnet dre catalog options s).1
  unfolding augmented_mainnet
  augmented_mainnet-finalizes balance s s1 site prepared cleaned =
      let marked : IsMarked (is_secured dre catalog options) (deploy_all dre catalog options s1) =
        deploy_all-IsMarked dre catalog options s1 site cleaned
          (prepare-Pending balance s s1 prepared) in
      rw prepared (
        Ends-continue-recover balance (is_secured dre catalog options)
          (deploy_all dre catalog options s1) marked)
