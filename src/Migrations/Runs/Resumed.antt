-- ===== src/Migrations/Runs/Resumed.antt =====
-- A deployment that was interrupted between two steps is taken up with `--skip`.
use augmented_finance_protoc.Prelude.{
  ℕ, zero, suc, ◌+◌, ◌≤◌, ◌<◌, ◌≡◌, refl, sym, ap, ◌∙◌, List, [], ◌∷◌, take, drop, String, lookup,
  Option-cases, inl, inr, arith, Result, ok, thrown, Act, continue, continue-eq_ok, for_each,
}
use augmented_finance_protoc.Deployment.{Site}
use augmented_finance_protoc.Migrations.Steps.{
  CatalogEntry, StepCatalog, DeployStep, DeployStepParams, number_steps, steps_of, get_deploy_steps,
}
use augmented_finance_protoc.Migrations.Runs.{Hardhat, Run, run_task, run_step, run_steps}

-- The steps are numbered from `i + 1` on.
abbrev pub AreNumbered : ℕ → List DeployStep → Type 0
AreNumbered i [] = Unit
AreNumbered i (step ∷ steps) = (step.seq_id ≡ i + 1) × AreNumbered (i + 1) steps

AreNumbered-of-eq :
    (i : ℕ) (xs : List DeployStep) {ys : List DeployStep}
    → xs ≡ ys
    → AreNumbered i xs
    → AreNumbered i ys
AreNumbered-of-eq i xs e h = rw (← e) h

ok-injective :
    {A S : Type 0} {a b : A} {s s' : S} → ◌≡◌ {A = Result A × S} (ok a, s) (ok b, s') → a ≡ b
ok-injective e = cc (ap (λ p. p.0) e)

module _ {W : Type 0} where
  number_steps-AreNumbered :
      (params : DeployStepParams) (i : ℕ) (entries : List (CatalogEntry W)) (w w' : W)
      (steps : List DeployStep)
      → number_steps params i entries w ≡ (ok steps, w')
      → AreNumbered i steps
  unfolding number_steps
  number_steps-AreNumbered params i [] w w' steps e =
      let same : ◌≡◌ {A = List DeployStep} [] steps = ground arith in rw (← same) tt
  number_steps-AreNumbered params i (entry ∷ entries) w w' steps e =
      let (a, _, e1) = continue-eq_ok _ (entry.params_fn params w) e in
      let (b, ran, e2) = continue-eq_ok _ (number_steps params (i + 1) entries a.1) e1 in
      let rest = number_steps-AreNumbered params (i + 1) entries a.1 b.1 b.0 ran in
      AreNumbered-of-eq i _ (ok-injective e2) (refl, rest)

  get_deploy_steps-AreNumbered :
      (catalog : StepCatalog W) (deploy_type : String) (params : DeployStepParams) (w w' : W)
      (steps : List DeployStep)
      → get_deploy_steps catalog deploy_type params w ≡ (ok steps, w')
      → AreNumbered 0 steps
  unfolding get_deploy_steps
  get_deploy_steps-AreNumbered catalog deploy_type params w w' steps e =
      elim (Option-cases (lookup deploy_type catalog)) [
        | inl missing ↦ cc (ap (λ p. p.0) (rw (missing, steps_of) at e))
        | inr (entries, found) ↦
            number_steps-AreNumbered params 0 entries w w' steps (rw (found, steps_of) at e)
      ]

module _ {S : Type 0} where
  continue-eq :
      {A B : Type 0} (f g : A → Act S B) (r : Result A × S)
      → ((a : A) (s : S) → f a s ≡ g a s)
      → continue f r ≡ continue g r
  continue-eq f g (ok a, s) h = h a s
  continue-eq f g (thrown e, s) h = refl

module _ {W : Type 0} (dre : Hardhat W) where
  run_step-skipped :
      (skip : ℕ) (step : DeployStep) (s : Run W)
      → step.seq_id ≤ skip
      → run_step dre skip step s ≡ (ok tt, s)
  unfolding run_step
  run_step-skipped skip step s h = ground arith

  run_step-run :
      (skip : ℕ) (step : DeployStep)
      → skip < step.seq_id
      → run_step dre skip step ≡ run_task dre step.task_name step.args
  unfolding run_step
  run_step-run skip step h = ground arith

  run_steps-after :
      (skip i : ℕ) (steps : List DeployStep) (s : Run W)
      → AreNumbered i steps
      → skip ≤ i
      → run_steps dre skip steps s ≡ run_steps dre 0 steps s
  unfolding run_steps for_each
  run_steps-after skip i [] s h le = refl
  run_steps-after skip i (step ∷ steps) s (n, h) le =
      rw (run_step-run skip step (omega arith), run_step-run 0 step (omega arith))
        (continue-eq (λ _. run_steps dre skip steps) (λ _. run_steps dre 0 steps)
          (run_task dre step.task_name step.args s)
          λ _ s1. run_steps-after skip (i + 1) steps s1 h (omega arith))

  run_steps-drop :
      (n i skip : ℕ) (steps : List DeployStep) (s : Run W)
      → AreNumbered i steps
      → skip ≡ i + n
      → run_steps dre skip steps s ≡ run_steps dre 0 (drop n steps) s
  unfolding run_steps for_each
  run_steps-drop zero i skip steps s h e = run_steps-after skip i steps s h (omega arith)
  run_steps-drop (suc n) i skip [] s h e = refl
  run_steps-drop (suc n) i skip (step ∷ steps) s (m, h) e =
      rw (run_step-skipped skip step s (omega arith))
        (run_steps-drop n (i + 1) skip steps s h (omega arith))

  run_steps-take :
      (n : ℕ) (steps : List DeployStep) (s s1 : Run W)
      → run_steps dre 0 (take n steps) s ≡ (ok tt, s1)
      → run_steps dre 0 steps s ≡ run_steps dre 0 (drop n steps) s1
  unfolding run_steps for_each
  run_steps-take zero steps s s1 e = let same : s ≡ s1 = ap (λ p. p.1) e in rw same refl
  run_steps-take (suc n) [] s s1 e = let same : s ≡ s1 = ap (λ p. p.1) e in rw same refl
  run_steps-take (suc n) (step ∷ steps) s s1 e =
      let (a, ran, rest) =
        continue-eq_ok (λ (_ : Unit {0}). run_steps dre 0 (take n steps)) (run_step dre 0 step s)
          e in
      rw ran (run_steps-take n steps a.1 s1 rest)

  -- The steps of the catalog are run with `--skip n` exactly as the steps behind the first `n`; and
  -- if the first `n` have returned, then going on with `--skip n` from the state that they left is a
  -- run of all the steps.
  pub run_steps_resumed :
      (catalog : StepCatalog (Site W)) (deploy_type : String) (params : DeployStepParams)
      (w w' : Site W) (steps : List DeployStep) (n : ℕ) (s s1 : Run W)
      → get_deploy_steps catalog deploy_type params w ≡ (ok steps, w')
      → run_steps dre 0 (take n steps) s ≡ (ok tt, s1)
      → ((t : Run W) → run_steps dre n steps t ≡ run_steps dre 0 (drop n steps) t)
        × (run_steps dre n steps s1 ≡ run_steps dre 0 steps s)
  run_steps_resumed catalog deploy_type params w w' steps n s s1 listed ran =
      let numbered = get_deploy_steps-AreNumbered catalog deploy_type params w w' steps listed in
      (
        λ t. run_steps-drop n 0 n steps t numbered (omega arith),
        run_steps-drop n 0 n steps s1 numbered (omega arith)
            ∙ sym (run_steps-take n steps s s1 ran),
      )
