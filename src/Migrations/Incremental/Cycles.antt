-- ===== src/Migrations/Incremental/Cycles.antt =====
-- The cycles of the incremental deployment end, and which tasks they run.
use augmented_finance_protoc.Prelude.{
  ℕ, zero, suc, ◌+◌, ◌-◌, ◌<◌, eqb, ltb, String, ◌≡◌, refl, sym, ap, ◌∙◌, Bool, true, false, List,
  [], ◌∷◌, ◌++◌, map, take, append-nil, append_assoc, map-append, arith, length, Result, ok, thrown,
  Act, ◌>>◌, continue, Bool-cases, inl, inr,
}
use augmented_finance_protoc.Migrations.Steps.{DeployStep}
use augmented_finance_protoc.Migrations.Runs.{Hardhat, Run, Started, lift_site, run_task}
use augmented_finance_protoc.Migrations.Incremental.{
  Seen, nothing_seen, check_contracts, read_contracts, check_cycle, check_instances, run_cycle,
  run_cycles,
}

abbrev pub task_of : DeployStep → Started
task_of step = (step.task_name, step.args)

-- The first `m` steps, then the first `m + 1`, and so on, in `rounds` cycles.
unfoldable pub schedule : ℕ → ℕ → List DeployStep → List DeployStep
schedule zero m steps = []
schedule (suc rounds) m steps = take m steps ++ schedule rounds (m + 1) steps

abbrev pub Anything : {A : Type 0} → A → Type 0
Anything a = Unit

regroup_tasks :
    (started : List Started) (step : DeployStep) (steps : List DeployStep) {started' : List Started}
    → started' ≡ started ++ task_of step ∷ []
    → started' ++ map task_of steps ≡ started ++ map task_of (step ∷ steps)
regroup_tasks started step steps e =
    ap (λ l. l ++ map task_of steps) e
    ∙ append_assoc started (task_of step ∷ []) (map task_of steps)

no_tasks :
    (started : List Started) (m : ℕ) (steps : List DeployStep)
    → started ≡ started ++ map task_of (schedule 0 m steps)
unfolding schedule
no_tasks started m steps = sym (append-nil started)

cycle_tasks :
    (started : List Started) (first rest : List DeployStep) {started' started'' : List Started}
    → started' ≡ started
    → started'' ≡ started' ++ map task_of first
    → started'' ++ map task_of rest ≡ started ++ map task_of (first ++ rest)
cycle_tasks started first rest e f = rw (f, e) (simp (append_assoc, map-append))

module _ {W : Type 0} where
  -- If it returned, then with this value and after just these tasks.
  abbrev pub Returns : {A : Type 0} → (A → Type 0) → List Started → Result A × Run W → Type 0
  Returns P tasks (ok a, s) = P a × (s.started ≡ tasks)
  Returns P tasks (thrown _, s) = Unit

  Returns-of :
      {A : Type 0} (tasks : List Started) (r : Result A × Run W)
      → r.1.started ≡ tasks
      → Returns Anything tasks r
  Returns-of tasks (ok a, s) e = (tt, e)
  Returns-of tasks (thrown m, s) e = tt

  Returns-cast :
      {A : Type 0} (P Q : A → Type 0) {tasks tasks' : List Started}
      → ((a : A) → P a → Q a)
      → tasks ≡ tasks'
      → (r : Result A × Run W) → Returns P tasks r
      → Returns Q tasks' r
  Returns-cast P Q f e (ok a, s) h = (f a h.0, h.1 ∙ e)
  Returns-cast P Q f e (thrown m, s) h = tt

  Returns-continue :
      {A B : Type 0} (P : A → Type 0) (Q : B → Type 0) (tasks tasks' : List Started)
      (f : A → Act (Run W) B) (r : Result A × Run W)
      → Returns P tasks r
      → ((a : A) (s : Run W) → P a → s.started ≡ tasks → Returns Q tasks' (f a s))
      → Returns Q tasks' (continue f r)
  Returns-continue P Q tasks tasks' f (ok a, s) h k = k a s h.0 h.1
  Returns-continue P Q tasks tasks' f (thrown e, s) h k = tt

module _ {W : Type 0} (dre : Hardhat W) (decimal : ℕ → String) where
  Returns-run_task :
      (step : DeployStep) (s : Run W)
      → Returns Anything (s.started ++ task_of step ∷ []) (run_task dre step.task_name step.args s)
  unfolding run_task
  Returns-run_task step s =
      Returns-of (s.started ++ task_of step ∷ []) (run_task dre step.task_name step.args s) refl

  Returns-check_instances :
      (max_step last step : ℕ) (s : Run W)
      → Returns Anything s.started (check_instances dre decimal max_step last step s)
  unfolding check_instances
  Returns-check_instances max_step last step s = ground arith

  -- One step of a cycle, and what follows it.
  Returns-step :
      {B : Type 0} (Q : B → Type 0) (tasks : List Started) (k : Act (Run W) B) (max_step last c : ℕ)
      (step : DeployStep) (s : Run W)
      → ((s' : Run W) → s'.started ≡ s.started ++ task_of step ∷ [] → Returns Q tasks (k s'))
      → Returns Q tasks (
          (run_task dre step.task_name step.args
              >> (check_instances dre decimal max_step last c >> k))
            s)
  Returns-step Q tasks k max_step last c step s h =
      let after = s.started ++ task_of step ∷ [] in
      Returns-continue Anything Q after tasks _ (run_task dre step.task_name step.args s)
        (Returns-run_task step s)
        λ _ s1 _ e1.
          Returns-continue Anything Q after tasks (λ _. k)
            (check_instances dre decimal max_step last c s1)
            (rw (← e1) (Returns-check_instances max_step last c s1)) λ _ s2 _ e2. h s2 e2

  -- A cycle of `c` steps stops the loop exactly if there are fewer steps than that.
  Returns-run_cycle :
      (max_step last c : ℕ) (steps : List DeployStep) (s : Run W)
      → 0 < c
      → Returns
          (λ stop. stop ≡ ltb (length steps) c)
          (s.started ++ map task_of (take c steps))
          (run_cycle dre decimal max_step last c steps s)
  unfolding run_cycle
  Returns-run_cycle max_step last zero steps s h = elim h [ ]
  Returns-run_cycle max_step last (suc c) [] s h = (ground arith, sym (append-nil s.started))
  Returns-run_cycle max_step last (suc zero) (step ∷ steps) s h =
      Returns-step _ _ _ max_step last 1 step s λ s' e. (ground arith, e)
  Returns-run_cycle max_step last (suc (suc c)) (step ∷ steps) s h =
      let more : eqb (suc (suc c)) 1 ≡ false = ground arith in
      let fewer : suc (suc c) - 1 ≡ suc c = omega arith in
      Returns-step _ _ _ max_step last (suc (suc c)) step s λ s' e.
        rw (more, fewer)
          (Returns-cast _ _ (λ stop e1. e1 ∙ (ground arith))
            (regroup_tasks s.started step (take (suc c) steps) e)
            (run_cycle dre decimal max_step last (suc c) steps s')
            (Returns-run_cycle max_step last (suc c) steps s' (omega arith)))

  Returns-read_contracts :
      (max_step : ℕ) (last : Seen) (s : Run W)
      → Returns Anything s.started (read_contracts dre decimal max_step last s)
  unfolding check_contracts
  Returns-read_contracts max_step last s = ground arith

  Returns-check_cycle :
      (max_step : ℕ) (last : Seen) (s : Run W)
      → Returns Anything s.started (check_cycle dre decimal max_step last s)
  unfolding check_cycle
  Returns-check_cycle max_step last s = elim (Bool-cases (ltb 1 max_step)) [
    | inl e ↦ rw e (
        Returns-continue Anything Anything s.started s.started
          (λ _. read_contracts dre decimal max_step last) (lift_site dre.get_first_signer s)
          (Returns-of s.started (lift_site dre.get_first_signer s) refl)
          λ _ s1 _ e1. rw (← e1) (Returns-read_contracts max_step last s1))
    | inr e ↦ rw e (tt, refl)
  ]

  -- The loop is left by its `break` once the cycle before it has run out of steps.
  Returns-run_cycles_stop :
      (fuel : ℕ) (steps : List DeployStep) (m : ℕ) (last : Seen) (s : Run W)
      → Returns
          (λ left. left ≡ true)
          s.started
          (run_cycles dre decimal (suc fuel) steps m true last s)
  unfolding run_cycles
  Returns-run_cycles_stop fuel steps m last s =
      Returns-continue Anything (λ left. left ≡ true) s.started s.started _
        (check_cycle dre decimal m last s) (Returns-check_cycle m last s) λ seen s1 _ e1. (refl, e1)

  Returns-run_cycles_next :
      (rounds : ℕ) (steps : List DeployStep) (m : ℕ) (stop : Bool) (last : Seen) (s : Run W)
      → stop ≡ eqb rounds 0
      → (0 < rounds
          → Returns
              (λ left. left ≡ true)
              (s.started ++ map task_of (schedule rounds m steps))
              (run_cycles dre decimal (suc rounds) steps m false last s))
      → Returns
          (λ left. left ≡ true)
          (s.started ++ map task_of (schedule rounds m steps))
          (run_cycles dre decimal (suc rounds) steps m stop last s)
  Returns-run_cycles_next zero steps m stop last s e ih =
      let stops : stop ≡ true = e in
      rw stops (
        Returns-cast _ _ (λ left done. done) (no_tasks s.started m steps)
          (run_cycles dre decimal 1 steps m true last s) (Returns-run_cycles_stop 0 steps m last s))
  Returns-run_cycles_next (suc rounds) steps m stop last s e ih =
      let goes_on : stop ≡ false = ground arith in rw goes_on (ih (omega arith))

  Returns-run_cycles :
      (rounds : ℕ) (steps : List DeployStep) (m : ℕ) (last : Seen) (s : Run W)
      → 0 < rounds
      → 0 < m
      → rounds + m ≡ length steps + 2
      → Returns
          (λ left. left ≡ true)
          (s.started ++ map task_of (schedule rounds m steps))
          (run_cycles dre decimal (suc rounds) steps m false last s)
  unfolding run_cycles schedule
  Returns-run_cycles zero steps m last s h g e = elim h [ ]
  Returns-run_cycles (suc rounds) steps m last s h g e =
      let tasks = s.started ++ map task_of (schedule (suc rounds) m steps) in
      Returns-continue Anything (λ left. left ≡ true) s.started tasks _
        (check_cycle dre decimal m last s) (Returns-check_cycle m last s)
        λ seen s1 _ e1.
          Returns-continue (λ stop. stop ≡ ltb (length steps) m) (λ left. left ≡ true)
            (s1.started ++ map task_of (take m steps)) tasks _
            (run_cycle dre decimal m seen.instance_count m steps s1)
            (Returns-run_cycle m seen.instance_count m steps s1 g)
            λ stop s2 stops e2.
              Returns-cast _ _ (λ left done. done)
                (cycle_tasks s.started (take m steps) (schedule rounds (m + 1) steps) e1 e2)
                (run_cycles dre decimal (suc rounds) steps (m + 1) stop seen s2)
                (Returns-run_cycles_next rounds steps (m + 1) stop seen s2 (stops ∙ (ground arith))
                  λ more.
                    Returns-run_cycles rounds steps (m + 1) seen s2 more (omega arith)
                      (omega arith))

  -- The loop of the incremental deployment never goes on for ever, whatever the tasks do: it throws, or
  -- it is left by its `break` after the tasks of the first step, of the first two steps, and so on up
  -- to all the steps, and of all the steps once more.
  pub run_cycles_ends :
      (steps : List DeployStep) (s : Run W)
      → Returns
          (λ left. left ≡ true)
          (s.started ++ map task_of (schedule (length steps + 1) 1 steps))
          (run_cycles dre decimal (length steps + 2) steps 1 false nothing_seen s)
  run_cycles_ends steps s =
      let fuel : length steps + 2 ≡ suc (length steps + 1) = omega arith in
      rw fuel (
        Returns-run_cycles (length steps + 1) steps 1 nothing_seen s (omega arith) (omega arith)
          (omega arith))
