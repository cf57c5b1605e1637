-- ===== src/Cohort/Parallel/Same.antt =====
-- A thread that runs alone is `deploy_participant` of scripts/cohort.py, as Cohort.Deploy has it.
use sre_agent_workshop.Prelude.{ℕ, ◌-◌, ◌≡◌, refl, ◌∙◌, Bool-cases, inl, inr}
use sre_agent_workshop.Exec.{Exec, Error, Result, ok, err, message, pure, continue, ◌>>=◌, ◌>>◌}
use sre_agent_workshop.Tools.Machine.{Machine}
use sre_agent_workshop.Cohort.Model.{Item}
use sre_agent_workshop.Cohort.Access.{ensure_participant_access}
use sre_agent_workshop.Cohort.Store.{Store, outside, update_item}
use sre_agent_workshop.Cohort.Deploy.{
  Stage, deployment, validation, rbac, is_succeeded, is_caught, begin, begin_deployment,
  end_deployment, begin_validation, end_validation, begin_rbac, end_rbac, fail, set_duration,
  was_validated, validation_commands, azd_up, run_validation, deployment_stage, validation_stage,
  rbac_stage, record_failure, staged, then_stage, stages, finally, deploy_item,
}
use sre_agent_workshop.Cohort.Parallel.{
  Task, done, update, call, or_else, After, deployment_task, validation_task, rbac_task,
  failure_task, stage_ended, stages_task, finally_task, deploy_task, run_alone,
}

module _ (m : Machine) (i : ℕ) where
  open m use {World, monotonic, utc_now, round_tenths}

  -- the rest of a thread behind an action
  abbrev onward : After m → Result (Unit {0}) × Store World → Result (Unit {0}) × Store World
  onward k (r, s) = run_alone m i (k r) s

  -- A part of a thread does what the action does, and goes on with how it has ended.
  abbrev Does : (After m → Task World) → Exec (Store World) (Unit {0}) → Type 1
  Does part action =
      (k : After m) (s : Store World) → run_alone m i (part k) s ≡ onward k (action s)

  module _ {B : Type 0} (k : After m) (f : B → Task World) (a : B → Exec (Store World) (Unit {0}))
      (same : (b : B) (s : Store World) → run_alone m i (f b) s ≡ onward k (a b s)) where
    or_else-continue :
        (r : Result B) (s : Store World)
        → run_alone m i (or_else r k f) s ≡ onward k (continue r a s)
    or_else-continue (ok b) s = same b s
    or_else-continue (err e) s = refl

  module _ (k : After m) where
    update_last :
        (f : Item → Item) (s : Store World)
        → run_alone m i (update f k) s ≡ onward k (update_item m i f s)
    unfolding run_alone
    update_last f s = refl

    update_then :
        (f : Item → Item) (next : Task World) (a : Exec (Store World) (Unit {0}))
        → ((s : Store World) → run_alone m i next s ≡ onward k (a s))
        → (s : Store World)
        → run_alone m i (update f (λ r. or_else r k (λ _. next))) s
          ≡ onward k ((update_item m i f >> a) s)
    unfolding run_alone
    update_then f next a same s =
        or_else-continue k (λ _. next) (λ _. a) (λ _. same) (update_item m i f s).0
          (update_item m i f s).1

    call_then :
        {B : Type 0} (action : Exec World B) (next : B → Task World)
        (a : B → Exec (Store World) (Unit {0}))
        → ((b : B) (s : Store World) → run_alone m i (next b) s ≡ onward k (a b s))
        → (s : Store World)
        → run_alone m i (call action (λ r. or_else r k next)) s
          ≡ onward k ((outside action >>= a) s)
    unfolding run_alone
    call_then action next a same s =
        or_else-continue k next a same (outside action s).0 (outside action s).1

  deployment_task-Does : (item : Item) → Does (deployment_task m item) (deployment_stage m i item)
  unfolding deployment_stage
  deployment_task-Does item k s = elim (Bool-cases (is_succeeded item.deployment)) [
    | inl c ↦ rw c refl
    | inr c ↦ rw c (
        update_then k begin_deployment _ _
          (call_then k (azd_up m item.environment) _ _ (λ _. update_last k end_deployment)) s)
  ]

  validation_task-Does : (item : Item) → Does (validation_task m item) (validation_stage m i item)
  unfolding validation_stage
  validation_task-Does item k s = elim (Bool-cases (was_validated item)) [
    | inl c ↦ rw c refl
    | inr c ↦ rw c (
        update_then k begin_validation _ _
          (call_then k (run_validation m validation_commands item.environment) _ _
            (λ _. update_last k end_validation))
          s)
  ]

  rbac_task-Does : (item : Item) → Does (rbac_task m item) (rbac_stage m i item)
  unfolding rbac_stage
  rbac_task-Does item k = update_then k begin_rbac _ _ (
      call_then k (ensure_participant_access m item) _ _
        (λ _. call_then k utc_now _ _ (λ now. update_last k (end_rbac now))))

  failure_task-Does :
      (stage : Stage) (e : Error) → Does (failure_task m stage e) (record_failure m i stage e)
  failure_task-Does stage e k =
      call_then k utc_now _ _ (λ now. update_last k (fail stage (message e) now))

  module _ (stage : Stage) (part next_part : After m → Task World)
      (body next : Exec (Store World) (Unit {0})) where
    staged-Does :
        Does next_part next
        → (k : After m) (r : Result (Unit {0})) (s : Store World)
        → run_alone m i (stage_ended m stage next_part k r) s ≡ onward k (staged m i stage r next s)
    staged-Does same k (ok _) s = same k s
    staged-Does same k (err e) s = elim (Bool-cases (is_caught e)) [
      | inl c ↦ rw c (failure_task-Does stage e k s)
      | inr c ↦ rw c refl
    ]

    then_stage-Does :
        Does part body
        → Does next_part next
        → Does (λ k. part (stage_ended m stage next_part k)) (then_stage m i stage body next)
    then_stage-Does first second k s =
        first (stage_ended m stage next_part k) s ∙ staged-Does second k (body s).0 (body s).1

  stages_task-Does : (item : Item) → Does (stages_task m item) (stages m i item)
  unfolding stages
  stages_task-Does item =
      then_stage-Does deployment (deployment_task m item) _ (deployment_stage m i item) _
        (deployment_task-Does item)
        (then_stage-Does validation (validation_task m item) _ (validation_stage m i item) _
          (validation_task-Does item)
          (then_stage-Does rbac (rbac_task m item) (λ k. k (ok tt)) (rbac_stage m i item) (pure tt)
            (rbac_task-Does item) (λ k s. refl)))

  onward_done : (p : Result (Unit {0}) × Store World) → onward done p ≡ p
  unfolding run_alone
  onward_done (r, s) = refl

  update_to_done :
      (f : Item → Item) (r : Result (Unit {0})) (s : Store World)
      → run_alone m i (update f (λ u. or_else u done (λ _. done r))) s
        ≡ onward done ((update_item m i f >> (λ s. (r, s))) s)
  unfolding run_alone
  update_to_done f r s = update_then done f (done r) (λ s. (r, s)) (λ s. refl) s

  finally_task-finally :
      (started : ℕ) (r : Result (Unit {0})) (s : Store World)
      → run_alone m i (finally_task m started r) s ≡ onward done (finally m i started r s)
  finally_task-finally started r s =
      call_then done monotonic _ _
        (λ ended. update_to_done (set_duration (round_tenths (ended - started))) r) s

  -- A thread whose steps are taken one after the other does to the store what `deploy_item` does, and
  -- ends as it ends.
  run_alone-deploy_task :
      (item : Item) (s : Store World)
      → run_alone m i (deploy_task m item) s ≡ deploy_item m i item s
  unfolding deploy_task deploy_item
  run_alone-deploy_task item s =
      call_then done monotonic _
        (λ started. outside utc_now >>= λ now. update_item m i (begin now) >> λ s.
          finally m i started (stages m i item s).0 (stages m i item s).1)
        (λ started. call_then done utc_now _ _ λ now.
          update_then done (begin now) (stages_task m item (finally_task m started)) _ λ s.
            stages_task-Does item (finally_task m started) s
            ∙ finally_task-finally started (stages m i item s).0 (stages m i item s).1)
        s
      ∙ onward_done (deploy_item m i item s)
