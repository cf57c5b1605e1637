-- ===== src/Cohort/Parallel/Safety.antt =====
-- Whatever the schedule of the threads of `deploy_parallel` in scripts/cohort.py, each of them
-- leaves its own item as `deploy_participant` alone leaves it.
use sre_agent_workshop.Prelude.{◌≡◌, ℕ, ◌-◌, refl, Bool-cases, inl, inr}
use sre_agent_workshop.Exec.{Error, Result, ok, err, message}
use sre_agent_workshop.Tools.Machine.{Machine}
use sre_agent_workshop.Cohort.Model.{Item}
use sre_agent_workshop.Cohort.Deploy.{
  validation_commands, azd_up, run_validation, Stage, deployment, validation, rbac, is_succeeded,
  is_caught, begin, begin_deployment, begin_validation, begin_rbac, fail, set_duration,
  was_validated,
}
use sre_agent_workshop.Cohort.Stages.{
  ended_deployment, Validated-Halted, Begun-Deploying, Deployed-Validating, Halted-Attempted,
  rbac_begun, Deploying, Halted, Validating, Attempted, Settled, Begun, Deployed, Validated,
  skipped_deployment, ran_deployment, skipped_validation, ran_validation, granted, recorded,
}
use sre_agent_workshop.Cohort.Results.{Interrupted, timed_settled, begun}
use sre_agent_workshop.Cohort.Parallel.{
  ensure_participant_access, Exec, last_part, rbac_part, validation_part, Task, done, update, call,
  or_else, After, deployment_task, validation_task, rbac_task, failure_task, stage_ended,
  stages_task, finally_task, deploy_task,
}

-- Whatever the world answers, the steps that are left take this item to one with the property of
-- how the thread ends.
unfoldable pub Safe : {W : Type 0} → (Result (Unit {0}) → Item → Type 0) → Task W → Item → Type 0
Safe P (done r) item = P r item
Safe P (update f k) item = (r : Result (Unit {0})) → Safe P (k r) (f item)
Safe {W} P (call a k) item = (w : W) → Safe P (k (a w).0) item

-- How a thread may end: with its item settled, or raising with one attempt more counted at most.
abbrev pub Left : Machine → Item → Result (Unit {0}) → Item → Type 0
Left m before (ok _) item = Settled m before item
Left m before (err _) item = Interrupted before item

module _ {W : Type 0} (P : Result (Unit {0}) → Item → Type 0) (k : Result (Unit {0}) → Task W) where
  or_else-Safe :
      {B : Type 0} (next : B → Task W) (item : Item)
      → ((b : B) → Safe P (next b) item)
      → ((e : Error) → Safe P (k (err e)) item)
      → (r : Result B) → Safe P (or_else r k next) item
  or_else-Safe next item h g (ok b) = h b
  or_else-Safe next item h g (err e) = g e

  -- a call, with a world in which it has returned
  call-Safe :
      {B : Type 0} (a : Exec W B) (next : B → Task W) (item : Item)
      → ((b : B) (w : W) → (a w).0 ≡ ok b → Safe P (next b) item)
      → ((e : Error) → Safe P (k (err e)) item)
      → (w : W) → Safe P (or_else (a w).0 k next) item
  call-Safe {B} a next item h g w = returned (a w).0 refl
    where
      returned : (r : Result B) → (a w).0 ≡ r → Safe P (or_else r k next) item
      returned (ok b) e = h b w e
      returned (err x) e = g x

  result-Safe :
      (item : Item)
      → Safe P (k (ok tt)) item
      → ((e : Error) → Safe P (k (err e)) item)
      → (r : Result (Unit {0})) → Safe P (k r) item
  result-Safe item h g (ok tt) = h
  result-Safe item h g (err e) = g e

module _ (m : Machine) (i : ℕ) (before : Item) where
  open m use {World, monotonic, utc_now, round_tenths}

  abbrev EndsSafe : After m → Result (Unit {0}) → (Item → Type 0) → Type 0
  EndsSafe k r P = (item : Item) → P item → Safe (Left m before) (k r) item

  -- a part that has raised goes on from what that stage leaves
  abbrev RaisesSafe : Stage → After m → Type 0
  RaisesSafe stage k = (e : Error) → EndsSafe k (err e) (Halted stage before)

  module _ (k : After m) where
    deployment_task-Safe :
        RaisesSafe deployment k
        → EndsSafe k (ok tt) (Deployed m before)
        → (item : Item) → Begun before item
        → Safe (Left m before) (deployment_task m before k) item
    unfolding Safe
    deployment_task-Safe raises next item b = elim (Bool-cases (is_succeeded before.deployment)) [
      | inl c ↦ rw c (next item (skipped_deployment m before c item b))
      | inr c ↦ rw c (
          or_else-Safe _ k _ _
            (λ _.
              call-Safe _ k (azd_up m before.environment) _ _
                (λ x w ran.
                  result-Safe _ k _
                    (next _ (ran_deployment m before c (x, w, ran) (begin_deployment item) begun))
                    (λ e. raises e _ (ended_deployment m before (begin_deployment item) begun)))
                (λ e. raises e _ begun.0))
            (λ e. raises e _ begun.0))
    ]
      where
        begun : Deploying m before (begin_deployment item)
        begun = Begun-Deploying m before item b

    validation_task-Safe :
        RaisesSafe validation k
        → EndsSafe k (ok tt) (Validated m before)
        → (item : Item) → Deployed m before item
        → Safe (Left m before) (validation_task m before k) item
    unfolding Safe
    validation_task-Safe raises next item b = elim (Bool-cases (was_validated before)) [
      | inl c ↦ rw c (next item (skipped_validation m before c item b))
      | inr c ↦ rw c (
          or_else-Safe _ k _ _
            (λ _.
              call-Safe _ k (run_validation m validation_commands before.environment) _ _
                (λ x w ran.
                  result-Safe _ k _
                    (next _ (ran_validation m before (x, w, ran) (begin_validation item) begun))
                    (λ e. raises e _ begun.0))
                (λ e. raises e _ begun.0))
            (λ e. raises e _ begun.0))
    ]
      where
        begun : Validating m before (begin_validation item)
        begun = Deployed-Validating m before item b

    rbac_task-Safe :
        RaisesSafe rbac k
        → EndsSafe k (ok tt) (Settled m before)
        → (item : Item) → Validated m before item
        → Safe (Left m before) (rbac_task m before k) item
    unfolding Safe
    rbac_task-Safe raises next item b =
        or_else-Safe _ k _ _
          (λ _.
            call-Safe _ k (ensure_participant_access m before) _ _
              (λ x w ran.
                call-Safe _ k utc_now _ _
                  (λ now _ _.
                    result-Safe _ k _
                      (next _ (granted m before (x, w, ran) now (begin_rbac item) begun))
                      (λ e. raises e _ (Validated-Halted m before item b)))
                  (λ e. raises e _ (Validated-Halted m before item b)))
              (λ e. raises e _ (Validated-Halted m before item b)))
          (λ e. raises e _ (Validated-Halted m before item b))
      where
        begun : Validated m before (begin_rbac item)
        begun = rbac_begun m before item b

  module _ (k : After m) (settles : EndsSafe k (ok tt) (Settled m before))
      (raises : (e : Error) → EndsSafe k (err e) (Attempted before)) where
    failure_task-Safe :
        (stage : Stage) (e : Error) (item : Item)
        → Halted stage before item
        → Safe (Left m before) (failure_task m stage e k) item
    unfolding Safe
    failure_task-Safe stage e item a =
        call-Safe _ k utc_now _ _
          (λ now _ _.
            result-Safe _ k _ (settles _ (recorded m before stage (message e) now item a)) (λ e'.
              raises e' (fail stage (message e) now item)
                (recorded m before stage (message e) now item a).0))
          (λ e. raises e _ (Halted-Attempted stage before item a))

    stage_ended-RaisesSafe :
        (stage : Stage) (next : After m → Task World)
        → RaisesSafe stage (stage_ended m stage next k)
    stage_ended-RaisesSafe stage next e item a = elim (Bool-cases (is_caught e)) [
      | inl c ↦ rw c (failure_task-Safe stage e item a)
      | inr c ↦ rw c (raises e item (Halted-Attempted stage before item a))
    ]

    stages_task-Safe :
        (item : Item) → Begun before item → Safe (Left m before) (stages_task m before k) item
    stages_task-Safe =
        deployment_task-Safe (stage_ended m deployment (validation_part m before) k)
          (stage_ended-RaisesSafe deployment (validation_part m before))
          (validation_task-Safe (stage_ended m validation (rbac_part m before) k)
            (stage_ended-RaisesSafe validation (rbac_part m before))
            (rbac_task-Safe (stage_ended m rbac (last_part m) k)
              (stage_ended-RaisesSafe rbac (last_part m)) settles))

  finally_task-Safe :
      (started : ℕ) (r : Result (Unit {0})) (item : Item)
      → ((tenths : ℕ) → Left m before r (set_duration tenths item))
      → Attempted before item
      → Safe (Left m before) (finally_task m started r) item
  unfolding Safe
  finally_task-Safe started r item l a =
      call-Safe _ done monotonic _ _
        (λ ended _ _.
          or_else-Safe _ done _ _ (λ _. l (round_tenths (ended - started))) (λ e. inr a))
        (λ e. inr a)

  pub deploy_task-Safe : Safe (Left m before) (deploy_task m before) before
  unfolding deploy_task Safe
  deploy_task-Safe =
      call-Safe _ done monotonic _ _
        (λ started _ _.
          call-Safe _ done utc_now _ _
            (λ now _ _.
              or_else-Safe _ done _ _
                (λ _.
                  stages_task-Safe (finally_task m started)
                    (λ item p.
                      finally_task-Safe started (ok tt) item (λ t. timed_settled m before item t p)
                        p.0)
                    (λ e item a. finally_task-Safe started (err e) item (λ t. inr a) a)
                    (begin now before) (begun m i before now before refl))
                (λ e. inr refl))
            (λ e. inl refl))
        (λ e. inl refl)
