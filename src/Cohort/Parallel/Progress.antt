-- ===== src/Cohort/Parallel/Progress.antt =====
-- How many steps a thread of `deploy_parallel` in scripts/cohort.py can take.
use sre_agent_workshop.Prelude.{ℕ, zero, suc, ◌≡◌, refl, Bool-cases, inl, inr}
use sre_agent_workshop.Exec.{Error, Result, ok, err}
use sre_agent_workshop.Tools.Machine.{Machine}
use sre_agent_workshop.Cohort.Model.{Item}
use sre_agent_workshop.Cohort.Deploy.{
  Stage, deployment, validation, rbac, is_succeeded, is_caught, was_validated,
}
use sre_agent_workshop.Cohort.Store.{Store}
use sre_agent_workshop.Cohort.Parallel.{
  last_part, validation_part, rbac_part, Task, done, update, call, or_else, After, deployment_task,
  validation_task, rbac_task, failure_task, stage_ended, stages_task, finally_task, deploy_task,
  advance,
}

-- `j + n`, by steps
abbrev pub more : ℕ → ℕ → ℕ
more zero n = n
more (suc j) n = suc (more j n)

abbrev pub one_less : ℕ → ℕ
one_less zero = zero
one_less (suc n) = n

-- Whatever the world answers, the thread is done after at most so many steps.
unfoldable pub Within : {W : Type 0} → ℕ → Task W → Type 0
Within n (done r) = Unit
Within zero (update f k) = ⊥
Within zero (call a k) = ⊥
Within (suc n) (update f k) = (r : Result (Unit {0})) → Within n (k r)
Within (suc n) (call {B} a k) = (r : Result B) → Within n (k r)

module _ {W : Type 0} where
  Within-suc : (n : ℕ) (task : Task W) → Within n task → Within (suc n) task
  unfolding Within
  Within-suc n (done r) w = tt
  Within-suc zero (update f k) w = absurd w
  Within-suc zero (call a k) w = absurd w
  Within-suc (suc n) (update f k) w = λ r. Within-suc n (k r) (w r)
  Within-suc (suc n) (call a k) w = λ r. Within-suc n (k r) (w r)

  Within-more : (j n : ℕ) (task : Task W) → Within n task → Within (more j n) task
  Within-more zero n task w = w
  Within-more (suc j) n task w = Within-suc (more j n) task (Within-more j n task w)

  or_else-Within :
      {B : Type 0} (n : ℕ) (k : Result (Unit {0}) → Task W) (next : B → Task W)
      → ((b : B) → Within n (next b))
      → ((r : Result (Unit {0})) → Within n (k r))
      → (r : Result B) → Within n (or_else r k next)
  or_else-Within n k next h g (ok b) = h b
  or_else-Within n k next h g (err e) = g (err e)

  -- a thread that may take no more steps is done
  pub Within-zero : (task : Task W) → Within zero task → (r : Result (Unit {0})) × (task ≡ done r)
  unfolding Within
  Within-zero (done r) w = (r, refl)
  Within-zero (update f k) w = absurd w
  Within-zero (call a k) w = absurd w

module _ (m : Machine) where
  open m use {World}

  pub advance-Within :
      (i n : ℕ) (task : Task World) (s : Store World)
      → Within n task
      → Within (one_less n) (advance m i task s).0
  unfolding Within
  advance-Within i n (done r) s w = tt
  advance-Within i zero (update f k) s w = absurd w
  advance-Within i zero (call a k) s w = absurd w
  advance-Within i (suc n) (update f k) s w = w _
  advance-Within i (suc n) (call a k) s w = w _

  module _ (n : ℕ) (k : After m) (rest : (r : Result (Unit {0})) → Within n (k r)) where
    after : (j : ℕ) (r : Result (Unit {0})) → Within (more j n) (k r)
    after j r = Within-more j n (k r) (rest r)

    deployment_task-Within : (item : Item) → Within (more 3 n) (deployment_task m item k)
    unfolding Within
    deployment_task-Within item = elim (Bool-cases (is_succeeded item.deployment)) [
      | inl c ↦ rw c (after 3 (ok tt))
      | inr c ↦ rw c (
          or_else-Within (more 2 n) k _ (λ _. or_else-Within (more 1 n) k _ (λ _. rest) (after 1))
            (after 2))
    ]

    validation_task-Within : (item : Item) → Within (more 3 n) (validation_task m item k)
    unfolding Within
    validation_task-Within item = elim (Bool-cases (was_validated item)) [
      | inl c ↦ rw c (after 3 (ok tt))
      | inr c ↦ rw c (
          or_else-Within (more 2 n) k _ (λ _. or_else-Within (more 1 n) k _ (λ _. rest) (after 1))
            (after 2))
    ]

    rbac_task-Within : (item : Item) → Within (more 4 n) (rbac_task m item k)
    unfolding Within
    rbac_task-Within item =
        or_else-Within (more 3 n) k _
          (λ _.
            or_else-Within (more 2 n) k _ (λ _. or_else-Within (more 1 n) k _ (λ _. rest) (after 1))
              (after 2))
          (after 3)

    failure_task-Within : (stage : Stage) (e : Error) → Within (more 2 n) (failure_task m stage e k)
    unfolding Within
    failure_task-Within stage e = or_else-Within (more 1 n) k _ (λ _. rest) (after 1)

    stage_ended-Within :
        (stage : Stage) (next : After m → Task World)
        → Within (more 2 n) (next k)
        → (r : Result (Unit {0})) → Within (more 2 n) (stage_ended m stage next k r)
    stage_ended-Within stage next w (ok _) = w
    stage_ended-Within stage next w (err e) = elim (Bool-cases (is_caught e)) [
      | inl c ↦ rw c (failure_task-Within stage e)
      | inr c ↦ rw c (after 2 (err e))
    ]

  module _ (item : Item) where
    module _ (n : ℕ) (k : After m) (rest : (r : Result (Unit {0})) → Within n (k r)) where
      rbac_part-Within : Within (more 6 n) (rbac_part m item k)
      rbac_part-Within =
          rbac_task-Within (more 2 n) (stage_ended m rbac (last_part m) k)
            (stage_ended-Within n k rest rbac (last_part m) (after n k rest 2 (ok tt))) item

      validation_part-Within : Within (more 9 n) (validation_part m item k)
      validation_part-Within =
          validation_task-Within (more 6 n) (stage_ended m validation (rbac_part m item) k)
            (stage_ended-Within (more 4 n) k (after n k rest 4) validation (rbac_part m item)
              rbac_part-Within)
            item

      stages_task-Within : Within (more 12 n) (stages_task m item k)
      stages_task-Within =
          deployment_task-Within (more 9 n) (stage_ended m deployment (validation_part m item) k)
            (stage_ended-Within (more 7 n) k (after n k rest 7) deployment (validation_part m item)
              validation_part-Within)
            item

    finally_task-Within :
        (started : ℕ) (r : Result (Unit {0})) → Within 2 (finally_task m started r)
    unfolding Within
    finally_task-Within started r =
        or_else-Within 1 done _ (λ _. or_else-Within 0 done _ (λ _. tt) (λ _. tt)) (λ _. tt)

    -- The thread of a participant is done after at most 17 steps.
    pub deploy_task-Within : Within 17 (deploy_task m item)
    unfolding deploy_task Within
    deploy_task-Within =
        or_else-Within 16 done _
          (λ started.
            or_else-Within 15 done _
              (λ now.
                or_else-Within 14 done _
                  (λ _. stages_task-Within 2 (finally_task m started) (finally_task-Within started))
                  (λ _. tt))
              (λ _. tt))
          (λ _. tt)
