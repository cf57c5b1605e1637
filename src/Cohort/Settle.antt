-- ===== src/Cohort/Settle.antt =====
-- How `deploy_participant` of scripts/cohort.py leaves its item: ready, or failed in a stage.
use sre_agent_workshop.Prelude.{ℕ, ◌≡◌, inl, inr, Bool-cases}
use sre_agent_workshop.Cohort.Stages.{
  granted, ended_deployment, ran_deployment, ran_validation, Deployed-Validating, Begun-Deploying,
  Validated-Halted, Validating, Deploying, recorded, skipped_validation, rbac_begun,
  skipped_deployment, Begun, Deployed, Validated, Halted, Settled, Attempted, Halted-Attempted,
}
use sre_agent_workshop.Exec.{Exec, Error, Result, ok, err, message}
use sre_agent_workshop.Exec.Triple.{Ends, Triple, Triple-pure, Triple-if, Triple-bind}
use sre_agent_workshop.Tools.Machine.{Machine}
use sre_agent_workshop.Cohort.Model.{Item}
use sre_agent_workshop.Cohort.Access.{ensure_participant_access}
use sre_agent_workshop.Cohort.Store.{Store}
use sre_agent_workshop.Cohort.Track.{
  update_item-Ends, outside-Ran, Tracks, outside-Tracks, update_item-Tracks,
}
use sre_agent_workshop.Cohort.Deploy.{
  Stage, deployment, validation, rbac, is_succeeded, is_caught, begin_deployment, end_deployment,
  begin_validation, end_validation, begin_rbac, end_rbac, fail, was_validated, azd_up,
  run_validation, validation_commands, deployment_stage, validation_stage, rbac_stage, then_stage,
  staged, stages, record_failure,
}

Tracks-map :
    {W : Type 0} (i : ℕ) (P Q : Item → Type 0)
    → ((item : Item) → P item → Q item)
    → (s : Store W) → Tracks i P s
    → Tracks i Q s
Tracks-map i P Q k s p = (p.0, p.1, k p.0 p.2)

module _ (m : Machine) (i : ℕ) (before : Item) where
  open m use {World, utc_now, monotonic, round_tenths}

  deployment_stage-Deployed :
      Triple
        (Tracks i (Begun before))
        (deployment_stage m i before)
        (λ _. Tracks i (Deployed m before))
        (λ _. Tracks i (Halted deployment before))
  unfolding deployment_stage
  deployment_stage-Deployed =
      Triple-if (is_succeeded before.deployment) _ _
        (λ e.
          Triple-pure tt
            (Tracks-map i (Begun before) (Deployed m before) (skipped_deployment m before e)))
        (λ e.
          Triple-bind (λ _. Tracks i (Deploying m before)) _ _
            (update_item-Ends m i begin_deployment (Begun before) (Deploying m before)
              (Halted deployment before) (Begun-Deploying m before)
              (λ item b. (Begun-Deploying m before item b).0))
            λ _.
              Triple-bind
                (λ x. Tracks i (λ item.
                  (Deploying m before) item
                  × ((w : World) × ((azd_up m before.environment w).0 ≡ ok x))))
                _ _
                (outside-Ran m i (Deploying m before) (Halted deployment before)
                  (azd_up m before.environment) (λ item b. b.0))
                λ x.
                  update_item-Ends m i end_deployment _ (Deployed m before)
                    (Halted deployment before)
                    (λ item (b, (w, ran)). ran_deployment m before e (x, w, ran) item b)
                    (λ item (b, ran). ended_deployment m before item b))

  validation_stage-Validated :
      Triple
        (Tracks i (Deployed m before))
        (validation_stage m i before)
        (λ _. Tracks i (Validated m before))
        (λ _. Tracks i (Halted validation before))
  unfolding validation_stage
  validation_stage-Validated =
      Triple-if (was_validated before) _ _
        (λ e.
          Triple-pure tt
            (Tracks-map i (Deployed m before) (Validated m before) (skipped_validation m before e)))
        (λ e.
          Triple-bind (λ _. Tracks i (Validating m before)) _ _
            (update_item-Ends m i begin_validation (Deployed m before) (Validating m before)
              (Halted validation before) (Deployed-Validating m before)
              (λ item b. (Deployed-Validating m before item b).0))
            λ _.
              Triple-bind
                (λ x. Tracks i (λ item.
                  (Validating m before) item
                  × ((w : World) × ((run_validation m validation_commands before.environment w).0
                        ≡ ok x))))
                _ _
                (outside-Ran m i (Validating m before) (Halted validation before)
                  (run_validation m validation_commands before.environment) (λ item b. b.0))
                λ x.
                  update_item-Ends m i end_validation _ (Validated m before)
                    (Halted validation before)
                    (λ item (b, (w, ran)). ran_validation m before (x, w, ran) item b)
                    (λ item (b, ran). b.0))

  rbac_stage-Settled :
      Triple
        (Tracks i (Validated m before))
        (rbac_stage m i before)
        (λ _. Tracks i (Settled m before))
        (λ _. Tracks i (Halted rbac before))
  unfolding rbac_stage
  rbac_stage-Settled =
      Triple-bind (λ _. Tracks i (Validated m before)) _ _
        (update_item-Ends m i begin_rbac (Validated m before) (Validated m before)
          (Halted rbac before) (rbac_begun m before) (Validated-Halted m before))
        λ _.
          Triple-bind
            (λ x. Tracks i (λ item.
              Validated m before item
              × ((w : World) × ((ensure_participant_access m before w).0 ≡ ok x))))
            _ _
            (outside-Ran m i (Validated m before) (Halted rbac before)
              (ensure_participant_access m before) (Validated-Halted m before))
            λ x.
              Triple-bind
                (λ _. Tracks i (λ item.
                  Validated m before item
                  × ((w : World) × ((ensure_participant_access m before w).0 ≡ ok x))))
                _ _
                (outside-Tracks m i _ (Halted rbac before) utc_now
                  (λ item (b, ran). Validated-Halted m before item b))
                λ now.
                  update_item-Ends m i (end_rbac now) _ (Settled m before) (Halted rbac before)
                    (λ item (b, (w, ran)). granted m before (x, w, ran) now item b)
                    (λ item (b, ran). Validated-Halted m before item b)

  record_failure-Settled :
      (stage : Stage) (e : Error)
      → Triple
          (Tracks i (Halted stage before))
          (record_failure m i stage e)
          (λ _. Tracks i (Settled m before))
          (λ _. Tracks i (Attempted before))
  record_failure-Settled stage e =
      Triple-bind (λ _. Tracks i (Halted stage before)) _ _
        (outside-Tracks m i (Halted stage before) (Attempted before) utc_now
          (Halted-Attempted stage before))
        λ now.
          update_item-Tracks m i (fail stage (message e) now) (Halted stage before)
            (Settled m before) (Attempted before) ((recorded m before) stage (message e) now)
            (λ item b. b.0)

  staged-Settled :
      (P : Item → Type 0) (stage : Stage) (next : Exec (Store World) (Unit {0}))
      (r : Result (Unit {0})) (s : Store World)
      → Ends (λ _. Tracks i P) (λ _. Tracks i (Halted stage before)) (r, s)
      → Triple
          (Tracks i P)
          next
          (λ _. Tracks i (Settled m before))
          (λ _. Tracks i (Attempted before))
      → Ends
          (λ _. Tracks i (Settled m before))
          (λ _. Tracks i (Attempted before))
          (staged m i stage r next s)
  staged-Settled P stage next (ok a) s p t = t.at s p
  staged-Settled P stage next (err e) s p t = elim (Bool-cases (is_caught e)) [
    | inl c ↦ rw c ((record_failure-Settled stage e).at s p)
    | inr c ↦
        rw c (
          Tracks-map i (Halted stage before) (Attempted before) (Halted-Attempted stage before) s p)
  ]

  then_stage-Settled :
      (P R : Item → Type 0) (stage : Stage) (body next : Exec (Store World) (Unit {0}))
      → Triple (Tracks i P) body (λ _. Tracks i R) (λ _. Tracks i (Halted stage before))
      → Triple
          (Tracks i R)
          next
          (λ _. Tracks i (Settled m before))
          (λ _. Tracks i (Attempted before))
      → Triple
          (Tracks i P)
          (then_stage m i stage body next)
          (λ _. Tracks i (Settled m before))
          (λ _. Tracks i (Attempted before))
  then_stage-Settled P R stage body next tb tn = record {
    at = λ s p. staged-Settled R stage next (body s).0 (body s).1 (tb.at s p) tn;
  }

  pub stages-Settled :
      Triple
        (Tracks i (Begun before))
        (stages m i before)
        (λ _. Tracks i (Settled m before))
        (λ _. Tracks i (Attempted before))
  unfolding stages
  stages-Settled =
      then_stage-Settled (Begun before) (Deployed m before) deployment _ _ deployment_stage-Deployed
        (then_stage-Settled (Deployed m before) (Validated m before) validation _ _
          validation_stage-Validated
          (then_stage-Settled (Validated m before) (Settled m before) rbac _ _ rbac_stage-Settled
            (Triple-pure tt λ s p. p)))
