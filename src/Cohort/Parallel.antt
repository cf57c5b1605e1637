-- ===== src/Cohort/Parallel.antt =====
-- `deploy_parallel` of scripts/cohort.py: threads that deploy one participant each.
-- A thread is a tree of atomic steps: a locked `update_item` of its item, or a call of the world
-- outside. A schedule is the order in which the threads take their steps; the pools of the
-- subscriptions allow some of the schedules.
pub mod Same
pub mod Safety
pub mod Progress
pub mod Schedules
mod Tests
use sre_agent_workshop.Prelude.{
  ℕ, zero, suc, ◌-◌, ◌==◌, Bool, true, false, ◌||◌, Option, none, some, List, [], ◌∷◌, String,
  get_elem?, modify, if◌then◌else◌,
}
use sre_agent_workshop.Exec.{Exec, Error, Result, ok, err, message}
use sre_agent_workshop.Tools.Machine.{Machine}
use sre_agent_workshop.Cohort.Model.{Item}
use sre_agent_workshop.Cohort.Access.{ensure_participant_access}
use sre_agent_workshop.Cohort.Store.{Store, outside, update_item}
use sre_agent_workshop.Cohort.Deploy.{
  Stage, deployment, validation, rbac, is_succeeded, is_caught, begin, begin_deployment,
  end_deployment, begin_validation, end_validation, begin_rbac, end_rbac, fail, set_duration,
  was_validated, validation_commands, azd_up, run_validation,
}

pub data Task (W : Type 0) : Type 1 where
  done : Result (Unit {0}) → Task W
  update : (Item → Item) → (Result (Unit {0}) → Task W) → Task W
  call : {B : Type 0} → Exec W B → (Result B → Task W) → Task W

module _ {W : Type 0} where
  -- on with the value, or to the handler with the error
  abbrev pub or_else :
      {B : Type 0} → Result B → (Result (Unit {0}) → Task W) → (B → Task W) → Task W
  or_else (ok b) handler f = f b
  or_else (err e) handler f = handler (err e)

module _ (m : Machine) where
  open m use {World, monotonic, utc_now, round_tenths}

  -- what is done with how a part has ended
  abbrev pub After : Type 1
  After = Result (Unit {0}) → Task World

  abbrev pub deployment_task : Item → After → Task World
  deployment_task item k =
      if is_succeeded item.deployment
      then k (ok tt)
      else update begin_deployment (λ r.
        or_else r k
          (λ _. call (azd_up m item.environment) (λ r. or_else r k (λ _. update end_deployment k))))

  abbrev pub validation_task : Item → After → Task World
  validation_task item k =
      if was_validated item
      then k (ok tt)
      else update begin_validation (λ r. or_else r k (λ _.
        call (run_validation m validation_commands item.environment)
          (λ r. or_else r k (λ _. update end_validation k))))

  abbrev pub rbac_task : Item → After → Task World
  rbac_task item k = update begin_rbac (λ r. or_else r k (λ _.
      call (ensure_participant_access m item)
        (λ r. or_else r k (λ _. call utc_now (λ r. or_else r k (λ now. update (end_rbac now) k))))))

  abbrev pub failure_task : Stage → Error → After → Task World
  failure_task stage error k =
      call utc_now (λ r. or_else r k (λ now. update (fail stage (message error) now) k))

  abbrev pub stage_ended : Stage → (After → Task World) → After → After
  stage_ended stage next k (ok _) = next k
  stage_ended stage next k (err error) =
      if is_caught error then failure_task stage error k else k (err error)

  abbrev pub last_part : After → Task World
  last_part k = k (ok tt)

  abbrev pub rbac_part : Item → After → Task World
  rbac_part item k = rbac_task item (stage_ended rbac last_part k)

  abbrev pub validation_part : Item → After → Task World
  validation_part item k = validation_task item (stage_ended validation (rbac_part item) k)

  abbrev pub stages_task : Item → After → Task World
  stages_task item k = deployment_task item (stage_ended deployment (validation_part item) k)

  abbrev pub finally_task : ℕ → After
  finally_task started r = call monotonic (λ e. or_else e done (λ ended.
      update (set_duration (round_tenths (ended - started))) (λ u. or_else u done (λ _. done r))))

  -- `deploy_participant`
  unfoldable pub deploy_task : Item → Task World
  deploy_task item = call monotonic (λ r. or_else r done (λ started. call utc_now (λ r.
      or_else r done (λ now.
        update (begin now) (λ r. or_else r done (λ _. stages_task item (finally_task started)))))))

  -- the next step of the thread at this position
  abbrev pub advance : ℕ → Task World → Store World → Task World × Store World
  advance i (done r) s = (done r, s)
  advance i (update f k) s = let (r, s') = update_item m i f s in (k r, s')
  advance i (call a k) s = let (r, s') = outside a s in (k r, s')

  -- all steps of one thread, one after the other
  unfoldable pub run_alone : ℕ → Task World → Exec (Store World) (Unit {0})
  run_alone i (done r) s = (r, s)
  run_alone i (update f k) s = let (r, s') = update_item m i f s in run_alone i (k r) s'
  run_alone i (call a k) s = let (r, s') = outside a s in run_alone i (k r) s'

  abbrev pub Threads : Type 1
  Threads = List (Task World) × Store World

  abbrev pub step_of : ℕ → Option (Task World) → Threads → Threads
  step_of i none (tasks, s) = (tasks, s)
  step_of i (some task) (tasks, s) =
      let (task', s') = advance i task s in (modify tasks i (λ _. task'), s')

  abbrev pub step : ℕ → Threads → Threads
  step i (tasks, s) = step_of i (get_elem? tasks i) (tasks, s)

  -- the threads take their steps in the order of the schedule
  unfoldable pub interleave : List ℕ → Threads → Threads
  interleave [] threads = threads
  interleave (i ∷ schedule) threads = interleave schedule (step i threads)

abbrev pub is_pending : ℕ → List ℕ → Bool
is_pending i [] = false
is_pending i (j ∷ pending) = i == j || is_pending i pending

-- a thread for each participant, from this position on; one that is not pending has nothing to do
abbrev pub tasks_from : (m : Machine) → List ℕ → ℕ → List Item → List (Task m.World)
tasks_from m pending i [] = []
tasks_from m pending i (item ∷ items) =
    (if is_pending i pending then deploy_task m item else done (ok tt))
    ∷ tasks_from m pending (suc i) items

-- how often a schedule names a thread
abbrev pub turns : ℕ → List ℕ → ℕ
turns i [] = 0
turns i (j ∷ schedule) = let rest = turns i schedule in if j == i then suc rest else rest

-- The threads of `deploy_parallel`, one for each participant at a pending position, in this schedule.
-- What it raises once they have ended is not followed.
unfoldable pub deploy_parallel : (m : Machine) → List ℕ → List ℕ → Store m.World → Threads m
deploy_parallel m schedule pending s =
    interleave m schedule (tasks_from m pending 0 s.state.participants, s)
