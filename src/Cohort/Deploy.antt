-- ===== src/Cohort/Deploy.antt =====
-- `run_logged` and `deploy_participant` of scripts/cohort.py: the stages of one participant.
use sre_agent_workshop.Prelude.{
  ◌||◌, ◌==◌, ℕ, zero, ◌+◌, ◌-◌, Bool, true, false, ◌&&◌, Option, none, some, List, [], ◌∷◌, String,
  if◌then◌else◌,
}
use sre_agent_workshop.Prelude.Int.{ℤ, pos}
use Prim.Native.Char.{code}
use sre_agent_workshop.Prelude.Text.{◌<>◌, decimal_int, has_char}
use sre_agent_workshop.Exec.{
  Exec, Error, Result, ok, err, os_error, key_error, type_error, value_error, cohort_error,
  is_deployment, message, pure, raise, handle, ◌>>=◌, ◌>>◌,
}
use sre_agent_workshop.Tools.Machine.{Machine}
use sre_agent_workshop.Cohort.Model.{Item, Deployment, Validation, Rbac, Status}
use sre_agent_workshop.Cohort.Store.{Store, outside, item_at, update_item}
use sre_agent_workshop.Cohort.Access.{ensure_participant_access}

abbrev pub is_succeeded : Deployment → Bool
is_succeeded Deployment.succeeded = true
is_succeeded _ = false

abbrev pub is_passed : Validation → Bool
is_passed Validation.passed = true
is_passed _ = false

pub data Stage : Type 0 where
  deployment validation rbac : Stage

-- the classes that `deploy_participant` catches
abbrev pub is_caught : Error → Bool
is_caught (cohort_error _) = true
is_caught (os_error _) = true
is_caught (key_error _) = true
is_caught (type_error _) = true
is_caught (value_error _) = true
is_caught e = is_deployment e

-- The changes that `deploy_participant` makes to its item, in order.
abbrev pub begin : String → Item → Item
begin now item = record item { attempts = item.attempts + 1; error = none; started_utc = some now }

abbrev pub begin_deployment : Item → Item
begin_deployment item = record item {
  deployment = Deployment.running;
  validation = Validation.pending;
  rbac = Rbac.pending;
  status = Status.deploying;
}

abbrev pub end_deployment : Item → Item
end_deployment item = record item {
  deployment = Deployment.succeeded;
  validation = Validation.pending;
  status = Status.validating;
}

abbrev pub begin_validation : Item → Item
begin_validation item = record item {
  validation = Validation.running;
  rbac = Rbac.pending;
  status = Status.validating;
}

abbrev pub end_validation : Item → Item
end_validation item = record item { validation = Validation.passed }

abbrev pub begin_rbac : Item → Item
begin_rbac item = record item { rbac = Rbac.running; status = Status.assigning_rbac }

abbrev pub end_rbac : String → Item → Item
end_rbac now item = record item {
  rbac = Rbac.granted;
  status = Status.ready;
  completed_utc = some now;
}

abbrev pub fail_stage : Stage → Item → Item
fail_stage deployment item = record item { deployment = Deployment.failed }
fail_stage validation item = record item { validation = Validation.failed }
fail_stage rbac item = record item { rbac = Rbac.failed }

abbrev pub fail : Stage → String → String → Item → Item
fail stage why now item =
    fail_stage stage
      (record item { status = Status.failed; error = some why; completed_utc = some now })

abbrev pub set_duration : ℕ → Item → Item
set_duration tenths item = record item { duration_seconds = some tenths }

-- `validation_passed`, computed before anything is done
abbrev pub was_validated : Item → Bool
was_validated item = is_succeeded item.deployment && is_passed item.validation

abbrev pub validation_commands : List (List String)
validation_commands =
    ("smoke" ∷ []) ∷ ("inspect" ∷ []) ∷ ("telemetry" ∷ []) ∷ ("fault" ∷ "status" ∷ []) ∷ []

-- `Path(s).name`, where the path does not end in a slash
unfoldable pub base_name : String → String
base_name String.[] = ""
base_name (String.◌∷◌ c s) =
    let rest = base_name s in if code c == 47 || has_char 47 s then rest else String.◌∷◌ c s

abbrev head_of : List String → String
head_of [] = ""
head_of (command ∷ _) = command

module _ (m : Machine) where
  open m use {World, run_process, monotonic, round_tenths, utc_now, executable, workshop_script}

  abbrev checked : String → ℤ × String → Exec World (Unit {0})
  checked name (pos zero, tail) = pure tt
  checked name (code, tail) =
      raise (cohort_error (name <> " exited with code " <> decimal_int code <> ".\n" <> tail))

  -- an exit code other than 0 is a `CohortError` with the last thirty lines
  unfoldable pub run_logged : List String → String → Exec World (Unit {0})
  run_logged command environment = do
    ended ← run_process command environment
    checked (base_name (head_of command)) ended

  unfoldable pub run_validation : List (List String) → String → Exec World (Unit {0})
  run_validation [] environment = pure tt
  run_validation (arguments ∷ rest) environment = do
    run_logged (executable ∷ workshop_script ∷ arguments) environment
    run_validation rest environment

  unfoldable pub azd_up : String → Exec World (Unit {0})
  azd_up environment =
      run_logged ("azd" ∷ "up" ∷ "--no-prompt" ∷ "--environment" ∷ environment ∷ []) environment

  unfoldable pub deployment_stage : ℕ → Item → Exec (Store World) (Unit {0})
  deployment_stage i item = if is_succeeded item.deployment then pure tt else (do
    update_item m i begin_deployment
    outside (azd_up item.environment)
    update_item m i end_deployment)

  unfoldable pub validation_stage : ℕ → Item → Exec (Store World) (Unit {0})
  validation_stage i item = if was_validated item then pure tt else (do
    update_item m i begin_validation
    outside (run_validation validation_commands item.environment)
    update_item m i end_validation)

  unfoldable pub rbac_stage : ℕ → Item → Exec (Store World) (Unit {0})
  rbac_stage i item = do
    update_item m i begin_rbac
    outside (ensure_participant_access m item)
    now ← outside utc_now
    update_item m i (end_rbac now)

  -- the `except` clause, in the stage that has raised
  abbrev pub record_failure : ℕ → Stage → Error → Exec (Store World) (Unit {0})
  record_failure i stage error = do
    now ← outside utc_now
    update_item m i (fail stage (message error) now)

  -- one stage of the `try`: what it raises is handled with its name, and ends the `try`
  abbrev pub staged :
      ℕ → Stage → Result (Unit {0}) → Exec (Store World) (Unit {0}) → Exec (Store World) (Unit {0})
  staged i stage (ok _) next s = next s
  staged i stage (err e) next s = handle is_caught (record_failure i stage) (err e) s

  abbrev pub then_stage :
      ℕ
      → Stage
      → Exec (Store World) (Unit {0})
      → Exec (Store World) (Unit {0})
      → Exec (Store World) (Unit {0})
  then_stage i stage body next s = let (r, s') = body s in staged i stage r next s'

  unfoldable pub stages : ℕ → Item → Exec (Store World) (Unit {0})
  stages i item = then_stage i deployment (deployment_stage i item) (
      then_stage i validation (validation_stage i item)
        (then_stage i rbac (rbac_stage i item) (pure tt)))

  -- the `finally` clause: what it raises takes the place of what was raised before
  abbrev pub finally : ℕ → ℕ → Result (Unit {0}) → Exec (Store World) (Unit {0})
  finally i started r = do
    ended ← outside monotonic
    update_item m i (set_duration (round_tenths (ended - started)))
    (λ s. (r, s))

  unfoldable pub deploy_item : ℕ → Item → Exec (Store World) (Unit {0})
  deploy_item i item = do
    started ← outside monotonic
    now ← outside utc_now
    update_item m i (begin now)
    (λ s. let (r, s') = stages i item s in finally i started r s')

  abbrev pub of_item : ℕ → Option Item → Exec (Store World) (Unit {0})
  of_item i none = pure tt
  of_item i (some item) = deploy_item i item

  -- The item is read once: the fields that later code reads are its own, and no other thread
  -- changes them.
  unfoldable pub deploy_participant : ℕ → Exec (Store World) (Unit {0})
  deploy_participant i s = of_item i (item_at i s) s
