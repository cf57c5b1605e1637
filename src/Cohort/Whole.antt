-- ===== src/Cohort/Whole.antt =====
-- `deploy` of scripts/cohort.py: which participants are deployed, and what is reported at the end.
-- `deploy_parallel` is a parameter here: what its threads may do together is in Cohort.Parallel.
use sre_agent_workshop.Prelude.{
  ℕ, zero, suc, ◌+◌, leb, ◌==◌, Bool, true, false, not, ◌&&◌, Option, none, some, List, [], ◌∷◌,
  ◌++◌, String, length, if◌then◌else◌,
}
use sre_agent_workshop.Prelude.Text.{◌<>◌, decimal}
use sre_agent_workshop.Exec.{
  Exec, Error, Result, ok, err, cohort_error, is_deployment, message, pure, raise, raise_if, do_if,
  ◌>>=◌, ◌>>◌,
}
use sre_agent_workshop.Tools.Machine.{Machine}
use sre_agent_workshop.Cohort.Model.{Item, Deployment, Rbac, Status}
use sre_agent_workshop.Cohort.Store.{Store, outside, item_at, update_item}
use sre_agent_workshop.Cohort.Plan.{DeployArguments, load_or_create_state}
use sre_agent_workshop.Cohort.Access.{ensure_participant_access}
use sre_agent_workshop.Cohort.Resolve.{resolve_subscriptions}
use sre_agent_workshop.Cohort.Environments.{
  azd_environment_names, ensure_environment, configure_existing,
}
use sre_agent_workshop.Cohort.Preflight.{Checks, preflight}

abbrev pub is_ready : Status → Bool
is_ready Status.ready = true
is_ready _ = false

-- the classes that the loop of `deploy` catches
abbrev pub is_expected : Error → Bool
is_expected (cohort_error _) = true
is_expected e = is_deployment e

abbrev pub access_failed : String → Item → Item
access_failed why item = record item {
  rbac = Rbac.failed;
  status = Status.failed;
  error = some why;
}

abbrev pub access_kept : Item → Item
access_kept item = record item { rbac = Rbac.granted; error = none }

abbrev pub not_configured : String → Item → Item
not_configured why item = record item {
  deployment = Deployment.failed;
  status = Status.failed;
  error = some why;
}

-- `[item for item in state["participants"] if item["status"] != "Ready"]`
abbrev pub count_failures : List Item → ℕ
count_failures [] = 0
count_failures (item ∷ items) =
    let rest = count_failures items in if is_ready item.status then rest else suc rest

-- what the loop carries: the names of the azd environments, and the positions to deploy
pub record Progress : Type 0 where
  pub existing : List String
  pub pending : List ℕ

abbrev pub is_none : List ℕ → Bool
is_none [] = true
is_none (_ ∷ _) = false

module _ (m : Machine) where
  open m use {World}

  abbrev pub access_checked : ℕ → Result (Unit {0}) → Exec (Store World) Bool
  access_checked i (ok _) = update_item m i access_kept >> pure true
  access_checked i (err error) =
      if is_expected error
      then update_item m i (access_failed (message error)) >> pure false
      else raise error

  -- `ensure_participant_access` of a participant that is ready: whether it is still
  unfoldable pub keep_ready : ℕ → Item → Exec (Store World) Bool
  keep_ready i item s =
      let (r, s') = outside (ensure_participant_access m item) s in access_checked i r s'

  abbrev pub still_ready : ℕ → Item → Exec (Store World) Bool
  still_ready i item = if is_ready item.status then keep_ready i item else pure false

  abbrev pub add_pending : ℕ → List String → Progress → Progress
  add_pending i existing p = record { existing = existing; pending = p.pending ++ i ∷ [] }

  -- The environment of a participant: a name that has been created stays in the set, also where
  -- what follows raises.
  abbrev pub configured :
      ℕ → Progress → List String → Result (Unit {0}) → Exec (Store World) Progress
  configured i p existing (ok _) = pure (add_pending i existing p)
  configured i p existing (err error) =
      if is_expected error
      then update_item m i (not_configured (message error))
        >> pure (record p { existing = existing })
      else raise error

  abbrev pub attempt_values : ℕ → Item → Progress → List String → Exec (Store World) Progress
  attempt_values i item p existing s =
      let (r, s') = outside (configure_existing m s.state.location s.state.vm_size item) s in
      configured i p existing r s'

  abbrev pub attempt_environment :
      ℕ → Item → Progress → Result (List String) → Exec (Store World) Progress
  attempt_environment i item p (ok existing) = attempt_values i item p existing
  attempt_environment i item p (err error) = configured i p p.existing (err error)

  unfoldable pub configure_environment : ℕ → Item → Progress → Exec (Store World) Progress
  configure_environment i item p s =
      let (r, s') = outside (ensure_environment m s.state.location item p.existing) s in
      attempt_environment i item p r s'

  abbrev pub unless_ready : ℕ → Item → Progress → Bool → Exec (Store World) Progress
  unless_ready i item p true = pure p
  unless_ready i item p false = configure_environment i item p

  unfoldable pub prepare_item : ℕ → Item → Progress → Exec (Store World) Progress
  prepare_item i item p = do ready ← still_ready i item; unless_ready i item p ready

  abbrev pub prepare_at : ℕ → Option Item → Progress → Exec (Store World) Progress
  prepare_at i none p = pure p
  prepare_at i (some item) p = prepare_item i item p

  -- the loop over the positions from this one on
  unfoldable pub prepare_from : ℕ → ℕ → Progress → Exec (Store World) Progress
  prepare_from zero i p s = (ok p, s)
  prepare_from (suc count) i p s =
      (do next ← prepare_at i (item_at i s) p; prepare_from count (i + 1) next) s

  unfoldable pub report_failures : Exec (Store World) (Unit {0})
  report_failures s =
      raise_if (not (count_failures s.state.participants == 0))
        (cohort_error (
          decimal (count_failures s.state.participants)
          <> " participant environment(s) are not ready."))
        s

  -- `deploy` behind the saved state
  unfoldable pub deploy_loaded :
      (List ℕ → Exec (Store World) (Unit {0})) → List String → Exec (Store World) (Unit {0})
  deploy_loaded deploy_parallel existing s =
      (do
        p ←
            prepare_from (length s.state.participants) 0
              (record { existing = existing; pending = [] })
        do_if (not (is_none p.pending)) (deploy_parallel p.pending)
        report_failures)
        s

  unfoldable pub deploy :
      Checks m
      → (List ℕ → Exec (Store World) (Unit {0}))
      → DeployArguments
      → Exec (Store World) (Unit {0})
  deploy checks deploy_parallel args = do
    raise_if (not (leb 1 args.parallel_per_subscription && leb args.parallel_per_subscription 3))
        (cohort_error "--parallel-per-subscription must be between 1 and 3.")
    subscriptions ← outside (resolve_subscriptions m args.subscriptions)
    load_or_create_state m args subscriptions
    preflight m checks
    existing ← outside (azd_environment_names m)
    deploy_loaded deploy_parallel existing
