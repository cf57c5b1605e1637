-- ===== src/Incident/Install.antt =====
-- The installation in `ensure_incident_workflow` of scripts/workshop.py, from the check that no
-- component is there on: the documents, the partition of the original plan, and the rollback.
-- What the saved state and the status report do is an interface.
use sre_agent_workshop.Prelude.{
  ℕ, Bool, true, false, not, none, some, List, [], ◌∷◌, ◌++◌, String, if◌then◌else◌,
}
use sre_agent_workshop.Prelude.Text.{◌<>◌, str_eq}
use sre_agent_workshop.Prelude.Search.{join}
use sre_agent_workshop.Exec.{
  Exec, Error, os_error, deployment_error, is_deployment, message, pure, raise, raise_if,
  try_except, ◌>>=◌, ◌>>◌,
}
use sre_agent_workshop.Tools.Machine.{Machine}
use sre_agent_workshop.Incident.Match.{response_plan_name, Component}
use sre_agent_workshop.Incident.Http.{Request, Reply, incident_optional_get}
use sre_agent_workshop.Incident.Write.{
  filter_path, is_null, disabled, Placed, Installed, module_path, incident_guarded_put,
  remove_incident_components,
}

-- `except (DeploymentError, OSError)`
abbrev pub is_rolled_back : Error → Bool
is_rolled_back (os_error _) = true
is_rolled_back e = is_deployment e

pub data Phase : Type 0 where
  prepared active partial : Phase

-- `incident_workflow_status`: whether the workflow matches its definition, and what is wrong
pub record Report : Type 0 where
  pub matches_definition : Bool
  pub problems : List String

-- `save_incident_state` with a phase, the status report, the evidence of a success, and the two files
-- that the removal unlinks.
pub record Records (m : Machine) : Type 0 where
  pub save : Phase → Exec m.World (Unit {0})
  pub status : Exec m.World Report
  pub write_evidence : Report → Exec m.World (Unit {0})
  pub unlink_state : Exec m.World (Unit {0})
  pub unlink_evidence : Exec m.World (Unit {0})

module _ (m : Machine) (send : Request → Exec m.World Reply) (attempts retry_seconds : ℕ)
    (records : Records m) where
  open m use {World}
  open records use {save, status, write_evidence, unlink_state, unlink_evidence}

  -- the skills, the agent and the module's plan, in the order of the documents
  abbrev pub documents_of : Installed → List Placed
  documents_of state =
      state.skills
      ++ state.agent
        ∷ record { path = module_path m send attempts retry_seconds; component = state.module_plan }
        ∷ []

  unfoldable pub check_absent : List Placed → Exec World (Unit {0})
  check_absent [] = pure tt
  check_absent (target ∷ targets) = do
    read ← incident_optional_get m send target.path false
    raise_if (not (is_null read.0)) (
        deployment_error
          "An incident component already exists without rollback state; refusing to replace it.")
    check_absent targets

  -- the module's plan is put switched off
  abbrev pub staged_component : Placed → Component
  staged_component target =
      if str_eq target.path (module_path m send attempts retry_seconds)
      then disabled target.component
      else target.component

  unfoldable pub put_documents : List Placed → Exec World (Unit {0})
  put_documents [] = pure tt
  put_documents (target ∷ targets) = do
    incident_guarded_put m send attempts retry_seconds target.path (staged_component target)
        (none ∷ [])
    put_documents targets

  abbrev pub checked_report : Report → Exec World Report
  checked_report report =
      if report.matches_definition
      then pure report
      else raise
          (deployment_error ("Incident workflow activation failed: " <> join " " report.problems))

  -- the body of the `try`
  unfoldable pub activate : Installed → Exec World Report
  activate state = do
    put_documents (documents_of state)
    incident_guarded_put m send attempts retry_seconds (filter_path response_plan_name)
        state.partitioned (some state.original ∷ [])
    incident_guarded_put m send attempts retry_seconds (module_path m send attempts retry_seconds)
        state.module_plan (some (disabled state.module_plan) ∷ [])
    save active
    found ← status
    report ← checked_report found
    write_evidence report
    pure report

  abbrev pub incomplete : Error → Error → Error
  incomplete error rollback_error = deployment_error (
      message error
      <> " Rollback is incomplete: "
      <> message rollback_error
      <> ". Run incident-workflow status and reconcile before retrying; do not enable an overlapping plan.")

  unfoldable pub remove_again : Installed → Exec World (Unit {0})
  remove_again state =
      remove_incident_components m send attempts retry_seconds unlink_state unlink_evidence state

  -- the `except` clause
  unfoldable pub roll_back : Installed → Error → Exec World Report
  roll_back state error = do
    save partial
    try_except (remove_again state) is_rolled_back
        (λ rollback_error. raise (incomplete error rollback_error))
    raise error

  unfoldable pub install_saved : Installed → Exec World Report
  install_saved state = try_except (activate state) is_rolled_back (roll_back state)

  unfoldable pub install : Installed → Exec World Report
  install state = do check_absent (documents_of state); save prepared; install_saved state
