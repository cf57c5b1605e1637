-- ===== src/Faults/Confirmed.antt =====
-- How an injection or a recovery of scripts/workshop.py may end: confirmed by the virtual machine, or
-- interrupted.
use sre_agent_workshop.Prelude.{◌≡◌, ◌⊎◌, Bool, true, false, [], String}
use sre_agent_workshop.Exec.{Error, ok, err, message, is_deployment}
use sre_agent_workshop.Json.{Fields, merge}
use sre_agent_workshop.Tools.Machine.{Machine}
use sre_agent_workshop.Tools.Monitoring.{Values}
use sre_agent_workshop.Faults.Rule.{FaultStatus, deploy_postgresql_fault}
use sre_agent_workshop.Faults.Verified.{IsShown}
use sre_agent_workshop.Faults.Command.{vm_fault}
use sre_agent_workshop.Faults.Correlated.{IsVerified}
use sre_agent_workshop.Faults.Desk.{File, broken, holds, stored, state_directory}
use sre_agent_workshop.Faults.Actions.{FaultAction, partial_of, partial_fields, fault_fields}

module _ (m : Machine) (values : Values) where
  open m use {World}

  -- The result joins the state of the rule, as Azure has shown it last, and the answer of the virtual
  -- machine to this command, which is the last that was asked for.
  pub record IsConfirmed (active : Bool) (command : String) (result : Fields) (end : World)
      : Type 0 where
    pub rule : FaultStatus
    pub middle : World
    pub shown : IsShown m values rule middle
    pub reached : rule.is_active ≡ active
    pub application : Fields
    pub answered : vm_fault m values command [] middle ≡ (ok application, end)
    pub verified : IsVerified application
    pub joined : result ≡ merge (fault_fields rule) application

  -- What is left where the virtual machine has not confirmed a command for this cause: the partial
  -- report with the cause; a part of it; nothing, as the directory could not be made; or nothing,
  -- as the cause is no `DeploymentError` and is raised on.
  pub data Left (before : String → File) (action : FaultAction) (known : Fields) (cause e : Error)
      (files : String → File) : Type 0 where
    explained :
        files ≡ stored (partial_of action) (holds (partial_fields known (message cause))) before
        → is_deployment e ≡ true
        → Left before action known cause e files
    cut_off :
        files ≡ stored (partial_of action) broken before → Left before action known cause e files
    no_directory :
        (w : World)
        → (state_directory m values w).0 ≡ err e
        → files ≡ before
        → Left before action known cause e files
    raised_on :
        is_deployment cause ≡ false
        → e ≡ cause
        → files ≡ before
        → Left before action known cause e files

  -- An action on the rule that does not end confirmed. It has stopped before the virtual machine was
  -- asked to confirm anything, or the command has raised behind a look that has shown the rule in
  -- the wanted state.
  pub data Interrupted (before : String → File) (action : FaultAction) (active : Bool)
      (command : String) (e : Error) (files : String → File) : Type 0 where
    not_asked :
        (w : World)
        → ((vm_fault m values "status" [] w).0 ≡ err e)
          ⊎ ((deploy_postgresql_fault m values active w).0 ≡ err e)
        → files ≡ before
        → Interrupted before action active command e files
    unconfirmed :
        (rule : FaultStatus) (middle : World) (cause : Error)
        → IsShown m values rule middle
        → rule.is_active ≡ active
        → (vm_fault m values command [] middle).0 ≡ err cause
        → Left before action (fault_fields rule) cause e files
        → Interrupted before action active command e files
