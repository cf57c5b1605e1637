-- ===== src/Faults/Actions.antt =====
-- `fault` of scripts/workshop.py: the faults that an operator injects, resets and looks at.
use sre_agent_workshop.Prelude.{
  ℕ, leb, Bool, true, false, not, ◌&&◌, Option, none, some, List, [], ◌∷◌, String, if◌then◌else◌,
}
use sre_agent_workshop.Prelude.Int.{ℤ, pos, negsuc}
use sre_agent_workshop.Prelude.Text.{◌<>◌, str_eq, strip, parse_int}
use sre_agent_workshop.Exec.{
  Exec, Result, ok, err, deployment_error, is_deployment, message, pure, raise, lift, do_if,
  try_except, ◌>>=◌, ◌>>◌,
}
use sre_agent_workshop.Json.{boolean, text, Fields, end, field, put, merge}
use sre_agent_workshop.Tools.Machine.{Machine}
use sre_agent_workshop.Tools.Monitoring.{Values}
use sre_agent_workshop.Faults.Rule.{
  Access, allow, deny, FaultStatus, postgresql_fault_status, deploy_postgresql_fault,
}
use sre_agent_workshop.Faults.Command.{vm_fault}
use sre_agent_workshop.Faults.Desk.{Desk, away, write_report, remove_report}

pub data FaultAction : Type 0 where
  cpu postgresql status reset reset_cpu reset_postgresql : FaultAction

unfoldable pub action_of : String → Option FaultAction
action_of s =
    if str_eq s "cpu"
    then some cpu
    else if str_eq s "postgresql"
    then some postgresql
    else if str_eq s "status"
    then some status
    else if str_eq s "reset"
    then some reset
    else if str_eq s "reset-cpu"
    then some reset_cpu
    else if str_eq s "reset-postgresql"
    then some reset_postgresql
    else none

abbrev pub action_name : FaultAction → String
action_name cpu = "cpu"
action_name postgresql = "postgresql"
action_name status = "status"
action_name reset = "reset"
action_name reset_cpu = "reset-cpu"
action_name reset_postgresql = "reset-postgresql"

-- the actions that leave a partial report
abbrev pub has_partial : FaultAction → Bool
has_partial postgresql = true
has_partial reset_postgresql = true
has_partial reset = true
has_partial _ = false

abbrev pub report_of : FaultAction → String
report_of action = "fault-" <> action_name action <> ".json"

abbrev pub partial_of : FaultAction → String
partial_of action = "fault-" <> action_name action <> "-partial.json"

-- the dictionary of `postgresql_fault_status`
abbrev pub fault_fields : FaultStatus → Fields
fault_fields s =
    field "postgresql" (text (if s.is_active then "active" else "inactive"))
      (field "postgresqlAccess" (text (access_name s.access)) end)
  where
    access_name : Access → String
    access_name allow = "Allow"
    access_name deny = "Deny"

-- `{**known, "ok": False, "verification": "failed", "error": why}`
abbrev pub partial_fields : Fields → String → Fields
partial_fields known why = merge known (
    field "ok" (boolean false)
      (field "verification" (text "failed") (field "error" (text why) end)))

abbrev pub cons_number : Option ℤ → Option (List ℤ) → Option (List ℤ)
cons_number (some n) (some numbers) = some (n ∷ numbers)
cons_number _ _ = none

-- `[int(value) for value in arguments]`
unfoldable pub numbers_in : List String → Option (List ℤ)
numbers_in [] = some []
numbers_in (s ∷ arguments) = cons_number (parse_int (strip s)) (numbers_in arguments)

-- `+ list(defaults[len(arguments):])`
abbrev pub with_defaults : List ℤ → List ℤ
with_defaults [] = pos 300 ∷ pos 2 ∷ []
with_defaults (seconds ∷ []) = seconds ∷ pos 2 ∷ []
with_defaults numbers = numbers

abbrev pub is_between : ℕ → ℕ → ℤ → Bool
is_between low high (pos n) = leb low n && leb n high
is_between low high (negsuc _) = false

abbrev pub check_numbers : List ℤ → Result (List ℤ)
check_numbers (seconds ∷ workers ∷ []) =
    if not (is_between 10 1800 seconds)
    then err (deployment_error "cpu argument must be between 10 and 1800.")
    else if not (is_between 1 8 workers)
    then err (deployment_error "cpu argument must be between 1 and 8.")
    else ok (seconds ∷ workers ∷ [])
check_numbers numbers = ok numbers

abbrev pub parsed_numbers : Option (List ℤ) → Result (List ℤ)
parsed_numbers none = err (deployment_error "CPU fault arguments must be integers.")
parsed_numbers (some numbers) = check_numbers (with_defaults numbers)

abbrev pub too_many : List String → Bool
too_many (_ ∷ _ ∷ _ ∷ _) = true
too_many _ = false

unfoldable pub cpu_arguments : List String → Result (List ℤ)
cpu_arguments arguments =
    if too_many arguments
    then err (deployment_error "Too many arguments for cpu.")
    else parsed_numbers (numbers_in arguments)

module _ (m : Machine) (values : Values) where
  open m use {World}

  -- `try: check()`; where it raises a `DeploymentError`, what is known is written as a partial
  -- report, and another `DeploymentError` tells the operator what to do
  unfoldable pub verify_or_report :
      FaultAction → Fields → String → Exec World Fields → Exec (Desk World) Fields
  verify_or_report action known advice check = try_except (away check) is_deployment (λ error.
      write_report m values (partial_of action) (partial_fields known (message error))
      >> raise (deployment_error advice))

  unfoldable pub inject_postgresql : Exec (Desk World) Fields
  inject_postgresql = do
    away (vm_fault m values "status" [])
    rule ← away (deploy_postgresql_fault m values true)
    application ←
        verify_or_report postgresql (fault_fields rule)
          "The NSG rule is verified as Deny, but the Orders API recycle did not prove controlled PostgreSQL failure. The operation is partial; run `python scripts/workshop.py fault status`, then retry this action or run `fault reset-postgresql`."
          (vm_fault m values "postgresql-denied" [])
    pure (merge (fault_fields rule) application)

  abbrev pub recovery_advice : FaultAction → String
  recovery_advice action =
      "The NSG rule is verified as Allow, but the Orders API recycle did not prove PostgreSQL recovery. The operation is partial; run `python scripts/workshop.py fault status`, then retry `fault "
      <> action_name action
      <> "`."

  -- the part that `reset` and `reset-postgresql` share
  unfoldable pub recover_postgresql : FaultAction → Exec (Desk World) Fields
  recover_postgresql action = do
    rule ← away (deploy_postgresql_fault m values false)
    application ←
        verify_or_report action (fault_fields rule) (recovery_advice action)
          (vm_fault m values "postgresql-ready" [])
    pure (merge (fault_fields rule) application)

  unfoldable pub reset_all : Exec (Desk World) Fields
  reset_all = do
    result ← recover_postgresql reset
    rest ←
        verify_or_report reset result
          "PostgreSQL recovery is verified, but the all-scenarios reset did not verify CPU cleanup. Run `fault status`, then retry `fault reset` or use `fault reset-cpu`."
          (vm_fault m values "reset" [])
    pure (merge result rest)

  -- `{**vm_fault(...), **postgresql_fault_status(values)}`
  unfoldable pub with_rule : Exec World Fields → Exec World Fields
  with_rule check = do
    result ← check
    rule ← postgresql_fault_status m values
    pure (merge result (fault_fields rule))

  unfoldable pub inject_cpu : List String → Exec World Fields
  inject_cpu arguments = do
    numbers ← lift (cpu_arguments arguments)
    with_rule (vm_fault m values "cpu" numbers)

  unfoldable pub look_status : Exec World Fields
  look_status = do
    rule ← postgresql_fault_status m values
    result ← vm_fault m values "postgresql-status" []
    pure (merge (fault_fields rule) result)

  abbrev pub no_arguments :
      FaultAction → List String → Exec (Desk World) Fields → Exec (Desk World) Fields
  no_arguments action [] body = body
  no_arguments action (_ ∷ _) body =
      raise (deployment_error (action_name action <> " does not accept additional arguments."))

  abbrev pub perform : FaultAction → List String → Exec (Desk World) Fields
  perform cpu arguments = away (inject_cpu arguments)
  perform postgresql arguments = no_arguments postgresql arguments inject_postgresql
  perform reset_postgresql arguments =
      no_arguments reset_postgresql arguments (recover_postgresql reset_postgresql)
  perform reset arguments = no_arguments reset arguments reset_all
  perform reset_cpu arguments =
      no_arguments reset_cpu arguments (away (with_rule (vm_fault m values "reset" [])))
  perform status arguments = no_arguments status arguments (away look_status)

  abbrev pub succeeded : Fields → Fields
  succeeded result = put "ok" (boolean true) result

  -- the reports of an action that has succeeded
  unfoldable pub report : FaultAction → Fields → Exec (Desk World) Fields
  report action result = do
    do_if (has_partial action) (remove_report m values (partial_of action))
    write_report m values (report_of action) result
    pure result

  unfoldable pub act : FaultAction → List String → Exec (Desk World) Fields
  act action arguments = do result ← perform action arguments; report action (succeeded result)

  abbrev pub act_if : Option FaultAction → List String → Exec (Desk World) Fields
  act_if none arguments = raise (
      deployment_error
        "Fault action must be cpu, postgresql, status, reset-cpu, reset-postgresql, or reset.")
  act_if (some action) arguments = act action arguments

  unfoldable pub fault : String → List String → Exec (Desk World) Fields
  fault action arguments = act_if (action_of action) arguments
