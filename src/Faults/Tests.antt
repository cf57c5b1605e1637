-- ===== src/Faults/Tests.antt =====
-- A machine with the fault rule in place, on which the theorems about the rule are applied.
use sre_agent_workshop.Prelude.{
  Option, List, false, String, ℕ, ◌+◌, ◌≡◌, refl, true, some, [], ◌∷◌, if◌then◌else◌,
}
use sre_agent_workshop.Prelude.Int.{pos}
use sre_agent_workshop.Prelude.Text.{str_eq, ◌<>◌, one_of, strip}
use sre_agent_workshop.Exec.{ok}
use sre_agent_workshop.Json.{Value, Fields, int, object, field, end, text, get}
use sre_agent_workshop.Tools.Lab.{lab}
use sre_agent_workshop.Tools.Machine.{Machine, finished}
use sre_agent_workshop.Tools.Cli.{cli, az, command_of, output_of, json_of}
use sre_agent_workshop.Tools.Monitoring.{Values, required}
use sre_agent_workshop.Faults.Rule.{
  deny, status_of, is_number, check_rule, status_of_rule, show_rule, postgresql_fault_status,
  deploy_rule, deploy_postgresql_fault,
}
use sre_agent_workshop.Exec.Triple.{Ends}
use sre_agent_workshop.Prelude.Text.{splitlines, after_prefix, ends_with, parse_int}
use sre_agent_workshop.Prelude.Search.{join}
use sre_agent_workshop.Json.{boolean, array, cons, nil}
use sre_agent_workshop.VmFaults.Cli.{cpu_numbers}
use sre_agent_workshop.Faults.Command.{run_result, messages_of, has_failed, records_in}
use sre_agent_workshop.Faults.Correlated.{
  IsCorrelated, run_result-IsCorrelated, cpu_arguments_accepted,
}
use sre_agent_workshop.Faults.Desk.{Desk, absent}
use sre_agent_workshop.Faults.Actions.{
  postgresql, reset, cpu_arguments, numbers_in, act, inject_postgresql, recover_postgresql,
}
use sre_agent_workshop.Faults.Outcome.{Reported, NotReported, act-Ends}
use sre_agent_workshop.Faults.Confirmed.{IsConfirmed, Interrupted}
use sre_agent_workshop.Faults.Partial.{inject_postgresql-Ends, recover_postgresql-Ends}
use sre_agent_workshop.Faults.Verified.{IsShown, deploy_postgresql_fault-IsShown}

abbrev denied : Fields
denied = field "priority" (int (pos 100)) (
    field "direction" (text "Outbound") (
      field "protocol" (text "Tcp") (
        field "sourceAddressPrefix" (text "10.240.0.0/27") (
          field "sourcePortRange" (text "*") (
            field "destinationAddressPrefix" (text "10.240.0.32/27")
              (field "destinationPortRange" (text "5432") (field "access" (text "Deny") end)))))))

abbrev request_id : String
request_id = "0123456789abcdef0123456789abcdef"

abbrev vm_answer : Value
vm_answer = object (
    field "value"
      (array (
        cons
          (object (
            field "code" (text "ComponentStatus/StdOut/succeeded") (
              field "message" (text ("starting\nWORKSHOP_RESULT:" <> request_id <> ":done\n"))
                end)))
          nil))
      end)

abbrev vm_result : Fields
vm_result = field "ok" (boolean true) (field "cpu" (text "inactive") end)

abbrev answer : List String → String
answer command =
    if one_of "show" command then "rule" else if one_of "run-command" command then "vm" else ""

abbrev parse : String → Option Value
parse s =
    if str_eq s "done"
    then some (object vm_result)
    else if str_eq s "vm"
    then some vm_answer
    else some (object denied)

abbrev azure : Machine
azure = record lab {
  run = λ command timeout w. (ok (finished (pos 0) (answer command) ""), w + 1);
  json_loads = parse;
  sleep = λ d w. (ok tt, w + d);
}

abbrev environment : Values
environment =
    ("RESOURCE_GROUP", "rg-07")
    ∷ ("NETWORK_SECURITY_GROUP_NAME", "nsg-orders")
    ∷ ("POSTGRESQL_FAULT_RULE_NAME", "deny-postgresql")
    ∷ ("AZURE_SUBSCRIPTION_ID", "s-1")
    ∷ []

injected : (deploy_postgresql_fault azure environment true 0).0 ≡ ok (status_of deny)
unfolding deploy_postgresql_fault deploy_rule postgresql_fault_status show_rule status_of_rule
    check_rule is_number required az cli command_of output_of json_of strip get
injected = refl

deploy_postgresql_fault-IsShown_example :
    IsShown azure environment (status_of deny) (deploy_postgresql_fault azure environment true 0).1
    × ((status_of deny).is_active ≡ true)
deploy_postgresql_fault-IsShown_example =
    deploy_postgresql_fault-IsShown azure environment true 0 (status_of deny) injected

correlates : run_result azure vm_answer request_id ≡ ok vm_result
unfolding run_result messages_of has_failed records_in ends_with splitlines join after_prefix get
correlates = refl

run_result-IsCorrelated_example : IsCorrelated azure request_id vm_answer vm_result
run_result-IsCorrelated_example =
    run_result-IsCorrelated azure vm_answer request_id vm_result correlates

takes : cpu_arguments (" 60" ∷ []) ≡ ok (pos 60 ∷ pos 2 ∷ [])
unfolding cpu_arguments numbers_in parse_int strip
takes = refl

cpu_arguments_accepted_example :
    (seconds : ℕ) × (workers : ℕ) × (cpu_numbers (pos 60 ∷ pos 2 ∷ []) ≡ some (seconds, workers))
cpu_arguments_accepted_example = cpu_arguments_accepted (" 60" ∷ []) (pos 60 ∷ pos 2 ∷ []) takes

abbrev desk : Desk ℕ
desk = record { files = λ name. absent; world = 0 }

abbrev named : Values
named = ("AZURE_ENV_NAME", "participant-07") ∷ ("VM_NAME", "vm-orders") ∷ environment

act-Ends_example :
    Ends
      (λ r d. (get "ok" r ≡ some (boolean true)) × Reported azure named postgresql absent r d.files)
      (λ _ d. NotReported azure named postgresql absent d.files)
      (act azure named postgresql [] desk)
act-Ends_example = act-Ends azure named postgresql [] desk

inject_postgresql-Ends_example :
    Ends
      (λ r d. (d.files ≡ desk.files) × IsConfirmed azure named true "postgresql-denied" r d.world)
      (λ e d. Interrupted azure named desk.files postgresql true "postgresql-denied" e d.files)
      (inject_postgresql azure named desk)
inject_postgresql-Ends_example = inject_postgresql-Ends azure named desk

recover_postgresql-Ends_example :
    Ends
      (λ r d. (d.files ≡ desk.files) × IsConfirmed azure named false "postgresql-ready" r d.world)
      (λ e d. Interrupted azure named desk.files reset false "postgresql-ready" e d.files)
      (recover_postgresql azure named reset desk)
recover_postgresql-Ends_example = recover_postgresql-Ends azure named desk reset
