-- ===== src/Cohort/WholeTests.antt =====
-- A cohort of one participant that is ready, on which the theorems about a whole run are applied.
use sre_agent_workshop.Prelude.{
  true, ℕ, ◌+◌, ◌≡◌, refl, Option, none, some, List, [], ◌∷◌, String, if◌then◌else◌,
}
use sre_agent_workshop.Prelude.Int.{pos}
use sre_agent_workshop.Prelude.Text.{one_of, str_eq}
use sre_agent_workshop.Exec.{ok, pure}
use sre_agent_workshop.Json.{Value, object, field, end, text, array, cons, nil, boolean, get}
use sre_agent_workshop.Tools.Machine.{Machine, finished}
use sre_agent_workshop.Cohort.Model.{Item, Cohort, Status}
use sre_agent_workshop.Cohort.Store.{Store}
use sre_agent_workshop.Cohort.Plan.{DeployArguments}
use sre_agent_workshop.Cohort.Preflight.{Checks}
use sre_agent_workshop.Cohort.Users.{resolve_users}
use sre_agent_workshop.Cohort.Whole.{deploy}
use sre_agent_workshop.Cohort.Tests.{azure, parse, scope_in, cohort, item_seven, arguments}
use sre_agent_workshop.Cohort.Objects.{IsIdentified, resolve_users-IsIdentified}
use sre_agent_workshop.Cohort.Readiness.{AllReady, deploy-AllReady}

abbrev ready_item : Item
ready_item = record item_seven { status = Status.ready }

abbrev ready_cohort : Cohort
ready_cohort = record cohort { participants = ready_item ∷ [] }

abbrev ready_store : Store ℕ
ready_store = record {
  state = ready_cohort;
  state_file = some ready_cohort;
  roster_file = none;
  world = 0;
}

abbrev tags : Value
tags = object (
    field "workshop-architecture" (text "single-vm-postgresql-v1")
      (field "azd-env-name" (text item_seven.environment) end))

abbrev document : Value
document = object (
    field "id" (text "s-1") (
      field "tenantId" (text "t-1") (
        field "name" (text "Lab") (
          field "accessToken" (text "token") (
            field "token" (text "token")
              (field "location" (text "Sweden Central") (field "tags" tags end)))))))

abbrev user : Value
user = object (field "accountEnabled" (boolean true) (field "id" (text "o-7") end))

abbrev machines : Value
machines = array (
    cons
      (object (field "hardwareProfile" (object (field "vmSize" (text "Standard_D2s_v5") end)) end))
      nil)

abbrev decode : String → Option Value
decode s =
    if str_eq s "document"
    then some document
    else if str_eq s "user"
    then some user
    else if str_eq s "yes"
    then some (boolean true)
    else if str_eq s "machines"
    then some machines
    else parse s

abbrev answer : List String → String
answer command =
    if one_of "rest" command
    then "user"
    else if one_of "exists" command
    then "yes"
    else if one_of "vm" command
    then "machines"
    else if one_of "resource" command
    then "agents"
    else if one_of "role" command
    then scope_in command
    else "document"

abbrev cloud : Machine
cloud = record azure {
  run = λ command timeout w. (ok (finished (pos 0) (answer command) ""), w + 1);
  json_loads = decode;
  casefold = λ s. if str_eq s "SwedenCentral" then "swedencentral" else s;
}

abbrev checks : Checks cloud
checks = record {
  register_providers = λ id location. pure tt;
  ensure_public_ip_feature = λ values. pure tt;
  check_sre_agent_region = λ values. pure tt;
  check_postgresql_capacity = λ values. pure tt;
  check_vm_capacity = λ values n. pure tt;
  token_identity = λ token. ok ("principal", "t-1");
}

abbrev one_participant : DeployArguments
one_participant = record arguments { participants = 1 }

identified_users : (resolve_users cloud ready_store).0 ≡ ok tt
unfolding resolve_users sre_agent_workshop.Cohort.Users.resolve_users_from
    sre_agent_workshop.Cohort.Users.resolve_user sre_agent_workshop.Tools.Cli.az
    sre_agent_workshop.Tools.Cli.cli sre_agent_workshop.Tools.Cli.command_of
    sre_agent_workshop.Tools.Cli.output_of sre_agent_workshop.Tools.Cli.json_of
    sre_agent_workshop.Prelude.Text.strip get
identified_users = refl

resolve_users-IsIdentified_example :
    IsIdentified (ready_item ∷ []) (resolve_users cloud ready_store).1.state.participants
resolve_users-IsIdentified_example = resolve_users-IsIdentified cloud ready_store identified_users

whole_run : (deploy cloud checks (λ pending. pure tt) one_participant ready_store).0 ≡ ok tt
unfolding sre_agent_workshop.Cohort.Resolve.has_tenant
    sre_agent_workshop.Cohort.Resolve.resolve_from
    sre_agent_workshop.Cohort.Resolve.resolve_subscriptions
    sre_agent_workshop.Cohort.Plan.check_saved sre_agent_workshop.Cohort.Plan.resume
    sre_agent_workshop.Cohort.Plan.load_or_create_state sre_agent_workshop.Cohort.Roster.ends_alnum
    sre_agent_workshop.Cohort.Roster.is_user_prefix sre_agent_workshop.Cohort.Roster.is_user_domain
    sre_agent_workshop.Cohort.Roster.record_at sre_agent_workshop.Cohort.Roster.records_from
    sre_agent_workshop.Cohort.Roster.participant_records sre_agent_workshop.Cohort.Store.safe_roster
    sre_agent_workshop.Cohort.Store.write_state_file
    sre_agent_workshop.Cohort.Store.write_roster_file sre_agent_workshop.Cohort.Store.save_state
    sre_agent_workshop.Cohort.Store.update_item sre_agent_workshop.Cohort.Users.resolve_user
    sre_agent_workshop.Cohort.Users.resolve_users_from sre_agent_workshop.Cohort.Users.resolve_users
    sre_agent_workshop.Cohort.Users.size_of sre_agent_workshop.Cohort.Users.inspect_group
    sre_agent_workshop.Cohort.Users.inspect_resource_group
    sre_agent_workshop.Cohort.Preflight.verify_authentication
    sre_agent_workshop.Cohort.Preflight.inspect_item
    sre_agent_workshop.Cohort.Preflight.inspect_assigned
    sre_agent_workshop.Cohort.Preflight.preflight_subscription
    sre_agent_workshop.Cohort.Preflight.preflight_all sre_agent_workshop.Cohort.Preflight.preflight
    sre_agent_workshop.Cohort.Environments.names_in
    sre_agent_workshop.Cohort.Environments.azd_environment_names
    sre_agent_workshop.Cohort.Environments.set_azd_value
    sre_agent_workshop.Cohort.Environments.ensure_environment
    sre_agent_workshop.Cohort.Environments.environment_values
    sre_agent_workshop.Cohort.Environments.require_value
    sre_agent_workshop.Cohort.Environments.configure_values
    sre_agent_workshop.Cohort.Whole.keep_ready sre_agent_workshop.Cohort.Whole.configure_environment
    sre_agent_workshop.Cohort.Whole.prepare_item sre_agent_workshop.Cohort.Whole.prepare_from
    sre_agent_workshop.Cohort.Whole.report_failures sre_agent_workshop.Cohort.Whole.deploy_loaded
    sre_agent_workshop.Cohort.Whole.deploy sre_agent_workshop.Cohort.Access.dicts
    sre_agent_workshop.Cohort.Access.iterate sre_agent_workshop.Cohort.Access.is_assignment
    sre_agent_workshop.Cohort.Access.role_assignments
    sre_agent_workshop.Cohort.Access.await_assignment
    sre_agent_workshop.Cohort.Access.create_assignment
    sre_agent_workshop.Cohort.Access.ensure_role_assignment
    sre_agent_workshop.Cohort.Access.is_child_of sre_agent_workshop.Cohort.Access.sre_agent_scope
    sre_agent_workshop.Cohort.Access.ensure_participant_access
    sre_agent_workshop.Tools.Cli.first_two sre_agent_workshop.Tools.Cli.command_of
    sre_agent_workshop.Tools.Cli.output_of sre_agent_workshop.Tools.Cli.cli
    sre_agent_workshop.Tools.Cli.json_of sre_agent_workshop.Tools.Cli.az sre_agent_workshop.Json.get
    sre_agent_workshop.Json.put sre_agent_workshop.Json.merge sre_agent_workshop.Prelude.Text.every
    sre_agent_workshop.Prelude.Text.split_once sre_agent_workshop.Prelude.Text.splitlines
    sre_agent_workshop.Prelude.Text.strip sre_agent_workshop.Prelude.Text.has_char
    sre_agent_workshop.Prelude.Text.after_prefix sre_agent_workshop.Prelude.Text.parse_int
    sre_agent_workshop.Prelude.Text.decimal sre_agent_workshop.Prelude.Text.pad2
    sre_agent_workshop.Prelude.Text.decimal_int sre_agent_workshop.Prelude.Text.drop_chars
    sre_agent_workshop.Prelude.Text.last_chars sre_agent_workshop.Prelude.Text.ends_with
    sre_agent_workshop.Prelude.Search.join sre_agent_workshop.Prelude.Search.first_chars
    sre_agent_workshop.Prelude.Search.contains sre_agent_workshop.Prelude.Search.replace
    sre_agent_workshop.Prelude.Search.utf8_length sre_agent_workshop.Cohort.Cleanup.group_exists
    sre_agent_workshop.Cohort.Cleanup.group_show sre_agent_workshop.Cohort.Cleanup.tags_match
whole_run = refl

deploy-AllReady_example :
    AllReady (deploy cloud checks (λ pending. pure tt) one_participant ready_store).1
deploy-AllReady_example =
    deploy-AllReady cloud (λ pending. pure tt) checks one_participant ready_store whole_run
