-- ===== src/Cohort/Tests.antt =====
-- A small machine and cohort, on which the theorems about scripts/cohort.py are applied.
use sre_agent_workshop.Prelude.{
  ℕ, ◌+◌, ◌≤◌, ◌≡◌, ◌≢◌, refl, Option, none, some, List, [], ◌∷◌, String, length, get_elem?,
  if◌then◌else◌,
}
use sre_agent_workshop.Prelude.Int.{pos}
use sre_agent_workshop.Prelude.Text.{every, ◌<>◌, one_of, str_eq, decimal, pad2, ends_with, strip}
use sre_agent_workshop.Exec.{Exec, ok}
use sre_agent_workshop.Exec.Triple.{Ends}
use sre_agent_workshop.Json.{Value, object, field, end, text, array, cons, nil, get}
use sre_agent_workshop.Tools.Lab.{lab}
use sre_agent_workshop.Tools.Machine.{Machine, Ran, finished}
use sre_agent_workshop.Tools.Cli.{cli, az, command_of, output_of, json_of}
use sre_agent_workshop.Cohort.Model.{Item, Cohort, Subscription}
use sre_agent_workshop.Cohort.Roster.{
  new_item, participant_records, records_from, record_at, is_user_prefix, is_user_domain,
  ends_alnum,
}
use sre_agent_workshop.Cohort.Store.{
  Store, item_at, save_state, write_state_file, write_roster_file,
}
use sre_agent_workshop.Cohort.Track.{Tracks, IsSaved}
use sre_agent_workshop.Cohort.Plan.{DeployArguments, load_or_create_state, check_saved, resume}
use sre_agent_workshop.Cohort.Access.{
  contributor_role_id, sre_agent_standard_user_role_id, sre_agent_administrator_role_id,
  ensure_role_assignment, role_assignments, is_assignment, iterate, dicts,
}
use sre_agent_workshop.Cohort.Deploy.{deploy_participant}
use sre_agent_workshop.Cohort.Stages.{Settled}
use sre_agent_workshop.Cohort.Results.{
  Interrupted, deploy_participant-Ends, deploy_participant-others,
}
use sre_agent_workshop.Cohort.Grants.{IsGranted, ensure_role_assignment-IsGranted}
use sre_agent_workshop.Cohort.Names.{
  IsNumbered, participant_records-IsNumbered, participant_records_distinct,
}
use sre_agent_workshop.Cohort.Rerun.{Extends, load_or_create_state-Extends}

abbrev pub subscription : Subscription
subscription = record { id = "s-1"; tenant_id = "t-1"; name = text "Lab"; label = "subscription-1" }

abbrev pub item_seven : Item
item_seven = record (new_item 7 "attendee-07" "example.com" subscription) {
  user_object_id = some "o-7";
}

abbrev pub item_eight : Item
item_eight = new_item 8 "attendee-08" "example.com" subscription

abbrev assignment : String → String → Value
assignment scope role_id =
    object (field "scope" (text scope) (field "roleDefinitionId" (text ("/roles/" <> role_id)) end))

abbrev agent : Value
agent = object (
    field "id" (text "/subscriptions/s-1/resourceGroups/rg-07/providers/Microsoft.App/agents/a")
      end)

-- every role is assigned at every scope
abbrev pub parse : String → Option Value
parse s =
    if str_eq s "agents"
    then some (array (cons agent nil))
    else some (
        array (
          cons (assignment s contributor_role_id) (
            cons (assignment s sre_agent_standard_user_role_id)
              (cons (assignment s sre_agent_administrator_role_id) nil))))

abbrev pub scope_in : List String → String
scope_in (_ ∷ _ ∷ _ ∷ _ ∷ _ ∷ _ ∷ _ ∷ scope ∷ _) = scope
scope_in _ = ""

abbrev run : List String → ℕ → Exec ℕ Ran
run command timeout w = (
  ok (finished (pos 0) (if one_of "resource" command then "agents" else scope_in command) ""),
  w + 1,
)

abbrev pub azure : Machine
azure = record lab {
  run = run;
  run_process = λ command environment w. (ok (pos 0, "done"), w + 60);
  json_loads = parse;
  sleep = λ d w. (ok tt, w + d);
}

abbrev pub cohort : Cohort
cohort = record {
  location = "swedencentral";
  vm_size = "Standard_D2s_v5";
  user_prefix = "attendee";
  user_domain = "example.com";
  first_participant = some 7;
  subscriptions = subscription ∷ [];
  participants = item_seven ∷ item_eight ∷ [];
  created_utc = "2026-01-01T00:00:00+00:00";
}

abbrev pub store : Store ℕ
store = record { state = cohort; state_file = some cohort; roster_file = none; world = 0 }

deploy_participant-Ends_example :
    Ends
      (λ _ s. Tracks 0 (Settled azure item_seven) s × IsSaved s)
      (λ _. Tracks 0 (Interrupted item_seven))
      (deploy_participant azure 0 store)
deploy_participant-Ends_example = deploy_participant-Ends azure 0 item_seven store refl

zero_one : ◌≢◌ {A = ℕ} 0 1
zero_one e = cc

deploy_participant-others_example : item_at 1 (deploy_participant azure 0 store).1 ≡ some item_eight
deploy_participant-others_example = deploy_participant-others azure 0 1 store zero_one

-- The listing shows the assignment at once.
ensured :
    (ensure_role_assignment azure item_seven "/s" contributor_role_id "Contributor" 0).0 ≡ ok tt
unfolding ensure_role_assignment role_assignments is_assignment iterate dicts az cli command_of
    output_of json_of ends_with strip get
ensured = refl

ensure_role_assignment-IsGranted_example :
    IsGranted azure item_seven "/s" contributor_role_id
      (ensure_role_assignment azure item_seven "/s" contributor_role_id "Contributor" 0).1
ensure_role_assignment-IsGranted_example =
    ensure_role_assignment-IsGranted azure item_seven "/s" contributor_role_id "Contributor" 0
      ensured

abbrev two : List Item
two = new_item 7 "attendee-07" "example.com" subscription ∷ item_eight ∷ []

records_of_two : participant_records 2 (subscription ∷ []) "attendee" "example.com" 7 ≡ ok two
unfolding participant_records records_from record_at is_user_prefix is_user_domain ends_alnum every
    pad2 decimal
records_of_two = refl

participant_records-IsNumbered_example :
    (length two ≡ 2)
    × (1 ≤ 2)
    × (2 ≤ 20)
    × ((k : ℕ) (item : Item)
        → get_elem? two k ≡ some item
        → IsNumbered (subscription ∷ []) 7 k item)
participant_records-IsNumbered_example =
    participant_records-IsNumbered (subscription ∷ []) "attendee" "example.com" 7 2 two
      records_of_two

participant_records_distinct_example :
    (item_seven.participant ≢ item_eight.participant)
    × (item_seven.environment ≢ item_eight.environment)
    × (item_seven.resource_group ≢ item_eight.resource_group)
participant_records_distinct_example =
    participant_records_distinct (subscription ∷ []) "attendee" "example.com" 7 2 two 0 1
      (new_item 7 "attendee-07" "example.com" subscription) item_eight records_of_two refl refl
      zero_one

abbrev pub arguments : DeployArguments
arguments = record {
  participants = 3;
  first_participant = 7;
  subscriptions = "Lab" ∷ [];
  user_prefix = "attendee";
  user_domain = "example.com";
  location = "swedencentral";
  vm_size = "Standard_D2s_v5";
  parallel_per_subscription = 3;
}

loads : (load_or_create_state azure arguments (subscription ∷ []) store).0 ≡ ok tt
unfolding load_or_create_state check_saved resume participant_records records_from record_at
    is_user_prefix is_user_domain ends_alnum every pad2 decimal save_state write_state_file
    write_roster_file
loads = refl

load_or_create_state-Extends_example :
    Extends arguments
      (subscription ∷ [])
      cohort
      (load_or_create_state azure arguments (subscription ∷ []) store).1.state
load_or_create_state-Extends_example =
    load_or_create_state-Extends azure arguments (subscription ∷ []) cohort store refl loads
