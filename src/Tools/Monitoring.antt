-- ===== src/Tools/Monitoring.antt =====
-- `required`, `monitoring_contributor_assignments` and `remove_monitoring_contributor` of
-- scripts/workshop.py: the subscription-wide role of the agent's identity is taken away.
use sre_agent_workshop.Prelude.{
  ℕ, zero, suc, ◌*◌, ◌==◌, Bool, true, false, ◌&&◌, ◌||◌, Option, none, some, List, [], ◌∷◌, String,
  if◌then◌else◌,
}
use sre_agent_workshop.Prelude.Text.{◌<>◌, str_eq, strip, len, every, after_prefix, is_digit}
use sre_agent_workshop.Prelude.{leb}
use sre_agent_workshop.Exec.{Exec, deployment_error, pure, raise, or_raise, ◌>>=◌, ◌>>◌}
use sre_agent_workshop.Json.{Value, text, array, object, Items, nil, cons, Fields, get}
use sre_agent_workshop.Tools.Machine.{Machine, str_of}
use sre_agent_workshop.Tools.Cli.{az}

-- the values of an azd environment
abbrev pub Values : Type 0
Values = List (String × String)

abbrev pub value_of : String → Values → Option String
value_of key [] = none
value_of key ((name, value) ∷ values) = if str_eq name key then some value else value_of key values

abbrev pub monitoring_contributor_role_id : String
monitoring_contributor_role_id = "749f88d5-cbae-40b8-bcfc-e573ddc772fa"

abbrev pub is_hex_or_dash : ℕ → Bool
is_hex_or_dash c = is_digit c || leb 97 c && leb c 102 || leb 65 c && leb c 70 || c == b'-'

abbrev pub no_more : List Fields → Bool
no_more [] = true
no_more (_ ∷ _) = false

abbrev pub subscription_scope : String → String
subscription_scope subscription = "/subscriptions/" <> subscription

abbrev pub role_definition_of : String → String
role_definition_of subscription =
    subscription_scope subscription
    <> "/providers/Microsoft.Authorization/roleDefinitions/"
    <> monitoring_contributor_role_id

-- the whole text is the scope, the provider's path and 36 hexadecimal digits or dashes
unfoldable pub is_assignment_id : String → String → Bool
is_assignment_id scope id =
    elim (after_prefix (scope <> "/providers/Microsoft.Authorization/roleAssignments/") id) [
      | none ↦ false
      | some tail ↦ len tail == 36 && every is_hex_or_dash tail
    ]

module _ (m : Machine) where
  open m use {World, casefold, uuid, sleep}

  abbrev pub missing : String → Exec World String
  missing key = raise (
      deployment_error
        ("Missing " <> key <> "; select the intended azd environment and run azd up."))

  abbrev pub not_blank : String → Option String → Exec World String
  not_blank key none = missing key
  not_blank key (some value) = if str_eq (strip value) "" then missing key else pure value

  unfoldable pub required : Values → String → Exec World String
  required values key = not_blank key (value_of key values)

  -- `str(assignment.get(key, ""))`
  abbrev pub text_at : String → Fields → String
  text_at key d = elim (get key d) [ none ↦ "" | some v ↦ str_of m v ]

  unfoldable pub is_monitoring_assignment : String → String → Fields → Bool
  is_monitoring_assignment scope role_definition d =
      str_eq (casefold (text_at "scope" d)) (casefold scope)
      && str_eq (casefold (text_at "roleDefinitionId" d)) (casefold role_definition)

  -- the entries that are dictionaries and match
  unfoldable pub matching : String → String → Items → List Fields
  matching scope role_definition nil = []
  matching scope role_definition (cons (object d) items) =
      let rest = matching scope role_definition items in
      if is_monitoring_assignment scope role_definition d then d ∷ rest else rest
  matching scope role_definition (cons _ items) = matching scope role_definition items

  abbrev pub at_most_one : List Fields → Exec World (List Fields)
  at_most_one (d ∷ e ∷ rest) =
      raise
        (deployment_error "The SRE Agent UAMI has duplicate Monitoring Contributor assignments.")
  at_most_one matches = pure matches

  abbrev pub assignments_in : String → String → Value → Exec World (List Fields)
  assignments_in scope role_definition (array items) =
      at_most_one (matching scope role_definition items)
  assignments_in scope role_definition _ =
      raise (deployment_error "Azure returned an invalid Monitoring Contributor assignment list.")

  abbrev pub guid : String → Exec World String
  guid value =
      or_raise (uuid value)
        (deployment_error "The SRE Agent subscription and UAMI principal IDs must be GUIDs.")

  unfoldable pub monitoring_contributor_assignments : Values → Exec World (List Fields)
  monitoring_contributor_assignments values = do
    subscription ← required values "AZURE_SUBSCRIPTION_ID"
    principal ← required values "SRE_AGENT_IDENTITY_PRINCIPAL_ID"
    guid subscription
    guid principal
    assignments ← az m (
        "role"
        ∷ "assignment"
        ∷ "list"
        ∷ "--assignee-object-id"
        ∷ principal
        ∷ "--scope"
        ∷ subscription_scope subscription
        ∷ "--fill-principal-name"
        ∷ "false"
        ∷ "--subscription"
        ∷ subscription
        ∷ [])
    assignments_in (subscription_scope subscription) (role_definition_of subscription) assignments

  abbrev pub assignment_id_of : String → Option Value → Exec World String
  assignment_id_of scope (some (text id)) =
      if is_assignment_id scope id
      then pure id
      else raise
          (deployment_error "Azure returned an invalid Monitoring Contributor assignment ID.")
  assignment_id_of scope _ =
      raise (deployment_error "Azure returned an invalid Monitoring Contributor assignment ID.")

  -- `for _ in range(6)`, and the error behind the loop
  unfoldable pub await_removal : ℕ → Values → Exec World (Unit {0})
  await_removal zero values = raise (
      deployment_error
        "The SRE Agent Monitoring Contributor assignment is still visible after deletion.")
  await_removal (suc n) values = do
    left ← monitoring_contributor_assignments values
    if no_more left then pure tt else (do sleep (5 * 1_000_000_000); await_removal n values)

  abbrev pub delete_assignment : String → String → Exec World Value
  delete_assignment id subscription =
      az m ("role" ∷ "assignment" ∷ "delete" ∷ "--ids" ∷ id ∷ "--subscription" ∷ subscription ∷ [])

  unfoldable pub remove_first : Values → List Fields → Exec World (Unit {0})
  remove_first values [] = pure tt
  remove_first values (d ∷ _) = do
    subscription ← required values "AZURE_SUBSCRIPTION_ID"
    id ← assignment_id_of (subscription_scope subscription) (get "id" d)
    delete_assignment id subscription
    await_removal 6 values

  unfoldable pub remove_monitoring_contributor : Values → Exec World (Unit {0})
  remove_monitoring_contributor values = do
    assignments ← monitoring_contributor_assignments values
    remove_first values assignments
