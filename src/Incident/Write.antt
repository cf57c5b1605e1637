-- ===== src/Incident/Write.antt =====
-- `incident_guarded_put` and `remove_incident_components` of scripts/workshop.py: writes and
-- deletions that are guarded by what was read, and read back.
use sre_agent_workshop.Prelude.{
  ℕ, Bool, true, false, not, ◌||◌, Option, none, some, List, [], ◌∷◌, String, if◌then◌else◌,
}
use sre_agent_workshop.Prelude.Text.{◌<>◌}
use sre_agent_workshop.Exec.{
  Exec, Error, Result, ok, err, deployment_error, key_error, other_error, request_error, pure,
  raise, lift, raise_if, do_if, try_except, ◌>>=◌, ◌>>◌,
}
use sre_agent_workshop.Json.{Value, null, boolean, object, get, put}
use sre_agent_workshop.Tools.Machine.{Machine}
use sre_agent_workshop.Tools.Retry.{retry_sre_agent, is_request}
use sre_agent_workshop.Incident.Match.{
  response_plan_name, Component, fields_of, dict_in, incident_component_matches,
}
use sre_agent_workshop.Incident.Plan.{workflow_name}
use sre_agent_workshop.Incident.Http.{
  Request, Reply, put_method, delete_method, sre_agent_request, incident_optional_get, is_missing,
}

abbrev pub base : String
base = "/api/v2/extendedAgent/"

abbrev pub filter_path : String → String
filter_path name = base <> "incidentFilters/" <> name

abbrev pub is_null : Value → Bool
is_null null = true
is_null _ = false

abbrev pub set_property : String → Value → Component → Component
set_property key v c = record c { properties = put key v c.properties }

abbrev pub disabled : Component → Component
disabled c = set_property "isEnabled" (boolean false) c

-- `properties.get("isEnabled") is False`
abbrev pub is_switched_off : Option Value → Bool
is_switched_off (some (boolean b)) = not b
is_switched_off _ = false

-- whether a document that was read is switched off
abbrev pub is_disabled : Value → Bool
is_disabled (object d) = elim (dict_in (get "properties" d)) [
  | none ↦ false
  | some properties ↦ is_switched_off (get "isEnabled" properties)
]
is_disabled _ = false

-- `d[key]`
abbrev pub property_of : String → Component → Result Value
property_of key c = elim (get key c.properties) [ none ↦ err (key_error key) | some v ↦ ok v ]

-- A component with its path, and what of the saved state the removal uses.
pub record Placed : Type 0 where
  pub path : String
  pub component : Component

pub record Installed : Type 0 where
  pub module_plan : Component
  pub agent : Placed
  pub skills : List Placed
  pub original : Component
  pub partitioned : Component

module _ (m : Machine) (send : Request → Exec m.World Reply) (attempts retry_seconds : ℕ) where
  open m use {World, casefold, json_dumps}

  abbrev pub document_matches : Value → Component → Bool
  document_matches actual expected = incident_component_matches casefold (some actual) expected

  abbrev pub is_allowed : Value → List (Option Component) → Bool
  is_allowed current [] = false
  is_allowed current (none ∷ rest) = is_null current || is_allowed current rest
  is_allowed current (some c ∷ rest) = document_matches current c || is_allowed current rest

  abbrev pub writing : String → Component → Option String → Request
  writing path desired etag = record {
    path = path;
    method = put_method;
    body = some (json_dumps (object (fields_of desired)));
    if_match = etag;
  }

  abbrev pub deleting : String → Option String → Request
  deleting path etag = record { path = path; method = delete_method; body = none; if_match = etag }

  -- `verify` of `incident_guarded_put`
  unfoldable pub verify_written : String → Component → Exec World (Unit {0})
  verify_written path desired = do
    read ← incident_optional_get m send path false
    raise_if (not (document_matches read.0 desired)) (
        request_error none true
          ("Incident component " <> desired.name <> " did not match its read-back."))

  unfoldable pub write_component : String → Component → Option String → Exec World (Unit {0})
  write_component path desired etag = do
    sre_agent_request m send (writing path desired etag) false false
    retry_sre_agent m "Incident read-back" (verify_written path desired) retry_seconds attempts
    pure tt

  abbrev pub put_over :
      String → Component → List (Option Component) → Value → Option String → Exec World (Unit {0})
  put_over path desired allowed current etag =
      if document_matches current desired
      then pure tt
      else if is_allowed current allowed
      then write_component path desired etag
      else raise (
          deployment_error
            ("Concurrent or unowned configuration at " <> path <> "; refusing to overwrite it."))

  unfoldable pub incident_guarded_put :
      String → Component → List (Option Component) → Exec World (Unit {0})
  incident_guarded_put path desired allowed = do
    read ← incident_optional_get m send path true
    put_over path desired allowed read.0 read.1

  -- a document that is gone already is no error
  abbrev pub unless_missing : Error → Exec World (Unit {0})
  unless_missing error = if is_missing m send error then pure tt else raise error

  -- `verify_deleted`
  unfoldable pub verify_deleted : Placed → Exec World (Unit {0})
  verify_deleted target = do
    read ← incident_optional_get m send target.path false
    raise_if (not (is_null read.0))
        (request_error none true ("Component " <> target.component.name <> " is still present."))

  unfoldable pub delete_component : Placed → Option String → Exec World (Unit {0})
  delete_component target etag = do
    try_except (sre_agent_request m send (deleting target.path etag) false false >> pure tt)
        is_request unless_missing
    retry_sre_agent m "Incident removal" (verify_deleted target) retry_seconds attempts
    pure tt

  abbrev pub delete_over : Placed → Value → Option String → Exec World (Unit {0})
  delete_over target current etag =
      if is_null current
      then pure tt
      else if document_matches current target.component
      then delete_component target etag
      else raise (
          deployment_error
            ("Component " <> target.component.name <> " changed; refusing to delete it."))

  unfoldable pub remove_target : Placed → Exec World (Unit {0})
  remove_target target = do
    read ← incident_optional_get m send target.path true
    delete_over target read.0 read.1

  unfoldable pub remove_targets : List Placed → Exec World (Unit {0})
  remove_targets [] = pure tt
  remove_targets (target ∷ targets) = remove_target target >> remove_targets targets

  abbrev pub module_path : String
  module_path = filter_path workflow_name

  -- the module's plan is switched off before anything else
  abbrev pub disable_over : Component → Value → Exec World (Unit {0})
  disable_over active null = pure tt
  disable_over active (object d) = do_if (not (is_disabled (object d))) (
      incident_guarded_put module_path (disabled active)
        (some active ∷ some (disabled active) ∷ []))
  disable_over active _ = raise (other_error "the document has no attribute 'get'")

  unfoldable pub disable_module : Component → Exec World (Unit {0})
  disable_module active = do
    read ← incident_optional_get m send module_path false
    disable_over active read.0

  -- the original plan, with one filter of the partitioned one
  abbrev pub half_restored : String → Installed → Exec World Component
  half_restored key state = do
    v ← lift (property_of key state.partitioned)
    pure (set_property key v state.original)

  unfoldable pub restore_original : Installed → Exec World (Unit {0})
  restore_original state = do
    partial_anchor ← half_restored "titleContains" state
    partial_exclusion ← half_restored "titleNotContains" state
    incident_guarded_put (filter_path response_plan_name) state.original (
        some state.partitioned
        ∷ some state.original
        ∷ some partial_anchor
        ∷ some partial_exclusion
        ∷ [])

  abbrev pub components_of : Installed → List Placed
  components_of state =
      record { path = module_path; component = disabled state.module_plan }
      ∷ state.agent
      ∷ state.skills

  -- `remove_incident_components`, with the two files that are unlinked at its end
  unfoldable pub remove_incident_components :
      Exec World (Unit {0}) → Exec World (Unit {0}) → Installed → Exec World (Unit {0})
  remove_incident_components unlink_state unlink_evidence state = do
    disable_module state.module_plan
    restore_original state
    remove_targets (components_of state)
    unlink_state
    unlink_evidence
