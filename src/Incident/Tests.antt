-- ===== src/Incident/Tests.antt =====
-- A service with two documents, on which the theorems about the incident workflow are applied.
use sre_agent_workshop.Prelude.{
  ℕ, zero, suc, ◌==◌, ◌≡◌, ◌≢◌, refl, sym, ◌∙◌, Bool, true, false, Bool-cases, inl, inr, Option,
  none, some, List, [], ◌∷◌, String, arith, eq_iff, if◌then◌else◌,
}
use sre_agent_workshop.Prelude.Text.{str_eq}
use sre_agent_workshop.Exec.{Exec, ok, pure}
use sre_agent_workshop.Json.{
  get, Value, null, boolean, text, array, object, nil, cons, Fields, end, field,
}
use sre_agent_workshop.Tools.Machine.{Machine}
use sre_agent_workshop.Tools.Lab.{lab}
use sre_agent_workshop.Incident.Match.{response_plan_name, Component, fields_of}
use sre_agent_workshop.Incident.Plan.{workflow_name, incident_routing_check, incident_plan_document}
use sre_agent_workshop.Incident.Http.{
  Method, get_method, put_method, delete_method, Request, Reply, received, refused, reading,
}
use sre_agent_workshop.Incident.Service.{absent, present, Fair, IsService}
use sre_agent_workshop.Incident.Write.{
  Placed, Installed, filter_path, incident_guarded_put, remove_incident_components,
}
use sre_agent_workshop.Exec.Triple.{Ends}
use sre_agent_workshop.Incident.Install.{Records, install}
use sre_agent_workshop.Incident.Installing.{IsLocal, InForce, IsFailed, install-Ends}
use sre_agent_workshop.Incident.Saved.{incident_plan_document_again}
use sre_agent_workshop.Incident.Routed.{IsRouted, incident_routing_check-IsRouted}
use sre_agent_workshop.Incident.Removed.{
  Held, IsRestored, incident_guarded_put-Held, remove_incident_components-IsRestored,
}

abbrev texts : String → Value
texts s = array (cons (text s) nil)

abbrev plan_properties : String → String → Fields
plan_properties phrase excluded = field "isEnabled" (boolean true) (
    field "incidentPlatform" (text "AzMonitor") (
      field "priorities" (texts "Sev1")
        (field "titleContains" (text phrase) (field "titleNotContains" (texts excluded) end))))

abbrev original : Component
original = record {
  name = response_plan_name;
  kind = "IncidentFilter";
  tags = array nil;
  properties = plan_properties "" "planned work";
}

abbrev partitioned : Component
partitioned = record original { properties = plan_properties "alert-orders-h" "planned work" }

abbrev workflow : Component
workflow = record {
  name = workflow_name;
  kind = "IncidentFilter";
  tags = array nil;
  properties = plan_properties "postgresql" "planned work";
}

abbrev switched_off : Component
switched_off = record workflow { properties = field "isEnabled" (boolean false) end }

routes : incident_routing_check (λ s. s) [] partitioned workflow ≡ ok tt
unfolding incident_routing_check sre_agent_workshop.Incident.Plan.takers sre_agent_workshop.Json.get
    sre_agent_workshop.Incident.Plan.incident_title_matches
    sre_agent_workshop.Prelude.Search.contains sre_agent_workshop.Prelude.Text.after_prefix
routes = refl

incident_routing_check-IsRouted_example : IsRouted (λ s. s) [] partitioned workflow
incident_routing_check-IsRouted_example =
    incident_routing_check-IsRouted (λ s. s) [] partitioned workflow routes

abbrev module_path : String
module_path = filter_path workflow_name

abbrev original_path : String
original_path = filter_path response_plan_name

abbrev decode : String → Option Value
decode s = some (object (fields_of (if str_eq s "module" then switched_off else original)))

abbrev machine : Machine
machine = record lab { json_loads = decode }

-- The module is there in the world 0 alone; the original plan is always there.
abbrev document_at : Bool → Bool → ℕ → Option Value
document_at true _ zero = some (object (fields_of switched_off))
document_at true _ (suc w) = none
document_at false true w = some (object (fields_of original))
document_at false false w = none

abbrev stored : String → ℕ → Option Value
stored path w = document_at (str_eq path module_path) (str_eq path original_path) w

abbrev reply : Bool → Bool → Method → Exec ℕ Reply
reply true _ get_method zero = (ok (received "module" []), zero)
reply true _ get_method (suc w) = (ok (refused 404 ""), suc w)
reply true _ put_method w = (ok (received "" []), zero)
reply true _ delete_method w = (ok (received "" []), 1)
reply false true get_method w = (ok (received "original" []), w)
reply false true _ w = (ok (refused 405 ""), w)
reply false false _ w = (ok (refused 404 ""), w)

abbrev send : Request → Exec ℕ Reply
send request =
    reply (str_eq request.path module_path) (str_eq request.path original_path) request.method

reply-Fair :
    (a b : Bool) (w : ℕ)
    → Fair machine (document_at a b (reply a b get_method w).1) (reply a b get_method w).0
reply-Fair true b zero = present "module" [] _ refl refl refl
reply-Fair true b (suc w) = absent "" refl
reply-Fair false true w = present "original" [] _ refl refl refl
reply-Fair false false w = absent "" refl

unchanged : (a b : Bool) (w : ℕ) → (reply a b get_method w).1 ≡ w
unchanged true b zero = refl
unchanged true b (suc w) = refl
unchanged false true w = refl
unchanged false false w = refl

unmoved : (b : Bool) (method : Method) (w : ℕ) → (reply false b method w).1 ≡ w
unmoved true get_method w = refl
unmoved true put_method w = refl
unmoved true delete_method w = refl
unmoved false get_method w = refl
unmoved false put_method w = refl
unmoved false delete_method w = refl

same_elsewhere : (b : Bool) (w w' : ℕ) → document_at false b w ≡ document_at false b w'
same_elsewhere true w w' = refl
same_elsewhere false w w' = refl

elsewhere :
    (path other : String)
    → str_eq path module_path ≡ true
    → other ≢ path
    → str_eq other module_path ≡ false
elsewhere path other e ne = ground (arith, eq_iff path module_path, eq_iff other module_path)

kept :
    (request : Request) (other : String) (w : ℕ)
    → other ≢ request.path
    → stored other (send request w).1 ≡ stored other w
kept request other w ne = elim (Bool-cases (str_eq request.path module_path)) [
  | inl c ↦ rw (elsewhere request.path other c ne) (same_elsewhere (str_eq other original_path) _ w)
  | inr c ↦ rw (c, unmoved (str_eq request.path original_path) request.method w) refl
]

service : IsService machine send stored
service = record {
  answers = λ path w. reply-Fair (str_eq path module_path) (str_eq path original_path) w;
  reads =
      λ path other w. rw (unchanged (str_eq path module_path) (str_eq path original_path) w) refl;
  keeps = kept;
  waits = λ d other w. refl;
}

-- The module is not there, and is written.
written : (incident_guarded_put machine send 1 15 module_path switched_off (none ∷ []) 1).0 ≡ ok tt
unfolding sre_agent_workshop.Incident.Http.is_strong sre_agent_workshop.Incident.Http.one_line
    sre_agent_workshop.Incident.Http.detail_of sre_agent_workshop.Incident.Http.sre_agent_request
    sre_agent_workshop.Incident.Http.incident_optional_get
    sre_agent_workshop.Incident.Match.normalized sre_agent_workshop.Incident.Match.line_ends
    sre_agent_workshop.Incident.Match.closed sre_agent_workshop.Incident.Match.body
    sre_agent_workshop.Incident.Match.incident_component_matches
    sre_agent_workshop.Incident.Write.verify_written
    sre_agent_workshop.Incident.Write.write_component
    sre_agent_workshop.Incident.Write.incident_guarded_put
    sre_agent_workshop.Incident.Write.verify_deleted
    sre_agent_workshop.Incident.Write.delete_component
    sre_agent_workshop.Incident.Write.remove_target sre_agent_workshop.Incident.Write.remove_targets
    sre_agent_workshop.Incident.Write.disable_module
    sre_agent_workshop.Incident.Write.restore_original
    sre_agent_workshop.Incident.Write.remove_incident_components sre_agent_workshop.Json.get
    sre_agent_workshop.Json.put sre_agent_workshop.Json.merge
    sre_agent_workshop.Tools.Retry.retry_sre_agent sre_agent_workshop.Prelude.Text.every
    sre_agent_workshop.Prelude.Text.has_char sre_agent_workshop.Prelude.Text.split_once
    sre_agent_workshop.Prelude.Text.splitlines sre_agent_workshop.Prelude.Text.rstrip
    sre_agent_workshop.Prelude.Text.strip sre_agent_workshop.Prelude.Text.after_prefix
    sre_agent_workshop.Prelude.Text.parse_int sre_agent_workshop.Prelude.Text.decimal
    sre_agent_workshop.Prelude.Text.pad2 sre_agent_workshop.Prelude.Text.decimal_int
    sre_agent_workshop.Prelude.Text.drop_chars sre_agent_workshop.Prelude.Text.last_chars
    sre_agent_workshop.Prelude.Text.ends_with sre_agent_workshop.Prelude.Text.split_lines
    sre_agent_workshop.Prelude.Search.join sre_agent_workshop.Prelude.Search.first_chars
    sre_agent_workshop.Prelude.Search.contains sre_agent_workshop.Prelude.Search.replace
    sre_agent_workshop.Prelude.Search.utf8_length sre_agent_workshop.Json.Equal.equal
    sre_agent_workshop.Json.Equal.same_items sre_agent_workshop.Json.Equal.all_in
written = refl

other_path : original_path ≢ module_path
other_path e = cc

incident_guarded_put-Held_example :
    (stored original_path
        (incident_guarded_put machine send 1 15 module_path switched_off (none ∷ []) 1).1
      ≡ stored original_path 1)
    × Held machine send stored service 0 15 module_path switched_off
        (incident_guarded_put machine send 1 15 module_path switched_off (none ∷ []) 1).1
incident_guarded_put-Held_example =
    incident_guarded_put-Held machine send stored service 0 15 module_path original_path
      switched_off (none ∷ []) 1 other_path written

abbrev agent : Placed
agent = record { path = "/api/v2/extendedAgent/agents/orders"; component = switched_off }

abbrev installed : Installed
installed = record {
  module_plan = switched_off;
  agent = agent;
  skills = [];
  original = original;
  partitioned = partitioned;
}

agent_elsewhere : module_path ≢ "/api/v2/extendedAgent/agents/orders"
agent_elsewhere e = cc

agent_is_no_plan : original_path ≢ "/api/v2/extendedAgent/agents/orders"
agent_is_no_plan e = cc

-- The module is there, switched off, and is deleted.
whole_removal :
    (remove_incident_components machine send 1 15 (pure tt) (pure tt) installed 0).0 ≡ ok tt
unfolding sre_agent_workshop.Incident.Http.is_strong sre_agent_workshop.Incident.Http.one_line
    sre_agent_workshop.Incident.Http.detail_of sre_agent_workshop.Incident.Http.sre_agent_request
    sre_agent_workshop.Incident.Http.incident_optional_get
    sre_agent_workshop.Incident.Match.normalized sre_agent_workshop.Incident.Match.line_ends
    sre_agent_workshop.Incident.Match.closed sre_agent_workshop.Incident.Match.body
    sre_agent_workshop.Incident.Match.incident_component_matches
    sre_agent_workshop.Incident.Write.verify_written
    sre_agent_workshop.Incident.Write.write_component
    sre_agent_workshop.Incident.Write.incident_guarded_put
    sre_agent_workshop.Incident.Write.verify_deleted
    sre_agent_workshop.Incident.Write.delete_component
    sre_agent_workshop.Incident.Write.remove_target sre_agent_workshop.Incident.Write.remove_targets
    sre_agent_workshop.Incident.Write.disable_module
    sre_agent_workshop.Incident.Write.restore_original
    sre_agent_workshop.Incident.Write.remove_incident_components sre_agent_workshop.Json.get
    sre_agent_workshop.Json.put sre_agent_workshop.Json.merge
    sre_agent_workshop.Tools.Retry.retry_sre_agent sre_agent_workshop.Prelude.Text.every
    sre_agent_workshop.Prelude.Text.has_char sre_agent_workshop.Prelude.Text.split_once
    sre_agent_workshop.Prelude.Text.splitlines sre_agent_workshop.Prelude.Text.rstrip
    sre_agent_workshop.Prelude.Text.strip sre_agent_workshop.Prelude.Text.after_prefix
    sre_agent_workshop.Prelude.Text.parse_int sre_agent_workshop.Prelude.Text.decimal
    sre_agent_workshop.Prelude.Text.pad2 sre_agent_workshop.Prelude.Text.decimal_int
    sre_agent_workshop.Prelude.Text.drop_chars sre_agent_workshop.Prelude.Text.last_chars
    sre_agent_workshop.Prelude.Text.ends_with sre_agent_workshop.Prelude.Text.split_lines
    sre_agent_workshop.Prelude.Search.join sre_agent_workshop.Prelude.Search.first_chars
    sre_agent_workshop.Prelude.Search.contains sre_agent_workshop.Prelude.Search.replace
    sre_agent_workshop.Prelude.Search.utf8_length sre_agent_workshop.Json.Equal.equal
    sre_agent_workshop.Json.Equal.same_items sre_agent_workshop.Json.Equal.all_in
whole_removal = refl

remove_incident_components-IsRestored_example :
    IsRestored machine send stored service 0 15
      (pure tt)
      (pure tt)
      installed
      (λ w other. refl)
      (λ w other. refl)
      ((agent_elsewhere, tt), (tt, tt))
      (other_path, (agent_is_no_plan, tt))
      (remove_incident_components machine send 1 15 (pure tt) (pure tt) installed 0).1
remove_incident_components-IsRestored_example =
    remove_incident_components-IsRestored machine send stored service 0 15 (pure tt) (pure tt)
      installed (λ w other. refl) (λ w other. refl) ((agent_elsewhere, tt), (tt, tt))
      (other_path, (agent_is_no_plan, tt)) 0 whole_removal

abbrev records : Records machine
records = record {
  save = λ phase. pure tt;
  status = pure (record { matches_definition = true; problems = [] });
  write_evidence = λ report. pure tt;
  unlink_state = pure tt;
  unlink_evidence = pure tt;
}

local : IsLocal machine send stored service 0 15 records
local = record {
  saves = λ phase w other. refl;
  looks = λ w other. refl;
  writes = λ report w other. refl;
  unlinks = λ w other. refl;
  unlinks_too = λ w other. refl;
}

-- The service refuses the agent's document, and the installation is rolled back.
install-Ends_example :
    Ends
      (λ _.
        InForce machine send stored service 0 15 records local installed
          ((agent_elsewhere, tt), (tt, tt))
          (other_path, (agent_is_no_plan, tt)))
      (IsFailed machine send stored service 0 15 records local installed
        ((agent_elsewhere, tt), (tt, tt))
        (other_path, (agent_is_no_plan, tt))
        1)
      (install machine send 1 15 records installed 1)
install-Ends_example =
    install-Ends machine send stored service 0 15 records local installed
      ((agent_elsewhere, tt), (tt, tt)) (other_path, (agent_is_no_plan, tt)) 1

abbrev review_properties : Fields
review_properties = field "incidentPlatform" (text "AzMonitor") (
    field "agentMode" (text "Review") (
      field "handlingAgent" (text "meta_agent") (
        field "isEnabled" (boolean true) (
          field "priorities" (array (cons (text "Sev2") (cons (text "Sev1") nil)))
            (field "titleContains" (text "alert-orders-h") end)))))

-- as the service gives it, with a time that is not kept
abbrev given_plan : Value
given_plan = object (
    field "name" (text response_plan_name)
      (field "properties" (object (field "createdAt" (text "2026-01-01") review_properties)) end))

abbrev kept_plan : Component
kept_plan = record {
  name = response_plan_name;
  kind = "IncidentFilter";
  tags = array nil;
  properties = review_properties;
}

accepted_plan : incident_plan_document (some given_plan) ≡ ok kept_plan
unfolding incident_plan_document get sre_agent_workshop.Prelude.Text.strip
accepted_plan = refl

incident_plan_document_again_example :
    incident_plan_document (some (object (fields_of kept_plan))) ≡ ok kept_plan
incident_plan_document_again_example =
    incident_plan_document_again (some given_plan) kept_plan accepted_plan
