-- ===== src/Incident/Plan.antt =====
-- `incident_plan_document`, `incident_title_matches` and `incident_routing_check` of
-- scripts/workshop.py: which response plan an alert goes to.
use sre_agent_workshop.Prelude.{
  Bool, true, false, not, ◌&&◌, ◌||◌, Option, none, some, List, [], ◌∷◌, String, if◌then◌else◌,
}
use sre_agent_workshop.Prelude.Text.{◌<>◌, str_eq, one_of, strip}
use sre_agent_workshop.Prelude.Search.{contains}
use sre_agent_workshop.Exec.{Result, ok, err, deployment_error}
use sre_agent_workshop.Json.{
  Value, text, array, object, Items, nil, cons, Fields, get, holds_text, is_true,
}
use sre_agent_workshop.Incident.Match.{
  response_plan_name, read_only_properties, without, Component, fields_of, tags_or_empty, dict_in,
}

abbrev pub workflow_name : String
workflow_name = "orders-incident-workflow"

-- the texts of a list of texts
abbrev pub texts_in : Items → Option (List String)
texts_in nil = some []
texts_in (cons (text s) items) = elim (texts_in items) [ none ↦ none | some ss ↦ some (s ∷ ss) ]
texts_in (cons _ items) = none

-- a list of texts, or this one where the key is missing
abbrev pub texts_or : Option (List String) → Option Value → Option (List String)
texts_or missing none = missing
texts_or missing (some (array items)) = texts_in items
texts_or missing (some _) = none

abbrev pub text_or_empty : Option Value → Option String
text_or_empty none = some ""
text_or_empty (some (text s)) = some s
text_or_empty (some _) = none

abbrev pub all_among : List String → List String → Bool
all_among known [] = true
all_among known (s ∷ ss) = one_of s known && all_among known ss

abbrev pub severities : List String
severities = "Sev1" ∷ "Sev2" ∷ []

-- `set(priorities) != {"Sev1", "Sev2"}`, negated
abbrev pub both_severities : Option (List String) → Bool
both_severities none = false
both_severities (some ss) = all_among severities ss && all_among ss severities

abbrev pub no_blank : List String → Bool
no_blank [] = true
no_blank (s ∷ ss) = not (str_eq (strip s) "") && no_blank ss

abbrev pub is_title_filter : Option Value → Bool
is_title_filter o = elim (texts_or (some []) o) [ none ↦ false | some ss ↦ no_blank ss ]

abbrev pub is_enabled_review : Fields → Bool
is_enabled_review properties =
    holds_text "AzMonitor" (get "incidentPlatform" properties)
    && holds_text "Review" (get "agentMode" properties)
    && holds_text "meta_agent" (get "handlingAgent" properties)
    && is_true (get "isEnabled" properties)
    && both_severities (texts_or none (get "priorities" properties))

abbrev pub invalid_filter : String → Result Component
invalid_filter key =
    err (deployment_error ("The original response plan has an invalid " <> key <> " filter."))

abbrev pub plan_of : Fields → Fields → Component
plan_of plan properties = record {
  name = response_plan_name;
  kind = "IncidentFilter";
  tags = tags_or_empty (get "tags" plan);
  properties = without read_only_properties properties;
}

abbrev pub with_filters : Fields → Fields → Result Component
with_filters plan properties =
    if not (is_title_filter (get "titleContainsAll" properties))
    then invalid_filter "titleContainsAll"
    else if not (is_title_filter (get "titleContainsAny" properties))
    then invalid_filter "titleContainsAny"
    else if not (is_title_filter (get "titleNotContains" properties))
    then invalid_filter "titleNotContains"
    else elim (text_or_empty (get "titleContains" properties)) [
      | none ↦ invalid_filter "titleContains"
      | some _ ↦ ok (plan_of plan properties)
    ]

abbrev pub with_review : Fields → Option Fields → Result Component
with_review plan none =
    err (deployment_error "The original workshop response plan is missing or malformed.")
with_review plan (some properties) =
    if is_enabled_review properties
    then with_filters plan properties
    else err (
        deployment_error
          "The original response plan must be enabled for Sev1/Sev2 in Review mode with meta_agent.")

unfoldable pub incident_plan_document : Option Value → Result Component
incident_plan_document (some (object plan)) = with_review plan (
    if holds_text response_plan_name (get "name" plan)
    then dict_in (get "properties" plan)
    else none)
incident_plan_document _ =
    err (deployment_error "The original workshop response plan is missing or malformed.")

-- What a plan says of titles.
pub record Titles : Type 0 where
  pub phrase : String
  pub every_term : List String
  pub any_term : List String
  pub excluded : List String

abbrev pub titles_from :
    Option String
    → Option (List String)
    → Option (List String)
    → Option (List String)
    → Option Titles
titles_from (some s) (some a) (some b) (some c) =
    some (record { phrase = s; every_term = a; any_term = b; excluded = c })
titles_from _ _ _ _ = none

abbrev pub titles_of : Fields → Option Titles
titles_of properties =
    titles_from (text_or_empty (get "titleContains" properties))
      (texts_or (some []) (get "titleContainsAll" properties))
      (texts_or (some []) (get "titleContainsAny" properties))
      (texts_or (some []) (get "titleNotContains" properties))

module _ (casefold : String → String) where
  -- `all(...)` and `any(...)` of the terms in a title
  abbrev pub has_all : String → List String → Bool
  has_all title [] = true
  has_all title (term ∷ terms) = contains (casefold term) title && has_all title terms

  abbrev pub has_any : String → List String → Bool
  has_any title [] = false
  has_any title (term ∷ terms) = contains (casefold term) title || has_any title terms

  abbrev pub is_empty : List String → Bool
  is_empty [] = true
  is_empty (_ ∷ _) = false

  abbrev pub titles_match : Titles → String → Bool
  titles_match t title =
      contains (casefold t.phrase) title
      && has_all title t.every_term
      && (is_empty t.any_term || has_any title t.any_term)
      && not (has_any title t.excluded)

  unfoldable pub incident_title_matches : Fields → String → Result Bool
  incident_title_matches properties title = elim (titles_of properties) [
    | none ↦ err (deployment_error "A response plan has unsupported title-filter values.")
    | some t ↦ ok (titles_match t (casefold title))
  ]

  -- `set(priorities) & {"Sev1", "Sev2"}`
  abbrev pub has_severity : List String → Bool
  has_severity ss = one_of "Sev1" ss || one_of "Sev2" ss

  abbrev pub is_open : Fields → List String → Bool
  is_open properties priorities =
      is_true (get "isEnabled" properties)
      && holds_text "AzMonitor" (get "incidentPlatform" properties)
      && has_severity priorities

  abbrev pub with_priorities : Fields → String → Option (List String) → Result Bool
  with_priorities properties title none =
      err (deployment_error "A response plan has invalid priorities.")
  with_priorities properties title (some priorities) =
      if is_open properties priorities then incident_title_matches properties title else ok false

  -- whether a plan takes an incident with this title
  abbrev pub takes_title : String → Fields → Result Bool
  takes_title title plan = elim (dict_in (get "properties" plan)) [
    | none ↦ err (deployment_error "A response plan has invalid properties.")
    | some properties ↦
        with_priorities properties title (texts_or (some []) (get "priorities" properties))
  ]

  abbrev pub Plans : Type 0
  Plans = List (String × Fields)

  abbrev pub join_match : String → Result Bool → Result (List String) → Result (List String)
  join_match name (err e) rest = err e
  join_match name (ok b) (err e) = err e
  join_match name (ok b) (ok names) = ok (if b then name ∷ names else names)

  -- the names of the plans that take it, in order; the first error is the one raised
  unfoldable pub takers : String → Plans → Result (List String)
  takers title [] = ok []
  takers title ((name, plan) ∷ plans) =
      join_match name (takes_title title plan) (takers title plans)

  -- `documents[name] = plan`
  abbrev pub put_plan : String → Fields → Plans → Plans
  put_plan name plan [] = (name, plan) ∷ []
  put_plan name plan ((other, old) ∷ plans) =
      let rest = put_plan name plan plans in
      if str_eq other name then (name, plan) ∷ plans else (other, old) ∷ rest

  abbrev pub plan_name : Fields → String
  plan_name d = elim (get "name" d) [ some (text s) ↦ s | _ ↦ "" ]

  -- the plans of a collection by name; every item of one has a name
  abbrev pub plans_by_name : Plans → List Fields → Plans
  plans_by_name plans [] = plans
  plans_by_name plans (d ∷ ds) = plans_by_name (put_plan (plan_name d) d plans) ds

  abbrev pub is_only : String → List String → Bool
  is_only name (s ∷ []) = str_eq s name
  is_only name _ = false

  abbrev pub overlap : Result (Unit {0})
  overlap = err (
      deployment_error
        "The incident title matches another enabled response plan; resolve routing overlap first.")

  abbrev pub check_takers : Result (List String) → Result (Unit {0})
  check_takers (err e) = err e
  check_takers (ok names) = if is_only workflow_name names then ok tt else overlap

  abbrev pub both_ok : Result (Unit {0}) → Result (Unit {0}) → Result (Unit {0})
  both_ok (err e) r = err e
  both_ok (ok _) r = r

  abbrev pub check_titles : Plans → List String → Result (Unit {0})
  check_titles plans [] = ok tt
  check_titles plans (title ∷ titles) =
      both_ok (check_takers (takers title plans)) (check_titles plans titles)

  abbrev pub expect_match : String → Result Bool → Result (Unit {0})
  expect_match why (err e) = err e
  expect_match why (ok b) = if b then ok tt else err (deployment_error why)

  abbrev pub incident_alert_rules : List String
  incident_alert_rules = "alert-orders-postgresql-connectivity" ∷ []

  -- the plans as they will be
  abbrev pub planned : List Fields → Component → Component → Plans
  planned plans partitioned module_plan =
      put_plan workflow_name (fields_of module_plan)
        (put_plan response_plan_name (fields_of partitioned) (plans_by_name [] plans))

  unfoldable pub incident_routing_check : List Fields → Component → Component → Result (Unit {0})
  incident_routing_check plans partitioned module_plan =
      both_ok (check_titles (planned plans partitioned module_plan) incident_alert_rules) (
        both_ok
          (expect_match "The existing response plan would no longer route the CPU alert."
            (incident_title_matches partitioned.properties "alert-orders-high-cpu"))
          (expect_match "The existing response plan would no longer route the HTTP 5xx alert."
            (incident_title_matches partitioned.properties "alert-orders-http-5xx")))
