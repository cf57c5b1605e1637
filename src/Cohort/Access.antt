-- ===== src/Cohort/Access.antt =====
-- Role assignments of scripts/cohort.py: what a participant is given, and where.
use sre_agent_workshop.Prelude.{
  ℕ, zero, suc, ◌*◌, Bool, true, false, not, ◌&&◌, Option, none, some, List, [], ◌∷◌, String,
  if◌then◌else◌,
}
use sre_agent_workshop.Prelude.Text.{
  ◌<>◌, str_eq, ends_with, after_prefix, has_char, drop_chars, len,
}
use sre_agent_workshop.Exec.{
  Exec, Result, ok, err, cohort_error, type_error, other_error, pure, raise, lift, or_raise, ◌>>=◌,
  ◌>>◌,
}
use sre_agent_workshop.Json.{Value, text, array, object, Items, nil, cons, Fields, end, field, get}
use sre_agent_workshop.Tools.Machine.{Machine, str_of}
use sre_agent_workshop.Tools.Cli.{az}
use sre_agent_workshop.Cohort.Model.{Item}

abbrev pub contributor_role_id : String
contributor_role_id = "b24988ac-6180-42a0-ab88-20f7382dd24c"

abbrev pub sre_agent_standard_user_role_id : String
sre_agent_standard_user_role_id = "2d84a65a-63b2-4343-bbb6-31105d857bc1"

abbrev pub sre_agent_administrator_role_id : String
sre_agent_administrator_role_id = "e79298df-d852-4c6d-84f9-5d13249d1e55"

-- `for x in value` of a JSON value whose items are used as dictionaries: `None`, numbers and
-- truth values cannot be iterated, and the characters of a text and the keys of a dictionary have
-- no method `get`.
unfoldable pub dicts : Items → Result (List Fields)
dicts nil = ok []
dicts (cons (object d) items) = elim (dicts items) [ ok ds ↦ ok (d ∷ ds) | err e ↦ err e ]
dicts (cons _ items) = err (other_error "'get' is not an attribute of the item")

abbrev no_items : Bool → Result (List Fields)
no_items true = ok []
no_items false = err (other_error "'str' object has no attribute 'get'")

unfoldable pub iterate : Value → Result (List Fields)
unfolding dicts
iterate (array items) = dicts items
iterate (text s) = no_items (str_eq s "")
iterate (object end) = ok []
iterate (object (field _ _ _)) = no_items false
iterate _ = err (type_error "object is not iterable")

abbrev pub resource_group_scope : Item → String
resource_group_scope item =
    "/subscriptions/" <> item.subscription_id <> "/resourceGroups/" <> item.resource_group

module _ (m : Machine) where
  open m use {World, casefold, sleep}

  -- `str(d.get(key, ""))`
  abbrev pub field_text : String → Fields → String
  field_text key d = elim (get key d) [ none ↦ "" | some v ↦ str_of m v ]

  -- the test of the list comprehension in `role_assignments`
  unfoldable pub is_assignment : String → String → Fields → Bool
  is_assignment scope role_id assignment =
      str_eq (casefold (field_text "scope" assignment)) (casefold scope)
      && ends_with role_id (casefold (field_text "roleDefinitionId" assignment))

  abbrev pub keep : (Fields → Bool) → List Fields → List Fields
  keep test [] = []
  keep test (d ∷ ds) = if test d then d ∷ keep test ds else keep test ds

  -- `--assignee-object-id` of an item without an object id is `None`: `subprocess` refuses it
  abbrev pub assignee : Item → Exec World String
  assignee item = or_raise item.user_object_id (type_error "expected str, not NoneType")

  unfoldable pub role_assignments : Item → String → String → Exec World (List Fields)
  role_assignments item scope role_id = do
    object_id ← assignee item
    found ← az m (
        "role" ∷ "assignment" ∷ "list" ∷ "--assignee-object-id" ∷ object_id ∷ "--scope" ∷ scope
        ∷ "--fill-principal-name" ∷ "false" ∷ "--subscription" ∷ item.subscription_id ∷ [])
    assignments ← lift (iterate found)
    pure (keep (is_assignment scope role_id) assignments)

  abbrev pub is_empty : List Fields → Bool
  is_empty [] = true
  is_empty (_ ∷ _) = false

  -- `for _ in range(6)`, and the error behind the loop
  unfoldable pub await_assignment : ℕ → Item → String → String → String → Exec World (Unit {0})
  await_assignment zero item scope role_id role_name =
      raise
        (cohort_error (role_name <> " assignment was not visible for " <> item.participant <> "."))
  await_assignment (suc n) item scope role_id role_name = do
    found ← role_assignments item scope role_id
    if is_empty found
        then (do sleep (5 * 1_000_000_000); await_assignment n item scope role_id role_name)
        else pure tt

  unfoldable pub create_assignment : Item → String → String → Exec World Value
  create_assignment item scope role_id = do
    object_id ← assignee item
    az m (
        "role" ∷ "assignment" ∷ "create" ∷ "--assignee-object-id" ∷ object_id
        ∷ "--assignee-principal-type" ∷ "User" ∷ "--role" ∷ role_id ∷ "--scope" ∷ scope
        ∷ "--subscription" ∷ item.subscription_id ∷ [])

  unfoldable pub ensure_role_assignment : Item → String → String → String → Exec World (Unit {0})
  ensure_role_assignment item scope role_id role_name = do
    found ← role_assignments item scope role_id
    if is_empty found
        then (do
          create_assignment item scope role_id
          await_assignment 6 item scope role_id role_name)
        else pure tt

  -- the one element of a list of one, if it is a dictionary
  abbrev pub agents_of : Item → Value → Exec World Value
  agents_of item (array (cons agent nil)) = pure agent
  agents_of item _ =
      raise (cohort_error ("Expected exactly one SRE Agent in " <> item.resource_group <> "."))

  -- `scope.casefold().startswith(expected.casefold())` and no "/" in `scope[len(expected):]`
  unfoldable pub is_child_of : String → String → Bool
  is_child_of expected scope = elim (after_prefix (casefold expected) (casefold scope)) [
    | none ↦ false
    | some _ ↦ not (has_char b'/' (drop_chars (len expected) scope))
  ]

  abbrev scope_of : Item → Option Value → Exec World String
  scope_of item (some (text scope)) =
      if is_child_of (resource_group_scope item <> "/providers/Microsoft.App/agents/") scope
      then pure scope
      else raise (
          cohort_error
            ("Azure returned an invalid SRE Agent scope for " <> item.participant <> "."))
  scope_of item _ =
      raise
        (cohort_error ("Azure returned an invalid SRE Agent scope for " <> item.participant <> "."))

  -- `agents[0].get("id")`
  abbrev id_of : Value → Exec World (Option Value)
  id_of (object d) = pure (get "id" d)
  id_of _ = raise (other_error "the agent has no attribute 'get'")

  abbrev pub list_agents : Item → Exec World Value
  list_agents item = az m (
      "resource" ∷ "list" ∷ "--resource-group" ∷ item.resource_group ∷ "--resource-type"
      ∷ "Microsoft.App/agents" ∷ "--subscription" ∷ item.subscription_id ∷ [])

  unfoldable pub sre_agent_scope : Item → Exec World String
  sre_agent_scope item = do
    agents ← list_agents item
    agent ← agents_of item agents
    id ← id_of agent
    scope_of item id

  unfoldable pub ensure_participant_access : Item → Exec World (Unit {0})
  ensure_participant_access item = do
    ensure_role_assignment item (resource_group_scope item) contributor_role_id "Contributor"
    agent_scope ← sre_agent_scope item
    ensure_role_assignment item agent_scope sre_agent_standard_user_role_id
        "SRE Agent Standard User"
    ensure_role_assignment item agent_scope sre_agent_administrator_role_id
        "SRE Agent Administrator"
