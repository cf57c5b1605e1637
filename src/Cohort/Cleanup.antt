-- ===== src/Cohort/Cleanup.antt =====
-- `sre_agent_runtime_principal`, `cleanup_target` and `cleanup` of scripts/cohort.py.
use sre_agent_workshop.Prelude.{
  ℕ, zero, suc, ◌+◌, ◌*◌, ltb, ◌==◌, Bool, true, false, not, ◌&&◌, Option, none, some, List, [],
  ◌∷◌, String, if◌then◌else◌,
}
use sre_agent_workshop.Prelude.Int.{ℤ, pos}
use sre_agent_workshop.Prelude.Text.{◌<>◌, str_eq, every, is_digit, decimal, pad2, parse_int}
use sre_agent_workshop.Exec.{
  Exec, Error, Result, ok, err, cohort_error, other_error, os_error, key_error, type_error,
  diverged, is_deployment, message, pure, raise, raise_if, lift, try_except, ◌>>=◌, ◌>>◌,
}
use sre_agent_workshop.Json.{
  is_falsy, Value, null, boolean, text, array, object, nil, cons, Fields, end, field, get,
  holds_text,
}
use sre_agent_workshop.Tools.Machine.{Machine}
use sre_agent_workshop.Tools.Cli.{az}
use sre_agent_workshop.Tools.Monitoring.{remove_monitoring_contributor}
use sre_agent_workshop.Cohort.Model.{Item, Cohort, Deployment, Validation, Rbac, Status}
use sre_agent_workshop.Cohort.Store.{Store, outside, item_at, change, save_state}
use sre_agent_workshop.Cohort.Access.{resource_group_scope, list_agents, is_child_of}

abbrev pub architecture : String
architecture = "single-vm-postgresql-v1"

-- the key of a dictionary of one entry
abbrev pub only_key : Option Value → Option String
only_key (some (object (field key _ end))) = some key
only_key _ = none

-- `identity.get("userAssignedIdentities") if isinstance(identity, dict) else None`
abbrev pub assigned_of : Option Value → Option Value
assigned_of (some (object d)) = get "userAssignedIdentities" d
assigned_of _ = none

abbrev pub principal_of : Value → Option Value
principal_of (object d) = get "principalId" d
principal_of _ = none

-- both tags are the workshop's and the participant's
unfoldable pub tags_match : Item → Fields → Bool
tags_match item tags =
    holds_text architecture (get "workshop-architecture" tags)
    && holds_text item.environment (get "azd-env-name" tags)

abbrev pub cleaned : Item → Item
cleaned item = record item { status = Status.cleaned }

abbrev pub removed : Item → Item
removed item = record item {
  deployment = Deployment.removed;
  validation = Validation.not_applicable;
  rbac = Rbac.removed;
  error = none;
}

abbrev pub cleanup_failed : String → Item → Item
cleanup_failed why item = record item { status = Status.cleanup_failed; error = some why }

-- the classes that `cleanup` catches
abbrev pub is_tolerated : Error → Bool
is_tolerated (cohort_error _) = true
is_tolerated (os_error _) = true
is_tolerated (key_error _) = true
is_tolerated (type_error _) = true
is_tolerated e = is_deployment e

abbrev pub no_tags : Bool → Result Fields
no_tags true = ok end
no_tags false = err (other_error "the tags have no attribute 'get'")

-- `group.get("tags") or {}`, used as a dictionary
abbrev pub tags_in : Option Value → Result Fields
tags_in none = ok end
tags_in (some (object d)) = ok d
tags_in (some v) = no_tags (is_falsy v)

abbrev pub tags_of : Value → Result Fields
tags_of (object d) = tags_in (get "tags" d)
tags_of _ = err (other_error "the group has no attribute 'get'")

abbrev pub is_false : Value → Bool
is_false (boolean b) = not b
is_false _ = false

-- 1200 s in steps of 15 s, and the round that finds the time over
abbrev pub deletion_rounds : ℕ
deletion_rounds = 81

module _ (m : Machine) where
  open m use {World, uuid, monotonic, sleep}

  -- `agents[0].get("identity")`
  abbrev pub identity_of : Value → Exec World (Option Value)
  identity_of (object d) = pure (get "identity" d)
  identity_of _ = raise (other_error "the agent has no attribute 'get'")

  abbrev pub one_identity : Item → Option String → Exec World String
  one_identity item none =
      raise (cohort_error ("Expected one SRE Agent UAMI for " <> item.participant <> "."))
  one_identity item (some identity_id) =
      if is_child_of m
        (resource_group_scope item
          <> "/providers/Microsoft.ManagedIdentity/userAssignedIdentities/")
        identity_id
      then pure identity_id
      else raise (
          cohort_error ("Azure returned an invalid SRE Agent UAMI for " <> item.participant <> "."))

  abbrev pub invalid_principal : Item → Exec World String
  invalid_principal item = raise (
      cohort_error
        ("Azure returned an invalid SRE Agent UAMI principal for " <> item.participant <> "."))

  -- `uuid.UUID(principal)`: what is neither a text nor `None` has no `replace`
  abbrev pub valid_principal : Item → Option Value → Exec World String
  valid_principal item none = invalid_principal item
  valid_principal item (some null) = invalid_principal item
  valid_principal item (some (text principal)) = elim (uuid principal) [
    | none ↦ invalid_principal item
    | some _ ↦ pure principal
  ]
  valid_principal item (some _) = raise (other_error "the principal has no attribute 'replace'")

  unfoldable pub principal_of_agent : Item → Value → Exec World String
  principal_of_agent item agent = do
    identity ← identity_of agent
    identity_id ← one_identity item (only_key (assigned_of identity))
    document ←
        az m (
          "identity" ∷ "show" ∷ "--ids" ∷ identity_id ∷ "--subscription" ∷ item.subscription_id
          ∷ [])
    valid_principal item (principal_of document)

  abbrev pub some_of : Exec World String → Exec World (Option String)
  some_of a = do found ← a; pure (some found)

  abbrev pub principal_in : Item → Value → Exec World (Option String)
  principal_in item (array nil) = pure none
  principal_in item (array (cons agent nil)) = some_of (principal_of_agent item agent)
  principal_in item (array _) =
      raise (cohort_error ("Expected at most one SRE Agent in " <> item.resource_group <> "."))
  principal_in item _ = raise (
      cohort_error
        ("Azure returned an invalid SRE Agent inventory for " <> item.participant <> "."))

  unfoldable pub sre_agent_runtime_principal : Item → Exec World (Option String)
  sre_agent_runtime_principal item = do agents ← list_agents m item; principal_in item agents

  unfoldable pub group_exists : Item → Exec World Value
  group_exists item = az m (
      "group" ∷ "exists" ∷ "--name" ∷ item.resource_group ∷ "--subscription" ∷ item.subscription_id
      ∷ [])

  unfoldable pub group_show : Item → Exec World Value
  group_show item = az m (
      "group" ∷ "show" ∷ "--name" ∷ item.resource_group ∷ "--subscription" ∷ item.subscription_id
      ∷ [])

  unfoldable pub group_delete : Item → Exec World Value
  group_delete item = az m (
      "group" ∷ "delete" ∷ "--name" ∷ item.resource_group ∷ "--subscription" ∷ item.subscription_id
      ∷ "--yes" ∷ "--no-wait" ∷ [])

  abbrev pub remove_principal : Item → Option String → Exec World (Unit {0})
  remove_principal item none = pure tt
  remove_principal item (some String.[]) = pure tt
  remove_principal item (some (String.◌∷◌ c principal)) = remove_monitoring_contributor m (
      ("AZURE_SUBSCRIPTION_ID", item.subscription_id)
      ∷ ("SRE_AGENT_IDENTITY_PRINCIPAL_ID", String.◌∷◌ c principal)
      ∷ [])

  -- `time.sleep(15)` between the looks; the clock counts nanoseconds
  abbrev pub look_again : Exec World (Unit {0}) → Bool → Exec World (Unit {0})
  look_again next true = pure tt
  look_again next false = sleep (15 * 1_000_000_000) >> next

  unfoldable pub await_deletion : ℕ → Item → ℕ → Exec World (Unit {0})
  await_deletion zero item deadline = raise diverged
  await_deletion (suc fuel) item deadline = do
    t ← monotonic
    if ltb t deadline
        then (do
          exists ← group_exists item
          look_again (await_deletion fuel item deadline) (is_false exists))
        else raise (cohort_error ("Deletion of " <> item.resource_group <> " exceeded 20 minutes."))

  unfoldable pub delete_group : Item → Exec World (Unit {0})
  delete_group item = do
    principal ← sre_agent_runtime_principal item
    remove_principal item principal
    group_delete item
    t ← monotonic
    await_deletion deletion_rounds item (t + 1_200 * 1_000_000_000)

  abbrev pub refuse : Item → Exec World (Unit {0})
  refuse item = raise (
      cohort_error
        ("Refusing to delete " <> item.resource_group <> ": workshop tags do not match."))

  unfoldable pub delete_checked : Item → Exec World (Unit {0})
  delete_checked item = do
    group ← group_show item
    tags ← lift (tags_of group)
    if tags_match item tags then delete_group item else refuse item

  abbrev pub by_existence : Item → Value → Exec World (Unit {0})
  by_existence item (boolean false) = pure tt
  by_existence item (boolean true) = delete_checked item
  by_existence item _ =
      raise (cohort_error "Azure returned an invalid resource-group existence response.")

  -- everything but the item's status, that is set where this returns
  unfoldable pub delete_target : Item → Exec World (Unit {0})
  delete_target item = do exists ← group_exists item; by_existence item exists

  -- `item.update` without a save
  abbrev pub set_item : ℕ → (Item → Item) → Exec (Store World) (Unit {0})
  set_item i f s = (ok tt, change m i f s)

  unfoldable pub cleanup_target : ℕ → Item → Exec (Store World) (Unit {0})
  cleanup_target i item = outside (delete_target item) >> set_item i cleaned

  -- the `try` of one target: whether it has failed
  unfoldable pub try_target : ℕ → Item → Exec (Store World) Bool
  try_target i item =
      try_except (do cleanup_target i item; set_item i removed; pure false) is_tolerated
        (λ error. do set_item i (cleanup_failed (message error)); pure true)

  unfoldable pub cleanup_one : ℕ → Item → Exec (Store World) Bool
  cleanup_one i item = do failed ← try_target i item; save_state m; pure failed

  abbrev pub cleanup_of : ℕ → Option Item → Exec (Store World) Bool
  cleanup_of i none = pure false
  cleanup_of i (some item) = cleanup_one i item

  abbrev pub count_if : Bool → ℕ → ℕ
  count_if true n = n + 1
  count_if false n = n

  -- the loop over the targets: how many have failed
  unfoldable pub cleanup_targets : List ℕ → ℕ → Exec (Store World) ℕ
  cleanup_targets [] failures s = (ok failures, s)
  cleanup_targets (i ∷ targets) failures s =
      (do failed ← cleanup_of i (item_at i s); cleanup_targets targets (count_if failed failures)) s

-- the arguments of `cleanup`, behind argparse
pub record CleanupArguments : Type 0 where
  pub yes : Bool
  pub all : Bool
  pub participant : Option String

-- `selector and selector.isdigit()`, over ASCII
abbrev pub padded : Option ℤ → String → String
padded (some (pos n)) s = "participant-" <> pad2 n
padded _ s = s

unfoldable pub selector_of : String → String
selector_of s = if not (str_eq s "") && every is_digit s then padded (parse_int s) s else s

abbrev pub is_selected : Option String → Item → Bool
is_selected none item = false
is_selected (some selector) item = str_eq item.participant (selector_of selector)

-- the positions, from this one on, of the items that are selected
abbrev pub positions : (Item → Bool) → ℕ → List Item → List ℕ
positions test i [] = []
positions test i (item ∷ items) =
    let rest = positions test (i + 1) items in if test item then i ∷ rest else rest

abbrev pub nobody : List ℕ → Bool
nobody [] = true
nobody (_ ∷ _) = false

abbrev pub name_of : Option String → String
name_of none = "None"
name_of (some s) = s

abbrev pub targets_of : CleanupArguments → List Item → Result (List ℕ)
targets_of args items =
    if args.all
    then ok (positions (λ _. true) 0 items)
    else let targets = positions (is_selected args.participant) 0 items in
      if nobody targets
      then err (cohort_error ("Unknown participant: " <> name_of args.participant))
      else ok targets

module _ (m : Machine) where
  open m use {World}

  abbrev pub load : Cohort → Exec (Store World) (Unit {0})
  load saved s = (ok tt, record s { state = saved })

  unfoldable pub cleanup_saved : CleanupArguments → Cohort → Exec (Store World) (Unit {0})
  cleanup_saved args saved = do
    load saved
    targets ← lift (targets_of args saved.participants)
    failures ← cleanup_targets m targets 0
    raise_if (not (failures == 0))
        (cohort_error ("Cleanup failed for " <> decimal failures <> " participant environment(s)."))

  abbrev pub cleanup_from : CleanupArguments → Option Cohort → Exec (Store World) (Unit {0})
  cleanup_from args none = raise (cohort_error "Cohort state does not exist.")
  cleanup_from args (some saved) = cleanup_saved args saved

  unfoldable pub cleanup : CleanupArguments → Exec (Store World) (Unit {0})
  cleanup args s =
      if args.yes
      then cleanup_from args s.state_file s
      else (err (cohort_error "Cleanup requires --yes."), s)
