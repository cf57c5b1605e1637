-- ===== src/Cohort/Users.antt =====
-- `resolve_users`, `verify_authentication` and `inspect_resource_group` of scripts/cohort.py.
use sre_agent_workshop.Prelude.{
  ℕ, zero, suc, ◌+◌, ltb, ◌==◌, Bool, false, not, Option, none, some, List, [], ◌∷◌, String,
  if◌then◌else◌,
}
use sre_agent_workshop.Prelude.Text.{◌<>◌, str_eq, one_of, len}
use sre_agent_workshop.Prelude.Search.{replace}
use sre_agent_workshop.Exec.{
  Exec, Result, ok, err, cohort_error, type_error, key_error, other_error, pure, raise, raise_if,
  lift, ◌>>=◌, ◌>>◌,
}
use sre_agent_workshop.Json.{
  Value, boolean, text, array, object, Items, nil, cons, Fields, end, field, get, is_true,
}
use sre_agent_workshop.Tools.Machine.{Machine, str_of}
use sre_agent_workshop.Tools.Cli.{az}
use sre_agent_workshop.Cohort.Model.{Item}
use sre_agent_workshop.Cohort.Store.{Store, outside}
use sre_agent_workshop.Cohort.Resolve.{entry, uuid_of}
use sre_agent_workshop.Cohort.Cleanup.{set_item, group_exists, group_show, tags_of, tags_match}

abbrev pub identified : String → Item → Item
identified object_id item = record item { user_object_id = some object_id }

-- `len(value)`, and `value[0]`
abbrev pub count_fields : Fields → ℕ
count_fields end = 0
count_fields (field _ _ d) = suc (count_fields d)

abbrev pub count_values : Items → ℕ
count_values nil = 0
count_values (cons _ items) = suc (count_values items)

abbrev pub length_of : Value → Result ℕ
length_of (array items) = ok (count_values items)
length_of (object d) = ok (count_fields d)
length_of (text s) = ok (len s)
length_of _ = err (type_error "the object has no len()")

abbrev pub first_of : Value → Result Value
first_of (array (cons v _)) = ok v
first_of (text s) = ok (text s)
first_of (object _) = err (key_error "0")
first_of _ = err (other_error "list index out of range")

-- `item.get("userObjectId") not in (None, object_id)`
abbrev pub is_other : Option String → String → Bool
is_other none object_id = false
is_other (some known) object_id = not (str_eq known object_id)

module _ (m : Machine) where
  open m use {World, casefold, quote, json_loads}

  -- `d.get(key)`
  abbrev pub got : String → Value → Exec World (Option Value)
  got key (object d) = pure (get key d)
  got key _ = raise (other_error "the value has no attribute 'get'")

  abbrev pub user_url : Item → String
  user_url item =
      "https://graph.microsoft.com/v1.0/users/"
      <> quote item.user_principal_name
      <> "?$select=id,userPrincipalName,accountEnabled,userType"

  abbrev pub show_user : Item → Exec World Value
  show_user item = az m (
      "rest"
      ∷ "--method"
      ∷ "get"
      ∷ "--url"
      ∷ user_url item
      ∷ "--resource"
      ∷ "https://graph.microsoft.com"
      ∷ [])

  -- the object id of one participant, that none of these is
  unfoldable pub resolve_user : Item → List String → Exec World String
  resolve_user item seen = do
    user ← show_user item
    enabled ← got "accountEnabled" user
    raise_if (not (is_true enabled)) (cohort_error (item.user_principal_name <> " is disabled."))
    raw_id ← entry m "id" user
    object_id ← uuid_of m raw_id
    raise_if (one_of object_id seen)
        (cohort_error "Two participant UPNs resolved to the same Entra object.")
    raise_if (is_other item.user_object_id object_id)
        (cohort_error (item.user_principal_name <> " now resolves to a different Entra object."))
    pure object_id

  -- the items from this position on
  unfoldable pub resolve_users_from : ℕ → List String → List Item → Exec (Store World) (Unit {0})
  resolve_users_from i seen [] = pure tt
  resolve_users_from i seen (item ∷ items) = do
    object_id ← outside (resolve_user item seen)
    set_item m i (identified object_id)
    resolve_users_from (i + 1) (object_id ∷ seen) items

  unfoldable pub resolve_users : Exec (Store World) (Unit {0})
  resolve_users s = resolve_users_from 0 [] s.state.participants s

  -- `type(exists) is not bool`
  abbrev pub bool_of : Value → Exec World Bool
  bool_of (boolean b) = pure b
  bool_of _ = raise (cohort_error "Azure returned an invalid resource-group existence response.")

  -- `str(group.get("location", ""))`
  abbrev pub location_text : Option Value → String
  location_text none = ""
  location_text (some v) = str_of m v

  -- `vm.get("hardwareProfile", {}).get("vmSize", "").casefold()`
  abbrev pub size_in : Option Value → Exec World String
  size_in none = pure (casefold "")
  size_in (some (text s)) = pure (casefold s)
  size_in (some _) = raise (other_error "the size has no attribute 'casefold'")

  abbrev pub profile_size : Option Value → Exec World String
  profile_size none = size_in none
  profile_size (some profile) = do size ← got "vmSize" profile; size_in size

  unfoldable pub size_of : Value → Exec World String
  size_of vm = do profile ← got "hardwareProfile" vm; profile_size profile

  abbrev pub check_size : Item → String → ℕ → Value → Exec World (Unit {0})
  check_size item vm_size (suc zero) machines = do
    vm ← lift (first_of machines)
    size ← size_of vm
    raise_if (not (str_eq size (casefold vm_size)))
        (cohort_error (item.resource_group <> " contains a VM that is not " <> vm_size <> "."))
  check_size item vm_size _ machines = pure tt

  abbrev pub list_machines : Item → Exec World Value
  list_machines item = az m (
      "vm" ∷ "list" ∷ "--resource-group" ∷ item.resource_group ∷ "--subscription"
      ∷ item.subscription_id ∷ [])

  -- behind the question whether the group exists
  unfoldable pub inspect_group : Item → String → String → Exec World Bool
  inspect_group item location vm_size = do
    group ← group_show m item
    tags ← lift (tags_of group)
    raise_if (not (tags_match item tags)) (
        cohort_error (item.resource_group <> " already exists without the matching workshop tags."))
    place ← got "location" group
    raise_if (not (str_eq (casefold (replace " " "" (location_text place))) (casefold location)))
        (cohort_error (item.resource_group <> " already exists outside " <> location <> "."))
    machines ← list_machines item
    count ← lift (length_of machines)
    raise_if (ltb 1 count) (
        cohort_error
          (item.resource_group <> " contains more than one VM and is not a valid workshop scope."))
    check_size item vm_size count machines
    pure (count == 1)

  unfoldable pub inspect_resource_group : Item → String → String → Exec World Bool
  inspect_resource_group item location vm_size = do
    answer ← group_exists m item
    exists ← bool_of answer
    if exists then inspect_group item location vm_size else pure false
