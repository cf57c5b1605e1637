-- ===== src/Cohort/Environments.antt =====
-- `azd_environment_names` and `configure_environment` of scripts/cohort.py.
use sre_agent_workshop.Prelude.{
  Bool, true, false, not, ◌||◌, Option, none, some, List, [], ◌∷◌, String, if◌then◌else◌,
}
use sre_agent_workshop.Prelude.Text.{◌<>◌, str_eq, one_of}
use sre_agent_workshop.Exec.{
  Exec, Result, ok, err, cohort_error, type_error, value_error, other_error, pure, raise, raise_if,
  or_raise, lift, ◌>>=◌, ◌>>◌,
}
use sre_agent_workshop.Json.{
  Value, null, text, array, object, Items, nil, cons, Fields, end, field, get, is_falsy,
}
use sre_agent_workshop.Tools.Machine.{Machine, str_of}
use sre_agent_workshop.Tools.Cli.{cli, cli_timeout}
use sre_agent_workshop.Cohort.Model.{Item}

abbrev pub keys_of : Fields → List String
keys_of end = []
keys_of (field key _ d) = key ∷ keys_of d

abbrev pub letters_of : String → List String
letters_of String.[] = []
letters_of (String.◌∷◌ c s) = String.◌∷◌ c "" ∷ letters_of s

-- the value of a key, unless it is one that `or` replaces
abbrev pub truthy : Option Value → Option Value
truthy none = none
truthy (some v) = if is_falsy v then none else some v

-- `names.add(name)`: a list or a dictionary is no element of a set, and a number is no name
abbrev pub added : Option Value → List String → Result (List String)
added none names = ok names
added (some (text s)) names = ok (s ∷ names)
added (some (array _)) names = err (type_error "unhashable type: 'list'")
added (some (object _)) names = err (type_error "unhashable type: 'dict'")
added (some _) names = ok names

-- `item.get("name") or item.get("Name")`
abbrev pub name_in : Fields → Option Value
name_in d = elim (truthy (get "name" d)) [ some v ↦ some v | none ↦ truthy (get "Name" d) ]

unfoldable pub names_in : Items → List String → Result (List String)
names_in nil names = ok names
names_in (cons (text s) items) names = names_in items (s ∷ names)
names_in (cons (object d) items) names = elim (added (name_in d) names) [
  | ok more ↦ names_in items more
  | err e ↦ err e
]
names_in (cons _ items) names = names_in items names

-- `for item in items`
abbrev pub names_of : Value → Result (List String)
names_of (array items) = names_in items []
names_of (object d) = ok (keys_of d)
names_of (text s) = ok (letters_of s)
names_of _ = err (type_error "object is not iterable")

abbrev pub listed_names : Value → Result (List String)
listed_names (array items) = names_of (array items)
listed_names (object d) = elim (get "environments" d) [ none ↦ ok [] | some v ↦ names_of v ]
listed_names _ = err (other_error "the document has no attribute 'get'")

-- a value that is set and is another text
abbrev pub differs : Option Value → String → Bool
differs (some (text s)) expected = not (str_eq s expected)
differs (some v) expected = true
differs none expected = false

module _ (m : Machine) where
  open m use {World, casefold, json_loads, repr}

  -- the text of a value that is there
  abbrev pub shown : Option Value → String
  shown none = ""
  shown (some v) = str_of m v

  abbrev pub loads : String → Exec World Value
  loads s = or_raise (json_loads s) (value_error "invalid JSON")

  unfoldable pub azd_environment_names : Exec World (List String)
  azd_environment_names = do
    output ← cli m "azd" ("env" ∷ "list" ∷ "--output" ∷ "json" ∷ []) cli_timeout false
    document ← loads output
    lift (listed_names document)

  unfoldable pub set_azd_value : String → String → String → Exec World String
  set_azd_value environment key value =
      cli m "azd" ("env" ∷ "set" ∷ key ∷ value ∷ "--environment" ∷ environment ∷ "--no-prompt" ∷ [])
        cli_timeout false

  abbrev pub create_environment : String → Item → String → Exec World String
  create_environment location item environment =
      cli m "azd"
        ("env" ∷ "new" ∷ environment ∷ "--subscription" ∷ item.subscription_id ∷ "--location"
          ∷ location ∷ "--no-prompt" ∷ [])
        cli_timeout false

  -- the names with the new one
  unfoldable pub ensure_environment : String → Item → List String → Exec World (List String)
  ensure_environment location item existing =
      if one_of item.environment existing
      then pure existing
      else create_environment location item item.environment >> pure (item.environment ∷ existing)

  abbrev pub dict_of : Value → Exec World Fields
  dict_of (object d) = pure d
  dict_of _ = raise (other_error "the values have no attribute 'get'")

  unfoldable pub environment_values : String → Exec World Fields
  environment_values environment = do
    output ←
        cli m "azd"
          ("env" ∷ "get-values" ∷ "--environment" ∷ environment ∷ "--output" ∷ "json" ∷ [])
          cli_timeout false
    document ← loads output
    dict_of document

  -- one round of the loop: a value that is set is the expected one, up to case, and one that is not
  -- is set
  abbrev pub require_actual : String → String → String → Option Value → Exec World (Unit {0})
  require_actual environment key expected none = set_azd_value environment key expected >> pure tt
  require_actual environment key expected (some (text actual)) =
      raise_if (not (str_eq (casefold actual) (casefold expected))) (
        cohort_error (
          "azd environment "
          <> environment
          <> " has "
          <> key
          <> "="
          <> repr actual
          <> ", not "
          <> repr expected
          <> "."))
  require_actual environment key expected (some _) =
      raise (other_error "the value has no attribute 'casefold'")

  unfoldable pub require_value : String → Fields → String → String → Exec World (Unit {0})
  require_value environment values key expected =
      require_actual environment key expected (truthy (get key values))

  -- `values.get("VM_SIZE") not in (None, "", state["vmSize"])`
  abbrev pub is_other_size : Option Value → String → Bool
  is_other_size none vm_size = false
  is_other_size (some null) vm_size = false
  is_other_size (some (text s)) vm_size = not (str_eq s "" || str_eq s vm_size)
  is_other_size (some _) vm_size = true

  abbrev pub set_group : String → Option Value → Item → Exec World (Unit {0})
  set_group environment none item =
      set_azd_value environment "WORKSHOP_RESOURCE_GROUP_NAME" item.resource_group >> pure tt
  set_group environment (some _) item = pure tt

  abbrev pub not_targeted : String → Fields → Item → String → Exec World (Unit {0})
  not_targeted environment values item output_name =
      raise_if (differs (truthy (get output_name values)) item.resource_group) (
        cohort_error (
          "azd environment "
          <> environment
          <> " was previously deployed to "
          <> shown (get output_name values)
          <> ", not "
          <> item.resource_group
          <> "."))

  -- behind the values: the group and the size
  unfoldable pub configure_values : String → Item → Fields → Exec World (Unit {0})
  configure_values vm_size item values = do
    raise_if (differs (truthy (get "WORKSHOP_RESOURCE_GROUP_NAME" values)) item.resource_group) (
        cohort_error (
          "azd environment "
          <> item.environment
          <> " targets "
          <> shown (get "WORKSHOP_RESOURCE_GROUP_NAME" values)
          <> ", not "
          <> item.resource_group
          <> "."))
    not_targeted item.environment values item "RESOURCE_GROUP"
    not_targeted item.environment values item "AZURE_RESOURCE_GROUP"
    set_group item.environment (truthy (get "WORKSHOP_RESOURCE_GROUP_NAME" values)) item
    raise_if (is_other_size (get "VM_SIZE" values) vm_size) (
        cohort_error (
          "azd environment "
          <> item.environment
          <> " uses VM_SIZE="
          <> shown (get "VM_SIZE" values)
          <> ", not "
          <> vm_size
          <> "."))
    set_azd_value item.environment "VM_SIZE" vm_size
    pure tt

  abbrev pub configure_existing : String → String → Item → Exec World (Unit {0})
  configure_existing location vm_size item = do
    values ← environment_values item.environment
    require_value item.environment values "AZURE_SUBSCRIPTION_ID" item.subscription_id
    require_value item.environment values "AZURE_LOCATION" location
    configure_values vm_size item values
