-- ===== src/Faults/Rule.antt =====
-- `postgresql_fault_status` and `deploy_postgresql_fault` of scripts/workshop.py.
use sre_agent_workshop.Prelude.{
  ℕ, zero, suc, ◌*◌, ◌==◌, Bool, true, false, not, Option, none, some, List, [], ◌∷◌, String,
  if◌then◌else◌,
}
use sre_agent_workshop.Prelude.Int.{pos}
use sre_agent_workshop.Prelude.Text.{◌<>◌, str_eq}
use sre_agent_workshop.Exec.{Exec, deployment_error, type_error, pure, raise, raise_if, ◌>>=◌, ◌>>◌}
use sre_agent_workshop.Json.{Value, int, float, dyadic, text, array, object, Fields, get, is_text}
use sre_agent_workshop.Tools.Machine.{Machine}
use sre_agent_workshop.Tools.Cli.{az, az_within}
use sre_agent_workshop.Tools.Monitoring.{Values, required}

pub data Access : Type 0 where
  allow deny : Access

pub record FaultStatus : Type 0 where
  pub is_active : Bool
  pub access : Access

abbrev power_of_two : ℕ → ℕ
power_of_two zero = 1
power_of_two (suc n) = 2 * power_of_two n

-- a number that Python finds equal to this one
unfoldable pub is_number : ℕ → Value → Bool
is_number n (int (pos k)) = k == n
is_number n (float (dyadic (pos k) e)) = k == n * power_of_two e
is_number n _ = false

abbrev pub matches : (Value → Bool) → Option Value → Bool
matches test none = false
matches test (some v) = test v

-- the keys of `expected` with the test of each value, in order
abbrev pub expected_rule : List (String × (Value → Bool))
expected_rule =
    ("priority", is_number 100)
    ∷ ("direction", is_text "Outbound")
    ∷ ("protocol", is_text "Tcp")
    ∷ ("sourceAddressPrefix", is_text "10.240.0.0/27")
    ∷ ("sourcePortRange", is_text "*")
    ∷ ("destinationAddressPrefix", is_text "10.240.0.32/27")
    ∷ ("destinationPortRange", is_text "5432")
    ∷ []

abbrev pub status_of : Access → FaultStatus
status_of allow = record { is_active = false; access = allow }
status_of deny = record { is_active = true; access = deny }

abbrev pub same : Bool → Bool → Bool
same true b = b
same false b = not b

module _ (m : Machine) where
  open m use {World, fault_template}

  unfoldable pub check_rule : List (String × (Value → Bool)) → Fields → Exec World (Unit {0})
  check_rule [] rule = pure tt
  check_rule ((key, test) ∷ expected) rule = do
    raise_if (not (matches test (get key rule))) (
        deployment_error ("PostgreSQL fault rule " <> key <> " is not the expected bounded value."))
    check_rule expected rule

  abbrev pub bad_access : Exec World Access
  bad_access = raise (deployment_error "PostgreSQL fault rule has an unexpected access state.")

  -- `access not in {"Allow", "Deny"}`: a list or a dictionary cannot be looked up in a set
  abbrev pub access_of : Option Value → Exec World Access
  access_of (some (text s)) =
      if str_eq s "Allow" then pure allow else if str_eq s "Deny" then pure deny else bad_access
  access_of (some (array _)) = raise (type_error "unhashable type: 'list'")
  access_of (some (object _)) = raise (type_error "unhashable type: 'dict'")
  access_of _ = bad_access

  unfoldable pub status_of_rule : Fields → Exec World FaultStatus
  status_of_rule rule = do
    check_rule expected_rule rule
    access ← access_of (get "access" rule)
    pure (status_of access)

  abbrev pub status_of_value : Value → Exec World FaultStatus
  status_of_value (object rule) = status_of_rule rule
  status_of_value _ = raise (deployment_error "Azure did not return the PostgreSQL fault rule.")

  unfoldable pub show_rule : Values → Exec World Value
  show_rule values = do
    group ← required m values "RESOURCE_GROUP"
    nsg ← required m values "NETWORK_SECURITY_GROUP_NAME"
    name ← required m values "POSTGRESQL_FAULT_RULE_NAME"
    subscription ← required m values "AZURE_SUBSCRIPTION_ID"
    az m (
        "network" ∷ "nsg" ∷ "rule" ∷ "show" ∷ "--resource-group" ∷ group ∷ "--nsg-name" ∷ nsg
        ∷ "--name" ∷ name ∷ "--subscription" ∷ subscription ∷ [])

  unfoldable pub postgresql_fault_status : Values → Exec World FaultStatus
  postgresql_fault_status values = do rule ← show_rule values; status_of_value rule

  abbrev pub flag : Bool → String
  flag inject = "injectPostgresqlFault=" <> (if inject then "true" else "false")

  unfoldable pub deploy_rule : Values → Bool → Exec World Value
  deploy_rule values inject = do
    group ← required m values "RESOURCE_GROUP"
    subscription ← required m values "AZURE_SUBSCRIPTION_ID"
    nsg ← required m values "NETWORK_SECURITY_GROUP_NAME"
    az_within m 300 (
        "deployment"
        ∷ "group"
        ∷ "create"
        ∷ "--name"
        ∷ "orders-postgresql-fault"
        ∷ "--resource-group"
        ∷ group
        ∷ "--subscription"
        ∷ subscription
        ∷ "--template-file"
        ∷ fault_template
        ∷ "--parameters"
        ∷ ("networkSecurityGroupName=" <> nsg)
        ∷ flag inject
        ∷ [])

  unfoldable pub deploy_postgresql_fault : Values → Bool → Exec World FaultStatus
  deploy_postgresql_fault values inject = do
    deploy_rule values inject
    result ← postgresql_fault_status values
    raise_if (not (same inject result.is_active)) (
        deployment_error (
          "PostgreSQL fault rule did not reach the "
          <> (if inject then "active" else "inactive")
          <> " state."))
    pure result
