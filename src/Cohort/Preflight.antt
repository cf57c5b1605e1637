-- ===== src/Cohort/Preflight.antt =====
-- `verify_authentication` and `preflight` of scripts/cohort.py.
use sre_agent_workshop.Prelude.{
  ℕ, ◌+◌, ◌==◌, Bool, true, false, not, ◌&&◌, Option, none, some, List, [], ◌∷◌, String,
  if◌then◌else◌,
}
use sre_agent_workshop.Prelude.Text.{str_eq}
use sre_agent_workshop.Exec.{
  Exec, Result, ok, err, cohort_error, other_error, pure, raise_if, lift, do_if, ◌>>=◌, ◌>>◌,
}
use sre_agent_workshop.Json.{Value}
use sre_agent_workshop.Tools.Machine.{Machine}
use sre_agent_workshop.Tools.Cli.{cli, cli_timeout, az_with}
use sre_agent_workshop.Tools.Monitoring.{Values}
use sre_agent_workshop.Cohort.Model.{
  Item, Cohort, Subscription, Deployment, Validation, Rbac, Status,
}
use sre_agent_workshop.Cohort.Store.{Store, outside, item_at, save_state}
use sre_agent_workshop.Cohort.Resolve.{entry}
use sre_agent_workshop.Cohort.Cleanup.{set_item}
use sre_agent_workshop.Cohort.Environments.{loads}
use sre_agent_workshop.Cohort.Deploy.{is_succeeded}
use sre_agent_workshop.Cohort.Users.{resolve_users, inspect_resource_group}

-- The checks of scripts/workshop.py that the preflight calls, in its words.
pub record Checks (m : Machine) : Type 0 where
  pub register_providers : String → String → Exec m.World (Unit {0})
  pub ensure_public_ip_feature : Values → Exec m.World (Unit {0})
  pub check_sre_agent_region : Values → Exec m.World (Unit {0})
  pub check_postgresql_capacity : Values → Exec m.World (Unit {0})
  -- without the check of an existing machine, for this number of new ones
  pub check_vm_capacity : Values → ℕ → Exec m.World (Unit {0})
  -- the principal and the tenant in a token
  pub token_identity : Value → Result (String × String)

abbrev pub set_back : Item → Item
set_back item = record item {
  deployment = Deployment.pending;
  validation = Validation.pending;
  rbac = Rbac.pending;
  status = Status.pending;
}

abbrev pub preflight_values : Cohort → Subscription → Values
preflight_values state subscription =
    ("AZURE_LOCATION", state.location)
    ∷ ("AZURE_SUBSCRIPTION_ID", subscription.id)
    ∷ ("VM_SIZE", state.vm_size)
    ∷ []

abbrev pub same_identity : String × String → String × String → Bool
same_identity (a, b) (c, d) = str_eq a c && str_eq b d

abbrev pub first_subscription : List Subscription → Result Subscription
first_subscription [] = err (other_error "list index out of range")
first_subscription (s ∷ _) = ok s

-- the positions, from this one on, of the items of one subscription
abbrev pub assigned_to : String → ℕ → List Item → List ℕ
assigned_to id i [] = []
assigned_to id i (item ∷ items) =
    let rest = assigned_to id (i + 1) items in
    if str_eq item.subscription_id id then i ∷ rest else rest

module _ (m : Machine) (checks : Checks m) where
  open m use {World}

  unfoldable pub verify_authentication : Cohort → Exec World (Unit {0})
  verify_authentication state = do
    subscription ← lift (first_subscription state.subscriptions)
    answer ← az_with m cli_timeout true (
        "account" ∷ "get-access-token" ∷ "--resource" ∷ "https://management.azure.com/"
        ∷ "--subscription" ∷ subscription.id ∷ [])
    token ← entry m "accessToken" answer
    output ←
        cli m "azd"
          ("auth" ∷ "token" ∷ "--tenant-id" ∷ subscription.tenant_id ∷ "--scope"
            ∷ "https://management.azure.com/.default" ∷ "--output" ∷ "json" ∷ [])
          cli_timeout true
    document ← loads m output
    azd_token ← entry m "token" document
    identity ← lift (checks.token_identity token)
    azd_identity ← lift (checks.token_identity azd_token)
    raise_if (not (same_identity identity azd_identity))
        (cohort_error "Azure CLI and azd must use the same principal and tenant.")

  -- A participant without a machine counts as new, and loses a deployment that had succeeded.
  abbrev pub count_new : ℕ → Item → Bool → Exec (Store World) ℕ
  count_new i item true = pure 0
  count_new i item false = do do_if (is_succeeded item.deployment) (set_item m i set_back); pure 1

  unfoldable pub inspect_item : ℕ → Item → Exec (Store World) ℕ
  inspect_item i item s =
      (do
        has_vm ← outside (inspect_resource_group m item s.state.location s.state.vm_size)
        count_new i item has_vm)
        s

  abbrev pub inspect_at : ℕ → Option Item → Exec (Store World) ℕ
  inspect_at i none = pure 0
  inspect_at i (some item) = inspect_item i item

  -- how many new machines the participants at these positions need
  unfoldable pub inspect_assigned : List ℕ → Exec (Store World) ℕ
  inspect_assigned [] s = (ok 0, s)
  inspect_assigned (i ∷ rest) s =
      (do new ← inspect_at i (item_at i s); more ← inspect_assigned rest; pure (new + more)) s

  unfoldable pub preflight_subscription : Subscription → Exec (Store World) (Unit {0})
  preflight_subscription subscription s =
      let values = preflight_values s.state subscription in
      (do
        outside (checks.register_providers subscription.id s.state.location)
        outside (checks.ensure_public_ip_feature values)
        outside (checks.check_sre_agent_region values)
        outside (checks.check_postgresql_capacity values)
        new_instances ← inspect_assigned (assigned_to subscription.id 0 s.state.participants)
        do_if (not (new_instances == 0)) (outside (checks.check_vm_capacity values new_instances)))
        s

  unfoldable pub preflight_all : List Subscription → Exec (Store World) (Unit {0})
  preflight_all [] = pure tt
  preflight_all (subscription ∷ subscriptions) =
      preflight_subscription subscription >> preflight_all subscriptions

  unfoldable pub preflight : Exec (Store World) (Unit {0})
  preflight s =
      (do
        resolve_users m
        outside (verify_authentication s.state)
        preflight_all s.state.subscriptions
        save_state m)
        s
