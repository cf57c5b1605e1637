-- ===== src/Cohort/Resolve.antt =====
-- `resolve_subscriptions` of scripts/cohort.py.
use sre_agent_workshop.Prelude.{ℕ, ◌+◌, Bool, true, false, not, ◌&&◌, List, [], ◌∷◌, String}
use sre_agent_workshop.Prelude.Text.{◌<>◌, str_eq, one_of, decimal}
use sre_agent_workshop.Exec.{
  Exec, cohort_error, key_error, type_error, value_error, other_error, pure, raise, raise_if,
  or_raise, ◌>>=◌, ◌>>◌,
}
use sre_agent_workshop.Json.{Value, null, text, object, get}
use sre_agent_workshop.Tools.Machine.{Machine}
use sre_agent_workshop.Tools.Cli.{az}
use sre_agent_workshop.Cohort.Model.{Subscription}

abbrev pub labelled : ℕ → String → String → Value → Subscription
labelled index id tenant_id name = record {
  id = id;
  tenant_id = tenant_id;
  name = name;
  label = "subscription-" <> decimal index;
}

unfoldable pub has_tenant : String → List Subscription → Bool
has_tenant tenant_id [] = true
has_tenant tenant_id (s ∷ subscriptions) =
    str_eq s.tenant_id tenant_id && has_tenant tenant_id subscriptions

-- `len({item["tenantId"] for item in subscriptions}) == 1`
abbrev pub one_tenant : List Subscription → Bool
one_tenant [] = false
one_tenant (s ∷ subscriptions) = has_tenant s.tenant_id subscriptions

module _ (m : Machine) where
  open m use {World, uuid}

  -- `account[key]`
  abbrev pub entry : String → Value → Exec World Value
  entry key (object d) = or_raise (get key d) (key_error key)
  entry key _ = raise (type_error "the account is no dictionary")

  -- `str(uuid.UUID(value))`: what is neither a text nor `None` has no `replace`
  abbrev pub uuid_of : Value → Exec World String
  uuid_of (text s) = or_raise (uuid s) (value_error "badly formed hexadecimal UUID string")
  uuid_of null =
      raise (type_error "one of the hex, bytes, bytes_le, fields, or int arguments must be given")
  uuid_of _ = raise (other_error "the value has no attribute 'replace'")

  abbrev pub show_account : String → Exec World Value
  show_account value = az m ("account" ∷ "show" ∷ "--subscription" ∷ value ∷ [])

  -- the loop from this index on, with the ids that it has seen
  unfoldable pub resolve_from : ℕ → List String → List String → Exec World (List Subscription)
  resolve_from index seen [] = pure []
  resolve_from index seen (value ∷ requested) = do
    account ← show_account value
    raw_id ← entry "id" account
    id ← uuid_of raw_id
    raise_if (one_of id seen)
        (cohort_error ("Subscription " <> id <> " was supplied more than once."))
    raw_tenant ← entry "tenantId" account
    tenant_id ← uuid_of raw_tenant
    name ← entry "name" account
    rest ← resolve_from (index + 1) (id ∷ seen) requested
    pure (labelled index id tenant_id name ∷ rest)

  unfoldable pub resolve_subscriptions : List String → Exec World (List Subscription)
  resolve_subscriptions requested = do
    subscriptions ← resolve_from 1 [] requested
    raise_if (not (one_tenant subscriptions)) (
        cohort_error
          "All workshop subscriptions must use the tenant containing the participant users.")
    pure subscriptions
