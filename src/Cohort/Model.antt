-- ===== src/Cohort/Model.antt =====
-- The saved state of scripts/cohort.py: the participants, their subscriptions and the cohort.
-- The texts of the four progress fields are the constructors, in the source's words.
use sre_agent_workshop.Prelude.{ℕ, Option, List, String}
use sre_agent_workshop.Json.{Value}

pub data Deployment : Type 0 where
  pending running succeeded failed removed : Deployment

-- `not_applicable` is "-"
pub data Validation : Type 0 where
  pending running passed failed not_applicable : Validation

-- `granted` is `PARTICIPANT_ACCESS`
pub data Rbac : Type 0 where
  pending running granted failed removed : Rbac

pub data Status : Type 0 where
  pending deploying validating assigning_rbac ready failed cleaned cleanup_failed : Status

-- an entry of `state["participants"]`; the duration is in tenths of a second
pub record Item : Type 0 where
  pub number : ℕ
  pub participant : String
  pub user_principal_name : String
  pub user_object_id : Option String
  pub environment : String
  pub resource_group : String
  pub subscription_id : String
  pub subscription_label : String
  pub deployment : Deployment
  pub validation : Validation
  pub rbac : Rbac
  pub status : Status
  pub attempts : ℕ
  pub duration_seconds : Option ℕ
  pub error : Option String
  pub started_utc : Option String
  pub completed_utc : Option String

pub record Subscription : Type 0 where
  pub id : String
  pub tenant_id : String
  -- `account["name"]`, as Azure returns it
  pub name : Value
  pub label : String

-- `first_participant` is missing in a state of an earlier version of the tool.
pub record Cohort : Type 0 where
  pub location : String
  pub vm_size : String
  pub user_prefix : String
  pub user_domain : String
  pub first_participant : Option ℕ
  pub subscriptions : List Subscription
  pub participants : List Item
  pub created_utc : String

-- an entry of the roster that is handed out
pub record RosterEntry : Type 0 where
  pub participant : String
  pub subscription : String
  pub environment : String
  pub resource_group : String
  pub status : Status
