-- ===== src/Tools/Removal.antt =====
-- `remove_monitoring_contributor` of scripts/workshop.py on a machine whose clock runs.
use sre_agent_workshop.Prelude.{ℕ, zero, suc, Option, none, some, List, [], ◌∷◌, String, arith}
use sre_agent_workshop.Prelude.Text.{str_eq, strip}
use sre_agent_workshop.Exec.Triple.{Triple-result, Triple-if}
use sre_agent_workshop.Json.{Value, null, boolean, int, float, text, array, object, Fields, get}
use sre_agent_workshop.Tools.Machine.{Machine}
use sre_agent_workshop.Tools.Steady.{
  Steady, IsSteady, pure-Steady, raise-Steady, bind-Steady, or_raise-Steady, az-Steady,
}
use sre_agent_workshop.Tools.Monitoring.{
  Values, value_of, not_blank, required, guid, at_most_one, assignments_in, matching,
  subscription_scope, role_definition_of, monitoring_contributor_assignments, assignment_id_of,
  is_assignment_id, await_removal, no_more, remove_first, remove_monitoring_contributor,
}

module _ (m : Machine) (steady : IsSteady m) (k : ℕ) where
  open m use {World, sleep}
  open steady use {now}

  pub not_blank-Steady : (key : String) (o : Option String) → Steady now k (not_blank m key o)
  not_blank-Steady key none = raise-Steady now k _ λ e. cc
  not_blank-Steady key (some value) =
      Triple-if (str_eq (strip value) "") _ _ (λ _. raise-Steady now k _ λ e. cc)
        λ _. pure-Steady now k value

  pub required-Steady : (values : Values) (key : String) → Steady now k (required m values key)
  unfolding required
  required-Steady values key = not_blank-Steady key (value_of key values)

  at_most_one-Steady : (ds : List Fields) → Steady now k (at_most_one m ds)
  at_most_one-Steady [] = pure-Steady now k _
  at_most_one-Steady (d ∷ []) = pure-Steady now k _
  at_most_one-Steady (d ∷ e ∷ rest) = raise-Steady now k _ λ e. cc

  assignments_in-Steady :
      (scope role : String) (v : Value) → Steady now k (assignments_in m scope role v)
  assignments_in-Steady scope role (array items) = at_most_one-Steady (matching m scope role items)
  assignments_in-Steady scope role null = raise-Steady now k _ λ e. cc
  assignments_in-Steady scope role (boolean b) = raise-Steady now k _ λ e. cc
  assignments_in-Steady scope role (int i) = raise-Steady now k _ λ e. cc
  assignments_in-Steady scope role (float f) = raise-Steady now k _ λ e. cc
  assignments_in-Steady scope role (text s) = raise-Steady now k _ λ e. cc
  assignments_in-Steady scope role (object d) = raise-Steady now k _ λ e. cc

  guid-Steady : (value : String) → Steady now k (guid m value)
  guid-Steady value = or_raise-Steady now k _ _ λ e. cc

  assignments-Steady :
      (values : Values) → Steady now k (monitoring_contributor_assignments m values)
  unfolding monitoring_contributor_assignments
  assignments-Steady values =
      bind-Steady now k _ _ (required-Steady values "AZURE_SUBSCRIPTION_ID") λ subscription.
        bind-Steady now k _ _ (required-Steady values "SRE_AGENT_IDENTITY_PRINCIPAL_ID")
          λ principal. bind-Steady now k _ _ (guid-Steady subscription) λ _.
            bind-Steady now k _ _ (guid-Steady principal) λ _.
              bind-Steady now k _ _ (az-Steady m steady k _) λ found.
                assignments_in-Steady (subscription_scope subscription)
                  (role_definition_of subscription) found

  assignment_id_of-Steady :
      (scope : String) (o : Option Value) → Steady now k (assignment_id_of m scope o)
  assignment_id_of-Steady scope none = raise-Steady now k _ λ e. cc
  assignment_id_of-Steady scope (some (text id)) =
      Triple-if (is_assignment_id scope id) _ _ (λ _. pure-Steady now k id)
        λ _. raise-Steady now k _ λ e. cc
  assignment_id_of-Steady scope (some null) = raise-Steady now k _ λ e. cc
  assignment_id_of-Steady scope (some (boolean b)) = raise-Steady now k _ λ e. cc
  assignment_id_of-Steady scope (some (int i)) = raise-Steady now k _ λ e. cc
  assignment_id_of-Steady scope (some (float f)) = raise-Steady now k _ λ e. cc
  assignment_id_of-Steady scope (some (array items)) = raise-Steady now k _ λ e. cc
  assignment_id_of-Steady scope (some (object d)) = raise-Steady now k _ λ e. cc

  sleep-Steady : (d : ℕ) → Steady now k (sleep d)
  sleep-Steady d = Triple-result (steady.sleep_on k d) λ _ w h. omega arith

  await_removal-Steady : (n : ℕ) (values : Values) → Steady now k (await_removal m n values)
  unfolding await_removal
  await_removal-Steady zero values = raise-Steady now k _ λ e. cc
  await_removal-Steady (suc n) values = bind-Steady now k _ _ (assignments-Steady values) λ left.
      Triple-if (no_more left) _ _ (λ _. pure-Steady now k tt)
        λ _. bind-Steady now k _ _ (sleep-Steady _) λ _. await_removal-Steady n values

  remove_first-Steady :
      (values : Values) (ds : List Fields) → Steady now k (remove_first m values ds)
  unfolding remove_first
  remove_first-Steady values [] = pure-Steady now k tt
  remove_first-Steady values (d ∷ rest) =
      bind-Steady now k _ _ (required-Steady values "AZURE_SUBSCRIPTION_ID") λ subscription.
        bind-Steady now k _ _
          (assignment_id_of-Steady (subscription_scope subscription) (get "id" d))
          λ id. bind-Steady now k _ _ (az-Steady m steady k _) λ _. await_removal-Steady 6 values

  pub remove_monitoring_contributor-Steady :
      (values : Values) → Steady now k (remove_monitoring_contributor m values)
  unfolding remove_monitoring_contributor
  remove_monitoring_contributor-Steady values =
      bind-Steady now k _ _ (assignments-Steady values) λ ds. remove_first-Steady values ds
