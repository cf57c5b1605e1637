-- ===== src/Cohort/Roster.antt =====
-- `participant_records` of scripts/cohort.py: the names of the participants, and their
-- subscriptions in turn.
use sre_agent_workshop.Prelude.{
  ℕ, zero, suc, ◌+◌, ◌-◌, ◌%◌, leb, ltb, ◌==◌, Bool, false, not, ◌&&◌, ◌||◌, Option, none, some,
  List, [], ◌∷◌, String, length, get_elem?, if◌then◌else◌,
}
use Prim.Native.Char.{code}
use sre_agent_workshop.Prelude.Text.{◌<>◌, len, every, is_digit, is_letter, pad2}
use sre_agent_workshop.Exec.{Result, ok, err, cohort_error, other_error}
use sre_agent_workshop.Cohort.Model.{Item, Subscription, Deployment, Validation, Rbac, Status}

abbrev pub is_alnum : ℕ → Bool
is_alnum c = is_letter c || is_digit c

-- whether the first and the last character are letters or digits
abbrev pub begins_alnum : String → Bool
begins_alnum String.[] = false
begins_alnum (String.◌∷◌ c _) = is_alnum (code c)

unfoldable pub ends_alnum : String → Bool
ends_alnum String.[] = false
ends_alnum (String.◌∷◌ c String.[]) = is_alnum (code c)
ends_alnum (String.◌∷◌ c (String.◌∷◌ d s)) = ends_alnum (String.◌∷◌ d s)

-- `[A-Za-z0-9](?:[A-Za-z0-9-]{0,61}[A-Za-z0-9])?`, matched in full
unfoldable pub is_user_prefix : String → Bool
unfolding ends_alnum
is_user_prefix s =
    leb (len s) 63 && begins_alnum s && ends_alnum s && every (λ c. is_alnum c || c == b'-') s

-- `[A-Za-z0-9](?:[A-Za-z0-9.-]{0,251}[A-Za-z0-9])?`, matched in full
unfoldable pub is_user_domain : String → Bool
unfolding ends_alnum
is_user_domain s =
    leb (len s) 253
    && begins_alnum s
    && ends_alnum s
    && every (λ c. is_alnum c || c == b'-' || c == b'.') s

abbrev pub participant_name : ℕ → String
participant_name number = "participant-" <> pad2 number

abbrev pub new_item : ℕ → String → String → Subscription → Item
new_item number local_part user_domain subscription = record {
  number = number;
  participant = participant_name number;
  user_principal_name = local_part <> "@" <> user_domain;
  user_object_id = none;
  environment = participant_name number;
  resource_group = "rg-" <> pad2 number;
  subscription_id = subscription.id;
  subscription_label = subscription.label;
  deployment = Deployment.pending;
  validation = Validation.pending;
  rbac = Rbac.pending;
  status = Status.pending;
  attempts = 0;
  duration_seconds = none;
  error = none;
  started_utc = none;
  completed_utc = none;
}

abbrev pub of_subscription : String → ℕ → String → Option Subscription → Result Item
of_subscription user_domain number local_part none = err (other_error "integer modulo by zero")
of_subscription user_domain number local_part (some subscription) =
    ok (new_item number local_part user_domain subscription)

abbrev pub cons_result : Result Item → Result (List Item) → Result (List Item)
cons_result (err e) _ = err e
cons_result (ok _) (err e) = err e
cons_result (ok item) (ok items) = ok (item ∷ items)

module _ (subscriptions : List Subscription) (user_prefix user_domain : String) (first : ℕ) where
  -- The body of the loop. `% len(subscriptions)` of an empty list is a `ZeroDivisionError`.
  unfoldable pub record_at : ℕ → Result Item
  record_at number =
      let local_part = user_prefix <> "-" <> pad2 number in
      if ltb 64 (len local_part)
      then err (cohort_error "Generated participant UPN local part exceeds 64 characters.")
      else of_subscription user_domain number local_part
          (get_elem? subscriptions ((number - first) % length subscriptions))

  -- `for number in range(number, number + count)`
  unfoldable pub records_from : ℕ → ℕ → Result (List Item)
  records_from zero number = ok []
  records_from (suc count) number = cons_result (record_at number) (records_from count (number + 1))

unfoldable pub participant_records :
    ℕ → List Subscription → String → String → ℕ → Result (List Item)
participant_records count subscriptions user_prefix user_domain first =
    if not (leb 1 count && leb count 20)
    then err (cohort_error "--participants must be between 1 and 20.")
    else if not (leb 1 first && leb first 99)
    then err (cohort_error "--first-participant must be between 1 and 99.")
    else if not (is_user_prefix user_prefix)
    then err (cohort_error "--user-prefix must contain only letters, digits, and internal hyphens.")
    else if not (is_user_domain user_domain)
    then err (cohort_error "--user-domain is not a valid DNS domain.")
    else records_from subscriptions user_prefix user_domain first count first
