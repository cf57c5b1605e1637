-- ===== src/Cohort/Plan.antt =====
-- `load_or_create_state` of scripts/cohort.py: a rerun keeps the saved cohort and may only extend it.
use sre_agent_workshop.Prelude.{
  ℕ, ltb, ◌==◌, Bool, true, false, not, ◌&&◌, Option, none, some, List, [], ◌∷◌, ◌++◌, map, String,
  length, drop, if◌then◌else◌,
}
use sre_agent_workshop.Prelude.Text.{◌<>◌, str_eq, decimal}
use sre_agent_workshop.Exec.{Exec, Result, ok, err, cohort_error, lift, ◌>>=◌, ◌>>◌}
use sre_agent_workshop.Tools.Machine.{Machine}
use sre_agent_workshop.Cohort.Model.{Item, Subscription, Cohort}
use sre_agent_workshop.Cohort.Roster.{participant_records}
use sre_agent_workshop.Cohort.Store.{Store, outside, save_state}

-- the arguments of `deploy`, behind argparse
pub record DeployArguments : Type 0 where
  pub participants : ℕ
  pub first_participant : ℕ
  pub subscriptions : List String
  pub user_prefix : String
  pub user_domain : String
  pub location : String
  pub vm_size : String
  pub parallel_per_subscription : ℕ

-- `state.get("firstParticipant", 1)`
abbrev pub saved_first : Cohort → ℕ
saved_first state = elim state.first_participant [ none ↦ 1 | some first ↦ first ]

abbrev pub same_ids : List String → List String → Bool
same_ids [] [] = true
same_ids (a ∷ as') (b ∷ bs) = str_eq a b && same_ids as' bs
same_ids _ _ = false

abbrev pub subscription_ids : List Subscription → List String
subscription_ids = map (λ subscription. subscription.id)

-- the checks of a saved state against the arguments, in order
unfoldable pub check_saved : DeployArguments → List Subscription → Cohort → Result (Unit {0})
check_saved args subscriptions state =
    if not (str_eq state.location args.location)
    then err (cohort_error ("The saved cohort uses location=" <> state.location <> "."))
    else if not (str_eq state.vm_size args.vm_size)
    then err (cohort_error ("The saved cohort uses vmSize=" <> state.vm_size <> "."))
    else if not (str_eq state.user_prefix args.user_prefix)
    then err (cohort_error ("The saved cohort uses userPrefix=" <> state.user_prefix <> "."))
    else if not (str_eq state.user_domain args.user_domain)
    then err (cohort_error ("The saved cohort uses userDomain=" <> state.user_domain <> "."))
    else if not (saved_first state == args.first_participant)
    then err (
        cohort_error
          ("The saved cohort uses firstParticipant=" <> decimal (saved_first state) <> "."))
    else if not (same_ids (subscription_ids state.subscriptions) (subscription_ids subscriptions))
    then err (
        cohort_error
          "Subscription order differs from the saved cohort and would remap participants.")
    else if ltb args.participants (length state.participants)
    then err (
        cohort_error (
          "The saved cohort already contains "
          <> decimal (length state.participants)
          <> " participants; a deployment rerun cannot reduce it."))
    else ok tt

abbrev pub new_cohort : DeployArguments → List Subscription → List Item → String → Cohort
new_cohort args subscriptions requested now = record {
  location = args.location;
  vm_size = args.vm_size;
  user_prefix = args.user_prefix;
  user_domain = args.user_domain;
  first_participant = some args.first_participant;
  subscriptions = subscriptions;
  participants = requested;
  created_utc = now;
}

-- `state["participants"].extend(requested[existing_count:])`
abbrev pub extended : Cohort → List Item → Cohort
extended state requested = record state {
  participants = state.participants ++ drop (length state.participants) requested;
}

module _ (m : Machine) where
  open m use {World, utc_now}

  abbrev pub remember : Cohort → Exec (Store World) (Unit {0})
  remember state s = (ok tt, record s { state = state })

  -- the saved state, that has passed the checks, becomes the state in memory
  unfoldable pub resume : DeployArguments → List Item → Cohort → Exec (Store World) (Unit {0})
  resume args requested saved =
      if ltb (length saved.participants) args.participants
      then remember (extended saved requested) >> save_state m
      else remember saved

  -- `STATE_PATH.exists()` and the file's content are the option
  abbrev pub from_file :
      DeployArguments
      → List Subscription
      → List Item
      → Option Cohort
      → Exec (Store World) (Unit {0})
  from_file args subscriptions requested none = do
    now ← outside utc_now
    remember (new_cohort args subscriptions requested now)
    save_state m
  from_file args subscriptions requested (some saved) = do
    lift (check_saved args subscriptions saved)
    resume args requested saved

  -- The file that is read, if there is one, is a cohort that `save_state` has written.
  unfoldable pub load_or_create_state :
      DeployArguments → List Subscription → Exec (Store World) (Unit {0})
  load_or_create_state args subscriptions s =
      (do
        requested ← lift (
            participant_records args.participants subscriptions args.user_prefix args.user_domain
              args.first_participant)
        from_file args subscriptions requested s.state_file)
        s
