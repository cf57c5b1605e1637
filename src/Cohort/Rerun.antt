-- ===== src/Cohort/Rerun.antt =====
-- What a rerun of `load_or_create_state` of scripts/cohort.py keeps.
use sre_agent_workshop.Prelude.{
  ℕ, zero, suc, ◌≤◌, ◌<◌, ◌≡◌, refl, ap, sym, ◌∙◌, ltb, true, false, some, List, [], ◌∷◌, ◌++◌,
  String, length, get_elem?, drop, arith, eq_iff,
}
use sre_agent_workshop.Exec.{Result, ok, lift, ◌>>=◌}
use sre_agent_workshop.Exec.Triple.{
  Triple, Triple-if, Triple-bind, Triple-error, Triple-lift, Triple-ok,
}
use sre_agent_workshop.Tools.Machine.{Machine}
use sre_agent_workshop.Cohort.Model.{Item, Subscription, Cohort}
use sre_agent_workshop.Cohort.Store.{Store, save_state}
use sre_agent_workshop.Cohort.Roster.{participant_records}
use sre_agent_workshop.Cohort.Plan.{
  DeployArguments, saved_first, same_ids, subscription_ids, check_saved, extended, remember, resume,
  from_file, load_or_create_state,
}
use sre_agent_workshop.Cohort.Frame.{save_state-Keeps}
use mathlib.Core.List.{append-nil}
use sre_agent_workshop.Cohort.Names.{get_elem?-lt, IsNumbered, participant_records-IsNumbered}

same_ids-true : (xs ys : List String) → same_ids xs ys ≡ true → xs ≡ ys
same_ids-true [] [] e = refl
same_ids-true [] (y ∷ ys) e = cc
same_ids-true (x ∷ xs) [] e = cc
same_ids-true (x ∷ xs) (y ∷ ys) e = ground (arith, eq_iff x y, same_ids-true xs ys)

length-extend :
    {A : Type 0} (xs ys : List A)
    → length xs ≤ length ys
    → length (xs ++ drop (length xs) ys) ≡ length ys
length-extend [] ys h = refl
length-extend (x ∷ xs) [] h = absurd (omega arith)
length-extend (x ∷ xs) (y ∷ ys) h = ap suc (length-extend xs ys (omega arith))

get_elem?-extend :
    {A : Type 0} (xs ys : List A) (k : ℕ)
    → length xs ≤ length ys
    → length xs ≤ k
    → get_elem? (xs ++ drop (length xs) ys) k ≡ get_elem? ys k
get_elem?-extend [] ys k l h = refl
get_elem?-extend (x ∷ xs) ys zero l h = absurd (omega arith)
get_elem?-extend (x ∷ xs) [] (suc k) l h = absurd (omega arith)
get_elem?-extend (x ∷ xs) (y ∷ ys) (suc k) l h =
    get_elem?-extend xs ys k (omega arith) (omega arith)

-- The saved state agrees with the arguments.
pub record IsSame (args : DeployArguments) (subscriptions : List Subscription) (saved : Cohort)
    : Type 0 where
  pub location : saved.location ≡ args.location
  pub vm_size : saved.vm_size ≡ args.vm_size
  pub user_prefix : saved.user_prefix ≡ args.user_prefix
  pub user_domain : saved.user_domain ≡ args.user_domain
  pub first : saved_first saved ≡ args.first_participant
  pub subscriptions_same : subscription_ids saved.subscriptions ≡ subscription_ids subscriptions
  pub grows : length saved.participants ≤ args.participants

check_saved-IsSame :
    (args : DeployArguments) (subscriptions : List Subscription) (saved : Cohort)
    → check_saved args subscriptions saved ≡ ok tt
    → IsSame args subscriptions saved
unfolding check_saved
check_saved-IsSame args subscriptions saved e = record {
  location = ground (arith, eq_iff saved.location args.location);
  vm_size = ground (arith, eq_iff saved.vm_size args.vm_size);
  user_prefix = ground (arith, eq_iff saved.user_prefix args.user_prefix);
  user_domain = ground (arith, eq_iff saved.user_domain args.user_domain);
  first = ground arith;
  subscriptions_same = ground (
    arith,
    same_ids-true (subscription_ids saved.subscriptions) (subscription_ids subscriptions),
  );
  grows = ground arith;
}

-- The saved participants come first, as they were; those behind them are new.
pub record Extends (args : DeployArguments) (subscriptions : List Subscription)
    (saved state : Cohort) : Type 0 where
  pub same : IsSame args subscriptions saved
  pub extra : List Item
  pub kept : state.participants ≡ saved.participants ++ extra
  pub full : length state.participants ≡ args.participants
  pub new_numbered :
      (k : ℕ) (item : Item)
      → length saved.participants ≤ k
      → get_elem? state.participants k ≡ some item
      → IsNumbered subscriptions args.first_participant k item
  pub rest_same : state ≡ record saved { participants = state.participants }

module _ (m : Machine) (args : DeployArguments) (subscriptions : List Subscription)
    (saved : Cohort) where
  open m use {World}

  abbrev requests : Result (List Item)
  requests =
      participant_records args.participants subscriptions args.user_prefix args.user_domain
        args.first_participant

  extended-Extends :
      (requested : List Item)
      → requests ≡ ok requested
      → IsSame args subscriptions saved
      → Extends args subscriptions saved (extended saved requested)
  extended-Extends requested e same =
      let (long, _, _, each) =
        participant_records-IsNumbered subscriptions args.user_prefix args.user_domain
          args.first_participant args.participants requested e in
      let enough = enough_of (length requested) long in
      record {
        same = same;
        extra = drop (length saved.participants) requested;
        kept = refl;
        full = length-extend saved.participants requested enough ∙ long;
        new_numbered = λ k item h g.
            each k item (sym (get_elem?-extend saved.participants requested k enough h) ∙ g);
        rest_same = refl;
      }
    where
      enough_of : (n : ℕ) → n ≡ args.participants → length saved.participants ≤ n
      enough_of n e = rw e same.grows

  same-Extends :
      IsSame args subscriptions saved
      → ltb (length saved.participants) args.participants ≡ false
      → Extends args subscriptions saved saved
  same-Extends same c = record {
    same = same;
    extra = [];
    kept = sym (append-nil saved.participants);
    full = ground (arith, same.grows);
    new_numbered = λ k item h g. past k item h (get_elem?-lt saved.participants k item g);
    rest_same = refl;
  }
    where
      past :
          (k : ℕ) (item : Item)
          → length saved.participants ≤ k
          → k < length saved.participants
          → IsNumbered subscriptions args.first_participant k item
      past k item h l = absurd (omega arith)

  resume-Extends :
      (requested : List Item)
      → requests ≡ ok requested
      → IsSame args subscriptions saved
      → Triple
          (λ _. Unit)
          (resume m args requested saved)
          (λ _ s. Extends args subscriptions saved s.state)
          (λ _ _. Unit)
  unfolding resume
  resume-Extends requested e same =
      Triple-if (ltb (length saved.participants) args.participants) _ _
        (λ _.
          Triple-bind {A = Unit {0}} (λ _ s. Extends args subscriptions saved s.state)
            (remember m (extended saved requested)) (λ _. save_state m)
            (record { at = λ s _. extended-Extends requested e same })
            λ _.
              Triple-error {m = save_state m}
                (save_state-Keeps m (λ c. Extends args subscriptions saved c)) λ _ _ _. tt)
        (λ c. record { at = λ s _. same-Extends same c })

  from_file-Extends :
      (requested : List Item)
      → requests ≡ ok requested
      → Triple
          (λ _. Unit)
          (from_file m args subscriptions requested (some saved))
          (λ _ s. Extends args subscriptions saved s.state)
          (λ _ _. Unit)
  from_file-Extends requested e =
      Triple-bind (λ _ _. check_saved args subscriptions saved ≡ ok tt) _ _
        (Triple-lift (check_saved args subscriptions saved) (λ _ p _ _. p))
        λ _. record {
          at = λ s p.
              (resume-Extends requested e (check_saved-IsSame args subscriptions saved p)).at s tt;
        }

  loaded :
      Triple
        (λ _. Unit)
        (do requested ← lift requests; from_file m args subscriptions requested (some saved))
        (λ _ s. Extends args subscriptions saved s.state)
        (λ _ _. Unit)
  loaded =
      Triple-bind (λ requested _. requests ≡ ok requested) _ _ (Triple-lift requests (λ _ p _ _. p))
        λ requested. record { at = λ s p. (from_file-Extends requested p).at s tt }

  -- A rerun that `load_or_create_state` accepts agrees with the saved cohort in its location, size,
  -- names and subscriptions; it keeps every saved participant in its place and as it was, has as many
  -- participants as were asked for, and numbers the new ones on from the saved ones.
  pub load_or_create_state-Extends :
      (s : Store World)
      → s.state_file ≡ some saved
      → (load_or_create_state m args subscriptions s).0 ≡ ok tt
      → Extends args subscriptions saved (load_or_create_state m args subscriptions s).1.state
  unfolding load_or_create_state
  load_or_create_state-Extends s f e =
      rw f (Triple-ok loaded (record s { state_file = some saved }) tt tt (rw f at e))
