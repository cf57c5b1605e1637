-- ===== src/Cohort/Readiness.antt =====
-- What it means that `deploy` of scripts/cohort.py returns.
use sre_agent_workshop.Prelude.{
  ℕ, zero, suc, ◌≡◌, true, not, ◌&&◌, Bool-cases, inl, inr, some, List, [], ◌∷◌, String, length,
  get_elem?, leb, ◌==◌, arith,
}
use sre_agent_workshop.Exec.{Exec, ok, raise_if, do_if}
use sre_agent_workshop.Exec.Triple.{Triple, Triple-bind, Triple-any, Triple-ok}
use sre_agent_workshop.Tools.Machine.{Machine}
use sre_agent_workshop.Cohort.Model.{Item, Status}
use sre_agent_workshop.Cohort.Store.{Store, outside, item_at}
use sre_agent_workshop.Cohort.Plan.{DeployArguments, load_or_create_state}
use sre_agent_workshop.Cohort.Resolve.{resolve_subscriptions}
use sre_agent_workshop.Cohort.Environments.{azd_environment_names}
use sre_agent_workshop.Cohort.Preflight.{Checks, preflight}
use sre_agent_workshop.Cohort.Whole.{
  is_ready, count_failures, is_none, prepare_from, Progress, report_failures, deploy_loaded, deploy,
}

-- Every participant is ready.
abbrev pub AllReady : {W : Type 0} → Store W → Type 0
AllReady s = (i : ℕ) (item : Item) → item_at i s ≡ some item → item.status ≡ Status.ready

is_ready-true : (status : Status) → is_ready status ≡ true → status ≡ Status.ready
is_ready-true status e = ground arith

none_failed :
    (x : Item) (items : List Item)
    → count_failures (x ∷ items) ≡ 0
    → (is_ready x.status ≡ true) × (count_failures items ≡ 0)
none_failed x items h = elim (Bool-cases (is_ready x.status)) [
  | inl c ↦ (c, (rw c at h))
  | inr c ↦ absurd (impossible (rw c at h))
]
  where
    impossible : suc (count_failures items) ≡ 0 → ⊥
    impossible h = omega arith

count_failures-zero :
    (items : List Item) (i : ℕ) (item : Item)
    → count_failures items ≡ 0
    → get_elem? items i ≡ some item
    → item.status ≡ Status.ready
count_failures-zero [] i item h e = cc
count_failures-zero (x ∷ items) zero item h e =
    let same : x ≡ item = cc in rw (← same) (is_ready-true x.status (none_failed x items h).0)
count_failures-zero (x ∷ items) (suc i) item h e =
    count_failures-zero items i item (none_failed x items h).1 e

is_zero : (n : ℕ) → n == 0 ≡ true → n ≡ 0
is_zero n e = ground arith

module _ (m : Machine) where
  open m use {World}

  report_failures_lem : Triple (λ _. Unit) (report_failures m) (λ _ s. AllReady s) (λ _ _. Unit)
  unfolding report_failures
  report_failures_lem = record {
    at = λ s _. elim (Bool-cases (count_failures s.state.participants == 0)) [
      | inl c ↦ rw c (λ i item.
          count_failures-zero s.state.participants i item
            (is_zero (count_failures s.state.participants) c))
      | inr c ↦ rw c tt
    ];
  }

  module _ (deploy_parallel : List ℕ → Exec (Store World) (Unit {0})) where
    deploy_loaded_lem :
        (existing : List String)
        → Triple
            (λ _. Unit)
            (deploy_loaded m deploy_parallel existing)
            (λ _ s. AllReady s)
            (λ _ _. Unit)
    unfolding deploy_loaded
    deploy_loaded_lem existing = record {
      at = λ s.
          (Triple-bind {A = Progress} {P = λ _. Unit} (λ _ _. Unit)
              (prepare_from m (length s.state.participants) 0
                (record { existing = existing; pending = [] }))
              _ (Triple-any _)
              λ p.
                Triple-bind (λ _ _. Unit)
                  (do_if (not (is_none p.pending)) (deploy_parallel p.pending))
                  (λ _. report_failures m) (Triple-any _) λ _. report_failures_lem).at
            s;
    }

    deploy_lem :
        (checks : Checks m) (args : DeployArguments)
        → Triple
            (λ _. Unit)
            (deploy m checks deploy_parallel args)
            (λ _ s. AllReady s)
            (λ _ _. Unit)
    unfolding deploy
    deploy_lem checks args =
        Triple-bind (λ _ _. Unit)
          (raise_if
            (not (leb 1 args.parallel_per_subscription && leb args.parallel_per_subscription 3)) _)
          _ (Triple-any _)
          λ _.
            Triple-bind (λ _ _. Unit) (outside (resolve_subscriptions m args.subscriptions)) _
              (Triple-any _)
              λ subscriptions.
                Triple-bind (λ _ _. Unit) (load_or_create_state m args subscriptions) _
                  (Triple-any _)
                  λ _.
                    Triple-bind (λ _ _. Unit) (preflight m checks) _ (Triple-any _)
                      λ _.
                        Triple-bind (λ _ _. Unit) (outside (azd_environment_names m)) _
                          (Triple-any _) λ existing. deploy_loaded_lem existing

    -- Where `deploy` returns, whatever its threads have done, every participant is ready.
    pub deploy-AllReady :
        (checks : Checks m) (args : DeployArguments) (s : Store World)
        → (deploy m checks deploy_parallel args s).0 ≡ ok tt
        → AllReady (deploy m checks deploy_parallel args s).1
    deploy-AllReady checks args s e = Triple-ok (deploy_lem checks args) s tt tt e
