-- ===== src/Cohort/Results.antt =====
-- What scripts/cohort.py promises of a participant's deployment.
use sre_agent_workshop.Prelude.{
  ◌∙◌, ap, ◌-◌, ℕ, ◌+◌, ◌≡◌, ◌≢◌, refl, ◌⊎◌, inl, inr, some, String, get_elem?,
}
use sre_agent_workshop.Exec.{Result, ok, err}
use sre_agent_workshop.Exec.Triple.{Ends, Triple, Triple-pure, Triple-bind, Triple-error}
use sre_agent_workshop.Tools.Machine.{Machine}
use sre_agent_workshop.Cohort.Model.{Item, Cohort}
use sre_agent_workshop.Cohort.Store.{Store, item_at, change}
use sre_agent_workshop.Cohort.Track.{
  Tracks, IsSaved, outside-Tracks, update_item-Tracks, update_item-Saves, get_elem?-modify_ne,
}
use sre_agent_workshop.Cohort.Deploy.{
  Stage, deployment, validation, rbac, begin, set_duration, stages, finally, deploy_item,
  deploy_participant,
}
use sre_agent_workshop.Cohort.Settle.{stages-Settled}
use sre_agent_workshop.Cohort.Stages.{StageFailed, IsFailed, Attempted, Settled, Begun}
use sre_agent_workshop.Cohort.Frame.{Both-elim, deploy_participant-Keeps}

-- No attempt has been counted, or one.
abbrev pub Interrupted : Item → Item → Type 0
Interrupted before item = (item.attempts ≡ before.attempts) ⊎ Attempted before item

timed_stage :
    (stage : Stage) (item : Item) (tenths : ℕ)
    → StageFailed stage item
    → StageFailed stage (set_duration tenths item)
timed_stage deployment item tenths p = p
timed_stage validation item tenths p = p
timed_stage rbac item tenths p = p

timed-IsFailed : (item : Item) (tenths : ℕ) → IsFailed item → IsFailed (set_duration tenths item)
timed-IsFailed item tenths f = record {
  stage = f.stage;
  stage_failed = timed_stage f.stage item tenths f.stage_failed;
  failed = f.failed;
  why = f.why;
  explained = f.explained;
}

pub timed_settled :
    (m : Machine) (before item : Item) (tenths : ℕ)
    → Settled m before item
    → Settled m before (set_duration tenths item)
timed_settled m before item tenths (a, inl r) = (
  a,
  inl (record {
    deployed = r.deployed;
    deployment_ran = r.deployment_ran;
    validated = r.validated;
    validation_ran = r.validation_ran;
    granted = r.granted;
    access_ran = r.access_ran;
    ready = r.ready;
    clean = r.clean;
  }),
)
timed_settled m before item tenths (a, inr f) = (a, inr (timed-IsFailed item tenths f))

module _ (m : Machine) (i : ℕ) (before : Item) where
  open m use {World, utc_now, monotonic, round_tenths}

  finally-Ends :
      (started : ℕ) (r : Result (Unit {0})) (s : Store World)
      → Ends (λ _. Tracks i (Settled m before)) (λ _. Tracks i (Attempted before)) (r, s)
      → Ends
          (λ _ s. Tracks i (Settled m before) s × IsSaved s)
          (λ _. Tracks i (Attempted before))
          (finally m i started r s)
  finally-Ends started (ok a) s p =
      (Triple-bind (λ _. Tracks i (Settled m before)) _ _
          (outside-Tracks m i (Settled m before) (Attempted before) monotonic λ item b. b.0)
          λ ended.
            Triple-bind (λ _ s. Tracks i (Settled m before) s × IsSaved s) _ _
              (update_item-Saves m i (set_duration (round_tenths (ended - started)))
                (Settled m before) (Settled m before) (Attempted before)
                (λ item b. timed_settled m before item (round_tenths (ended - started)) b)
                λ item b. b.0)
              λ _. Triple-pure a λ s p. p).at
        s p
  finally-Ends started (err e) s p =
      (Triple-bind (λ _. Tracks i (Attempted before)) _ _
          (outside-Tracks m i (Attempted before) (Attempted before) monotonic λ item b. b)
          λ ended.
            Triple-bind (λ _. Tracks i (Attempted before)) _ _
              (update_item-Tracks m i (set_duration (round_tenths (ended - started)))
                (Attempted before) (Attempted before) (Attempted before) (λ item b. b) λ item b. b)
              λ _. record { at = λ s p. p }).at
        s p

  abbrev Attempts : ℕ → Item → Type 0
  Attempts n item = item.attempts ≡ n

  pub begun : (now : String) (item : Item) → item ≡ before → Begun before (begin now item)
  begun now item e = record {
    attempted = ap (λ x. x.attempts + 1) e;
    clean = refl;
    same_deployment = ap (λ x. x.deployment) e;
    same_validation = ap (λ x. x.validation) e;
  }

  deploy_item-Ends :
      Triple
        (Tracks i (λ item. item ≡ before))
        (deploy_item m i before)
        (λ _ s. Tracks i (Settled m before) s × IsSaved s)
        (λ _. Tracks i (Interrupted before))
  unfolding deploy_item
  deploy_item-Ends =
      Triple-bind (λ _. Tracks i (λ item. item ≡ before)) _ _
        (outside-Tracks m i (λ item. item ≡ before) (Interrupted before) monotonic
          λ item e. inl (ap (λ x. x.attempts) e))
        λ started.
          Triple-bind (λ _. Tracks i (λ item. item ≡ before)) _ _
            (outside-Tracks m i (λ item. item ≡ before) (Interrupted before) utc_now
              λ item e. inl (ap (λ x. x.attempts) e))
            λ now.
              Triple-bind (λ _. Tracks i (Begun before)) _ _
                (update_item-Tracks m i (begin now) (λ item. item ≡ before) (Begun before)
                  (Interrupted before) (begun now) λ item b. inr b.attempted)
                λ _.
                  Triple-error
                    (record {
                      at = λ s p.
                          finally-Ends started (stages m i before s).0 (stages m i before s).1
                            ((stages-Settled m i before).at s p);
                    })
                    λ e s p. (p.0, p.1, inr p.2)

  -- From a state that has the participant at this position, `deploy_participant` either returns,
  -- with one attempt more counted and with both files holding the state in memory; or it raises, with
  -- at most one attempt more counted. Where it returns the participant is ready, marked as deployed,
  -- validated and granted its access, without an error, and the calls behind these marks have returned
  -- (`azd up` and the validation, unless the state had them as done, and the grant of the access); or
  -- it is failed, with an error text, with the stage that failed marked, the stages before it marked
  -- as done and those after it as pending.
  pub deploy_participant-Ends :
      (s : Store World)
      → item_at i s ≡ some before
      → Ends
          (λ _ s'. Tracks i (Settled m before) s' × IsSaved s')
          (λ _. Tracks i (Interrupted before))
          (deploy_participant m i s)
  unfolding deploy_participant
  deploy_participant-Ends s e = rw e ((deploy_item-Ends).at s (before, e, refl))

module _ (m : Machine) where
  open m use {World}

  -- However it ends, `deploy_participant` leaves every other participant as it was.
  pub deploy_participant-others :
      (i j : ℕ) (s : Store World) → i ≢ j → item_at j (deploy_participant m i s).1 ≡ item_at j s
  deploy_participant-others i j s ne =
      Both-elim m (Same s) (deploy_participant m i s).0 (deploy_participant m i s).1
        ((deploy_participant-Keeps m (Same s) i closed).at s refl)
    where
      Same : Store World → Cohort → Type 0
      Same s c = get_elem? c.participants j ≡ get_elem? s.state.participants j

      closed : (f : Item → Item) (t : Store World) → Same s t.state → Same s (change m i f t).state
      closed f t e = get_elem?-modify_ne t.state.participants i j f ne ∙ e
