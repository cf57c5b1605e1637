-- ===== src/Cohort/Frame.antt =====
-- What `deploy_participant` of scripts/cohort.py leaves alone: everything in the state but its item.
use sre_agent_workshop.Prelude.{◌-◌, ℕ, Bool-cases, inl, inr, Option, none, some}
use sre_agent_workshop.Exec.{Exec, Error, Result, ok, err, message, ◌>>=◌}
use sre_agent_workshop.Exec.Triple.{Ends, Triple, Triple-pure, Triple-if, Triple-bind}
use sre_agent_workshop.Tools.Machine.{Machine}
use sre_agent_workshop.Cohort.Model.{Item, Cohort}
use sre_agent_workshop.Cohort.Access.{ensure_participant_access}
use sre_agent_workshop.Cohort.Store.{Store, outside, item_at, change, update_item, save_state}
use sre_agent_workshop.Cohort.Track.{state-save_state, outside-Triple, state-update_item}
use sre_agent_workshop.Cohort.Deploy.{
  Stage, deployment, validation, rbac, is_succeeded, is_caught, begin, begin_deployment,
  end_deployment, begin_validation, end_validation, begin_rbac, end_rbac, fail, set_duration,
  was_validated, validation_commands, azd_up, run_validation, deployment_stage, validation_stage,
  rbac_stage, then_stage, staged, stages, finally, record_failure, deploy_item, of_item,
  deploy_participant,
}

-- Both ways to end keep a property of the state in memory.
abbrev pub Keeps : {W A : Type 0} → (Cohort → Type 0) → Exec (Store W) A → Type 0
Keeps J a = Triple (λ s. J s.state) a (λ _ s. J s.state) (λ _ s. J s.state)

module _ (m : Machine) where
  open m use {World, utc_now, monotonic, round_tenths}

  module _ (J : Cohort → Type 0) where
    pub outside-Keeps : {A : Type 0} (a : Exec World A) → Keeps J (outside a)
    outside-Keeps a = outside-Triple m (λ s. J s.state) (λ s w p. p) a

    pub bind-Keeps :
        {A B : Type 0} (a : Exec (Store World) A) (f : A → Exec (Store World) B)
        → Keeps J a
        → ((b : A) → Keeps J (f b))
        → Keeps J (a >>= f)
    bind-Keeps a f ka kf = Triple-bind (λ _ s. J s.state) a f ka kf

    abbrev pub Both : Result (Unit {0}) → Store World → Type 0
    Both r s = Ends {A = Unit {0}} (λ _ s. J s.state) (λ _ s. J s.state) (r, s)

    pub Both-intro : (r : Result (Unit {0})) (s : Store World) → J s.state → Both r s
    Both-intro (ok a) s p = p
    Both-intro (err e) s p = p

    pub Both-elim : (r : Result (Unit {0})) (s : Store World) → Both r s → J s.state
    Both-elim (ok a) s p = p
    Both-elim (err e) s p = p

    pub save_state-Keeps : Keeps J (save_state m)
    save_state-Keeps = record {
      at = λ s p. Both-intro (save_state m s).0 (save_state m s).1 (rw (state-save_state m s) p);
    }

    module _ (i : ℕ)
        (closed : (f : Item → Item) (s : Store World) → J s.state → J (change m i f s).state) where
      pub update_item-Keeps : (f : Item → Item) → Keeps J (update_item m i f)
      update_item-Keeps f = record {
        at = λ s p.
            Both-intro (update_item m i f s).0 (update_item m i f s).1
              (rw (state-update_item m i f s) (closed f s p));
      }

      deployment_stage-Keeps : (before : Item) → Keeps J (deployment_stage m i before)
      unfolding deployment_stage
      deployment_stage-Keeps before =
          Triple-if (is_succeeded before.deployment) _ _ (λ _. Triple-pure tt λ s p. p)
            (λ _. bind-Keeps _ _ (update_item-Keeps begin_deployment) λ _.
              bind-Keeps _ _ (outside-Keeps (azd_up m before.environment))
                λ _. update_item-Keeps end_deployment)

      validation_stage-Keeps : (before : Item) → Keeps J (validation_stage m i before)
      unfolding validation_stage
      validation_stage-Keeps before =
          Triple-if (was_validated before) _ _ (λ _. Triple-pure tt λ s p. p)
            (λ _. bind-Keeps _ _ (update_item-Keeps begin_validation) λ _.
              bind-Keeps _ _
                (outside-Keeps (run_validation m validation_commands before.environment))
                λ _. update_item-Keeps end_validation)

      rbac_stage-Keeps : (before : Item) → Keeps J (rbac_stage m i before)
      unfolding rbac_stage
      rbac_stage-Keeps before = bind-Keeps _ _ (update_item-Keeps begin_rbac) λ _.
          bind-Keeps _ _ (outside-Keeps (ensure_participant_access m before))
            λ _. bind-Keeps _ _ (outside-Keeps utc_now) λ now. update_item-Keeps (end_rbac now)

      record_failure-Keeps : (stage : Stage) (e : Error) → Keeps J (record_failure m i stage e)
      record_failure-Keeps stage e =
          bind-Keeps _ _ (outside-Keeps utc_now)
            λ now. update_item-Keeps (fail stage (message e) now)

      staged-Keeps :
          (stage : Stage) (next : Exec (Store World) (Unit {0})) (r : Result (Unit {0}))
          (s : Store World)
          → J s.state
          → Keeps J next
          → Ends (λ _ s. J s.state) (λ _ s. J s.state) (staged m i stage r next s)
      staged-Keeps stage next (ok a) s p k = k.at s p
      staged-Keeps stage next (err e) s p k = elim (Bool-cases (is_caught e)) [
        | inl c ↦ rw c ((record_failure-Keeps stage e).at s p)
        | inr c ↦ rw c p
      ]

      then_stage-Keeps :
          (stage : Stage) (body next : Exec (Store World) (Unit {0}))
          → Keeps J body
          → Keeps J next
          → Keeps J (then_stage m i stage body next)
      then_stage-Keeps stage body next kb kn = record {
        at = λ s p.
            staged-Keeps stage next (body s).0 (body s).1
              (Both-elim (body s).0 (body s).1 (kb.at s p)) kn;
      }

      stages-Keeps : (before : Item) → Keeps J (stages m i before)
      unfolding stages
      stages-Keeps before = then_stage-Keeps deployment _ _ (deployment_stage-Keeps before) (
          then_stage-Keeps validation _ _ (validation_stage-Keeps before)
            (then_stage-Keeps rbac _ _ (rbac_stage-Keeps before) (Triple-pure tt λ s p. p)))

      finally-Keeps : (started : ℕ) (r : Result (Unit {0})) → Keeps J (finally m i started r)
      finally-Keeps started r = bind-Keeps _ _ (outside-Keeps monotonic) λ ended.
          bind-Keeps _ _ (update_item-Keeps (set_duration (round_tenths (ended - started))))
            λ _. record { at = λ s p. Both-intro r s p }

      deploy_item-Keeps : (before : Item) → Keeps J (deploy_item m i before)
      unfolding deploy_item
      deploy_item-Keeps before = bind-Keeps _ _ (outside-Keeps monotonic) λ started.
          bind-Keeps _ _ (outside-Keeps utc_now) λ now.
            bind-Keeps _ _ (update_item-Keeps (begin now)) λ _. record {
              at = λ s p.
                  (finally-Keeps started (stages m i before s).0).at (stages m i before s).1 (
                    Both-elim (stages m i before s).0 (stages m i before s).1
                      ((stages-Keeps before).at s p));
            }

      of_item-Keeps : (o : Option Item) → Keeps J (of_item m i o)
      of_item-Keeps none = Triple-pure tt λ s p. p
      of_item-Keeps (some before) = deploy_item-Keeps before

      pub deploy_participant-Keeps : Keeps J (deploy_participant m i)
      unfolding deploy_participant
      deploy_participant-Keeps = record { at = λ s p. (of_item-Keeps (item_at i s)).at s p }
