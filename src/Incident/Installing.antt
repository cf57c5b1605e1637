-- ===== src/Incident/Installing.antt =====
-- How an installation of the incident workflow of scripts/workshop.py ends on an honest service: in
-- force; rolled back; with an error that says that the rollback is incomplete; or with an error of
-- the note of the rollback or outside the classes that are rolled back, behind which nothing is
-- promised.
use sre_agent_workshop.Prelude.{
  ℕ, suc, ◌≡◌, refl, ◌∙◌, Bool, true, false, not, Option, List, [], ◌∷◌, String,
}
use sre_agent_workshop.Exec.{Exec, Error, Result, ok, err, raise, raise_if, try_except}
use sre_agent_workshop.Exec.Triple.{
  Ends, Triple, Triple-pure, Triple-raise, Triple-if, Triple-bind, Triple-try, Triple-any,
  Triple-result,
}
use sre_agent_workshop.Json.{Value}
use sre_agent_workshop.Tools.Machine.{Machine}
use sre_agent_workshop.Incident.Match.{response_plan_name}
use sre_agent_workshop.Incident.Http.{Request, Reply, incident_optional_get}
use sre_agent_workshop.Incident.Service.{IsService, incident_optional_get-reads}
use sre_agent_workshop.Incident.Write.{
  filter_path, is_null, Placed, Installed, module_path, components_of,
}
use sre_agent_workshop.Incident.Removed.{
  Held, Apart, Distinct, IsRestored, guarded_put-Triple, removal-Triple,
}
use sre_agent_workshop.Incident.Install.{
  Phase, is_rolled_back, partial, active, prepared, Report, Records, documents_of, check_absent,
  put_documents, checked_report, activate, incomplete, remove_again, roll_back, install_saved,
  install,
}

module _ (m : Machine) (send : Request → Exec m.World Reply)
    (stored : String → m.World → Option Value) (service : IsService m send stored)
    (left retry_seconds : ℕ) (records : Records m) where
  open m use {World}
  open records use {save, status, write_evidence, unlink_state, unlink_evidence}

  -- No action on the files of the operator's machine changes a document of the service.
  pub record IsLocal : Type 0 where
    pub saves :
        (phase : Phase) (w : World) (other : String)
        → stored other (save phase w).1 ≡ stored other w
    pub looks : (w : World) (other : String) → stored other (status w).1 ≡ stored other w
    pub writes :
        (report : Report) (w : World) (other : String)
        → stored other (write_evidence report w).1 ≡ stored other w
    pub unlinks : (w : World) (other : String) → stored other (unlink_state w).1 ≡ stored other w
    pub unlinks_too :
        (w : World) (other : String) → stored other (unlink_evidence w).1 ≡ stored other w

  -- An error behind which the plans may be as the failure left them: the rollback has failed too, or
  -- its note in the saved state, or the error is not of the classes that are rolled back.
  pub data Unrepaired (e : Error) : Type 0 where
    rollback_failed :
        (error rollback_error : Error)
        → e ≡ incomplete m send (suc left) retry_seconds records error rollback_error
        → Unrepaired e
    note_failed : (w : World) → (save partial w).0 ≡ err e → Unrepaired e
    escaped : is_rolled_back e ≡ false → Unrepaired e

  module _ (local : IsLocal) (state : Installed)
      (distinct : Distinct (components_of m send (suc left) retry_seconds state))
      (apart : Apart
        (filter_path response_plan_name)
        (components_of m send (suc left) retry_seconds state)) where
    abbrev the_module : String
    the_module = module_path m send (suc left) retry_seconds

    -- The partitioned plan and the workflow's plan are stored.
    abbrev pub InForce : World → Type 0
    InForce w =
        Held m send stored service left retry_seconds (filter_path response_plan_name)
          state.partitioned w
        × Held m send stored service left retry_seconds the_module state.module_plan w

    abbrev Restored : World → Type 0
    Restored w =
        IsRestored m send stored service left retry_seconds unlink_state unlink_evidence state
          local.unlinks local.unlinks_too distinct apart w

    -- How an installation that began in a world may fail.
    pub data IsFailed (before : World) (e : Error) (w : World) : Type 0 where
      untouched : ((other : String) → stored other w ≡ stored other before) → IsFailed before e w
      restored : Restored w → IsFailed before e w
      unrepaired : Unrepaired e → IsFailed before e w

    action_on_files :
        {A : Type 0} (a : Exec World A)
        → ((w : World) (other : String) → stored other (a w).1 ≡ stored other w)
        → Triple InForce a (λ _. InForce) (λ _ _. Unit)
    action_on_files {A} a k = record {
      at = λ w p.
          ended (a w).0 (a w).1
            (rw (k w (filter_path response_plan_name)) p.0, rw (k w the_module) p.1);
    }
      where
        ended :
            (r : Result A) (w : World)
            → InForce w
            → Ends {A = A} (λ _. InForce) (λ _ _. Unit) (r, w)
        ended (ok x) w p = p
        ended (err e) w p = tt

    activate-InForce :
        Triple
          (λ _. Unit)
          (activate m send (suc left) retry_seconds records state)
          (λ _. InForce)
          (λ _ _. Unit)
    unfolding activate
    activate-InForce =
        Triple-bind (λ _ _. Unit)
          (put_documents m send (suc left) retry_seconds records
            (documents_of m send (suc left) retry_seconds records state))
          _ (Triple-any _)
          λ _.
            Triple-bind
              (λ _ w.
                Unit
                × Held m send stored service left retry_seconds (filter_path response_plan_name)
                    state.partitioned w)
              _ _
              (guarded_put-Triple m send stored service left retry_seconds
                (filter_path response_plan_name) (λ _. Unit) (λ _ _ _ _. tt) state.partitioned _)
              λ _.
                Triple-bind (λ _. InForce) _ _
                  (Triple-result
                    (guarded_put-Triple m send stored service left retry_seconds the_module
                      (λ w.
                        Unit
                        × Held m send stored service left retry_seconds
                            (filter_path response_plan_name) state.partitioned w)
                      (λ w w' same p. (tt, rw (same (filter_path response_plan_name) apart.0) p.1))
                      state.module_plan _)
                    λ _ w p. (p.0.1, p.1))
                  λ _.
                    Triple-bind (λ _. InForce) (save active) _
                      (action_on_files (save active) (local.saves active))
                      λ _.
                        Triple-bind (λ _. InForce) status _ (action_on_files status local.looks)
                          λ found.
                            Triple-bind (λ _. InForce)
                              (checked_report m send (suc left) retry_seconds records found) _
                              (Triple-if found.matches_definition _ _
                                (λ _. Triple-pure found λ w p. p) λ _. Triple-raise _ λ _ _. tt)
                              λ report.
                                Triple-bind (λ _. InForce) (write_evidence report) _
                                  (action_on_files (write_evidence report) (local.writes report))
                                  λ _. Triple-pure report λ w p. p

    module _ (before : World) where
      note-Unrepaired : Triple (λ _. Unit) (save partial) (λ _ _. Unit) (IsFailed before)
      note-Unrepaired = record { at = λ w _. ended w (save partial w).0 (save partial w).1 refl }
        where
          ended :
              (w : World) (r : Result (Unit {0})) (w' : World)
              → (save partial w).0 ≡ r
              → Ends {A = Unit {0}} (λ _ _. Unit) (IsFailed before) (r, w')
          ended w (ok x) w' e = tt
          ended w (err x) w' e = unrepaired (note_failed w e)

      removed_again :
          (error : Error)
          → Triple
              (λ _. Unit)
              (try_except
                (remove_again m send (suc left) retry_seconds records state)
                is_rolled_back
                (λ x. raise (incomplete m send (suc left) retry_seconds records error x)))
              (λ _. Restored)
              (IsFailed before)
      unfolding remove_again
      removed_again error =
          Triple-try (λ _. Unit) (remove_again m send (suc left) retry_seconds records state)
            is_rolled_back (λ x. raise (incomplete m send (suc left) retry_seconds records error x))
            (removal-Triple m send stored service left retry_seconds unlink_state unlink_evidence
              state local.unlinks local.unlinks_too distinct apart)
            (λ x c. Triple-raise _ λ w p. unrepaired (rollback_failed error x refl))
            (λ x c w p. unrepaired (escaped c))

      roll_back-IsFailed :
          (error : Error)
          → Triple
              (λ _. Unit)
              (roll_back m send (suc left) retry_seconds records state error)
              (λ _. InForce)
              (IsFailed before)
      unfolding roll_back
      roll_back-IsFailed error =
          Triple-bind (λ _ _. Unit) (save partial) _ note-Unrepaired
            λ _.
              Triple-bind (λ _. Restored)
                (try_except (remove_again m send (suc left) retry_seconds records state)
                  is_rolled_back
                  (λ x. raise (incomplete m send (suc left) retry_seconds records error x)))
                (λ _. raise error) (removed_again error) λ _. Triple-raise error λ w p. restored p

      install_saved-Triple :
          Triple
            (λ _. Unit)
            (install_saved m send (suc left) retry_seconds records state)
            (λ _. InForce)
            (IsFailed before)
      unfolding install_saved
      install_saved-Triple =
          Triple-try (λ _. Unit) (activate m send (suc left) retry_seconds records state)
            is_rolled_back (roll_back m send (suc left) retry_seconds records state)
            activate-InForce (λ error c. roll_back-IsFailed error)
            (λ x c w p. unrepaired (escaped c))

      abbrev Untouched : World → Type 0
      Untouched w = (other : String) → stored other w ≡ stored other before

      action_on_no_document :
          {A : Type 0} (a : Exec World A)
          → ((w : World) (other : String) → stored other (a w).1 ≡ stored other w)
          → Triple Untouched a (λ _. Untouched) (IsFailed before)
      action_on_no_document {A} a k = record {
        at = λ w p. ended (a w).0 (a w).1 (λ other. k w other ∙ p other);
      }
        where
          ended :
              (r : Result A) (w : World)
              → Untouched w
              → Ends {A = A} (λ _. Untouched) (IsFailed before) (r, w)
          ended (ok x) w p = p
          ended (err e) w p = untouched p

      check_absent-Untouched :
          (targets : List Placed)
          → Triple Untouched
              (check_absent m send (suc left) retry_seconds records targets)
              (λ _. Untouched)
              (IsFailed before)
      unfolding check_absent
      check_absent-Untouched [] = Triple-pure tt λ w p. p
      check_absent-Untouched (target ∷ targets) =
          Triple-bind (λ _. Untouched) (incident_optional_get m send target.path false) _
            (action_on_no_document (incident_optional_get m send target.path false) λ w other.
              incident_optional_get-reads m send stored service target.path other false w)
            λ read.
              Triple-bind (λ _. Untouched) (raise_if (not (is_null read.0)) _) _
                (guard_keeps (not (is_null read.0)) _) λ _. check_absent-Untouched targets
        where
          guard_keeps :
              (b : Bool) (e : Error)
              → Triple Untouched (raise_if b e) (λ _. Untouched) (IsFailed before)
          guard_keeps true e = Triple-raise e λ w p. untouched p
          guard_keeps false e = Triple-pure tt λ w p. p

      install-Triple :
          Triple Untouched
            (install m send (suc left) retry_seconds records state)
            (λ _. InForce)
            (IsFailed before)
      unfolding install
      install-Triple =
          Triple-bind (λ _. Untouched) _ _
            (check_absent-Untouched (documents_of m send (suc left) retry_seconds records state))
            λ _.
              Triple-bind (λ _. Untouched) (save prepared) _
                (action_on_no_document (save prepared) (local.saves prepared))
                λ _. record { at = λ w _. install_saved-Triple.at w tt }

    -- On a service that answers honestly, with at least one attempt and distinct paths, and with files
    -- that are no documents of it: an installation that returns has stored the partitioned plan and the
    -- workflow's plan. One that raises has changed no document; or the original plan is stored again
    -- and no component of the workflow is; or its error says that the rollback is incomplete, or comes
    -- from the note of the rollback in the saved state, or is not of the classes that are rolled back.
    pub install-Ends :
        (w : World)
        → Ends (λ _. InForce) (IsFailed w) (install m send (suc left) retry_seconds records state w)
    install-Ends w = (install-Triple w).at w (λ other. refl)
