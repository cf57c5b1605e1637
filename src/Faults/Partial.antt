-- ===== src/Faults/Partial.antt =====
-- How the injection and the recovery of scripts/workshop.py end when the virtual machine does not
-- confirm them.
use sre_agent_workshop.Prelude.{◌≡◌, refl, ap, inl, inr, Bool, true, false, [], String}
use sre_agent_workshop.Exec.{
  Exec, Error, Result, raise, ◌>>◌, ok, err, pure, message, is_deployment, deployment_error, ◌>>=◌,
}
use sre_agent_workshop.Exec.Triple.{
  Ends, Triple, Triple-pure, Triple-raise, Triple-bind, Triple-catch, Triple-error, Triple-result,
}
use sre_agent_workshop.Json.{Fields, merge}
use sre_agent_workshop.Tools.Machine.{Machine}
use sre_agent_workshop.Tools.Monitoring.{Values}
use sre_agent_workshop.Faults.Rule.{FaultStatus, deploy_postgresql_fault}
use sre_agent_workshop.Faults.Verified.{IsShown, deploy_postgresql_fault-IsShown}
use sre_agent_workshop.Faults.Command.{vm_fault}
use sre_agent_workshop.Faults.Correlated.{vm_fault-IsVerified}
use sre_agent_workshop.Faults.Desk.{
  File, broken, holds, Desk, stored, away, state_directory, after_write, write_json, write_report,
}
use sre_agent_workshop.Faults.Actions.{
  FaultAction, postgresql, partial_of, partial_fields, fault_fields, verify_or_report,
  inject_postgresql, recover_postgresql, recovery_advice,
}
use sre_agent_workshop.Faults.Confirmed.{
  IsConfirmed, Interrupted, not_asked, unconfirmed, explained, cut_off, no_directory, raised_on,
}

module _ (m : Machine) (values : Values) (before : String → File) where
  open m use {World, replace_file}

  -- the files are as before, and the world satisfies this
  abbrev In : (World → Type 0) → Desk World → Type 0
  In P d = (d.files ≡ before) × P d.world

  -- An action of the world outside, with the world that it began in.
  away-In :
      {A : Type 0} (P : World → Type 0) (a : Exec World A)
      → Triple
          (In P)
          (away a)
          (λ x. In (λ w'. (w : World) × P w × (a w ≡ (ok x, w'))))
          (λ e. In (λ _. (w : World) × P w × ((a w).0 ≡ err e)))
  away-In {A} P a = record { at = λ d (same, p). ended d same p (a d.world).0 (a d.world).1 refl }
    where
      ended :
          (d : Desk World)
          → d.files ≡ before
          → P d.world
          → (r : Result A) (w' : World) → a d.world ≡ (r, w')
          → Ends
              (λ x. In (λ w'. (w : World) × P w × (a w ≡ (ok x, w'))))
              (λ e. In (λ _. (w : World) × P w × ((a w).0 ≡ err e)))
              (r, record d { world = w' })
      ended d same p (ok x) w' e = (same, (d.world, p, e))
      ended d same p (err x) w' e = (same, (d.world, p, ap (λ q. q.0) e))

  module _ (action : FaultAction) (active : Bool) (advice command : String) where
    module _ (rule : FaultStatus) (reached : rule.is_active ≡ active) where
      abbrev Shown : World → Type 0
      Shown = IsShown m values rule

      -- the command has raised this behind the look at the rule
      abbrev Failed : Error → World → Type 0
      Failed cause _ =
          (middle : World) × Shown middle × ((vm_fault m values command [] middle).0 ≡ err cause)

      abbrev Stopped : Error → Desk World → Type 0
      Stopped e d = Interrupted m values before action active command e d.files

      -- the partial report is written, for this cause
      abbrev Written : Error → Desk World → Type 0
      Written cause d =
          (d.files
            ≡ stored (partial_of action)
                (holds (partial_fields (fault_fields rule) (message cause))) before)
          × Failed cause d.world

      write_json-Ends :
          (cause : Error)
          → Triple
              (In (Failed cause))
              (write_json m
                (partial_of action)
                (partial_fields (fault_fields rule) (message cause)))
              (λ _. Written cause)
              Stopped
      unfolding write_json
      write_json-Ends cause = record {
        at = λ d p. ended d p (replace_file d.world).0 (replace_file d.world).1;
      }
        where
          ended :
              (d : Desk World)
              → In (Failed cause) d
              → (r : Result (Unit {0})) (w : World)
              → Ends {A = Unit {0}}
                  (λ _. Written cause)
                  Stopped
                  (
                    r,
                    after_write m
                        (partial_of action)
                        (partial_fields (fault_fields rule) (message cause))
                        r
                        w
                        d,
                  )
          ended d (same, p) (ok _) w = (ap (stored (partial_of action) _) same, p)
          ended d (same, (middle, shown, failed)) (err e) w =
              unconfirmed rule middle cause shown reached failed
                (cut_off (ap (stored (partial_of action) broken) same))

      directory-Ends :
          (cause : Error)
          → Triple
              (In (Failed cause))
              (away (state_directory m values))
              (λ _. In (Failed cause))
              Stopped
      directory-Ends cause =
          Triple-error
            (Triple-result (away-In (Failed cause) (state_directory m values))
              λ _ d (same, (w, p, e)). (same, p))
            λ e d (same, (w, (middle, shown, failed), raised)).
              unconfirmed rule middle cause shown reached failed (no_directory w raised same)

      reported :
          {Q : Fields → Desk World → Type 0} (cause : Error)
          → Triple
              (In (Failed cause))
              (write_report m values
                  (partial_of action)
                  (partial_fields (fault_fields rule) (message cause))
                >> raise (deployment_error advice))
              Q
              Stopped
      unfolding write_report
      reported cause =
          Triple-bind (λ _. Written cause) _ _
            (Triple-bind (λ _. In (Failed cause)) _ _ (directory-Ends cause)
              λ _. write_json-Ends cause)
            λ _. Triple-raise (deployment_error advice) λ d (written, (middle, shown, failed)).
              unconfirmed rule middle cause shown reached failed (explained written refl)

      verified :
          Triple
            (In Shown)
            (verify_or_report m values action
              (fault_fields rule)
              advice
              (vm_fault m values command []))
            (λ application. In (λ end.
              (middle : World) × Shown middle
              × (vm_fault m values command [] middle ≡ (ok application, end))))
            Stopped
      unfolding verify_or_report
      verified =
          Triple-catch (λ cause. In (Failed cause)) _ is_deployment _
            (away-In Shown (vm_fault m values command [])) (λ cause c. reported cause)
            λ cause c d (same, (middle, shown, failed)).
              unconfirmed rule middle cause shown reached failed (raised_on c refl same)

    rule_reached :
        Triple
          (In (λ _. Unit))
          (away (deploy_postgresql_fault m values active))
          (λ rule. In (λ w. IsShown m values rule w × (rule.is_active ≡ active)))
          (λ e d. Interrupted m values before action active command e d.files)
    rule_reached =
        Triple-error
          (Triple-result (away-In (λ _. Unit) (deploy_postgresql_fault m values active))
            λ rule d (same, (w, _, e)). (
              same,
              rw (← ap (λ p. p.1) e)
                  (deploy_postgresql_fault-IsShown m values active w rule (ap (λ p. p.0) e)),
            ))
          λ e d (same, (w, _, raised)). not_asked w (inr raised) same

    -- the deployment of the rule, and what follows it
    confirmed :
        Triple
          (In (λ _. Unit))
          (do
            rule ← away (deploy_postgresql_fault m values active)
            application ←
                verify_or_report m values action
                  (fault_fields rule)
                  advice
                  (vm_fault m values command [])
            pure (merge (fault_fields rule) application))
          (λ r. In (IsConfirmed m values active command r))
          (λ e d. Interrupted m values before action active command e d.files)
    confirmed =
        Triple-bind (λ rule. In (λ w. IsShown m values rule w × (rule.is_active ≡ active))) _ _
          rule_reached
          λ rule.
            Triple-bind
              (λ application. In (λ end.
                (rule.is_active ≡ active)
                × (middle : World) × IsShown m values rule middle
                × (vm_fault m values command [] middle ≡ (ok application, end))))
              _ _ (record { at = λ d (same, (shown, reached)). asked rule reached d (same, shown) })
              λ application.
                Triple-pure (merge (fault_fields rule) application)
                  λ d (same, (reached, middle, shown, e)). (
                    same,
                    record {
                      rule = rule;
                      middle = middle;
                      shown = shown;
                      reached = reached;
                      application = application;
                      answered = e;
                      verified =
                          (vm_fault-IsVerified m values command []).at middle application
                            (ap (λ p. p.0) e);
                      joined = refl;
                    },
                  )
      where
        asked :
            (rule : FaultStatus)
            → rule.is_active ≡ active
            → (d : Desk World) → In (IsShown m values rule) d
            → Ends
                (λ application. In (λ end.
                  (rule.is_active ≡ active)
                  × (middle : World) × IsShown m values rule middle
                  × (vm_fault m values command [] middle ≡ (ok application, end))))
                (λ e d. Interrupted m values before action active command e d.files)
                (verify_or_report m values action
                  (fault_fields rule)
                  advice
                  (vm_fault m values command [])
                  d)
        asked rule reached =
            (Triple-result (verified rule reached)
              λ application d (same, (middle, shown, e)). (same, (reached, middle, shown, e))).at

module _ (m : Machine) (values : Values) (d : Desk m.World) where
  -- An injection that returns has seen the rule as active, and then the answer of the virtual
  -- machine to `postgresql-denied`, its last act, has confirmed the failure; no report is touched. One
  -- that raises has stopped before it asked, with no report touched; or the virtual machine has not
  -- confirmed the failure behind a look that has shown the rule as active, and the partial report
  -- holds the rule's state and the cause, unless writing it failed or the cause is none to report.
  pub inject_postgresql-Ends :
      Ends
        (λ r d'. (d'.files ≡ d.files) × IsConfirmed m values true "postgresql-denied" r d'.world)
        (λ e d'. Interrupted m values d.files postgresql true "postgresql-denied" e d'.files)
        (inject_postgresql m values d)
  unfolding inject_postgresql
  inject_postgresql-Ends =
      (Triple-bind (λ _. In m values d.files (λ _. Unit)) _ _
          (Triple-error
            (Triple-result (away-In m values d.files (λ _. Unit) (vm_fault m values "status" []))
              λ _ _ (same, _). (same, tt))
            λ e _ (same, (w, _, raised)). not_asked w (inl raised) same)
          λ _. confirmed m values d.files postgresql true _ "postgresql-denied").at
        d (refl, tt)

  -- A recovery that returns has seen the rule as inactive, and then the answer of the virtual machine
  -- to `postgresql-ready`, its last act, has confirmed that the database is ready; no report is
  -- touched. One that raises has stopped before it asked, with no report touched; or the virtual
  -- machine has not confirmed it behind a look that has shown the rule as inactive, and the partial
  -- report holds the rule's state and the cause, unless writing it failed or the cause is none to
  -- report.
  pub recover_postgresql-Ends :
      (action : FaultAction)
      → Ends
          (λ r d'. (d'.files ≡ d.files) × IsConfirmed m values false "postgresql-ready" r d'.world)
          (λ e d'. Interrupted m values d.files action false "postgresql-ready" e d'.files)
          (recover_postgresql m values action d)
  unfolding recover_postgresql
  recover_postgresql-Ends action =
      (confirmed m values d.files action false (recovery_advice m values action)
          "postgresql-ready").at
        d (refl, tt)
