-- ===== src/Faults/Outcome.antt =====
-- What `fault` of scripts/workshop.py leaves behind: the reports of the action, and the rule.
use sre_agent_workshop.Prelude.{
  ◌≡◌, refl, ◌⊎◌, inl, inr, Bool, true, false, some, List, [], ◌∷◌, String,
}
use sre_agent_workshop.Prelude.Text.{str_eq}
use sre_agent_workshop.Exec.{Exec, do_if}
use sre_agent_workshop.Exec.Triple.{
  Ends, Triple, Triple-pure, Triple-raise, Triple-bind, Triple-error, Triple-result,
}
use sre_agent_workshop.Json.{boolean, Fields, get, get-put}
use sre_agent_workshop.Tools.Machine.{Machine}
use sre_agent_workshop.Tools.Monitoring.{Values}
use sre_agent_workshop.Faults.Rule.{deploy_postgresql_fault}
use sre_agent_workshop.Faults.Command.{vm_fault}
use sre_agent_workshop.Faults.Desk.{File, absent, broken, holds, Desk, stored, remove_report}
use sre_agent_workshop.Faults.Actions.{
  FaultAction, cpu, postgresql, status, reset, reset_cpu, reset_postgresql, has_partial, report_of,
  partial_of, fault_fields, inject_postgresql, recover_postgresql, recovery_advice, reset_all,
  with_rule, inject_cpu, look_status, no_arguments, perform, succeeded, report, act,
}
use sre_agent_workshop.Faults.Reports.{
  Keeps, stored-same, away-Keeps, write_report-Ends, remove_report-Ends, verify_or_report-Keeps,
}

-- The two reports of an action are different files.
apart : (action : FaultAction) → str_eq (report_of action) (partial_of action) ≡ false
apart cpu = refl
apart postgresql = refl
apart status = refl
apart reset = refl
apart reset_cpu = refl
apart reset_postgresql = refl

apart_back : (action : FaultAction) → str_eq (partial_of action) (report_of action) ≡ false
apart_back cpu = refl
apart_back postgresql = refl
apart_back status = refl
apart_back reset = refl
apart_back reset_cpu = refl
apart_back reset_postgresql = refl

module _ (m : Machine) (values : Values) where
  open m use {World}

  module _ (action : FaultAction) (J : (String → File) → Type 0)
      (elsewhere : (file : File) (files : String → File)
        → J files
        → J (stored (partial_of action) file files)) where
    recover-Keeps : Keeps J (recover_postgresql m values action)
    unfolding recover_postgresql
    recover-Keeps =
        Triple-bind (λ _ d. J d.files) _ _ (away-Keeps m J (deploy_postgresql_fault m values false))
          λ rule.
            Triple-bind (λ _ d. J d.files) _ _
              (verify_or_report-Keeps m values action J elsewhere (fault_fields rule)
                (recovery_advice m values action) (vm_fault m values "postgresql-ready" []))
              λ application. Triple-pure _ λ d p. p

    no_arguments-Keeps :
        (arguments : List String) (body : Exec (Desk World) Fields)
        → Keeps J body
        → Keeps J (no_arguments m values action arguments body)
    no_arguments-Keeps [] body k = k
    no_arguments-Keeps (a ∷ arguments) body k = Triple-raise _ λ d p. p

  module _ (J : (String → File) → Type 0) where
    inject-Keeps :
        ((file : File) (files : String → File)
          → J files
          → J (stored (partial_of postgresql) file files))
        → Keeps J (inject_postgresql m values)
    unfolding inject_postgresql
    inject-Keeps elsewhere =
        Triple-bind (λ _ d. J d.files) _ _ (away-Keeps m J (vm_fault m values "status" []))
          λ _.
            Triple-bind (λ _ d. J d.files) _ _
              (away-Keeps m J (deploy_postgresql_fault m values true))
              λ rule.
                Triple-bind (λ _ d. J d.files) _ _
                  (verify_or_report-Keeps m values postgresql J elsewhere (fault_fields rule) _
                    (vm_fault m values "postgresql-denied" []))
                  λ application. Triple-pure _ λ d p. p

    reset-Keeps :
        ((file : File) (files : String → File) → J files → J (stored (partial_of reset) file files))
        → Keeps J (reset_all m values)
    unfolding reset_all
    reset-Keeps elsewhere =
        Triple-bind (λ _ d. J d.files) _ _ (recover-Keeps reset J elsewhere)
          λ result.
            Triple-bind (λ _ d. J d.files) _ _
              (verify_or_report-Keeps m values reset J elsewhere result _
                (vm_fault m values "reset" []))
              λ rest. Triple-pure _ λ d p. p

    perform-Keeps :
        (action : FaultAction) (arguments : List String)
        → ((file : File) (files : String → File)
            → J files
            → J (stored (partial_of action) file files))
        → Keeps J (perform m values action arguments)
    perform-Keeps cpu arguments elsewhere = away-Keeps m J (inject_cpu m values arguments)
    perform-Keeps postgresql arguments elsewhere =
        no_arguments-Keeps postgresql J elsewhere arguments _ (inject-Keeps elsewhere)
    perform-Keeps reset_postgresql arguments elsewhere =
        no_arguments-Keeps reset_postgresql J elsewhere arguments _
          (recover-Keeps reset_postgresql J elsewhere)
    perform-Keeps reset arguments elsewhere =
        no_arguments-Keeps reset J elsewhere arguments _ (reset-Keeps elsewhere)
    perform-Keeps reset_cpu arguments elsewhere =
        no_arguments-Keeps reset_cpu J elsewhere arguments _
          (away-Keeps m J (with_rule m values (vm_fault m values "reset" [])))
    perform-Keeps status arguments elsewhere =
        no_arguments-Keeps status J elsewhere arguments _ (away-Keeps m J (look_status m values))

  module _ (action : FaultAction) (before : File) where
    -- The action's own report is as it was.
    abbrev pub Untouched : (String → File) → Type 0
    Untouched files = files (report_of action) ≡ before

    elsewhere :
        (file : File) (files : String → File)
        → Untouched files
        → Untouched (stored (partial_of action) file files)
    elsewhere file files p = rw (apart action) p

    -- The partial report of an earlier run is gone.
    abbrev pub Cleared : Bool → (String → File) → Type 0
    Cleared true files = files (partial_of action) ≡ absent
    Cleared false files = Unit

    -- as it was, or cut off in the middle
    abbrev pub NotReported : (String → File) → Type 0
    NotReported files = Untouched files ⊎ (files (report_of action) ≡ broken)

    Cleared-still :
        (b : Bool) (file : File) (files : String → File)
        → Cleared b files
        → Cleared b (stored (report_of action) file files)
    Cleared-still true file files p = rw (apart_back action) p
    Cleared-still false file files p = tt

    clear :
        (b : Bool)
        → Triple
            (λ d. Untouched d.files)
            (do_if b (remove_report m values (partial_of action)))
            (λ _ d. Untouched d.files × Cleared b d.files)
            (λ _ d. Untouched d.files)
    clear true =
        remove_report-Ends m values Untouched (λ files. Untouched files × Cleared true files)
          (partial_of action)
          λ files p. (elsewhere absent files p, stored-same (partial_of action) absent files)
    clear false = record { at = λ d p. (p, tt) }

    abbrev pub Reported : Fields → (String → File) → Type 0
    Reported result files =
        (files (report_of action) ≡ holds result) × Cleared (has_partial action) files

    report-Ends :
        (result : Fields)
        → Triple
            (λ d. Untouched d.files)
            (report m values action result)
            (λ r d. (r ≡ result) × Reported result d.files)
            (λ _ d. NotReported d.files)
    unfolding report
    report-Ends result =
        Triple-bind (λ _ d. Untouched d.files × Cleared (has_partial action) d.files) _ _
          (Triple-error (clear (has_partial action)) λ e d p. inl p)
          λ _.
            Triple-bind (λ _ d. Reported result d.files) _ _
              (write_report-Ends m values
                (λ files. Untouched files × Cleared (has_partial action) files) (Reported result)
                NotReported (report_of action) result
                (λ files (p, c). (
                  stored-same (report_of action) (holds result) files,
                  Cleared-still (has_partial action) (holds result) files c,
                ))
                (λ files p. inr (stored-same (report_of action) broken files))
                (λ files (p, c). inl p))
              λ _. Triple-pure result λ d p. (refl, p)

    act_triple :
        (arguments : List String)
        → Triple
            (λ d. Untouched d.files)
            (act m values action arguments)
            (λ r d. (get "ok" r ≡ some (boolean true)) × Reported r d.files)
            (λ _ d. NotReported d.files)
    unfolding act
    act_triple arguments =
        Triple-bind (λ _ d. Untouched d.files) _ _
          (Triple-error (perform-Keeps Untouched action arguments elsewhere) λ e d p. inl p)
          λ result.
            Triple-result (report-Ends (succeeded m values result))
              λ r d (e, p). (rw e (get-put "ok" "ok" (boolean true) result), rw e p)

  -- Where an action of `fault` returns, its report holds the result, the result says `ok`, and no
  -- partial report of the action is left; where it raises, its report is as it was, or cut off by the
  -- write that failed: a result that was not reached is never reported.
  pub act-Ends :
      (action : FaultAction) (arguments : List String) (d : Desk World)
      → Ends
          (λ r d'.
            (get "ok" r ≡ some (boolean true))
            × Reported action (d.files (report_of action)) r d'.files)
          (λ _ d'. NotReported action (d.files (report_of action)) d'.files)
          (act m values action arguments d)
  act-Ends action arguments d = (act_triple action (d.files (report_of action)) arguments).at d refl
