-- ===== src/Faults/Reports.antt =====
-- What the writers of reports in scripts/workshop.py do to the other files, and to their own.
use sre_agent_workshop.Prelude.{◌≡◌, String, arith, eq_iff}
use sre_agent_workshop.Exec.{Exec, Result, ok, err, message, is_deployment, deployment_error}
use sre_agent_workshop.Exec.Triple.{
  Ends, Triple, Triple-raise, Triple-bind, Triple-try, Triple-error,
}
use sre_agent_workshop.Json.{Fields}
use sre_agent_workshop.Tools.Machine.{Machine}
use sre_agent_workshop.Tools.Monitoring.{Values}
use sre_agent_workshop.Faults.Desk.{
  after_write, after_unlink, File, absent, broken, holds, Desk, stored, away, state_directory,
  write_json, unlink, write_report, remove_report,
}
use sre_agent_workshop.Faults.Actions.{FaultAction, partial_of, partial_fields, verify_or_report}

pub stored-same :
    (name : String) (file : File) (files : String → File) → stored name file files name ≡ file
stored-same name file files = ground (arith, eq_iff name name)

-- However it ends, a property of the files holds behind it if it did before.
abbrev pub Keeps : {W A : Type 0} → ((String → File) → Type 0) → Exec (Desk W) A → Type 0
Keeps J a = Triple (λ d. J d.files) a (λ _ d. J d.files) (λ _ d. J d.files)

module _ (m : Machine) where
  open m use {World, replace_file, remove_file}

  pub away-Keeps : {A : Type 0} (J : (String → File) → Type 0) (a : Exec World A) → Keeps J (away a)
  away-Keeps {A} J a = record { at = λ d p. ended (a d.world).0 (a d.world).1 d p }
    where
      ended :
          (r : Result A) (w : World) (d : Desk World)
          → J d.files
          → Ends (λ _ d. J d.files) (λ _ d. J d.files) (r, record d { world = w })
      ended (ok x) w d p = p
      ended (err e) w d p = p

  -- what is written, where it was written, and what a write that failed has left
  pub write_json-Ends :
      (J K E : (String → File) → Type 0) (name : String) (content : Fields)
      → ((files : String → File) → J files → K (stored name (holds content) files))
      → ((files : String → File) → J files → E (stored name broken files))
      → Triple (λ d. J d.files) (write_json m name content) (λ _ d. K d.files) (λ _ d. E d.files)
  unfolding write_json
  write_json-Ends J K E name content k l = record {
    at = λ d p. ended (replace_file d.world).0 (replace_file d.world).1 d p;
  }
    where
      ended :
          (r : Result (Unit {0})) (w : World) (d : Desk World)
          → J d.files
          → Ends {A = Unit {0}}
              (λ _ d. K d.files)
              (λ _ d. E d.files)
              (r, after_write m name content r w d)
      ended (ok x) w d p = k d.files p
      ended (err e) w d p = l d.files p

  pub write_report-Ends :
      (values : Values) (J K E : (String → File) → Type 0) (name : String) (content : Fields)
      → ((files : String → File) → J files → K (stored name (holds content) files))
      → ((files : String → File) → J files → E (stored name broken files))
      → ((files : String → File) → J files → E files)
      → Triple
          (λ d. J d.files)
          (write_report m values name content)
          (λ _ d. K d.files)
          (λ _ d. E d.files)
  unfolding write_report
  write_report-Ends values J K E name content k l n =
      Triple-bind (λ _ d. J d.files) _ _
        (Triple-error (away-Keeps J (state_directory m values)) λ e d p. n d.files p)
        λ _. write_json-Ends J K E name content k l

  pub remove_report-Ends :
      (values : Values) (J K : (String → File) → Type 0) (name : String)
      → ((files : String → File) → J files → K (stored name absent files))
      → Triple (λ d. J d.files) (remove_report m values name) (λ _ d. K d.files) (λ _ d. J d.files)
  unfolding remove_report unlink
  remove_report-Ends values J K name k =
      Triple-bind (λ _ d. J d.files) _ _ (away-Keeps J (state_directory m values))
        λ _. record { at = λ d p. ended (remove_file d.world).0 (remove_file d.world).1 d p }
    where
      ended :
          (r : Result (Unit {0})) (w : World) (d : Desk World)
          → J d.files
          → Ends {A = Unit {0}} (λ _ d. K d.files) (λ _ d. J d.files) (r, after_unlink m name r w d)
      ended (ok x) w d p = k d.files p
      ended (err e) w d p = p

  -- a property that does not look at the partial report of this action
  module _ (values : Values) (action : FaultAction) (J : (String → File) → Type 0)
      (elsewhere : (file : File) (files : String → File)
        → J files
        → J (stored (partial_of action) file files)) where
    pub verify_or_report-Keeps :
        (known : Fields) (advice : String) (check : Exec World Fields)
        → Keeps J (verify_or_report m values action known advice check)
    unfolding verify_or_report
    verify_or_report-Keeps known advice check =
        Triple-try (λ d. J d.files) _ is_deployment _ (away-Keeps J check)
          (λ e c.
            Triple-bind (λ _ d. J d.files) _ _
              (write_report-Ends values J J J (partial_of action) (partial_fields known (message e))
                (λ files p. elsewhere _ files p) (λ files p. elsewhere _ files p) (λ files p. p))
              λ _. Triple-raise (deployment_error advice) λ d p. p)
          λ e c d p. p
