-- ===== src/Cohort/Stages.antt =====
-- What the stages of `deploy_participant` of scripts/cohort.py leave in its item.
use sre_agent_workshop.Prelude.{
  ◌∙◌, ◌+◌, ◌≡◌, refl, ◌⊎◌, inl, inr, Bool, true, false, ◌&&◌, none, some, String, arith,
}
use sre_agent_workshop.Exec.{Exec, ok}
use sre_agent_workshop.Tools.Machine.{Machine}
use sre_agent_workshop.Cohort.Model.{Item, Deployment, Validation, Rbac, Status}
use sre_agent_workshop.Cohort.Access.{ensure_participant_access}
use sre_agent_workshop.Cohort.Deploy.{
  Stage, deployment, validation, rbac, is_succeeded, is_passed, begin_deployment, end_deployment,
  begin_validation, end_validation, begin_rbac, end_rbac, fail, was_validated, azd_up,
  run_validation, validation_commands,
}

-- The field of the stage says so; those before it have succeeded, and those after it are pending.
abbrev pub StageFailed : Stage → Item → Type 0
StageFailed deployment item =
    (item.deployment ≡ Deployment.failed)
    × (item.validation ≡ Validation.pending)
    × (item.rbac ≡ Rbac.pending)
StageFailed validation item =
    (item.deployment ≡ Deployment.succeeded)
    × (item.validation ≡ Validation.failed)
    × (item.rbac ≡ Rbac.pending)
StageFailed rbac item =
    (item.deployment ≡ Deployment.succeeded)
    × (item.validation ≡ Validation.passed)
    × (item.rbac ≡ Rbac.failed)

pub record IsFailed (item : Item) : Type 0 where
  pub stage : Stage
  pub stage_failed : StageFailed stage item
  pub failed : item.status ≡ Status.failed
  pub why : String
  pub explained : item.error ≡ some why

-- One attempt more has been counted.
abbrev pub Attempted : Item → Item → Type 0
Attempted before item = item.attempts ≡ before.attempts + 1

-- What stands in the fields of the stages while this stage runs, if it has begun to.
abbrev pub Halted : Stage → Item → Item → Type 0
Halted deployment before item =
    Attempted before item × (item.validation ≡ Validation.pending) × (item.rbac ≡ Rbac.pending)
Halted validation before item =
    Attempted before item × (item.deployment ≡ Deployment.succeeded) × (item.rbac ≡ Rbac.pending)
Halted rbac before item =
    Attempted before item
    × (item.deployment ≡ Deployment.succeeded)
    × (item.validation ≡ Validation.passed)

pub Halted-Attempted :
    (stage : Stage) (before item : Item) → Halted stage before item → Attempted before item
Halted-Attempted deployment before item h = h.0
Halted-Attempted validation before item h = h.0
Halted-Attempted rbac before item h = h.0

-- Where the stages have come to.
pub record Begun (before item : Item) : Type 0 where
  pub attempted : Attempted before item
  pub clean : item.error ≡ none
  pub same_deployment : item.deployment ≡ before.deployment
  pub same_validation : item.validation ≡ before.validation

module _ (m : Machine) where
  open m use {World}

  -- This action of the world outside has returned, in some world.
  abbrev pub Ran : Exec World (Unit {0}) → Type 0
  Ran a = (x : Unit {0}) × (w : World) × ((a w).0 ≡ ok x)

  -- `azd up` has returned, or the deployment had succeeded before.
  abbrev pub DeploymentRan : Item → Type 0
  DeploymentRan before = (is_succeeded before.deployment ≡ true) ⊎ Ran (azd_up m before.environment)

  -- The four commands have returned, or they had been passed before.
  abbrev pub ValidationRan : Item → Type 0
  ValidationRan before =
      (was_validated before ≡ true) ⊎ Ran (run_validation m validation_commands before.environment)

  pub record IsReady (before item : Item) : Type 0 where
    pub deployed : item.deployment ≡ Deployment.succeeded
    pub deployment_ran : DeploymentRan before
    pub validated : item.validation ≡ Validation.passed
    pub validation_ran : ValidationRan before
    pub granted : item.rbac ≡ Rbac.granted
    pub access_ran : Ran (ensure_participant_access m before)
    pub ready : item.status ≡ Status.ready
    pub clean : item.error ≡ none

  -- An attempt that came to its end.
  abbrev pub Settled : Item → Item → Type 0
  Settled before item = Attempted before item × (IsReady before item ⊎ IsFailed item)

  pub record Deployed (before item : Item) : Type 0 where
    pub attempted : Attempted before item
    pub clean : item.error ≡ none
    pub deployed : item.deployment ≡ Deployment.succeeded
    pub deployment_ran : DeploymentRan before
    pub still_valid : was_validated before ≡ true → item.validation ≡ Validation.passed

  pub record Validated (before item : Item) : Type 0 where
    pub attempted : Attempted before item
    pub clean : item.error ≡ none
    pub deployed : item.deployment ≡ Deployment.succeeded
    pub deployment_ran : DeploymentRan before
    pub validated : item.validation ≡ Validation.passed
    pub validation_ran : ValidationRan before

is_succeeded-true : (d : Deployment) → is_succeeded d ≡ true → d ≡ Deployment.succeeded
is_succeeded-true d e = ground arith

is_passed-true : (v : Validation) → is_passed v ≡ true → v ≡ Validation.passed
is_passed-true v e = ground arith

&&-right : (a b : Bool) → a && b ≡ true → b ≡ true
&&-right a b e = ground arith

module _ (m : Machine) (before : Item) where
  open m use {World, utc_now, monotonic, round_tenths}

  pub skipped_deployment :
      is_succeeded before.deployment ≡ true
      → (item : Item) → Begun before item
      → Deployed m before item
  skipped_deployment e item b = record {
    attempted = b.attempted;
    clean = b.clean;
    deployed = b.same_deployment ∙ is_succeeded-true before.deployment e;
    deployment_ran = inl e;
    still_valid = λ v.
        b.same_validation
        ∙ is_passed-true before.validation
            (&&-right (is_succeeded before.deployment) (is_passed before.validation) v);
  }

  -- the deployment runs, without an error
  abbrev pub Deploying : Item → Type 0
  Deploying item = Halted deployment before item × (item.error ≡ none)

  pub Begun-Deploying : (item : Item) → Begun before item → Deploying (begin_deployment item)
  Begun-Deploying item b = ((b.attempted, refl, refl), b.clean)

  pub ran_deployment :
      is_succeeded before.deployment ≡ false
      → Ran m (azd_up m before.environment)
      → (item : Item) → Deploying item
      → Deployed m before (end_deployment item)
  ran_deployment e ran item b = record {
    attempted = b.0.0;
    clean = b.1;
    deployed = refl;
    deployment_ran = inr ran;
    still_valid = λ v. ground arith;
  }

  -- The fields are those of a deployment that runs where its end could not be saved.
  pub ended_deployment :
      (item : Item) → Deploying item → Halted deployment before (end_deployment item)
  ended_deployment item b = (b.0.0, refl, b.0.2)

  pub skipped_validation :
      was_validated before ≡ true → (item : Item) → Deployed m before item → Validated m before item
  skipped_validation e item b = record {
    attempted = b.attempted;
    clean = b.clean;
    deployed = b.deployed;
    deployment_ran = b.deployment_ran;
    validated = b.still_valid e;
    validation_ran = inl e;
  }

  -- the validation runs, without an error, behind a deployment
  abbrev pub Validating : Item → Type 0
  Validating item = Halted validation before item × (item.error ≡ none) × DeploymentRan m before

  pub Deployed-Validating :
      (item : Item) → Deployed m before item → Validating (begin_validation item)
  Deployed-Validating item b = ((b.attempted, b.deployed, refl), b.clean, b.deployment_ran)

  pub ran_validation :
      Ran m (run_validation m validation_commands before.environment)
      → (item : Item) → Validating item
      → Validated m before (end_validation item)
  ran_validation ran item (halted, clean, deployment_ran) = record {
    attempted = halted.0;
    clean = clean;
    deployed = halted.1;
    deployment_ran = deployment_ran;
    validated = refl;
    validation_ran = inr ran;
  }

  -- nothing but the status and the access field changes until the access is granted
  pub rbac_begun : (item : Item) → Validated m before item → Validated m before (begin_rbac item)
  rbac_begun item b = record {
    attempted = b.attempted;
    clean = b.clean;
    deployed = b.deployed;
    deployment_ran = b.deployment_ran;
    validated = b.validated;
    validation_ran = b.validation_ran;
  }

  pub Validated-Halted : (item : Item) → Validated m before item → Halted rbac before item
  Validated-Halted item b = (b.attempted, b.deployed, b.validated)

  pub granted :
      Ran m (ensure_participant_access m before)
      → (now : String) (item : Item) → Validated m before item
      → Settled m before (end_rbac now item)
  granted ran now item b = (
    b.attempted,
    inl (record {
      deployed = b.deployed;
      deployment_ran = b.deployment_ran;
      validated = b.validated;
      validation_ran = b.validation_ran;
      granted = refl;
      access_ran = ran;
      ready = refl;
      clean = b.clean;
    }),
  )

  failed_in :
      (stage : Stage) (why now : String) (item : Item)
      → Halted stage before item
      → StageFailed stage (fail stage why now item)
  failed_in deployment why now item h = (refl, h.1, h.2)
  failed_in validation why now item h = (h.1, refl, h.2)
  failed_in rbac why now item h = (h.1, h.2, refl)

  fail_lem :
      (stage : Stage) (why now : String) (item : Item)
      → ((fail stage why now item).attempts ≡ item.attempts)
        × ((fail stage why now item).status ≡ Status.failed)
        × ((fail stage why now item).error ≡ some why)
  fail_lem deployment why now item = (refl, refl, refl)
  fail_lem validation why now item = (refl, refl, refl)
  fail_lem rbac why now item = (refl, refl, refl)

  pub recorded :
      (stage : Stage) (why now : String) (item : Item)
      → Halted stage before item
      → Settled m before (fail stage why now item)
  recorded stage why now item h =
      let (same, failed, explained) = fail_lem stage why now item in
      (
        same ∙ Halted-Attempted stage before item h,
        inr (record {
          stage = stage;
          stage_failed = failed_in stage why now item h;
          failed = failed;
          why = why;
          explained = explained;
        }),
      )
