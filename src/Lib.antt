-- ===== src/Lib.antt =====
-- Verification of the command-line tools of the workshop (scripts/).
--
-- The program. scripts/cohort.py deploys one isolated environment for each participant of a
-- workshop and takes it down again. It calls the Azure CLI through scripts/workshop.py, which also
-- sets and resets the faults that the participants investigate. scripts/vm/faults.py runs on a
-- participant's machine as root: it presses the CPU, restarts the Orders API and verifies what the
-- API says of its database.
--
-- The files.
-- - Prelude: the library's names, lists over native numbers, Python's text operations, integers.
-- - Exec: an action takes the world outside to a result or a Python exception, and to the world
--   behind it; what was done before an exception stays done. Exec.Yields says what the returned
--   values satisfy; Exec.Triple says what holds behind an action, however it ends.
-- - Json: the values of json.loads and dictionaries in their order.
-- - VmFaults: scripts/vm/faults.py. VmFaults.Host is the guest's system and the Orders API;
--   Units, Api, Recycle and Cli are the functions of the script, under their own names; Ends,
--   Status, Results, Guards and Children are the theorems.
-- - Tools: `cli` and `az` of scripts/workshop.py, over Tools.Machine, the operator's machine and
--   Azure; Tools.Monitoring is `required` and the removal of the agent's subscription-wide role;
--   Tools.Steady and Tools.Removal follow them on a machine whose clock runs; Tools.Retry is
--   `retry_sre_agent`, and Tools.RetryBound how often it tries.
-- - Cohort: scripts/cohort.py. Model is the saved state, with the texts of the progress fields as
--   constructors; Resolve is `resolve_subscriptions`; Roster is `participant_records`; Store is
--   `save_state` and `update_item`, with the state in memory beside the two files; Plan is
--   `load_or_create_state`; Users is `resolve_users` and `inspect_resource_group`; Preflight is
--   `verify_authentication` and `preflight`, over the checks of scripts/workshop.py as an interface;
--   Environments is `azd_environment_names` and `configure_environment`; Access is the role
--   assignments; Deploy is `run_logged` and `deploy_participant`; Parallel is `deploy_parallel`, with
--   a thread as a tree of atomic steps and a schedule as the order in which the threads take them;
--   Whole is `deploy`; Cleanup is `sre_agent_runtime_principal`, `cleanup_target` and `cleanup`.
--   Track, Stages, Settle, Frame, Results, Grants, Names, Subscriptions, Objects, Rerun, Readiness,
--   CleanupEnds, CleanupResults, CleanupOwn and the modules below Parallel are the theorems.
-- - Faults: of scripts/workshop.py, Rule is `postgresql_fault_status` and
--   `deploy_postgresql_fault`, Command is `run_result`, `run_vm` and `vm_fault`, Actions is `fault`
--   over the reports below `.workshop/` that Desk keeps. Verified, Correlated, Reports, Confirmed, Partial and
--   Outcome are the theorems.
-- - Incident: of scripts/workshop.py, Http is `sre_agent_request` and `incident_optional_get`, Match
--   is `incident_component_matches`, Plan is `incident_plan_document`, `incident_title_matches` and
--   `incident_routing_check`, Write is `incident_guarded_put` and `remove_incident_components`,
--   Install is the part of `ensure_incident_workflow` that installs and rolls back. Service says
--   what it is for the SRE Agent to answer honestly; Routed, Saved, Removed and Installing are
--   the theorems. Json.Equal is Python's `==` on JSON values.
--
-- What is a parameter. VmFaults.Host and Tools.Machine hold what Python's standard library, the
-- operating system, the Azure CLI and Azure do; every operation may change the world and may raise.
-- Only where a theorem says so is the clock assumed to run (IsSteady). `urllib` is the parameter
-- `send` of Incident.Http; what a theorem relies on of the service behind it is IsService: it answers
-- a read with what is stored or fails, and changes no document but the one at a request's path.
-- Tools.Lab is a machine on which everything succeeds, for the tests. An item of the cohort is
-- named by its position, and `update_item` changes it in place, as Python's shared dictionary.
--
-- Loops. A loop to a deadline has fuel, and `diverged` is the error of a loop that has used it up;
-- it is no Python exception. The two loops of the recycling have 31 rounds each: 150 seconds in
-- steps of at least 5, 30 seconds in steps of at least 1, and the round that finds the time over.
-- The wait for a deletion has 81: 1200 seconds in steps of 15, and that round. Loops over a range
-- are by recursion on its length.
--
-- Not modelled: progress messages, logs and printed tables, the parsing of the command line, and
-- the limit on the threads of one subscription, which only takes schedules away. Of `deploy_parallel`:
-- what `future.result` raises again, the shutdown of the executors, and the `KeyError` of a
-- subscription that the state does not name. A call of the outside returns or raises; one that hangs,
-- as `process.wait` may, is a thread that the schedule names no more. Of `load_or_create_state`: a
-- state file that cannot be read, is no JSON or lacks a key. Of `request_json`: the closing of the
-- response; whatever json.loads raises counts as invalid JSON. Of scripts/workshop.py the provisioning
-- hooks, the agent's documents and knowledge, the quota and provider checks, and of the incident
-- workflow the checks of the saved state, the settings, the documents and the status report (an
-- interface of Incident.Install); the scripts inspect.py, check_infra.py and site_hooks.py; and what
-- is not Python.
pub mod Prelude
pub mod Exec
pub mod Json
pub mod VmFaults
pub mod Tools
pub mod Cohort
pub mod Faults
pub mod Incident
