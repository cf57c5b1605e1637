-- ===== src/Cohort/CleanupTests.antt =====
-- A machine with one foreign resource group, on which the theorems about the clean-up are applied.
use sre_agent_workshop.Prelude.{
  ℕ, ◌+◌, ◌≤◌, ◌≡◌, ◌≢◌, refl, true, false, Option, none, some, List, [], ◌∷◌, String, arith,
  if◌then◌else◌,
}
use sre_agent_workshop.Prelude.Int.{pos}
use sre_agent_workshop.Prelude.Text.{one_of, str_eq, strip, pad2, decimal}
use sre_agent_workshop.Exec.{ok, err, diverged}
use sre_agent_workshop.Exec.Triple.{Ends}
use sre_agent_workshop.Json.{Value, Fields, boolean, object, field, end, text}
use sre_agent_workshop.Tools.Lab.{lab}
use sre_agent_workshop.Tools.Machine.{Machine, finished}
use sre_agent_workshop.Tools.Steady.{IsSteady}
use sre_agent_workshop.Tools.Cli.{cli, az, command_of, output_of, json_of}
use sre_agent_workshop.Cohort.Model.{Item}
use sre_agent_workshop.Cohort.Roster.{new_item}
use sre_agent_workshop.Cohort.Store.{Store}
use sre_agent_workshop.Cohort.Cleanup.{
  cleanup_target, try_target, is_tolerated, group_exists, group_show,
}
use sre_agent_workshop.Cohort.CleanupOwn.{Spared, cleanup_target-Spared}
use sre_agent_workshop.Cohort.CleanupResults.{Outcome, cleanup_target_ends, try_target-Ends}

abbrev owner : Item
owner =
    new_item 7 "attendee-07" "example.com"
      (record { id = "s-1"; tenant_id = "t-1"; name = text "Lab"; label = "subscription-1" })

abbrev foreign : Fields
foreign = field "azd-env-name" (text "participant-08") end

abbrev answer : List String → String
answer command =
    if one_of "exists" command then "exists" else if one_of "show" command then "group" else ""

abbrev parse : String → Option Value
parse s =
    if str_eq s "exists"
    then some (boolean true)
    else some (object (field "tags" (object foreign) end))

abbrev azure : Machine
azure = record lab {
  run = λ command timeout w. (ok (finished (pos 0) (answer command) ""), w + 1);
  json_loads = parse;
  sleep = λ d w. (ok tt, w + d);
}

later : (k w d : ℕ) → k ≤ w → k ≤ w + d
later k w d h = omega arith

slept : (k w d : ℕ) → k ≤ w → k + d ≤ w + d
slept k w d h = omega arith

now_is : (k w : ℕ) → k ≤ w → (k ≤ w) × (w ≤ w)
now_is k w h = (h, omega arith)

azure_runs : IsSteady azure
azure_runs = record {
  now = λ w. w;
  which_on = λ k tool. record { at = λ w h. h };
  launcher_on = λ k executable. record { at = λ w h. h };
  run_on = λ k command timeout. record { at = λ w h. later k w 1 h };
  clock_on = λ k. record { at = λ w h. now_is k w h };
  sleep_on = λ k d. record { at = λ w h. slept k w d h };
}

abbrev shared : Store ℕ
shared = record {
  state = record {
    location = "swedencentral";
    vm_size = "Standard_D2s_v5";
    user_prefix = "attendee";
    user_domain = "example.com";
    first_participant = some 7;
    subscriptions = [];
    participants = owner ∷ [];
    created_utc = "2026-01-01T00:00:00+00:00";
  };
  state_file = none;
  roster_file = none;
  world = 0;
}

cleanup_target_ends_example : (cleanup_target azure 0 owner shared).0 ≢ err diverged
cleanup_target_ends_example = cleanup_target_ends azure azure_runs 0 owner shared

-- what was asked for is counted, and nothing has been deleted
abbrev ledger : Machine
ledger = record azure {
  run = λ command timeout w.
      (ok (finished (pos 0) (answer command) ""), if one_of "delete" command then w + 100 else w);
}

abbrev Untouched : ℕ → Type 0
Untouched w = w ≡ 0

asks : (w : ℕ) → Untouched w → Untouched (group_exists ledger owner w).1
unfolding group_exists az cli command_of output_of json_of strip pad2 decimal
asks w e = e

looks : (w : ℕ) → Untouched w → Untouched (group_show ledger owner w).1
unfolding group_show az cli command_of output_of json_of strip pad2 decimal
looks w e = e

cleanup_target-Spared_example :
    Spared ledger Untouched owner asks looks (cleanup_target ledger 0 owner shared).1.world
cleanup_target-Spared_example =
    cleanup_target-Spared ledger Untouched owner asks looks 0 shared refl

try_target-Ends_example :
    Ends (Outcome azure 0 owner) (λ e _. is_tolerated e ≡ false) (try_target azure 0 owner shared)
try_target-Ends_example = try_target-Ends azure 0 owner shared refl
