-- ===== src/VmFaults/Tests.antt =====
-- A small machine, on which the theorems about scripts/vm/faults.py are applied.
use native.Mathlib.Nat.{le_refl, le-add_right}
use sre_agent_workshop.Prelude.{
  ◌⊎◌, ℕ, zero, suc, ◌+◌, ◌*◌, ◌≤◌, ◌≡◌, ◌≢◌, refl, Bool, true, false, Option, none, some, inl,
  List, [], ◌∷◌, ◌++◌, String, length, arith, if◌then◌else◌,
}
use sre_agent_workshop.Prelude.Int.{pos}
use sre_agent_workshop.Prelude.Text.{
  ◌<>◌, decimal, one_of, str_eq, strip, split_once, splitlines, parse_int,
}
use sre_agent_workshop.Exec.{pair-eq, Exec, ok, err, pure, value_error, diverged}
use sre_agent_workshop.Json.{Value, get, object, field, end, text, array, nil}
use sre_agent_workshop.VmFaults.Units.{
  command, api_pid, unit_state, read_state, property, cpu_status,
}
use sre_agent_workshop.VmFaults.Api.{ready, classify, request_json, read_json, database_status}
use sre_agent_workshop.VmFaults.Recycle.{
  Recycled, recycle_api_and_verify, recycle_timed, recycle_loop, recycle_round, attempt, verify,
  verify_from, judge, wait_for_api_live, live_round, look_live, pause,
}
use sre_agent_workshop.VmFaults.Ends.{recycle_ends}
use sre_agent_workshop.VmFaults.Results.{
  IsVerified, recycle_api_and_verify-IsVerified, request_json_bounded,
}
use sre_agent_workshop.VmFaults.Cli.{cpu, Console, run_cpu_worker, main}
use sre_agent_workshop.VmFaults.Status.{Consistent, database_status-Consistent}
use sre_agent_workshop.VmFaults.Children.{IsObserved, StopFailed, cpu_worker_reaps}
use sre_agent_workshop.Exec.Triple.{Ends}
use sre_agent_workshop.VmFaults.Guards.{main_bounds_cpu}
use sre_agent_workshop.VmFaults.Host.{Host, IsSteady, Completed, response, second}

record Lab : Type 0 where
  time : ℕ
  pid : ℕ
  busy : Bool
  started : List ℕ
  reaped : List ℕ

abbrev printed : String → Completed
printed s = record { returncode = pos 0; stdout = s; stderr = "" }

abbrev unit_text : Bool → String
unit_text true = "LoadState=loaded\nActiveState=active"
unit_text false = "LoadState=not-found\nActiveState=inactive"

abbrev run : List String → Exec Lab Completed
run args w =
    if one_of "restart" args
    then (ok (printed ""), record w { time = w.time + 3 * second; pid = w.pid + 1 })
    else if one_of "systemd-run" args
    then (ok (printed ""), record w { busy = true })
    else if one_of "stop" args
    then (ok (printed ""), record w { busy = false })
    else if one_of "--property=MainPID" args
    then (ok (printed (decimal w.pid <> "\n")), w)
    else (ok (printed (unit_text w.busy)), w)

abbrev body_of : String → List ℕ
body_of path =
    if str_eq path "/health/live"
    then 1 ∷ []
    else if str_eq path "/health/ready"
    then 2 ∷ []
    else 3 ∷ []

abbrev parse : List ℕ → Option Value
parse (suc zero ∷ []) = some (object (field "status" (text "live") end))
parse (suc (suc zero) ∷ []) = some (object (field "status" (text "ready") end))
parse _ = some (array nil)

abbrev lab : Host
lab = record {
  World = Lab;
  Response = String;
  Child = ℕ;
  subprocess_run = run;
  http_open = λ path w. (ok (response path), w);
  status = λ _. 200;
  read = λ path n w. (ok (body_of path), w);
  json_loads = parse;
  monotonic = λ w. (w.time, w);
  sleep = λ d w. (ok tt, record w { time = w.time + d });
  executable = "/usr/bin/python3";
  script = "/opt/orders-api/faults.py";
}

abbrev idle : Lab
idle = record { time = 5; pid = 41; busy = false; started = []; reaped = [] }

run_on : (args : List String) (w : Lab) → w.time ≤ (run args w).1.time
run_on args w = ground arith

run_ends : (args : List String) (w : Lab) → (run args w).0 ≢ err diverged
run_ends args w e = ground arith

lab_steady : IsSteady lab
lab_steady = record {
  now = λ w. w.time;
  run_on = run_on;
  open_on = λ _ _. le_refl _;
  read_on = λ _ _ _. le_refl _;
  clock_from = λ _. le_refl _;
  clock_to = λ _. le_refl _;
  sleep_on = λ d w. le-add_right w.time d;
  sleeps = λ _ _ _. le_refl _;
  run_ends = run_ends;
  open_ends = λ _ _ e. cc;
  read_ends = λ _ _ _ e. cc;
  sleep_ends = λ _ _ e. cc;
}

recycle_ends_example : (recycle_api_and_verify lab "ready" idle).0 ≢ err diverged
recycle_ends_example = recycle_ends lab lab_steady "ready" idle

abbrev recycled : Recycled
recycled = record {
  database = record {
    cpu = "inactive";
    api_pid = 42;
    api_recycled = true;
    postgresql_connectivity = ready;
    live_status_code = 200;
    readiness_status_code = 200;
    orders_status_code = 200;
  };
  previous_api_pid = 41;
  api_recycle_attempts = 1;
}

recycle_runs : (recycle_api_and_verify lab "ready" idle).0 ≡ ok recycled
unfolding recycle_api_and_verify recycle_timed recycle_loop recycle_round attempt verify verify_from
    judge wait_for_api_live live_round look_live pause api_pid command request_json read_json
    database_status classify cpu_status unit_state read_state strip split_once decimal splitlines
    parse_int property get
recycle_runs = refl

recycle_api_and_verify-IsVerified_example :
    ((api_pid lab idle).0 ≡ ok 41)
    × IsVerified lab "ready" (recycle_api_and_verify lab "ready" idle).1 recycled
    × (1 ≤ 1)
    × (1 ≤ 31)
recycle_api_and_verify-IsVerified_example =
    recycle_api_and_verify-IsVerified lab "ready" idle (recycle_api_and_verify lab "ready" idle).1
      recycled (pair-eq recycle_runs refl)

request_json_bounded_example :
    (body : List ℕ) × (length body ≤ 65536) × (parse body ≡ some (array nil))
unfolding request_json read_json
request_json_bounded_example = request_json_bounded lab "/orders" idle 200 (array nil) refl

database_status-Consistent_example :
    Consistent lab idle (record recycled.database { api_pid = 41; api_recycled = false })
unfolding database_status api_pid command request_json read_json classify cpu_status unit_state
    read_state strip split_once decimal splitlines parse_int property get
database_status-Consistent_example =
    database_status-Consistent lab idle
      (record recycled.database { api_pid = 41; api_recycled = false }) refl

-- Processes by number: the number of those started names the next.
abbrev console : Console lab
console = record {
  geteuid = pure 0;
  print_result = λ _ _. pure tt;
  catch_sigterm = pure tt;
  popen = λ w. (ok (length w.started), record w { started = w.started ++ length w.started ∷ [] });
  is_running = λ _. pure true;
  terminate = λ _. pure tt;
  wait = λ child w. (ok tt, record w { reaped = w.reaped ++ child ∷ [] });
}

popen_lem :
    (w : Lab) (child : ℕ)
    → (console.popen w).0 ≡ ok child
    → ((console.popen w).1.started ≡ w.started ++ child ∷ [])
      × ((console.popen w).1.reaped ≡ w.reaped)
popen_lem w child e = (ground arith, refl)

console_observed : IsObserved lab console
console_observed = record {
  started = λ w. w.started;
  reaped = λ w. w.reaped;
  popen_ok = popen_lem;
  popen_err = λ w x e. cc;
  signal_same = λ _. (refl, refl);
  sleep_same = λ _ _. (refl, refl);
  is_running_same = λ _ _. (refl, refl);
  terminate_same = λ _ _. (refl, refl);
  wait_ok = λ _ _ _. (refl, refl);
}

cpu_worker_reaps_example :
    Ends
      (λ _ w. w.started ≡ w.reaped)
      (λ e w. (w.started ≡ w.reaped) ⊎ StopFailed lab console e)
      (run_cpu_worker lab console 60 3 idle)
unfolding console_observed
cpu_worker_reaps_example = cpu_worker_reaps lab console console_observed 60 3 idle refl

main_bounds_cpu_example :
    main lab console
      (record { action = cpu; numbers = pos 300 ∷ pos 9 ∷ []; request_id = none })
      idle
    ≡ (err (value_error "CPU fault requires seconds 10..1800 and workers 1..8."), idle)
main_bounds_cpu_example =
    main_bounds_cpu lab console
      (record { action = cpu; numbers = pos 300 ∷ pos 9 ∷ []; request_id = none }) idle (inl refl)
      refl (λ b. omega arith)
