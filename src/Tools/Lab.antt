-- ===== src/Tools/Lab.antt =====
-- A machine on which everything succeeds and nothing takes time, for the tests to change.
use sre_agent_workshop.Prelude.{ℕ, none, some}
use sre_agent_workshop.Prelude.Int.{pos}
use sre_agent_workshop.Exec.{ok}
use sre_agent_workshop.Tools.Machine.{Machine, finished}

-- The world is a number, that the tests count with.
abbrev pub lab : Machine
lab = record {
  World = ℕ;
  which = λ tool w. (ok (some tool), w);
  launcher = λ executable w. (ok none, w);
  run = λ command timeout w. (ok (finished (pos 0) "" ""), w);
  run_process = λ command environment w. (ok (pos 0, "done"), w);
  replace_file = λ w. (ok tt, w);
  remove_file = λ w. (ok tt, w);
  make_directory = λ path w. (ok tt, w);
  fresh_id = λ w. (ok "0123456789abcdef0123456789abcdef", w);
  temporary_file = λ content w. (ok "/tmp/run.sh", w);
  monotonic = λ w. (ok w, w);
  round_tenths = λ d. d;
  sleep = λ d w. (ok tt, w);
  utc_now = λ w. (ok "2026-01-01T00:00:00+00:00", w);
  json_loads = λ s. none;
  json_dumps = λ v. "";
  casefold = λ s. s;
  lower = λ s. s;
  str = λ v. "";
  repr = λ s. s;
  quote = λ s. s;
  uuid = λ s. some s;
  executable = "python3";
  workshop_script = "scripts/workshop.py";
  fault_template = "infra/fault.bicep";
}
