-- ===== src/VmFaults/Host.antt =====
-- What scripts/vm/faults.py takes from the machine: subprocesses, HTTP, the clock.
use sre_agent_workshop.Prelude.{
  ℕ, zero, ◌+◌, ◌≤◌, ◌≡◌, ◌≢◌, Bool, true, false, Option, List, String,
}
use sre_agent_workshop.Prelude.Int.{ℤ, pos}
use sre_agent_workshop.Exec.{Exec, ok, err, diverged}
use sre_agent_workshop.Json.{Value}

-- the result of `subprocess.run`
pub record Completed : Type 0 where
  pub returncode : ℤ
  pub stdout : String
  pub stderr : String

abbrev pub is_zero : ℤ → Bool
is_zero (pos zero) = true
is_zero _ = false

-- How `HTTP.open` ends: a response, an `HTTPError` (a response too), or no answer
-- (`TimeoutError`, `URLError`) with its text. Any other exception is raised.
pub data Opened (R : Type 0) : Type 0 where
  response : R → Opened R
  http_failure : R → Opened R
  unreachable : String → Opened R

-- `World` is the state of the VM, its services and its network. Each operation may change it.
-- Times are whole numbers of nanoseconds.
pub record Host : Type 1 where
  pub World : Type 0
  pub Response : Type 0
  pub Child : Type 0
  pub subprocess_run : List String → Exec World Completed
  pub http_open : String → Exec World (Opened Response)
  pub status : Response → ℕ
  pub read : Response → ℕ → Exec World (List ℕ)
  -- nothing where `json.loads` raises
  pub json_loads : List ℕ → Option Value
  pub monotonic : World → ℕ × World
  pub sleep : ℕ → Exec World (Unit {0})
  pub executable : String
  pub script : String

abbrev pub second : ℕ
second = 1_000_000_000

-- What the loops rely on: no operation turns the clock back, a sleep that returns lasts at least
-- as long as it was asked to, and `monotonic` reads the clock at some time during its call. `diverged`
-- is no exception, so no operation raises it.
pub record IsSteady (h : Host) : Type 0 where
  pub now : h.World → ℕ
  pub run_on : (args : List String) (w : h.World) → now w ≤ now (h.subprocess_run args w).1
  pub open_on : (path : String) (w : h.World) → now w ≤ now (h.http_open path w).1
  pub read_on : (r : h.Response) (n : ℕ) (w : h.World) → now w ≤ now (h.read r n w).1
  pub clock_from : (w : h.World) → now w ≤ (h.monotonic w).0
  pub clock_to : (w : h.World) → (h.monotonic w).0 ≤ now (h.monotonic w).1
  pub sleep_on : (d : ℕ) (w : h.World) → now w ≤ now (h.sleep d w).1
  pub sleeps : (d : ℕ) (w : h.World) → (h.sleep d w).0 ≡ ok tt → now w + d ≤ now (h.sleep d w).1
  pub run_ends : (args : List String) (w : h.World) → (h.subprocess_run args w).0 ≢ err diverged
  pub open_ends : (path : String) (w : h.World) → (h.http_open path w).0 ≢ err diverged
  pub read_ends : (r : h.Response) (n : ℕ) (w : h.World) → (h.read r n w).0 ≢ err diverged
  pub sleep_ends : (d : ℕ) (w : h.World) → (h.sleep d w).0 ≢ err diverged
