-- ===== src/VmFaults/Units.antt =====
-- `command`, `unit_state` and the CPU fault of scripts/vm/faults.py.
use sre_agent_workshop.Prelude.{
  ℕ, ◌==◌, Bool, false, not, ◌&&◌, Option, none, some, List, [], ◌∷◌, String, if◌then◌else◌,
}
use sre_agent_workshop.Prelude.Int.{ℤ, pos, negsuc}
use sre_agent_workshop.Prelude.Text.{
  ◌<>◌, str_eq, one_of, decimal, strip, splitlines, split_once, parse_int,
}
use sre_agent_workshop.Exec.{
  Exec, runtime_error, subprocess_error, pure, raise, raise_if, do_if, ◌>>=◌, ◌>>◌,
}
use sre_agent_workshop.VmFaults.Host.{Host, Completed, is_zero}

abbrev pub cpu_unit : String
cpu_unit = "orders-cpu-fault.service"

abbrev pub api_unit : String
api_unit = "orders-api.service"

-- `dict(line.split("=", 1) for line in lines if "=" in line).get(key)`: the last one counts
unfoldable pub property : String → List String → Option String
property key [] = none
property key (line ∷ lines) = elim (property key lines) [
  | some value ↦ some value
  | none ↦ elim (split_once b'=' line) [
    | none ↦ none
    | some (name, value) ↦ if str_eq name key then some value else none
  ]
]

abbrev pub is_text_of : String → Option String → Bool
is_text_of s none = false
is_text_of s (some t) = str_eq t s

-- the last test of `unit_state`
abbrev pub active_state : {W : Type 0} → String → Option String → Exec W String
active_state unit none =
    raise (runtime_error ("systemd did not return the state of " <> unit <> "."))
active_state unit (some state) =
    if str_eq state ""
    then raise (runtime_error ("systemd did not return the state of " <> unit <> "."))
    else pure state

-- `unit_state`, after `systemctl show` has returned
unfoldable pub read_state : {W : Type 0} → String → Completed → Exec W String
unfolding property
read_state unit result =
    let values = splitlines result.stdout in
    let missing = is_text_of "not-found" (property "LoadState" values) in
    if not (is_zero result.returncode) && not missing
    then raise (runtime_error ("Cannot inspect " <> unit <> ": " <> strip result.stderr))
    else if missing
    then pure "inactive"
    else active_state unit (property "ActiveState" values)

pub record CpuStatus : Type 0 where
  pub cpu : String

pub record CpuStarted : Type 0 where
  pub cpu : String
  pub seconds : ℕ
  pub workers : ℕ

abbrev pub is_idle : String → Bool
is_idle state = one_of state ("inactive" ∷ "failed" ∷ [])

module _ (h : Host) where
  open h use {World, subprocess_run, executable, script}

  -- `check=True`: an exit code other than 0 is a `CalledProcessError`
  unfoldable pub command : List String → Exec World String
  command args = do
    result ← subprocess_run args
    raise_if (not (is_zero result.returncode))
        (subprocess_error "Command returned non-zero exit status")
    pure (strip result.stdout)

  unfoldable pub unit_state : String → Exec World String
  unit_state unit = do
    result ←
        subprocess_run
          ("systemctl" ∷ "show" ∷ unit ∷ "--property=LoadState,ActiveState" ∷ "--no-pager" ∷ [])
    read_state unit result

  unfoldable pub cpu_status : Exec World CpuStatus
  cpu_status = do state ← unit_state cpu_unit; pure (record { cpu = state })

  unfoldable pub reset_cpu : Exec World CpuStatus
  reset_cpu = do
    state ← unit_state cpu_unit
    do_if (not (is_idle state)) (command ("systemctl" ∷ "stop" ∷ cpu_unit ∷ []) >> pure tt)
    cpu_status

  -- the transient unit: it ends by itself after `seconds`
  abbrev pub cpu_fault : ℕ → ℕ → List String
  cpu_fault seconds workers =
      "systemd-run"
      ∷ "--quiet"
      ∷ "--collect"
      ∷ ("--unit=" <> cpu_unit)
      ∷ "--service-type=exec"
      ∷ ("--property=RuntimeMaxSec=" <> decimal seconds)
      ∷ "--property=KillMode=control-group"
      ∷ "--property=Nice=10"
      ∷ "--property=MemoryMax=256M"
      ∷ executable
      ∷ script
      ∷ "cpu-worker"
      ∷ decimal seconds
      ∷ decimal workers
      ∷ []

  unfoldable pub start_cpu : ℕ → ℕ → Exec World CpuStarted
  start_cpu seconds workers = do
    state ← unit_state cpu_unit
    raise_if (not (is_idle state))
        (runtime_error "CPU pressure is already active; reset it before starting another fault.")
    command (cpu_fault seconds workers)
    result ← cpu_status
    raise_if (not (str_eq result.cpu "active"))
        (runtime_error "The CPU-pressure unit did not start.")
    pure (record { cpu = result.cpu; seconds = seconds; workers = workers })

  abbrev pub positive : Option ℤ → Exec World ℕ
  positive none =
      raise (runtime_error ("systemd returned an invalid " <> api_unit <> " process ID."))
  positive (some (negsuc _)) =
      raise (runtime_error (api_unit <> " does not have a running process."))
  positive (some (pos n)) =
      if n == 0
      then raise (runtime_error (api_unit <> " does not have a running process."))
      else pure n

  unfoldable pub api_pid : Exec World ℕ
  api_pid = do
    value ← command ("systemctl" ∷ "show" ∷ api_unit ∷ "--property=MainPID" ∷ "--value" ∷ [])
    positive (parse_int value)
