-- ===== src/VmFaults/Cli.antt =====
-- `main` and `cpu_worker` of scripts/vm/faults.py, behind argparse: the action is one of its
-- `choices`, and the numbers are integers.
use sre_agent_workshop.Prelude.{
  ℕ, zero, suc, ◌*◌, ◌++◌, ◌==◌, leb, Bool, true, false, not, ◌&&◌, ◌||◌, Option, none, some, List,
  [], ◌∷◌, String, if◌then◌else◌,
}
use sre_agent_workshop.Prelude.Int.{ℤ, pos}
use sre_agent_workshop.Prelude.Text.{len, every, is_digit}
use sre_agent_workshop.Exec.{
  Exec, ok, err, runtime_error, value_error, pure, raise, raise_if, or_raise, do_if, ◌>>=◌, ◌>>◌,
}
use sre_agent_workshop.VmFaults.Host.{Host, second}
use sre_agent_workshop.VmFaults.Units.{CpuStatus, CpuStarted, cpu_status, reset_cpu, start_cpu}
use sre_agent_workshop.VmFaults.Api.{DatabaseStatus, database_status}
use sre_agent_workshop.VmFaults.Recycle.{
  Recycled, verify_postgresql_denied, verify_postgresql_ready,
}

-- the `choices` of the positional argument
pub data Action : Type 0 where
  cpu status reset postgresql_denied postgresql_ready postgresql_status cpu_worker : Action

pub record Arguments : Type 0 where
  pub action : Action
  pub numbers : List ℤ
  pub request_id : Option String

-- the dictionary that an action returns
pub data Report : Type 0 where
  cpu_report : CpuStatus → Report
  started_report : CpuStarted → Report
  database_report : DatabaseStatus → Report
  recycled_report : Recycled → Report

abbrev pub in_range : ℕ → ℕ → ℕ → Bool
in_range low high n = leb low n && leb n high

-- two numbers, the seconds in 10..1800 and the workers in 1..8
unfoldable pub cpu_numbers : List ℤ → Option (ℕ × ℕ)
cpu_numbers (pos seconds ∷ pos workers ∷ []) =
    if in_range 10 1800 seconds && in_range 1 8 workers then some (seconds, workers) else none
cpu_numbers _ = none

-- `[0-9a-f]{32}`, matched in full
abbrev pub is_hex : ℕ → Bool
is_hex c = is_digit c || leb 97 c && leb c 102

unfoldable pub is_request_id : String → Bool
is_request_id s = len s == 32 && every is_hex s

abbrev pub has_none : List ℤ → Bool
has_none [] = true
has_none (_ ∷ _) = false

-- the test on `args.request_id`
unfoldable pub correlated : Option String → Option String
unfolding is_request_id
correlated none = none
correlated (some id) = if is_request_id id then some id else none

-- The rest of the machine that `main` and `cpu_worker` use: the effective user, the standard
-- output, and child processes.
pub record Console (h : Host) : Type 0 where
  pub geteuid : Exec h.World ℕ
  pub print_result : String → Report → Exec h.World (Unit {0})
  pub catch_sigterm : Exec h.World (Unit {0})
  pub popen : Exec h.World h.Child
  pub is_running : h.Child → Exec h.World Bool
  pub terminate : h.Child → Exec h.World (Unit {0})
  pub wait : h.Child → Exec h.World (Unit {0})

module _ (h : Host) (c : Console h) where
  open h use {World, Child, sleep}
  open c use {geteuid, print_result, catch_sigterm, popen, is_running, terminate, wait}

  -- the `finally` of `cpu_worker`
  unfoldable pub stop_children : List Child → Exec World (Unit {0})
  stop_children [] = pure tt
  stop_children (child ∷ children) = do
    running ← is_running child
    do_if running (terminate child)
    wait child
    stop_children children

  -- The `for` loop of the `try` with its `finally`: an exception of `Popen` or of the sleep, such
  -- as the `SystemExit` of the handler `terminate`, is raised again behind the `finally`.
  unfoldable pub run_children : ℕ → ℕ → List Child → Exec World (Unit {0})
  run_children zero seconds children w =
      let (r, w') = sleep (seconds * second) w in (stop_children children >> λ v. (r, v)) w'
  run_children (suc workers) seconds children w =
      let (r, w') = popen w in
      elim r [
        | ok child ↦ run_children workers seconds (children ++ child ∷ []) w'
        | err e ↦ (stop_children children >> raise e) w'
      ]

  unfoldable pub run_cpu_worker : ℕ → ℕ → Exec World (Unit {0})
  unfolding run_children
  run_cpu_worker seconds workers = catch_sigterm >> run_children workers seconds []

  -- `actions[args.action](*args.numbers)`
  unfoldable pub perform : Action → ℕ × ℕ → Exec World Report
  perform cpu (seconds, workers) = do
    result ← start_cpu h seconds workers
    pure (started_report result)
  perform status _ = do result ← cpu_status h; pure (cpu_report result)
  perform reset _ = do result ← reset_cpu h; pure (cpu_report result)
  perform postgresql_denied _ = do
    result ← verify_postgresql_denied h
    pure (recycled_report result)
  perform postgresql_ready _ = do result ← verify_postgresql_ready h; pure (recycled_report result)
  perform postgresql_status _ = do result ← database_status h; pure (database_report result)
  perform cpu_worker _ = raise (value_error "not an action of the dictionary")

  abbrev pub numbers_of : Action → List ℤ → Exec World (ℕ × ℕ)
  numbers_of cpu numbers =
      or_raise (cpu_numbers numbers)
        (value_error "CPU fault requires seconds 10..1800 and workers 1..8.")
  numbers_of cpu_worker numbers =
      or_raise (cpu_numbers numbers)
        (value_error "CPU fault requires seconds 10..1800 and workers 1..8.")
  numbers_of _ numbers =
      raise_if (not (has_none numbers))
        (value_error "This action does not accept numeric arguments.")
      >> pure (0, 0)

  -- behind the checks on the numbers
  unfoldable pub dispatch : Action → ℕ × ℕ → Option String → Exec World (Unit {0})
  dispatch cpu_worker numbers _ = run_cpu_worker numbers.0 numbers.1
  dispatch action numbers request_id = do
    id ←
        or_raise (correlated request_id)
          (value_error "Control-plane actions require a correlated request ID.")
    result ← perform action numbers
    print_result id result

  unfoldable pub main : Arguments → Exec World (Unit {0})
  main args = do
    euid ← geteuid
    raise_if (not (euid == 0)) (
        runtime_error
          "Use Azure VM Run Command; fault actions require VM administrator privileges.")
    numbers ← numbers_of args.action args.numbers
    dispatch args.action numbers args.request_id
