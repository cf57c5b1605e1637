-- ===== src/VmFaults/Recycle.antt =====
-- `wait_for_api_live` and `recycle_api_and_verify` of scripts/vm/faults.py.
-- Both loops run until a deadline; the model gives them fuel, and VmFaults/Ends shows it suffices.
use sre_agent_workshop.Prelude.{
  ℕ, zero, suc, ◌+◌, ◌-◌, ◌*◌, min, ◌==◌, ltb, true, not, Option, none, some, [], ◌∷◌, ◌⊎◌, inl,
  inr, String, if◌then◌else◌,
}
use sre_agent_workshop.Prelude.Text.{◌<>◌, decimal, str_eq, one_of}
use sre_agent_workshop.Exec.{
  Exec, runtime_error, value_error, diverged, message, is_runtime, ok, pure, raise, raise_if, do_if,
  try_except, ◌>>=◌, ◌>>◌,
}
use sre_agent_workshop.VmFaults.Host.{Host, second}
use sre_agent_workshop.VmFaults.Units.{api_unit, command, api_pid}
use sre_agent_workshop.VmFaults.Api.{
  Connectivity, ready, unavailable, DatabaseStatus, is_live, request_json, database_status,
}

-- `DATABASE_VERIFICATION_SECONDS`
abbrev pub verification_seconds : ℕ
verification_seconds = 150

-- Fuel: a round of the inner loop takes a second or reaches its deadline, 30 s away at most; a
-- round of the outer loop takes five seconds or reaches its deadline, 150 s away.
abbrev pub live_rounds : ℕ
live_rounds = 31

abbrev pub recycle_rounds : ℕ
recycle_rounds = 31

abbrev pub connectivity_text : Connectivity → String
connectivity_text ready = "ready"
connectivity_text unavailable = "unavailable"

pub record Recycled : Type 0 where
  pub database : DatabaseStatus
  pub previous_api_pid : ℕ
  pub api_recycle_attempts : ℕ

module _ (h : Host) where
  open h use {World, monotonic, sleep}

  abbrev pub clock : Exec World ℕ
  clock w = let (t, w') = monotonic w in (ok t, w')

  -- `remaining = deadline - time.monotonic()`, and a sleep if that is positive
  unfoldable pub pause : ℕ → ℕ → Exec World (Unit {0})
  pause longest deadline = do t ← clock; do_if (ltb t deadline) (sleep (min longest (deadline - t)))

  -- one round of the `try`: nothing if the API is live, and the last error otherwise
  unfoldable pub look_live : Exec World (Option String)
  look_live =
      try_except
        (do
          (code, payload) ← request_json h "/health/live"
          pure (
              if is_live code payload
              then none
              else some ("Liveness returned HTTP " <> decimal code <> ".")))
        is_runtime (λ error. pure (some (message error)))

  -- the loop's body behind its test, with the next round as an argument
  unfoldable pub live_round : ℕ → (String → Exec World (Unit {0})) → Exec World (Unit {0})
  live_round deadline next = do
    seen ← look_live
    elim seen [ none ↦ pure tt | some error ↦ pause second deadline >> next error ]

  unfoldable pub wait_for_api_live : ℕ → ℕ → String → Exec World (Unit {0})
  wait_for_api_live zero deadline last_error = raise diverged
  wait_for_api_live (suc fuel) deadline last_error = do
    t ← clock
    if ltb t deadline
        then live_round deadline (wait_for_api_live fuel deadline)
        else raise (
            runtime_error
              ("The recycled Orders API did not become live. Last observation: " <> last_error))

  -- what an attempt makes of the status: the result, or why the database is not as expected
  unfoldable pub judge : String → ℕ → ℕ → DatabaseStatus → Exec World (Recycled ⊎ String)
  judge expected previous_pid attempts result =
      if str_eq (connectivity_text result.postgresql_connectivity) expected
      then (do
        raise_if (result.api_pid == previous_pid)
            (runtime_error (api_unit <> " retained its process ID after restart."))
        pure (
            inl (record {
              database = record result { api_recycled = true };
              previous_api_pid = previous_pid;
              api_recycle_attempts = attempts;
            })))
      else pure (
          inr (
            "PostgreSQL connectivity was "
            <> connectivity_text result.postgresql_connectivity
            <> ", expected "
            <> expected
            <> "."))

  -- the body of the `try` of one attempt, that begins at time `t`
  unfoldable pub verify_from : String → ℕ → ℕ → ℕ → ℕ → Exec World (Recycled ⊎ String)
  verify_from expected previous_pid deadline attempts t = do
    wait_for_api_live live_rounds (min deadline (t + 30 * second))
        "The liveness endpoint did not respond."
    result ← database_status h
    judge expected previous_pid attempts result

  unfoldable pub verify : String → ℕ → ℕ → ℕ → Exec World (Recycled ⊎ String)
  verify expected previous_pid deadline attempts = do
    t ← clock
    verify_from expected previous_pid deadline attempts t

  unfoldable pub attempt : String → ℕ → ℕ → ℕ → Exec World (Recycled ⊎ String)
  attempt expected previous_pid deadline attempts = do
    command h ("systemctl" ∷ "restart" ∷ api_unit ∷ [])
    try_except (verify expected previous_pid deadline attempts) is_runtime
        (λ error. pure (inr (message error)))

  abbrev pub proceed : ℕ → (String → Exec World Recycled) → Recycled ⊎ String → Exec World Recycled
  proceed deadline next (inl result) = pure result
  proceed deadline next (inr error) = pause (5 * second) deadline >> next error

  -- the loop's body behind its test, with the next round as an argument
  unfoldable pub recycle_round :
      String → ℕ → ℕ → ℕ → (String → Exec World Recycled) → Exec World Recycled
  recycle_round expected previous_pid deadline attempts next = do
    outcome ← attempt expected previous_pid deadline attempts
    proceed deadline next outcome

  unfoldable pub recycle_loop : ℕ → String → ℕ → ℕ → ℕ → String → Exec World Recycled
  recycle_loop zero expected previous_pid deadline attempts last_error = raise diverged
  recycle_loop (suc fuel) expected previous_pid deadline attempts last_error = do
    t ← clock
    if ltb t deadline
        then recycle_round expected previous_pid deadline (attempts + 1)
            (recycle_loop fuel expected previous_pid deadline (attempts + 1))
        else raise (
            runtime_error (
              "The Orders API-only recycle did not verify PostgreSQL connectivity as "
              <> expected
              <> " within "
              <> decimal verification_seconds
              <> " seconds. Last observation: "
              <> last_error))

  unfoldable pub recycle_timed : String → ℕ → Exec World Recycled
  recycle_timed expected previous_pid = do
    t ← clock
    recycle_loop recycle_rounds expected previous_pid (t + verification_seconds * second) 0
        "No verification attempt completed."

  unfoldable pub recycle_api_and_verify : String → Exec World Recycled
  recycle_api_and_verify expected = do
    raise_if (not (one_of expected ("ready" ∷ "unavailable" ∷ [])))
        (value_error "Expected PostgreSQL state must be ready or unavailable.")
    previous_pid ← api_pid h
    recycle_timed expected previous_pid

  unfoldable pub verify_postgresql_denied : Exec World Recycled
  verify_postgresql_denied = recycle_api_and_verify "unavailable"

  unfoldable pub verify_postgresql_ready : Exec World Recycled
  verify_postgresql_ready = recycle_api_and_verify "ready"
