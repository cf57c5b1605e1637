-- ===== src/Tools/Retry.antt =====
-- `retry_sre_agent` of scripts/workshop.py: a request that may be retried is.
use sre_agent_workshop.Prelude.{
  ℕ, zero, suc, ◌*◌, ◌==◌, Bool, true, false, not, ◌||◌, Option, none, some, String, if◌then◌else◌,
}
use sre_agent_workshop.Prelude.Text.{◌<>◌}
use sre_agent_workshop.Exec.{Exec, Error, request_error, pure, raise, try_except, ◌>>=◌, ◌>>◌}
use sre_agent_workshop.Tools.Machine.{Machine}

-- `SreAgentRequestError`
abbrev pub is_request : Error → Bool
is_request (request_error _ _ _) = true
is_request _ = false

abbrev pub is_retryable : Error → Bool
is_retryable (request_error _ retryable _) = retryable
is_retryable _ = false

-- the same error with the label in front of its text
abbrev pub relabelled : String → Error → Error
relabelled label (request_error status retryable text) =
    request_error status retryable (label <> " failed: " <> text)
relabelled label e = e

module _ (m : Machine) {A : Type 0} (label : String) (action : Exec m.World A)
    (retry_seconds : ℕ) where
  open m use {World, sleep}

  abbrev pub returned : Exec World (Option A)
  returned = do a ← action; pure (some a)

  -- the `except` clause, with the attempts that are left and the rest of the loop
  abbrev pub failed : ℕ → Exec World (Option A) → Error → Exec World (Option A)
  failed left next error =
      if not (is_retryable error) || left == 0
      then raise (relabelled label error)
      else sleep (retry_seconds * 1_000_000_000) >> next

  -- `None` falls out of a loop without an attempt
  unfoldable pub retry_sre_agent : ℕ → Exec World (Option A)
  retry_sre_agent zero = pure none
  retry_sre_agent (suc left) = try_except returned is_request (failed left (retry_sre_agent left))
