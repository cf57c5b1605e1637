-- ===== src/Tools/Tests.antt =====
-- A request that fails once, on which the theorem about the retries is applied.
use sre_agent_workshop.Prelude.{ℕ, zero, suc, ◌+◌, ◌≤◌, ◌≡◌, refl, true, some, String, arith}
use sre_agent_workshop.Exec.{Exec, ok, err, request_error}
use sre_agent_workshop.Exec.Triple.{Ends}
use sre_agent_workshop.Tools.Lab.{lab}
use sre_agent_workshop.Tools.Retry.{retry_sre_agent}
use sre_agent_workshop.Tools.RetryBound.{Answered, IsCount, retry_sre_agent-Ends}

abbrev request : Exec ℕ String
request zero = (err (request_error (some 503) true "busy"), 1)
request (suc w) = (ok "done", suc w + 1)

request_adds : (w : ℕ) → (request w).1 ≤ w + 1
request_adds zero = omega arith
request_adds (suc w) = omega arith

sleep_keeps : (w : ℕ) → w ≤ w
sleep_keeps w = omega arith

one_each : IsCount lab "Skill" request 15 (λ w. w)
one_each = record { run_adds = request_adds; sleep_adds = λ d w. sleep_keeps w }

second_time : retry_sre_agent lab "Skill" request 15 8 0 ≡ (ok (some "done"), 2)
unfolding retry_sre_agent
second_time = refl

retry_sre_agent-Ends_example :
    Ends
      (λ o w. Answered lab "Skill" request 15 o w × (w ≤ 0 + 8))
      (λ _ w. w ≤ 0 + 8)
      (retry_sre_agent lab "Skill" request 15 8 0)
retry_sre_agent-Ends_example = retry_sre_agent-Ends lab "Skill" request 15 (λ w. w) one_each 7 0
