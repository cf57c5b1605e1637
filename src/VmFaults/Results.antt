-- ===== src/VmFaults/Results.antt =====
-- What the results of `recycle_api_and_verify` and `request_json` of scripts/vm/faults.py stand for.
use sre_agent_workshop.Prelude.{
  [], ◌∷◌, sym, ◌∙◌, ap, not, ℕ, zero, suc, ◌+◌, ◌*◌, ◌≤◌, ◌<◌, ltb, ◌≡◌, ◌≢◌, true, some, ◌⊎◌, inl,
  inr, List, String, length, arith, eq_iff, Bool-cases,
}
use sre_agent_workshop.Exec.{
  ok-inj, err-ne-ok, try_except-eq, Result, pair-eq, raise_if-then-eq, >>=-eq, Exec, ok, pure,
  message, >>=-eq-ok,
}
use sre_agent_workshop.Json.{Value}
use sre_agent_workshop.Prelude.Text.{one_of}
use sre_agent_workshop.VmFaults.Host.{Host, second}
use sre_agent_workshop.VmFaults.Units.{api_pid, command}
use sre_agent_workshop.VmFaults.Api.{
  answered, DatabaseStatus, request_json, database_status, read_json, max_body,
}
use sre_agent_workshop.VmFaults.Recycle.{
  Recycled, connectivity_text, pause, judge, verify, verify_from, attempt, proceed, recycle_round,
  recycle_loop, recycle_timed, recycle_api_and_verify, wait_for_api_live,
}
use sre_agent_workshop.VmFaults.Status.{Consistent, database_status-Consistent}

module _ (h : Host) where
  open h use {World}

  read_bounded :
      (path : String) (r : h.Response) (w : World) (code : ℕ) (payload : Value)
      → (read_json h path r w).0 ≡ ok (code, payload)
      → (body : List ℕ) × (length body ≤ max_body) × (h.json_loads body ≡ some payload)
  unfolding read_json
  read_bounded path r w code payload e =
      let (body, _, e1) = >>=-eq-ok _ (h.read r (max_body + 1)) w _ e in
      (body, ground arith, ground arith)

  -- What a recycling has established that ends in the world `end`: the last that it has done is to
  -- ask for the status of the database, which is the one recorded.
  pub record IsVerified (expected : String) (end : World) (r : Recycled) : Type 0 where
    pub asked : World
    pub status : DatabaseStatus
    pub last : database_status h asked ≡ (ok status, end)
    pub consistent : Consistent h asked status
    pub recorded : r.database ≡ record status { api_recycled = true }
    pub as_expected : connectivity_text status.postgresql_connectivity ≡ expected
    pub new_process : status.api_pid ≢ r.previous_api_pid

  -- a verified result of this attempt, with this process before
  abbrev Judged : String → ℕ → ℕ → Recycled → World → Type 0
  Judged expected previous_pid attempts r end =
      IsVerified expected end r
      × (r.previous_api_pid ≡ previous_pid)
      × (r.api_recycle_attempts ≡ attempts)

  judge_tests :
      (expected : String) (previous_pid attempts : ℕ) (d : DatabaseStatus) (w : World)
      (r : Recycled)
      → (judge h expected previous_pid attempts d w).0 ≡ ok (inl r)
      → (r.database ≡ record d { api_recycled = true })
        × (connectivity_text d.postgresql_connectivity ≡ expected)
        × (d.api_pid ≢ previous_pid)
        × (r.previous_api_pid ≡ previous_pid)
        × (r.api_recycle_attempts ≡ attempts)
  unfolding judge
  judge_tests expected previous_pid attempts d w r e =
      ground (arith, eq_iff (connectivity_text d.postgresql_connectivity) expected)

  inr-ne-inl :
      {x : String} {r : Recycled}
      → ◌≡◌ {A = Result (Recycled ⊎ String)} (ok (inr x)) (ok (inl r))
      → ⊥
  inr-ne-inl e = cc

  judge_world :
      (expected : String) (previous_pid attempts : ℕ) (d : DatabaseStatus) (w : World)
      → (judge h expected previous_pid attempts d w).1 ≡ w
  unfolding judge
  judge_world expected previous_pid attempts d w = ground arith

  verify-Judged :
      (expected : String) (previous_pid deadline attempts : ℕ) (w w' : World) (r : Recycled)
      → verify h expected previous_pid deadline attempts w ≡ (ok (inl r), w')
      → Judged expected previous_pid attempts r w'
  unfolding verify verify_from
  verify-Judged expected previous_pid deadline attempts w w' r e =
      let (_, _, e1) = >>=-eq _ (wait_for_api_live h _ _ _) (h.monotonic w).1 _ _ e in
      let asked = (wait_for_api_live h _ _ _ (h.monotonic w).1).1 in
      let (d, e2, e3) = >>=-eq _ (database_status h) asked _ _ e1 in
      let (recorded, as_expected, fresh, before, count) =
        judge_tests expected previous_pid attempts d _ r (ap (λ p. p.0) e3) in
      (
        record {
          asked = asked;
          status = d;
          last =
              pair-eq e2 (sym (judge_world expected previous_pid attempts d _) ∙ ap (λ p. p.1) e3);
          consistent = database_status-Consistent h asked d e2;
          recorded = recorded;
          as_expected = as_expected;
          new_process = λ same. fresh (same ∙ before);
        },
        before,
        count,
      )

  attempt-Judged :
      (expected : String) (previous_pid deadline attempts : ℕ) (w w' : World) (r : Recycled)
      → attempt h expected previous_pid deadline attempts w ≡ (ok (inl r), w')
      → Judged expected previous_pid attempts r w'
  unfolding attempt
  attempt-Judged expected previous_pid deadline attempts w w' r e =
      let (_, _, e1) = >>=-eq _ (command h _) w _ _ e in
      elim (try_except-eq _ (λ error. pure (inr (message error)))
        (verify h expected previous_pid deadline attempts) _ _ _ e1) [
          | inl (done, same) ↦
              verify-Judged expected previous_pid deadline attempts _ w' r (pair-eq done same)
          | inr (x, e2) ↦ absurd (inr-ne-inl (ap (λ p. p.0) e2))
        ]

  -- A round that returns has been verified, or has left the result to a later round.
  recycle_round-eq :
      (expected : String) (previous_pid deadline attempts : ℕ) (next : String → Exec World Recycled)
      (w w' : World) (r : Recycled)
      → recycle_round h expected previous_pid deadline attempts next w ≡ (ok r, w')
      → Judged expected previous_pid attempts r w'
        ⊎ ((error : String) × (w1 : World) × (next error w1 ≡ (ok r, w')))
  unfolding recycle_round
  recycle_round-eq expected previous_pid deadline attempts next w w' r e =
      let (outcome, e1, e2) =
        >>=-eq _ (attempt h expected previous_pid deadline attempts) w _ _ e in
      settle outcome e1 e2
    where
      settle :
          (outcome : Recycled ⊎ String)
          → (attempt h expected previous_pid deadline attempts w).0 ≡ ok outcome
          → proceed h deadline next outcome (attempt h expected previous_pid deadline attempts w).1
            ≡ (ok r, w')
          → Judged expected previous_pid attempts r w'
            ⊎ ((error : String) × (w1 : World) × (next error w1 ≡ (ok r, w')))
      settle (inl result) e1 e2 = inl (
          attempt-Judged expected previous_pid deadline attempts w w' r
            (pair-eq (e1 ∙ ap (λ a. ok (inl a)) (ok-inj (ap (λ p. p.0) e2))) (ap (λ p. p.1) e2)))
      settle (inr error) e1 e2 =
          let (_, _, e3) = >>=-eq _ (pause h (5 * second) deadline) _ _ _ e2 in inr (error, _, e3)

  recycle_loop-IsVerified :
      (f : ℕ) (expected : String) (previous_pid deadline attempts : ℕ) (last_error : String)
      (w w' : World) (r : Recycled)
      → recycle_loop h f expected previous_pid deadline attempts last_error w ≡ (ok r, w')
      → IsVerified expected w' r
        × (r.previous_api_pid ≡ previous_pid)
        × (attempts < r.api_recycle_attempts)
        × (r.api_recycle_attempts ≤ attempts + f)
  unfolding recycle_loop
  recycle_loop-IsVerified zero expected previous_pid deadline attempts last_error w w' r e =
      absurd (err-ne-ok (ap (λ p. p.0) e))
  recycle_loop-IsVerified (suc f) expected previous_pid deadline attempts last_error w w' r e =
      elim (Bool-cases (ltb (h.monotonic w).0 deadline)) [
        | inr late ↦ absurd (err-ne-ok (ap (λ p. p.0) (rw late at e)))
        | inl early ↦
            elim (recycle_round-eq expected previous_pid deadline (attempts + 1) _ _ w' r
              (rw early at e)) [
                | inl (v, same, n) ↦ (v, same, omega arith, omega arith)
                | inr (error, w1, e1) ↦
                    let (v, same, low, high) =
                      recycle_loop-IsVerified f expected previous_pid deadline (attempts + 1) error
                        w1 w' r e1 in
                    (v, same, omega arith, omega arith)
              ]
      ]

  -- A recycling that succeeds has begun by reading the id of the API's process, and has ended by
  -- asking for the status of the database, which it returns: PostgreSQL is in the expected state, by
  -- live, readiness and orders answers that agree with their bodies, and the process that systemd
  -- has then named is not the one from the beginning. It has taken between one and thirty-one attempts.
  pub recycle_api_and_verify-IsVerified :
      (expected : String) (w w' : World) (r : Recycled)
      → recycle_api_and_verify h expected w ≡ (ok r, w')
      → ((api_pid h w).0 ≡ ok r.previous_api_pid)
        × IsVerified expected w' r
        × (1 ≤ r.api_recycle_attempts)
        × (r.api_recycle_attempts ≤ 31)
  unfolding recycle_api_and_verify recycle_timed
  recycle_api_and_verify-IsVerified expected w w' r e =
      let (pid, e1, e2) =
        >>=-eq (recycle_timed h expected) (api_pid h) w r w'
          (raise_if-then-eq (not (one_of expected ("ready" ∷ "unavailable" ∷ []))) _ _ w r w' e) in
      let (v, same, low, high) = recycle_loop-IsVerified 31 expected pid _ 0 _ _ w' r e2 in
      (e1 ∙ ap ok (sym same), v, omega arith, omega arith)

  -- An answer of the API that is accepted is the parse of a body of at most 64 KiB.
  pub request_json_bounded :
      (path : String) (w : World) (code : ℕ) (payload : Value)
      → (request_json h path w).0 ≡ ok (code, payload)
      → (body : List ℕ) × (length body ≤ 65536) × (h.json_loads body ≡ some payload)
  unfolding request_json
  request_json_bounded path w code payload e =
      let (opened, _, e1) = >>=-eq-ok _ (h.http_open path) w _ e in
      let (r, _, e2) =
        >>=-eq-ok (read_json h path) (answered h path opened) (h.http_open path w).1 _ e1 in
      read_bounded path r (answered h path opened (h.http_open path w).1).1 code payload e2
