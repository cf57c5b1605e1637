-- ===== src/VmFaults/Ends.antt =====
-- The loops of scripts/vm/faults.py end by their deadlines: on a machine whose clock runs, the
-- fuel of the model is never used up.
use sre_agent_workshop.Prelude.{
  ℕ, zero, suc, ◌+◌, ◌-◌, ◌*◌, ◌≤◌, min, ltb, ◌≡◌, ◌≢◌, refl, Bool, true, false, Option, none, some,
  ◌⊎◌, inl, inr, List, String, arith, if◌then◌else◌, Bool-cases, ltb→lt,
}
use sre_agent_workshop.Exec.{
  Exec, Error, Result, ok, err, diverged, runtime_error, value_error, subprocess_error, pure, raise,
  raise_if, do_if, or_raise, continue, handle, try_except, ◌>>=◌, ◌>>◌,
}
use sre_agent_workshop.Prelude.Int.{ℤ, pos, negsuc}
use sre_agent_workshop.VmFaults.Host.{
  Host, Completed, IsSteady, second, Opened, response, http_failure, unreachable,
}
use sre_agent_workshop.VmFaults.Units.{
  read_state, command, unit_state, cpu_status, api_pid, positive, active_state,
}
use sre_agent_workshop.VmFaults.Api.{
  answered, read_json, request_json, DatabaseStatus, database_status,
}
use sre_agent_workshop.VmFaults.Recycle.{
  clock, pause, look_live, live_round, wait_for_api_live, verify, verify_from, judge, recycle_timed,
  attempt, Recycled, proceed, recycle_round, recycle_loop, recycle_api_and_verify,
}

module _ (h : Host) (steady : IsSteady h) where
  open h use {World}
  open steady use {now}

  -- The action does not turn the clock back and does not run out of fuel.
  pub record Runs {A : Type 0} (m : Exec World A) : Type 0 where
    pub on : (w : World) → now w ≤ now (m w).1
    pub ends : (w : World) → (m w).0 ≢ err diverged

  Runs-pure : {A : Type 0} (a : A) → Runs (pure a)
  Runs-pure a = record { on = λ w. omega arith; ends = λ w e. cc }

  Runs-raise : {A : Type 0} (e : Error) → e ≢ diverged → Runs (raise {A = A} e)
  Runs-raise e ne = record { on = λ w. omega arith; ends = λ w p. ground (arith, ne) }

  continue-Runs :
      {A B : Type 0} (f : A → Exec World B) (r : Result A) (w : World)
      → r ≢ err diverged
      → ((a : A) → Runs (f a))
      → (now w ≤ now (continue r f w).1) × ((continue r f w).0 ≢ err diverged)
  continue-Runs f (ok a) w ne rf = ((rf a).on w, (rf a).ends w)
  continue-Runs f (err e) w ne rf = (omega arith, λ p. ground (arith, ne))

  Runs-bind :
      {A B : Type 0} (m : Exec World A) (f : A → Exec World B)
      → Runs m
      → ((a : A) → Runs (f a))
      → Runs (m >>= f)
  Runs-bind m f rm rf = record {
    on = λ w. omega (arith, rm.on w, (continue-Runs f (m w).0 (m w).1 (rm.ends w) rf).0);
    ends = λ w. (continue-Runs f (m w).0 (m w).1 (rm.ends w) rf).1;
  }

  handle-Runs :
      {A : Type 0} (caught : Error → Bool) (k : Error → Exec World A) (r : Result A) (w : World)
      → r ≢ err diverged
      → ((e : Error) → Runs (k e))
      → (now w ≤ now (handle caught k r w).1) × ((handle caught k r w).0 ≢ err diverged)
  handle-Runs caught k (ok a) w ne rk = (omega arith, ne)
  handle-Runs caught k (err e) w ne rk = elim (Bool-cases (caught e)) [
    | inl c ↦ rw c ((rk e).on w, (rk e).ends w)
    | inr c ↦ rw c (omega arith, ne)
  ]

  Runs-try :
      {A : Type 0} (m : Exec World A) (caught : Error → Bool) (k : Error → Exec World A)
      → Runs m
      → ((e : Error) → Runs (k e))
      → Runs (try_except m caught k)
  Runs-try m caught k rm rk = record {
    on = λ w. omega (arith, rm.on w, (handle-Runs caught k (m w).0 (m w).1 (rm.ends w) rk).0);
    ends = λ w. (handle-Runs caught k (m w).0 (m w).1 (rm.ends w) rk).1;
  }

  Runs-if :
      {A : Type 0} (b : Bool) (m n : Exec World A) → Runs m → Runs n → Runs (if b then m else n)
  Runs-if true m n rm rn = rm
  Runs-if false m n rm rn = rn

  Runs-raise_if : (b : Bool) (e : Error) → e ≢ diverged → Runs (raise_if b e)
  Runs-raise_if true e ne = Runs-raise e ne
  Runs-raise_if false e ne = Runs-pure tt

  Runs-or_raise : {A : Type 0} (o : Option A) (e : Error) → e ≢ diverged → Runs (or_raise o e)
  Runs-or_raise none e ne = Runs-raise e ne
  Runs-or_raise (some a) e ne = Runs-pure a

  runtime_error-ne : (m : String) → runtime_error m ≢ diverged
  runtime_error-ne m p = cc

  subprocess_error-ne : (m : String) → subprocess_error m ≢ diverged
  subprocess_error-ne m p = cc

  value_error-ne : (m : String) → value_error m ≢ diverged
  value_error-ne m p = cc

  Runs-run : (args : List String) → Runs (h.subprocess_run args)
  Runs-run args = record { on = steady.run_on args; ends = steady.run_ends args }

  Runs-open : (path : String) → Runs (h.http_open path)
  Runs-open path = record { on = steady.open_on path; ends = steady.open_ends path }

  Runs-read : (r : h.Response) (n : ℕ) → Runs (h.read r n)
  Runs-read r n = record { on = steady.read_on r n; ends = steady.read_ends r n }

  Runs-sleep : (d : ℕ) → Runs (h.sleep d)
  Runs-sleep d = record { on = steady.sleep_on d; ends = steady.sleep_ends d }

  Runs-clock : Runs (clock h)
  Runs-clock = record {
    on = λ w. omega (arith, steady.clock_from w, steady.clock_to w);
    ends = λ w e. cc;
  }

  ruleset runs_rules = (
    Runs-pure, Runs-raise, Runs-bind, Runs-try, Runs-if, Runs-raise_if, Runs-or_raise, Runs-run,
    Runs-open, Runs-read, Runs-sleep, Runs-clock, runtime_error-ne, subprocess_error-ne,
    value_error-ne,
  )

  command-Runs : (args : List String) → Runs (command h args)
  unfolding command
  command-Runs args = search runs_rules

  positive-Runs : (o : Option ℤ) → Runs (positive h o)
  positive-Runs none = search runs_rules
  positive-Runs (some (negsuc n)) = search runs_rules
  positive-Runs (some (pos n)) = search runs_rules

  pub api_pid-Runs : Runs (api_pid h)
  unfolding api_pid
  api_pid-Runs = search (runs_rules, command-Runs, positive-Runs)

  active_state-Runs : (unit : String) (o : Option String) → Runs (active_state unit o)
  active_state-Runs unit none = search runs_rules
  active_state-Runs unit (some state) = search runs_rules

  read_state-Runs : (unit : String) (c : Completed) → Runs (read_state unit c)
  unfolding read_state
  read_state-Runs unit c = search (runs_rules, active_state-Runs)

  unit_state-Runs : (unit : String) → Runs (unit_state h unit)
  unfolding unit_state
  unit_state-Runs unit = search (runs_rules, read_state-Runs)

  cpu_status-Runs : Runs (cpu_status h)
  unfolding cpu_status
  cpu_status-Runs = search (runs_rules, unit_state-Runs)

  answered-Runs : (path : String) (o : Opened h.Response) → Runs (answered h path o)
  answered-Runs path (response r) = search runs_rules
  answered-Runs path (http_failure r) = search runs_rules
  answered-Runs path (unreachable e) = search runs_rules

  read_json-Runs : (path : String) (r : h.Response) → Runs (read_json h path r)
  unfolding read_json
  read_json-Runs path r = search runs_rules depth 8

  request_json-Runs : (path : String) → Runs (request_json h path)
  unfolding request_json
  request_json-Runs path = search (runs_rules, answered-Runs, read_json-Runs)

  database_status-Runs : Runs (database_status h)
  unfolding database_status
  database_status-Runs =
      search (runs_rules, request_json-Runs, cpu_status-Runs, api_pid-Runs) depth 20

  -- one run of an action, at a given world
  abbrev pub RunsAt : {A : Type 0} → Exec World A → World → Type 0
  RunsAt m w = (now w ≤ now (m w).1) × ((m w).0 ≢ err diverged)

  continue-RunsAt :
      {A B : Type 0} (f : A → Exec World B) (r : Result A) (w : World)
      → r ≢ err diverged
      → ((a : A) → r ≡ ok a → RunsAt (f a) w)
      → RunsAt (λ w'. continue r f w') w
  continue-RunsAt f (ok a) w ne rf = rf a refl
  continue-RunsAt f (err e) w ne rf = (omega arith, λ p. ground (arith, ne))

  at : {A : Type 0} {m : Exec World A} → Runs m → (w : World) → RunsAt m w
  at rm w = (rm.on w, rm.ends w)

  bind-RunsAt :
      {A B : Type 0} (m : Exec World A) (f : A → Exec World B) (w : World)
      → RunsAt m w
      → ((a : A) → (m w).0 ≡ ok a → RunsAt (f a) (m w).1)
      → RunsAt (m >>= f) w
  bind-RunsAt m f w rm rf =
      let rest = continue-RunsAt f (m w).0 (m w).1 rm.1 rf in (omega (arith, rm.0, rest.0), rest.1)

  do_if-Runs : (b : Bool) (m : Exec World (Unit {0})) → Runs m → Runs (do_if b m)
  do_if-Runs true m rm = rm
  do_if-Runs false m rm = Runs-pure tt

  pause-Runs : (longest deadline : ℕ) → Runs (pause h longest deadline)
  unfolding pause
  pause-Runs longest deadline = search (runs_rules, do_if-Runs)

  -- A pause that returns has lasted as long as it may, or up to the deadline.
  pause_lasts :
      (longest deadline : ℕ) (w : World)
      → (pause h longest deadline w).0 ≡ ok tt
      → (now w + longest ≤ now (pause h longest deadline w).1)
        ⊎ (deadline ≤ now (pause h longest deadline w).1)
  unfolding pause
  pause_lasts longest deadline w e =
      let (t, w') = h.monotonic w in
      let d = min longest (deadline - t) in
      ground (arith, steady.clock_from w, steady.clock_to w, steady.sleeps d w')

  look_live-Runs : Runs (look_live h)
  unfolding look_live
  look_live-Runs = search (runs_rules, request_json-Runs)

  -- A pause before the next round brings the clock on by `longest`, or up to the deadline.
  next-RunsAt :
      {A : Type 0} (next : Exec World A) (longest deadline : ℕ) (w : World)
      → ((w' : World) → (now w + longest ≤ now w') ⊎ (deadline ≤ now w') → RunsAt next w')
      → RunsAt (pause h longest deadline >> next) w
  next-RunsAt next longest deadline w k =
      bind-RunsAt (pause h longest deadline) (λ _. next) w (at (pause-Runs longest deadline) w)
        (λ _ e. k (pause h longest deadline w).1 (pause_lasts longest deadline w e))

  live_round-RunsAt :
      (deadline : ℕ) (next : String → Exec World (Unit {0})) (w : World)
      → ((error : String) (w' : World)
          → (now w + second ≤ now w') ⊎ (deadline ≤ now w')
          → RunsAt (next error) w')
      → RunsAt (live_round h deadline next) w
  unfolding live_round
  live_round-RunsAt deadline next w k =
      bind-RunsAt (look_live h) _ w (at look_live-Runs w) λ seen e. after seen
    where
      after :
          (seen : Option String)
          → RunsAt
              (elim seen [ none ↦ pure tt | some error ↦ pause h second deadline >> next error ])
              (look_live h w).1
      after none = (omega arith, λ p. cc)
      after (some error) =
          next-RunsAt (next error) second deadline (look_live h w).1
            λ w' later. k error w' (omega (arith, look_live-Runs.on w))

  -- With fuel for every second up to the deadline, the wait ends.
  wait-RunsAt :
      (f deadline : ℕ) (last_error : String) (w : World)
      → deadline ≤ now w + f * second
      → RunsAt (wait_for_api_live h (suc f) deadline last_error) w
  unfolding wait_for_api_live
  wait-RunsAt zero deadline last_error w enough =
      elim (Bool-cases (ltb (h.monotonic w).0 deadline)) [
        | inr late ↦ rw late (omega (arith, Runs-clock.on w), λ p. cc)
        | inl early ↦ absurd (omega (arith, ltb→lt _ _ early, steady.clock_from w))
      ]
  wait-RunsAt (suc f) deadline last_error w enough =
      elim (Bool-cases (ltb (h.monotonic w).0 deadline)) [
        | inr late ↦ rw late (omega (arith, Runs-clock.on w), λ p. cc)
        | inl early ↦
            let body =
              live_round-RunsAt deadline (wait_for_api_live h (suc f) deadline) (h.monotonic w).1
                λ error w' later.
                  wait-RunsAt f deadline error w' (omega (arith, Runs-clock.on w)) in
            rw early (omega (arith, Runs-clock.on w, body.0), body.1)
      ]

  judge-Runs :
      (expected : String) (previous_pid attempts : ℕ) (result : DatabaseStatus)
      → Runs (judge h expected previous_pid attempts result)
  unfolding judge
  judge-Runs expected previous_pid attempts result = search runs_rules

  verify_from-RunsAt :
      (expected : String) (previous_pid deadline attempts t : ℕ) (w : World)
      → t ≤ now w
      → RunsAt (verify_from h expected previous_pid deadline attempts t) w
  unfolding verify_from
  verify_from-RunsAt expected previous_pid deadline attempts t w later =
      bind-RunsAt
        (wait_for_api_live h 31 (min deadline (t + 30 * second))
          "The liveness endpoint did not respond.")
        (λ _. database_status h >>= judge h expected previous_pid attempts) w
        (wait-RunsAt 30 (min deadline (t + 30 * second)) _ w (omega arith))
        λ _ _.
          at
            (Runs-bind (database_status h) _ database_status-Runs
              (judge-Runs expected previous_pid attempts))
            _

  verify-Runs :
      (expected : String) (previous_pid deadline attempts : ℕ)
      → Runs (verify h expected previous_pid deadline attempts)
  unfolding verify
  verify-Runs expected previous_pid deadline attempts = record {
    on = λ w. omega (arith, Runs-clock.on w, (timed w).0);
    ends = λ w. (timed w).1;
  }
    where
      timed :
          (w : World)
          → RunsAt
              (verify_from h expected previous_pid deadline attempts (h.monotonic w).0)
              (h.monotonic w).1
      timed w = verify_from-RunsAt expected previous_pid deadline attempts _ _ (steady.clock_to w)

  attempt-Runs :
      (expected : String) (previous_pid deadline attempts : ℕ)
      → Runs (attempt h expected previous_pid deadline attempts)
  unfolding attempt
  attempt-Runs expected previous_pid deadline attempts =
      search (runs_rules, command-Runs, verify-Runs)

  recycle_round-RunsAt :
      (expected : String) (previous_pid deadline attempts : ℕ) (next : String → Exec World Recycled)
      (w : World)
      → ((error : String) (w' : World)
          → (now w + 5 * second ≤ now w') ⊎ (deadline ≤ now w')
          → RunsAt (next error) w')
      → RunsAt (recycle_round h expected previous_pid deadline attempts next) w
  unfolding recycle_round
  recycle_round-RunsAt expected previous_pid deadline attempts next w k =
      bind-RunsAt (attempt h expected previous_pid deadline attempts) _ w (at tried w)
        λ outcome e. after outcome
    where
      tried : Runs (attempt h expected previous_pid deadline attempts)
      tried = attempt-Runs expected previous_pid deadline attempts

      after :
          (outcome : Recycled ⊎ String)
          → RunsAt
              (proceed h deadline next outcome)
              (attempt h expected previous_pid deadline attempts w).1
      after (inl result) = (omega arith, λ p. cc)
      after (inr error) =
          next-RunsAt (next error) (5 * second) deadline _
            λ w' later. k error w' (omega (arith, tried.on w))

  -- With fuel for every five seconds up to the deadline, the recycling ends.
  recycle_loop-RunsAt :
      (f : ℕ) (expected : String) (previous_pid deadline attempts : ℕ) (last_error : String)
      (w : World)
      → deadline ≤ now w + f * (5 * second)
      → RunsAt (recycle_loop h (suc f) expected previous_pid deadline attempts last_error) w
  unfolding recycle_loop
  recycle_loop-RunsAt zero expected previous_pid deadline attempts last_error w enough =
      elim (Bool-cases (ltb (h.monotonic w).0 deadline)) [
        | inr late ↦ rw late (omega (arith, Runs-clock.on w), λ p. cc)
        | inl early ↦ absurd (omega (arith, ltb→lt _ _ early, steady.clock_from w))
      ]
  recycle_loop-RunsAt (suc f) expected previous_pid deadline attempts last_error w enough =
      elim (Bool-cases (ltb (h.monotonic w).0 deadline)) [
        | inr late ↦ rw late (omega (arith, Runs-clock.on w), λ p. cc)
        | inl early ↦
            let body =
              recycle_round-RunsAt expected previous_pid deadline (attempts + 1)
                (recycle_loop h (suc f) expected previous_pid deadline (attempts + 1))
                (h.monotonic w).1
                λ error w' later.
                  recycle_loop-RunsAt f expected previous_pid deadline (attempts + 1) error w'
                    (omega (arith, Runs-clock.on w)) in
            rw early (omega (arith, Runs-clock.on w, body.0), body.1)
      ]

  recycle_timed-Runs :
      (expected : String) (previous_pid : ℕ) → Runs (recycle_timed h expected previous_pid)
  unfolding recycle_timed
  recycle_timed-Runs expected previous_pid = record {
    on = λ w. omega (arith, Runs-clock.on w, (timed w).0);
    ends = λ w. (timed w).1;
  }
    where
      timed :
          (w : World)
          → RunsAt
              (recycle_loop h 31 expected previous_pid
                ((h.monotonic w).0 + 150 * second)
                0
                "No verification attempt completed.")
              (h.monotonic w).1
      timed w =
          recycle_loop-RunsAt 30 expected previous_pid _ 0 _ _ (omega (arith, steady.clock_to w))

  recycle-Runs : (expected : String) → Runs (recycle_api_and_verify h expected)
  unfolding recycle_api_and_verify
  recycle-Runs expected = search (runs_rules, api_pid-Runs, recycle_timed-Runs)

  -- On a machine whose clock runs, recycling the API and verifying PostgreSQL always ends, by a
  -- result or by a Python exception: the fuel of its two loops is enough.
  pub recycle_ends :
      (expected : String) (w : World) → (recycle_api_and_verify h expected w).0 ≢ err diverged
  recycle_ends expected = (recycle-Runs expected).ends
