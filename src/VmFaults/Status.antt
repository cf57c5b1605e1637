-- ===== src/VmFaults/Status.antt =====
-- What the result of `database_status` of scripts/vm/faults.py stands for.
use sre_agent_workshop.Prelude.{
  refl, ◌∙◌, ap, false, not, ℕ, ◌<◌, ◌≡◌, true, Option, none, some, ◌⊎◌, inl, inr, String, arith,
}
use sre_agent_workshop.Prelude.Int.{ℤ, pos, negsuc}
use sre_agent_workshop.Exec.{ok-inj, or_raise-then, raise_if-then, ok, >>=-eq-ok}
use sre_agent_workshop.Json.{
  holds_text-eq, array, object, text, Items, get, dict_holds, Fields, is_list, Value,
}
use sre_agent_workshop.VmFaults.Host.{Host}
use sre_agent_workshop.VmFaults.Units.{cpu_status, positive, api_pid}
use sre_agent_workshop.VmFaults.Api.{
  is_live, database_unavailable_title, Connectivity, ready, unavailable, DatabaseStatus, classify,
  request_json, database_status,
}

-- The verdict agrees with the codes and the bodies of the readiness and orders answers.
abbrev pub Agree : DatabaseStatus → Fields → Value → Type 0
Agree d readiness orders =
    (d.postgresql_connectivity ≡ ready)
      × (d.readiness_status_code ≡ 200)
      × (get "status" readiness ≡ some (text "ready"))
      × (d.orders_status_code ≡ 200)
      × ((items : Items) × (orders ≡ array items))
    ⊎ (d.postgresql_connectivity ≡ unavailable)
      × (d.readiness_status_code ≡ 503)
      × (get "title" readiness ≡ some (text "Orders database unavailable"))
      × (d.orders_status_code ≡ 503)
      × ((problem : Fields) × (orders ≡ object problem)
          × (get "title" problem ≡ some (text "Orders database unavailable")))

dict_holds-eq :
    (k s : String) (v : Value)
    → dict_holds k s v ≡ true
    → (d : Fields) × (v ≡ object d) × (get k d ≡ some (text s))
dict_holds-eq k s (object d) e = (d, refl, holds_text-eq s (get k d) e)
dict_holds-eq k s _ e = cc

is_list-eq : (v : Value) → is_list v ≡ true → (items : Items) × (v ≡ array items)
is_list-eq (array items) e = (items, refl)
is_list-eq _ e = cc

-- The tests of a pair of answers that has a verdict.
classify_tests :
    (a : ℕ) (x : Value) (b : ℕ) (y : Value) (c : Connectivity)
    → classify a x b y ≡ some c
    → (c ≡ ready)
        × (a ≡ 200)
        × (b ≡ 200)
        × (dict_holds "status" "ready" x ≡ true)
        × (is_list y ≡ true)
      ⊎ (c ≡ unavailable)
        × (a ≡ 503)
        × (b ≡ 503)
        × (dict_holds "title" database_unavailable_title x ≡ true)
        × (dict_holds "title" database_unavailable_title y ≡ true)
unfolding classify
classify_tests a x b y c e = ground arith

is_live_tests :
    (code : ℕ) (payload : Value)
    → not (is_live code payload) ≡ false
    → (code ≡ 200) × (dict_holds "status" "live" payload ≡ true)
is_live_tests code payload e = ground arith

module _ (h : Host) where
  open h use {World}

  positive_pos : (o : Option ℤ) (w : World) (n : ℕ) → (positive h o w).0 ≡ ok n → 0 < n
  positive_pos none w n e = cc
  positive_pos (some (negsuc _)) w n e = cc
  positive_pos (some (pos m)) w n e = ground arith

  api_pid_pos : (w : World) (n : ℕ) → (api_pid h w).0 ≡ ok n → 0 < n
  unfolding api_pid
  api_pid_pos w n e = grind (arith, positive_pos)

  -- the worlds behind the three questions and the look at the CPU unit
  abbrev after_live : World → World
  after_live w = (request_json h "/health/live" w).1

  abbrev after_ready : World → World
  after_ready w = (request_json h "/health/ready" (after_live w)).1

  abbrev after_orders : World → World
  after_orders w = (request_json h "/orders" (after_ready w)).1

  abbrev after_cpu : World → World
  after_cpu w = (cpu_status h (after_orders w)).1

  -- The API has given, one after the other from this world on, a live answer and two answers that
  -- agree in the verdict, and systemd has named its process.
  pub record Consistent (w : World) (d : DatabaseStatus) : Type 0 where
    pub live : Fields
    pub live_seen : (request_json h "/health/live" w).0 ≡ ok (d.live_status_code, object live)
    pub live_code : d.live_status_code ≡ 200
    pub live_body : get "status" live ≡ some (text "live")
    pub readiness : Fields
    pub readiness_seen :
        (request_json h "/health/ready" (after_live w)).0
        ≡ ok (d.readiness_status_code, object readiness)
    pub orders : Value
    pub orders_seen :
        (request_json h "/orders" (after_ready w)).0 ≡ ok (d.orders_status_code, orders)
    pub agreeing : Agree d readiness orders
    pub process_seen : (api_pid h (after_cpu w)).0 ≡ ok d.api_pid
    pub process_runs : 0 < d.api_pid

  -- The answers behind a verdict, with their bodies as they must have been.
  agree :
      (d : DatabaseStatus) (ready_body orders_body : Value)
      → classify d.readiness_status_code ready_body d.orders_status_code orders_body
        ≡ some d.postgresql_connectivity
      → (readiness : Fields) × (ready_body ≡ object readiness) × Agree d readiness orders_body
  agree d ready_body orders_body e =
      elim (classify_tests d.readiness_status_code ready_body d.orders_status_code orders_body
        d.postgresql_connectivity e) [
          | inl (c, a, b, x, y) ↦
              let (f, same, held) = dict_holds-eq "status" "ready" ready_body x in
              (f, same, inl (c, a, held, b, is_list-eq orders_body y))
          | inr (c, a, b, x, y) ↦
              let (f, same, held) = dict_holds-eq "title" database_unavailable_title ready_body x in
              (
                f,
                same,
                inr (c, a, held, b, dict_holds-eq "title" database_unavailable_title orders_body y),
              )
        ]

  -- the status that `database_status` makes of the answers
  abbrev status_of : ℕ → ℕ → ℕ → Connectivity → String → ℕ → DatabaseStatus
  status_of live_code ready_code orders_code verdict unit pid = record {
    cpu = unit;
    api_pid = pid;
    api_recycled = false;
    postgresql_connectivity = verdict;
    live_status_code = live_code;
    readiness_status_code = ready_code;
    orders_status_code = orders_code;
  }

  consistent :
      (w : World) (live_code : ℕ) (live : Value) (ready_code : ℕ) (ready_body : Value)
      (orders_code : ℕ) (orders_body : Value) (verdict : Connectivity) (unit : String) (pid : ℕ)
      → (request_json h "/health/live" w).0 ≡ ok (live_code, live)
      → not (is_live live_code live) ≡ false
      → (request_json h "/health/ready" (after_live w)).0 ≡ ok (ready_code, ready_body)
      → (request_json h "/orders" (after_ready w)).0 ≡ ok (orders_code, orders_body)
      → classify ready_code ready_body orders_code orders_body ≡ some verdict
      → (api_pid h (after_cpu w)).0 ≡ ok pid
      → Consistent w (status_of live_code ready_code orders_code verdict unit pid)
  consistent w live_code live ready_code ready_body orders_code orders_body verdict unit pid e1 g1
        e2 e3 e4 e6 =
      let (is_200, is_body) = is_live_tests live_code live g1 in
      let (live_fields, same, held) = dict_holds-eq "status" "live" live is_body in
      let (readiness, same_too, agreeing) =
        agree (status_of live_code ready_code orders_code verdict unit pid) ready_body orders_body
          e4 in
      record {
        live = live_fields;
        live_seen = e1 ∙ ap (λ v. ok (live_code, v)) same;
        live_code = is_200;
        live_body = held;
        readiness = readiness;
        readiness_seen = e2 ∙ ap (λ v. ok (ready_code, v)) same_too;
        orders = orders_body;
        orders_seen = e3;
        agreeing = agreeing;
        process_seen = e6;
        process_runs = api_pid_pos (after_cpu w) pid e6;
      }

  -- The status of the database is what the API has answered from this world on: a live answer with
  -- its body, and a readiness and an orders answer whose codes and bodies agree in the verdict; it
  -- names the process that systemd has then shown, which has a positive id.
  pub database_status-Consistent :
      (w : World) (d : DatabaseStatus) → (database_status h w).0 ≡ ok d → Consistent w d
  unfolding database_status
  database_status-Consistent w d e =
      let ((live_code, live), e1, f1) = >>=-eq-ok _ (request_json h "/health/live") w _ e in
      let (g1, f2) = raise_if-then (not (is_live live_code live)) _ _ _ _ f1 in
      let ((ready_code, ready_body), e2, f3) =
        >>=-eq-ok _ (request_json h "/health/ready") (after_live w) _ f2 in
      let ((orders_code, orders_body), e3, f4) =
        >>=-eq-ok _ (request_json h "/orders") (after_ready w) _ f3 in
      let (verdict, e4, f5) =
        or_raise-then (classify ready_code ready_body orders_code orders_body) _ _ (after_orders w)
          _ f4 in
      let (unit, e5, f6) = >>=-eq-ok _ (cpu_status h) (after_orders w) _ f5 in
      let (pid, e6, f7) = >>=-eq-ok _ (api_pid h) (after_cpu w) _ f6 in
      rw (← ok-inj f7) (
        consistent w live_code live ready_code ready_body orders_code orders_body verdict unit.cpu
          pid e1 g1 e2 e3 e4 e6)
