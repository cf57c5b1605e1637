-- ===== src/VmFaults/Api.antt =====
-- `request_json` and `database_status` of scripts/vm/faults.py.
use sre_agent_workshop.Prelude.{
  ℕ, ◌+◌, ◌==◌, ltb, Bool, false, not, ◌&&◌, Option, none, some, String, length, if◌then◌else◌,
}
use sre_agent_workshop.Prelude.Text.{◌<>◌, decimal}
use sre_agent_workshop.Exec.{Exec, runtime_error, pure, raise, raise_if, or_raise, ◌>>=◌, ◌>>◌}
use sre_agent_workshop.Json.{Value, dict_holds, is_list}
use sre_agent_workshop.VmFaults.Host.{Host, Opened, response, http_failure, unreachable}
use sre_agent_workshop.VmFaults.Units.{cpu_status, api_pid}

abbrev pub max_body : ℕ
max_body = 65536

abbrev pub database_unavailable_title : String
database_unavailable_title = "Orders database unavailable"

pub data Connectivity : Type 0 where
  ready unavailable : Connectivity

pub record DatabaseStatus : Type 0 where
  pub cpu : String
  pub api_pid : ℕ
  pub api_recycled : Bool
  pub postgresql_connectivity : Connectivity
  pub live_status_code : ℕ
  pub readiness_status_code : ℕ
  pub orders_status_code : ℕ

-- the test on `/health/live`
abbrev pub is_live : ℕ → Value → Bool
is_live code payload = code == 200 && dict_holds "status" "live" payload

-- the two consistent pairs of answers of `/health/ready` and `/orders`
unfoldable pub classify : ℕ → Value → ℕ → Value → Option Connectivity
classify ready_code ready_body orders_code orders_body =
    if ready_code == 200
      && dict_holds "status" "ready" ready_body
      && orders_code == 200
      && is_list orders_body
    then some ready
    else if ready_code == 503
        && dict_holds "title" database_unavailable_title ready_body
        && orders_code == 503
        && dict_holds "title" database_unavailable_title orders_body
    then some unavailable
    else none

module _ (h : Host) where
  open h use {World, Response, http_open, status, read, json_loads}

  -- `HTTPError` is an answer as well
  abbrev pub answered : String → Opened Response → Exec World Response
  answered path (response r) = pure r
  answered path (http_failure r) = pure r
  answered path (unreachable error) =
      raise (runtime_error ("Orders API " <> path <> " could not be reached: " <> error))

  -- `response.read`, the bound on the body, and `json.loads`: whatever it raises counts as invalid
  -- JSON, and the response is not closed
  unfoldable pub read_json : String → Response → Exec World (ℕ × Value)
  read_json path reply = do
    body ← read reply (max_body + 1)
    raise_if (ltb max_body (length body))
        (runtime_error ("Orders API " <> path <> " returned an oversized response."))
    payload ← or_raise (json_loads body) (
        runtime_error (
          "Orders API "
          <> path
          <> " returned invalid JSON with HTTP "
          <> decimal (status reply)
          <> "."))
    pure (status reply, payload)

  unfoldable pub request_json : String → Exec World (ℕ × Value)
  request_json path = do opened ← http_open path; reply ← answered path opened; read_json path reply

  unfoldable pub database_status : Exec World DatabaseStatus
  database_status = do
    (live_code, live) ← request_json "/health/live"
    raise_if (not (is_live live_code live))
        (runtime_error "Orders API liveness did not return the expected live response.")
    (ready_code, ready_body) ← request_json "/health/ready"
    (orders_code, orders_body) ← request_json "/orders"
    connectivity ← or_raise (classify ready_code ready_body orders_code orders_body) (
        runtime_error (
          "Orders API PostgreSQL probes were inconsistent: readiness HTTP "
          <> decimal ready_code
          <> ", orders HTTP "
          <> decimal orders_code
          <> "."))
    unit ← cpu_status h
    pid ← api_pid h
    pure (record {
      cpu = unit.cpu;
      api_pid = pid;
      api_recycled = false;
      postgresql_connectivity = connectivity;
      live_status_code = live_code;
      readiness_status_code = ready_code;
      orders_status_code = orders_code;
    })
