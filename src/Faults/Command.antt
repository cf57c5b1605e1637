-- ===== src/Faults/Command.antt =====
-- `run_result`, `run_vm` and `vm_fault` of scripts/workshop.py: a script that runs on the virtual
-- machine reports its result in one line that carries the id of the request.
use sre_agent_workshop.Prelude.{
  ◌*◌, ℕ, zero, suc, ◌-◌, ltb, Bool, ◌||◌, Option, none, some, List, [], ◌∷◌, ◌++◌, map, String,
  if◌then◌else◌,
}
use sre_agent_workshop.Prelude.Int.{ℤ}
use sre_agent_workshop.Prelude.Text.{
  ◌<>◌, splitlines, after_prefix, ends_with, last_chars, decimal_int,
}
use sre_agent_workshop.Prelude.Search.{join, first_chars, replace, utf8_length}
use sre_agent_workshop.Exec.{
  Exec, Result, ok, err, deployment_error, type_error, raise_if, lift, ◌>>=◌, ◌>>◌,
}
use sre_agent_workshop.Json.{
  Value, text, array, object, Items, nil, cons, Fields, get, is_true, holds_text,
}
use sre_agent_workshop.Tools.Machine.{Machine, str_of}
use sre_agent_workshop.Tools.Cli.{az_within}
use sre_agent_workshop.Tools.Monitoring.{Values, required}

abbrev pub count_items : Items → ℕ
count_items nil = 0
count_items (cons _ items) = suc (count_items items)

abbrev pub drop_items : ℕ → Items → Items
drop_items zero items = items
drop_items (suc n) nil = nil
drop_items (suc n) (cons _ items) = drop_items n items

-- `entry.get("message", "")`
abbrev pub message_of : Fields → Value
message_of entry = elim (get "message" entry) [ none ↦ text "" | some v ↦ v ]

abbrev pub said : Value → List String → List String
said (text s) messages = s ∷ messages
said _ messages = messages

-- `line[len(prefix):]` of the lines that start with the prefix
unfoldable pub records_in : String → List String → List String
records_in prefix [] = []
records_in prefix (line ∷ lines) =
    let rest = records_in prefix lines in
    elim (after_prefix prefix line) [ none ↦ rest | some tail ↦ tail ∷ rest ]

abbrev pub entries_of : Value → Option Items
entries_of (object d) = elim (get "value" d) [
  | some (array (cons e es)) ↦ some (cons e es)
  | _ ↦ none
]
entries_of _ = none

module _ (m : Machine) where
  open m use {World, lower, json_loads, fresh_id, temporary_file}

  -- `f"{message[-3000:]}"`
  abbrev pub failure : Value → Result (List String)
  failure (text s) = err (deployment_error ("VM Run Command failed: " <> last_chars 3000 s))
  failure (array items) = err (
      deployment_error
        ("VM Run Command failed: " <> m.str (array (drop_items (count_items items - 3000) items))))
  failure _ = err (type_error "the message is not subscriptable")

  unfoldable pub has_failed : Fields → Bool
  has_failed entry =
      ends_with "/failed" (lower (elim (get "code" entry) [ none ↦ "" | some v ↦ str_of m v ]))
      || holds_text "Error" (get "level" entry)

  abbrev pub cons_message : Value → Result (List String) → Result (List String)
  cons_message v (ok messages) = ok (said v messages)
  cons_message v (err e) = err e

  -- the loop over the entries: the messages that are texts
  unfoldable pub messages_of : Items → Result (List String)
  messages_of nil = ok []
  messages_of (cons (object entry) items) =
      let rest = messages_of items in
      if has_failed entry then failure (message_of entry) else cons_message (message_of entry) rest
  messages_of (cons _ items) =
      err (deployment_error "VM Run Command returned an invalid execution status.")

  abbrev pub result_prefix : String → String
  result_prefix request_id = "WORKSHOP_RESULT:" <> request_id <> ":"

  abbrev pub not_verified : String → Result Fields
  not_verified record_text =
      err (deployment_error ("VM script verification failed: " <> first_chars 2000 record_text))

  abbrev pub parsed_result : String → Option Value → Result Fields
  parsed_result record_text none = err (deployment_error "VM script returned invalid result JSON.")
  parsed_result record_text (some (object result)) =
      if is_true (get "ok" result) then ok result else not_verified record_text
  parsed_result record_text (some _) = not_verified record_text

  abbrev pub only_record : String → List String → Result Fields
  only_record output (record_text ∷ []) = parsed_result record_text (json_loads record_text)
  only_record output _ = err (
      deployment_error (
        "VM script did not return its correlated success record. Run Command transport success is not script success.\n"
        <> last_chars 3000 output))

  abbrev pub result_in : String → Result (List String) → Result Fields
  result_in request_id (err e) = err e
  result_in request_id (ok messages) =
      only_record (join "\n" messages)
        (records_in (result_prefix request_id) (splitlines (join "\n" messages)))

  abbrev pub result_of : String → Option Items → Result Fields
  result_of request_id none = err (deployment_error "VM Run Command returned no execution status.")
  result_of request_id (some items) = result_in request_id (messages_of items)

  unfoldable pub run_result : Value → String → Result Fields
  run_result response request_id = result_of request_id (entries_of response)

  abbrev pub script_of : String → String → String
  script_of request_id body =
      "exec /bin/bash <<'WORKSHOP_"
      <> request_id
      <> "'\nset -euo pipefail\n"
      <> replace "__WORKSHOP_REQUEST_ID__" request_id body
      <> "\nWORKSHOP_"
      <> request_id
      <> "\n"

  abbrev pub invoke_script : Values → String → ℕ → Exec World Value
  invoke_script values path timeout = do
    group ← required m values "RESOURCE_GROUP"
    name ← required m values "VM_NAME"
    subscription ← required m values "AZURE_SUBSCRIPTION_ID"
    az_within m timeout (
        "vm"
        ∷ "run-command"
        ∷ "invoke"
        ∷ "--resource-group"
        ∷ group
        ∷ "--name"
        ∷ name
        ∷ "--command-id"
        ∷ "RunShellScript"
        ∷ "--subscription"
        ∷ subscription
        ∷ "--scripts"
        ∷ ("@" <> path)
        ∷ [])

  unfoldable pub run_vm : Values → String → ℕ → Exec World Fields
  run_vm values body timeout = do
    request_id ← fresh_id
    raise_if (ltb (64 * 1024) (utf8_length (script_of request_id body)))
        (deployment_error "VM Run Command payload exceeds the workshop's 64 KiB limit.")
    path ← temporary_file (script_of request_id body)
    response ← invoke_script values path timeout
    lift (run_result response request_id)

  abbrev pub fault_command : String → List ℤ → String
  fault_command action numbers =
      "/usr/bin/python3 /opt/orders-api/faults.py "
      <> join " "
          (action ∷ map decimal_int numbers ++ "--request-id" ∷ "__WORKSHOP_REQUEST_ID__" ∷ [])

  unfoldable pub vm_fault : Values → String → List ℤ → Exec World Fields
  vm_fault values action numbers = run_vm values (fault_command action numbers) 240
