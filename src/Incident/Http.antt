-- ===== src/Incident/Http.antt =====
-- `sre_agent_request` and `incident_optional_get` of scripts/workshop.py.
-- `urllib` is a parameter: what the service answers to a request, and whether it does. Payloads are
-- decoded texts here.
use Prim.Native.Char.{code}
use sre_agent_workshop.Prelude.{
  ℕ, ltb, ◌==◌, Bool, true, false, not, ◌&&◌, ◌||◌, Option, none, some, List, [], ◌∷◌, String,
  if◌then◌else◌,
}
use sre_agent_workshop.Prelude.Text.{◌<>◌, str_eq, strip, is_space, decimal}
use sre_agent_workshop.Prelude.Search.{join, first_chars, utf8_length}
use sre_agent_workshop.Exec.{
  Exec, Error, Result, ok, err, deployment_error, type_error, request_error, pure, raise, lift,
  raise_if, try_except, ◌>>=◌, ◌>>◌,
}
use sre_agent_workshop.Json.{
  Value, null, text, array, object, Items, nil, cons, Fields, end, field, get, is_falsy,
}
use sre_agent_workshop.Tools.Machine.{Machine, str_of}
use sre_agent_workshop.Tools.Retry.{is_request}

pub data Method : Type 0 where
  get_method put_method delete_method : Method

-- what is sent: the body is the text of a JSON document
pub record Request : Type 0 where
  pub path : String
  pub method : Method
  pub body : Option String
  pub if_match : Option String

-- An answer with its payload and its ETags, an answer with an error's status and text, or none.
pub data Reply : Type 0 where
  received : String → List String → Reply
  refused : ℕ → String → Reply
  unreachable : String → Reply

-- `"[\x21\x23-\x7e]+"` with its quotes
abbrev is_tag_char : ℕ → Bool
is_tag_char c = c == 33 || ltb 34 c && ltb c 127

abbrev ends_tag : Bool → String → Bool
ends_tag some_before String.[] = false
ends_tag some_before (String.◌∷◌ c s) =
    let rest = ends_tag true s in
    if code c == 34 then some_before && str_eq s "" else is_tag_char (code c) && rest

unfoldable pub is_strong : String → Bool
is_strong String.[] = false
is_strong (String.◌∷◌ c s) = code c == 34 && ends_tag false s

-- `" ".join(text.split())`
abbrev spaced : Bool → String → String
spaced gap String.[] = ""
spaced gap (String.◌∷◌ c s) =
    let after_space = spaced true s in
    let after_word = spaced false s in
    if is_space (code c)
    then after_space
    else if gap
    then " " <> String.◌∷◌ c after_word
    else String.◌∷◌ c after_word

unfoldable pub one_line : String → String
one_line s = spaced false (strip s)

abbrev pub is_retryable_status : ℕ → Bool
is_retryable_status n =
    n == 403
    || n == 404
    || n == 408
    || n == 409
    || n == 429
    || n == 500
    || n == 502
    || n == 503
    || n == 504

-- `if if_match is not None`: a tag that is not a strong one
abbrev pub is_weak : Option String → Bool
is_weak none = false
is_weak (some tag) = not (is_strong tag)

abbrev pub one_tag : List String → Result (Option String)
one_tag [] = ok none
one_tag (tag ∷ []) =
    if is_strong tag
    then ok (some tag)
    else err (deployment_error "Azure SRE Agent returned an unusable ETag.")
one_tag _ = err (deployment_error "Azure SRE Agent returned an unusable ETag.")

abbrev pub payload_limit : ℕ
payload_limit = 131072

module _ (m : Machine) where
  open m use {World, json_loads, json_dumps}

  -- `", ".join(messages)` of a list, whose items must be texts
  abbrev pub messages_in : Items → Result (List String)
  messages_in nil = ok []
  messages_in (cons (text s) items) = elim (messages_in items) [
    | ok ss ↦ ok (s ∷ ss)
    | err e ↦ err e
  ]
  messages_in (cons _ items) = err (type_error "sequence item: expected str instance")

  abbrev pub message_text : Value → Result String
  message_text (array items) = elim (messages_in items) [
    | ok ss ↦ ok (join ", " ss)
    | err e ↦ err e
  ]
  message_text v = ok (str_of m v)

  abbrev pub field_errors : Fields → Result (List String)
  field_errors end = ok []
  field_errors (field key v d) = elim (message_text v) [
    | err e ↦ err e
    | ok s ↦ elim (field_errors d) [ err e ↦ err e | ok ss ↦ ok ((key <> ": " <> s) ∷ ss) ]
  ]

  -- `a or b`
  abbrev pub or_text : Option Value → String → String
  or_text none s = s
  or_text (some v) s = if is_falsy v then s else str_of m v

  abbrev pub detail_in : String → Option Value → Result String
  detail_in detail (some (object document)) = elim (get "errors" document) [
    | some (object errors) ↦ elim (field_errors errors) [
      | ok ss ↦ ok (join "; " ss)
      | err e ↦ err e
    ]
    | _ ↦ ok (
        or_text (get "message" document)
          (or_text (get "detail" document) (or_text (get "title" document) detail)))
  ]
  detail_in detail _ = ok detail

  -- what the service says of the error, on one line
  unfoldable pub detail_of : String → Result String
  detail_of said = if str_eq said "" then ok "" else elim (detail_in said (json_loads said)) [
    | ok detail ↦ ok (first_chars 1000 (one_line detail))
    | err e ↦ err e
  ]

  abbrev pub refusal : ℕ → Result String → Error
  refusal status (err e) = e
  refusal status (ok detail) = request_error (some status) (is_retryable_status status) (
      "Azure SRE Agent returned HTTP "
      <> decimal status
      <> (if str_eq detail "" then "." else ": " <> detail))

  -- `json.loads(payload) if payload else None`, where text that is no JSON raises unless it may be so
  abbrev pub document_in : Bool → String → Result Value
  document_in lenient payload = if str_eq payload "" then ok null else elim (json_loads payload) [
    | some v ↦ ok v
    | none ↦
        if lenient then ok null else err (deployment_error "Azure SRE Agent returned invalid JSON.")
  ]

  abbrev pub with_tag : Bool → List String → Value → Result (Value × Option String)
  with_tag false tags v = ok (v, none)
  with_tag true tags v = elim (one_tag tags) [ ok tag ↦ ok (v, tag) | err e ↦ err e ]

  abbrev pub outcome_of : Bool → Bool → Reply → Result (Value × Option String)
  outcome_of with_etag lenient (received payload tags) =
      if ltb payload_limit (utf8_length payload)
      then err (deployment_error "Azure SRE Agent response exceeded the expected size.")
      else elim (document_in lenient payload) [ ok v ↦ with_tag with_etag tags v | err e ↦ err e ]
  outcome_of with_etag lenient (refused status said) = err (refusal status (detail_of (strip said)))
  outcome_of with_etag lenient (unreachable why) =
      err (request_error none true ("Azure SRE Agent request failed: " <> why))

  module _ (send : Request → Exec World Reply) where
    -- the document and, where it was asked for, its ETag
    unfoldable pub sre_agent_request : Request → Bool → Bool → Exec World (Value × Option String)
    sre_agent_request request with_etag lenient = do
      raise_if (is_weak request.if_match)
          (deployment_error "A conditional SRE Agent write requires a strong ETag.")
      reply ← send request
      lift (outcome_of with_etag lenient reply)

    abbrev pub reading : String → Request
    reading path = record { path = path; method = get_method; body = none; if_match = none }

    abbrev pub is_missing : Error → Bool
    is_missing (request_error (some status) _ _) = status == 404
    is_missing _ = false

    abbrev pub nothing_there : Error → Exec World (Value × Option String)
    nothing_there error = if is_missing error then pure (null, none) else raise error

    -- a document that is not there is `None`
    unfoldable pub incident_optional_get : String → Bool → Exec World (Value × Option String)
    incident_optional_get path with_etag =
        try_except (sre_agent_request (reading path) with_etag false) is_request nothing_there
