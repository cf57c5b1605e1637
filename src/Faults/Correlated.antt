-- ===== src/Faults/Correlated.antt =====
-- What `run_result` of scripts/workshop.py has found in an answer that it accepts, and which numbers
-- the CPU fault takes.
use sre_agent_workshop.Prelude.{
  ℕ, ◌≡◌, refl, ap, ◌∙◌, ltb, ◌*◌, Bool, true, false, ◌&&◌, Bool-cases, inl, inr, Option, none,
  some, List, [], ◌∷◌, String, arith,
}
use sre_agent_workshop.Prelude.Int.{ℤ, pos, negsuc}
use sre_agent_workshop.Prelude.Text.{splitlines, strip, parse_int}
use sre_agent_workshop.Prelude.Search.{join, utf8_length}
use sre_agent_workshop.Exec.{Result, ok, err, lift, raise_if}
use sre_agent_workshop.Exec.Yields.{Yields, Yields-then}
use sre_agent_workshop.Json.{
  Value, null, boolean, int, float, text, array, object, Items, nil, cons, Fields, get, is_true,
}
use sre_agent_workshop.Tools.Machine.{Machine}
use sre_agent_workshop.Tools.Monitoring.{Values}
use sre_agent_workshop.VmFaults.Cli.{cpu_numbers, in_range}
use sre_agent_workshop.Faults.Command.{
  message_of, records_in, entries_of, failure, has_failed, cons_message, messages_of, result_prefix,
  parsed_result, only_record, result_in, result_of, run_result, run_vm, vm_fault, script_of,
  fault_command, invoke_script,
}
use sre_agent_workshop.Faults.Actions.{
  cons_number, numbers_in, check_numbers, parsed_numbers, too_many, cpu_arguments,
}

-- The machine has confirmed it.
abbrev pub IsVerified : Fields → Type 0
IsVerified result = is_true (get "ok" result) ≡ true

module _ (m : Machine) where
  open m use {World, json_loads, fresh_id, temporary_file}

  -- Every entry is a dictionary that reports no failure.
  abbrev pub AllSucceeded : Items → Type 0
  AllSucceeded nil = Unit
  AllSucceeded (cons (object entry) items) = (has_failed m entry ≡ false) × AllSucceeded items
  AllSucceeded (cons _ items) = ⊥

  failed_entry : (v : Value) (messages : List String) → failure m v ≡ ok messages → ⊥
  failed_entry (text s) messages e = cc
  failed_entry (array items) messages e = cc
  failed_entry null messages e = cc
  failed_entry (boolean b) messages e = cc
  failed_entry (int i) messages e = cc
  failed_entry (float f) messages e = cc
  failed_entry (object d) messages e = cc

  rest_ok :
      (v : Value) (r : Result (List String)) (messages : List String)
      → cons_message m v r ≡ ok messages
      → (rest : List String) × (r ≡ ok rest)
  rest_ok v (ok rest) messages e = (rest, refl)
  rest_ok v (err x) messages e = cc

  messages_of-AllSucceeded :
      (items : Items) (messages : List String)
      → messages_of m items ≡ ok messages
      → AllSucceeded items
  unfolding messages_of
  messages_of-AllSucceeded nil messages e = tt
  messages_of-AllSucceeded (cons (object entry) items) messages e =
      elim (Bool-cases (has_failed m entry)) [
        | inl c ↦ absurd (failed_entry (message_of entry) messages (rw c at e))
        | inr c ↦ (
          c,
          (let (rest, r) = rest_ok (message_of entry) (messages_of m items) messages (rw c at e) in
              messages_of-AllSucceeded items rest r),
        )
      ]
  messages_of-AllSucceeded (cons null items) messages e = cc
  messages_of-AllSucceeded (cons (boolean b) items) messages e = cc
  messages_of-AllSucceeded (cons (int i) items) messages e = cc
  messages_of-AllSucceeded (cons (float f) items) messages e = cc
  messages_of-AllSucceeded (cons (text s) items) messages e = cc
  messages_of-AllSucceeded (cons (array a) items) messages e = cc

  -- the answer of one request, and of it alone
  pub record IsCorrelated (request_id : String) (response : Value) (result : Fields) : Type 0 where
    pub items : Items
    pub entries : entries_of response ≡ some items
    pub succeeded : AllSucceeded items
    pub messages : List String
    pub said_texts : messages_of m items ≡ ok messages
    pub record_text : String
    pub only :
        records_in (result_prefix m request_id) (splitlines (join "\n" messages)) ≡ record_text ∷ []
    pub parsed : json_loads record_text ≡ some (object result)
    pub verified : is_true (get "ok" result) ≡ true

  verified_result :
      (s : String) (d result : Fields) (b : Bool)
      → is_true (get "ok" d) ≡ b
      → parsed_result m s (some (object d)) ≡ ok result
      → (d ≡ result) × (is_true (get "ok" d) ≡ true)
  verified_result s d result true c e = (ok-inj (rw c at e), c)
    where
      ok-inj : {x y : Fields} → ◌≡◌ {A = Result Fields} (ok x) (ok y) → x ≡ y
      ok-inj e = cc
  verified_result s d result false c e = cc (rw c at e)

  parsed_result-eq-ok :
      (s : String) (o : Option Value) (result : Fields)
      → parsed_result m s o ≡ ok result
      → (o ≡ some (object result)) × (is_true (get "ok" result) ≡ true)
  parsed_result-eq-ok s none result e = cc
  parsed_result-eq-ok s (some (object d)) result e =
      let (same, verified) = verified_result s d result (is_true (get "ok" d)) refl e in
      (ap (λ x. some (object x)) same, rw (← same) verified)
  parsed_result-eq-ok s (some null) result e = cc
  parsed_result-eq-ok s (some (boolean b)) result e = cc
  parsed_result-eq-ok s (some (int i)) result e = cc
  parsed_result-eq-ok s (some (float f)) result e = cc
  parsed_result-eq-ok s (some (text t)) result e = cc
  parsed_result-eq-ok s (some (array a)) result e = cc

  only_record-eq-ok :
      (output : String) (texts : List String) (result : Fields)
      → only_record m output texts ≡ ok result
      → (s : String) × (texts ≡ s ∷ []) × (parsed_result m s (json_loads s) ≡ ok result)
  only_record-eq-ok output [] result e = cc
  only_record-eq-ok output (s ∷ []) result e = (s, refl, e)
  only_record-eq-ok output (s ∷ t ∷ texts) result e = cc

  result_in-IsCorrelated :
      (request_id : String) (response : Value) (items : Items) (r : Result (List String))
      (result : Fields)
      → entries_of response ≡ some items
      → messages_of m items ≡ r
      → result_in m request_id r ≡ ok result
      → IsCorrelated request_id response result
  result_in-IsCorrelated request_id response items (err x) result f g e = cc
  result_in-IsCorrelated request_id response items (ok messages) result f g e =
      let (s, only, p) =
        only_record-eq-ok (join "\n" messages)
          (records_in (result_prefix m request_id) (splitlines (join "\n" messages))) result e in
      let (parsed, verified) = parsed_result-eq-ok s (json_loads s) result p in
      record {
        items = items;
        entries = f;
        succeeded = messages_of-AllSucceeded items messages g;
        messages = messages;
        said_texts = g;
        record_text = s;
        only = only;
        parsed = parsed;
        verified = verified;
      }

  result_of-IsCorrelated :
      (request_id : String) (response : Value) (o : Option Items) (result : Fields)
      → entries_of response ≡ o
      → result_of m request_id o ≡ ok result
      → IsCorrelated request_id response result
  result_of-IsCorrelated request_id response none result f e = cc
  result_of-IsCorrelated request_id response (some items) result f e =
      result_in-IsCorrelated request_id response items (messages_of m items) result f refl e

  -- `run_result` accepts an answer only if every entry is a dictionary without a failure, exactly one
  -- line of the messages carries the id of the request, and that line is the JSON text of the result,
  -- whose `ok` is true.
  pub run_result-IsCorrelated :
      (response : Value) (request_id : String) (result : Fields)
      → run_result m response request_id ≡ ok result
      → IsCorrelated request_id response result
  unfolding run_result
  run_result-IsCorrelated response request_id result e =
      result_of-IsCorrelated request_id response (entries_of response) result refl e

  Yields-lift :
      {A : Type 0} {P : A → Type 0} (r : Result A)
      → ((a : A) → r ≡ ok a → P a)
      → Yields {W = World} P (lift r)
  Yields-lift r k = record { at = λ w a e. k a e }

  pub vm_fault-IsVerified :
      (values : Values) (action : String) (numbers : List ℤ)
      → Yields IsVerified (vm_fault m values action numbers)
  unfolding vm_fault run_vm
  vm_fault-IsVerified values action numbers = Yields-then _ fresh_id λ id.
      Yields-then _
        (raise_if (ltb (64 * 1024) (utf8_length (script_of m id (fault_command m action numbers))))
          _)
        λ _.
          Yields-then _ (temporary_file (script_of m id (fault_command m action numbers))) λ path.
            Yields-then _ (invoke_script m values path 240) λ response.
              Yields-lift (run_result m response id)
                λ result e. (run_result-IsCorrelated response id result e).verified

numbers_in-eq-some :
    (s : String) (arguments : List String) (numbers : List ℤ)
    → numbers_in (s ∷ arguments) ≡ some numbers
    → (n : ℤ) × (rest : List ℤ) × (numbers_in arguments ≡ some rest) × (numbers ≡ n ∷ rest)
unfolding numbers_in
numbers_in-eq-some s arguments numbers e = taken (parse_int (strip s)) (numbers_in arguments) e
  where
    taken :
        (o : Option ℤ) (r : Option (List ℤ))
        → cons_number o r ≡ some numbers
        → (n : ℤ) × (rest : List ℤ) × (r ≡ some rest) × (numbers ≡ n ∷ rest)
    taken none r e = cc
    taken (some n) none e = cc
    taken (some n) (some rest) e = (n, rest, refl, cc)

-- What the script on the virtual machine takes.
abbrev Accepted : List ℤ → Type 0
Accepted numbers = (seconds : ℕ) × (workers : ℕ) × (cpu_numbers numbers ≡ some (seconds, workers))

pair_checked :
    (s n : ℕ) (checked : List ℤ)
    → check_numbers (pos s ∷ pos n ∷ []) ≡ ok checked
    → (in_range 10 1800 s && in_range 1 8 n ≡ true) × (ok checked ≡ ok (pos s ∷ pos n ∷ []))
pair_checked s n checked e = ground arith

one_positive : (s n : ℕ) (checked : List ℤ) → check_numbers (pos s ∷ negsuc n ∷ []) ≡ ok checked → ⊥
one_positive s n checked e = ground arith

pair-Accepted :
    (a b : ℤ) (checked : List ℤ) → check_numbers (a ∷ b ∷ []) ≡ ok checked → Accepted checked
unfolding cpu_numbers
pair-Accepted (pos s) (pos n) checked e =
    let (c, same) = pair_checked s n checked e in rw (list-inj same) (s, n, rw c refl)
  where
    list-inj : {x y : List ℤ} → ok x ≡ ok y → x ≡ y
    list-inj e = cc
pair-Accepted (negsuc s) b checked e = cc
pair-Accepted (pos s) (negsuc n) checked e = absurd (one_positive s n checked e)

numbers_of_none : (numbers : List ℤ) → numbers_in [] ≡ some numbers → numbers ≡ []
unfolding numbers_in
numbers_of_none numbers f = cc

numbers_of_one :
    (a : String) (numbers : List ℤ)
    → numbers_in (a ∷ []) ≡ some numbers
    → (n : ℤ) × (numbers ≡ n ∷ [])
numbers_of_one a numbers f =
    let (n, rest, fr, same) = numbers_in-eq-some a [] numbers f in
    (n, same ∙ ap (λ r. n ∷ r) (numbers_of_none rest fr))

numbers_of_two :
    (a b : String) (numbers : List ℤ)
    → numbers_in (a ∷ b ∷ []) ≡ some numbers
    → (n : ℤ) × (k : ℤ) × (numbers ≡ n ∷ k ∷ [])
numbers_of_two a b numbers f =
    let (n, rest, fr, same) = numbers_in-eq-some a (b ∷ []) numbers f in
    let (k, last) = numbers_of_one b rest fr in (n, k, same ∙ ap (λ r. n ∷ r) last)

parsed-Accepted :
    (arguments : List String) (o : Option (List ℤ)) (checked : List ℤ)
    → too_many arguments ≡ false
    → numbers_in arguments ≡ o
    → parsed_numbers o ≡ ok checked
    → Accepted checked
parsed-Accepted arguments none checked few f e = cc
parsed-Accepted [] (some numbers) checked few f e =
    pair-Accepted (pos 300) (pos 2) checked (rw (numbers_of_none numbers f) at e)
parsed-Accepted (a ∷ []) (some numbers) checked few f e =
    let (n, same) = numbers_of_one a numbers f in pair-Accepted n (pos 2) checked (rw same at e)
parsed-Accepted (a ∷ b ∷ []) (some numbers) checked few f e =
    let (n, k, same) = numbers_of_two a b numbers f in pair-Accepted n k checked (rw same at e)
parsed-Accepted (a ∷ b ∷ c ∷ rest) (some numbers) checked few f e = cc

-- The numbers that `fault cpu` sends to the virtual machine are numbers that the script there takes:
-- `faults.py` never refuses what the operator's tool has let through.
pub cpu_arguments_accepted :
    (arguments : List String) (numbers : List ℤ)
    → cpu_arguments arguments ≡ ok numbers
    → (seconds : ℕ) × (workers : ℕ) × (cpu_numbers numbers ≡ some (seconds, workers))
unfolding cpu_arguments
cpu_arguments_accepted arguments numbers e = elim (Bool-cases (too_many arguments)) [
  | inl c ↦ cc (rw c at e)
  | inr c ↦ parsed-Accepted arguments (numbers_in arguments) numbers c refl (rw c at e)
]
