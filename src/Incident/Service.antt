-- ===== src/Incident/Service.antt =====
-- A service that answers honestly, and what a read of scripts/workshop.py's incident workflow learns
-- from it.
use sre_agent_workshop.Prelude.{
  ℕ, ltb, ◌==◌, ◌≡◌, ◌≢◌, refl, Bool, true, false, Bool-cases, inl, inr, Option, none, some, List,
  [], ◌∷◌, String, if◌then◌else◌,
}
use sre_agent_workshop.Prelude.Text.{◌<>◌, str_eq, strip}
use sre_agent_workshop.Prelude.Search.{first_chars, join, utf8_length}
use sre_agent_workshop.Exec.{deployment_error, Exec, Error, Result, ok, err, continue, handle, lift}
use sre_agent_workshop.Exec.Triple.{Ends, Triple}
use sre_agent_workshop.Json.{
  Value, null, boolean, int, float, text, array, object, Items, nil, cons, Fields, end, field, get,
}
use sre_agent_workshop.Tools.Machine.{Machine}
use sre_agent_workshop.Tools.Retry.{is_request}
use sre_agent_workshop.Incident.Http.{
  one_line, is_strong, Request, Reply, received, refused, unreachable, messages_in, message_text,
  field_errors, detail_in, detail_of, refusal, one_tag, with_tag, payload_limit, outcome_of,
  sre_agent_request, reading, is_missing, nothing_there, incident_optional_get, is_weak,
}

-- Where it raises, it raises no request error.
abbrev Plain : {A : Type 0} → Result A → Type 0
Plain (ok _) = Unit
Plain (err e) = is_request e ≡ false

abbrev pub stored_value : Option Value → Value
stored_value none = null
stored_value (some v) = v

module _ (m : Machine) where
  open m use {World, json_loads, sleep}

  -- A true answer to a read, where this document is stored: it is missing, or it is given, or the
  -- service fails in another way.
  pub data Honest (o : Option Value) : Reply → Type 0 where
    absent : (said : String) → o ≡ none → Honest o (refused 404 said)
    present :
        (payload : String) (tags : List String) (v : Value)
        → o ≡ some v
        → json_loads payload ≡ some v
        → str_eq payload "" ≡ false
        → Honest o (received payload tags)
    failing : (status : ℕ) (said : String) → status == 404 ≡ false → Honest o (refused status said)
    silent : (why : String) → Honest o (unreachable why)

  -- Such an answer, or an error that is not of the client's own class.
  abbrev pub Fair : Option Value → Result Reply → Type 0
  Fair o (ok reply) = Honest o reply
  Fair o (err e) = is_request e ≡ false

  -- A service that stores a document at each path: reads are answered honestly and change none, and
  -- a request changes no document but the one at its path. Waiting changes none.
  pub record IsService (send : Request → Exec World Reply) (stored : String → World → Option Value)
      : Type 0 where
    pub answers :
        (path : String) (w : World)
        → Fair (stored path (send (reading m send path) w).1) (send (reading m send path) w).0
    pub reads :
        (path other : String) (w : World)
        → stored other (send (reading m send path) w).1 ≡ stored other w
    pub keeps :
        (request : Request) (other : String) (w : World)
        → other ≢ request.path
        → stored other (send request w).1 ≡ stored other w
    pub waits : (d : ℕ) (other : String) (w : World) → stored other (sleep d w).1 ≡ stored other w

  then-Plain :
      {A B : Type 0} (r : Result A) (f : A → Result B)
      → Plain r
      → ((a : A) → Plain (f a))
      → Plain (elim r [ ok a ↦ f a | err e ↦ err e ])
  then-Plain (ok a) f p q = q a
  then-Plain (err e) f p q = p

  either-Plain :
      {A : Type 0} (b : Bool) (x y : Result A) → Plain x → Plain y → Plain (if b then x else y)
  either-Plain true x y p q = p
  either-Plain false x y p q = q

  one_tag-Plain : (tags : List String) → Plain (one_tag tags)
  one_tag-Plain [] = tt
  one_tag-Plain (tag ∷ []) =
      either-Plain (is_strong tag) (ok (some tag))
        (err (deployment_error "Azure SRE Agent returned an unusable ETag.")) tt refl
  one_tag-Plain (tag ∷ other ∷ tags) = refl

  messages_in-Plain : (items : Items) → Plain (messages_in m items)
  messages_in-Plain nil = tt
  messages_in-Plain (cons (text s) items) =
      then-Plain (messages_in m items) (λ ss. ok (s ∷ ss)) (messages_in-Plain items) λ _. tt
  messages_in-Plain (cons null items) = refl
  messages_in-Plain (cons (boolean b) items) = refl
  messages_in-Plain (cons (int i) items) = refl
  messages_in-Plain (cons (float f) items) = refl
  messages_in-Plain (cons (array a) items) = refl
  messages_in-Plain (cons (object d) items) = refl

  message_text-Plain : (v : Value) → Plain (message_text m v)
  message_text-Plain (array items) =
      then-Plain (messages_in m items) (λ ss. ok (join ", " ss)) (messages_in-Plain items) λ _. tt
  message_text-Plain null = tt
  message_text-Plain (boolean b) = tt
  message_text-Plain (int i) = tt
  message_text-Plain (float f) = tt
  message_text-Plain (text s) = tt
  message_text-Plain (object d) = tt

  field_errors-Plain : (d : Fields) → Plain (field_errors m d)
  field_errors-Plain end = tt
  field_errors-Plain (field key v d) =
      then-Plain (message_text m v)
        (λ s. elim (field_errors m d) [ ok ss ↦ ok ((key <> ": " <> s) ∷ ss) | err e ↦ err e ])
        (message_text-Plain v)
        λ s.
          then-Plain (field_errors m d) (λ ss. ok ((key <> ": " <> s) ∷ ss)) (field_errors-Plain d)
            λ _. tt

  with_errors-Plain :
      (o : Option Value) (other : String)
      → Plain (elim o [
        | some (object errors) ↦ elim (field_errors m errors) [
          | ok ss ↦ ok (join "; " ss)
          | err e ↦ err e
        ]
        | _ ↦ ok other
      ])
  with_errors-Plain none other = tt
  with_errors-Plain (some (object errors)) other =
      then-Plain (field_errors m errors) (λ ss. ok (join "; " ss)) (field_errors-Plain errors)
        λ _. tt
  with_errors-Plain (some null) other = tt
  with_errors-Plain (some (boolean b)) other = tt
  with_errors-Plain (some (int i)) other = tt
  with_errors-Plain (some (float f)) other = tt
  with_errors-Plain (some (text s)) other = tt
  with_errors-Plain (some (array a)) other = tt

  detail_in-Plain : (detail : String) (o : Option Value) → Plain (detail_in m detail o)
  detail_in-Plain detail none = tt
  detail_in-Plain detail (some (object d)) = with_errors-Plain (get "errors" d) _
  detail_in-Plain detail (some null) = tt
  detail_in-Plain detail (some (boolean b)) = tt
  detail_in-Plain detail (some (int i)) = tt
  detail_in-Plain detail (some (float f)) = tt
  detail_in-Plain detail (some (text s)) = tt
  detail_in-Plain detail (some (array a)) = tt

  detail_of-Plain : (said : String) → Plain (detail_of m said)
  unfolding detail_of
  detail_of-Plain said = either-Plain (str_eq said "") _ _ tt (
      then-Plain (detail_in m said (json_loads said))
        (λ detail. ok (first_chars 1000 (one_line detail))) (detail_in-Plain said (json_loads said))
        λ _. tt)

  module _ (send : Request → Exec World Reply) (stored : String → World → Option Value)
      (service : IsService send stored) where
    open service use {answers, reads, keeps}

    -- A read that returns has returned what is stored.
    abbrev Learns : String → Value × Option String → World → Type 0
    Learns path r w = r.0 ≡ stored_value (stored path w)

    abbrev AsRead : String → Result (Value × Option String) → World → Type 0
    AsRead path r w =
        Ends (Learns path) (λ _ _. Unit) (handle is_request (nothing_there m send) r w)

    refused_404 :
        (path : String) (x : Error) (w : World) → stored path w ≡ none → AsRead path (err x) w
    refused_404 path x w e = elim (Bool-cases (is_request x)) [
      | inl c ↦ rw c (missing_or_not x)
      | inr c ↦ rw c tt
    ]
      where
        missing_or_not : (x : Error) → Ends (Learns path) (λ _ _. Unit) (nothing_there m send x w)
        missing_or_not x = elim (Bool-cases (is_missing m send x)) [
          | inl c ↦ rw c (rw e refl)
          | inr c ↦ rw c tt
        ]

    raises :
        (path : String) (x : Error) (w : World)
        → is_missing m send x ≡ false
        → AsRead path (err x) w
    raises path x w e = elim (Bool-cases (is_request x)) [
      | inl c ↦ rw c (rw e tt)
      | inr c ↦ rw c tt
    ]

    plain_raises :
        (path : String) (x : Error) (w : World) → is_request x ≡ false → AsRead path (err x) w
    plain_raises path x w c = rw c tt

    refused_other :
        (path : String) (status : ℕ) (detail : Result String) (w : World)
        → Plain detail
        → status == 404 ≡ false
        → AsRead path (err (refusal m status detail)) w
    refused_other path status (ok detail) w p e = raises path (refusal m status (ok detail)) w e
    refused_other path status (err x) w p e = plain_raises path x w p

    tag_learns :
        (path : String) (r : Result (Option String)) (v : Value) (w : World)
        → Plain r
        → stored path w ≡ some v
        → AsRead path (elim r [ ok tag ↦ ok (v, tag) | err e ↦ err e ]) w
    tag_learns path (ok tag) v w p e = rw e refl
    tag_learns path (err x) v w p e = plain_raises path x w p

    with_tag_learns :
        (path : String) (with_etag : Bool) (tags : List String) (v : Value) (w : World)
        → stored path w ≡ some v
        → AsRead path (with_tag m with_etag tags v) w
    with_tag_learns path false tags v w e = rw e refl
    with_tag_learns path true tags v w e = tag_learns path (one_tag tags) v w (one_tag-Plain tags) e

    read_learns :
        (path : String) (with_etag : Bool) (reply : Reply) (w : World)
        → Honest (stored path w) reply
        → AsRead path (outcome_of m with_etag false reply) w
    read_learns path with_etag (refused _ _) w (absent said e) =
        refused_404 path (refusal m 404 (detail_of m (strip said))) w e
    read_learns path with_etag (refused _ _) w (failing status said e) =
        refused_other path status (detail_of m (strip said)) w (detail_of-Plain (strip said)) e
    read_learns path with_etag (unreachable _) w (silent why) = tt
    read_learns path with_etag (received _ _) w (present payload tags v e loads full) =
        elim (Bool-cases (ltb payload_limit (utf8_length payload))) [
          | inl c ↦ rw c tt
          | inr c ↦ rw c (rw full (rw loads (with_tag_learns path with_etag tags v w e)))
        ]

    sent_learns :
        (path : String) (with_etag : Bool) (r : Result Reply) (w : World)
        → Fair (stored path w) r
        → (let (x, w') = continue r (λ reply. lift (outcome_of m with_etag false reply)) w in
            AsRead path x w')
    sent_learns path with_etag (ok reply) w h = read_learns path with_etag reply w h
    sent_learns path with_etag (err x) w h = plain_raises path x w h

    -- A read that returns has returned what is stored.
    pub incident_optional_get-Learns :
        (path : String) (with_etag : Bool) (w : World)
        → Ends (Learns path) (λ _ _. Unit) (incident_optional_get m send path with_etag w)
    unfolding incident_optional_get sre_agent_request
    incident_optional_get-Learns path with_etag w =
        sent_learns path with_etag (send (reading m send path) w).0 (send (reading m send path) w).1
          (answers path w)

    -- An action that changes no document but the one at this path.
    pub record Touches {A : Type 0} (path : String) (a : Exec World A) : Type 0 where
      pub others :
          (w : World) (other : String) → other ≢ path → stored other (a w).1 ≡ stored other w

    -- What is said of the other documents alone stays true.
    abbrev pub Stable : String → (World → Type 0) → Type 0
    Stable path I =
        (w w' : World)
        → ((other : String) → other ≢ path → stored other w' ≡ stored other w)
        → I w
        → I w'

    pub Touches-Triple :
        {A : Type 0} (path : String) (a : Exec World A) (I : World → Type 0)
        → Touches path a
        → Stable path I
        → Triple I a (λ _. I) (λ _. I)
    Touches-Triple {A} path a I t s = record {
      at = λ w p. ended (a w).0 (a w).1 (s w (a w).1 (t.others w) p);
    }
      where
        ended : (r : Result A) (w : World) → I w → Ends {A = A} (λ _. I) (λ _. I) (r, w)
        ended (ok x) w p = p
        ended (err e) w p = p

    -- `sre_agent_request` touches the path of its request, and a read touches none.
    pub sre_agent_request-Touches :
        (request : Request) (with_etag lenient : Bool)
        → Touches request.path (sre_agent_request m send request with_etag lenient)
    unfolding sre_agent_request
    sre_agent_request-Touches request with_etag lenient = record {
      others = λ w other ne. elim (Bool-cases (is_weak request.if_match)) [
        | inl c ↦ rw c refl
        | inr c ↦
            rw c (sent (send request w).0 (send request w).1 other w (keeps request other w ne))
      ];
    }
      where
        sent :
            (r : Result Reply) (w' : World) (other : String) (w : World)
            → stored other w' ≡ stored other w
            → stored other (continue r (λ reply. lift (outcome_of m with_etag lenient reply)) w').1
              ≡ stored other w
        sent (ok reply) w' other w e = e
        sent (err x) w' other w e = e

    handled_world :
        (r : Result (Value × Option String)) (w : World)
        → (handle is_request (nothing_there m send) r w).1 ≡ w
    handled_world (ok x) w = refl
    handled_world (err e) w = elim (Bool-cases (is_request e)) [
      | inl c ↦
          rw c (elim (Bool-cases (is_missing m send e)) [ inl d ↦ rw d refl | inr d ↦ rw d refl ])
      | inr c ↦ rw c refl
    ]

    continued_world :
        {A B : Type 0} (r : Result A) (f : A → Result B) (w : World)
        → (continue r (λ x. lift (f x)) w).1 ≡ w
    continued_world (ok x) f w = refl
    continued_world (err e) f w = refl

    pub incident_optional_get-reads :
        (path other : String) (with_etag : Bool) (w : World)
        → stored other (incident_optional_get m send path with_etag w).1 ≡ stored other w
    unfolding incident_optional_get sre_agent_request
    incident_optional_get-reads path other with_etag w =
        rw
          (
            handled_world (sre_agent_request m send (reading m send path) with_etag false w).0
                (sre_agent_request m send (reading m send path) with_etag false w).1,
            continued_world (send (reading m send path) w).0 (outcome_of m with_etag false)
                (send (reading m send path) w).1,
          )
          (reads path other w)

    -- A read returns what is stored, and what is said of the stored documents stays true.
    pub read-Triple :
        (path any : String) (with_etag : Bool) (I : World → Type 0)
        → Stable any I
        → Triple I
            (incident_optional_get m send path with_etag)
            (λ r w. I w × Learns path r w)
            (λ _. I)
    read-Triple path any with_etag I s = record {
      at = λ w p.
          both (incident_optional_get m send path with_etag w).0
            (incident_optional_get m send path with_etag w).1
            (s w _ (λ other _. incident_optional_get-reads path other with_etag w) p)
            (incident_optional_get-Learns path with_etag w);
    }
      where
        both :
            (r : Result (Value × Option String)) (w : World)
            → I w
            → Ends (Learns path) (λ _ _. Unit) (r, w)
            → Ends (λ r w. I w × Learns path r w) (λ _. I) (r, w)
        both (ok r) w p l = (p, l)
        both (err e) w p l = p
