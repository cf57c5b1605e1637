-- ===== src/Incident/Saved.antt =====
-- A response plan that `incident_plan_document` of scripts/workshop.py has accepted is saved, and
-- read again by the same function.
use sre_agent_workshop.Prelude.{
  sym, ◌≡◌, refl, ◌∙◌, ap, Bool, true, false, not, Bool-cases, inl, inr, Option, none, some, List,
  String, arith, eq_iff, if◌then◌else◌,
}
use sre_agent_workshop.Prelude.Text.{str_eq, one_of}
use sre_agent_workshop.Exec.{ok}
use sre_agent_workshop.Json.{
  Value, null, boolean, int, float, text, array, object, Fields, end, field, get,
}
use sre_agent_workshop.Incident.Match.{
  read_only_properties, without, Component, fields_of, tags_or_empty,
}
use sre_agent_workshop.Incident.Plan.{
  invalid_filter, is_title_filter, is_enabled_review, text_or_empty, plan_of, with_review,
  incident_plan_document,
}

other_key :
    (j key : String) (keys : List String)
    → one_of j keys ≡ true
    → one_of key keys ≡ false
    → str_eq j key ≡ false
other_key j key keys e f = elim (Bool-cases (str_eq j key)) [
  | inl c ↦ let same : j ≡ key = ground (arith, eq_iff j key) in absurd (clash (rw same at e) f)
  | inr c ↦ c
]
  where
    clash : {b : Bool} → b ≡ true → b ≡ false → ⊥
    clash e f = cc

-- Keys that are not left out are found as before, and what is left out is out already.
get-without :
    (key : String) (keys : List String) (d : Fields)
    → one_of key keys ≡ false
    → get key (without keys d) ≡ get key d
unfolding get
get-without key keys end e = refl
get-without key keys (field j v d) e = elim (Bool-cases (one_of j keys)) [
  | inl c ↦ rw (c, other_key j key keys c e) (get-without key keys d e)
  | inr c ↦ rw (c, get-without key keys d e) refl
]

without-without : (keys : List String) (d : Fields) → without keys (without keys d) ≡ without keys d
without-without keys end = refl
without-without keys (field j v d) = elim (Bool-cases (one_of j keys)) [
  | inl c ↦ rw c (without-without keys d)
  | inr c ↦ rw (c, c, without-without keys d) refl
]

tags_or_empty_twice : (o : Option Value) → tags_or_empty (some (tags_or_empty o)) ≡ tags_or_empty o
tags_or_empty_twice none = refl
tags_or_empty_twice (some null) = refl
tags_or_empty_twice (some (boolean b)) = refl
tags_or_empty_twice (some (int i)) = refl
tags_or_empty_twice (some (float f)) = refl
tags_or_empty_twice (some (text s)) = refl
tags_or_empty_twice (some (array a)) = refl
tags_or_empty_twice (some (object d)) = refl

-- What has been checked of the properties of a plan.
record IsAcceptable (properties : Fields) : Type 0 where
  review : is_enabled_review properties ≡ true
  every_term : is_title_filter (get "titleContainsAll" properties) ≡ true
  any_term : is_title_filter (get "titleContainsAny" properties) ≡ true
  excluded : is_title_filter (get "titleNotContains" properties) ≡ true
  phrase : (s : String) × (text_or_empty (get "titleContains" properties) ≡ some s)

-- Only keys that are not left out are looked at.
without-IsAcceptable : (d : Fields) → IsAcceptable d → IsAcceptable (without read_only_properties d)
without-IsAcceptable d a = record {
  review =
      rw
        (
          kept "incidentPlatform" refl,
          kept "agentMode" refl,
          kept "handlingAgent" refl,
          kept "isEnabled" refl,
          kept "priorities" refl,
        )
        a.review;
  every_term = rw (kept "titleContainsAll" refl) a.every_term;
  any_term = rw (kept "titleContainsAny" refl) a.any_term;
  excluded = rw (kept "titleNotContains" refl) a.excluded;
  phrase = (a.phrase.0, rw (kept "titleContains" refl) a.phrase.1);
}
  where
    kept :
        (key : String)
        → one_of key read_only_properties ≡ false
        → get key (without read_only_properties d) ≡ get key d
    kept key e = get-without key read_only_properties d e

accepted :
    (plan properties : Fields)
    → IsAcceptable properties
    → with_review plan (some properties) ≡ ok (plan_of plan properties)
accepted plan properties a = rw (a.review, a.every_term, a.any_term, a.excluded, a.phrase.1) refl

ok_only : {A : Type 0} {x y : A} → ok x ≡ ok y → x ≡ y
ok_only e = cc

-- the four guards of the title filters
guards_passed :
    (a b c : Bool) (o : Option String) (x y : Component)
    → (if not a
        then invalid_filter "titleContainsAll"
        else if not b
        then invalid_filter "titleContainsAny"
        else if not c
        then invalid_filter "titleNotContains"
        else elim o [ none ↦ invalid_filter "titleContains" | some _ ↦ ok x ])
      ≡ ok y
    → (a ≡ true) × (b ≡ true) × (c ≡ true) × ((s : String) × (o ≡ some s)) × (y ≡ x)
guards_passed false b c o x y h = cc
guards_passed true false c o x y h = cc
guards_passed true true false o x y h = cc
guards_passed true true true none x y h = cc
guards_passed true true true (some s) x y h =
    let same : x ≡ y = ok_only h in (refl, refl, refl, (s, refl), sym same)

-- what `incident_plan_document` has checked of the plan that it returns
with_review_checked :
    (plan : Fields) (o : Option Fields) (c : Component)
    → with_review plan o ≡ ok c
    → (properties : Fields) × IsAcceptable properties × (c ≡ plan_of plan properties)
with_review_checked plan none c h = cc
with_review_checked plan (some properties) c h = elim (Bool-cases (is_enabled_review properties)) [
  | inl r ↦
      let g =
        guards_passed (is_title_filter (get "titleContainsAll" properties))
          (is_title_filter (get "titleContainsAny" properties))
          (is_title_filter (get "titleNotContains" properties))
          (text_or_empty (get "titleContains" properties)) (plan_of plan properties) c
          (rw r at h) in
      (
        properties,
        record { review = r; every_term = g.0; any_term = g.1; excluded = g.2; phrase = g.3 },
        g.4,
      )
  | inr r ↦ cc (rw r at h)
]

plan_twice :
    (plan properties : Fields)
    → plan_of (fields_of (plan_of plan properties)) (without read_only_properties properties)
      ≡ plan_of plan properties
unfolding get
plan_twice plan properties =
    rw (tags_or_empty_twice (get "tags" plan), without-without read_only_properties properties) refl

read_again :
    (plan properties : Fields)
    → IsAcceptable properties
    → incident_plan_document (some (object (fields_of (plan_of plan properties))))
      ≡ ok (plan_of plan properties)
unfolding incident_plan_document get
read_again plan properties a =
    accepted (fields_of (plan_of plan properties)) (without read_only_properties properties)
      (without-IsAcceptable properties a)
    ∙ ap ok (plan_twice plan properties)

document_checked :
    (o : Option Value) (c : Component)
    → incident_plan_document o ≡ ok c
    → (plan : Fields) × (properties : Fields) × IsAcceptable properties
      × (c ≡ plan_of plan properties)
unfolding incident_plan_document
document_checked (some (object plan)) c h =
    let r = with_review_checked plan _ c h in (plan, r.0, r.1, r.2)
document_checked none c h = cc
document_checked (some null) c h = cc
document_checked (some (boolean b)) c h = cc
document_checked (some (int i)) c h = cc
document_checked (some (float f)) c h = cc
document_checked (some (text s)) c h = cc
document_checked (some (array a)) c h = cc

-- A plan that `incident_plan_document` has returned, saved as a document and read again by it, is
-- returned as it is.
pub incident_plan_document_again :
    (o : Option Value) (c : Component)
    → incident_plan_document o ≡ ok c
    → incident_plan_document (some (object (fields_of c))) ≡ ok c
incident_plan_document_again o c h =
    let d = document_checked o c h in rw d.3 (read_again d.0 d.1 d.2)
