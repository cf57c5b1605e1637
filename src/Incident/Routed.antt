-- ===== src/Incident/Routed.antt =====
-- What `incident_routing_check` of scripts/workshop.py has checked of the response plans.
use sre_agent_workshop.Prelude.{
  sym, ◌∙◌, ap, ℕ, zero, suc, ◌≡◌, refl, Bool, true, false, Bool-cases, inl, inr, some, List, [],
  ◌∷◌, String, get_elem?, arith, eq_iff, if◌then◌else◌,
}
use sre_agent_workshop.Prelude.Text.{one_of}
use sre_agent_workshop.Exec.{Result, ok, err}
use sre_agent_workshop.Json.{Fields}
use sre_agent_workshop.Incident.Match.{Component}
use sre_agent_workshop.Incident.Plan.{
  workflow_name, Plans, takes_title, takers, join_match, is_only, check_takers, both_ok,
  expect_match, planned, incident_title_matches, incident_routing_check,
}

module _ (casefold : String → String) where
  -- The plan at a position takes the title only if its name is among these, and its filters are valid.
  abbrev TakenBy : String → Plans casefold → List String → Type 0
  TakenBy title plans names =
      (k : ℕ) (name : String) (plan : Fields)
      → get_elem? plans k ≡ some (name, plan)
      → (b : Bool) × (takes_title casefold title plan ≡ ok b)
        × (b ≡ true → one_of name names ≡ true)

  joined :
      (name : String) (r : Result Bool) (rest : Result (List String)) (names : List String)
      → join_match casefold name r rest ≡ ok names
      → (b : Bool) × (others : List String) × (r ≡ ok b)
        × (rest ≡ ok others)
        × ((if b then name ∷ others else others) ≡ names)
  joined name (err e) rest names h = cc
  joined name (ok b) (err e) names h = cc
  joined name (ok b) (ok others) names h = (b, others, refl, refl, same_result h)
    where
      same_result : {A : Type 0} {x y : A} → ok x ≡ ok y → x ≡ y
      same_result h = cc

  more_names :
      (b : Bool) (name other : String) (names : List String)
      → one_of other names ≡ true
      → one_of other (if b then name ∷ names else names) ≡ true
  more_names b name other names h = ground arith

  first_name :
      (b : Bool) (name : String) (names : List String)
      → b ≡ true
      → one_of name (if b then name ∷ names else names) ≡ true
  first_name b name names h = ground (arith, eq_iff name name)

  takers-TakenBy :
      (title : String) (plans : Plans casefold) (names : List String)
      → takers casefold title plans ≡ ok names
      → TakenBy title plans names
  unfolding takers
  takers-TakenBy title [] names h k name plan e = cc
  takers-TakenBy title ((n, p) ∷ plans) names h zero name plan e =
      let j = joined n (takes_title casefold title p) (takers casefold title plans) names h in
      let same_name : n ≡ name = cc in
      let same_plan : p ≡ plan = cc in
      (j.0, rw (← same_plan) j.2, λ t. rw (← j.4) (rw (← same_name) (first_name j.0 n j.1 t)))
  takers-TakenBy title ((n, p) ∷ plans) names h (suc k) name plan e =
      let j = joined n (takes_title casefold title p) (takers casefold title plans) names h in
      let q = takers-TakenBy title plans j.1 j.3 k name plan e in
      (q.0, q.1, λ t. rw (← j.4) (more_names j.0 n name j.1 (q.2 t)))

  -- Somewhere a plan of this name takes the title.
  abbrev SomeTakes : String → Plans casefold → String → Type 0
  SomeTakes title plans name =
      (k : ℕ) × (plan : Fields) × (get_elem? plans k ≡ some (name, plan))
      × (takes_title casefold title plan ≡ ok true)

  takers-SomeTakes :
      (title : String) (plans : Plans casefold) (name : String) (names : List String)
      → takers casefold title plans ≡ ok (name ∷ names)
      → SomeTakes title plans name
  unfolding takers
  takers-SomeTakes title [] name names h = cc
  takers-SomeTakes title ((n, p) ∷ plans) name names h =
      let j =
        joined n (takes_title casefold title p) (takers casefold title plans) (name ∷ names) h in
      here_or_later j.0 j.1 (takers-SomeTakes title plans name names) j.2 j.3 j.4
    where
      here_or_later :
          (b : Bool) (others : List String)
          → (takers casefold title plans ≡ ok (name ∷ names) → SomeTakes title plans name)
          → takes_title casefold title p ≡ ok b
          → takers casefold title plans ≡ ok others
          → (if b then n ∷ others else others) ≡ name ∷ names
          → SomeTakes title ((n, p) ∷ plans) name
      here_or_later true others later t r e =
          let same_name : n ≡ name = cc in (0, p, rw same_name refl, t)
      here_or_later false others later t r e = let q = later (rw e at r) in (suc q.0, q.1, q.2, q.3)

  -- The workflow's plan takes the title, and no plan of another name does.
  pub record IsExclusive (title : String) (plans : Plans casefold) : Type 0 where
    pub taken : SomeTakes title plans workflow_name
    pub alone :
        (k : ℕ) (name : String) (plan : Fields)
        → get_elem? plans k ≡ some (name, plan)
        → takes_title casefold title plan ≡ ok true
        → name ≡ workflow_name

  only_name :
      (names : List String)
      → is_only casefold workflow_name names ≡ true
      → names ≡ workflow_name ∷ []
  only_name [] h = cc
  only_name (s ∷ []) h = ap (λ x. x ∷ []) (ground (arith, eq_iff s workflow_name))
  only_name (s ∷ t ∷ names) h = cc

  listed_once : (name : String) → one_of name (workflow_name ∷ []) ≡ true → name ≡ workflow_name
  listed_once name h = ground (arith, eq_iff name workflow_name)

  check_takers-IsExclusive :
      (title : String) (plans : Plans casefold) (names : List String)
      → takers casefold title plans ≡ ok names
      → is_only casefold workflow_name names ≡ true
      → IsExclusive title plans
  check_takers-IsExclusive title plans names t o =
      let one : takers casefold title plans ≡ ok (workflow_name ∷ []) =
        t ∙ ap ok (only_name names o) in
      record {
        taken = takers-SomeTakes title plans workflow_name [] one;
        alone = λ k name plan e h.
            let q = takers-TakenBy title plans (workflow_name ∷ []) one k name plan e in
            listed_once name (q.2 (ok_same (sym q.1 ∙ h)));
      }
    where
      ok_same : {A : Type 0} {x y : A} → ok x ≡ ok y → x ≡ y
      ok_same h = cc

  check_takers_ok :
      (r : Result (List String))
      → check_takers casefold r ≡ ok tt
      → (names : List String) × (r ≡ ok names) × (is_only casefold workflow_name names ≡ true)
  check_takers_ok (err e) h = cc
  check_takers_ok (ok names) h = elim (Bool-cases (is_only casefold workflow_name names)) [
    | inl c ↦ (names, refl, c)
    | inr c ↦ cc (rw c at h)
  ]

  both_ok_lem : (a b : Result (Unit {0})) → both_ok casefold a b ≡ ok tt → (a ≡ ok tt) × (b ≡ ok tt)
  both_ok_lem (ok tt) b h = (refl, h)
  both_ok_lem (err e) b h = cc

  expect_match_ok :
      (why : String) (r : Result Bool) → expect_match casefold why r ≡ ok tt → r ≡ ok true
  expect_match_ok why (ok true) h = refl
  expect_match_ok why (ok false) h = cc
  expect_match_ok why (err e) h = cc

  -- The routing of the alerts once the partitioned plan and the workflow's plan are in force.
  pub record IsRouted (plans : List Fields) (partitioned module_plan : Component) : Type 0 where
    pub postgresql :
        IsExclusive "alert-orders-postgresql-connectivity"
          (planned casefold plans partitioned module_plan)
    pub cpu :
        incident_title_matches casefold partitioned.properties "alert-orders-high-cpu" ≡ ok true
    pub http_5xx :
        incident_title_matches casefold partitioned.properties "alert-orders-http-5xx" ≡ ok true

  -- Where `incident_routing_check` returns, the workflow's plan takes the PostgreSQL alert and no plan
  -- of another name does, and the titles of the CPU alert and of the HTTP 5xx alert match the
  -- partitioned plan.
  pub incident_routing_check-IsRouted :
      (plans : List Fields) (partitioned module_plan : Component)
      → incident_routing_check casefold plans partitioned module_plan ≡ ok tt
      → IsRouted plans partitioned module_plan
  unfolding incident_routing_check
  incident_routing_check-IsRouted plans partitioned module_plan h =
      let p = both_ok_lem _ _ h in
      let q = both_ok_lem _ _ p.1 in
      let t = both_ok_lem _ _ p.0 in
      let c = check_takers_ok _ t.0 in
      record {
        postgresql = check_takers-IsExclusive _ _ c.0 c.1 c.2;
        cpu = expect_match_ok _ _ q.0;
        http_5xx = expect_match_ok _ _ q.1;
      }
