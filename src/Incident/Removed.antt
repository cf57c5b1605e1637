-- ===== src/Incident/Removed.antt =====
-- What `incident_guarded_put` and `remove_incident_components` of scripts/workshop.py leave in an
-- honest service.
use sre_agent_workshop.Prelude.{
  ◌*◌, ℕ, zero, suc, ◌==◌, ◌≡◌, ◌≢◌, refl, sym, ◌∙◌, Bool, true, false, not, ◌||◌, Bool-cases, inl,
  inr, Option, some, List, [], ◌∷◌, String, arith,
}
use sre_agent_workshop.Exec.{Exec, Error, Result, ok, err, pure, ◌>>◌}
use sre_agent_workshop.Exec.Triple.{
  Ends, Triple, Triple-pure, Triple-raise, Triple-if, Triple-bind, Triple-try, Triple-any,
  Triple-ok, Triple-error, Triple-result,
}
use sre_agent_workshop.Json.{Value, null}
use sre_agent_workshop.Tools.Machine.{Machine}
use sre_agent_workshop.Tools.Retry.{relabelled, retry_sre_agent, returned, is_request, is_retryable}
use sre_agent_workshop.Incident.Match.{response_plan_name, Component}
use sre_agent_workshop.Incident.Http.{
  is_missing, Request, Reply, sre_agent_request, incident_optional_get,
}
use sre_agent_workshop.Incident.Service.{
  stored_value, IsService, Stable, Touches, Touches-Triple, sre_agent_request-Touches, read-Triple,
}
use sre_agent_workshop.Incident.Write.{
  filter_path, is_null, Placed, Installed, document_matches, is_allowed, writing, deleting,
  verify_written, write_component, incident_guarded_put, unless_missing, verify_deleted,
  delete_component, remove_target, remove_targets, disable_module, half_restored, restore_original,
  components_of, remove_incident_components,
}

-- None of these is at this path, and no two at the same one.
abbrev pub Apart : String → List Placed → Type 0
Apart path [] = Unit
Apart path (target ∷ targets) = (path ≢ target.path) × Apart path targets

abbrev pub Distinct : List Placed → Type 0
Distinct [] = Unit
Distinct (target ∷ targets) = Apart target.path targets × Distinct targets

module _ (m : Machine) (send : Request → Exec m.World Reply)
    (stored : String → m.World → Option Value) (service : IsService m send stored)
    (left retry_seconds : ℕ) where
  open m use {World, sleep}

  abbrev Quiet : Error → World → Type 0
  Quiet _ _ = Unit

  -- What is said of the stored documents survives a pause.
  sleep-Stable :
      (path : String) (I : World → Type 0) (d : ℕ)
      → Stable m send stored service path I
      → Triple I (sleep d) (λ _. I) (λ _. I)
  sleep-Stable path I d s =
      Touches-Triple m send stored service path (sleep d) I
        (record { others = λ w other ne. service.waits d other w }) s

  no_more_left : (b : Bool) → b || (0 == 0) ≡ false → ⊥
  no_more_left true e = cc
  no_more_left false e = cc

  module _ (label : String) (action : Exec World (Unit {0})) (path : String) (I Q : World → Type 0)
      (s : Stable m send stored service path I) (t : Triple I action (λ _. Q) (λ _. I)) where
    body-Triple : Triple I (returned m label action retry_seconds) (λ _. Q) (λ _. I)
    body-Triple =
        Triple-bind (λ _. Q) action (λ a. pure (some a)) t λ a. Triple-pure (some a) λ w q. q

    -- With at least one attempt, what the action has returned with holds at the end.
    retry-Triple :
        (left : ℕ)
        → Triple I (retry_sre_agent m label action retry_seconds (suc left)) (λ _. Q) Quiet
    unfolding retry_sre_agent
    retry-Triple zero =
        Triple-try I _ is_request _ body-Triple
          (λ e c.
            Triple-if (not (is_retryable e) || (0 == 0)) _ _
              (λ _. Triple-raise (relabelled label e) λ w h. tt)
              λ f. absurd (no_more_left (not (is_retryable e)) f))
          λ e c w h. tt
    retry-Triple (suc left) =
        Triple-try I _ is_request _ body-Triple
          (λ e c.
            Triple-if (not (is_retryable e) || (suc left == 0)) _ _
              (λ _. Triple-raise (relabelled label e) λ w h. tt)
              λ _.
                Triple-bind (λ _. I) _ _
                  (Triple-error (sleep-Stable path I (retry_seconds * 1_000_000_000) s) λ _ _ _. tt)
                  λ _. retry-Triple left)
          λ e c w h. tt

  -- The document that is stored at a path matches.
  abbrev pub Held : String → Component → World → Type 0
  Held path c w =
      document_matches m send (suc left) retry_seconds (stored_value (stored path w)) c ≡ true

  abbrev pub Gone : String → World → Type 0
  Gone path w = stored_value (stored path w) ≡ null

  is_null-true : (v : Value) → is_null v ≡ true → v ≡ null
  is_null-true v e = ground arith

  held_not : (b : Bool) → not b ≡ false → b ≡ true
  held_not true e = refl
  held_not false e = cc

  module _ (path : String) (I : World → Type 0) (s : Stable m send stored service path I) where
    Read-Triple :
        (with_etag : Bool)
        → Triple I
            (incident_optional_get m send path with_etag)
            (λ r w. I w × (r.0 ≡ stored_value (stored path w)))
            (λ _. I)
    Read-Triple with_etag = read-Triple m send stored service path path with_etag I s

    verify_written-Held :
        (desired : Component)
        → Triple I
            (verify_written m send (suc left) retry_seconds path desired)
            (λ _ w. I w × Held path desired w)
            (λ _. I)
    unfolding verify_written
    verify_written-Held desired =
        Triple-bind (λ r w. I w × (r.0 ≡ stored_value (stored path w)))
          (incident_optional_get m send path false) _ (Read-Triple false)
          λ r. record {
            at = λ w p.
                elim (Bool-cases
                  (not (document_matches m send (suc left) retry_seconds r.0 desired))) [
                    | inl c ↦ rw c p.0
                    | inr c ↦ rw c (
                      p.0,
                      rw p.1 at (
                          held_not (document_matches m send (suc left) retry_seconds r.0 desired)
                            c),
                    )
                  ];
          }

    verify_deleted-Gone :
        (c : Component)
        → Triple I
            (verify_deleted m send (suc left) retry_seconds (record { path = path; component = c }))
            (λ _ w. I w × Gone path w)
            (λ _. I)
    unfolding verify_deleted
    verify_deleted-Gone c =
        Triple-bind (λ r w. I w × (r.0 ≡ stored_value (stored path w)))
          (incident_optional_get m send path false) _ (Read-Triple false)
          λ r. record {
            at = λ w p. elim (Bool-cases (not (is_null r.0))) [
              | inl c ↦ rw c p.0
              | inr c ↦ rw c (p.0, sym p.1 ∙ is_null-true r.0 (held_not (is_null r.0) c))
            ];
          }

    request_keeps :
        (request : Request)
        → Touches m send stored service path (sre_agent_request m send request false false)
        → Triple I (sre_agent_request m send request false false) (λ _. I) (λ _. I)
    request_keeps request t =
        Touches-Triple m send stored service path (sre_agent_request m send request false false) I t
          s

    write_component-Held :
        (desired : Component) (etag : Option String)
        → Triple I
            (write_component m send (suc left) retry_seconds path desired etag)
            (λ _ w. I w × Held path desired w)
            Quiet
    unfolding write_component
    write_component-Held desired etag =
        let request = writing m send (suc left) retry_seconds path desired etag in
        Triple-bind (λ _. I) (sre_agent_request m send request false false) _
          (Triple-error
            (request_keeps request
              (sre_agent_request-Touches m send stored service request false false))
            λ _ _ _. tt)
          λ _.
            Triple-bind (λ _ w. I w × Held path desired w)
              (retry_sre_agent m "Incident read-back"
                (verify_written m send (suc left) retry_seconds path desired) retry_seconds
                (suc left))
              (λ _. pure tt)
              (retry-Triple "Incident read-back" _ path I (λ w. I w × Held path desired w) s
                (verify_written-Held desired) left)
              λ _. Triple-pure tt λ w q. q

    -- What `incident_guarded_put` returns with: the document is stored, and the others are as before.
    pub guarded_put-Triple :
        (desired : Component) (allowed : List (Option Component))
        → Triple I
            (incident_guarded_put m send (suc left) retry_seconds path desired allowed)
            (λ _ w. I w × Held path desired w)
            Quiet
    unfolding incident_guarded_put
    guarded_put-Triple desired allowed =
        Triple-bind (λ r w. I w × (r.0 ≡ stored_value (stored path w)))
          (incident_optional_get m send path true) _ (Triple-error (Read-Triple true) λ _ _ _. tt)
          λ r.
            Triple-if (document_matches m send (suc left) retry_seconds r.0 desired) _ _
              (λ c. Triple-pure tt λ w p. (p.0, rw p.1 at c))
              λ _.
                Triple-if (is_allowed m send (suc left) retry_seconds r.0 allowed) _ _
                  (λ _. record { at = λ w p. (write_component-Held desired r.1).at w p.0 })
                  λ _. Triple-raise _ λ _ _. tt

    delete_component-Gone :
        (c : Component) (etag : Option String)
        → Triple I
            (delete_component m send
              (suc left)
              retry_seconds
              (record { path = path; component = c })
              etag)
            (λ _ w. I w × Gone path w)
            Quiet
    unfolding delete_component
    delete_component-Gone c etag =
        let request = deleting m send (suc left) retry_seconds path etag in
        Triple-bind (λ _. I) _ _
          (Triple-try I (sre_agent_request m send request false false >> pure tt) is_request
            (unless_missing m send (suc left) retry_seconds)
            (Triple-bind (λ _. I) (sre_agent_request m send request false false) (λ _. pure tt)
              (request_keeps request
                (sre_agent_request-Touches m send stored service request false false))
              λ _. Triple-pure tt λ w q. q)
            (λ e _.
              Triple-if (is_missing m send e) _ _ (λ _. Triple-pure tt λ w q. q)
                λ _. Triple-raise e λ _ _. tt)
            (λ _ _ _ _. tt))
          λ _.
            Triple-bind (λ _ w. I w × Gone path w)
              (retry_sre_agent m "Incident removal"
                (verify_deleted m send (suc left) retry_seconds
                  (record { path = path; component = c }))
                retry_seconds (suc left))
              (λ _. pure tt)
              (retry-Triple "Incident removal" _ path I (λ w. I w × Gone path w) s
                (verify_deleted-Gone c) left)
              λ _. Triple-pure tt λ w q. q

    pub remove_target-Gone :
        (c : Component)
        → Triple I
            (remove_target m send (suc left) retry_seconds (record { path = path; component = c }))
            (λ _ w. I w × Gone path w)
            Quiet
    unfolding remove_target
    remove_target-Gone c =
        Triple-bind (λ r w. I w × (r.0 ≡ stored_value (stored path w)))
          (incident_optional_get m send path true) _ (Triple-error (Read-Triple true) λ _ _ _. tt)
          λ r.
            Triple-if (is_null r.0) _ _
              (λ c. Triple-pure tt λ w p. (p.0, sym p.1 ∙ is_null-true r.0 c))
              λ _.
                Triple-if (document_matches m send (suc left) retry_seconds r.0 c) _ _
                  (λ _. record { at = λ w p. (delete_component-Gone c r.1).at w p.0 })
                  λ _. Triple-raise _ λ _ _. tt

  -- No component is stored at these paths.
  abbrev pub AllGone : List Placed → World → Type 0
  AllGone [] w = Unit
  AllGone (target ∷ targets) w = Gone target.path w × AllGone targets w

  abbrev StableAt : List Placed → (World → Type 0) → Type 0
  StableAt [] I = Unit
  StableAt (target ∷ targets) I = Stable m send stored service target.path I × StableAt targets I

  -- what is said of the document at one path alone
  stored-StableAt :
      (path : String) (P : Option Value → Type 0) (I : World → Type 0) (targets : List Placed)
      → Apart path targets
      → StableAt targets I
      → StableAt targets (λ w. I w × P (stored path w))
  stored-StableAt path P I [] a s = tt
  stored-StableAt path P I (target ∷ targets) a s = (
    λ w w' same p. (s.0 w w' same p.0, rw (same path a.0) p.1),
    stored-StableAt path P I targets a.1 s.1,
  )

  unit-StableAt : (targets : List Placed) → StableAt targets (λ _. Unit)
  unit-StableAt [] = tt
  unit-StableAt (target ∷ targets) = (λ w w' same p. tt, unit-StableAt targets)

  remove_targets-AllGone :
      (targets : List Placed)
      → Distinct targets
      → (I : World → Type 0) → StableAt targets I
      → Triple I
          (remove_targets m send (suc left) retry_seconds targets)
          (λ _ w. I w × AllGone targets w)
          Quiet
  unfolding remove_targets
  remove_targets-AllGone [] d I s = Triple-pure tt λ w p. (p, tt)
  remove_targets-AllGone (target ∷ targets) d I s =
      Triple-bind (λ _ w. I w × Gone target.path w) _ _
        (remove_target-Gone target.path I s.0 target.component)
        λ _.
          Triple-result
            (remove_targets-AllGone targets d.1 (λ w. I w × Gone target.path w)
              (stored-StableAt target.path (λ o. stored_value o ≡ null) I targets d.0 s.1))
            λ _ w p. (p.0.0, (p.0.1, p.1))

  restore_original-Held :
      (state : Installed)
      → Triple
          (λ _. Unit)
          (restore_original m send (suc left) retry_seconds state)
          (λ _ w. Unit × Held (filter_path response_plan_name) state.original w)
          Quiet
  unfolding restore_original
  restore_original-Held state =
      Triple-bind (λ _ _. Unit)
        (half_restored m send (suc left) retry_seconds "titleContains" state) _ (Triple-any _)
        λ partial_anchor.
          Triple-bind (λ _ _. Unit)
            (half_restored m send (suc left) retry_seconds "titleNotContains" state) _
            (Triple-any _)
            λ partial_exclusion.
              guarded_put-Triple (filter_path response_plan_name) (λ _. Unit) (λ _ _ _ _. tt)
                state.original _

  -- An action that stores nothing.
  abbrev pub ApartFromService : Exec World (Unit {0}) → Type 0
  ApartFromService a = (w : World) (other : String) → stored other (a w).1 ≡ stored other w

  module _ (unlink_state unlink_evidence : Exec World (Unit {0})) (state : Installed)
      (first : ApartFromService unlink_state) (second : ApartFromService unlink_evidence)
      (distinct : Distinct (components_of m send (suc left) retry_seconds state))
      (apart : Apart
        (filter_path response_plan_name)
        (components_of m send (suc left) retry_seconds state)) where
    -- The original plan is stored again, and nothing is at the paths of the workflow.
    abbrev pub IsRestored : World → Type 0
    IsRestored w =
        Held (filter_path response_plan_name) state.original w
        × AllGone (components_of m send (suc left) retry_seconds state) w

    moved :
        (targets : List Placed) (w w' : World)
        → ((other : String) → stored other w' ≡ stored other w)
        → AllGone targets w
        → AllGone targets w'
    moved [] w w' same p = tt
    moved (target ∷ targets) w w' same p = (rw (same target.path) p.0, moved targets w w' same p.1)

    unlink_keeps :
        (a : Exec World (Unit {0}))
        → ApartFromService a
        → Triple IsRestored a (λ _. IsRestored) Quiet
    unlink_keeps a k = record {
      at = λ w p. ended (a w).0 (a w).1 (
        rw (k w (filter_path response_plan_name)) p.0,
        moved (components_of m send (suc left) retry_seconds state) w (a w).1 (k w) p.1,
      );
    }
      where
        ended :
            (r : Result (Unit {0})) (w : World)
            → IsRestored w
            → Ends {A = Unit {0}} (λ _. IsRestored) Quiet (r, w)
        ended (ok x) w p = p
        ended (err e) w p = tt

    pub removal-Triple :
        Triple
          (λ _. Unit)
          (remove_incident_components m send
            (suc left)
            retry_seconds
            unlink_state
            unlink_evidence
            state)
          (λ _. IsRestored)
          Quiet
    unfolding remove_incident_components
    removal-Triple =
        Triple-bind (λ _ _. Unit) (disable_module m send (suc left) retry_seconds state.module_plan)
          _ (Triple-any _)
          λ _.
            Triple-bind (λ _ w. Unit × Held (filter_path response_plan_name) state.original w) _ _
              (restore_original-Held state)
              λ _.
                Triple-bind (λ _. IsRestored)
                  (remove_targets m send (suc left) retry_seconds
                    (components_of m send (suc left) retry_seconds state))
                  _
                  (Triple-result
                    (remove_targets-AllGone (components_of m send (suc left) retry_seconds state)
                      distinct (λ w. Unit × Held (filter_path response_plan_name) state.original w)
                      (stored-StableAt (filter_path response_plan_name)
                        (λ o.
                          document_matches m send (suc left) retry_seconds (stored_value o)
                            state.original
                          ≡ true)
                        (λ _. Unit) (components_of m send (suc left) retry_seconds state) apart
                        (unit-StableAt (components_of m send (suc left) retry_seconds state))))
                    λ _ w p. (p.0.1, p.1))
                  λ _.
                    Triple-bind (λ _. IsRestored) unlink_state _ (unlink_keeps unlink_state first)
                      λ _. unlink_keeps unlink_evidence second

    -- On a service that answers honestly, with at least one attempt and distinct paths: where
    -- `remove_incident_components` returns, the original plan is stored again, and no component of the
    -- workflow is.
    pub remove_incident_components-IsRestored :
        (w : World)
        → (remove_incident_components m send
            (suc left)
            retry_seconds
            unlink_state
            unlink_evidence
            state
            w).0
          ≡ ok tt
        → IsRestored
            (remove_incident_components m send
              (suc left)
              retry_seconds
              unlink_state
              unlink_evidence
              state
              w).1
    remove_incident_components-IsRestored w e = Triple-ok removal-Triple w tt tt e

  -- On a service that answers honestly, with at least one attempt: where `incident_guarded_put`
  -- returns, the document that is stored at its path matches, and any other is as before.
  pub incident_guarded_put-Held :
      (path other : String) (desired : Component) (allowed : List (Option Component)) (w : World)
      → other ≢ path
      → (incident_guarded_put m send (suc left) retry_seconds path desired allowed w).0 ≡ ok tt
      → (stored other
            (incident_guarded_put m send (suc left) retry_seconds path desired allowed w).1
          ≡ stored other w)
        × Held path desired
            (incident_guarded_put m send (suc left) retry_seconds path desired allowed w).1
  incident_guarded_put-Held path other desired allowed w ne e =
      Triple-ok
        (guarded_put-Triple path (λ w'. stored other w' ≡ stored other w)
          (λ w1 w2 same p. same other ne ∙ p) desired allowed)
        w refl tt e
