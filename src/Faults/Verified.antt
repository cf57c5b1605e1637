-- ===== src/Faults/Verified.antt =====
-- What a successful `deploy_postgresql_fault` of scripts/workshop.py has read back.
use sre_agent_workshop.Prelude.{
  sym, ◌∙◌, ◌≡◌, refl, ap, Bool, true, false, not, Option, none, some, List, [], ◌∷◌, String, All,
  arith, eq_iff,
}
use sre_agent_workshop.Prelude.Text.{str_eq}
use sre_agent_workshop.Exec.{Error, Result, ok, err, raise_if}
use sre_agent_workshop.Exec.Triple.{
  Triple-result, Ends, Triple, Triple-pure, Triple-raise, Triple-if, Triple-bind, Triple-any,
  Triple-ok,
}
use sre_agent_workshop.Json.{Value, null, boolean, int, float, text, array, object, Fields, get}
use sre_agent_workshop.Tools.Machine.{Machine}
use sre_agent_workshop.Tools.Monitoring.{Values}
use sre_agent_workshop.Faults.Rule.{
  Access, allow, deny, FaultStatus, matches, expected_rule, status_of, same, check_rule, access_of,
  status_of_rule, status_of_value, show_rule, postgresql_fault_status, deploy_rule,
  deploy_postgresql_fault,
}

abbrev pub access_text : Access → String
access_text allow = "Allow"
access_text deny = "Deny"

-- Every key has a value that its test accepts.
abbrev pub Accepts : Fields → List (String × (Value → Bool)) → Type 0
Accepts rule = All (λ (key, test). matches test (get key rule) ≡ true)

same-true : (a b : Bool) → same a b ≡ true → b ≡ a
same-true true b e = e
same-true false true e = cc
same-true false false e = refl

not-false : (b : Bool) → not b ≡ false → b ≡ true
not-false true e = refl
not-false false e = cc

same_text : (s t : String) → str_eq s t ≡ true → some (text s) ≡ some (text t)
same_text s t c = ap (λ x. some (text x)) (ground (arith, eq_iff s t))

read_of : (access : Access) → access_text (status_of access).access ≡ access_text access
read_of allow = refl
read_of deny = refl

module _ (m : Machine) (values : Values) where
  open m use {World}

  -- The world is the one behind a look at the rule that has shown the bounded rule, and this access.
  pub record IsShown (status : FaultStatus) (w : World) : Type 0 where
    pub before : World
    pub rule : Fields
    pub shown : show_rule m values before ≡ (ok (object rule), w)
    pub bounded : Accepts rule expected_rule
    pub consistent : status ≡ status_of status.access
    pub read : get "access" rule ≡ some (text (access_text status.access))

  Triple-guard :
      (P : World → Type 0) (b : Bool) (e : Error)
      → Triple P (raise_if b e) (λ _ w. P w × (b ≡ false)) (λ _ _. Unit)
  Triple-guard P true e = record { at = λ w p. tt }
  Triple-guard P false e = record { at = λ w p. (p, refl) }

  check_rule-Accepts :
      (P : World → Type 0) (expected : List (String × (Value → Bool))) (rule : Fields)
      → Triple P (check_rule m expected rule) (λ _ w. P w × Accepts rule expected) (λ _ _. Unit)
  unfolding check_rule
  check_rule-Accepts P [] rule = Triple-pure tt λ w p. (p, tt)
  check_rule-Accepts P ((key, test) ∷ expected) rule =
      Triple-bind (λ _ w. P w × (not (matches test (get key rule)) ≡ false)) _ _
        (Triple-guard P (not (matches test (get key rule))) _)
        λ _. record {
          at = λ w (p, c).
              (Triple-result (check_rule-Accepts P expected rule)
                  λ _ w (p, a). (p, (not-false (matches test (get key rule)) c, a))).at
                w p;
        }

  consistent_status : (a : Access) → status_of a ≡ status_of (status_of a).access
  consistent_status allow = refl
  consistent_status deny = refl

  abbrev Seen : Value → World → Type 0
  Seen v w = (before : World) × (show_rule m values before ≡ (ok v, w))

  show_rule-Seen : Triple (λ _. Unit) (show_rule m values) Seen (λ _ _. Unit)
  show_rule-Seen = record {
    at = λ w _. seen w (show_rule m values w).0 (show_rule m values w).1 refl;
  }
    where
      seen :
          (before : World) (r : Result Value) (w : World)
          → show_rule m values before ≡ (r, w)
          → Ends Seen (λ _ _. Unit) (r, w)
      seen before (ok v) w e = (before, e)
      seen before (err x) w e = tt

  access_of-Kept :
      (P : World → Type 0) (o : Option Value)
      → Triple P
          (access_of m o)
          (λ access w. P w × (o ≡ some (text (access_text access))))
          (λ _ _. Unit)
  access_of-Kept P (some (text s)) =
      Triple-if (str_eq s "Allow") _ _ (λ c. Triple-pure allow λ w p. (p, same_text s "Allow" c))
        λ _.
          Triple-if (str_eq s "Deny") _ _ (λ c. Triple-pure deny λ w p. (p, same_text s "Deny" c))
            λ _. Triple-raise _ λ _ _. tt
  access_of-Kept P none = Triple-raise _ λ _ _. tt
  access_of-Kept P (some null) = Triple-raise _ λ _ _. tt
  access_of-Kept P (some (boolean b)) = Triple-raise _ λ _ _. tt
  access_of-Kept P (some (int i)) = Triple-raise _ λ _ _. tt
  access_of-Kept P (some (float f)) = Triple-raise _ λ _ _. tt
  access_of-Kept P (some (array items)) = Triple-raise _ λ _ _. tt
  access_of-Kept P (some (object d)) = Triple-raise _ λ _ _. tt

  status_of_value-IsShown :
      (v : Value) → Triple (Seen v) (status_of_value m v) IsShown (λ _ _. Unit)
  unfolding status_of_rule
  status_of_value-IsShown (object rule) =
      Triple-bind (λ _ w. Seen (object rule) w × Accepts rule expected_rule) _ _
        (check_rule-Accepts (Seen (object rule)) expected_rule rule)
        λ _.
          Triple-bind
            (λ access w.
              (Seen (object rule) w × Accepts rule expected_rule)
              × (get "access" rule ≡ some (text (access_text access))))
            _ _
            (access_of-Kept (λ w. Seen (object rule) w × Accepts rule expected_rule)
              (get "access" rule))
            λ access. Triple-pure (status_of access) λ w (((before, e), a), r). record {
              before = before;
              rule = rule;
              shown = e;
              bounded = a;
              consistent = consistent_status access;
              read = r ∙ ap (λ x. some (text x)) (sym (read_of access));
            }
  status_of_value-IsShown null = Triple-raise _ λ _ _. tt
  status_of_value-IsShown (boolean b) = Triple-raise _ λ _ _. tt
  status_of_value-IsShown (int i) = Triple-raise _ λ _ _. tt
  status_of_value-IsShown (float f) = Triple-raise _ λ _ _. tt
  status_of_value-IsShown (text s) = Triple-raise _ λ _ _. tt
  status_of_value-IsShown (array items) = Triple-raise _ λ _ _. tt

  status-IsShown : Triple (λ _. Unit) (postgresql_fault_status m values) IsShown (λ _ _. Unit)
  unfolding postgresql_fault_status
  status-IsShown = Triple-bind Seen _ _ show_rule-Seen status_of_value-IsShown

  module _ (inject : Bool) where
    abbrev Reached : FaultStatus → World → Type 0
    Reached status w = IsShown status w × (status.is_active ≡ inject)

    deployed : Triple (λ _. Unit) (deploy_postgresql_fault m values inject) Reached (λ _ _. Unit)
    unfolding deploy_postgresql_fault
    deployed =
        Triple-bind (λ _ _. Unit) (deploy_rule m values inject) _ (Triple-any _)
          λ _. Triple-bind IsShown _ _ status-IsShown λ status.
            Triple-bind (λ _ w. IsShown status w × (not (same inject status.is_active) ≡ false)) _ _
              (Triple-guard (IsShown status) (not (same inject status.is_active)) _)
              λ _. Triple-pure status λ w (p, c).
                (p, same-true inject status.is_active (not-false (same inject status.is_active) c))

    -- Where `deploy_postgresql_fault` returns, the last thing it has done is to look at the rule; the
    -- rule has all seven bounds of the fault, and it is active exactly if the fault was to be injected.
    pub deploy_postgresql_fault-IsShown :
        (w : World) (status : FaultStatus)
        → (deploy_postgresql_fault m values inject w).0 ≡ ok status
        → IsShown status (deploy_postgresql_fault m values inject w).1 × (status.is_active ≡ inject)
    deploy_postgresql_fault-IsShown w status e = Triple-ok deployed w tt status e
