-- ===== src/Cohort/Grants.antt =====
-- What `ensure_role_assignment` of scripts/cohort.py has seen when it returns.
use sre_agent_workshop.Prelude.{
  ℕ, zero, suc, ◌≡◌, refl, ap, inl, inr, true, false, Bool-cases, List, [], ◌∷◌, String,
}
use sre_agent_workshop.Exec.{lift, Result, ok, err}
use sre_agent_workshop.Exec.Yields.{Yields, Yields-then, Yields-pure}
use sre_agent_workshop.Exec.Triple.{
  Triple-any, Triple-ok, Ends, Triple, Triple-pure, Triple-raise, Triple-if, Triple-bind,
}
use sre_agent_workshop.Json.{Fields}
use sre_agent_workshop.Tools.Machine.{Machine}
use sre_agent_workshop.Cohort.Model.{Item}
use sre_agent_workshop.Cohort.Access.{
  is_assignment, keep, is_empty, assignee, iterate, role_assignments, await_assignment,
  ensure_role_assignment,
}

module _ (m : Machine) (item : Item) (scope role_id : String) where
  open m use {World, sleep}

  -- The world is the one behind a listing that has shown an assignment with this scope and role.
  pub record IsGranted (w : World) : Type 0 where
    pub before : World
    pub assignment : Fields
    pub others : List Fields
    pub listed : role_assignments m item scope role_id before ≡ (ok (assignment ∷ others), w)
    pub matches : is_assignment m scope role_id assignment ≡ true

  keep-head :
      (ds : List Fields) (d : Fields) (rest : List Fields)
      → keep m (is_assignment m scope role_id) ds ≡ d ∷ rest
      → is_assignment m scope role_id d ≡ true
  keep-head [] d rest e = cc
  keep-head (x ∷ ds) d rest e = elim (Bool-cases (is_assignment m scope role_id x)) [
    | inl c ↦ kept x (keep m (is_assignment m scope role_id) ds) c (rw c at e)
    | inr c ↦ keep-head ds d rest (rw c at e)
  ]
    where
      kept :
          (x : Fields) (xs : List Fields)
          → is_assignment m scope role_id x ≡ true
          → x ∷ xs ≡ d ∷ rest
          → is_assignment m scope role_id d ≡ true
      kept x xs c p = cc

  abbrev Listing : Result (List Fields) → World → Type 0
  Listing r w = (before : World) × (role_assignments m item scope role_id before ≡ (r, w))

  -- what is listed first satisfies the test
  role_assignments-Yields :
      Yields
        (λ found.
          (d : Fields) (rest : List Fields)
          → found ≡ d ∷ rest
          → is_assignment m scope role_id d ≡ true)
        (role_assignments m item scope role_id)
  unfolding role_assignments
  role_assignments-Yields = Yields-then _ (assignee m item) λ object_id.
      Yields-then _ _
        λ found. Yields-then _ (lift (iterate found)) λ ds. Yields-pure _ (keep-head ds)

  role_assignments-Listing :
      Triple
        (λ _. Unit)
        (role_assignments m item scope role_id)
        (λ ds. Listing (ok ds))
        (λ _ _. Unit)
  role_assignments-Listing = record {
    at = λ w _.
        listing w (role_assignments m item scope role_id w).0
          (role_assignments m item scope role_id w).1 refl;
  }
    where
      listing :
          (before : World) (r : Result (List Fields)) (w : World)
          → role_assignments m item scope role_id before ≡ (r, w)
          → Ends (λ ds. Listing (ok ds)) (λ _ _. Unit) (r, w)
      listing before (ok ds) w e = (before, e)
      listing before (err x) w e = tt

  seen :
      (found : List Fields) (w : World)
      → is_empty m found ≡ false
      → Listing (ok found) w
      → IsGranted w
  seen [] w e l = cc
  seen (d ∷ rest) w e (before, l) = record {
    before = before;
    assignment = d;
    others = rest;
    listed = l;
    matches = (role_assignments-Yields).at before (d ∷ rest) (ap (λ x. x.0) l) d rest refl;
  }

  await_assignment-IsGranted :
      (n : ℕ) (role_name : String)
      → Triple
          (λ _. Unit)
          (await_assignment m n item scope role_id role_name)
          (λ _. IsGranted)
          (λ _ _. Unit)
  unfolding await_assignment
  await_assignment-IsGranted zero role_name = Triple-raise _ (λ _ _. tt)
  await_assignment-IsGranted (suc n) role_name =
      Triple-bind (λ ds. Listing (ok ds)) _ _ role_assignments-Listing
        λ found.
          Triple-if (is_empty m found) _ _
            (λ _.
              Triple-bind (λ _ _. Unit) _ _ (Triple-any _)
                λ _. await_assignment-IsGranted n role_name)
            (λ e. Triple-pure tt λ w l. seen found w e l)

  ensured :
      (role_name : String)
      → Triple
          (λ _. Unit)
          (ensure_role_assignment m item scope role_id role_name)
          (λ _. IsGranted)
          (λ _ _. Unit)
  unfolding ensure_role_assignment
  ensured role_name =
      Triple-bind (λ ds. Listing (ok ds)) _ _ role_assignments-Listing
        λ found.
          Triple-if (is_empty m found) _ _
            (λ _.
              Triple-bind (λ _ _. Unit) _ _ (Triple-any _)
                λ _. await_assignment-IsGranted 6 role_name)
            (λ e. Triple-pure tt λ w l. seen found w e l)

-- Where `ensure_role_assignment` returns, the last thing it has done is to list the assignments of
-- the participant, and one of them has exactly this scope, up to case, and this role; it raises
-- otherwise.
pub ensure_role_assignment-IsGranted :
    (m : Machine) (item : Item) (scope role_id role_name : String) (w : m.World)
    → (ensure_role_assignment m item scope role_id role_name w).0 ≡ ok tt
    → IsGranted m item scope role_id (ensure_role_assignment m item scope role_id role_name w).1
ensure_role_assignment-IsGranted m item scope role_id role_name w e =
    Triple-ok (ensured m item scope role_id role_name) w tt tt e
