-- ===== src/Cohort/Track.antt =====
-- How the actions on the store change one item, and what they leave alone.
use sre_agent_workshop.Prelude.{
  ℕ, zero, suc, ◌≡◌, ◌≢◌, refl, ap, some, List, [], ◌∷◌, get_elem?, modify, arith,
}
use sre_agent_workshop.Exec.{Exec, Result, ok, err}
use sre_agent_workshop.Exec.Triple.{Triple-result, Triple-error, Ends, Triple}
use sre_agent_workshop.Tools.Machine.{Machine}
use sre_agent_workshop.Cohort.Model.{Item}
use sre_agent_workshop.Cohort.Store.{
  Store, outside, item_at, change, safe_roster, save_state, write_state_file, write_roster_file,
  update_item,
}

module _ {ℓ} {A : Type ℓ} where
  pub get_elem?-modify_self :
      (xs : List A) (i : ℕ) (f : A → A) (a : A)
      → get_elem? xs i ≡ some a
      → get_elem? (modify xs i f) i ≡ some (f a)
  get_elem?-modify_self [] i f a e = cc
  get_elem?-modify_self (x ∷ xs) zero f a e = cc
  get_elem?-modify_self (x ∷ xs) (suc i) f a e = get_elem?-modify_self xs i f a e

  pub get_elem?-modify_ne :
      (xs : List A) (i j : ℕ) (f : A → A) → i ≢ j → get_elem? (modify xs i f) j ≡ get_elem? xs j
  get_elem?-modify_ne [] i j f ne = refl
  get_elem?-modify_ne (x ∷ xs) zero zero f ne = absurd (ne refl)
  get_elem?-modify_ne (x ∷ xs) zero (suc j) f ne = refl
  get_elem?-modify_ne (x ∷ xs) (suc i) zero f ne = refl
  get_elem?-modify_ne (x ∷ xs) (suc i) (suc j) f ne =
      get_elem?-modify_ne xs i j f (λ e. ne (ap suc e))

-- The item at a position, with a property.
abbrev pub Tracks : {W : Type 0} → ℕ → (Item → Type 0) → Store W → Type 0
Tracks i P s = (item : Item) × (item_at i s ≡ some item) × P item

-- Both files hold what is in memory.
pub record IsSaved {W : Type 0} (s : Store W) : Type 0 where
  pub state_saved : s.state_file ≡ some s.state
  pub roster_saved : s.roster_file ≡ some (safe_roster s.state)

module _ (m : Machine) where
  open m use {World}

  state-write_state_file : (s : Store World) → (write_state_file m s).1.state ≡ s.state
  unfolding write_state_file
  state-write_state_file s = ground arith

  -- Writing the files leaves the state in memory as it is.
  pub state-save_state : (s : Store World) → (save_state m s).1.state ≡ s.state
  unfolding save_state write_state_file write_roster_file
  state-save_state s = ground arith

  pub save_state-IsSaved :
      (s : Store World) → (save_state m s).0 ≡ ok tt → IsSaved (save_state m s).1
  unfolding save_state write_state_file write_roster_file
  save_state-IsSaved s e = ground arith

  -- an action of the world outside, with a property of the rest of the store
  pub outside-Triple :
      {A : Type 0} (I : Store World → Type 0)
      → ((s : Store World) (w : World) → I s → I (record s { world = w }))
      → (a : Exec World A) → Triple I (outside a) (λ _. I) (λ _. I)
  outside-Triple {A} I keep a = record { at = λ s p. ended (a s.world).0 s (a s.world).1 p }
    where
      ended :
          (r : Result A) (s : Store World) (w : World)
          → I s
          → Ends (λ _. I) (λ _. I) (r, record s { world = w })
      ended (ok b) s w p = keep s w p
      ended (err e) s w p = keep s w p

  -- and what it has done outside
  pub outside-Result :
      {A : Type 0} (I : Store World → Type 0) (Q : A → World → Type 0)
      → ((s : Store World) (w : World) → I s → I (record s { world = w }))
      → (a : Exec World A) → Triple (λ _. Unit) a Q (λ _ _. Unit)
      → Triple I (outside a) (λ x s. I s × Q x s.world) (λ _. I)
  outside-Result {A} I Q keep a t = record {
    at = λ s p. ended (a s.world).0 s (a s.world).1 p (t.at s.world tt);
  }
    where
      ended :
          (r : Result A) (s : Store World) (w : World)
          → I s
          → Ends Q (λ _ _. Unit) (r, w)
          → Ends (λ x s. I s × Q x s.world) (λ _. I) (r, record s { world = w })
      ended (ok b) s w p q = (keep s w p, q)
      ended (err e) s w p q = keep s w p

  pub outside-Tracks :
      {A : Type 0} (i : ℕ) (P E : Item → Type 0) (a : Exec World A)
      → ((item : Item) → P item → E item)
      → Triple (Tracks i P) (outside a) (λ _. Tracks i P) (λ _. Tracks i E)
  outside-Tracks i P E a k =
      Triple-error (outside-Triple (Tracks i P) (λ s w p. p) a) λ e s p. (p.0, p.1, k p.0 p.2)

  pub state-update_item :
      (i : ℕ) (f : Item → Item) (s : Store World)
      → (update_item m i f s).1.state ≡ (change m i f s).state
  unfolding update_item
  state-update_item i f s = state-save_state (change m i f s)

  ended-Tracks :
      (i : ℕ) (Q E : Item → Type 0) (r : Result (Unit {0})) (s : Store World)
      → Tracks i Q s
      → ((item : Item) → Q item → E item)
      → (r ≡ ok tt → IsSaved s)
      → Ends (λ _ s. Tracks i Q s × IsSaved s) (λ _. Tracks i E) (r, s)
  ended-Tracks i Q E (ok tt) s p k h = (p, h refl)
  ended-Tracks i Q E (err e) s p k h = (p.0, p.1, k p.0 p.2)

  -- `update_item` changes the item, whether or not the files could be written; where it has
  -- returned, both hold the change.
  pub update_item-Saves :
      (i : ℕ) (f : Item → Item) (P Q E : Item → Type 0)
      → ((item : Item) → P item → Q (f item))
      → ((item : Item) → Q item → E item)
      → Triple (Tracks i P) (update_item m i f) (λ _ s. Tracks i Q s × IsSaved s) (λ _. Tracks i E)
  unfolding update_item
  update_item-Saves i f P Q E k l = record {
    at = λ s p.
        ended-Tracks i Q E (update_item m i f s).0 (update_item m i f s).1
          (
            f p.0,
            rw (state-update_item i f s) (get_elem?-modify_self s.state.participants i f p.0 p.1),
            k p.0 p.2,
          )
          l (save_state-IsSaved (change m i f s));
  }

  pub update_item-Tracks :
      (i : ℕ) (f : Item → Item) (P Q E : Item → Type 0)
      → ((item : Item) → P item → Q (f item))
      → ((item : Item) → Q item → E item)
      → Triple (Tracks i P) (update_item m i f) (λ _. Tracks i Q) (λ _. Tracks i E)
  update_item-Tracks i f P Q E k l = Triple-result (update_item-Saves i f P Q E k l) λ _ s p. p.0

  -- The same for an action of the world outside, which is known to have returned this.
  pub outside-Ran :
      {A : Type 0} (i : ℕ) (P E : Item → Type 0) (a : Exec World A)
      → ((item : Item) → P item → E item)
      → Triple
          (Tracks i P)
          (outside a)
          (λ x. Tracks i (λ item. P item × ((w : World) × ((a w).0 ≡ ok x))))
          (λ _. Tracks i E)
  outside-Ran {A} i P E a k = record { at = λ s p. ended s p (a s.world).0 (a s.world).1 refl }
    where
      ended :
          (s : Store World)
          → Tracks i P s
          → (r : Result A) (w : World) → (a s.world).0 ≡ r
          → Ends
              (λ x. Tracks i (λ item. P item × ((w : World) × ((a w).0 ≡ ok x))))
              (λ _. Tracks i E)
              (r, record s { world = w })
      ended s p (ok x) w e = (p.0, p.1, (p.2, (s.world, e)))
      ended s p (err x) w e = (p.0, p.1, k p.0 p.2)

  -- `update_item` with what holds of the changed item where it returns, and where it raises.
  pub update_item-Ends :
      (i : ℕ) (f : Item → Item) (P Q E : Item → Type 0)
      → ((item : Item) → P item → Q (f item))
      → ((item : Item) → P item → E (f item))
      → Triple (Tracks i P) (update_item m i f) (λ _. Tracks i Q) (λ _. Tracks i E)
  update_item-Ends i f P Q E k l =
      Triple-result
        (update_item-Tracks i f P (λ item. Q item × E item) E (λ item p. (k item p, l item p))
          λ item p. p.1)
        λ _ s p. (p.0, p.1, p.2.0)
