-- ===== src/Cohort/Objects.antt =====
-- What `resolve_users` of scripts/cohort.py has recorded: an Entra object of its own for each
-- participant, and the one that was recorded before.
use sre_agent_workshop.Prelude.{
  ◌-◌, ◌⊎◌, inl, inr, ℕ, suc, ◌+◌, ◌<◌, ◌≤◌, ◌≡◌, ◌≢◌, refl, ap, sym, ◌∙◌, true, false, not, Option,
  none, some, List, [], ◌∷◌, String, get_elem?, modify, arith, eq_iff,
}
use sre_agent_workshop.Prelude.Text.{one_of}
use sre_agent_workshop.Exec.{raise_if, Exec, Result, ok, err}
use sre_agent_workshop.Exec.Triple.{Ends, Triple, Triple-pure, Triple-bind, Triple-error, Triple-ok}
use sre_agent_workshop.Exec.Yields.{Yields, Yields-pure, Yields-then, Yields-bind, Yields-raise_if}
use sre_agent_workshop.Tools.Machine.{Machine}
use sre_agent_workshop.Cohort.Model.{Item}
use sre_agent_workshop.Json.{is_true}
use sre_agent_workshop.Cohort.Store.{Store, item_at}
use sre_agent_workshop.Cohort.Track.{outside-Result, get_elem?-modify_self, get_elem?-modify_ne}
use sre_agent_workshop.Cohort.Cleanup.{set_item}
use sre_agent_workshop.Cohort.Resolve.{entry, uuid_of}
use sre_agent_workshop.Cohort.Users.{
  identified, got, show_user, is_other, resolve_user, resolve_users_from, resolve_users,
}

-- The participants before this position have an object that has been seen, no two of them the same
-- one, and each of them the one that it had at first; the others are as at first.
record IsResolvedTo (n : ℕ) (seen : List String) (first s : List Item) : Type 0 where
  later : (j : ℕ) → n ≤ j → get_elem? s j ≡ get_elem? first j
  found :
      (j : ℕ) (a : Item)
      → j < n
      → get_elem? s j ≡ some a
      → (id : String) × (a.user_object_id ≡ some id) × (one_of id seen ≡ true)
  distinct :
      (j k : ℕ) (a b : Item)
      → j < k
      → k < n
      → get_elem? s j ≡ some a
      → get_elem? s k ≡ some b
      → a.user_object_id ≢ b.user_object_id
  kept :
      (j : ℕ) (a b : Item) (known : String)
      → j < n
      → get_elem? first j ≡ some b
      → get_elem? s j ≡ some a
      → b.user_object_id ≡ some known
      → a.user_object_id ≡ some known

-- Each participant has an object, no two of them the same one, and each of them the one that it had.
pub record IsIdentified (first s : List Item) : Type 0 where
  pub found :
      (j : ℕ) (a : Item) → get_elem? s j ≡ some a → (id : String) × (a.user_object_id ≡ some id)
  pub distinct :
      (j k : ℕ) (a b : Item)
      → j < k
      → get_elem? s j ≡ some a
      → get_elem? s k ≡ some b
      → a.user_object_id ≢ b.user_object_id
  pub kept :
      (j : ℕ) (a b : Item) (known : String)
      → get_elem? first j ≡ some b
      → get_elem? s j ≡ some a
      → b.user_object_id ≡ some known
      → a.user_object_id ≡ some known

some-same : {A : Type 0} {a b : A} → some a ≡ some b → a ≡ b
some-same e = cc

not_seen :
    (id other : String) (seen : List String)
    → one_of id seen ≡ false
    → one_of other seen ≡ true
    → other ≢ id
not_seen id other seen e f same = let g : one_of id seen ≡ true = rw same at f in cc

still_seen :
    (id other : String) (seen : List String)
    → one_of id seen ≡ true
    → one_of id (other ∷ seen) ≡ true
still_seen id other seen e = ground arith

first_seen : (id : String) (seen : List String) → one_of id (id ∷ seen) ≡ true
first_seen id seen = ground (arith, eq_iff id id)

same_known :
    (o : Option String) (id known : String) → is_other o id ≡ false → o ≡ some known → id ≡ known
same_known none id known e f = cc
same_known (some x) id known e f = ground (arith, eq_iff x id)

module _ (n : ℕ) (seen : List String) (first s : List Item) (item : Item) (id : String)
    (here : get_elem? s n ≡ some item) (new : one_of id seen ≡ false)
    (same : is_other item.user_object_id id ≡ false) (r : IsResolvedTo n seen first s) where
  abbrev next : List Item
  next = modify s n (identified id)

  self : get_elem? next n ≡ some (identified id item)
  self = get_elem?-modify_self s n (identified id) item here

  others : (j : ℕ) → n ≢ j → get_elem? next j ≡ get_elem? s j
  others j ne = get_elem?-modify_ne s n j (identified id) ne

  at_end : (a : Item) → get_elem? next n ≡ some a → a ≡ identified id item
  at_end a e = some-same (sym e ∙ self)

  before : (j : ℕ) (a : Item) → j < n → get_elem? next j ≡ some a → get_elem? s j ≡ some a
  before j a l e = sym (others j (λ eq. omega arith)) ∙ e

  last_or_before : (j : ℕ) → j < suc n → (j ≡ n) ⊎ (j < n)
  last_or_before j l = omega arith

  step_found :
      (j : ℕ) (a : Item)
      → j < suc n
      → get_elem? next j ≡ some a
      → (id' : String) × (a.user_object_id ≡ some id') × (one_of id' (id ∷ seen) ≡ true)
  step_found j a l e = elim (last_or_before j l) [
    | inl q ↦ (id, ap (λ x. x.user_object_id) (at_end a (rw q at e)), first_seen id seen)
    | inr q ↦ let f = r.found j a q (before j a q e) in (f.0, f.1, still_seen f.0 id seen f.2)
  ]

  step_distinct :
      (j k : ℕ) (a b : Item)
      → j < k
      → k < suc n
      → get_elem? next j ≡ some a
      → get_elem? next k ≡ some b
      → a.user_object_id ≢ b.user_object_id
  step_distinct j k a b l h ea eb = elim (last_or_before k h) [
    | inl q ↦
        let f = r.found j a (omega arith) (before j a (omega arith) ea) in
        let known : b.user_object_id ≡ some id =
          ap (λ x. x.user_object_id) (at_end b (rw q at eb)) in
        λ eq. not_seen id f.0 seen new f.2 (some-same (sym f.1 ∙ eq ∙ known))
    | inr q ↦ r.distinct j k a b l q (before j a (omega arith) ea) (before k b q eb)
  ]

  step_kept :
      (j : ℕ) (a b : Item) (known : String)
      → j < suc n
      → get_elem? first j ≡ some b
      → get_elem? next j ≡ some a
      → b.user_object_id ≡ some known
      → a.user_object_id ≡ some known
  step_kept j a b known l eb ea k = elim (last_or_before j l) [
    | inl q ↦
        let was : item ≡ b = some-same (sym here ∙ r.later n (omega arith) ∙ rw q at eb) in
        ap (λ x. x.user_object_id) (at_end a (rw q at ea))
        ∙ ap some (same_known item.user_object_id id known same (rw (← was) at k))
    | inr q ↦ r.kept j a b known q eb (before j a q ea) k
  ]

  step-IsResolvedTo : IsResolvedTo (suc n) (id ∷ seen) first next
  step-IsResolvedTo = record {
    later = λ j l. others j (λ eq. omega arith) ∙ r.later j (omega arith);
    found = step_found;
    distinct = step_distinct;
    kept = step_kept;
  }

module _ (m : Machine) where
  open m use {World}

  -- The object is none that has been seen, and the one that was known.
  resolve_user_lem :
      (item : Item) (seen : List String)
      → Yields
          (λ id. (one_of id seen ≡ false) × (is_other item.user_object_id id ≡ false))
          (resolve_user m item seen)
  unfolding resolve_user
  resolve_user_lem item seen = Yields-then _ (show_user m item) λ user.
      Yields-then _ (got m "accountEnabled" user) λ enabled.
        Yields-then _ (raise_if (not (is_true enabled)) _) λ _.
          Yields-then _ (entry m "id" user) λ raw_id. Yields-then _ (uuid_of m raw_id) λ id.
            Yields-bind _ (λ _. one_of id seen ≡ false) _ (Yields-raise_if (one_of id seen) _)
              λ _ new.
                Yields-bind _ (λ _. is_other item.user_object_id id ≡ false) _
                  (Yields-raise_if (is_other item.user_object_id id) _)
                  λ _ same. Yields-pure id (new, same)

  yields_triple :
      {A : Type 0} {P : A → Type 0} (a : Exec World A)
      → Yields P a
      → Triple (λ _. Unit) a (λ x _. P x) (λ _ _. Unit)
  yields_triple {A} {P} a y = record { at = λ w _. ended (a w).0 (a w).1 (y.at w) }
    where
      ended :
          (r : Result A) (w : World)
          → ((x : A) → r ≡ ok x → P x)
          → Ends {A = A} (λ x _. P x) (λ _ _. Unit) (r, w)
      ended (ok x) w y = y x refl
      ended (err e) w y = tt

  -- what is left to resolve
  abbrev Rest : ℕ → List Item → Store World → Type 0
  Rest n items s = (k : ℕ) → item_at (n + k) s ≡ get_elem? items k

  resolve_users_from_lem :
      (items : List Item) (n : ℕ) (seen : List String) (first : List Item)
      → Triple
          (λ s. Rest n items s × IsResolvedTo n seen first s.state.participants)
          (resolve_users_from m n seen items)
          (λ _ s. IsIdentified first s.state.participants)
          (λ _ _. Unit)
  unfolding resolve_users_from
  resolve_users_from_lem [] n seen first = Triple-pure tt (λ s (rest, r). record {
    found = λ j a e. let f = r.found j a (within s rest j a e) e in (f.0, f.1);
    distinct = λ j k a b l ea eb. r.distinct j k a b l (within s rest k b eb) ea eb;
    kept = λ j a b known eb ea. r.kept j a b known (within s rest j a ea) eb ea;
  })
    where
      beyond :
          (s : Store World) → Rest n [] s → (j : ℕ) (a : Item) → n ≤ j → item_at j s ≡ some a → ⊥
      beyond s rest j a l e =
          let sum : n + (j - n) ≡ j = omega arith in
          let gone : item_at j s ≡ none = rw sum at (rest (j - n)) in cc

      within : (s : Store World) → Rest n [] s → (j : ℕ) (a : Item) → item_at j s ≡ some a → j < n
      within s rest j a e = elim (split j) [ inl l ↦ l | inr l ↦ absurd (beyond s rest j a l e) ]
        where
          split : (j : ℕ) → (j < n) ⊎ (n ≤ j)
          split j = omega arith
  resolve_users_from_lem (item ∷ items) n seen first =
      Triple-bind
        (λ id s.
          (Rest n (item ∷ items) s × IsResolvedTo n seen first s.state.participants)
          × ((one_of id seen ≡ false) × (is_other item.user_object_id id ≡ false)))
        _ _
        (Triple-error
          (outside-Result m
            (λ s. Rest n (item ∷ items) s × IsResolvedTo n seen first s.state.participants)
            (λ id _. (one_of id seen ≡ false) × (is_other item.user_object_id id ≡ false))
            (λ s w p. p) (resolve_user m item seen) (yields_triple _ (resolve_user_lem item seen)))
          (λ _ _ _. tt))
        λ id.
          Triple-bind
            (λ _ s.
              Rest (n + 1) items s × IsResolvedTo (n + 1) (id ∷ seen) first s.state.participants)
            (set_item m n (identified id)) _
            (record {
              at = λ s ((rest, r), (new, same)).
                  let first_place : n + 0 ≡ n = omega arith in
                  let here : item_at n s ≡ some item = rw first_place at (rest 0) in
                  (
                    λ k.
                        let place : n + suc k ≡ n + 1 + k = omega arith in
                        get_elem?-modify_ne s.state.participants n (n + 1 + k) (identified id)
                          (λ eq. omega arith)
                        ∙ (rw place at (rest (suc k))),
                    let up : suc n ≡ n + 1 = omega arith in
                        rw up at (
                          step-IsResolvedTo n seen first s.state.participants item id here new same
                            r),
                  );
            })
            λ _. resolve_users_from_lem items (n + 1) (id ∷ seen) first

  -- Where `resolve_users` returns, each participant has the id of an Entra object, no two of them the
  -- same one, and a participant whose object was known before has that object still.
  pub resolve_users-IsIdentified :
      (s : Store World)
      → (resolve_users m s).0 ≡ ok tt
      → IsIdentified s.state.participants (resolve_users m s).1.state.participants
  unfolding resolve_users
  resolve_users-IsIdentified s e =
      Triple-ok (resolve_users_from_lem s.state.participants 0 [] s.state.participants) s
        (
          λ k. ap (get_elem? s.state.participants) (omega arith),
          record {
            later = λ j l. refl;
            found = λ j a l. absurd (omega arith);
            distinct = λ j k a b l h. absurd (omega arith);
            kept = λ j a b known l. absurd (omega arith);
          },
        )
        tt e
