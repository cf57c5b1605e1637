-- ===== src/Cohort/CleanupResults.antt =====
-- What the clean-up of scripts/cohort.py promises of a participant's resource group.
use native.Mathlib.Nat.{le_refl}
use sre_agent_workshop.Prelude.{
  ltb, ℕ, zero, suc, ◌≡◌, ◌≢◌, refl, Bool, true, false, none, some, String,
}
use sre_agent_workshop.Exec.{
  Exec, Error, Result, ok, err, diverged, message, pure, lift, continue, ◌>>◌,
}
use sre_agent_workshop.Exec.Triple.{
  Triple-try, Ends, Triple, Triple-pure, Triple-raise, Triple-if, Triple-bind, Triple-any,
}
use sre_agent_workshop.Json.{Value, null, boolean, int, float, text, array, object}
use sre_agent_workshop.Tools.Machine.{Machine}
use sre_agent_workshop.Tools.Steady.{Sane, IsSteady}
use sre_agent_workshop.Cohort.Model.{Item, Deployment, Validation, Rbac, Status}
use sre_agent_workshop.Cohort.Store.{Store, item_at, change}
use sre_agent_workshop.Cohort.Track.{outside-Result, Tracks, get_elem?-modify_self}
use sre_agent_workshop.Cohort.Cleanup.{
  group_delete, remove_principal, sre_agent_runtime_principal, refuse, is_false, look_again,
  await_deletion, deletion_rounds, group_exists, group_show, delete_group, delete_checked,
  delete_target, by_existence, tags_of, tags_match, cleaned, removed, cleanup_failed, is_tolerated,
  set_item, cleanup_target, try_target,
}
use sre_agent_workshop.Cohort.CleanupEnds.{delete_target-Sane}

err-inj : {A : Type 0} {x y : Error} → ◌≡◌ {A = Result A} (err x) (err y) → x ≡ y
err-inj e = cc

module _ (m : Machine) where
  open m use {World, monotonic, sleep}

  -- On a machine whose clock runs, the clean-up of a participant comes to an end: it never uses up
  -- the rounds of the model, whatever Azure answers.
  pub cleanup_target_ends :
      IsSteady m
      → (i : ℕ) (item : Item) (s : Store World) → (cleanup_target m i item s).0 ≢ err diverged
  unfolding cleanup_target
  cleanup_target_ends steady i item s e =
      ended (delete_target m item s.world).0 (delete_target m item s.world).1
        ((delete_target-Sane m steady item (steady.now s.world)).at s.world (le_refl _)) e
    where
      ended :
          (r : Result (Unit {0})) (w : World)
          → Ends {A = Unit {0}} (λ _ _. Unit) Sane (r, w)
          → (continue {W = Store World} r (λ _. set_item m i cleaned) (record s { world = w })).0
            ≢ err diverged
      ended (ok a) w p e = cc
      ended (err x) w p e = p (err-inj e)

  -- The last thing that a clean-up has done is to ask for the group, and it was not there.
  pub record IsGone (item : Item) (w : World) : Type 0 where
    pub before : World
    pub absent : group_exists m item before ≡ (ok (boolean false), w)

  module _ (item : Item) where
    gone :
        (before : World) (v : Value) (w : World)
        → group_exists m item before ≡ (ok v, w)
        → is_false v ≡ true
        → IsGone item w
    gone before (boolean false) w e f = record { before = before; absent = e }
    gone before (boolean true) w e f = cc
    gone before null w e f = cc
    gone before (int i) w e f = cc
    gone before (float x) w e f = cc
    gone before (text s) w e f = cc
    gone before (array items) w e f = cc
    gone before (object d) w e f = cc

    abbrev Asked : Value → World → Type 0
    Asked v w = (before : World) × (group_exists m item before ≡ (ok v, w))

    group_exists-Asked : Triple (λ _. Unit) (group_exists m item) Asked (λ _ _. Unit)
    group_exists-Asked = record {
      at = λ w _. asked w (group_exists m item w).0 (group_exists m item w).1 refl;
    }
      where
        asked :
            (before : World) (r : Result Value) (w : World)
            → group_exists m item before ≡ (r, w)
            → Ends Asked (λ _ _. Unit) (r, w)
        asked before (ok v) w e = (before, e)
        asked before (err x) w e = tt

    looked-IsGone :
        (next : Exec World (Unit {0})) (exists : Value) (b : Bool)
        → is_false exists ≡ b
        → Triple (λ _. Unit) next (λ _. IsGone item) (λ _ _. Unit)
        → Triple (Asked exists) (look_again m next b) (λ _. IsGone item) (λ _ _. Unit)
    looked-IsGone next exists true f k = Triple-pure tt λ w (before, e). gone before exists w e f
    looked-IsGone next exists false f k = Triple-bind (λ _ _. Unit) _ _ (Triple-any _) λ _. k

    await_deletion-IsGone :
        (fuel deadline : ℕ)
        → Triple (λ _. Unit) (await_deletion m fuel item deadline) (λ _. IsGone item) (λ _ _. Unit)
    unfolding await_deletion
    await_deletion-IsGone zero deadline = Triple-raise _ λ _ _. tt
    await_deletion-IsGone (suc fuel) deadline =
        Triple-bind (λ _ _. Unit) _ _ (Triple-any _)
          λ t.
            Triple-if (ltb t deadline) _ _
              (λ _. Triple-bind Asked _ _ group_exists-Asked λ exists.
                looked-IsGone (await_deletion m fuel item deadline) exists (is_false exists) refl
                  (await_deletion-IsGone fuel deadline))
              λ _. Triple-raise _ λ _ _. tt

    delete_group-IsGone : Triple (λ _. Unit) (delete_group m item) (λ _. IsGone item) (λ _ _. Unit)
    unfolding delete_group
    delete_group-IsGone =
        Triple-bind (λ _ _. Unit) (sre_agent_runtime_principal m item) _ (Triple-any _)
          λ principal.
            Triple-bind (λ _ _. Unit) (remove_principal m item principal) _ (Triple-any _)
              λ _.
                Triple-bind (λ _ _. Unit) (group_delete m item) _ (Triple-any _)
                  λ _.
                    Triple-bind (λ _ _. Unit) monotonic _ (Triple-any _)
                      λ t. await_deletion-IsGone deletion_rounds _

    delete_checked-IsGone :
        Triple (λ _. Unit) (delete_checked m item) (λ _. IsGone item) (λ _ _. Unit)
    unfolding delete_checked
    delete_checked-IsGone =
        Triple-bind (λ _ _. Unit) (group_show m item) _ (Triple-any _)
          λ group.
            Triple-bind (λ _ _. Unit) (lift (tags_of group)) _ (Triple-any _)
              λ tags.
                Triple-if (tags_match item tags) (delete_group m item) (refuse m item)
                  (λ _. delete_group-IsGone) (λ _. Triple-raise _ λ _ _. tt)

    by_existence-IsGone :
        (v : Value) → Triple (Asked v) (by_existence m item v) (λ _. IsGone item) (λ _ _. Unit)
    by_existence-IsGone (boolean true) = record { at = λ w p. (delete_checked-IsGone).at w tt }
    by_existence-IsGone (boolean false) =
        Triple-pure tt λ w (before, e). record { before = before; absent = e }
    by_existence-IsGone null = Triple-raise _ λ _ _. tt
    by_existence-IsGone (int i) = Triple-raise _ λ _ _. tt
    by_existence-IsGone (float f) = Triple-raise _ λ _ _. tt
    by_existence-IsGone (text s) = Triple-raise _ λ _ _. tt
    by_existence-IsGone (array items) = Triple-raise _ λ _ _. tt
    by_existence-IsGone (object d) = Triple-raise _ λ _ _. tt

    pub delete_target-IsGone :
        Triple (λ _. Unit) (delete_target m item) (λ _. IsGone item) (λ _ _. Unit)
    unfolding delete_target
    delete_target-IsGone = Triple-bind Asked _ _ group_exists-Asked by_existence-IsGone

-- What `cleanup` writes into an item whose group is gone.
pub record IsCleared (item : Item) : Type 0 where
  pub status : item.status ≡ Status.cleaned
  pub deployment : item.deployment ≡ Deployment.removed
  pub validation : item.validation ≡ Validation.not_applicable
  pub access : item.rbac ≡ Rbac.removed
  pub clean : item.error ≡ none

-- and into one whose clean-up has failed
abbrev pub NotCleared : Item → Type 0
NotCleared item = (item.status ≡ Status.cleanup_failed) × ((why : String) × (item.error ≡ some why))

module _ (m : Machine) (i : ℕ) (before : Item) where
  open m use {World}

  abbrev pub Outcome : Bool → Store World → Type 0
  Outcome true s = Tracks i NotCleared s
  Outcome false s = Tracks i IsCleared s × IsGone m before s.world

  tracked :
      (f : Item → Item) (P : Item → Type 0) (item : Item) (s : Store World)
      → item_at i s ≡ some item
      → P (f item)
      → Tracks i P (change m i f s)
  tracked f P item s e p = (f item, get_elem?-modify_self s.state.participants i f item e, p)

  abbrev Present : Store World → Type 0
  Present s = Tracks i (λ _. Unit) s

  target_body :
      Triple Present
        (do cleanup_target m i before; set_item m i removed; pure false)
        Outcome
        (λ _. Present)
  unfolding cleanup_target
  target_body =
      Triple-bind
        (λ _ s. Tracks i (λ item. item.status ≡ Status.cleaned) s × IsGone m before s.world) _ _
        (Triple-bind (λ _ s. Present s × IsGone m before s.world) _ _
          (outside-Result m Present (λ _. IsGone m before) (λ s w p. p) (delete_target m before)
            (delete_target-IsGone m before))
          λ _. record {
            at = λ s ((item, e, _), g).
                (tracked cleaned (λ item. item.status ≡ Status.cleaned) item s e refl, g);
          })
        λ _. record {
          at = λ s ((item, e, p), g). (
            tracked removed IsCleared item s e (record {
              status = p;
              deployment = refl;
              validation = refl;
              access = refl;
              clean = refl;
            }),
            g,
          );
        }

  -- From a state that has the item at this position, the clean-up of one target ends with the item
  -- cleared, when the last question to Azure has found the group gone; or with the item's clean-up
  -- marked as failed and its error text; or it raises an error that is not of the classes that
  -- `cleanup` catches.
  pub try_target-Ends :
      (s : Store World)
      → item_at i s ≡ some before
      → Ends Outcome (λ e _. is_tolerated e ≡ false) (try_target m i before s)
  unfolding try_target cleanup_target
  try_target-Ends s e =
      (Triple-try Present _ is_tolerated _ target_body
          (λ x c. record {
            at = λ s (item, e, _).
                tracked (cleanup_failed (message x)) NotCleared item s e (refl, (message x, refl));
          })
          (λ x c w p. c)).at
        s (before, e, tt)
