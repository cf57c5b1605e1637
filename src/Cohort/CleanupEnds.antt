-- ===== src/Cohort/CleanupEnds.antt =====
-- The clean-up of scripts/cohort.py on a machine whose clock runs.
use sre_agent_workshop.Prelude.{
  ℕ, zero, suc, ◌+◌, ◌*◌, ◌≤◌, ◌≡◌, ◌≢◌, ltb, ltb→lt, Bool, true, false, Option, none, some, String,
  arith,
}
use sre_agent_workshop.Prelude.Text.{◌<>◌}
use sre_agent_workshop.Exec.{Exec, err, diverged, pure, ◌>>=◌}
use sre_agent_workshop.Exec.Triple.{Triple, Triple-pure, Triple-raise, Triple-if, Triple-bind}
use sre_agent_workshop.Json.{
  is_falsy, Value, null, boolean, int, float, text, array, object, nil, cons, get,
}
use sre_agent_workshop.Tools.Machine.{Machine}
use sre_agent_workshop.Tools.Steady.{
  Since, Sane, Steady, IsSteady, pure-Steady, raise-Steady, bind-Steady, lift-Steady, az-Steady,
}
use sre_agent_workshop.Tools.Removal.{remove_monitoring_contributor-Steady}
use sre_agent_workshop.Cohort.Model.{Item}
use sre_agent_workshop.Cohort.Access.{is_child_of, resource_group_scope}
use sre_agent_workshop.Cohort.Cleanup.{
  invalid_principal, is_false, look_again, await_deletion, group_exists, group_show, group_delete,
  delete_group, delete_checked, delete_target, by_existence, tags_of, tags_in, no_tags, tags_match,
  remove_principal, sre_agent_runtime_principal, principal_in, principal_of_agent, identity_of,
  one_identity, valid_principal,
}

abbrev step : ℕ
step = 15 * 1_000_000_000

module _ (m : Machine) (steady : IsSteady m) (item : Item) where
  open m use {World, monotonic, sleep}
  open steady use {now}

  group_exists-Steady : (k : ℕ) → Steady now k (group_exists m item)
  unfolding group_exists
  group_exists-Steady k = az-Steady m steady k _

  -- the rest of a round behind its test, and the rounds behind it
  look-Sane :
      (t : ℕ) (next : Exec World (Unit {0}))
      → Triple (Since now (t + step)) next (λ _ _. Unit) Sane
      → Triple
          (Since now t)
          (group_exists m item >>= λ exists. look_again m next (is_false exists))
          (λ _ _. Unit)
          Sane
  look-Sane t next k =
      Triple-bind (λ _. Since now t) _ _ (group_exists-Steady t) λ exists. again (is_false exists)
    where
      again : (gone : Bool) → Triple (Since now t) (look_again m next gone) (λ _ _. Unit) Sane
      again true = Triple-pure tt λ w p. tt
      again false = Triple-bind (λ _. Since now (t + step)) _ _ (steady.sleep_on t step) λ _. k

  over : (k t deadline : ℕ) → ltb t deadline ≡ true → k ≤ t → deadline ≤ k + step * 0 → ⊥
  over k t deadline early kt h = omega (arith, ltb→lt t deadline early)

  -- With a round for every step up to the deadline, and one more, the wait ends.
  await_deletion-Sane :
      (fuel k deadline : ℕ)
      → deadline ≤ k + step * fuel
      → Triple (Since now k) (await_deletion m (suc fuel) item deadline) (λ _ _. Unit) Sane
  unfolding await_deletion
  await_deletion-Sane zero k deadline h =
      Triple-bind (λ t w. (k ≤ t) × (t ≤ now w)) _ _ (steady.clock_on k)
        λ t.
          Triple-if (ltb t deadline) _ _
            (λ early. record { at = λ w p. absurd (over k t deadline early p.0 h) })
            λ _. Triple-raise _ λ w p e. cc
  await_deletion-Sane (suc fuel) k deadline h =
      Triple-bind (λ t w. (k ≤ t) × (t ≤ now w)) _ _ (steady.clock_on k)
        λ t.
          Triple-if (ltb t deadline) _ _
            (λ early. record {
              at = λ w p.
                  (look-Sane t (await_deletion m (suc fuel) item deadline)
                      (await_deletion-Sane fuel (t + step) deadline (further t p.0))).at
                    w p.1;
            })
            λ _. Triple-raise _ λ w p e. cc
    where
      further : (t : ℕ) → k ≤ t → deadline ≤ (t + step) + step * fuel
      further t kt = omega (arith, h)

  abbrev child_test : String → Bool
  child_test id =
      is_child_of m
        (resource_group_scope item
          <> "/providers/Microsoft.ManagedIdentity/userAssignedIdentities/")
        id

  module _ (k : ℕ) where
    identity_of-Steady : (v : Value) → Steady now k (identity_of m v)
    identity_of-Steady null = raise-Steady now k _ λ e. cc
    identity_of-Steady (boolean b) = raise-Steady now k _ λ e. cc
    identity_of-Steady (int i) = raise-Steady now k _ λ e. cc
    identity_of-Steady (float f) = raise-Steady now k _ λ e. cc
    identity_of-Steady (text s) = raise-Steady now k _ λ e. cc
    identity_of-Steady (array items) = raise-Steady now k _ λ e. cc
    identity_of-Steady (object d) = pure-Steady now k _

    one_identity-Steady : (o : Option String) → Steady now k (one_identity m item o)
    one_identity-Steady none = raise-Steady now k _ λ e. cc
    one_identity-Steady (some id) =
        Triple-if (child_test id) _ _ (λ _. pure-Steady now k _) λ _. raise-Steady now k _ λ e. cc

    valid_principal-Steady : (o : Option Value) → Steady now k (valid_principal m item o)
    valid_principal-Steady none = raise-Steady now k _ λ e. cc
    valid_principal-Steady (some null) = raise-Steady now k _ λ e. cc
    valid_principal-Steady (some (text s)) = valid (m.uuid s)
      where
        valid :
            (o : Option String)
            → Steady now k (elim o [ none ↦ invalid_principal m item | some _ ↦ pure s ])
        valid none = raise-Steady now k _ λ e. cc
        valid (some u) = pure-Steady now k _
    valid_principal-Steady (some (boolean b)) = raise-Steady now k _ λ e. cc
    valid_principal-Steady (some (int i)) = raise-Steady now k _ λ e. cc
    valid_principal-Steady (some (float f)) = raise-Steady now k _ λ e. cc
    valid_principal-Steady (some (array items)) = raise-Steady now k _ λ e. cc
    valid_principal-Steady (some (object d)) = raise-Steady now k _ λ e. cc

    principal_of_agent-Steady : (agent : Value) → Steady now k (principal_of_agent m item agent)
    unfolding principal_of_agent
    principal_of_agent-Steady agent = bind-Steady now k _ _ (identity_of-Steady agent) λ identity.
        bind-Steady now k _ _ (one_identity-Steady _)
          λ id. bind-Steady now k _ _ (az-Steady m steady k _) λ document. valid_principal-Steady _

    principal_in-Steady : (v : Value) → Steady now k (principal_in m item v)
    principal_in-Steady null = raise-Steady now k _ λ e. cc
    principal_in-Steady (boolean b) = raise-Steady now k _ λ e. cc
    principal_in-Steady (int i) = raise-Steady now k _ λ e. cc
    principal_in-Steady (float f) = raise-Steady now k _ λ e. cc
    principal_in-Steady (text s) = raise-Steady now k _ λ e. cc
    principal_in-Steady (object d) = raise-Steady now k _ λ e. cc
    principal_in-Steady (array nil) = pure-Steady now k none
    principal_in-Steady (array (cons agent nil)) =
        bind-Steady now k _ _ (principal_of_agent-Steady agent)
          λ found. pure-Steady now k (some found)
    principal_in-Steady (array (cons a (cons b items))) = raise-Steady now k _ λ e. cc

    principal-Steady : Steady now k (sre_agent_runtime_principal m item)
    unfolding sre_agent_runtime_principal
    principal-Steady =
        bind-Steady now k _ _ (az-Steady m steady k _) λ agents. principal_in-Steady agents

    remove_principal-Steady : (o : Option String) → Steady now k (remove_principal m item o)
    remove_principal-Steady none = pure-Steady now k tt
    remove_principal-Steady (some String.[]) = pure-Steady now k tt
    remove_principal-Steady (some (String.◌∷◌ c s)) =
        remove_monitoring_contributor-Steady m steady k _

    group_delete-Steady : Steady now k (group_delete m item)
    unfolding group_delete
    group_delete-Steady = az-Steady m steady k _

    group_show-Steady : Steady now k (group_show m item)
    unfolding group_show
    group_show-Steady = az-Steady m steady k _

    delete_group-Sane : Triple (Since now k) (delete_group m item) (λ _ _. Unit) Sane
    unfolding delete_group
    delete_group-Sane =
        Triple-bind (λ _. Since now k) _ _ principal-Steady
          λ principal.
            Triple-bind (λ _. Since now k) _ _ (remove_principal-Steady principal)
              λ _.
                Triple-bind (λ _. Since now k) _ _ group_delete-Steady
                  λ _.
                    Triple-bind (λ t w. (k ≤ t) × (t ≤ now w)) _ _ (steady.clock_on k)
                      λ t. record {
                        at = λ w p.
                            (await_deletion-Sane 80 t (t + 1_200 * 1_000_000_000) (omega arith)).at
                              w p.1;
                      }

    no_tags_ends : (b : Bool) → no_tags b ≢ err diverged
    no_tags_ends true e = cc
    no_tags_ends false e = cc

    tags_in_ends : (o : Option Value) → tags_in o ≢ err diverged
    tags_in_ends none e = cc
    tags_in_ends (some (object d)) e = cc
    tags_in_ends (some null) e = cc
    tags_in_ends (some (boolean b)) e = no_tags_ends (is_falsy (boolean b)) e
    tags_in_ends (some (int i)) e = no_tags_ends (is_falsy (int i)) e
    tags_in_ends (some (float f)) e = no_tags_ends (is_falsy (float f)) e
    tags_in_ends (some (text s)) e = no_tags_ends (is_falsy (text s)) e
    tags_in_ends (some (array items)) e = no_tags_ends (is_falsy (array items)) e

    tags_of_ends : (v : Value) → tags_of v ≢ err diverged
    tags_of_ends (object d) e = tags_in_ends (get "tags" d) e
    tags_of_ends null e = cc
    tags_of_ends (boolean b) e = cc
    tags_of_ends (int i) e = cc
    tags_of_ends (float f) e = cc
    tags_of_ends (text s) e = cc
    tags_of_ends (array items) e = cc

    delete_checked-Sane : Triple (Since now k) (delete_checked m item) (λ _ _. Unit) Sane
    unfolding delete_checked
    delete_checked-Sane =
        Triple-bind (λ _. Since now k) _ _ group_show-Steady
          λ group.
            Triple-bind (λ _. Since now k) _ _
              (lift-Steady now k (tags_of group) (tags_of_ends group))
              λ tags.
                Triple-if (tags_match item tags) _ _ (λ _. delete_group-Sane)
                  λ _. Triple-raise _ λ w p e. cc

    by_existence-Sane :
        (v : Value) → Triple (Since now k) (by_existence m item v) (λ _ _. Unit) Sane
    by_existence-Sane (boolean true) = delete_checked-Sane
    by_existence-Sane (boolean false) = Triple-pure tt λ w p. tt
    by_existence-Sane null = Triple-raise _ λ w p e. cc
    by_existence-Sane (int i) = Triple-raise _ λ w p e. cc
    by_existence-Sane (float f) = Triple-raise _ λ w p e. cc
    by_existence-Sane (text s) = Triple-raise _ λ w p e. cc
    by_existence-Sane (array items) = Triple-raise _ λ w p e. cc
    by_existence-Sane (object d) = Triple-raise _ λ w p e. cc

    pub delete_target-Sane : Triple (Since now k) (delete_target m item) (λ _ _. Unit) Sane
    unfolding delete_target
    delete_target-Sane =
        Triple-bind (λ _. Since now k) _ _ (group_exists-Steady k)
          λ exists. by_existence-Sane exists
