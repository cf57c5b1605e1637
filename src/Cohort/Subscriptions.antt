-- ===== src/Cohort/Subscriptions.antt =====
-- What `resolve_subscriptions` of scripts/cohort.py has checked.
use sre_agent_workshop.Prelude.{
  ℕ, zero, suc, ◌+◌, ◌<◌, ◌≡◌, ◌≢◌, refl, ap, sym, ◌∙◌, Bool, true, false, not, ◌&&◌, some, List,
  [], ◌∷◌, String, length, get_elem?, arith, eq_iff,
}
use sre_agent_workshop.Prelude.Text.{str_eq, one_of}
use sre_agent_workshop.Exec.{ok}
use sre_agent_workshop.Exec.Yields.{Yields, Yields-pure, Yields-then, Yields-bind, Yields-raise_if}
use sre_agent_workshop.Tools.Machine.{Machine}
use sre_agent_workshop.Cohort.Model.{Subscription}
use sre_agent_workshop.Cohort.Resolve.{
  labelled, has_tenant, one_tenant, entry, uuid_of, show_account, resolve_from,
  resolve_subscriptions,
}

-- No id is one of these, or an earlier one.
abbrev Fresh : List String → List Subscription → Type 0
Fresh seen [] = Unit
Fresh seen (s ∷ rest) = (one_of s.id seen ≡ false) × Fresh (s.id ∷ seen) rest

one_of-later :
    (id other : String) (seen : List String)
    → one_of id (other ∷ seen) ≡ false
    → one_of id seen ≡ false
one_of-later id other seen e = ground arith

some-inj : {A : Type 0} {a b : A} → some a ≡ some b → a ≡ b
some-inj e = cc

one_of-first :
    (id other : String) (seen : List String) → one_of id (other ∷ seen) ≡ false → other ≢ id
one_of-first id other seen e p = ground (arith, eq_iff id other)

Fresh-get :
    (seen : List String) (subscriptions : List Subscription) (k : ℕ) (s : Subscription)
    → Fresh seen subscriptions
    → get_elem? subscriptions k ≡ some s
    → one_of s.id seen ≡ false
Fresh-get seen [] k s f e = cc
Fresh-get seen (x ∷ rest) zero s (f, _) e = rw (← some-inj e) f
Fresh-get seen (x ∷ rest) (suc k) s (_, f) e =
    one_of-later s.id x.id seen (Fresh-get (x.id ∷ seen) rest k s f e)

distinct_ids :
    (seen : List String) (subscriptions : List Subscription) (j k : ℕ) (a b : Subscription)
    → Fresh seen subscriptions
    → j < k
    → get_elem? subscriptions j ≡ some a
    → get_elem? subscriptions k ≡ some b
    → a.id ≢ b.id
distinct_ids seen [] j k a b f l ea eb = cc
distinct_ids seen (x ∷ rest) j zero a b f l ea eb = absurd (omega arith)
distinct_ids seen (x ∷ rest) zero (suc k) a b (_, f) l ea eb =
    rw (← some-inj ea) (one_of-first b.id x.id seen (Fresh-get (x.id ∷ seen) rest k b f eb))
distinct_ids seen (x ∷ rest) (suc j) (suc k) a b (_, f) l ea eb =
    distinct_ids (x.id ∷ seen) rest j k a b f (omega arith) ea eb

has_tenant-get :
    (tenant_id : String) (subscriptions : List Subscription) (k : ℕ) (s : Subscription)
    → has_tenant tenant_id subscriptions ≡ true
    → get_elem? subscriptions k ≡ some s
    → s.tenant_id ≡ tenant_id
unfolding has_tenant
has_tenant-get tenant_id [] k s h e = cc
has_tenant-get tenant_id (x ∷ rest) zero s h e =
    rw (← some-inj e) (ground (arith, eq_iff x.tenant_id tenant_id))
has_tenant-get tenant_id (x ∷ rest) (suc k) s h e =
    has_tenant-get tenant_id rest k s (both_hold h) e
  where
    both_hold :
        str_eq x.tenant_id tenant_id && has_tenant tenant_id rest ≡ true
        → has_tenant tenant_id rest ≡ true
    both_hold h = ground arith

one_tenant-get :
    (subscriptions : List Subscription) (j k : ℕ) (a b : Subscription)
    → one_tenant subscriptions ≡ true
    → get_elem? subscriptions j ≡ some a
    → get_elem? subscriptions k ≡ some b
    → a.tenant_id ≡ b.tenant_id
unfolding has_tenant
one_tenant-get [] j k a b h ea eb = cc
one_tenant-get (x ∷ rest) j k a b h ea eb =
    has_tenant-get x.tenant_id (x ∷ rest) j a (whole h) ea
    ∙ sym (has_tenant-get x.tenant_id (x ∷ rest) k b (whole h) eb)
  where
    whole : has_tenant x.tenant_id rest ≡ true → has_tenant x.tenant_id (x ∷ rest) ≡ true
    whole h = ground (arith, eq_iff x.tenant_id x.tenant_id, h)

-- one subscription for each request, no two of them the same, and all of one tenant
pub record IsResolved (requested : List String) (subscriptions : List Subscription) : Type 0 where
  pub long : length subscriptions ≡ length requested
  pub distinct :
      (j k : ℕ) (a b : Subscription)
      → j < k
      → get_elem? subscriptions j ≡ some a
      → get_elem? subscriptions k ≡ some b
      → a.id ≢ b.id
  pub together :
      (j k : ℕ) (a b : Subscription)
      → get_elem? subscriptions j ≡ some a
      → get_elem? subscriptions k ≡ some b
      → a.tenant_id ≡ b.tenant_id

module _ (m : Machine) where
  open m use {World}

  resolve_from-Yields :
      (index : ℕ) (seen requested : List String)
      → Yields
          (λ subscriptions. (length subscriptions ≡ length requested) × Fresh seen subscriptions)
          (resolve_from m index seen requested)
  unfolding resolve_from
  resolve_from-Yields index seen [] = Yields-pure [] (refl, tt)
  resolve_from-Yields index seen (value ∷ requested) =
      Yields-then _ (show_account m value) λ account. Yields-then _ (entry m "id" account) λ raw_id.
        Yields-then _ (uuid_of m raw_id) λ id.
          Yields-bind _ (λ _. one_of id seen ≡ false) _ (Yields-raise_if (one_of id seen) _)
            λ _ new. Yields-then _ (entry m "tenantId" account) λ raw_tenant.
              Yields-then _ (uuid_of m raw_tenant) λ tenant_id.
                Yields-then _ (entry m "name" account) λ name.
                  Yields-bind _ (λ rest. (length rest ≡ length requested) × Fresh (id ∷ seen) rest)
                    (resolve_from m (index + 1) (id ∷ seen) requested)
                    (resolve_from-Yields (index + 1) (id ∷ seen) requested)
                    λ rest (long, fresh).
                      Yields-pure (labelled index id tenant_id name ∷ rest)
                        (ap suc long, (new, fresh))

  resolved :
      (requested : List String) → Yields (IsResolved requested) (resolve_subscriptions m requested)
  unfolding resolve_subscriptions
  resolved requested =
      Yields-bind _
        (λ subscriptions. (length subscriptions ≡ length requested) × Fresh [] subscriptions) _
        (resolve_from-Yields 1 [] requested)
        λ subscriptions (long, fresh).
          Yields-bind _ (λ _. not (one_tenant subscriptions) ≡ false) _
            (Yields-raise_if (not (one_tenant subscriptions)) _)
            λ _ c. Yields-pure subscriptions (record {
              long = long;
              distinct = λ j k a b l ea eb. distinct_ids [] subscriptions j k a b fresh l ea eb;
              together = λ j k a b ea eb. one_tenant-get subscriptions j k a b (held c) ea eb;
            })
    where
      held : {b : Bool} → not b ≡ false → b ≡ true
      held {b = true} e = refl
      held {b = false} e = cc

  -- Where `resolve_subscriptions` returns, there is one subscription for each request, no two of them
  -- have the same id, and all of them belong to one tenant.
  pub resolve_subscriptions-IsResolved :
      (requested : List String) (w : World) (subscriptions : List Subscription)
      → (resolve_subscriptions m requested w).0 ≡ ok subscriptions
      → IsResolved requested subscriptions
  resolve_subscriptions-IsResolved requested w subscriptions e =
      (resolved requested).at w subscriptions e
