-- ===== src/Cohort/CleanupOwn.antt =====
-- That the clean-up of scripts/cohort.py touches no group but the workshop's own.
use sre_agent_workshop.Prelude.{
  ◌≡◌, refl, ap, ◌⊎◌, inl, inr, Bool, true, false, ◌&&◌, Option, none, some, String, ℕ, arith,
}
use sre_agent_workshop.Exec.{Result, ok, err, lift, continue, err-ne-ok, ok-inj}
use sre_agent_workshop.Exec.Triple.{Ends, Triple, Triple-pure, Triple-raise, Triple-if, Triple-bind}
use sre_agent_workshop.Json.{
  is_falsy, Value, null, boolean, int, float, text, array, object, Fields, end, get, holds_text-eq,
}
use sre_agent_workshop.Tools.Machine.{Machine}
use sre_agent_workshop.Cohort.Model.{Item}
use sre_agent_workshop.Cohort.Store.{Store}
use sre_agent_workshop.Cohort.Cleanup.{
  group_exists, group_show, by_existence, delete_group, delete_checked, delete_target, refuse,
  tags_in, tags_of, no_tags, tags_match, cleaned, set_item, cleanup_target,
}

no_tags-end : (b : Bool) (tags : Fields) → no_tags b ≡ ok tags → end ≡ tags
no_tags-end true tags e = ok-inj e
no_tags-end false tags e = absurd (err-ne-ok e)

nothing_in_end : (k : String) (v : Value) (tags : Fields) → end ≡ tags → get k tags ≡ some v → ⊥
unfolding get
nothing_in_end k v tags e f = none-ne-some (rw (← e) at f)
  where
    none-ne-some : {x : Value} → ◌≡◌ {A = Option Value} none (some x) → ⊥
    none-ne-some e = cc

-- Tags of which one is there are those of a dictionary.
tags_in-object :
    (o : Option Value) (tags : Fields) (k : String) (v : Value)
    → tags_in o ≡ ok tags
    → get k tags ≡ some v
    → o ≡ some (object tags)
tags_in-object none tags k v e f = absurd (nothing_in_end k v tags (ok-inj e) f)
tags_in-object (some (object d)) tags k v e f = ap (λ x. some (object x)) (ok-inj e)
tags_in-object (some null) tags k v e f =
    absurd (nothing_in_end k v tags (no_tags-end (is_falsy null) tags e) f)
tags_in-object (some (boolean b)) tags k v e f =
    absurd (nothing_in_end k v tags (no_tags-end (is_falsy (boolean b)) tags e) f)
tags_in-object (some (int i)) tags k v e f =
    absurd (nothing_in_end k v tags (no_tags-end (is_falsy (int i)) tags e) f)
tags_in-object (some (float x)) tags k v e f =
    absurd (nothing_in_end k v tags (no_tags-end (is_falsy (float x)) tags e) f)
tags_in-object (some (text s)) tags k v e f =
    absurd (nothing_in_end k v tags (no_tags-end (is_falsy (text s)) tags e) f)
tags_in-object (some (array items)) tags k v e f =
    absurd (nothing_in_end k v tags (no_tags-end (is_falsy (array items)) tags e) f)

tags_of-object :
    (group : Value) (tags : Fields) (k : String) (v : Value)
    → tags_of group ≡ ok tags
    → get k tags ≡ some v
    → (d : Fields) × (group ≡ object d) × (get "tags" d ≡ some (object tags))
tags_of-object (object d) tags k v e f = (d, refl, tags_in-object (get "tags" d) tags k v e f)
tags_of-object null tags k v e f = absurd (err-ne-ok e)
tags_of-object (boolean b) tags k v e f = absurd (err-ne-ok e)
tags_of-object (int i) tags k v e f = absurd (err-ne-ok e)
tags_of-object (float x) tags k v e f = absurd (err-ne-ok e)
tags_of-object (text s) tags k v e f = absurd (err-ne-ok e)
tags_of-object (array items) tags k v e f = absurd (err-ne-ok e)

both_true : (a b : Bool) → a && b ≡ true → (a ≡ true) × (b ≡ true)
both_true a b e = (ground arith, ground arith)

tags_match-tags :
    (item : Item) (tags : Fields)
    → tags_match item tags ≡ true
    → (get "workshop-architecture" tags ≡ some (text "single-vm-postgresql-v1"))
      × (get "azd-env-name" tags ≡ some (text item.environment))
unfolding tags_match
tags_match-tags item tags e =
    let (a, b) = both_true _ _ e in (holds_text-eq _ _ a, holds_text-eq _ _ b)

module _ (m : Machine) (I : m.World → Type 0) (item : Item)
    (asks : (w : m.World) → I w → I (group_exists m item w).1)
    (looks : (w : m.World) → I w → I (group_show m item w).1) where
  open m use {World}

  -- In a world that was still spared, Azure has shown the group with the workshop's tag and the tag
  -- of the participant's environment.
  pub record IsOwn : Type 0 where
    pub before : World
    pub spared : I before
    pub group : Fields
    pub tags : Fields
    pub shown : (group_show m item before).0 ≡ ok (object group)
    pub tagged : get "tags" group ≡ some (object tags)
    pub architecture : get "workshop-architecture" tags ≡ some (text "single-vm-postgresql-v1")
    pub environment : get "azd-env-name" tags ≡ some (text item.environment)

  abbrev pub Spared : World → Type 0
  Spared w = I w ⊎ IsOwn

  -- the look at the group, with the world that it began in
  abbrev Shown : Value → World → Type 0
  Shown group w = I w × ((before : World) × I before × ((group_show m item before).0 ≡ ok group))

  group_exists-Spared : Triple I (group_exists m item) (λ _. I) (λ _. Spared)
  group_exists-Spared = record {
    at = λ w p. ended (group_exists m item w).0 (group_exists m item w).1 (asks w p);
  }
    where
      ended : (r : Result Value) (w : World) → I w → Ends (λ _. I) (λ _. Spared) (r, w)
      ended (ok v) w p = p
      ended (err e) w p = inl p

  group_show-Shown : Triple I (group_show m item) Shown (λ _. Spared)
  group_show-Shown = record {
    at = λ w p. ended w p (group_show m item w).0 refl (group_show m item w).1 (looks w p);
  }
    where
      ended :
          (before : World)
          → I before
          → (r : Result Value) → (group_show m item before).0 ≡ r
          → (w : World) → I w
          → Ends Shown (λ _. Spared) (r, w)
      ended before q (ok v) e w p = (p, (before, q, e))
      ended before q (err x) e w p = inl p

  tags_of-Shown :
      (group : Value)
      → Triple
          (Shown group)
          (lift (tags_of group))
          (λ tags w. Shown group w × (tags_of group ≡ ok tags))
          (λ _. Spared)
  tags_of-Shown group = record { at = λ w p. ended (tags_of group) refl w p }
    where
      ended :
          (r : Result Fields)
          → tags_of group ≡ r
          → (w : World) → Shown group w
          → Ends (λ tags w. Shown group w × (tags_of group ≡ ok tags)) (λ _. Spared) (r, w)
      ended (ok tags) e w p = (p, e)
      ended (err x) e w p = inl p.0

  whatever : (r : Result (Unit {0})) (w : World) → IsOwn → Ends (λ _. Spared) (λ _. Spared) (r, w)
  whatever (ok x) w own = inr own
  whatever (err e) w own = inr own

  own :
      (group : Value) (tags : Fields) (w : World)
      → Shown group w
      → tags_of group ≡ ok tags
      → tags_match item tags ≡ true
      → IsOwn
  own group tags w (p, (before, q, e)) f c =
      let (a, b) = tags_match-tags item tags c in
      let (d, same, tagged) = tags_of-object group tags "azd-env-name" _ f b in
      record {
        before = before;
        spared = q;
        group = d;
        tags = tags;
        shown = rw same at e;
        tagged = tagged;
        architecture = a;
        environment = b;
      }

  delete_checked-Spared : Triple I (delete_checked m item) (λ _. Spared) (λ _. Spared)
  unfolding delete_checked
  delete_checked-Spared = Triple-bind Shown _ _ group_show-Shown λ group.
      Triple-bind (λ tags w. Shown group w × (tags_of group ≡ ok tags)) _ _ (tags_of-Shown group)
        λ tags.
          Triple-if (tags_match item tags) (delete_group m item) (refuse m item)
            (λ c. record {
              at = λ w (p, f).
                  whatever (delete_group m item w).0 (delete_group m item w).1
                    (own group tags w p f c);
            })
            (λ _. Triple-raise _ λ w (p, f). inl p.0)

  by_existence-Spared : (v : Value) → Triple I (by_existence m item v) (λ _. Spared) (λ _. Spared)
  by_existence-Spared (boolean true) = delete_checked-Spared
  by_existence-Spared (boolean false) = Triple-pure tt λ w p. inl p
  by_existence-Spared null = Triple-raise _ λ w p. inl p
  by_existence-Spared (int i) = Triple-raise _ λ w p. inl p
  by_existence-Spared (float f) = Triple-raise _ λ w p. inl p
  by_existence-Spared (text s) = Triple-raise _ λ w p. inl p
  by_existence-Spared (array items) = Triple-raise _ λ w p. inl p
  by_existence-Spared (object d) = Triple-raise _ λ w p. inl p

  delete_target-Spared : Triple I (delete_target m item) (λ _. Spared) (λ _. Spared)
  unfolding delete_target
  delete_target-Spared = Triple-bind (λ _. I) _ _ group_exists-Spared by_existence-Spared

  -- Whatever asking for the group and looking at it leave as it is, the clean-up of a participant
  -- leaves as it is, however it ends; unless Azure has before shown the group with the workshop's tag
  -- and the tag of the participant's environment.
  pub cleanup_target-Spared :
      (i : ℕ) (s : Store World) → I s.world → Spared (cleanup_target m i item s).1.world
  unfolding cleanup_target
  cleanup_target-Spared i s p =
      ended (delete_target m item s.world).0 (delete_target m item s.world).1
        ((delete_target-Spared).at s.world p)
    where
      ended :
          (r : Result (Unit {0})) (w : World)
          → Ends (λ _. Spared) (λ _. Spared) (r, w)
          → Spared
              (continue {W = Store World} r
                (λ _. set_item m i cleaned)
                (record s { world = w })).1.world
      ended (ok x) w q = q
      ended (err e) w q = q
