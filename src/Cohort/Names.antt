-- ===== src/Cohort/Names.antt =====
-- What `participant_records` of scripts/cohort.py gives each participant.
use sre_agent_workshop.Prelude.{
  ℕ, zero, suc, ◌+◌, ◌-◌, ◌%◌, ◌<◌, ◌≤◌, ◌≡◌, ◌≢◌, refl, ap, sym, ◌∙◌, ◌==◌, ltb, Bool, true, ◌&&◌,
  Bool-cases, inl, inr, Option, none, some, List, [], ◌∷◌, String, length, get_elem?, arith,
}
use sre_agent_workshop.Prelude.Int.{pos, negsuc}
use sre_agent_workshop.Prelude.Text.{◌<>◌, len, pad2, decimal, parse_int, drop_chars}
use sre_agent_workshop.Exec.{Result, ok, err}
use sre_agent_workshop.Cohort.Model.{Item, Subscription, Status}
use sre_agent_workshop.Cohort.Roster.{
  participant_name, of_subscription, record_at, cons_result, records_from, participant_records,
}

-- whether a test passes at each of the first numbers
first_pass : (ℕ → Bool) → ℕ → Bool
first_pass test zero = true
first_pass test (suc count) = first_pass test count && test count

first_pass-at :
    (test : ℕ → Bool) (count k : ℕ) → k < count → first_pass test count ≡ true → test k ≡ true
unfolding first_pass
first_pass-at test zero k below e = absurd (omega arith)
first_pass-at test (suc count) k below e = ground (arith, first_pass-at test count k)

-- the number behind a prefix of this length
number_in : ℕ → String → ℕ
number_in width name = elim (parse_int (drop_chars width name)) [
  | none ↦ 0
  | some (pos n) ↦ n
  | some (negsuc _) ↦ 0
]

names_table :
    first_pass
      (λ n. number_in 12 (participant_name n) == n && number_in 3 ("rg-" <> pad2 n) == n)
      119
    ≡ true
unfolding first_pass number_in parse_int pad2 decimal drop_chars
names_table = refl

-- The participants are numbered from `first`, and take the subscriptions in turn.
pub record IsNumbered (subscriptions : List Subscription) (first k : ℕ) (item : Item) : Type 0 where
  pub number : item.number ≡ first + k
  pub participant : item.participant ≡ participant_name (first + k)
  pub environment : item.environment ≡ participant_name (first + k)
  pub resource_group : item.resource_group ≡ "rg-" <> pad2 (first + k)
  pub subscription : Subscription
  pub in_turn : get_elem? subscriptions (k % length subscriptions) ≡ some subscription
  pub subscription_id : item.subscription_id ≡ subscription.id
  pub pending : item.status ≡ Status.pending

cons_result-eq-ok :
    (r : Result Item) (rs : Result (List Item)) (items : List Item)
    → cons_result r rs ≡ ok items
    → (item : Item) × (rest : List Item) × (r ≡ ok item) × (rs ≡ ok rest) × (items ≡ item ∷ rest)
cons_result-eq-ok (err e) rs items p = cc
cons_result-eq-ok (ok item) (err e) items p = cc
cons_result-eq-ok (ok item) (ok rest) items p = (item, rest, refl, refl, cc)

ok-inj : {A : Type 0} {a b : A} → ok a ≡ ok b → a ≡ b
ok-inj e = cc

add_none : (n : ℕ) → n + 0 ≡ n
add_none n = omega arith

add_next : (n k : ℕ) → n + suc k ≡ (n + 1) + k
add_next n k = omega arith

sub_first : (n k : ℕ) → (n + k) - n ≡ k
sub_first n k = omega arith

module _ (subscriptions : List Subscription) (user_prefix user_domain : String) (first : ℕ) where
  abbrev at : ℕ → Result Item
  at = record_at subscriptions user_prefix user_domain first

  abbrev from : ℕ → ℕ → Result (List Item)
  from = records_from subscriptions user_prefix user_domain first

  length-records_from :
      (count number : ℕ) (items : List Item) → from count number ≡ ok items → length items ≡ count
  unfolding records_from
  length-records_from zero number items e = cc
  length-records_from (suc count) number items e =
      let (item, rest, _, er, ei) =
        cons_result-eq-ok (at number) (from count (number + 1)) items e in
      rw (ei) (ap suc (length-records_from count (number + 1) rest er))

  records_from-get :
      (count number k : ℕ) (items : List Item) (item : Item)
      → from count number ≡ ok items
      → get_elem? items k ≡ some item
      → at (number + k) ≡ ok item
  unfolding records_from
  records_from-get zero number k [] item e g = cc
  records_from-get zero number k (x ∷ items) item e g = cc
  records_from-get (suc count) number zero items item e g =
      let (head, rest, eh, er, ei) =
        cons_result-eq-ok (at number) (from count (number + 1)) items e in
      rw (add_none number) (cc (rw ei at g))
  records_from-get (suc count) number (suc k) items item e g =
      let (head, rest, eh, er, ei) =
        cons_result-eq-ok (at number) (from count (number + 1)) items e in
      rw (add_next number k) (records_from-get count (number + 1) k rest item er (rw ei at g))

  record_at-IsNumbered :
      (k : ℕ) (item : Item) → at (first + k) ≡ ok item → IsNumbered subscriptions first k item
  unfolding record_at
  record_at-IsNumbered k item e =
      elim (Bool-cases (ltb 64 (len (user_prefix <> "-" <> pad2 (first + k))))) [
        | inl c ↦ cc (rw c at e)
        | inr c ↦
            numbered (get_elem? subscriptions (k % length subscriptions)) refl
              (rw (sub_first first k) at rw c at e)
      ]
    where
      numbered :
          (o : Option Subscription)
          → get_elem? subscriptions (k % length subscriptions) ≡ o
          → of_subscription user_domain (first + k) (user_prefix <> "-" <> pad2 (first + k)) o
            ≡ ok item
          → IsNumbered subscriptions first k item
      numbered none g p = cc
      numbered (some subscription) g p = rw (← ok-inj p) (record {
        number = refl;
        participant = refl;
        environment = refl;
        resource_group = refl;
        subscription = subscription;
        in_turn = g;
        subscription_id = refl;
        pending = refl;
      })

  records_of :
      (count : ℕ) (items : List Item)
      → participant_records count subscriptions user_prefix user_domain first ≡ ok items
      → (1 ≤ count) × (count ≤ 20) × (1 ≤ first) × (first ≤ 99) × (from count first ≡ ok items)
  unfolding participant_records
  records_of count items e = ground arith

  -- Where `participant_records` returns, there are as many records as were asked for, from 1 to 20,
  -- and the record at each position has the next number, its names from that number, the
  -- subscription whose turn it is, and is pending.
  pub participant_records-IsNumbered :
      (count : ℕ) (items : List Item)
      → participant_records count subscriptions user_prefix user_domain first ≡ ok items
      → (length items ≡ count)
        × (1 ≤ count)
        × (count ≤ 20)
        × ((k : ℕ) (item : Item)
            → get_elem? items k ≡ some item
            → IsNumbered subscriptions first k item)
  participant_records-IsNumbered count items e =
      let (low, high, _, _, eq) = records_of count items e in
      (
        length-records_from count first items eq,
        low,
        high,
        λ k item g. record_at-IsNumbered k item (records_from-get count first k items item eq g),
      )

abbrev numbers_back : ℕ → Bool
numbers_back n = number_in 12 (participant_name n) == n && number_in 3 ("rg-" <> pad2 n) == n

number_of_name :
    (n : ℕ)
    → n < 119
    → (number_in 12 (participant_name n) ≡ n) × (number_in 3 ("rg-" <> pad2 n) ≡ n)
number_of_name n h = ground (arith, first_pass-at numbers_back 119 n h names_table)

participant_name_injective :
    (n k : ℕ) → n < 119 → k < 119 → participant_name n ≡ participant_name k → n ≡ k
participant_name_injective n k hn hk e =
    sym (number_of_name n hn).0 ∙ ap (number_in 12) e ∙ (number_of_name k hk).0

resource_group_injective : (n k : ℕ) → n < 119 → k < 119 → "rg-" <> pad2 n ≡ "rg-" <> pad2 k → n ≡ k
resource_group_injective n k hn hk e =
    sym (number_of_name n hn).1 ∙ ap (number_in 3) e ∙ (number_of_name k hk).1

pub get_elem?-lt :
    {A : Type 0} (xs : List A) (k : ℕ) (a : A) → get_elem? xs k ≡ some a → k < length xs
get_elem?-lt [] k a e = cc
get_elem?-lt (x ∷ xs) zero a e = omega arith
get_elem?-lt (x ∷ xs) (suc k) a e = omega (arith, get_elem?-lt xs k a e)

-- No two records of `participant_records` share a participant name, an environment or a resource
-- group.
pub participant_records_distinct :
    (subscriptions : List Subscription) (user_prefix user_domain : String) (first count : ℕ)
    (items : List Item) (j k : ℕ) (a b : Item)
    → participant_records count subscriptions user_prefix user_domain first ≡ ok items
    → get_elem? items j ≡ some a
    → get_elem? items k ≡ some b
    → j ≢ k
    → (a.participant ≢ b.participant)
      × (a.environment ≢ b.environment)
      × (a.resource_group ≢ b.resource_group)
participant_records_distinct subscriptions user_prefix user_domain first count items j k a b e ga gb
      ne =
    let (low, high, from_one, to_last, eq) =
      records_of subscriptions user_prefix user_domain first count items e in
    let (long, _, _, each) =
      participant_records-IsNumbered subscriptions user_prefix user_domain first count items e in
    let na = each j a ga in
    let nb = each k b gb in
    let bj = get_elem?-lt items j a ga in
    let bk = get_elem?-lt items k b gb in
    let hj = below first j count (length items) bj long high to_last in
    let hk = below first k count (length items) bk long high to_last in
    (
      λ p. ne (
          cancel first j k (
            participant_name_injective (first + j) (first + k) hj hk
              (sym na.participant ∙ p ∙ nb.participant))),
      λ p. ne (
          cancel first j k (
            participant_name_injective (first + j) (first + k) hj hk
              (sym na.environment ∙ p ∙ nb.environment))),
      λ p. ne (
          cancel first j k (
            resource_group_injective (first + j) (first + k) hj hk
              (sym na.resource_group ∙ p ∙ nb.resource_group))),
    )
  where
    below : (n k count long : ℕ) → k < long → long ≡ count → count ≤ 20 → n ≤ 99 → n + k < 119
    below n k count long p e q r = omega arith

    cancel : (n j k : ℕ) → n + j ≡ n + k → j ≡ k
    cancel n j k e = omega arith
