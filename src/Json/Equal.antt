-- ===== src/Json/Equal.antt =====
-- Python's `==` on the values of `json.loads`.
use Prim.Native.Nat.{◌^◌}
use sre_agent_workshop.Prelude.{
  ℕ, suc, ◌*◌, ◌==◌, Bool, true, false, not, ◌&&◌, Option, none, some, if◌then◌else◌,
}
use sre_agent_workshop.Prelude.Int.{ℤ, pos, negsuc}
use sre_agent_workshop.Prelude.Text.{str_eq}
use sre_agent_workshop.Json.{
  Float, dyadic, infinite, Value, null, boolean, int, float, text, array, object, Items, nil, cons,
  Fields, end, field, get,
}

-- `n * 2 ^ k`, without its sign
abbrev size : ℤ → ℕ → ℕ
size (pos n) k = n * 2 ^ k
size (negsuc n) k = suc n * 2 ^ k

abbrev is_negative : ℤ → Bool
is_negative (pos n) = false
is_negative (negsuc n) = true

abbrev same_bool : Bool → Bool → Bool
same_bool true b = b
same_bool false b = not b

-- two whole numbers over powers of two
abbrev pub same_ratio : ℤ → ℕ → ℤ → ℕ → Bool
same_ratio a j b k = same_bool (is_negative a) (is_negative b) && size a k == size b j

abbrev pub same_float : Float → Float → Bool
same_float (dyadic a j) (dyadic b k) = same_ratio a j b k
same_float (infinite a) (infinite b) = same_bool a b
same_float _ _ = false

abbrev of_bool : Bool → ℤ
of_bool b = pos (if b then 1 else 0)

abbrev with_int : ℤ → Value → Bool
with_int a (boolean b) = same_ratio a 0 (of_bool b) 0
with_int a (int b) = same_ratio a 0 b 0
with_int a (float f) = same_float (dyadic a 0) f
with_int a _ = false

abbrev with_float : Float → Value → Bool
with_float f (boolean b) = same_float f (dyadic (of_bool b) 0)
with_float f (int b) = same_float f (dyadic b 0)
with_float f (float g) = same_float f g
with_float f _ = false

abbrev pub count_keys : Fields → ℕ
count_keys end = 0
count_keys (field _ _ d) = suc (count_keys d)

abbrev as_list : Value → Option Items
as_list (array items) = some items
as_list _ = none

abbrev as_dict : Value → Option Fields
as_dict (object d) = some d
as_dict _ = none

unfoldable mutual
  pub equal : Value → Value → Bool
  equal null v = elim v [ null ↦ true | _ ↦ false ]
  equal (boolean b) v = with_int (of_bool b) v
  equal (int a) v = with_int a v
  equal (float f) v = with_float f v
  equal (text s) v = elim v [ text t ↦ str_eq s t | _ ↦ false ]
  equal (array items) v = same_items items (as_list v)
  equal (object d) v = elim (as_dict v) [
    | none ↦ false
    | some e ↦ count_keys d == count_keys e && all_in d e
  ]

  pub same_items : Items → Option Items → Bool
  same_items nil o = elim o [ some nil ↦ true | _ ↦ false ]
  same_items (cons v items) o = elim o [
    | some (cons w others) ↦ equal v w && same_items items (some others)
    | _ ↦ false
  ]

  -- the keys of a dictionary are distinct
  pub all_in : Fields → Fields → Bool
  all_in end e = true
  all_in (field k v d) e = elim (get k e) [ none ↦ false | some w ↦ equal v w && all_in d e ]
