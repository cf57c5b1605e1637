-- ===== src/Json.antt =====
-- The values of `json.loads` and of the tools' own dictionaries, as Python sees them.
pub mod Equal
use sre_agent_workshop.Prelude.{
  ap, ℕ, zero, ◌≡◌, refl, Bool, true, false, Option, none, some, String, arith, eq_iff,
  if◌then◌else◌,
}
use sre_agent_workshop.Prelude.Int.{ℤ, pos}
use sre_agent_workshop.Prelude.Text.{str_eq}

-- A finite `float` is a whole number over a power of two.
pub data Float : Type 0 where
  dyadic : ℤ → ℕ → Float
  infinite : Bool → Float
  nan : Float

mutual
  pub data Value : Type 0 where
    null : Value
    boolean : Bool → Value
    int : ℤ → Value
    float : Float → Value
    text : String → Value
    array : Items → Value
    object : Fields → Value

  pub data Items : Type 0 where
    nil : Items
    cons : Value → Items → Items

  -- a `dict` in insertion order
  pub data Fields : Type 0 where
    end : Fields
    field : String → Value → Fields → Fields

-- `d.get(key)`
unfoldable pub get : String → Fields → Option Value
get _ end = none
get k (field j v d) = if str_eq j k then some v else get k d

-- `d[key] = value`
unfoldable pub put : String → Value → Fields → Fields
put k v end = field k v end
put k v (field j w d) = if str_eq j k then field k v d else field j w (put k v d)

-- `{**d, **e}`
unfoldable pub merge : Fields → Fields → Fields
merge d end = d
merge d (field k v e) = merge (put k v d) e

pub get-put :
    (k j : String) (v : Value) (d : Fields)
    → get j (put k v d) ≡ (if str_eq k j then some v else get j d)
unfolding get put
get-put k j v end = refl
get-put k j v (field i w d) = ground (arith, eq_iff k j, eq_iff i k, eq_iff i j, get-put k j v d)

abbrev pub is_text : String → Value → Bool
is_text s (text t) = str_eq t s
is_text _ _ = false

-- `value.get(key) == "literal"`
abbrev pub holds_text : String → Option Value → Bool
holds_text _ none = false
holds_text s (some v) = is_text s v

is_text-eq : (s : String) (v : Value) → is_text s v ≡ true → v ≡ text s
is_text-eq s (text t) e = ap text ((eq_iff t s).0 e)
is_text-eq s _ e = cc

pub holds_text-eq : (s : String) (o : Option Value) → holds_text s o ≡ true → o ≡ some (text s)
holds_text-eq s none e = cc
holds_text-eq s (some v) e = ap some (is_text-eq s v e)

abbrev pub is_dict : Value → Bool
is_dict (object _) = true
is_dict _ = false

abbrev pub is_list : Value → Bool
is_list (array _) = true
is_list _ = false

-- `isinstance(value, dict) and value.get(key) == "literal"`
abbrev pub dict_holds : String → String → Value → Bool
dict_holds k s (object d) = holds_text s (get k d)
dict_holds _ _ _ = false

-- `value is True`
abbrev pub is_true : Option Value → Bool
is_true (some (boolean b)) = b
is_true _ = false

-- a value that `or` replaces
abbrev pub is_falsy : Value → Bool
is_falsy null = true
is_falsy (boolean false) = true
is_falsy (int (pos zero)) = true
is_falsy (float (dyadic (pos zero) _)) = true
is_falsy (text String.[]) = true
is_falsy (array nil) = true
is_falsy (object end) = true
is_falsy _ = false
