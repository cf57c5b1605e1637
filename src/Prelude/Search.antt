-- ===== src/Prelude/Search.antt =====
-- Python's `str`: joining, searching and replacing, and the length of the UTF-8 encoding.
use Prim.Native.Nat.{ℕ, zero, suc, ◌+◌, ◌-◌}
use Prim.Native.Char.{code}
use Prim.Native.String.{String}
use mathlib.Core.Bool.{Bool, true, false, ◌||◌}
use mathlib.Core.Path.{◌≡◌, refl}
use mathlib.Core.List.{List}
use mathlib.Core.Option.{none, some}
use sre_agent_workshop.Prelude.Tests.{ltb, if◌then◌else◌}
use sre_agent_workshop.Prelude.Text.{◌<>◌, str_eq, len, after_prefix}

-- `separator.join(parts)`
unfoldable pub join : String → List String → String
join separator List.[] = ""
join separator (List.◌∷◌ part List.[]) = part
join separator (List.◌∷◌ part (List.◌∷◌ next parts)) =
    part <> separator <> join separator (List.◌∷◌ next parts)

-- `text[:n]`
unfoldable pub first_chars : ℕ → String → String
first_chars zero s = ""
first_chars (suc n) String.[] = ""
first_chars (suc n) (String.◌∷◌ c s) = String.◌∷◌ c (first_chars n s)

abbrev is_prefix : String → String → Bool
is_prefix p s = elim (after_prefix p s) [ none ↦ false | some _ ↦ true ]

-- `text.startswith(prefix)`, and `part in text`
abbrev pub starts_with : String → String → Bool
starts_with prefix s = is_prefix prefix s

unfoldable pub contains : String → String → Bool
contains part String.[] = str_eq part ""
contains part (String.◌∷◌ c s) = starts_with part (String.◌∷◌ c s) || contains part s

-- `text.replace(old, new)` of a part that is not empty: the characters of an occurrence are skipped
replace_from : ℕ → String → String → String → String
replace_from skip old new String.[] = ""
replace_from (suc skip) old new (String.◌∷◌ c s) = replace_from skip old new s
replace_from zero old new (String.◌∷◌ c s) =
    if starts_with old (String.◌∷◌ c s)
    then new <> replace_from (len old - 1) old new s
    else String.◌∷◌ c (replace_from zero old new s)

unfoldable pub replace : String → String → String → String
unfolding replace_from
replace old new s = replace_from 0 old new s

-- `len(text.encode("utf-8"))`
char_bytes : ℕ → ℕ
char_bytes c = if ltb c 128 then 1 else if ltb c 2048 then 2 else if ltb c 65536 then 3 else 4

unfoldable pub utf8_length : String → ℕ
unfolding char_bytes
utf8_length String.[] = 0
utf8_length (String.◌∷◌ c s) = char_bytes (code c) + utf8_length s

search_tests :
    (replace "_ID_" "7" "a _ID_ b_ID_" ≡ "a 7 b7")
    × (join "," (List.◌∷◌ "a" (List.◌∷◌ "b" List.[])) ≡ "a,b")
    × (contains "ab" "xxaby" ≡ true)
unfolding replace join contains after_prefix
search_tests = (refl, refl, refl)
