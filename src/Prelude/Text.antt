-- ===== src/Prelude/Text.antt =====
-- Python's `str`: the operations that the tools use, over the native text.
use Prim.Native.Nat.{ℕ, zero, suc, ◌+◌, ◌*◌, ◌/◌, ◌%◌, ◌-◌}
use Prim.Native.Char.{code}
use Prim.Native.String.{String, ◌++◌, count}
use text.Mathlib.Text.{◌==◌ as text_eq}
use mathlib.Core.Bool.{Bool, true, false, ◌&&◌, ◌||◌}
use mathlib.Core.Path.{◌≡◌, refl}
use mathlib.Core.List.{List}
use mathlib.Core.Option.{Option, none, some}
use sre_agent_workshop.Prelude.Tests.{leb, ltb, ◌==◌, if◌then◌else◌}
use sre_agent_workshop.Prelude.Int.{ℤ, pos, negsuc}

infixr 65 ◌<>◌
abbrev pub ◌<>◌ : String → String → String
s <> t = s ++ t

abbrev pub str_eq : String → String → Bool
str_eq = text_eq

-- `s in {...}`
abbrev pub one_of : String → List String → Bool
one_of s List.[] = false
one_of s (List.◌∷◌ t ts) = str_eq s t || one_of s ts

-- `len(s)`
abbrev pub len : String → ℕ
len = count

-- whether every character passes a test
unfoldable pub every : (ℕ → Bool) → String → Bool
every p String.[] = true
every p (String.◌∷◌ c s) = p (code c) && every p s

-- whether the character occurs
unfoldable pub has_char : ℕ → String → Bool
has_char k String.[] = false
has_char k (String.◌∷◌ c s) = code c == k || has_char k s

abbrev pub is_digit : ℕ → Bool
is_digit c = leb 48 c && leb c 57

abbrev pub is_letter : ℕ → Bool
is_letter c = leb 65 c && leb c 90 || leb 97 c && leb c 122

-- the spaces beyond ASCII
abbrev pub is_wide_space : ℕ → Bool
is_wide_space c =
    c == 133
    || c == 160
    || c == 5760
    || leb 8192 c && leb c 8202
    || c == 8232
    || c == 8233
    || c == 8239
    || c == 8287
    || c == 12288

-- `str.isspace` of one character
abbrev pub is_space : ℕ → Bool
is_space c = leb 9 c && leb c 13 || leb 28 c && leb c 32 || is_wide_space c

-- `line.split("=", 1)` of a line that has the separator
unfoldable pub split_once : ℕ → String → Option (String × String)
split_once k String.[] = none
split_once k (String.◌∷◌ c s) =
    if code c == k
    then some ("", s)
    else elim (split_once k s) [ none ↦ none | some (a, b) ↦ some (String.◌∷◌ c a, b) ]

-- `str.splitlines`: "\r\n" is one break.
is_break : ℕ → Bool
is_break c = leb 10 c && leb c 13 || leb 28 c && leb c 30 || c == 133 || c == 8232 || c == 8233

begin_line : String → List String → List String
begin_line c List.[] = List.◌∷◌ c List.[]
begin_line c (List.◌∷◌ l ls) = List.◌∷◌ (c <> l) ls

-- the lines, where `fed` says that a "\r" has just ended one
lines_after : Bool → String → List String
unfolding is_break begin_line
lines_after fed String.[] = List.[]
lines_after fed (String.◌∷◌ c s) =
    let rest = lines_after (code c == 13) s in
    if code c == 10 && fed
    then rest
    else if is_break (code c)
    then List.◌∷◌ "" rest
    else begin_line (String.◌∷◌ c "") rest

unfoldable pub splitlines : String → List String
unfolding lines_after
splitlines = lines_after false

-- `str.lstrip` and `str.strip`, over ASCII white space.
pub lstrip : String → String
lstrip String.[] = ""
lstrip (String.◌∷◌ c s) = let rest = lstrip s in if is_space (code c) then rest else String.◌∷◌ c s

unfoldable pub rstrip : String → String
rstrip String.[] = ""
rstrip (String.◌∷◌ c s) =
    let rest = rstrip s in if is_space (code c) && str_eq rest "" then "" else String.◌∷◌ c rest

unfoldable pub strip : String → String
unfolding lstrip rstrip
strip s = rstrip (lstrip s)

-- The text after a prefix, if it has that prefix.
unfoldable pub after_prefix : String → String → Option String
after_prefix String.[] s = some s
after_prefix (String.◌∷◌ _ _) String.[] = none
after_prefix (String.◌∷◌ p ps) (String.◌∷◌ c s) =
    if code p == code c then after_prefix ps s else none

-- `int(text)` of stripped ASCII text: a sign, digits, and single `_` between digits.
-- one character read: a digit, or a `_` behind a digit, goes on
accept : Bool → Bool → Option ℕ → Option ℕ
accept digit bar rest = if digit || bar then rest else none

unsigned : Bool → ℕ → String → Option ℕ
unfolding accept
unsigned ready n String.[] = if ready then some n else none
unsigned ready n (String.◌∷◌ c s) =
    let d = is_digit (code c) in
    accept d (code c == b'_' && ready) (unsigned d (if d then n * 10 + (code c - 48) else n) s)

negated : ℕ → ℤ
negated zero = pos 0
negated (suc n) = negsuc n

signed : Bool → Option ℕ → Option ℤ
unfolding negated
signed _ none = none
signed minus (some n) = some (if minus then negated n else pos n)

unfoldable pub parse_int : String → Option ℤ
unfolding unsigned signed
parse_int String.[] = none
parse_int (String.◌∷◌ c s) =
    if code c == b'-'
    then signed true (unsigned false 0 s)
    else if code c == b'+'
    then signed false (unsigned false 0 s)
    else signed false (unsigned false 0 (String.◌∷◌ c s))

-- `str(n)` and `f"{n:02d}"`.
digit : ℕ → String
digit d =
    if d == 0
    then "0"
    else if d == 1
    then "1"
    else if d == 2
    then "2"
    else if d == 3
    then "3"
    else if d == 4
    then "4"
    else if d == 5
    then "5"
    else if d == 6
    then "6"
    else if d == 7
    then "7"
    else if d == 8
    then "8"
    else "9"

-- with fuel for each digit: `n` itself is enough
decimal_from : ℕ → ℕ → String
unfolding digit
decimal_from zero n = digit (n % 10)
decimal_from (suc f) n =
    let rest = decimal_from f (n / 10) in if ltb n 10 then digit n else rest <> digit (n % 10)

unfoldable pub decimal : ℕ → String
unfolding decimal_from
decimal n = decimal_from n n

unfoldable pub pad2 : ℕ → String
pad2 n = if ltb n 10 then "0" <> decimal n else decimal n

-- `str(i)` of any integer
unfoldable pub decimal_int : ℤ → String
unfolding decimal
decimal_int (pos n) = decimal n
decimal_int (negsuc n) = "-" <> decimal (suc n)

-- the text without its first characters, and `text[-n:]`
unfoldable pub drop_chars : ℕ → String → String
drop_chars zero s = s
drop_chars (suc n) String.[] = ""
drop_chars (suc n) (String.◌∷◌ _ s) = drop_chars n s

unfoldable pub last_chars : ℕ → String → String
unfolding drop_chars
last_chars n s = drop_chars (len s - n) s

-- `text.endswith(suffix)`
unfoldable pub ends_with : String → String → Bool
ends_with suffix String.[] = str_eq "" suffix
ends_with suffix (String.◌∷◌ c s) = str_eq (String.◌∷◌ c s) suffix || ends_with suffix s

pad2_tests : (pad2 7 ≡ "07") × (pad2 42 ≡ "42") × (pad2 118 ≡ "118")
unfolding pad2 decimal
pad2_tests = (refl, refl, refl)

parse_int_tests :
    (parse_int "-12" ≡ some (negsuc 11))
    × (parse_int "1_0" ≡ some (pos 10))
    × (parse_int "1__0" ≡ none)
    × (parse_int "_1" ≡ none)
unfolding parse_int
parse_int_tests = (refl, refl, refl, refl)

splitlines_tests :
    splitlines "a=1\r\nb\n\nc" ≡ List.◌∷◌ "a=1" (List.◌∷◌ "b" (List.◌∷◌ "" (List.◌∷◌ "c" List.[])))
unfolding splitlines
splitlines_tests = refl

strip_tests : (strip "  a b \n" ≡ "a b") × (split_once b'=' "a=b=c" ≡ some ("a", "b=c"))
unfolding strip split_once
strip_tests = (refl, refl)

-- `text.split("\n")`
unfoldable pub split_lines : String → List String
unfolding begin_line
split_lines String.[] = List.◌∷◌ "" List.[]
split_lines (String.◌∷◌ c s) =
    let rest = split_lines s in
    if code c == 10 then List.◌∷◌ "" rest else begin_line (String.◌∷◌ c "") rest
