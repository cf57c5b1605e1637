-- ===== src/Incident/Match.antt =====
-- `health_check_text_matches`, `health_check_skill_matches` and `incident_component_matches` of
-- scripts/workshop.py: whether the service holds a document.
use Prim.Native.Char.{code}
use sre_agent_workshop.Prelude.{
  ◌==◌, Bool, true, false, not, ◌&&◌, ◌||◌, Option, none, some, List, [], ◌∷◌, ◌++◌, map, String,
  if◌then◌else◌,
}
use sre_agent_workshop.Prelude.Text.{
  str_eq, one_of, is_space, strip, rstrip, split_lines, after_prefix,
}
use sre_agent_workshop.Prelude.Search.{join, replace}
use sre_agent_workshop.Json.{
  Value, null, boolean, text, array, object, Items, nil, cons, Fields, end, field, get, holds_text,
}
use sre_agent_workshop.Json.Equal.{equal}

abbrev pub response_plan_name : String
response_plan_name = "workshop-sev1-sev2-review"

abbrev pub read_only_properties : List String
read_only_properties = "createdAt" ∷ "updatedAt" ∷ "configurationWarning" ∷ []

unfoldable pub normalized : String → String
normalized s = join "\n" (map rstrip (split_lines (strip (replace "\r\n" "\n" s))))

-- a text that the service does not return is no difference
abbrev pub health_check_text_matches : Option Value → String → Bool
health_check_text_matches (some (text actual)) expected =
    str_eq (normalized actual) (normalized expected)
health_check_text_matches _ expected = true

-- `\s*\n` from here: what is left behind it, the longest match first
unfoldable pub line_ends : String → List String
line_ends String.[] = []
line_ends (String.◌∷◌ c s) =
    let rest = line_ends s in
    if code c == 10 then rest ++ s ∷ [] else if is_space (code c) then rest else []

abbrev pub first_one : List String → Option String
first_one [] = none
first_one (s ∷ _) = some s

-- `---\s*\n` behind a prefix
abbrev pub fence : String → String → List String
fence prefix s = elim (after_prefix prefix s) [ none ↦ [] | some rest ↦ line_ends rest ]

-- `.*?\n---\s*\n`: what is left behind the first fence
unfoldable pub closed : String → Option String
closed String.[] = none
closed (String.◌∷◌ c s) =
    let rest = closed s in
    elim (first_one (fence "\n---" (String.◌∷◌ c s))) [ some body ↦ some body | none ↦ rest ]

abbrev pub first_closed : List String → Option String
first_closed [] = none
first_closed (s ∷ rest) = elim (closed s) [ some body ↦ some body | none ↦ first_closed rest ]

-- the text behind its front matter
unfoldable pub body : String → String
body s = elim (first_closed (fence "---" s)) [ some rest ↦ rest | none ↦ s ]

abbrev pub first_text : Option Value → Option Value → Option String
first_text (some (text s)) _ = some s
first_text _ (some (text s)) = some s
first_text _ _ = none

abbrev pub skill_text : Fields → Option String
skill_text properties = first_text (get "skillContent" properties) (get "skillMdContent" properties)

-- `health_check_skill_matches` of an item with these properties and a skill with this content
abbrev pub skill_matches : Fields → String → Bool
skill_matches properties content = elim (skill_text properties) [
  | none ↦ true
  | some actual ↦ str_eq (normalized (body actual)) (normalized (body content))
]

-- The content that the workflow gives a skill is a text; a comparison with another value, which
-- raises a `TypeError`, does not match here.
abbrev pub content_matches : Fields → Value → Bool
content_matches properties (text content) = skill_matches properties content
content_matches properties _ = false

abbrev pub without : List String → Fields → Fields
without keys end = end
without keys (field key v d) =
    let rest = without keys d in if one_of key keys then rest else field key v rest

abbrev pub has_key : String → Fields → Bool
has_key key d = elim (get key d) [ none ↦ false | some _ ↦ true ]

abbrev pub keys_in : Fields → Fields → Bool
keys_in end e = true
keys_in (field key _ d) e = has_key key e && keys_in d e

abbrev pub all_texts : Items → Bool
all_texts nil = true
all_texts (cons (text _) items) = all_texts items
all_texts (cons _ items) = false

abbrev pub without_text : String → Items → Option Items
without_text s nil = none
without_text s (cons v items) =
    let rest = without_text s items in
    if equal (text s) v
    then some items
    else elim rest [ none ↦ none | some others ↦ some (cons v others) ]

abbrev is_nil : Items → Bool
is_nil nil = true
is_nil (cons _ _) = false

-- `sorted(a) == sorted(b)` of lists of texts: each text as often in one as in the other
abbrev pub same_texts : Items → Items → Bool
same_texts nil b = is_nil b
same_texts (cons (text s) a) b = elim (without_text s b) [
  | none ↦ false
  | some rest ↦ same_texts a rest
]
same_texts (cons _ a) b = false

abbrev pub list_matches : Option Value → Items → Bool
list_matches (some (array current)) value =
    if all_texts value
    then all_texts current && same_texts current value
    else equal (array current) (array value)
list_matches _ value = false

abbrev pub is_boolean : Value → Bool
is_boolean (boolean _) = true
is_boolean _ = false

abbrev same_bool : Bool → Bool → Bool
same_bool true b = b
same_bool false b = not b

-- `properties.get("skillContent", properties.get("skillMdContent"))` is a text
abbrev pub has_skill_text : Fields → Bool
has_skill_text properties = elim (get "skillContent" properties) [
  | some (text _) ↦ true
  | some _ ↦ false
  | none ↦ elim (get "skillMdContent" properties) [ some (text _) ↦ true | _ ↦ false ]
]

abbrev pub tags_or_empty : Option Value → Value
tags_or_empty none = array nil
tags_or_empty (some null) = array nil
tags_or_empty (some v) = v

abbrev pub dict_in : Option Value → Option Fields
dict_in (some (object d)) = some d
dict_in _ = none

-- A document of the workflow, with its name, type, tags and properties.
pub record Component : Type 0 where
  pub name : String
  pub kind : String
  pub tags : Value
  pub properties : Fields

abbrev pub fields_of : Component → Fields
fields_of c = field "name" (text c.name) (
    field "type" (text c.kind) (field "tags" c.tags (field "properties" (object c.properties) end)))

module _ (casefold : String → String) where
  abbrev text_properties : List String
  text_properties = "instructions" ∷ "handoffDescription" ∷ "description" ∷ []

  abbrev pub text_matches : String → Option Value → String → Bool
  text_matches key (some (text current)) value =
      if one_of key text_properties
      then str_eq (normalized current) (normalized value)
      else if str_eq key "agentMode"
      then str_eq (casefold current) (casefold value)
      else str_eq current value
  text_matches key _ value = false

  abbrev pub boolean_matches : Option Value → Bool → Bool
  boolean_matches (some (boolean b)) value = same_bool b value
  boolean_matches _ value = false

  abbrev pub other_matches : Option Value → Value → Bool
  other_matches none value = equal null value
  other_matches (some current) value = equal current value && not (is_boolean current)

  -- one round of the loop over the expected properties
  abbrev pub plain_matches : String → Option Value → Value → Bool
  plain_matches key current (text value) = text_matches key current value
  plain_matches key current (array value) = list_matches current value
  plain_matches key current (boolean value) = boolean_matches current value
  plain_matches key current value = other_matches current value

  abbrev pub value_matches : Fields → String → Option Value → Value → Bool
  value_matches properties key current value =
      if str_eq key "skillContent"
      then has_skill_text properties && content_matches properties value
      else plain_matches key current value

  -- `properties.get(key)`, or the name of a skill whose properties have none
  abbrev pub current_of : String → Bool → Fields → String → Option Value
  current_of name is_skill properties key = elim (get key properties) [
    | some v ↦ some v
    | none ↦ if str_eq key "name" && is_skill then some (text name) else none
  ]

  abbrev pub properties_match : String → Bool → Fields → Fields → Bool
  properties_match name is_skill properties end = true
  properties_match name is_skill properties (field key value expected) =
      value_matches properties key (current_of name is_skill properties key) value
      && properties_match name is_skill properties expected

  abbrev pub same_tags : Fields → Component → Bool
  same_tags actual expected =
      equal (tags_or_empty (get "tags" actual)) (tags_or_empty (some expected.tags))

  -- `{key: value ... if key not in INCIDENT_PLAN_READ_ONLY_PROPERTIES}` of a filter
  abbrev pub writable : Bool → Fields → Fields
  writable is_filter d = if is_filter then without read_only_properties d else d

  abbrev pub plan_keys_match : String → Fields → Fields → Bool
  plan_keys_match name properties expected =
      not (str_eq name response_plan_name)
      || keys_in properties expected && keys_in expected properties

  abbrev pub with_properties : Component → Fields → Option Fields → Bool
  with_properties expected actual none = false
  with_properties expected actual (some properties) =
      let is_filter = str_eq expected.kind "IncidentFilter" in
      plan_keys_match expected.name (writable is_filter properties)
        (writable is_filter expected.properties)
      && properties_match expected.name (str_eq expected.kind "Skill")
          (writable is_filter properties) (writable is_filter expected.properties)
      && same_tags actual expected

  unfoldable pub incident_component_matches : Option Value → Component → Bool
  incident_component_matches (some (object actual)) expected =
      holds_text expected.name (get "name" actual)
      && with_properties expected actual (dict_in (get "properties" actual))
  incident_component_matches _ expected = false
