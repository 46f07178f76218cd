-- ===== src/Autopilot/Json.antt =====
-- The values that `JSON.parse` returns, as packages/autopilot/src/task/task-semantic-validator.ts
-- reads them: a property that is absent is `undefined`, here `none`, and a number keeps its text.
use text.Mathlib.Text.{◌==◌ as str_eq}
use autopilot_console.Prelude.{
  Option, some, none, Bool, true, false, String, List, [], ◌∷◌, if◌then◌else◌, ◌||◌,
}

mutual
  pub data Json : Type 0 where
    null : Json
    boolean : Bool → Json
    number : String → Json
    string : String → Json
    array : Items → Json
    object : Fields → Json

  pub data Items : Type 0 where
    nil : Items
    cons : Json → Items → Items

  pub data Fields : Type 0 where
    end : Fields
    field : String → Json → Fields → Fields

abbrev pub items_list : Items → List Json
items_list nil = []
items_list (cons x xs) = x ∷ items_list xs

-- A property of an object.
abbrev pub property : String → Fields → Option Json
property key end = none
property key (field k v rest) =
    let later = property key rest in if str_eq k key then some v else later

-- `isPlainObject`
abbrev pub is_plain_object : Json → Option Fields
is_plain_object (object fields) = some fields
is_plain_object _ = none

-- `typeof value === "string"`
abbrev pub is_string : Option Json → Bool
is_string (some (string s)) = true
is_string _ = false

-- `typeof value !== "string" || value.length === 0`, negated
abbrev pub nonempty_string : Option Json → Option String
nonempty_string (some (string s)) = if str_eq s "" then none else some s
nonempty_string _ = none

abbrev pub is_boolean : Option Json → Bool
is_boolean (some (boolean b)) = true
is_boolean _ = false

-- `value === true`, `value === false`
abbrev pub is_true : Option Json → Bool
is_true (some (boolean b)) = b
is_true _ = false

abbrev pub is_false : Option Json → Bool
is_false (some (boolean true)) = false
is_false (some (boolean false)) = true
is_false _ = false

-- `value.every((item) => typeof item === "string")`
abbrev pub all_strings : Items → Bool
all_strings nil = true
all_strings (cons (string s) rest) = all_strings rest
all_strings (cons _ rest) = false

-- `asStringArray(value) !== null`
abbrev pub is_string_array : Json → Bool
is_string_array (array items) = all_strings items
is_string_array _ = false

-- A string is iterated by its characters.
abbrev pub letters : String → List Json
letters String.[] = []
letters (String.◌∷◌ c s) = string (String.◌∷◌ c String.[]) ∷ letters s

-- `value ?? []` in a `for … of`: `none` where that throws a TypeError.
abbrev pub iterated : Option Json → Option (List Json)
iterated none = some []
iterated (some null) = some []
iterated (some (array items)) = some (items_list items)
iterated (some (string s)) = some (letters s)
iterated (some _) = none

-- A template literal makes a text of the value: `true` where that throws a TypeError. A property named
-- `toString` hides the inherited one and cannot be called; an array makes the texts of its items.
unfoldable mutual
  pub text_throws : Json → Bool
  text_throws (object fields) = elim (property "toString" fields) [ none ↦ false | some v ↦ true ]
  text_throws (array items) = some_text_throws items
  text_throws _ = false

  pub some_text_throws : Items → Bool
  some_text_throws nil = false
  some_text_throws (cons x xs) = text_throws x || some_text_throws xs
