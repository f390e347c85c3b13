-- ===== src/Json.antt =====
-- src/util/json-shape.ts, src/util/error-message.ts: JavaScript values as the source reads them
-- out of `unknown`. A number is a natural number: the modelled code asks of a number only whether
-- it is zero, what its text is and, of the `exp` of a statement, whether it lies ahead. Negative numbers and fractions
-- are left out. `undefined` is `none` of `Option Json`.
use verifier_core.Shared.{
  ℕ, String, Bool, true, false, not, Option, none, some, List, [], ◌∷◌, ◌==◌, nat_eq, if◌then◌else◌,
  is_nonempty, decimal, ◌<>◌,
}

mutual
  pub data Json : Type 0 where
    null : Json
    bool : Bool → Json
    num : ℕ → Json
    str : String → Json
    arr : Items → Json
    obj : Fields → Json

  pub data Items : Type 0 where
    nil : Items
    cons : Json → Items → Items

  pub data Fields : Type 0 where
    end : Fields
    field : String → Json → Fields → Fields

abbrev pub items : Items → List Json
items nil = []
items (cons v vs) = v ∷ items vs

abbrev pub lookup_field : String → Fields → Option Json
lookup_field name end = none
lookup_field name (field k v fs) = if k == name then some v else lookup_field name fs

-- `doc[name]` of an object; a property of any other value is `undefined`.
abbrev pub property : String → Json → Option Json
property name (obj fs) = lookup_field name fs
property name _ = none

-- `Array.isArray(v)`
abbrev is_array : Json → Bool
is_array (arr vs) = true
is_array _ = false

-- `typeof v === 'object' && v !== null`
abbrev pub is_object : Json → Bool
is_object (arr vs) = true
is_object (obj fs) = true
is_object _ = false

abbrev pub is_plain_object : Json → Bool
is_plain_object (obj fs) = true
is_plain_object _ = false

-- `typeof v === 'string'`, with the string
abbrev pub as_string : Option Json → Option String
as_string (some (str s)) = some s
as_string _ = none

-- the truth value of a value that may be missing
abbrev pub is_truthy : Option Json → Bool
is_truthy none = false
is_truthy (some null) = false
is_truthy (some (bool b)) = b
is_truthy (some (num n)) = not (nat_eq n 0)
is_truthy (some (str s)) = is_nonempty s
is_truthy (some (arr vs)) = true
is_truthy (some (obj fs)) = true

abbrev strings : Items → List String
strings nil = []
strings (cons (str s) vs) = s ∷ strings vs
strings (cons _ vs) = strings vs

abbrev pub string_values : Option Json → List String
string_values (some (str s)) = s ∷ []
string_values (some (arr vs)) = strings vs
string_values _ = []

abbrev message_or : Option Json → String → String
message_or (some (str s)) fallback = s
message_or _ fallback = fallback

-- The text of a caught value.
pub error_message : Json → String → String
error_message (str s) fallback = s
error_message (obj fs) fallback = message_or (lookup_field "message" fs) fallback
error_message _ fallback = fallback

-- `{ ...document, [name]: v }`: a property that is there keeps its place.
abbrev set_field : String → Json → Fields → Fields
set_field name v end = field name v end
set_field name v (field k w fs) =
    if k == name then field k v fs else field k w (set_field name v fs)

abbrev pub with_property : String → Json → Json → Json
with_property name v (obj fs) = obj (set_field name v fs)
with_property name v _ = obj (field name v end)

-- The text of an array's item.
abbrev item_text : Json → String → String
item_text null text = ""
item_text v text = text

-- `String(v)`
abbrev mutual
  text_of : Json → String
  text_of null = "null"
  text_of (bool true) = "true"
  text_of (bool false) = "false"
  text_of (num n) = decimal n
  text_of (str s) = s
  text_of (arr vs) = joined vs
  text_of (obj fs) = "[object Object]"

  joined : Items → String
  joined nil = ""
  joined (cons v nil) = item_text v (text_of v)
  joined (cons v (cons u vs)) = item_text v (text_of v) <> "," <> joined (cons u vs)

-- `String(v)` of a value that may be missing
abbrev pub string_of : Option Json → String
string_of none = "undefined"
string_of (some v) = text_of v
