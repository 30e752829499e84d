-- ===== src/Common/Json.antt =====
-- Values of type `unknown` that come from JSON. A number is its `String(n)`; an object is its own
-- enumerable properties in order.
use mathlib.Core.Bool.{Bool, true, false}
use mathlib.Core.Option.{Option, none, some}
use mathlib.Core.List.{List, [], ◌∷◌, ◌++◌}
use openapi_to.Common.Strings.{Text, text, text_eq, text_equality}
use openapi_to.Common.Tests.{if◌then◌else◌}

mutual
  pub data Json : Type 0 where
    null : Json
    bool : Bool → Json
    num : Text → Json
    str : Text → Json
    arr : Items → Json
    obj : Fields → Json

  pub data Items : Type 0 where
    nil : Items
    item : Json → Items → Items

  pub data Fields : Type 0 where
    end : Fields
    field : Text → Json → Fields → Fields

abbrev pub items : Items → List Json
items nil = []
items (item v vs) = v ∷ items vs

abbrev pub fields : Fields → List (Text × Json)
fields end = []
fields (field k v fs) = (k, v) ∷ fields fs

-- `Object.keys(value)`
unfoldable pub keys : Fields → List Text
keys end = []
keys (field k v fs) = k ∷ keys fs

-- `value.key`; `none` is `undefined`.
unfoldable pub property : Text → Fields → Option Json
property k end = none
property k (field j v fs) = if text_eq j k then some v else property k fs

-- `record(value)`: an object that is no array.
abbrev pub record_of : Json → Option Fields
record_of (obj fs) = some fs
record_of _ = none

-- `typeof value === 'string'`
abbrev pub string_of : Option Json → Option Text
string_of (some (str t)) = some t
string_of _ = none

-- `Array.isArray(value)`
abbrev pub array_of : Option Json → Option (List Json)
array_of (some (arr vs)) = some (items vs)
array_of _ = none

abbrev pub strings : List Text → Items
strings [] = nil
strings (t ∷ ts) = item (str t) (strings ts)

-- `String(value)`. In an array `null` prints as nothing.
unfoldable mutual
  pub to_string : Json → Text
  to_string null = text "null"
  to_string (bool true) = text "true"
  to_string (bool false) = text "false"
  to_string (num n) = n
  to_string (str t) = t
  to_string (arr vs) = join_items vs
  to_string (obj fs) = text "[object Object]"

  pub join_items : Items → Text
  join_items nil = []
  join_items (item null nil) = []
  join_items (item v nil) = to_string v
  join_items (item null vs) = text "," ++ join_items vs
  join_items (item v vs) = to_string v ++ (text "," ++ join_items vs)
