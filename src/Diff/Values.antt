-- ===== src/Diff/Values.antt =====
-- packages/core/src/diff/index.ts: `record`, `keys`, `sameValue`, and how the diff reads a member of
-- an object. Two objects are compared by `===` as objects in memory, which trees do not show: the
-- test is the argument `identical`.
use openapi_to.Common.{
  ℕ, suc, Bool, true, false, ◌&&◌, not, Option, none, some, List, [], ◌∷◌, Text, text, decimal,
  text_eq, sort, text_le, contains, text_equality, max, if◌then◌else◌,
}
use openapi_to.Common.Json.{
  Json, null, bool, num, str, arr, obj, Items, nil, item, Fields, end, field, keys, property,
}

-- The names that every object inherits from `Object.prototype`.
abbrev pub prototype_names : List Text
prototype_names =
    text "constructor"
    ∷ text "__defineGetter__"
    ∷ text "__defineSetter__"
    ∷ text "hasOwnProperty"
    ∷ text "__lookupGetter__"
    ∷ text "__lookupSetter__"
    ∷ text "isPrototypeOf"
    ∷ text "propertyIsEnumerable"
    ∷ text "toString"
    ∷ text "valueOf"
    ∷ text "__proto__"
    ∷ text "toLocaleString"
    ∷ []

-- `value[name]`. What is inherited is a function or `Object.prototype`, with no enumerable property
-- of its own; `record` reads both as an object without members.
unfoldable pub member : Text → Fields → Option Json
member name fs = elim (property name fs) [
  | some v ↦ some v
  | none ↦ if contains prototype_names name then some (obj end) else none
]

-- `name in value`
unfoldable pub is_in : Text → Fields → Bool
unfolding member
is_in name fs = elim (member name fs) [ some v ↦ true | none ↦ false ]

-- `record(value)`
unfoldable pub record_or_empty : Option Json → Fields
record_or_empty (some (obj fs)) = fs
record_or_empty _ = end

-- `record(value[name])`
unfoldable pub record_at : Text → Fields → Fields
unfolding member record_or_empty
record_at name fs = record_or_empty (member name fs)

-- `keys(value)`, `Object.keys(value).sort()`
unfoldable pub sorted_keys : Fields → List Text
sorted_keys fs = sort text_le (keys fs)

-- The own properties of an array.
unfoldable pub indexed : ℕ → Items → Fields
indexed n nil = end
indexed n (item v vs) = field (decimal n) v (indexed (suc n) vs)

unfoldable pub same_texts : List Text → List Text → Bool
same_texts [] [] = true
same_texts (x ∷ xs) (y ∷ ys) = text_eq x y && same_texts xs ys
same_texts _ _ = false

-- `left === right` of values that are not objects, and of objects by `identical`.
unfoldable pub strictly_equal : (Json → Json → Bool) → Option Json → Option Json → Bool
strictly_equal identical none none = true
strictly_equal identical (some null) (some null) = true
strictly_equal identical (some (bool true)) (some (bool b)) = b
strictly_equal identical (some (bool false)) (some (bool b)) = not b
strictly_equal identical (some (num m)) (some (num n)) = text_eq m n
strictly_equal identical (some (str s)) (some (str t)) = text_eq s t
strictly_equal identical (some (arr vs)) (some (arr ws)) = identical (arr vs) (arr ws)
strictly_equal identical (some (obj fs)) (some (obj gs)) = identical (obj fs) (obj gs)
strictly_equal identical _ _ = false

-- `sameValue`. An object in memory is the same as itself, so the first test adds nothing here. The
-- members of objects are compared in the order of the left object; `every` visits them in the
-- order of their names, which does not change its answer.
unfoldable mutual
  unfolding indexed sorted_keys same_texts

  pub same_value : Json → Json → Bool
  same_value null null = true
  same_value (bool true) (bool b) = b
  same_value (bool false) (bool b) = not b
  same_value (num m) (num n) = text_eq m n
  same_value (str s) (str t) = text_eq s t
  same_value (arr vs) (arr ws) = same_items vs ws
  same_value (arr vs) (obj gs) =
      same_texts (sorted_keys (indexed 0 vs)) (sorted_keys gs) && same_indexed 0 vs gs
  same_value (obj fs) (obj gs) = same_texts (sorted_keys fs) (sorted_keys gs) && same_fields fs gs
  same_value (obj fs) (arr ws) =
      same_texts (sorted_keys fs) (sorted_keys (indexed 0 ws)) && same_fields fs (indexed 0 ws)
  same_value _ _ = false

  pub same_items : Items → Items → Bool
  same_items nil nil = true
  same_items (item v vs) (item w ws) = same_value v w && same_items vs ws
  same_items _ _ = false

  pub same_indexed : ℕ → Items → Fields → Bool
  same_indexed n nil gs = true
  same_indexed n (item v vs) gs =
      elim (property (decimal n) gs) [ some w ↦ same_value v w | none ↦ false ]
      && same_indexed (suc n) vs gs

  pub same_fields : Fields → Fields → Bool
  same_fields end gs = true
  same_fields (field k v fs) gs =
      elim (property k gs) [ some w ↦ same_value v w | none ↦ false ] && same_fields fs gs

-- `sameValue` where a side may be `undefined`.
unfoldable pub same_option : Option Json → Option Json → Bool
same_option none none = true
same_option (some v) (some w) = same_value v w
same_option _ _ = false

-- `sameValue` of two objects with the given entries, in the order of their names.
unfoldable pub same_entries : List (Text × Option Json) → List (Text × Option Json) → Bool
same_entries [] [] = true
same_entries ((k, v) ∷ r) ((l, w) ∷ s) = text_eq k l && same_option v w && same_entries r s
same_entries _ _ = false

-- How deep objects nest in a value.
unfoldable mutual
  pub depth : Json → ℕ
  depth (obj fs) = depth_fields fs
  depth _ = 0

  pub depth_fields : Fields → ℕ
  depth_fields end = 0
  depth_fields (field k v fs) = max (suc (depth v)) (depth_fields fs)
