-- ===== src/Diff/Schemas.antt =====
-- packages/core/src/diff/index.ts: `compareSchema`. It calls itself on the properties that both
-- schemas have; `none` means that the calls nest deeper than the fuel.
use openapi_to.Common.{
  ℕ, zero, suc, Bool, true, false, not, Option, none, some, List, [], ◌∷◌, ◌++◌, map, Text, text,
  contains, text_equality, nub, filter, sorted_set, sort, text_le, if◌then◌else◌,
}
use openapi_to.Common.Json.{Json, obj, str, bool, Fields, end, field, keys, property, array_of}
use openapi_to.Diff.{
  Change, Classification, breaking, non_breaking, warning, add, add_values, breaking_if,
}
use openapi_to.Diff.Values.{is_in, record_at, strictly_equal, same_value}

unfoldable pub strings_in : List Json → List Text
strings_in [] = []
strings_in (str t ∷ vs) = t ∷ strings_in vs
strings_in (_ ∷ vs) = strings_in vs

-- `new Set(Array.isArray(v) ? v.filter((item) => typeof item === 'string') : [])`
unfoldable pub texts_of : Option Json → List Text
unfolding strings_in
texts_of v = elim (array_of v) [ none ↦ [] | some vs ↦ strings_in vs ]

abbrev pub both_keys : Fields → Fields → List Text
both_keys fs gs = sorted_set (keys fs ++ keys gs)

-- The entries that no other test reads.
unfoldable pub untracked : Fields → Fields
untracked end = end
untracked (field k v fs) =
    if contains (text "type" ∷ text "properties" ∷ text "required" ∷ text "enum" ∷ []) k
    then untracked fs
    else field k v (untracked fs)

abbrev pub same_flag : Bool → Bool → Bool
same_flag true b = b
same_flag false b = not b

abbrev pub when : Bool → List Change → List Change
when true cs = cs
when false cs = []

-- One part after the other; no part may be missing.
infixl 5 ◌then_add◌
abbrev pub ◌then_add◌ : Option (List Change) → Option (List Change) → Option (List Change)
(some cs) then_add (some ds) = some (cs ++ ds)
_ then_add _ = none

-- A loop over names whose body adds changes.
unfoldable pub for_each : List Text → (Text → Option (List Change)) → Option (List Change)
for_each [] body = some []
for_each (n ∷ ns) body = body n then_add for_each ns body

-- `new Set(Array.isArray(v) ? v.map((item) => JSON.stringify(item)) : [])`
unfoldable pub enum_values : (Json → Text) → Fields → List Text
enum_values stringify fs = elim (array_of (property (text "enum") fs)) [
  | none ↦ []
  | some vs ↦ nub (map stringify vs)
]

-- One of the loops over values of `enum`.
unfoldable pub enum_entries : Classification → Text → Text → List Text → List Text → List Change
enum_entries classification code what path [] = []
enum_entries classification code what path (i ∷ is) =
    add classification code (text "Enum value " ++ (i ++ what)) (path ++ text "enum" ∷ [])
    ++ enum_entries classification code what path is

-- The members of `xs` that `ys` does not have.
unfoldable pub except : List Text → List Text → List Text
except xs ys = filter (λ i. not (contains ys i)) xs

unfoldable pub enum_changes : (Json → Text) → Fields → Fields → List Text → List Change
unfolding enum_entries enum_values except
enum_changes stringify before after path =
    enum_entries breaking (text "SCHEMA_ENUM_VALUE_REMOVED") (text " was removed.") path
      (sort text_le (except (enum_values stringify before) (enum_values stringify after)))
    ++ enum_entries non_breaking (text "SCHEMA_ENUM_VALUE_ADDED") (text " was added.") path
        (sort text_le (except (enum_values stringify after) (enum_values stringify before)))

unfoldable pub constraint_changes : Fields → Fields → List Text → List Change
constraint_changes before after path =
    when (not (same_value (obj (untracked before)) (obj (untracked after)))) (
      add_values warning (text "SCHEMA_CONSTRAINT_CHANGED")
        (text
          "Schema constraints or composition changed; compatibility cannot be classified reliably by the first-stage diff engine.")
        path (some (obj (untracked before))) (some (obj (untracked after))))

-- A change of the membership in `required`.
unfoldable pub required_changes : Fields → Fields → List Text → Text → List Change
required_changes before after path name =
    let had = contains (texts_of (property (text "required") before)) name in
    let has = contains (texts_of (property (text "required") after)) name in
    when (not (same_flag had has)) (
      add_values (breaking_if has) (text "SCHEMA_PROPERTY_REQUIRED_CHANGED")
        (text "Required state changed for property " ++ (name ++ text "."))
        (path ++ text "required" ∷ name ∷ []) (some (bool had)) (some (bool has)))

-- The first test of the loop over properties.
unfoldable pub property_changes :
    (Fields → Fields → List Text → Option (List Change))
    → Fields
    → Fields
    → List Text
    → Text
    → Option (List Change)
property_changes compare before after path name =
    let old = record_at (text "properties") before in
    let new = record_at (text "properties") after in
    let property_path = path ++ text "properties" ∷ name ∷ [] in
    if not (is_in name old)
    then some (
        add (breaking_if (contains (texts_of (property (text "required") after)) name))
          (text "SCHEMA_PROPERTY_ADDED") (text "Property " ++ (name ++ text " was added."))
          property_path)
    else if not (is_in name new)
    then some (
        add breaking (text "SCHEMA_PROPERTY_REMOVED")
          (text "Property " ++ (name ++ text " was removed.")) property_path)
    else compare (record_at name old) (record_at name new) property_path

module _ (identical : Json → Json → Bool) (stringify : Json → Text) where
  unfoldable pub type_changes : Fields → Fields → List Text → List Change
  type_changes before after path =
      let old = property (text "type") before in
      let new = property (text "type") after in
      when (not (strictly_equal identical old new)) (
        add_values breaking (text "SCHEMA_TYPE_CHANGED") (text "Schema type changed.")
          (path ++ text "type" ∷ []) old new)

  unfoldable pub compare_schema : ℕ → Fields → Fields → List Text → Option (List Change)
  unfolding type_changes enum_changes constraint_changes property_changes required_changes
  compare_schema zero before after path = none
  compare_schema (suc fuel) before after path =
      some (type_changes before after path)
      then_add (for_each
          (both_keys (record_at (text "properties") before) (record_at (text "properties") after))
          (λ name.
            property_changes (compare_schema fuel) before after path name
            then_add some (required_changes before after path name)))
      then_add some (enum_changes stringify before after path)
      then_add some (constraint_changes before after path)
