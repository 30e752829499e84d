-- ===== src/Diff/Properties.antt =====
-- The properties that a schema keeps, at any depth, when `compareSchema` reports nothing breaking.
use openapi_to.Common.{
  refl, if◌then◌else◌, text_eq, text_equality, Bool-cases, Option-cases, ◌&&◌, arith, contains, All,
  some, Option, inl, inr, ◌++◌, ℕ, zero, suc, ◌≡◌, Bool, true, false, List, [], ◌∷◌, Text, text,
}
use openapi_to.Common.Json.{Json, Fields, end, field, keys, property}
use openapi_to.Diff.{Change}
use openapi_to.Diff.Fuel.{contains-both_keys}
use openapi_to.Diff.Values.{is_in, member, record_at, prototype_names}
use openapi_to.Diff.Schemas.{both_keys, compare_schema, property_changes}
use openapi_to.Diff.Safety.{
  IsSafeResult, then_add-IsSafe, last-IsSafe, for_each-IsSafe, removal_is_unsafe, is_in_of_keys,
}

-- A name that no object inherits.
abbrev pub IsOwn : Text → Type 0
IsOwn name = contains prototype_names name ≡ false

keys_of_property :
    (k : Text) (fs : Fields) (v : Json) → property k fs ≡ some v → contains (keys fs) k ≡ true
unfolding property keys contains
keys_of_property k end v h = cc h
keys_of_property k (field j w fs) v h = elim (Bool-cases (text_eq j k)) [
  | inl same ↦ ground arith
  | inr other ↦ ground (arith, keys_of_property k fs v (rw (other, if◌then◌else◌) at h))
]

-- What is in an object and not inherited is a key of it.
pub keys_of_is_in :
    (k : Text) (fs : Fields) → IsOwn k → is_in k fs ≡ true → contains (keys fs) k ≡ true
unfolding is_in member
keys_of_is_in k fs own h = elim (Option-cases (property k fs)) [
  | inr (v, e) ↦ keys_of_property k fs v e
  | inl e ↦ let lost : is_in k fs ≡ false = rw (e, is_in, member) (rw own refl) in cc (lost, h)
]

-- The schema has the property that the names lead to, one nested in the other.
abbrev pub has_property : List Text → Fields → Bool
has_property [] schema = true
has_property (p ∷ ps) schema =
    let properties = record_at (text "properties") schema in
    contains (keys properties) p && has_property ps (record_at p properties)

abbrev pub KeepsProperties : Fields → Fields → Type 0
KeepsProperties before after =
    (ps : List Text) → All IsOwn ps → has_property ps before ≡ true → has_property ps after ≡ true

module _ (identical : Json → Json → Bool) (stringify : Json → Text) where
  property-kept :
      (compare : Fields → Fields → List Text → Option (List Change)) (before after : Fields)
      (path : List Text) (name : Text)
      → is_in name (record_at (text "properties") before) ≡ true
      → IsSafeResult (property_changes compare before after path name)
      → (is_in name (record_at (text "properties") after) ≡ true)
        × IsSafeResult (
            compare
              (record_at name (record_at (text "properties") before))
              (record_at name (record_at (text "properties") after))
              (path ++ text "properties" ∷ name ∷ []))
  unfolding property_changes
  property-kept compare before after path name here h =
      elim (Bool-cases (is_in name (record_at (text "properties") after))) [
        | inl e ↦ (e, rw (here, e) at h)
        | inr e ↦ absurd (removal_is_unsafe _ _ _ (rw (here, e) at h))
      ]

  pub compare_schema-KeepsProperties :
      (fuel : ℕ) (before after : Fields) (path : List Text)
      → IsSafeResult (compare_schema identical stringify fuel before after path)
      → KeepsProperties before after
  unfolding compare_schema
  compare_schema-KeepsProperties fuel before after path h [] own had = refl
  compare_schema-KeepsProperties zero before after path (cs, e, quiet) (p ∷ ps) own had = cc e
  compare_schema-KeepsProperties (suc fuel) before after path h (p ∷ ps) own had =
      let old = record_at (text "properties") before in
      let new = record_at (text "properties") after in
      let loop = last-IsSafe _ _ (then_add-IsSafe _ _ (then_add-IsSafe _ _ h).0).0 in
      let body =
        for_each-IsSafe (both_keys old new) _ p (ground (arith, contains-both_keys old new p))
          loop in
      let (has, kept) =
        property-kept (compare_schema identical stringify fuel) before after path p
          (is_in_of_keys p old (ground arith)) (then_add-IsSafe _ _ body).0 in
      ground (
        arith,
        keys_of_is_in p new own.0 has,
        compare_schema-KeepsProperties fuel (record_at p old) (record_at p new) _ kept ps own.1
            (ground arith),
      )
