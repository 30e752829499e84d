-- ===== src/Diff/Sameness.antt =====
-- JSON values are the same as themselves, and so are their parts.
use openapi_to.Common.{
  map, subst, ◌≡◌, refl, true, false, some, List, [], ◌∷◌, Text, text, contains, text_equality,
  text_eq, text_eq_iff, Bool-cases, Option-cases, arith, inl, inr, value_of, if◌then◌else◌,
}
use openapi_to.Common.Json.{
  Json, null, bool, num, str, arr, obj, Items, nil, item, Fields, end, field, keys, property,
}
use openapi_to.Diff.Fuel.{record_at-cases}
use openapi_to.Diff.Contents.{media_schema, content_schemas}
use openapi_to.Diff.Schemas.{untracked}
use openapi_to.Diff.Values.{
  record_or_empty, record_at, same_value, same_items, same_fields, same_texts, sorted_keys,
  same_option, same_entries,
}

-- An object has one property of each name, at every place of a value.
unfoldable mutual
  pub IsJson : Json → Type 0
  IsJson (arr vs) = IsJsonItems vs
  IsJson (obj fs) = IsObject fs
  IsJson _ = Unit

  pub IsJsonItems : Items → Type 0
  IsJsonItems nil = Unit
  IsJsonItems (item v vs) = IsJson v × IsJsonItems vs

  pub IsObject : Fields → Type 0
  IsObject end = Unit
  IsObject (field k v fs) = (contains (keys fs) k ≡ false) × IsJson v × IsObject fs

-- The entries of the first are properties of the second.
abbrev IsPart : Fields → Fields → Type 0
IsPart end gs = Unit
IsPart (field k v fs) gs = (property k gs ≡ some v) × IsPart fs gs

IsPart-field :
    (k : Text) (v : Json) (fs gs : Fields)
    → contains (keys fs) k ≡ false
    → IsPart fs gs
    → IsPart fs (field k v gs)
unfolding keys property contains
IsPart-field k v end gs h p = tt
IsPart-field k v (field j w fs) gs h p =
    (ground (arith, text_eq_iff k j, text_eq_iff j k), IsPart-field k v fs gs (ground arith) p.1)

IsPart-self : (fs : Fields) → IsObject fs → IsPart fs fs
unfolding IsObject property
IsPart-self end h = tt
IsPart-self (field k v fs) h =
    (ground (arith, text_eq_iff k k), IsPart-field k v fs fs h.0 (IsPart-self fs h.2))

pub same_texts_self : (ts : List Text) → same_texts ts ts ≡ true
unfolding same_texts
same_texts_self [] = refl
same_texts_self (t ∷ ts) = ground (arith, text_eq_iff t t, same_texts_self ts)

mutual
  unfolding IsObject same_value

  pub same_value_self : (v : Json) → IsJson v → same_value v v ≡ true
  same_value_self null h = refl
  same_value_self (bool true) h = refl
  same_value_self (bool false) h = refl
  same_value_self (num n) h = (text_eq_iff n n).1 refl
  same_value_self (str t) h = (text_eq_iff t t).1 refl
  same_value_self (arr vs) h = same_items_self vs h
  same_value_self (obj fs) h =
      rw (same_texts_self (sorted_keys fs)) (same_fields_self fs fs h (IsPart-self fs h))

  same_items_self : (vs : Items) → IsJsonItems vs → same_items vs vs ≡ true
  same_items_self nil h = refl
  same_items_self (item v vs) h = rw (same_value_self v h.0) (same_items_self vs h.1)

  same_fields_self : (fs gs : Fields) → IsObject fs → IsPart fs gs → same_fields fs gs ≡ true
  same_fields_self end gs h p = refl
  same_fields_self (field k v fs) gs h p =
      rw (p.0) (rw (same_value_self v h.1) (same_fields_self fs gs h.2 p.1))

pub property-IsJson :
    (k : Text) (fs : Fields) (v : Json) → IsObject fs → property k fs ≡ some v → IsJson v
unfolding IsObject property
property-IsJson k end v h e = cc
property-IsJson k (field j w fs) v h e = elim (Bool-cases (text_eq j k)) [
  | inl same ↦ subst IsJson (value_of (rw (same, if◌then◌else◌) at e)) h.1
  | inr other ↦ property-IsJson k fs v h.2 (rw (other, if◌then◌else◌) at e)
]

pub record_or_empty-IsObject : (v : Json) → IsJson v → IsObject (record_or_empty (some v))
unfolding IsObject record_or_empty
record_or_empty-IsObject (obj fs) h = h
record_or_empty-IsObject (arr vs) h = tt
record_or_empty-IsObject null h = tt
record_or_empty-IsObject (bool b) h = tt
record_or_empty-IsObject (num n) h = tt
record_or_empty-IsObject (str t) h = tt

pub record_at-IsObject : (k : Text) (fs : Fields) → IsObject fs → IsObject (record_at k fs)
unfolding IsObject
record_at-IsObject k fs h = elim (record_at-cases k fs) [
  | inl e ↦ rw e tt
  | inr (v, e, r) ↦ rw r (record_or_empty-IsObject v (property-IsJson k fs v h e))
]

untracked-contains :
    (k : Text) (fs : Fields)
    → contains (keys fs) k ≡ false
    → contains (keys (untracked fs)) k ≡ false
unfolding untracked keys contains
untracked-contains k end h = refl
untracked-contains k (field j v fs) h =
    elim (Bool-cases
      (contains (text "type" ∷ text "properties" ∷ text "required" ∷ text "enum" ∷ []) j)) [
        | inl e ↦ rw (e, if◌then◌else◌) (untracked-contains k fs (ground arith))
        | inr e ↦ rw (e, if◌then◌else◌) (ground (arith, untracked-contains k fs))
      ]

pub untracked-IsObject : (fs : Fields) → IsObject fs → IsObject (untracked fs)
unfolding untracked IsObject
untracked-IsObject end h = tt
untracked-IsObject (field j v fs) h =
    elim (Bool-cases
      (contains (text "type" ∷ text "properties" ∷ text "required" ∷ text "enum" ∷ []) j)) [
        | inl e ↦ rw (e, if◌then◌else◌) (untracked-IsObject fs h.2)
        | inr e ↦
            rw (e, if◌then◌else◌) (untracked-contains j fs h.0, h.1, untracked-IsObject fs h.2)
      ]

same_option_self :
    (k : Text) (fs : Fields) → IsObject fs → same_option (property k fs) (property k fs) ≡ true
unfolding same_option
same_option_self k fs h = elim (Option-cases (property k fs)) [
  | inl e ↦ rw e refl
  | inr (v, e) ↦ rw e (same_value_self v (property-IsJson k fs v h e))
]

property-IsObject :
    (k : Text) (fs : Fields) → IsObject fs → IsObject (record_or_empty (property k fs))
unfolding IsObject record_or_empty
property-IsObject k fs h = elim (Option-cases (property k fs)) [
  | inl e ↦ rw e tt
  | inr (v, e) ↦ rw e (record_or_empty-IsObject v (property-IsJson k fs v h e))
]

same_entries-map :
    (names : List Text) (content : Fields)
    → IsObject content
    → same_entries (map (media_schema content) names) (map (media_schema content) names) ≡ true
unfolding same_entries media_schema
same_entries-map [] content h = refl
same_entries-map (n ∷ names) content h = rw ((text_eq_iff n n).1 refl) (
    rw
      (same_option_self (text "schema") (record_or_empty (property n content))
        (property-IsObject n content h))
      (same_entries-map names content h))

pub content_schemas_self :
    (body : Fields)
    → IsObject body
    → same_entries (content_schemas body) (content_schemas body) ≡ true
unfolding content_schemas
content_schemas_self body h =
    same_entries-map (sorted_keys (record_at (text "content") body))
      (record_at (text "content") body) (record_at-IsObject (text "content") body h)
