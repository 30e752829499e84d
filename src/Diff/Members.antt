-- ===== src/Diff/Members.antt =====
-- What the diff reads of a document in which objects have one property of each name is such again.
use openapi_to.Common.{All, refl, text_equality, some, ◌∷◌, Option, [], Text, List, ◌≡◌, contains}
use openapi_to.Common.{
  ◌≡◌, refl, Option, none, some, List, [], ◌∷◌, ◌++◌, Text, text, contains, text_equality,
  Bool-cases, Option-cases, inl, inr,
}
use openapi_to.Common.Json.{
  Json, null, bool, num, str, arr, obj, Items, nil, item, items, array_of, Fields, property,
}
use openapi_to.Common.Dictionary.{put, All-put}
use openapi_to.Diff.Values.{member, record_at, record_or_empty, prototype_names}
use openapi_to.Diff.Contents.{
  operation_for, parameter_map, put_parameters, parameter_key, list_at, or_nullish, upper,
}
use openapi_to.Diff.Sameness.{IsJson, IsJsonItems, IsObject, property-IsJson, record_at-IsObject}

abbrev pub HoldsObject : Text × Fields → Type 0
HoldsObject entry = IsObject entry.1

put_parameters-All :
    (vs : Items) (m : List (Text × Fields))
    → IsJsonItems vs
    → All HoldsObject m
    → All HoldsObject (put_parameters (items vs) m)
unfolding put_parameters IsObject
put_parameters-All nil m h k = k
put_parameters-All (item (obj fs) vs) m h k = elim (Option-cases (parameter_key fs)) [
  | inl e ↦ rw (e, put_parameters) (put_parameters-All vs m h.1 k)
  | inr (name, e) ↦
      rw (e, put_parameters)
        (put_parameters-All vs (put name fs m) h.1 (All-put HoldsObject name fs m h.0 k))
]
put_parameters-All (item null vs) m h k = put_parameters-All vs m h.1 k
put_parameters-All (item (bool b) vs) m h k = put_parameters-All vs m h.1 k
put_parameters-All (item (num n) vs) m h k = put_parameters-All vs m h.1 k
put_parameters-All (item (str t) vs) m h k = put_parameters-All vs m h.1 k
put_parameters-All (item (arr ws) vs) m h k = put_parameters-All vs m h.1 k

put_parameters-append :
    (vs ws : List Json) (m : List (Text × Fields))
    → put_parameters (vs ++ ws) m ≡ put_parameters ws (put_parameters vs m)
unfolding put_parameters
put_parameters-append [] ws m = refl
put_parameters-append (obj fs ∷ vs) ws m =
    put_parameters-append vs ws (elim (parameter_key fs) [ none ↦ m | some k ↦ put k fs m ])
put_parameters-append (null ∷ vs) ws m = put_parameters-append vs ws m
put_parameters-append (bool b ∷ vs) ws m = put_parameters-append vs ws m
put_parameters-append (num n ∷ vs) ws m = put_parameters-append vs ws m
put_parameters-append (str t ∷ vs) ws m = put_parameters-append vs ws m
put_parameters-append (arr us ∷ vs) ws m = put_parameters-append vs ws m

put_value-All :
    (v : Json) (m : List (Text × Fields))
    → IsJson v
    → All HoldsObject m
    → All HoldsObject (put_parameters (elim (array_of (some v)) [ none ↦ [] | some vs ↦ vs ]) m)
unfolding put_parameters IsObject
put_value-All (arr vs) m j k = put_parameters-All vs m j k
put_value-All null m j k = k
put_value-All (bool b) m j k = k
put_value-All (num n) m j k = k
put_value-All (str t) m j k = k
put_value-All (obj fs) m j k = k

put_list-All :
    (name : Text) (fs : Fields) (m : List (Text × Fields))
    → IsObject fs
    → All HoldsObject m
    → All HoldsObject (put_parameters (list_at name fs) m)
unfolding list_at put_parameters
put_list-All name fs m h k = elim (Option-cases (property name fs)) [
  | inl e ↦ rw (e, list_at) k
  | inr (v, e) ↦ rw (e, list_at) (put_value-All v m (property-IsJson name fs v h e) k)
]

pub parameter_map-All :
    (path_item operation : Fields)
    → IsObject path_item
    → IsObject operation
    → All HoldsObject (parameter_map path_item operation)
unfolding parameter_map
parameter_map-All path_item operation h k =
    rw
      (put_parameters-append (list_at (text "parameters") path_item)
        (list_at (text "parameters") operation) [])
      (put_list-All (text "parameters") operation _ k
        (put_list-All (text "parameters") path_item [] h tt))

or_nullish-IsObject :
    (v : Json) (o : Option Json)
    → IsJson v
    → IsObject (record_or_empty o)
    → IsObject (record_or_empty (or_nullish (some v) o))
unfolding record_or_empty IsObject
or_nullish-IsObject null o j h = h
or_nullish-IsObject (obj gs) o j h = j
or_nullish-IsObject (arr vs) o j h = tt
or_nullish-IsObject (bool b) o j h = tt
or_nullish-IsObject (num n) o j h = tt
or_nullish-IsObject (str t) o j h = tt

-- A member that is read by `??` is a value of the document.
member-IsObject :
    (k : Text) (fs : Fields) (o : Option Json)
    → IsObject fs
    → IsObject (record_or_empty o)
    → IsObject (record_or_empty (or_nullish (member k fs) o))
unfolding record_or_empty member IsObject
member-IsObject k fs o h ho = elim (Option-cases (property k fs)) [
  | inr (v, e) ↦ rw (e, member) (or_nullish-IsObject v o (property-IsJson k fs v h e) ho)
  | inl e ↦ elim (Bool-cases (contains prototype_names k)) [
    | inl i ↦ rw (e, member) (rw i tt)
    | inr n ↦ rw (e, member) (rw n ho)
  ]
]

pub operation_for-IsObject :
    (path_item : Fields) (method : Text)
    → IsObject path_item
    → IsObject (operation_for path_item method)
unfolding operation_for record_at
operation_for-IsObject path_item method h =
    let additional = record_at-IsObject (text "additionalOperations") path_item h in
    member-IsObject method path_item _ h (
      member-IsObject method _ _ additional (
        record_at-IsObject (upper method) (record_at (text "additionalOperations") path_item)
          additional))
