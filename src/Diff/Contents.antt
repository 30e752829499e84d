-- ===== src/Diff/Contents.antt =====
-- packages/core/src/diff/index.ts: what `diffOpenAPIDocuments` reads of a path item and an operation.
-- `toLowerCase` and `toUpperCase` are those of ASCII.
use openapi_to.Common.{
  to_lower_case, Bool, true, false, Option, none, some, List, [], ◌∷◌, ◌++◌, map, Text, text,
  text_equality, sorted_set, upper_unit,
}
use openapi_to.Common.Dictionary.{put}
use openapi_to.Common.Json.{
  Json, null, bool, obj, Fields, end, field, property, array_of, string_of,
}
use openapi_to.Diff.Values.{member, record_at, record_or_empty, sorted_keys}

-- `operationMethods` of packages/core/src/openapi/validator.ts.
abbrev pub http_operation_methods : List Text
http_operation_methods =
    text "delete"
    ∷ text "get"
    ∷ text "head"
    ∷ text "options"
    ∷ text "patch"
    ∷ text "post"
    ∷ text "put"
    ∷ text "trace"
    ∷ []

unfoldable pub upper : Text → Text
upper t = map upper_unit t

-- `a ?? b`
abbrev pub or_nullish : Option Json → Option Json → Option Json
or_nullish none b = b
or_nullish (some null) b = b
or_nullish (some v) b = some v

-- `Object.keys(fs).length === 0`
abbrev pub is_empty_record : Fields → Bool
is_empty_record end = true
is_empty_record (field k v fs) = false

-- `v === true`
abbrev pub is_true : Option Json → Bool
is_true (some (bool b)) = b
is_true _ = false

-- `${parameter.in}:${parameter.name}`, of a parameter that has both as strings.
unfoldable pub parameter_key : Fields → Option Text
parameter_key fs = elim (string_of (property (text "in") fs)) [
  | none ↦ none
  | some place ↦ elim (string_of (property (text "name") fs)) [
    | none ↦ none
    | some name ↦ some (place ++ (text ":" ++ name))
  ]
]

-- The parameters of `parameterMap`, set one after the other.
unfoldable pub put_parameters : List Json → List (Text × Fields) → List (Text × Fields)
unfolding parameter_key
put_parameters [] m = m
put_parameters (obj fs ∷ vs) m =
    put_parameters vs (elim (parameter_key fs) [ none ↦ m | some k ↦ put k fs m ])
put_parameters (_ ∷ vs) m = put_parameters vs m

unfoldable pub list_at : Text → Fields → List Json
list_at name fs = elim (array_of (property name fs)) [ none ↦ [] | some vs ↦ vs ]

unfoldable pub parameter_map : Fields → Fields → List (Text × Fields)
unfolding put_parameters list_at
parameter_map path_item operation =
    put_parameters (list_at (text "parameters") path_item ++ list_at (text "parameters") operation)
      []

-- One entry of `responseSchema`.
unfoldable pub media_schema : Fields → Text → Text × Option Json
media_schema content media_type =
    (media_type, property (text "schema") (record_or_empty (property media_type content)))

-- `responseSchema`, and `requestSchema` of the body: the schema of each media type, by name.
unfoldable pub content_schemas : Fields → List (Text × Option Json)
unfolding media_schema
content_schemas body =
    let content = record_at (text "content") body in
    map (media_schema content) (sorted_keys content)

unfoldable pub operation_methods : Fields → Fields → List Text
operation_methods before after =
    sorted_set
      (http_operation_methods ++ (text "query" ∷ (lower_names before ++ lower_names after)))
  where
    lower_names : Fields → List Text
    lower_names fs = map to_lower_case (sorted_keys (record_at (text "additionalOperations") fs))

unfoldable pub operation_for : Fields → Text → Fields
unfolding upper
operation_for path_item method =
    let additional = record_at (text "additionalOperations") path_item in
    record_or_empty (
      or_nullish (member method path_item)
        (or_nullish (member method additional) (member (upper method) additional)))

unfoldable pub operation_label : Text → Text → Text
unfolding upper
operation_label method path_name = upper method ++ (text " " ++ path_name)
