-- ===== src/ResponseStatus/Responses.antt =====
-- packages/core/src/OpenAPIContext/responseStatus.ts: the responses of an operation, how a chain of
-- references to a response is followed, and what each response is described as.
use openapi_to.Common.{
  text_equality, ℕ, zero, suc, Text, true, false, Option, none, some, List, [], ◌∷◌, ◌++◌, map,
  contains, text_eq, find, lower_unit,
}
use openapi_to.Common.Comparison.{Sign}
use openapi_to.Common.Dictionary.{get}
use openapi_to.Common.Json.{Json}
use openapi_to.ResponseStatus.{classify_response_status_codes}

-- `true`, `{ $ref }`, or a schema of the document.
pub data Schema : Type 0 where
  anything : Schema
  reference_to : Text → Schema
  given : Json → Schema

pub record Media : Type 0 where
  pub schema : Option Schema

-- `ref` is there when `"$ref" in response`.
pub record Response : Type 0 where
  pub ref : Option Text
  pub description : Option Text
  pub content : Option (List (Text × Media))

pub record ResponseInspection : Type 0 where
  pub content_type : Option Text
  pub description : Option Text
  pub label : Option Text
  pub schema : Option Schema
  pub type : Option Text

pub data ResponseSemanticKind : Type 0 where
  schema_kind unknown_media no_content reference_kind : ResponseSemanticKind

pub record Description : Type 0 where
  pub kind : ResponseSemanticKind
  pub content_type : Option Text
  pub schema : Option Schema
  pub description : Option Text
  pub label : Option Text
  pub type : Option Text

pub data Classification : Type 0 where
  success error : Classification

pub record ResponseDescriptor : Type 0 where
  pub status_code : Text
  pub source_status_code : Text
  pub classification : Classification
  pub described : Description
  pub inspection : List ResponseInspection

-- A value that a pointer stands for.
pub data Value : Type 0 where
  no_record : Value
  response_value : Response → Value

pub record Operation : Type 0 where
  pub responses : List (Text × Response)
  pub response_status_codes : List Text
  pub response_as_json_schema : Text → List ResponseInspection
  pub resolve_pointer : Text → Option Value

abbrev pub map_keys {ℓ} : {V : Type ℓ} → List (Text × V) → List Text
map_keys [] = []
map_keys ((k, v) ∷ m) = k ∷ map_keys m

-- `value || undefined`
abbrev pub if_filled : Option Text → Option Text
if_filled (some (c ∷ cs)) = some (c ∷ cs)
if_filled _ = none

-- `left ?? right`
abbrev pub or_else_use : Option Text → Option Text → Option Text
or_else_use none right = right
or_else_use (some l) right = some l

-- `left || right`
abbrev pub filled_or : Option Text → Option Text → Option Text
filled_or (some (c ∷ cs)) right = some (c ∷ cs)
filled_or _ right = right

abbrev pub no_inspection : ResponseInspection
no_inspection = record {
  content_type = none;
  description = none;
  label = none;
  schema = none;
  type = none;
}

-- `converted?.…`
abbrev pub or_no_inspection : Option ResponseInspection → ResponseInspection
or_no_inspection none = no_inspection
or_no_inspection (some i) = i

-- The result of following references.
pub data Resolved : Type 0 where
  resolved : Response → Resolved
  unresolved out_of_fuel : Resolved

-- The loop of `resolveResponseForInspection`.
unfoldable pub follow : (Text → Option Value) → ℕ → List Text → Response → Resolved
follow pointer zero seen current = out_of_fuel
follow pointer (suc fuel) seen current = elim current.ref [
  | none ↦ resolved current
  | some ref ↦ elim (contains seen ref) [
    | true ↦ unresolved
    | false ↦ elim (pointer ref) [
      | none ↦ unresolved
      | some value ↦ elim value [
        | no_record ↦ unresolved
        | response_value next ↦ follow pointer fuel (ref ∷ seen) next
      ]
    ]
  ]
]

unfoldable pub media_of : Option Text → Response → Option Media
media_of content_type response = elim (if_filled content_type) [
  | none ↦ none
  | some t ↦ elim response.content [ none ↦ none | some content ↦ get t content ]
]

-- The `schema` of a selected media type, or `true`.
abbrev pub schema_or_anything : Option Media → Schema
schema_or_anything none = anything
schema_or_anything (some m) = elim m.schema [ none ↦ anything | some s ↦ s ]

-- The last two branches.
unfoldable pub describe_converted : ResponseInspection → Description
describe_converted converted = elim converted.schema [
  | some s ↦ record {
    kind = schema_kind;
    content_type = converted.content_type;
    schema = some s;
    description = converted.description;
    label = converted.label;
    type = converted.type;
  }
  | none ↦ record {
    kind = no_content;
    content_type = none;
    schema = none;
    description = converted.description;
    label = converted.label;
    type = converted.type;
  }
]

abbrev pub first_inspection : List ResponseInspection → Option ResponseInspection
first_inspection [] = none
first_inspection (i ∷ is) = some i

abbrev pub or_code : Option Text → Text → Text
or_code none code = code
or_code (some source) code = source

unfoldable pub source_status_codes : Operation → List Text
source_status_codes operation = elim operation.responses [
  | [] ↦ operation.response_status_codes
  | r ∷ rs ↦ map_keys (r ∷ rs)
]

-- `sourceStatusCodes.find((status) => …) ?? statusCode`
unfoldable pub source_of : List Text → Text → Text
source_of sources code =
    or_code (find (λ s. text_eq (map lower_unit s) (map lower_unit code)) sources) code

abbrev pub class_of : List Text → Text → Classification
class_of successes code = elim (contains successes code) [ true ↦ success | false ↦ error ]

module _ (get_parameter_content_type : List Text → Option Text) where
  unfoldable pub select_response_content_type : Response → Option Text
  select_response_content_type response = elim response.ref [
    | some t ↦ none
    | none ↦ elim response.content [
      | none ↦ none
      | some content ↦ if_filled (get_parameter_content_type (map_keys content))
    ]
  ]

  unfoldable pub inspect_resolved : Response → List ResponseInspection
  inspect_resolved response = elim (select_response_content_type response) [
    | none ↦ record no_inspection { description = response.description } ∷ []
    | some t ↦
        record {
          content_type = some t;
          description = response.description;
          label = some t;
          schema = some (schema_or_anything (media_of (some t) response));
          type = none;
        }
        ∷ []
  ]

  -- `none` is a chain that is longer than the fuel.
  unfoldable pub inspect_response :
      ℕ → Operation → Text → Option Response → Option (List ResponseInspection)
  inspect_response fuel operation status_code none =
      some (operation.response_as_json_schema status_code)
  inspect_response fuel operation status_code (some response) =
      elim (follow operation.resolve_pointer fuel [] response) [
        | resolved r ↦ some (inspect_resolved r)
        | unresolved ↦ some []
        | out_of_fuel ↦ none
      ]

  -- The branch for a response without `$ref`.
  unfoldable pub describe_inline : Response → ResponseInspection → Description
  describe_inline response converted =
      let description = filled_or response.description converted.description in
      let content_type =
        or_else_use converted.content_type (select_response_content_type response) in
      elim (media_of content_type response) [
        | none ↦ record {
          kind = no_content;
          content_type = none;
          schema = none;
          description = description;
          label = converted.label;
          type = converted.type;
        }
        | some media ↦ elim media.schema [
          | none ↦ record {
            kind = unknown_media;
            content_type = content_type;
            schema = some anything;
            description = description;
            label = converted.label;
            type = converted.type;
          }
          | some s ↦ record {
            kind = schema_kind;
            content_type = content_type;
            schema = some s;
            description = description;
            label = converted.label;
            type = converted.type;
          }
        ]
      ]

  unfoldable pub describe_response : Option Response → Option ResponseInspection → Description
  describe_response none converted = describe_converted (or_no_inspection converted)
  describe_response (some response) converted = elim response.ref [
    | none ↦ describe_inline response (or_no_inspection converted)
    | some [] ↦ describe_converted (or_no_inspection converted)
    | some (c ∷ cs) ↦
        let i = or_no_inspection converted in
        record {
          kind = reference_kind;
          content_type = i.content_type;
          schema = some (reference_to (c ∷ cs));
          description = i.description;
          label = i.label;
          type = i.type;
        }
  ]

  unfoldable pub describe_code : ℕ → Operation → List Text → Text → Option ResponseDescriptor
  describe_code fuel operation successes code =
      let source = source_of (source_status_codes operation) code in
      let response = get source operation.responses in
      elim (inspect_response fuel operation source response) [
        | none ↦ none
        | some inspection ↦ some (record {
          status_code = code;
          source_status_code = source;
          classification = class_of successes code;
          described = describe_response response (first_inspection inspection);
          inspection = inspection;
        })
      ]

  unfoldable pub describe_codes :
      ℕ → Operation → List Text → List Text → Option (List ResponseDescriptor)
  describe_codes fuel operation successes [] = some []
  describe_codes fuel operation successes (code ∷ codes) =
      elim (describe_code fuel operation successes code) [
        | none ↦ none
        | some d ↦ elim (describe_codes fuel operation successes codes) [
          | none ↦ none
          | some ds ↦ some (d ∷ ds)
        ]
      ]

  unfoldable pub describe_operation_responses :
      (Text → Text → Sign) → ℕ → Operation → Option (List ResponseDescriptor)
  describe_operation_responses locale_compare fuel operation =
      let classified =
        classify_response_status_codes locale_compare (source_status_codes operation) in
      describe_codes fuel operation classified.success (classified.success ++ classified.error)
