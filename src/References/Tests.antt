-- ===== src/References/Tests.antt =====
-- The theorems on references at concrete inputs, and runs of the walk.
use openapi_to.Common.{
  split_all, find, replace_unit, replace_pair, decode_uri_component, text_equality, nat_equality,
  Text, text, [], ◌∷◌, some, none, ok, err, ◌≡◌, ◌≢◌, refl, arith, contains, false, sorted_set, nub,
  remove, filter, sort, insert, text_lt, text_eq,
}
use openapi_to.Common.Json.{keys, Json, obj, field, end, str, Fields, property}
use openapi_to.Common.Dictionary.{get, put}
use openapi_to.References.{
  group_of, decode_pointer_token, match_reference, parsed_reference, own_reference, collect,
  collect_openapi_component_references, references_at, component_map, schemas, group_text,
  ReferenceGraph, component_reference_key, parse_openapi_component_reference, encode_pointer_token,
  build_openapi_reference_graph, edges_of,
}
use openapi_to.Diagnostics.{at_path, info, sort_diagnostics}
use openapi_to.References.Tokens.{parse-component_reference_key, component_reference_key-injective}
use openapi_to.References.Closure.{
  decode_tokens, reference_path, report, close_key, open_key, visit_case, visit, each, walk_from,
  resolve_openapi_component_closure, closure_roots, malformed_uri,
}
use openapi_to.References.Closure.Outcome.{ClosureOutcome, resolve-ClosureOutcome}

abbrev pet : Text
pet = text "a/b~c"

pet_is_named : pet ≢ []
unfolding text
pet_is_named = ground arith

pet_is_plain : contains pet b'%' ≡ false
unfolding text contains
pet_is_plain = refl

parse-component_reference_key_example :
    parse_openapi_component_reference (component_reference_key schemas pet)
    ≡ some (record { group = schemas; name = pet; ref = component_reference_key schemas pet })
parse-component_reference_key_example =
    parse-component_reference_key schemas pet pet_is_named pet_is_plain

component_reference_key-injective_example : (schemas ≡ schemas) × (pet ≡ pet)
component_reference_key-injective_example =
    component_reference_key-injective schemas schemas pet pet refl

-- A reference to a schema.
abbrev reference_to : Text → Json
reference_to ref = obj (field (text "$ref") (str ref) end)

-- Two schemas that refer to each other, one that is not used, and a reference to nothing.
abbrev document : Fields
document =
    field (text "components")
      (obj (
        field (text "schemas")
          (obj (
            field (text "A") (reference_to (text "#/components/schemas/B")) (
              field (text "B") (reference_to (text "#/components/schemas/A"))
                (field (text "C") (reference_to (text "#/components/schemas/D")) end))))
          end))
      end

abbrev graph : ReferenceGraph
graph = build_openapi_reference_graph (some document) none

resolve-ClosureOutcome_example :
    ClosureOutcome graph (closure_roots (reference_to (text "#/components/schemas/A") ∷ []) []) (
      resolve_openapi_component_closure graph none
        (reference_to (text "#/components/schemas/A") ∷ [])
        [])
resolve-ClosureOutcome_example =
    resolve-ClosureOutcome graph none (reference_to (text "#/components/schemas/A") ∷ []) []

run : Unit {0}
unfolding build_openapi_reference_graph edges_of get put component_map references_at
    collect_openapi_component_references collect own_reference parsed_reference
    parse_openapi_component_reference match_reference decode_pointer_token decode_uri_component
    replace_pair replace_unit group_of group_text component_reference_key encode_pointer_token
    sorted_set nub remove filter sort insert text_lt text_eq text contains property keys find
    resolve_openapi_component_closure closure_roots walk_from each visit visit_case open_key
    close_key report reference_path decode_tokens split_all sort_diagnostics
run = tt

closure :
    resolve_openapi_component_closure graph none
      (reference_to (text "#/components/schemas/A") ∷ [])
      []
    ≡ ok (
      text "#/components/schemas/A" ∷ text "#/components/schemas/B" ∷ [],
      at_path
            (text "PROJECTION_REFERENCE_CYCLE")
            info
            (text "Projection preserved the component reference cycle at #/components/schemas/A.")
            (text "components" ∷ text "schemas" ∷ text "A" ∷ [])
          ∷ [],
    )
unfolding run
closure = refl

-- A security scheme that is missing and has a `%` in its name is not reported: the path of the
-- diagnostic is decoded, which throws.
missing_percent :
    resolve_openapi_component_closure graph none [] (text "100%" ∷ []) ≡ err malformed_uri
unfolding run
missing_percent = refl
