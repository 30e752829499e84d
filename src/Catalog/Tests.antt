-- ===== src/Catalog/Tests.antt =====
-- The theorems on operation keys at concrete inputs.
use openapi_to.Common.{
  sort, filter, any, starts_with, ◌*◌, true, text_equality, Text, text, List, [], ◌∷◌, none, some,
  map, All, IsNub, contains, ◌≡◌, refl, text_eq, false, value_of, subst, Option,
}
use openapi_to.Common.Dictionary.{get, put}
use openapi_to.Catalog.{
  assign_each, operation_key_of, count_id, count_ids, OperationIdentityInput,
  assign_operation_identities, fallback,
}
use openapi_to.Catalog.Search.{
  matches_of, score_all, score_item, is_wanted, score_tokens, finish_score, best_field, fields,
  candidate, includes, OperationCatalogItem, OperationSearchOptions,
  search_operation_catalog_with_metadata,
}
use openapi_to.Catalog.Ranking.{IsRanking, search-IsRanking}
use openapi_to.Catalog.Limits.{
  ContractOptions, resolve_operation_contract_limits, IsClamped, resolve-IsClamped, bounded,
}
use openapi_to.Common.Numbers.{
  from_zero, below_zero, not_a_number, math_max, math_min, floor, slice_to, exceeds,
}
use openapi_to.Catalog.Keys.{IsKey, assign-IsKey, assign-IsNub}

abbrev operations : List OperationIdentityInput
operations =
    record {
      method = text "GET";
      path = text "/a";
      operation_id = some (text "pets");
      source_pointer = text "/paths/~1a/get";
    }
    ∷ record {
      method = text "PUT";
      path = text "/a";
      operation_id = none;
      source_pointer = text "/paths/~1a/put";
    }
    ∷ []

run : Unit {0}
unfolding assign_operation_identities count_ids count_id get put operation_key_of fallback text
    text_eq contains assign_each
run = tt

keys :
    map (λ i. i.operation_key) (assign_operation_identities operations none).0
    ≡ text "pets" ∷ text "PUT /a" ∷ []
unfolding run
keys = refl

assign-IsKey_example :
    All
      (λ i. IsKey operations i.input i.operation_key)
      (assign_operation_identities operations none).0
assign-IsKey_example = assign-IsKey operations none

different : IsNub (map fallback operations)
unfolding run
different = (refl, (refl, tt))

pets_is_no_fallback :
    (id : Text) → some (text "pets") ≡ some id → contains (map fallback operations) id ≡ false
unfolding run
pets_is_no_fallback id h =
    subst (λ t. contains (map fallback operations) t ≡ false) (value_of h) refl

none_has_no_id :
    (id : Text)
    → (let o : Option Text = none in o) ≡ some id
    → contains (map fallback operations) id ≡ false
none_has_no_id id h = cc

assign-IsNub_example :
    IsNub (map (λ i. i.operation_key) (assign_operation_identities operations none).0)
assign-IsNub_example =
    assign-IsNub operations none different (pets_is_no_fallback, (none_has_no_id, tt))

abbrev pet : OperationCatalogItem
pet = record {
  operation_key = text "getPet";
  operation_id = some (text "getPet");
  method = text "GET";
  path = text "/pet";
  tags = [];
  summary = none;
  description = none;
  parameter_names = [];
  request_schema_names = [];
  response_schema_names = [];
  response_property_names = [];
  deprecated = true;
  source_pointer = text "/paths/~1pet/get";
}

abbrev everything : OperationSearchOptions
everything = record { limit = none; methods = []; tags = []; include_deprecated = true }

search-IsRanking_example :
    IsRanking
      (λ t. t)
      (λ t. t ∷ [])
      (pet ∷ [])
      (text "pet")
      everything
      (search_operation_catalog_with_metadata
        (λ t. t)
        (λ t. t ∷ [])
        (pet ∷ [])
        (text "pet")
        everything)
search-IsRanking_example =
    search-IsRanking (λ t. t) (λ t. t ∷ []) (pet ∷ []) (text "pet") everything

-- Also what is no whole number is asked for.
abbrev asked : ContractOptions
asked = record {
  schema_depth = some (from_zero 99 false);
  max_schemas = none;
  max_properties_per_schema = some (below_zero 3 false);
  include_examples = none;
  max_bytes = some not_a_number;
}

resolve-IsClamped_example :
    IsClamped 0 10 2 asked.schema_depth (resolve_operation_contract_limits asked).schema_depth
    × IsClamped 0 100 20 asked.max_schemas (resolve_operation_contract_limits asked).max_schemas
    × IsClamped 0 500 50 asked.max_properties_per_schema
        (resolve_operation_contract_limits asked).max_properties_per_schema
    × IsClamped 1024
        (1024 * 1024)
        (128 * 1024)
        asked.max_bytes
        (resolve_operation_contract_limits asked).max_bytes
resolve-IsClamped_example = resolve-IsClamped asked

-- `NaN` passes the clamp.
bytes_nan : (resolve_operation_contract_limits asked).max_bytes ≡ not_a_number
unfolding resolve_operation_contract_limits bounded math_max math_min floor
bytes_nan = refl

-- With a limit that is `NaN` there are no results, though there is a match, and nothing is said to be cut.
search_nan :
    search_operation_catalog_with_metadata
      (λ t. t)
      (λ t. t ∷ [])
      (pet ∷ [])
      (text "getPet")
      (record everything { limit = some not_a_number })
    ≡ record { total_matches = 1; items = []; truncated = false }
unfolding search_operation_catalog_with_metadata matches_of score_all score_item is_wanted
    score_tokens finish_score best_field fields candidate includes slice_to exceeds math_max
    math_min floor sort filter any starts_with text_eq text
search_nan = refl
