-- ===== src/ResponseStatus/Tests.antt =====
-- The theorems on responses at concrete inputs.
use openapi_to.Common.{
  ◌∙◌, text_equality, nat_equality, Text, text, List, [], ◌∷◌, ◌++◌, Option, none, some, map, nub,
  ◌≡◌, refl, arith, All, contains, true, text_eq, text_eq_iff, sort, insert, filter, remove,
  upper_unit, lower_unit, value_of, sym, ap,
}
use openapi_to.Common.Comparison.{Sign, zero, compare_nat}
use openapi_to.Common.Dictionary.{get-All}
use openapi_to.ResponseStatus.{
  rank, compare_rank, compare_status, default_error, choose_success, documented_success, is_three,
  classify_unique, classify_response_status_codes, canonicalize_status,
}
use openapi_to.ResponseStatus.Classification.{IsClassification, classify-IsClassification}
use openapi_to.ResponseStatus.Responses.{
  response_value, Response, Operation, Value, ResponseDescriptor, describe_operation_responses,
  source_status_codes, class_of, source_of, describe_response,
}
use openapi_to.ResponseStatus.Descriptions.{
  IsClosed, describe-returns, Described, describe_response-Described,
}

abbrev locale_compare : Text → Text → Sign
locale_compare l r = zero

abbrev codes : List Text
codes = text "404" ∷ text "Default" ∷ text "2xx" ∷ text "200" ∷ text "DEFAULT" ∷ text "5xx" ∷ []

run : Unit {0}
unfolding classify_response_status_codes classify_unique canonicalize_status is_three
    documented_success sort insert filter nub remove contains text text_eq upper_unit lower_unit
    choose_success default_error compare_status compare_rank rank compare_nat
run = tt

classes : classify_response_status_codes locale_compare codes ≡ record {
  success = text "200" ∷ text "2XX" ∷ [];
  error = text "404" ∷ text "5XX" ∷ text "default" ∷ [];
}
unfolding run
classes = refl

classify-IsClassification_example :
    IsClassification
      (nub (map canonicalize_status codes))
      (classify_response_status_codes locale_compare codes)
classify-IsClassification_example = classify-IsClassification locale_compare codes

-- An operation whose only response refers to a response that refers to itself.
abbrev operation : Operation
operation = record {
  responses =
      (text "200", record { ref = some (text "r"); description = none; content = none }) ∷ [];
  response_status_codes = [];
  response_as_json_schema = λ code. [];
  resolve_pointer = λ pointer.
      some (response_value (record { ref = some (text "r"); description = none; content = none }));
}

abbrev no_type : List Text → Option Text
no_type types = none

r_is_listed : (ref : Text) → some (text "r") ≡ some ref → contains (text "r" ∷ []) ref ≡ true
unfolding contains
r_is_listed ref h = ground (arith, text_eq_iff (text "r") ref, value_of h)

abbrev self : Response
self = record { ref = some (text "r"); description = none; content = none }

IsClosed-operation : IsClosed operation (text "r" ∷ [])
IsClosed-operation = record {
  at_pointer =
      λ pointer r ref h k. r_is_listed ref (ap (λ (q : Response). q.ref) (same_response h) ∙ k);
  at_code = λ code r ref h k. r_is_listed ref (
      sym (
        get-All (λ (p : Text × Response). p.1.ref ≡ some (text "r")) code r operation.responses
          (refl, tt) h)
      ∙ k);
}
  where
    same_response :
        {r : Response}
        → (let v : Option Value = some (response_value self) in v) ≡ some (response_value r)
        → self ≡ r
    same_response h = cc

describe-returns_example :
    (ds : List ResponseDescriptor) × (describe_operation_responses no_type locale_compare 2
        operation
      ≡ some ds)
    × (map (λ d. d.status_code) ds
        ≡ (classify_response_status_codes locale_compare (source_status_codes operation)).success
          ++ (classify_response_status_codes locale_compare (source_status_codes operation)).error)
    × All
        (λ d.
          (d.classification
            ≡ class_of
                (classify_response_status_codes locale_compare
                  (source_status_codes operation)).success
                d.status_code)
          × (d.source_status_code ≡ source_of (source_status_codes operation) d.status_code))
        ds
describe-returns_example =
    describe-returns no_type locale_compare 2 operation (text "r" ∷ []) IsClosed-operation
      (omega arith)

describe_response-Described_example :
    Described (some self) (describe_response no_type (some self) none)
describe_response-Described_example = describe_response-Described no_type (some self) none
