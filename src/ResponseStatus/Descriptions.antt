-- ===== src/ResponseStatus/Descriptions.antt =====
-- The descriptors of an operation: following references ends, and each code has its descriptor.
use openapi_to.Common.{
  text_equality, ℕ, zero, suc, ◌+◌, ◌<◌, Text, Bool, true, false, Option, none, some, List, [], ◌∷◌,
  ◌++◌, map, contains, length, ◌≡◌, ◌≢◌, refl, arith, Bool-cases, Option-cases, inl, inr, All,
  IsNub, length-IsNub-le,
}
use openapi_to.Common.Comparison.{Sign}
use openapi_to.Common.Dictionary.{get}
use openapi_to.ResponseStatus.{classify_response_status_codes}
use openapi_to.ResponseStatus.Responses.{
  select_response_content_type, or_else_use, media_of, or_no_inspection, Description, Schema,
  describe_inline, describe_converted, Value, no_record, response_value, Response, Resolved,
  resolved, unresolved, out_of_fuel, follow, Operation, inspect_response, ResponseInspection,
  ResponseDescriptor, describe_code, describe_codes, describe_operation_responses,
  source_status_codes, source_of, class_of, describe_response, ResponseSemanticKind, no_content,
  reference_kind,
}

-- The list holds every reference that stands in place of a response.
pub record IsClosed (operation : Operation) (references : List Text) : Type 0 where
  pub at_pointer :
      (pointer : Text) (r : Response) (ref : Text)
      → operation.resolve_pointer pointer ≡ some (response_value r)
      → r.ref ≡ some ref
      → contains references ref ≡ true
  pub at_code :
      (code : Text) (r : Response) (ref : Text)
      → get code operation.responses ≡ some r
      → r.ref ≡ some ref
      → contains references ref ≡ true

module _ (operation : Operation) (references : List Text)
    (closed : IsClosed operation references) where
  follow-returns :
      (fuel : ℕ) (seen : List Text) (r : Response)
      → ((ref : Text) → r.ref ≡ some ref → contains references ref ≡ true)
      → IsNub seen
      → All (λ t. contains references t ≡ true) seen
      → length references < length seen + fuel
      → follow operation.resolve_pointer fuel seen r ≢ out_of_fuel
  unfolding follow
  follow-returns zero seen r known single all enough =
      absurd (omega (arith, length-IsNub-le seen references single all, enough))
  follow-returns (suc fuel) seen r known single all enough = elim (Option-cases r.ref) [
    | inl inline ↦ rw (inline, follow) (ground arith)
    | inr (ref, is_ref) ↦ elim (Bool-cases (contains seen ref)) [
      | inl again ↦ rw (is_ref, follow) (rw again (ground arith))
      | inr new ↦ elim (Option-cases (operation.resolve_pointer ref)) [
        | inl missing ↦ rw (is_ref, follow) (rw new (rw missing (ground arith)))
        | inr (value, found) ↦
            rw (is_ref, follow)
              (rw new (
                rw found (
                  onward ref value found new (known ref is_ref)
                    (follow-returns fuel (ref ∷ seen)))))
      ]
    ]
  ]
    where
      onward :
          (ref : Text) (value : Value)
          → operation.resolve_pointer ref ≡ some value
          → contains seen ref ≡ false
          → contains references ref ≡ true
          → ((next : Response)
              → ((u : Text) → next.ref ≡ some u → contains references u ≡ true)
              → IsNub (ref ∷ seen)
              → All (λ t. contains references t ≡ true) (ref ∷ seen)
              → length references < length (ref ∷ seen) + fuel
              → follow operation.resolve_pointer fuel (ref ∷ seen) next ≢ out_of_fuel)
          → (elim value [
            | no_record ↦ unresolved
            | response_value next ↦ follow operation.resolve_pointer fuel (ref ∷ seen) next
          ])
            ≢ out_of_fuel
      onward ref no_record found new there rec = ground arith
      onward ref (response_value next) found new there rec =
          rec next (λ u h. closed.at_pointer ref next u found h) (new, single) (there, all)
            (omega (arith, enough))

  module _ (get_parameter_content_type : List Text → Option Text) (fuel : ℕ)
      (enough : length references < fuel) where
    inspect-returns :
        (code : Text)
        → (is : List ResponseInspection) × (inspect_response get_parameter_content_type fuel
              operation code
              (get code operation.responses)
            ≡ some is)
    unfolding inspect_response
    inspect-returns code = elim (Option-cases (get code operation.responses)) [
      | inl missing ↦ rw missing (operation.response_as_json_schema code, refl)
      | inr (r, found) ↦ rw found (
          ended r (follow operation.resolve_pointer fuel [] r) refl (
            follow-returns fuel [] r (λ ref h. closed.at_code code r ref found h) tt tt
              (omega (arith, enough))))
    ]
      where
        ended :
            (r : Response) (o : Resolved)
            → follow operation.resolve_pointer fuel [] r ≡ o
            → follow operation.resolve_pointer fuel [] r ≢ out_of_fuel
            → (is : List ResponseInspection) × (inspect_response get_parameter_content_type fuel
                  operation code
                  (some r)
                ≡ some is)
        ended r (resolved s) h returns = rw (h, inspect_response) (_, refl)
        ended r unresolved h returns = rw (h, inspect_response) ([], refl)
        ended r out_of_fuel h returns = absurd (returns h)

    -- A descriptor of the code, with its class.
    abbrev IsDescriptor : List Text → ResponseDescriptor → Type 0
    IsDescriptor successes d =
        (d.classification ≡ class_of successes d.status_code)
        × (d.source_status_code ≡ source_of (source_status_codes operation) d.status_code)

    describe_code-returns :
        (successes : List Text) (code : Text)
        → (d : ResponseDescriptor) × (describe_code get_parameter_content_type fuel operation
              successes code
            ≡ some d)
          × (d.status_code ≡ code)
          × IsDescriptor successes d
    unfolding describe_code
    describe_code-returns successes code =
        let (is, h) = inspect-returns (source_of (source_status_codes operation) code) in
        rw (h, describe_code) (_, refl, refl, (refl, refl))

    describe_codes-returns :
        (successes codes : List Text)
        → (ds : List ResponseDescriptor) × (describe_codes get_parameter_content_type fuel operation
              successes codes
            ≡ some ds)
          × (map (λ d. d.status_code) ds ≡ codes)
          × All (IsDescriptor successes) ds
    unfolding describe_codes
    describe_codes-returns successes [] = ([], refl, refl, tt)
    describe_codes-returns successes (code ∷ codes) =
        let (d, h, same, is) = describe_code-returns successes code in
        let (ds, k, sames, all) = describe_codes-returns successes codes in
        rw (h, describe_codes) (rw k (d ∷ ds, refl, (λ i. same i ∷ sames i), (is, all)))

-- Each classified code gets one descriptor, the successes first, with its class and with the source
-- code found for it. Following references ends: the fuel exceeds the number of references in the
-- document, all of which the list holds.
pub describe-returns :
    (get_parameter_content_type : List Text → Option Text) (locale_compare : Text → Text → Sign)
    (fuel : ℕ) (operation : Operation) (references : List Text)
    → IsClosed operation references
    → length references < fuel
    → (ds : List ResponseDescriptor) × (describe_operation_responses get_parameter_content_type
          locale_compare fuel operation
        ≡ some ds)
      × (map (λ d. d.status_code) ds
          ≡ (classify_response_status_codes locale_compare (source_status_codes operation)).success
            ++ (classify_response_status_codes locale_compare
                (source_status_codes operation)).error)
      × All
          (λ d.
            (d.classification
              ≡ class_of
                  (classify_response_status_codes locale_compare
                    (source_status_codes operation)).success
                  d.status_code)
            × (d.source_status_code ≡ source_of (source_status_codes operation) d.status_code))
          ds
unfolding describe_operation_responses
describe-returns get_parameter_content_type locale_compare fuel operation references closed enough =
    describe_codes-returns operation references closed get_parameter_content_type fuel enough _ _

abbrev is_no_content : ResponseSemanticKind → Bool
is_no_content k = elim k [ no_content ↦ true | _ ↦ false ]

abbrev is_none : Option Schema → Bool
is_none none = true
is_none (some s) = false

-- `response && "$ref" in response && response.$ref`
abbrev pub is_reference : Option Response → Bool
is_reference none = false
is_reference (some r) = elim r.ref [ none ↦ false | some t ↦ elim t [ [] ↦ false | c ∷ cs ↦ true ] ]

abbrev pub is_reference_kind : ResponseSemanticKind → Bool
is_reference_kind k = elim k [ reference_kind ↦ true | _ ↦ false ]

abbrev pub Described : Option Response → Description → Type 0
Described response d =
    (is_none d.schema ≡ is_no_content d.kind) × (is_reference_kind d.kind ≡ is_reference response)

converted-Described : (i : ResponseInspection) → Described none (describe_converted i)
unfolding describe_converted
converted-Described i = elim (Option-cases i.schema) [
  | inl missing ↦ rw (missing, describe_converted) (refl, refl)
  | inr (s, found) ↦ rw (found, describe_converted) (refl, refl)
]

inline-Described :
    (g : List Text → Option Text) (response : Response) (i : ResponseInspection)
    → Described none (describe_inline g response i)
unfolding describe_inline
inline-Described g response i =
    elim (Option-cases
      (media_of (or_else_use i.content_type (select_response_content_type g response)) response)) [
        | inl missing ↦ rw (missing, describe_inline) (refl, refl)
        | inr (media, found) ↦ elim (Option-cases media.schema) [
          | inl unknown ↦ rw (found, describe_inline) (rw unknown (refl, refl))
          | inr (s, known) ↦ rw (found, describe_inline) (rw known (refl, refl))
        ]
      ]

-- Whatever the branch, a response is described without a schema exactly if its kind is no-content,
-- and as a reference exactly if it has a reference that is not empty.
pub describe_response-Described :
    (get_parameter_content_type : List Text → Option Text) (response : Option Response)
    (converted : Option ResponseInspection)
    → Described response (describe_response get_parameter_content_type response converted)
unfolding describe_response
describe_response-Described g none converted = converted-Described (or_no_inspection converted)
describe_response-Described g (some response) converted = elim (Option-cases response.ref) [
  | inl inline ↦
      rw (inline, describe_response) (inline-Described g response (or_no_inspection converted))
  | inr (ref, found) ↦ by_reference ref found
]
  where
    by_reference :
        (ref : Text)
        → response.ref ≡ some ref
        → Described (some response) (describe_response g (some response) converted)
    by_reference [] found =
        rw (found, describe_response) (converted-Described (or_no_inspection converted))
    by_reference (c ∷ cs) found = rw (found, describe_response) (refl, refl)
