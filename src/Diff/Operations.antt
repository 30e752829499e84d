-- ===== src/Diff/Operations.antt =====
-- What an operation keeps when the diff reports nothing breaking.
use openapi_to.Common.{
  not, ◌&&◌, if◌then◌else◌, refl, contains-append, contains-sorted_set, subst, ◌≡◌, Bool, true,
  false, Option, none, some, List, [], ◌∷◌, ◌++◌, Text, text, contains, text_equality, Bool-cases,
  arith, inl, inr,
}
use openapi_to.Common.Json.{Json, Fields, keys}
use openapi_to.Common.Dictionary.{get}
use openapi_to.Diff.{Change, add, breaking}
use openapi_to.Diff.Properties.{
  IsOwn, KeepsProperties, keys_of_is_in, compare_schema-KeepsProperties,
}
use openapi_to.Diff.Values.{same_entries, is_in, record_at}
use openapi_to.Diff.Schemas.{when, for_each, both_keys}
use openapi_to.Diff.Contents.{content_schemas, is_empty_record, parameter_map}
use openapi_to.Diff.Documents.{
  schema_changes, body_changes, parameter_names, parameter_changes, parameters_changes,
  response_changes, operation_changes,
}
use openapi_to.Diff.Safety.{
  IsSafeResult, then_add-IsSafe, last-IsSafe, for_each-IsSafe, removal_is_unsafe, is_in_of_keys,
  contains_of_get,
}
use openapi_to.Diff.Fuel.{contains-both_keys}

module _ (identical : Json → Json → Bool) (stringify : Json → Text) where
  pub schema_changes-KeepsProperties :
      (before after : Fields) (path : List Text)
      → IsSafeResult (schema_changes identical stringify before after path)
      → KeepsProperties before after
  unfolding schema_changes
  schema_changes-KeepsProperties before after path =
      compare_schema-KeepsProperties identical stringify _ before after path

  response-kept :
      (before after : Fields) (location : List Text) (status : Text)
      → is_in status before ≡ true
      → IsSafeResult (some (response_changes before after location status))
      → is_in status after ≡ true
  unfolding response_changes
  response-kept before after location status here h = elim (Bool-cases (is_in status after)) [
    | inl e ↦ e
    | inr e ↦ absurd (removal_is_unsafe _ _ _ (rw (here, e) at h))
  ]

  parameter_changes-KeepsProperties :
      (before after : Fields) (path : List Text) (name : Text)
      → IsSafeResult (parameter_changes identical stringify (some before) (some after) path name)
      → KeepsProperties (record_at (text "schema") before) (record_at (text "schema") after)
  unfolding parameter_changes
  parameter_changes-KeepsProperties before after path name h =
      schema_changes-KeepsProperties (record_at (text "schema") before)
        (record_at (text "schema") after) (path ++ text "schema" ∷ []) (last-IsSafe _ _ h)

  parameter-kept :
      (before : Fields) (after : Option Fields) (path : List Text) (name : Text)
      → IsSafeResult (parameter_changes identical stringify (some before) after path name)
      → (new : Fields) × (after ≡ some new)
        × KeepsProperties (record_at (text "schema") before) (record_at (text "schema") new)
  unfolding parameter_changes
  parameter-kept before none path name h = absurd (removal_is_unsafe _ _ _ h)
  parameter-kept before (some new) path name h =
      (new, refl, parameter_changes-KeepsProperties before new path name h)

  -- The request body stays, with the same schema for each media type.
  abbrev pub KeepsBody : Fields → Fields → Type 0
  KeepsBody before after =
      is_empty_record before ≡ false
      → (is_empty_record after ≡ false)
        × (same_entries (content_schemas before) (content_schemas after) ≡ true)

  body_part :
      (had has same : Bool) (added : List Change) (code message : Text) (path : List Text)
      (code' message' : Text) (path' : List Text)
      → had ≡ true
      → IsSafeResult (
          some (
            if not had && has
            then added
            else if had && not has
            then add breaking code message path
            else when (not same) (add breaking code' message' path')))
      → (has ≡ true) × (same ≡ true)
  body_part false has same added c m p c' m' p' e h = cc e
  body_part true true true added c m p c' m' p' e h = (refl, refl)
  body_part true true false added c m p c' m' p' e h = absurd (removal_is_unsafe c' m' p' h)
  body_part true false same added c m p c' m' p' e h = absurd (removal_is_unsafe c m p h)

  body-kept :
      (before after : Fields) (location : List Text)
      → IsSafeResult (some (body_changes identical before after location))
      → KeepsBody (record_at (text "requestBody") before) (record_at (text "requestBody") after)
  unfolding body_changes
  body-kept before after location h had =
      let (has, same) =
        body_part (not (is_empty_record (record_at (text "requestBody") before)))
          (not (is_empty_record (record_at (text "requestBody") after)))
          (same_entries (content_schemas (record_at (text "requestBody") before))
            (content_schemas (record_at (text "requestBody") after)))
          _ _ _ _ _ _ _ (ground arith) (then_add-IsSafe (some _) (some _) h).0 in
      (ground arith, same)

  -- What an operation keeps: every parameter with the properties of its schema, the request body, and
  -- the response of every status.
  pub record KeepsOperation (before_path after_path before after : Fields) : Type 0 where
    pub parameters :
        (name : Text) (old : Fields)
        → get name (parameter_map before_path before) ≡ some old
        → (new : Fields) × (get name (parameter_map after_path after) ≡ some new)
          × KeepsProperties (record_at (text "schema") old) (record_at (text "schema") new)
    pub request_body :
        KeepsBody (record_at (text "requestBody") before) (record_at (text "requestBody") after)
    pub responses :
        (status : Text)
        → IsOwn status
        → contains (keys (record_at (text "responses") before)) status ≡ true
        → contains (keys (record_at (text "responses") after)) status ≡ true

  parameters-kept :
      (before after : List (Text × Fields)) (location : List Text) (name : Text) (old : Fields)
      → IsSafeResult (parameters_changes identical stringify before after location)
      → get name before ≡ some old
      → (new : Fields) × (get name after ≡ some new)
        × KeepsProperties (record_at (text "schema") old) (record_at (text "schema") new)
  unfolding parameters_changes
  parameters-kept before after location name old h e =
      let path = location ++ text "parameters" ∷ name ∷ [] in
      parameter-kept old (get name after) path name (
        subst
          (λ o. IsSafeResult (parameter_changes identical stringify o (get name after) path name)) e
          (for_each-IsSafe _ _ name
            (ground (
              arith,
              contains-sorted_set (parameter_names before ++ parameter_names after) name,
              contains-append (parameter_names before) (parameter_names after) name,
              contains_of_get name before old e,
            ))
            h))

  responses-kept :
      (before after : Fields) (location : List Text) (status : Text)
      → IsSafeResult
          (for_each (both_keys before after) (λ s. some (response_changes before after location s)))
      → IsOwn status
      → contains (keys before) status ≡ true
      → contains (keys after) status ≡ true
  responses-kept before after location status h own m = keys_of_is_in status after own (
      response-kept before after location status (is_in_of_keys status before m)
        (for_each-IsSafe _ _ status (ground (arith, contains-both_keys before after status)) h))

  pub operation_changes-KeepsOperation :
      (before_path after_path before after : Fields) (method path_name : Text)
      (location : List Text)
      → IsSafeResult (
          operation_changes identical stringify before_path after_path before after method path_name
            location)
      → KeepsOperation before_path after_path before after
  unfolding operation_changes
  operation_changes-KeepsOperation before_path after_path before after method path_name location h =
      let parts = then_add-IsSafe _ _ h in
      let front = then_add-IsSafe _ _ parts.0 in
      record {
        parameters = λ name old.
            parameters-kept (parameter_map before_path before) (parameter_map after_path after)
              location name old (last-IsSafe _ _ front.0);
        request_body = body-kept before after location front.1;
        responses = λ status.
            responses-kept (record_at (text "responses") before)
              (record_at (text "responses") after) location status parts.1;
      }
