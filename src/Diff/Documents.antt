-- ===== src/Diff/Documents.antt =====
-- packages/core/src/diff/index.ts: `diffOpenAPIDocuments` down to the calls of `compareSchema`, one
-- function for each loop body.
use openapi_to.Common.{
  suc, ◌+◌, Bool, not, ◌&&◌, Option, none, some, List, [], ◌∷◌, ◌++◌, map, Text, text,
  text_equality, sorted_set, if◌then◌else◌,
}
use openapi_to.Common.Dictionary.{get}
use openapi_to.Common.Json.{Json, bool, Fields, property}
use openapi_to.Diff.{
  Change, DiffResult, breaking, non_breaking, add, add_values, breaking_if, result_of,
}
use openapi_to.Diff.Values.{is_in, record_at, strictly_equal, same_entries, depth_fields}
use openapi_to.Diff.Schemas.{both_keys, when, ◌then_add◌, for_each, compare_schema}
use openapi_to.Diff.Contents.{
  is_empty_record, is_true, parameter_map, content_schemas, operation_methods, operation_for,
  operation_label,
}

-- The tests on the request body.
unfoldable pub body_changes : (Json → Json → Bool) → Fields → Fields → List Text → List Change
body_changes identical before_operation after_operation location =
    let before = record_at (text "requestBody") before_operation in
    let after = record_at (text "requestBody") after_operation in
    let had = not (is_empty_record before) in
    let has = not (is_empty_record after) in
    let path = location ++ text "requestBody" ∷ [] in
    let old = property (text "required") before in
    let new = property (text "required") after in
    (if not had && has
      then add (breaking_if (is_true new)) (text "REQUEST_BODY_ADDED")
          (text "Request body was added.") path
      else if had && not has
      then add breaking (text "REQUEST_BODY_REMOVED") (text "Request body was removed.") path
      else when (not (same_entries (content_schemas before) (content_schemas after))) (
          add breaking (text "REQUEST_BODY_SCHEMA_CHANGED") (text "Request body schema changed.")
            (path ++ text "content" ∷ [])))
    ++ when (not (strictly_equal identical old new) && (had && has)) (
        add_values (breaking_if (is_true new)) (text "REQUEST_BODY_REQUIRED_CHANGED")
          (text "Request body required state changed.") (path ++ text "required" ∷ [])
          (some (bool (is_true old))) (some (bool (is_true new))))

-- The loop body over the statuses of responses.
unfoldable pub response_changes : Fields → Fields → List Text → Text → List Change
response_changes before after location status =
    let path = location ++ text "responses" ∷ status ∷ [] in
    if not (is_in status before)
    then add non_breaking (text "RESPONSE_ADDED")
        (text "Response " ++ (status ++ text " was added.")) path
    else if not (is_in status after)
    then add breaking (text "RESPONSE_REMOVED")
        (text "Response " ++ (status ++ text " was removed.")) path
    else when
        (not (
          same_entries (content_schemas (record_at status before))
            (content_schemas (record_at status after))))
        (add breaking (text "RESPONSE_SCHEMA_CHANGED")
          (text "Response " ++ (status ++ text " schema changed.")) (path ++ text "content" ∷ []))

-- `[...parameters.keys()]`
unfoldable pub parameter_names : List (Text × Fields) → List Text
parameter_names = map (λ (entry : Text × Fields). entry.0)

module _ (identical : Json → Json → Bool) (stringify : Json → Text) where
  -- A call of `compareSchema`, with fuel for all of its calls of itself.
  unfoldable pub schema_changes : Fields → Fields → List Text → Option (List Change)
  schema_changes before after =
      compare_schema identical stringify (suc (depth_fields before + depth_fields after)) before
        after

  -- The loop body over the parameters.
  unfoldable pub parameter_changes :
      Option Fields → Option Fields → List Text → Text → Option (List Change)
  unfolding schema_changes
  parameter_changes none none path name = some []
  parameter_changes none (some after) path name = some (
      add (breaking_if (is_true (property (text "required") after))) (text "PARAMETER_ADDED")
        (text "Parameter " ++ (name ++ text " was added.")) path)
  parameter_changes (some before) none path name = some (
      add breaking (text "PARAMETER_REMOVED") (text "Parameter " ++ (name ++ text " was removed."))
        path)
  parameter_changes (some before) (some after) path name =
      let old = property (text "required") before in
      let new = property (text "required") after in
      some (
        when (not (strictly_equal identical old new)) (
          add_values (breaking_if (is_true new)) (text "PARAMETER_REQUIRED_CHANGED")
            (text "Required state changed for parameter " ++ (name ++ text "."))
            (path ++ text "required" ∷ []) (some (bool (is_true old))) (some (bool (is_true new)))))
      then_add schema_changes (record_at (text "schema") before) (record_at (text "schema") after)
          (path ++ text "schema" ∷ [])

  -- The loop over the parameters of an operation.
  unfoldable pub parameters_changes :
      List (Text × Fields) → List (Text × Fields) → List Text → Option (List Change)
  unfolding parameter_changes
  parameters_changes before after location =
      for_each (sorted_set (parameter_names before ++ parameter_names after)) (λ name.
        parameter_changes (get name before) (get name after)
          (location ++ text "parameters" ∷ name ∷ []) name)

  -- What the loop over methods does with an operation that both documents have.
  unfoldable pub operation_changes :
      Fields → Fields → Fields → Fields → Text → Text → List Text → Option (List Change)
  unfolding parameters_changes body_changes response_changes
  operation_changes before_path after_path before after method path_name location =
      let old = property (text "operationId") before in
      let new = property (text "operationId") after in
      let before_responses = record_at (text "responses") before in
      let after_responses = record_at (text "responses") after in
      some (
        when (not (strictly_equal identical old new)) (
          add_values breaking (text "OPERATION_ID_CHANGED")
            (text "operationId changed for " ++ (operation_label method path_name ++ text "."))
            (location ++ text "operationId" ∷ []) old new))
      then_add parameters_changes (parameter_map before_path before)
          (parameter_map after_path after) location
      then_add some (body_changes identical before after location)
      then_add for_each (both_keys before_responses after_responses)
          (λ status. some (response_changes before_responses after_responses location status))

  -- The loop body over methods.
  unfoldable pub method_changes : Fields → Fields → Text → Text → Option (List Change)
  unfolding operation_changes
  method_changes before_path after_path path_name method =
      let before = operation_for before_path method in
      let after = operation_for after_path method in
      let location = text "paths" ∷ path_name ∷ method ∷ [] in
      if is_empty_record before && not (is_empty_record after)
      then some (
          add non_breaking (text "OPERATION_ADDED")
            (operation_label method path_name ++ text " was added.") location)
      else if not (is_empty_record before) && is_empty_record after
      then some (
          add breaking (text "OPERATION_REMOVED")
            (operation_label method path_name ++ text " was removed.") location)
      else if is_empty_record before
      then some []
      else operation_changes before_path after_path before after method path_name location

  -- The loop body over paths.
  unfoldable pub path_changes : Fields → Fields → Text → Option (List Change)
  unfolding method_changes
  path_changes before after path_name =
      let before_path = record_at path_name before in
      let after_path = record_at path_name after in
      if not (is_in path_name before)
      then some (
          add non_breaking (text "PATH_ADDED") (text "Path " ++ (path_name ++ text " was added."))
            (text "paths" ∷ path_name ∷ []))
      else if not (is_in path_name after)
      then some (
          add breaking (text "PATH_REMOVED") (text "Path " ++ (path_name ++ text " was removed."))
            (text "paths" ∷ path_name ∷ []))
      else for_each (operation_methods before_path after_path)
          (method_changes before_path after_path path_name)

  -- The loop body over the component schemas.
  unfoldable pub component_changes : Fields → Fields → Text → Option (List Change)
  unfolding schema_changes
  component_changes before after name =
      let location = text "components" ∷ text "schemas" ∷ name ∷ [] in
      if not (is_in name before)
      then some (
          add non_breaking (text "SCHEMA_ADDED")
            (text "Component schema " ++ (name ++ text " was added.")) location)
      else if not (is_in name after)
      then some (
          add breaking (text "SCHEMA_REMOVED")
            (text "Component schema " ++ (name ++ text " was removed.")) location)
      else schema_changes (record_at name before) (record_at name after) location

  -- The changes in the order in which the code adds them.
  unfoldable pub document_changes : Fields → Fields → Option (List Change)
  unfolding path_changes component_changes
  document_changes before after =
      let before_paths = record_at (text "paths") before in
      let after_paths = record_at (text "paths") after in
      let before_schemas = record_at (text "schemas") (record_at (text "components") before) in
      let after_schemas = record_at (text "schemas") (record_at (text "components") after) in
      for_each (both_keys before_paths after_paths) (path_changes before_paths after_paths)
      then_add for_each (both_keys before_schemas after_schemas)
          (component_changes before_schemas after_schemas)

  unfoldable pub diff_openapi_documents : Fields → Fields → Option DiffResult
  unfolding document_changes
  diff_openapi_documents before after = elim (document_changes before after) [
    | none ↦ none
    | some changes ↦ some (result_of changes)
  ]
