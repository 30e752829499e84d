-- ===== src/Diff/Removals.antt =====
-- What a result that is not breaking guarantees.
use openapi_to.Common.{
  ◌∙◌, sym, subst, value_of, ◌≡◌, Bool, true, false, some, [], ◌∷◌, Text, text, contains,
  text_equality, any, Bool-cases, arith, inl, inr,
}
use openapi_to.Common.Json.{Json, Fields, keys}
use openapi_to.Diff.{breaking, DiffResult}
use openapi_to.Diff.Properties.{IsOwn, KeepsProperties, keys_of_is_in}
use openapi_to.Diff.Values.{is_in, record_at}
use openapi_to.Diff.Schemas.{for_each}
use openapi_to.Diff.Contents.{is_empty_record, operation_for, operation_methods}
use openapi_to.Diff.Documents.{
  operation_changes, method_changes, path_changes, component_changes, document_changes,
  diff_openapi_documents,
}
use openapi_to.Diff.Summaries.{is_classified}
use openapi_to.Diff.Safety.{
  IsSafeResult, then_add-IsSafe, for_each-IsSafe, removal_is_unsafe, is_in_of_keys,
}
use openapi_to.Diff.Fuel.{diff-IsResult, contains-both_keys}
use openapi_to.Diff.Operations.{
  KeepsOperation, schema_changes-KeepsProperties, operation_changes-KeepsOperation,
}

module _ (identical : Json → Json → Bool) (stringify : Json → Text) where
  path-kept :
      (before after : Fields) (name : Text)
      → is_in name before ≡ true
      → IsSafeResult (path_changes identical stringify before after name)
      → is_in name after ≡ true
  unfolding path_changes
  path-kept before after name here h = elim (Bool-cases (is_in name after)) [
    | inl e ↦ e
    | inr e ↦ absurd (removal_is_unsafe _ _ _ (rw (here, e) at h))
  ]

  component-kept :
      (before after : Fields) (name : Text)
      → is_in name before ≡ true
      → IsSafeResult (component_changes identical stringify before after name)
      → (is_in name after ≡ true) × KeepsProperties (record_at name before) (record_at name after)
  unfolding component_changes
  component-kept before after name here h = elim (Bool-cases (is_in name after)) [
    | inl e ↦ (
      e,
      schema_changes-KeepsProperties identical stringify (record_at name before)
          (record_at name after) _ (rw (here, e) at h),
    )
    | inr e ↦ absurd (removal_is_unsafe _ _ _ (rw (here, e) at h))
  ]

  methods-kept :
      (before after : Fields) (name : Text)
      → is_in name before ≡ true
      → IsSafeResult (path_changes identical stringify before after name)
      → IsSafeResult (
          for_each (operation_methods (record_at name before) (record_at name after)) (
            method_changes identical stringify (record_at name before) (record_at name after) name))
  unfolding path_changes
  methods-kept before after name here h = rw (here, path-kept before after name here h) at h

  operation-kept :
      (before_path after_path : Fields) (path_name method : Text)
      → is_empty_record (operation_for before_path method) ≡ false
      → IsSafeResult (method_changes identical stringify before_path after_path path_name method)
      → (is_empty_record (operation_for after_path method) ≡ false)
        × IsSafeResult (
            operation_changes identical stringify before_path after_path
              (operation_for before_path method)
              (operation_for after_path method)
              method
              path_name
              (text "paths" ∷ path_name ∷ method ∷ []))
  unfolding method_changes
  operation-kept before_path after_path path_name method had h =
      elim (Bool-cases (is_empty_record (operation_for after_path method))) [
        | inr e ↦ (e, rw (had, e) at h)
        | inl e ↦ absurd (removal_is_unsafe _ _ _ (rw (had, e) at h))
      ]

  -- What a document keeps, where a name is none that every object inherits: every path; under a path
  -- every operation of a method that the diff compares, with what the operation keeps; and every
  -- component schema with its properties.
  pub record KeepsInterface (before after : Fields) : Type 0 where
    pub paths :
        (name : Text)
        → IsOwn name
        → contains (keys (record_at (text "paths") before)) name ≡ true
        → contains (keys (record_at (text "paths") after)) name ≡ true
    pub operations :
        (name method : Text)
        → contains (keys (record_at (text "paths") before)) name ≡ true
        → contains
            (operation_methods
              (record_at name (record_at (text "paths") before))
              (record_at name (record_at (text "paths") after)))
            method
          ≡ true
        → is_empty_record (operation_for (record_at name (record_at (text "paths") before)) method)
          ≡ false
        → (is_empty_record (operation_for (record_at name (record_at (text "paths") after)) method)
            ≡ false)
          × KeepsOperation identical stringify
              (record_at name (record_at (text "paths") before))
              (record_at name (record_at (text "paths") after))
              (operation_for (record_at name (record_at (text "paths") before)) method)
              (operation_for (record_at name (record_at (text "paths") after)) method)
    pub schemas :
        (name : Text)
        → IsOwn name
        → contains (keys (record_at (text "schemas") (record_at (text "components") before))) name
          ≡ true
        → (contains (keys (record_at (text "schemas") (record_at (text "components") after))) name
            ≡ true)
          × KeepsProperties
              (record_at name (record_at (text "schemas") (record_at (text "components") before)))
              (record_at name (record_at (text "schemas") (record_at (text "components") after)))

  module _ (before after : Fields)
      (safe : IsSafeResult (document_changes identical stringify before after)) where
    path_safe :
        (name : Text)
        → contains (keys (record_at (text "paths") before)) name ≡ true
        → IsSafeResult (
            path_changes identical stringify
              (record_at (text "paths") before)
              (record_at (text "paths") after)
              name)
    unfolding document_changes
    path_safe name m =
        for_each-IsSafe _ _ name
          (ground (
            arith,
            contains-both_keys (record_at (text "paths") before) (record_at (text "paths") after)
                name,
          ))
          (then_add-IsSafe _ _ safe).0

    component_safe :
        (name : Text)
        → contains (keys (record_at (text "schemas") (record_at (text "components") before))) name
          ≡ true
        → IsSafeResult (
            component_changes identical stringify
              (record_at (text "schemas") (record_at (text "components") before))
              (record_at (text "schemas") (record_at (text "components") after))
              name)
    unfolding document_changes
    component_safe name m =
        for_each-IsSafe _ _ name
          (ground (
            arith,
            contains-both_keys (record_at (text "schemas") (record_at (text "components") before))
                (record_at (text "schemas") (record_at (text "components") after)) name,
          ))
          (then_add-IsSafe _ _ safe).1

    document_changes-KeepsInterface : KeepsInterface before after
    document_changes-KeepsInterface = record {
      paths = λ name own m.
          keys_of_is_in name _ own (path-kept _ _ name (is_in_of_keys name _ m) (path_safe name m));
      operations = λ name method m k had.
          let (has, kept) = operation-kept _ _ name method had (
            for_each-IsSafe _ _ method k
              (methods-kept _ _ name (is_in_of_keys name _ m) (path_safe name m))) in
          (has, operation_changes-KeepsOperation identical stringify _ _ _ _ method name _ kept);
      schemas = λ name own m.
          let (has, kept) =
            component-kept _ _ name (is_in_of_keys name _ m) (component_safe name m) in
          (keys_of_is_in name _ own has, kept);
    }

  -- When the result is not breaking, the new document still has: every path; under it every operation of
  -- a method that is compared; of the operation every parameter, by place and name, with the properties
  -- of its schema at any depth, the request body with the same schema for each media type, and the
  -- response of every status; and every component schema, with its properties at any depth. Paths,
  -- statuses, component schemas and properties are meant whose names are none that every object
  -- inherits, like `constructor`.
  pub diff-KeepsInterface :
      (before after : Fields) (r : DiffResult)
      → diff_openapi_documents identical stringify before after ≡ some r
      → r.breaking ≡ false
      → KeepsInterface before after
  unfolding diff_openapi_documents
  diff-KeepsInterface before after r e quiet =
      let (changes, r', found, returned, is_result) =
        diff-IsResult identical stringify before after in
      let same : r' ≡ r = value_of (sym returned ∙ e) in
      let calm : r'.breaking ≡ false =
        subst (λ (x : DiffResult). x.breaking ≡ false) (sym same) quiet in
      document_changes-KeepsInterface before after (
        changes,
        found,
        elim (Bool-cases (any (is_classified breaking) changes)) [
          | inr h ↦ h
          | inl h ↦ cc (is_result.is_breaking.1 h, calm)
        ],
      )
