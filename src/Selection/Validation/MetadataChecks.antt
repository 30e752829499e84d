-- ===== src/Selection/Validation/MetadataChecks.antt =====
-- packages/core/src/openapi/selection/selection.ts: `unknownKeys` and `validateMetadata`.
use openapi_to.Common.{
  text_equality, Bool, true, false, not, Option, none, some, List, [], ◌∷◌, ◌++◌, Text, text,
  contains, filter, sort, text_le, if◌then◌else◌,
}
use openapi_to.Common.Json.{Json, str, Fields, keys, property, record_of, string_of}
use openapi_to.Diagnostics.{Diagnostic, plain, error, has_diagnostic_errors}
use openapi_to.Selection.{Metadata}

-- `diagnostic('SELECTION_MANIFEST_INVALID', message)`
abbrev pub invalid : Text → Diagnostic
invalid message = plain (text "SELECTION_MANIFEST_INVALID") error message

-- `if (test) diagnostics.push(diagnostic)`
unfoldable pub push_if : Bool → Diagnostic → List Diagnostic → List Diagnostic
push_if true d ds = ds ++ d ∷ []
push_if false d ds = ds

unfoldable pub unknown_keys : Fields → List Text → List Text
unknown_keys value allowed = sort text_le (filter (λ k. not (contains allowed k)) (keys value))

-- `parts.join(', ')`
unfoldable pub join_comma : List Text → Text
join_comma [] = []
join_comma (t ∷ []) = t
join_comma (t ∷ u ∷ ts) = t ++ (text ", " ++ join_comma (u ∷ ts))

unfoldable pub unsupported_fields : Text → List Text → List Diagnostic → List Diagnostic
unfolding join_comma
unsupported_fields prefix [] ds = ds
unsupported_fields prefix (k ∷ ks) ds =
    ds ++ invalid (prefix ++ (join_comma (k ∷ ks) ++ text ".")) ∷ []

-- `value !== undefined && typeof value !== 'string'`
unfoldable pub is_no_string : Option Json → Bool
is_no_string none = false
is_no_string (some (str t)) = false
is_no_string (some _) = true

unfoldable pub check_metadata : Fields → List Diagnostic → List Diagnostic
check_metadata metadata ds =
    let extras = unknown_keys metadata (text "lastAppliedSpecHash" ∷ text "updatedAt" ∷ []) in
    let d₁ =
      unsupported_fields (text "Selection metadata contains unsupported field(s): ") extras ds in
    let d₂ =
      push_if (is_no_string (property (text "lastAppliedSpecHash") metadata))
        (invalid (text "Selection metadata.lastAppliedSpecHash must be a string when present."))
        d₁ in
    push_if (is_no_string (property (text "updatedAt") metadata))
      (invalid (text "Selection metadata.updatedAt must be a string when present.")) d₂

unfoldable pub metadata_of : Fields → Metadata
metadata_of metadata = record {
  last_applied_spec_hash = string_of (property (text "lastAppliedSpecHash") metadata);
  updated_at = string_of (property (text "updatedAt") metadata);
}

unfoldable pub metadata_fields : Fields → List Diagnostic → List Diagnostic × Option Metadata
unfolding check_metadata metadata_of
metadata_fields metadata ds =
    let checked = check_metadata metadata ds in
    (checked, if has_diagnostic_errors checked then none else some (metadata_of metadata))

-- The diagnostics so far, and those of the metadata behind them. An earlier error makes the
-- metadata `undefined` too.
unfoldable pub validate_metadata : Option Json → List Diagnostic → List Diagnostic × Option Metadata
unfolding metadata_fields
validate_metadata none ds = (ds, none)
validate_metadata (some v) ds = elim (record_of v) [
  | none ↦ (ds ++ invalid (text "Selection metadata must be an object when present.") ∷ [], none)
  | some metadata ↦ metadata_fields metadata ds
]
