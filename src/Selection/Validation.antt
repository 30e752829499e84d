-- ===== src/Selection/Validation.antt =====
-- packages/core/src/openapi/selection/selection.ts: `validateOperationSelectionManifest` and
-- `parseOperationSelectionManifest`. The list of diagnostics that the code appends to is passed on.
mod MetadataChecks
pub mod MetadataLaws
pub use MetadataChecks.{validate_metadata}
pub mod Parsed
pub mod Roundtrip
use openapi_to.Common.{
  text_equality, ℕ, ◌*◌, Bool, true, false, not, ◌&&◌, ◌||◌, Option, none, some, List, [], ◌∷◌,
  ◌++◌, Text, text, text_eq, contains, filter, length, sort, text_le, utf8_length, decimal, ltb,
  if◌then◌else◌, map,
}
use openapi_to.Common.Json.{
  Json, num, str, arr, obj, Items, items, Fields, keys, property, record_of, string_of, array_of,
  to_string,
}
use openapi_to.Diagnostics.{Diagnostic, plain, error, has_diagnostic_errors, sort_diagnostics}
use openapi_to.Selection.{Manifest, Metadata, normalize_operation_selection}
use MetadataChecks.{invalid, unknown_keys, unsupported_fields, push_if}

pub record ParseResult : Type 0 where
  pub manifest : Option Manifest
  pub diagnostics : List Diagnostic

pub record ValidationOptions : Type 0 where
  pub expected_target : Option Text
  pub expected_selection_owner : Option Text
  pub max_operations : Option ℕ
  pub max_bytes : Option ℕ

abbrev pub default_max_selection_operations : ℕ
default_max_selection_operations = 5000

abbrev pub default_max_selection_bytes : ℕ
default_max_selection_bytes = 1024 * 1024

abbrev pub max_operation_selection_key_bytes : ℕ
max_operation_selection_key_bytes = 500

abbrev pub or_default : Option ℕ → ℕ → ℕ
or_default none d = d
or_default (some n) d = n

-- A text of 1 to 500 bytes.
unfoldable pub is_bounded : Text → Bool
is_bounded [] = false
is_bounded (c ∷ cs) = not (ltb max_operation_selection_key_bytes (utf8_length (c ∷ cs)))

-- `validIdentity(value)`, with the text that it lets through.
unfoldable pub valid_identity : Option Json → Option Text
unfolding is_bounded
valid_identity v = elim (string_of v) [
  | none ↦ none
  | some t ↦ if is_bounded t then some t else none
]

abbrev is_none : Option Text → Bool
is_none none = true
is_none (some t) = false

-- `manifest.version !== 1`
unfoldable pub other_version : Option Json → Bool
other_version (some (num n)) = not (text_eq n (text "1"))
other_version _ = true

printed : Option Json → Text
printed none = text "undefined"
printed (some v) = to_string v

-- `expected !== undefined && value !== expected`
unfoldable pub mismatch : Option Text → Option Json → Bool
mismatch none v = false
mismatch (some t) (some (str u)) = not (text_eq u t)
mismatch (some t) _ = true

or_nothing : Option Text → Text
or_nothing none = []
or_nothing (some t) = t

unfoldable pub too_many : ℕ → Diagnostic
too_many maximum =
    plain (text "SELECTION_MANIFEST_TOO_LARGE") error
      (text "Selection manifest exceeds the " ++ (decimal maximum ++ text " operation limit."))

-- The loop over `operations`; `seen` holds the keys that passed the first test.
unfoldable pub check_keys : List Text → List Json → List Diagnostic → List Diagnostic
check_keys seen [] ds = ds
check_keys seen (v ∷ vs) ds = elim (valid_identity (some v)) [
  | none ↦
      check_keys seen vs (
        ds
        ++ invalid (text "Every selection operationKey must be a non-empty bounded string.") ∷ [])
  | some k ↦ check_keys (k ∷ seen) vs (
      push_if (contains seen k)
        (invalid (text "Selection manifest contains duplicate operationKey " ++ (k ++ text ".")))
        ds)
]

unfoldable pub check_operations : ℕ → Option (List Json) → List Diagnostic → List Diagnostic
unfolding check_keys too_many
check_operations maximum none ds =
    ds ++ invalid (text "Selection manifest operations must be an array.") ∷ []
check_operations maximum (some vs) ds =
    check_keys [] vs (push_if (ltb maximum (length vs)) (too_many maximum) ds)

-- The tests in front of `operations`.
unfoldable pub check_head : Fields → ValidationOptions → List Diagnostic
unfolding printed or_nothing
check_head manifest options =
    let extras = unknown_keys manifest (
      text "version"
      ∷ text "target"
      ∷ text "selectionOwner"
      ∷ text "operations"
      ∷ text "metadata"
      ∷ []) in
    let version = property (text "version") manifest in
    let target = property (text "target") manifest in
    let owner = property (text "selectionOwner") manifest in
    let d₁ =
      unsupported_fields (text "Selection manifest contains unsupported field(s): ") extras [] in
    let d₂ =
      push_if (other_version version)
        (plain (text "SELECTION_MANIFEST_VERSION_UNSUPPORTED") error
          (text "Selection manifest version " ++ (printed version ++ text " is not supported.")))
        d₁ in
    let d₃ =
      push_if (is_none (valid_identity target))
        (invalid (text "Selection manifest target must be a non-empty bounded string.")) d₂ in
    let d₄ =
      push_if (is_none (valid_identity owner))
        (invalid (text "Selection manifest selectionOwner must be a non-empty bounded string."))
        d₃ in
    let d₅ =
      push_if (mismatch options.expected_target target)
        (plain (text "SELECTION_TARGET_MISMATCH") error (
          text "Selection manifest target does not match trusted target "
          ++ (or_nothing options.expected_target ++ text ".")))
        d₄ in
    push_if (mismatch options.expected_selection_owner owner)
      (plain (text "SELECTION_OWNER_MISMATCH") error
        (text "Selection manifest owner does not match the trusted target and output identity."))
      d₅

-- `operations.filter((item) => typeof item === 'string')`
unfoldable pub string_items : List Json → List Text
string_items [] = []
string_items (str t ∷ vs) = t ∷ string_items vs
string_items (_ ∷ vs) = string_items vs

-- The end of `validateOperationSelectionManifest`.
unfoldable pub finish :
    Option Text → Option Text → Option (List Json) → List Diagnostic → Option Metadata → ParseResult
finish (some target) (some owner) (some vs) ds metadata =
    if has_diagnostic_errors ds
    then record { manifest = none; diagnostics = sort_diagnostics ds }
    else record {
      manifest = some (normalize_operation_selection target owner (string_items vs) metadata);
      diagnostics = sort_diagnostics ds;
    }
finish _ _ _ ds metadata = record { manifest = none; diagnostics = sort_diagnostics ds }

unfoldable pub validate_fields : Fields → ValidationOptions → ParseResult
validate_fields manifest options =
    let operations = array_of (property (text "operations") manifest) in
    let maximum = or_default options.max_operations default_max_selection_operations in
    let ds = check_operations maximum operations (check_head manifest options) in
    let (ds', metadata) = validate_metadata (property (text "metadata") manifest) ds in
    finish (valid_identity (property (text "target") manifest))
      (valid_identity (property (text "selectionOwner") manifest)) operations ds' metadata

unfoldable pub validate_operation_selection_manifest : Json → ValidationOptions → ParseResult
validate_operation_selection_manifest value options = elim (record_of value) [
  | none ↦ record {
    manifest = none;
    diagnostics = invalid (text "Selection manifest must be a JSON object.") ∷ [];
  }
  | some manifest ↦ validate_fields manifest options
]

-- `json` is `JSON.parse` behind the strict UTF-8 decoder; `none` is an exception of either.
unfoldable pub parse_operation_selection_manifest :
    (json : List ℕ → Option Json) → List ℕ → ValidationOptions → ParseResult
parse_operation_selection_manifest json bytes options =
    let maximum = or_default options.max_bytes default_max_selection_bytes in
    if ltb maximum (length bytes)
    then record {
      manifest = none;
      diagnostics =
          plain (text "SELECTION_MANIFEST_TOO_LARGE") error
            (text "Selection manifest exceeds the " ++ (decimal maximum ++ text " byte limit."))
          ∷ [];
    }
    else elim (json bytes) [
      | none ↦ record {
        manifest = none;
        diagnostics = invalid (text "Selection manifest is not valid UTF-8 JSON.") ∷ [];
      }
      | some parsed ↦ validate_operation_selection_manifest parsed options
    ]
