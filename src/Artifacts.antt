-- ===== src/Artifacts.antt =====
-- packages/core/src/artifacts/index.ts and types.ts: generated artifacts, where they may be written,
-- and their stable order.
pub mod Serialization
pub mod Materialization
pub mod Below
pub mod Collection
pub mod Writable
pub mod Reports
pub mod Completeness
pub mod Tests
use openapi_to.Common.{
  ℕ, Bool, true, false, ◌||◌, Option, none, some, List, [], ◌∷◌, ◌++◌, Text, text, text_eq,
  starts_with, sort, Result, ok, err, resolve_path, resolve_below, relative_segments, join,
  absolute_text, is_absolute, replace_unit, if◌then◌else◌,
}
use openapi_to.Common.Comparison.{Sign, compare_text, or_else, le_by}
use openapi_to.Common.Json.{Json}
use openapi_to.Diagnostics.{Diagnostic, error, plain, or_empty}

-- The payload of an artifact. A source file of ts-morph is a value of the type `S`; the value of a
-- JSON artifact may be `undefined`.
pub data Payload (S : Type 0) : Type 0 where
  typescript : S → Payload S
  written_text : Text → Payload S
  json : Option Json → Payload S
  binary : List ℕ → Payload S

pub data Kind : Type 0 where
  typescript written_text json binary : Kind

pub record GeneratedArtifact (S : Type 0) : Type 0 where
  pub path : Text
  pub payload : Payload S
  pub plugin : Option Text

pub record MaterializedArtifact : Type 0 where
  pub kind : Kind
  pub path : Text
  pub relative_path : Text
  pub content : List ℕ
  pub hash : Text
  pub plugin : Option Text

unfoldable pub kind_of : {S : Type 0} → Payload S → Kind
kind_of (typescript s) = Kind.typescript
kind_of (written_text t) = Kind.written_text
kind_of (json v) = Kind.json
kind_of (binary bytes) = Kind.binary

kind_text : Kind → Text
kind_text typescript = text "typescript"
kind_text written_text = text "text"
kind_text json = text "json"
kind_text binary = text "binary"

-- `{ code, severity: 'error', message, location: { source }, plugin }`
abbrev pub at_source : Text → Text → Text → Option Text → Diagnostic
at_source code message source plugin = record (plain code error message) {
  location = some (record { source = some source; path = none; line = none; column = none });
  plugin = plugin;
}

-- The test on the result of `path.relative`; on a POSIX host it is never absolute.
unfoldable pub is_outside : Text → Bool
is_outside relative =
    text_eq relative [] || (text_eq relative (text "..") || starts_with (text "../") relative)

-- `normalizeArtifactPath`: the absolute path and the path below the root.
unfoldable pub normalize_artifact_path :
    List Text → Text → Text → Result Diagnostic (List Text × Text)
unfolding is_outside
normalize_artifact_path cwd output_root artifact_path =
    let root = resolve_path cwd output_root in
    let absolute =
      if is_absolute artifact_path
      then resolve_path cwd artifact_path
      else resolve_below root artifact_path in
    let relative = join (text "/") (relative_segments root absolute) in
    if is_outside relative
    then err (
        at_source (text "ARTIFACT_PATH_OUTSIDE_OUTPUT")
          (text "Generated artifact path escapes the output root: " ++ artifact_path) artifact_path
          none)
    else ok (absolute, relative)

unfoldable pub compare_artifacts : {S : Type 0} → GeneratedArtifact S → GeneratedArtifact S → Sign
unfolding kind_text kind_of
compare_artifacts left right =
    or_else
      (compare_text (replace_unit b'\\' (text "/") left.path)
        (replace_unit b'\\' (text "/") right.path))
      (or_else (compare_text (or_empty left.plugin) (or_empty right.plugin))
        (compare_text (kind_text (kind_of left.payload)) (kind_text (kind_of right.payload))))

unfoldable pub sort_generated_artifacts :
    {S : Type 0} → List (GeneratedArtifact S) → List (GeneratedArtifact S)
sort_generated_artifacts = sort (le_by compare_artifacts)
