-- ===== src/Artifacts/Tests.antt =====
-- Artifacts that are written, and artifacts that are refused.
use openapi_to.Common.{
  ◌≡◌, refl, ℕ, false, Option, none, List, [], ◌∷◌, Text, text, text_eq, text_equality, contains,
  Result, ok, All, sort, insert, any, length, utf8, to_lower_case, lower_unit, split_all, join,
  resolve_path, resolve_below, walk_segments, enter_segment, relative_segments, is_absolute,
  starts_with, absolute_text, replace_unit, text_lt,
}
use openapi_to.Common.Comparison.{compare_text, compare_nat}
use openapi_to.Common.Dictionary.{get, put}
use openapi_to.Common.Json.{Json, str}
use openapi_to.Diagnostics.{has_diagnostic_errors, sort_diagnostics, compare_diagnostics}
use openapi_to.Artifacts.{
  GeneratedArtifact, written_text, sort_generated_artifacts, compare_artifacts, is_outside,
  normalize_artifact_path, kind_of,
}
use openapi_to.Artifacts.Serialization.{content_of}
use openapi_to.Artifacts.Materialization.{
  materialize_artifacts, collect_artifacts, collect_artifact, materialize_artifact, materialize_at,
  materialize_content, first_segment, refuse_conflict, keep_artifact, push_diagnostic,
  is_case_conflict,
}
use openapi_to.Artifacts.Writable.{IsWritable, materialize-IsWritable}
use openapi_to.Artifacts.Completeness.{IsWritten, materialize-IsWritten}

-- A source file is its text.
abbrev full_text : Text → Result (Option Text) Text
full_text t = ok t

abbrev stringify : Json → Text
stringify (str t) = t
stringify _ = []

abbrev sha256 : List ℕ → Text
sha256 bytes = bytes

abbrev file : Text → Text → GeneratedArtifact Text
file path content = record { path = path; payload = written_text content; plugin = none }

abbrev two_files : List (GeneratedArtifact Text)
two_files = file (text "b/../x.ts") (text "x") ∷ file (text "a.ts") (text "y") ∷ []

-- A path that leaves the root, one that is reserved, and two that differ by case.
abbrev bad_files : List (GeneratedArtifact Text)
bad_files =
    file (text "../x") []
    ∷ file (text ".openapi-to-write.lock/y") []
    ∷ file (text "a") []
    ∷ file (text "A") []
    ∷ []

run : Unit {0}
unfolding materialize_artifacts collect_artifacts collect_artifact materialize_artifact
    materialize_at materialize_content first_segment refuse_conflict keep_artifact push_diagnostic
    is_case_conflict content_of sort_generated_artifacts compare_artifacts is_outside
    normalize_artifact_path kind_of sort insert any utf8 to_lower_case lower_unit split_all join
    resolve_path resolve_below walk_segments enter_segment relative_segments is_absolute starts_with
    absolute_text replace_unit text_lt text text_eq contains get put compare_text compare_nat
    sort_diagnostics compare_diagnostics has_diagnostic_errors
run = tt

abbrev output : Text
output = text "/out"

no_errors :
    has_diagnostic_errors (materialize_artifacts [] full_text stringify sha256 output 9 two_files).1
    ≡ false
unfolding run
no_errors = refl

three_refused :
    (length (materialize_artifacts [] full_text stringify sha256 output 9 bad_files).1 ≡ 3)
    × (length (materialize_artifacts [] full_text stringify sha256 output 9 bad_files).0 ≡ 1)
unfolding run
three_refused = (refl, refl)

materialize-IsWritable_example :
    IsWritable [] full_text stringify sha256 output 9 tt
      (materialize_artifacts [] full_text stringify sha256 output 9 two_files).0
materialize-IsWritable_example =
    materialize-IsWritable [] full_text stringify sha256 output 9 tt two_files

materialize-IsWritten_example :
    All
      (IsWritten [] full_text stringify sha256 output 9 tt
        (materialize_artifacts [] full_text stringify sha256 output 9 two_files).0)
      two_files
materialize-IsWritten_example =
    materialize-IsWritten [] full_text stringify sha256 output 9 tt two_files no_errors
