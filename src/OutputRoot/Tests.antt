-- ===== src/OutputRoot/Tests.antt =====
-- Runs on small outputs.
use openapi_to.Common.{
  some, relative_segments, join, lower_unit, to_lower_case, split_all, replace_unit, starts_with,
  is_absolute, contains, any, text_eq, ok, refl, none, ◌≡◌, [], ◌∷◌, ◌++◌, text, Result, Text, List,
  resolve_path,
}
use openapi_to.Artifacts.{is_outside}
use openapi_to.Common.Json.{property, Json, field, end, obj, str}
use openapi_to.Diagnostics.{Diagnostic}
use openapi_to.OutputRoot.{
  base_of, is_outside, is_reserved_unit, resolve_configured_output_root, managed,
  ResolvedOutputRoot,
}
use openapi_to.OutputRoot.Containment.{IsContained, resolve_configured_output_root-IsContained}

abbrev output_of : Text → Text → Json
output_of base dir = obj (field (text "base") (str base) (field (text "dir") (str dir) end))

abbrev cwd : List Text
cwd = text "home" ∷ text "me" ∷ []

-- NFKC of ASCII.
abbrev resolve : Text → Text → Result Diagnostic ResolvedOutputRoot
resolve base dir =
    resolve_configured_output_root (λ t. t) (λ t. t) cwd (text "project") (output_of base dir) none

resolve_api :
    resolve (text "managed") (text "api\\client/")
    ≡ ok (record {
      absolute_path = cwd ++ text "project" ∷ text ".openapi-to" ∷ text "api" ∷ text "client" ∷ [];
      workspace_relative_path = text ".openapi-to/api/client/";
      base = managed;
    })
unfolding resolve_configured_output_root property text_eq text any contains is_absolute starts_with
    replace_unit split_all is_reserved_unit to_lower_case lower_unit join is_outside
    relative_segments resolve_path
resolve_api = refl

-- `./` passes the test on `.`, and the output root is the state root.
resolve_state_root :
    resolve (text "managed") (text "./")
    ≡ ok (record {
      absolute_path = cwd ++ text "project" ∷ text ".openapi-to" ∷ [];
      workspace_relative_path = text ".openapi-to/";
      base = managed;
    })
unfolding resolve_configured_output_root property text_eq text any contains is_absolute starts_with
    replace_unit split_all is_reserved_unit to_lower_case lower_unit join is_outside
    relative_segments resolve_path
resolve_state_root = refl

resolve_configured_output_root-IsContained_example :
    (base_of (some (str (text "managed"))) ≡ some managed)
    × IsContained (resolve_path cwd (text "project")) (record {
      absolute_path = cwd ++ text "project" ∷ text ".openapi-to" ∷ text "api" ∷ text "client" ∷ [];
      workspace_relative_path = text ".openapi-to/api/client/";
      base = managed;
    })
unfolding property text_eq text
resolve_configured_output_root-IsContained_example =
    resolve_configured_output_root-IsContained (λ t. t) (λ t. t) refl refl refl (λ t e. e) cwd
      (text "project") (output_of (text "managed") (text "api\\client/")) none _ resolve_api
