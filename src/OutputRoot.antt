-- ===== src/OutputRoot.antt =====
-- packages/core/src/config/outputRoot.ts: the output root of a target, without access to the disk. Paths
-- are those of a POSIX host, lower case is that of ASCII, and NFKC and JSON.stringify of a text are
-- arguments.
mod PortableNames
pub mod Segments
pub mod Stacks
pub mod Protection
pub mod Normalization
pub mod Portable
pub mod Containment
pub mod Tests
unfoldable pub use PortableNames.*
use openapi_to.Common.{
  last_is, posix_normalize, ℕ, Bool, true, false, ◌&&◌, ◌||◌, not, Option, none, some, List, [],
  ◌∷◌, ◌++◌, map, Text, text, text_eq, text_equality, nat_equality, contains, any, starts_with,
  length, leb, nat_eq, Result, ok, err, ◌>>=◌, if◌then◌else◌, to_lower_case, split_all, join,
  replace_unit, is_absolute, resolve_path, walk_segments, relative_segments,
}
use mathlib.Core.List.{reverse}
use openapi_to.Common.Json.{string_of, Json, null, str, arr, obj, Fields, end, property, to_string}
use openapi_to.Diagnostics.{Diagnostic, error, plain, key}
use openapi_to.Artifacts.{is_outside}

pub data OutputBase : Type 0 where
  managed workspace : OutputBase

pub record ResolvedOutputRoot : Type 0 where
  pub absolute_path : List Text
  pub workspace_relative_path : Text
  pub base : OutputBase

abbrev pub state_directory_name : Text
state_directory_name = text ".openapi-to"

abbrev pub control_output_segments : List Text
control_output_segments =
    text "selections" ∷ text "transactions" ∷ text "locks" ∷ text "cache" ∷ text "previews" ∷ []

-- `outputError`: an empty target name is left out.
unfoldable pub output_error : Text → Text → Option Text → Option Text → Diagnostic
output_error code message target hint = record (plain code error message) {
  location = elim target [
    | none ↦ none
    | some [] ↦ none
    | some (c ∷ cs) ↦ some (record {
      source = some (c ∷ cs);
      path = some (key (text "output") ∷ []);
      line = none;
      column = none;
    })
  ];
  hint = hint;
}

-- `String(output.base)` where it is there.
abbrev pub base_text : Option Json → Text
base_text none = text "undefined"
base_text (some v) = to_string v

unfoldable pub empty_dir : Option Text → Diagnostic
empty_dir target =
    output_error (text "CONFIG_OUTPUT_PATH_INVALID")
      (text "Configured output.dir must be a non-empty relative path.") target none

-- `if (failed) throw error`
abbrev pub throw_if : Bool → Diagnostic → Result Diagnostic (Unit {0})
throw_if true e = err e
throw_if false e = ok tt

abbrev pub or_throw : {A : Type 0} → Option A → Diagnostic → Result Diagnostic A
or_throw none e = err e
or_throw (some x) e = ok x

abbrev pub fields_of : Json → Fields
fields_of (obj fs) = fs
fields_of _ = end

-- `!output || typeof output !== 'object'`
abbrev pub is_object : Json → Bool
is_object (obj fs) = true
is_object (arr vs) = true
is_object _ = false

unfoldable pub protected_error : Text → Option Text → Diagnostic
protected_error message target =
    output_error (text "CONFIG_OUTPUT_PROTECTED_PATH") message target none

-- The first test of `protectedOutputPath`, on the lower-case segments.
unfoldable pub is_protected : List Text → Bool
is_protected lower =
    contains lower (text ".git")
    || (contains lower (text "node_modules") || any (starts_with (text ".openapi-to-")) lower)

-- `base === 'workspace' || lower.length === 1`, of the segments behind the first.
abbrev pub is_state_root : OutputBase → List Text → Bool
is_state_root workspace rest = true
is_state_root managed [] = true
is_state_root managed (_ ∷ _) = false

-- `CONTROL_OUTPUT_SEGMENTS.has(lower[1] ?? '')`, of the segments behind the first.
abbrev pub is_control : List Text → Bool
is_control [] = false
is_control (second ∷ _) = contains control_output_segments second

abbrev pub state_root_error : Option Text → Diagnostic
state_root_error target =
    protected_error (text "Workspace output may not overlap the .openapi-to state root.") target

abbrev pub control_error : Text → Option Text → Diagnostic
control_error path target =
    protected_error
      (text "Configured output root "
        ++ (path ++ text " overlaps reserved .openapi-to control state."))
      target

-- The tests on a path that starts at the state root.
unfoldable pub check_state :
    Text → List Text → OutputBase → Option Text → Result Diagnostic (Unit {0})
unfolding protected_error
check_state path [] base target = ok tt
check_state path (first ∷ rest) base target =
    if text_eq first state_directory_name
    then (throw_if (is_state_root base rest) (state_root_error target) >>= λ _.
        throw_if (is_control rest) (control_error path target))
    else ok tt

-- `protectedOutputPath`, behind the lower-case segments.
unfoldable pub protected_segments :
    Text → List Text → OutputBase → Option Text → Result Diagnostic (Unit {0})
unfolding is_protected check_state
protected_segments path lower base target =
    throw_if (is_protected lower) (
      protected_error
        (text "Configured output root "
          ++ (path ++ text " overlaps a protected repository or transaction path."))
        target)
    >>= λ _. check_state path lower base target

unfoldable pub protected_output_path :
    Text → OutputBase → Option Text → Result Diagnostic (Unit {0})
unfolding protected_segments
protected_output_path path base target =
    protected_segments path (map to_lower_case (split_all path)) base target

-- `path.posix.join(stateDirectoryName, configuredDir)` for a managed output.
unfoldable pub workspace_relative : OutputBase → Text → Text
unfolding posix_normalize
workspace_relative managed dir = posix_normalize (state_directory_name ++ (text "/" ++ dir))
workspace_relative workspace dir = dir

-- `resolveConfiguredOutputRoot` below the resolved root of the workspace.
unfoldable pub resolve_below_workspace :
    List Text → OutputBase → Text → Option Text → Result Diagnostic ResolvedOutputRoot
unfolding workspace_relative protected_output_path
resolve_below_workspace root base dir target =
    let path : Text = workspace_relative base dir in
    let absolute = walk_segments (reverse root) (split_all path) in
    let relative = join (text "/") (relative_segments root absolute) in
    protected_output_path path base target >>= λ _.
    throw_if (is_outside relative) (
      output_error
        (if text_eq relative []
          then text "CONFIG_OUTPUT_WORKSPACE_ROOT"
          else text "CONFIG_OUTPUT_PATH_OUTSIDE_WORKSPACE")
        (text "Configured output root must remain below the Workspace root.") target none)
    >>= λ _. ok (record { absolute_path = absolute; workspace_relative_path = path; base = base })

-- `output.base`, where it is not there or supported.
unfoldable pub base_of : Option Json → Option OutputBase
base_of none = some managed
base_of (some (str t)) =
    if text_eq t (text "managed")
    then some managed
    else if text_eq t (text "workspace")
    then some workspace
    else none
base_of (some _) = none

module _ (nfkc : Text → Text) (quote : Text → Text) where
  -- The loop over the segments.
  unfoldable pub check_segments : List Text → Option Text → Result Diagnostic (Unit {0})
  unfolding segment_reason
  check_segments [] target = ok tt
  check_segments (s ∷ ss) target =
      elim (if text_eq s (text ".") || text_eq s (text "..")
        then none
        else segment_reason (nfkc s)) [
          | none ↦ check_segments ss target
          | some reason ↦ err (
              output_error (text "CONFIG_OUTPUT_PATH_NOT_PORTABLE")
                (text "Configured output.dir segment "
                  ++ (quote s ++ (text " is not portable: " ++ (reason ++ text "."))))
                target
                (some (text "Choose a directory name that is valid on Linux, macOS, and Windows.")))
        ]

  -- `portableRelativeDirectory`, from the test on the characters of `output.dir`.
  unfoldable pub portable_directory : Text → Option Text → Result Diagnostic Text
  unfolding check_segments posix_normalize is_windows_absolute
  portable_directory raw target =
      let portable = replace_unit b'\\' (text "/") raw in
      let segments = split_all portable in
      let normalized = posix_normalize (join (text "/") (map nfkc segments)) in
      throw_if (contains raw 0 || (is_absolute portable || is_windows_absolute raw)) (
        output_error (text "CONFIG_OUTPUT_PATH_OUTSIDE_WORKSPACE")
          (text "Configured output.dir must be a relative path inside the Workspace.") target none)
      >>= λ _. check_segments segments target >>= λ _.
          throw_if (text_eq normalized (text ".")) (
            output_error (text "CONFIG_OUTPUT_WORKSPACE_ROOT")
              (text "Configured output.dir may not resolve to its output base root.") target none)
          >>= λ _.
              throw_if (text_eq normalized (text "..") || starts_with (text "../") normalized) (
                output_error (text "CONFIG_OUTPUT_PATH_OUTSIDE_WORKSPACE")
                  (text "Configured output.dir escapes its output base.") target none)
              >>= λ _. ok normalized

  unfoldable pub portable_relative_directory :
      Json → Option Text → Result Diagnostic (OutputBase × Text)
  unfolding portable_directory base_of is_blank
  portable_relative_directory output target =
      throw_if (not (is_object output)) (
        output_error (text "CONFIG_OUTPUT_INVALID") (text "Configured output must be an object.")
          target none)
      >>= λ _.
          or_throw (base_of (property (text "base") (fields_of output))) (
            output_error (text "CONFIG_OUTPUT_BASE_INVALID")
              (text "Configured output base "
                ++ (base_text (property (text "base") (fields_of output))
                    ++ text " is not supported."))
              target (some (text "Use managed or workspace.")))
          >>= λ base.
              or_throw (string_of (property (text "dir") (fields_of output))) (empty_dir target)
              >>= λ dir. throw_if (is_blank dir) (empty_dir target) >>= λ _.
                  portable_directory dir target >>= λ normalized. ok (base, normalized)

  unfoldable pub resolve_configured_output_root :
      List Text → Text → Json → Option Text → Result Diagnostic ResolvedOutputRoot
  unfolding portable_relative_directory resolve_below_workspace
  resolve_configured_output_root cwd workspace_root output target =
      portable_relative_directory output target >>= λ configured.
      resolve_below_workspace (resolve_path cwd workspace_root) configured.0 configured.1 target
