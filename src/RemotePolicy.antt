-- ===== src/RemotePolicy.antt =====
-- packages/core/src/config/remotePolicy.ts: the remote access that a target asks for under the upper
-- bounds of the operator. Host names are ASCII: `toLowerCase` acts on each code unit;
-- limits are whole numbers that are not negative.
pub mod Hosts
pub mod Lists
pub mod Effective
pub mod Tests
use openapi_to.Common.{
  ◌*◌, to_lower_case, ℕ, Text, text, Bool, true, false, not, ◌&&◌, ◌||◌, Option, none, some, List,
  [], ◌∷◌, ◌++◌, map, length, text_eq, ltb, leb, if◌then◌else◌, starts_with, lower_unit, sorted_set,
  Result, ok, err,
}
use openapi_to.Diagnostics.{Diagnostic, plain, error, key}

pub record RemoteOptions : Type 0 where
  pub allow_private_network : Option Bool
  pub allowed_hosts : Option (List Text)
  pub headers : Option (List (Text × Text))
  pub timeout_ms : Option ℕ
  pub max_response_bytes : Option ℕ
  pub max_redirects : Option ℕ

-- packages/core/src/openapi/sourceLoader.ts, `defaultRemoteOptions`, and the policy of
-- `fetchRemoteSource`: what an option that is missing stands for.
pub record FetchLimits : Type 0 where
  pub timeout_ms : ℕ
  pub max_response_bytes : ℕ
  pub max_redirects : ℕ

abbrev pub default_limits : FetchLimits
default_limits = record {
  timeout_ms = 10000;
  max_response_bytes = 10 * 1024 * 1024;
  max_redirects = 5;
}

abbrev pub or_fallback : ℕ → Option ℕ → ℕ
or_fallback fallback none = fallback
or_fallback fallback (some n) = n

unfoldable pub fetch_limits : RemoteOptions → FetchLimits
fetch_limits options = record {
  timeout_ms = or_fallback default_limits.timeout_ms options.timeout_ms;
  max_response_bytes = or_fallback default_limits.max_response_bytes options.max_response_bytes;
  max_redirects = or_fallback default_limits.max_redirects options.max_redirects;
}

-- `Omit<RemoteSourceOptions, "headers">`
pub record OperatorPolicy : Type 0 where
  pub allow_private_network : Option Bool
  pub allowed_hosts : Option (List Text)
  pub timeout_ms : Option ℕ
  pub max_response_bytes : Option ℕ
  pub max_redirects : Option ℕ

abbrev pub or_none : Option (List Text) → List Text
or_none none = []
or_none (some hosts) = hosts

unfoldable pub normalized_hosts : Option (List Text) → List Text
normalized_hosts hosts = sorted_set (map to_lower_case (or_none hosts))

-- `s.endsWith(p)`
unfoldable pub ends_with : Text → Text → Bool
ends_with p [] = text_eq p []
ends_with p (c ∷ cs) = text_eq p (c ∷ cs) || ends_with p cs

unfoldable pub wildcard_suffix : Text → Option Text
wildcard_suffix [] = none
wildcard_suffix (c ∷ cs) = if starts_with (text "*.") (c ∷ cs) then some cs else none

unfoldable pub host_matches_pattern : Text → Text → Bool
host_matches_pattern host pattern = elim (wildcard_suffix pattern) [
  | some suffix ↦ ends_with suffix host && ltb (length suffix) (length host)
  | none ↦ text_eq host pattern
]

abbrev pub is_none : Option Text → Bool
is_none none = true
is_none (some t) = false

-- The last branch, for two wildcard patterns.
unfoldable pub intersect_suffixes : Text → Text → Option Text → Option Text → Option Text
intersect_suffixes left right (some left_suffix) (some right_suffix) =
    if ends_with right_suffix left_suffix
    then some left
    else if ends_with left_suffix right_suffix
    then some right
    else none
intersect_suffixes left right _ _ = none

unfoldable pub intersect_host_pattern : Text → Text → Option Text
intersect_host_pattern left right =
    let left_suffix = wildcard_suffix left in
    let right_suffix = wildcard_suffix right in
    if text_eq left right
    then some left
    else if is_none left_suffix && host_matches_pattern left right
    then some left
    else if is_none right_suffix && host_matches_pattern right left
    then some right
    else intersect_suffixes left right left_suffix right_suffix

-- `if (pattern) intersection.add(pattern)`: an empty pattern is left out.
abbrev pub pattern_list : Option Text → List Text
pattern_list none = []
pattern_list (some []) = []
pattern_list (some (c ∷ cs)) = (c ∷ cs) ∷ []

-- The inner and the outer loop.
unfoldable pub intersect_with : Text → List Text → List Text
intersect_with target_pattern [] = []
intersect_with target_pattern (p ∷ ps) =
    pattern_list (intersect_host_pattern target_pattern p) ++ intersect_with target_pattern ps

unfoldable pub intersect_lists : List Text → List Text → List Text
intersect_lists [] operator = []
intersect_lists (p ∷ ps) operator = intersect_with p operator ++ intersect_lists ps operator

unfoldable pub intersect_normalized : List Text → List Text → Option (List Text)
intersect_normalized [] [] = none
intersect_normalized [] (o ∷ os) = some (o ∷ os)
intersect_normalized (t ∷ ts) [] = some (t ∷ ts)
intersect_normalized (t ∷ ts) (o ∷ os) = some (sorted_set (intersect_lists (t ∷ ts) (o ∷ os)))

unfoldable pub intersect_allowed_hosts :
    Option (List Text) → Option (List Text) → Option (List Text)
intersect_allowed_hosts target_hosts operator_hosts =
    intersect_normalized (normalized_hosts target_hosts) (normalized_hosts operator_hosts)

unfoldable pub minimum : Option ℕ → Option ℕ → Option ℕ
minimum none right = right
minimum (some l) none = some l
minimum (some l) (some r) = if leb l r then some l else some r

unfoldable pub policy_conflict : Option Text → Diagnostic
policy_conflict target_name =
    record (plain (text "CONFIG_REMOTE_POLICY_CONFLICT") error (message target_name)) {
      location = place target_name;
      hint = some (
          text
            "Allow at least one host in both the trusted Target configuration and the operator startup policy.");
    }
  where
    general : Text
    general = text "Target remote allowedHosts do not intersect the operator policy."

    message : Option Text → Text
    message none = general
    message (some []) = general
    message (some (c ∷ cs)) =
        text "Target "
        ++ ((c ∷ cs) ++ text " remote allowedHosts do not intersect the MCP operator policy.")

    place : Option Text → Option openapi_to.Diagnostics.Location
    place (some (c ∷ cs)) = some (record {
      source = some (c ∷ cs);
      path = some (key (text "input") ∷ key (text "remote") ∷ []);
      line = none;
      column = none;
    })
    place _ = none

abbrev pub is_true : Option Bool → Bool
is_true (some true) = true
is_true _ = false

abbrev pub is_empty : List Text → Bool
is_empty [] = true
is_empty (h ∷ hs) = false

-- `hosts?.length === 0`
abbrev pub has_length_zero : Option (List Text) → Bool
has_length_zero none = false
has_length_zero (some hosts) = is_empty hosts

-- `targetRemote?.…`
abbrev pub no_remote : RemoteOptions
no_remote = record {
  allow_private_network = none;
  allowed_hosts = none;
  headers = none;
  timeout_ms = none;
  max_response_bytes = none;
  max_redirects = none;
}

abbrev pub or_no_remote : Option RemoteOptions → RemoteOptions
or_no_remote none = no_remote
or_no_remote (some r) = r

abbrev pub normalize_given : Option (List Text) → Option (List Text)
normalize_given none = none
normalize_given (some hosts) = some (normalized_hosts (some hosts))

-- The effective options under an operator policy.
unfoldable pub bounded_options : RemoteOptions → OperatorPolicy → RemoteOptions
bounded_options target operator = record {
  allow_private_network =
      some (is_true target.allow_private_network && is_true operator.allow_private_network);
  allowed_hosts = intersect_allowed_hosts target.allowed_hosts operator.allowed_hosts;
  headers = target.headers;
  timeout_ms = minimum target.timeout_ms operator.timeout_ms;
  max_response_bytes = minimum target.max_response_bytes operator.max_response_bytes;
  max_redirects = minimum target.max_redirects operator.max_redirects;
}

unfoldable pub resolve_remote_source_policy :
    Option RemoteOptions
    → Option OperatorPolicy
    → Option Text
    → Result (List Diagnostic) (Option RemoteOptions)
resolve_remote_source_policy none none target_name = ok none
resolve_remote_source_policy (some target) none target_name =
    ok (some (record target { allowed_hosts = normalize_given target.allowed_hosts }))
resolve_remote_source_policy target_remote (some operator) target_name =
    let target = or_no_remote target_remote in
    let allowed_hosts = intersect_allowed_hosts target.allowed_hosts operator.allowed_hosts in
    if not (is_empty (or_none target.allowed_hosts))
      && not (is_empty (or_none operator.allowed_hosts))
      && has_length_zero allowed_hosts
    then err (policy_conflict target_name ∷ [])
    else ok (some (bounded_options target operator))
