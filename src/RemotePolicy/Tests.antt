-- ===== src/RemotePolicy/Tests.antt =====
-- The theorems on remote policies at concrete inputs.
use openapi_to.Common.{
  to_lower_case, text, none, some, [], ◌∷◌, true, ◌≡◌, refl, ◌&&◌, sorted_set, nub, remove, filter,
  sort, insert, text_lt, text_eq, lower_unit, starts_with,
}
use openapi_to.RemotePolicy.{
  ends_with, wildcard_suffix, intersect_suffixes, intersect_with, intersect_lists,
  intersect_normalized, normalized_hosts, RemoteOptions, OperatorPolicy,
  resolve_remote_source_policy, host_matches_pattern, intersect_host_pattern, no_remote,
  intersect_allowed_hosts,
}
use openapi_to.RemotePolicy.Hosts.{matches_some, matches-intersect_host_pattern}
use openapi_to.RemotePolicy.Effective.{Bounded, resolve-Bounded}

abbrev target : RemoteOptions
target = record no_remote {
  allow_private_network = some true;
  allowed_hosts = some (text "*.Example.com" ∷ text "api.test" ∷ []);
  timeout_ms = some 500;
}

abbrev operator : OperatorPolicy
operator = record {
  allow_private_network = none;
  allowed_hosts = some (text "v1.example.com" ∷ text "*.other" ∷ []);
  timeout_ms = some 300;
  max_response_bytes = none;
  max_redirects = some 2;
}

run : Unit {0}
unfolding intersect_allowed_hosts normalized_hosts intersect_normalized intersect_lists
    intersect_with intersect_host_pattern intersect_suffixes wildcard_suffix host_matches_pattern
    ends_with to_lower_case lower_unit starts_with text text_eq sorted_set nub remove filter sort
    insert text_lt
run = tt

common_hosts :
    intersect_allowed_hosts target.allowed_hosts operator.allowed_hosts
    ≡ some (text "v1.example.com" ∷ [])
unfolding run
common_hosts = refl

resolve-Bounded_example :
    Bounded target operator (resolve_remote_source_policy (some target) (some operator) none)
resolve-Bounded_example = resolve-Bounded (some target) operator none

matches-intersect_host_pattern_example :
    matches_some (text "a.b.c") (intersect_host_pattern (text "*.b.c") (text "*.c")) ≡ (
      host_matches_pattern (text "a.b.c") (text "*.b.c")
      && host_matches_pattern (text "a.b.c") (text "*.c"))
matches-intersect_host_pattern_example =
    matches-intersect_host_pattern (text "a.b.c") (text "*.b.c") (text "*.c")

-- An empty pattern is left out of the intersection, also where both lists have it.
empty_pattern : intersect_allowed_hosts (some ([] ∷ [])) (some ([] ∷ [])) ≡ some []
unfolding run
empty_pattern = refl
