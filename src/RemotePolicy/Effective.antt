-- ===== src/RemotePolicy/Effective.antt =====
-- The effective policy is exactly as permissive as the target and the operator both are.
use openapi_to.Common.{
  ◌≢◌, ◌⊎◌, value_of, ◌≤◌, to_lower_case, text_equality, ℕ, Text, Bool, true, false, not, ◌&&◌,
  ◌||◌, Option, none, some, List, [], ◌∷◌, leb, any, sorted_set, Result, ok, err, ◌≡◌, refl, ap,
  ◌∙◌, arith, Bool-cases, inl, inr, All, if◌then◌else◌, map,
}
use openapi_to.Diagnostics.{Diagnostic}
use openapi_to.RemotePolicy.{
  or_fallback, fetch_limits, default_limits, RemoteOptions, OperatorPolicy, normalized_hosts,
  or_none, is_empty, is_true, host_matches_pattern, intersect_normalized, intersect_allowed_hosts,
  intersect_lists, minimum, bounded_options, or_no_remote, has_length_zero,
  resolve_remote_source_policy,
}
use openapi_to.RemotePolicy.Lists.{
  is_allowed_host, any-sorted_set, any-map, any-intersect_lists, any_lower, IsLower,
  normalized-IsLower, All-sorted_set, lists-All, is_empty-sorted_set,
}

-- The limit that is used is within each limit that is given, and is one of them; only where none is
-- given it is the default.
abbrev pub IsLimit : ℕ → Option ℕ → Option ℕ → ℕ → Type 0
IsLimit fallback target operator used =
    ((n : ℕ) → target ≡ some n → used ≤ n)
    × ((n : ℕ) → operator ≡ some n → used ≤ n)
    × ((target ≡ some used)
        ⊎ (operator ≡ some used)
        ⊎ ((target ≡ none) × (operator ≡ none) × (used ≡ fallback)))

IsLimit-minimum :
    (fallback : ℕ) (l r : Option ℕ) → IsLimit fallback l r (or_fallback fallback (minimum l r))
unfolding minimum
IsLimit-minimum d none none = (λ n e. cc e, λ n e. cc e, inr (inr (refl, refl, refl)))
IsLimit-minimum d none (some r) = (λ n e. cc e, λ n e. omega (arith, value_of e), inr (inl refl))
IsLimit-minimum d (some l) none = (λ n e. omega (arith, value_of e), λ n e. cc e, inl refl)
IsLimit-minimum d (some l) (some r) = elim (Bool-cases (leb l r)) [
  | inl e ↦ rw e (λ n k. omega (arith, value_of k), λ n k. ground (arith, value_of k), inl refl)
  | inr e ↦
      rw e (λ n k. ground (arith, value_of k), λ n k. omega (arith, value_of k), inr (inl refl))
]

-- What the effective options allow.
pub record IsBounded (target : RemoteOptions) (operator : OperatorPolicy) (r : RemoteOptions)
    : Type 0 where
  pub private_network :
      is_true r.allow_private_network
      ≡ (is_true target.allow_private_network && is_true operator.allow_private_network)
  pub hosts :
      (host : Text)
      → host ≢ []
      → is_allowed_host r.allowed_hosts host
        ≡ (is_allowed_host target.allowed_hosts host && is_allowed_host operator.allowed_hosts host)
  pub headers : r.headers ≡ target.headers
  pub timeout :
      IsLimit default_limits.timeout_ms target.timeout_ms operator.timeout_ms
        (fetch_limits r).timeout_ms
  pub response :
      IsLimit default_limits.max_response_bytes target.max_response_bytes
        operator.max_response_bytes
        (fetch_limits r).max_response_bytes
  pub redirects :
      IsLimit default_limits.max_redirects target.max_redirects operator.max_redirects
        (fetch_limits r).max_redirects

-- Under an operator policy there are options; a conflict means that no host is allowed by both.
abbrev pub Bounded :
    RemoteOptions → OperatorPolicy → Result (List Diagnostic) (Option RemoteOptions) → Type 0
Bounded target operator (ok none) = ⊥
Bounded target operator (ok (some r)) = IsBounded target operator r
Bounded target operator (err ds) =
    (host : Text)
    → host ≢ []
    → (is_allowed_host target.allowed_hosts host && is_allowed_host operator.allowed_hosts host)
      ≡ false

-- The test over the normalised patterns.
abbrev passes : List Text → Text → Bool
passes hosts host = is_empty hosts || any (host_matches_pattern (to_lower_case host)) hosts

is_empty-map : (f : Text → Text) (xs : List Text) → is_empty (map f xs) ≡ is_empty xs
is_empty-map f [] = refl
is_empty-map f (x ∷ xs) = refl

passes-normalized :
    (hosts : Option (List Text)) (host : Text)
    → passes (normalized_hosts hosts) host ≡ is_allowed_host hosts host
unfolding normalized_hosts
passes-normalized hosts host = rw (is_empty-sorted_set (map to_lower_case (or_none hosts))) (
    rw
      (any-sorted_set (host_matches_pattern (to_lower_case host))
        (map to_lower_case (or_none hosts)))
      (rw (any-map (host_matches_pattern (to_lower_case host)) to_lower_case (or_none hosts)) (
        ap
          (λ t.
            t
            || any (λ p. host_matches_pattern (to_lower_case host) (to_lower_case p))
                (or_none hosts))
          (is_empty-map to_lower_case (or_none hosts)))))

allowed_lower :
    (hosts : List Text) (host : Text)
    → All IsLower hosts
    → is_allowed_host (some hosts) host ≡ passes hosts host
allowed_lower hosts host h =
    ap (λ t. is_empty hosts || t) (any_lower (host_matches_pattern (to_lower_case host)) hosts h)

-- Intersecting normalised lists: the patterns let through what both lists do, and none are left
-- only if both lists have patterns and no host passes both.
abbrev Intersected : List Text → List Text → Option (List Text) → Type 0
Intersected ts os r =
    (host : Text)
    → host ≢ []
    → (is_allowed_host r host && not (has_length_zero r)) ≡ (passes ts host && passes os host)

to_lower_case-ne_nil : (host : Text) → host ≢ [] → to_lower_case host ≢ []
unfolding to_lower_case
to_lower_case-ne_nil [] ne e = ne refl
to_lower_case-ne_nil (c ∷ cs) ne e = cc e

nothing_left : (p : Text → Bool) (xs : List Text) → is_empty xs ≡ true → any p xs ≡ false
unfolding any
nothing_left p [] h = refl
nothing_left p (x ∷ xs) h = cc

intersect_normalized-lem :
    (ts os : List Text)
    → All IsLower ts
    → All IsLower os
    → Intersected ts os (intersect_normalized ts os)
unfolding intersect_normalized any
intersect_normalized-lem [] [] ht ho host ne = refl
intersect_normalized-lem [] (o ∷ os) ht ho host ne = ground (arith, allowed_lower (o ∷ os) host ho)
intersect_normalized-lem (t ∷ ts) [] ht ho host ne = ground (arith, allowed_lower (t ∷ ts) host ht)
intersect_normalized-lem (t ∷ ts) (o ∷ os) ht ho host ne =
    let found = intersect_lists (t ∷ ts) (o ∷ os) in
    ground (
      arith,
      allowed_lower (sorted_set found) host
          (All-sorted_set IsLower found (lists-All IsLower (t ∷ ts) (o ∷ os) ht ho)),
      any-sorted_set (host_matches_pattern (to_lower_case host)) found,
      any-intersect_lists (to_lower_case host) (t ∷ ts) (o ∷ os) (to_lower_case-ne_nil host ne),
      nothing_left (host_matches_pattern (to_lower_case host)) (sorted_set found),
    )

conflict_has_patterns :
    (ts os : List Text)
    → has_length_zero (intersect_normalized ts os) ≡ true
    → (is_empty ts ≡ false) × (is_empty os ≡ false)
unfolding intersect_normalized
conflict_has_patterns [] [] h = cc
conflict_has_patterns [] (o ∷ os) h = cc
conflict_has_patterns (t ∷ ts) [] h = cc
conflict_has_patterns (t ∷ ts) (o ∷ os) h = (refl, refl)

is_empty-normalized :
    (hosts : Option (List Text)) → is_empty (normalized_hosts hosts) ≡ is_empty (or_none hosts)
unfolding normalized_hosts
is_empty-normalized hosts =
    is_empty-sorted_set (map to_lower_case (or_none hosts))
    ∙ is_empty-map to_lower_case (or_none hosts)

is_true-some : (b : Bool) → is_true (some b) ≡ b
is_true-some true = refl
is_true-some false = refl

module _ (target : RemoteOptions) (operator : OperatorPolicy) where
  abbrev both : Option (List Text)
  both = intersect_allowed_hosts target.allowed_hosts operator.allowed_hosts

  both_allowed :
      (host : Text)
      → host ≢ []
      → (is_allowed_host both host && not (has_length_zero both))
        ≡ (is_allowed_host target.allowed_hosts host && is_allowed_host operator.allowed_hosts host)
  unfolding intersect_allowed_hosts
  both_allowed host ne = ground (
    arith,
    intersect_normalized-lem (normalized_hosts target.allowed_hosts)
        (normalized_hosts operator.allowed_hosts) (normalized-IsLower target.allowed_hosts)
        (normalized-IsLower operator.allowed_hosts) host ne,
    passes-normalized target.allowed_hosts host,
    passes-normalized operator.allowed_hosts host,
  )

  conflicts :
      has_length_zero both ≡ true
      → (not (is_empty (or_none target.allowed_hosts))
          && not (is_empty (or_none operator.allowed_hosts))
          && has_length_zero both)
        ≡ true
  unfolding intersect_allowed_hosts
  conflicts h = ground (
    arith,
    conflict_has_patterns (normalized_hosts target.allowed_hosts)
        (normalized_hosts operator.allowed_hosts) h,
    is_empty-normalized target.allowed_hosts,
    is_empty-normalized operator.allowed_hosts,
  )

  agrees :
      has_length_zero both ≡ false
      → (not (is_empty (or_none target.allowed_hosts))
          && not (is_empty (or_none operator.allowed_hosts))
          && has_length_zero both)
        ≡ false
  agrees h = ground arith

  bounded_options-IsBounded :
      has_length_zero both ≡ false → IsBounded target operator (bounded_options target operator)
  unfolding bounded_options fetch_limits
  bounded_options-IsBounded some_left = record {
    private_network =
        is_true-some
          (is_true target.allow_private_network && is_true operator.allow_private_network);
    hosts = λ host ne. ground (arith, both_allowed host ne);
    headers = refl;
    timeout = IsLimit-minimum default_limits.timeout_ms target.timeout_ms operator.timeout_ms;
    response =
        IsLimit-minimum default_limits.max_response_bytes target.max_response_bytes
          operator.max_response_bytes;
    redirects =
        IsLimit-minimum default_limits.max_redirects target.max_redirects operator.max_redirects;
  }

-- Under an operator policy the effective options allow a private network, and a host that is not
-- empty, exactly when the target and the operator both do; the headers are the target's. The numbers
-- that the loader then uses as limits of time, size and redirects are the least that the target or the
-- operator gives, and the loader's default where neither gives one. The conflict is reported only when
-- no host that is not empty is allowed by both. Limits are whole numbers that are not negative.
pub resolve-Bounded :
    (target_remote : Option RemoteOptions) (operator : OperatorPolicy) (target_name : Option Text)
    → Bounded
        (or_no_remote target_remote)
        operator
        (resolve_remote_source_policy target_remote (some operator) target_name)
unfolding resolve_remote_source_policy
resolve-Bounded target_remote operator target_name =
    let target = or_no_remote target_remote in
    elim (Bool-cases (has_length_zero (both target operator))) [
      | inl nothing ↦
          rw (conflicts target operator nothing, if◌then◌else◌)
            (λ host ne. ground (arith, both_allowed target operator host ne))
      | inr some_left ↦
          rw (agrees target operator some_left, if◌then◌else◌)
            (bounded_options-IsBounded target operator some_left)
    ]
