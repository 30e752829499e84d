-- ===== src/RemotePolicy/Lists.antt =====
-- What lists of host patterns let through, before and after they are normalised and intersected.
use openapi_to.Common.{
  ◌≢◌, to_lower_case, text_eq, nub, sort, text_equality, Text, Bool, true, false, ◌&&◌, ◌||◌,
  Option, none, some, List, [], ◌∷◌, ◌++◌, map, sorted_set, contains, contains-sorted_set, any, ◌≡◌,
  refl, sym, ap, ◌∙◌, arith, Bool-cases, inl, inr, eq_of_iff, All, All-append, All-of_contains,
  of_All, lower_unit, text_eq_iff, if◌then◌else◌,
}
use openapi_to.RemotePolicy.{
  ends_with, normalized_hosts, or_none, is_empty, is_none, host_matches_pattern,
  intersect_host_pattern, intersect_suffixes, wildcard_suffix, pattern_list, intersect_with,
  intersect_lists,
}
use openapi_to.RemotePolicy.Hosts.{matches_some, matches-intersect_host_pattern}

-- packages/core/src/openapi/sourceLoader.ts, `hostMatches` and the test of `allowedHosts` in
-- `validateRemoteURL`: an absent or empty list lets every host through.
abbrev pub is_allowed_host : Option (List Text) → Text → Bool
is_allowed_host hosts hostname =
    is_empty (or_none hosts)
    || any (λ host. host_matches_pattern (to_lower_case hostname) (to_lower_case host))
        (or_none hosts)

any_found :
    (p : Text → Bool) (xs : List Text) (a : Text)
    → contains xs a ≡ true
    → p a ≡ true
    → any p xs ≡ true
unfolding any contains
any_found p [] a m h = ground arith
any_found p (x ∷ xs) a m h = elim (Bool-cases (p x)) [
  | inl here ↦ rw here refl
  | inr not_here ↦ ground (arith, any_found p xs a, text_eq_iff x a, ap p)
]

any_sub :
    (p : Text → Bool) (ys zs : List Text)
    → ((a : Text) → contains ys a ≡ true → contains zs a ≡ true)
    → any p ys ≡ true
    → any p zs ≡ true
unfolding any contains
any_sub p [] zs sub h = ground arith
any_sub p (y ∷ ys) zs sub h = elim (Bool-cases (p y)) [
  | inl here ↦ any_found p zs y (sub y (ground (arith, text_eq_iff y y))) here
  | inr not_here ↦ any_sub p ys zs (λ a m. sub a (ground arith)) (ground arith)
]

pub any-sorted_set : (p : Text → Bool) (xs : List Text) → any p (sorted_set xs) ≡ any p xs
any-sorted_set p xs =
    eq_of_iff _ _ (any_sub p (sorted_set xs) xs (λ a m. sym (contains-sorted_set xs a) ∙ m))
      (any_sub p xs (sorted_set xs) (λ a m. contains-sorted_set xs a ∙ m))

any-append : (p : Text → Bool) (xs ys : List Text) → any p (xs ++ ys) ≡ (any p xs || any p ys)
unfolding any
any-append p [] ys = refl
any-append p (x ∷ xs) ys = ground (arith, any-append p xs ys)

pub any-map :
    (p : Text → Bool) (f : Text → Text) (xs : List Text) → any p (map f xs) ≡ any (λ x. p (f x)) xs
unfolding any
any-map p f [] = refl
any-map p f (x ∷ xs) = ap (λ t. p (f x) || t) (any-map p f xs)

or-false : (b : Bool) → (b || false) ≡ b
or-false true = refl
or-false false = refl

-- No host that is not empty matches the empty pattern.
any-pattern_list :
    (host : Text) (o : Option Text)
    → host ≢ []
    → any (host_matches_pattern host) (pattern_list o) ≡ matches_some host o
unfolding any host_matches_pattern wildcard_suffix text_eq
any-pattern_list host none ne = refl
any-pattern_list [] (some []) ne = absurd (ne refl)
any-pattern_list (h ∷ hs) (some []) ne = refl
any-pattern_list host (some (c ∷ cs)) ne = or-false (host_matches_pattern host (c ∷ cs))

any-intersect_with :
    (host t : Text) (os : List Text)
    → host ≢ []
    → any (host_matches_pattern host) (intersect_with t os)
      ≡ (host_matches_pattern host t && any (host_matches_pattern host) os)
unfolding any intersect_with
any-intersect_with host t [] ne = ground arith
any-intersect_with host t (o ∷ os) ne = ground (
  arith,
  any-append (host_matches_pattern host) (pattern_list (intersect_host_pattern t o))
      (intersect_with t os),
  any-pattern_list host (intersect_host_pattern t o) ne,
  matches-intersect_host_pattern host t o,
  any-intersect_with host t os ne,
)

pub any-intersect_lists :
    (host : Text) (ts os : List Text)
    → host ≢ []
    → any (host_matches_pattern host) (intersect_lists ts os)
      ≡ (any (host_matches_pattern host) ts && any (host_matches_pattern host) os)
unfolding any intersect_lists
any-intersect_lists host [] os ne = refl
any-intersect_lists host (t ∷ ts) os ne = ground (
  arith,
  any-append (host_matches_pattern host) (intersect_with t os) (intersect_lists ts os),
  any-intersect_with host t os ne,
  any-intersect_lists host ts os ne,
)

-- A text without capital letters.
abbrev pub IsLower : Text → Type 0
IsLower t = to_lower_case t ≡ t

lower_again : (t : Text) → to_lower_case (to_lower_case t) ≡ to_lower_case t
unfolding to_lower_case lower_unit
lower_again [] = refl
lower_again (c ∷ cs) =
    let unit : lower_unit (lower_unit c) ≡ lower_unit c = ground arith in
    λ i. unit i ∷ lower_again cs i

All-IsLower : (xs : List Text) → All IsLower (map to_lower_case xs)
All-IsLower [] = tt
All-IsLower (x ∷ xs) = (lower_again x, All-IsLower xs)

pub All-sorted_set {ℓ} : (P : Text → Type ℓ) (xs : List Text) → All P xs → All P (sorted_set xs)
All-sorted_set P xs h =
    All-of_contains P (sorted_set xs) (λ a m. of_All P xs a h (sym (contains-sorted_set xs a) ∙ m))

pub normalized-IsLower : (hosts : Option (List Text)) → All IsLower (normalized_hosts hosts)
unfolding normalized_hosts
normalized-IsLower hosts = All-sorted_set IsLower _ (All-IsLower (or_none hosts))

abbrev Holds {ℓ} : (Text → Type ℓ) → Option Text → Type ℓ
Holds P none = Unit
Holds P (some t) = P t

All-pattern_list {ℓ} : (P : Text → Type ℓ) (o : Option Text) → Holds P o → All P (pattern_list o)
All-pattern_list P none h = tt
All-pattern_list P (some []) h = tt
All-pattern_list P (some (c ∷ cs)) h = (h, tt)

-- The intersection of two patterns is one of them.
intersect-All {ℓ} :
    (P : Text → Type ℓ) (left right : Text)
    → P left
    → P right
    → Holds P (intersect_host_pattern left right)
unfolding intersect_host_pattern intersect_suffixes
intersect-All P left right pl pr = choose (text_eq left right) (some left) _ pl (
    choose (is_none (wildcard_suffix left) && host_matches_pattern left right) (some left) _ pl (
      choose (is_none (wildcard_suffix right) && host_matches_pattern right left) (some right) _ pr
        (last (wildcard_suffix left) (wildcard_suffix right))))
  where
    choose : (b : Bool) (x y : Option Text) → Holds P x → Holds P y → Holds P (if b then x else y)
    choose true x y hx hy = hx
    choose false x y hx hy = hy

    last : (l r : Option Text) → Holds P (intersect_suffixes left right l r)
    last (some l) (some r) =
        choose (ends_with r l) (some left) _ pl (choose (ends_with l r) (some right) none pr tt)
    last none r = tt
    last (some l) none = tt

pub lists-All {ℓ} :
    (P : Text → Type ℓ) (ts os : List Text) → All P ts → All P os → All P (intersect_lists ts os)
unfolding intersect_lists intersect_with
lists-All P [] os ht ho = tt
lists-All P (t ∷ ts) os ht ho =
    All-append P (intersect_with t os) (intersect_lists ts os) (row os ho)
      (lists-All P ts os ht.1 ho)
  where
    row : (os : List Text) → All P os → All P (intersect_with t os)
    row [] ho = tt
    row (o ∷ os) ho =
        All-append P (pattern_list (intersect_host_pattern t o)) (intersect_with t os)
          (All-pattern_list P (intersect_host_pattern t o) (intersect-All P t o ht.0 ho.0))
          (row os ho.1)

pub any_lower :
    (p : Text → Bool) (xs : List Text)
    → All IsLower xs
    → any (λ x. p (to_lower_case x)) xs ≡ any p xs
unfolding any
any_lower p [] h = refl
any_lower p (x ∷ xs) h = ground (arith, ap p h.0, any_lower p xs h.1)

pub is_empty-sorted_set : (xs : List Text) → is_empty (sorted_set xs) ≡ is_empty xs
unfolding sorted_set sort nub contains
is_empty-sorted_set [] = refl
is_empty-sorted_set (x ∷ xs) = ground (arith, contains-sorted_set (x ∷ xs) x, text_eq_iff x x)
