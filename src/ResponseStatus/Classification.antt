-- ===== src/ResponseStatus/Classification.antt =====
-- What the classification of status codes is.
use openapi_to.Common.{
  IsNub-append, any-of_contains, ◌⊎◌, contains-of_any, nat_equality, text_equality, Text, text,
  Bool, true, false, not, ◌&&◌, ◌||◌, List, [], ◌∷◌, map, filter, contains, nub, sort, any, text_eq,
  text_eq_iff, ◌≡◌, refl, sym, ap, arith, Bool-cases, inl, inr, contains-append, contains-filter,
  contains-sort, IsNub, nub-IsNub, IsNub-filter, IsNub-sort, subst,
}
use openapi_to.Common.Comparison.{Sign, le_by}
use openapi_to.ResponseStatus.{
  Classified, is_three, default, canonicalize_status, is_concrete_success, is_wildcard_success,
  is_error_code, choose_success, default_error, compare_status, documented_success, classify_unique,
  classify_response_status_codes,
}

-- A documented success: 200 to 299, or 2XX.
abbrev pub is_success_code : Text → Bool
is_success_code code = is_concrete_success code || is_wildcard_success code

success_is_no_error : (code : Text) → is_success_code code ≡ true → is_error_code code ≡ false
unfolding is_three text text_eq
success_is_no_error [] h = refl
success_is_no_error (a ∷ []) h = refl
success_is_no_error (a ∷ b ∷ []) h = refl
success_is_no_error (a ∷ b ∷ c ∷ []) h = ground arith
success_is_no_error (a ∷ b ∷ c ∷ d ∷ t) h = refl

concrete_is_no_wildcard :
    (code : Text) → is_concrete_success code ≡ true → is_wildcard_success code ≡ false
unfolding is_three text text_eq
concrete_is_no_wildcard [] h = refl
concrete_is_no_wildcard (a ∷ []) h = ground arith
concrete_is_no_wildcard (a ∷ b ∷ []) h = ground arith
concrete_is_no_wildcard (a ∷ b ∷ c ∷ []) h = ground arith
concrete_is_no_wildcard (a ∷ b ∷ c ∷ d ∷ t) h = ground arith

default_is_other : (is_success_code default ≡ false) × (is_error_code default ≡ false)
unfolding is_three text text_eq
default_is_other = (refl, refl)

-- The classes, by the canonical codes.
pub record IsClassification (codes : List Text) (r : Classified) : Type 0 where
  pub success :
      (k : Text)
      → contains r.success k ≡ (
          contains codes k
          && (is_success_code k || text_eq k default && not (any is_success_code codes)))
  pub error :
      (k : Text)
      → contains r.error k
        ≡ (contains codes k && (is_error_code k || text_eq k default && any is_success_code codes))
  pub once : IsNub r.success × IsNub r.error
  pub disjoint : (k : Text) → (contains r.success k && contains r.error k) ≡ false

abbrev is_nil : List Text → Bool
is_nil [] = true
is_nil (c ∷ cs) = false

contains-choose_success :
    (docs : List Text) (d : Bool) (k : Text)
    → contains (choose_success docs d) k
      ≡ (contains docs k || is_nil docs && (d && text_eq k default))
unfolding choose_success contains
contains-choose_success [] d k = ground (arith, text_eq_iff default k, text_eq_iff k default)
contains-choose_success (c ∷ cs) d k = ground arith

contains-default_error :
    (docs : List Text) (d : Bool) (k : Text)
    → contains (default_error docs d) k ≡ (not (is_nil docs) && (d && text_eq k default))
unfolding default_error contains
contains-default_error [] d k = refl
contains-default_error (c ∷ cs) d k = ground (arith, text_eq_iff default k, text_eq_iff k default)

-- The code is `default` in both tests.
default_found :
    (unique : List Text) (k : Text)
    → (contains unique default && text_eq k default) ≡ (contains unique k && text_eq k default)
default_found unique k = elim (Bool-cases (text_eq k default)) [
  | inl same ↦
      ap (λ t. contains unique t && text_eq k default) (sym ((text_eq_iff k default).0 same))
  | inr other ↦ ground arith
]

default_class :
    (k : Text) → text_eq k default ≡ true → (is_success_code k ≡ false) × (is_error_code k ≡ false)
default_class k h =
    subst (λ t. (is_success_code t ≡ false) × (is_error_code t ≡ false))
      (sym ((text_eq_iff k default).0 h)) default_is_other

found :
    {u : Bool} (c : Text) (docs : List Text)
    → contains (c ∷ docs) c ≡ (u && is_success_code c)
    → (u ≡ true) × (is_success_code c ≡ true)
unfolding contains
found {u} c docs h = ground (arith, text_eq_iff c c)

module _ (locale_compare : Text → Text → Sign) where
  contains-documented :
      (unique : List Text) (k : Text)
      → contains (documented_success locale_compare unique) k
        ≡ (contains unique k && is_success_code k)
  unfolding documented_success
  contains-documented unique k = ground (
    arith,
    contains-append
        (sort (le_by (compare_status locale_compare)) (filter is_concrete_success unique))
        (sort (le_by (compare_status locale_compare)) (filter is_wildcard_success unique)) k,
    contains-sort (le_by (compare_status locale_compare)) (filter is_concrete_success unique) k,
    contains-sort (le_by (compare_status locale_compare)) (filter is_wildcard_success unique) k,
    contains-filter is_concrete_success unique k,
    contains-filter is_wildcard_success unique k,
  )

  -- Some success is documented exactly when one of the codes is one.
  documented-any :
      (unique : List Text)
      → (documented_success locale_compare unique ≡ []) ⊎ (any is_success_code unique ≡ true)
  documented-any unique =
      first (documented_success locale_compare unique) (contains-documented unique)
    where
      first :
          (docs : List Text)
          → ((k : Text) → contains docs k ≡ (contains unique k && is_success_code k))
          → (docs ≡ []) ⊎ (any is_success_code unique ≡ true)
      first [] h = inl refl
      first (c ∷ docs) h =
          inr
            (any-of_contains is_success_code unique c (found c docs (h c)).0 (found c docs (h c)).1)

  documented-none :
      (unique : List Text)
      → documented_success locale_compare unique ≡ []
      → any is_success_code unique ≡ false
  unfolding contains
  documented-none unique h = elim (Bool-cases (any is_success_code unique)) [
    | inr none ↦ none
    | inl some ↦
        let (k, m, p) = contains-of_any is_success_code unique some in
        let empty : contains (documented_success locale_compare unique) k ≡ false =
          ap (λ ds. contains ds k) h in
        ground (arith, contains-documented unique k)
  ]

  is_nil-documented :
      (unique : List Text)
      → is_nil (documented_success locale_compare unique) ≡ not (any is_success_code unique)
  is_nil-documented unique = elim (documented-any unique) [
    | inl nothing ↦ rw nothing (sym (ap not (documented-none unique nothing)))
    | inr something ↦
        filled (documented_success locale_compare unique) (λ e. documented-none unique e) something
  ]
    where
      filled :
          {b : Bool} (docs : List Text) → (docs ≡ [] → b ≡ false) → b ≡ true → is_nil docs ≡ not b
      filled [] h k = ground (arith, h refl)
      filled (c ∷ cs) h k = ground arith

  contains-success :
      (unique : List Text) (k : Text)
      → contains (classify_unique locale_compare unique).success k ≡ (
          contains unique k
          && (is_success_code k || text_eq k default && not (any is_success_code unique)))
  unfolding classify_unique
  contains-success unique k = ground (
    arith,
    contains-choose_success (documented_success locale_compare unique) (contains unique default) k,
    contains-documented unique k,
    is_nil-documented unique,
    default_found unique k,
  )

  contains-error :
      (unique : List Text) (k : Text)
      → contains (classify_unique locale_compare unique).error k ≡ (
          contains unique k && (is_error_code k || text_eq k default && any is_success_code unique))
  unfolding classify_unique
  contains-error unique k = ground (
    arith,
    contains-append (sort (le_by (compare_status locale_compare)) (filter is_error_code unique))
        (default_error (documented_success locale_compare unique) (contains unique default)) k,
    contains-sort (le_by (compare_status locale_compare)) (filter is_error_code unique) k,
    contains-filter is_error_code unique k,
    contains-default_error (documented_success locale_compare unique) (contains unique default) k,
    is_nil-documented unique,
    default_found unique k,
  )

  -- Sorting what a test lets through keeps the codes different.
  picked-IsNub :
      (p : Text → Bool) (unique : List Text)
      → IsNub unique
      → IsNub (sort (le_by (compare_status locale_compare)) (filter p unique))
  picked-IsNub p unique h =
      IsNub-sort (le_by (compare_status locale_compare)) (filter p unique) (IsNub-filter p unique h)

  documented-IsNub :
      (unique : List Text) → IsNub unique → IsNub (documented_success locale_compare unique)
  unfolding documented_success
  documented-IsNub unique h =
      IsNub-append
        (sort (le_by (compare_status locale_compare)) (filter is_concrete_success unique))
        (sort (le_by (compare_status locale_compare)) (filter is_wildcard_success unique))
        (picked-IsNub is_concrete_success unique h) (picked-IsNub is_wildcard_success unique h)
        (λ k m. ground (
          arith,
          contains-sort (le_by (compare_status locale_compare)) (filter is_concrete_success unique)
              k,
          contains-sort (le_by (compare_status locale_compare)) (filter is_wildcard_success unique)
              k,
          contains-filter is_concrete_success unique k,
          contains-filter is_wildcard_success unique k,
          concrete_is_no_wildcard k,
        ))

  success-IsNub :
      (unique : List Text) → IsNub unique → IsNub (classify_unique locale_compare unique).success
  unfolding classify_unique choose_success contains
  success-IsNub unique h =
      choose (documented_success locale_compare unique) (contains unique default)
        (documented-IsNub unique h)
    where
      choose : (docs : List Text) (d : Bool) → IsNub docs → IsNub (choose_success docs d)
      choose [] true k = (refl, tt)
      choose [] false k = tt
      choose (c ∷ cs) d k = k

  error-IsNub :
      (unique : List Text) → IsNub unique → IsNub (classify_unique locale_compare unique).error
  unfolding classify_unique default_error contains
  error-IsNub unique h =
      IsNub-append (sort (le_by (compare_status locale_compare)) (filter is_error_code unique))
        (default_error (documented_success locale_compare unique) (contains unique default))
        (picked-IsNub is_error_code unique h)
        (pushed (documented_success locale_compare unique) (contains unique default))
        (λ k m. ground (
          arith,
          contains-sort (le_by (compare_status locale_compare)) (filter is_error_code unique) k,
          contains-filter is_error_code unique k,
          contains-default_error (documented_success locale_compare unique)
              (contains unique default) k,
          default_class k,
        ))
    where
      pushed : (docs : List Text) (d : Bool) → IsNub (default_error docs d)
      pushed [] d = tt
      pushed (c ∷ cs) true = (refl, tt)
      pushed (c ∷ cs) false = tt

-- Every code of the document is classified by its canonical spelling: 200 to 299 and 2XX are
-- successes, the other codes from 100 to 599 and from 1XX to 5XX are errors, `default` is a success if
-- there is no other and an error if there is, and anything else is left out. No code is in both
-- classes or twice in one.
pub classify-IsClassification :
    (locale_compare : Text → Text → Sign) (status_codes : List Text)
    → IsClassification
        (nub (map canonicalize_status status_codes))
        (classify_response_status_codes locale_compare status_codes)
unfolding classify_response_status_codes
classify-IsClassification locale_compare status_codes =
    let unique : List Text = nub (map canonicalize_status status_codes) in
    record {
      success = contains-success locale_compare unique;
      error = contains-error locale_compare unique;
      once = (
        success-IsNub locale_compare unique (nub-IsNub (map canonicalize_status status_codes)),
        error-IsNub locale_compare unique (nub-IsNub (map canonicalize_status status_codes)),
      );
      disjoint = λ k. ground (
        arith,
        contains-success locale_compare unique k,
        contains-error locale_compare unique k,
        success_is_no_error k,
        default_class k,
      );
    }
