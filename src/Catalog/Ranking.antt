-- ===== src/Catalog/Ranking.antt =====
-- What a search of the catalog answers.
use mathlib.Core.List.{Perm}
use openapi_to.Common.Numbers.{
  whole, Number, not_a_number, infinity, minus_infinity, below_zero, from_zero, floor, math_max,
  math_min, slice_to, exceeds, clamped, min-max-floor,
}
use openapi_to.Common.{
  max, ◌++◌, ap, ◌∙◌, not, ◌&&◌, ltb, length-sort, sort-perm, IsSorted-imp, text_equality,
  nat_equality, ℕ, zero, suc, ◌<◌, min, Text, Bool, true, false, ◌||◌, Option, none, some, List, [],
  ◌∷◌, filter, length, take, sort, All, All-sort, IsSorted, sort-IsSorted, ◌≡◌, ◌↔◌, refl, sym,
  arith, Bool-cases, Option-cases, inl, inr, subst,
}
use openapi_to.Common.Comparison.{
  text_precedes, not_after-descending, not_after-compare_text, not_after-last, compare_nat,
  compare_text-IsComparator, on-IsComparator, or_else-IsComparator, le_by, order_of, IsComparator,
}
use openapi_to.Catalog.Search.{
  OperationCatalogItem, OperationSearchOptions, OperationSearchResult,
  OperationCatalogSearchResponse, score_item, is_wanted, compare_results, score_all, matches_of,
  search_operation_catalog_with_metadata, or_limit,
}
use openapi_to.Catalog.Scores.{IsResult, score_all-IsResult}

-- Cutting a list leaves the rest.
take-rest {ℓ} :
    {A : Type ℓ} (n : ℕ) (xs : List A)
    → (rest : List A) × (xs ≡ take n xs ++ rest) × (length (take n xs) ≡ min n (length xs))
take-rest zero xs = (xs, refl, omega arith)
take-rest (suc n) [] = ([], refl, omega arith)
take-rest (suc n) (x ∷ xs) =
    let (rest, e, size) = take-rest n xs in (rest, ap (λ t. x ∷ t) e, omega (arith, size))

descending-IsComparator : IsComparator (λ (a b : ℕ). compare_nat b a)
unfolding compare_nat
descending-IsComparator = record { swap = λ a b. ground arith; trans = λ a b c p q. ground arith }

module _ (normalize : Text → Text) (tokens : Text → List Text) where
  compare_results-IsComparator : IsComparator (compare_results normalize tokens)
  unfolding compare_results
  compare_results-IsComparator =
      or_else-IsComparator _ _
        (on-IsComparator (λ (r : OperationSearchResult). r.score) descending-IsComparator)
        (or_else-IsComparator _ _
          (on-IsComparator (λ (r : OperationSearchResult). r.item.operation_key)
            compare_text-IsComparator)
          (on-IsComparator (λ (r : OperationSearchResult). r.item.source_pointer)
            compare_text-IsComparator))

  -- The better score comes first, then the smaller key, then the smaller pointer.
  abbrev pub ranks_before : OperationSearchResult → OperationSearchResult → Bool
  ranks_before l r =
      ltb r.score l.score
      || (not (ltb l.score r.score)
          && text_precedes l.item.operation_key r.item.operation_key
              (text_precedes l.item.source_pointer r.item.source_pointer true))

  compare_results-ranks_before :
      (l r : OperationSearchResult)
      → le_by (compare_results normalize tokens) l r ≡ ranks_before l r
  unfolding compare_results
  compare_results-ranks_before l r =
      not_after-descending l.score r.score _
      ∙ ap (λ b. ltb r.score l.score || (not (ltb l.score r.score) && b))
          (not_after-compare_text l.item.operation_key r.item.operation_key _
            ∙ ap (text_precedes l.item.operation_key r.item.operation_key)
                (not_after-last l.item.source_pointer r.item.source_pointer))

  -- The filters let the operation through, and it has a score for the query.
  abbrev pub is_match : Text → OperationSearchOptions → OperationCatalogItem → Bool
  is_match query options item =
      is_wanted normalize tokens options item
      && elim (score_item normalize tokens query item) [ none ↦ false | some r ↦ true ]

  length-score_all :
      (query : Text) (options : OperationSearchOptions) (items : List OperationCatalogItem)
      → length
          (score_all normalize tokens query (filter (is_wanted normalize tokens options) items))
        ≡ length (filter (is_match query options) items)
  unfolding score_all filter
  length-score_all query options [] = refl
  length-score_all query options (i ∷ is) =
      elim (Bool-cases (is_wanted normalize tokens options i)) [
        | inr unwanted ↦ rw unwanted (length-score_all query options is)
        | inl wanted ↦ elim (Option-cases (score_item normalize tokens query i)) [
          | inl missing ↦ rw wanted (rw (missing, score_all) (length-score_all query options is))
          | inr (r, found) ↦
              rw wanted (rw (found, score_all) (ap suc (length-score_all query options is)))
        ]
      ]

  -- How many results are asked for: the whole number below the limit, but at most 50; 8 without a limit,
  -- and none for `NaN`.
  abbrev pub asked_results : Option Number → ℕ
  asked_results none = 8
  asked_results (some not_a_number) = 0
  asked_results (some infinity) = 50
  asked_results (some minus_infinity) = 0
  asked_results (some (below_zero n b)) = 0
  asked_results (some (from_zero n b)) = min 50 n

  abbrev pub is_nan : Option Number → Bool
  is_nan (some not_a_number) = true
  is_nan _ = false

  -- The answer of a search: the first results of all, and how many there are.
  pub record IsRanking (catalog : List OperationCatalogItem) (query : Text)
      (options : OperationSearchOptions) (a : OperationCatalogSearchResponse) : Type 0 where
    pub rest : List OperationSearchResult
    pub every :
        Perm
          (a.items ++ rest)
          (score_all normalize tokens query (filter (is_wanted normalize tokens options) catalog))
    pub total : a.total_matches ≡ length (filter (is_match query options) catalog)
    pub results : All (IsResult normalize tokens query options) (a.items ++ rest)
    pub sorted : IsSorted ranks_before (a.items ++ rest)
    pub as_asked : length a.items ≡ min (asked_results options.limit) a.total_matches
    pub cut :
        (a.truncated ≡ true) ↔ ((is_nan options.limit ≡ false) × (length a.items < a.total_matches))

  abbrev limit_of : Option Number → Number
  limit_of o = math_min 50 (math_max 0 (floor (or_limit normalize tokens o)))

  limit_of-clamped : (o : Option Number) → limit_of o ≡ clamped 0 50 8 o
  limit_of-clamped none = min-max-floor 0 50 8 (whole 8) (omega arith)
  limit_of-clamped (some x) = min-max-floor 0 50 8 x (omega arith)

  -- What the limit cuts off, and what is said about it.
  abbrev Cuts : Option Number → Number → List OperationSearchResult → Type 0
  Cuts o limit xs =
      (slice_to limit xs ≡ take (asked_results o) xs)
      × ((exceeds (length xs) limit ≡ true)
          ↔ ((is_nan o ≡ false) × (min (asked_results o) (length xs) < length xs)))

  whole-Cuts :
      (o : Option Number) (n : ℕ) (xs : List OperationSearchResult)
      → is_nan o ≡ false
      → n ≡ asked_results o
      → Cuts o (whole n) xs
  unfolding slice_to exceeds
  whole-Cuts o n xs h e =
      (ap (λ m. take m xs) e, (λ k. (h, ground (arith, e)), λ k. ground (arith, e, k.1)))

  clamped-Cuts :
      (o : Option Number) (xs : List OperationSearchResult) → Cuts o (clamped 0 50 8 o) xs
  unfolding slice_to exceeds
  clamped-Cuts none xs = whole-Cuts none 8 xs refl refl
  clamped-Cuts (some not_a_number) xs = (refl, (λ h. cc h, λ k. cc k.0))
  clamped-Cuts (some infinity) xs = whole-Cuts (some infinity) 50 xs refl refl
  clamped-Cuts (some minus_infinity) xs = whole-Cuts (some minus_infinity) 0 xs refl refl
  clamped-Cuts (some (below_zero n b)) xs = whole-Cuts (some (below_zero n b)) 0 xs refl refl
  clamped-Cuts (some (from_zero n b)) xs =
      whole-Cuts (some (from_zero n b)) (max 0 (min 50 n)) xs refl (omega arith)

  limit_of-Cuts : (o : Option Number) (xs : List OperationSearchResult) → Cuts o (limit_of o) xs
  limit_of-Cuts o xs = subst (λ x. Cuts o x xs) (sym (limit_of-clamped o)) (clamped-Cuts o xs)

  -- A search answers the first of all results, the best first, and then by key and pointer; it answers
  -- as many as are asked for and there are, which is at most 50. The results are those of the operations
  -- that the filters let through and that have a score for the query, each with this score, which is at
  -- least 4; the answer counts them all. It says that it is cut exactly if it has fewer results than it
  -- counts, except for a limit that is `NaN`: then it has none and does not say so.
  pub search-IsRanking :
      (catalog : List OperationCatalogItem) (query : Text) (options : OperationSearchOptions)
      → IsRanking catalog query options
          (search_operation_catalog_with_metadata normalize tokens catalog query options)
  unfolding search_operation_catalog_with_metadata matches_of
  search-IsRanking catalog query options =
      let le = le_by (compare_results normalize tokens) in
      let found =
        score_all normalize tokens query (filter (is_wanted normalize tokens options) catalog) in
      let matches = sort le found in
      let (rest, parts, size) = take-rest (asked_results options.limit) matches in
      let (items, told) = limit_of-Cuts options.limit matches in
      let whole_list : matches ≡ slice_to (limit_of options.limit) matches ++ rest =
        parts ∙ ap (λ t. t ++ rest) (sym items) in
      let counted : length matches ≡ length found = length-sort le found in
      record {
        rest = rest;
        every = subst (λ t. Perm t found) whole_list (sort-perm le found);
        total = counted ∙ length-score_all query options catalog;
        results = subst (All (IsResult normalize tokens query options)) whole_list (
            All-sort le (IsResult normalize tokens query options) found
              (score_all-IsResult normalize tokens query options catalog));
        sorted = subst (IsSorted ranks_before) whole_list (
            IsSorted-imp le ranks_before (λ l r h. sym (compare_results-ranks_before l r) ∙ h)
              matches
              (sort-IsSorted le
                (order_of (compare_results normalize tokens) compare_results-IsComparator) found));
        as_asked = ap length items ∙ size;
        cut =
            subst
              (λ n.
                (exceeds (length matches) (limit_of options.limit) ≡ true)
                ↔ ((is_nan options.limit ≡ false) × (n < length matches)))
              (sym (ap length items ∙ size)) told;
      }
