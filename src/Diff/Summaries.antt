-- ===== src/Diff/Summaries.antt =====
-- What the diff returns, whatever changes it finds.
use mathlib.Core.List.{Perm}
use openapi_to.Common.{
  ℕ, ◌+◌, ◌<◌, ◌≡◌, ◌↔◌, Bool, true, false, List, [], ◌∷◌, arith, filter, length, sort-perm,
  sort-IsSorted, any, any-sort, IsSorted,
}
use openapi_to.Common.Comparison.{
  compare_nat-IsComparator, compare_text-IsComparator, on-IsComparator, or_else-IsComparator, le_by,
  order_of, IsComparator,
}
use openapi_to.Diff.{
  Change, Classification, breaking, non_breaking, warning, informational, ChangeSummary, DiffResult,
  compare_changes, classification_order, join_path, sort_changes, count_change, count_changes,
  result_of,
}

compare_changes-IsComparator : IsComparator compare_changes
unfolding compare_changes
compare_changes-IsComparator =
    or_else-IsComparator _ _ (on-IsComparator (λ c. join_path c.path) compare_text-IsComparator) (
      or_else-IsComparator _ _
        (on-IsComparator (λ c. classification_order c.classification) compare_nat-IsComparator)
        (on-IsComparator (λ c. c.code) compare_text-IsComparator))

abbrev pub is_classified : Classification → Change → Bool
is_classified breaking c = elim c.classification [ breaking ↦ true | _ ↦ false ]
is_classified non_breaking c = elim c.classification [ non_breaking ↦ true | _ ↦ false ]
is_classified warning c = elim c.classification [ warning ↦ true | _ ↦ false ]
is_classified informational c = elim c.classification [ informational ↦ true | _ ↦ false ]

abbrev pub number_of : Classification → List Change → ℕ
number_of k cs = length (filter (is_classified k) cs)

count_changes_lem :
    (s : ChangeSummary) (cs : List Change)
    → ((count_changes s cs).breaking ≡ s.breaking + number_of breaking cs)
      × ((count_changes s cs).non_breaking ≡ s.non_breaking + number_of non_breaking cs)
      × ((count_changes s cs).warnings ≡ s.warnings + number_of warning cs)
      × ((count_changes s cs).informational ≡ s.informational + number_of informational cs)
unfolding count_changes filter count_change
count_changes_lem s [] = omega arith
count_changes_lem s (c ∷ cs) =
    ground (arith, count_changes_lem (count_change s c.classification) cs)

breaking_found :
    (cs : List Change) → (any (is_classified breaking) cs ≡ true) ↔ (0 < number_of breaking cs)
unfolding any filter
breaking_found [] = ground arith
breaking_found (c ∷ cs) = ground (arith, breaking_found cs)

-- The result that the diff returns for a list of changes.
pub record IsResult (changes : List Change) (r : DiffResult) : Type 0 where
  pub same_changes : Perm r.changes changes
  pub sorted : IsSorted (le_by compare_changes) r.changes
  pub breaking : r.summary.breaking ≡ number_of Classification.breaking r.changes
  pub non_breaking : r.summary.non_breaking ≡ number_of Classification.non_breaking r.changes
  pub warnings : r.summary.warnings ≡ number_of warning r.changes
  pub informational : r.summary.informational ≡ number_of Classification.informational r.changes
  pub is_breaking :
      (r.breaking ≡ true) ↔ (any (is_classified Classification.breaking) changes ≡ true)

pub result_of-IsResult : (changes : List Change) → IsResult changes (result_of changes)
unfolding result_of sort_changes
result_of-IsResult changes =
    let cs = sort_changes changes in
    let counts =
      count_changes_lem (record { breaking = 0; non_breaking = 0; warnings = 0; informational = 0 })
        cs in
    let found = breaking_found cs in
    record {
      same_changes = sort-perm (le_by compare_changes) changes;
      sorted =
          sort-IsSorted (le_by compare_changes)
            (order_of compare_changes compare_changes-IsComparator) changes;
      breaking = omega arith;
      non_breaking = omega arith;
      warnings = omega arith;
      informational = omega arith;
      is_breaking =
          ground (
            arith,
            counts,
            found,
            any-sort (le_by compare_changes) (is_classified breaking) changes,
          );
    }
