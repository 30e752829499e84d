-- ===== src/Diagnostics/Laws.antt =====
-- The order of diagnostics, and what the summary counts.
use mathlib.Core.List.{Perm}
use openapi_to.Common.{
  ◌&&◌, IsSorted-imp, not, sym, ◌∙◌, any-sort, ap, refl, ◌++◌, ◌||◌, ℕ, ◌+◌, ◌<◌, ◌≡◌, ◌↔◌, Bool,
  true, false, List, [], ◌∷◌, arith, filter, length, sort-perm, sort-IsSorted, any, IsSorted,
}
use openapi_to.Common.Comparison.{
  text_precedes, not_after-compare_text, not_after-last, compare_nat, Sign, or_else, not_after,
  compare_nat-IsComparator, compare_text-IsComparator, on-IsComparator, or_else-IsComparator, le_by,
  order_of, IsComparator,
}
use openapi_to.Diagnostics.{
  Diagnostic, Severity, error, warning, info, compare_diagnostics, sort_diagnostics,
  summarize_diagnostics, summarize_from, has_diagnostic_errors, is_error, or_empty, severity_order,
  location_key, Summary, count_in,
}

compare_diagnostics-IsComparator : IsComparator compare_diagnostics
unfolding compare_diagnostics
compare_diagnostics-IsComparator =
    or_else-IsComparator _ _
      (on-IsComparator (λ d. severity_order d.severity) compare_nat-IsComparator)
      (or_else-IsComparator _ _ (on-IsComparator location_key compare_text-IsComparator) (
        or_else-IsComparator _ _ (on-IsComparator (λ d. d.code) compare_text-IsComparator) (
          or_else-IsComparator _ _ (on-IsComparator (λ d. d.message) compare_text-IsComparator)
            (on-IsComparator (λ d. or_empty d.plugin) compare_text-IsComparator))))

-- An error is reported before a warning, and that before an information.
abbrev pub is_graver : Severity → Severity → Bool
is_graver error error = false
is_graver error _ = true
is_graver warning info = true
is_graver _ _ = false

-- Whether a diagnostic may stand in front of another.
abbrev pub may_precede : Diagnostic → Diagnostic → Bool
may_precede l r =
    is_graver l.severity r.severity
    || (not (is_graver r.severity l.severity)
        && text_precedes (location_key l) (location_key r) (
            text_precedes l.code r.code (
              text_precedes l.message r.message
                (text_precedes (or_empty l.plugin) (or_empty r.plugin) true))))

not_after-severity :
    (s t : Severity) (rest : Sign)
    → not_after (or_else (compare_nat (severity_order s) (severity_order t)) rest)
      ≡ (is_graver s t || (not (is_graver t s) && not_after rest))
unfolding compare_nat severity_order
not_after-severity error error rest = refl
not_after-severity error warning rest = refl
not_after-severity error info rest = refl
not_after-severity warning error rest = refl
not_after-severity warning warning rest = refl
not_after-severity warning info rest = refl
not_after-severity info error rest = refl
not_after-severity info warning rest = refl
not_after-severity info info rest = refl

compare_diagnostics-precede : (l r : Diagnostic) → le_by compare_diagnostics l r ≡ may_precede l r
unfolding compare_diagnostics
compare_diagnostics-precede l r =
    not_after-severity l.severity r.severity _
    ∙ ap (λ b. is_graver l.severity r.severity || (not (is_graver r.severity l.severity) && b))
        (not_after-compare_text (location_key l) (location_key r) _
          ∙ ap (text_precedes (location_key l) (location_key r)) (
              not_after-compare_text l.code r.code _
              ∙ ap (text_precedes l.code r.code) (
                  not_after-compare_text l.message r.message _
                  ∙ ap (text_precedes l.message r.message)
                      (not_after-last (or_empty l.plugin) (or_empty r.plugin)))))

-- Sorting loses and adds no diagnostic. Each diagnostic may precede all that follow it: errors come
-- first, then warnings, then informations, and those of one severity are in the order of the location,
-- then the code, the message and the plugin, as texts.
pub sort_diagnostics-IsSorted :
    (ds : List Diagnostic)
    → Perm (sort_diagnostics ds) ds × IsSorted may_precede (sort_diagnostics ds)
unfolding sort_diagnostics
sort_diagnostics-IsSorted ds = (
  sort-perm (le_by compare_diagnostics) ds,
  IsSorted-imp (le_by compare_diagnostics) may_precede
      (λ l r h. sym (compare_diagnostics-precede l r) ∙ h) (sort_diagnostics ds)
      (sort-IsSorted (le_by compare_diagnostics)
        (order_of compare_diagnostics compare_diagnostics-IsComparator) ds),
)

abbrev pub has_severity : Severity → Diagnostic → Bool
has_severity error d = elim d.severity [ error ↦ true | _ ↦ false ]
has_severity warning d = elim d.severity [ warning ↦ true | _ ↦ false ]
has_severity info d = elim d.severity [ info ↦ true | _ ↦ false ]

abbrev pub number_of : Severity → List Diagnostic → ℕ
number_of s ds = length (filter (has_severity s) ds)

summarize_from-counts :
    (s : Summary) (ds : List Diagnostic)
    → ((summarize_from s ds).errors ≡ s.errors + number_of error ds)
      × ((summarize_from s ds).warnings ≡ s.warnings + number_of warning ds)
      × ((summarize_from s ds).infos ≡ s.infos + number_of info ds)
unfolding summarize_from filter count_in
summarize_from-counts s [] = omega arith
summarize_from-counts s (d ∷ ds) = ground (arith, summarize_from-counts (count_in s d.severity) ds)

errors_found : (ds : List Diagnostic) → (any is_error ds ≡ true) ↔ (0 < number_of error ds)
unfolding any filter
errors_found [] = ground arith
errors_found (d ∷ ds) = ground (arith, errors_found ds)

-- The summary counts the diagnostics of each severity, and `has_diagnostic_errors` says exactly
-- that it counts an error.
pub summarize_diagnostics-counts :
    (ds : List Diagnostic)
    → ((summarize_diagnostics ds).errors ≡ number_of error ds)
      × ((summarize_diagnostics ds).warnings ≡ number_of warning ds)
      × ((summarize_diagnostics ds).infos ≡ number_of info ds)
      × ((has_diagnostic_errors ds ≡ true) ↔ (0 < (summarize_diagnostics ds).errors))
unfolding summarize_diagnostics has_diagnostic_errors
summarize_diagnostics-counts ds =
    let counts = summarize_from-counts (record { errors = 0; warnings = 0; infos = 0 }) ds in
    let found = errors_found ds in
    (
      omega arith,
      omega arith,
      omega arith,
      (λ h. omega (arith, found.0 h), λ h. found.1 (omega arith)),
    )

pub has_diagnostic_errors-append :
    (ds es : List Diagnostic)
    → has_diagnostic_errors (ds ++ es) ≡ (has_diagnostic_errors ds || has_diagnostic_errors es)
unfolding has_diagnostic_errors any
has_diagnostic_errors-append [] es = refl
has_diagnostic_errors-append (d ∷ ds) es = ground (arith, has_diagnostic_errors-append ds es)

-- Appending an error.
pub has_diagnostic_errors-push :
    (ds : List Diagnostic) (d : Diagnostic)
    → is_error d ≡ true
    → has_diagnostic_errors (ds ++ d ∷ []) ≡ true
unfolding has_diagnostic_errors any
has_diagnostic_errors-push ds d h = ground (arith, has_diagnostic_errors-append ds (d ∷ []))

is_error_of : Severity → Bool
is_error_of s = elim s [ error ↦ true | _ ↦ false ]

-- Appending what is no error.
pub has_diagnostic_errors-push_info :
    (ds : List Diagnostic) (d : Diagnostic)
    → d.severity ≡ info
    → has_diagnostic_errors (ds ++ d ∷ []) ≡ has_diagnostic_errors ds
unfolding has_diagnostic_errors any is_error_of
has_diagnostic_errors-push_info ds d h =
    let mild : is_error d ≡ false = ap is_error_of h in
    ground (arith, has_diagnostic_errors-append ds (d ∷ []))

pub has_diagnostic_errors-sort_diagnostics :
    (ds : List Diagnostic) → has_diagnostic_errors (sort_diagnostics ds) ≡ has_diagnostic_errors ds
unfolding has_diagnostic_errors sort_diagnostics
has_diagnostic_errors-sort_diagnostics ds = any-sort (le_by compare_diagnostics) is_error ds
