-- ===== src/Diagnostics/Tests.antt =====
-- The theorems on diagnostics at concrete inputs.
use mathlib.Core.List.{Perm}
use openapi_to.Common.{List, [], ◌∷◌, text, IsSorted, ◌≡◌, refl, ◌<◌, ◌↔◌, true}
use openapi_to.Diagnostics.{
  Diagnostic, plain, error, warning, info, sort_diagnostics, summarize_diagnostics,
  has_diagnostic_errors,
}
use openapi_to.Diagnostics.Laws.{
  may_precede, sort_diagnostics-IsSorted, summarize_diagnostics-counts, number_of,
}

abbrev reported : List Diagnostic
reported =
    plain (text "B") warning (text "b")
    ∷ plain (text "C") error (text "c")
    ∷ plain (text "A") warning (text "a")
    ∷ plain (text "D") info (text "d")
    ∷ []

sort_diagnostics-IsSorted_example :
    Perm (sort_diagnostics reported) reported × IsSorted may_precede (sort_diagnostics reported)
sort_diagnostics-IsSorted_example = sort_diagnostics-IsSorted reported

summarize_diagnostics-counts_example :
    ((summarize_diagnostics reported).errors ≡ number_of error reported)
    × ((summarize_diagnostics reported).warnings ≡ number_of warning reported)
    × ((summarize_diagnostics reported).infos ≡ number_of info reported)
    × ((has_diagnostic_errors reported ≡ true) ↔ (0 < (summarize_diagnostics reported).errors))
summarize_diagnostics-counts_example = summarize_diagnostics-counts reported

summary : summarize_diagnostics reported ≡ record { errors = 1; warnings = 2; infos = 1 }
unfolding summarize_diagnostics
summary = refl
