-- ===== src/Diff.antt =====
-- packages/core/src/diff/index.ts: the changes between two OpenAPI documents, their order and their
-- summary. The abort signal is not modelled. Every element of a path is a text here.
pub mod Values
pub mod Schemas
pub mod Contents
pub mod Documents
pub mod Summaries
pub mod Fuel
pub mod Sameness
pub mod Members
pub mod Unchanged
pub mod Safety
pub mod Properties
pub mod Operations
pub mod Removals
pub mod Tests
use openapi_to.Common.{ℕ, ◌+◌, ltb, Bool, true, false, Option, List, [], ◌∷◌, ◌++◌, Text, sort}
use openapi_to.Common.Comparison.{Sign, or_else, compare_text, compare_nat, le_by}
use openapi_to.Common.Json.{Json}

pub data Classification : Type 0 where
  breaking non_breaking warning informational : Classification

pub record Change : Type 0 where
  pub classification : Classification
  pub code : Text
  pub message : Text
  pub path : List Text
  pub before : Option Json
  pub after : Option Json

pub record ChangeSummary : Type 0 where
  pub breaking : ℕ
  pub non_breaking : ℕ
  pub warnings : ℕ
  pub informational : ℕ

pub record DiffResult : Type 0 where
  pub breaking : Bool
  pub changes : List Change
  pub summary : ChangeSummary

-- `add(classification, code, message, path)`
abbrev pub add : Classification → Text → Text → List Text → List Change
add classification code message path =
    record {
      classification = classification;
      code = code;
      message = message;
      path = path;
      before = Option.none;
      after = Option.none;
    }
    ∷ []

-- `add` with the values before and after.
abbrev pub add_values :
    Classification → Text → Text → List Text → Option Json → Option Json → List Change
add_values classification code message path before after =
    record {
      classification = classification;
      code = code;
      message = message;
      path = path;
      before = before;
      after = after;
    }
    ∷ []

-- `added ? 'breaking' : 'non-breaking'`
abbrev pub breaking_if : Bool → Classification
breaking_if true = breaking
breaking_if false = non_breaking

-- `path.map(String).join('\u0000')`
join_path : List Text → Text
join_path [] = []
join_path (t ∷ []) = t
join_path (t ∷ u ∷ ts) = t ++ 0 ∷ join_path (u ∷ ts)

classification_order : Classification → ℕ
classification_order breaking = 0
classification_order warning = 1
classification_order non_breaking = 2
classification_order informational = 3

unfoldable pub compare_changes : Change → Change → Sign
unfolding join_path classification_order
compare_changes left right = or_else (compare_text (join_path left.path) (join_path right.path)) (
    or_else
      (compare_nat (classification_order left.classification)
        (classification_order right.classification))
      (compare_text left.code right.code))

unfoldable pub sort_changes : List Change → List Change
sort_changes = sort (le_by compare_changes)

count_change : ChangeSummary → Classification → ChangeSummary
count_change s breaking = record s { breaking = s.breaking + 1 }
count_change s non_breaking = record s { non_breaking = s.non_breaking + 1 }
count_change s warning = record s { warnings = s.warnings + 1 }
count_change s informational = record s { informational = s.informational + 1 }

count_changes : ChangeSummary → List Change → ChangeSummary
count_changes s [] = s
count_changes s (c ∷ cs) = count_changes (count_change s c.classification) cs

-- The end of `diffOpenAPIDocuments`.
unfoldable pub result_of : List Change → DiffResult
unfolding count_changes count_change
result_of changes =
    let sorted = sort_changes changes in
    let summary : ChangeSummary =
      count_changes (record { breaking = 0; non_breaking = 0; warnings = 0; informational = 0 })
        sorted in
    record { breaking = ltb 0 summary.breaking; changes = sorted; summary = summary }
