-- ===== src/Diagnostics.antt =====
-- packages/core/src/diagnostics.ts: diagnostics, their order and their summary.
pub mod Laws
pub mod Tests
use openapi_to.Common.{
  ℕ, ◌+◌, Bool, true, false, Option, none, some, List, [], ◌∷◌, ◌++◌, map, Text, text, decimal,
  sort, any,
}
use openapi_to.Common.Comparison.{
  Sign, negative, zero, positive, or_else, compare_text, compare_nat, le_by,
}

pub data Severity : Type 0 where
  info warning error : Severity

-- An element of `path: Array<string | number>`.
pub data PathItem : Type 0 where
  key : Text → PathItem
  index : ℕ → PathItem

pub record Location : Type 0 where
  pub source : Option Text
  pub path : Option (List PathItem)
  pub line : Option ℕ
  pub column : Option ℕ

pub record Diagnostic : Type 0 where
  pub code : Text
  pub severity : Severity
  pub message : Text
  pub location : Option Location
  pub hint : Option Text
  pub plugin : Option Text
  pub cause : Option Text

pub record Summary : Type 0 where
  pub errors : ℕ
  pub warnings : ℕ
  pub infos : ℕ

-- `{ code, severity, message }`
abbrev pub plain : Text → Severity → Text → Diagnostic
plain code severity message = record {
  code = code;
  severity = severity;
  message = message;
  location = none;
  hint = none;
  plugin = none;
  cause = none;
}

-- `{ code, severity, message, location: { path } }`
abbrev pub at_path : Text → Severity → Text → List Text → Diagnostic
at_path code severity message path = record (plain code severity message) {
  location =
      some (record { source = none; path = some (map key path); line = none; column = none });
}

severity_order : Severity → ℕ
severity_order error = 0
severity_order warning = 1
severity_order info = 2

path_item_text : PathItem → Text
path_item_text (key k) = k
path_item_text (index n) = decimal n

-- `value ?? ''`
abbrev pub or_empty : Option Text → Text
or_empty none = []
or_empty (some t) = t

abbrev number_text : Option ℕ → Text
number_text none = []
number_text (some n) = decimal n

-- `parts.join('\u0000')`
join_null : List Text → Text
join_null [] = []
join_null (t ∷ []) = t
join_null (t ∷ u ∷ ts) = t ++ 0 ∷ join_null (u ∷ ts)

location_parts : Option Location → List Text
location_parts none = [] ∷ [] ∷ [] ∷ []
location_parts (some l) =
    or_empty l.source ∷ (path_texts l.path ++ number_text l.line ∷ number_text l.column ∷ [])
  where
    path_texts : Option (List PathItem) → List Text
    path_texts none = []
    path_texts (some p) = map path_item_text p

pub location_key : Diagnostic → Text
unfolding join_null location_parts path_item_text
location_key d = join_null (location_parts d.location)

unfoldable pub compare_diagnostics : Diagnostic → Diagnostic → Sign
unfolding severity_order location_key
compare_diagnostics l r =
    or_else (compare_nat (severity_order l.severity) (severity_order r.severity)) (
      or_else (compare_text (location_key l) (location_key r)) (
        or_else (compare_text l.code r.code) (
          or_else (compare_text l.message r.message)
            (compare_text (or_empty l.plugin) (or_empty r.plugin)))))

unfoldable pub sort_diagnostics : List Diagnostic → List Diagnostic
sort_diagnostics = sort (le_by compare_diagnostics)

count_in : Summary → Severity → Summary
count_in s error = record s { errors = s.errors + 1 }
count_in s warning = record s { warnings = s.warnings + 1 }
count_in s info = record s { infos = s.infos + 1 }

summarize_from : Summary → List Diagnostic → Summary
summarize_from s [] = s
summarize_from s (d ∷ ds) = summarize_from (count_in s d.severity) ds

unfoldable pub summarize_diagnostics : List Diagnostic → Summary
unfolding summarize_from count_in
summarize_diagnostics = summarize_from (record { errors = 0; warnings = 0; infos = 0 })

abbrev pub is_error : Diagnostic → Bool
is_error d = elim d.severity [ error ↦ true | _ ↦ false ]

unfoldable pub has_diagnostic_errors : List Diagnostic → Bool
has_diagnostic_errors = any is_error
