-- ===== src/Catalog/Search.antt =====
-- packages/core/src/openapi/catalog/search.ts: the ranking of operations by a query. `normalize` (NFKC, lower
-- case and trimming) and `tokens` (regular expressions over Unicode) are arguments.
use openapi_to.Common.Numbers.{Number, whole, floor, math_max, math_min, slice_to, exceeds}
use openapi_to.Common.{
  text_equality, ℕ, ◌+◌, ◌-◌, Text, text, Bool, true, false, not, ◌&&◌, ◌||◌, Option, none, some,
  List, [], ◌∷◌, ◌++◌, map, filter, any, contains, nub, sort, length, ltb, text_eq, starts_with,
  upper_unit, if◌then◌else◌, nat_eq,
}
use openapi_to.Common.Comparison.{Sign, compare_nat, compare_text, or_else, le_by}

pub record OperationCatalogItem : Type 0 where
  pub operation_key : Text
  pub operation_id : Option Text
  pub method : Text
  pub path : Text
  pub tags : List Text
  pub summary : Option Text
  pub description : Option Text
  pub parameter_names : List Text
  pub request_schema_names : List Text
  pub response_schema_names : List Text
  pub response_property_names : List Text
  pub deprecated : Bool
  pub source_pointer : Text

pub record OperationSearchOptions : Type 0 where
  pub limit : Option Number
  pub methods : List Text
  pub tags : List Text
  pub include_deprecated : Bool

pub record OperationSearchResult : Type 0 where
  pub item : OperationCatalogItem
  pub score : ℕ
  pub match_reasons : List Text

pub record OperationCatalogSearchResponse : Type 0 where
  pub total_matches : ℕ
  pub items : List OperationSearchResult
  pub truncated : Bool

abbrev pub default_operation_search_limit : ℕ
default_operation_search_limit = 8

abbrev pub max_operation_search_limit : ℕ
max_operation_search_limit = 50

-- `partial` is `Math.floor(weight * 0.7)` in double precision, where 90 * 0.7 is less than 63.
pub record SearchField : Type 0 where
  pub reason : Text
  pub weight : ℕ
  pub partial : ℕ
  pub values : List Text

-- `text ? [text] : []`
abbrev pub if_text : Option Text → List Text
if_text (some (c ∷ cs)) = (c ∷ cs) ∷ []
if_text _ = []

unfoldable pub fields : OperationCatalogItem → List SearchField
fields item =
    record {
      reason = text "operationKey matched";
      weight = 90;
      partial = 62;
      values = item.operation_key ∷ [];
    }
    ∷ record {
      reason = text "operationId matched";
      weight = 100;
      partial = 70;
      values = if_text item.operation_id;
    }
    ∷ record {
      reason = text "method matched";
      weight = 30;
      partial = 21;
      values = item.method ∷ [];
    }
    ∷ record { reason = text "path matched"; weight = 70; partial = 49; values = item.path ∷ [] }
    ∷ record { reason = text "tag matched"; weight = 60; partial = 42; values = item.tags }
    ∷ record {
      reason = text "schema matched";
      weight = 50;
      partial = 35;
      values =
          item.request_schema_names ++ (item.response_schema_names ++ item.response_property_names);
    }
    ∷ record {
      reason = text "parameter matched";
      weight = 45;
      partial = 31;
      values = item.parameter_names;
    }
    ∷ record {
      reason = text "summary matched";
      weight = 40;
      partial = 28;
      values = if_text item.summary;
    }
    ∷ record {
      reason = text "description matched";
      weight = 20;
      partial = 14;
      values = if_text item.description;
    }
    ∷ []

-- `value.includes(token)`
unfoldable pub includes : Text → Text → Bool
includes [] token = starts_with token []
includes (c ∷ cs) token = starts_with token (c ∷ cs) || includes cs token

-- The score of a token so far, and its reason.
pub record TokenScore : Type 0 where
  pub score : ℕ
  pub reason : Option Text

-- `left ?? ''`
abbrev pub or_blank : Option Text → Text
or_blank none = []
or_blank (some t) = t

abbrev pub reason_list : Option Text → List Text
reason_list none = []
reason_list (some r) = r ∷ []

abbrev pub points : Bool → ℕ → ℕ
points true n = n
points false n = 0

abbrev pub reason_if : Bool → Text → List Text
reason_if true r = r ∷ []
reason_if false r = []

abbrev pub is_nil : List Text → Bool
is_nil [] = true
is_nil (t ∷ ts) = false

module _ (normalize : Text → Text) (tokens : Text → List Text) where
  abbrev pub all_tokens : List Text → List Text
  all_tokens [] = []
  all_tokens (v ∷ vs) = tokens v ++ all_tokens vs

  unfoldable pub candidate : Text → SearchField → ℕ
  candidate token field =
      if any (text_eq token) (map normalize field.values)
        || any (text_eq token) (all_tokens field.values)
      then field.weight
      else if any (λ v. includes v token) (map normalize field.values)
      then field.partial
      else 0

  -- The loop over the fields.
  unfoldable pub best_field : Text → List SearchField → TokenScore → TokenScore
  best_field token [] best = best
  best_field token (f ∷ fs) best = best_field token fs (
      if ltb best.score (candidate token f)
      then record { score = candidate token f; reason = some f.reason }
      else best)

  -- The loop over the tokens; `none` is a token that no field matches.
  unfoldable pub score_tokens :
      OperationCatalogItem → List Text → ℕ → List Text → Option (ℕ × List Text)
  score_tokens item [] score reasons = some (score, reasons)
  score_tokens item (t ∷ ts) score reasons =
      let best = best_field t (fields item) (record { score = 0; reason = none }) in
      elim (nat_eq best.score 0) [
        | true ↦ none
        | false ↦ score_tokens item ts (score + best.score) (reasons ++ reason_list best.reason)
      ]

  -- The three exact matches.
  unfoldable pub exact_score : OperationCatalogItem → Text → ℕ
  exact_score item query =
      points (text_eq (normalize (or_blank item.operation_id)) query) 1000
      + (points (text_eq (normalize item.operation_key) query) 950
          + points (text_eq (normalize (item.method ++ (text " " ++ item.path))) query) 800)

  unfoldable pub exact_reasons : OperationCatalogItem → Text → List Text
  exact_reasons item query =
      reason_if (text_eq (normalize (or_blank item.operation_id)) query)
        (text "operationId exact match")
      ++ (reason_if (text_eq (normalize item.operation_key) query) (text "operationKey exact match")
          ++ reason_if (text_eq (normalize (item.method ++ (text " " ++ item.path))) query)
              (text "method and path exact match"))

  unfoldable pub finish_score :
      OperationCatalogItem → Option (ℕ × List Text) → Option OperationSearchResult
  finish_score item none = none
  finish_score item (some (score, reasons)) = some (record {
    item = item;
    score = if item.deprecated then score - 10 else score;
    match_reasons = nub reasons;
  })

  unfoldable pub score_item : Text → OperationCatalogItem → Option OperationSearchResult
  score_item query item =
      if text_eq (normalize query) [] || is_nil (tokens query)
      then none
      else finish_score item (
          score_tokens item (tokens query) (exact_score item (normalize query))
            (exact_reasons item (normalize query)))

  -- The three filters.
  unfoldable pub is_wanted : OperationSearchOptions → OperationCatalogItem → Bool
  is_wanted options item =
      (options.include_deprecated || not item.deprecated)
      && ((is_nil options.methods || contains (map (map upper_unit) options.methods) item.method)
          && (is_nil options.tags
              || any (λ tag. contains (map normalize options.tags) (normalize tag)) item.tags))

  unfoldable pub compare_results : OperationSearchResult → OperationSearchResult → Sign
  compare_results left right = or_else (compare_nat right.score left.score) (
      or_else (compare_text left.item.operation_key right.item.operation_key)
        (compare_text left.item.source_pointer right.item.source_pointer))

  unfoldable pub score_all : Text → List OperationCatalogItem → List OperationSearchResult
  score_all query [] = []
  score_all query (i ∷ is) =
      let rest = score_all query is in elim (score_item query i) [ none ↦ rest | some r ↦ r ∷ rest ]

  abbrev pub or_limit : Option Number → Number
  or_limit none = whole default_operation_search_limit
  or_limit (some n) = n

  unfoldable pub matches_of :
      List OperationCatalogItem → Text → OperationSearchOptions → List OperationSearchResult
  matches_of catalog query options =
      sort (le_by compare_results) (score_all query (filter (is_wanted options) catalog))

  unfoldable pub search_operation_catalog_with_metadata :
      List OperationCatalogItem → Text → OperationSearchOptions → OperationCatalogSearchResponse
  search_operation_catalog_with_metadata catalog query options =
      let limit =
        math_min max_operation_search_limit (math_max 0 (floor (or_limit options.limit))) in
      let matches = matches_of catalog query options in
      record {
        total_matches = length matches;
        items = slice_to limit matches;
        truncated = exceeds (length matches) limit;
      }

  unfoldable pub search_operation_catalog :
      List OperationCatalogItem → Text → OperationSearchOptions → List OperationSearchResult
  search_operation_catalog catalog query options =
      (search_operation_catalog_with_metadata catalog query options).items
