-- ===== src/Diff/Tests.antt =====
-- The theorems on the diff at concrete documents, and two documents that the diff tells apart though
-- they are written alike.
use openapi_to.Common.{
  to_lower_case, ◌≡◌, refl, Bool, true, false, none, some, List, [], ◌∷◌, Text, text, text_equality,
  nat_equality, arith, sort, insert, sorted_set, nub, remove, filter, contains, text_eq, text_lt,
  lower_unit, upper_unit, any,
}
use openapi_to.Common.Comparison.{compare_text, compare_nat}
use openapi_to.Common.Dictionary.{get, put}
use openapi_to.Common.Json.{Json, str, arr, obj, nil, item, Fields, end, field, keys, property}
use openapi_to.Diff.{
  Change, breaking, non_breaking, DiffResult, result_of, sort_changes, compare_changes, add,
  add_values,
}
use openapi_to.Diff.Values.{
  member, is_in, record_at, record_or_empty, sorted_keys, strictly_equal, same_value, same_entries,
  depth,
}
use openapi_to.Diff.Schemas.{
  for_each, compare_schema, untracked, texts_of, strings_in, enum_values, except,
}
use openapi_to.Diff.Contents.{
  operation_methods, operation_for, parameter_map, list_at, parameter_key, content_schemas, upper,
  operation_label,
}
use openapi_to.Diff.Documents.{diff_openapi_documents, document_changes, parameter_names}
use openapi_to.Diff.Summaries.{IsResult}
use openapi_to.Diff.Fuel.{diff-IsResult}
use openapi_to.Diff.Sameness.{IsObject}
use openapi_to.Diff.Unchanged.{diff_self}
use openapi_to.Diff.Removals.{KeepsInterface, diff-KeepsInterface}

-- Objects of two documents that were read apart.
abbrev apart : Json → Json → Bool
apart v w = false

abbrev alike : Json → Json → Bool
alike v w = true

abbrev stringify : Json → Text
stringify (str t) = t
stringify _ = []

abbrev of : Text → Json → Fields
of name v = field name v end

abbrev schema : Json → Fields
schema type = of (text "type") type

abbrev operation : Json → Json
operation type = obj (
    field (text "operationId") (str (text "list")) (
      field (text "parameters")
        (arr (
          item
            (obj (
              field (text "name") (str (text "q"))
                (field (text "in") (str (text "query")) (of (text "schema") (obj (schema type))))))
            nil))
        (of (text "responses") (obj (of (text "200") (obj end))))))

abbrev document : Json → Fields
document type =
    field (text "paths") (obj (of (text "/a") (obj (of (text "get") (operation type)))))
      (of (text "components") (obj (of (text "schemas") (obj (of (text "S") (obj (schema type)))))))

abbrev texts : Json
texts = str (text "string")

-- `type: [string, null]`
abbrev union : Json
union = arr (item (str (text "string")) (item (str (text "null")) nil))

-- The same with another component schema.
abbrev extended : Fields
extended = field (text "paths") (obj (of (text "/a") (obj (of (text "get") (operation texts))))) (
    of (text "components") (
      obj (
        of (text "schemas")
          (obj (field (text "S") (obj (schema texts)) (of (text "T") (obj end)))))))

run : Unit {0}
unfolding diff_openapi_documents result_of sort_changes sort insert compare_changes compare_text
    compare_nat for_each sorted_set nub remove filter contains text text_eq text_lt keys property
    member is_in record_at record_or_empty sorted_keys operation_methods operation_for parameter_map
    list_at parameter_key content_schemas strictly_equal same_value same_entries compare_schema
    to_lower_case upper lower_unit upper_unit parameter_names get put untracked texts_of depth
    operation_label enum_values except strings_in IsObject any
run = tt

document-IsObject : IsObject (document texts)
unfolding run
document-IsObject = ground arith

diff_self_example :
    diff_openapi_documents alike stringify (document texts) (document texts)
    ≡ some (record {
      breaking = false;
      changes = [];
      summary = record { breaking = 0; non_breaking = 0; warnings = 0; informational = 0 };
    })
diff_self_example = diff_self alike stringify (λ v. refl) (document texts) document-IsObject

abbrev schema_added : DiffResult
schema_added = record {
  breaking = false;
  changes =
      add non_breaking (text "SCHEMA_ADDED") (text "Component schema T was added.")
        (text "components" ∷ text "schemas" ∷ text "T" ∷ []);
  summary = record { breaking = 0; non_breaking = 1; warnings = 0; informational = 0 };
}

adds_schema : diff_openapi_documents apart stringify (document texts) extended ≡ some schema_added
unfolding run
adds_schema = refl

diff-KeepsInterface_example : KeepsInterface apart stringify (document texts) extended
diff-KeepsInterface_example =
    diff-KeepsInterface apart stringify (document texts) extended schema_added adds_schema refl

diff-IsResult_example :
    (changes : List Change) × (r : DiffResult) × (document_changes apart stringify
        (document texts)
        extended
      ≡ some changes)
    × (diff_openapi_documents apart stringify (document texts) extended ≡ some r)
    × IsResult changes r
diff-IsResult_example = diff-IsResult apart stringify (document texts) extended

-- Two copies of a document with a union type, read apart: `!==` tells the two arrays apart, and the
-- diff reports a breaking change for each place of the type.
union_differs :
    (r : DiffResult) × (diff_openapi_documents apart stringify (document union) (document union)
      ≡ some r)
    × (r.breaking ≡ true)
    × (r.summary.breaking ≡ 2)
unfolding run
union_differs = (_, refl, refl, refl)

-- An empty array and an empty object are the same to `sameValue`.
empty_values_same : same_value (arr nil) (obj end) ≡ true
unfolding run
empty_values_same = refl

-- A property that is named like a member of `Object.prototype` is added without a report.
inherited_name_missed :
    compare_schema apart stringify 9
      (of (text "properties") (obj end))
      (of (text "properties") (obj (of (text "constructor") (obj (schema texts)))))
      []
    ≡ some (
        add_values breaking
          (text "SCHEMA_TYPE_CHANGED")
          (text "Schema type changed.")
          (text "properties" ∷ text "constructor" ∷ text "type" ∷ [])
          none
          (some texts))
unfolding run
inherited_name_missed = refl

-- So is an empty component schema with such a name that is removed.
inherited_removal_missed :
    (r : DiffResult) × (diff_openapi_documents apart stringify
        (of
          (text "components")
          (obj (of (text "schemas") (obj (of (text "constructor") (obj end))))))
        end
      ≡ some r)
    × (r.breaking ≡ false)
    × (r.changes ≡ [])
unfolding run
inherited_removal_missed = (_, refl, refl, refl)
