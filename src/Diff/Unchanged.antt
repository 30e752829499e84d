-- ===== src/Diff/Unchanged.antt =====
-- A document does not differ from itself.
use openapi_to.Common.{
  All, refl, text_equality, text_eq_iff, arith, some, ◌∷◌, Option, [], Text, true, List, ◌≡◌,
  contains, filter, sort, Bool,
}
use openapi_to.Common.{
  ℕ, zero, suc, ◌+◌, ◌<◌, ◌≡◌, refl, Bool, true, false, not, Option, none, some, List, [], ◌∷◌,
  ◌++◌, Text, text, contains, text_equality, text_eq_iff, Bool-cases, arith, inl, inr, filter, sort,
  ap,
}
use openapi_to.Common.Json.{Json, null, bool, num, str, arr, obj, Fields, property}
use openapi_to.Common.Dictionary.{get, get-All}
use openapi_to.Diff.{Change, result_of, sort_changes}
use openapi_to.Diff.Values.{member, is_in, record_at, strictly_equal, depth_fields}
use openapi_to.Diff.Schemas.{
  when, texts_of, untracked, for_each, except, enum_changes, enum_values, enum_entries, same_flag,
  ◌then_add◌, type_changes, constraint_changes, required_changes, property_changes, compare_schema,
  both_keys,
}
use openapi_to.Diff.Contents.{is_empty_record, operation_for}
use openapi_to.Diff.Documents.{
  schema_changes, parameter_changes, parameters_changes, body_changes, response_changes,
  operation_changes, method_changes, path_changes, component_changes, document_changes,
  diff_openapi_documents,
}
use openapi_to.Diff.Fuel.{property_of_keys, contains-both_keys, depth-both_keys, depth-record_at}
use openapi_to.Diff.Members.{HoldsObject, parameter_map-All, operation_for-IsObject}
use openapi_to.Diff.Sameness.{
  IsObject, same_value_self, record_at-IsObject, untracked-IsObject, content_schemas_self,
}

for_each-nothing :
    (ns : List Text) (body : Text → Option (List Change))
    → ((n : Text) → contains ns n ≡ true → body n ≡ some [])
    → for_each ns body ≡ some []
unfolding for_each contains
for_each-nothing [] body h = refl
for_each-nothing (n ∷ ns) body h =
    rw (h n (ground (arith, text_eq_iff n n)))
      (rw (for_each-nothing ns body (λ m k. h m (ground arith))) refl)

except-nothing :
    (xs ys : List Text)
    → ((a : Text) → contains xs a ≡ true → contains ys a ≡ true)
    → except xs ys ≡ []
unfolding except filter contains
except-nothing [] ys h = refl
except-nothing (x ∷ xs) ys h =
    rw (h x (ground (arith, text_eq_iff x x))) (except-nothing xs ys (λ a k. h a (ground arith)))

enum_changes-nothing :
    (stringify : Json → Text) (fs : Fields) (path : List Text)
    → enum_changes stringify fs fs path ≡ []
unfolding enum_changes enum_entries sort
enum_changes-nothing stringify fs path =
    rw (except-nothing (enum_values stringify fs) (enum_values stringify fs) (λ a k. k)) refl

same_flag_self : (b : Bool) → same_flag b b ≡ true
same_flag_self true = refl
same_flag_self false = refl

when-nothing : (b : Bool) (cs : List Change) → b ≡ true → some (when (not b) cs) ≡ some []
when-nothing b cs h = rw h refl

then_add-nothing :
    (a b : Option (List Change)) → a ≡ some [] → b ≡ some [] → (a then_add b) ≡ some []
then_add-nothing a b h k = rw h (rw k refl)

is_in_of_both_keys :
    (k : Text) (fs : Fields) → contains (both_keys fs fs) k ≡ true → is_in k fs ≡ true
unfolding is_in member
is_in_of_both_keys k fs m =
    let (v, e) = property_of_keys k fs (ground (arith, contains-both_keys fs fs k)) in
    rw (e, is_in, member) refl

required_changes-nothing :
    (fs : Fields) (path : List Text) (name : Text) → required_changes fs fs path name ≡ []
unfolding required_changes
required_changes-nothing fs path name =
    rw (same_flag_self (contains (texts_of (property (text "required") fs)) name)) refl

constraint_changes-nothing :
    (fs : Fields) (path : List Text) → IsObject fs → constraint_changes fs fs path ≡ []
unfolding constraint_changes IsObject
constraint_changes-nothing fs path h =
    rw (same_value_self (obj (untracked fs)) (untracked-IsObject fs h)) refl

property_changes-nothing :
    (compare : Fields → Fields → List Text → Option (List Change)) (fs : Fields) (path : List Text)
    (name : Text)
    → contains
        (both_keys (record_at (text "properties") fs) (record_at (text "properties") fs))
        name
      ≡ true
    → ((path' : List Text)
        → compare
            (record_at name (record_at (text "properties") fs))
            (record_at name (record_at (text "properties") fs))
            path'
          ≡ some [])
    → property_changes compare fs fs path name ≡ some []
unfolding property_changes
property_changes-nothing compare fs path name m h =
    rw (is_in_of_both_keys name (record_at (text "properties") fs) m) (h _)

body_changes-nothing :
    (identical : Json → Json → Bool) (fs : Fields) (location : List Text)
    → ((o : Option Json) → strictly_equal identical o o ≡ true)
    → IsObject fs
    → body_changes identical fs fs location ≡ []
unfolding body_changes
body_changes-nothing identical fs location same h =
    rw
      (content_schemas_self (record_at (text "requestBody") fs)
        (record_at-IsObject (text "requestBody") fs h))
      (rw (same (property (text "required") (record_at (text "requestBody") fs)))
        (elim (Bool-cases (is_empty_record (record_at (text "requestBody") fs))) [
          | inl e ↦ rw e refl
          | inr e ↦ rw e refl
        ]))

response_changes-nothing :
    (fs : Fields) (location : List Text) (status : Text)
    → IsObject fs
    → contains (both_keys fs fs) status ≡ true
    → response_changes fs fs location status ≡ []
unfolding response_changes
response_changes-nothing fs location status h m =
    rw (is_in_of_both_keys status fs m)
      (rw (content_schemas_self (record_at status fs) (record_at-IsObject status fs h)) refl)

module _ (identical : Json → Json → Bool) (stringify : Json → Text)
    (same : (v : Json) → identical v v ≡ true) where
  strictly_equal_self : (o : Option Json) → strictly_equal identical o o ≡ true
  unfolding strictly_equal
  strictly_equal_self none = refl
  strictly_equal_self (some null) = refl
  strictly_equal_self (some (bool true)) = refl
  strictly_equal_self (some (bool false)) = refl
  strictly_equal_self (some (num n)) = (text_eq_iff n n).1 refl
  strictly_equal_self (some (str t)) = (text_eq_iff t t).1 refl
  strictly_equal_self (some (arr vs)) = same (arr vs)
  strictly_equal_self (some (obj fs)) = same (obj fs)

  type_changes-nothing :
      (fs : Fields) (path : List Text) → type_changes identical stringify fs fs path ≡ []
  unfolding type_changes
  type_changes-nothing fs path = rw (strictly_equal_self (property (text "type") fs)) refl

  compare_schema-nothing :
      (fuel : ℕ) (fs : Fields) (path : List Text)
      → depth_fields fs + depth_fields fs < fuel
      → IsObject fs
      → compare_schema identical stringify fuel fs fs path ≡ some []
  unfolding compare_schema
  compare_schema-nothing zero fs path d h = absurd (omega arith)
  compare_schema-nothing (suc fuel) fs path d h =
      let old = record_at (text "properties") fs in
      then_add-nothing _ _
        (then_add-nothing _ _
          (then_add-nothing _ _ (ap some (type_changes-nothing fs path)) (
            for_each-nothing _ _ (λ name m.
              then_add-nothing _ _
                (property_changes-nothing (compare_schema identical stringify fuel) fs path name m
                  (λ path'.
                    compare_schema-nothing fuel (record_at name old) path'
                      (omega (
                        arith,
                        depth-both_keys old old name m,
                        depth-record_at (text "properties") fs,
                      ))
                      (record_at-IsObject name old (record_at-IsObject (text "properties") fs h))))
                (ap some (required_changes-nothing fs path name)))))
          (ap some (enum_changes-nothing stringify fs path)))
        (ap some (constraint_changes-nothing fs path h))

  schema_changes-nothing :
      (fs : Fields) (path : List Text)
      → IsObject fs
      → schema_changes identical stringify fs fs path ≡ some []
  unfolding schema_changes
  schema_changes-nothing fs path h =
      compare_schema-nothing (suc (depth_fields fs + depth_fields fs)) fs path (omega arith) h

  parameter_changes-nothing :
      (o : Option Fields) (path : List Text) (name : Text)
      → ((fs : Fields) → o ≡ some fs → IsObject fs)
      → parameter_changes identical stringify o o path name ≡ some []
  unfolding parameter_changes
  parameter_changes-nothing none path name h = refl
  parameter_changes-nothing (some fs) path name h =
      then_add-nothing _ _ (when-nothing _ _ (strictly_equal_self (property (text "required") fs)))
        (schema_changes-nothing (record_at (text "schema") fs) (path ++ text "schema" ∷ [])
          (record_at-IsObject (text "schema") fs (h fs refl)))

  parameters_changes-nothing :
      (m : List (Text × Fields)) (location : List Text)
      → All HoldsObject m
      → parameters_changes identical stringify m m location ≡ some []
  unfolding parameters_changes
  parameters_changes-nothing m location h = for_each-nothing _ _ (λ name k.
      parameter_changes-nothing (get name m) _ name (λ fs e. get-All HoldsObject name fs m h e))

  operation_changes-nothing :
      (path_item operation : Fields) (method path_name : Text) (location : List Text)
      → IsObject path_item
      → IsObject operation
      → operation_changes identical stringify path_item path_item operation operation method
          path_name location
        ≡ some []
  unfolding operation_changes
  operation_changes-nothing path_item operation method path_name location h k =
      then_add-nothing _ _
        (then_add-nothing _ _
          (then_add-nothing _ _
            (when-nothing _ _ (strictly_equal_self (property (text "operationId") operation)))
            (parameters_changes-nothing _ location (parameter_map-All path_item operation h k)))
          (ap some (body_changes-nothing identical operation location strictly_equal_self k)))
        (for_each-nothing _ _ (λ status m. ap some (
          response_changes-nothing (record_at (text "responses") operation) location status
            (record_at-IsObject (text "responses") operation k) m)))

  method_changes-nothing :
      (path_item : Fields) (path_name method : Text)
      → IsObject path_item
      → method_changes identical stringify path_item path_item path_name method ≡ some []
  unfolding method_changes
  method_changes-nothing path_item path_name method h =
      elim (Bool-cases (is_empty_record (operation_for path_item method))) [
        | inl e ↦ rw e refl
        | inr e ↦ rw e (
            operation_changes-nothing path_item (operation_for path_item method) method path_name
              (text "paths" ∷ path_name ∷ method ∷ []) h
              (operation_for-IsObject path_item method h))
      ]

  path_changes-nothing :
      (fs : Fields) (name : Text)
      → IsObject fs
      → contains (both_keys fs fs) name ≡ true
      → path_changes identical stringify fs fs name ≡ some []
  unfolding path_changes
  path_changes-nothing fs name h m = rw (is_in_of_both_keys name fs m) (
      for_each-nothing _ _ (λ method k.
        method_changes-nothing (record_at name fs) name method (record_at-IsObject name fs h)))

  component_changes-nothing :
      (fs : Fields) (name : Text)
      → IsObject fs
      → contains (both_keys fs fs) name ≡ true
      → component_changes identical stringify fs fs name ≡ some []
  unfolding component_changes
  component_changes-nothing fs name h m =
      rw (is_in_of_both_keys name fs m)
        (schema_changes-nothing (record_at name fs) _ (record_at-IsObject name fs h))

  document_changes-nothing :
      (document : Fields)
      → IsObject document
      → document_changes identical stringify document document ≡ some []
  unfolding document_changes
  document_changes-nothing document h =
      then_add-nothing _ _
        (for_each-nothing _ _ (λ name m.
          path_changes-nothing (record_at (text "paths") document) name
            (record_at-IsObject (text "paths") document h) m))
        (for_each-nothing _ _ (λ name m.
          component_changes-nothing _ name
            (record_at-IsObject (text "schemas") (record_at (text "components") document)
              (record_at-IsObject (text "components") document h))
            m))

  -- A document in which objects have one property of each name does not differ from itself, where
  -- `===` finds every object equal to itself: there is no change, and the result is not breaking.
  pub diff_self :
      (document : Fields)
      → IsObject document
      → diff_openapi_documents identical stringify document document
        ≡ some (record {
          breaking = false;
          changes = [];
          summary = record { breaking = 0; non_breaking = 0; warnings = 0; informational = 0 };
        })
  unfolding diff_openapi_documents result_of sort_changes sort
  diff_self document h = rw (document_changes-nothing document h, diff_openapi_documents) refl
