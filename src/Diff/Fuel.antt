-- ===== src/Diff/Fuel.antt =====
-- The fuel of `compareSchema` is enough: each call of itself is on properties that nest less deep in
-- one of the two schemas, and no deeper in the other.
use openapi_to.Common.{
  if◌then◌else◌, value_of, Option-cases, ◌⊎◌, ◌||◌, ℕ, zero, suc, ◌+◌, ◌≤◌, ◌<◌, ◌≡◌, refl, Bool,
  true, Option, none, some, List, [], ◌∷◌, ◌++◌, Text, text, contains, text_equality, text_eq,
  Bool-cases, arith, inl, inr, contains-append, contains-sorted_set, ◌∙◌,
}
use openapi_to.Common.Json.{Json, obj, Fields, end, field, keys, property}
use openapi_to.Diff.{Change, DiffResult, result_of}
use openapi_to.Diff.Values.{member, is_in, record_or_empty, record_at, depth, depth_fields}
use openapi_to.Diff.Contents.{is_empty_record, operation_for}
use openapi_to.Diff.Summaries.{IsResult, result_of-IsResult}
use openapi_to.Diff.Documents.{
  schema_changes, parameter_changes, parameters_changes, operation_changes, method_changes,
  path_changes, component_changes, document_changes, diff_openapi_documents,
}
use openapi_to.Diff.Schemas.{both_keys, ◌then_add◌, for_each, property_changes, compare_schema}

abbrev pub IsSome {ℓ} : {A : Type ℓ} → Option A → Type ℓ
IsSome {A} o = (a : A) × (o ≡ some a)

pub then_add-IsSome : (a b : Option (List Change)) → IsSome a → IsSome b → IsSome (a then_add b)
then_add-IsSome (some cs) (some ds) h k = (cs ++ ds, refl)
then_add-IsSome (some cs) none h k = cc (k.1)
then_add-IsSome none b h k = cc (h.1)

pub for_each-IsSome :
    (ns : List Text) (body : Text → Option (List Change))
    → ((n : Text) → contains ns n ≡ true → IsSome (body n))
    → IsSome (for_each ns body)
unfolding for_each contains
for_each-IsSome [] body h = ([], refl)
for_each-IsSome (n ∷ ns) body h =
    then_add-IsSome (body n) (for_each ns body) (h n (ground (arith, text_equality.beq_iff n n)))
      (for_each-IsSome ns body (λ m k. h m (ground arith)))

pub property_of_keys :
    (k : Text) (fs : Fields) → contains (keys fs) k ≡ true → IsSome (property k fs)
unfolding keys property contains
property_of_keys k end h = cc
property_of_keys k (field j v fs) h = elim (Bool-cases (text_eq j k)) [
  | inl same ↦ (v, rw same refl)
  | inr other ↦ rw other (property_of_keys k fs (ground arith))
]

depth-property :
    (k : Text) (fs : Fields) (v : Json) → property k fs ≡ some v → depth v < depth_fields fs
unfolding property depth
depth-property k end v h = cc
depth-property k (field j w fs) v h = elim (Bool-cases (text_eq j k)) [
  | inl same ↦ let e : w ≡ v = value_of (rw (same, if◌then◌else◌) at h) in rw (← e) (omega arith)
  | inr other ↦ omega (arith, depth-property k fs v (rw (other, if◌then◌else◌) at h))
]

depth-record_or_empty : (v : Json) → depth_fields (record_or_empty (some v)) ≤ depth v
unfolding record_or_empty depth
depth-record_or_empty (obj fs) = omega arith
depth-record_or_empty v = omega arith

-- A member that is read as a record: an own property, or one without members.
pub record_at-cases :
    (k : Text) (fs : Fields)
    → ((record_at k fs ≡ end))
      ⊎ ((v : Json) × (property k fs ≡ some v) × (record_at k fs ≡ record_or_empty (some v)))
unfolding record_at member record_or_empty
record_at-cases k fs = elim (Option-cases (property k fs)) [
  | inl e ↦ inl (ground arith)
  | inr (v, e) ↦ inr (v, e, rw (e, member) refl)
]

pub depth-record_at : (k : Text) (fs : Fields) → depth_fields (record_at k fs) ≤ depth_fields fs
unfolding depth
depth-record_at k fs = elim (record_at-cases k fs) [
  | inl e ↦ rw e (omega arith)
  | inr (v, e, r) ↦ rw r (omega (arith, depth-property k fs v e, depth-record_or_empty v))
]

depth-record_at-lt :
    (k : Text) (fs : Fields)
    → contains (keys fs) k ≡ true
    → depth_fields (record_at k fs) < depth_fields fs
unfolding depth
depth-record_at-lt k fs h =
    let (w, found) = property_of_keys k fs h in
    let deep = depth-property k fs w found in
    elim (record_at-cases k fs) [
      | inl e ↦ rw e (omega arith)
      | inr (v, e, r) ↦ rw r (omega (arith, depth-property k fs v e, depth-record_or_empty v))
    ]

pub contains-both_keys :
    (fs gs : Fields) (k : Text)
    → contains (both_keys fs gs) k ≡ (contains (keys fs) k || contains (keys gs) k)
contains-both_keys fs gs k =
    contains-sorted_set (keys fs ++ keys gs) k ∙ contains-append (keys fs) (keys gs) k

pub depth-both_keys :
    (fs gs : Fields) (k : Text)
    → contains (both_keys fs gs) k ≡ true
    → depth_fields (record_at k fs) + depth_fields (record_at k gs)
      < depth_fields fs + depth_fields gs
depth-both_keys fs gs k h = elim (Bool-cases (contains (keys fs) k)) [
  | inl m ↦ omega (arith, depth-record_at-lt k fs m, depth-record_at k gs)
  | inr n ↦ omega (
    arith,
    depth-record_at k fs,
    depth-record_at-lt k gs (ground (arith, contains-both_keys fs gs k)),
  )
]

property_changes-IsSome :
    (compare : Fields → Fields → List Text → Option (List Change)) (before after : Fields)
    (path : List Text) (name : Text)
    → ((path' : List Text)
        → IsSome (
            compare
              (record_at name (record_at (text "properties") before))
              (record_at name (record_at (text "properties") after))
              path'))
    → IsSome (property_changes compare before after path name)
unfolding property_changes
property_changes-IsSome compare before after path name h =
    elim (Bool-cases (is_in name (record_at (text "properties") before))) [
      | inr out ↦ rw out (_, refl)
      | inl here ↦ rw here (elim (Bool-cases (is_in name (record_at (text "properties") after))) [
        | inr out ↦ rw out (_, refl)
        | inl there ↦ rw there (h _)
      ])
    ]

module _ (identical : Json → Json → Bool) (stringify : Json → Text) where
  pub compare_schema-IsSome :
      (fuel : ℕ) (before after : Fields) (path : List Text)
      → depth_fields before + depth_fields after < fuel
      → IsSome (compare_schema identical stringify fuel before after path)
  unfolding compare_schema
  compare_schema-IsSome zero before after path h = absurd (omega arith)
  compare_schema-IsSome (suc fuel) before after path h =
      then_add-IsSome _ _
        (then_add-IsSome _ _
          (then_add-IsSome _ _ (_, refl)
            (for_each-IsSome _ _ (λ name m.
              then_add-IsSome _ _
                (property_changes-IsSome (compare_schema identical stringify fuel) before after path
                  name
                  (λ path'.
                    compare_schema-IsSome fuel
                      (record_at name (record_at (text "properties") before))
                      (record_at name (record_at (text "properties") after)) path'
                      (omega (
                        arith,
                        depth-both_keys (record_at (text "properties") before)
                            (record_at (text "properties") after) name m,
                        depth-record_at (text "properties") before,
                        depth-record_at (text "properties") after,
                      ))))
                (_, refl))))
          (_, refl))
        (_, refl)

  schema_changes-IsSome :
      (before after : Fields) (path : List Text)
      → IsSome (schema_changes identical stringify before after path)
  unfolding schema_changes
  schema_changes-IsSome before after path =
      compare_schema-IsSome (suc (depth_fields before + depth_fields after)) before after path
        (omega arith)

  parameter_changes-IsSome :
      (before after : Option Fields) (path : List Text) (name : Text)
      → IsSome (parameter_changes identical stringify before after path name)
  unfolding parameter_changes
  parameter_changes-IsSome none none path name = (_, refl)
  parameter_changes-IsSome none (some a) path name = (_, refl)
  parameter_changes-IsSome (some b) none path name = (_, refl)
  parameter_changes-IsSome (some b) (some a) path name =
      then_add-IsSome _ _ (_, refl) (schema_changes-IsSome _ _ _)

  method_changes-IsSome :
      (before_path after_path : Fields) (path_name method : Text)
      → IsSome (method_changes identical stringify before_path after_path path_name method)
  unfolding method_changes operation_changes parameters_changes
  method_changes-IsSome before_path after_path path_name method =
      elim (Bool-cases (is_empty_record (operation_for before_path method))) [
        | inl none_before ↦
            rw none_before (elim (Bool-cases (is_empty_record (operation_for after_path method))) [
              | inl e ↦ rw e (_, refl)
              | inr e ↦ rw e (_, refl)
            ])
        | inr had ↦ rw had (elim (Bool-cases (is_empty_record (operation_for after_path method))) [
          | inl e ↦ rw e (_, refl)
          | inr e ↦ rw e (
              then_add-IsSome _ _
                (then_add-IsSome _ _
                  (then_add-IsSome _ _ (_, refl)
                    (for_each-IsSome _ _ (λ name m. parameter_changes-IsSome _ _ _ name)))
                  (_, refl))
                (for_each-IsSome _ _ (λ status m. (_, refl))))
        ])
      ]

  path_changes-IsSome :
      (before after : Fields) (name : Text)
      → IsSome (path_changes identical stringify before after name)
  unfolding path_changes
  path_changes-IsSome before after name = elim (Bool-cases (is_in name before)) [
    | inr e ↦ rw e (_, refl)
    | inl e ↦ rw e (elim (Bool-cases (is_in name after)) [
      | inr e' ↦ rw e' (_, refl)
      | inl e' ↦ rw e' (for_each-IsSome _ _ (λ method m. method_changes-IsSome _ _ name method))
    ])
  ]

  component_changes-IsSome :
      (before after : Fields) (name : Text)
      → IsSome (component_changes identical stringify before after name)
  unfolding component_changes
  component_changes-IsSome before after name = elim (Bool-cases (is_in name before)) [
    | inr e ↦ rw e (_, refl)
    | inl e ↦ rw e (elim (Bool-cases (is_in name after)) [
      | inr e' ↦ rw e' (_, refl)
      | inl e' ↦ rw e' (schema_changes-IsSome _ _ _)
    ])
  ]

  pub document_changes-IsSome :
      (before after : Fields) → IsSome (document_changes identical stringify before after)
  unfolding document_changes
  document_changes-IsSome before after =
      then_add-IsSome _ _ (for_each-IsSome _ _ (λ name m. path_changes-IsSome _ _ name))
        (for_each-IsSome _ _ (λ name m. component_changes-IsSome _ _ name))

  -- The diff of any two documents returns a result: the recursion on schemas ends. The result holds
  -- the changes found, sorted by path, classification and code, and no others; its summary counts
  -- the changes of each classification; and it is breaking exactly when one of the changes is.
  pub diff-IsResult :
      (before after : Fields)
      → (changes : List Change) × (r : DiffResult) × (document_changes identical stringify before
            after
          ≡ some changes)
        × (diff_openapi_documents identical stringify before after ≡ some r)
        × IsResult changes r
  unfolding diff_openapi_documents result_of
  diff-IsResult before after =
      let (changes, found) = document_changes-IsSome before after in
      (
        changes,
        result_of changes,
        found,
        rw (found, diff_openapi_documents) refl,
        result_of-IsResult changes,
      )
