-- ===== src/Catalog.antt =====
-- packages/core/src/openapi/catalog/identity.ts: the keys that operations are known by.
pub mod Keys
pub mod Limits
pub mod Search
pub mod Scores
pub mod Ranking
pub mod Tests
use openapi_to.Common.{
  split_all, text_equality, nat_equality, ℕ, ◌+◌, Text, text, Bool, true, false, not, ◌&&◌, Option,
  none, some, List, [], ◌∷◌, ◌++◌, map, nat_eq, replace_pair, if◌then◌else◌,
}
use openapi_to.Common.Dictionary.{get, put}
use openapi_to.Diagnostics.{Diagnostic, Severity, warning, info, at_path}
use openapi_to.References.Closure.{suffix}

pub record OperationIdentityInput : Type 0 where
  pub method : Text
  pub path : Text
  pub operation_id : Option Text
  pub source_pointer : Text

pub record OperationIdentity : Type 0 where
  pub input : OperationIdentityInput
  pub operation_key : Text

abbrev pub or_zero : Option ℕ → ℕ
or_zero none = 0
or_zero (some n) = n

-- `counts.set(id, (counts.get(id) ?? 0) + 1)` for an id that is there and not empty.
unfoldable pub count_id : Option Text → List (Text × ℕ) → List (Text × ℕ)
count_id (some (c ∷ cs)) counts = put (c ∷ cs) (or_zero (get (c ∷ cs) counts) + 1) counts
count_id _ counts = counts

unfoldable pub count_ids : List OperationIdentityInput → List (Text × ℕ) → List (Text × ℕ)
count_ids [] counts = counts
count_ids (o ∷ os) counts = count_ids os (count_id o.operation_id counts)

-- `counts.get(id) === 1`
abbrev pub is_one : Option ℕ → Bool
is_one none = false
is_one (some n) = nat_eq n 1

-- `operationId !== undefined && counts.get(operationId) === 1`
unfoldable pub is_unique : List (Text × ℕ) → Option Text → Bool
is_unique counts none = false
is_unique counts (some id) = is_one (get id counts)

unfoldable pub fallback : OperationIdentityInput → Text
fallback o = o.method ++ (text " " ++ o.path)

abbrev drop_one : List Text → List Text
drop_one [] = []
drop_one (t ∷ ts) = ts

unfoldable pub pointer_path : Text → List Text
pointer_path pointer =
    map (λ part. replace_pair b'~' b'0' b'~' (replace_pair b'~' b'1' b'/' part))
      (drop_one (split_all pointer))

-- `unique && operationId ? operationId : fallback`
unfoldable pub operation_key_of : List (Text × ℕ) → OperationIdentityInput → Text
operation_key_of counts o = elim o.operation_id [
  | none ↦ fallback o
  | some id ↦ elim id [
    | [] ↦ fallback o
    | c ∷ cs ↦ if is_one (get (c ∷ cs) counts) then c ∷ cs else fallback o
  ]
]

-- The report on a missing or a repeated id.
unfoldable pub id_diagnostics :
    List (Text × ℕ) → Option Text → OperationIdentityInput → List Diagnostic
id_diagnostics counts target o = elim o.operation_id [
  | none ↦ missing ∷ []
  | some id ↦ elim id [
    | [] ↦ missing ∷ []
    | c ∷ cs ↦
        if is_one (get (c ∷ cs) counts)
        then []
        else at_path (text "DUPLICATE_OPERATION_ID") warning
            (text "operationId "
              ++ ((c ∷ cs)
                  ++ (text " is duplicated" ++ (suffix (text " in target ") target ++ text "."))))
            (pointer_path o.source_pointer)
          ∷ []
  ]
]
  where
    missing : Diagnostic
    missing =
        at_path (text "MISSING_OPERATION_ID") warning
          (fallback o
            ++ (text " has no operationId" ++ (suffix (text " in target ") target ++ text ".")))
          (pointer_path o.source_pointer)

unfoldable pub key_diagnostics : List (Text × ℕ) → OperationIdentityInput → List Diagnostic
key_diagnostics counts o =
    if is_unique counts o.operation_id
    then []
    else at_path (text "OPERATION_KEY_FALLBACK_USED") info
        (fallback o ++ text " uses the method-and-path operation key.")
        (pointer_path o.source_pointer)
      ∷ []

unfoldable pub assign_each :
    List (Text × ℕ)
    → Option Text
    → List OperationIdentityInput
    → List OperationIdentity × List Diagnostic
assign_each counts target [] = ([], [])
assign_each counts target (o ∷ os) =
    let (identities, diagnostics) = assign_each counts target os in
    (
      record { input = o; operation_key = operation_key_of counts o } ∷ identities,
      id_diagnostics counts target o ++ (key_diagnostics counts o ++ diagnostics),
    )

unfoldable pub assign_operation_identities :
    List OperationIdentityInput → Option Text → List OperationIdentity × List Diagnostic
assign_operation_identities operations target =
    assign_each (count_ids operations []) target operations
