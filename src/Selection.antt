-- ===== src/Selection.antt =====
-- packages/core/src/openapi/selection/selection.ts and types.ts: the persistent selection of
-- operations, its normal form and its mutations. The manifest file is checked in the children.
pub mod Validation
pub mod Canonical
pub mod Mutations
pub mod Tests
use openapi_to.Common.{
  text, text_equality, ℕ, Bool, true, false, not, ◌&&◌, ◌||◌, Option, none, some, List, [], ◌∷◌,
  ◌++◌, Text, contains, filter, sorted_set, Result, ok, err, if◌then◌else◌,
}

pub record Metadata : Type 0 where
  pub last_applied_spec_hash : Option Text
  pub updated_at : Option Text

pub record Manifest : Type 0 where
  pub version : ℕ
  pub target : Text
  pub selection_owner : Text
  pub operations : List Text
  pub metadata : Option Metadata

abbrev pub operation_selection_manifest_version : ℕ
operation_selection_manifest_version = 1

-- `unsupported` is any value outside the declared type, which the code still tests for.
pub data MutationType : Type 0 where
  add replace unsupported : MutationType

pub record Mutation : Type 0 where
  pub type : MutationType
  pub operation_keys : List Text

pub data MutationError : Type 0 where
  unsupported_type replace_with_nothing : MutationError

pub record MutationResult : Type 0 where
  pub manifest : Manifest
  pub mutation_type : MutationType
  pub previous_operation_keys : List Text
  pub requested_operation_keys : List Text
  pub newly_added_operation_keys : List Text
  pub already_selected_operation_keys : List Text
  pub retained_operation_keys : List Text
  pub removed_operation_keys : List Text
  pub desired_operation_keys : List Text

pub record MergeResult : Type 0 where
  pub manifest : Manifest
  pub previous_operation_keys : List Text
  pub requested_operation_keys : List Text
  pub newly_added_operation_keys : List Text
  pub already_selected_operation_keys : List Text
  pub desired_operation_keys : List Text

unfoldable pub normalize_keys : List Text → List Text
normalize_keys operation_keys = sorted_set operation_keys

unfoldable pub normalize_operation_selection : Text → Text → List Text → Option Metadata → Manifest
normalize_operation_selection target selection_owner operations metadata = record {
  version = operation_selection_manifest_version;
  target = target;
  selection_owner = selection_owner;
  operations = normalize_keys operations;
  metadata = metadata;
}

unfoldable pub create_empty_operation_selection : Text → Text → Manifest
unfolding normalize_operation_selection
create_empty_operation_selection target selection_owner =
    normalize_operation_selection target selection_owner [] none

abbrev pub is_replace : MutationType → Bool
is_replace t = elim t [ replace ↦ true | _ ↦ false ]

abbrev pub is_add : MutationType → Bool
is_add t = elim t [ add ↦ true | _ ↦ false ]

abbrev is_empty : List Text → Bool
is_empty [] = true
is_empty (k ∷ ks) = false

-- The part behind the guards, over the normalised keys.
mutate : Manifest → MutationType → List Text → List Text → MutationResult
mutate previous type previous_keys requested =
    let desired : List Text =
      if is_replace type then requested else normalize_keys (previous_keys ++ requested) in
    record {
      manifest =
          normalize_operation_selection previous.target previous.selection_owner desired
            previous.metadata;
      mutation_type = type;
      previous_operation_keys = previous_keys;
      requested_operation_keys = requested;
      newly_added_operation_keys = filter (λ k. not (contains previous_keys k)) requested;
      already_selected_operation_keys = filter (λ k. contains previous_keys k) requested;
      retained_operation_keys = filter (λ k. is_add type || contains requested k) previous_keys;
      removed_operation_keys =
          if is_replace type then filter (λ k. not (contains requested k)) previous_keys else [];
      desired_operation_keys = desired;
    }

unfoldable pub apply_operation_selection_mutation :
    Manifest → Mutation → Result MutationError MutationResult
unfolding mutate
apply_operation_selection_mutation previous mutation =
    if not (is_add mutation.type) && not (is_replace mutation.type)
    then err unsupported_type
    else let requested = normalize_keys mutation.operation_keys in
      if is_replace mutation.type && is_empty requested
      then err replace_with_nothing
      else ok (mutate previous mutation.type (normalize_keys previous.operations) requested)

-- The fields that `mergeOperationSelection` passes on.
pub merge_result : MutationResult → MergeResult
merge_result r = record {
  manifest = r.manifest;
  previous_operation_keys = r.previous_operation_keys;
  requested_operation_keys = r.requested_operation_keys;
  newly_added_operation_keys = r.newly_added_operation_keys;
  already_selected_operation_keys = r.already_selected_operation_keys;
  desired_operation_keys = r.desired_operation_keys;
}

abbrev pub map_result : {A B : Type 0} → (A → B) → Result MutationError A → Result MutationError B
map_result f (ok a) = ok (f a)
map_result f (err e) = err e

unfoldable pub merge_operation_selection : Manifest → Mutation → Result MutationError MergeResult
unfolding merge_result
merge_operation_selection previous mutation =
    if not (is_add mutation.type)
    then err unsupported_type
    else map_result merge_result (apply_operation_selection_mutation previous mutation)

-- What `hashOperationSelection` hashes. The metadata is left out.
pub record Semantic : Type 0 where
  pub version : ℕ
  pub target : Text
  pub selection_owner : Text
  pub operations : List Text

unfoldable pub semantic_of : Manifest → Semantic
semantic_of manifest = record {
  version = operation_selection_manifest_version;
  target = manifest.target;
  selection_owner = manifest.selection_owner;
  operations = normalize_keys manifest.operations;
}

-- `digest` is SHA-256 over `JSON.stringify(semantic)`, in hexadecimal.
unfoldable pub hash_operation_selection : (digest : Semantic → Text) → Manifest → Text
unfolding semantic_of
hash_operation_selection digest manifest = text "sha256:" ++ digest (semantic_of manifest)
