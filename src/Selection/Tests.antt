-- ===== src/Selection/Tests.antt =====
-- The theorems on selections at concrete inputs, and runs of the code.
use openapi_to.Common.{
  text_equality, inr, text_eq_iff, inl, Bool-cases, arith, true, text_eq, SameElements, utf8_length,
  ap, text_lt, contains, ◌↔◌, refl, IsAscending, ◌>>=◌, some, insert, sort, none, filter, [],
  remove, ◌∷◌, nub, Text, text, sorted_set, ◌≡◌,
}
use openapi_to.Common.Json.{Fields, obj}
use openapi_to.Selection.{
  Manifest, MutationResult, add, replace, normalize_keys, apply_operation_selection_mutation,
  mutate, normalize_operation_selection, hash_operation_selection,
}
use openapi_to.Selection.Canonical.{
  normalize_keys-eq_iff, hash_operation_selection-eq, KeySet, canonical, canonical-represents,
}
use openapi_to.Selection.Mutations.{
  IsMutation, apply-IsMutation, with_keys, manifest_of, add-add, MergeOutcome, merge-MergeOutcome,
}
use openapi_to.Selection.Validation.{
  parse_operation_selection_manifest, is_bounded, ValidationOptions, ParseResult,
}
use openapi_to.Selection.Validation.Parsed.{IsAccepted, validate-IsAccepted}
use openapi_to.Selection.Validation.Roundtrip.{
  parse-serialize, serialize_operation_selection_manifest, manifest_json, validate-serialized,
  IsReadable,
}
use mathlib.Core.Quot

abbrev a : Text
a = text "a"

abbrev b : Text
b = text "b"

abbrev c : Text
c = text "c"

abbrev saved : Manifest
saved = record {
  version = 1;
  target = text "pets";
  selection_owner = text "api";
  operations = b ∷ a ∷ b ∷ [];
  metadata = none;
}

run : Unit {0}
unfolding normalize_keys sorted_set nub remove filter sort insert text_lt text_eq text contains
    apply_operation_selection_mutation normalize_operation_selection
run = tt

sorted_saved : normalize_keys saved.operations ≡ a ∷ b ∷ []
unfolding run
sorted_saved = refl

abbrev replaced : MutationResult
replaced = mutate saved replace (normalize_keys saved.operations) (normalize_keys (c ∷ b ∷ []))

replaced_keys :
    (replaced.desired_operation_keys ≡ b ∷ c ∷ [])
    × (replaced.removed_operation_keys ≡ a ∷ [])
    × (replaced.retained_operation_keys ≡ b ∷ [])
    × (replaced.newly_added_operation_keys ≡ c ∷ [])
unfolding run
replaced_keys = (refl, refl, refl, refl)

same_keys : SameElements (b ∷ a ∷ b ∷ []) (a ∷ b ∷ [])
unfolding contains
same_keys k = ground arith

normalize_keys-eq_iff_example :
    (normalize_keys (b ∷ a ∷ b ∷ []) ≡ normalize_keys (a ∷ b ∷ []))
    ↔ SameElements (b ∷ a ∷ b ∷ []) (a ∷ b ∷ [])
normalize_keys-eq_iff_example = normalize_keys-eq_iff (b ∷ a ∷ b ∷ []) (a ∷ b ∷ [])

hash_operation_selection-eq_example :
    hash_operation_selection (λ s. s.target) saved
    ≡ hash_operation_selection (λ s. s.target) (record saved { operations = a ∷ b ∷ [] })
hash_operation_selection-eq_example =
    hash_operation_selection-eq (λ s. s.target) saved (record saved { operations = a ∷ b ∷ [] })
      refl refl same_keys

canonical-represents_example :
    (Quot.mk (canonical (Quot.mk (b ∷ a ∷ []))) ≡ (let s : KeySet = Quot.mk (b ∷ a ∷ []) in s))
    × IsAscending (canonical (Quot.mk (b ∷ a ∷ [])))
canonical-represents_example = canonical-represents (Quot.mk (b ∷ a ∷ []))

apply-IsMutation_example : IsMutation saved (with_keys replace (c ∷ b ∷ [])) replaced
unfolding run mutate
apply-IsMutation_example = apply-IsMutation saved (with_keys replace (c ∷ b ∷ [])) replaced refl

add-add_example :
    manifest_of (
      apply_operation_selection_mutation saved (with_keys add (c ∷ [])) >>= λ r.
      apply_operation_selection_mutation r.manifest (with_keys add (a ∷ [])))
    ≡ manifest_of (apply_operation_selection_mutation saved (with_keys add (c ∷ a ∷ [])))
add-add_example = add-add saved (c ∷ []) (a ∷ []) (c ∷ a ∷ []) (λ _. refl)

merge-MergeOutcome_example : MergeOutcome saved (with_keys add (c ∷ []))
merge-MergeOutcome_example = merge-MergeOutcome saved (with_keys add (c ∷ []))

abbrev any_options : ValidationOptions
any_options = record {
  expected_target = some (text "pets");
  expected_selection_owner = none;
  max_operations = none;
  max_bytes = none;
}

bounded_keys : (k : Text) → contains saved.operations k ≡ true → is_bounded k ≡ true
unfolding contains text is_bounded utf8_length
bounded_keys k h = elim (Bool-cases (text_eq (98 ∷ []) k)) [
  | inl e ↦ rw (← (text_eq_iff (98 ∷ []) k).0 e) refl
  | inr n ↦ elim (Bool-cases (text_eq (97 ∷ []) k)) [
    | inl e ↦ rw (← (text_eq_iff (97 ∷ []) k).0 e) refl
    | inr m ↦ ground arith
  ]
]

saved-IsReadable : IsReadable any_options saved
unfolding run is_bounded utf8_length
saved-IsReadable = record {
  target = refl;
  owner = refl;
  expected_target = refl;
  expected_owner = tt;
  bounded = bounded_keys;
  few = refl;
}

abbrev normal_saved : Manifest
normal_saved =
    normalize_operation_selection saved.target saved.selection_owner saved.operations saved.metadata

parse-serialize_example :
    parse_operation_selection_manifest
      (λ _. some (manifest_json normal_saved))
      (serialize_operation_selection_manifest (λ _. b'{' ∷ b'}' ∷ []) saved)
      any_options
    ≡ record { manifest = some normal_saved; diagnostics = [] }
unfolding serialize_operation_selection_manifest
parse-serialize_example =
    parse-serialize (λ _. some (manifest_json normal_saved)) (λ _. b'{' ∷ b'}' ∷ []) any_options
      saved refl saved-IsReadable refl

validate-IsAccepted_example :
    (fs : Fields) × (manifest_json normal_saved ≡ obj fs) × IsAccepted fs any_options normal_saved
validate-IsAccepted_example =
    validate-IsAccepted (manifest_json normal_saved) any_options normal_saved (
      ap (λ (r : ParseResult). r.manifest) (validate-serialized any_options saved saved-IsReadable))
