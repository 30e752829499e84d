-- ===== src/Selection/Validation/Roundtrip.antt =====
-- packages/core/src/openapi/selection/selection.ts: `serializeOperationSelectionManifest`, and
-- that what it writes is read back.
use openapi_to.Common.{
  if◌then◌else◌, ◌∙◌, IsAscending-IsNub, All-of_contains, IsAscending, any, sort, ==-comm, text_eq,
  filter, none, some, Bool, true, false, refl, text_eq_iff, text_equality, suc, arith, ltb, IsNub,
  ap, decimal, ℕ, All, ◌∷◌, length, [], Text, Option, text, List, ◌≡◌, contains,
}
use openapi_to.Common.Json.{
  keys, Json, num, str, arr, obj, Fields, end, field, strings, items, property,
}
use openapi_to.Diagnostics.{Diagnostic, has_diagnostic_errors, sort_diagnostics}
use openapi_to.Selection.{Manifest, Metadata, normalize_keys, normalize_operation_selection}
use openapi_to.Selection.Canonical.{
  contains-normalize_keys, normalize_keys-IsAscending, normalize_keys_of_IsAscending,
}
use openapi_to.Selection.Validation.MetadataChecks.{
  is_no_string, push_if, unknown_keys, unsupported_fields, validate_metadata,
}
use openapi_to.Selection.Validation.{
  ValidationOptions, is_bounded, valid_identity, other_version, mismatch, check_keys,
  check_operations, check_head, string_items, finish, validate_fields,
  validate_operation_selection_manifest, or_default, default_max_selection_operations,
  parse_operation_selection_manifest, default_max_selection_bytes, is_none,
}
use openapi_to.Selection.Validation.Parsed.{Matches, manifest_keys}

-- A property that JSON.stringify leaves out where the value is undefined.
abbrev optional : Text → Option Json → Fields → Fields
optional key none fs = fs
optional key (some v) fs = field key v fs

abbrev text_json : Option Text → Option Json
text_json none = none
text_json (some t) = some (str t)

metadata_json : Option Metadata → Option Json
metadata_json none = none
metadata_json (some md) = some (
    obj (
      optional (text "lastAppliedSpecHash") (text_json md.last_applied_spec_hash)
        (optional (text "updatedAt") (text_json md.updated_at) end)))

-- The value that is serialised.
manifest_fields : Manifest → Fields
manifest_fields m = field (text "version") (num (decimal m.version)) (
    field (text "target") (str m.target) (
      field (text "selectionOwner") (str m.selection_owner) (
        field (text "operations") (arr (strings m.operations))
          (optional (text "metadata") (metadata_json m.metadata) end))))

unfoldable pub manifest_json : Manifest → Json
unfolding manifest_fields metadata_json
manifest_json m = obj (manifest_fields m)

-- `stringify` is `JSON.stringify(value, null, 2)` with a newline, encoded in UTF-8.
unfoldable pub serialize_operation_selection_manifest :
    (stringify : Json → List ℕ) → Manifest → List ℕ
serialize_operation_selection_manifest stringify manifest = stringify (
    manifest_json (
      normalize_operation_selection manifest.target manifest.selection_owner manifest.operations
        manifest.metadata))

-- What the manifest must satisfy to be read back under `options`.
pub record IsReadable (options : ValidationOptions) (m : Manifest) : Type 0 where
  pub target : is_bounded m.target ≡ true
  pub owner : is_bounded m.selection_owner ≡ true
  pub expected_target : Matches options.expected_target m.target
  pub expected_owner : Matches options.expected_selection_owner m.selection_owner
  pub bounded : (k : Text) → contains m.operations k ≡ true → is_bounded k ≡ true
  pub few :
      ltb
        (or_default options.max_operations default_max_selection_operations)
        (length (normalize_keys m.operations))
      ≡ false

push_passed :
    (b : Bool) (d : Diagnostic) (ds : List Diagnostic) → b ≡ false → ds ≡ [] → push_if b d ds ≡ []
unfolding push_if
push_passed b d ds p e = ground arith

fresh_cons :
    (seen : List Text) (k : Text) (ks : List Text)
    → All (λ x. contains seen x ≡ false) ks
    → contains ks k ≡ false
    → All (λ x. contains (k ∷ seen) x ≡ false) ks
unfolding contains
fresh_cons seen k [] h d = tt
fresh_cons seen k (x ∷ ks) h d =
    (ground (arith, ==-comm k x), fresh_cons seen k ks h.1 (ground arith))

valid_text : (t : Text) → is_bounded t ≡ true → valid_identity (some (str t)) ≡ some t
unfolding valid_identity
valid_text t h = rw h

check_keys_passed :
    (seen ks : List Text) (ds : List Diagnostic)
    → All (λ k. is_bounded k ≡ true) ks
    → IsNub ks
    → All (λ k. contains seen k ≡ false) ks
    → ds ≡ []
    → check_keys seen (items (strings ks)) ds ≡ []
unfolding check_keys
check_keys_passed seen [] ds b d f e = e
check_keys_passed seen (k ∷ ks) ds b d f e =
    rw (valid_text k b.0, check_keys)
      (check_keys_passed (k ∷ seen) ks _ b.1 d.1 (fresh_cons seen k ks f.1 d.0)
        (push_passed _ _ ds f.0 e))

nothing_seen : (ops : List Text) (k : Text) → contains ops k ≡ true → contains [] k ≡ false
unfolding contains
nothing_seen ops k h = refl

string_items-strings : (ks : List Text) → string_items (items (strings ks)) ≡ ks
unfolding string_items
string_items-strings [] = refl
string_items-strings (k ∷ ks) = ap (λ r. k ∷ r) (string_items-strings ks)

length-strings : (ks : List Text) → length (items (strings ks)) ≡ length ks
length-strings [] = refl
length-strings (k ∷ ks) = ap suc (length-strings ks)

metadata_passed : (md : Option Metadata) → validate_metadata (metadata_json md) [] ≡ ([], md)
unfolding validate_metadata metadata_json property text text_eq push_if unknown_keys
    unsupported_fields keys filter contains sort is_no_string has_diagnostic_errors any
metadata_passed none = refl
metadata_passed (some md) = go md.last_applied_spec_hash md.updated_at
  where
    go :
        (a u : Option Text)
        → validate_metadata
            (metadata_json (some (record { last_applied_spec_hash = a; updated_at = u })))
            []
          ≡ ([], some (record { last_applied_spec_hash = a; updated_at = u }))
    go none none = refl
    go none (some u) = refl
    go (some a) none = refl
    go (some a) (some u) = refl

mismatch-Matches : (o : Option Text) (t : Text) → Matches o t → mismatch o (some (str t)) ≡ false
unfolding mismatch
mismatch-Matches none t h = refl
mismatch-Matches (some u) t h = ground (arith, text_eq_iff t u)

is_some : (o : Option Text) (t : Text) → o ≡ some t → is_none o ≡ false
is_some o t e = rw e refl

no_extras :
    (target owner : Text) (ops : List Text) (md : Option Metadata)
    → unknown_keys
        (manifest_fields (record {
          version = 1;
          target = target;
          selection_owner = owner;
          operations = ops;
          metadata = md;
        }))
        manifest_keys
      ≡ []
unfolding manifest_fields metadata_json unknown_keys keys filter contains sort text text_eq
no_extras target owner ops none = refl
no_extras target owner ops (some md) = refl

nothing_unsupported :
    (prefix target owner : Text) (ops : List Text) (md : Option Metadata)
    → unsupported_fields prefix
        (unknown_keys
          (manifest_fields (record {
            version = 1;
            target = target;
            selection_owner = owner;
            operations = ops;
            metadata = md;
          }))
          manifest_keys)
        []
      ≡ []
unfolding unsupported_fields
nothing_unsupported prefix target owner ops md =
    ap (λ ks. unsupported_fields prefix ks []) (no_extras target owner ops md)

module _ (options : ValidationOptions) (target owner : Text) (ops : List Text)
    (md : Option Metadata) where
  abbrev given : Manifest
  given = record {
    version = 1;
    target = target;
    selection_owner = owner;
    operations = ops;
    metadata = md;
  }

  head_passed : IsReadable options given → check_head (manifest_fields given) options ≡ []
  unfolding check_head manifest_fields property text text_eq other_version decimal
  head_passed h =
      push_passed _ _ _ (mismatch-Matches options.expected_selection_owner owner h.expected_owner) (
        push_passed _ _ _ (mismatch-Matches options.expected_target target h.expected_target) (
          push_passed _ _ _ (is_some _ owner (valid_text owner h.owner)) (
            push_passed _ _ _ (is_some _ target (valid_text target h.target)) (
              push_passed _ _ _ refl (
                nothing_unsupported (text "Selection manifest contains unsupported field(s): ")
                  target owner ops md)))))

  operations_passed :
      IsReadable options given
      → IsAscending ops
      → check_operations
          (or_default options.max_operations default_max_selection_operations)
          (some (items (strings ops)))
          (check_head (manifest_fields given) options)
        ≡ []
  unfolding check_operations
  operations_passed h asc =
      check_keys_passed [] ops _ (All-of_contains (λ k. is_bounded k ≡ true) ops h.bounded)
        (IsAscending-IsNub ops asc)
        (All-of_contains (λ k. contains [] k ≡ false) ops (nothing_seen ops))
        (push_passed _ _ _
          (rw (length-strings ops) (rw (normalize_keys_of_IsAscending ops asc) at h.few))
          (head_passed h))

  metadata_property : property (text "metadata") (manifest_fields given) ≡ metadata_json md
  unfolding manifest_fields property text text_eq metadata_json
  metadata_property = go md
    where
      go :
          (md : Option Metadata)
          → property (text "metadata") (optional (text "metadata") (metadata_json md) end)
            ≡ metadata_json md
      go none = refl
      go (some md) = refl

  finish_passed : finish (some target) (some owner) (some (items (strings ops))) [] md ≡ record {
    manifest = some (normalize_operation_selection target owner ops md);
    diagnostics = [];
  }
  unfolding finish has_diagnostic_errors any sort_diagnostics sort
  finish_passed = rw (string_items-strings ops)

  finish_with :
      (t o : Option Text) (vs : Option (List Json)) (ds : List Diagnostic) (v : Option Json)
      → t ≡ some target
      → o ≡ some owner
      → vs ≡ some (items (strings ops))
      → ds ≡ []
      → v ≡ metadata_json md
      → finish t o vs (validate_metadata v ds).0 (validate_metadata v ds).1 ≡ record {
        manifest = some (normalize_operation_selection target owner ops md);
        diagnostics = [];
      }
  finish_with t o vs ds v et eo ev ed em =
      rw (et, eo, ev, ed, em) (rw (metadata_passed md) finish_passed)

  validate_fields_passed :
      IsReadable options given
      → IsAscending ops
      → validate_fields (manifest_fields given) options ≡ record {
        manifest = some (normalize_operation_selection target owner ops md);
        diagnostics = [];
      }
  unfolding validate_fields manifest_fields property text text_eq
  validate_fields_passed h asc =
      finish_with _ _ _ _ _ (valid_text target h.target) (valid_text owner h.owner) refl
        (operations_passed h asc) metadata_property

-- Writing a manifest and reading it back gives its normal form and no diagnostic, if its target,
-- owner and keys have 1 to 500 bytes, the expected target and owner (where given) are its own, and
-- its distinct keys are not too many.
pub validate-serialized :
    (options : ValidationOptions) (m : Manifest)
    → IsReadable options m
    → validate_operation_selection_manifest
        (manifest_json
          (normalize_operation_selection m.target m.selection_owner m.operations m.metadata))
        options
      ≡ record {
        manifest =
            some (normalize_operation_selection m.target m.selection_owner m.operations m.metadata);
        diagnostics = [];
      }
unfolding validate_operation_selection_manifest manifest_json normalize_operation_selection
validate-serialized options m h =
    let ks = normalize_keys m.operations in
    let asc = normalize_keys-IsAscending m.operations in
    let same : normalize_keys ks ≡ ks = normalize_keys_of_IsAscending ks asc in
    validate_fields_passed options m.target m.selection_owner ks m.metadata
      (record {
        target = h.target;
        owner = h.owner;
        expected_target = h.expected_target;
        expected_owner = h.expected_owner;
        bounded = λ k e. h.bounded k (rw (contains-normalize_keys m.operations k) at e);
        few = rw same h.few;
      })
      asc
    ∙ ap
        (λ ops. record {
          manifest = some (record {
            version = 1;
            target = m.target;
            selection_owner = m.selection_owner;
            operations = ops;
            metadata = m.metadata;
          });
          diagnostics = [];
        })
        same

-- What is serialised is parsed to the normal form of the manifest, with no diagnostic. The parser
-- reads the printed value back; the file is within the byte limit; target, owner and keys have 1 to
-- 500 bytes; the expected target and owner, where given, are the manifest's; and its distinct keys
-- are not too many.
pub parse-serialize :
    (json : List ℕ → Option Json) (stringify : Json → List ℕ) (options : ValidationOptions)
    (m : Manifest)
    → json (serialize_operation_selection_manifest stringify m)
      ≡ some (
          manifest_json
            (normalize_operation_selection m.target m.selection_owner m.operations m.metadata))
    → IsReadable options m
    → ltb
        (or_default options.max_bytes default_max_selection_bytes)
        (length (serialize_operation_selection_manifest stringify m))
      ≡ false
    → parse_operation_selection_manifest json
        (serialize_operation_selection_manifest stringify m)
        options
      ≡ record {
        manifest =
            some (normalize_operation_selection m.target m.selection_owner m.operations m.metadata);
        diagnostics = [];
      }
unfolding parse_operation_selection_manifest serialize_operation_selection_manifest
parse-serialize json stringify options m agree h fits =
    rw (fits, if◌then◌else◌) (rw agree (validate-serialized options m h))
