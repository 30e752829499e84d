-- ===== src/Selection/Validation/Parsed.antt =====
-- What a manifest that passes the checks satisfies.
use mathlib.Core.Bool.{true≢false}
use mathlib.Core.Path.{ap₂}
use openapi_to.Common.{
  value_of, inr, length-map, ◌∙◌, subst, sym, inl, Option-cases, ℕ, refl, ==-comm, text_equality,
  ◌≡◌, true, false, Option, none, some, List, [], ◌∷◌, Text, text, arith, contains, length, All,
  IsNub, map, ltb, text_eq_iff, ap,
}
use openapi_to.Common.Json.{
  null, bool, obj, array_of, Json, num, str, arr, Items, items, Fields, property,
}
use openapi_to.Diagnostics.Laws.{has_diagnostic_errors-push}
use openapi_to.Selection.{normalize_operation_selection, Metadata, Manifest, normalize_keys}
use openapi_to.Selection.Validation.MetadataLaws.{
  clean-validate_metadata, clean-unsupported_fields, clean-push_if, OnlyKeys, IsMetadata,
}
use openapi_to.Selection.Validation.{
  validate_operation_selection_manifest, too_many, invalid, check_operations, validate_fields,
  has_diagnostic_errors, Diagnostic, finish, check_head, string_items, check_keys,
  ValidationOptions, is_bounded, valid_identity, other_version, mismatch, or_default,
  default_max_selection_operations,
}

abbrev pub manifest_keys : List Text
manifest_keys =
    text "version"
    ∷ text "target"
    ∷ text "selectionOwner"
    ∷ text "operations"
    ∷ text "metadata"
    ∷ []

abbrev pub Matches : Option Text → Text → Type 0
Matches none u = Unit
Matches (some t) u = u ≡ t

-- The object `fs` is an acceptable manifest, and `m` is its normal form.
pub record IsAccepted (fs : Fields) (options : ValidationOptions) (m : Manifest) : Type 0 where
  pub known : OnlyKeys manifest_keys fs
  pub version : property (text "version") fs ≡ some (num (text "1"))
  pub target : (property (text "target") fs ≡ some (str m.target)) × (is_bounded m.target ≡ true)
  pub expected_target : Matches options.expected_target m.target
  pub owner :
      (property (text "selectionOwner") fs ≡ some (str m.selection_owner))
      × (is_bounded m.selection_owner ≡ true)
  pub expected_owner : Matches options.expected_selection_owner m.selection_owner
  pub listed : Items
  pub keys : List Text
  pub operations : property (text "operations") fs ≡ some (arr listed)
  pub texts : items listed ≡ map str keys
  pub bounded : All (λ k. is_bounded k ≡ true) keys
  pub distinct : IsNub keys
  pub not_too_many :
      ltb (or_default options.max_operations default_max_selection_operations) (length keys) ≡ false
  pub normal : m.operations ≡ normalize_keys keys
  pub metadata : IsMetadata (property (text "metadata") fs) m.metadata

valid_identity-eq-some :
    (v : Option Json) (t : Text)
    → valid_identity v ≡ some t
    → (v ≡ some (str t)) × (is_bounded t ≡ true)
unfolding valid_identity
valid_identity-eq-some none t h = cc
valid_identity-eq-some (some (str u)) t h = ground arith
valid_identity-eq-some (some _) t h = cc

version_one : (v : Option Json) → other_version v ≡ false → v ≡ some (num (text "1"))
unfolding other_version
version_one (some (num n)) h = ap (λ t. some (num t)) ((text_eq_iff n (text "1")).0 (ground arith))
version_one none h = cc
version_one (some _) h = cc

no_mismatch : (o : Option Text) (t : Text) → mismatch o (some (str t)) ≡ false → Matches o t
unfolding mismatch
no_mismatch none t h = tt
no_mismatch (some u) t h = (text_eq_iff t u).0 (ground arith)

-- The keys that the loop has let through.
record IsKeys (seen : List Text) (vs : List Json) : Type 0 where
  keys : List Text
  texts : vs ≡ map str keys
  bounded : All (λ k. is_bounded k ≡ true) keys
  distinct : IsNub keys
  fresh : All (λ k. contains seen k ≡ false) keys

fresh_rest :
    (k : Text) (seen ks : List Text)
    → All (λ x. contains (k ∷ seen) x ≡ false) ks
    → All (λ x. contains seen x ≡ false) ks × (contains ks k ≡ false)
unfolding contains
fresh_rest k seen [] h = (tt, refl)
fresh_rest k seen (x ∷ ks) h =
    let rest = fresh_rest k seen ks h.1 in
    ((ground arith, rest.0), ground (arith, h.0, rest.1, ==-comm k x))

IsKeys-cons :
    (k : Text) (seen : List Text) (v : Json) (vs : List Json)
    → v ≡ str k
    → is_bounded k ≡ true
    → contains seen k ≡ false
    → IsKeys (k ∷ seen) vs
    → IsKeys seen (v ∷ vs)
IsKeys-cons k seen v vs e b new r =
    let rest = fresh_rest k seen r.keys r.fresh in
    record {
      keys = k ∷ r.keys;
      texts = ap₂ ◌∷◌ e r.texts;
      bounded = (b, r.bounded);
      distinct = (rest.1, r.distinct);
      fresh = (new, rest.0);
    }

clean-check_keys :
    (seen : List Text) (vs : List Json) (ds : List Diagnostic)
    → has_diagnostic_errors (check_keys seen vs ds) ≡ false
    → (has_diagnostic_errors ds ≡ false) × IsKeys seen vs
unfolding check_keys
clean-check_keys seen [] ds h =
    (h, record { keys = []; texts = refl; bounded = tt; distinct = tt; fresh = tt })
clean-check_keys seen (v ∷ vs) ds h = elim (Option-cases (valid_identity (some v))) [
  | inl bad ↦
      let (h', _) = clean-check_keys seen vs _ (rw (bad, check_keys) at h) in
      absurd (true≢false (sym (has_diagnostic_errors-push ds (invalid _) refl) ∙ h'))
  | inr (k, good) ↦
      let (h', rest) = clean-check_keys (k ∷ seen) vs _ (rw (good, check_keys) at h) in
      let (new, h₀) = clean-push_if (contains seen k) _ _ ds h' in
      let (e, b) = valid_identity-eq-some (some v) k good in
      (h₀, IsKeys-cons k seen v vs (value_of e) b new rest)
]

string_items-map : (ks : List Text) → string_items (map str ks) ≡ ks
unfolding string_items
string_items-map [] = refl
string_items-map (k ∷ ks) = ap (λ r. k ∷ r) (string_items-map ks)

items_of :
    (v : Option Json) {vs : List Json}
    → array_of v ≡ some vs
    → (is : Items) × (v ≡ some (arr is)) × (items is ≡ vs)
items_of (some (arr is)) h = (is, refl, ground arith)
items_of none h = cc
items_of (some _) h = cc

module _ (options : ValidationOptions) (fs : Fields) where
  -- The tests on `fs` in front of the operations, for a target and an owner that are texts.
  clean-check_head :
      (target owner : Text)
      → property (text "target") fs ≡ some (str target)
      → property (text "selectionOwner") fs ≡ some (str owner)
      → has_diagnostic_errors (check_head fs options) ≡ false
      → OnlyKeys manifest_keys fs
        × (property (text "version") fs ≡ some (num (text "1")))
        × Matches options.expected_target target
        × Matches options.expected_selection_owner owner
  unfolding check_head
  clean-check_head target owner et eo h =
      let (m₂, h₅) = clean-push_if _ _ _ _ h in
      let (m₁, h₄) = clean-push_if _ _ _ _ h₅ in
      let (_, h₃) = clean-push_if _ _ _ _ h₄ in
      let (_, h₂) = clean-push_if _ _ _ _ h₃ in
      let (v, h₁) = clean-push_if _ _ _ _ h₂ in
      let (known, _) = clean-unsupported_fields _ fs manifest_keys [] h₁ in
      (
        known,
        version_one _ v,
        no_mismatch options.expected_target target (rw et at m₁),
        no_mismatch options.expected_selection_owner owner (rw eo at m₂),
      )

  finish-eq-some :
      (t o : Option Text) (vs : Option (List Json)) (ds : List Diagnostic) (md : Option Metadata)
      {m : Manifest}
      → (finish t o vs ds md).manifest ≡ some m
      → (target owner : Text) × (ws : List Json) × (t ≡ some target)
        × (o ≡ some owner)
        × (vs ≡ some ws)
        × (has_diagnostic_errors ds ≡ false)
        × (normalize_operation_selection target owner (string_items ws) md ≡ m)
  unfolding finish
  finish-eq-some (some t) (some o) (some ws) ds md h =
      (t, o, ws, refl, refl, refl, ground arith, ground arith)
  finish-eq-some (some t) (some o) none ds md h = cc
  finish-eq-some (some t) none vs ds md h = cc
  finish-eq-some none o vs ds md h = cc

clean-check_operations :
    (maximum : ℕ) (ws : List Json) (ds : List Diagnostic)
    → has_diagnostic_errors (check_operations maximum (some ws) ds) ≡ false
    → (ltb maximum (length ws) ≡ false) × (has_diagnostic_errors ds ≡ false) × IsKeys [] ws
unfolding check_operations too_many
clean-check_operations maximum ws ds h =
    let (h₁, listed) = clean-check_keys [] ws _ h in
    let (few, h₀) = clean-push_if _ _ _ _ h₁ in (few, h₀, listed)

module _ (fs : Fields) (options : ValidationOptions) (m : Manifest) where
  validate_fields-IsAccepted :
      (validate_fields fs options).manifest ≡ some m → IsAccepted fs options m
  unfolding validate_fields normalize_operation_selection
  validate_fields-IsAccepted passed =
      let (target, owner, ws, et, eo, ew, clean, made) =
        finish-eq-some options fs _ _ _ _ _ passed in
      let (clean₁, metadata) = clean-validate_metadata (property (text "metadata") fs) _ clean in
      let (listed, el, ei) = items_of (property (text "operations") fs) ew in
      let (few, clean₀, given) = clean-check_operations _ ws _ (rw ew at clean₁) in
      let (is_target, target_bounded) = valid_identity-eq-some _ target et in
      let (is_owner, owner_bounded) = valid_identity-eq-some _ owner eo in
      let (known, version, expected, expected_owner) =
        clean-check_head options fs target owner is_target is_owner clean₀ in
      subst (IsAccepted fs options) made (record {
        known = known;
        version = version;
        target = (is_target, target_bounded);
        expected_target = expected;
        owner = (is_owner, owner_bounded);
        expected_owner = expected_owner;
        listed = listed;
        keys = given.keys;
        operations = el;
        texts = ei ∙ given.texts;
        bounded = given.bounded;
        distinct = given.distinct;
        not_too_many =
            ap (λ n. ltb (or_default options.max_operations default_max_selection_operations) n)
              (sym (ap length given.texts ∙ length-map given.keys str))
            ∙ few;
        normal = ap normalize_keys (ap string_items given.texts ∙ string_items-map given.keys);
        metadata = metadata;
      })

-- A manifest that the validation accepts comes from an object with only the known fields: version
-- 1; a target and an owner of 1 to 500 bytes, equal to the expected ones where these are given; an
-- array of at most the maximal number of distinct keys of 1 to 500 bytes, whose normal form are the
-- operations; and metadata that is absent or an object of at most two known texts.
pub validate-IsAccepted :
    (value : Json) (options : ValidationOptions) (m : Manifest)
    → (validate_operation_selection_manifest value options).manifest ≡ some m
    → (fs : Fields) × (value ≡ obj fs) × IsAccepted fs options m
unfolding validate_operation_selection_manifest
validate-IsAccepted (obj fs) options m h = (fs, refl, validate_fields-IsAccepted fs options m h)
validate-IsAccepted null options m h = cc
validate-IsAccepted (bool _) options m h = cc
validate-IsAccepted (num _) options m h = cc
validate-IsAccepted (str _) options m h = cc
validate-IsAccepted (arr _) options m h = cc
