-- ===== src/Selection/Validation/MetadataLaws.antt =====
-- When the checks of the metadata pass.
use openapi_to.Common.{
  All, All-of_contains, text_equality, ◌≡◌, refl, Bool, true, false, not, Option, none, some, List,
  [], ◌∷◌, ◌++◌, Text, text, arith, contains, contains-filter, contains-sort, filter, text_le,
}
use openapi_to.Common.Json.{Json, str, obj, Fields, keys, property, string_of}
use openapi_to.Diagnostics.{Diagnostic, error, plain, has_diagnostic_errors}
use openapi_to.Diagnostics.Laws.{has_diagnostic_errors-push}
use openapi_to.Selection.{Metadata}
use openapi_to.Selection.Validation.MetadataChecks.{
  invalid, push_if, unknown_keys, unsupported_fields, is_no_string, check_metadata, metadata_of,
  validate_metadata, join_comma,
}

-- No error before, and the test fails.
pub clean-push_if :
    (b : Bool) (code message : Text) (ds : List Diagnostic)
    → has_diagnostic_errors (push_if b (plain code error message) ds) ≡ false
    → (b ≡ false) × (has_diagnostic_errors ds ≡ false)
unfolding push_if
clean-push_if true code message ds h =
    ground (arith, has_diagnostic_errors-push ds (plain code error message) refl)
clean-push_if false code message ds h = (refl, h)

-- Every key is one of the allowed ones.
abbrev pub OnlyKeys : List Text → Fields → Type 0
OnlyKeys allowed fs = All (λ k. contains allowed k ≡ true) (keys fs)

unknown_keys-nil :
    (fs : Fields) (allowed : List Text) → unknown_keys fs allowed ≡ [] → OnlyKeys allowed fs
unfolding unknown_keys contains
unknown_keys-nil fs allowed e =
    All-of_contains (λ k. contains allowed k ≡ true) (keys fs)
      λ k m. ground (
        arith,
        contains-sort text_le (filter (λ j. not (contains allowed j)) (keys fs)) k,
        contains-filter (λ j. not (contains allowed j)) (keys fs) k,
      )

pub clean-unsupported_fields :
    (prefix : Text) (fs : Fields) (allowed : List Text) (ds : List Diagnostic)
    → has_diagnostic_errors (unsupported_fields prefix (unknown_keys fs allowed) ds) ≡ false
    → OnlyKeys allowed fs × (has_diagnostic_errors ds ≡ false)
unfolding unsupported_fields
clean-unsupported_fields prefix fs allowed ds h = from (unknown_keys fs allowed) refl h
  where
    from :
        (ks : List Text)
        → unknown_keys fs allowed ≡ ks
        → has_diagnostic_errors (unsupported_fields prefix ks ds) ≡ false
        → OnlyKeys allowed fs × (has_diagnostic_errors ds ≡ false)
    from [] e h = (unknown_keys-nil fs allowed e, h)
    from (k ∷ ks) e h = ground (
      arith,
      has_diagnostic_errors-push ds (invalid (prefix ++ (join_comma (k ∷ ks) ++ text "."))) refl,
    )

abbrev pub IsOptionalString : Option Json → Option Text → Type 0
IsOptionalString none o = o ≡ none
IsOptionalString (some v) o = (t : Text) × (v ≡ str t) × (o ≡ some t)

is_optional_string : (v : Option Json) → is_no_string v ≡ false → IsOptionalString v (string_of v)
unfolding is_no_string
is_optional_string none h = refl
is_optional_string (some (str t)) h = (t, refl, refl)
is_optional_string (some _) h = cc

abbrev pub metadata_keys : List Text
metadata_keys = text "lastAppliedSpecHash" ∷ text "updatedAt" ∷ []

-- The metadata of a manifest: absent, or an object with at most the two known fields, both texts.
abbrev pub IsMetadata : Option Json → Option Metadata → Type 0
IsMetadata none o = o ≡ none
IsMetadata (some v) o =
    (fs : Fields) × (m : Metadata) × (v ≡ obj fs)
    × (o ≡ some m)
    × OnlyKeys metadata_keys fs
    × IsOptionalString (property (text "lastAppliedSpecHash") fs) m.last_applied_spec_hash
    × IsOptionalString (property (text "updatedAt") fs) m.updated_at

clean-check_metadata :
    (fs : Fields) (ds : List Diagnostic)
    → has_diagnostic_errors (check_metadata fs ds) ≡ false
    → OnlyKeys metadata_keys fs
      × (has_diagnostic_errors ds ≡ false)
      × IsOptionalString
          (property (text "lastAppliedSpecHash") fs)
          (metadata_of fs).last_applied_spec_hash
      × IsOptionalString (property (text "updatedAt") fs) (metadata_of fs).updated_at
unfolding check_metadata metadata_of
clean-check_metadata fs ds h =
    let (updated, h₂) = clean-push_if _ _ _ _ h in
    let (applied, h₁) = clean-push_if _ _ _ _ h₂ in
    let (known, h₀) = clean-unsupported_fields _ fs metadata_keys ds h₁ in
    (known, h₀, is_optional_string _ applied, is_optional_string _ updated)

pub clean-validate_metadata :
    (v : Option Json) (ds : List Diagnostic)
    → has_diagnostic_errors (validate_metadata v ds).0 ≡ false
    → (has_diagnostic_errors ds ≡ false) × IsMetadata v (validate_metadata v ds).1
unfolding validate_metadata
clean-validate_metadata none ds h = (h, refl)
clean-validate_metadata (some (obj fs)) ds h =
    let (known, h₀, applied, updated) = clean-check_metadata fs ds h in
    (h₀, (fs, metadata_of fs, refl, rw h refl, known, applied, updated))
clean-validate_metadata (some _) ds h = ground (
  arith,
  has_diagnostic_errors-push ds
      (invalid (text "Selection metadata must be an object when present.")) refl,
)
