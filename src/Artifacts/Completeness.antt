-- ===== src/Artifacts/Completeness.antt =====
-- Without an error `materializeArtifacts` has a file for every artifact.
use openapi_to.Common.{
  All-imp, ◌⊎◌, ◌∙◌, ℕ, ◌≡◌, refl, Bool, true, false, ◌&&◌, Option, some, List, [], ◌∷◌, map, Text,
  text_eq, text_eq_iff, text_equality, Result, ok, if◌then◌else◌, All, IsSegment, sort, any,
  any-sort, Result-cases, Bool-cases, Option-cases, arith, inl, inr, value_of, subst, sym, ap,
}
use openapi_to.Common.Comparison.{le_by}
use openapi_to.Common.Dictionary.{get, get-put, get-put_self, get-All}
use openapi_to.Common.Json.{Json}
use openapi_to.Diagnostics.{has_diagnostic_errors, is_error}
use openapi_to.Diagnostics.Laws.{has_diagnostic_errors-push, has_diagnostic_errors-sort_diagnostics}
use openapi_to.Artifacts.{
  GeneratedArtifact, MaterializedArtifact, normalize_artifact_path, sort_generated_artifacts,
  compare_artifacts,
}
use openapi_to.Artifacts.Serialization.{content_of}
use openapi_to.Artifacts.Materialization.{
  Collected, keep_artifact, push_diagnostic, materialize_artifact, collect_artifact,
  collect_artifacts, materialize_artifacts,
}
use openapi_to.Artifacts.Collection.{
  IsEntry, Passes, materialize_artifact-Passes, collect_artifacts-IsCollected,
}
use openapi_to.Artifacts.Writable.{value, path_le, start, All-of_sort}
use openapi_to.Artifacts.Reports.{Reports, Reports-materialize}

any_of_get :
    (p : MaterializedArtifact → Bool) (k : Text) (m : List (Text × MaterializedArtifact))
    (x : MaterializedArtifact)
    → get k m ≡ some x
    → p x ≡ true
    → any p (map value m) ≡ true
unfolding get any
any_of_get p k [] x g h = cc g
any_of_get p k ((j, y) ∷ m) x g h = elim (Bool-cases (text_eq j k)) [
  | inl same ↦ let e : y ≡ x = value_of (rw (same, if◌then◌else◌) at g) in rw e (rw h refl)
  | inr other ↦ ground (arith, any_of_get p k m x (rw (other, if◌then◌else◌) at g) h)
]

same_diagnostics :
    (m : MaterializedArtifact) (c : Collected) → (keep_artifact m c).diagnostics ≡ c.diagnostics
unfolding keep_artifact
same_diagnostics m c = elim (Option-cases (get m.relative_path c.by_path)) [
  | inr (previous, e) ↦ rw (e, keep_artifact) refl
  | inl e ↦ rw (e, keep_artifact) refl
]

module _ {S : Type 0} (cwd : List Text) (full_text : S → Result (Option Text) Text)
    (stringify : Json → Text) (sha256 : List ℕ → Text) (output_root : Text) (max_artifact_bytes : ℕ)
    (normal : All IsSegment cwd) where
  -- What is written for an artifact.
  pub record IsKept (m : List (Text × MaterializedArtifact)) (a : GeneratedArtifact S)
      : Type 0 where
    pub where_to : List Text × Text
    pub bytes : List ℕ
    pub normalized : normalize_artifact_path cwd output_root a.path ≡ ok where_to
    pub serialized : content_of full_text stringify a.payload ≡ ok bytes
    pub kept : (x : MaterializedArtifact) × (get where_to.1 m ≡ some x) × (x.hash ≡ sha256 bytes)

  -- Entries stay as they are.
  abbrev Extends : List (Text × MaterializedArtifact) → List (Text × MaterializedArtifact) → Type 0
  Extends m n = (k : Text) (x : MaterializedArtifact) → get k m ≡ some x → get k n ≡ some x

  keep_artifact-Extends :
      (m : MaterializedArtifact) (c : Collected) → Extends c.by_path (keep_artifact m c).by_path
  unfolding keep_artifact
  keep_artifact-Extends m c k x g = elim (Option-cases (get m.relative_path c.by_path)) [
    | inr (previous, e) ↦ rw (e, keep_artifact) g
    | inl e ↦
        rw (e, keep_artifact)
          (get-put m.relative_path m c.by_path k ∙ (elim (Bool-cases (text_eq m.relative_path k)) [
            | inr other ↦ rw other g
            | inl same ↦ cc (ap (λ t. get t c.by_path) ((text_eq_iff _ _).0 same), e, g)
          ]))
  ]

  keep_artifact-IsKept :
      (c : Collected) (a : GeneratedArtifact S) (m : MaterializedArtifact)
      → Passes cwd full_text stringify sha256 output_root max_artifact_bytes normal c a m
      → IsKept (keep_artifact m c).by_path a
  unfolding keep_artifact
  keep_artifact-IsKept c a m p = record {
    where_to = p.normalized.0;
    bytes = m.content;
    normalized = p.normalized.1;
    serialized = p.serialized;
    kept = rw (← p.normalized.2) (elim (Option-cases (get m.relative_path c.by_path)) [
      | inr (previous, e) ↦
          (previous, rw (e, keep_artifact) e, p.agrees previous e ∙ p.placed.hashed)
      | inl e ↦
          (m, rw (e, keep_artifact) (get-put_self m.relative_path m c.by_path), p.placed.hashed)
    ]);
  }

  IsKept-Extends :
      (m n : List (Text × MaterializedArtifact))
      → Extends m n
      → (a : GeneratedArtifact S) → IsKept m a
      → IsKept n a
  IsKept-Extends m n e a k = record {
    where_to = k.where_to;
    bytes = k.bytes;
    normalized = k.normalized;
    serialized = k.serialized;
    kept = (k.kept.0, e k.where_to.1 k.kept.0 k.kept.1, k.kept.2);
  }

  -- A round either reports an error, or keeps the artifact and what was there.
  round_outcome :
      (c : Collected) (a : GeneratedArtifact S)
      → let next : Collected =
          collect_artifact cwd full_text stringify sha256 output_root max_artifact_bytes c a in
        (has_diagnostic_errors next.diagnostics ≡ true)
        ⊎ ((next.diagnostics ≡ c.diagnostics)
            × IsKept next.by_path a
            × Extends c.by_path next.by_path)
  unfolding collect_artifact push_diagnostic
  round_outcome c a =
      elim (Result-cases
        (materialize_artifact cwd full_text stringify sha256 output_root max_artifact_bytes c a)) [
          | inl (d, e) ↦
              let reported : is_error d ≡ true = subst Reports e (
                Reports-materialize cwd full_text stringify sha256 output_root max_artifact_bytes
                  normal c a) in
              inl (rw (e, collect_artifact) (has_diagnostic_errors-push c.diagnostics d reported))
          | inr (m, e) ↦ inr (
            rw (e, collect_artifact) (same_diagnostics m c),
            rw (e, collect_artifact)
                (keep_artifact-IsKept c a m (
                  materialize_artifact-Passes cwd full_text stringify sha256 output_root
                    max_artifact_bytes normal c a m e)),
            rw (e, collect_artifact) (keep_artifact-Extends m c),
          )
        ]

  errors_stay :
      (c : Collected) (a : GeneratedArtifact S)
      → has_diagnostic_errors c.diagnostics ≡ true
      → has_diagnostic_errors
          (collect_artifact cwd full_text stringify sha256 output_root max_artifact_bytes c
            a).diagnostics
        ≡ true
  unfolding collect_artifact
  errors_stay c a h = elim (round_outcome c a) [
    | inl e ↦ e
    | inr (same, _, _) ↦ ap has_diagnostic_errors same ∙ h
  ]

  errors_remain :
      (c : Collected) (artifacts : List (GeneratedArtifact S))
      → has_diagnostic_errors c.diagnostics ≡ true
      → has_diagnostic_errors
          (collect_artifacts cwd full_text stringify sha256 output_root max_artifact_bytes c
            artifacts).diagnostics
        ≡ true
  unfolding collect_artifacts
  errors_remain c [] h = h
  errors_remain c (a ∷ rest) h =
      errors_remain
        (collect_artifact cwd full_text stringify sha256 output_root max_artifact_bytes c a) rest
        (errors_stay c a h)

  all-IsKept :
      (c : Collected) (artifacts : List (GeneratedArtifact S))
      → has_diagnostic_errors
          (collect_artifacts cwd full_text stringify sha256 output_root max_artifact_bytes c
            artifacts).diagnostics
        ≡ false
      → let last : Collected =
          collect_artifacts cwd full_text stringify sha256 output_root max_artifact_bytes c
            artifacts in
        Extends c.by_path last.by_path × All (IsKept last.by_path) artifacts
  unfolding collect_artifacts
  all-IsKept c [] h = (λ k x g. g, tt)
  all-IsKept c (a ∷ rest) h =
      let next : Collected =
        collect_artifact cwd full_text stringify sha256 output_root max_artifact_bytes c a in
      let (later, kept) = all-IsKept next rest h in
      elim (round_outcome c a) [
        | inl e ↦ cc (errors_remain next rest e, h)
        | inr (_, here, stays) ↦
            (λ k x g. later k x (stays k x g), (IsKept-Extends _ _ later a here, kept))
      ]

  -- An artifact is written: a file at its place below the root has the hash of its bytes.
  pub record IsWritten (out : List MaterializedArtifact) (a : GeneratedArtifact S) : Type 0 where
    pub where_to : List Text × Text
    pub bytes : List ℕ
    pub normalized : normalize_artifact_path cwd output_root a.path ≡ ok where_to
    pub serialized : content_of full_text stringify a.payload ≡ ok bytes
    pub written :
        any (λ m. text_eq m.relative_path where_to.1 && text_eq m.hash (sha256 bytes)) out ≡ true

  IsWritten-of_kept :
      (folded : List (Text × Text)) (m : List (Text × MaterializedArtifact))
      (a : GeneratedArtifact S)
      → All (IsEntry cwd full_text stringify sha256 output_root max_artifact_bytes normal folded) m
      → IsKept m a
      → IsWritten (sort path_le (map value m)) a
  IsWritten-of_kept folded m a h k =
      let (x, found, hashed) = k.kept in
      let own : x.relative_path ≡ k.where_to.1 =
        (get-All
          (IsEntry cwd full_text stringify sha256 output_root max_artifact_bytes normal folded)
          k.where_to.1 x m h found).own_path in
      record {
        where_to = k.where_to;
        bytes = k.bytes;
        normalized = k.normalized;
        serialized = k.serialized;
        written =
            any-sort path_le _ (map value m)
            ∙ any_of_get _ k.where_to.1 m x found (
                ground (
                  arith,
                  (text_eq_iff x.relative_path k.where_to.1).1 own,
                  (text_eq_iff x.hash (sha256 k.bytes)).1 hashed,
                ));
      }

  -- When no diagnostic is an error, every artifact is written: its path is below the root, its bytes
  -- are serialised, and one of the files has this path and the hash of these bytes.
  pub materialize-IsWritten :
      (artifacts : List (GeneratedArtifact S))
      → has_diagnostic_errors
          (materialize_artifacts cwd full_text stringify sha256 output_root max_artifact_bytes
            artifacts).1
        ≡ false
      → All
          (IsWritten
            (materialize_artifacts cwd full_text stringify sha256 output_root max_artifact_bytes
              artifacts).0)
          artifacts
  unfolding materialize_artifacts sort_generated_artifacts
  materialize-IsWritten artifacts h =
      let sorted = sort_generated_artifacts artifacts in
      let c : Collected =
        collect_artifacts cwd full_text stringify sha256 output_root max_artifact_bytes start
          sorted in
      let entries =
        (collect_artifacts-IsCollected cwd full_text stringify sha256 output_root max_artifact_bytes
          normal start sorted (record { distinct = tt; entries = tt })).entries in
      let kept =
        (all-IsKept start sorted
          (sym (has_diagnostic_errors-sort_diagnostics c.diagnostics) ∙ h)).1 in
      All-imp _ _ artifacts (λ a k. IsWritten-of_kept c.by_folded_path c.by_path a entries k)
        (All-of_sort (IsKept c.by_path) (le_by compare_artifacts) artifacts kept)
