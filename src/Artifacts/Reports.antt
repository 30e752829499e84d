-- ===== src/Artifacts/Reports.antt =====
-- What the tests of `materializeArtifacts` report is an error.
use openapi_to.Common.{
  length, ltb, resolve_below, is_absolute, resolve_path, relative_segments, join, ◌>>=◌, ℕ, ◌≡◌,
  refl, Bool, true, false, Option, none, some, List, Text, text, text_eq, text_equality, contains,
  Result, ok, err, if◌then◌else◌, to_lower_case, All, IsSegment, Result-cases, Bool-cases, inl, inr,
  subst,
}
use openapi_to.Common.Dictionary.{get}
use openapi_to.Common.Json.{Json}
use openapi_to.Diagnostics.{Diagnostic, is_error}
use openapi_to.Artifacts.{
  is_outside, GeneratedArtifact, MaterializedArtifact, normalize_artifact_path,
}
use openapi_to.Artifacts.Serialization.{content_of}
use openapi_to.Artifacts.Materialization.{
  case_conflict, materialize_content, path_conflict, materialize_at, serialize, refuse_conflict,
  Collected, is_case_conflict, first_segment, reserved_artifact_paths, materialized_of,
  materialize_artifact,
}

-- A test that fails reports an error.
abbrev pub Reports {ℓ} : {A : Type ℓ} → Result Diagnostic A → Type 0
Reports (err d) = is_error d ≡ true
Reports (ok a) = Unit

Reports-if {ℓ} :
    {A : Type ℓ} (b : Bool) (d : Diagnostic) (a : A)
    → is_error d ≡ true
    → Reports (if b then err d else ok a)
Reports-if true d a h = h
Reports-if false d a h = tt

Reports-refuse_conflict :
    (o : Option MaterializedArtifact) (m : MaterializedArtifact)
    → Reports (refuse_conflict o m >>= λ _. ok m)
unfolding refuse_conflict path_conflict
Reports-refuse_conflict none m = tt
Reports-refuse_conflict (some q) m = elim (Bool-cases (text_eq q.hash m.hash)) [
  | inl same ↦ rw same tt
  | inr other ↦ rw other refl
]

module _ {S : Type 0} (cwd : List Text) (full_text : S → Result (Option Text) Text)
    (stringify : Json → Text) (sha256 : List ℕ → Text) (output_root : Text) (max_artifact_bytes : ℕ)
    (normal : All IsSegment cwd) where
  Reports-normalize : (path : Text) → Reports (normalize_artifact_path cwd output_root path)
  unfolding normalize_artifact_path
  Reports-normalize path =
      Reports-if
        (is_outside (
          join (text "/") (
            relative_segments (resolve_path cwd output_root) (
              if is_absolute path
              then resolve_path cwd path
              else resolve_below (resolve_path cwd output_root) path))))
        _ _ refl

  Reports-serialize :
      (a : GeneratedArtifact S)
      → Reports (serialize cwd full_text stringify sha256 output_root max_artifact_bytes a)
  unfolding serialize
  Reports-serialize a = elim (Result-cases (content_of full_text stringify a.payload)) [
    | inl (x, e) ↦ rw (e, serialize) refl
    | inr (bytes, e) ↦ rw (e, serialize) tt
  ]

  Reports-materialize_content :
      (c : Collected) (a : GeneratedArtifact S) (n : List Text × Text) (bytes : List ℕ)
      → Reports (
          materialize_content cwd full_text stringify sha256 output_root max_artifact_bytes c a n
            bytes)
  unfolding materialize_content
  Reports-materialize_content c a n bytes =
      elim (Bool-cases (ltb max_artifact_bytes (length bytes))) [
        | inl big ↦ rw (big, materialize_content) refl
        | inr small ↦
            rw (small, materialize_content)
              (Reports-refuse_conflict (get n.1 c.by_path) (
                materialized_of cwd full_text stringify sha256 output_root max_artifact_bytes a n
                  bytes))
      ]

  Reports-materialize_at :
      (c : Collected) (a : GeneratedArtifact S) (n : List Text × Text)
      → Reports (materialize_at cwd full_text stringify sha256 output_root max_artifact_bytes c a n)
  unfolding materialize_at case_conflict
  Reports-materialize_at c a n =
      elim (Bool-cases (contains reserved_artifact_paths (first_segment n.1))) [
        | inl bad ↦ rw (bad, materialize_at) refl
        | inr unreserved ↦
            rw (unreserved, materialize_at)
              (elim (Bool-cases (is_case_conflict (get (to_lower_case n.1) c.by_folded_path) n.1)) [
                | inl bad ↦ rw bad refl
                | inr free ↦
                    rw free
                      (elim (Result-cases (
                        serialize cwd full_text stringify sha256 output_root max_artifact_bytes
                          a)) [
                            | inl (d, e) ↦ rw e (subst Reports e (Reports-serialize a))
                            | inr (bytes, e) ↦ rw e (Reports-materialize_content c a n bytes)
                          ])
              ])
      ]

  pub Reports-materialize :
      (c : Collected) (a : GeneratedArtifact S)
      → Reports
          (materialize_artifact cwd full_text stringify sha256 output_root max_artifact_bytes c a)
  unfolding materialize_artifact
  Reports-materialize c a = elim (Result-cases (normalize_artifact_path cwd output_root a.path)) [
    | inl (d, e) ↦ rw (e, materialize_artifact) (subst Reports e (Reports-normalize a.path))
    | inr (n, e) ↦ rw (e, materialize_artifact) (Reports-materialize_at c a n)
  ]
