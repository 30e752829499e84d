-- ===== src/Artifacts/Materialization.antt =====
-- packages/core/src/artifacts/index.ts: `materializeArtifacts`. The abort signal is not modelled.
use openapi_to.Common.{
  ℕ, ◌*◌, Bool, true, false, not, Option, none, some, List, [], ◌∷◌, ◌++◌, map, Text, text, text_eq,
  text_equality, contains, length, ltb, Result, ok, err, ◌>>=◌, to_lower_case, split_all, decimal,
  sort, absolute_text, join,
}
use openapi_to.Common.Comparison.{compare_text, le_by}
use openapi_to.Common.Dictionary.{get, put}
use openapi_to.Common.Json.{Json}
use openapi_to.Diagnostics.{Diagnostic, sort_diagnostics}
use openapi_to.Artifacts.{
  GeneratedArtifact, MaterializedArtifact, at_source, kind_of, normalize_artifact_path,
  sort_generated_artifacts,
}
use openapi_to.Artifacts.Serialization.{content_of}

abbrev pub default_max_artifact_bytes : ℕ
default_max_artifact_bytes = 64 * 1024 * 1024

-- `RESERVED_ARTIFACT_PATHS`
abbrev pub reserved_artifact_paths : List Text
reserved_artifact_paths =
    text ".openapi-to-manifest.json"
    ∷ text ".openapi-to-write.lock"
    ∷ text ".openapi-to-transaction"
    ∷ text ".openapi-to-transaction.json"
    ∷ []

-- `relativePath.split('/')[0] ?? ''`
unfoldable pub first_segment : Text → Text
first_segment path = elim (split_all path) [ [] ↦ [] | s ∷ ss ↦ s ]

-- The local variables of the function.
pub record Collected : Type 0 where
  pub diagnostics : List Diagnostic
  pub by_path : List (Text × MaterializedArtifact)
  pub by_folded_path : List (Text × Text)

-- `if (failed) { diagnostics.push(diagnostic); continue }`
abbrev pub refuse_if : Bool → Diagnostic → Result Diagnostic (Unit {0})
refuse_if true diagnostic = err diagnostic
refuse_if false diagnostic = ok tt

-- The producers in the hint on a conflict.
abbrev pub present : Option Text → List Text
present none = []
present (some []) = []
present (some (c ∷ cs)) = (c ∷ cs) ∷ []

unfoldable pub producers_hint : Option Text → Option Text → Option Text
producers_hint left right = elim (present left ++ present right) [
  | [] ↦ none
  | p ∷ ps ↦ some (text "Producers: " ++ join (text ", ") (p ∷ ps))
]

-- `caseVariant && caseVariant !== relativePath`
unfoldable pub is_case_conflict : Option Text → Text → Bool
is_case_conflict none path = false
is_case_conflict (some []) path = false
is_case_conflict (some (c ∷ cs)) path = not (text_eq (c ∷ cs) path)

unfoldable pub case_conflict : Option Text → Text → Option Text → Diagnostic
case_conflict variant path plugin =
    at_source (text "ARTIFACT_PATH_CASE_CONFLICT")
      (text "Generated artifact paths differ only by case: "
        ++ (elim variant [ none ↦ text "undefined" | some t ↦ t ]
            ++ (text " and " ++ (path ++ text "."))))
      path plugin

unfoldable pub path_conflict : MaterializedArtifact → MaterializedArtifact → Diagnostic
unfolding producers_hint
path_conflict previous artifact =
    record (at_source (text "ARTIFACT_PATH_CONFLICT")
      (text "Multiple plugins generated different content for "
        ++ (artifact.relative_path ++ text "."))
      artifact.relative_path none) { hint = producers_hint previous.plugin artifact.plugin }

-- `previous && previous.hash !== materialized.hash`
unfoldable pub refuse_conflict :
    Option MaterializedArtifact → MaterializedArtifact → Result Diagnostic (Unit {0})
unfolding path_conflict
refuse_conflict none artifact = ok tt
refuse_conflict (some previous) artifact =
    refuse_if (not (text_eq previous.hash artifact.hash)) (path_conflict previous artifact)

-- `if (!previous)`: the artifact is set, with its path in lower case.
unfoldable pub keep_artifact : MaterializedArtifact → Collected → Collected
keep_artifact m c = elim (get m.relative_path c.by_path) [
  | some previous ↦ c
  | none ↦ record c {
    by_path = put m.relative_path m c.by_path;
    by_folded_path = put (to_lower_case m.relative_path) m.relative_path c.by_folded_path;
  }
]

unfoldable pub push_diagnostic : Diagnostic → Collected → Collected
push_diagnostic d c = record c { diagnostics = c.diagnostics ++ d ∷ [] }

module _ {S : Type 0} (cwd : List Text) (full_text : S → Result (Option Text) Text)
    (stringify : Json → Text) (sha256 : List ℕ → Text) (output_root : Text)
    (max_artifact_bytes : ℕ) where
  -- The `catch` of the serialisation.
  unfoldable pub serialize : GeneratedArtifact S → Result Diagnostic (List ℕ)
  unfolding content_of
  serialize artifact = elim (content_of full_text stringify artifact.payload) [
    | ok bytes ↦ ok bytes
    | err message ↦
        err
          (record (at_source (text "ARTIFACT_SERIALIZATION_FAILED")
            (text "Unable to serialize generated artifact " ++ (artifact.path ++ text "."))
            artifact.path artifact.plugin) { cause = message })
  ]

  unfoldable pub materialized_of :
      GeneratedArtifact S → List Text × Text → List ℕ → MaterializedArtifact
  unfolding kind_of
  materialized_of artifact normalized content = record {
    kind = kind_of artifact.payload;
    path = absolute_text normalized.0;
    relative_path = normalized.1;
    content = content;
    hash = sha256 content;
    plugin = artifact.plugin;
  }

  -- The tests of the loop body on the bytes, and the artifact that passes them.
  unfoldable pub materialize_content :
      Collected
      → GeneratedArtifact S
      → List Text × Text
      → List ℕ
      → Result Diagnostic MaterializedArtifact
  unfolding refuse_conflict materialized_of
  materialize_content c artifact normalized content =
      let relative : Text = normalized.1 in
      refuse_if (ltb max_artifact_bytes (length content)) (
        at_source (text "ARTIFACT_TOO_LARGE")
          (text "Generated artifact "
            ++ (relative
                ++ (text " exceeds the " ++ (decimal max_artifact_bytes ++ text " byte limit."))))
          relative artifact.plugin)
      >>= λ _.
          refuse_conflict (get relative c.by_path) (materialized_of artifact normalized content)
          >>= λ _. ok (materialized_of artifact normalized content)

  -- The tests on the path, then on the bytes.
  unfoldable pub materialize_at :
      Collected → GeneratedArtifact S → List Text × Text → Result Diagnostic MaterializedArtifact
  unfolding first_segment is_case_conflict case_conflict serialize materialize_content
  materialize_at c artifact normalized =
      let relative : Text = normalized.1 in
      let variant = get (to_lower_case relative) c.by_folded_path in
      refuse_if (contains reserved_artifact_paths (first_segment relative)) (
        at_source (text "ARTIFACT_PATH_RESERVED")
          (relative ++ text " collides with reserved generator transaction state.") artifact.path
          artifact.plugin)
      >>= λ _.
          refuse_if (is_case_conflict variant relative)
            (case_conflict variant relative artifact.plugin)
          >>= λ _. serialize artifact >>= materialize_content c artifact normalized

  unfoldable pub materialize_artifact :
      Collected → GeneratedArtifact S → Result Diagnostic MaterializedArtifact
  unfolding materialize_at
  materialize_artifact c artifact =
      normalize_artifact_path cwd output_root artifact.path >>= materialize_at c artifact

  -- The loop body.
  unfoldable pub collect_artifact : Collected → GeneratedArtifact S → Collected
  unfolding materialize_artifact keep_artifact push_diagnostic
  collect_artifact c artifact = elim (materialize_artifact c artifact) [
    | err d ↦ push_diagnostic d c
    | ok m ↦ keep_artifact m c
  ]

  unfoldable pub collect_artifacts : Collected → List (GeneratedArtifact S) → Collected
  collect_artifacts c [] = c
  collect_artifacts c (a ∷ as') = collect_artifacts (collect_artifact c a) as'

  unfoldable pub materialize_artifacts :
      List (GeneratedArtifact S) → List MaterializedArtifact × List Diagnostic
  unfolding collect_artifacts
  materialize_artifacts artifacts =
      let c =
        collect_artifacts (record { diagnostics = []; by_path = []; by_folded_path = [] })
          (sort_generated_artifacts artifacts) in
      (
        sort (le_by (λ (a b : MaterializedArtifact). compare_text a.relative_path b.relative_path))
            (map (λ (entry : Text × MaterializedArtifact). entry.1) c.by_path),
        sort_diagnostics c.diagnostics,
      )
