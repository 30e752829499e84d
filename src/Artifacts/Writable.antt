-- ===== src/Artifacts/Writable.antt =====
-- What `materializeArtifacts` returns: files that may be written together.
use openapi_to.Common.{
  ◌∙◌, ℕ, ◌≡◌, refl, Bool, false, ◌||◌, Option, none, some, List, [], ◌∷◌, map, Text, text_eq,
  text_eq_iff, text_equality, contains, Result, if◌then◌else◌, to_lower_case, All, IsNub, IsSegment,
  IsSorted, sort, insert, sort-IsSorted, Bool-cases, arith, inl, inr, value_of, sym, ap, All-sort,
}
use openapi_to.Common.Comparison.{
  compare_text, compare_text-IsComparator, on-IsComparator, order_of, le_by,
}
use openapi_to.Common.Dictionary.{get, HasDistinctKeys}
use openapi_to.Common.Json.{Json}
use openapi_to.Artifacts.{GeneratedArtifact, MaterializedArtifact, sort_generated_artifacts}
use openapi_to.Artifacts.Materialization.{Collected, collect_artifacts, materialize_artifacts}
use openapi_to.Artifacts.Collection.{IsPlaced, IsEntry, IsCollected, collect_artifacts-IsCollected}

abbrev pub value : Text × MaterializedArtifact → MaterializedArtifact
value entry = entry.1

abbrev pub folded_path : MaterializedArtifact → Text
folded_path m = to_lower_case m.relative_path

abbrev pub path_le : MaterializedArtifact → MaterializedArtifact → Bool
path_le = le_by (λ (a b : MaterializedArtifact). compare_text a.relative_path b.relative_path)

-- Sorting keeps the names of what it sorts.
contains-map-insert :
    (m : MaterializedArtifact) (ms : List MaterializedArtifact) (t : Text)
    → contains (map folded_path (insert path_le m ms)) t
      ≡ (text_eq (folded_path m) t || contains (map folded_path ms) t)
unfolding insert contains
contains-map-insert m [] t = refl
contains-map-insert m (n ∷ ms) t = ground (arith, contains-map-insert m ms t)

IsNub-map-insert :
    (m : MaterializedArtifact) (ms : List MaterializedArtifact)
    → contains (map folded_path ms) (folded_path m) ≡ false
    → IsNub (map folded_path ms)
    → IsNub (map folded_path (insert path_le m ms))
unfolding insert contains
IsNub-map-insert m [] h k = (refl, tt)
IsNub-map-insert m (n ∷ ms) h k = ground (
  arith,
  contains-map-insert m ms (folded_path n),
  IsNub-map-insert m ms,
  text_eq_iff (folded_path m) (folded_path n),
  text_eq_iff (folded_path n) (folded_path m),
)

contains-map-sort :
    (ms : List MaterializedArtifact) (t : Text)
    → contains (map folded_path (sort path_le ms)) t ≡ contains (map folded_path ms) t
unfolding sort contains
contains-map-sort [] t = refl
contains-map-sort (m ∷ ms) t =
    ground (arith, contains-map-insert m (sort path_le ms) t, contains-map-sort ms t)

IsNub-map-sort :
    (ms : List MaterializedArtifact)
    → IsNub (map folded_path ms)
    → IsNub (map folded_path (sort path_le ms))
unfolding sort
IsNub-map-sort [] h = tt
IsNub-map-sort (m ∷ ms) h =
    IsNub-map-insert m (sort path_le ms) (contains-map-sort ms (folded_path m) ∙ h.0)
      (IsNub-map-sort ms h.1)

pub All-of_insert {ℓ κ} :
    {A : Type ℓ} (P : A → Type κ) (le : A → A → Bool) (a : A) (xs : List A)
    → All P (insert le a xs)
    → P a × All P xs
unfolding insert
All-of_insert P le a [] h = (h.0, tt)
All-of_insert P le a (x ∷ xs) h = elim (Bool-cases (le a x)) [
  | inl here ↦ let k : P a × All P (x ∷ xs) = rw (here, if◌then◌else◌) at h in k
  | inr later ↦
      let k : P x × All P (insert le a xs) = rw (later, if◌then◌else◌) at h in
      let (p, q) = All-of_insert P le a xs k.1 in (p, (k.0, q))
]

pub All-of_sort {ℓ κ} :
    {A : Type ℓ} (P : A → Type κ) (le : A → A → Bool) (xs : List A) → All P (sort le xs) → All P xs
unfolding sort
All-of_sort P le [] h = tt
All-of_sort P le (x ∷ xs) h =
    let (p, q) = All-of_insert P le x (sort le xs) h in (p, All-of_sort P le xs q)

abbrev pub start : Collected
start = record { diagnostics = []; by_path = []; by_folded_path = [] }

module _ {S : Type 0} (cwd : List Text) (full_text : S → Result (Option Text) Text)
    (stringify : Json → Text) (sha256 : List ℕ → Text) (output_root : Text) (max_artifact_bytes : ℕ)
    (normal : All IsSegment cwd) where
  unmatched :
      (folded : List (Text × Text)) (k : Text) (m : List (Text × MaterializedArtifact))
      → get k m ≡ none
      → get (to_lower_case k) folded ≡ some k
      → All (IsEntry cwd full_text stringify sha256 output_root max_artifact_bytes normal folded) m
      → contains (map folded_path (map value m)) (to_lower_case k) ≡ false
  unfolding get contains
  unmatched folded k [] g f h = refl
  unmatched folded k ((j, x) ∷ m) g f h =
      elim (Bool-cases (text_eq (folded_path x) (to_lower_case k))) [
        | inl alike ↦
            let at_k : get (to_lower_case k) folded ≡ some j =
              ap (λ t. get t folded)
                (sym ((text_eq_iff _ _).0 alike) ∙ ap to_lower_case h.0.own_path)
              ∙ h.0.lower in
            let same : k ≡ j = value_of (sym f ∙ at_k) in
            cc (rw ((text_eq_iff j k).1 (sym same), if◌then◌else◌) at g)
        | inr other ↦ rw other (unmatched folded k m (ground arith) f h.1)
      ]

  values_IsNub :
      (folded : List (Text × Text)) (m : List (Text × MaterializedArtifact))
      → HasDistinctKeys m
      → All (IsEntry cwd full_text stringify sha256 output_root max_artifact_bytes normal folded) m
      → IsNub (map folded_path (map value m))
  values_IsNub folded [] d h = tt
  values_IsNub folded ((k, x) ∷ m) d h =
      (rw (h.0.own_path) (unmatched folded k m d.0 h.0.lower h.1), values_IsNub folded m d.1 h.1)

  values_IsPlaced :
      (folded : List (Text × Text)) (m : List (Text × MaterializedArtifact))
      → All (IsEntry cwd full_text stringify sha256 output_root max_artifact_bytes normal folded) m
      → All
          (IsPlaced cwd full_text stringify sha256 output_root max_artifact_bytes normal)
          (map value m)
  values_IsPlaced folded [] h = tt
  values_IsPlaced folded ((k, x) ∷ m) h = (h.0.placed, values_IsPlaced folded m h.1)

  -- Files that may be written together below the output root.
  pub record IsWritable (out : List MaterializedArtifact) : Type 0 where
    pub sorted : IsSorted path_le out
    pub placed :
        All (IsPlaced cwd full_text stringify sha256 output_root max_artifact_bytes normal) out
    pub distinct : IsNub (map folded_path out)

  -- The artifacts to write are sorted by path. Each has a path below the output root whose segments
  -- are names, its first segment is not reserved for the transaction, it is within the limit, and
  -- its hash is that of its bytes. No two paths are equal, also when case is ignored.
  pub materialize-IsWritable :
      (artifacts : List (GeneratedArtifact S))
      → IsWritable
          (materialize_artifacts cwd full_text stringify sha256 output_root max_artifact_bytes
            artifacts).0
  unfolding materialize_artifacts
  materialize-IsWritable artifacts =
      let c : Collected =
        collect_artifacts cwd full_text stringify sha256 output_root max_artifact_bytes start
          (sort_generated_artifacts artifacts) in
      let h : IsCollected cwd full_text stringify sha256 output_root max_artifact_bytes normal c =
        collect_artifacts-IsCollected cwd full_text stringify sha256 output_root max_artifact_bytes
          normal start (sort_generated_artifacts artifacts)
          (record { distinct = tt; entries = tt }) in
      record {
        sorted =
            sort-IsSorted path_le
              (order_of _ (
                on-IsComparator (λ (m : MaterializedArtifact). m.relative_path)
                  compare_text-IsComparator))
              (map value c.by_path);
        placed =
            All-sort path_le
              (IsPlaced cwd full_text stringify sha256 output_root max_artifact_bytes normal)
              (map value c.by_path) (values_IsPlaced c.by_folded_path c.by_path h.entries);
        distinct =
            IsNub-map-sort (map value c.by_path)
              (values_IsNub c.by_folded_path c.by_path h.distinct h.entries);
      }
