-- ===== src/Artifacts/Collection.antt =====
-- What `materializeArtifacts` collects: artifacts below the root, once each, also when paths are
-- compared without regard to case.
use openapi_to.Artifacts.Below.{IsBelow, IsBelow-of, relative_ne_nil}
use openapi_to.Common.{
  ok_value, All-imp, Result-cases, ◌∙◌, ℕ, ◌≤◌, ◌≡◌, ◌≢◌, refl, Bool, true, false, Option, none,
  some, List, [], ◌∷◌, Text, text, text_eq, text_eq_iff, text_equality, contains, length, ltb,
  Result, ok, >>=-eq-ok, if◌then◌else◌, to_lower_case, All, IsSegment, resolve_path, resolve_below,
  resolve_path-IsSegment, resolve_below-IsSegment, relative_segments, join, absolute_text,
  is_absolute, Bool-cases, Option-cases, arith, inl, inr, value_of, subst, sym, ap,
}
use openapi_to.Common.Dictionary.{
  get-put_self, get, put, HasDistinctKeys, put-HasDistinctKeys, get-put, All-put,
}
use openapi_to.Common.Json.{Json}
use openapi_to.Diagnostics.{Diagnostic}
use openapi_to.Artifacts.{
  GeneratedArtifact, MaterializedArtifact, normalize_artifact_path, is_outside,
}
use openapi_to.Artifacts.Serialization.{content_of}
use openapi_to.Artifacts.Materialization.{
  materialized_of, materialize_at, materialize_content, Collected, reserved_artifact_paths,
  first_segment, refuse_if, refuse_conflict, is_case_conflict, keep_artifact, push_diagnostic,
  serialize, materialize_artifact, collect_artifact, collect_artifacts,
}

no_conflict : (k r : Text) → k ≢ [] → is_case_conflict (some k) r ≡ false → k ≡ r
unfolding is_case_conflict
no_conflict [] r ne h = absurd (ne refl)
no_conflict (c ∷ cs) r ne h = (text_eq_iff (c ∷ cs) r).0 (ground arith)

refuse_if-eq-ok : (b : Bool) (d : Diagnostic) (u : Unit {0}) → refuse_if b d ≡ ok u → b ≡ false
refuse_if-eq-ok true d u h = cc h
refuse_if-eq-ok false d u h = refl

module _ {S : Type 0} (cwd : List Text) (full_text : S → Result (Option Text) Text)
    (stringify : Json → Text) (sha256 : List ℕ → Text) (output_root : Text) (max_artifact_bytes : ℕ)
    (normal : All IsSegment cwd) where
  root_segments : List Text
  root_segments = resolve_path cwd output_root

  resolved : Text → List Text
  resolved path =
      if is_absolute path
      then resolve_path cwd path
      else resolve_below (resolve_path cwd output_root) path

  resolved-IsSegment : (path : Text) → All IsSegment (resolved path)
  unfolding resolved
  resolved-IsSegment path = elim (Bool-cases (is_absolute path)) [
    | inl e ↦ rw (e, resolved) (resolve_path-IsSegment cwd path normal)
    | inr e ↦
        rw (e, resolved)
          (resolve_below-IsSegment (resolve_path cwd output_root) path
            (resolve_path-IsSegment cwd output_root normal))
  ]

  normalize-IsBelow :
      (path : Text) (n : List Text × Text)
      → normalize_artifact_path cwd output_root path ≡ ok n
      → IsBelow (resolve_path cwd output_root) (absolute_text n.0) n.1
  unfolding normalize_artifact_path resolved
  normalize-IsBelow path n h =
      let relative =
        join (text "/") (relative_segments (resolve_path cwd output_root) (resolved path)) in
      elim (Bool-cases (is_outside relative)) [
        | inl out ↦ cc (rw out at h)
        | inr inside ↦
            subst
              (λ (m : List Text × Text).
                IsBelow (resolve_path cwd output_root) (absolute_text m.0) m.1)
              (ok_value (rw (inside, if◌then◌else◌) at h))
              (IsBelow-of (resolve_path cwd output_root) (resolved path) (resolved-IsSegment path)
                inside)
      ]

  -- What every collected artifact is.
  pub record IsPlaced (m : MaterializedArtifact) : Type 0 where
    pub below : IsBelow (resolve_path cwd output_root) m.path m.relative_path
    pub unreserved : contains reserved_artifact_paths (first_segment m.relative_path) ≡ false
    pub small : length m.content ≤ max_artifact_bytes
    pub hashed : m.hash ≡ sha256 m.content

  -- What the tests of the loop body leave open.
  pub record Passes (c : Collected) (a : GeneratedArtifact S) (m : MaterializedArtifact)
      : Type 0 where
    pub placed : IsPlaced m
    pub case_free :
        is_case_conflict (get (to_lower_case m.relative_path) c.by_folded_path) m.relative_path
        ≡ false
    pub agrees :
        (previous : MaterializedArtifact)
        → get m.relative_path c.by_path ≡ some previous
        → previous.hash ≡ m.hash
    pub serialized : content_of full_text stringify a.payload ≡ ok m.content
    pub normalized :
        (n : List Text × Text) × (normalize_artifact_path cwd output_root a.path ≡ ok n)
        × (m.relative_path ≡ n.1)

  serialize-eq-ok :
      (a : GeneratedArtifact S) (content : List ℕ)
      → serialize cwd full_text stringify sha256 output_root max_artifact_bytes a ≡ ok content
      → content_of full_text stringify a.payload ≡ ok content
  unfolding serialize
  serialize-eq-ok a content h = ground arith

  refuse_conflict-agrees :
      (o : Option MaterializedArtifact) (m : MaterializedArtifact) (u : Unit {0})
      → refuse_conflict o m ≡ ok u
      → (previous : MaterializedArtifact) → o ≡ some previous
      → previous.hash ≡ m.hash
  unfolding refuse_conflict
  refuse_conflict-agrees none m u h previous e = cc e
  refuse_conflict-agrees (some q) m u h previous e =
      let same : text_eq q.hash m.hash ≡ true = ground (arith, refuse_if-eq-ok _ _ u h) in
      ap (λ (x : MaterializedArtifact). x.hash) (sym (value_of e))
      ∙ (text_eq_iff q.hash m.hash).0 same

  record IsContent (c : Collected) (a : GeneratedArtifact S) (n : List Text × Text)
      (content : List ℕ) (m : MaterializedArtifact) : Type 0 where
    pub path : m.path ≡ absolute_text n.0
    pub relative : m.relative_path ≡ n.1
    pub same : m.content ≡ content
    pub hashed : m.hash ≡ sha256 content
    pub small : length content ≤ max_artifact_bytes
    pub agrees :
        (previous : MaterializedArtifact)
        → get n.1 c.by_path ≡ some previous
        → previous.hash ≡ m.hash

  module _ (c : Collected) (a : GeneratedArtifact S) (n : List Text × Text)
      (m : MaterializedArtifact) where
    materialize_content-IsContent :
        (content : List ℕ)
        → materialize_content cwd full_text stringify sha256 output_root max_artifact_bytes c a n
            content
          ≡ ok m
        → IsContent c a n content m
    unfolding materialize_content materialized_of
    materialize_content-IsContent content h =
        let made : MaterializedArtifact =
          materialized_of cwd full_text stringify sha256 output_root max_artifact_bytes a n
            content in
        elim (Bool-cases (ltb max_artifact_bytes (length content))) [
          | inl big ↦ cc (rw big at h)
          | inr small ↦
              let (u, e, r) =
                >>=-eq-ok (refuse_conflict (get n.1 c.by_path) made) (λ _. ok made)
                  (rw small at h) in
              subst (IsContent c a n content) (ok_value r) (record {
                path = refl;
                relative = refl;
                same = refl;
                hashed = refl;
                small = ground arith;
                agrees = refuse_conflict-agrees (get n.1 c.by_path) made u e;
              })
        ]

    materialize_at-Passes :
        normalize_artifact_path cwd output_root a.path ≡ ok n
        → materialize_at cwd full_text stringify sha256 output_root max_artifact_bytes c a n ≡ ok m
        → Passes c a m
    unfolding materialize_at
    materialize_at-Passes normalized h =
        elim (Bool-cases (contains reserved_artifact_paths (first_segment n.1))) [
          | inl bad ↦ cc (rw bad at h)
          | inr unreserved ↦
              elim (Bool-cases (is_case_conflict (get (to_lower_case n.1) c.by_folded_path) n.1)) [
                | inl bad ↦ cc (rw (unreserved, bad) at h)
                | inr case_free ↦
                    let (content, e, r) =
                      >>=-eq-ok
                        (serialize cwd full_text stringify sha256 output_root max_artifact_bytes a)
                        (materialize_content cwd full_text stringify sha256 output_root
                          max_artifact_bytes c a n)
                        (rw (unreserved, case_free) at h) in
                    of_content content (serialize-eq-ok a content e)
                      (materialize_content-IsContent content r) unreserved case_free
              ]
        ]
      where
        of_content :
            (content : List ℕ)
            → content_of full_text stringify a.payload ≡ ok content
            → IsContent c a n content m
            → contains reserved_artifact_paths (first_segment n.1) ≡ false
            → is_case_conflict (get (to_lower_case n.1) c.by_folded_path) n.1 ≡ false
            → Passes c a m
        of_content content e k unreserved case_free = record {
          placed = record {
            below = subst (IsBelow (resolve_path cwd output_root) m.path) (sym k.relative) (
                subst (λ p. IsBelow (resolve_path cwd output_root) p n.1) (sym k.path)
                  (normalize-IsBelow a.path n normalized));
            unreserved =
                subst (λ p. contains reserved_artifact_paths (first_segment p) ≡ false)
                  (sym k.relative) unreserved;
            small = subst (λ bytes. length bytes ≤ max_artifact_bytes) (sym k.same) k.small;
            hashed = k.hashed ∙ ap sha256 (sym k.same);
          };
          case_free =
              subst (λ p. is_case_conflict (get (to_lower_case p) c.by_folded_path) p ≡ false)
                (sym k.relative) case_free;
          agrees = λ previous g. k.agrees previous (ap (λ p. get p c.by_path) (sym k.relative) ∙ g);
          serialized = e ∙ ap ok (sym k.same);
          normalized = (n, normalized, k.relative);
        }

  pub materialize_artifact-Passes :
      (c : Collected) (a : GeneratedArtifact S) (m : MaterializedArtifact)
      → materialize_artifact cwd full_text stringify sha256 output_root max_artifact_bytes c a
        ≡ ok m
      → Passes c a m
  unfolding materialize_artifact
  materialize_artifact-Passes c a m h =
      let (n, e, r) =
        >>=-eq-ok (normalize_artifact_path cwd output_root a.path)
          (materialize_at cwd full_text stringify sha256 output_root max_artifact_bytes c a) h in
      materialize_at-Passes c a n m e r

  -- An entry of the collection, which no other path matches in lower case.
  pub record IsEntry (folded : List (Text × Text)) (entry : Text × MaterializedArtifact)
      : Type 0 where
    pub own_path : entry.1.relative_path ≡ entry.0
    pub placed : IsPlaced entry.1
    pub lower : get (to_lower_case entry.0) folded ≡ some entry.0

  -- What holds of the local variables after every round.
  pub record IsCollected (c : Collected) : Type 0 where
    pub distinct : HasDistinctKeys c.by_path
    pub entries : All (IsEntry c.by_folded_path) c.by_path

  IsEntry-stays :
      (folded : List (Text × Text)) (m : MaterializedArtifact)
      → is_case_conflict (get (to_lower_case m.relative_path) folded) m.relative_path ≡ false
      → (entry : Text × MaterializedArtifact) → IsEntry folded entry
      → IsEntry (put (to_lower_case m.relative_path) m.relative_path folded) entry
  IsEntry-stays folded m free entry e = record {
    own_path = e.own_path;
    placed = e.placed;
    lower = elim (Bool-cases (text_eq (to_lower_case m.relative_path) (to_lower_case entry.0))) [
      | inr other ↦
          get-put (to_lower_case m.relative_path) m.relative_path folded (to_lower_case entry.0)
          ∙ rw other e.lower
      | inl same ↦
          let found : get (to_lower_case m.relative_path) folded ≡ some entry.0 =
            ap (λ k. get k folded) ((text_eq_iff _ _).0 same) ∙ e.lower in
          let alike : entry.0 ≡ m.relative_path =
            no_conflict entry.0 m.relative_path
              (subst (λ r. r ≢ []) e.own_path (relative_ne_nil _ _ _ e.placed.below))
              (rw found at free) in
          get-put (to_lower_case m.relative_path) m.relative_path folded (to_lower_case entry.0)
          ∙ rw same (ap some (sym alike))
    ];
  }

  keep_artifact-IsCollected :
      (c : Collected) (a : GeneratedArtifact S) (m : MaterializedArtifact)
      → Passes c a m
      → IsCollected c
      → IsCollected (keep_artifact m c)
  unfolding keep_artifact
  keep_artifact-IsCollected c a m p h = elim (Option-cases (get m.relative_path c.by_path)) [
    | inr (previous, e) ↦ rw (e, keep_artifact) h
    | inl e ↦
        rw (e, keep_artifact)
          (record {
            distinct = put-HasDistinctKeys m.relative_path m c.by_path h.distinct;
            entries =
                All-put
                  (IsEntry (put (to_lower_case m.relative_path) m.relative_path c.by_folded_path))
                  m.relative_path m c.by_path
                  (record {
                    own_path = refl;
                    placed = p.placed;
                    lower =
                        get-put_self (to_lower_case m.relative_path) m.relative_path
                          c.by_folded_path;
                  })
                  (All-imp (IsEntry c.by_folded_path) _ c.by_path
                    (IsEntry-stays c.by_folded_path m p.case_free) h.entries);
          })
  ]

  collect_artifact-IsCollected :
      (c : Collected) (a : GeneratedArtifact S)
      → IsCollected c
      → IsCollected
          (collect_artifact cwd full_text stringify sha256 output_root max_artifact_bytes c a)
  unfolding collect_artifact push_diagnostic
  collect_artifact-IsCollected c a h =
      elim (Result-cases
        (materialize_artifact cwd full_text stringify sha256 output_root max_artifact_bytes c a)) [
          | inl (d, e) ↦
              rw (e, collect_artifact) (record { distinct = h.distinct; entries = h.entries })
          | inr (m, e) ↦
              rw (e, collect_artifact)
                (keep_artifact-IsCollected c a m (materialize_artifact-Passes c a m e) h)
        ]

  pub collect_artifacts-IsCollected :
      (c : Collected) (artifacts : List (GeneratedArtifact S))
      → IsCollected c
      → IsCollected (
          collect_artifacts cwd full_text stringify sha256 output_root max_artifact_bytes c
            artifacts)
  unfolding collect_artifacts
  collect_artifacts-IsCollected c [] h = h
  collect_artifacts-IsCollected c (a ∷ rest) h =
      collect_artifacts-IsCollected
        (collect_artifact cwd full_text stringify sha256 output_root max_artifact_bytes c a) rest
        (collect_artifact-IsCollected c a h)
