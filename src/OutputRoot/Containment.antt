-- ===== src/OutputRoot/Containment.antt =====
-- Where a configured output root is.
use mathlib.Core.List.{append-nil, reverse, reverse-reverse}
use openapi_to.Common.{
  some, sym, nat_equality, false, subst, ◌>>=◌, join, to_lower_case, map, ap, ◌∙◌, split_all, refl,
  walk_segments, >>=-eq-ok, ◌++◌, if◌then◌else◌, resolve_path, ok, IsSegment, text_eq_iff, All, ◌∷◌,
  Option, [], text, List, relative_segments, Text, ◌≡◌,
}
use openapi_to.Artifacts.Below.{empty_outside}
use openapi_to.Common.{ok_value}
use openapi_to.OutputRoot.{
  is_blank, empty_dir, string_of, fields_of, property, base_of, or_throw, Diagnostic, is_object,
  check_segments, segment_reason, is_windows_absolute, is_outside, throw_if, protected_segments,
  state_directory_name, managed, Json, OutputBase, ResolvedOutputRoot, protected_output_path,
  resolve_configured_output_root, resolve_below_workspace, portable_relative_directory,
  portable_directory, workspace_relative,
}
use openapi_to.OutputRoot.Segments.{walk_segments-down, IsNormal, names_of}
use openapi_to.OutputRoot.Portable.{directory_IsNormal}
use openapi_to.OutputRoot.Protection.{
  protected-IsPlaced, protected-IsUnprotected, throw_if-then, IsUnprotected, IsPlaced,
}
use openapi_to.OutputRoot.Normalization.{state_join-IsNormal, normal-names, normal-IsDown}

-- An output root below the root of the workspace: names, of which none is protected, and which start
-- with the state root exactly for a managed output.
pub record IsContained (root : List Text) (r : ResolvedOutputRoot) : Type 0 where
  pub first : Text
  pub rest : List Text
  pub are_names : All IsSegment (first ∷ rest)
  pub absolute : r.absolute_path ≡ root ++ first ∷ rest
  pub relative : names_of (split_all r.workspace_relative_path) ≡ first ∷ rest
  pub unprotected : IsUnprotected (first ∷ rest)
  pub placed : IsPlaced r.base first rest

relative_segments_self : (root : List Text) → relative_segments root root ≡ []
unfolding relative_segments
relative_segments_self [] = refl
relative_segments_self (s ∷ ss) =
    rw ((text_eq_iff s s).1 refl, if◌then◌else◌) (relative_segments_self ss)

contained :
    (root names tail absolute : List Text) (path : Text) (base : OutputBase) (target : Option Text)
    (u : Unit {0})
    → All IsSegment names
    → names_of (split_all path) ≡ names
    → split_all path ≡ names ++ tail
    → (base ≡ managed → (rest : List Text) × (names ≡ state_directory_name ∷ rest))
    → protected_segments path (map to_lower_case (split_all path)) base target ≡ ok u
    → is_outside (join (text "/") (relative_segments root absolute)) ≡ false
    → absolute ≡ root ++ names
    → IsContained root
        (record { absolute_path = absolute; workspace_relative_path = path; base = base })
contained root [] tail absolute path base target u segs names reads m pass inside walked = absurd (
    empty_outside (
      sym (ap (λ s. is_outside (join (text "/") s)) (relative_segments_self root))
      ∙ sym (
          ap (λ s. is_outside (join (text "/") (relative_segments root s)))
            (walked ∙ append-nil root))
      ∙ inside))
contained root (n ∷ ns) tail absolute path base target u segs names reads m pass inside walked =
    let passed =
      ap (λ s. protected_segments path (map to_lower_case s) base target) (sym reads) ∙ pass in
    record {
      first = n;
      rest = ns;
      are_names = segs;
      absolute = walked;
      relative = names;
      unprotected = protected-IsUnprotected path (n ∷ ns) tail base target u passed;
      placed = protected-IsPlaced path n ns tail base target u (λ e. cc (m e).1) passed;
    }

workspace_relative-IsNormal :
    (base : OutputBase) (dir : Text)
    → IsNormal dir
    → (n : IsNormal (workspace_relative base dir)) × (base ≡ managed
        → (rest : List Text) × (n.names ≡ state_directory_name ∷ rest))
unfolding workspace_relative
workspace_relative-IsNormal managed dir n =
    let (joined, e) = state_join-IsNormal dir n in (joined, λ _. (n.names, e))
workspace_relative-IsNormal openapi_to.OutputRoot.workspace dir n = (n, λ e. cc e)

-- The names of a path are those of a contained root.
below_workspace :
    (root : List Text) (base : OutputBase) (dir : Text) (target : Option Text)
    (r : ResolvedOutputRoot) (n : IsNormal (workspace_relative base dir))
    → (base ≡ managed → (rest : List Text) × (n.names ≡ state_directory_name ∷ rest))
    → resolve_below_workspace root base dir target ≡ ok r
    → (base ≡ r.base) × IsContained root r
unfolding resolve_below_workspace protected_output_path
below_workspace root base dir target r n m h =
    let path = workspace_relative base dir in
    let absolute = walk_segments (reverse root) (split_all path) in
    let walked : absolute ≡ root ++ n.names =
      walk_segments-down (reverse root) (split_all path) (normal-IsDown path n)
      ∙ ap (λ s. s ++ names_of (split_all path)) (reverse-reverse root)
      ∙ ap (λ t. root ++ t) (normal-names path n) in
    let passed =
      >>=-eq-ok (protected_segments path (map to_lower_case (split_all path)) base target)
        (λ _. throw_if (is_outside (join (text "/") (relative_segments root absolute))) _ >>= λ _.
          ok (record { absolute_path = absolute; workspace_relative_path = path; base = base }))
        h in
    let inside =
      throw_if-then (is_outside (join (text "/") (relative_segments root absolute))) _ _ r
        passed.2 in
    let found = ok_value inside.1 in
    (
      ap (λ q. q.base) found,
      subst (IsContained root) found (
          contained root n.names n.tail absolute path base target passed.0 n.are_names
            (normal-names path n) n.reads m passed.1 inside.0 walked),
    )

module _ (nfkc quote : Text → Text) (dot : nfkc (text ".") ≡ text ".")
    (dots : nfkc (text "..") ≡ text "..") (nothing : nfkc [] ≡ [])
    (something : (t : Text) → nfkc t ≡ [] → t ≡ []) where
  -- If NFKC leaves `.`, `..` and the empty text as they are and makes no other text empty, and
  -- `resolveConfiguredOutputRoot` succeeds, it gives the base that `output.base` asks for, managed when
  -- that is missing, and a path that is the root of the workspace and at least one name below it. These
  -- names are those of the path relative to the workspace: none is empty, `.`, `..` or has a slash; none
  -- is, in lower case, `.git` or `node_modules` or starts with `.openapi-to-`; for a managed output the
  -- first is `.openapi-to` and the second, if there is one, holds no control state; for a workspace
  -- output the first, in lower case, is not `.openapi-to`.
  pub resolve_configured_output_root-IsContained :
      (cwd : List Text) (workspace_root : Text) (output : Json) (target : Option Text)
      (r : ResolvedOutputRoot)
      → resolve_configured_output_root nfkc quote cwd workspace_root output target ≡ ok r
      → (base_of (property (text "base") (fields_of output)) ≡ some r.base)
        × IsContained (resolve_path cwd workspace_root) r
  unfolding resolve_configured_output_root
  resolve_configured_output_root-IsContained cwd workspace_root output target r h =
      let passed =
        >>=-eq-ok (portable_relative_directory nfkc quote output target)
          (λ configured.
            resolve_below_workspace (resolve_path cwd workspace_root) configured.0 configured.1
              target)
          h in
      let (given, dir) =
        directory_IsNormal nfkc quote dot dots nothing something output target passed.0 passed.1 in
      let (n, state) = workspace_relative-IsNormal passed.0.0 passed.0.1 dir in
      let (same, inside) =
        below_workspace (resolve_path cwd workspace_root) passed.0.0 passed.0.1 target r n state
          passed.2 in
      (given ∙ ap some same, inside)
