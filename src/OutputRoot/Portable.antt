-- ===== src/OutputRoot/Portable.antt =====
-- The tests of `portableRelativeDirectory`: what it gives back is a normal path that goes down.
use openapi_to.Common.{
  true, err, some, Result, Bool, not, inr, inl, arith, none, Bool-cases, ◌≢◌, sym, nat_eq,
  starts_with, nat_equality, replace_unit, is_absolute, ◌||◌, text_eq, false, subst, contains,
  ◌>>=◌, join, map, ap, ◌∙◌, split_all, refl, >>=-eq-ok, if◌then◌else◌, ok, text_eq_iff, ◌∷◌,
  Option, [], text, List, Text, ℕ, ◌≡◌,
}
use openapi_to.Common.{starts_with-nil, ok_value}
use openapi_to.Diagnostics.{Diagnostic}
use openapi_to.OutputRoot.{
  or_throw, is_blank, empty_dir, string_of, fields_of, property, base_of, Diagnostic, is_object,
  check_segments, segment_reason, is_windows_absolute, throw_if, Json, OutputBase,
  portable_relative_directory, portable_directory,
}
use openapi_to.Common.{posix_normalize}
use openapi_to.OutputRoot.Segments.{IsNormal}
use openapi_to.OutputRoot.Protection.{throw_if-then}
use openapi_to.OutputRoot.Normalization.{posix_normalize-IsNormal}

segment_reason-no_slash : (t : Text) → segment_reason t ≡ none → contains t b'/' ≡ false
unfolding segment_reason
segment_reason-no_slash t h = ground arith

split_all-first :
    (c : ℕ) (cs : Text)
    → nat_eq c b'/' ≡ false
    → (s : Text) × (ss : List Text) × (split_all (c ∷ cs) ≡ (c ∷ s) ∷ ss)
unfolding split_all
split_all-first c cs h =
    rw (h, split_all)
      (elim (split_all cs)
        as (λ parts.
          (s : Text) × (ss : List Text) × (elim parts [
            | [] ↦ (c ∷ []) ∷ []
            | part ∷ more ↦ (c ∷ part) ∷ more
          ]
            ≡ (c ∷ s) ∷ ss)) [ [] ↦ ([], [], refl) | part ∷ more ↦ (part, more, refl) ])

no_reason :
    (skip : Bool) (reason : Option Text) (next : Result Diagnostic (Unit {0}))
    (refusal : Text → Diagnostic) (u : Unit {0})
    → skip ≡ false
    → elim (if skip then none else reason) [ none ↦ next | some r ↦ err (refusal r) ] ≡ ok u
    → reason ≡ none
no_reason true reason next refusal u e h = cc e
no_reason false none next refusal u e h = refl
no_reason false (some r) next refusal u e h = cc h

or_throw-eq-ok :
    {A : Type 0} (o : Option A) (d : Diagnostic) (x : A) → or_throw o d ≡ ok x → o ≡ some x
or_throw-eq-ok none d x h = cc h
or_throw-eq-ok (some y) d x h = ap some (ok_value h)

-- The tests of `portableRelativeDirectory` keep out the root of the base and what is above it.
module _ (nfkc quote : Text → Text) (dot : nfkc (text ".") ≡ text ".")
    (dots : nfkc (text "..") ≡ text "..") (nothing : nfkc [] ≡ [])
    (something : (t : Text) → nfkc t ≡ [] → t ≡ []) where
  check_segments-no_slash :
      (s : Text) (ss : List Text) (target : Option Text) (u : Unit {0})
      → check_segments nfkc quote (s ∷ ss) target ≡ ok u
      → contains (nfkc s) b'/' ≡ false
  unfolding check_segments contains text
  check_segments-no_slash s ss target u h =
      elim (Bool-cases (text_eq s (text ".") || text_eq s (text ".."))) [
        | inl skip ↦ elim (Bool-cases (text_eq s (text "."))) [
          | inl e ↦
              ap (λ t. contains (nfkc t) b'/') ((text_eq_iff s (text ".")).0 e)
              ∙ ap (λ t. contains t b'/') dot
          | inr e ↦
              ap (λ t. contains (nfkc t) b'/') ((text_eq_iff s (text "..")).0 (ground arith))
              ∙ ap (λ t. contains t b'/') dots
        ]
        | inr named ↦
            segment_reason-no_slash (nfkc s) (no_reason _ (segment_reason (nfkc s)) _ _ u named h)
      ]

  joined_relative :
      (t : Text) (ts : List Text)
      → t ≢ []
      → contains t b'/' ≡ false
      → is_absolute (join (text "/") (t ∷ ts)) ≡ false
  unfolding is_absolute join starts_with text contains
  joined_relative [] ts ne h = absurd (ne refl)
  joined_relative (c ∷ cs) [] ne h = let e : nat_eq b'/' c ≡ false = ground arith in rw e refl
  joined_relative (c ∷ cs) (t ∷ ts) ne h = let e : nat_eq b'/' c ≡ false = ground arith in rw e refl

  portable_relative :
      (portable : Text) (target : Option Text) (u : Unit {0})
      → is_absolute portable ≡ false
      → check_segments nfkc quote (split_all portable) target ≡ ok u
      → is_absolute (join (text "/") (map nfkc (split_all portable))) ≡ false
  unfolding split_all is_absolute join text starts_with text_eq
  portable_relative [] target u h k = rw nothing refl
  portable_relative (c ∷ cs) target u h k =
      let (s, ss, e) = split_all-first c cs (ground (arith, starts_with-nil cs)) in
      ap (λ l. is_absolute (join (text "/") (map nfkc l))) e
      ∙ joined_relative (nfkc (c ∷ s)) (map nfkc ss) (λ z. cc (something (c ∷ s) z))
          (check_segments-no_slash (c ∷ s) ss target u
            (ap (λ l. check_segments nfkc quote l target) (sym e) ∙ k))

  portable_directory-IsNormal :
      (raw : Text) (target : Option Text) (dir : Text)
      → portable_directory nfkc quote raw target ≡ ok dir
      → IsNormal dir
  unfolding portable_directory
  portable_directory-IsNormal raw target dir h =
      let inner =
        throw_if-then
          (contains raw 0
            || (is_absolute (replace_unit b'\\' (text "/") raw) || is_windows_absolute raw))
          _ _ dir h in
      let portable = replace_unit b'\\' (text "/") raw in
      let normalized = posix_normalize (join (text "/") (map nfkc (split_all portable))) in
      let checked =
        >>=-eq-ok (check_segments nfkc quote (split_all portable) target)
          (λ _. throw_if (text_eq normalized (text ".")) _ >>= λ _.
            throw_if (text_eq normalized (text "..") || starts_with (text "../") normalized) _
            >>= λ _. ok normalized)
          inner.1 in
      let no_dot = throw_if-then (text_eq normalized (text ".")) _ _ dir checked.2 in
      let no_up =
        throw_if-then (text_eq normalized (text "..") || starts_with (text "../") normalized) _ _
          dir no_dot.1 in
      subst IsNormal (ok_value no_up.1) (
        posix_normalize-IsNormal (join (text "/") (map nfkc (split_all portable)))
          (portable_relative portable target checked.0 (ground arith) checked.1)
          (no_dot.0, ground arith, ground arith))

  pub directory_IsNormal :
      (output : Json) (target : Option Text) (found : OutputBase × Text)
      → portable_relative_directory nfkc quote output target ≡ ok found
      → (base_of (property (text "base") (fields_of output)) ≡ some found.0) × IsNormal found.1
  unfolding portable_relative_directory
  directory_IsNormal output target found h =
      let p1 = throw_if-then (not (is_object output)) _ _ found h in
      let p2 =
        >>=-eq-ok (or_throw (base_of (property (text "base") (fields_of output))) _)
          (λ base.
            or_throw (string_of (property (text "dir") (fields_of output))) (empty_dir target)
            >>= λ dir. throw_if (is_blank dir) (empty_dir target) >>= λ _.
                portable_directory nfkc quote dir target >>= λ normalized. ok (base, normalized))
          p1.1 in
      let p3 =
        >>=-eq-ok
          (or_throw (string_of (property (text "dir") (fields_of output))) (empty_dir target))
          (λ dir. throw_if (is_blank dir) (empty_dir target) >>= λ _.
            portable_directory nfkc quote dir target >>= λ normalized. ok (p2.0, normalized))
          p2.2 in
      let p4 = throw_if-then (is_blank p3.0) (empty_dir target) _ found p3.2 in
      let p5 =
        >>=-eq-ok (portable_directory nfkc quote p3.0 target) (λ normalized. ok (p2.0, normalized))
          p4.1 in
      let given = ok_value p5.2 in
      (
        or_throw-eq-ok (base_of (property (text "base") (fields_of output))) _ p2.0 p2.1
            ∙ ap (λ f. some f.0) given,
        subst IsNormal (ap (λ f. f.1) given) (portable_directory-IsNormal p3.0 target p5.0 p5.1),
      )
