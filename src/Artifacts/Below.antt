-- ===== src/Artifacts/Below.antt =====
-- The result of `normalizeArtifactPath`, read as a path below the output root.
use openapi_to.Common.{
  starts_with-nil, ◌∙◌, ◌≡◌, ◌≢◌, refl, true, false, List, [], ◌∷◌, ◌++◌, Text, text, text_eq,
  text_equality, All, IsSegment, relative_segments, relative_segments-cases, join, absolute_text,
  inl, inr, subst, sym, ap, starts_with,
}
use openapi_to.Artifacts.{is_outside}

-- A path below the root: its segments are names, not `.` or `..`.
pub record IsBelow (root : List Text) (path relative : Text) : Type 0 where
  pub first : Text
  pub rest : List Text
  pub names : All IsSegment (first ∷ rest)
  pub absolute : path ≡ absolute_text (root ++ first ∷ rest)
  pub joined : relative ≡ join (text "/") (first ∷ rest)

outside_up : (rest : List Text) → is_outside (join (text "/") (text ".." ∷ rest)) ≡ true
unfolding is_outside join text text_eq starts_with
outside_up [] = refl
outside_up (t ∷ ts) = starts_with-nil (join (text "/") (t ∷ ts))

pub empty_outside : ¬ (is_outside (join (text "/") []) ≡ false)
unfolding is_outside join text_eq
empty_outside h = cc h

All-suffix : (xs ys : List Text) → All IsSegment (xs ++ ys) → All IsSegment ys
All-suffix [] ys h = h
All-suffix (x ∷ xs) ys h = All-suffix xs ys h.1

pub IsBelow-of :
    (root absolute : List Text)
    → All IsSegment absolute
    → is_outside (join (text "/") (relative_segments root absolute)) ≡ false
    → IsBelow root (absolute_text absolute) (join (text "/") (relative_segments root absolute))
IsBelow-of root absolute h inside = elim (relative_segments-cases root absolute) [
  | inr (rest, e) ↦ cc (outside_up rest, ap (λ r. is_outside (join (text "/") r)) e, inside)
  | inl e ↦ of_segments (relative_segments root absolute) e inside
]
  where
    of_segments :
        (r : List Text)
        → absolute ≡ root ++ r
        → is_outside (join (text "/") r) ≡ false
        → IsBelow root (absolute_text absolute) (join (text "/") r)
    of_segments [] e i = absurd (empty_outside i)
    of_segments (s ∷ ss) e i = record {
      first = s;
      rest = ss;
      names = All-suffix root (s ∷ ss) (subst (All IsSegment) e h);
      absolute = ap absolute_text e;
      joined = refl;
    }

join-ne_nil : (s : Text) (ss : List Text) → text_eq s [] ≡ false → join (text "/") (s ∷ ss) ≢ []
unfolding join text text_eq
join-ne_nil [] ss h e = cc h
join-ne_nil (c ∷ cs) [] h e = cc e
join-ne_nil (c ∷ cs) (t ∷ ts) h e = cc e

pub relative_ne_nil :
    (root : List Text) (path relative : Text) → IsBelow root path relative → relative ≢ []
relative_ne_nil root path relative b e = join-ne_nil b.first b.rest b.names.0.0 (sym b.joined ∙ e)
