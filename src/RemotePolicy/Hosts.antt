-- ===== src/RemotePolicy/Hosts.antt =====
-- The hosts that the intersection of two patterns, and of two lists of patterns, lets through.
use openapi_to.Common.{
  text_equality, Text, Bool, true, false, ◌&&◌, Option, none, some, [], ◌∷◌, length, text_eq,
  text_eq_iff, ltb, if◌then◌else◌, ◌≡◌, refl, sym, ap, ◌≤◌, subst, arith, Bool-cases, inl, inr, ◌⊎◌,
}
use openapi_to.RemotePolicy.{
  ends_with, wildcard_suffix, host_matches_pattern, intersect_suffixes, intersect_host_pattern,
  is_none,
}

ends_with_self : (s : Text) → ends_with s s ≡ true
unfolding ends_with text_eq
ends_with_self [] = refl
ends_with_self (c ∷ cs) = ground (arith, text_eq_iff (c ∷ cs) (c ∷ cs))

ends_with-length : (p s : Text) → ends_with p s ≡ true → length p ≤ length s
unfolding ends_with
ends_with-length p [] h = subst (λ q. length p ≤ length q) ((text_eq_iff p []).0 h) (omega arith)
ends_with-length p (c ∷ cs) h = elim (Bool-cases (text_eq p (c ∷ cs))) [
  | inl same ↦ subst (λ q. length p ≤ length q) ((text_eq_iff p (c ∷ cs)).0 same) (omega arith)
  | inr other ↦ ground (arith, ends_with-length p cs)
]

ends_with_trans :
    (p q s : Text) → ends_with p q ≡ true → ends_with q s ≡ true → ends_with p s ≡ true
unfolding ends_with
ends_with_trans p q [] h k = subst (λ r. ends_with p r ≡ true) ((text_eq_iff q []).0 k) h
ends_with_trans p q (c ∷ cs) h k = elim (Bool-cases (text_eq q (c ∷ cs))) [
  | inl same ↦ subst (λ r. ends_with p r ≡ true) ((text_eq_iff q (c ∷ cs)).0 same) h
  | inr other ↦ ground (arith, ends_with_trans p q cs h)
]

-- Two suffixes of one text: one is a suffix of the other.
ends_with_linear :
    (p q s : Text)
    → ends_with p s ≡ true
    → ends_with q s ≡ true
    → (ends_with p q ≡ true) ⊎ (ends_with q p ≡ true)
unfolding ends_with
ends_with_linear p q [] h k =
    inl (subst (λ r. ends_with p r ≡ true) (sym ((text_eq_iff q []).0 k)) h)
ends_with_linear p q (c ∷ cs) h k = elim (Bool-cases (text_eq p (c ∷ cs))) [
  | inl same ↦ inr (subst (λ r. ends_with q r ≡ true) (sym ((text_eq_iff p (c ∷ cs)).0 same)) k)
  | inr other ↦ elim (Bool-cases (text_eq q (c ∷ cs))) [
    | inl same ↦ inl (subst (λ r. ends_with p r ≡ true) (sym ((text_eq_iff q (c ∷ cs)).0 same)) h)
    | inr short ↦ ends_with_linear p q cs (ground arith) (ground arith)
  ]
]

-- A pattern that may be missing.
abbrev pub matches_some : Text → Option Text → Bool
matches_some host none = false
matches_some host (some p) = host_matches_pattern host p

matches_plain :
    (host pattern : Text)
    → wildcard_suffix pattern ≡ none
    → host_matches_pattern host pattern ≡ text_eq host pattern
unfolding host_matches_pattern
matches_plain host pattern h = rw (h, host_matches_pattern) refl

matches_wildcard :
    (host pattern suffix : Text)
    → wildcard_suffix pattern ≡ some suffix
    → host_matches_pattern host pattern
      ≡ (ends_with suffix host && ltb (length suffix) (length host))
unfolding host_matches_pattern
matches_wildcard host pattern suffix h = rw (h, host_matches_pattern) refl

-- What the branches compute.
intersect_by :
    (left right : Text) (l r : Option Text)
    → wildcard_suffix left ≡ l
    → wildcard_suffix right ≡ r
    → intersect_host_pattern left right ≡ (
        if text_eq left right
        then some left
        else if is_none l && host_matches_pattern left right
        then some left
        else if is_none r && host_matches_pattern right left
        then some right
        else intersect_suffixes left right l r)
unfolding intersect_host_pattern
intersect_by left right l r hl hr = rw hl (rw hr refl)

different :
    (left right suffix : Text)
    → wildcard_suffix left ≡ none
    → wildcard_suffix right ≡ some suffix
    → text_eq left right ≡ false
different left right suffix hl hr = elim (Bool-cases (text_eq left right)) [
  | inl same ↦
      let e : wildcard_suffix left ≡ wildcard_suffix right =
        ap wildcard_suffix ((text_eq_iff left right).0 same) in
      cc
  | inr other ↦ other
]

-- A concrete host matches what the equal host matches.
same_matches :
    (host left right : Text)
    → text_eq host left ≡ true
    → host_matches_pattern host right ≡ host_matches_pattern left right
same_matches host left right h =
    ap (λ t. host_matches_pattern t right) ((text_eq_iff host left).0 h)

text_eq_comm : (s t : Text) → text_eq s t ≡ text_eq t s
text_eq_comm s t = ground (arith, text_eq_iff s t, text_eq_iff t s)

-- Two suffixes, of which one is a suffix of the other or none is.
suffixes_meet :
    (host left right l r : Text)
    → host_matches_pattern host left ≡ (ends_with l host && ltb (length l) (length host))
    → host_matches_pattern host right ≡ (ends_with r host && ltb (length r) (length host))
    → matches_some host (intersect_suffixes left right (some l) (some r))
      ≡ (host_matches_pattern host left && host_matches_pattern host right)
unfolding intersect_suffixes
suffixes_meet host left right l r hl hr = elim (Bool-cases (ends_with r l)) [
  | inl inner ↦ ground (arith, hl, hr, ends_with_trans r l host inner, ends_with-length r l inner)
  | inr outer ↦ elim (Bool-cases (ends_with l r)) [
    | inl inner ↦ ground (arith, hl, hr, ends_with_trans l r host inner, ends_with-length l r inner)
    | inr apart ↦ elim (Bool-cases (ends_with l host && ends_with r host)) [
      | inl both ↦ elim (ends_with_linear l r host (ground arith) (ground arith)) [
        | inl x ↦ ground arith
        | inr x ↦ ground arith
      ]
      | inr one ↦ ground (arith, hl, hr)
    ]
  ]
]

intersect_cases :
    (host left right : Text) (l r : Option Text)
    → wildcard_suffix left ≡ l
    → wildcard_suffix right ≡ r
    → matches_some host (intersect_host_pattern left right)
      ≡ (host_matches_pattern host left && host_matches_pattern host right)
unfolding intersect_suffixes
intersect_cases host left right none none hl hr = rw (intersect_by left right none none hl hr) (
    ground (
      arith,
      matches_plain host left hl,
      matches_plain host right hr,
      matches_plain left right hr,
      matches_plain right left hl,
      text_eq_iff left right,
      text_eq_iff right left,
      text_eq_iff host left,
      text_eq_iff host right,
    ))
intersect_cases host left right none (some r) hl hr =
    rw (intersect_by left right none (some r) hl hr) (
      ground (
        arith,
        different left right r hl hr,
        matches_plain host left hl,
        same_matches host left right,
      ))
intersect_cases host left right (some l) none hl hr =
    rw (intersect_by left right (some l) none hl hr) (
      ground (
        arith,
        different right left l hr hl,
        text_eq_comm left right,
        matches_plain host right hr,
        same_matches host right left,
      ))
intersect_cases host left right (some l) (some r) hl hr =
    rw (intersect_by left right (some l) (some r) hl hr) (elim (Bool-cases (text_eq left right)) [
      | inl same ↦ ground (arith, ap (host_matches_pattern host) ((text_eq_iff left right).0 same))
      | inr other ↦
          rw (other, if◌then◌else◌)
            (suffixes_meet host left right l r (matches_wildcard host left l hl)
              (matches_wildcard host right r hr))
    ])

-- A host matches the intersection of two patterns exactly when it matches both.
pub matches-intersect_host_pattern :
    (host left right : Text)
    → matches_some host (intersect_host_pattern left right)
      ≡ (host_matches_pattern host left && host_matches_pattern host right)
matches-intersect_host_pattern host left right =
    intersect_cases host left right (wildcard_suffix left) (wildcard_suffix right) refl refl
