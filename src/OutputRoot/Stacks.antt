-- ===== src/OutputRoot/Stacks.antt =====
-- What a walk over a relative path leaves: names, below which there may be some `..`.
use mathlib.Core.List.{reverse, reverse-append}
use openapi_to.Common.{
  HasNoSlash, ◌∙◌, ◌≡◌, refl, true, false, List, [], ◌∷◌, ◌++◌, Text, text, text_eq, text_eq_iff,
  text_equality, nat_equality, contains, All, All-append, IsSegment, Bool-cases, arith, inl, inr,
  sym, ap, subst,
}
use openapi_to.Common.{go_up, enter_relative, relative_walk}
use openapi_to.OutputRoot.Segments.{is_skipped, append_cons-ne_nil, reverse-cons}

-- What a walk from the start gives: names behind some `..`, in reverse.
abbrev pub IsUp : Text → Type 0
IsUp s = text_eq s (text "..") ≡ true

pub dots : IsUp (text "..")
dots = (text_eq_iff (text "..") (text "..")).1 refl

pub record IsStack (above : List Text) : Type 0 where
  pub names : List Text
  pub ups : List Text
  pub parts : above ≡ names ++ ups
  pub are_names : All IsSegment names
  pub are_ups : All IsUp ups

go_up-IsStack :
    (names ups : List Text) → All IsSegment names → All IsUp ups → IsStack (go_up (names ++ ups))
unfolding go_up
go_up-IsStack [] [] h k = record {
  names = [];
  ups = text ".." ∷ [];
  parts = refl;
  are_names = tt;
  are_ups = (dots, tt);
}
go_up-IsStack [] (u ∷ us) h k =
    rw (k.0, go_up)
      (record {
        names = [];
        ups = text ".." ∷ u ∷ us;
        parts = refl;
        are_names = tt;
        are_ups = (dots, k);
      })
go_up-IsStack (n ∷ ns) us h k =
    rw (h.0.2, go_up) (record { names = ns; ups = us; parts = refl; are_names = h.1; are_ups = k })

enter_relative-IsStack :
    (above : List Text) (s : Text)
    → contains s b'/' ≡ false
    → IsStack above
    → IsStack (enter_relative above s)
unfolding enter_relative
enter_relative-IsStack above s h k = elim (Bool-cases (is_skipped s)) [
  | inl skip ↦ rw (skip, enter_relative) k
  | inr go ↦ elim (Bool-cases (text_eq s (text ".."))) [
    | inr name ↦
        rw (go, enter_relative)
          (rw name (record {
            names = s ∷ k.names;
            ups = k.ups;
            parts = ap (λ t. s ∷ t) k.parts;
            are_names = ((ground arith, ground arith, name, h), k.are_names);
            are_ups = k.are_ups;
          }))
    | inl up ↦
        rw (go, enter_relative)
          (rw up (
            subst (λ a. IsStack (go_up a)) (sym k.parts)
              (go_up-IsStack k.names k.ups k.are_names k.are_ups)))
  ]
]

pub relative_walk-IsStack :
    (above ss : List Text)
    → All HasNoSlash ss
    → IsStack above
    → (last : List Text) × IsStack last × (relative_walk above ss ≡ reverse last)
unfolding relative_walk
relative_walk-IsStack above [] h k = (above, k, refl)
relative_walk-IsStack above (s ∷ ss) h k =
    relative_walk-IsStack (enter_relative above s) ss h.1 (enter_relative-IsStack above s h.0 k)

pub All-reversed : (P : Text → Type 0) (xs : List Text) → All P xs → All P (reverse xs)
All-reversed P [] h = tt
All-reversed P (x ∷ xs) h =
    subst (All P) (sym (reverse-cons x xs))
      (All-append P (reverse xs) (x ∷ []) (All-reversed P xs h.1) (h.0, tt))

-- A stack with `..` at the bottom is read from a `..`.
pub starts_up :
    (u : Text) (us names : List Text)
    → All IsUp (u ∷ us)
    → (rest : List Text) × (reverse (names ++ u ∷ us) ≡ text ".." ∷ rest)
starts_up u us names h = first_of (reverse (u ∷ us)) (All-reversed IsUp (u ∷ us) h) refl
  where
    first_of :
        (r : List Text)
        → All IsUp r
        → reverse (u ∷ us) ≡ r
        → (rest : List Text) × (reverse (names ++ u ∷ us) ≡ text ".." ∷ rest)
    first_of [] k e = absurd (append_cons-ne_nil (reverse us) u (sym (reverse-cons u us) ∙ e))
    first_of (f ∷ fs) k e = (
      fs ++ reverse names,
      reverse-append names (u ∷ us)
          ∙ ap (λ t. t ++ reverse names) e
          ∙ ap (λ t. t ∷ (fs ++ reverse names)) ((text_eq_iff f (text "..")).0 k.0),
    )
