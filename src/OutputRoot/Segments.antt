-- ===== src/OutputRoot/Segments.antt =====
-- The segments of a normalised relative path that does not go up.
use mathlib.Core.List.{reverse, reverse-append, append-nil, append_assoc}
use openapi_to.Common.{
  split_all-append, All-imp, HasNoSlash, split_all-join, ◌∙◌, ◌≡◌, ◌≢◌, refl, Bool, true, false,
  ◌||◌, not, List, [], ◌∷◌, ◌++◌, Text, text, text_eq, text_equality, nat_equality, contains,
  filter, All, IsSegment, split_all, join, walk_segments, enter_segment, Bool-cases, arith, inl,
  inr, if◌then◌else◌, sym, ap,
}
use openapi_to.Common.{slash_if, enter_relative, relative_walk}

-- A segment that a walk passes over.
abbrev pub is_skipped : Text → Bool
is_skipped s = text_eq s [] || text_eq s (text ".")

-- Neither `..` nor with a slash: a name, or nothing.
abbrev pub IsDown : Text → Type 0
IsDown s = (text_eq s (text "..") ≡ false) × (contains s b'/' ≡ false)

-- The segments that stay.
abbrev pub names_of : List Text → List Text
names_of = filter (λ s. not (is_skipped s))

pub names_of-IsSegment : (ss : List Text) → All IsDown ss → All IsSegment (names_of ss)
unfolding filter
names_of-IsSegment [] h = tt
names_of-IsSegment (s ∷ ss) h = elim (Bool-cases (is_skipped s)) [
  | inl skip ↦ rw (skip, filter) (names_of-IsSegment ss h.1)
  | inr name ↦
      rw (name, filter) ((ground arith, ground arith, h.0.0, h.0.1), names_of-IsSegment ss h.1)
]

pub append_cons-ne_nil : (xs : List Text) (x : Text) → xs ++ x ∷ [] ≢ []
append_cons-ne_nil [] x e = cc e
append_cons-ne_nil (y ∷ xs) x e = cc e

pub reverse-cons : (x : Text) (xs : List Text) → reverse (x ∷ xs) ≡ reverse xs ++ x ∷ []
reverse-cons x xs = reverse-append (x ∷ []) xs

append-cons : (xs ys : List Text) (x : Text) → (xs ++ x ∷ []) ++ ys ≡ xs ++ x ∷ ys
append-cons [] ys x = refl
append-cons (z ∷ xs) ys x = ap (λ t. z ∷ t) (append-cons xs ys x)

pub names_of-skip :
    (s : Text) (ss : List Text) → is_skipped s ≡ true → names_of (s ∷ ss) ≡ names_of ss
unfolding filter
names_of-skip s ss h = rw h refl

pub names_of-name :
    (s : Text) (ss : List Text) → is_skipped s ≡ false → names_of (s ∷ ss) ≡ s ∷ names_of ss
unfolding filter
names_of-name s ss h = rw h refl

-- A walk that passes over what is skipped and takes the rest puts the names behind what is there.
module _ (enter : List Text → Text → List Text) (walk : List Text → List Text → List Text)
    (walk_nil : (above : List Text) → walk above [] ≡ reverse above)
    (walk_cons : (above : List Text) (s : Text) (ss : List Text)
      → walk above (s ∷ ss) ≡ walk (enter above s) ss)
    (step : (above : List Text) (s : Text)
      → IsDown s
      → enter above s ≡ (if is_skipped s then above else s ∷ above)) where
  walk_down : (above ss : List Text) → All IsDown ss → walk above ss ≡ reverse above ++ names_of ss
  unfolding filter
  walk_down above [] h = walk_nil above ∙ sym (append-nil (reverse above))
  walk_down above (s ∷ ss) h = elim (Bool-cases (is_skipped s)) [
    | inl skip ↦
        let entered : enter above s ≡ above =
          step above s h.0 ∙ ap (λ b. if b then above else s ∷ above) skip in
        walk_cons above s ss
        ∙ ap (λ a. walk a ss) entered
        ∙ walk_down above ss h.1
        ∙ ap (λ n. reverse above ++ n) (sym (names_of-skip s ss skip))
    | inr name ↦
        let entered : enter above s ≡ s ∷ above =
          step above s h.0 ∙ ap (λ b. if b then above else s ∷ above) name in
        walk_cons above s ss
        ∙ ap (λ a. walk a ss) entered
        ∙ walk_down (s ∷ above) ss h.1
        ∙ ap (λ r. r ++ names_of ss) (reverse-cons s above)
        ∙ append-cons (reverse above) (names_of ss) s
        ∙ ap (λ n. reverse above ++ n) (sym (names_of-name s ss name))
  ]

enter_segment-down :
    (above : List Text) (s : Text)
    → IsDown s
    → enter_segment above s ≡ (if is_skipped s then above else s ∷ above)
unfolding enter_segment
enter_segment-down above s h = rw h.0 refl

enter_relative-down :
    (above : List Text) (s : Text)
    → IsDown s
    → enter_relative above s ≡ (if is_skipped s then above else s ∷ above)
unfolding enter_relative
enter_relative-down above s h = rw h.0 refl

pub walk_segments-down :
    (above ss : List Text) → All IsDown ss → walk_segments above ss ≡ reverse above ++ names_of ss
unfolding walk_segments
walk_segments-down =
    walk_down enter_segment walk_segments (λ a. refl) (λ a s ss. refl) enter_segment-down

pub relative_walk-down :
    (above ss : List Text) → All IsDown ss → relative_walk above ss ≡ reverse above ++ names_of ss
unfolding relative_walk
relative_walk-down =
    walk_down enter_relative relative_walk (λ a. refl) (λ a s ss. refl) enter_relative-down

-- A normal relative path: names, then what a slash at the end leaves.
pub record IsNormal (t : Text) : Type 0 where
  pub names : List Text
  pub tail : List Text
  pub are_names : All IsSegment names
  pub tail_down : All IsDown tail
  pub tail_skipped : names_of tail ≡ []
  pub reads : split_all t ≡ names ++ tail

split_all-join_rest :
    (s : Text) (ss : List Text) (rest : Text)
    → All HasNoSlash (s ∷ ss)
    → split_all (join (text "/") (s ∷ ss) ++ b'/' ∷ rest) ≡ (s ∷ ss) ++ split_all rest
unfolding join text
split_all-join_rest s [] rest h = split_all-append s rest h.0
split_all-join_rest s (t ∷ ss) rest h =
    ap split_all (append_assoc s (text "/" ++ join (text "/") (t ∷ ss)) (b'/' ∷ rest))
    ∙ split_all-append s (join (text "/") (t ∷ ss) ++ b'/' ∷ rest) h.0
    ∙ ap (λ r. s ∷ r) (split_all-join_rest t ss rest h.1)

no_slashes : (ss : List Text) → All IsSegment ss → All HasNoSlash ss
no_slashes ss h = All-imp IsSegment HasNoSlash ss (λ s k. k.3) h

pub IsNormal-of_names :
    (s : Text) (ss : List Text) (slash : Bool)
    → All IsSegment (s ∷ ss)
    → (normal : IsNormal (join (text "/") (s ∷ ss) ++ slash_if slash)) × (normal.names ≡ s ∷ ss)
unfolding split_all text filter contains text_eq
IsNormal-of_names s ss false h = (
  record {
    names = s ∷ ss;
    tail = [];
    are_names = h;
    tail_down = tt;
    tail_skipped = refl;
    reads =
        ap split_all (append-nil (join (text "/") (s ∷ ss)))
        ∙ split_all-join s ss (no_slashes (s ∷ ss) h)
        ∙ sym (append-nil (s ∷ ss));
  },
  refl,
)
IsNormal-of_names s ss true h = (
  record {
    names = s ∷ ss;
    tail = [] ∷ [];
    are_names = h;
    tail_down = ((refl, refl), tt);
    tail_skipped = refl;
    reads = split_all-join_rest s ss [] (no_slashes (s ∷ ss) h);
  },
  refl,
)
