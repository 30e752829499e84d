-- ===== src/Common/Paths.antt =====
-- The calls of `node:path` on a POSIX host. An absolute path is the list of its segments; `cwd` is
-- the working directory.
use mathlib.Core.Path.{◌≡◌, refl, sym, ap, ap₂, subst, ◌∙◌}
use mathlib.Core.Logic.{◌⊎◌, inl, inr}
use mathlib.Core.Bool.{Bool, false, ◌||◌}
use mathlib.Core.List.{List, [], ◌∷◌, ◌++◌, reverse, reverse-append, map}
use Prim.Native.Nat.{ℕ}
use native.Mathlib.Omega.{arith}
use openapi_to.Common.Lists.{contains, All, All-append}
use openapi_to.Common.Tests.{Bool-cases, if◌then◌else◌, nat_eq}
use openapi_to.Common.Strings.{
  Text, text, text_eq, text_eq_iff, split_all, starts_with, nat_equality,
}

-- `ts.join(separator)`
unfoldable pub join : Text → List Text → Text
join separator [] = []
join separator (t ∷ []) = t
join separator (t ∷ u ∷ ts) = t ++ (separator ++ join separator (u ∷ ts))

abbrev drop_one : List Text → List Text
drop_one [] = []
drop_one (_ ∷ rest) = rest

-- One segment behind others, which are in reverse.
unfoldable pub enter_segment : List Text → Text → List Text
enter_segment above s =
    if text_eq s [] || text_eq s (text ".")
    then above
    else if text_eq s (text "..")
    then drop_one above
    else s ∷ above

unfoldable pub walk_segments : List Text → List Text → List Text
unfolding enter_segment
walk_segments above [] = reverse above
walk_segments above (s ∷ ss) = walk_segments (enter_segment above s) ss

-- `path.isAbsolute(p)`
unfoldable pub is_absolute : Text → Bool
is_absolute p = starts_with (text "/") p

-- `path.resolve(path.join(base, p))` and `path.resolve(base, p)` of an absolute base and a relative
-- path.
unfoldable pub resolve_below : List Text → Text → List Text
unfolding walk_segments
resolve_below base p = walk_segments (reverse base) (split_all p)

-- `path.resolve(p)`
unfoldable pub resolve_path : List Text → Text → List Text
unfolding is_absolute resolve_below
resolve_path cwd p = resolve_below (if is_absolute p then [] else cwd) p

-- The text of an absolute path.
unfoldable pub absolute_text : List Text → Text
unfolding join
absolute_text segments = b'/' ∷ join (text "/") segments

-- `path.relative(from, to)`, as segments.
unfoldable pub relative_segments : List Text → List Text → List Text
relative_segments [] to = to
relative_segments (f ∷ fs) [] = map (λ _. text "..") (f ∷ fs)
relative_segments (f ∷ fs) (t ∷ ts) =
    let below = relative_segments fs ts in
    if text_eq f t then below else map (λ _. text "..") (f ∷ fs) ++ t ∷ ts

-- A segment of a normal path.
abbrev pub IsSegment : Text → Type 0
IsSegment s =
    (text_eq s [] ≡ false)
    × (text_eq s (text ".") ≡ false)
    × (text_eq s (text "..") ≡ false)
    × (contains s b'/' ≡ false)

abbrev pub HasNoSlash : Text → Type 0
HasNoSlash s = contains s b'/' ≡ false

first_part :
    (c : ℕ) (parts : List Text)
    → nat_eq c b'/' ≡ false
    → All HasNoSlash parts
    → All HasNoSlash (elim parts [ [] ↦ (c ∷ []) ∷ [] | part ∷ more ↦ (c ∷ part) ∷ more ])
unfolding contains
first_part c [] e h = (rw e refl, tt)
first_part c (part ∷ more) e h = (rw e h.0, h.1)

pub split_all-parts : (t : Text) → All HasNoSlash (split_all t)
unfolding split_all contains
split_all-parts [] = (refl, tt)
split_all-parts (c ∷ cs) = elim (Bool-cases (nat_eq c b'/')) [
  | inl slash ↦ rw (slash, split_all) (refl, split_all-parts cs)
  | inr other ↦ rw (other, split_all) (first_part c (split_all cs) other (split_all-parts cs))
]

tail_IsSegment : (above : List Text) → All IsSegment above → All IsSegment (drop_one above)
tail_IsSegment [] h = tt
tail_IsSegment (s ∷ ss) h = h.1

enter_segment-IsSegment :
    (above : List Text) (s : Text)
    → All IsSegment above
    → HasNoSlash s
    → All IsSegment (enter_segment above s)
unfolding enter_segment
enter_segment-IsSegment above s h k = elim (Bool-cases (text_eq s [] || text_eq s (text "."))) [
  | inl skip ↦ rw skip h
  | inr go ↦ rw go (elim (Bool-cases (text_eq s (text ".."))) [
    | inl up ↦ rw up (tail_IsSegment above h)
    | inr down ↦ rw down ((ground arith, ground arith, down, k), h)
  ])
]

All-reverse : (P : Text → Type 0) (xs : List Text) → All P xs → All P (reverse xs)
All-reverse P [] h = tt
All-reverse P (x ∷ xs) h =
    subst (All P) (sym (reverse-append (x ∷ []) xs))
      (All-append P (reverse xs) (x ∷ []) (All-reverse P xs h.1) (h.0, tt))

walk_segments-IsSegment :
    (above ss : List Text)
    → All IsSegment above
    → All HasNoSlash ss
    → All IsSegment (walk_segments above ss)
unfolding walk_segments
walk_segments-IsSegment above [] h k = All-reverse IsSegment above h
walk_segments-IsSegment above (s ∷ ss) h k =
    walk_segments-IsSegment (enter_segment above s) ss (enter_segment-IsSegment above s h k.0) k.1

-- A resolved path is normal.
pub resolve_below-IsSegment :
    (base : List Text) (p : Text) → All IsSegment base → All IsSegment (resolve_below base p)
unfolding resolve_below
resolve_below-IsSegment base p h =
    walk_segments-IsSegment (reverse base) (split_all p) (All-reverse IsSegment base h)
      (split_all-parts p)

pub resolve_path-IsSegment :
    (cwd : List Text) (p : Text) → All IsSegment cwd → All IsSegment (resolve_path cwd p)
unfolding resolve_path
resolve_path-IsSegment cwd p h = elim (Bool-cases (is_absolute p)) [
  | inl e ↦ rw e (resolve_below-IsSegment [] p tt)
  | inr e ↦ rw e (resolve_below-IsSegment cwd p h)
]

-- A relative path either goes down, or starts with `..`.
pub relative_segments-cases :
    (from to : List Text)
    → (to ≡ from ++ relative_segments from to)
      ⊎ ((rest : List Text) × (relative_segments from to ≡ text ".." ∷ rest))
unfolding relative_segments
relative_segments-cases [] to = inl refl
relative_segments-cases (f ∷ fs) [] = inr (_, refl)
relative_segments-cases (f ∷ fs) (t ∷ ts) = elim (Bool-cases (text_eq f t)) [
  | inr other ↦ inr (map (λ _. text "..") fs ++ t ∷ ts, rw (other, if◌then◌else◌) refl)
  | inl same ↦ elim (relative_segments-cases fs ts) [
    | inl e ↦ inl (rw (same, if◌then◌else◌) (ap₂ ◌∷◌ (sym ((text_eq_iff f t).0 same)) e))
    | inr (rest, e) ↦ inr (rest, rw (same, if◌then◌else◌) e)
  ]
]

pub split_all-append : (s t : Text) → HasNoSlash s → split_all (s ++ b'/' ∷ t) ≡ s ∷ split_all t
unfolding split_all contains
split_all-append [] t h = refl
split_all-append (c ∷ cs) t h =
    let e : nat_eq c b'/' ≡ false = ground arith in
    rw (e, split_all) (rw (split_all-append cs t (ground arith)) refl)

split_all-plain : (s : Text) → HasNoSlash s → split_all s ≡ s ∷ []
unfolding split_all contains
split_all-plain [] h = refl
split_all-plain (c ∷ cs) h =
    let e : nat_eq c b'/' ≡ false = ground arith in
    rw (e, split_all) (rw (split_all-plain cs (ground arith)) refl)

-- The segments of a path are read back from its text.
pub split_all-join :
    (s : Text) (ss : List Text)
    → All HasNoSlash (s ∷ ss)
    → split_all (join (text "/") (s ∷ ss)) ≡ s ∷ ss
unfolding join text
split_all-join s [] h = split_all-plain s h.0
split_all-join s (t ∷ ss) h =
    split_all-append s (join (text "/") (t ∷ ss)) h.0
    ∙ ap (λ rest. s ∷ rest) (split_all-join t ss h.1)
