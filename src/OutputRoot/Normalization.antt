-- ===== src/OutputRoot/Normalization.antt =====
-- `path.posix.normalize` of a relative path that stays below where it starts.
use mathlib.Core.List.{reverse, append-nil}
use openapi_to.Common.{
  arith, filter, contains, All-imp, All-append, split_all-append, ap, ◌∙◌, refl, sym,
  split_all-parts, true, subst, split_all, ◌∷◌, ◌++◌, false, [], starts_with, IsSegment, text,
  text_eq, All, is_absolute, List, Text, Bool, join, ◌≡◌,
}
use openapi_to.Common.{starts_with-nil}
use openapi_to.OutputRoot.Segments.{is_skipped, names_of-name}
use openapi_to.OutputRoot.{reverse, state_directory_name}
use openapi_to.Common.{last_is, walked_text, slash_if, posix_normalize, relative_walk}
use openapi_to.OutputRoot.Segments.{
  relative_walk-down, names_of, IsNormal, IsDown, IsNormal-of_names,
}
use openapi_to.OutputRoot.Stacks.{All-reversed, relative_walk-IsStack, IsUp, starts_up}

-- The paths that `portableRelativeDirectory` refuses behind `normalize`.
abbrev pub IsInside : Text → Type 0
IsInside p =
    (text_eq p (text ".") ≡ false)
    × (text_eq p (text "..") ≡ false)
    × (starts_with (text "../") p ≡ false)

up_outside :
    (rest : List Text) (slash : Bool)
    → ¬ IsInside (join (text "/") (text ".." ∷ rest) ++ slash_if slash)
unfolding join text text_eq starts_with
up_outside [] true h = cc h.2
up_outside [] false h = cc h.1
up_outside (t ∷ ts) slash h = cc (starts_with-nil (join (text "/") (t ∷ ts) ++ slash_if slash), h.2)

IsNormal-of_stack :
    (r names ups : List Text) (slash : Bool)
    → All IsSegment names
    → All IsUp ups
    → r ≡ reverse (names ++ ups)
    → IsInside (walked_text r (slash_if slash))
    → IsNormal (walked_text r (slash_if slash))
unfolding text_eq text split_all contains filter
IsNormal-of_stack [] names ups false h k e i = cc i.0
IsNormal-of_stack [] names ups true h k e i = record {
  names = [];
  tail = text "." ∷ [] ∷ [];
  are_names = tt;
  tail_down = ((refl, refl), ((refl, refl), tt));
  tail_skipped = refl;
  reads = refl;
}
IsNormal-of_stack (s ∷ ss) names [] slash h k e i =
    (IsNormal-of_names s ss slash (
      subst (All IsSegment) (sym (e ∙ ap reverse (append-nil names)))
        (All-reversed IsSegment names h))).0
IsNormal-of_stack (s ∷ ss) names (u ∷ us) slash h k e i =
    let (rest, f) = starts_up u us names k in
    absurd
      (up_outside rest slash (subst (λ r. IsInside (walked_text r (slash_if slash))) (e ∙ f) i))

relative_text :
    (p : Text)
    → is_absolute p ≡ false
    → posix_normalize p ≡ walked_text (relative_walk [] (split_all p)) (slash_if (last_is b'/' p))
unfolding posix_normalize
relative_text p e = rw e refl

pub posix_normalize-IsNormal :
    (p : Text) → is_absolute p ≡ false → IsInside (posix_normalize p) → IsNormal (posix_normalize p)
posix_normalize-IsNormal p relative i =
    let (last, k, e) =
      relative_walk-IsStack [] (split_all p) (split_all-parts p)
        (record { names = []; ups = []; parts = refl; are_names = tt; are_ups = tt }) in
    let at = relative_text p relative in
    subst IsNormal (sym at) (
      IsNormal-of_stack (relative_walk [] (split_all p)) k.names k.ups (last_is b'/' p) k.are_names
        k.are_ups (e ∙ ap reverse k.parts) (subst IsInside at i))

segments-IsDown : (s : List Text) → All IsSegment s → All IsDown s
segments-IsDown s h = All-imp IsSegment IsDown s (λ t k. (k.2, k.3)) h

-- What stays of a normal path.
pub names_of-names :
    (names rest : List Text)
    → All IsSegment names
    → names_of rest ≡ []
    → names_of (names ++ rest) ≡ names
names_of-names [] rest h e = e
names_of-names (n ∷ ns) rest h e =
    names_of-name n (ns ++ rest) (ground arith) ∙ ap (λ t. n ∷ t) (names_of-names ns rest h.1 e)

pub normal-IsDown : (d : Text) (n : IsNormal d) → All IsDown (split_all d)
normal-IsDown d n =
    subst (All IsDown) (sym n.reads)
      (All-append IsDown n.names n.tail (segments-IsDown n.names n.are_names) n.tail_down)

pub normal-names : (d : Text) (n : IsNormal d) → names_of (split_all d) ≡ n.names
normal-names d n = ap names_of n.reads ∙ names_of-names n.names n.tail n.are_names n.tail_skipped

state_directory_name-IsSegment : IsSegment state_directory_name
unfolding text_eq contains text
state_directory_name-IsSegment = (refl, refl, refl, refl)

state_split :
    (d : Text)
    → split_all (state_directory_name ++ (text "/" ++ d)) ≡ state_directory_name ∷ split_all d
unfolding text
state_split d = split_all-append state_directory_name d state_directory_name-IsSegment.3

state_relative : (d : Text) → is_absolute (state_directory_name ++ (text "/" ++ d)) ≡ false
unfolding is_absolute starts_with text
state_relative d = refl

state_name : is_skipped state_directory_name ≡ false
unfolding text_eq text
state_name = refl

state_walk :
    (d : Text) (n : IsNormal d)
    → relative_walk [] (split_all (state_directory_name ++ (text "/" ++ d)))
      ≡ state_directory_name ∷ n.names
state_walk d n =
    ap (relative_walk []) (state_split d)
    ∙ relative_walk-down [] (state_directory_name ∷ split_all d)
        ((state_directory_name-IsSegment.2, state_directory_name-IsSegment.3), normal-IsDown d n)
    ∙ names_of-name state_directory_name (split_all d) state_name
    ∙ ap (λ t. state_directory_name ∷ t) (normal-names d n)

-- `path.posix.join('.openapi-to', dir)`
pub state_join-IsNormal :
    (d : Text) (n : IsNormal d)
    → (m : IsNormal (posix_normalize (state_directory_name ++ (text "/" ++ d)))) × (m.names
        ≡ state_directory_name ∷ n.names)
state_join-IsNormal d n =
    let at =
      relative_text (state_directory_name ++ (text "/" ++ d)) (state_relative d)
      ∙ ap (λ w. walked_text w (slash_if (last_is b'/' (state_directory_name ++ (text "/" ++ d)))))
          (state_walk d n) in
    subst (λ t. (m : IsNormal t) × (m.names ≡ state_directory_name ∷ n.names)) (sym at)
      (IsNormal-of_names state_directory_name n.names
        (last_is b'/' (state_directory_name ++ (text "/" ++ d)))
        (state_directory_name-IsSegment, n.are_names))
