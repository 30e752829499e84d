-- ===== src/Common/SortedSets.antt =====
-- `[...new Set(xs)].sort(compareText)`, which the source writes in many places.
use mathlib.Core.Path.{◌≡◌, refl, ap₂, ◌∙◌, sym}
use mathlib.Core.Logic.{inl, inr}
use mathlib.Core.Bool.{Bool, true, false, not}
use mathlib.Core.List.{List, [], ◌∷◌}
use native.Mathlib.Omega.{arith}
use openapi_to.Common.Tests.{Bool-cases}
use openapi_to.Common.Lists.{
  contains, nub, filter, IsNub, All, All-of_contains, contains-nub, nub-IsNub, of_All, All-filter,
}
use openapi_to.Common.Strings.{
  Text, text_lt, text_le, text_lt_irrefl, text_lt_trans, text_lt-asymm, text_lt-connected,
  text_equality, text_eq, text_eq_iff,
}
use openapi_to.Common.Sorting.{IsNub-sort, sort, IsSorted, IsOrder, sort-IsSorted, contains-sort}

unfoldable pub sorted_set : List Text → List Text
sorted_set xs = sort text_le (nub xs)

-- In strictly ascending order.
abbrev pub IsAscending : List Text → Type 0
IsAscending [] = Unit
IsAscending (x ∷ xs) = All (λ y. text_lt x y ≡ true) xs × IsAscending xs

text_le_trans : (s t u : Text) → text_le s t ≡ true → text_le t u ≡ true → text_le s u ≡ true
text_le_trans s t u h k = elim (Bool-cases (text_lt t u)) [
  | inl lt ↦ elim (Bool-cases (text_lt s t)) [
    | inl lt' ↦ ground (arith, text_lt_trans s t u lt' lt, text_lt-asymm s u)
    | inr ge ↦ ground (arith, text_lt-connected s t ge (ground arith), text_lt-asymm t u lt)
  ]
  | inr ge ↦ ground (arith, text_lt-connected t u ge (ground arith))
]

pub text_order : IsOrder text_le
text_order = record { total = λ a b h. ground (arith, text_lt-asymm b a); trans = text_le_trans }

module _ (x : Text) (xs : List Text) where
  All-lt :
      All (λ y. text_le x y ≡ true) xs → contains xs x ≡ false → All (λ y. text_lt x y ≡ true) xs
  All-lt h k =
      All-of_contains (λ y. text_lt x y ≡ true) xs
        λ y m. elim (Bool-cases (text_lt x y)) [
          | inl lt ↦ lt
          | inr ge ↦
              ground (
                arith,
                text_lt-connected x y ge (not_of (of_All (λ z. text_le x z ≡ true) xs y h m)),
              )
        ]
    where
      not_of : {b : Bool} → not b ≡ true → b ≡ false
      not_of {b} e = ground arith

IsAscending-of : (xs : List Text) → IsSorted text_le xs → IsNub xs → IsAscending xs
IsAscending-of [] h k = tt
IsAscending-of (x ∷ xs) h k = (All-lt x xs h.0 k.0, IsAscending-of xs h.1 k.1)

pub sorted_set-IsAscending : (xs : List Text) → IsAscending (sorted_set xs)
unfolding sorted_set
sorted_set-IsAscending xs =
    IsAscending-of (sort text_le (nub xs)) (sort-IsSorted text_le text_order (nub xs))
      (IsNub-sort text_le (nub xs) (nub-IsNub xs))

pub contains-sorted_set : (xs : List Text) (a : Text) → contains (sorted_set xs) a ≡ contains xs a
unfolding sorted_set
contains-sorted_set xs a = contains-sort text_le (nub xs) a ∙ contains-nub xs a

-- What is below every element is no element.
pub contains_of_below :
    (x : Text) (xs : List Text) → All (λ y. text_lt x y ≡ true) xs → contains xs x ≡ false
contains_of_below x xs h = elim (Bool-cases (contains xs x)) [
  | inl m ↦ ground (arith, of_All (λ y. text_lt x y ≡ true) xs x h m, text_lt_irrefl x)
  | inr e ↦ e
]

pub IsAscending-IsNub : (xs : List Text) → IsAscending xs → IsNub xs
IsAscending-IsNub [] h = tt
IsAscending-IsNub (x ∷ xs) h = (contains_of_below x xs h.0, IsAscending-IsNub xs h.1)

abbrev pub SameElements : List Text → List Text → Type 0
SameElements xs ys = (a : Text) → contains xs a ≡ contains ys a

module _ (x : Text) (xs : List Text) (y : Text) (ys : List Text)
    (same : SameElements (x ∷ xs) (y ∷ ys)) (hx : All (λ z. text_lt x z ≡ true) xs)
    (hy : All (λ z. text_lt y z ≡ true) ys) where
  below_of_contains : (a : Text) → contains (y ∷ ys) a ≡ true → text_lt a y ≡ false
  unfolding contains
  below_of_contains a m = elim (Bool-cases (text_eq y a)) [
    | inl e ↦ rw ((text_eq_iff y a).0 e) (text_lt_irrefl a)
    | inr ne ↦ text_lt-asymm y a (of_All (λ z. text_lt y z ≡ true) ys a hy (ground arith))
  ]

  below_of_contains' : (a : Text) → contains (x ∷ xs) a ≡ true → text_lt a x ≡ false
  unfolding contains
  below_of_contains' a m = elim (Bool-cases (text_eq x a)) [
    | inl e ↦ rw ((text_eq_iff x a).0 e) (text_lt_irrefl a)
    | inr ne ↦ text_lt-asymm x a (of_All (λ z. text_lt x z ≡ true) xs a hx (ground arith))
  ]

  first_eq : x ≡ y
  unfolding contains
  first_eq =
      text_lt-connected x y (below_of_contains x (ground (arith, same x, text_eq_iff x x)))
        (below_of_contains' y (ground (arith, same y, text_eq_iff y y)))

  rest_same : SameElements xs ys
  unfolding contains
  rest_same a = elim (Bool-cases (text_eq x a)) [
    | inl e ↦ ground (
      arith,
      (text_eq_iff x a).0 e,
      first_eq,
      contains_of_below x xs hx,
      contains_of_below y ys hy,
    )
    | inr ne ↦ ground (arith, same a, first_eq)
  ]

-- A set has one ascending list.
pub IsAscending-eq :
    (xs ys : List Text) → IsAscending xs → IsAscending ys → SameElements xs ys → xs ≡ ys
unfolding contains
IsAscending-eq [] [] h k same = refl
IsAscending-eq [] (y ∷ ys) h k same = ground (arith, same y, text_eq_iff y y)
IsAscending-eq (x ∷ xs) [] h k same = ground (arith, same x, text_eq_iff x x)
IsAscending-eq (x ∷ xs) (y ∷ ys) h k same =
    ap₂ ◌∷◌ (first_eq x xs y ys same h.0 k.0)
      (IsAscending-eq xs ys h.1 k.1 (rest_same x xs y ys same h.0 k.0))

pub sorted_set-eq : (xs ys : List Text) → SameElements xs ys → sorted_set xs ≡ sorted_set ys
sorted_set-eq xs ys same =
    IsAscending-eq (sorted_set xs) (sorted_set ys) (sorted_set-IsAscending xs)
      (sorted_set-IsAscending ys)
      (λ a. contains-sorted_set xs a ∙ same a ∙ sym (contains-sorted_set ys a))

-- An ascending list is kept as it is.
pub sorted_set_of_IsAscending : (xs : List Text) → IsAscending xs → sorted_set xs ≡ xs
sorted_set_of_IsAscending xs h =
    IsAscending-eq (sorted_set xs) xs (sorted_set-IsAscending xs) h (contains-sorted_set xs)

pub filter-IsAscending :
    (p : Text → Bool) (xs : List Text) → IsAscending xs → IsAscending (filter p xs)
unfolding filter
filter-IsAscending p [] h = tt
filter-IsAscending p (x ∷ xs) h =
    ground (arith, All-filter (λ y. text_lt x y ≡ true) p xs h.0, filter-IsAscending p xs h.1)
