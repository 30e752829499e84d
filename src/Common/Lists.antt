-- ===== src/Common/Lists.antt =====
-- Arrays and sets as lists: `includes` and `Set.has`, `filter`, `[...new Set(xs)]`.
use Prim.Native.Nat.{ℕ, zero, suc, ◌+◌, ◌≤◌, ◌<◌}
use mathlib.Core.Path.{◌≡◌, refl, subst}
use mathlib.Core.Logic.{inl, inr}
use mathlib.Core.Bool.{Bool, true, false, not, ◌&&◌, ◌||◌}
use mathlib.Core.Option.{Option, none, some}
use mathlib.Core.List.{List, [], ◌∷◌, ◌++◌, map}
use native.Mathlib.Omega.{arith}
use openapi_to.Common.Tests.{if◌then◌else◌, Bool-cases}
use openapi_to.Common.Equality.{Eq, ◌==◌, ==-refl, ==-comm}

module _ {ℓ} {A : Type ℓ} where
  abbrev pub length : List A → ℕ
  length [] = 0
  length (x ∷ xs) = suc (length xs)

  abbrev pub All {κ} : (A → Type κ) → List A → Type κ
  All P [] = Unit
  All P (x ∷ xs) = P x × All P xs

  abbrev pub take : ℕ → List A → List A
  take zero xs = []
  take (suc n) [] = []
  take (suc n) (x ∷ xs) = x ∷ take n xs

  -- `xs.filter(p)`
  unfoldable pub filter : (A → Bool) → List A → List A
  filter p [] = []
  filter p (x ∷ xs) = if p x then x ∷ filter p xs else filter p xs

  -- `xs.some(p)`
  unfoldable pub any : (A → Bool) → List A → Bool
  any p [] = false
  any p (x ∷ xs) = p x || any p xs

  -- `xs.find(p)`
  unfoldable pub find : (A → Bool) → List A → Option A
  find p [] = none
  find p (x ∷ xs) = if p x then some x else find p xs

  pub length-append : (xs ys : List A) → length (xs ++ ys) ≡ length xs + length ys
  length-append [] ys = omega arith
  length-append (x ∷ xs) ys = omega (arith, length-append xs ys)

  pub length-filter-le : (p : A → Bool) (xs : List A) → length (filter p xs) ≤ length xs
  unfolding filter
  length-filter-le p [] = omega arith
  length-filter-le p (x ∷ xs) = ground (arith, length-filter-le p xs)

  pub filter-eq_self : (p : A → Bool) (xs : List A) → ((x : A) → p x ≡ true) → filter p xs ≡ xs
  unfolding filter
  filter-eq_self p [] h = refl
  filter-eq_self p (x ∷ xs) h = ground (arith, h x, filter-eq_self p xs h)

  pub All-append {κ} :
      (P : A → Type κ) (front back : List A) → All P front → All P back → All P (front ++ back)
  All-append P [] back h k = k
  All-append P (x ∷ front) back h k = (h.0, All-append P front back h.1 k)

  pub All-imp {κ μ} :
      (P : A → Type κ) (Q : A → Type μ) (xs : List A) → ((x : A) → P x → Q x) → All P xs → All Q xs
  All-imp P Q [] f h = tt
  All-imp P Q (x ∷ xs) f h = (f x h.0, All-imp P Q xs f h.1)

  pub All-filter {κ} :
      (P : A → Type κ) (p : A → Bool) (xs : List A) → All P xs → All P (filter p xs)
  unfolding filter
  All-filter P p [] h = tt
  All-filter P p (x ∷ xs) h = ground (arith, All-filter P p xs h.1)

pub length-map {ℓ κ} :
    {A : Type ℓ} {B : Type κ} (xs : List A) (f : A → B) → length (map f xs) ≡ length xs
length-map [] f = refl
length-map (x ∷ xs) f = omega (arith, length-map xs f)

module _ {ℓ} {A : Type ℓ} ⦃e : Eq A⦄ where
  -- `xs.includes(a)`, and `new Set(xs).has(a)`
  unfoldable pub contains : List A → A → Bool
  contains [] a = false
  contains (x ∷ xs) a = x == a || contains xs a

  unfoldable pub remove : A → List A → List A
  unfolding filter
  remove a = filter (λ x. not (x == a))

  -- `[...new Set(xs)]`: the first occurrence of each value, in order.
  unfoldable pub nub : List A → List A
  nub [] = []
  nub (x ∷ xs) = x ∷ remove x (nub xs)

  abbrev pub IsNub : List A → Type ℓ
  IsNub [] = Unit
  IsNub (x ∷ xs) = (contains xs x ≡ false) × IsNub xs

  pub contains-append :
      (xs ys : List A) (a : A) → contains (xs ++ ys) a ≡ (contains xs a || contains ys a)
  unfolding contains
  contains-append [] ys a = refl
  contains-append (x ∷ xs) ys a = ground (arith, contains-append xs ys a)

  pub contains-filter :
      (p : A → Bool) (xs : List A) (a : A) → contains (filter p xs) a ≡ (p a && contains xs a)
  unfolding contains filter
  contains-filter p [] a = ground arith
  contains-filter p (x ∷ xs) a = ground (arith, contains-filter p xs a, e.beq_iff x a)

  pub contains-remove :
      (b : A) (xs : List A) (a : A) → contains (remove b xs) a ≡ (not (a == b) && contains xs a)
  unfolding remove
  contains-remove b xs a = contains-filter (λ x. not (x == b)) xs a

  pub remove-absent : (b : A) (xs : List A) → contains xs b ≡ false → remove b xs ≡ xs
  unfolding contains remove filter
  remove-absent b [] h = refl
  remove-absent b (x ∷ xs) h = ground (arith, remove-absent b xs)

  pub remove-cons_absent : (b : A) (xs : List A) → contains xs b ≡ false → remove b (b ∷ xs) ≡ xs
  unfolding remove filter
  remove-cons_absent b xs h = ground (arith, ==-refl b, remove-absent b xs h)

  pub length-remove :
      (b : A) (xs : List A) → contains xs b ≡ true → length (remove b xs) < length xs
  unfolding contains remove filter
  length-remove b [] h = ground arith
  length-remove b (x ∷ xs) h =
      ground (arith, length-remove b xs, length-filter-le (λ y. not (y == b)) xs)

  All-remove :
      (x : A) (xs ys : List A)
      → contains xs x ≡ false
      → All (λ y. contains ys y ≡ true) xs
      → All (λ y. contains (remove x ys) y ≡ true) xs
  unfolding contains
  All-remove x [] ys d h = tt
  All-remove x (y ∷ xs) ys d h =
      (ground (arith, contains-remove x ys y, ==-comm x y), All-remove x xs ys (ground arith) h.1)

  -- A list without repetitions is no longer than a list that holds all of it.
  pub length-IsNub-le :
      (xs ys : List A) → IsNub xs → All (λ x. contains ys x ≡ true) xs → length xs ≤ length ys
  length-IsNub-le [] ys d h = omega arith
  length-IsNub-le (x ∷ xs) ys d h = omega (
    arith,
    length-remove x ys h.0,
    length-IsNub-le xs (remove x ys) d.1 (All-remove x xs ys d.0 h.1),
  )

  pub contains-nub : (xs : List A) (a : A) → contains (nub xs) a ≡ contains xs a
  unfolding contains nub
  contains-nub [] a = refl
  contains-nub (x ∷ xs) a =
      ground (arith, contains-remove x (nub xs) a, contains-nub xs a, ==-comm x a)

  pub IsNub-filter : (p : A → Bool) (xs : List A) → IsNub xs → IsNub (filter p xs)
  unfolding filter
  IsNub-filter p [] h = tt
  IsNub-filter p (x ∷ xs) h = ground (arith, contains-filter p xs x, IsNub-filter p xs h.1)

  pub IsNub-append :
      (xs ys : List A)
      → IsNub xs
      → IsNub ys
      → ((a : A) → contains xs a ≡ true → contains ys a ≡ false)
      → IsNub (xs ++ ys)
  unfolding contains
  IsNub-append [] ys h k apart = k
  IsNub-append (x ∷ xs) ys h k apart = (
    ground (arith, contains-append xs ys x, apart x (ground (arith, ==-refl x)), h.0),
    IsNub-append xs ys h.1 k (λ a m. apart a (ground arith)),
  )

  pub any-of_contains :
      (p : A → Bool) (xs : List A) (a : A) → contains xs a ≡ true → p a ≡ true → any p xs ≡ true
  unfolding any contains
  any-of_contains p [] a m h = ground arith
  any-of_contains p (x ∷ xs) a m h = elim (Bool-cases (x == a)) [
    | inl same ↦ rw ((e.beq_iff x a).0 same) (rw h refl)
    | inr other ↦ ground (arith, any-of_contains p xs a (ground arith) h)
  ]

  -- An element that passes the test.
  pub contains-of_any :
      (p : A → Bool) (xs : List A)
      → any p xs ≡ true
      → (a : A) × (contains xs a ≡ true) × (p a ≡ true)
  unfolding any contains
  contains-of_any p [] h = ground arith
  contains-of_any p (x ∷ xs) h = elim (Bool-cases (p x)) [
    | inl here ↦ (x, ground (arith, ==-refl x), here)
    | inr not_here ↦ let (a, m, k) = contains-of_any p xs (ground arith) in (a, ground arith, k)
  ]

  pub nub-IsNub : (xs : List A) → IsNub (nub xs)
  unfolding nub remove
  nub-IsNub [] = tt
  nub-IsNub (x ∷ xs) = (
    ground (arith, contains-remove x (nub xs) x, ==-refl x),
    IsNub-filter (λ y. not (y == x)) (nub xs) (nub-IsNub xs),
  )

  pub All-of_contains {κ} :
      (P : A → Type κ) (xs : List A) → ((a : A) → contains xs a ≡ true → P a) → All P xs
  unfolding contains
  All-of_contains P [] h = tt
  All-of_contains P (x ∷ xs) h =
      (h x (ground (arith, ==-refl x)), All-of_contains P xs (λ a m. h a (ground arith)))

  pub of_All {κ} : (P : A → Type κ) (xs : List A) (a : A) → All P xs → contains xs a ≡ true → P a
  unfolding contains
  of_All P [] a h m = ground arith
  of_All P (x ∷ xs) a h m = elim (Bool-cases (x == a)) [
    | inl same ↦ subst P ((e.beq_iff x a).0 same) h.0
    | inr other ↦ of_All P xs a h.1 (ground arith)
  ]
