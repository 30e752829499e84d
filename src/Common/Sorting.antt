-- ===== src/Common/Sorting.antt =====
-- `Array.prototype.sort`: a stable sort, here by insertion.
use mathlib.Core.Path.{◌≡◌, refl, ap, ◌∙◌}
use mathlib.Core.Logic.{inl, inr}
use mathlib.Core.Bool.{Bool, true, false, ◌||◌}
use mathlib.Core.List.{List, [], ◌∷◌, Perm}
use mathlib.Core.List.Perm
use Prim.Native.Nat.{suc}
use native.Mathlib.Omega.{arith}
use openapi_to.Common.Tests.{if◌then◌else◌, Bool-cases}
use openapi_to.Common.Equality.{Eq, ◌==◌, ==-comm}
use openapi_to.Common.Lists.{length, any, contains, All, All-imp, IsNub}

module _ {ℓ} {A : Type ℓ} (le : A → A → Bool) where
  unfoldable pub insert : A → List A → List A
  insert a [] = a ∷ []
  insert a (x ∷ xs) = if le a x then a ∷ x ∷ xs else x ∷ insert a xs

  unfoldable pub sort : List A → List A
  unfolding insert
  sort [] = []
  sort (x ∷ xs) = insert x (sort xs)

  pub insert-perm : (a : A) (xs : List A) → Perm (insert a xs) (a ∷ xs)
  unfolding insert
  insert-perm a [] = Perm.rfl
  insert-perm a (x ∷ xs) = elim (Bool-cases (le a x)) [
    | inl here ↦ rw here Perm.rfl
    | inr later ↦ rw later (Perm.trans (Perm.cons x (insert-perm a xs)) (Perm.swap a x xs))
  ]

  pub sort-perm : (xs : List A) → Perm (sort xs) xs
  unfolding sort
  sort-perm [] = Perm.rfl
  sort-perm (x ∷ xs) = Perm.trans (insert-perm x (sort xs)) (Perm.cons x (sort-perm xs))

  -- Each element is in order with all that follow it.
  abbrev pub IsSorted : List A → Type ℓ
  IsSorted [] = Unit
  IsSorted (x ∷ xs) = All (λ y. le x y ≡ true) xs × IsSorted xs

  pub All-insert {κ} : (P : A → Type κ) (a : A) (xs : List A) → P a → All P xs → All P (insert a xs)
  unfolding insert
  All-insert P a [] h hs = (h, tt)
  All-insert P a (x ∷ xs) h hs = ground (arith, All-insert P a xs h hs.1)

  pub All-sort {κ} : (P : A → Type κ) (xs : List A) → All P xs → All P (sort xs)
  unfolding sort
  All-sort P [] h = tt
  All-sort P (x ∷ xs) h = All-insert P x (sort xs) h.0 (All-sort P xs h.1)

  -- The comparator is a total preorder.
  pub record IsOrder : Type ℓ where
    pub total : (a b : A) → le a b ≡ false → le b a ≡ true
    pub trans : (a b c : A) → le a b ≡ true → le b c ≡ true → le a c ≡ true

pub IsSorted-imp {ℓ} :
    {A : Type ℓ} (le before : A → A → Bool)
    → ((a b : A) → le a b ≡ true → before a b ≡ true)
    → (xs : List A) → IsSorted le xs
    → IsSorted before xs
IsSorted-imp le before h [] k = tt
IsSorted-imp le before h (x ∷ xs) k = (
  All-imp (λ y. le x y ≡ true) (λ y. before x y ≡ true) xs (h x) k.0,
  IsSorted-imp le before h xs k.1,
)

module _ {ℓ} {A : Type ℓ} (le : A → A → Bool) (order : IsOrder le) where
  insert-IsSorted : (a : A) (xs : List A) → IsSorted le xs → IsSorted le (insert le a xs)
  unfolding insert
  insert-IsSorted a [] h = (tt, tt)
  insert-IsSorted a (x ∷ xs) h = ground (
    arith,
    order.total a x,
    λ (p : le a x ≡ true).
        All-imp (λ y. le x y ≡ true) (λ y. le a y ≡ true) xs (λ y. order.trans a x y p) h.0,
    λ (p : le x a ≡ true). All-insert le (λ y. le x y ≡ true) a xs p h.0,
    insert-IsSorted a xs h.1,
  )

  pub sort-IsSorted : (xs : List A) → IsSorted le (sort le xs)
  unfolding sort
  sort-IsSorted [] = tt
  sort-IsSorted (x ∷ xs) = insert-IsSorted x (sort le xs) (sort-IsSorted xs)

module _ {ℓ} {A : Type ℓ} ⦃e : Eq A⦄ (le : A → A → Bool) where
  contains-insert :
      (b : A) (xs : List A) (a : A) → contains (insert le b xs) a ≡ (b == a || contains xs a)
  unfolding contains insert
  contains-insert b [] a = refl
  contains-insert b (x ∷ xs) a = ground (arith, contains-insert b xs a)

  pub contains-sort : (xs : List A) (a : A) → contains (sort le xs) a ≡ contains xs a
  unfolding contains sort
  contains-sort [] a = refl
  contains-sort (x ∷ xs) a = ground (arith, contains-insert x (sort le xs) a, contains-sort xs a)

  IsNub-insert : (b : A) (xs : List A) → contains xs b ≡ false → IsNub xs → IsNub (insert le b xs)
  unfolding contains insert
  IsNub-insert b [] h k = (refl, tt)
  IsNub-insert b (x ∷ xs) h k =
      ground (arith, contains-insert b xs x, IsNub-insert b xs, ==-comm b x)

  pub IsNub-sort : (xs : List A) → IsNub xs → IsNub (sort le xs)
  unfolding sort
  IsNub-sort [] h = tt
  IsNub-sort (x ∷ xs) h = IsNub-insert x (sort le xs) (contains-sort xs x ∙ h.0) (IsNub-sort xs h.1)

any-insert {ℓ} :
    {A : Type ℓ} (le : A → A → Bool) (p : A → Bool) (x : A) (xs : List A)
    → any p (insert le x xs) ≡ (p x || any p xs)
unfolding any insert
any-insert le p x [] = refl
any-insert le p x (y ∷ ys) = ground (arith, any-insert le p x ys)

pub any-sort {ℓ} :
    {A : Type ℓ} (le : A → A → Bool) (p : A → Bool) (xs : List A) → any p (sort le xs) ≡ any p xs
unfolding any sort
any-sort le p [] = refl
any-sort le p (x ∷ xs) = any-insert le p x (sort le xs) ∙ ap (λ t. p x || t) (any-sort le p xs)

length-insert {ℓ} :
    {A : Type ℓ} (le : A → A → Bool) (a : A) (xs : List A)
    → length (insert le a xs) ≡ suc (length xs)
unfolding insert
length-insert le a [] = refl
length-insert le a (x ∷ xs) = ground (arith, length-insert le a xs)

pub length-sort {ℓ} :
    {A : Type ℓ} (le : A → A → Bool) (xs : List A) → length (sort le xs) ≡ length xs
unfolding sort
length-sort le [] = refl
length-sort le (x ∷ xs) = length-insert le x (sort le xs) ∙ ap suc (length-sort le xs)
