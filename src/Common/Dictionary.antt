-- ===== src/Common/Dictionary.antt =====
-- A JavaScript `Map`: an association list in insertion order.
use mathlib.Core.Path.{◌≡◌, refl, sym, subst}
use mathlib.Core.Option.{Option, none, some}
use mathlib.Core.List.{List, [], ◌∷◌}
use Prim.Native.Nat.{ℕ, ◌+◌}
use mathlib.Core.Logic.{inl, inr}
use native.Mathlib.Omega.{arith}
use openapi_to.Common.Tests.{if◌then◌else◌, Bool-cases, value_of}
use openapi_to.Common.Equality.{Eq, ◌==◌, ==-refl, ==-comm}
use openapi_to.Common.Lists.{All, length}

module _ {ℓ κ} {K : Type ℓ} {V : Type κ} ⦃e : Eq K⦄ where
  -- `m.get(k)`
  unfoldable pub get : K → List (K × V) → Option V
  get k [] = none
  get k ((j, v) ∷ m) = if j == k then some v else get k m

  -- `m.set(k, v)`: a present key keeps its place.
  unfoldable pub put : K → V → List (K × V) → List (K × V)
  put k v [] = (k, v) ∷ []
  put k v ((j, w) ∷ m) = if j == k then (j, v) ∷ m else (j, w) ∷ put k v m

  -- `m.delete(k)`
  unfoldable pub delete : K → List (K × V) → List (K × V)
  delete k [] = []
  delete k ((j, w) ∷ m) = if j == k then m else (j, w) ∷ delete k m

  pub get-put :
      (k : K) (v : V) (m : List (K × V)) (j : K)
      → get j (put k v m) ≡ (if k == j then some v else get j m)
  unfolding get put
  get-put k v [] j = refl
  get-put k v ((i, w) ∷ m) j =
      ground (arith, e.beq_iff k j, e.beq_iff i k, e.beq_iff i j, get-put k v m j)

  pub get-put_self : (k : K) (v : V) (m : List (K × V)) → get k (put k v m) ≡ some v
  get-put_self k v m = ground (arith, get-put k v m k, ==-refl k)

  abbrev pub HasDistinctKeys : List (K × V) → Type κ
  HasDistinctKeys [] = Unit
  HasDistinctKeys ((k, v) ∷ m) = (get k m ≡ none) × HasDistinctKeys m

  abbrev pub sum_by : (V → ℕ) → List (K × V) → ℕ
  sum_by f [] = 0
  sum_by f ((k, v) ∷ m) = f v + sum_by f m

  pub get-delete-none : (j k : K) (m : List (K × V)) → get j m ≡ none → get j (delete k m) ≡ none
  unfolding get delete
  get-delete-none j k [] h = refl
  get-delete-none j k ((i, w) ∷ m) h = ground (arith, get-delete-none j k m)

  pub get-delete :
      (k : K) (m : List (K × V)) (j : K)
      → HasDistinctKeys m
      → get j (delete k m) ≡ (if k == j then none else get j m)
  unfolding get delete
  get-delete k [] j d = ground arith
  get-delete k ((i, w) ∷ m) j d =
      ground (arith, e.beq_iff k j, e.beq_iff i k, e.beq_iff i j, get-delete k m j d.1, d.0)

  pub delete-HasDistinctKeys :
      (k : K) (m : List (K × V)) → HasDistinctKeys m → HasDistinctKeys (delete k m)
  unfolding delete
  delete-HasDistinctKeys k [] d = tt
  delete-HasDistinctKeys k ((i, w) ∷ m) d =
      ground (arith, get-delete-none i k m d.0, delete-HasDistinctKeys k m d.1)

  pub put-HasDistinctKeys :
      (k : K) (v : V) (m : List (K × V)) → HasDistinctKeys m → HasDistinctKeys (put k v m)
  unfolding put get
  put-HasDistinctKeys k v [] d = (refl, tt)
  put-HasDistinctKeys k v ((i, w) ∷ m) d =
      ground (arith, get-put k v m i, put-HasDistinctKeys k v m d.1, ==-comm i k)

  pub sum_by-delete :
      (f : V → ℕ) (k : K) (m : List (K × V)) (v : V)
      → get k m ≡ some v
      → sum_by f (delete k m) + f v ≡ sum_by f m
  unfolding get delete
  sum_by-delete f k [] v h = cc
  sum_by-delete f k ((i, w) ∷ m) v h = ground (arith, sum_by-delete f k m v)

  pub sum_by-put_new :
      (f : V → ℕ) (k : K) (v : V) (m : List (K × V))
      → get k m ≡ none
      → sum_by f (put k v m) ≡ sum_by f m + f v
  unfolding get put
  sum_by-put_new f k v [] h = omega arith
  sum_by-put_new f k v ((i, w) ∷ m) h = ground (arith, sum_by-put_new f k v m)

  pub sum_by-put_old :
      (f : V → ℕ) (k : K) (v w : V) (m : List (K × V))
      → get k m ≡ some w
      → sum_by f (put k v m) + f w ≡ sum_by f m + f v
  unfolding get put
  sum_by-put_old f k v w [] h = cc
  sum_by-put_old f k v w ((i, u) ∷ m) h = ground (arith, sum_by-put_old f k v w m)

  pub length-delete :
      (k : K) (m : List (K × V)) (v : V) → get k m ≡ some v → length (delete k m) + 1 ≡ length m
  unfolding get delete
  length-delete k [] v h = cc
  length-delete k ((i, w) ∷ m) v h = ground (arith, length-delete k m v)

  pub length-put_new :
      (k : K) (v : V) (m : List (K × V)) → get k m ≡ none → length (put k v m) ≡ length m + 1
  unfolding get put
  length-put_new k v [] h = omega arith
  length-put_new k v ((i, w) ∷ m) h = ground (arith, length-put_new k v m)

  pub length-put_old :
      (k : K) (v w : V) (m : List (K × V)) → get k m ≡ some w → length (put k v m) ≡ length m
  unfolding get put
  length-put_old k v w [] h = cc
  length-put_old k v w ((i, u) ∷ m) h = ground (arith, length-put_old k v w m)

  pub All-delete {μ} :
      (P : K × V → Type μ) (k : K) (m : List (K × V)) → All P m → All P (delete k m)
  unfolding delete
  All-delete P k [] h = tt
  All-delete P k ((i, w) ∷ m) h = ground (arith, All-delete P k m h.1)

  pub All-put {μ} :
      (P : K × V → Type μ) (k : K) (v : V) (m : List (K × V))
      → P (k, v)
      → All P m
      → All P (put k v m)
  unfolding put
  All-put P k v [] p h = (p, tt)
  All-put P k v ((i, w) ∷ m) p h = elim (Bool-cases (i == k)) [
    | inl same ↦
        rw (same, if◌then◌else◌) (subst (λ j. P (j, v)) (sym ((e.beq_iff i k).0 same)) p, h.1)
    | inr other ↦ rw (other, if◌then◌else◌) (h.0, All-put P k v m p h.1)
  ]

  pub get-All {μ} :
      (P : K × V → Type μ) (k : K) (v : V) (m : List (K × V))
      → All P m
      → get k m ≡ some v
      → P (k, v)
  unfolding get
  get-All P k v [] h g = cc
  get-All P k v ((i, w) ∷ m) h g = elim (Bool-cases (i == k)) [
    | inl same ↦ subst P (cc ((e.beq_iff i k).0 same, value_of (rw (same, if◌then◌else◌) at g))) h.0
    | inr other ↦ get-All P k v m h.1 (rw (other, if◌then◌else◌) at g)
  ]
