-- ===== src/Common/Comparison.antt =====
-- Comparators as the source writes them: a number, negative, zero or positive, and `||` chains.
use Prim.Native.Nat.{ℕ}
use mathlib.Core.Path.{◌≡◌}
use mathlib.Core.Logic.{inl, inr}
use mathlib.Core.Bool.{Bool, true, false, not, ◌&&◌, ◌||◌}
use native.Mathlib.Omega.{arith}
use openapi_to.Common.Tests.{if◌then◌else◌, Bool-cases, ltb}
use openapi_to.Common.Strings.{Text, text_lt, text_lt-asymm, text_lt_trans, text_lt-connected}
use openapi_to.Common.Sorting.{IsOrder}

pub data Sign : Type 0 where
  negative zero positive : Sign

abbrev pub flip : Sign → Sign
flip negative = positive
flip zero = zero
flip positive = negative

-- `a || b`, for comparators.
abbrev pub or_else : Sign → Sign → Sign
or_else zero b = b
or_else a b = a

-- `left < right ? -1 : left > right ? 1 : 0`
unfoldable pub compare_text : Text → Text → Sign
compare_text s t = if text_lt s t then negative else if text_lt t s then positive else zero

-- `left - right`
unfoldable pub compare_nat : ℕ → ℕ → Sign
compare_nat a b = if ltb a b then negative else if ltb b a then positive else zero

abbrev pub not_after : Sign → Bool
not_after positive = false
not_after _ = true

module _ {ℓ} {A : Type ℓ} where
  abbrev pub le_by : (A → A → Sign) → A → A → Bool
  le_by cmp a b = not_after (cmp a b)

  pub record IsComparator (cmp : A → A → Sign) : Type ℓ where
    pub swap : (a b : A) → cmp b a ≡ flip (cmp a b)
    pub trans : (a b c : A) → le_by cmp a b ≡ true → le_by cmp b c ≡ true → le_by cmp a c ≡ true

  pub order_of : (cmp : A → A → Sign) → IsComparator cmp → IsOrder (le_by cmp)
  order_of cmp h = record { total = λ a b e. ground (arith, h.swap a b); trans = h.trans }

  pub or_else-IsComparator :
      (c d : A → A → Sign)
      → IsComparator c
      → IsComparator d
      → IsComparator (λ a b. or_else (c a b) (d a b))
  or_else-IsComparator c d hc hd = record {
    swap = λ x y. ground (arith, hc.swap x y, hd.swap x y);
    trans = λ x y z p q. ground (
      arith,
      hc.swap x y,
      hc.swap y z,
      hc.swap x z,
      hc.trans x y z,
      hc.trans z x y,
      hc.trans y z x,
      hd.trans x y z,
    );
  }

  pub by-IsComparator {κ} :
      {K : Type κ} (f : A → K) (c : K → K → Sign)
      → ((k l : K) → c l k ≡ flip (c k l))
      → ((k l m : K)
          → not_after (c k l) ≡ true
          → not_after (c l m) ≡ true
          → not_after (c k m) ≡ true)
      → IsComparator (λ a b. c (f a) (f b))
  by-IsComparator f c s t = record {
    swap = λ a b. s (f a) (f b);
    trans = λ x y z p q. t (f x) (f y) (f z) p q;
  }

compare_text-swap : (s t : Text) → compare_text t s ≡ flip (compare_text s t)
unfolding compare_text
compare_text-swap s t = ground (arith, text_lt-asymm s t, text_lt-asymm t s)

compare_text_trans :
    (s t u : Text)
    → not_after (compare_text s t) ≡ true
    → not_after (compare_text t u) ≡ true
    → not_after (compare_text s u) ≡ true
unfolding compare_text
compare_text_trans s t u p q = elim (Bool-cases (text_lt s t)) [
  | inl h ↦ elim (Bool-cases (text_lt t u)) [
    | inl k ↦ ground (arith, text_lt_trans s t u h k)
    | inr k ↦ ground (arith, text_lt-connected t u k)
  ]
  | inr h ↦ ground (arith, text_lt-connected s t h)
]

pub compare_text-IsComparator : IsComparator compare_text
compare_text-IsComparator = record { swap = compare_text-swap; trans = compare_text_trans }

pub compare_nat-IsComparator : IsComparator compare_nat
unfolding compare_nat
compare_nat-IsComparator = record { swap = λ a b. ground arith; trans = λ a b c p q. ground arith }

module _ {ℓ κ} {A : Type ℓ} {K : Type κ} (f : A → K) {c : K → K → Sign} (h : IsComparator c) where
  pub on-IsComparator : IsComparator (λ (a b : A). c (f a) (f b))
  on-IsComparator = by-IsComparator f c h.swap h.trans

-- The first text that differs decides.
abbrev pub text_precedes : Text → Text → Bool → Bool
text_precedes s t rest = text_lt s t || (not (text_lt t s) && rest)

pub not_after-compare_text :
    (s t : Text) (rest : Sign)
    → not_after (or_else (compare_text s t) rest) ≡ text_precedes s t (not_after rest)
unfolding compare_text
not_after-compare_text s t rest = ground (arith, text_lt-asymm s t)

pub not_after-last : (s t : Text) → not_after (compare_text s t) ≡ text_precedes s t true
unfolding compare_text
not_after-last s t = ground (arith, text_lt-asymm s t)

-- The larger number comes first.
pub not_after-descending :
    (a b : ℕ) (rest : Sign)
    → not_after (or_else (compare_nat b a) rest) ≡ (ltb b a || (not (ltb a b) && not_after rest))
unfolding compare_nat
not_after-descending a b rest = ground arith
