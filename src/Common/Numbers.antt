-- ===== src/Common/Numbers.antt =====
-- JavaScript numbers, as far as rounding down and comparing with whole numbers look at them: the whole
-- number below, and whether the number is whole.
use Prim.Native.Nat.{ℕ, zero, suc, ◌-◌, ◌≤◌, min, max}
use mathlib.Core.Path.{◌≡◌, refl, ap, ◌∙◌}
use mathlib.Core.Logic.{inl, inr}
use mathlib.Core.Bool.{Bool, true, false}
use mathlib.Core.List.{List, []}
use mathlib.Core.Option.{Option, none, some}
use native.Mathlib.Omega.{arith}
use openapi_to.Common.Tests.{Bool-cases, if◌then◌else◌, ltb, leb}
use openapi_to.Common.Lists.{length, take}

-- Below zero, the whole number below is `- (1 + n)`.
pub data Number : Type 0 where
  not_a_number infinity minus_infinity : Number
  from_zero : (n : ℕ) → (is_whole : Bool) → Number
  below_zero : (n : ℕ) → (is_whole : Bool) → Number

abbrev pub whole : ℕ → Number
whole n = from_zero n true

-- `Math.floor(x)`
unfoldable pub floor : Number → Number
floor (from_zero n b) = from_zero n true
floor (below_zero n b) = below_zero n true
floor x = x

-- `Math.max(m, x)` and `Math.min(m, x)` of a whole number that is not negative.
unfoldable pub math_max : ℕ → Number → Number
math_max m minus_infinity = whole m
math_max m (below_zero n b) = whole m
math_max m (from_zero n b) = if leb m n then from_zero n b else whole m
math_max m not_a_number = not_a_number
math_max m infinity = infinity

unfoldable pub math_min : ℕ → Number → Number
math_min m infinity = whole m
math_min m (from_zero n b) = if ltb n m then from_zero n b else whole m
math_min m (below_zero n b) = below_zero n b
math_min m not_a_number = not_a_number
math_min m minus_infinity = minus_infinity

-- `k > x` of a length.
unfoldable pub exceeds : ℕ → Number → Bool
exceeds k not_a_number = false
exceeds k infinity = false
exceeds k minus_infinity = true
exceeds k (from_zero n b) = ltb n k
exceeds k (below_zero n b) = true

-- `xs.slice(0, x)`: the end is cut towards zero, and a negative one counts from the end.
unfoldable pub slice_to {ℓ} : {A : Type ℓ} → Number → List A → List A
slice_to not_a_number xs = []
slice_to infinity xs = xs
slice_to minus_infinity xs = []
slice_to (from_zero n b) xs = take n xs
slice_to (below_zero n true) xs = take (length xs - suc n) xs
slice_to (below_zero zero false) xs = []
slice_to (below_zero (suc n) false) xs = take (length xs - suc n) xs

-- What a clamp to a range of whole numbers is meant to give; `NaN` passes through.
abbrev pub clamped : ℕ → ℕ → ℕ → Option Number → Number
clamped low high fallback none = whole fallback
clamped low high fallback (some not_a_number) = not_a_number
clamped low high fallback (some infinity) = whole high
clamped low high fallback (some minus_infinity) = whole low
clamped low high fallback (some (below_zero n b)) = whole low
clamped low high fallback (some (from_zero n b)) = whole (max low (min high n))

pub whole-eq : (m n : ℕ) → m ≡ n → whole m ≡ whole n
whole-eq m n e = λ i. whole (e i)

math_min-whole : (m n : ℕ) → math_min m (whole n) ≡ whole (min m n)
unfolding math_min
math_min-whole m n = elim (Bool-cases (ltb n m)) [
  | inl e ↦ rw e (whole-eq n (min m n) (ground arith))
  | inr e ↦ rw e (whole-eq m (min m n) (ground arith))
]

pub math_max-whole : (m n : ℕ) → math_max m (whole n) ≡ whole (max m n)
unfolding math_max
math_max-whole m n = elim (Bool-cases (leb m n)) [
  | inl e ↦ rw e (whole-eq n (max m n) (ground arith))
  | inr e ↦ rw e (whole-eq m (max m n) (ground arith))
]

pub max-min-floor :
    (low high fallback : ℕ) (x : Number)
    → low ≤ high
    → math_max low (math_min high (floor x)) ≡ clamped low high fallback (some x)
unfolding math_max math_min floor
max-min-floor low high d not_a_number h = refl
max-min-floor low high d infinity h =
    math_max-whole low high ∙ whole-eq (max low high) high (omega (arith, h))
max-min-floor low high d minus_infinity h = refl
max-min-floor low high d (below_zero n b) h = refl
max-min-floor low high d (from_zero n b) h =
    ap (math_max low) (math_min-whole high n) ∙ math_max-whole low (min high n)

pub min-max-floor :
    (low high fallback : ℕ) (x : Number)
    → low ≤ high
    → math_min high (math_max low (floor x)) ≡ clamped low high fallback (some x)
unfolding math_max math_min floor
min-max-floor low high d not_a_number h = refl
min-max-floor low high d infinity h = refl
min-max-floor low high d minus_infinity h =
    math_min-whole high low ∙ whole-eq (min high low) low (omega (arith, h))
min-max-floor low high d (below_zero n b) h =
    math_min-whole high low ∙ whole-eq (min high low) low (omega (arith, h))
min-max-floor low high d (from_zero n b) h =
    ap (math_min high) (math_max-whole low n)
    ∙ math_min-whole high (max low n)
    ∙ whole-eq (min high (max low n)) (max low (min high n)) (omega (arith, h))

pub math_max-clamped :
    (low high fallback : ℕ) (x : Number)
    → low ≤ high
    → math_max low (clamped 0 high fallback (some x)) ≡ clamped low high fallback (some x)
unfolding math_max
math_max-clamped low high d not_a_number h = refl
math_max-clamped low high d infinity h =
    math_max-whole low high ∙ whole-eq (max low high) high (omega (arith, h))
math_max-clamped low high d minus_infinity h =
    math_max-whole low 0 ∙ whole-eq (max low 0) low (omega arith)
math_max-clamped low high d (below_zero n b) h =
    math_max-whole low 0 ∙ whole-eq (max low 0) low (omega arith)
math_max-clamped low high d (from_zero n b) h =
    math_max-whole low (max 0 (min high n))
    ∙ whole-eq (max low (max 0 (min high n))) (max low (min high n)) (omega arith)
