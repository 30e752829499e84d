-- ===== src/Common/Strings.antt =====
-- JavaScript strings: sequences of UTF-16 code units, compared unit by unit.
use Prim.Native.Nat.{ℕ, ◌+◌, ◌-◌}
use Prim.Native.Char.{code}
use Prim.Native.String.{String}
use mathlib.Core.Path.{◌≡◌, refl, ap₂}
use mathlib.Core.Logic.{◌↔◌}
use mathlib.Core.Bool.{Bool, true, false, not, ◌&&◌, ◌||◌}
use mathlib.Core.List.{List, [], ◌∷◌, map}
use native.Mathlib.Omega.{arith}
use openapi_to.Common.Tests.{ltb, leb, nat_eq, nat_eq_iff, if◌then◌else◌}
use openapi_to.Common.Equality.{Eq}

abbrev pub Text : Type 0
Text = List ℕ

-- The code units of a literal; the literals of the source are ASCII.
unfoldable pub text : String → Text
text String.[] = []
text (String.◌∷◌ c s) = code c ∷ text s

unfoldable pub text_eq : Text → Text → Bool
text_eq [] [] = true
text_eq [] (y ∷ ys) = false
text_eq (x ∷ xs) [] = false
text_eq (x ∷ xs) (y ∷ ys) = nat_eq x y && text_eq xs ys

pub text_eq_iff : (s t : Text) → (text_eq s t ≡ true) ↔ (s ≡ t)
unfolding text_eq
text_eq_iff [] [] = (λ _. refl, λ _. refl)
text_eq_iff [] (y ∷ ys) = (λ h. cc, λ h. cc)
text_eq_iff (x ∷ xs) [] = (λ h. cc, λ h. cc)
text_eq_iff (x ∷ xs) (y ∷ ys) = (
  λ h. ap₂ ◌∷◌ (ground arith) ((text_eq_iff xs ys).0 (ground arith)),
  λ h. ground (arith, text_eq_iff xs ys),
)

instance abbrev pub text_equality : Eq Text
text_equality = record { beq = text_eq; beq_iff = text_eq_iff }

instance abbrev pub nat_equality : Eq ℕ
nat_equality = record { beq = nat_eq; beq_iff = nat_eq_iff }

-- `s < t`
unfoldable pub text_lt : Text → Text → Bool
text_lt [] [] = false
text_lt [] (y ∷ ys) = true
text_lt (x ∷ xs) [] = false
text_lt (x ∷ xs) (y ∷ ys) = ltb x y || nat_eq x y && text_lt xs ys

-- `compareText(s, t) <= 0`: what a sort needs of the comparator.
abbrev pub text_le : Text → Text → Bool
text_le s t = not (text_lt t s)

pub text_lt_irrefl : (s : Text) → text_lt s s ≡ false
unfolding text_lt
text_lt_irrefl [] = refl
text_lt_irrefl (x ∷ xs) = ground (arith, text_lt_irrefl xs)

pub text_lt_trans : (s t u : Text) → text_lt s t ≡ true → text_lt t u ≡ true → text_lt s u ≡ true
unfolding text_lt
text_lt_trans [] [] u h k = cc
text_lt_trans [] (y ∷ ys) [] h k = cc
text_lt_trans [] (y ∷ ys) (z ∷ zs) h k = refl
text_lt_trans (x ∷ xs) [] u h k = cc
text_lt_trans (x ∷ xs) (y ∷ ys) [] h k = cc
text_lt_trans (x ∷ xs) (y ∷ ys) (z ∷ zs) h k = ground (arith, text_lt_trans xs ys zs)

pub text_lt-asymm : (s t : Text) → text_lt s t ≡ true → text_lt t s ≡ false
unfolding text_lt
text_lt-asymm [] [] h = cc
text_lt-asymm [] (y ∷ ys) h = refl
text_lt-asymm (x ∷ xs) [] h = cc
text_lt-asymm (x ∷ xs) (y ∷ ys) h = ground (arith, text_lt-asymm xs ys)

pub text_lt-connected : (s t : Text) → text_lt s t ≡ false → text_lt t s ≡ false → s ≡ t
unfolding text_lt
text_lt-connected [] [] h k = refl
text_lt-connected [] (y ∷ ys) h k = cc
text_lt-connected (x ∷ xs) [] h k = cc
text_lt-connected (x ∷ xs) (y ∷ ys) h k =
    ap₂ ◌∷◌ (ground arith) (text_lt-connected xs ys (ground arith) (ground arith))

-- `s.startsWith(p)`
unfoldable pub starts_with : Text → Text → Bool
starts_with p [] = text_eq p []
starts_with [] (x ∷ xs) = true
starts_with (y ∷ ys) (x ∷ xs) = nat_eq y x && starts_with ys xs

-- One code unit of `toLowerCase` over ASCII.
unfoldable pub lower_unit : ℕ → ℕ
lower_unit c = if leb b'A' c && leb c b'Z' then c + 32 else c

unfoldable pub upper_unit : ℕ → ℕ
upper_unit c = if leb b'a' c && leb c b'z' then c - 32 else c

-- `s.toLowerCase()`
unfoldable pub to_lower_case : Text → Text
to_lower_case s = map lower_unit s

-- `t.split('/')`
unfoldable pub split_all : Text → List Text
split_all [] = [] ∷ []
split_all (c ∷ cs) = elim (nat_eq c b'/') [
  | true ↦ [] ∷ split_all cs
  | false ↦ elim (split_all cs) [ [] ↦ (c ∷ []) ∷ [] | part ∷ parts ↦ (c ∷ part) ∷ parts ]
]

pub starts_with-nil : (t : Text) → starts_with [] t ≡ true
unfolding starts_with text_eq
starts_with-nil [] = refl
starts_with-nil (c ∷ cs) = refl
