-- ===== src/Common/Uri.antt =====
-- `decodeURIComponent`, and the `replaceAll` calls on one or two characters.
use Prim.Native.Nat.{ℕ, ◌+◌, ◌-◌, ◌*◌, ◌/◌, ◌%◌}
use mathlib.Core.Path.{◌≡◌, refl}
use mathlib.Core.Logic.{◌≢◌}
use mathlib.Core.Bool.{Bool, true, false, not, ◌&&◌}
use mathlib.Core.Option.{Option, none, some}
use mathlib.Core.List.{[], ◌∷◌, ◌++◌}
use native.Mathlib.Omega.{arith}
use openapi_to.Common.Tests.{ltb, leb, nat_eq, if◌then◌else◌}
use openapi_to.Common.Lists.{contains}
use openapi_to.Common.Strings.{Text, nat_equality}

-- A UTF-8 sequence in progress: the bytes to come, the bits so far, the least code point allowed.
pub record Sequence : Type 0 where
  pub missing : ℕ
  pub bits : ℕ
  pub least : ℕ

pub data Decoder : Type 0 where
  plain : Decoder
  more : Sequence → Decoder
  percent : Option Sequence → Decoder
  digit : Option Sequence → ℕ → Decoder

hex_digit : ℕ → Option ℕ
hex_digit c =
    if leb b'0' c && leb c b'9'
    then some (c - 48)
    else if leb b'A' c && leb c b'F'
    then some (c - 55)
    else if leb b'a' c && leb c b'f'
    then some (c - 87)
    else none

-- The code units of a code point.
units : ℕ → Text
units c =
    if ltb c 65536 then c ∷ [] else (55296 + (c - 65536) / 1024) ∷ (56320 + (c - 65536) % 1024) ∷ []

first_byte : ℕ → Option (Text × Decoder)
first_byte b =
    if ltb b 128
    then some (b ∷ [], plain)
    else if ltb b 192
    then none
    else if ltb b 224
    then some ([], more (record { missing = 1; bits = b - 192; least = 128 }))
    else if ltb b 240
    then some ([], more (record { missing = 2; bits = b - 224; least = 2048 }))
    else if ltb b 248
    then some ([], more (record { missing = 3; bits = b - 240; least = 65536 }))
    else none

-- A code point that UTF-8 may encode.
is_scalar : ℕ → Bool
is_scalar c = leb c 1114111 && not (leb 55296 c && leb c 57343)

next_byte : Sequence → ℕ → Option (Text × Decoder)
next_byte s b =
    let bits = s.bits * 64 + (b - 128) in
    if not (leb 128 b && ltb b 192)
    then none
    else if ltb 1 s.missing
    then some ([], more (record { missing = s.missing - 1; bits = bits; least = s.least }))
    else if leb s.least bits && is_scalar bits
    then some (units bits, plain)
    else none

-- What one code unit of the input does.
step : Decoder → ℕ → Option (Text × Decoder)
step plain c = if nat_eq c 37 then some ([], percent none) else some (c ∷ [], plain)
step (more s) c = if nat_eq c 37 then some ([], percent (some s)) else none
step (percent s) c = elim (hex_digit c) [ none ↦ none | some d ↦ some ([], digit s d) ]
step (digit none d) c = elim (hex_digit c) [ none ↦ none | some e ↦ first_byte (16 * d + e) ]
step (digit (some s) d) c = elim (hex_digit c) [ none ↦ none | some e ↦ next_byte s (16 * d + e) ]

decode_from : Decoder → Text → Option Text
decode_from plain [] = some []
decode_from _ [] = none
decode_from d (c ∷ cs) = elim (step d c) [
  | none ↦ none
  | some (out, d') ↦ elim (decode_from d' cs) [ none ↦ none | some rest ↦ some (out ++ rest) ]
]

-- `none` is the `URIError`.
unfoldable pub decode_uri_component : Text → Option Text
unfolding decode_from step first_byte next_byte hex_digit units is_scalar
decode_uri_component t = decode_from plain t

pub decode_uri_component-plain :
    (t : Text) → contains t 37 ≡ false → decode_uri_component t ≡ some t
unfolding decode_uri_component contains decode_from step
decode_uri_component-plain [] h = refl
decode_uri_component-plain (c ∷ cs) h = ground (arith, decode_uri_component-plain cs)

-- `t.replaceAll(c, r)` for a character `c`.
unfoldable pub replace_unit : ℕ → Text → Text → Text
replace_unit c r [] = []
replace_unit c r (x ∷ xs) = (if nat_eq x c then r else x ∷ []) ++ replace_unit c r xs

-- What a character adds to the result of `replace_pair`, behind a held `a` or not.
emit : ℕ → ℕ → ℕ → Bool → ℕ → Text
emit a b r false x = if nat_eq x a then [] else x ∷ []
emit a b r true x = if nat_eq x b then r ∷ [] else if nat_eq x a then a ∷ [] else a ∷ x ∷ []

replace_held : ℕ → ℕ → ℕ → Bool → Text → Text
replace_held a b r held [] = if held then a ∷ [] else []
replace_held a b r held (x ∷ xs) = emit a b r held x ++ replace_held a b r (nat_eq x a) xs

-- `t.replaceAll(ab, r)` for two different characters `a` and `b`, and one character `r`. An `a` is held back until
-- the next character is known.
unfoldable pub replace_pair : ℕ → ℕ → ℕ → Text → Text
unfolding replace_held emit
replace_pair a b r t = replace_held a b r false t

-- Writing `c` as `a b`, for `c` other than `a` and where `a` is written `a d`, is undone.
pub replace_pair-replace_unit :
    (a b c d : ℕ) (t : Text)
    → c ≢ a
    → b ≢ a
    → d ≢ a
    → d ≢ b
    → d ≢ c
    → b ≢ c
    → replace_pair a b c (replace_unit c (a ∷ b ∷ []) (replace_unit a (a ∷ d ∷ []) t))
      ≡ replace_unit a (a ∷ d ∷ []) t
unfolding replace_pair replace_unit replace_held emit
replace_pair-replace_unit a b c d [] h1 h2 h3 h4 h5 h6 = refl
replace_pair-replace_unit a b c d (x ∷ xs) h1 h2 h3 h4 h5 h6 =
    ground (arith, replace_pair-replace_unit a b c d xs h1 h2 h3 h4 h5 h6)

pub replace_pair-replace_unit_self :
    (a d : ℕ) (t : Text) → d ≢ a → replace_pair a d a (replace_unit a (a ∷ d ∷ []) t) ≡ t
unfolding replace_pair replace_unit replace_held emit
replace_pair-replace_unit_self a d [] h = refl
replace_pair-replace_unit_self a d (x ∷ xs) h =
    ground (arith, replace_pair-replace_unit_self a d xs h)
