-- ===== src/Common/Encoding.antt =====
-- `new TextEncoder().encode(s)`: UTF-8 from UTF-16 code units. A lone surrogate becomes U+FFFD.
use Prim.Native.Nat.{ℕ, ◌+◌, ◌-◌, ◌*◌, ◌/◌, ◌%◌}
use mathlib.Core.Bool.{Bool, false, ◌&&◌, ◌||◌}
use mathlib.Core.List.{List, [], ◌∷◌, ◌++◌}
use openapi_to.Common.Tests.{ltb, leb, if◌then◌else◌}
use openapi_to.Common.Strings.{Text}
use openapi_to.Common.Lists.{length}

is_high : ℕ → Bool
is_high c = leb 55296 c && ltb c 56320

is_low : ℕ → Bool
is_low c = leb 56320 c && ltb c 57344

-- The low surrogate behind a high one, or 0.
low_behind : ℕ → Text → ℕ
low_behind c [] = 0
low_behind c (d ∷ ds) = if is_high c && is_low d then d else 0

abbrev tail_byte : ℕ → ℕ
tail_byte n = 128 + n % 64

pair_bytes : ℕ → ℕ → List ℕ
pair_bytes c d =
    let point : ℕ = 65536 + (c - 55296) * 1024 + (d - 56320) in
    (240 + point / 262144)
    ∷ tail_byte (point / 4096)
    ∷ tail_byte (point / 64)
    ∷ tail_byte point
    ∷ []

unit_bytes : ℕ → List ℕ
unit_bytes c =
    if ltb c 128
    then c ∷ []
    else if ltb c 2048
    then (192 + c / 64) ∷ tail_byte c ∷ []
    else if is_high c || is_low c
    then 239 ∷ 191 ∷ 189 ∷ []
    else (224 + c / 4096) ∷ tail_byte (c / 64) ∷ tail_byte c ∷ []

-- `paired`: the unit is the second half of a pair, whose bytes are written already.
utf8_from : Bool → Text → List ℕ
utf8_from paired [] = []
utf8_from paired (c ∷ cs) =
    let low = if paired then 0 else low_behind c cs in
    (if paired then [] else if ltb 0 low then pair_bytes c low else unit_bytes c)
    ++ utf8_from (ltb 0 low) cs

unfoldable pub utf8 : Text → List ℕ
unfolding utf8_from low_behind is_high is_low pair_bytes unit_bytes
utf8 = utf8_from false

-- `.byteLength`
unfoldable pub utf8_length : Text → ℕ
unfolding utf8
utf8_length t = length (utf8 t)
