-- ===== src/Common/Decimal.antt =====
-- `String(n)` of a natural number.
use Prim.Native.Nat.{ℕ, zero, suc, ◌+◌, ◌/◌, ◌%◌}
use mathlib.Core.List.{[], ◌∷◌}
use openapi_to.Common.Tests.{ltb, if◌then◌else◌}
use openapi_to.Common.Strings.{Text}

-- The digits of `n` in front of `rest`; a number has fewer digits than its value plus one.
digits : ℕ → ℕ → Text → Text
digits zero n rest = rest
digits (suc fuel) n rest =
    let more = digits fuel (n / 10) ((b'0' + n % 10) ∷ rest) in
    if ltb n 10 then (b'0' + n) ∷ rest else more

unfoldable pub decimal : ℕ → Text
unfolding digits
decimal n = digits (suc n) n []
