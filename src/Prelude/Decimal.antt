-- ===== src/Prelude/Decimal.antt =====
-- `Display` of a natural number.
use Prim.Native.Nat.{ℕ, zero, suc, ◌+◌, ◌/◌, ◌%◌}
use mathlib.Core.List.{[], ◌∷◌}
use dsql_cli.Prelude.Tests.{ltb, if◌then◌else◌}
use dsql_cli.Prelude.CodePoints.{Chars}

-- The fuel bounds the number of digits.
unfoldable pub digits : ℕ → ℕ → Chars → Chars
digits zero n rest = rest
digits (suc fuel) n rest =
    let more = digits fuel (n / 10) ((b'0' + n % 10) ∷ rest) in
    if ltb n 10 then (b'0' + n) ∷ rest else more

unfoldable pub decimal : ℕ → Chars
unfolding digits
decimal n = digits (suc n) n []
