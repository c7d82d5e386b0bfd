-- ===== src/Base/Decimal.antt =====
-- The decimal digits of a number, as `format!` writes them.
use Prim.Native.Nat.{ℕ, zero, suc, ◌/◌, ◌%◌}
use Prim.Native.String.{String, ◌++◌}
use mathlib.Core.List.{List, [], ◌∷◌}
use mathlib.Core.Bool.{true, false}
use prose_core_client.Base.Tests.{ltb}

abbrev pub digit_in : List String → ℕ → String
digit_in [] n = ""
digit_in (d ∷ ds) zero = d
digit_in (d ∷ ds) (suc n) = digit_in ds n

abbrev pub digit : ℕ → String
digit = digit_in ("0" ∷ "1" ∷ "2" ∷ "3" ∷ "4" ∷ "5" ∷ "6" ∷ "7" ∷ "8" ∷ "9" ∷ [])

abbrev pub digits : ℕ → ℕ → String → String
digits zero n written = written
digits (suc fuel) n written = elim (ltb n 10) [
  | true ↦ digit n ++ written
  | false ↦ digits fuel (n / 10) (digit (n % 10) ++ written)
]

-- A number has at most one more digit than its value.
unfoldable pub decimal : ℕ → String
decimal n = digits (suc n) n ""
