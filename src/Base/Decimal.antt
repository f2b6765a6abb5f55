-- ===== src/Base/Decimal.antt =====
-- std::to_string of a number that is not negative.
use Prim.Native.Nat.{ℕ, zero, suc, ◌+◌, ◌/◌, ◌%◌}
use mathlib.Core.List.{List, [], ◌∷◌, ◌++◌}
use eye_d.Base.Tests.{ltb}
use mathlib.Core.Bool.{true, false}

-- A number has at most as many digits behind the first as it is large.
unfoldable pub digits : ℕ → ℕ → List ℕ
digits zero n = (48 + n % 10) ∷ []
digits (suc fuel) n = elim (ltb n 10) [
  | true ↦ (48 + n) ∷ []
  | false ↦ digits fuel (n / 10) ++ ((48 + n % 10) ∷ [])
]

unfoldable pub to_string : ℕ → List ℕ
unfolding digits
to_string n = digits n n
