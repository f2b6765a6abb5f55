-- ===== src/Base/Bits.antt =====
-- Facts about small numbers by evaluation: masks on a byte, and tables.
use Prim.Native.Nat.{ℕ, zero, suc, ◌<◌}
use mathlib.Core.Path.{◌≡◌}
use mathlib.Core.Bool.{Bool, true, ◌&&◌}
use native.Mathlib.Omega.{arith}

-- The test holds of every number below the bound.
unfoldable pub passes : (ℕ → Bool) → ℕ → Bool
passes test zero = true
passes test (suc bound) = passes test bound && test bound

module _ (test : ℕ → Bool) where
  pub passes-lt :
      (bound : ℕ) → passes test bound ≡ true → (value : ℕ) → value < bound → test value ≡ true
  unfolding passes
  passes-lt zero all value below = absurd (omega arith)
  passes-lt (suc bound) all value below = ground (arith, passes-lt bound (ground arith) value)
