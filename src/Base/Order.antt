-- ===== src/Base/Order.antt =====
-- A strict order given by a Boolean test, as the services compare distances.
use mathlib.Core.Path.{◌≡◌}
use mathlib.Core.Logic.{inl, inr}
use mathlib.Core.Bool.{Bool, true, false}
use eye_d.Base.Tests.{Bool-cases}

module _ {D : Type 0} (lt : D → D → Bool)
    (lt_trans : (a b c : D) → lt a b ≡ true → lt b c ≡ true → lt a c ≡ true) where
  -- What is not below `b` is not below anything that is.
  pub not_below : (d a b : D) → lt a b ≡ true → lt d b ≡ false → lt d a ≡ false
  not_below d a b h k = elim (Bool-cases (lt d a)) [
    | inl e ↦ cc (lt_trans d a b e h, k)
    | inr e ↦ e
  ]
