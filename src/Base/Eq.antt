-- ===== src/Base/Eq.antt =====
-- Decidable equality as an interface, for keys of maps and members of sets.
use Prim.Native.Nat.{ℕ}
use Prim.Native.String.{String}
use mathlib.Core.Path.{◌≡◌, refl}
use mathlib.Core.Logic.{◌↔◌, ◌≢◌}
use mathlib.Core.Bool.{Bool, true, false, ◌&&◌}
use mathlib.Core.List.{List, [], ◌∷◌}
use native.Mathlib.Omega.{arith}
use text.Mathlib.Text.{◌==◌ as str_eq}
use text.Mathlib.TextEquality.{eq_iff}
use eye_d.Base.Tests.{◌==◌ as nat_eq, ==_iff}

pub record Eq {ℓ} (A : Type ℓ) : Type ℓ where
  pub same : A → A → Bool
  pub same_iff : (a b : A) → (same a b ≡ true) ↔ (a ≡ b)

instance abbrev pub nat_Eq : Eq ℕ
nat_Eq = record { same = nat_eq; same_iff = ==_iff }

instance abbrev pub string_Eq : Eq String
string_Eq = record { same = str_eq; same_iff = eq_iff }

-- Byte strings.
abbrev pub same_bytes : List ℕ → List ℕ → Bool
same_bytes [] [] = true
same_bytes [] (y ∷ ys) = false
same_bytes (x ∷ xs) [] = false
same_bytes (x ∷ xs) (y ∷ ys) = nat_eq x y && same_bytes xs ys

pub same_bytes_iff : (xs ys : List ℕ) → (same_bytes xs ys ≡ true) ↔ (xs ≡ ys)
same_bytes_iff [] [] = (λ _. refl, λ _. refl)
same_bytes_iff [] (y ∷ ys) = (λ e. cc, λ e. cc)
same_bytes_iff (x ∷ xs) [] = (λ e. cc, λ e. cc)
same_bytes_iff (x ∷ xs) (y ∷ ys) =
    (λ e. ground (arith, same_bytes_iff xs ys), λ e. ground (arith, same_bytes_iff xs ys))

instance abbrev pub bytes_Eq : Eq (List ℕ)
bytes_Eq = record { same = same_bytes; same_iff = same_bytes_iff }

module _ {ℓ} {A : Type ℓ} ⦃e : Eq A⦄ where
  pub same_self : (a : A) → e.same a a ≡ true
  same_self a = (e.same_iff a a).1 refl

  pub same_ne : (a b : A) → a ≢ b → e.same a b ≡ false
  same_ne a b h = ground (arith, e.same_iff a b)
