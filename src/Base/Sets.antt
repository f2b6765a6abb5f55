-- ===== src/Base/Sets.antt =====
-- std::set of session pointers: ascending lists of the numbers that stand for the pointers.
use Prim.Native.Nat.{ℕ, ◌≤◌, ◌<◌}
use mathlib.Core.Path.{◌≡◌, refl, ap}
use mathlib.Core.Logic.{inl, inr}
use mathlib.Core.Bool.{Bool, false, not, ◌&&◌, ◌||◌}
use mathlib.Core.List.{List, [], ◌∷◌}
use native.Mathlib.Omega.{arith}
use eye_d.Base.Tests.{ltb, ◌==◌, if◌then◌else◌, Bool-cases, ==_iff}

unfoldable pub member : ℕ → List ℕ → Bool
member s [] = false
member s (x ∷ xs) = x == s || member s xs

unfoldable pub add : ℕ → List ℕ → List ℕ
add s [] = s ∷ []
add s (x ∷ xs) = if ltb s x then s ∷ x ∷ xs else if s == x then x ∷ xs else x ∷ add s xs

unfoldable pub remove : ℕ → List ℕ → List ℕ
remove s [] = []
remove s (x ∷ xs) = if x == s then xs else x ∷ remove s xs

unfoldable pub keep : (ℕ → Bool) → List ℕ → List ℕ
keep p [] = []
keep p (x ∷ xs) = if p x then x ∷ keep p xs else keep p xs

-- The elements rise, and are all above the bound.
abbrev pub Above : ℕ → List ℕ → Type 0
Above n [] = Unit {0}
Above n (x ∷ xs) = (n < x) × Above x xs

abbrev pub IsAscending : List ℕ → Type 0
IsAscending [] = Unit {0}
IsAscending (x ∷ xs) = Above x xs

pub Above-IsAscending : (n : ℕ) (xs : List ℕ) → Above n xs → IsAscending xs
Above-IsAscending n [] h = tt
Above-IsAscending n (x ∷ xs) h = h.1

member-Above : (s n : ℕ) (xs : List ℕ) → Above n xs → s ≤ n → member s xs ≡ false
unfolding member
member-Above s n [] a h = refl
member-Above s n (x ∷ xs) a h = ground (arith, member-Above s x xs a.1)

pub member-add : (s t : ℕ) (xs : List ℕ) → member t (add s xs) ≡ (s == t || member t xs)
unfolding member add
member-add s t [] = refl
member-add s t (x ∷ xs) = ground (arith, member-add s t xs)

pub member-remove :
    (s t : ℕ) (xs : List ℕ)
    → IsAscending xs
    → member t (remove s xs) ≡ (not (s == t) && member t xs)
unfolding member remove
member-remove s t [] a = ground arith
member-remove s t (x ∷ xs) a =
    ground (arith, member-remove s t xs (Above-IsAscending x xs a), member-Above t x xs a)

pub member-keep : (p : ℕ → Bool) (t : ℕ) (xs : List ℕ) → member t (keep p xs) ≡ (member t xs && p t)
unfolding member keep
member-keep p t [] = refl
member-keep p t (x ∷ xs) = elim (Bool-cases (x == t)) [
  | inl h ↦ let e = ap p ((==_iff x t).0 h) in ground (arith, member-keep p t xs)
  | inr h ↦ ground (arith, member-keep p t xs)
]

add-Above : (s n : ℕ) (xs : List ℕ) → n < s → Above n xs → Above n (add s xs)
unfolding add
add-Above s n [] h a = omega arith
add-Above s n (x ∷ xs) h a = ground (arith, add-Above s x xs)

pub add-IsAscending : (s : ℕ) (xs : List ℕ) → IsAscending xs → IsAscending (add s xs)
unfolding add
add-IsAscending s [] a = tt
add-IsAscending s (x ∷ xs) a = ground (arith, add-Above s x xs)

Above-weaken : (m n : ℕ) (xs : List ℕ) → m ≤ n → Above n xs → Above m xs
Above-weaken m n [] h a = tt
Above-weaken m n (x ∷ xs) h a = (omega arith, a.1)

remove-Above : (s n : ℕ) (xs : List ℕ) → Above n xs → Above n (remove s xs)
unfolding remove
remove-Above s n [] a = tt
remove-Above s n (x ∷ xs) a =
    ground (arith, remove-Above s x xs a.1, Above-weaken n x xs (omega arith) a.1)

pub remove-IsAscending : (s : ℕ) (xs : List ℕ) → IsAscending xs → IsAscending (remove s xs)
unfolding remove
remove-IsAscending s [] a = tt
remove-IsAscending s (x ∷ xs) a = ground (arith, remove-Above s x xs a, Above-IsAscending x xs a)

keep-Above : (p : ℕ → Bool) (n : ℕ) (xs : List ℕ) → Above n xs → Above n (keep p xs)
unfolding keep
keep-Above p n [] a = tt
keep-Above p n (x ∷ xs) a =
    ground (arith, keep-Above p x xs a.1, Above-weaken n x (keep p xs) (omega arith))

pub keep-IsAscending : (p : ℕ → Bool) (xs : List ℕ) → IsAscending xs → IsAscending (keep p xs)
unfolding keep
keep-IsAscending p [] a = tt
keep-IsAscending p (x ∷ xs) a = ground (arith, keep-Above p x xs a, Above-IsAscending x (keep p xs))
