-- ===== src/Base/Texts.antt =====
-- `operator<` of std::string on lists of bytes, a strict linear order.
use Prim.Native.Nat.{ℕ}
use mathlib.Core.Path.{◌≡◌}
use mathlib.Core.Bool.{Bool, true, false}
use mathlib.Core.List.{List, [], ◌∷◌}
use native.Mathlib.Omega.{arith}
use eye_d.Base.Tests.{ltb, if◌then◌else◌}
use eye_d.Base.Eq.{same_bytes}

unfoldable pub lex_lt : List ℕ → List ℕ → Bool
lex_lt [] [] = false
lex_lt [] (y ∷ ys) = true
lex_lt (x ∷ xs) [] = false
lex_lt (x ∷ xs) (y ∷ ys) =
    let rest = lex_lt xs ys in if ltb x y then true else if ltb y x then false else rest

-- A text that is below another is not the same.
pub lex_lt_ne : (xs ys : List ℕ) → lex_lt xs ys ≡ true → same_bytes xs ys ≡ false
unfolding lex_lt
lex_lt_ne [] [] h = ground arith
lex_lt_ne [] (y ∷ ys) h = ground arith
lex_lt_ne (x ∷ xs) [] h = ground arith
lex_lt_ne (x ∷ xs) (y ∷ ys) h = ground (arith, lex_lt_ne xs ys)

pub lex_lt_trans :
    (xs ys zs : List ℕ) → lex_lt xs ys ≡ true → lex_lt ys zs ≡ true → lex_lt xs zs ≡ true
unfolding lex_lt
lex_lt_trans [] [] zs h k = k
lex_lt_trans [] (y ∷ ys) [] h k = ground arith
lex_lt_trans [] (y ∷ ys) (z ∷ zs) h k = ground arith
lex_lt_trans (x ∷ xs) [] zs h k = ground arith
lex_lt_trans (x ∷ xs) (y ∷ ys) [] h k = ground arith
lex_lt_trans (x ∷ xs) (y ∷ ys) (z ∷ zs) h k = ground (arith, lex_lt_trans xs ys zs)

pub lex_lt_connected :
    (xs ys : List ℕ) → same_bytes xs ys ≡ false → lex_lt xs ys ≡ false → lex_lt ys xs ≡ true
unfolding lex_lt
lex_lt_connected [] [] h k = ground arith
lex_lt_connected [] (y ∷ ys) h k = ground arith
lex_lt_connected (x ∷ xs) [] h k = ground arith
lex_lt_connected (x ∷ xs) (y ∷ ys) h k = ground (arith, lex_lt_connected xs ys)

pub lex_gt_ne : (xs ys : List ℕ) → lex_lt xs ys ≡ true → same_bytes ys xs ≡ false
unfolding lex_lt
lex_gt_ne [] [] h = ground arith
lex_gt_ne [] (y ∷ ys) h = ground arith
lex_gt_ne (x ∷ xs) [] h = ground arith
lex_gt_ne (x ∷ xs) (y ∷ ys) h = ground (arith, lex_gt_ne xs ys)

-- `std::sort` on texts; any way to sort gives this list, since texts neither of which is below the other
-- are the same.
unfoldable pub put_text : List ℕ → List (List ℕ) → List (List ℕ)
unfolding lex_lt
put_text x [] = x ∷ []
put_text x (y ∷ ys) = let rest = put_text x ys in if lex_lt y x then y ∷ rest else x ∷ y ∷ ys

unfoldable pub sort_texts : List (List ℕ) → List (List ℕ)
unfolding put_text
sort_texts [] = []
sort_texts (x ∷ xs) = put_text x (sort_texts xs)
