-- ===== src/Base/Lists.antt =====
-- Lists measured and indexed by native numbers, under the library's names.
use Prim.Native.Nat.{ℕ, zero, suc, ◌+◌, ◌<◌}
use mathlib.Core.Logic.{◌≢◌}
use mathlib.Core.Path.{◌≡◌, refl, ap}
use mathlib.Core.Bool.{Bool, true, false}
use mathlib.Core.List.{List, [], ◌∷◌, ◌++◌, map}
use mathlib.Core.Option.{Option, none, some}
use native.Mathlib.Omega.{arith}

module _ {ℓ} {A : Type ℓ} where
  abbrev pub length : List A → ℕ
  length [] = 0
  length (x ∷ xs) = suc (length xs)

  abbrev pub get_elem? : List A → ℕ → Option A
  get_elem? [] i = none
  get_elem? (x ∷ xs) zero = some x
  get_elem? (x ∷ xs) (suc i) = get_elem? xs i

  -- A write out of bounds changes nothing.
  abbrev pub set : List A → ℕ → A → List A
  set [] i v = []
  set (x ∷ xs) zero v = v ∷ xs
  set (x ∷ xs) (suc i) v = x ∷ set xs i v

  abbrev pub get_or : List A → ℕ → A → A
  get_or [] i d = d
  get_or (x ∷ xs) zero d = x
  get_or (x ∷ xs) (suc i) d = get_or xs i d

  abbrev pub take : ℕ → List A → List A
  take zero xs = []
  take (suc n) [] = []
  take (suc n) (x ∷ xs) = x ∷ take n xs

  abbrev pub drop : ℕ → List A → List A
  drop zero xs = xs
  drop (suc n) [] = []
  drop (suc n) (x ∷ xs) = drop n xs

  abbrev pub is_empty : List A → Bool
  is_empty [] = true
  is_empty (x ∷ xs) = false

  pub is_empty→eq : (xs : List A) → is_empty xs ≡ true → xs ≡ []
  is_empty→eq [] e = refl
  is_empty→eq (x ∷ xs) e = cc

  abbrev pub All {κ} : (A → Type κ) → List A → Type κ
  All P [] = Unit {κ}
  All P (x ∷ xs) = P x × All P xs

  pub length-append : (xs ys : List A) → length (xs ++ ys) ≡ length xs + length ys
  length-append [] ys = omega arith
  length-append (x ∷ xs) ys = omega (arith, length-append xs ys)

  pub All-append {κ} : (P : A → Type κ) (xs ys : List A) → All P xs → All P ys → All P (xs ++ ys)
  All-append P [] ys h k = k
  All-append P (x ∷ xs) ys h k = (h.0, All-append P xs ys h.1 k)

  pub take-append : (xs ys : List A) → take (length xs) (xs ++ ys) ≡ xs
  take-append [] ys = refl
  take-append (x ∷ xs) ys = ap (◌∷◌ x) (take-append xs ys)

  pub drop-append : (xs ys : List A) → drop (length xs) (xs ++ ys) ≡ ys
  drop-append [] ys = refl
  drop-append (x ∷ xs) ys = drop-append xs ys

  pub get_elem?-set_ne :
      (xs : List A) (i j : ℕ) (v : A) → i ≢ j → get_elem? (set xs i v) j ≡ get_elem? xs j
  get_elem?-set_ne [] i j v ne = refl
  get_elem?-set_ne (x ∷ xs) zero j v ne = behind x v j ne
    where
      behind : (x v : A) (j : ℕ) → 0 ≢ j → get_elem? (v ∷ xs) j ≡ get_elem? (x ∷ xs) j
      behind x v zero ne = absurd (ne refl)
      behind x v (suc j) ne = refl
  get_elem?-set_ne (x ∷ xs) (suc i) zero v ne = refl
  get_elem?-set_ne (x ∷ xs) (suc i) (suc j) v ne =
      get_elem?-set_ne xs i j v (λ e. ne (omega (arith, e)))

  pub get_elem?-set :
      (xs : List A) (i : ℕ) (v : A) → i < length xs → get_elem? (set xs i v) i ≡ some v
  get_elem?-set [] i v h = absurd (omega arith)
  get_elem?-set (x ∷ xs) zero v h = refl
  get_elem?-set (x ∷ xs) (suc i) v h = get_elem?-set xs i v (omega arith)

  pub length-set : (xs : List A) (i : ℕ) (v : A) → length (set xs i v) ≡ length xs
  length-set [] i v = refl
  length-set (x ∷ xs) zero v = refl
  length-set (x ∷ xs) (suc i) v = omega (arith, length-set xs i v)

module _ {ℓ κ} {A : Type ℓ} {P : A → Type κ} (R : A → Type κ) where
  pub All-imp : ((a : A) → P a → R a) → (xs : List A) → All P xs → All R xs
  All-imp step [] h = tt
  All-imp step (x ∷ xs) h = (step x h.0, All-imp step xs h.1)

  pub All-map :
      (f : A → A) → ((a : A) → P a → R (f a)) → (xs : List A) → All P xs → All R (map f xs)
  All-map f step [] h = tt
  All-map f step (x ∷ xs) h = (step x h.0, All-map f step xs h.1)
